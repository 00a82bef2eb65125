-- ===== src/Replay/Rounds/Facts.antt =====
-- What one round of `run_replay` of sim/replay.py does, for every proposer.
use speculation_ledger.Prelude.{
  ℕ, zero, suc, ◌+◌, ◌-◌, ◌≤◌, ◌<◌, ◌≡◌, refl, ap, ◌∙◌, inl, inr, Option, some, List, [], ◌∷◌, ◌++◌,
  arith, ltb, Bool-cases, length, take, drop, get_elem?, length-take, take-take, take-append_of_le,
  take-suc, get_elem?-drop,
}
use speculation_ledger.Hash.{Blake2b}
use speculation_ledger.Result.{ok, or_raise, or_raise-eq-ok, index_error, >>=-eq-ok}
use speculation_ledger.Types.{VerifyOutcome, DraftTree, realized}
use speculation_ledger.Convert.{TraceRequest}
use speculation_ledger.Proposers.{BaseProposer}
use speculation_ledger.Replay.{oracle_accept}
use speculation_ledger.Replay.Prefix.{oracle_accept-take}
use speculation_ledger.Replay.Rounds.{
  Round, segment, cut, maybe_one, window, make_outcome, context, advance, round, rounds,
}

pub cut-Cut : (m acc : ℕ) (rej : Option ℕ) → ((cut m acc rej).0 ≤ m) × ((cut m acc rej).0 ≤ acc)
unfolding cut
cut-Cut m acc rej = elim (Bool-cases (ltb m acc)) [
  | inl more ↦ rw more (omega arith, ground (arith, more))
  | inr less ↦ rw less (ground (arith, less), omega arith)
]

pub length-oracle_accept :
    (tree : DraftTree) (truth : List ℕ) (p : ℕ)
    → (oracle_accept tree truth p).0 ≡ length (oracle_accept tree truth p).1
unfolding oracle_accept
length-oracle_accept tree truth p = refl

module _ (h : Blake2b) {S : Type 0} (P : BaseProposer S) (req : TraceRequest) (fids : List ℕ)
    (budget : ℕ) where
  -- A round that returned: what was drafted, what became of it, and what the proposer was told.
  pub record Stepped (s s' : Round S) : Type 0 where
    pub seg : ℕ
    pub tree : DraftTree
    pub drafted : S
    pub acc : ℕ
    pub path : List ℕ
    pub rej_tok : Option ℕ
    pub bonus : ℕ
    pub taught : S
    pub proposed : P.propose (context h P req fids budget seg s) s.proposer ≡ ok (tree, drafted)
    pub fits : s.p + acc < length req.tokens
    pub acc_path : acc ≤ length path
    pub path_of : path ≡ (oracle_accept tree req.tokens s.p).1
    pub path_true : take acc path ≡ take acc (drop s.p req.tokens)
    pub bonus_true : get_elem? req.tokens (s.p + acc) ≡ some bonus
    pub harvested : P.harvest (make_outcome req fids s.p acc path rej_tok bonus) drafted ≡ ok taught
    pub advanced : advance h P req fids budget seg tree acc s taught ≡ s'

  pub round-Stepped :
      (s s' : Round S)
      → s.p < length req.tokens
      → round h P req fids budget s ≡ ok s'
      → Stepped s s'
  unfolding round
  round-Stepped s s' inside e =
      let (z, e1, r1) = >>=-eq-ok (or_raise (get_elem? req.seg s.p) index_error) _ e in
      let (seg, e2, r2) = >>=-eq-ok (segment z) _ r1 in
      let ((tree, st), e3, r3) =
        >>=-eq-ok (P.propose (context h P req fids budget seg s) s.proposer) _ r2 in
      let o = oracle_accept tree req.tokens s.p in
      let c = cut (length req.tokens - s.p - 1) o.0 o.2 in
      let (bonus, e4, r4) =
        >>=-eq-ok (or_raise (get_elem? req.tokens (s.p + c.0)) index_error) _ r3 in
      let (st', e5, r5) =
        >>=-eq-ok (P.harvest (make_outcome req fids s.p c.0 o.1 c.1 bonus) st) _ r4 in
      let small = cut-Cut (length req.tokens - s.p - 1) o.0 o.2 in
      let (true_path, _) = oracle_accept-take tree req.tokens s.p in
      record {
        seg = seg;
        tree = tree;
        drafted = st;
        acc = c.0;
        path = o.1;
        rej_tok = c.1;
        bonus = bonus;
        taught = st';
        proposed = e3;
        fits = omega (arith, small.0);
        acc_path = omega (arith, small.1, length-oracle_accept tree req.tokens s.p);
        path_of = refl;
        path_true = ap (take c.0) true_path ∙ take-take c.0 o.0 (drop s.p req.tokens) small.1;
        bonus_true = or_raise-eq-ok (get_elem? req.tokens (s.p + c.0)) index_error e4;
        harvested = e5;
        advanced = cc;
      }

  module _ {s s' : Round S} (t : Stepped s s') where
    abbrev pub outcome : VerifyOutcome
    outcome = make_outcome req fids s.p t.acc t.path t.rej_tok t.bonus

    pub realized-outcome : realized outcome ≡ window s.p (t.acc + 1) req.tokens
    unfolding make_outcome realized
    realized-outcome =
        let short = length-take t.acc t.path in
        let first : take t.acc (take t.acc t.path ++ maybe_one t.rej_tok)
            ≡ take t.acc (drop s.p req.tokens) =
          take-append_of_le t.acc (take t.acc t.path) (maybe_one t.rej_tok)
            (omega (arith, short, t.acc_path))
          ∙ take-take t.acc t.acc t.path (omega arith)
          ∙ t.path_true in
        ap (λ xs. xs ++ t.bonus ∷ []) first
        ∙ take-suc t.acc (drop s.p req.tokens) (get_elem?-drop s.p t.acc req.tokens ∙ t.bonus_true)
        ∙ ap (λ k. take k (drop s.p req.tokens)) {x = suc t.acc} (omega arith)

    pub p-Stepped : s'.p ≡ s.p + (t.acc + 1)
    unfolding advance
    p-Stepped = rw (← t.advanced) refl

  -- What every round keeps, the loop keeps.
  pub rounds-induct :
      (Q : Round S → Type 0)
      → ((s s' : Round S) → s.p < length req.tokens → Stepped s s' → Q s → Q s')
      → (fuel : ℕ) (s s' : Round S) → rounds h P req fids budget fuel s ≡ ok s'
      → Q s
      → Q s'
  unfolding rounds
  rounds-induct Q keeps zero s s' e q = let same : s ≡ s' = cc in rw (← same) q
  rounds-induct Q keeps (suc fuel) s s' e q = elim (Bool-cases (ltb s.p (length req.tokens))) [
    | inr over ↦ let same : s ≡ s' = ground (arith, over) in rw (← same) q
    | inl more ↦
        let inside : s.p < length req.tokens = ground (arith, more) in
        let (mid, first, rest) =
          >>=-eq-ok (round h P req fids budget s) _ (rw (more, rounds) at e) in
        rounds-induct Q keeps fuel mid s' rest
          (keeps s mid inside (round-Stepped s mid inside first) q)
  ]
