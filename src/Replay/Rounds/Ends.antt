-- ===== src/Replay/Rounds/Ends.antt =====
-- `run_replay` of sim/replay.py comes to its end: every request of aligned lists is replayed wholly
-- against a proposer whose methods do not raise.
use speculation_ledger.Prelude.{
  ℕ, zero, suc, ◌+◌, ◌-◌, ◌≤◌, ◌<◌, ◌≡◌, refl, inl, inr, true, some, List, [], ◌∷◌, arith, ltb, leb,
  ◌==◌, Bool-cases, &&-both, length, get_elem?, get_elem?-lt, All, map,
}
use speculation_ledger.Prelude.Int.{ℤ, pos, negsuc}
use speculation_ledger.Hash.{Blake2b}
use speculation_ledger.Result.{Result, ok}
use speculation_ledger.Types.{Scope, VerifyOutcome, DraftTree}
use speculation_ledger.Signature.{new_stack}
use speculation_ledger.Convert.{TraceRequest}
use speculation_ledger.Convert.Validate.{in_range, all_in}
use speculation_ledger.Proposers.{ProposeCtx, BaseProposer}
use speculation_ledger.Replay.{oracle_accept}
use speculation_ledger.Replay.Requests.{file_ids, RequestMetrics, new_metrics, count_step}
use speculation_ledger.Replay.Rounds.{
  Round, segment, cut, make_outcome, context, advance, round, rounds, replay_request, run_replay,
}
use speculation_ledger.Replay.Rounds.Facts.{round-Stepped, p-Stepped, cut-Cut, length-oracle_accept}
use speculation_ledger.Replay.Rounds.Events.{advance-Inv}
use speculation_ledger.Replay.Rounds.Outcomes.{
  AlignedRequest, IsWellFormed, make_outcome-IsWellFormed,
}

-- A call that returns a state of which Q holds.
abbrev pub Returns : {S : Type 0} → (S → Type 0) → Result S → Type 0
Returns {S = S} Q r = (st : S) × (r ≡ ok st) × Q st

-- The methods of a proposer keep Inv, and return wherever it holds; `harvest` does so for well-formed
-- outcomes.
pub record IsLawful {S : Type 0} (P : BaseProposer S) (Inv : S → Type 0) : Type 0 where
  pub begin_request : (scope : Scope) (st : S) → Inv st → Returns Inv (P.begin_request scope st)
  pub propose :
      (ctx : ProposeCtx) (st : S)
      → Inv st
      → Returns (λ (r : DraftTree × S). Inv r.1) (P.propose ctx st)
  pub harvest :
      (ev : VerifyOutcome) (st : S) → IsWellFormed ev → Inv st → Returns Inv (P.harvest ev st)
  pub end_request : (st : S) → Inv st → Returns Inv (P.end_request st)
  pub bump_epoch : (scope file : ℕ) (st : S) → Inv st → Inv (P.bump_epoch scope file st)

segment-ok :
    (xs : List ℤ) (i : ℕ) {z : ℤ}
    → all_in 3 xs ≡ true
    → get_elem? xs i ≡ some z
    → (n : ℕ) × (segment z ≡ ok n)
unfolding segment
segment-ok [] i h e = cc
segment-ok (pos n ∷ xs) zero {z} h e =
    let same : pos n ≡ z = cc in (n, rw (← same, (&&-both (leb n 3) (all_in 3 xs) h).0) refl)
segment-ok (negsuc n ∷ xs) zero h e = absurd (ground (arith, h))
segment-ok (x ∷ xs) (suc i) h e = segment-ok xs i (&&-both (in_range 3 x) (all_in 3 xs) h).1 e

module _ (h : Blake2b) {S : Type 0} (P : BaseProposer S) (Inv : S → Type 0)
    (lawful : IsLawful P Inv) where
  module _ (req : TraceRequest) (fids : List ℕ) (budget : ℕ) where
    round-Returns :
        (s : Round S)
        → AlignedRequest req
        → s.p < length req.tokens
        → Inv s.proposer
        → Returns (λ (s' : Round S). Inv s'.proposer) (round h P req fids budget s)
    unfolding round
    round-Returns s a inside v =
        let (z, e1) = get_elem?-lt s.p req.seg (omega (arith, a.length_seg)) in
        let (seg, e2) = segment-ok req.seg s.p a.segs e1 in
        let ((tree, st), e3, v') =
          lawful.propose (context h P req fids budget seg s) s.proposer v in
        let o = oracle_accept tree req.tokens s.p in
        let c = cut (length req.tokens - s.p - 1) o.0 o.2 in
        let small = cut-Cut (length req.tokens - s.p - 1) o.0 o.2 in
        let fits : s.p + c.0 < length req.tokens = omega (arith, small.0) in
        let (bonus, e4) = get_elem?-lt (s.p + c.0) req.tokens fits in
        let (st', e5, v'') =
          lawful.harvest (make_outcome req fids s.p c.0 o.1 c.1 bonus) st
            (make_outcome-IsWellFormed req fids s.p c.0 o.1 c.1 bonus a fits
              (omega (arith, small.1, length-oracle_accept tree req.tokens s.p)))
            v' in
        (
          advance h P req fids budget seg tree c.0 s st',
          rw (e1, e2, e3, e4, e5) refl,
          advance-Inv h P Inv lawful.bump_epoch req fids budget seg tree c.0 s st' v'',
        )

    -- The counts of a round: all tokens so far are counted, and a step has one at least.
    pub record Counted (s : Round S) : Type 0 where
      pub tokens_p : s.metrics.tokens ≡ s.p
      pub inside : s.p ≤ length req.tokens
      pub steps : s.metrics.steps ≤ s.metrics.tokens
      pub drafted : s.metrics.drafted_steps ≤ s.metrics.steps

    advance-Counted :
        (seg : ℕ) (tree : DraftTree) (acc : ℕ) (s : Round S) (st : S)
        → s.p + acc < length req.tokens
        → Counted s
        → Counted (advance h P req fids budget seg tree acc s st)
    unfolding advance count_step
    advance-Counted seg tree acc s st fits c = record {
      tokens_p = omega (arith, c.tokens_p);
      inside = omega (arith, fits);
      steps = omega (arith, c.steps);
      drafted = elim (Bool-cases (length tree == 0)) [
        | inl idle ↦ rw idle (omega (arith, c.drafted))
        | inr busy ↦ rw busy (omega (arith, c.drafted))
      ];
    }

    pub rounds-Returns :
        (fuel : ℕ) (s : Round S)
        → AlignedRequest req
        → length req.tokens ≤ s.p + fuel
        → Inv s.proposer
        → Counted s
        → (s' : Round S) × (rounds h P req fids budget fuel s ≡ ok s')
          × Inv s'.proposer
          × Counted s'
          × (s'.p ≡ length req.tokens)
    unfolding rounds
    rounds-Returns zero s a enough v c = (s, refl, v, c, omega (arith, c.inside))
    rounds-Returns (suc fuel) s a enough v c = elim (Bool-cases (ltb s.p (length req.tokens))) [
      | inr over ↦ (s, rw (over, rounds) refl, v, c, ground (arith, c.inside, over))
      | inl more ↦
          let inside : s.p < length req.tokens = ground (arith, more) in
          let (s₁, e, v') = round-Returns s a inside v in
          let t = round-Stepped h P req fids budget s s₁ inside e in
          let c' : Counted s₁ =
            rw (← t.advanced) (advance-Counted t.seg t.tree t.acc s t.taught t.fits c) in
          let (s', e', v'', c'', done) =
            rounds-Returns fuel s₁ a (omega (arith, p-Stepped h P req fids budget t)) v' c' in
          (s', rw (more, rounds, e, e') refl, v'', c'', done)
    ]

  -- Against a lawful proposer, a request whose lists are aligned is replayed within as many rounds as it
  -- has tokens, without an error and with the proposer's invariant kept. All its tokens are counted,
  -- in at most as many steps, of which no more were drafted for than there are.
  pub replay_request-Returns :
      (budget : ℕ) (req : TraceRequest) (st : S)
      → AlignedRequest req
      → Inv st
      → (rm : RequestMetrics) × (st' : S) × (replay_request h P budget req st ≡ ok (rm, st'))
        × Inv st'
        × (rm.tokens ≡ length req.tokens)
        × (rm.steps ≤ rm.tokens)
        × (rm.drafted_steps ≤ rm.steps)
  unfolding replay_request
  replay_request-Returns budget req st a v =
      let (st₁, e, v₁) = lawful.begin_request req.scope st v in
      let s : Round S = record {
        p = 0;
        sigs = new_stack;
        recent = [];
        events = req.events;
        metrics = new_metrics req;
        proposer = st₁;
      } in
      let (s', e', v', c, done) =
        rounds-Returns req (file_ids h req) budget (length req.tokens) s a (omega arith) v₁
          (record {
            tokens_p = refl;
            inside = omega arith;
            steps = omega arith;
            drafted = omega arith;
          }) in
      let (st₂, e'', v'') = lawful.end_request s'.proposer v' in
      (
        s'.metrics,
        st₂,
        rw (e, e', e'') refl,
        v'',
        omega (arith, c.tokens_p, done),
        c.steps,
        c.drafted,
      )

  -- Against a lawful proposer, the requests whose lists are aligned are all replayed, one after another,
  -- with all their tokens counted.
  pub run_replay-Returns :
      (budget : ℕ) (reqs : List TraceRequest) (st : S)
      → All AlignedRequest reqs
      → Inv st
      → (rms : List RequestMetrics) × (st' : S) × (run_replay h P budget reqs st ≡ ok (rms, st'))
        × Inv st'
        × (map (λ (rm : RequestMetrics). rm.tokens) rms
            ≡ map (λ (req : TraceRequest). length req.tokens) reqs)
  unfolding run_replay
  run_replay-Returns budget [] st a v = ([], st, refl, v, refl)
  run_replay-Returns budget (req ∷ reqs) st a v =
      let (rm, st₁, e, v₁, counted, _, _) = replay_request-Returns budget req st a.0 v in
      let (rms, st₂, e', v₂, all_counted) = run_replay-Returns budget reqs st₁ a.1 v₁ in
      (rm ∷ rms, st₂, rw (e, e') refl, v₂, rw (counted, all_counted) refl)
