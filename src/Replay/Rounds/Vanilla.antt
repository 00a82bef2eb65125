-- ===== src/Replay/Rounds/Vanilla.antt =====
-- The replay of sim/replay.py against the proposer that drafts nothing.
use speculation_ledger.Prelude.{ℕ, ◌≡◌, refl, ap, sym, ◌∙◌, List, [], ◌∷◌, arith, length, drop}
use speculation_ledger.Hash.{Blake2b}
use speculation_ledger.Result.{ok}
use speculation_ledger.Signature.{new_stack}
use speculation_ledger.Convert.{TraceRequest}
use speculation_ledger.Proposers.{vanilla_proposer}
use speculation_ledger.Replay.{oracle_accept, walk}
use speculation_ledger.Replay.Requests.{file_ids, RequestMetrics, new_metrics, count_step}
use speculation_ledger.Replay.Rounds.{Round, advance, replay_request}
use speculation_ledger.Replay.Rounds.Facts.{Stepped, rounds-induct}
use speculation_ledger.Replay.Rounds.Outcomes.{AlignedRequest}
use speculation_ledger.Replay.Rounds.Ends.{IsLawful, rounds-Returns}

pub vanilla_proposer-IsLawful : IsLawful vanilla_proposer (λ _. Unit)
vanilla_proposer-IsLawful = record {
  begin_request = λ scope st v. (st, refl, v);
  propose = λ ctx st v. (([], st), refl, v);
  harvest = λ ev st w v. (st, refl, v);
  end_request = λ st v. (st, refl, v);
  bump_epoch = λ scope file st v. v;
}

oracle_accept-none : (truth : List ℕ) (p : ℕ) → (oracle_accept [] truth p).1 ≡ []
unfolding oracle_accept walk
oracle_accept-none truth p = elim (drop p truth) as (λ xs. (walk [] 0 xs).0 ≡ []) [
  | [] ↦ refl
  | t ∷ ts ↦ refl
]

Stepped-vanilla :
    (h : Blake2b) (req : TraceRequest) (fids : List ℕ) (budget : ℕ) {s s' : Round Unit}
    → Stepped h vanilla_proposer req fids budget s s'
    → (s.metrics.steps ≡ s.p) × (s.metrics.drafted_tokens ≡ 0)
    → (s'.metrics.steps ≡ s'.p) × (s'.metrics.drafted_tokens ≡ 0)
unfolding advance count_step
Stepped-vanilla h req fids budget {s} t (one_each, none_drafted) =
    let empty : [] ≡ t.tree = cc in
    let nothing : t.path ≡ [] =
      t.path_of
      ∙ ap (λ tree. (oracle_accept tree req.tokens s.p).1) (sym empty)
      ∙ oracle_accept-none req.tokens s.p in
    let size : length t.path ≡ 0 = ap length nothing in
    let drafts : length t.tree ≡ 0 = ap length (sym empty) in
    rw (← t.advanced)
      (omega (arith, one_each, size, t.acc_path), omega (arith, none_drafted, drafts))

-- Against the proposer that drafts nothing, the replay of a request whose lists are aligned returns, with
-- as many steps as the request has tokens, all its tokens counted, and no drafted token.
pub vanilla_proposer-steps :
    (h : Blake2b) (budget : ℕ) (req : TraceRequest)
    → AlignedRequest req
    → (rm : RequestMetrics) × (replay_request h vanilla_proposer budget req tt ≡ ok (rm, tt))
      × (rm.steps ≡ length req.tokens)
      × (rm.tokens ≡ length req.tokens)
      × (rm.drafted_tokens ≡ 0)
unfolding replay_request
vanilla_proposer-steps h budget req a =
    let s : Round Unit = record {
      p = 0;
      sigs = new_stack;
      recent = [];
      events = req.events;
      metrics = new_metrics req;
      proposer = tt;
    } in
    let (s', e, _, c, done) =
      rounds-Returns h vanilla_proposer (λ _. Unit) vanilla_proposer-IsLawful req (file_ids h req)
        budget (length req.tokens) s a (omega arith) tt
        (record {
          tokens_p = refl;
          inside = omega arith;
          steps = omega arith;
          drafted = omega arith;
        }) in
    let (one_each, none_drafted) =
      rounds-induct h vanilla_proposer req (file_ids h req) budget
        (λ x. (x.metrics.steps ≡ x.p) × (x.metrics.drafted_tokens ≡ 0))
        (λ x y inside t q. Stepped-vanilla h req (file_ids h req) budget t q) (length req.tokens) s
        s' e (refl, refl) in
    (s'.metrics, rw e refl, one_each ∙ done, c.tokens_p ∙ done, none_drafted)
