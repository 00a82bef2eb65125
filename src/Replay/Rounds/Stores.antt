-- ===== src/Replay/Rounds/Stores.antt =====
-- The replay of sim/replay.py against a `LedgerProposer` of sim/proposers.py: the proposer's store
-- stays valid.
use speculation_ledger.Prelude.{
  ℕ, ◌≤◌, ◌≡◌, inl, inr, Bool-cases, none, List, [], ◌∷◌, length, All, All-replicate,
}
use speculation_ledger.Floats.{Floats}
use speculation_ledger.Hash.{Blake2b}
use speculation_ledger.Result.{ok, >>=-eq-ok}
use speculation_ledger.Types.{VerifyOutcome, realized}
use speculation_ledger.Signature.{new_stack}
use speculation_ledger.Store.Spans.{flush_runs}
use speculation_ledger.Store.Queue.{harvest, drain}
use speculation_ledger.Store.Steps.{IsByteWide, bumped, harvested_all, drained, flushed}
use speculation_ledger.Store.Steps.Invariant.{IsValid, step-IsValid}
use speculation_ledger.Convert.{TraceRequest}
use speculation_ledger.Proposers.Ledger.{
  LedgerConfig, LedgerState, positive_only, stored_outcome, harvest_ledger, end_ledger,
  ledger_proposer,
}
use speculation_ledger.Proposers.Ledger.Drafts.{propose-IsTopological}
use speculation_ledger.Replay.Requests.{RequestMetrics, file_ids, new_metrics}
use speculation_ledger.Replay.Rounds.{Round, context, rounds, replay_request, run_replay}
use speculation_ledger.Replay.Rounds.Facts.{Stepped, outcome, rounds-induct}
use speculation_ledger.Replay.Rounds.Events.{advance-Inv}
use speculation_ledger.Replay.Rounds.Outcomes.{AlignedRequest, make_outcome-IsWellFormed}

positive_only-IsByteWide : (ev : VerifyOutcome) → IsByteWide (positive_only ev)
unfolding positive_only
positive_only-IsByteWide ev = All-replicate (All (λ q. q ≤ 255)) (length (realized ev)) [] tt

module _ (fl : Floats) (h : Blake2b) (cfg : LedgerConfig fl) where
  stored_outcome-IsByteWide :
      (ev : VerifyOutcome) → IsByteWide ev → IsByteWide (stored_outcome fl h cfg ev)
  stored_outcome-IsByteWide ev wide = elim (Bool-cases cfg.positive) [
    | inl positive ↦ rw positive (positive_only-IsByteWide ev)
    | inr outcomes ↦ rw outcomes wide
  ]

  harvest_ledger-IsValid :
      (ev : VerifyOutcome) (s : LedgerState fl) {s' : LedgerState fl}
      → IsByteWide ev
      → harvest_ledger fl h cfg ev s ≡ ok s'
      → IsValid fl h s.store
      → IsValid fl h s'.store
  unfolding harvest_ledger
  harvest_ledger-IsValid ev s {s'} wide e v =
      let evs = stored_outcome fl h cfg ev ∷ [] in
      let queued = harvest fl s.store evs in
      let v₁ =
        step-IsValid fl h (harvested_all s.store evs (stored_outcome-IsByteWide ev wide, tt)) v in
      let ((n, store), e1, e2) = >>=-eq-ok (drain fl h none queued) _ e in
      let same : record s { store = store } ≡ s' = cc in
      rw (← same) (step-IsValid fl h (drained queued store none n e1) v₁)

  end_ledger-IsValid :
      (s : LedgerState fl) {s' : LedgerState fl}
      → end_ledger fl h s ≡ ok s'
      → IsValid fl h s.store
      → IsValid fl h s'.store
  unfolding end_ledger
  end_ledger-IsValid s {s'} e v =
      let (store, e1, e2) = >>=-eq-ok (flush_runs fl h s.store) _ e in
      let same : record s { store = store } ≡ s' = cc in
      rw (← same) (step-IsValid fl h (flushed s.store store e1) v)

  abbrev Valid : LedgerState fl → Type 0
  Valid s = IsValid fl h s.store

  bump-Valid :
      (scope file : ℕ) (s : LedgerState fl)
      → Valid s
      → Valid ((ledger_proposer fl h cfg).bump_epoch scope file s)
  bump-Valid scope file s v = step-IsValid fl h (bumped s.store scope file) v

  Stepped-Valid :
      (req : TraceRequest) (fids : List ℕ) (budget : ℕ) (s s' : Round (LedgerState fl))
      → AlignedRequest req
      → Stepped h (ledger_proposer fl h cfg) req fids budget s s'
      → Valid s.proposer
      → Valid s'.proposer
  Stepped-Valid req fids budget s s' a t v =
      let P = ledger_proposer fl h cfg in
      let (_, _, v₁) =
        propose-IsTopological fl h cfg (context h P req fids budget t.seg s) s.proposer t.proposed
          v in
      let formed =
        make_outcome-IsWellFormed req fids s.p t.acc t.path t.rej_tok t.bonus a t.fits t.acc_path in
      let v₂ =
        harvest_ledger-IsValid (outcome h P req fids budget t) t.drafted formed.q8s t.harvested
          v₁ in
      rw (← t.advanced)
        (advance-Inv h P Valid bump-Valid req fids budget t.seg t.tree t.acc s t.taught v₂)

  replay_request-Valid :
      (budget : ℕ) (req : TraceRequest) (s : LedgerState fl) {rm : RequestMetrics}
      {s' : LedgerState fl}
      → AlignedRequest req
      → replay_request h (ledger_proposer fl h cfg) budget req s ≡ ok (rm, s')
      → Valid s
      → Valid s'
  unfolding replay_request
  replay_request-Valid budget req s {rm} {s'} a e v =
      let P = ledger_proposer fl h cfg in
      let start : Round (LedgerState fl) = record {
        p = 0;
        sigs = new_stack;
        recent = [];
        events = req.events;
        metrics = new_metrics req;
        proposer = s;
      } in
      let (last_round, e1, r1) =
        >>=-eq-ok (rounds h P req (file_ids h req) budget (length req.tokens) start) _ e in
      let (s₂, e2, r2) = >>=-eq-ok (end_ledger fl h last_round.proposer) _ r1 in
      let v₁ =
        rounds-induct h P req (file_ids h req) budget (λ x. Valid x.proposer)
          (λ x y inside t q. Stepped-Valid req (file_ids h req) budget x y a t q)
          (length req.tokens) start last_round e1 v in
      let v₂ : Valid s₂ = end_ledger-IsValid last_round.proposer e2 v₁ in
      let same : s₂ ≡ s' = cc in rw (← same) v₂

  -- If the replay of requests whose lists are aligned returns, a valid store is valid after it: queue,
  -- hot table and entries are within their bounds however many requests were replayed.
  pub run_replay-IsValid :
      (budget : ℕ) (reqs : List TraceRequest) (s : LedgerState fl) {rms : List RequestMetrics}
      {s' : LedgerState fl}
      → All AlignedRequest reqs
      → run_replay h (ledger_proposer fl h cfg) budget reqs s ≡ ok (rms, s')
      → IsValid fl h s.store
      → IsValid fl h s'.store
  unfolding run_replay
  run_replay-IsValid budget [] s {s' = s'} a e v = let same : s ≡ s' = cc in rw (← same) v
  run_replay-IsValid budget (req ∷ reqs) s {s' = s'} a e v =
      let ((rm, s₁), e1, r1) =
        >>=-eq-ok (replay_request h (ledger_proposer fl h cfg) budget req s) _ e in
      let ((rms, s₂), e2, r2) =
        >>=-eq-ok (run_replay h (ledger_proposer fl h cfg) budget reqs s₁) _ r1 in
      let same : s₂ ≡ s' = cc in
      rw (← same)
        (run_replay-IsValid budget reqs s₁ a.1 e2 (replay_request-Valid budget req s a.0 e1 v))
