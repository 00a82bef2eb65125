-- ===== src/Replay/Rounds.antt =====
-- `run_replay` of sim/replay.py: the replay of requests against a proposer, one draft after another.
-- The requests are ones that `read_traces` gives, so that the numbers of `seg` and `topk_logp_q8` are
-- not negative; the outcomes hold them as naturals.
pub mod Facts
pub mod Outcomes
pub mod Events
pub mod Stores
pub mod Ends
pub mod Record
pub mod Vanilla
use speculation_ledger.Prelude.{
  ℕ, zero, suc, ◌+◌, ◌-◌, Bool, true, false, Option, none, some, List, [], ◌∷◌, ◌++◌, ltb, leb,
  ◌==◌, if◌then◌else◌, length, take, drop, last, get_elem?, map,
}
use speculation_ledger.Prelude.Int.{ℤ, pos, negsuc}
use speculation_ledger.Hash.{Blake2b}
use speculation_ledger.Result.{Result, ok, err, or_raise, index_error, value_error, ◌>>=◌}
use speculation_ledger.Types.{ScopeKind, Scope, VerifyOutcome, DraftTree, scope_ids, id_of, file_id}
use speculation_ledger.Signature.{RollingSigStack, max_order, new_stack, push_many}
use speculation_ledger.Convert.{TraceEvent, TraceRequest, effective_bump_pos}
use speculation_ledger.Proposers.{ProposeCtx, BaseProposer}
use speculation_ledger.Replay.{oracle_accept}
use speculation_ledger.Replay.Requests.{
  is_file_edit, file_ids, first_nonzero, RequestMetrics, new_metrics, count_step,
}

-- `_RECENT_WINDOW`
abbrev pub recent_window : ℕ
recent_window = 32

-- `Segment(x)`
unfoldable pub segment : ℤ → Result ℕ
segment (pos n) = if leb n 3 then ok n else err value_error
segment (negsuc n) = err value_error

abbrev pub nat_of : ℤ → ℕ
nat_of (pos n) = n
nat_of (negsuc n) = 0

-- The accepted length and the rejected token, cut so that a bonus token is left.
unfoldable pub cut : ℕ → ℕ → Option ℕ → ℕ × Option ℕ
cut max_take acc rej_tok = if ltb max_take acc then (max_take, none) else (acc, rej_tok)

-- `(rej_tok,) if rej_tok is not None else ()`
abbrev pub maybe_one : Option ℕ → List ℕ
maybe_one none = []
maybe_one (some t) = t ∷ []

-- `xs[p : p + n]`
abbrev pub window {ℓ} : {A : Type ℓ} → ℕ → ℕ → List A → List A
window p n xs = take n (drop p xs)

unfoldable pub make_outcome : TraceRequest → List ℕ → ℕ → ℕ → List ℕ → Option ℕ → ℕ → VerifyOutcome
make_outcome req fids p acc path rej_tok bonus = record {
  scope = req.scope;
  ctx_tail = take (p - (p - max_order)) (drop (p - max_order) req.tokens);
  draft_ids = take acc path ++ maybe_one rej_tok;
  accepted_len = acc;
  bonus_id = bonus;
  topk_ids = window p (acc + 1) req.topk_ids;
  topk_logp_q8 = map (map nat_of) (window p (acc + 1) req.topk_logp_q8);
  seg = map nat_of (window p (acc + 1) req.seg);
  file_id = first_nonzero (window p (acc + 1) fids);
  t_us = 0;
}

-- The state of the loop over the positions: `events` are the ones from `ev_idx` on.
pub record Round (S : Type 0) : Type 0 where
  pub p : ℕ
  pub sigs : RollingSigStack
  pub recent : List ℕ
  pub events : List TraceEvent
  pub metrics : RequestMetrics
  pub proposer : S

module _ (h : Blake2b) {S : Type 0} (P : BaseProposer S) where
  -- What one event does to the proposer.
  unfoldable pub fire : Scope → TraceEvent → S → S
  fire scope e st =
      let fid = file_id h e.file in
      if is_file_edit e
      then P.bump_epoch (id_of h scope ScopeKind.repo) fid
          (P.bump_epoch (id_of h scope ScopeKind.session) fid st)
      else st

  -- The events that were reached before position `reached`.
  unfoldable pub fire_reached : Scope → ℕ → List TraceEvent → S → List TraceEvent × S
  unfolding fire
  fire_reached scope reached [] st = ([], st)
  fire_reached scope reached (e ∷ evs) st =
      let rest = fire_reached scope reached evs (fire scope e st) in
      if ltb (effective_bump_pos e) reached then rest else (e ∷ evs, st)

  module _ (req : TraceRequest) (fids : List ℕ) (budget : ℕ) where
    abbrev pub context : ℕ → Round S → ProposeCtx
    context seg s = record {
      sigs = s.sigs;
      scope_stack = scope_ids h req.scope;
      seg = seg;
      budget = budget;
      recent = last recent_window s.recent;
      place = s.p;
    }

    -- The rest of a step after the harvest, which realized `acc + 1` tokens.
    unfoldable pub advance : ℕ → DraftTree → ℕ → Round S → S → Round S
    unfolding fire_reached
    advance seg tree acc s st =
        let n_real = acc + 1 in
        let new = window s.p n_real req.tokens in
        let (evs, st') = fire_reached req.scope (s.p + n_real) s.events st in
        record {
          p = s.p + n_real;
          sigs = push_many s.sigs new;
          recent = last recent_window (s.recent ++ new);
          events = evs;
          metrics = count_step seg n_real (length tree) s.metrics;
          proposer = st';
        }

    -- One round of the loop: draft, verify, harvest, fire, count.
    unfoldable pub round : Round S → Result (Round S)
    unfolding segment oracle_accept cut make_outcome advance
    round s = do
      z ← or_raise (get_elem? req.seg s.p) index_error
      seg ← segment z
      (tree, st) ← P.propose (context seg s) s.proposer
      let (acc₀, path, rej₀) = oracle_accept tree req.tokens s.p
      let (acc, rej_tok) = cut (length req.tokens - s.p - 1) acc₀ rej₀
      bonus ← or_raise (get_elem? req.tokens (s.p + acc)) index_error
      st' ← P.harvest (make_outcome req fids s.p acc path rej_tok bonus) st
      ok (advance seg tree acc s st')

    -- `while p < n`, in at most so many rounds.
    unfoldable pub rounds : ℕ → Round S → Result (Round S)
    unfolding round
    rounds zero s = ok s
    rounds (suc fuel) s = elim (ltb s.p (length req.tokens)) [
      | false ↦ ok s
      | true ↦ round s >>= (λ s'. rounds fuel s')
    ]

  -- One request. Each round realizes a token at least, so that as many rounds as tokens are enough.
  unfoldable pub replay_request : ℕ → TraceRequest → S → Result (RequestMetrics × S)
  unfolding rounds
  replay_request budget req st = do
    st' ← P.begin_request req.scope st
    s ← rounds req (file_ids h req) budget (length req.tokens) (record {
      p = 0;
      sigs = new_stack;
      recent = [];
      events = req.events;
      metrics = new_metrics req;
      proposer = st';
    })
    st'' ← P.end_request s.proposer
    ok (s.metrics, st'')

  unfoldable pub run_replay : ℕ → List TraceRequest → S → Result (List RequestMetrics × S)
  unfolding replay_request
  run_replay budget [] st = ok ([], st)
  run_replay budget (req ∷ reqs) st = do
    (rm, st') ← replay_request budget req st
    (rms, st'') ← run_replay budget reqs st'
    ok (rm ∷ rms, st'')
