-- ===== src/Tests/Ledgers.antt =====
-- The theorems on the ledger proposer at concrete inputs: a replay of a text that repeats itself.
use speculation_ledger.Prelude.{◌≡◌, ◌≤◌, refl, arith, false, List, [], ◌∷◌, length, replicate}
use speculation_ledger.Prelude.Int.{pos}
use speculation_ledger.Result.{Result, ok, err}
use speculation_ledger.Types.{
  DraftTree, add, scope_ids, id_of, stable_u64, id_parts, join, realized, file_id,
}
use speculation_ledger.Types.Tree.{IsTopological}
use speculation_ledger.Signature.{
  apply_key, lookup_key, order_salt, seg_salt, fmix64, mix, new_stack, push, push_many, roll,
  stack_list,
}
use speculation_ledger.Backoff.{
  total_count, total_acc_count, best_order, order_pow, scope_pow, lam, weights, add_cands,
  add_sources,
}
use speculation_ledger.Backoff.Rank.{
  score_slot, score_slots, max_score, sort_keys, key_lt, insert_sorted, sort_from, renormalize,
  rank_slots, blend_weighted, blend, argmax, best_hat, correction,
}
use speculation_ledger.Hot.{
  new_entry, ensure, make_room, evict_weakest, weakest, weaker, update_realized, update_rejected,
  merge_topk, merge_all, merge_one, covered, sources_view, compute_view, view_cands,
}
use speculation_ledger.Store.{
  new_store, get_or_create, make_slot, revalidate, epoch_now, epoch_of, refresh_sizes, is_stale,
}
use speculation_ledger.Store.Spans.{flush_runs, flush_all}
use speculation_ledger.Store.Apply.{
  apply, apply_positions, update_orders, update_depths, update_entry, next_patch, rejected_at,
  dom_at, seg_at,
}
use speculation_ledger.Store.Queue.{harvest, enqueue_all, enqueue, drain, drain_loop, after_drain}
use speculation_ledger.Store.Lookup.{
  lookup_posterior, probe_orders, probe_depths, probe, lookup_span,
}
use speculation_ledger.Store.Steps.{start}
use speculation_ledger.Store.Steps.Invariant.{IsValid, Reach-IsValid}
use speculation_ledger.Convert.{TraceRequest}
use speculation_ledger.Proposers.{ProposeCtx}
use speculation_ledger.Proposers.Ledger.{
  LedgerConfig, LedgerState, add_leaf, extend, look, is_heavy, splice, break_here, span_loop,
  span_part, patched, chain_step, chain_loop, propose, positive_only, harvest_ledger, end_ledger,
  ledger_proposer,
}
use speculation_ledger.Proposers.Ledger.Drafts.{propose-IsTopological}
use speculation_ledger.Replay.{oracle_accept, walk, kids_from, first_hit}
use speculation_ledger.Replay.Requests.{
  RequestMetrics, file_ids, mark_files, fill, first_nonzero, count_step, add_at,
}
use speculation_ledger.Replay.Rounds.{
  segment, cut, make_outcome, fire, fire_reached, advance, round, rounds, replay_request,
  run_replay,
}
use speculation_ledger.Replay.Rounds.Stores.{run_replay-IsValid}
use speculation_ledger.Tests.Lives.{after_one, reached}
use speculation_ledger.Tests.Toys.{toy_floats, toy_hash, toy_scope, toy_params}

abbrev repeated : TraceRequest
repeated = record {
  request_id = b'q' ∷ [];
  ts = 9;
  scope = toy_scope;
  model = [];
  tokenizer_hash = [];
  tokens = 4 ∷ 5 ∷ 4 ∷ 5 ∷ 4 ∷ 5 ∷ [];
  seg = replicate 6 (pos 3);
  topk_ids = replicate 6 [];
  topk_logp_q8 = replicate 6 [];
  events = [];
}

abbrev config : LedgerConfig toy_floats
config = record {
  positive = false;
  cum_min = 5;
  w_min = 0;
  rej_margin = 5;
  span_min_count = 2;
  break_split_min = 2;
}

abbrev new_state : LedgerState toy_floats
new_state = record { store = new_store toy_floats toy_params; n_span_uses = 0; n_patches = 0 }

abbrev replayed :
    Result (List RequestMetrics × LedgerState toy_floats)
    → List RequestMetrics × LedgerState toy_floats
replayed (ok r) = r
replayed (err e) = ([], new_state)

abbrev after_replay : List RequestMetrics × LedgerState toy_floats
after_replay =
    replayed
      (run_replay toy_hash (ledger_proposer toy_floats toy_hash config) 2 (repeated ∷ []) new_state)

-- The run, in which two tokens are accepted from drafts.
replay_run :
    run_replay toy_hash (ledger_proposer toy_floats toy_hash config) 2 (repeated ∷ []) new_state
    ≡ ok after_replay
unfolding add scope_ids id_of stable_u64 id_parts join realized file_id apply_key lookup_key
    order_salt seg_salt fmix64 mix new_stack push push_many roll stack_list total_count
    total_acc_count best_order order_pow scope_pow lam weights add_cands add_sources score_slot
    score_slots max_score sort_keys key_lt insert_sorted sort_from renormalize rank_slots
    blend_weighted blend argmax best_hat correction new_entry ensure make_room evict_weakest weakest
    weaker update_realized update_rejected merge_topk merge_all merge_one covered sources_view
    compute_view view_cands new_store get_or_create make_slot revalidate epoch_now epoch_of
    refresh_sizes is_stale flush_runs flush_all apply apply_positions update_orders update_depths
    update_entry next_patch rejected_at dom_at seg_at harvest enqueue_all enqueue drain drain_loop
    after_drain lookup_posterior probe_orders probe_depths probe lookup_span add_leaf extend look
    is_heavy splice break_here span_loop span_part patched chain_step chain_loop propose
    positive_only harvest_ledger end_ledger oracle_accept walk kids_from first_hit file_ids
    mark_files fill first_nonzero count_step add_at segment cut make_outcome fire fire_reached
    advance round rounds replay_request run_replay
replay_run = refl

new_state-IsValid : IsValid toy_floats toy_hash new_state.store
new_state-IsValid = Reach-IsValid toy_floats toy_hash toy_params new_state.store (omega arith) start

run_replay-IsValid_example : IsValid toy_floats toy_hash after_replay.1.store
run_replay-IsValid_example =
    run_replay-IsValid toy_floats toy_hash config 2 (repeated ∷ []) new_state
      (
        record { length_seg = refl; length_ids = refl; length_q8s = refl; segs = refl; q8s = refl },
        tt,
      )
      replay_run new_state-IsValid

abbrev taught : LedgerState toy_floats
taught = record new_state { store = after_one }

abbrev asked : ProposeCtx
asked = record {
  sigs = push_many new_stack (5 ∷ 6 ∷ []);
  scope_stack = scope_ids toy_hash toy_scope;
  seg = 3;
  budget = 2;
  recent = 5 ∷ 6 ∷ [];
  place = 2;
}

-- A store that took in one event makes a draft.
propose_asked :
    (r : DraftTree × LedgerState toy_floats) × (propose toy_floats config asked taught ≡ ok r)
unfolding add scope_ids id_of stable_u64 id_parts join realized file_id apply_key lookup_key
    order_salt seg_salt fmix64 mix new_stack push push_many roll stack_list total_count
    total_acc_count best_order order_pow scope_pow lam weights add_cands add_sources score_slot
    score_slots max_score sort_keys key_lt insert_sorted sort_from renormalize rank_slots
    blend_weighted blend argmax best_hat correction new_entry ensure make_room evict_weakest weakest
    weaker update_realized update_rejected merge_topk merge_all merge_one covered sources_view
    compute_view view_cands new_store get_or_create make_slot revalidate epoch_now epoch_of
    refresh_sizes is_stale flush_runs flush_all apply apply_positions update_orders update_depths
    update_entry next_patch rejected_at dom_at seg_at harvest enqueue_all enqueue drain drain_loop
    after_drain lookup_posterior probe_orders probe_depths probe lookup_span add_leaf extend look
    is_heavy splice break_here span_loop span_part patched chain_step chain_loop propose
    positive_only harvest_ledger end_ledger oracle_accept walk kids_from first_hit file_ids
    mark_files fill first_nonzero count_step add_at segment cut make_outcome fire fire_reached
    advance round rounds replay_request run_replay
propose_asked = (_, refl)

propose-IsTopological_example :
    IsTopological propose_asked.0.0
    × (length propose_asked.0.0 ≤ 2)
    × IsValid toy_floats toy_hash propose_asked.0.1.store
propose-IsTopological_example =
    propose-IsTopological toy_floats toy_hash config asked taught propose_asked.1
      (Reach-IsValid toy_floats toy_hash toy_params after_one (omega arith) reached)
