-- ===== src/Tests/Lives.antt =====
-- The theorems on the updates of the store at concrete inputs: a new store takes in one event.
use speculation_ledger.Prelude.{
  ℕ, ◌+◌, ◌≡◌, refl, inr, Option, none, some, [], ◌∷◌, arith, length, drop,
}
use speculation_ledger.Result.{Result, ok, err}
use speculation_ledger.Types.{scope_ids, id_of, stable_u64, id_parts, join, realized}
use speculation_ledger.Signature.{
  apply_key, order_salt, seg_salt, fmix64, mix, new_stack, push, push_many, roll, stack_list,
}
use speculation_ledger.Hot.{
  new_entry, ensure, make_room, update_realized, update_rejected, merge_topk, merge_all, merge_one,
  covered,
}
use speculation_ledger.Store.{
  LedgerStore, new_store, get_or_create, make_slot, revalidate, epoch_now, epoch_of, refresh_sizes,
  is_stale,
}
use speculation_ledger.Store.Apply.{
  apply, apply_positions, update_orders, update_depths, update_entry, next_patch, rejected_at,
  dom_at, seg_at,
}
use speculation_ledger.Store.Apply.Hot.{IsHotOk, IsQ8, apply-IsHotOk}
use speculation_ledger.Store.Compact.{compact, live_hot, live_spans, keep_entry, decay_cands}
use speculation_ledger.Arena as Arena
use speculation_ledger.Store.Compact.Decay.{compact-IsHotOk}
use speculation_ledger.Store.Queue.{harvest, enqueue_all, enqueue, drain, drain_loop, after_drain}
use speculation_ledger.Store.Queue.Drains.{taken, drain_lem}
use speculation_ledger.Store.Snapshot.{Sorting, snapshot, load}
use speculation_ledger.Store.Snapshot.Fits.{snapshot-FitsDoc}
use speculation_ledger.Store.Steps.{Reach, harvested_all, drained, loaded, start, later}
use speculation_ledger.Store.Steps.Invariant.{IsValid, Reach-IsValid}
use speculation_ledger.Tests.Toys.{toy_floats, toy_hash, toy_event, toy_params}

abbrev empty_store : LedgerStore toy_floats
empty_store = new_store toy_floats toy_params

abbrev store_of : Result (LedgerStore toy_floats) → LedgerStore toy_floats
store_of (ok st) = st
store_of (err e) = empty_store

abbrev drained_of : Result (ℕ × LedgerStore toy_floats) → LedgerStore toy_floats
drained_of (ok r) = r.1
drained_of (err e) = empty_store

abbrev applied : LedgerStore toy_floats
applied = store_of (apply toy_floats toy_hash toy_event empty_store)

apply_event : apply toy_floats toy_hash toy_event empty_store ≡ ok applied
unfolding apply apply_positions update_orders update_depths update_entry next_patch rejected_at
    dom_at seg_at get_or_create make_slot revalidate epoch_now epoch_of refresh_sizes is_stale
    new_store scope_ids id_of stable_u64 id_parts join realized apply_key order_salt seg_salt fmix64
    mix new_stack push push_many roll stack_list new_entry ensure make_room update_realized
    update_rejected merge_topk merge_all merge_one covered
apply_event = refl

empty_store-IsHotOk : IsHotOk toy_floats empty_store
unfolding new_store
empty_store-IsHotOk = record { init = omega arith; bounded = inr (omega arith); entries = tt }

event-IsQ8 : IsQ8 toy_floats toy_hash toy_event
event-IsQ8 = ((omega arith, (omega arith, tt)), tt)

applied-IsHotOk : IsHotOk toy_floats applied
applied-IsHotOk =
    apply-IsHotOk toy_floats toy_hash toy_event empty_store applied event-IsQ8 apply_event
      empty_store-IsHotOk

apply-IsHotOk_example : IsHotOk toy_floats applied
apply-IsHotOk_example =
    apply-IsHotOk toy_floats toy_hash toy_event empty_store applied event-IsQ8 apply_event
      empty_store-IsHotOk

abbrev compacted : LedgerStore toy_floats
compacted = store_of (compact toy_floats toy_hash applied)

compact-applied : compact toy_floats toy_hash applied ≡ ok compacted
unfolding apply apply_positions update_orders update_depths update_entry next_patch rejected_at
    dom_at seg_at get_or_create make_slot revalidate epoch_now epoch_of refresh_sizes is_stale
    new_store scope_ids id_of stable_u64 id_parts join realized apply_key order_salt seg_salt fmix64
    mix new_stack push push_many roll stack_list new_entry ensure make_room update_realized
    update_rejected merge_topk merge_all merge_one covered compact live_hot live_spans keep_entry
    decay_cands Arena.compact Arena.compact_into
compact-applied = refl

compact-IsHotOk_example : IsHotOk toy_floats compacted
compact-IsHotOk_example =
    compact-IsHotOk toy_floats toy_hash applied compacted compact-applied applied-IsHotOk

-- Two events wait, of which a drain takes one.
abbrev waiting : LedgerStore toy_floats
waiting = harvest toy_floats empty_store (toy_event ∷ toy_event ∷ [])

abbrev pub after_one : LedgerStore toy_floats
after_one = drained_of (drain toy_floats toy_hash (some 1) waiting)

drain_one : drain toy_floats toy_hash (some 1) waiting ≡ ok (1, after_one)
unfolding apply apply_positions update_orders update_depths update_entry next_patch rejected_at
    dom_at seg_at get_or_create make_slot revalidate epoch_now epoch_of refresh_sizes is_stale
    new_store scope_ids id_of stable_u64 id_parts join realized apply_key order_salt seg_salt fmix64
    mix new_stack push push_many roll stack_list new_entry ensure make_room update_realized
    update_rejected merge_topk merge_all merge_one covered harvest enqueue_all enqueue drain
    drain_loop after_drain
drain_one = refl

drain_lem_example :
    (1 ≡ taken toy_floats toy_hash (some 1) 0 (length waiting.queue))
    × (after_one.queue ≡ drop 1 waiting.queue)
    × (after_one.stats.harvested_events ≡ waiting.stats.harvested_events + 1)
    × (after_one.params ≡ waiting.params)
drain_lem_example = drain_lem toy_floats toy_hash (some 1) waiting after_one 1 drain_one

pub reached : Reach toy_floats toy_hash toy_params after_one
reached =
    later
      (later start
        (harvested_all empty_store (toy_event ∷ toy_event ∷ []) (event-IsQ8, (event-IsQ8, tt))))
      (drained waiting after_one (some 1) 1 drain_one)

-- The store then loads its own snapshot.
abbrev same_order : Sorting
same_order = record { of_cands = λ d. d; of_breaks = λ d. d }

abbrev loaded_of : Option (LedgerStore toy_floats) → LedgerStore toy_floats
loaded_of (some st) = st
loaded_of none = empty_store

abbrev reloaded_store : LedgerStore toy_floats
reloaded_store = loaded_of (load toy_floats same_order (snapshot toy_floats after_one) after_one)

load-after_one :
    load toy_floats same_order (snapshot toy_floats after_one) after_one ≡ some reloaded_store
unfolding load snapshot
load-after_one = refl

reached_again : Reach toy_floats toy_hash toy_params reloaded_store
reached_again = later reached (
    loaded after_one reloaded_store same_order (snapshot toy_floats after_one)
      (snapshot-FitsDoc toy_floats same_order after_one (λ d. (refl, λ a. a))
        (Reach-IsValid toy_floats toy_hash toy_params after_one (omega arith) reached).hot_ok)
      load-after_one)

Reach-IsValid_example : IsValid toy_floats toy_hash reloaded_store
Reach-IsValid_example =
    Reach-IsValid toy_floats toy_hash toy_params reloaded_store (omega arith) reached_again
