-- ===== src/Tests/Stores.antt =====
-- The theorems on the arena, the spans and the store at concrete inputs.
use speculation_ledger.Prelude.{
  ℕ, ◌+◌, ◌^◌, ◌%◌, ◌≡◌, ◌⊎◌, refl, not, ◌&&◌, false, Option, none, some, List, [], ◌∷◌, arith,
  length, leb, ◌==◌, if◌then◌else◌,
}
use speculation_ledger.Arena.{SpanArena, SpanEntry, new_arena, get}
use speculation_ledger.Arena as Arena
use speculation_ledger.Arena.Content.{IsSound, Extends, Clashes, add_lem}
use speculation_ledger.Arena.Compact.{Moved, compact_keeps_tokens}
use speculation_ledger.Store.{
  LedgerStore, RunState, new_store, epoch_now, epoch_of, bump_epoch, is_stale, is_stale_span,
}
use speculation_ledger.Store.Epochs.{bump_times, is_stale-bump_times}
use speculation_ledger.Store.Spans.{register}
use speculation_ledger.Store.Spans.Flush.{register_lem}
use speculation_ledger.Store.Queue.{harvest}
use speculation_ledger.Store.Queue.Drops.{harvested, harvest_lem}
use speculation_ledger.Store.Snapshot.{Sorting, snapshot, load}
use speculation_ledger.Store.Snapshot.Resume.{reloaded_all, load-snapshot}
use speculation_ledger.Tests.Toys.{toy_floats, toy_hash, toy_event, toy_params, toy_entry}

abbrev two_tokens : List ℕ
two_tokens = 3 ∷ 4 ∷ []

abbrev arena_of : Option (SpanArena × ℕ × ℕ) → SpanArena
arena_of none = new_arena
arena_of (some r) = r.0

abbrev toy_arena : SpanArena
toy_arena = arena_of (Arena.add toy_hash new_arena two_tokens)

add_two : Arena.add toy_hash new_arena two_tokens ≡ some (toy_arena, 0, 2)
unfolding Arena.add Arena.add_hashed Arena.content_hash Arena.encode
add_two = refl

add_lem_example :
    IsSound toy_hash toy_arena
    × Extends new_arena toy_arena
    × (2 ≡ length two_tokens)
    × ((get toy_arena 0 2 ≡ two_tokens) ⊎ Clashes toy_hash new_arena 0 two_tokens)
add_lem_example = add_lem toy_hash new_arena toy_arena two_tokens 0 2 tt add_two

abbrev toy_span : SpanEntry
toy_span = record {
  key = 1;
  arena_off = 0;
  length = 2;
  scope_id = 5;
  seg = 2;
  dom = 42;
  epoch = 0;
  count = 3;
  breaks = [];
}

abbrev compacted_of : Option (SpanArena × List SpanEntry) → SpanArena × List SpanEntry
compacted_of none = (new_arena, [])
compacted_of (some r) = r

abbrev toy_compacted : SpanArena × List SpanEntry
toy_compacted = compacted_of (Arena.compact toy_hash toy_arena (toy_span ∷ []))

compact_two :
    Arena.compact toy_hash toy_arena (toy_span ∷ []) ≡ some (toy_compacted.0, toy_compacted.1)
unfolding Arena.compact Arena.compact_into Arena.add Arena.add_hashed Arena.content_hash
    Arena.encode Arena.get
compact_two = refl

placed_two : length (get toy_arena 0 2) ≡ 2
unfolding Arena.add Arena.add_hashed Arena.content_hash Arena.encode Arena.get
placed_two = refl

compact_keeps_tokens_example :
    IsSound toy_hash toy_compacted.0
    × Moved toy_hash toy_arena toy_compacted.0 (toy_span ∷ []) toy_compacted.1
compact_keeps_tokens_example =
    compact_keeps_tokens toy_hash toy_arena toy_compacted.0 (toy_span ∷ []) toy_compacted.1
      (placed_two, tt) compact_two

abbrev toy_store : LedgerStore toy_floats
toy_store = new_store toy_floats toy_params

-- One edit of file 42 in scope 5: the span is stale.
abbrev edited_store : LedgerStore toy_floats
edited_store = bump_epoch toy_floats toy_store 5 42

abbrev short_run : RunState
short_run = record { seg = 2; dom = 42; tokens = 9 ∷ []; start_sigs = []; scope_ids = 5 ∷ [] }

register_lem_example :
    let s' = register toy_floats edited_store short_run 2 1 1 5 (some toy_span) in
    (is_stale_span toy_floats edited_store s' ≡ false)
    × (s'.count
        ≡ (if is_stale_span toy_floats edited_store toy_span then 1 else toy_span.count + 1))
    × (s'.arena_off ≡ (if leb toy_span.length 1 then 2 else toy_span.arena_off))
    × (s'.length ≡ (if leb toy_span.length 1 then 1 else toy_span.length))
register_lem_example = register_lem toy_floats edited_store short_run 2 1 1 5 toy_span refl

harvest_lem_example :
    harvest toy_floats toy_store (toy_event ∷ toy_event ∷ toy_event ∷ [])
    ≡ harvested toy_floats toy_store (toy_event ∷ toy_event ∷ toy_event ∷ [])
unfolding new_store
harvest_lem_example =
    harvest_lem toy_floats toy_store (toy_event ∷ toy_event ∷ toy_event ∷ []) (omega arith)

is_stale-bump_times_example :
    is_stale toy_floats (bump_times toy_floats 3 toy_store 1 42) toy_entry
    ≡ (if toy_entry.scope_id == 1 && toy_entry.dom == 42 then not (3 % 2 ^ 16 == 0) else false)
unfolding new_store is_stale epoch_now epoch_of
is_stale-bump_times_example =
    is_stale-bump_times toy_floats 3 toy_store toy_entry 1 42 (omega arith) (omega arith)
      (omega arith) refl

abbrev kept_order : Sorting
kept_order = record { of_cands = λ d. d; of_breaks = λ d. d }

abbrev saved_store : LedgerStore toy_floats
saved_store = record toy_store { hot = (77, toy_entry) ∷ [] }

load-snapshot_example :
    (st' : LedgerStore toy_floats) × (load toy_floats kept_order
        (snapshot toy_floats saved_store)
        toy_store
      ≡ some st')
    × (st'.hot ≡ reloaded_all toy_floats kept_order toy_store.params.k_init saved_store.hot)
    × (st'.arena.tokens ≡ saved_store.arena.tokens)
load-snapshot_example =
    load-snapshot toy_floats kept_order saved_store toy_store (refl, tt) (refl, tt)
