-- ===== src/Store/Spans/Flush.antt =====
-- What one key of `_flush_run` in core/store.py does to the entry that stands there.
use speculation_ledger.Prelude.{
  ℕ, ◌+◌, ◌≡◌, inl, inr, false, some, arith, leb, if◌then◌else◌, Bool-cases,
}
use speculation_ledger.Floats.{Floats}
use speculation_ledger.Arena.{SpanEntry}
use speculation_ledger.Store.State.{RunState, LedgerStore, is_stale_span}
use speculation_ledger.Store.Spans.{register, refresh_span, move_span}

module _ (fl : Floats) where
  -- For an entry that stands under a key of its own scope: registering a run there makes the entry
  -- one that is not stale, which counts one more, or 1 if it was stale; and the entry points to the
  -- run's tokens if these are at least as many as its own. If they are fewer it keeps the tokens it
  -- had, a stale entry too.
  pub register_lem :
      (st : LedgerStore fl) (run : RunState) (off len key scope_id : ℕ) (s : SpanEntry)
      → s.scope_id ≡ scope_id
      → let s' = register fl st run off len key scope_id (some s) in
        (is_stale_span fl st s' ≡ false)
        × (s'.count ≡ (if is_stale_span fl st s then 1 else s.count + 1))
        × (s'.arena_off ≡ (if leb s.length len then off else s.arena_off))
        × (s'.length ≡ (if leb s.length len then len else s.length))
  unfolding register refresh_span move_span is_stale_span
  register_lem st run off len key scope_id s same = elim (Bool-cases (is_stale_span fl st s)) [
    | inl stale ↦ elim (Bool-cases (leb s.length len)) [
      | inl longer ↦ ground (arith, stale, longer)
      | inr shorter ↦ ground (arith, stale, shorter)
    ]
    | inr live ↦ elim (Bool-cases (leb s.length len)) [
      | inl longer ↦ ground (arith, live, longer)
      | inr shorter ↦ ground (arith, live, shorter)
    ]
  ]
