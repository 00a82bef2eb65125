-- ===== src/Store/Spans.antt =====
-- The span table of core/store.py: the search for an entry, and the runs that become spans.
pub mod Flush
pub mod Frame
use speculation_ledger.Prelude.{
  ℕ, suc, ◌+◌, min, Bool, true, false, ◌&&◌, ◌||◌, not, Option, none, some, List, [], ◌∷◌, ◌++◌,
  ltb, leb, ◌==◌, if◌then◌else◌, length, map,
}
use speculation_ledger.Prelude.Dict.{Dict, lookup, insert, erase}
use speculation_ledger.Bits.{◌⊕◌}
use speculation_ledger.Floats.{Floats}
use speculation_ledger.Hash.{Blake2b}
use speculation_ledger.Result.{Result, ok, overflow_error, or_raise, ◌>>=◌}
use speculation_ledger.Signature.{
  min_order, max_order, fmix64, fold_key, RollingSigStack, stack_list,
}
use speculation_ledger.Types.{VerifyOutcome, ScopeKind, id_of}
use speculation_ledger.Arena.{SpanArena, SpanEntry, Break, get}
use speculation_ledger.Arena as Arena
use speculation_ledger.Store.State.{RunState, LedgerStore, elem, epoch_now, is_stale_span}

abbrev pub span_salt : ℕ
span_salt = 0x5CA1AB1E5CA1AB1E

unfoldable pub span_key : ℕ → ℕ → ℕ → ℕ → ℕ
span_key sig order scope_id seg = fmix64 (fold_key sig order scope_id seg ⊕ span_salt)

-- `(s.count, s.length, -key) > (best.count, best.length, -best.key)`
unfoldable pub outranks : ℕ → SpanEntry → SpanEntry → Bool
outranks key s best =
    ltb best.count s.count
    || (s.count == best.count
        && (ltb best.length s.length || (s.length == best.length && ltb key best.key)))

-- The best span so far, with the key that it was found under.
abbrev pub Best : Type 0
Best = Option (ℕ × SpanEntry)

-- `rank_key` is the key that takes part in the comparison: `s.key` in `_find_span_entry`, and the key
-- of the probe in `lookup_span`.
unfoldable pub better : Best → ℕ → ℕ → SpanEntry → Best
better none rank_key key s = some (key, s)
better (some (k, best)) rank_key key s =
    if outranks rank_key s best then some (key, s) else some (k, best)

-- The first place at which the lists differ, or the length of the shorter one.
unfoldable pub first_difference : List ℕ → List ℕ → ℕ
first_difference [] ys = 0
first_difference (x ∷ xs) [] = 0
first_difference (x ∷ xs) (y ∷ ys) = if x == y then suc (first_difference xs ys) else 0

-- The breaks at offsets below d.
unfoldable pub breaks_below : ℕ → Dict Break → Dict Break
breaks_below d [] = []
breaks_below d (b ∷ bs) = let rest = breaks_below d bs in if leb d b.0 then rest else b ∷ rest

-- `breaks.setdefault(off, Break())`
abbrev pub or_new_break : Option Break → Break
or_new_break none = record { count = 0; patch_key = 0 }
or_new_break (some b) = b

module _ (fl : Floats) where
  -- An entry that is there counts if it is not stale and has the segment.
  unfoldable pub consider : LedgerStore fl → ℕ → ℕ → Option SpanEntry → Best → Best
  consider st seg key none best = best
  consider st seg key (some s) best =
      if not (is_stale_span fl st s) && s.seg == seg then better best s.key key s else best

  -- The inner loop of `_find_span_entry` at one order, from the scope with index `depth`.
  unfoldable pub find_at_depths : LedgerStore fl → ℕ → ℕ → ℕ → ℕ → List ℕ → Best → Best
  find_at_depths st seg sig order depth [] best = best
  find_at_depths st seg sig order depth (scope_id ∷ ids) best =
      let key = span_key sig order scope_id seg in
      find_at_depths st seg sig order (suc depth) ids (
        if elem depth st.params.scope_depths
        then consider st seg key (lookup key st.spans) best
        else best)

  -- The outer loop, from the signature of `order`; it stops above `max_order`.
  unfoldable pub find_at_orders : LedgerStore fl → ℕ → List ℕ → ℕ → List ℕ → Best → Best
  find_at_orders st seg scope_ids order [] best = best
  find_at_orders st seg scope_ids order (sig ∷ sigs) best =
      let rest =
        find_at_orders st seg scope_ids (suc order) sigs
          (find_at_depths st seg sig order 0 scope_ids best) in
      if ltb max_order order then best else rest

  unfoldable pub find_span_entry : LedgerStore fl → List ℕ → List ℕ → ℕ → Best
  find_span_entry st sig_stack scope_ids seg =
      find_at_orders st seg scope_ids min_order sig_stack none

  -- A new span entry for a run.
  abbrev pub new_span : LedgerStore fl → RunState → ℕ → ℕ → ℕ → ℕ → SpanEntry
  new_span st run off len key scope_id = record {
    key = key;
    arena_off = off;
    length = len;
    scope_id = scope_id;
    seg = run.seg;
    dom = run.dom;
    epoch = epoch_now fl st scope_id run.dom;
    count = 1;
    breaks = [];
  }

  -- A stale entry is opened again for the run: the breaks, the epoch, the domain and the count.
  unfoldable pub refresh_span : LedgerStore fl → RunState → ℕ → SpanEntry → SpanEntry
  refresh_span st run scope_id s =
      if is_stale_span fl st s
      then record s {
        breaks = [];
        epoch = epoch_now fl st scope_id run.dom;
        dom = run.dom;
        count = 0;
      }
      else s

  -- The body moves to the run's tokens if these are at least as many.
  unfoldable pub move_span : LedgerStore fl → RunState → ℕ → ℕ → SpanEntry → SpanEntry
  move_span st run off len s =
      let d = first_difference (get st.arena s.arena_off s.length) run.tokens in
      let kept = if s.arena_off == off then s.breaks else breaks_below d s.breaks in
      if leb s.length len then record s { arena_off = off; length = len; breaks = kept } else s

  -- One key of `_flush_run`'s double loop.
  unfoldable pub register : LedgerStore fl → RunState → ℕ → ℕ → ℕ → ℕ → Option SpanEntry → SpanEntry
  unfolding refresh_span move_span
  register st run off len key scope_id none = new_span st run off len key scope_id
  register st run off len key scope_id (some s) =
      let s' = move_span st run off len (refresh_span st run scope_id s) in
      record s' { count = s'.count + 1 }

  unfoldable pub register_at_depths :
      RunState → ℕ → ℕ → ℕ → ℕ → ℕ → List ℕ → LedgerStore fl → LedgerStore fl
  register_at_depths run off len sig order depth [] st = st
  register_at_depths run off len sig order depth (scope_id ∷ ids) st =
      let key = span_key sig order scope_id run.seg in
      let s = register st run off len key scope_id (lookup key st.spans) in
      register_at_depths run off len sig order (suc depth) ids (
        if elem depth st.params.span_scope_depths
        then record st { spans = insert key s st.spans }
        else st)

  unfoldable pub register_at_orders :
      RunState → ℕ → ℕ → ℕ → List ℕ → LedgerStore fl → LedgerStore fl
  register_at_orders run off len order [] st = st
  register_at_orders run off len order (sig ∷ sigs) st =
      register_at_orders run off len (suc order) sigs (
        if elem order st.params.span_orders
        then register_at_depths run off len sig order 0 run.scope_ids st
        else st)

module _ (fl : Floats) (h : Blake2b) where
  -- `_flush_run` of a run that has been popped from the table.
  unfoldable pub flush_popped : RunState → LedgerStore fl → Result (LedgerStore fl)
  flush_popped run st = if ltb (length run.tokens) st.params.span_min_len then ok st else do
    (arena, off, len) ← or_raise (Arena.add h st.arena run.tokens) overflow_error
    ok (register_at_orders fl run off len min_order run.start_sigs (record st { arena = arena }))

  unfoldable pub flush_run : ℕ → LedgerStore fl → Result (LedgerStore fl)
  unfolding flush_popped
  flush_run sid st = elim (lookup sid st.runs) [
    | none ↦ ok st
    | some run ↦ flush_popped run (record st { runs = erase sid st.runs })
  ]

  -- The run that `_track_run` writes to; `none` asks for a new one.
  abbrev pub must_flush : LedgerStore fl → RunState → ℕ → Bool
  must_flush st run seg = not (run.seg == seg) || leb st.params.span_max_len (length run.tokens)

  abbrev pub extend_run : RunState → ℕ → ℕ → RunState
  extend_run run tok dom = record run {
    tokens = run.tokens ++ tok ∷ [];
    dom = if dom == 0 then run.dom else dom;
  }

  abbrev pub start_run : ℕ → ℕ → List ℕ → List ℕ → RunState
  start_run seg dom sigs scope_ids = record {
    seg = seg;
    dom = dom;
    tokens = [];
    start_sigs = sigs;
    scope_ids = scope_ids;
  }

  unfoldable pub track_run :
      VerifyOutcome
      → RollingSigStack
      → ℕ
      → ℕ
      → ℕ
      → List ℕ
      → LedgerStore fl
      → Result (LedgerStore fl)
  unfolding flush_run
  track_run ev sigs seg dom tok scope_ids st =
      let sid = id_of h ev.scope ScopeKind.session in
      let write = λ (run : RunState) (s : LedgerStore fl). record s {
        runs = insert sid (extend_run run tok dom) s.runs;
      } in
      let fresh = start_run seg dom (stack_list sigs) scope_ids in
      elim (lookup sid st.runs) [
        | none ↦ ok (write fresh st)
        | some run ↦
            if must_flush st run seg
            then (do st' ← flush_run sid st; ok (write fresh st'))
            else ok (write run st)
      ]

  -- `flush_runs` over the session ids that the table had.
  unfoldable pub flush_all : List ℕ → LedgerStore fl → Result (LedgerStore fl)
  flush_all [] st = ok st
  flush_all (sid ∷ sids) st = do st' ← flush_run sid st; flush_all sids st'

  unfoldable pub flush_runs : LedgerStore fl → Result (LedgerStore fl)
  unfolding flush_all
  flush_runs st = flush_all (map (λ (r : ℕ × RunState). r.0) st.runs) st
