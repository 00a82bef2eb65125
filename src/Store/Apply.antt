-- ===== src/Store/Apply.antt =====
-- `LedgerStore._apply` of core/store.py: one harvested outcome into the tables.
pub mod Keeps
pub mod Hot
pub mod Counts
use speculation_ledger.Prelude.{
  ℕ, suc, ◌+◌, ◌-◌, ◌≡◌, min, Bool, true, false, ◌&&◌, ◌||◌, not, Option, none, some, List, [], ◌∷◌,
  ltb, leb, ◌==◌, if◌then◌else◌, length, take, get_elem?, get_or,
}
use speculation_ledger.Prelude.Dict.{Dict, lookup, insert}
use speculation_ledger.Floats.{Floats}
use speculation_ledger.Hash.{Blake2b}
use speculation_ledger.Result.{Result, ok, index_error, or_raise, ◌>>=◌}
use speculation_ledger.Signature.{
  min_order, apply_key, RollingSigStack, new_stack, push, push_many, stack_list,
}
use speculation_ledger.Types.{VerifyOutcome, seg_code, seg_text, scope_ids, realized}
use speculation_ledger.Arena.{SpanEntry, get}
use speculation_ledger.Hot.{HotEntry, update_realized, update_rejected, merge_topk}
use speculation_ledger.Store.State.{LedgerStore, elem, file, get_or_create, refresh_sizes}
use speculation_ledger.Store.Spans.{Best, or_new_break, find_span_entry, track_run}

-- `seg_arr[min(pos, len(seg_arr) - 1)] if seg_arr else TEXT`
unfoldable pub seg_at : VerifyOutcome → ℕ → ℕ
seg_at ev pos = elim ev.seg [
  | [] ↦ seg_text
  | s ∷ ss ↦ get_or (s ∷ ss) (min pos (length ss)) seg_text
]

-- `ev.file_id if seg_p == code_seg else 0`
unfoldable pub dom_at : VerifyOutcome → ℕ → ℕ
unfolding seg_at
dom_at ev pos = if seg_at ev pos == seg_code then ev.file_id else 0

-- `draft_ids[pos]`, where the position is the rejected one.
unfoldable pub rejected_at : VerifyOutcome → ℕ → Option ℕ
rejected_at ev pos = if pos == ev.accepted_len then get_elem? ev.draft_ids pos else none

-- The key of the correction entry, with its rank (order, -depth); the source starts from (-1, -1).
pub record Patch : Type 0 where
  pub key : ℕ
  pub rank : Option (ℕ × ℕ)

abbrev pub no_patch : Patch
no_patch = record { key = 0; rank = none }

-- `(order, -depth) > patch_rank`
abbrev pub above_rank : ℕ → ℕ → Option (ℕ × ℕ) → Bool
above_rank order depth none = true
above_rank order depth (some (o, d)) = ltb o order || (o == order && ltb depth d)

unfoldable pub next_patch : Option ℕ → ℕ → ℕ → ℕ → Patch → Patch
next_patch none order depth key patch = patch
next_patch (some tok) order depth key patch =
    if above_rank order depth patch.rank
    then record { key = key; rank = some (order, depth) }
    else patch

module _ (fl : Floats) where
  abbrev reject : LedgerStore fl → Option ℕ → HotEntry fl → HotEntry fl
  reject st none e = e
  reject st (some tok) e = update_rejected fl e tok st.params.k_max st.params.coverage_target

  -- `merge_topk` with the lists of the position; the second list may be missing.
  abbrev merge_at : LedgerStore fl → VerifyOutcome → ℕ → HotEntry fl → Result (HotEntry fl)
  merge_at st ev pos e = elim (get_elem? ev.topk_ids pos) [
    | none ↦ ok e
    | some ids ↦ do
      q8s ← or_raise (get_elem? ev.topk_logp_q8 pos) index_error
      ok (merge_topk fl e ids q8s st.params.k_max st.params.coverage_target)
  ]

  -- The body of the inner loop: one entry takes in one position.
  unfoldable pub update_entry :
      VerifyOutcome → ℕ → ℕ → ℕ → ℕ → LedgerStore fl → Result (LedgerStore fl)
  update_entry ev pos tok key sid st = do
    let (st', e) = get_or_create fl st key (seg_at ev pos) (dom_at ev pos) sid
    let counted = update_realized fl e tok st.params.k_max st.params.coverage_target
    e' ← merge_at st ev pos (reject st (rejected_at ev pos) counted)
    ok (file fl st' key e')

  -- The inner loop over the scopes, from the one with index `depth`.
  unfoldable pub update_depths :
      VerifyOutcome
      → ℕ
      → ℕ
      → ℕ
      → ℕ
      → ℕ
      → List ℕ
      → LedgerStore fl
      → Patch
      → Result (LedgerStore fl × Patch)
  update_depths ev pos tok sig order depth [] st patch = ok (st, patch)
  update_depths ev pos tok sig order depth (sid ∷ sids) st patch =
      let key = apply_key sig order sid (seg_at ev pos) in
      let skipped = update_depths ev pos tok sig order (suc depth) sids st patch in
      let used : Result (LedgerStore fl × Patch) = (do
        st' ← update_entry ev pos tok key sid st
        update_depths ev pos tok sig order (suc depth) sids st'
            (next_patch (rejected_at ev pos) order depth key patch)) in
      if elem depth st.params.scope_depths then used else skipped

  -- The loop over the signatures, from the one of `order`.
  unfoldable pub update_orders :
      VerifyOutcome
      → ℕ
      → ℕ
      → List ℕ
      → ℕ
      → List ℕ
      → LedgerStore fl
      → Patch
      → Result (LedgerStore fl × Patch)
  update_orders ev pos tok sids order [] st patch = ok (st, patch)
  update_orders ev pos tok sids order (sig ∷ sigs) st patch =
      let skipped = update_orders ev pos tok sids (suc order) sigs st patch in
      let used : Result (LedgerStore fl × Patch) = (do
        (st', patch') ← update_depths ev pos tok sig order 0 sids st patch
        update_orders ev pos tok sids (suc order) sigs st' patch') in
      if elem order st.params.orders then used else skipped

module _ (fl : Floats) (h : Blake2b) where
  abbrev track :
      VerifyOutcome → RollingSigStack → ℕ → ℕ → List ℕ → LedgerStore fl → Result (LedgerStore fl)
  track ev sigs pos tok sids st =
      if leb 2 st.params.version
      then track_run fl h ev sigs (seg_at ev pos) (dom_at ev pos) tok sids st
      else ok st

  -- The loop over the realized tokens, from the one at `pos`.
  unfoldable pub apply_positions :
      VerifyOutcome
      → List ℕ
      → ℕ
      → List ℕ
      → RollingSigStack
      → LedgerStore fl
      → Patch
      → Result (LedgerStore fl × Patch)
  apply_positions ev sids pos [] sigs st patch = ok (st, patch)
  apply_positions ev sids pos (tok ∷ toks) sigs st patch = do
    (st', patch') ← update_orders fl ev pos tok sids min_order (stack_list sigs) st patch
    st'' ← track ev sigs pos tok sids st'
    apply_positions ev sids (suc pos) toks (push sigs tok) st'' patch'

  -- `==` of two token lists
  abbrev same_tokens : List ℕ → List ℕ → Bool
  same_tokens [] [] = true
  same_tokens (x ∷ xs) (y ∷ ys) = x == y && same_tokens xs ys
  same_tokens _ _ = false

  -- The span that the draft came from takes note of a break, or of a full success.
  unfoldable pub note_span : LedgerStore fl → VerifyOutcome → Patch → SpanEntry → SpanEntry
  note_span st ev patch s =
      let n = length ev.draft_ids in
      let acc = ev.accepted_len in
      let b = or_new_break (lookup acc s.breaks) in
      let key = if patch.key == 0 then b.patch_key else patch.key in
      let told = take (suc acc) (get st.arena s.arena_off (min n s.length)) in
      if ltb acc n && (ltb acc s.length && same_tokens told (take (suc acc) ev.draft_ids))
      then record s {
        breaks = insert acc (record { count = b.count + 1; patch_key = key }) s.breaks;
      }
      else if acc == n
      then record s { count = s.count + 1 }
      else s

  -- The span object found before the loop is the one in the table after it.
  abbrev note_found : LedgerStore fl → VerifyOutcome → Patch → Best → LedgerStore fl
  note_found st ev patch none = st
  note_found st ev patch (some (key, found)) = elim (lookup key st.spans) [
    | none ↦ st
    | some s ↦ record st { spans = insert key (note_span st ev patch s) st.spans }
  ]

  abbrev count_event : LedgerStore fl → LedgerStore fl
  count_event st = record st {
    stats = record st.stats { harvested_events = st.stats.harvested_events + 1 };
  }

  abbrev span_at_start : VerifyOutcome → RollingSigStack → List ℕ → LedgerStore fl → Best
  span_at_start ev sigs sids st =
      if leb 2 st.params.version && ltb 0 (length ev.draft_ids)
      then find_span_entry fl st (stack_list sigs) sids (seg_at ev 0)
      else none

  unfoldable pub apply : VerifyOutcome → LedgerStore fl → Result (LedgerStore fl)
  apply ev st = do
    let sids = scope_ids h ev.scope
    let sigs = push_many new_stack ev.ctx_tail
    let found = span_at_start ev sigs sids st
    (st', patch) ← apply_positions ev sids 0 (realized ev) sigs st no_patch
    ok (refresh_sizes fl (count_event (note_found st' ev patch found)))
