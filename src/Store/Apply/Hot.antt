-- ===== src/Store/Apply/Hot.antt =====
-- The hot table through `_apply`: its bound, and the state of its entries.
use speculation_ledger.Prelude.{
  ℕ, zero, suc, ◌≤◌, ◌≡◌, ◌⊎◌, refl, max, inl, inr, not, ◌&&◌, Option, none, some, List, [], ◌∷◌,
  arith, leb, ◌==◌, Bool-cases, Option-cases, length, get_elem?, All,
}
use speculation_ledger.Prelude.Dict.{Dict, lookup, insert, length-insert_new, length-insert_old}
use speculation_ledger.Floats.{Floats}
use speculation_ledger.Hash.{Blake2b}
use speculation_ledger.Result.{ok, >>=-eq-ok}
use speculation_ledger.Types.{VerifyOutcome}
use speculation_ledger.Hot.{HotEntry}
use speculation_ledger.Hot.Ok.{
  IsOk, new_entry-IsOk, reset-IsOk, update_realized-IsOk, update_rejected-IsOk, merge_topk-IsOk,
}
use speculation_ledger.Store.State.{
  LedgerStore, drop_oldest, make_slot, revalidate, is_stale, get_or_create, file, refresh_sizes,
}
use speculation_ledger.Store.Spans.{Best}
use speculation_ledger.Store.Spans.Frame.{IsFramed, track_run-IsFramed}
use speculation_ledger.Store.Apply.Keeps.{keeps_apply, note_found-IsFramed}
use speculation_ledger.Store.Apply.{
  Patch, note_found, count_event, rejected_at, reject, merge_at, update_entry, apply, seg_at,
  dom_at,
}

All-get :
    {A : Type 0} (Q : A → Type 0) (xs : List A) (i : ℕ) {x : A}
    → All Q xs
    → get_elem? xs i ≡ some x
    → Q x
All-get Q [] i a e = absurd (ground arith)
All-get Q (y ∷ xs) zero {x} a e = let same : y ≡ x = cc in rw (← same) a.0
All-get Q (y ∷ xs) (suc i) a e = All-get Q xs i a.1 e

module _ (fl : Floats) where
  abbrev pub AllOk : ℕ → Dict (HotEntry fl) → Type 0
  AllOk top [] = Unit
  AllOk top (e ∷ d) = IsOk fl top e.0 e.1 × AllOk top d

  -- The largest cap that an entry can have.
  abbrev pub top_cap : LedgerStore fl → ℕ
  top_cap st = max st.params.k_init st.params.k_max

  -- The table keeps to `max_entries`, where that is a bound, and each of its entries is in order.
  pub record IsHotOk (st : LedgerStore fl) : Type 0 where
    pub init : 1 ≤ st.params.k_init
    pub bounded : (st.params.max_entries ≡ 0) ⊎ (length st.hot ≤ st.params.max_entries)
    pub entries : AllOk (top_cap st) st.hot

  pub AllOk-insert :
      (top key : ℕ) (e : HotEntry fl) (d : Dict (HotEntry fl))
      → IsOk fl top key e
      → AllOk top d
      → AllOk top (insert key e d)
  AllOk-insert top key e [] he h = (he, tt)
  AllOk-insert top key e (x ∷ d) he h = elim (Bool-cases (key == x.0)) [
    | inl p ↦ let same : key ≡ x.0 = ground arith in rw p (rw same at he, h.1)
    | inr p ↦ rw p (h.0, AllOk-insert top key e d he h.1)
  ]

  pub AllOk-lookup :
      (top key : ℕ) (d : Dict (HotEntry fl)) {e : HotEntry fl}
      → AllOk top d
      → lookup key d ≡ some e
      → IsOk fl top key e
  AllOk-lookup top key [] h p = cc
  AllOk-lookup top key (x ∷ d) {e} h p = elim (Bool-cases (key == x.0)) [
    | inl q ↦
        let same : x.0 ≡ key = ground arith in
        let found : x.1 ≡ e = ground arith in rw (← found) (rw same at h.0)
    | inr q ↦ AllOk-lookup top key d h.1 (rw q at p)
  ]

  drop_oldest_lem :
      (top key : ℕ) (d : Dict (HotEntry fl))
      → lookup key d ≡ none
      → AllOk top d
      → AllOk top (drop_oldest fl d)
        × (lookup key (drop_oldest fl d) ≡ none)
        × ((length d ≡ 0) ⊎ (suc (length (drop_oldest fl d)) ≡ length d))
  drop_oldest_lem top key [] absent h = (tt, refl, inl refl)
  drop_oldest_lem top key (e ∷ d) absent h = (h.1, ground arith, inr refl)

  make_slot_lem :
      (st : LedgerStore fl) (key : ℕ)
      → lookup key st.hot ≡ none
      → IsHotOk st
      → let st' = make_slot fl st in
        (st'.params ≡ st.params)
        × AllOk (top_cap st) st'.hot
        × (lookup key st'.hot ≡ none)
        × ((st.params.max_entries ≡ 0) ⊎ (suc (length st'.hot) ≤ st.params.max_entries))
  unfolding make_slot
  make_slot_lem st key absent h =
      let m = st.params.max_entries in
      elim (Bool-cases (not (m == 0) && leb m (length st.hot))) [
        | inr free ↦ rw (free, make_slot) (refl, h.entries, absent, ground (arith, free, h.bounded))
        | inl full ↦
            let (ok', absent', shorter) =
              drop_oldest_lem (top_cap st) key st.hot absent h.entries in
            rw (full, make_slot) (refl, ok', absent', ground (arith, full, shorter, h.bounded))
      ]

  get_or_create-IsOk :
      (st : LedgerStore fl) (key seg dom sid : ℕ)
      → IsHotOk st
      → IsOk fl (top_cap st) key (get_or_create fl st key seg dom sid).1
  unfolding get_or_create revalidate
  get_or_create-IsOk st key seg dom sid h = elim (Option-cases (lookup key st.hot)) [
    | inl new ↦
        rw (new, get_or_create)
          (new_entry-IsOk fl (top_cap st) key seg dom sid _ _ h.init (omega arith))
    | inr (e, old) ↦
        rw (old, get_or_create)
          (let found = AllOk-lookup (top_cap st) key st.hot h.entries old in
            elim (Bool-cases (is_stale fl st e)) [
              | inl stale ↦ rw stale (reset-IsOk fl (top_cap st) key e _ dom found)
              | inr live ↦ rw live (elim (Bool-cases (not (dom == 0) && not (e.dom == dom))) [
                | inl moved ↦ rw moved (record {
                  keyed = found.keyed;
                  within = record {
                    room = found.within.room;
                    fits = found.within.fits;
                    widths = found.within.widths;
                  };
                  coherent = found.coherent;
                  capped = found.capped;
                })
                | inr kept ↦ rw kept found
              ])
            ])
  ]

  -- The store that `_get_or_create` returns has room for what the caller files.
  get_or_create-room :
      (st : LedgerStore fl) (key seg dom sid : ℕ) (e : HotEntry fl)
      → IsHotOk st
      → let st' = (get_or_create fl st key seg dom sid).0 in
        (st'.params ≡ st.params)
        × AllOk (top_cap st) st'.hot
        × ((st.params.max_entries ≡ 0) ⊎ (length (insert key e st'.hot) ≤ st.params.max_entries))
  unfolding get_or_create
  get_or_create-room st key seg dom sid e h = elim (Option-cases (lookup key st.hot)) [
    | inl new ↦
        let (same, ok', absent, room) = make_slot_lem st key new h in
        let longer = length-insert_new key e (make_slot fl st).hot absent in
        rw (new, get_or_create) (same, ok', ground (arith, longer, room))
    | inr (old_e, old) ↦
        let kept = length-insert_old key e st.hot old in
        rw (old, get_or_create) (refl, h.entries, ground (arith, kept, h.bounded))
  ]

module _ (fl : Floats) (h : Blake2b) (ev : VerifyOutcome) where
  -- Every quantised value of the outcome is in 0..255.
  abbrev pub IsQ8 : Type 0
  IsQ8 = All (All (λ q. q ≤ 255)) ev.topk_logp_q8

  merge_at-IsOk :
      (st : LedgerStore fl) (pos key : ℕ) (e e' : HotEntry fl)
      → IsQ8
      → IsOk fl (top_cap fl st) key e
      → merge_at fl st ev pos e ≡ ok e'
      → IsOk fl (top_cap fl st) key e'
  merge_at-IsOk st pos key e e' q he r = elim (Option-cases (get_elem? ev.topk_ids pos)) [
    | inl off ↦ let same : e ≡ e' = ground (arith, off) in rw (← same) he
    | inr (ids, on) ↦ elim (Option-cases (get_elem? ev.topk_logp_q8 pos)) [
      | inl missing ↦ absurd (ground (arith, on, missing))
      | inr (q8s, there) ↦
          let merged =
            merge_topk-IsOk fl st.params.k_max st.params.coverage_target (top_cap fl st) key e ids
              q8s (All-get _ ev.topk_logp_q8 pos q there) (omega arith) he in
          let same : _ ≡ e' = ground (arith, on, there) in rw (← same) merged
    ]
  ]

  reject-IsOk :
      (st : LedgerStore fl) (tok : Option ℕ) (key : ℕ) (e : HotEntry fl)
      → IsOk fl (top_cap fl st) key e
      → IsOk fl (top_cap fl st) key (reject fl st tok e)
  reject-IsOk st none key e he = he
  reject-IsOk st (some tok) key e he =
      update_rejected-IsOk fl st.params.k_max st.params.coverage_target (top_cap fl st) key e tok
        (omega arith) he

  update_entry-IsHotOk :
      (pos tok key sid : ℕ) (st st' : LedgerStore fl)
      → IsQ8
      → update_entry fl ev pos tok key sid st ≡ ok st'
      → IsHotOk fl st
      → IsHotOk fl st'
  unfolding update_entry
  update_entry-IsHotOk pos tok key sid st st' q r hs =
      let found = get_or_create fl st key (seg_at ev pos) (dom_at ev pos) sid in
      let (e', merged, rest) = >>=-eq-ok _ _ r in
      let counted =
        update_realized-IsOk fl st.params.k_max st.params.coverage_target (top_cap fl st) key
          found.1 tok (omega arith)
          (get_or_create-IsOk fl st key (seg_at ev pos) (dom_at ev pos) sid hs) in
      let final =
        merge_at-IsOk st pos key _ e' q (reject-IsOk st (rejected_at ev pos) key _ counted)
          merged in
      let (params_same, entries, room) =
        get_or_create-room fl st key (seg_at ev pos) (dom_at ev pos) sid e' hs in
      let same : file fl found.0 key e' ≡ st' = ground arith in
      rw (← same) (record {
        init = rw params_same hs.init;
        bounded = rw params_same room;
        entries = rw params_same (AllOk-insert fl (top_cap fl st) key e' found.0.hot final entries);
      })

  hot_apart : (s s' : LedgerStore fl) → IsFramed fl s s' → IsHotOk fl s → IsHotOk fl s'
  hot_apart s s' framed hs = record {
    init = rw (framed.params_same) hs.init;
    bounded = rw (framed.params_same, framed.hot_same) hs.bounded;
    entries = rw (framed.params_same, framed.hot_same) hs.entries;
  }

  finish :
      (s : LedgerStore fl) (patch : Patch) (found : Best)
      → IsHotOk fl s
      → IsHotOk fl (refresh_sizes fl (count_event fl h (note_found fl h s ev patch found)))
  unfolding refresh_sizes
  finish s patch found hs =
      let noted = hot_apart s _ (note_found-IsFramed fl h ev patch found s) hs in
      record { init = noted.init; bounded = noted.bounded; entries = noted.entries }

  -- If every quantised log-probability of the outcome is in 0..255, k_init is at least 1, the table
  -- keeps to max_entries (or max_entries is 0), and every entry stands under its key, within its own
  -- cap of at most max(k_init, k_max), with 16-bit counts, byte-wide summaries and a cache that is
  -- empty or up to date, then a call of `_apply` that returns leaves all of that so.
  pub apply-IsHotOk :
      (st st' : LedgerStore fl) → IsQ8 → apply fl h ev st ≡ ok st' → IsHotOk fl st → IsHotOk fl st'
  apply-IsHotOk st st' q =
      keeps_apply fl h ev (IsHotOk fl)
        (λ pos tok key sid s s'. update_entry-IsHotOk pos tok key sid s s' q)
        (λ pos tok sigs sids s s' e hs.
          hot_apart s s'
            (track_run-IsFramed fl h ev sigs (seg_at ev pos) (dom_at ev pos) tok sids s s' e) hs)
        (IsHotOk fl) finish st st'
