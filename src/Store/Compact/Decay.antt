-- ===== src/Store/Compact/Decay.antt =====
-- What the compaction of core/store.py leaves of the hot table.
use native.Mathlib.Nat.{div-le_self}
use speculation_ledger.Prelude.{
  ℕ, ◌^◌, ◌≤◌, ◌≡◌, ◌⊎◌, refl, inl, inr, ◌&&◌, Option, none, some, [], ◌∷◌, arith, ◌==◌, Bool-cases,
  Option-cases, length, map,
}
use speculation_ledger.Prelude.Dict.{Dict}
use speculation_ledger.Floats.{Floats}
use speculation_ledger.Hash.{Blake2b}
use speculation_ledger.Result.{ok, or_raise, overflow_error, >>=-eq-ok}
use speculation_ledger.Arena.{SpanEntry}
use speculation_ledger.Arena as Arena
use speculation_ledger.Hot.{Cand, HotEntry}
use speculation_ledger.Hot.Capacity.{FitsLayout, AllFit}
use speculation_ledger.Hot.Ok.{IsOk}
use speculation_ledger.Store.State.{LedgerStore, is_stale, refresh_sizes}
use speculation_ledger.Store.Apply.Hot.{AllOk, IsHotOk, top_cap}
use speculation_ledger.Store.Compact.{
  shifted, decay_cand, decay_cands, decay_entry, recap, keep_entry, keep, live_hot, live_spans,
  compact, refile, count_compaction,
}

shifted_le : (x shift : ℕ) → shifted x shift ≤ x
shifted_le x shift = div-le_self x (2 ^ shift)

decay_cands_lem :
    (shift : ℕ) (d : Dict Cand)
    → AllFit d
    → AllFit (decay_cands shift d) × (length (decay_cands shift d) ≤ length d)
unfolding decay_cands
decay_cands_lem shift [] h = (tt, omega arith)
decay_cands_lem shift ((t, c) ∷ d) h =
    let (fit, shorter) = decay_cands_lem shift d h.1 in
    let c' = decay_cand shift c in
    let small : FitsLayout c' = (
      omega (arith, shifted_le c.acc shift, h.0.0),
      omega (arith, shifted_le c.rej shift, h.0.1),
      h.0.2,
    ) in
    elim (Bool-cases (c'.acc == 0 && c'.rej == 0)) [
      | inl dead ↦ rw dead (fit, omega arith)
      | inr live ↦ rw live ((small, fit), omega arith)
    ]

module _ (fl : Floats) where
  -- A candidate table that is smaller and still fits, under the cap that compaction leaves.
  recapped-IsOk :
      (st : LedgerStore fl) (key : ℕ) (e : HotEntry fl) (d : Dict Cand)
      → 1 ≤ st.params.k_init
      → IsOk fl (top_cap fl st) key e
      → AllFit d
      → length d ≤ length e.cands
      → IsOk fl (top_cap fl st) key (recap fl st (record e { cands = d; src = none }))
  recapped-IsOk st key e d init h fit shorter =
      let room = h.within.fits in
      let capped = h.capped in
      record {
        keyed = h.keyed;
        within = record { room = omega arith; fits = omega arith; widths = fit };
        coherent = inl refl;
        capped = omega arith;
      }

  keep_entry-IsOk :
      (st : LedgerStore fl) (key : ℕ) (e e' : HotEntry fl)
      → 1 ≤ st.params.k_init
      → IsOk fl (top_cap fl st) key e
      → keep_entry fl st e ≡ some e'
      → IsOk fl (top_cap fl st) key e'
  unfolding keep_entry
  keep_entry-IsOk st key e e' init h r = elim (Bool-cases (is_stale fl st e)) [
    | inl stale ↦ absurd (ground (arith, stale))
    | inr live ↦
        let (fit, shorter) = decay_cands_lem st.params.decay_shift e.cands h.within.widths in
        let kept = recap fl st (decay_entry fl st e) in
        chosen kept (decay_cands st.params.decay_shift e.cands)
          (recapped-IsOk st key e (decay_cands st.params.decay_shift e.cands) init h fit shorter)
          (rw (live, keep_entry) at r)
  ]
    where
      chosen :
          (kept : HotEntry fl) (d : Dict Cand)
          → IsOk fl (top_cap fl st) key kept
          → Path (Option (HotEntry fl)) (elim d [ [] ↦ none | c ∷ cs ↦ some kept ]) (some e')
          → IsOk fl (top_cap fl st) key e'
      chosen kept [] hk p = absurd (ground arith)
      chosen kept (c ∷ cs) hk p = let same : kept ≡ e' = ground arith in rw (← same) hk

  live_hot_lem :
      (st : LedgerStore fl) (d : Dict (HotEntry fl))
      → 1 ≤ st.params.k_init
      → AllOk fl (top_cap fl st) d
      → AllOk fl (top_cap fl st) (live_hot fl st d) × (length (live_hot fl st d) ≤ length d)
  unfolding live_hot
  live_hot_lem st [] init h = (tt, omega arith)
  live_hot_lem st (e ∷ d) init h =
      let (rest, shorter) = live_hot_lem st d init h.1 in
      elim (Option-cases (keep_entry fl st e.1)) [
        | inl gone ↦ rw (gone, keep) (rest, omega arith)
        | inr (e', kept) ↦
            rw (kept, keep) ((keep_entry-IsOk st e.0 e.1 e' init h.0 kept, rest), omega arith)
      ]

  -- If k_init is at least 1, the table keeps to max_entries (or max_entries is 0), and every entry
  -- stands under its key, within its own cap of at most max(k_init, k_max), with 16-bit counts,
  -- byte-wide summaries and a cache that is empty or up to date, then a compaction that returns leaves
  -- all of that so.
  pub compact-IsHotOk :
      (h : Blake2b) (st st' : LedgerStore fl)
      → compact fl h st ≡ ok st'
      → IsHotOk fl st
      → IsHotOk fl st'
  unfolding compact refresh_sizes
  compact-IsHotOk h st st' e ho =
      let kept = map (λ (s : ℕ × SpanEntry). s.1) (live_spans fl st st.spans) in
      let ((arena, moved), first, rest) =
        >>=-eq-ok (or_raise (Arena.compact h st.arena kept) overflow_error) _ e in
      let (entries, shorter) = live_hot_lem st st.hot ho.init ho.entries in
      let same : refresh_sizes fl (
            count_compaction fl (record st {
              hot = live_hot fl st st.hot;
              spans = refile (live_spans fl st st.spans) moved;
              arena = arena;
            }))
          ≡ st' =
        ground arith in
      let bound : (st.params.max_entries ≡ 0)
          ⊎ (length (live_hot fl st st.hot) ≤ st.params.max_entries) =
        ground (arith, shorter, ho.bounded) in
      rw (← same) (record { init = ho.init; bounded = bound; entries = entries })
