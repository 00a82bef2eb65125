-- ===== src/Hot/Capacity.antt =====
-- The table of a hot entry never outgrows its cap, and its counts and quantised values stay in the
-- widths of the native layout.
use speculation_ledger.Prelude.{
  ℕ, suc, ◌≤◌, ◌<◌, ◌≡◌, refl, ap, inl, inr, none, List, [], ◌∷◌, arith, leb, ◌==◌, if◌then◌else◌,
  Bool-cases, Option-cases, length, All,
}
use speculation_ledger.Prelude.Int.{ℤ, pos, negsuc}
use speculation_ledger.Prelude.Dict.{
  Dict, lookup, insert, erase, length-insert_new, lookup-erase-none,
}
use speculation_ledger.Floats.{Floats}
use speculation_ledger.Hot.{
  Cand, fresh, HotEntry, u16_max, q_seen, decay_q, seen, blend_q, count_accepted, count_rejected,
  adjust, decay_unseen, make_room, ensure, update_realized, update_rejected, may_grow, merge_one,
  merge_all, merge_topk,
}
use speculation_ledger.Hot.Evict.{evict_weakest-shorter}

length-adjust : (k : ℕ) (f : Cand → Cand) (d : Dict Cand) → length (adjust k f d) ≡ length d
length-adjust k f [] = refl
length-adjust k f (e ∷ d) = ground (arith, length-adjust k f d)

length-decay_unseen : (ids : List ℕ) (d : Dict Cand) → length (decay_unseen ids d) ≡ length d
length-decay_unseen ids [] = refl
length-decay_unseen ids ((t, c) ∷ d) = ap suc (length-decay_unseen ids d)

-- Both counts fit 16 bits, and a quantised log-probability fits 8 bits.
abbrev pub FitsLayout : Cand → Type 0
FitsLayout c = (c.acc ≤ u16_max) × (c.rej ≤ u16_max) × (q_seen c.q8 ≤ 255)

abbrev pub AllFit : Dict Cand → Type 0
AllFit [] = Unit
AllFit (e ∷ d) = FitsLayout e.1 × AllFit d

AllFit-erase : (k : ℕ) (d : Dict Cand) → AllFit d → AllFit (erase k d)
AllFit-erase k [] h = tt
AllFit-erase k (e ∷ d) h = ground (arith, AllFit-erase k d h.1)

AllFit-insert : (k : ℕ) (c : Cand) (d : Dict Cand) → FitsLayout c → AllFit d → AllFit (insert k c d)
AllFit-insert k c [] hc h = (hc, tt)
AllFit-insert k c (e ∷ d) hc h = ground (arith, AllFit-insert k c d hc h.1)

AllFit-decay_unseen : (ids : List ℕ) (d : Dict Cand) → AllFit d → AllFit (decay_unseen ids d)
AllFit-decay_unseen ids [] h = tt
AllFit-decay_unseen ids ((t, c) ∷ d) h = (fits, AllFit-decay_unseen ids d h.1)
  where
    decayed : (q : ℤ) → q_seen q ≤ 255 → q_seen (decay_q q) ≤ 255
    decayed (pos q) p = ground arith
    decayed (negsuc n) p = p

    fits : FitsLayout (if seen t ids then c else record c { q8 = decay_q c.q8 })
    fits = ground (arith, decayed c.q8)

module _ (f : Cand → Cand) (keep : (c : Cand) → FitsLayout c → FitsLayout (f c)) where
  AllFit-adjust : (k : ℕ) (d : Dict Cand) → AllFit d → AllFit (adjust k f d)
  AllFit-adjust k [] h = tt
  AllFit-adjust k (e ∷ d) h = elim (Bool-cases (k == e.0)) [
    | inl p ↦ rw p (keep e.1 h.0, h.1)
    | inr p ↦ rw p (h.0, AllFit-adjust k d h.1)
  ]

FitsLayout-accepted : (c : Cand) → FitsLayout c → FitsLayout (count_accepted c)
FitsLayout-accepted c h = ground arith

FitsLayout-rejected : (c : Cand) → FitsLayout c → FitsLayout (count_rejected c)
FitsLayout-rejected c h = ground arith

FitsLayout-blend :
    (q : ℕ) → q ≤ 255 → (c : Cand) → FitsLayout c → FitsLayout (record c { q8 = blend_q c.q8 q })
FitsLayout-blend q hq c h = (h.0, h.1, blended c.q8 h.2)
  where
    blended : (z : ℤ) → q_seen z ≤ 255 → q_seen (blend_q z q) ≤ 255
    blended (pos old) p = omega arith
    blended (negsuc n) p = hq

module _ (fl : Floats) where
  -- The cap is positive and covers the table, and every candidate fits the layout.
  pub record IsWithin (e : HotEntry fl) : Type 0 where
    pub room : 1 ≤ e.k_cap
    pub fits : length e.cands ≤ e.k_cap
    pub widths : AllFit e.cands

module _ (fl : Floats) (k_max : ℕ) (cov_target : fl.F) where
  make_room-fits :
      (e : HotEntry fl) (tok : ℕ)
      → lookup tok e.cands ≡ none
      → IsWithin fl e
      → let r = make_room fl e tok k_max cov_target in
        (suc (length r.cands) ≤ r.k_cap) × (lookup tok r.cands ≡ none) × AllFit r.cands
  unfolding make_room
  make_room-fits e tok absent h = elim (Bool-cases (leb e.k_cap (length e.cands))) [
    | inr p ↦ rw p (ground arith)
    | inl p ↦
        let full : 0 < length e.cands = ground (arith, h.room) in
        let (v, cut, shorter) = evict_weakest-shorter tok e.cands absent full in
        ground (
          arith,
          h.room,
          h.fits,
          h.widths,
          shorter,
          cut,
          lookup-erase-none tok v.0 e.cands,
          AllFit-erase v.0 e.cands,
        )
  ]

  ensure-IsWithin :
      (e : HotEntry fl) (tok : ℕ) → IsWithin fl e → IsWithin fl (ensure fl e tok k_max cov_target)
  unfolding ensure
  ensure-IsWithin e tok h = elim (Option-cases (lookup tok e.cands)) [
    | inr (c, old) ↦ rw (old, ensure) h
    | inl absent ↦
        let r = make_room fl e tok k_max cov_target in
        let (fits, new, widths) = make_room-fits e tok absent h in
        rw (absent, ensure)
          (record {
            room = omega arith;
            fits = omega (arith, length-insert_new tok fresh r.cands new);
            widths = AllFit-insert tok fresh r.cands (omega arith) widths;
          })
  ]

  -- Counting an acceptance and counting a rejection keep the table within its cap and every count
  -- and quantised value within its width, whichever of growing and evicting made the room.
  pub updates-IsWithin :
      (e : HotEntry fl) (tok : ℕ)
      → IsWithin fl e
      → IsWithin fl (update_realized fl e tok k_max cov_target)
        × IsWithin fl (update_rejected fl e tok k_max cov_target)
  unfolding update_realized update_rejected
  updates-IsWithin e tok h =
      let r = ensure fl e tok k_max cov_target in
      let w = ensure-IsWithin e tok h in
      (
        record {
          room = w.room;
          fits = omega (arith, length-adjust tok count_accepted r.cands, w.fits);
          widths = AllFit-adjust count_accepted FitsLayout-accepted tok r.cands w.widths;
        },
        record {
          room = w.room;
          fits = omega (arith, length-adjust tok count_rejected r.cands, w.fits);
          widths = AllFit-adjust count_rejected FitsLayout-rejected tok r.cands w.widths;
        },
      )

  merge_one-IsWithin :
      (e : HotEntry fl) (t q : ℕ)
      → q ≤ 255
      → IsWithin fl e
      → IsWithin fl (merge_one fl e t q k_max cov_target)
  unfolding merge_one
  merge_one-IsWithin e t q hq h = elim (Option-cases (lookup t e.cands)) [
    | inr (c, old) ↦
        let f = λ (c : Cand). record c { q8 = blend_q c.q8 q } in
        rw (old, merge_one)
          (record {
            room = h.room;
            fits = omega (arith, length-adjust t f e.cands, h.fits);
            widths = AllFit-adjust f (FitsLayout-blend q hq) t e.cands h.widths;
          })
    | inl new ↦
        let once = record fresh { q8 = pos q } in
        let longer = length-insert_new t once e.cands new in
        let widths = AllFit-insert t once e.cands (omega (arith, hq)) h.widths in
        rw (new, merge_one)
          (elim (Bool-cases (leb e.k_cap (length e.cands))) [
            | inr free ↦
                rw free
                  (record { room = h.room; fits = ground (arith, longer, h.fits); widths = widths })
            | inl full ↦ elim (Bool-cases (may_grow fl e k_max cov_target)) [
              | inl grown ↦
                  rw (full, grown)
                    (record {
                      room = ground (arith, h.room);
                      fits = ground (arith, longer, h.fits, h.room);
                      widths = widths;
                    })
              | inr kept ↦ rw (full, kept) h
            ]
          ])
  ]

  merge_all-IsWithin :
      (e : HotEntry fl) (ids q8s : List ℕ)
      → All (λ q. q ≤ 255) q8s
      → IsWithin fl e
      → IsWithin fl (merge_all fl e ids q8s k_max cov_target)
  unfolding merge_all
  merge_all-IsWithin e [] q8s hq h = h
  merge_all-IsWithin e (t ∷ ids) [] hq h = h
  merge_all-IsWithin e (t ∷ ids) (q ∷ q8s) hq h =
      merge_all-IsWithin (merge_one fl e t q k_max cov_target) ids q8s hq.1
        (merge_one-IsWithin e t q hq.0 h)

  -- Merging a top-k list whose quantised values are at most 255 keeps the table within its cap and
  -- every count and quantised value within its width.
  pub merge_topk-IsWithin :
      (e : HotEntry fl) (ids q8s : List ℕ)
      → All (λ q. q ≤ 255) q8s
      → IsWithin fl e
      → IsWithin fl (merge_topk fl e ids q8s k_max cov_target)
  unfolding merge_topk
  merge_topk-IsWithin e [] q8s hq h = h
  merge_topk-IsWithin e (t ∷ ts) q8s hq h =
      let w = merge_all-IsWithin _ (t ∷ ts) q8s hq (record {
        room = h.room;
        fits = omega (arith, length-decay_unseen (t ∷ ts) e.cands, h.fits);
        widths = AllFit-decay_unseen (t ∷ ts) e.cands h.widths;
      }) in
      record { room = w.room; fits = w.fits; widths = w.widths }
