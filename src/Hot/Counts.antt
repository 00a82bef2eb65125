-- ===== src/Hot/Counts.antt =====
-- What the updates of a hot entry do to the counts of its candidates.
use mathlib.Core.Option
use speculation_ledger.Prelude.{
  ℕ, ◌+◌, ltb, ◌≤◌, ◌≡◌, ◌≢◌, refl, ap, ◌⊎◌, inl, inr, false, Option, none, some, List, [], ◌∷◌,
  arith, leb, ◌==◌, if◌then◌else◌, Bool-cases, Option-cases, length,
}
use speculation_ledger.Prelude.Dict.{Dict, lookup, lookup-insert, lookup-erase_ne}
use speculation_ledger.Prelude.Int.{pos, negsuc}
use speculation_ledger.Floats.{Floats}
use speculation_ledger.Hot.{
  Cand, fresh, HotEntry, count_accepted, count_rejected, blend_q, decay_q, seen, adjust,
  decay_unseen, weakest, evict_weakest, may_grow, make_room, ensure, update_realized,
  update_rejected, merge_one, merge_all, merge_topk,
}

lookup-adjust :
    (j k : ℕ) (f : Cand → Cand) (d : Dict Cand)
    → lookup j (adjust k f d) ≡ (if j == k then Option.map f (lookup j d) else lookup j d)
lookup-adjust j k f [] = ground arith
lookup-adjust j k f (e ∷ d) = ground (arith, lookup-adjust j k f d)

abbrev pub or_fresh : Option Cand → Cand
or_fresh none = fresh
or_fresh (some c) = c

-- The counts of `tok` before an update: those of the table, or none yet.
abbrev pub Starts : Dict Cand → ℕ → Cand → Type 0
Starts d tok c =
    (lookup tok d ≡ some c)
    ⊎ ((lookup tok d ≡ none) × (c ≡ record { acc = 0; rej = 0; q8 = negsuc 0 }))

or_fresh-Starts : (d : Dict Cand) (tok : ℕ) → Starts d tok (or_fresh (lookup tok d))
or_fresh-Starts d tok = elim (Option-cases (lookup tok d)) [
  | inl absent ↦ inr (absent, rw absent refl)
  | inr (c, found) ↦ inl (rw found refl)
]

-- One more, but never above 65535.
abbrev pub one_more : ℕ → ℕ
one_more n = if ltb n 65535 then n + 1 else n

module _ (fl : Floats) (k_max : ℕ) (cov_target : fl.F) where
  -- `j` was dropped to make room: the table was full, could not grow, and `j` was its victim.
  abbrev pub Dropped : HotEntry fl → ℕ → ℕ → Type 0
  Dropped e tok j =
      (v : ℕ × Cand) × (weakest tok none e.cands ≡ some v)
      × (j ≡ v.0)
      × (e.k_cap ≤ length e.cands)
      × (may_grow fl e k_max cov_target ≡ false)

  lookup-make_room :
      (e : HotEntry fl) (tok j : ℕ)
      → (lookup j (make_room fl e tok k_max cov_target).cands ≡ lookup j e.cands) ⊎ Dropped e tok j
  unfolding make_room evict_weakest
  lookup-make_room e tok j = elim (Bool-cases (leb e.k_cap (length e.cands))) [
    | inr p ↦ inl (rw (p, make_room))
    | inl p ↦ elim (Bool-cases (may_grow fl e k_max cov_target)) [
      | inl q ↦ inl (rw (p, q, make_room))
      | inr q ↦ elim (Option-cases (weakest tok none e.cands)) [
        | inl w ↦ inl (rw (p, q, make_room, w, evict_weakest))
        | inr (v, w) ↦ elim (Bool-cases (j == v.0)) [
          | inl same ↦ inr (v, w, ground arith, ground arith, q)
          | inr other ↦ inl (
              rw (p, q, make_room, w, evict_weakest) (lookup-erase_ne j v.0 e.cands (ground arith)))
        ]
      ]
    ]
  ]

  lookup-ensure :
      (e : HotEntry fl) (tok j : ℕ)
      → j ≢ tok
      → (lookup tok (ensure fl e tok k_max cov_target).cands ≡ some (or_fresh (lookup tok e.cands)))
        × ((lookup j (ensure fl e tok k_max cov_target).cands ≡ lookup j e.cands) ⊎ Dropped e tok j)
  unfolding ensure
  lookup-ensure e tok j other = elim (Option-cases (lookup tok e.cands)) [
    | inr (c, old) ↦ (rw (old, ensure) old, inl (rw (old, ensure)))
    | inl absent ↦
        let r = make_room fl e tok k_max cov_target in
        (
          rw (absent, ensure) (ground (arith, lookup-insert tok tok fresh r.cands)),
          rw (absent, ensure)
              (elim (lookup-make_room e tok j) [
                | inl same ↦ inl (ground (arith, lookup-insert j tok fresh r.cands, same))
                | inr gone ↦ inr gone
              ]),
        )
  ]

  -- `update_realized` leaves `tok` in the table with one more acceptance than before, from zero
  -- counts and no summary if it is new, and not where that would be above 65535; its rejections and its
  -- summary stay. Any other token keeps what the table has for it, unless it is the one dropped from a
  -- full table that could not grow.
  pub update_realized_lem :
      (e : HotEntry fl) (tok j : ℕ)
      → j ≢ tok
      → let d = (update_realized fl e tok k_max cov_target).cands in
        (c : Cand) × (c' : Cand) × Starts e.cands tok c
        × (lookup tok d ≡ some c')
        × (c'.acc ≡ one_more c.acc)
        × (c'.rej ≡ c.rej)
        × (c'.q8 ≡ c.q8)
        × ((lookup j d ≡ lookup j e.cands) ⊎ Dropped e tok j)
  unfolding update_realized
  update_realized_lem e tok j other =
      let r = ensure fl e tok k_max cov_target in
      let (here, there) = lookup-ensure e tok j other in
      let c = or_fresh (lookup tok e.cands) in
      (
        c,
        count_accepted c,
        or_fresh-Starts e.cands tok,
        ground (arith, lookup-adjust tok tok count_accepted r.cands, here),
        ground arith,
        ground arith,
        ground arith,
        elim there [
          | inl same ↦ inl (ground (arith, lookup-adjust j tok count_accepted r.cands, same))
          | inr gone ↦ inr gone
        ],
      )

  -- `update_rejected` leaves `tok` in the table with one more rejection than before, from zero counts
  -- and no summary if it is new, and not where that would be above 65535; its acceptances and its summary
  -- stay. Any other token keeps what the table has for it, unless it is the one dropped from a full table
  -- that could not grow.
  pub update_rejected_lem :
      (e : HotEntry fl) (tok j : ℕ)
      → j ≢ tok
      → let d = (update_rejected fl e tok k_max cov_target).cands in
        (c : Cand) × (c' : Cand) × Starts e.cands tok c
        × (lookup tok d ≡ some c')
        × (c'.rej ≡ one_more c.rej)
        × (c'.acc ≡ c.acc)
        × (c'.q8 ≡ c.q8)
        × ((lookup j d ≡ lookup j e.cands) ⊎ Dropped e tok j)
  unfolding update_rejected
  update_rejected_lem e tok j other =
      let r = ensure fl e tok k_max cov_target in
      let (here, there) = lookup-ensure e tok j other in
      let c = or_fresh (lookup tok e.cands) in
      (
        c,
        count_rejected c,
        or_fresh-Starts e.cands tok,
        ground (arith, lookup-adjust tok tok count_rejected r.cands, here),
        ground arith,
        ground arith,
        ground arith,
        elim there [
          | inl same ↦ inl (ground (arith, lookup-adjust j tok count_rejected r.cands, same))
          | inr gone ↦ inr gone
        ],
      )

  -- The table has `j` with the counts of `c`.
  abbrev pub HasCounts : ℕ → Cand → Dict Cand → Type 0
  HasCounts j c d = (c' : Cand) × (lookup j d ≡ some c') × (c'.acc ≡ c.acc) × (c'.rej ≡ c.rej)

  merge_one-HasCounts :
      (e : HotEntry fl) (t q j : ℕ) (c : Cand)
      → HasCounts j c e.cands
      → HasCounts j c (merge_one fl e t q k_max cov_target).cands
  unfolding merge_one
  merge_one-HasCounts e t q j c (c', h, a, r) = elim (Option-cases (lookup t e.cands)) [
    | inr (old, p) ↦
        let f = λ (c : Cand). record c { q8 = blend_q c.q8 q } in
        rw (p, merge_one)
          (elim (Bool-cases (j == t)) [
            | inl same ↦ (f c', ground (arith, lookup-adjust j t f e.cands), a, r)
            | inr other ↦ (c', ground (arith, lookup-adjust j t f e.cands), a, r)
          ])
    | inl p ↦ (c', ground (arith, lookup-insert j t (record fresh { q8 = pos q }) e.cands), a, r)
  ]

  merge_all-HasCounts :
      (e : HotEntry fl) (ids q8s : List ℕ) (j : ℕ) (c : Cand)
      → HasCounts j c e.cands
      → HasCounts j c (merge_all fl e ids q8s k_max cov_target).cands
  unfolding merge_all
  merge_all-HasCounts e [] q8s j c h = h
  merge_all-HasCounts e (t ∷ ids) [] j c h = h
  merge_all-HasCounts e (t ∷ ids) (q ∷ q8s) j c h =
      merge_all-HasCounts (merge_one fl e t q k_max cov_target) ids q8s j c
        (merge_one-HasCounts e t q j c h)

  decay_unseen-HasCounts :
      (ids : List ℕ) (d : Dict Cand) (j : ℕ) {c : Cand}
      → lookup j d ≡ some c
      → HasCounts j c (decay_unseen ids d)
  decay_unseen-HasCounts ids [] j h = cc
  decay_unseen-HasCounts ids ((t, x) ∷ d) j {c} h = elim (Bool-cases (j == t)) [
    | inl p ↦
        let e : x ≡ c = ground arith in
        elim (Bool-cases (seen t ids)) [
          | inl s ↦ (x, rw (p, s), ap (λ (y : Cand). y.acc) e, ap (λ (y : Cand). y.rej) e)
          | inr s ↦ (
            record x { q8 = decay_q x.q8 },
            rw (p, s),
            ap (λ (y : Cand). y.acc) e,
            ap (λ (y : Cand). y.rej) e,
          )
        ]
    | inr p ↦ rw p (decay_unseen-HasCounts ids d j (rw p at h))
  ]

  -- Merging a top-k list drops no candidate and changes no count: whatever the room and the
  -- coverage, each token of the table is still there with the acceptances and rejections it had.
  pub merge_topk-HasCounts :
      (e : HotEntry fl) (ids q8s : List ℕ) (j : ℕ) {c : Cand}
      → lookup j e.cands ≡ some c
      → HasCounts j c (merge_topk fl e ids q8s k_max cov_target).cands
  unfolding merge_topk
  merge_topk-HasCounts e [] q8s j {c} h = (c, h, refl, refl)
  merge_topk-HasCounts e (t ∷ ts) q8s j {c} h =
      merge_all-HasCounts _ (t ∷ ts) q8s j c (decay_unseen-HasCounts (t ∷ ts) e.cands j h)
