-- ===== src/Hot/Evict.antt =====
-- The victim of `_evict_weakest`.
use speculation_ledger.Prelude.{
  ℕ, suc, ◌+◌, ◌≤◌, ◌<◌, ◌≡◌, refl, ap, sym, ◌∙◌, All, ◌⊎◌, inl, inr, true, false, Option, none,
  some, [], ◌∷◌, arith, ◌==◌, Bool-cases, length,
}
use speculation_ledger.Prelude.Int.{ℤ, pos, negsuc}
use speculation_ledger.Prelude.Dict.{Dict, lookup, contains, erase, length-erase, IsDict}
use speculation_ledger.Hot.{Cand, q_rank, rank_lt, weaker, weakest, evict_weakest}

-- The quantised log-probability, with an unobserved one below all.
abbrev pub summary_rank : ℤ → ℕ
summary_rank (pos q) = q
summary_rank (negsuc _) = 256

q_rank_lem : (q : ℤ) → q_rank q ≡ summary_rank q
q_rank_lem (pos q) = refl
q_rank_lem (negsuc n) = refl

-- `x` is at least as strong as `w`: more observations; or as many and a higher log-probability, which
-- is a lower quantised value, where an unobserved one counts as 256; or a tie with a smaller token.
abbrev pub AtLeast : ℕ × Cand → ℕ × Cand → Type 0
AtLeast (t, c) (t', c') =
    (c.acc + c.rej < c'.acc + c'.rej)
    ⊎ ((c.acc + c.rej ≡ c'.acc + c'.rej)
        × ((summary_rank c'.q8 < summary_rank c.q8)
            ⊎ ((summary_rank c'.q8 ≡ summary_rank c.q8) × (t' ≤ t))))

AtLeast-refl : (w : ℕ × Cand) → AtLeast w w
AtLeast-refl (t, c) = inr (refl, inr (refl, omega arith))

AtLeast-trans : (w v x : ℕ × Cand) → AtLeast w v → AtLeast v x → AtLeast w x
AtLeast-trans (t, c) (t', c') (t'', c'') p q = ground arith

rank_lt-AtLeast : (w x : ℕ × Cand) → rank_lt x w ≡ true → AtLeast x w
unfolding rank_lt
rank_lt-AtLeast (t, c) (t', c') p = ground (arith, q_rank_lem c.q8, q_rank_lem c'.q8)

rank_lt-not_AtLeast : (w x : ℕ × Cand) → rank_lt x w ≡ false → AtLeast w x
unfolding rank_lt
rank_lt-not_AtLeast (t, c) (t', c') p = ground (arith, q_rank_lem c.q8, q_rank_lem c'.q8)

abbrev Beats : ℕ × Cand → Option (ℕ × Cand) → Type 0
Beats v none = Unit
Beats v (some w) = AtLeast v w

-- Every candidate but the protected one is at least as strong as `v`.
abbrev IsWeakest : ℕ → ℕ × Cand → Dict Cand → Type 0
IsWeakest protect v [] = Unit
IsWeakest protect v (e ∷ d) = ((e.0 ≡ protect) ⊎ AtLeast v e) × IsWeakest protect v d

Beats-weaker :
    (v : ℕ × Cand) (worst : Option (ℕ × Cand)) (e : ℕ × Cand)
    → Beats v (weaker worst e)
    → Beats v worst × AtLeast v e
unfolding weaker
Beats-weaker v none e h = (tt, h)
Beats-weaker v (some w) e h = elim (Bool-cases (rank_lt e w)) [
  | inl p ↦ let h' : AtLeast v e = rw p at h in (AtLeast-trans v e w h' (rank_lt-AtLeast w e p), h')
  | inr p ↦
      let h' : AtLeast v w = rw p at h in (h', AtLeast-trans v w e h' (rank_lt-not_AtLeast w e p))
]

weakest-IsWeakest_from :
    (protect : ℕ) (worst : Option (ℕ × Cand)) (d : Dict Cand) (v : ℕ × Cand)
    → weakest protect worst d ≡ some v
    → IsWeakest protect v d × Beats v worst
unfolding weakest
weakest-IsWeakest_from protect none [] v h = cc
weakest-IsWeakest_from protect (some w) [] v h = let e : w ≡ v = cc in (tt, rw e (AtLeast-refl v))
weakest-IsWeakest_from protect worst (e ∷ d) v h = elim (Bool-cases (e.0 == protect)) [
  | inl p ↦
      let (rest, beats) = weakest-IsWeakest_from protect worst d v (rw p at h) in
      ((inl (ground arith), rest), beats)
  | inr p ↦
      let (rest, beats) = weakest-IsWeakest_from protect (weaker worst e) d v (rw p at h) in
      let (old, new) = Beats-weaker v worst e beats in ((inr new, rest), old)
]

weakest-from :
    (protect : ℕ) (w : ℕ × Cand) (d : Dict Cand)
    → (v : ℕ × Cand) × (weakest protect (some w) d ≡ some v)
unfolding weakest weaker
weakest-from protect w [] = (w, refl)
weakest-from protect w (e ∷ d) = elim (Bool-cases (e.0 == protect)) [
  | inl p ↦ rw p (weakest-from protect w d)
  | inr p ↦ elim (Bool-cases (rank_lt e w)) [
    | inl q ↦ rw (p, q) (weakest-from protect e d)
    | inr q ↦ rw (p, q) (weakest-from protect w d)
  ]
]

abbrev Listed : ℕ × Cand → Option (ℕ × Cand) → Dict Cand → Type 0
Listed v none d = contains v.0 d ≡ true
Listed v (some w) d = (v.0 ≡ w.0) ⊎ (contains v.0 d ≡ true)

contains-cons :
    (k : ℕ) (e : ℕ × Cand) (d : Dict Cand) → contains k d ≡ true → contains k (e ∷ d) ≡ true
contains-cons k e d h = ground arith

contains-here : (k : ℕ) (e : ℕ × Cand) (d : Dict Cand) → k ≡ e.0 → contains k (e ∷ d) ≡ true
contains-here k e d h = ground arith

weakest-Listed :
    (protect : ℕ) (worst : Option (ℕ × Cand)) (d : Dict Cand) (v : ℕ × Cand)
    → weakest protect worst d ≡ some v
    → Listed v worst d
unfolding weakest weaker
weakest-Listed protect none [] v h = cc
weakest-Listed protect (some w) [] v h = inl (cc)
weakest-Listed protect none (e ∷ d) v h = elim (Bool-cases (e.0 == protect)) [
  | inl p ↦ contains-cons v.0 e d (weakest-Listed protect none d v (rw p at h))
  | inr p ↦ elim (weakest-Listed protect (some e) d v (rw p at h)) [
    | inl here ↦ contains-here v.0 e d here
    | inr there ↦ contains-cons v.0 e d there
  ]
]
weakest-Listed protect (some w) (e ∷ d) v h = elim (Bool-cases (e.0 == protect)) [
  | inl p ↦ elim (weakest-Listed protect (some w) d v (rw p at h)) [
    | inl kept ↦ inl kept
    | inr there ↦ inr (contains-cons v.0 e d there)
  ]
  | inr p ↦ elim (Bool-cases (rank_lt e w)) [
    | inl q ↦ elim (weakest-Listed protect (some e) d v (rw (p, q) at h)) [
      | inl here ↦ inr (contains-here v.0 e d here)
      | inr there ↦ inr (contains-cons v.0 e d there)
    ]
    | inr q ↦ elim (weakest-Listed protect (some w) d v (rw (p, q) at h)) [
      | inl kept ↦ inl kept
      | inr there ↦ inr (contains-cons v.0 e d there)
    ]
  ]
]

weakest-found :
    (protect : ℕ) (d : Dict Cand)
    → lookup protect d ≡ none
    → 0 < length d
    → (v : ℕ × Cand) × (weakest protect none d ≡ some v)
unfolding weakest weaker
weakest-found protect [] absent some_there = absurd (omega arith)
weakest-found protect (e ∷ d) absent some_there =
    let p : (e.0 == protect) ≡ false = ground arith in rw p (weakest-from protect e d)

-- The deletion of the found candidate.
evict_weakest-erase :
    (protect : ℕ) (d : Dict Cand) (v : ℕ × Cand)
    → weakest protect none d ≡ some v
    → (evict_weakest protect d ≡ erase v.0 d) × (suc (length (evict_weakest protect d)) ≡ length d)
unfolding evict_weakest
evict_weakest-erase protect d v found =
    let listed = weakest-Listed protect none d v found in
    let cut : evict_weakest protect d ≡ erase v.0 d = rw (found, evict_weakest) in
    (cut, ap (λ (t : Dict Cand). suc (length t)) cut ∙ length-erase v.0 d listed)

-- The eviction makes a table that lacks the protected token shorter by one.
pub evict_weakest-shorter :
    (protect : ℕ) (d : Dict Cand)
    → lookup protect d ≡ none
    → 0 < length d
    → (v : ℕ × Cand) × (evict_weakest protect d ≡ erase v.0 d)
      × (suc (length (evict_weakest protect d)) ≡ length d)
evict_weakest-shorter protect d absent some_there =
    let (v, found) = weakest-found protect d absent some_there in
    let (cut, shorter) = evict_weakest-erase protect d v found in (v, cut, shorter)

-- The candidate stands in the table, as it is.
abbrev Stands : ℕ × Cand → Dict Cand → Type 0
Stands v [] = ⊥
Stands v (e ∷ d) = (e ≡ v) ⊎ Stands v d

weaker-either :
    (worst : Option (ℕ × Cand)) (e : ℕ × Cand)
    → (weaker worst e ≡ some e) ⊎ (weaker worst e ≡ worst)
unfolding weaker
weaker-either none e = inl refl
weaker-either (some w) e = elim (Bool-cases (rank_lt e w)) [
  | inl p ↦ inl (rw p refl)
  | inr p ↦ inr (rw p refl)
]

weakest-Stands :
    (protect : ℕ) (worst : Option (ℕ × Cand)) (d : Dict Cand) (v : ℕ × Cand)
    → weakest protect worst d ≡ some v
    → (worst ≡ some v) ⊎ Stands v d
unfolding weakest
weakest-Stands protect worst [] v h = inl h
weakest-Stands protect worst (e ∷ d) v h = elim (Bool-cases (e.0 == protect)) [
  | inl p ↦ elim (weakest-Stands protect worst d v (rw p at h)) [
    | inl kept ↦ inl kept
    | inr there ↦ inr (inr there)
  ]
  | inr p ↦ elim (weakest-Stands protect (weaker worst e) d v (rw p at h)) [
    | inr there ↦ inr (inr there)
    | inl kept ↦ elim (weaker-either worst e) [
      | inl newer ↦ inr (inl (ground (arith, kept, newer)))
      | inr older ↦ inl (sym older ∙ kept)
    ]
  ]
]

Stands-lookup : (v : ℕ × Cand) (d : Dict Cand) → IsDict d → Stands v d → lookup v.0 d ≡ some v.1
Stands-lookup v [] u there = elim there [ ]
Stands-lookup v (e ∷ d) u (inl here) =
    let key : e.0 ≡ v.0 = ap (λ (x : ℕ × Cand). x.0) here in
    let cand : e.1 ≡ v.1 = ap (λ (x : ℕ × Cand). x.1) here in ground (arith, key, cand)
Stands-lookup v (e ∷ d) u (inr there) =
    let found = Stands-lookup v d u.1 there in
    elim (Bool-cases (v.0 == e.0)) [
      | inl same ↦
          let key : v.0 ≡ e.0 = ground (arith, same) in
          absurd (ground (arith, u.0, rw key at found))
      | inr other ↦ rw other found
    ]

-- Where the protected token is not in a non-empty table, `_evict_weakest` deletes exactly one
-- candidate of the table. Every candidate of the table is at least as strong as that one, with the counts
-- and the summary that the table has for it: it has more observations, or as many and a higher
-- log-probability (an unobserved one is the lowest), or ties in both with a token that is not larger. No
-- token may be listed twice.
pub evict_weakest_lem :
    (protect : ℕ) (d : Dict Cand)
    → IsDict d
    → lookup protect d ≡ none
    → 0 < length d
    → (v : ℕ × Cand) × (lookup v.0 d ≡ some v.1)
      × All (λ e. AtLeast v e) d
      × (evict_weakest protect d ≡ erase v.0 d)
      × (suc (length (evict_weakest protect d)) ≡ length d)
evict_weakest_lem protect d u absent some_there =
    let (v, found) = weakest-found protect d absent some_there in
    let (cut, shorter) = evict_weakest-erase protect d v found in
    elim (weakest-Stands protect none d v found) [
      | inl never ↦ absurd (cc)
      | inr stands ↦ (
        v,
        Stands-lookup v d u stands,
        unprotected protect v d absent (weakest-IsWeakest_from protect none d v found).0,
        cut,
        shorter,
      )
    ]
  where
    unprotected :
        (protect : ℕ) (v : ℕ × Cand) (d : Dict Cand)
        → lookup protect d ≡ none
        → IsWeakest protect v d
        → All (λ e. AtLeast v e) d
    unprotected protect v [] absent w = tt
    unprotected protect v (e ∷ d) absent w = elim (Bool-cases (protect == e.0)) [
      | inl here ↦ absurd (ground (arith, rw here at absent))
      | inr other ↦ elim w.0 [
        | inl same ↦ absurd (ground (arith, other, same))
        | inr strong ↦ (strong, unprotected protect v d (rw other at absent) w.1)
      ]
    ]
