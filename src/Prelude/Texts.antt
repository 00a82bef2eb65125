-- ===== src/Prelude/Texts.antt =====
-- Texts as lists of bytes, their decimal numerals, and dicts with texts as keys.
use speculation_ledger.Prelude.{
  ℕ, zero, suc, ◌+◌, ◌/◌, ◌%◌, ◌≤◌, ◌≡◌, ◌⊎◌, ◌∙◌, refl, sym, ap, inl, inr, Bool-cases, Bool, true,
  false, ◌&&◌, &&-both, Option, none, some, List, [], ◌∷◌, ◌++◌, arith, ltb, ◌==◌, if◌then◌else◌,
  All,
}

abbrev pub str_eq : List ℕ → List ℕ → Bool
str_eq [] [] = true
str_eq (x ∷ xs) (y ∷ ys) = (x == y) && str_eq xs ys
str_eq [] (y ∷ ys) = false
str_eq (x ∷ xs) [] = false

pub str_eq_sound : (xs ys : List ℕ) → str_eq xs ys ≡ true → xs ≡ ys
str_eq_sound [] [] e = refl
str_eq_sound (x ∷ xs) (y ∷ ys) e =
    let (first, rest) = &&-both (x == y) (str_eq xs ys) e in
    let same : x ≡ y = ground (arith, first) in rw same (ap (◌∷◌ y) (str_eq_sound xs ys rest))
str_eq_sound [] (y ∷ ys) e = cc
str_eq_sound (x ∷ xs) [] e = cc

pub str_eq-same : (xs : List ℕ) → str_eq xs xs ≡ true
str_eq-same [] = refl
str_eq-same (x ∷ xs) = let e : (x == x) ≡ true = ground arith in rw (e, str_eq-same xs) refl

-- `str(n)`, with a round for each digit at least.
unfoldable pub digits : ℕ → ℕ → List ℕ
digits zero n = []
digits (suc fuel) n =
    let front = digits fuel (n / 10) in (if ltb n 10 then [] else front) ++ (48 + n % 10) ∷ []

unfoldable pub decimal : ℕ → List ℕ
unfolding digits
decimal n = digits (suc n) n

All-snoc {ℓ} :
    {A : Type ℓ} (Q : A → Type 0) (xs : List A) (x : A) → All Q xs → Q x → All Q (xs ++ x ∷ [])
All-snoc Q [] x a q = (q, tt)
All-snoc Q (y ∷ xs) x a q = (a.0, All-snoc Q xs x a.1 q)

digits-All : (fuel n : ℕ) → All (λ c. 48 ≤ c) (digits fuel n)
unfolding digits
digits-All zero n = tt
digits-All (suc fuel) n = elim (Bool-cases (ltb n 10)) [
  | inl last ↦ rw last (omega arith, tt)
  | inr more ↦ rw more (
      All-snoc (λ c. 48 ≤ c) (digits fuel (n / 10)) (48 + n % 10) (digits-All fuel (n / 10))
        (omega arith))
]

-- A numeral has no separator, so that what stands before the last separator can be told.
pub decimal-All : (n : ℕ) → All (λ c. 48 ≤ c) (decimal n)
unfolding decimal
decimal-All n = digits-All (suc n) n

no_slash : (xs ys : List ℕ) → All (λ c. 48 ≤ c) (xs ++ 47 ∷ ys) → 1 ≤ 0
no_slash [] ys a = omega (arith, a.0)
no_slash (x ∷ xs) ys a = no_slash xs ys a.1

pub append-slash :
    (xs ys ds es : List ℕ)
    → All (λ c. 48 ≤ c) ds
    → All (λ c. 48 ≤ c) es
    → xs ++ 47 ∷ ds ≡ ys ++ 47 ∷ es
    → xs ≡ ys
append-slash [] [] ds es a b e = refl
append-slash [] (y ∷ ys) ds es a b e =
    let same : ds ≡ ys ++ 47 ∷ es = cc in absurd (omega (arith, no_slash ys es (rw same at a)))
append-slash (x ∷ xs) [] ds es a b e =
    let same : es ≡ xs ++ 47 ∷ ds = cc in absurd (omega (arith, no_slash xs ds (rw same at b)))
append-slash (x ∷ xs) (y ∷ ys) ds es a b e =
    let same : x ≡ y = cc in
    let rest : xs ++ 47 ∷ ds ≡ ys ++ 47 ∷ es = cc in
    rw (same, append-slash xs ys ds es a b rest) refl

module _ {V : Type 0} where
  -- `t.get(key)`
  abbrev pub find : List ℕ → List (List ℕ × V) → Option V
  find key [] = none
  find key (row ∷ t) = if str_eq row.0 key then some row.1 else find key t

  -- `t[key] = new`
  abbrev pub store : List ℕ → V → List (List ℕ × V) → List (List ℕ × V)
  store key new [] = (key, new) ∷ []
  store key new (row ∷ t) = if str_eq row.0 key then (row.0, new) ∷ t else row ∷ store key new t

  pub find-store_same :
      (key : List ℕ) (new : V) (t : List (List ℕ × V)) → find key (store key new t) ≡ some new
  find-store_same key new [] = rw (str_eq-same key) refl
  find-store_same key new (row ∷ t) = elim (Bool-cases (str_eq row.0 key)) [
    | inl here ↦ rw (here, here) refl
    | inr other ↦ rw (other, other) (find-store_same key new t)
  ]

  -- Another key keeps what it has.
  pub find-store_other :
      (key j : List ℕ) (new : V) (t : List (List ℕ × V))
      → str_eq key j ≡ false
      → find j (store key new t) ≡ find j t
  find-store_other key j new [] apart = rw apart refl
  find-store_other key j new (row ∷ t) apart = elim (Bool-cases (str_eq row.0 key)) [
    | inl here ↦
        let same : row.0 ≡ key = str_eq_sound row.0 key here in
        let skip : str_eq row.0 j ≡ false = rw same apart in rw (here, skip) refl
    | inr other ↦ elim (Bool-cases (str_eq row.0 j)) [
      | inl found ↦ rw (other, found) refl
      | inr past ↦ rw (other, past) (find-store_other key j new t apart)
    ]
  ]

  -- What is found after a key was set is what was set, or was there before.
  pub find-store_either :
      (key j : List ℕ) (new : V) (t : List (List ℕ × V)) {v : V}
      → find j (store key new t) ≡ some v
      → ((key ≡ j) × (new ≡ v)) ⊎ ((str_eq key j ≡ false) × (find j t ≡ some v))
  find-store_either key j new t {v} e = elim (Bool-cases (str_eq key j)) [
    | inl here ↦
        let same = str_eq_sound key j here in
        let found : some new ≡ some v =
          sym (find-store_same key new t) ∙ (ap (λ k. find k (store key new t)) same ∙ e) in
        inl (same, ground (arith, found))
    | inr apart ↦ inr (apart, sym (find-store_other key j new t apart) ∙ e)
  ]

  pub All-store :
      (Q : List ℕ × V → Type 0) (key : List ℕ) (new : V) (t : List (List ℕ × V))
      → ((j : List ℕ) → Q (j, new))
      → All Q t
      → All Q (store key new t)
  All-store Q key new [] q a = (q key, tt)
  All-store Q key new (row ∷ t) q a = elim (Bool-cases (str_eq row.0 key)) [
    | inl here ↦ rw here (q row.0, a.1)
    | inr other ↦ rw other (a.0, All-store Q key new t q a.1)
  ]
