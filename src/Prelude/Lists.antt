-- ===== src/Prelude/Lists.antt =====
-- Lists measured and indexed by native numbers, under the library's names.
use Prim.Native.Nat.{ℕ, zero, suc, ◌+◌, ◌-◌, ◌≤◌, ◌<◌, min}
use mathlib.Core.Path.{◌≡◌, refl, ap, ◌∙◌}
use mathlib.Core.Logic.{◌⊎◌, inl, inr}
use mathlib.Core.List.{List, [], ◌∷◌, ◌++◌, map}
use mathlib.Core.Option.{Option, none, some}
use native.Mathlib.Omega.{arith}
use speculation_ledger.Prelude.Tests.{◌==◌, if◌then◌else◌}

module _ {ℓ} {A : Type ℓ} where
  abbrev pub length : List A → ℕ
  length [] = 0
  length (x ∷ xs) = suc (length xs)

  abbrev pub get_elem? : List A → ℕ → Option A
  get_elem? [] i = none
  get_elem? (x ∷ xs) zero = some x
  get_elem? (x ∷ xs) (suc i) = get_elem? xs i

  abbrev pub get_or : List A → ℕ → A → A
  get_or [] i d = d
  get_or (x ∷ xs) zero d = x
  get_or (x ∷ xs) (suc i) d = get_or xs i d

  abbrev pub take : ℕ → List A → List A
  take zero xs = []
  take (suc n) [] = []
  take (suc n) (x ∷ xs) = x ∷ take n xs

  abbrev pub drop : ℕ → List A → List A
  drop zero xs = xs
  drop (suc n) [] = []
  drop (suc n) (x ∷ xs) = drop n xs

  abbrev pub All {κ} : (A → Type κ) → List A → Type κ
  All P [] = Unit
  All P (x ∷ xs) = P x × All P xs

  pub length-append : (xs ys : List A) → length (xs ++ ys) ≡ length xs + length ys
  length-append [] ys = omega arith
  length-append (x ∷ xs) ys = omega (arith, length-append xs ys)

  pub length-take : (n : ℕ) (xs : List A) → length (take n xs) ≡ min n (length xs)
  length-take zero xs = omega arith
  length-take (suc n) [] = omega arith
  length-take (suc n) (x ∷ xs) = omega (arith, length-take n xs)

  pub length-drop : (n : ℕ) (xs : List A) → length (drop n xs) ≡ length xs - n
  length-drop zero xs = omega arith
  length-drop (suc n) [] = omega arith
  length-drop (suc n) (x ∷ xs) = omega (arith, length-drop n xs)

  abbrev pub replicate : ℕ → A → List A
  replicate zero x = []
  replicate (suc n) x = x ∷ replicate n x

  pub length-replicate : (n : ℕ) (x : A) → length (replicate n x) ≡ n
  length-replicate zero x = refl
  length-replicate (suc n) x = ap suc (length-replicate n x)

  -- The last `n` elements: Python's `xs[-n:]` for n > 0.
  abbrev pub last : ℕ → List A → List A
  last n xs = drop (length xs - n) xs

  pub drop-append_of_le :
      (n : ℕ) (xs ys : List A) → n ≤ length xs → drop n (xs ++ ys) ≡ drop n xs ++ ys
  drop-append_of_le zero xs ys h = refl
  drop-append_of_le (suc n) [] ys h = absurd (omega arith)
  drop-append_of_le (suc n) (x ∷ xs) ys h = drop-append_of_le n xs ys (omega arith)

  pub take-append_self : (xs ys : List A) → take (length xs) (xs ++ ys) ≡ xs
  take-append_self [] ys = refl
  take-append_self (x ∷ xs) ys = ap (◌∷◌ x) (take-append_self xs ys)

  pub drop-append_self : (xs ys : List A) → drop (length xs) (xs ++ ys) ≡ ys
  drop-append_self [] ys = refl
  drop-append_self (x ∷ xs) ys = drop-append_self xs ys

  pub take-append_of_le : (n : ℕ) (xs ys : List A) → n ≤ length xs → take n (xs ++ ys) ≡ take n xs
  take-append_of_le zero xs ys h = refl
  take-append_of_le (suc n) [] ys h = absurd (omega arith)
  take-append_of_le (suc n) (x ∷ xs) ys h = ap (◌∷◌ x) (take-append_of_le n xs ys (omega arith))

module _ {ℓ} {A : Type ℓ} where
  -- A write out of bounds changes nothing.
  abbrev pub set : List A → ℕ → A → List A
  set [] i v = []
  set (x ∷ xs) zero v = v ∷ xs
  set (x ∷ xs) (suc i) v = x ∷ set xs i v

  pub length-set : (xs : List A) (i : ℕ) (v : A) → length (set xs i v) ≡ length xs
  length-set [] i v = refl
  length-set (x ∷ xs) zero v = refl
  length-set (x ∷ xs) (suc i) v = ap suc (length-set xs i v)

  pub get_or-set :
      (xs : List A) (i j : ℕ) (v d : A)
      → i < length xs
      → get_or (set xs i v) j d ≡ (if i == j then v else get_or xs j d)
  get_or-set [] i j v d h = absurd (omega arith)
  get_or-set (x ∷ xs) zero zero v d h = refl
  get_or-set (x ∷ xs) zero (suc j) v d h = ground arith
  get_or-set (x ∷ xs) (suc i) zero v d h = ground arith
  get_or-set (x ∷ xs) (suc i) (suc j) v d h = ground (arith, get_or-set xs i j v d)

-- `range(lo, lo + n)`, by its length.
abbrev pub range_from : ℕ → ℕ → List ℕ
range_from lo zero = []
range_from lo (suc n) = lo ∷ range_from (suc lo) n

-- `range(lo, hi)`
abbrev pub range : ℕ → ℕ → List ℕ
range lo hi = range_from lo (hi - lo)

suc_add : (m n : ℕ) → suc m + n ≡ suc (m + n)
suc_add m n = omega arith

module _ {ℓ} {A : Type ℓ} where
  pub take-take : (m n : ℕ) (xs : List A) → m ≤ n → take m (take n xs) ≡ take m xs
  take-take zero n xs h = refl
  take-take (suc m) zero xs h = absurd (omega arith)
  take-take (suc m) (suc n) [] h = refl
  take-take (suc m) (suc n) (x ∷ xs) h = ap (◌∷◌ x) (take-take m n xs (omega arith))

  take_nil : (n : ℕ) → take {A = A} n [] ≡ []
  take_nil zero = refl
  take_nil (suc n) = refl

  pub get_elem?-drop : (p i : ℕ) (xs : List A) → get_elem? (drop p xs) i ≡ get_elem? xs (p + i)
  get_elem?-drop zero i xs = ap (get_elem? xs) {x = i} (omega arith)
  get_elem?-drop (suc p) i [] = refl
  get_elem?-drop (suc p) i (x ∷ xs) = rw (suc_add p i) (get_elem?-drop p i xs)

  pub take-suc :
      (n : ℕ) (xs : List A) {x : A}
      → get_elem? xs n ≡ some x
      → take n xs ++ x ∷ [] ≡ take (suc n) xs
  take-suc n [] e = cc
  take-suc zero (y ∷ xs) {x} e = let same : y ≡ x = cc in rw same refl
  take-suc (suc n) (y ∷ xs) e = ap (◌∷◌ y) (take-suc n xs e)

  pub take-add : (m n : ℕ) (xs : List A) → take m xs ++ take n (drop m xs) ≡ take (m + n) xs
  take-add zero n xs = ap (λ k. take k xs) {x = n} (omega arith)
  take-add (suc m) n [] = rw (suc_add m n) (take_nil n)
  take-add (suc m) n (x ∷ xs) = rw (suc_add m n) (ap (◌∷◌ x) (take-add m n xs))

  pub get_elem?-lt : (i : ℕ) (xs : List A) → i < length xs → (x : A) × (get_elem? xs i ≡ some x)
  get_elem?-lt i [] h = absurd (omega arith)
  get_elem?-lt zero (x ∷ xs) h = (x, refl)
  get_elem?-lt (suc i) (x ∷ xs) h = get_elem?-lt i xs (omega arith)

  pub take-length : (xs : List A) → take (length xs) xs ≡ xs
  take-length [] = refl
  take-length (x ∷ xs) = ap (◌∷◌ x) (take-length xs)

pub List-cases {ℓ} :
    {A : Type ℓ} (xs : List A) → (xs ≡ []) ⊎ ((x : A) × (rest : List A) × (xs ≡ x ∷ rest))
List-cases [] = inl refl
List-cases (x ∷ xs) = inr (x, xs, refl)

pub All-get_elem? {ℓ κ} :
    {A : Type ℓ} (P : A → Type κ) (xs : List A) (i : ℕ) {x : A}
    → All P xs
    → get_elem? xs i ≡ some x
    → P x
All-get_elem? P [] i a e = cc
All-get_elem? P (y ∷ xs) zero {x} a e = let same : y ≡ x = cc in rw (← same) a.0
All-get_elem? P (y ∷ xs) (suc i) a e = All-get_elem? P xs i a.1 e

pub length-map {ℓ κ} :
    {A : Type ℓ} {B : Type κ} (f : A → B) (xs : List A) → length (map f xs) ≡ length xs
length-map f [] = refl
length-map f (x ∷ xs) = ap suc (length-map f xs)

pub All-append {ℓ κ} :
    {A : Type ℓ} (Q : A → Type κ) (xs ys : List A) → All Q xs → All Q ys → All Q (xs ++ ys)
All-append Q [] ys hx hy = hy
All-append Q (x ∷ xs) ys hx hy = (hx.0, All-append Q xs ys hx.1 hy)

pub All-replicate {ℓ κ} :
    {A : Type ℓ} (Q : A → Type κ) (n : ℕ) (x : A) → Q x → All Q (replicate n x)
All-replicate Q zero x q = tt
All-replicate Q (suc n) x q = (q, All-replicate Q n x q)

pub All-set {ℓ κ} :
    {A : Type ℓ} (Q : A → Type κ) (xs : List A) (i : ℕ) (v : A)
    → Q v
    → All Q xs
    → All Q (set xs i v)
All-set Q [] i v q a = tt
All-set Q (x ∷ xs) zero v q a = (q, a.1)
All-set Q (x ∷ xs) (suc i) v q a = (a.0, All-set Q xs i v q a.1)

pub All-weaken {ℓ κ μ} :
    {A : Type ℓ} (P : A → Type κ) (Q : A → Type μ) (xs : List A)
    → ((x : A) → P x → Q x)
    → All P xs
    → All Q xs
All-weaken P Q [] f a = tt
All-weaken P Q (x ∷ xs) f a = (f x a.0, All-weaken P Q xs f a.1)

pub length-range : (n : ℕ) → length (range 0 n) ≡ n
length-range n = from_any 0 (n - 0) ∙ omega arith
  where
    from_any : (lo n : ℕ) → length (range_from lo n) ≡ n
    from_any lo zero = refl
    from_any lo (suc n) = ap suc (from_any (suc lo) n)
