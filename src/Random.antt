-- ===== src/Random.antt =====
-- Python's random numbers, which the program uses and does not implement, and computations that draw
-- them and may raise.
use speculation_ledger.Prelude.{
  ℕ, zero, suc, ◌≤◌, ◌<◌, ◌≡◌, refl, ◌^◌, false, none, some, if◌then◌else◌, List, [], ◌∷◌, arith,
  ltb, ◌==◌, length, All, get_elem?, get_elem?-lt, All-get_elem?,
}
use speculation_ledger.Floats.{Floats, Casts}
use speculation_ledger.Result.{Result, ok, err, Raised, value_error, index_error}

-- `random.Random`. `randrange n` is asked for n > 0 and `randint a b` for a ≤ b only.
pub record Random (fl : Floats) : Type 1 where
  pub Rng : Type 0
  pub seeded : ℕ → Rng
  pub randrange : ℕ → Rng → ℕ × Rng
  pub randint : ℕ → ℕ → Rng → ℕ × Rng
  pub random : Rng → fl.F × Rng
  pub gauss : fl.F → fl.F → Rng → fl.F × Rng
  pub uniform : fl.F → fl.F → Rng → fl.F × Rng

-- What the documentation says of the numbers. A random fraction squared and multiplied by a small
-- n stays below n.
pub record RandomLaws {fl : Floats} (rnd : Random fl) (casts : Casts fl) : Type 0 where
  pub randrange-lt : (n : ℕ) (g : rnd.Rng) → 0 < n → (rnd.randrange n g).0 < n
  pub randint-le :
      (a b : ℕ) (g : rnd.Rng) → a ≤ b → (a ≤ (rnd.randint a b g).0) × ((rnd.randint a b g).0 ≤ b)
  pub square-lt :
      (n : ℕ) (g : rnd.Rng)
      → 0 < n
      → n < 2 ^ 52
      → casts.floor (fl.times (fl.ratio n 1) (fl.pow (rnd.random g).0 2)) < n

-- A computation that draws numbers.
abbrev pub Gen : Type 0 → Type 0 → Type 0
Gen R A = R → Result (A × R)

unfoldable pub pure : {R A : Type 0} → A → Gen R A
pure a g = ok (a, g)

unfoldable pub raise : {R A : Type 0} → Raised → Gen R A
raise e g = err e

abbrev pub after : {R A B : Type 0} → Result (A × R) → (A → Gen R B) → Result (B × R)
after (err e) k = err e
after (ok r) k = k r.0 r.1

infixl 5 ◌>>=◌
unfoldable pub ◌>>=◌ : {R A B : Type 0} → Gen R A → (A → Gen R B) → Gen R B
(m >>= k) g = after (m g) k

-- The value of a computation that starts from these numbers.
unfoldable pub run_with : {R A : Type 0} → Gen R A → R → Result A
run_with m g = elim (m g) [ err e ↦ err e | ok r ↦ ok r.0 ]

-- A computation that returns, whatever it draws, with a value of which P holds.
pub record Yields {R A : Type 0} (P : A → Type 0) (m : Gen R A) : Type 0 where
  pub run : (g : R) → (a : A) × (g' : R) × (m g ≡ ok (a, g')) × P a

module _ {R : Type 0} where
  pub Yields-pure : {A : Type 0} {P : A → Type 0} (a : A) → P a → Yields {R = R} P (pure a)
  unfolding pure
  Yields-pure a p = record { run = λ g. (a, g, refl, p) }

  pub Yields-bind :
      {A B : Type 0} {P : A → Type 0} {Q : B → Type 0} {m : Gen R A} {k : A → Gen R B}
      → Yields P m
      → ((a : A) → P a → Yields Q (k a))
      → Yields Q (m >>= k)
  unfolding ◌>>=◌
  Yields-bind {m = m} {k = k} first next = record {
    run = λ g.
        let (a, g', e, p) = first.run g in
        let (b, g'', e', q) = (next a p).run g' in (b, g'', rw (e, e') refl, q);
  }

  pub Yields-weaken :
      {A : Type 0} {P Q : A → Type 0} {m : Gen R A}
      → Yields P m
      → ((a : A) → P a → Q a)
      → Yields Q m
  Yields-weaken y f = record { run = λ g. let (a, g', e, p) = y.run g in (a, g', e, f a p) }

module _ (fl : Floats) (rnd : Random fl) where
  abbrev pub Draw : Type 0 → Type 0
  Draw A = Gen rnd.Rng A

  -- `rng.randrange(n)`, with the ValueError of an empty range.
  unfoldable pub below : ℕ → Draw ℕ
  below n g = if n == 0 then err value_error else ok (rnd.randrange n g)

  -- `rng.randint(*pair)`
  unfoldable pub between : ℕ × ℕ → Draw ℕ
  between pair g = if ltb pair.1 pair.0 then err value_error else ok (rnd.randint pair.0 pair.1 g)

  unfoldable pub fraction : Draw fl.F
  fraction g = ok (rnd.random g)

  unfoldable pub gaussian : fl.F → fl.F → Draw fl.F
  gaussian mu sigma g = ok (rnd.gauss mu sigma g)

  unfoldable pub uniformly : fl.F → fl.F → Draw fl.F
  uniformly a b g = ok (rnd.uniform a b g)

  -- `xs[i]`
  unfoldable pub at : {A : Type 0} → List A → ℕ → Draw A
  at xs i g = elim (get_elem? xs i) [ none ↦ err index_error | some x ↦ ok (x, g) ]

  -- `xs[rng.randrange(len(xs))]`
  unfoldable pub pick : {A : Type 0} → List A → Draw A
  unfolding below at
  pick xs = below (length xs) >>= (λ i. at xs i)

  -- `[draw for _ in range(n)]`
  unfoldable pub repeated : {A : Type 0} → ℕ → Draw A → Draw (List A)
  repeated zero m = pure []
  repeated (suc n) m = do x ← m; xs ← repeated n m; pure (x ∷ xs)

  module _ (casts : Casts fl) (laws : RandomLaws rnd casts) where
    pub below-lt : (n : ℕ) → 0 < n → Yields (λ i. i < n) (below n)
    unfolding below
    below-lt n h = record {
      run = λ g.
          let test : (n == 0) ≡ false = ground arith in
          let r = rnd.randrange n g in (r.0, r.1, rw test refl, laws.randrange-lt n g h);
    }

    pub between-le :
        (pair : ℕ × ℕ) → pair.0 ≤ pair.1 → Yields (λ i. (pair.0 ≤ i) × (i ≤ pair.1)) (between pair)
    unfolding between
    between-le pair h = record {
      run = λ g.
          let test : ltb pair.1 pair.0 ≡ false = ground arith in
          let r = rnd.randint pair.0 pair.1 g in
          (r.0, r.1, rw test refl, laws.randint-le pair.0 pair.1 g h);
    }

    pub at-get_elem? :
        {A : Type 0} (xs : List A) (i : ℕ)
        → i < length xs
        → Yields (λ x. get_elem? xs i ≡ some x) (at xs i)
    unfolding at
    at-get_elem? xs i h = record {
      run = λ g. let (x, e) = get_elem?-lt i xs h in (x, g, rw (at, e) refl, e);
    }

    pub pick-All :
        {A : Type 0} (P : A → Type 0) (xs : List A) → 0 < length xs → All P xs → Yields P (pick xs)
    unfolding pick
    pick-All P xs h a =
        Yields-bind (below-lt (length xs) h)
          λ i small. Yields-weaken (at-get_elem? xs i small) λ x e. All-get_elem? P xs i a e

    pub repeated-All :
        {A : Type 0} (P : A → Type 0) (n : ℕ) (m : Draw A)
        → Yields P m
        → Yields (λ xs. All P xs × (length xs ≡ n)) (repeated n m)
    unfolding repeated
    repeated-All P zero m y = Yields-pure [] (tt, refl)
    repeated-All P (suc n) m y = Yields-bind y λ x p.
        Yields-bind (repeated-All P n m y)
          λ xs q. Yields-pure (x ∷ xs) ((p, q.0), omega (arith, q.1))
