-- ===== src/Arena/Content.antt =====
-- What the arena gives back: the tokens that were added, unless the place holds others of the same content
-- hash.
use mathlib.Core.List.{append_assoc, append-nil}
use native.Mathlib.Decide.{ℕ_discrete}
use speculation_ledger.Prelude.{
  ℕ, zero, suc, ◌≡◌, ◌≢◌, refl, sym, ap, ◌∙◌, ◌⊎◌, inl, inr, some, List, [], ◌∷◌, ◌++◌, arith, ◌==◌,
  Option-cases, Bool-cases, length, take, drop, drop-append_self, take-append_self,
}
use speculation_ledger.Prelude.Dict.{Dict, lookup, insert}
use speculation_ledger.Hash.{Blake2b}
use speculation_ledger.Arena.{SpanArena, get, content_hash, add_hashed, add}

take-drop-append {ℓ} :
    {A : Type ℓ} (off n : ℕ) (xs ys : List A)
    → length (take n (drop off xs)) ≡ n
    → take n (drop off (xs ++ ys)) ≡ take n (drop off xs)
take-drop-append zero zero xs ys h = refl
take-drop-append zero (suc n) [] ys h = absurd (omega arith)
take-drop-append zero (suc n) (x ∷ xs) ys h =
    ap (◌∷◌ x) (take-drop-append zero n xs ys (omega arith))
take-drop-append (suc off) zero xs ys h = refl
take-drop-append (suc off) (suc n) [] ys h = absurd (omega arith)
take-drop-append (suc off) (suc n) (x ∷ xs) ys h = take-drop-append off (suc n) xs ys h

-- The tokens of the second arena go on from those of the first.
abbrev pub Extends : SpanArena → SpanArena → Type 0
Extends a b = (more : List ℕ) × (b.tokens ≡ a.tokens ++ more)

pub Extends-refl : (a : SpanArena) → Extends a a
Extends-refl a = ([], sym (append-nil a.tokens))

pub Extends-trans : (a b c : SpanArena) → Extends a b → Extends b c → Extends a c
Extends-trans a b c (m, p) (n, q) =
    (m ++ n, q ∙ ap (λ (t : List ℕ). t ++ n) p ∙ append_assoc a.tokens m n)

-- The slice lies inside the array.
abbrev pub Holds : SpanArena → ℕ → List ℕ → Type 0
Holds a off ts = get a off (length ts) ≡ ts

pub Holds-Extends :
    (a b : SpanArena) (off : ℕ) (ts : List ℕ) → Extends a b → Holds a off ts → Holds b off ts
unfolding get
Holds-Extends a b off ts (more, e) h =
    rw e (take-drop-append off (length ts) a.tokens more (ap length h) ∙ h)

Holds-appended :
    (old ts : List ℕ) (d : Dict ℕ)
    → Holds (record { tokens = old ++ ts; dedup = d }) (length old) ts
unfolding get
Holds-appended old ts d =
    rw (drop-append_self old ts)
      (ap (take (length ts)) (sym (append-nil ts)) ∙ take-append_self ts [])

token_lists-discrete : Discrete (List ℕ)
token_lists-discrete = hlevel ℕ_discrete

module _ (h : Blake2b) where
  -- At this offset the arena holds other tokens of the same content hash.
  abbrev pub Clashes : SpanArena → ℕ → List ℕ → Type 0
  Clashes a off ts =
      (us : List ℕ) × (us ≢ ts) × Holds a off us × (content_hash h us ≡ content_hash h ts)

  pub Clashes-Extends :
      (a b : SpanArena) (off : ℕ) (ts : List ℕ) → Extends a b → Clashes a off ts → Clashes b off ts
  Clashes-Extends a b off ts x (us, apart, at, same) =
      (us, apart, Holds-Extends a b off us x at, same)

  -- Every offset of the dedup table leads to the tokens whose hash it is filed under.
  abbrev pub IsFiled : SpanArena → Dict ℕ → Type 0
  IsFiled a [] = Unit
  IsFiled a (e ∷ d) =
      ((ts : List ℕ) × (content_hash h ts ≡ some e.0) × Holds a e.1 ts) × IsFiled a d

  abbrev pub IsSound : SpanArena → Type 0
  IsSound a = IsFiled a a.dedup

  IsFiled-Extends : (a b : SpanArena) (d : Dict ℕ) → Extends a b → IsFiled a d → IsFiled b d
  IsFiled-Extends a b [] x f = tt
  IsFiled-Extends a b (e ∷ d) x ((ts, c, at), f) =
      ((ts, c, Holds-Extends a b e.1 ts x at), IsFiled-Extends a b d x f)

  IsFiled-insert :
      (a : SpanArena) (d : Dict ℕ) (c off : ℕ) (ts : List ℕ)
      → IsFiled a d
      → content_hash h ts ≡ some c
      → Holds a off ts
      → IsFiled a (insert c off d)
  IsFiled-insert a [] c off ts f p at = ((ts, p, at), tt)
  IsFiled-insert a (e ∷ d) c off ts f p at = elim (Bool-cases (c == e.0)) [
    | inl same ↦
        let e' : c ≡ e.0 = ground arith in rw same ((ts, p ∙ ap (λ (t : ℕ). some t) e', at), f.1)
    | inr other ↦ rw other (f.0, IsFiled-insert a d c off ts f.1 p at)
  ]

  lookup-IsFiled :
      (a : SpanArena) (d : Dict ℕ) (c : ℕ) {off : ℕ}
      → IsFiled a d
      → lookup c d ≡ some off
      → (ts : List ℕ) × (content_hash h ts ≡ some c) × Holds a off ts
  lookup-IsFiled a [] c f p = cc
  lookup-IsFiled a (e ∷ d) c {off} f p = elim (Bool-cases (c == e.0)) [
    | inl same ↦
        let key : e.0 ≡ c = ground arith in
        let (ts, q, at) = f.0 in
        let place : e.1 ≡ off = ground arith in
        (ts, q ∙ ap (λ (t : ℕ). some t) key, rw (← place) at)
    | inr other ↦ lookup-IsFiled a d c f.1 (rw other at p)
  ]

  -- On an arena whose dedup table is right, a call of `add` that raises no error returns the length
  -- of the tokens and an offset at which `get` gives the tokens back, unless just there the arena already
  -- held other tokens with the same content hash. The table stays right, and what could be read before
  -- is read as before.
  pub add_lem :
      (a a' : SpanArena) (ts : List ℕ) (off len : ℕ)
      → IsSound a
      → add h a ts ≡ some (a', off, len)
      → IsSound a' × Extends a a' × (len ≡ length ts) × ((get a' off len ≡ ts) ⊎ Clashes a off ts)
  unfolding add add_hashed
  add_lem a a' ts off len sound e = elim (Option-cases (content_hash h ts)) [
    | inl bad ↦ absurd (ground (arith, bad))
    | inr (c, hash) ↦ elim (Option-cases (lookup c a.dedup)) [
      | inr (old, found) ↦
          let same : a ≡ a' = ground (arith, hash, found) in
          let place : old ≡ off = ground (arith, hash, found) in
          let size : length ts ≡ len = ground (arith, hash, found) in
          let (us, filed, at) = lookup-IsFiled a a.dedup c sound found in
          rw (← same, ← place, ← size)
            (
              sound,
              Extends-refl a,
              refl,
              elim (token_lists-discrete us ts) [
                | yes eq ↦ inl (rw eq at at)
                | no apart ↦ inr (us, apart, at, filed ∙ sym hash)
              ],
            )
      | inl new ↦
          let b : SpanArena = record {
            tokens = a.tokens ++ ts;
            dedup = insert c (length a.tokens) a.dedup;
          } in
          let same : b ≡ a' = ground (arith, hash, new) in
          let place : length a.tokens ≡ off = ground (arith, hash, new) in
          let size : length ts ≡ len = ground (arith, hash, new) in
          let grown : Extends a b = (ts, refl) in
          let here : Holds b (length a.tokens) ts = Holds-appended a.tokens ts b.dedup in
          let filed = IsFiled-Extends a b a.dedup grown sound in
          rw (← same, ← place, ← size)
            (IsFiled-insert b a.dedup c (length a.tokens) ts filed hash here, grown, refl, inl here)
    ]
  ]
