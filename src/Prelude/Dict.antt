-- ===== src/Prelude/Dict.antt =====
-- Python's `dict` in its insertion order, as an association list. An assignment to a key that is
-- there keeps the key's place, and a new key goes to the end. The test on keys is a parameter.
use speculation_ledger.Prelude.{
  ℕ, suc, ◌≡◌, ◌≢◌, refl, Bool, true, false, Option, none, some, List, [], ◌∷◌, arith, ◌==◌,
  if◌then◌else◌, length,
}

abbrev pub Dict {ℓ} : Type ℓ → Type ℓ
Dict V = List (ℕ × V)

module _ {ℓ} {V : Type ℓ} where
  -- `t.get(key)`
  abbrev pub lookup : ℕ → Dict V → Option V
  lookup key [] = none
  lookup key (row ∷ t) = if key == row.0 then some row.1 else lookup key t

  -- `del t[key]`
  abbrev pub erase : ℕ → Dict V → Dict V
  erase key [] = []
  erase key (row ∷ t) = let others = erase key t in if key == row.0 then t else row ∷ others

  -- `t[key] = new`
  abbrev pub insert : ℕ → V → Dict V → Dict V
  insert key new [] = (key, new) ∷ []
  insert key new (row ∷ t) = if key == row.0 then (row.0, new) ∷ t else row ∷ insert key new t

  -- `key in t`
  abbrev pub contains : ℕ → Dict V → Bool
  contains key t = elim (lookup key t) [ some _ ↦ true | none ↦ false ]

  -- No key is listed twice.
  abbrev pub IsDict : Dict V → Type ℓ
  IsDict [] = Unit
  IsDict (row ∷ t) = (lookup row.0 t ≡ none) × IsDict t

  pub lookup-insert :
      (j key : ℕ) (new : V) (t : Dict V)
      → lookup j (insert key new t) ≡ (if j == key then some new else lookup j t)
  lookup-insert j key new [] = ground arith
  lookup-insert j key new (row ∷ t) = ground (arith, lookup-insert j key new t)

  pub length-insert_new :
      (key : ℕ) (new : V) (t : Dict V)
      → lookup key t ≡ none
      → length (insert key new t) ≡ suc (length t)
  length-insert_new key new [] h = refl
  length-insert_new key new (row ∷ t) h = ground (arith, length-insert_new key new t)

  pub length-insert_old :
      (key : ℕ) (new : V) {old : V} (t : Dict V)
      → lookup key t ≡ some old
      → length (insert key new t) ≡ length t
  length-insert_old key new [] h = ground arith
  length-insert_old key new {old = old} (row ∷ t) h =
      ground (arith, length-insert_old key new {old = old} t)

  pub length-erase :
      (key : ℕ) (t : Dict V) → contains key t ≡ true → suc (length (erase key t)) ≡ length t
  length-erase key [] h = cc
  length-erase key (row ∷ t) h = ground (arith, length-erase key t)

  pub lookup-erase-none :
      (j key : ℕ) (t : Dict V) → lookup j t ≡ none → lookup j (erase key t) ≡ none
  lookup-erase-none j key [] h = refl
  lookup-erase-none j key (row ∷ t) h = ground (arith, lookup-erase-none j key t)

  pub lookup-erase_ne : (j key : ℕ) (t : Dict V) → j ≢ key → lookup j (erase key t) ≡ lookup j t
  lookup-erase_ne j key [] apart = refl
  lookup-erase_ne j key (row ∷ t) apart = ground (arith, lookup-erase_ne j key t apart)
