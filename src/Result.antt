-- ===== src/Result.antt =====
-- A call that may raise. What a call has changed before it raises is not modelled.
use speculation_ledger.Prelude.{Option, none, some, ◌≡◌, refl}

-- The exceptions that the modelled code can meet.
pub data Raised : Type 0 where
  overflow_error index_error zero_division key_error value_error assertion_error : Raised

pub data Result {ℓ} (V : Type ℓ) : Type ℓ where
  err : Raised → Result V
  ok : V → Result V

-- The value of an option, or the exception that stands for its absence.
abbrev pub or_raise {ℓ} : {V : Type ℓ} → Option V → Raised → Result V
or_raise (some v) r = ok v
or_raise none r = err r

infixl 5 ◌>>=◌
abbrev pub ◌>>=◌ {κ ℓ} : {V : Type κ} {W : Type ℓ} → Result V → (V → Result W) → Result W
err r >>= next = err r
ok v >>= next = next v

-- A chain that returns has a first part that returned, and a second one that returned from there.
pub >>=-eq-ok {κ ℓ} :
    {V : Type κ} {W : Type ℓ} (first : Result V) (next : V → Result W) {w : W}
    → (first >>= next) ≡ ok w
    → (v : V) × (first ≡ ok v) × (next v ≡ ok w)
>>=-eq-ok (err r) next returned = cc
>>=-eq-ok (ok v) next returned = (v, refl, returned)

pub or_raise-eq-ok {ℓ} :
    {V : Type ℓ} (o : Option V) (r : Raised) {v : V} → or_raise o r ≡ ok v → o ≡ some v
or_raise-eq-ok none r e = cc
or_raise-eq-ok (some w) r e = cc
