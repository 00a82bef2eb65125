-- ===== src/Bits/Xor.antt =====
-- `bit_xor` by its lowest digit, and the laws that follow by induction on the digits. A bound `n`
-- on the arguments stands in for strong induction.
use Prim.Native.Nat.{digits, differ, bit_xor, bit_xor-bitwise}
use speculation_ledger.Prelude.{
  ℕ, zero, suc, ◌+◌, ◌*◌, ◌/◌, ◌%◌, ◌^◌, ◌≤◌, ◌<◌, ◌≡◌, refl, sym, ap, ◌∙◌, arith,
}
use native.Mathlib.Nat.{pow-suc}

-- The recursion on digits gives one value on any fuel that covers the first number.
xor_enough_fuel :
    (f g a b : ℕ) → a ≤ f → a ≤ g → digits (λ y. y) differ f a b ≡ digits (λ y. y) differ g a b
xor_enough_fuel zero zero a b p q = refl
xor_enough_fuel zero (suc g) zero b p q = refl
xor_enough_fuel zero (suc g) (suc a) b p q = absurd (omega arith)
xor_enough_fuel (suc f) zero zero b p q = refl
xor_enough_fuel (suc f) zero (suc a) b p q = absurd (omega arith)
xor_enough_fuel (suc f) (suc g) zero b p q = refl
xor_enough_fuel (suc f) (suc g) (suc a) b p q =
    rw (xor_enough_fuel f g (suc a / 2) (b / 2) (omega arith) (omega arith))

differ_mod : (x y : ℕ) → x < 2 → y < 2 → differ x y ≡ (x + y) % 2
differ_mod zero y p q = omega arith
differ_mod (suc zero) zero p q = refl
differ_mod (suc zero) (suc zero) p q = refl
differ_mod (suc zero) (suc (suc y)) p q = absurd (omega arith)
differ_mod (suc (suc x)) y p q = absurd (omega arith)

infixl 55 ◌⊕◌
abbrev pub ◌⊕◌ : ℕ → ℕ → ℕ
a ⊕ b = bit_xor a b

pub xor_step : (a b : ℕ) → a ⊕ b ≡ ((a / 2) ⊕ (b / 2)) * 2 + (a % 2 + b % 2) % 2
xor_step zero b = omega (arith, bit_xor-bitwise 0 b, bit_xor-bitwise 0 (b / 2))
xor_step (suc a) b = omega (
  arith,
  bit_xor-bitwise (suc a) b,
  bit_xor-bitwise (suc a / 2) (b / 2),
  xor_enough_fuel a (suc a / 2) (suc a / 2) (b / 2) (omega arith) (omega arith),
  differ_mod (suc a % 2) (b % 2) (omega arith) (omega arith),
)

pub xor-half : (a b : ℕ) → (a ⊕ b) / 2 ≡ (a / 2) ⊕ (b / 2)
xor-half a b = omega (arith, xor_step a b)

pub xor-parity : (a b : ℕ) → (a ⊕ b) % 2 ≡ (a % 2 + b % 2) % 2
xor-parity a b = omega (arith, xor_step a b)

xor-self_below : (n a : ℕ) → a ≤ n → a ⊕ a ≡ 0
xor-self_below n zero h = refl
xor-self_below zero (suc a) h = absurd (omega arith)
xor-self_below (suc n) (suc a) h =
    omega (arith, xor_step (suc a) (suc a), xor-self_below n (suc a / 2) (omega arith))

pub xor_self : (a : ℕ) → a ⊕ a ≡ 0
xor_self a = xor-self_below a a (omega arith)

pub zero-xor : (a : ℕ) → 0 ⊕ a ≡ a
zero-xor a = bit_xor-bitwise 0 a

xor_comm_below : (n a b : ℕ) → a ≤ n → b ≤ n → a ⊕ b ≡ b ⊕ a
xor_comm_below zero a b p q = let e : a ≡ b = omega arith in rw e
xor_comm_below (suc n) a b p q = omega (
  arith,
  xor_step a b,
  xor_step b a,
  xor_comm_below n (a / 2) (b / 2) (omega arith) (omega arith),
)

pub xor_comm : (a b : ℕ) → a ⊕ b ≡ b ⊕ a
xor_comm a b = xor_comm_below (a + b) a b (omega arith) (omega arith)

pub xor-zero : (a : ℕ) → a ⊕ 0 ≡ a
xor-zero a = omega (arith, xor_comm a 0, zero-xor a)

xor_assoc_below : (n a b c : ℕ) → a ≤ n → b ≤ n → c ≤ n → (a ⊕ b) ⊕ c ≡ a ⊕ (b ⊕ c)
xor_assoc_below zero a b c p q r =
    let ea : a ≡ 0 = omega arith in
    let eb : b ≡ 0 = omega arith in let ec : c ≡ 0 = omega arith in rw (ea, eb, ec)
xor_assoc_below (suc n) a b c p q r =
    let ih = xor_assoc_below n (a / 2) (b / 2) (c / 2) (omega arith) (omega arith) (omega arith) in
    let left : ((a ⊕ b) ⊕ c) / 2 ≡ (((a / 2) ⊕ (b / 2)) ⊕ (c / 2)) =
      rw (xor-half (a ⊕ b) c, xor-half a b) in
    let right : (a ⊕ (b ⊕ c)) / 2 ≡ ((a / 2) ⊕ ((b / 2) ⊕ (c / 2))) =
      rw (xor-half a (b ⊕ c), xor-half b c) in
    omega (arith, ih, xor-parity (a ⊕ b) c, xor-parity a b, xor-parity a (b ⊕ c), xor-parity b c)

pub xor_assoc : (a b c : ℕ) → (a ⊕ b) ⊕ c ≡ a ⊕ (b ⊕ c)
xor_assoc a b c = xor_assoc_below (a + b + c) a b c (omega arith) (omega arith) (omega arith)

-- A number is cancelled by a second copy of itself.
pub xor_cancel : (a b : ℕ) → (a ⊕ b) ⊕ b ≡ a
xor_cancel a b = rw (xor_assoc, xor_self, xor-zero)

pub xor_injective : (a b c : ℕ) → a ⊕ c ≡ b ⊕ c → a ≡ b
xor_injective a b c h = sym (xor_cancel a c) ∙ ap (λ (t : ℕ). t ⊕ c) h ∙ xor_cancel b c

pub xor-lt : (k a b : ℕ) → a < 2 ^ k → b < 2 ^ k → a ⊕ b < 2 ^ k
xor-lt zero a b p q =
    let ea : a ≡ 0 = omega arith in let eb : b ≡ 0 = omega arith in rw (ea, eb) (omega arith)
xor-lt (suc k) a b p q =
    let e = pow-suc 2 k in
    omega (arith, xor_step a b, xor-lt k (a / 2) (b / 2) (omega arith) (omega arith))
