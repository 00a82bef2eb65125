-- ===== src/Bits/Shift.antt =====
-- The right shift, `x >> k`, and the step `x ^ (x >> k)` of the mixing functions with its inverse.
use Prim.Native.Nat.{suc-le-suc}
use native.Mathlib.Nat.{pow-suc, div-div-eq-div-mul, div-one, div-le_self, mul_comm, le_trans}
use speculation_ledger.Prelude.{ℕ, zero, suc, ◌*◌, ◌/◌, ◌^◌, ◌<◌, ◌≡◌, sym}
use speculation_ledger.Bits.Xor.{◌⊕◌, xor-half, xor-zero, xor_assoc, xor_cancel, xor-lt}

infixl 60 ◌>>◌
abbrev pub ◌>>◌ : ℕ → ℕ → ℕ
x >> k = x / 2 ^ k

shift-suc : (x k : ℕ) → x >> suc k ≡ (x / 2) >> k
shift-suc x k = rw (pow-suc, mul_comm (2 ^ k) 2, div-div-eq-div-mul)

pub shift-xor : (k a b : ℕ) → (a ⊕ b) >> k ≡ (a >> k) ⊕ (b >> k)
shift-xor zero a b = rw (div-one (a ⊕ b), div-one a, div-one b)
shift-xor (suc k) a b =
    rw (shift-suc (a ⊕ b) k, shift-suc a k, shift-suc b k, xor-half, shift-xor k (a / 2) (b / 2))

pub shift-shift : (x j k : ℕ) → (x >> j) >> k ≡ x / (2 ^ j * 2 ^ k)
shift-shift x j k = div-div-eq-div-mul x (2 ^ j) (2 ^ k)

unfoldable pub xorshift : ℕ → ℕ → ℕ
xorshift k x = x ⊕ (x >> k)

unfoldable pub unxorshift : ℕ → ℕ → ℕ
unxorshift k y = y ⊕ (y >> k) ⊕ ((y >> k) >> k)

telescope : (a b c : ℕ) → a ⊕ b ⊕ (b ⊕ c) ⊕ (c ⊕ 0) ≡ a
telescope a b c = rw (xor-zero c, sym (xor_assoc (a ⊕ b) b c), xor_cancel a b, xor_cancel a c)

-- Three shifts by k push every bit out, so the sum telescopes to `x`.
pub unxorshift-xorshift : (k x : ℕ) → ((x >> k) >> k) >> k ≡ 0 → unxorshift k (xorshift k x) ≡ x
unfolding xorshift unxorshift
unxorshift-xorshift k x out = rw (
  shift-xor k x (x >> k),
  shift-xor k (x >> k) ((x >> k) >> k),
  out,
  telescope x (x >> k) ((x >> k) >> k),
)

pub shift-lt : (k x n : ℕ) → x < n → (x >> k) < n
shift-lt k x n h = le_trans (suc-le-suc (div-le_self x (2 ^ k))) h

pub xorshift-lt : (k x : ℕ) → x < 2 ^ 64 → xorshift k x < 2 ^ 64
unfolding xorshift
xorshift-lt k x h = xor-lt 64 x (x >> k) h (shift-lt k x (2 ^ 64) h)
