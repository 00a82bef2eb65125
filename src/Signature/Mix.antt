-- ===== src/Signature/Mix.antt =====
-- `fmix64` permutes the 64-bit numbers: each of its steps has an inverse.
use speculation_ledger.Prelude.{ℕ, ◌*◌, ◌^◌, ◌<◌, ◌≡◌, refl, sym, ap, ◌∙◌, arith}
use speculation_ledger.Bits.{◌>>◌, xorshift, unxorshift, unxorshift-xorshift, xorshift-lt}
use speculation_ledger.Signature.{u64, mix_first, mix_second, mix, fmix64}

-- The inverses of the two odd factors modulo 2^64.
abbrev unmix_first : ℕ
unmix_first = 0x96de1b173f119089

abbrev unmix_second : ℕ
unmix_second = 0x319642b2d24d8ec3

unmul_first : (x : ℕ) → x < 2 ^ 64 → u64 (u64 (x * mix_first) * unmix_first) ≡ x
unmul_first x h = omega arith

unmul_second : (x : ℕ) → x < 2 ^ 64 → u64 (u64 (x * mix_second) * unmix_second) ≡ x
unmul_second x h = omega arith

shifted_out_27 : (x : ℕ) → x < 2 ^ 64 → ((x >> 27) >> 27) >> 27 ≡ 0
shifted_out_27 x h = omega arith

shifted_out_30 : (x : ℕ) → x < 2 ^ 64 → ((x >> 30) >> 30) >> 30 ≡ 0
shifted_out_30 x h = omega arith

shifted_out_31 : (x : ℕ) → x < 2 ^ 64 → ((x >> 31) >> 31) >> 31 ≡ 0
shifted_out_31 x h = omega arith

unxorshift_27 : (x : ℕ) → x < 2 ^ 64 → unxorshift 27 (xorshift 27 x) ≡ x
unxorshift_27 x h = unxorshift-xorshift 27 x (shifted_out_27 x h)

unxorshift_30 : (x : ℕ) → x < 2 ^ 64 → unxorshift 30 (xorshift 30 x) ≡ x
unxorshift_30 x h = unxorshift-xorshift 30 x (shifted_out_30 x h)

unxorshift_31 : (x : ℕ) → x < 2 ^ 64 → unxorshift 31 (xorshift 31 x) ≡ x
unxorshift_31 x h = unxorshift-xorshift 31 x (shifted_out_31 x h)

pub unmix : ℕ → ℕ
unmix k = unxorshift 30 (u64 (unxorshift 27 (u64 (unxorshift 31 k * unmix_second)) * unmix_first))

pub u64_of_lt : (x : ℕ) → x < 2 ^ 64 → u64 x ≡ x
u64_of_lt x h = omega arith

pub u64-lt : (x : ℕ) → u64 x < 2 ^ 64
u64-lt x = omega arith

mix_shifts :
    (x : ℕ)
    → mix x ≡ u64 (xorshift 31 (u64 (xorshift 27 (u64 (xorshift 30 x * mix_first)) * mix_second)))
unfolding mix xorshift
mix_shifts x = refl

-- The third line's mask cuts nothing off.
mix_unmasked :
    (x : ℕ) → mix x ≡ xorshift 31 (u64 (xorshift 27 (u64 (xorshift 30 x * mix_first)) * mix_second))
mix_unmasked x =
    mix_shifts x
    ∙ u64_of_lt (xorshift 31 (u64 (xorshift 27 (u64 (xorshift 30 x * mix_first)) * mix_second)))
        (xorshift-lt 31 _ (u64-lt (xorshift 27 (u64 (xorshift 30 x * mix_first)) * mix_second)))

pub mix-lt : (x : ℕ) → mix x < 2 ^ 64
mix-lt x = rw (mix_shifts x) (u64-lt _)

pub unmix-mix : (x : ℕ) → x < 2 ^ 64 → unmix (mix x) ≡ x
unfolding unmix
unmix-mix x h =
    let first = xorshift 30 x in
    let a = u64 (first * mix_first) in
    let second = xorshift 27 a in
    let b = u64 (second * mix_second) in
    rw (
      mix_unmasked x,
      unxorshift_31 b (u64-lt (second * mix_second)),
      unmul_second second (xorshift-lt 27 a (u64-lt (first * mix_first))),
      unxorshift_27 a (u64-lt (first * mix_first)),
      unmul_first first (xorshift-lt 30 x h),
      unxorshift_30 x h,
    )

pub mix-injective : (x y : ℕ) → x < 2 ^ 64 → y < 2 ^ 64 → mix x ≡ mix y → x ≡ y
mix-injective x y hx hy e = sym (unmix-mix x hx) ∙ ap unmix e ∙ unmix-mix y hy

-- `fmix64` masks its argument to 64 bits, and `unmix` recovers the masked argument from the
-- result, which is a 64-bit number: no two 64-bit arguments share a result.
pub unmix-fmix64 : (x : ℕ) → (unmix (fmix64 x) ≡ u64 x) × (fmix64 x < 2 ^ 64)
unfolding fmix64
unmix-fmix64 x = (unmix-mix (u64 x) (u64-lt x), mix-lt (u64 x))
