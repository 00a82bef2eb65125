-- ===== src/Signature.antt =====
-- core/signature.py
pub mod Mix
pub mod Keys
pub mod Rolling
use speculation_ledger.Prelude.{
  ℕ, zero, suc, ◌+◌, ◌-◌, ◌*◌, ◌/◌, ◌%◌, ◌^◌, min, Bool, true, false, List, [], ◌∷◌, ltb,
  if◌then◌else◌, get_or, set, range, map,
}
use mathlib.Core.List.{reverse}
use speculation_ledger.Bits.{◌⊕◌, ◌>>◌, xorshift}

-- `x & U64_MASK`
abbrev pub u64 : ℕ → ℕ
u64 x = x % 2 ^ 64

abbrev pub min_order : ℕ
min_order = 2

abbrev pub max_order : ℕ
max_order = 8

abbrev pub mult : ℕ
mult = 0x9E3779B97F4A7C15

abbrev pub mix_first : ℕ
mix_first = 0xBF58476D1CE4E5B9

abbrev pub mix_second : ℕ
mix_second = 0x94D049BB133111EB

-- `ORDER_SALTS[o]`, for o up to `max_order`
unfoldable pub order_salt : ℕ → ℕ
order_salt o = u64 (0xA076_1D64_78BD_642F * (o + 1))

-- `SEG_SALTS[s]`, for s below 4
unfoldable pub seg_salt : ℕ → ℕ
seg_salt s = u64 (0xE703_7ED1_A0B4_28DB * (s + 3))

-- The three lines of `fmix64` after its mask, which `lookup` and `_apply` write out.
unfoldable pub mix : ℕ → ℕ
mix x =
    let y = u64 ((x ⊕ (x >> 30)) * mix_first) in
    let z = u64 ((y ⊕ (y >> 27)) * mix_second) in u64 (z ⊕ (z >> 31))

unfoldable pub fmix64 : ℕ → ℕ
fmix64 x = mix (u64 x)

-- The step of `sig_of`'s loop.
abbrev pub sig_step : ℕ → ℕ → ℕ
sig_step h t = u64 (h * mult + fmix64 (t + 1))

unfoldable pub sig_from : ℕ → List ℕ → ℕ
sig_from h [] = h
sig_from h (t ∷ tokens) = sig_from (sig_step h t) tokens

unfoldable pub sig_of : List ℕ → ℕ
sig_of tokens = sig_from 0 tokens

-- `seg & 3` is the remainder by 4.
unfoldable pub fold_key : ℕ → ℕ → ℕ → ℕ → ℕ
fold_key sig order scope_id seg = fmix64 (sig ⊕ order_salt order ⊕ scope_id ⊕ seg_salt (seg % 4))

-- The expansion of `fold_key` in `LedgerStore.lookup`: the scope and the segment are folded first,
-- and the argument of the mix is not masked.
unfoldable pub lookup_key : ℕ → ℕ → ℕ → ℕ → ℕ
lookup_key sig order scope_id seg =
    let base = scope_id ⊕ seg_salt (seg % 4) in mix (sig ⊕ order_salt order ⊕ base)

-- The expansion of `fold_key` in `LedgerStore._apply`.
unfoldable pub apply_key : ℕ → ℕ → ℕ → ℕ → ℕ
apply_key sig order scope_id seg = mix (sig ⊕ order_salt order ⊕ scope_id ⊕ seg_salt (seg % 4))

-- `sigs` has `max_order + 1` places; place 0 is not used.
pub record RollingSigStack : Type 0 where
  pub sigs : List ℕ
  pub n : ℕ

unfoldable pub new_stack : RollingSigStack
new_stack = record { sigs = 0 ∷ 0 ∷ 0 ∷ 0 ∷ 0 ∷ 0 ∷ 0 ∷ 0 ∷ 0 ∷ []; n = 0 }

-- `for o in range(MAX_ORDER, 1, -1)`: with k rounds left o is k + 1.
unfoldable pub roll : ℕ → ℕ → List ℕ → List ℕ
roll zero m s = s
roll (suc k) m s = roll k m (set s (suc (suc k)) (u64 (get_or s (suc k) 0 * mult + m)))

unfoldable pub push : RollingSigStack → ℕ → RollingSigStack
push st tok =
    let m = fmix64 (tok + 1) in
    record { sigs = set (roll (max_order - 1) m st.sigs) 1 m; n = st.n + 1 }

unfoldable pub push_many : RollingSigStack → List ℕ → RollingSigStack
push_many st [] = st
push_many st (t ∷ toks) = push_many (push st t) toks

-- `stack_list()`: position i is order `min_order + i`.
unfoldable pub stack_list : RollingSigStack → List ℕ
stack_list st =
    let hi = min st.n max_order in map (λ o. get_or st.sigs o 0) (range min_order (hi + 1))

-- `stack()`: the same with the orders, the highest first.
unfoldable pub stack : RollingSigStack → List (ℕ × ℕ)
stack st =
    let hi = min st.n max_order in
    reverse (map (λ o. (o, get_or st.sigs o 0)) (range min_order (hi + 1)))
