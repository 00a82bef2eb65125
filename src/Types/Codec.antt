-- ===== src/Types/Codec.antt =====
-- The 8-bit codec of log-probabilities of core/types.py.
use speculation_ledger.Prelude.{ℕ, ◌≤◌, inl, inr, Bool-cases, not, ◌||◌, arith, ltb, if◌then◌else◌}
use speculation_ledger.Prelude.Int.{ℤ, pos, negsuc}
use speculation_ledger.Floats.{Floats, Casts}

-- `0 if q < 0 else (255 if q > 255 else int(q))`
abbrev pub clamp_q8 : ℤ → ℕ
clamp_q8 (pos n) = if ltb 255 n then 255 else n
clamp_q8 (negsuc n) = 0

clamp_q8-le : (z : ℤ) → clamp_q8 z ≤ 255
clamp_q8-le (pos n) = ground arith
clamp_q8-le (negsuc n) = omega arith

module _ (fl : Floats) (casts : Casts fl) where
  unfoldable pub logp_to_q8 : fl.F → ℕ
  logp_to_q8 logp =
      if not (fl.eq logp logp) || fl.eq logp casts.neg_inf
      then 255
      else if fl.eq logp casts.inf
      then 0
      else clamp_q8 (casts.round (fl.times (casts.neg logp) (fl.ratio 16 1)))

  -- Whatever a float is, its code fits eight bits.
  pub logp_to_q8-le : (logp : fl.F) → logp_to_q8 logp ≤ 255
  unfolding logp_to_q8
  logp_to_q8-le logp = elim (Bool-cases (not (fl.eq logp logp) || fl.eq logp casts.neg_inf)) [
    | inl least ↦ rw least (omega arith)
    | inr other ↦ elim (Bool-cases (fl.eq logp casts.inf)) [
      | inl top ↦ rw (other, top) (omega arith)
      | inr finite ↦
          rw (other, finite) (clamp_q8-le (casts.round (fl.times (casts.neg logp) (fl.ratio 16 1))))
    ]
  ]
