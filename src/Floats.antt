-- ===== src/Floats.antt =====
-- Python's floats, which the program uses and does not implement: a type with the operations that
-- the modelled code calls. Nothing is assumed of their results.
use speculation_ledger.Prelude.{ℕ, Bool, Option, List}
use speculation_ledger.Prelude.Int.{ℤ}

pub record Floats : Type 1 where
  pub F : Type 0
  -- `ratio n d` is the double nearest to n / d: the literals, an int as a float, and `/` on two ints.
  pub ratio : ℕ → ℕ → F
  -- `-n / d`
  pub neg_ratio : ℕ → ℕ → F
  pub plus : F → F → F
  pub minus : F → F → F
  pub times : F → F → F
  -- `/`; `none` is the ZeroDivisionError.
  pub div : F → F → Option F
  -- `x ** n`
  pub pow : F → ℕ → F
  -- `math.exp`
  pub exp : F → F
  -- The builtin `sum` of a list of floats.
  pub sum : List F → F
  -- `round(x, 1)`
  pub round_1 : F → F
  -- `<`, `<=` and `==`
  pub lt : F → F → Bool
  pub le : F → F → Bool
  pub eq : F → F → Bool

-- The conversions of floats.
pub record Casts (fl : Floats) : Type 0 where
  pub neg : fl.F → fl.F
  -- `round(x)`
  pub round : fl.F → ℤ
  -- `round(x, 6)`
  pub round_6 : fl.F → fl.F
  -- `int(x)` of a float that is not negative
  pub floor : fl.F → ℕ
  pub inf : fl.F
  pub neg_inf : fl.F
