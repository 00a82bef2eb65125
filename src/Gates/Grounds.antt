-- ===== src/Gates/Grounds.antt =====
-- `_judge` of sim/gates.py returns, with a verdict on each gate that is asked for, and a gate passes only
-- on the inputs that it needs.
use speculation_ledger.Prelude.{◌≡◌, true, false, Option, some, List}
use speculation_ledger.Prelude.Texts.{find}
use speculation_ledger.Floats.{Floats, Casts}
use speculation_ledger.Result.{Result, ok}
use speculation_ledger.Types.{Str}
use speculation_ledger.Replay.Totals.{Totals}
use speculation_ledger.Gates.{
  text_g1, text_g2, text_g3, text_gr1, role_a, role_b, listed_in, Thresholds, SweepRow, Verdict,
  Verdicts, Roles,
}
use speculation_ledger.Gates.Passes.{SweepPasses, GainPasses}
use speculation_ledger.Gates.Verdicts.{DivLaws}

module _ (fl : Floats) (casts : Casts fl) (laws : DivLaws fl) (t : Thresholds fl casts) where
  module _ (rate : fl.F) (roles : Roles fl casts) (sweep : List (SweepRow fl casts)) where
    -- What a gate needs to pass: for G1 and G2, a value at its threshold or above it; for G3, a capped row
    -- within the budget whose rate is enough of the full one; for G-R1, both roles, and an overall gain
    -- or the gain in a segment at the threshold or above it.
    pub data Grounds : Str → Type 0 where
      of_g1 : fl.le t.g1_min_rate_order4_session rate ≡ true → Grounds text_g1
      of_g2 :
          (a : Totals fl casts)
          → find role_a roles ≡ some a
          → fl.le t.g2_min_tau_ledger a.all_tau ≡ true
          → Grounds text_g2
      of_g3 : SweepPasses fl casts t sweep → Grounds text_g3
      of_gr1 :
          (a b : Totals fl casts)
          → find role_a roles ≡ some a
          → find role_b roles ≡ some b
          → GainPasses fl casts t a b
          → Grounds text_gr1

    -- A verdict is on a gate that is asked for, it has its grounds where it passes, and a skipped gate
    -- does not pass.
    pub record IsFounded (want : List Str) (row : Str × Verdict fl casts) : Type 0 where
      pub asked : listed_in row.0 want ≡ true
      pub grounds : row.1.passes ≡ true → Grounds row.0
      pub unskipped : row.1.passes ≡ true → row.1.skipped ≡ false

    -- A verdict that a put gate gets, where it is asked for.
    Founds : List Str → Str → Option (Result (Verdict fl casts)) → Type 0
    Founds want g o =
        (r : Result (Verdict fl casts))
        → o ≡ some r
        → listed_in g want ≡ true
        → (v : Verdict fl casts) × (r ≡ ok v) × IsFounded want (g, v)
