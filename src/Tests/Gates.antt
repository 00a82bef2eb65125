-- ===== src/Tests/Gates.antt =====
-- The judgement of gates at concrete totals.
use speculation_ledger.Prelude.{
  ℕ, ◌≡◌, refl, true, false, none, some, List, [], ◌∷◌, ◌*◌, ◌/◌, arith, map,
}
use speculation_ledger.Result.{ok}
use speculation_ledger.Types.{Str}
use speculation_ledger.Replay.Totals.{Totals, sort_named, insert_named}
use speculation_ledger.Gates.{
  text_g2, role_a, role_b, Thresholds, SweepRow, Verdict, Verdicts, Roles, judge, judge_g1,
  judge_g2, judge_g3, judge_gr1, put_gate, add_skipped, other_taus, sort_roles, insert_role,
  judge_sweep, sweep_loop, unbounded_row, seg_gains, best_of,
}
use speculation_ledger.Gates.Verdicts.{DivLaws}
use speculation_ledger.Convert.Read.{str_lt}
use speculation_ledger.Tests.Toys.{toy_floats, toy_casts}

abbrev toy_div : DivLaws toy_floats
toy_div = record {
  div-some = λ x y apart. (x * 100 / y, rw apart refl);
  lt-eq = λ y positive. ground (arith, positive);
}

abbrev toy_thresholds : Thresholds toy_floats toy_casts
toy_thresholds = record {
  g1_min_rate_order4_session = 30;
  g2_min_tau_ledger = 200;
  g3_budget_bytes = 1000;
  g3_min_hit_frac = 80;
  gr1_min_rel_gain = 10;
  gr1_min_seg_steps = 3;
}

abbrev totals_of : ℕ → Totals toy_floats toy_casts
totals_of t = record {
  steps = 4;
  tokens = 10;
  all_tau = t;
  drafted_tokens_per_step = 300;
  per_seg_tau = (2, t) ∷ (0, 150) ∷ [];
  per_seg_steps = (2, 3) ∷ (0, 1) ∷ [];
}

abbrev toy_sweep : List (SweepRow toy_floats toy_casts)
toy_sweep =
    record { max_entries = 10; bytes = 900; hit_rate = 45; sweep_tau = 210; evictions = 5 }
    ∷ record { max_entries = 0; bytes = 5000; hit_rate = 50; sweep_tau = 220; evictions = 0 }
    ∷ []

abbrev toy_roles : Roles toy_floats toy_casts
toy_roles = (role_b, totals_of 200) ∷ (role_a, totals_of 240) ∷ []

-- G1 fails, the others pass.
judge_test :
    (gates : Verdicts toy_floats toy_casts) × (judge toy_floats toy_casts none toy_thresholds 20
        toy_roles toy_sweep
      ≡ ok gates)
    × (map (λ (row : Str × Verdict toy_floats toy_casts). row.1.passes) gates
        ≡ false ∷ true ∷ true ∷ true ∷ [])
unfolding judge judge_g1 judge_g2 judge_g3 judge_gr1 put_gate add_skipped other_taus sort_roles
    insert_role judge_sweep sweep_loop unbounded_row seg_gains best_of str_lt sort_named
    insert_named
judge_test = (_, refl, refl)

-- Without role a, G2 is skipped, and so is a name that no gate has.
skipped_test :
    (gates : Verdicts toy_floats toy_casts) × (judge toy_floats toy_casts
        (some (text_g2 ∷ (b'x' ∷ []) ∷ []))
        toy_thresholds
        20
        []
        toy_sweep
      ≡ ok gates)
    × (map (λ (row : Str × Verdict toy_floats toy_casts). row.1.skipped) gates ≡ true ∷ true ∷ [])
unfolding judge judge_g1 judge_g2 judge_g3 judge_gr1 put_gate add_skipped
skipped_test = (_, refl, refl)
