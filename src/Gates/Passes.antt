-- ===== src/Gates/Passes.antt =====
-- What lets a verdict of sim/gates.py on the sweep or on the gain of role a pass.
use speculation_ledger.Prelude.{
  ℕ, ◌≡◌, ◌⊎◌, refl, inl, inr, Bool, Bool-cases, Option-cases, true, false, not, ◌&&◌, ◌||◌,
  &&-both, ||-either, none, some, List, [], ◌∷◌, leb, ◌==◌, arith, All, All-weaken,
}
use speculation_ledger.Prelude.Dict.{Dict, lookup}
use speculation_ledger.Floats.{Floats, Casts}
use speculation_ledger.Result.{ok}
use speculation_ledger.Replay.Requests.{or_zero}
use speculation_ledger.Replay.Totals.{Totals, sort_named}
use speculation_ledger.Gates.{
  zero_f, Thresholds, SweepRow, Verdict, unbounded_row, max_f, sweep_loop, judge_sweep, seg_gains,
  best_of, best_gain, judge_gr1, judged, Details,
}
use speculation_ledger.Gates.Verdicts.{DivLaws}

module _ (fl : Floats) (casts : Casts fl) (t : Thresholds fl casts) where
  -- A row of a capped table within the budget, whose rate is enough of the full one.
  pub record IsEnough (full : fl.F) (r : SweepRow fl casts) : Type 0 where
    pub capped : (r.max_entries == 0) ≡ false
    pub in_budget : leb r.bytes t.g3_budget_bytes ≡ true
    pub frac : fl.F
    pub is_frac : fl.div r.hit_rate full ≡ some frac
    pub enough : fl.le t.g3_min_hit_frac frac ≡ true

  pub data HasEnough (full : fl.F) : List (SweepRow fl casts) → Type 0 where
    here :
        (r : SweepRow fl casts) (rows : List (SweepRow fl casts))
        → IsEnough full r
        → HasEnough full (r ∷ rows)
    there :
        (r : SweepRow fl casts) (rows : List (SweepRow fl casts))
        → HasEnough full rows
        → HasEnough full (r ∷ rows)

  -- The sweep is enough only where it has a row without a cap, of a positive rate, and a row that is
  -- enough of it.
  pub record SweepPasses (sweep : List (SweepRow fl casts)) : Type 0 where
    pub full : SweepRow fl casts
    pub is_full : unbounded_row fl casts sweep ≡ some full
    pub positive : fl.lt (zero_f fl casts) full.hit_rate ≡ true
    pub enough : HasEnough full.hit_rate sweep

  -- A segment counts where role b has a positive tau for it and role a enough steps.
  abbrev pub counted : Dict fl.F → Dict ℕ → ℕ × fl.F → Bool
  counted sb steps row = elim (lookup row.0 sb) [
    | none ↦ false
    | some tau_b ↦
        fl.lt (zero_f fl casts) tau_b && leb t.gr1_min_seg_steps (or_zero (lookup row.0 steps))
  ]

  -- A segment that counts, with a gain of at least the threshold.
  pub record Gains (sb : Dict fl.F) (steps : Dict ℕ) (row : ℕ × fl.F) : Type 0 where
    pub counts : counted sb steps row ≡ true
    pub tau_b : fl.F
    pub found : lookup row.0 sb ≡ some tau_b
    pub gain : fl.F
    pub is_gain : fl.div (fl.minus row.1 tau_b) tau_b ≡ some gain
    pub enough : fl.le t.gr1_min_rel_gain gain ≡ true

  pub data HasGain (sb : Dict fl.F) (steps : Dict ℕ) : Dict fl.F → Type 0 where
    here : (row : ℕ × fl.F) (rows : Dict fl.F) → Gains sb steps row → HasGain sb steps (row ∷ rows)
    there :
        (row : ℕ × fl.F) (rows : Dict fl.F) → HasGain sb steps rows → HasGain sb steps (row ∷ rows)

  -- The gain of role a over role b is enough, overall or in a segment; a gain that there is nothing to
  -- take over is 0.0.
  pub data GainPasses (a b : Totals fl casts) : Type 0 where
    overall :
        (g : fl.F)
        → fl.eq b.all_tau (zero_f fl casts) ≡ false
        → fl.div (fl.minus a.all_tau b.all_tau) b.all_tau ≡ some g
        → fl.le t.gr1_min_rel_gain g ≡ true
        → GainPasses a b
    in_segment : HasGain b.per_seg_tau a.per_seg_steps (sort_named a.per_seg_tau) → GainPasses a b
    overall_zero :
        fl.eq b.all_tau (zero_f fl casts) ≡ true
        → fl.le t.gr1_min_rel_gain (zero_f fl casts) ≡ true
        → GainPasses a b
    no_segment :
        All (λ row. counted b.per_seg_tau a.per_seg_steps row ≡ false) (sort_named a.per_seg_tau)
        → fl.le t.gr1_min_rel_gain (zero_f fl casts) ≡ true
        → GainPasses a b

  module _ (laws : DivLaws fl) where
    sweep_loop-ok :
        (full : fl.F) (rows : List (SweepRow fl casts)) (acc : fl.F × Bool)
        → fl.lt (zero_f fl casts) full ≡ true
        → (r : fl.F × Bool) × (sweep_loop fl casts t full rows acc ≡ ok r)
          × (r.1 ≡ true → (acc.1 ≡ true) ⊎ HasEnough full rows)
    unfolding sweep_loop
    sweep_loop-ok full [] acc positive = (acc, refl, λ e. inl e)
    sweep_loop-ok full (r ∷ rows) acc positive =
        elim (Bool-cases (not (r.max_entries == 0) && leb r.bytes t.g3_budget_bytes)) [
          | inr past ↦
              let (x, e, why) = sweep_loop-ok full rows acc positive in
              (
                x,
                rw (past, sweep_loop) e,
                λ p. elim (why p) [
                  | inl before ↦ inl before
                  | inr later ↦ inr (HasEnough.there r rows later)
                ],
              )
          | inl counts ↦
              let (frac, e) = laws.div-some r.hit_rate full (laws.lt-eq full positive) in
              let (x, e', why) =
                sweep_loop-ok full rows
                  (max_f fl casts acc.0 frac, acc.1 || fl.le t.g3_min_hit_frac frac) positive in
              (
                x,
                rw (counts, sweep_loop, e) e',
                λ p. elim (why p) [
                  | inr later ↦ inr (HasEnough.there r rows later)
                  | inl before ↦ elim (Bool-cases (fl.le t.g3_min_hit_frac frac)) [
                    | inr less ↦ inl (ground (arith, less, before))
                    | inl enough ↦ inr (
                        HasEnough.here r rows (record {
                          capped = ground (arith, counts);
                          in_budget = ground (arith, counts);
                          frac = frac;
                          is_frac = e;
                          enough = enough;
                        }))
                  ]
                ],
              )
        ]

    pub judge_sweep-ok :
        (sweep : List (SweepRow fl casts))
        → (r : fl.F × Bool) × (judge_sweep fl casts t sweep ≡ ok r)
          × (r.1 ≡ true → SweepPasses sweep)
    unfolding judge_sweep
    judge_sweep-ok sweep = elim (Option-cases (unbounded_row fl casts sweep)) [
      | inl missing ↦ ((zero_f fl casts, false), rw (judge_sweep, missing) refl, λ e. absurd (cc))
      | inr (full, found) ↦ elim (Bool-cases (fl.lt (zero_f fl casts) full.hit_rate)) [
        | inr nothing ↦
            ((zero_f fl casts, false), rw (judge_sweep, found, nothing) refl, λ e. absurd (cc))
        | inl positive ↦
            let (r, e, why) = sweep_loop-ok full.hit_rate sweep (zero_f fl casts, false) positive in
            (
              r,
              rw (judge_sweep, found, positive) e,
              λ p. record {
                full = full;
                is_full = found;
                positive = positive;
                enough = elim (why p) [ inl before ↦ absurd (cc) | inr enough ↦ enough ];
              },
            )
      ]
    ]

    seg_gains-ok :
        (sb : Dict fl.F) (steps : Dict ℕ) (rows : Dict fl.F)
        → (gains : Dict fl.F) × (seg_gains fl casts t sb steps rows ≡ ok gains)
          × (gains ≡ [] → All (λ row. counted sb steps row ≡ false) rows)
          × All (λ g. fl.le t.gr1_min_rel_gain g.1 ≡ true → HasGain sb steps rows) gains
    unfolding seg_gains
    seg_gains-ok sb steps [] = ([], refl, λ e. tt, tt)
    seg_gains-ok sb steps (row ∷ rows) =
        let (rest, e, none_left, from) = seg_gains-ok sb steps rows in
        let up =
          All-weaken (λ (g : ℕ × fl.F). fl.le t.gr1_min_rel_gain g.1 ≡ true → HasGain sb steps rows)
            (λ g. fl.le t.gr1_min_rel_gain g.1 ≡ true → HasGain sb steps (row ∷ rows)) rest
            (λ g why p. HasGain.there row rows (why p)) from in
        elim (Option-cases (lookup row.0 sb)) [
          | inl missing ↦ (
            rest,
            rw (seg_gains, missing) e,
            λ nothing. (rw (missing, counted) refl, none_left nothing),
            up,
          )
          | inr (tau_b, found) ↦
              elim (Bool-cases (
                fl.lt (zero_f fl casts) tau_b
                && leb t.gr1_min_seg_steps (or_zero (lookup row.0 steps)))) [
                  | inr past ↦ (
                    rest,
                    rw (seg_gains, found, past) e,
                    λ nothing. (rw (found, past, counted) refl, none_left nothing),
                    up,
                  )
                  | inl counts ↦
                      let (positive, _) = &&-both _ _ counts in
                      let (g, e') =
                        laws.div-some (fl.minus row.1 tau_b) tau_b (laws.lt-eq tau_b positive) in
                      (
                        (row.0, g) ∷ rest,
                        rw (seg_gains, found, counts, e', e) refl,
                        λ nothing. absurd (cc),
                        (
                          λ p. HasGain.here row rows (record {
                            counts = rw (found, counts, counted) refl;
                            tau_b = tau_b;
                            found = found;
                            gain = g;
                            is_gain = e';
                            enough = p;
                          }),
                          up,
                        ),
                      )
                ]
        ]

    best_of-All :
        (Q : fl.F → Type 0) (best : fl.F) (gains : Dict fl.F)
        → Q best
        → All (λ g. Q g.1) gains
        → Q (best_of fl casts best gains)
    unfolding best_of
    best_of-All Q best [] q a = q
    best_of-All Q best (row ∷ rows) q a = elim (Bool-cases (fl.lt best row.1)) [
      | inl more ↦ rw more (best_of-All Q row.1 rows a.0 a.1)
      | inr less ↦ rw less (best_of-All Q best rows q a.1)
    ]

    best_gain-HasGain :
        (sb : Dict fl.F) (steps : Dict ℕ) (rows gains : Dict fl.F)
        → (gains ≡ [] → All (λ row. counted sb steps row ≡ false) rows)
        → All (λ g. fl.le t.gr1_min_rel_gain g.1 ≡ true → HasGain sb steps rows) gains
        → fl.le t.gr1_min_rel_gain (best_gain fl casts gains) ≡ true
        → HasGain sb steps rows
          ⊎ (All (λ row. counted sb steps row ≡ false) rows
              × (fl.le t.gr1_min_rel_gain (zero_f fl casts) ≡ true))
    best_gain-HasGain sb steps rows [] none_left from p = inr (none_left refl, p)
    best_gain-HasGain sb steps rows (row ∷ gains) none_left from p = inl (
        best_of-All (λ g. fl.le t.gr1_min_rel_gain g ≡ true → HasGain sb steps rows) row.1 gains
          from.0 from.1 p)

    pub judge_gr1-ok :
        (a b : Totals fl casts)
        → (v : Verdict fl casts) × (judge_gr1 fl casts t a b ≡ ok v)
          × (v.skipped ≡ false)
          × (v.passes ≡ true → GainPasses a b)
    unfolding judge_gr1
    judge_gr1-ok a b =
        let rows = sort_named a.per_seg_tau in
        let (gains, e, none_left, from) = seg_gains-ok b.per_seg_tau a.per_seg_steps rows in
        let best = best_gain fl casts gains in
        let verdict = λ (x : fl.F).
          judged fl casts x t.gr1_min_rel_gain
            (fl.le t.gr1_min_rel_gain x || fl.le t.gr1_min_rel_gain best)
            (Details.per_seg_gain gains a.all_tau b.all_tau) in
        let by_segment : fl.le t.gr1_min_rel_gain best ≡ true → GainPasses a b = λ p.
          elim (best_gain-HasGain b.per_seg_tau a.per_seg_steps rows gains none_left from p) [
            | inl found ↦ GainPasses.in_segment found
            | inr (nothing, low) ↦ GainPasses.no_segment nothing low
          ] in
        elim (Bool-cases (fl.eq b.all_tau (zero_f fl casts))) [
          | inl nothing ↦ (
            verdict (zero_f fl casts),
            rw (judge_gr1, nothing, e) refl,
            refl,
            λ p. elim (||-either _ _ p) [
              | inl low ↦ GainPasses.overall_zero nothing low
              | inr more ↦ by_segment more
            ],
          )
          | inr over ↦
              let (x, e') = laws.div-some (fl.minus a.all_tau b.all_tau) b.all_tau over in
              (
                verdict x,
                rw (judge_gr1, over, e', e) refl,
                refl,
                λ p. elim (||-either _ _ p) [
                  | inl enough ↦ GainPasses.overall x over e' enough
                  | inr more ↦ by_segment more
                ],
              )
        ]
