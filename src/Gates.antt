-- ===== src/Gates.antt =====
-- `_judge` of sim/gates.py: the verdicts on the gates of an experiment, from the totals of its proposers.
-- The texts that a verdict carries for the reader (its metric) are left out.
pub mod Verdicts
pub mod Passes
pub mod Grounds
use speculation_ledger.Prelude.{
  ℕ, Bool, true, false, not, ◌&&◌, ◌||◌, Option, none, some, List, [], ◌∷◌, leb, ◌==◌,
  if◌then◌else◌,
}
use speculation_ledger.Prelude.Dict.{Dict, lookup}
use speculation_ledger.Prelude.Texts.{str_eq, find, store}
use speculation_ledger.Floats.{Floats, Casts}
use speculation_ledger.Result.{Result, ok, or_raise, zero_division, ◌>>=◌}
use speculation_ledger.Types.{Str}
use speculation_ledger.Convert.{has}
use speculation_ledger.Convert.Read.{str_lt}
use speculation_ledger.Replay.Requests.{or_zero}
use speculation_ledger.Replay.Totals.{Totals, sort_named}

abbrev pub text_g1 : Str
text_g1 = b'G' ∷ b'1' ∷ []

abbrev pub text_g2 : Str
text_g2 = b'G' ∷ b'2' ∷ []

abbrev pub text_g3 : Str
text_g3 = b'G' ∷ b'3' ∷ []

abbrev pub text_gr1 : Str
text_gr1 = b'G' ∷ b'-' ∷ b'R' ∷ b'1' ∷ []

abbrev pub role_a : Str
role_a = b'a' ∷ []

abbrev pub role_b : Str
role_b = b'b' ∷ []

-- `x in xs`
abbrev pub listed_in : Str → List Str → Bool
listed_in x [] = false
listed_in x (y ∷ ys) = str_eq y x || listed_in x ys

-- `cfg.get("gates", ["G1", "G2", "G3", "G-R1"])`
abbrev pub wanted : Option (List Str) → List Str
wanted none = text_g1 ∷ text_g2 ∷ text_g3 ∷ text_gr1 ∷ []
wanted (some gates) = gates

module _ (fl : Floats) (casts : Casts fl) where
  abbrev pub zero_f : fl.F
  zero_f = fl.ratio 0 1

  pub record Thresholds : Type 0 where
    pub g1_min_rate_order4_session : fl.F
    pub g2_min_tau_ledger : fl.F
    pub g3_budget_bytes : ℕ
    pub g3_min_hit_frac : fl.F
    pub gr1_min_rel_gain : fl.F
    pub gr1_min_seg_steps : ℕ

  -- A row of the size sweep.
  pub record SweepRow : Type 0 where
    pub max_entries : ℕ
    pub bytes : ℕ
    pub hit_rate : fl.F
    pub sweep_tau : fl.F
    pub evictions : ℕ

  -- What some verdicts carry besides: the rates of the other roles, the sweep, or the gains.
  pub data Details : Type 0 where
    no_details : Details
    baselines_tau : List (Str × fl.F) → Details
    curve : List SweepRow → Details
    per_seg_gain : Dict fl.F → fl.F → fl.F → Details

  pub record Verdict : Type 0 where
    pub value : Option fl.F
    pub threshold : Option fl.F
    pub passes : Bool
    pub skipped : Bool
    pub details : Details

  abbrev pub Verdicts : Type 0
  Verdicts = List (Str × Verdict)

  -- The totals of the proposer of each role.
  abbrev pub Roles : Type 0
  Roles = List (Str × Totals fl casts)

  abbrev pub judged : fl.F → fl.F → Bool → Details → Verdict
  judged value threshold passes details = record {
    value = some value;
    threshold = some threshold;
    passes = passes;
    skipped = false;
    details = details;
  }

  abbrev pub skipped_verdict : Verdict
  skipped_verdict = record {
    value = none;
    threshold = none;
    passes = false;
    skipped = true;
    details = Details.no_details;
  }

  -- `sorted(by_role)`, with the roles' totals.
  unfoldable pub insert_role : Str × Totals fl casts → Roles → Roles
  unfolding str_lt
  insert_role r [] = r ∷ []
  insert_role r (c ∷ cs) =
      let rest = insert_role r cs in if str_lt c.0 r.0 then c ∷ rest else r ∷ c ∷ cs

  unfoldable pub sort_roles : Roles → Roles
  unfolding insert_role
  sort_roles [] = []
  sort_roles (r ∷ rs) = insert_role r (sort_roles rs)

  -- `others` of G2
  unfoldable pub other_taus : Roles → List (Str × fl.F)
  other_taus [] = []
  other_taus (r ∷ rs) =
      let rest = other_taus rs in if str_eq r.0 role_a then rest else (r.0, r.1.all_tau) ∷ rest

  -- The first row of the sweep without a cap.
  unfoldable pub unbounded_row : List SweepRow → Option SweepRow
  unbounded_row [] = none
  unbounded_row (r ∷ rs) =
      let rest = unbounded_row rs in if r.max_entries == 0 then some r else rest

  abbrev pub divide : fl.F → fl.F → Result fl.F
  divide x y = or_raise (fl.div x y) zero_division

  -- `max(best, frac)`
  abbrev pub max_f : fl.F → fl.F → fl.F
  max_f best frac = if fl.lt best frac then frac else best

  -- The loop over the sweep: the best part of the unbounded rate so far, and if one was enough.
  unfoldable pub sweep_loop : Thresholds → fl.F → List SweepRow → fl.F × Bool → Result (fl.F × Bool)
  sweep_loop t full [] acc = ok acc
  sweep_loop t full (r ∷ rs) acc =
      elim (not (r.max_entries == 0) && leb r.bytes t.g3_budget_bytes) [
        | true ↦ do
          frac ← divide r.hit_rate full
          sweep_loop t full rs (max_f acc.0 frac, acc.1 || fl.le t.g3_min_hit_frac frac)
        | false ↦ sweep_loop t full rs acc
      ]

  unfoldable pub judge_sweep : Thresholds → List SweepRow → Result (fl.F × Bool)
  unfolding sweep_loop unbounded_row
  judge_sweep t sweep = elim (unbounded_row sweep) [
    | none ↦ ok (zero_f, false)
    | some full ↦ elim (fl.lt zero_f full.hit_rate) [
      | false ↦ ok (zero_f, false)
      | true ↦ sweep_loop t full.hit_rate sweep (zero_f, false)
    ]
  ]

  -- `(x - y) / y`
  abbrev pub gain : fl.F → fl.F → Result fl.F
  gain x y = divide (fl.minus x y) y

  -- The loop over the segments of role a.
  unfoldable pub seg_gains : Thresholds → Dict fl.F → Dict ℕ → Dict fl.F → Result (Dict fl.F)
  seg_gains t sb steps_a [] = ok []
  seg_gains t sb steps_a (row ∷ rows) = elim (lookup row.0 sb) [
    | none ↦ seg_gains t sb steps_a rows
    | some tau_b ↦
        elim (fl.lt zero_f tau_b && leb t.gr1_min_seg_steps (or_zero (lookup row.0 steps_a))) [
          | false ↦ seg_gains t sb steps_a rows
          | true ↦ do
            g ← gain row.1 tau_b
            rest ← seg_gains t sb steps_a rows
            ok ((row.0, g) ∷ rest)
        ]
  ]

  -- `max(gains.values())`, of the first value and the others.
  unfoldable pub best_of : fl.F → Dict fl.F → fl.F
  best_of best [] = best
  best_of best (row ∷ rows) = best_of (max_f best row.1) rows

  abbrev pub best_gain : Dict fl.F → fl.F
  best_gain [] = zero_f
  best_gain (row ∷ rows) = best_of row.1 rows

  unfoldable pub judge_g1 : Thresholds → fl.F → Verdict
  judge_g1 t rate =
      judged rate t.g1_min_rate_order4_session (fl.le t.g1_min_rate_order4_session rate)
        Details.no_details

  unfoldable pub judge_g2 : Thresholds → Roles → Totals fl casts → Verdict
  unfolding other_taus sort_roles
  judge_g2 t roles a =
      judged a.all_tau t.g2_min_tau_ledger (fl.le t.g2_min_tau_ledger a.all_tau)
        (Details.baselines_tau (other_taus (sort_roles roles)))

  unfoldable pub judge_g3 : Thresholds → List SweepRow → Result Verdict
  unfolding judge_sweep
  judge_g3 t sweep = do
    (best, enough) ← judge_sweep t sweep
    ok (judged best t.g3_min_hit_frac enough (Details.curve sweep))

  unfoldable pub judge_gr1 : Thresholds → Totals fl casts → Totals fl casts → Result Verdict
  unfolding seg_gains sort_named best_of
  judge_gr1 t a b = do
    overall ← if fl.eq b.all_tau zero_f then ok zero_f else gain a.all_tau b.all_tau
    gains ← seg_gains t b.per_seg_tau a.per_seg_steps (sort_named a.per_seg_tau)
    let enough = fl.le t.gr1_min_rel_gain overall || fl.le t.gr1_min_rel_gain (best_gain gains)
    ok (judged overall t.gr1_min_rel_gain enough (Details.per_seg_gain gains a.all_tau b.all_tau))

  -- `for g in want: if g not in gates: gates[g] = ...`
  unfoldable pub add_skipped : List Str → Verdicts → Verdicts
  add_skipped [] gates = gates
  add_skipped (g ∷ want) gates =
      add_skipped want (if has (find g gates) then gates else store g skipped_verdict gates)

  -- A gate that is asked for and can be judged gets its verdict.
  unfoldable pub put_gate : Str → List Str → Option (Result Verdict) → Verdicts → Result Verdicts
  put_gate g want none gates = ok gates
  put_gate g want (some r) gates =
      if listed_in g want then (r >>= (λ v. ok (store g v gates))) else ok gates

  -- The verdict on G3, where there is a sweep, and on G-R1, where there are both roles.
  abbrev pub g3_of : Thresholds → List SweepRow → Option (Result Verdict)
  g3_of t [] = none
  g3_of t (r ∷ rs) = some (judge_g3 t (r ∷ rs))

  abbrev pub g2_of : Thresholds → Roles → Option (Totals fl casts) → Option (Result Verdict)
  g2_of t roles none = none
  g2_of t roles (some a) = some (ok (judge_g2 t roles a))

  abbrev pub gr1_of :
      Thresholds → Option (Totals fl casts) → Option (Totals fl casts) → Option (Result Verdict)
  gr1_of t (some a) (some b) = some (judge_gr1 t a b)
  gr1_of t none b = none
  gr1_of t (some a) none = none

  unfoldable pub judge :
      Option (List Str) → Thresholds → fl.F → Roles → List SweepRow → Result Verdicts
  unfolding judge_g1 put_gate add_skipped
  judge cfg t rate roles sweep = do
    let want = wanted cfg
    let a = find role_a roles
    gates₁ ← put_gate text_g1 want (some (ok (judge_g1 t rate))) []
    gates₂ ← put_gate text_g2 want (g2_of t roles a) gates₁
    gates₃ ← put_gate text_g3 want (g3_of t sweep) gates₂
    gates₄ ← put_gate text_gr1 want (gr1_of t a (find role_b roles)) gates₃
    ok (add_skipped want gates₄)
