-- ===== src/Replay/Totals.antt =====
-- What sim/replay.py makes of the counts of a replay: the rates of a request, its row in the report, and
-- the totals over all requests.
pub mod Balance
use speculation_ledger.Prelude.{
  ℕ, zero, suc, ◌+◌, Bool, List, [], ◌∷◌, leb, ltb, ◌==◌, if◌then◌else◌, map,
}
use speculation_ledger.Prelude.Dict.{Dict, lookup}
use speculation_ledger.Floats.{Floats, Casts}
use speculation_ledger.Types.{Str}
use speculation_ledger.Replay.Requests.{RequestMetrics, or_zero, add_at}

-- The place of a segment's name (think, tool, code, text) in the order of the names.
abbrev pub name_rank : ℕ → ℕ
name_rank seg = if seg == 2 then 0 else if seg == 3 then 1 else if seg == 0 then 2 else 3

-- `for s, v in counts.items(): acc[s] = acc.get(s, 0) + v`
unfoldable pub add_counts : Dict ℕ → Dict ℕ → Dict ℕ
unfolding add_at
add_counts [] acc = acc
add_counts (row ∷ counts) acc = add_counts counts (add_at row.0 row.1 acc)

-- The counts of all requests, added up into one dict.
unfoldable pub add_all : (RequestMetrics → Dict ℕ) → List RequestMetrics → Dict ℕ → Dict ℕ
unfolding add_counts
add_all f [] acc = acc
add_all f (rm ∷ rms) acc = add_all f rms (add_counts (f rm) acc)

-- `sum(f(r) for r in requests)`
abbrev pub sum_of : (RequestMetrics → ℕ) → List RequestMetrics → ℕ
sum_of f [] = 0
sum_of f (rm ∷ rms) = f rm + sum_of f rms

-- The rows of a dict of segments, sorted by the names.
unfoldable pub insert_named : {V : Type 0} → ℕ × V → Dict V → Dict V
insert_named r [] = r ∷ []
insert_named r (c ∷ cs) =
    let rest = insert_named r cs in
    if ltb (name_rank c.0) (name_rank r.0) then c ∷ rest else r ∷ c ∷ cs

unfoldable pub sort_named : {V : Type 0} → Dict V → Dict V
unfolding insert_named
sort_named [] = []
sort_named (r ∷ rs) = insert_named r (sort_named rs)

module _ (fl : Floats) (casts : Casts fl) where
  -- `n / d if d else 0.0`
  abbrev pub rate : ℕ → ℕ → fl.F
  rate n d = if d == 0 then fl.ratio 0 1 else fl.ratio n d

  -- `round(n / d, 6) if d else 0.0`
  abbrev pub rounded_rate : ℕ → ℕ → fl.F
  rounded_rate n d = if d == 0 then fl.ratio 0 1 else casts.round_6 (fl.ratio n d)

  -- `RequestMetrics.tau`
  unfoldable pub tau : RequestMetrics → fl.F
  tau rm = rate rm.tokens rm.steps

  -- A segment of a row: its steps and the rate of its tokens.
  pub record SegRow : Type 0 where
    pub seg : ℕ
    pub steps : ℕ
    pub seg_tau : fl.F

  -- `as_row`, where the counts of the segments are a list in the order of `_SEG_NAMES`.
  pub record Row : Type 0 where
    pub proposer : Str
    pub request_id : Str
    pub ts : ℕ
    pub steps : ℕ
    pub tokens : ℕ
    pub row_tau : fl.F
    pub drafted_tokens : ℕ
    pub drafted_steps : ℕ
    pub segs : List SegRow

  unfoldable pub as_row : Str → RequestMetrics → Row
  unfolding tau
  as_row proposer rm = record {
    proposer = proposer;
    request_id = rm.request_id;
    ts = rm.ts;
    steps = rm.steps;
    tokens = rm.tokens;
    row_tau = casts.round_6 (tau rm);
    drafted_tokens = rm.drafted_tokens;
    drafted_steps = rm.drafted_steps;
    segs =
        map
          (λ s.
            let st = or_zero (lookup s rm.seg_steps) in
            record {
              seg = s;
              steps = st;
              seg_tau = rounded_rate (or_zero (lookup s rm.seg_tokens)) st;
            })
          (0 ∷ 1 ∷ 2 ∷ 3 ∷ []);
  }

  -- `round(seg_tokens.get(s, 0) / seg_steps[s], 6)` for the segments that have steps.
  unfoldable pub seg_taus : Dict ℕ → Dict ℕ → Dict fl.F
  seg_taus seg_tokens [] = []
  seg_taus seg_tokens (row ∷ rows) =
      let rest = seg_taus seg_tokens rows in
      if row.1 == 0
      then rest
      else (row.0, casts.round_6 (fl.ratio (or_zero (lookup row.0 seg_tokens)) row.1)) ∷ rest

  pub record Totals : Type 0 where
    pub steps : ℕ
    pub tokens : ℕ
    pub all_tau : fl.F
    pub drafted_tokens_per_step : fl.F
    pub per_seg_tau : Dict fl.F
    pub per_seg_steps : Dict ℕ

  unfoldable pub totals : List RequestMetrics → Totals
  unfolding add_all sort_named seg_taus
  totals rms =
      let steps = sum_of (λ r. r.steps) rms in
      let tokens = sum_of (λ r. r.tokens) rms in
      let seg_steps = sort_named (add_all (λ r. r.seg_steps) rms []) in
      record {
        steps = steps;
        tokens = tokens;
        all_tau = rounded_rate tokens steps;
        drafted_tokens_per_step = rounded_rate (sum_of (λ r. r.drafted_tokens) rms) steps;
        per_seg_tau = seg_taus (add_all (λ r. r.seg_tokens) rms []) seg_steps;
        per_seg_steps = seg_steps;
      }

  -- `learning_curve`
  unfoldable pub learning_curve : List RequestMetrics → List fl.F
  unfolding tau
  learning_curve rms = map (λ r. casts.round_6 (tau r)) rms
