-- ===== src/Backoff.antt =====
-- core/backoff.py: the blend of the sources that a lookup found.
pub mod Rank
pub mod Support
use speculation_ledger.Prelude.{
  ℕ, suc, ◌+◌, ◌-◌, Bool, Option, none, some, List, [], ◌∷◌, max, ltb, leb, ◌==◌, if◌then◌else◌,
  length, take, map,
}
use speculation_ledger.Prelude.Dict.{Dict, lookup, insert}
use speculation_ledger.Floats.{Floats}
use speculation_ledger.Result.{Result, ok, index_error, zero_division, or_raise, ◌>>=◌}
use speculation_ledger.Signature.{max_order}

-- (tok, acc, rej, logp_q8)
abbrev pub SourceCand : Type 0
SourceCand = ℕ × ℕ × ℕ × ℕ

-- `total` and `total_acc` are `none` where the source has its default -1.
pub record Source : Type 0 where
  pub match_len : ℕ
  pub scope_depth : ℕ
  pub cands : List SourceCand
  pub total : Option ℕ
  pub total_acc : Option ℕ

abbrev pub sum_counts : List SourceCand → ℕ
sum_counts [] = 0
sum_counts ((_, a, r, _) ∷ cs) = a + r + sum_counts cs

abbrev pub sum_accepted : List SourceCand → ℕ
sum_accepted [] = 0
sum_accepted ((_, a, _, _) ∷ cs) = a + sum_accepted cs

unfoldable pub total_count : Source → ℕ
total_count s = elim s.total [ none ↦ sum_counts s.cands | some n ↦ n ]

unfoldable pub total_acc_count : Source → ℕ
total_acc_count s = elim s.total_acc [ none ↦ sum_accepted s.cands | some n ↦ n ]

-- `max(s.match_len for s in sources)`, of a non-empty list
unfoldable pub best_order : List Source → ℕ
best_order [] = 0
best_order (s ∷ ss) = max s.match_len (best_order ss)

module _ (fl : Floats) where
  open fl use {F, ratio, neg_ratio, plus, minus, times, div, pow, exp, sum, round_1, lt, le, eq}

  pub record BackoffParams : Type 0 where
    pub order_decay : F
    pub scope_decay : F
    pub count_prior : F
    pub beta_a : F
    pub beta_b : F
    pub max_cands : ℕ
    pub anno_prior_w : F
    pub p_hat_min_order : ℕ

  pub record PosteriorCand : Type 0 where
    pub tok : ℕ
    pub p_acc : F
    pub p_hat : F
    pub support : ℕ

  pub record Posterior : Type 0 where
    pub cands : List PosteriorCand
    pub weight : F
    pub best_order : ℕ

  -- [Σw·freq, Σw_hi·acc_rate, Σw_hi·p̂, Σw_hi, support]
  pub record Slot : Type 0 where
    pub wf : F
    pub wa : F
    pub wph : F
    pub wt : F
    pub sup : ℕ

  abbrev pub zero_f : F
  zero_f = ratio 0 1

  abbrev pub one : F
  one = ratio 1 1

  abbrev pub half : F
  half = ratio 5 10

  abbrev pub of_ℕ : ℕ → F
  of_ℕ n = ratio n 1

  abbrev new_slot : Slot
  new_slot = record { wf = zero_f; wa = zero_f; wph = zero_f; wt = zero_f; sup = 0 }

  abbrev or_new : Option Slot → Slot
  or_new none = new_slot
  or_new (some s) = s

  -- `x or 1.0`
  abbrev pub or_one : F → F
  or_one x = if eq x zero_f then one else x

  -- `/`, in a chain that may raise.
  abbrev pub divide : F → F → Result F
  divide x y = or_raise (div x y) zero_division

  -- `q8_to_p`: the table and the direct computation have one value.
  abbrev q8_to_p : ℕ → F
  q8_to_p q = exp (neg_ratio q 16)

  -- `tbl_o[n]` and `tbl_s[d]` of `_decay_pows`, which have 9 and 8 places.
  unfoldable pub order_pow : BackoffParams → ℕ → Result F
  order_pow p n =
      if ltb n (suc max_order)
      then ok (pow p.order_decay (max_order - n))
      else Result.err index_error

  unfoldable pub scope_pow : BackoffParams → ℕ → Result F
  scope_pow p d = if ltb d 8 then ok (pow p.scope_decay d) else Result.err index_error

  -- `lam(params, match_len, scope_depth, count)`, and the weight of a source in `blend`.
  unfoldable pub lam : BackoffParams → ℕ → ℕ → ℕ → Result F
  unfolding order_pow scope_pow
  lam p match_len scope_depth count = do
    o ← order_pow p match_len
    s ← scope_pow p scope_depth
    c ← divide (of_ℕ count) (plus (of_ℕ count) p.count_prior)
    ok (times (times o s) c)

  unfoldable pub weights : BackoffParams → List Source → Result (List F)
  weights p [] = ok []
  weights p (s ∷ ss) = do
    w ← lam p s.match_len s.scope_depth (total_count s)
    ws ← weights p ss
    ok (w ∷ ws)

  -- The inner loop of `blend`: a source's candidates with their raw probabilities, into the slots.
  unfoldable pub add_cands :
      BackoffParams → F → F → F → F → List SourceCand → Dict Slot → Result (Dict Slot)
  add_cands p w w_hi z freq_den [] acc_w = ok acc_w
  add_cands p w w_hi z freq_den ((tok, a, r, q) ∷ cs) acc_w = do
    let slot = or_new (lookup tok acc_w)
    freq ← divide (plus (of_ℕ a) p.beta_a) freq_den
    rate ← divide (plus (of_ℕ a) p.beta_a) (plus (plus (of_ℕ (a + r)) p.beta_a) p.beta_b)
    share ← divide (q8_to_p q) z
    add_cands p w w_hi z freq_den cs (
        insert tok
          (record {
            wf = plus slot.wf (times w freq);
            wa = plus slot.wa (times w_hi rate);
            wph = plus slot.wph (times w_hi share);
            wt = plus slot.wt w_hi;
            sup = max slot.sup (a + r);
          })
          acc_w)

  -- The outer loop over the sources with their weights, on the slots and `w_hi_sum`.
  unfoldable pub add_sources :
      BackoffParams → List Source → List F → Dict Slot → F → Result (Dict Slot × F)
  add_sources p [] ws acc_w w_hi_sum = ok (acc_w, w_hi_sum)
  add_sources p (s ∷ ss) [] acc_w w_hi_sum = ok (acc_w, w_hi_sum)
  add_sources p (s ∷ ss) (w ∷ ws) acc_w w_hi_sum =
      let w_hi = if leb p.p_hat_min_order s.match_len then w else zero_f in
      let z = or_one (sum (map (λ (c : SourceCand). q8_to_p c.3) s.cands)) in
      let k_s = max 1 (length s.cands) in
      let freq_den = plus (of_ℕ (total_acc_count s)) (times (of_ℕ k_s) p.beta_a) in
      let skipped = add_sources p ss ws acc_w w_hi_sum in
      let used : Result (Dict Slot × F) = (do
        acc_w' ← add_cands p w w_hi z freq_den s.cands acc_w
        add_sources p ss ws acc_w' (plus w_hi_sum w_hi)) in
      if le w zero_f then skipped else used
