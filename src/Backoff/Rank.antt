-- ===== src/Backoff/Rank.antt =====
-- The ranking at the end of `blend` of core/backoff.py, and the choices from a posterior.
use speculation_ledger.Prelude.{
  ℕ, Bool, Option, none, some, List, [], ◌∷◌, ltb, ◌==◌, if◌then◌else◌, length, take, map,
}
use speculation_ledger.Prelude.Dict.{Dict}
use speculation_ledger.Floats.{Floats}
use speculation_ledger.Result.{Result, ok, ◌>>=◌}
use speculation_ledger.Backoff.{
  Source, BackoffParams, PosteriorCand, Posterior, Slot, zero_f, one, half, of_ℕ, or_one, divide,
  best_order, weights, add_sources,
}

module _ (fl : Floats) where
  open fl use {F, ratio, neg_ratio, plus, minus, times, div, pow, exp, sum, round_1, lt, le, eq}

  -- A candidate with its ranking score.
  abbrev pub Scored : Type 0
  Scored = (PosteriorCand fl) × F

  unfoldable pub score_slot : F → F → F → F → ℕ → ℕ × (Slot fl) → Result Scored
  score_slot uni gate w_sum w_hi_sum n_cand (tok, s) = do
    wa ← if lt (zero_f fl) s.wt then divide fl s.wa s.wt else ok (half fl)
    wph ← if lt (zero_f fl) w_hi_sum then divide fl s.wph w_hi_sum else ok uni
    let acc = if lt (zero_f fl) s.wt then times gate (minus wa (half fl)) else (zero_f fl)
    let hat = if lt (zero_f fl) w_hi_sum then times gate (minus wph uni) else (zero_f fl)
    let p_hat = plus uni hat
    freq ← divide fl s.wf w_sum
    ok (
      record { tok = tok; p_acc = plus (half fl) acc; p_hat = p_hat; support = s.sup },
      times freq (times (of_ℕ fl n_cand) p_hat),
    )

  unfoldable pub score_slots : F → F → F → F → ℕ → Dict (Slot fl) → Result (List Scored)
  score_slots uni gate w_sum w_hi_sum n_cand [] = ok []
  score_slots uni gate w_sum w_hi_sum n_cand (e ∷ d) = do
    c ← score_slot uni gate w_sum w_hi_sum n_cand e
    cs ← score_slots uni gate w_sum w_hi_sum n_cand d
    ok (c ∷ cs)

  -- The builtin `max` of a non-empty list.
  unfoldable pub max_score : F → List Scored → F
  max_score best [] = best
  max_score best (c ∷ cs) = max_score (if lt best c.1 then c.1 else best) cs

  abbrev pub best_score : List Scored → F
  best_score [] = (zero_f fl)
  best_score (c ∷ cs) = max_score c.1 cs

  -- A candidate with `round(score / s_max, 1)`.
  unfoldable pub sort_keys : F → List Scored → Result (List Scored)
  sort_keys s_max [] = ok []
  sort_keys s_max ((c, score) ∷ cs) = do
    share ← divide fl score s_max
    rest ← sort_keys s_max cs
    ok ((c, round_1 share) ∷ rest)

  -- `key(x) < key(y)` for key = (-rounded share, -support, tok), compared as tuples are.
  unfoldable pub key_lt : Scored → Scored → Bool
  key_lt (c, r) (c', r') =
      let ties = if c.support == c'.support then ltb c.tok c'.tok else ltb c'.support c.support in
      if eq r r' then ties else lt r' r

  -- `list.sort` is stable: an element goes behind those that it is not below.
  unfoldable pub insert_sorted : Scored → List Scored → List Scored
  insert_sorted x [] = x ∷ []
  insert_sorted x (y ∷ ys) = if key_lt x y then x ∷ y ∷ ys else y ∷ insert_sorted x ys

  unfoldable pub sort_from : List Scored → List Scored → List Scored
  unfolding insert_sorted
  sort_from sorted [] = sorted
  sort_from sorted (c ∷ cs) = sort_from (insert_sorted c sorted) cs

  -- `c.p_hat / max(z, 1.0)` for each candidate.
  unfoldable pub renormalize : F → List (PosteriorCand fl) → Result (List (PosteriorCand fl))
  renormalize z [] = ok []
  renormalize z (c ∷ cs) = do
    p_hat ← divide fl c.p_hat (if lt z (one fl) then (one fl) else z)
    rest ← renormalize z cs
    ok (record c { p_hat = p_hat } ∷ rest)

  -- The part of `blend` behind the loops, for a table that is not empty.
  unfoldable pub rank_slots :
      (BackoffParams fl) → List Source → F → F → Dict (Slot fl) → Result (Option (Posterior fl))
  rank_slots p sources w_sum w_hi_sum acc_w = do
    let n_cand = length acc_w
    uni ← divide fl (one fl) (of_ℕ fl n_cand)
    gate ← divide fl w_hi_sum (plus w_hi_sum p.anno_prior_w)
    scored ← score_slots uni gate w_sum w_hi_sum n_cand acc_w
    keyed ← sort_keys (or_one fl (best_score scored)) scored
    let cands = take p.max_cands (map (λ (c : Scored). c.0) (sort_from [] keyed))
    let z = sum (map (λ (c : (PosteriorCand fl)). c.p_hat) cands)
    cands' ← if lt (zero_f fl) z then renormalize z cands else ok cands
    ok (some (record { cands = cands'; weight = w_sum; best_order = best_order sources }))

  unfoldable pub blend_weighted :
      (BackoffParams fl) → List Source → List F → F → Result (Option (Posterior fl))
  blend_weighted p sources ws w_sum = do
    (acc_w, w_hi_sum) ← add_sources fl p sources ws [] (zero_f fl)
    elim acc_w [ [] ↦ ok none | e ∷ d ↦ rank_slots p sources w_sum w_hi_sum (e ∷ d) ]

  unfoldable pub blend : (BackoffParams fl) → List Source → Result (Option (Posterior fl))
  blend p [] = ok none
  blend p (s ∷ ss) = do
    let sources = s ∷ ss
    ws ← weights fl p sources
    let w_sum = sum ws
    if le w_sum (zero_f fl) then ok none else blend_weighted p sources ws w_sum

  -- `argmax()`
  unfoldable pub argmax : (Posterior fl) → Option (PosteriorCand fl)
  argmax post = elim post.cands [ [] ↦ none | c ∷ cs ↦ some c ]

  -- `max` by the key (p_hat, -tok), compared as tuples are; a later candidate wins only if greater.
  unfoldable pub best_hat : (PosteriorCand fl) → List (PosteriorCand fl) → (PosteriorCand fl)
  best_hat best [] = best
  best_hat best (c ∷ cs) =
      let above = if eq best.p_hat c.p_hat then ltb c.tok best.tok else lt best.p_hat c.p_hat in
      best_hat (if above then c else best) cs

  -- `correction()`
  unfoldable pub correction : (Posterior fl) → Option (PosteriorCand fl)
  unfolding best_hat
  correction post = elim post.cands [ [] ↦ none | c ∷ cs ↦ some (best_hat c cs) ]
