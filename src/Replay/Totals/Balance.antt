-- ===== src/Replay/Totals/Balance.antt =====
-- The counts of a replay balance: those of the segments add up to those of the whole.
use speculation_ledger.Prelude.{
  ℕ, suc, ◌+◌, ◌≤◌, ◌≡◌, refl, ap, inl, inr, Bool-cases, List, [], ◌∷◌, arith, ltb, length, All,
  All-weaken,
}
use speculation_ledger.Prelude.Dict.{Dict, lookup, insert}
use speculation_ledger.Floats.{Floats, Casts}
use speculation_ledger.Hash.{Blake2b}
use speculation_ledger.Result.{ok, >>=-eq-ok}
use speculation_ledger.Convert.{TraceRequest}
use speculation_ledger.Convert.Read.Reading.{tokens_in}
use speculation_ledger.Proposers.{BaseProposer}
use speculation_ledger.Replay.Requests.{file_ids, RequestMetrics, or_zero, add_at, count_step}
use speculation_ledger.Replay.Rounds.{Round, advance, rounds, replay_request, run_replay}
use speculation_ledger.Replay.Rounds.Facts.{Stepped, rounds-induct}
use speculation_ledger.Replay.Rounds.Outcomes.{AlignedRequest}
use speculation_ledger.Replay.Rounds.Ends.{IsLawful, replay_request-Returns}
use speculation_ledger.Replay.Totals.{
  name_rank, add_counts, add_all, sum_of, insert_named, sort_named, totals,
}

-- The sum of the values of a dict.
abbrev pub values : Dict ℕ → ℕ
values [] = 0
values (row ∷ d) = row.1 + values d

values-insert :
    (key n : ℕ) (d : Dict ℕ) → values (insert key (or_zero (lookup key d) + n) d) ≡ values d + n
values-insert key n [] = omega arith
values-insert key n (row ∷ d) = ground (arith, values-insert key n d)

values-add_at : (key n : ℕ) (d : Dict ℕ) → values (add_at key n d) ≡ values d + n
unfolding add_at
values-add_at key n d = values-insert key n d

values-add_counts :
    (counts acc : Dict ℕ) → values (add_counts counts acc) ≡ values acc + values counts
unfolding add_counts
values-add_counts [] acc = omega arith
values-add_counts (row ∷ counts) acc =
    omega (arith, values-add_counts counts (add_at row.0 row.1 acc), values-add_at row.0 row.1 acc)

values-add_all :
    (f : RequestMetrics → Dict ℕ) (g : RequestMetrics → ℕ) (rms : List RequestMetrics)
    (acc : Dict ℕ)
    → All (λ rm. values (f rm) ≡ g rm) rms
    → values (add_all f rms acc) ≡ values acc + sum_of g rms
unfolding add_all
values-add_all f g [] acc a = omega arith
values-add_all f g (rm ∷ rms) acc a =
    omega
      (arith, a.0, values-add_all f g rms (add_counts (f rm) acc) a.1, values-add_counts (f rm) acc)

values-insert_named : (r : ℕ × ℕ) (d : Dict ℕ) → values (insert_named r d) ≡ r.1 + values d
unfolding insert_named
values-insert_named r [] = refl
values-insert_named r (c ∷ cs) = elim (Bool-cases (ltb (name_rank c.0) (name_rank r.0))) [
  | inl first ↦ rw first (omega (arith, values-insert_named r cs))
  | inr later ↦ rw later refl
]

values-sort_named : (d : Dict ℕ) → values (sort_named d) ≡ values d
unfolding sort_named
values-sort_named [] = refl
values-sort_named (r ∷ rs) =
    omega (arith, values-insert_named r (sort_named rs), values-sort_named rs)

-- The counts of the segments add up to those of the request.
pub record IsBalanced (rm : RequestMetrics) : Type 0 where
  pub steps : values rm.seg_steps ≡ rm.steps
  pub tokens : values rm.seg_tokens ≡ rm.tokens

count_step-IsBalanced :
    (seg n drafted : ℕ) (rm : RequestMetrics)
    → IsBalanced rm
    → IsBalanced (count_step seg n drafted rm)
unfolding count_step
count_step-IsBalanced seg n drafted rm b = record {
  steps = omega (arith, values-add_at seg 1 rm.seg_steps, b.steps);
  tokens = omega (arith, values-add_at seg n rm.seg_tokens, b.tokens);
}

module _ (h : Blake2b) {S : Type 0} (P : BaseProposer S) where
  Stepped-IsBalanced :
      (req : TraceRequest) (fids : List ℕ) (budget : ℕ) (s s' : Round S)
      → Stepped h P req fids budget s s'
      → IsBalanced s.metrics
      → IsBalanced s'.metrics
  unfolding advance
  Stepped-IsBalanced req fids budget s s' t b =
      rw (← t.advanced) (count_step-IsBalanced t.seg (t.acc + 1) (length t.tree) s.metrics b)

  replay_request-IsBalanced :
      (budget : ℕ) (req : TraceRequest) (st : S) {rm : RequestMetrics} {st' : S}
      → replay_request h P budget req st ≡ ok (rm, st')
      → IsBalanced rm
  unfolding replay_request
  replay_request-IsBalanced budget req st {rm} e =
      let (st₁, e1, r1) = >>=-eq-ok (P.begin_request req.scope st) _ e in
      let (s, e2, r2) =
        >>=-eq-ok (rounds h P req (file_ids h req) budget (length req.tokens) _) _ r1 in
      let (st₂, e3, r3) = >>=-eq-ok (P.end_request s.proposer) _ r2 in
      let done =
        rounds-induct h P req (file_ids h req) budget (λ x. IsBalanced x.metrics)
          (λ s s' inside t b. Stepped-IsBalanced req (file_ids h req) budget s s' t b)
          (length req.tokens) _ s e2 (record { steps = refl; tokens = refl }) in
      let same : s.metrics ≡ rm = ground (arith, r3) in rw (← same) done

  -- What run_replay returns for aligned requests, with a lawful proposer.
  run_replay-IsBalanced :
      (Inv : S → Type 0)
      → IsLawful P Inv
      → (budget : ℕ) (reqs : List TraceRequest) (st : S) → All AlignedRequest reqs
      → Inv st
      → (rms : List RequestMetrics) × (st' : S) × (run_replay h P budget reqs st ≡ ok (rms, st'))
        × All IsBalanced rms
        × (length rms ≡ length reqs)
        × (sum_of (λ r. r.tokens) rms ≡ tokens_in reqs)
        × (sum_of (λ r. r.steps) rms ≤ sum_of (λ r. r.tokens) rms)
  unfolding run_replay
  run_replay-IsBalanced Inv lawful budget [] st a v = ([], st, refl, tt, refl, refl, omega arith)
  run_replay-IsBalanced Inv lawful budget (req ∷ reqs) st a v =
      let (rm, st₁, e, v₁, counted, few, _) =
        replay_request-Returns h P Inv lawful budget req st a.0 v in
      let (rms, st₂, e', balanced, many, sum, fewer) =
        run_replay-IsBalanced Inv lawful budget reqs st₁ a.1 v₁ in
      (
        rm ∷ rms,
        st₂,
        rw (e, e') refl,
        (replay_request-IsBalanced budget req st e, balanced),
        ap suc many,
        omega (arith, counted, sum),
        omega (arith, few, fewer),
      )

  -- Against a lawful proposer the replay of aligned requests returns the counts of each of them, and the
  -- totals balance: they have all the tokens of the requests, at most as many steps, and the steps of the
  -- segments add up to those of the whole, as their tokens do for every request.
  pub run_replay-totals :
      (fl : Floats) (casts : Casts fl) (Inv : S → Type 0)
      → IsLawful P Inv
      → (budget : ℕ) (reqs : List TraceRequest) (st : S) → All AlignedRequest reqs
      → Inv st
      → (rms : List RequestMetrics) × (st' : S) × (run_replay h P budget reqs st ≡ ok (rms, st'))
        × (length rms ≡ length reqs)
        × ((totals fl casts rms).tokens ≡ tokens_in reqs)
        × ((totals fl casts rms).steps ≤ (totals fl casts rms).tokens)
        × (values (totals fl casts rms).per_seg_steps ≡ (totals fl casts rms).steps)
        × All (λ rm. values rm.seg_tokens ≡ rm.tokens) rms
  unfolding totals
  run_replay-totals fl casts Inv lawful budget reqs st a v =
      let (rms, st', e, balanced, many, sum, few) =
        run_replay-IsBalanced Inv lawful budget reqs st a v in
      let steps =
        All-weaken IsBalanced (λ rm. values rm.seg_steps ≡ rm.steps) rms (λ rm b. b.steps)
          balanced in
      let added = values-add_all (λ r. r.seg_steps) (λ r. r.steps) rms [] steps in
      (
        rms,
        st',
        e,
        many,
        sum,
        few,
        omega (arith, values-sort_named (add_all (λ r. r.seg_steps) rms []), added),
        All-weaken IsBalanced (λ rm. values rm.seg_tokens ≡ rm.tokens) rms (λ rm b. b.tokens)
            balanced,
      )
