-- ===== src/Tests/Blend.antt =====
-- The blend of two sources that have a token in common.
use speculation_ledger.Prelude.{◌≡◌, refl, none, some, List, [], ◌∷◌, map}
use speculation_ledger.Result.{ok}
use speculation_ledger.Backoff.{
  Source, PosteriorCand, Posterior, total_count, total_acc_count, best_order, order_pow, scope_pow,
  lam, weights, add_cands, add_sources,
}
use speculation_ledger.Backoff.Rank.{
  score_slot, score_slots, max_score, sort_keys, key_lt, insert_sorted, sort_from, renormalize,
  rank_slots, blend_weighted, blend,
}
use speculation_ledger.Backoff.Support.{cands_of, IsSupported, blend-IsSupported}
use speculation_ledger.Tests.Toys.{toy_floats, toy_backoff}

abbrev toy_sources : List Source
toy_sources =
    record {
      match_len = 8;
      scope_depth = 0;
      cands = (7, 3, 1, 4) ∷ (9, 1, 0, 9) ∷ [];
      total = none;
      total_acc = none;
    }
    ∷ record {
      match_len = 7;
      scope_depth = 0;
      cands = (7, 2, 0, 5) ∷ [];
      total = none;
      total_acc = none;
    }
    ∷ []

blended :
    (post : Posterior toy_floats) × (blend toy_floats toy_backoff toy_sources ≡ ok (some post))
    × (map (λ (c : PosteriorCand toy_floats). c.tok) post.cands ≡ 7 ∷ 9 ∷ [])
    × (map (λ (c : PosteriorCand toy_floats). c.support) post.cands ≡ 4 ∷ 1 ∷ [])
unfolding blend blend_weighted rank_slots renormalize sort_from insert_sorted key_lt sort_keys
    max_score score_slots score_slot add_sources add_cands weights lam scope_pow order_pow
    best_order total_count total_acc_count
blended = (_, refl, refl, refl)

blend-IsSupported_example : IsSupported toy_floats (cands_of toy_sources) toy_backoff blended.0
blend-IsSupported_example = blend-IsSupported toy_floats toy_backoff toy_sources blended.1
