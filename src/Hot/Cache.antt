-- ===== src/Hot/Cache.antt =====
-- The cache `_src` of a hot entry is never stale.
use speculation_ledger.Prelude.{
  ℕ, ◌+◌, ◌≡◌, refl, ◌⊎◌, inl, inr, none, some, List, [], ◌∷◌, arith, Option-cases,
}
use speculation_ledger.Prelude.Dict.{Dict}
use speculation_ledger.Floats.{Floats}
use speculation_ledger.Hot.{
  Cand, HotEntry, view_cands, view_totals, compute_view, total_count, reset, update_realized,
  update_rejected, merge_topk, sources_view,
}

-- The sum of the accepted counts.
abbrev pub total_accepted : Dict Cand → ℕ
total_accepted [] = 0
total_accepted (e ∷ d) = e.1.acc + total_accepted d

view_totals-view_cands :
    (m n : ℕ) (d : Dict Cand)
    → view_totals m n (view_cands d) ≡ (m + total_count d, n + total_accepted d)
unfolding view_totals view_cands total_count
view_totals-view_cands m n [] = ground arith
view_totals-view_cands m n ((t, c) ∷ d) =
    ground (arith, view_totals-view_cands (m + (c.acc + c.rej)) (n + c.acc) d)

compute_view_lem :
    (d : Dict Cand)
    → compute_view d
      ≡ record { cands = view_cands d; total = total_count d; total_acc = total_accepted d }
unfolding compute_view
compute_view_lem d = ground (arith, view_totals-view_cands 0 0 d)

module _ (fl : Floats) where
  -- A filled cache holds the view of the candidates that the entry has now.
  abbrev pub IsCoherent : HotEntry fl → Type 0
  IsCoherent e = (e.src ≡ none) ⊎ (e.src ≡ some (compute_view e.cands))

  pub sources_view_lem :
      (e : HotEntry fl)
      → IsCoherent e
      → let (v, e') = sources_view fl e in
        (v ≡ record {
          cands = view_cands e.cands;
          total = total_count e.cands;
          total_acc = total_accepted e.cands;
        })
        × (record e' { src = none } ≡ record e { src = none })
        × IsCoherent e'
  unfolding sources_view
  sources_view_lem e h = elim (Option-cases e.src) [
    | inl p ↦ rw (p, sources_view) (compute_view_lem e.cands, refl, inr refl)
    | inr (v, p) ↦ rw (p, sources_view) (ground (arith, h, p, compute_view_lem e.cands), refl, h)
  ]

  -- Every method that changes the candidates of an entry leaves its cache coherent.
  pub updates-IsCoherent :
      (e : HotEntry fl) (tok k_max epoch dom : ℕ) (ids q8s : List ℕ) (cov_target : fl.F)
      → IsCoherent e
      → IsCoherent (update_realized fl e tok k_max cov_target)
        × IsCoherent (update_rejected fl e tok k_max cov_target)
        × IsCoherent (merge_topk fl e ids q8s k_max cov_target)
        × IsCoherent (reset fl e epoch dom)
  unfolding update_realized update_rejected merge_topk reset
  updates-IsCoherent e tok k_max epoch dom [] q8s cov_target h = (inl refl, inl refl, h, inl refl)
  updates-IsCoherent e tok k_max epoch dom (t ∷ ids) q8s cov_target h =
      (inl refl, inl refl, inl refl, inl refl)
