-- ===== src/Hot/Ok.antt =====
-- What the store relies on of an entry, and that every method keeps it.
use speculation_ledger.Prelude.{ℕ, ◌≤◌, ◌≡◌, refl, ◌∙◌, inl, List, [], ◌∷◌, arith, All}
use speculation_ledger.Floats.{Floats}
use speculation_ledger.Hot.{
  HotEntry, make_room, ensure, update_realized, update_rejected, merge_one, merge_all, merge_topk,
  reset, new_entry,
}
use speculation_ledger.Hot.Capacity.{IsWithin, updates-IsWithin, merge_topk-IsWithin}
use speculation_ledger.Hot.Cache.{IsCoherent, updates-IsCoherent}

module _ (fl : Floats) where
  -- The entry stands under its own key, within its own cap and the widths, with a coherent cache, and
  -- its own cap is at most `top`.
  pub record IsOk (top key : ℕ) (e : HotEntry fl) : Type 0 where
    pub keyed : e.key ≡ key
    pub within : IsWithin fl e
    pub coherent : IsCoherent fl e
    pub capped : e.k_cap ≤ top

  pub new_entry-IsOk :
      (top key seg dom scope_id epoch k_init : ℕ)
      → 1 ≤ k_init
      → k_init ≤ top
      → IsOk top key (new_entry fl key seg dom scope_id epoch k_init)
  unfolding new_entry
  new_entry-IsOk top key seg dom scope_id epoch k_init h hc = record {
    keyed = refl;
    within = record { room = h; fits = omega arith; widths = tt };
    coherent = inl refl;
    capped = hc;
  }

  pub reset-IsOk :
      (top key : ℕ) (e : HotEntry fl) (epoch dom : ℕ)
      → IsOk top key e
      → IsOk top key (reset fl e epoch dom)
  unfolding reset
  reset-IsOk top key e epoch dom h = record {
    keyed = h.keyed;
    within = record { room = h.within.room; fits = omega arith; widths = tt };
    coherent = inl refl;
    capped = h.capped;
  }

module _ (fl : Floats) (k_max : ℕ) (cov_target : fl.F) where
  key-ensure : (e : HotEntry fl) (tok : ℕ) → (ensure fl e tok k_max cov_target).key ≡ e.key
  unfolding ensure make_room
  key-ensure e tok = ground arith

  key-merge_one : (e : HotEntry fl) (t q : ℕ) → (merge_one fl e t q k_max cov_target).key ≡ e.key
  unfolding merge_one
  key-merge_one e t q = ground arith

  key-merge_all :
      (e : HotEntry fl) (ids q8s : List ℕ) → (merge_all fl e ids q8s k_max cov_target).key ≡ e.key
  unfolding merge_all
  key-merge_all e [] q8s = refl
  key-merge_all e (t ∷ ids) [] = refl
  key-merge_all e (t ∷ ids) (q ∷ q8s) =
      key-merge_all (merge_one fl e t q k_max cov_target) ids q8s ∙ key-merge_one e t q

  key-merge_topk :
      (e : HotEntry fl) (ids q8s : List ℕ) → (merge_topk fl e ids q8s k_max cov_target).key ≡ e.key
  unfolding merge_topk
  key-merge_topk e [] q8s = refl
  key-merge_topk e (t ∷ ids) q8s = key-merge_all _ (t ∷ ids) q8s

  capped-ensure :
      (top : ℕ) (e : HotEntry fl) (tok : ℕ)
      → k_max ≤ top
      → e.k_cap ≤ top
      → (ensure fl e tok k_max cov_target).k_cap ≤ top
  unfolding ensure make_room
  capped-ensure top e tok hk h = ground arith

  capped-merge_one :
      (top : ℕ) (e : HotEntry fl) (t q : ℕ)
      → k_max ≤ top
      → e.k_cap ≤ top
      → (merge_one fl e t q k_max cov_target).k_cap ≤ top
  unfolding merge_one
  capped-merge_one top e t q hk h = ground arith

  capped-merge_all :
      (top : ℕ) (e : HotEntry fl) (ids q8s : List ℕ)
      → k_max ≤ top
      → e.k_cap ≤ top
      → (merge_all fl e ids q8s k_max cov_target).k_cap ≤ top
  unfolding merge_all
  capped-merge_all top e [] q8s hk h = h
  capped-merge_all top e (t ∷ ids) [] hk h = h
  capped-merge_all top e (t ∷ ids) (q ∷ q8s) hk h =
      capped-merge_all top (merge_one fl e t q k_max cov_target) ids q8s hk
        (capped-merge_one top e t q hk h)

  capped-merge_topk :
      (top : ℕ) (e : HotEntry fl) (ids q8s : List ℕ)
      → k_max ≤ top
      → e.k_cap ≤ top
      → (merge_topk fl e ids q8s k_max cov_target).k_cap ≤ top
  unfolding merge_topk
  capped-merge_topk top e [] q8s hk h = h
  capped-merge_topk top e (t ∷ ids) q8s hk h = capped-merge_all top _ (t ∷ ids) q8s hk h

  pub update_realized-IsOk :
      (top key : ℕ) (e : HotEntry fl) (tok : ℕ)
      → k_max ≤ top
      → IsOk fl top key e
      → IsOk fl top key (update_realized fl e tok k_max cov_target)
  unfolding update_realized
  update_realized-IsOk top key e tok hk h = record {
    keyed = key-ensure e tok ∙ h.keyed;
    within = (updates-IsWithin fl k_max cov_target e tok h.within).0;
    coherent = inl refl;
    capped = capped-ensure top e tok hk h.capped;
  }

  pub update_rejected-IsOk :
      (top key : ℕ) (e : HotEntry fl) (tok : ℕ)
      → k_max ≤ top
      → IsOk fl top key e
      → IsOk fl top key (update_rejected fl e tok k_max cov_target)
  unfolding update_rejected
  update_rejected-IsOk top key e tok hk h = record {
    keyed = key-ensure e tok ∙ h.keyed;
    within = (updates-IsWithin fl k_max cov_target e tok h.within).1;
    coherent = inl refl;
    capped = capped-ensure top e tok hk h.capped;
  }

  pub merge_topk-IsOk :
      (top key : ℕ) (e : HotEntry fl) (ids q8s : List ℕ)
      → All (λ q. q ≤ 255) q8s
      → k_max ≤ top
      → IsOk fl top key e
      → IsOk fl top key (merge_topk fl e ids q8s k_max cov_target)
  merge_topk-IsOk top key e ids q8s hq hk h = record {
    keyed = key-merge_topk e ids q8s ∙ h.keyed;
    within = merge_topk-IsWithin fl k_max cov_target e ids q8s hq h.within;
    coherent = (updates-IsCoherent fl e 0 k_max 0 0 ids q8s cov_target h.coherent).2;
    capped = capped-merge_topk top e ids q8s hk h.capped;
  }
