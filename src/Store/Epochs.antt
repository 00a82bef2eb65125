-- ===== src/Store/Epochs.antt =====
-- `bump_epoch` of core/store.py makes the entries of a file stale, up to the width of the counter.
use speculation_ledger.Prelude.{
  ℕ, zero, suc, ◌+◌, ◌%◌, ◌^◌, ◌<◌, ◌≡◌, ◌≢◌, refl, inl, inr, false, not, ◌&&◌, [], ◌∷◌, arith,
  ◌==◌, if◌then◌else◌, Bool-cases,
}
use speculation_ledger.Floats.{Floats}
use speculation_ledger.Hot.{HotEntry}
use speculation_ledger.Store.State.{
  LedgerStore, Epochs, epoch_of, set_epoch, epoch_now, bump_epoch, is_stale,
}

epoch_of-set_epoch :
    (s d s' d' v : ℕ) (t : Epochs)
    → epoch_of s d (set_epoch s' d' v t) ≡ (if s == s' && d == d' then v else epoch_of s d t)
unfolding epoch_of set_epoch
epoch_of-set_epoch s d s' d' v [] = refl
epoch_of-set_epoch s d s' d' v ((a, b, w) ∷ t) = ground (arith, epoch_of-set_epoch s d s' d' v t)

module _ (fl : Floats) where
  -- The store after `n` calls of `bump_epoch` for one file in one scope.
  unfoldable pub bump_times : ℕ → LedgerStore fl → ℕ → ℕ → LedgerStore fl
  bump_times zero st scope file_id = st
  bump_times (suc n) st scope file_id = bump_epoch fl (bump_times n st scope file_id) scope file_id

  epoch_now-bump_times :
      (n : ℕ) (st : LedgerStore fl) (scope file_id : ℕ)
      → file_id ≢ 0
      → epoch_now fl st scope file_id < 2 ^ 16
      → epoch_now fl (bump_times n st scope file_id) scope file_id
        ≡ (epoch_now fl st scope file_id + n) % 2 ^ 16
  unfolding bump_times bump_epoch epoch_now
  epoch_now-bump_times zero st scope file_id h small = ground arith
  epoch_now-bump_times (suc n) st scope file_id h small =
      let before = epoch_now-bump_times n st scope file_id h small in
      ground (
        arith,
        before,
        epoch_of-set_epoch scope file_id scope file_id
            ((epoch_of scope file_id (bump_times n st scope file_id).epochs + 1) % 2 ^ 16)
            (bump_times n st scope file_id).epochs,
      )

  epoch_now-bump_other :
      (n : ℕ) (st : LedgerStore fl) (scope file_id s d : ℕ)
      → ((s == scope && d == file_id) ≡ false)
      → epoch_now fl (bump_times n st scope file_id) s d ≡ epoch_now fl st s d
  unfolding bump_times bump_epoch epoch_now
  epoch_now-bump_other zero st scope file_id s d h = refl
  epoch_now-bump_other (suc n) st scope file_id s d h =
      let before = epoch_now-bump_other n st scope file_id s d h in
      ground (
        arith,
        before,
        epoch_of-set_epoch s d scope file_id
            ((epoch_of scope file_id (bump_times n st scope file_id).epochs + 1) % 2 ^ 16)
            (bump_times n st scope file_id).epochs,
      )

  -- For an entry of a file (not 0) that is not stale, in a store where the epoch of that file in the
  -- entry's scope is below 2^16: after n bumps of it the entry is stale exactly if 2^16 does not
  -- divide n, and bumps of another pair of scope and file leave it as it was. So one to 65535 edits
  -- make the entry stale, and the 65536th makes it pass for a fresh one.
  pub is_stale-bump_times :
      (n : ℕ) (st : LedgerStore fl) (e : HotEntry fl) (scope file_id : ℕ)
      → e.dom ≢ 0
      → file_id ≢ 0
      → epoch_now fl st e.scope_id e.dom < 2 ^ 16
      → is_stale fl st e ≡ false
      → is_stale fl (bump_times n st scope file_id) e
        ≡ (if e.scope_id == scope && e.dom == file_id then not (n % 2 ^ 16 == 0) else false)
  unfolding is_stale
  is_stale-bump_times n st e scope file_id hd hf small live =
      elim (Bool-cases (e.scope_id == scope && e.dom == file_id)) [
        | inl hit ↦
            let same_scope : e.scope_id ≡ scope = ground arith in
            let same_file : e.dom ≡ file_id = ground arith in
            let now = epoch_now-bump_times n st e.scope_id e.dom hd small in
            rw hit (rw (← same_scope, ← same_file) (ground (arith, now)))
        | inr miss ↦ ground (arith, epoch_now-bump_other n st scope file_id e.scope_id e.dom miss)
      ]
