-- ===== src/Store/Snapshot/Resume.antt =====
-- A store that is loaded from a snapshot has the tables of the store that was saved.
use mathlib.Core.List.{append_assoc, append-nil}
use speculation_ledger.Prelude.{
  ℕ, ◌≡◌, refl, ap, sym, ◌∙◌, inl, inr, none, some, [], ◌∷◌, ◌++◌, arith, map, ◌==◌, Bool-cases,
}
use speculation_ledger.Prelude.Dict.{Dict, lookup, insert, IsDict}
use speculation_ledger.Floats.{Floats}
use speculation_ledger.Arena.{load_arena}
use speculation_ledger.Hot.{HotEntry, new_entry}
use speculation_ledger.Store.State.{LedgerStore, refresh_sizes}
use speculation_ledger.Store.Snapshot.{Sorting, hot_row, snapshot, load_hot, load}

insert-absent :
    {V : Type 0} (key : ℕ) (new : V) (t : Dict V)
    → lookup key t ≡ none
    → insert key new t ≡ t ++ (key, new) ∷ []
insert-absent key new [] h = refl
insert-absent key new (row ∷ t) h = elim (Bool-cases (key == row.0)) [
  | inl hit ↦ absurd (ground (arith, hit))
  | inr miss ↦ rw miss (ap (◌∷◌ row) (insert-absent key new t (rw miss at h)))
]

lookup-append :
    {V : Type 0} (key : ℕ) (t u : Dict V) → lookup key t ≡ none → lookup key (t ++ u) ≡ lookup key u
lookup-append key [] u h = refl
lookup-append key (row ∷ t) u h = ground (arith, lookup-append key t u)

-- No key of the rows is in the table.
abbrev Apart : {V W : Type 0} → Dict V → Dict W → Type 0
Apart [] t = Unit
Apart (row ∷ d) t = (lookup row.0 t ≡ none) × Apart d t

Apart-snoc :
    {V W : Type 0} (d : Dict V) (t : Dict W) (key : ℕ) (new : W)
    → lookup key d ≡ none
    → Apart d t
    → Apart d (t ++ (key, new) ∷ [])
Apart-snoc [] t key new h a = tt
Apart-snoc (row ∷ d) t key new h a = (
  ground (arith, lookup-append row.0 t ((key, new) ∷ []) a.0),
  Apart-snoc d t key new (ground arith) a.1,
)

module _ (fl : Floats) (order : Sorting) (k_init : ℕ) where
  -- What a loaded entry is: the one that was saved, its candidates in the order of the file, and
  -- its cache empty.
  abbrev pub reloaded : HotEntry fl → HotEntry fl
  reloaded e = record e { cands = order.of_cands e.cands; src = none }

  abbrev pub reloaded_all : Dict (HotEntry fl) → Dict (HotEntry fl)
  reloaded_all [] = []
  reloaded_all (e ∷ d) = (e.0, reloaded e.1) ∷ reloaded_all d

  -- Every entry stands under its own key.
  abbrev pub AllKeyed : Dict (HotEntry fl) → Type 0
  AllKeyed [] = Unit
  AllKeyed (e ∷ d) = (e.1.key ≡ e.0) × AllKeyed d

  load_hot-hot_row :
      (d t : Dict (HotEntry fl))
      → IsDict d
      → AllKeyed d
      → Apart d t
      → load_hot fl order k_init (map (λ (e : ℕ × HotEntry fl). hot_row fl e.1) d) t
        ≡ t ++ reloaded_all d
  unfolding load_hot new_entry
  load_hot-hot_row [] t u k a = sym (append-nil t)
  load_hot-hot_row ((key, e) ∷ d) t u k a =
      let placed : insert e.key (reloaded e) t ≡ t ++ (key, reloaded e) ∷ [] =
        ap (λ (i : ℕ). insert i (reloaded e) t) k.0 ∙ insert-absent key (reloaded e) t a.0 in
      let rows = map (λ (x : ℕ × HotEntry fl). hot_row fl x.1) d in
      ap (λ (t' : Dict (HotEntry fl)). load_hot fl order k_init rows t') placed
      ∙ load_hot-hot_row d (t ++ (key, reloaded e) ∷ []) u.1 k.1
          (Apart-snoc d t key (reloaded e) u.0 a.1)
      ∙ append_assoc t ((key, reloaded e) ∷ []) (reloaded_all d)

module _ (fl : Floats) where
  -- If no key is listed twice in the hot table and every entry stands under its key, then loading a
  -- snapshot into any store succeeds, and the hot table is the saved one: the same keys in the same
  -- order, with entries that differ in the order of their candidates and in an empty cache only.
  pub load-snapshot :
      (order : Sorting) (st fresh : LedgerStore fl)
      → IsDict st.hot
      → AllKeyed fl order fresh.params.k_init st.hot
      → (st' : LedgerStore fl) × (load fl order (snapshot fl st) fresh ≡ some st')
        × (st'.hot ≡ reloaded_all fl order fresh.params.k_init st.hot)
        × (st'.arena.tokens ≡ st.arena.tokens)
  unfolding load snapshot refresh_sizes load_arena
  load-snapshot order st fresh u k = (
    _,
    refl,
    load_hot-hot_row fl order fresh.params.k_init st.hot [] u k (all_apart st.hot),
    refl,
  )
    where
      all_apart : (d : Dict (HotEntry fl)) → Apart {V = HotEntry fl} {W = HotEntry fl} d []
      all_apart [] = tt
      all_apart (e ∷ d) = (refl, all_apart d)
