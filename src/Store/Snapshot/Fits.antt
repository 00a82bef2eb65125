-- ===== src/Store/Snapshot/Fits.antt =====
-- When a document that `load` of core/store.py reads suits the parameters of the store. The code does
-- not check it.
use speculation_ledger.Prelude.{
  ℕ, suc, ◌+◌, ◌≤◌, ◌≡◌, ◌⊎◌, refl, max, inl, inr, ◌==◌, some, List, [], ◌∷◌, arith, Bool-cases,
  Option-cases, length, map, length-map, All,
}
use speculation_ledger.Prelude.Dict.{Dict, lookup, insert, length-insert_new, length-insert_old}
use speculation_ledger.Floats.{Floats}
use speculation_ledger.Arena.{load_arena}
use speculation_ledger.Hot.{Cand, HotEntry, new_entry}
use speculation_ledger.Hot.Capacity.{AllFit}
use speculation_ledger.Hot.Ok.{IsOk}
use speculation_ledger.Store.State.{StoreParams, LedgerStore, refresh_sizes}
use speculation_ledger.Store.Snapshot.{
  Sorting, HotRow, Doc, snapshot_schema, hot_row, snapshot, entry_of_row, load_hot, load_spans,
  load_epochs, load,
}
use speculation_ledger.Store.Apply.Hot.{AllOk, top_cap, IsHotOk, AllOk-insert}

module _ (fl : Floats) (order : Sorting) (params : StoreParams fl) where
  -- A saved entry has a cap of at least 1 and at most the store's, and no more candidates than that, of
  -- 16-bit counts and byte-wide summaries.
  pub record FitsRow (r : HotRow fl) : Type 0 where
    pub room : 1 ≤ r.k_cap
    pub capped : r.k_cap ≤ max params.k_init params.k_max
    pub fits : length (order.of_cands r.cands) ≤ r.k_cap
    pub widths : AllFit (order.of_cands r.cands)

  -- The document has no more entries than the store may, and each of them fits.
  pub record FitsDoc (doc : Doc fl) : Type 0 where
    pub bounded : (params.max_entries ≡ 0) ⊎ (length doc.hot ≤ params.max_entries)
    pub rows : All FitsRow doc.hot

  entry_of_row-IsOk :
      (r : HotRow fl)
      → FitsRow r
      → IsOk fl (max params.k_init params.k_max) r.key (entry_of_row fl order params.k_init r)
  unfolding new_entry
  entry_of_row-IsOk r f = record {
    keyed = refl;
    within = record { room = f.room; fits = f.fits; widths = f.widths };
    coherent = inl refl;
    capped = f.capped;
  }

  load_hot-AllOk :
      (rows : List (HotRow fl)) (t : Dict (HotEntry fl))
      → All FitsRow rows
      → AllOk fl (max params.k_init params.k_max) t
      → AllOk fl (max params.k_init params.k_max) (load_hot fl order params.k_init rows t)
  unfolding load_hot
  load_hot-AllOk [] t f a = a
  load_hot-AllOk (r ∷ rows) t f a = load_hot-AllOk rows _ f.1 (
      AllOk-insert fl (max params.k_init params.k_max) r.key (entry_of_row fl order params.k_init r)
        t (entry_of_row-IsOk r f.0) a)

  length-insert-le :
      (key : ℕ) (e : HotEntry fl) (t : Dict (HotEntry fl))
      → length (insert key e t) ≤ suc (length t)
  length-insert-le key e t = elim (Option-cases (lookup key t)) [
    | inl new ↦ omega (arith, length-insert_new key e t new)
    | inr (old, there) ↦ omega (arith, length-insert_old key e t there)
  ]

  length-load_hot :
      (rows : List (HotRow fl)) (t : Dict (HotEntry fl))
      → length (load_hot fl order params.k_init rows t) ≤ length rows + length t
  unfolding load_hot
  length-load_hot [] t = omega arith
  length-load_hot (r ∷ rows) t =
      let e = entry_of_row fl order params.k_init r in
      omega (arith, length-insert-le r.key e t, length-load_hot rows (insert r.key e t))

module _ (fl : Floats) (order : Sorting) where
  -- What a load of a document that fits keeps.
  pub record Loaded (st st' : LedgerStore fl) : Type 0 where
    pub params_same : st'.params ≡ st.params
    pub queue_same : st'.queue ≡ st.queue
    pub hot_ok : IsHotOk fl st'

  pub load-Loaded :
      (doc : Doc fl) (st st' : LedgerStore fl)
      → FitsDoc fl order st.params doc
      → load fl order doc st ≡ some st'
      → IsHotOk fl st
      → Loaded st st'
  unfolding load refresh_sizes
  load-Loaded doc st st' f e ho = elim (Bool-cases (doc.schema == snapshot_schema)) [
    | inr other ↦ absurd (ground (arith, other))
    | inl same_schema ↦
        let shorter = length-load_hot fl order st.params doc.hot [] in
        let small : (st.params.max_entries ≡ 0)
            ⊎ (length (load_hot fl order st.params.k_init doc.hot []) ≤ st.params.max_entries) =
          elim f.bounded [ inl free ↦ inl free | inr few ↦ inr (omega arith) ] in
        let whole = refresh_sizes fl (record st {
          hot = load_hot fl order st.params.k_init doc.hot [];
          spans = load_spans fl order doc.spans [];
          arena = load_arena doc.arena;
          epochs = load_epochs fl doc.epochs [];
        }) in
        let same : whole ≡ st' = ground (arith, same_schema) in
        rw (← same) (record {
          params_same = refl;
          queue_same = refl;
          hot_ok = record {
            init = ho.init;
            bounded = small;
            entries = load_hot-AllOk fl order st.params doc.hot [] f.rows tt;
          };
        })
  ]

  -- The members of a JSON object come back in some order, the values as they were.
  abbrev pub KeepsCands : Type 0
  KeepsCands =
      (d : Dict Cand)
      → (length (order.of_cands d) ≡ length d) × (AllFit d → AllFit (order.of_cands d))

  FitsRow-map :
      (st : LedgerStore fl) (d : Dict (HotEntry fl))
      → KeepsCands
      → AllOk fl (top_cap fl st) d
      → All (FitsRow fl order st.params) (map (λ (e : ℕ × HotEntry fl). hot_row fl e.1) d)
  FitsRow-map st [] kept a = tt
  FitsRow-map st (e ∷ d) kept a =
      let w = a.0.within in
      (
        record {
          room = w.room;
          capped = a.0.capped;
          fits = rw (kept e.1.cands).0 w.fits;
          widths = (kept e.1.cands).1 w.widths;
        },
        FitsRow-map st d kept a.1,
      )

  -- The snapshot of a store whose table is in order fits the same parameters.
  pub snapshot-FitsDoc :
      (st : LedgerStore fl)
      → KeepsCands
      → IsHotOk fl st
      → FitsDoc fl order st.params (snapshot fl st)
  unfolding snapshot
  snapshot-FitsDoc st kept ho = record {
    bounded = rw (length-map (λ (e : ℕ × HotEntry fl). hot_row fl e.1) st.hot) ho.bounded;
    rows = FitsRow-map st st.hot kept ho.entries;
  }
