-- ===== src/Proposers/Dense/Offsets.antt =====
-- `DenseKeyProposer` of sim/dense_key.py keeps one offset for each vector, and so never raises.
use speculation_ledger.Prelude.{
  ℕ, ◌+◌, ◌-◌, ◌<◌, ◌≡◌, refl, ap, ◌∙◌, inl, inr, Bool, Bool-cases, List-cases, true, false, not,
  ◌||◌, List, [], ◌∷◌, ◌++◌, arith, ltb, leb, ◌==◌, if◌then◌else◌, length, length-append, take,
  drop, get_elem?-lt, All,
}
use speculation_ledger.Prelude.Int.{ℤ, pos, negsuc}
use speculation_ledger.Prelude.Dict.{Dict, lookup, insert}
use speculation_ledger.Floats.{Floats}
use speculation_ledger.Hash.{Blake2b}
use speculation_ledger.Result.{ok}
use speculation_ledger.Types.{ScopeKind, DraftTree, id_of, realized}
use speculation_ledger.Types.Tree.{chain-add_chain}
use speculation_ledger.Proposers.{ProposeCtx}
use speculation_ledger.Proposers.Dense.{
  Faiss, RepoIndex, train_min, batch_size, maybe_upgrade, flush, add_vector, nearest, search,
  DenseConfig, Dense, or_new_index, repo_index, put_index, draft_from, propose_dense, last_window,
  pop_over, learn_tokens, harvest_dense, dense_proposer,
}
use speculation_ledger.Proposers.Dense.Batches.{FaissLaws}
use speculation_ledger.Replay.Rounds.Ends.{IsLawful}

module _ (fl : Floats) (faiss : Faiss fl) where
  -- One offset for each vector, in the index or in the buffer.
  abbrev pub Indexed : RepoIndex fl faiss → Type 0
  Indexed r = length r.offsets ≡ faiss.ntotal r.index + length r.buf

  abbrev pub IsIndexed : Dense fl faiss → Type 0
  IsIndexed st = All (λ (row : ℕ × RepoIndex fl faiss). Indexed row.1) st.by_repo

  module _ (laws : FaissLaws fl faiss) where
    ntotal-maybe_upgrade :
        (r : RepoIndex fl faiss)
        → (faiss.ntotal (maybe_upgrade fl faiss r).index ≡ faiss.ntotal r.index)
          × ((maybe_upgrade fl faiss r).buf ≡ r.buf)
          × ((maybe_upgrade fl faiss r).offsets ≡ r.offsets)
    unfolding maybe_upgrade
    ntotal-maybe_upgrade r = elim (Bool-cases (not r.use_ivfpq || r.trained_ivf)) [
      | inl fixed ↦ rw fixed (refl, refl, refl)
      | inr open_ended ↦ elim (Bool-cases (ltb (faiss.ntotal r.index) train_min)) [
        | inl small ↦ rw (open_ended, small) (refl, refl, refl)
        | inr large ↦ rw (open_ended, large) (laws.ntotal_upgrade r.index, refl, refl)
      ]
    ]

    flush-Indexed :
        (r : RepoIndex fl faiss)
        → Indexed r
        → (length (flush fl faiss r).offsets ≡ faiss.ntotal (flush fl faiss r).index)
          × Indexed (flush fl faiss r)
    unfolding flush
    flush-Indexed r h = elim (List-cases r.buf) [
      | inl nothing ↦
          let test : (length r.buf == 0) ≡ true = rw nothing refl in
          let none_waits : length r.buf ≡ 0 = ap length nothing in
          rw test (omega (arith, h, none_waits), h)
      | inr (v, vs, waiting) ↦
          let test : (length r.buf == 0) ≡ false = rw waiting (ground arith) in
          let r' : RepoIndex fl faiss = record r { index = faiss.add r.buf r.index; buf = [] } in
          let (total, buf_same, offsets_same) = ntotal-maybe_upgrade r' in
          let counted = laws.ntotal_add r.buf r.index in
          rw test (
            ap length offsets_same ∙ omega (arith, h, total, counted),
            ap length offsets_same ∙ omega (arith, h, total, counted, ap length buf_same),
          )
    ]

    add_vector-Indexed :
        (vec : faiss.Vec) (off : ℕ) (r : RepoIndex fl faiss)
        → Indexed r
        → Indexed (add_vector fl faiss vec off r)
    unfolding add_vector
    add_vector-Indexed vec off r h =
        let r' : RepoIndex fl faiss = record r {
          buf = r.buf ++ vec ∷ [];
          offsets = r.offsets ++ off ∷ [];
        } in
        let h' : Indexed r' =
          omega (arith, h, length-append r.buf (vec ∷ []), length-append r.offsets (off ∷ [])) in
        elim (Bool-cases (leb batch_size (length r'.buf))) [
          | inl full ↦ rw full (flush-Indexed r' h').1
          | inr room ↦ rw room h'
        ]

    either-Indexed :
        (b : Bool) (r r' : RepoIndex fl faiss)
        → Indexed r
        → Indexed r'
        → Indexed (if b then r else r')
    either-Indexed true r r' h h' = h
    either-Indexed false r r' h h' = h'

    learn_tokens-Indexed :
        (limit : ℕ) (toks window : List ℕ) (r : RepoIndex fl faiss)
        → Indexed r
        → Indexed (learn_tokens fl faiss limit toks window r)
    unfolding learn_tokens
    learn_tokens-Indexed limit [] window r h = h
    learn_tokens-Indexed limit (tok ∷ toks) window r h =
        let window' = pop_over fl faiss limit (window ++ tok ∷ []) in
        let r' : RepoIndex fl faiss = record r { stream = r.stream ++ tok ∷ [] } in
        let h' : Indexed r' = h in
        let added =
          add_vector fl faiss (faiss.embed window') (length (r.stream ++ tok ∷ []) - 1) r' in
        let added_Indexed =
          add_vector-Indexed (faiss.embed window') (length (r.stream ++ tok ∷ []) - 1) r' h' in
        learn_tokens-Indexed limit toks window' (if leb 2 (length window') then added else r')
          (either-Indexed (leb 2 (length window')) added r' added_Indexed h')

    found-Indexed :
        (cfg : DenseConfig fl faiss) (key : ℕ) (t : Dict (RepoIndex fl faiss))
        → All (λ (row : ℕ × RepoIndex fl faiss). Indexed row.1) t
        → Indexed (or_new_index fl faiss cfg.ivfpq (lookup key t))
    found-Indexed cfg key [] a = omega (arith, laws.ntotal_empty)
    found-Indexed cfg key (row ∷ t) a = elim (Bool-cases (key == row.0)) [
      | inl here ↦ rw here a.0
      | inr other ↦ rw other (found-Indexed cfg key t a.1)
    ]

    insert-Indexed :
        (key : ℕ) (r : RepoIndex fl faiss) (t : Dict (RepoIndex fl faiss))
        → Indexed r
        → All (λ (row : ℕ × RepoIndex fl faiss). Indexed row.1) t
        → All (λ (row : ℕ × RepoIndex fl faiss). Indexed row.1) (insert key r t)
    insert-Indexed key r [] h a = (h, tt)
    insert-Indexed key r (row ∷ t) h a = elim (Bool-cases (key == row.0)) [
      | inl here ↦ rw here (h, a.1)
      | inr other ↦ rw other (a.0, insert-Indexed key r t h a.1)
    ]

    nearest-lt :
        (vec : faiss.Vec) (i : faiss.Index) {d : fl.F} {k : ℕ}
        → nearest fl faiss vec i ≡ (d, pos k)
        → k < faiss.ntotal i
    nearest-lt vec i e = elim (Bool-cases (faiss.ntotal i == 0)) [
      | inl empty ↦ let r = rw empty at e in absurd (cc)
      | inr some_there ↦ laws.found vec i (rw some_there at e)
    ]

    draft_from-ok :
        (cfg : DenseConfig fl faiss) (budget : ℕ) (r : RepoIndex fl faiss) (d : fl.F) (z : ℤ)
        (st : Dense fl faiss)
        → ((k : ℕ) → z ≡ pos k → k < length r.offsets)
        → (res : DraftTree × Dense fl faiss) × (draft_from fl faiss cfg budget r (d, z) st ≡ ok res)
          × (res.1.by_repo ≡ st.by_repo)
    unfolding draft_from
    draft_from-ok cfg budget r d (negsuc n) st within = (([], st), refl, refl)
    draft_from-ok cfg budget r d (pos fid) st within = elim (Bool-cases (fl.lt cfg.max_dist d)) [
      | inl far ↦ (([], st), rw (far, draft_from) refl, refl)
      | inr near ↦
          let (end, e1) = get_elem?-lt fid r.offsets (within fid refl) in
          let (tree, e2, _) = chain-add_chain (take budget (drop (end + 1) r.stream)) in
          ((tree, record st { hits = st.hits + 1 }), rw (near, draft_from, e1, e2) refl, refl)
    ]

    propose_dense-ok :
        (cfg : DenseConfig fl faiss) (ctx : ProposeCtx) (st : Dense fl faiss)
        → IsIndexed st
        → (res : DraftTree × Dense fl faiss) × (propose_dense fl faiss cfg ctx st ≡ ok res)
          × IsIndexed res.1
    unfolding propose_dense search
    propose_dense-ok cfg ctx st a = elim (Bool-cases (ltb (length ctx.recent) 2)) [
      | inl short ↦ (([], st), rw (short, propose_dense) refl, a)
      | inr long ↦
          let old = repo_index fl faiss cfg st in
          let r = flush fl faiss old in
          let (exact, h) = flush-Indexed old (found-Indexed cfg st.repo_id st.by_repo a) in
          let near = nearest fl faiss (faiss.embed ctx.recent) r.index in
          let st' : Dense fl faiss = record (put_index fl faiss r st) {
            lookups = st.lookups + 1;
          } in
          let (res, e, same) = draft_from-ok cfg ctx.budget r near.0 near.1 st' (λ k at_k. omega (
            arith,
            exact,
            nearest-lt (faiss.embed ctx.recent) r.index {d = near.0} {k = k}
                (ap (λ z. (near.0, z)) at_k),
          )) in
          (res, rw (long, propose_dense) e, rw same (insert-Indexed st.repo_id r st.by_repo h a))
    ]

    -- With an index that counts its vectors, with or without the upgrade, no method of the proposer
    -- raises from a state that has one offset for each vector, and all its methods keep it so.
    pub dense_proposer-IsLawful :
        (h : Blake2b) (cfg : DenseConfig fl faiss)
        → IsLawful (dense_proposer fl faiss h cfg) IsIndexed
    unfolding harvest_dense
    dense_proposer-IsLawful h cfg = record {
      begin_request = λ scope st a. (record st { repo_id = id_of h scope ScopeKind.repo }, refl, a);
      propose = λ ctx st a. propose_dense-ok cfg ctx st a;
      harvest = λ ev st w a. (
        harvest_dense fl faiss cfg ev st,
        refl,
        insert-Indexed st.repo_id
            (learn_tokens fl faiss cfg.window (realized ev)
              (last_window fl faiss cfg.window ev.ctx_tail) (repo_index fl faiss cfg st))
            st.by_repo
            (learn_tokens-Indexed cfg.window (realized ev)
              (last_window fl faiss cfg.window ev.ctx_tail) (repo_index fl faiss cfg st)
              (found-Indexed cfg st.repo_id st.by_repo a))
            a,
      );
      end_request = λ st a. (st, refl, a);
      bump_epoch = λ scope file st a. a;
    }
