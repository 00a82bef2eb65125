-- ===== src/Proposers/Dense.antt =====
-- `DenseKeyProposer` of sim/dense_key.py: drafts what followed the nearest earlier context. The vector
-- index is a library's, and a parameter, as is the arithmetic on vectors that embeds a context.
pub mod Batches
pub mod Offsets
use speculation_ledger.Prelude.{
  ℕ, suc, ◌+◌, ◌-◌, Bool, true, false, not, ◌||◌, Option, none, some, List, [], ◌∷◌, ◌++◌, ltb, leb,
  ◌==◌, if◌then◌else◌, length, take, drop, last, get_elem?,
}
use speculation_ledger.Prelude.Int.{ℤ, pos, negsuc}
use speculation_ledger.Prelude.Dict.{Dict, lookup, insert}
use speculation_ledger.Floats.{Floats}
use speculation_ledger.Hash.{Blake2b}
use speculation_ledger.Result.{Result, ok, or_raise, index_error, assertion_error, ◌>>=◌}
use speculation_ledger.Types.{
  ScopeKind, Scope, VerifyOutcome, DraftTree, id_of, realized, add_chain,
}
use speculation_ledger.Proposers.{ProposeCtx, BaseProposer}

-- The index of faiss: `empty` is a new flat one, `add` puts vectors at its end, `search` gives the
-- distance and the number of the nearest vector, and `upgrade` trains a compressed index on the
-- vectors of a flat one and adds them to it.
pub record Faiss (fl : Floats) : Type 1 where
  pub Vec : Type 0
  pub Index : Type 0
  pub empty : Index
  pub add : List Vec → Index → Index
  pub ntotal : Index → ℕ
  pub search : Vec → Index → fl.F × ℤ
  pub upgrade : Index → Index
  -- `_embed` of the last tokens
  pub embed : List ℕ → Vec
  -- `float("inf")`
  pub infinity : fl.F

-- `_TRAIN_MIN`
abbrev pub train_min : ℕ
train_min = 4096

-- The size of the buffer at which `add` flushes it.
abbrev pub batch_size : ℕ
batch_size = 256

module _ (fl : Floats) (faiss : Faiss fl) where
  pub record RepoIndex : Type 0 where
    pub use_ivfpq : Bool
    pub index : faiss.Index
    pub trained_ivf : Bool
    pub stream : List ℕ
    pub offsets : List ℕ
    pub buf : List faiss.Vec

  abbrev pub new_index : Bool → RepoIndex
  new_index use_ivfpq = record {
    use_ivfpq = use_ivfpq;
    index = faiss.empty;
    trained_ivf = false;
    stream = [];
    offsets = [];
    buf = [];
  }

  -- `_maybe_upgrade`
  unfoldable pub maybe_upgrade : RepoIndex → RepoIndex
  maybe_upgrade r =
      if not r.use_ivfpq || r.trained_ivf
      then r
      else if ltb (faiss.ntotal r.index) train_min
      then r
      else record r { index = faiss.upgrade r.index; trained_ivf = true }

  -- `_flush`
  unfoldable pub flush : RepoIndex → RepoIndex
  unfolding maybe_upgrade
  flush r =
      if length r.buf == 0
      then r
      else maybe_upgrade (record r { index = faiss.add r.buf r.index; buf = [] })

  unfoldable pub add_vector : faiss.Vec → ℕ → RepoIndex → RepoIndex
  unfolding flush
  add_vector vec end_off r =
      let r' = record r { buf = r.buf ++ vec ∷ []; offsets = r.offsets ++ end_off ∷ [] } in
      if leb batch_size (length r'.buf) then flush r' else r'

  -- The nearest vector of an index: none is nearest in an empty one.
  abbrev pub nearest : faiss.Vec → faiss.Index → fl.F × ℤ
  nearest vec index =
      if faiss.ntotal index == 0 then (faiss.infinity, negsuc 0) else faiss.search vec index

  unfoldable pub search : faiss.Vec → RepoIndex → RepoIndex × (fl.F × ℤ)
  unfolding flush
  search vec r = (flush r, nearest vec (flush r).index)

  pub record DenseConfig : Type 0 where
    pub window : ℕ
    pub max_dist : fl.F
    pub ivfpq : Bool

  pub record Dense : Type 0 where
    pub by_repo : Dict RepoIndex
    pub repo_id : ℕ
    pub lookups : ℕ
    pub hits : ℕ

  abbrev pub new_dense : Dense
  new_dense = record { by_repo = []; repo_id = 0; lookups = 0; hits = 0 }

  abbrev pub or_new_index : Bool → Option RepoIndex → RepoIndex
  or_new_index use_ivfpq none = new_index use_ivfpq
  or_new_index use_ivfpq (some r) = r

  -- `self._idx(self._repo_id)`, and the same index filed again after a change.
  abbrev pub repo_index : DenseConfig → Dense → RepoIndex
  repo_index cfg st = or_new_index cfg.ivfpq (lookup st.repo_id st.by_repo)

  abbrev pub put_index : RepoIndex → Dense → Dense
  put_index r st = record st { by_repo = insert st.repo_id r st.by_repo }

  -- The rest of `propose` from the answer of the search on.
  unfoldable pub draft_from :
      DenseConfig → ℕ → RepoIndex → fl.F × ℤ → Dense → Result (DraftTree × Dense)
  draft_from cfg budget r (dist, negsuc _) st = ok ([], st)
  draft_from cfg budget r (dist, pos fid) st = elim (fl.lt cfg.max_dist dist) [
    | true ↦ ok ([], st)
    | false ↦ do
      end ← or_raise (get_elem? r.offsets fid) index_error
      tree ← or_raise (add_chain [] none (take budget (drop (end + 1) r.stream))) assertion_error
      ok (tree, record st { hits = st.hits + 1 })
  ]

  unfoldable pub propose_dense : DenseConfig → ProposeCtx → Dense → Result (DraftTree × Dense)
  unfolding search draft_from
  propose_dense cfg ctx st = elim (ltb (length ctx.recent) 2) [
    | true ↦ ok ([], st)
    | false ↦
        let (r, answer) = search (faiss.embed ctx.recent) (repo_index cfg st) in
        draft_from cfg ctx.budget r answer (record (put_index r st) { lookups = st.lookups + 1 })
  ]

  -- `xs[-window:]`, which is all of the list for a window of 0.
  abbrev pub last_window : ℕ → List ℕ → List ℕ
  last_window window xs = if window == 0 then xs else last window xs

  -- `if len(window) > self.window: window.pop(0)`
  abbrev pub pop_over : ℕ → List ℕ → List ℕ
  pop_over limit xs = if ltb limit (length xs) then drop 1 xs else xs

  -- The loop of `harvest` over the realized tokens.
  unfoldable pub learn_tokens : ℕ → List ℕ → List ℕ → RepoIndex → RepoIndex
  unfolding add_vector
  learn_tokens limit [] window r = r
  learn_tokens limit (tok ∷ toks) window r =
      let stream = r.stream ++ tok ∷ [] in
      let window' = pop_over limit (window ++ tok ∷ []) in
      let r' = record r { stream = stream } in
      learn_tokens limit toks window' (
        if leb 2 (length window')
        then add_vector (faiss.embed window') (length stream - 1) r'
        else r')

  unfoldable pub harvest_dense : DenseConfig → VerifyOutcome → Dense → Dense
  unfolding learn_tokens
  harvest_dense cfg ev st =
      put_index
        (learn_tokens cfg.window (realized ev) (last_window cfg.window ev.ctx_tail)
          (repo_index cfg st))
        st

  abbrev pub dense_proposer : Blake2b → DenseConfig → BaseProposer Dense
  dense_proposer h cfg = record {
    begin_request = λ scope st. ok (record st { repo_id = id_of h scope ScopeKind.repo });
    propose = λ ctx st. propose_dense cfg ctx st;
    harvest = λ ev st. ok (harvest_dense cfg ev st);
    end_request = λ st. ok st;
    bump_epoch = λ scope file st. st;
  }
