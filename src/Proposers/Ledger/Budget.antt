-- ===== src/Proposers/Ledger/Budget.antt =====
-- What `LedgerProposer.propose` of sim/proposers.py drafts, and what it does to the store.
use speculation_ledger.Prelude.{
  ℕ, suc, ◌≤◌, ◌<◌, ◌≡◌, refl, sym, inl, inr, Bool-cases, Option-cases, true, Option, none, some,
  [], ◌∷◌, ◌++◌, arith, ltb, ◌==◌, length, length-append,
}
use speculation_ledger.Floats.{Floats}
use speculation_ledger.Hash.{Blake2b}
use speculation_ledger.Result.{ok, or_raise, or_raise-eq-ok, assertion_error, >>=-eq-ok}
use speculation_ledger.Types.{DraftNode, DraftTree, parent_ok, add}
use speculation_ledger.Types.Tree.{IsTopological, add-IsTopological}
use speculation_ledger.Signature.{push, stack_list}
use speculation_ledger.Backoff.{Posterior}
use speculation_ledger.Backoff.Rank.{correction}
use speculation_ledger.Store.Lookup.{lookup_posterior}
use speculation_ledger.Store.Steps.{looked_up}
use speculation_ledger.Store.Steps.Invariant.{IsValid, step-IsValid}
use speculation_ledger.Proposers.{ProposeCtx}
use speculation_ledger.Proposers.Ledger.{
  Draft, count_patch, add_leaf, extend, look, splice, break_here,
}

parent_ok-le :
    (parent : Option ℕ) (m n : ℕ) → parent_ok parent m ≡ true → m ≤ n → parent_ok parent n ≡ true
parent_ok-le none m n h le = refl
parent_ok-le (some p) m n h le = ground (arith, h, le)

add-index :
    (nodes nodes' : DraftTree) (tok i : ℕ) (parent : Option ℕ)
    → add nodes tok parent ≡ some (nodes', i)
    → (i ≡ length nodes) × (length nodes' ≡ suc (length nodes))
unfolding add
add-index nodes nodes' tok i parent e = elim (Bool-cases (parent_ok parent (length nodes))) [
  | inr bad ↦ absurd (ground arith)
  | inl good ↦
      let n : DraftNode = record { tok = tok; parent = parent } in
      let grown : nodes ++ n ∷ [] ≡ nodes' = ground (arith, good) in
      let same : length nodes ≡ i = ground (arith, good) in
      (sym same, rw (← grown) (omega (arith, length-append nodes (n ∷ []))))
]

module _ (fl : Floats) (h : Blake2b) (budget : ℕ) where
  -- A draft under way: parents stand before their children, the budget is kept, and the store is valid.
  pub record IsDraft (d : Draft fl) : Type 0 where
    pub topological : IsTopological d.tree
    pub parent_in : parent_ok d.parent (length d.tree) ≡ true
    pub within : length d.tree ≤ budget
    pub valid : IsValid fl h d.state.store

  pub add_leaf-IsDraft :
      (tok : ℕ) (d : Draft fl) {d' : Draft fl}
      → length d.tree < budget
      → add_leaf fl tok d ≡ ok d'
      → IsDraft d
      → IsDraft d' × (length d'.tree ≡ suc (length d.tree))
  unfolding add_leaf
  add_leaf-IsDraft tok d {d'} room e p =
      let ((tree, i), e1, e2) =
        >>=-eq-ok (or_raise (add d.tree tok d.parent) assertion_error) _ e in
      let added = or_raise-eq-ok (add d.tree tok d.parent) assertion_error e1 in
      let same : record d { tree = tree } ≡ d' = cc in
      let (index, size) = add-index d.tree tree tok i d.parent added in
      rw (← same) (
        record {
          topological = (add-IsTopological d.tree tree tok i d.parent p.topological added).0;
          parent_in =
              parent_ok-le d.parent (length d.tree) (length tree) p.parent_in (omega (arith, size));
          within = omega (arith, size, room);
          valid = p.valid;
        },
        size,
      )

  pub extend-IsDraft :
      (tok : ℕ) (d : Draft fl) {d' : Draft fl}
      → length d.tree < budget
      → extend fl tok d ≡ ok d'
      → IsDraft d
      → IsDraft d' × (length d'.tree ≡ suc (length d.tree))
  unfolding extend
  extend-IsDraft tok d {d'} room e p =
      let ((tree, i), e1, e2) =
        >>=-eq-ok (or_raise (add d.tree tok d.parent) assertion_error) _ e in
      let added = or_raise-eq-ok (add d.tree tok d.parent) assertion_error e1 in
      let same : record d { tree = tree; parent = some i; sims = push d.sims tok } ≡ d' = cc in
      let (index, size) = add-index d.tree tree tok i d.parent added in
      rw (← same) (
        record {
          topological = (add-IsTopological d.tree tree tok i d.parent p.topological added).0;
          parent_in = ground (arith, index, size);
          within = omega (arith, size, room);
          valid = p.valid;
        },
        size,
      )

  pub look-IsDraft :
      (ctx : ProposeCtx) (d : Draft fl) {d' : Draft fl} {post : Option (Posterior fl)}
      → look fl ctx d ≡ ok (d', post)
      → IsDraft d
      → IsDraft d' × (d'.tree ≡ d.tree)
  unfolding look
  look-IsDraft ctx d {d'} e p =
      let ((store, post'), e1, e2) =
        >>=-eq-ok (lookup_posterior fl d.state.store (stack_list d.sims) ctx.scope_stack ctx.seg) _
          e in
      let same : record d { state = record d.state { store = store } } ≡ d' = cc in
      rw (← same) (
        record {
          topological = p.topological;
          parent_in = p.parent_in;
          within = p.within;
          valid =
              step-IsValid fl h
                (looked_up d.state.store store (stack_list d.sims) ctx.scope_stack ctx.seg post' e1)
                p.valid;
        },
        refl,
      )

  pub patch-IsDraft :
      (d : Draft fl) → IsDraft d → IsDraft (record d { state = count_patch fl d.state })
  patch-IsDraft d p = record {
    topological = p.topological;
    parent_in = p.parent_in;
    within = p.within;
    valid = p.valid;
  }

  splice-IsDraft :
      (tok : ℕ) (d : Draft fl) (post : Option (Posterior fl)) {d' : Draft fl}
      → length d.tree < budget
      → splice fl tok d post ≡ ok d'
      → IsDraft d
      → IsDraft d'
  unfolding splice
  splice-IsDraft tok d none {d'} room e p = let same : d ≡ d' = cc in rw (← same) p
  splice-IsDraft tok d (some post) {d'} room e p = elim (Option-cases (correction fl post)) [
    | inl no_cands ↦ let same : d ≡ d' = ground (arith, no_cands) in rw (← same) p
    | inr (patch, found) ↦ elim (Bool-cases (patch.tok == tok)) [
      | inl equal ↦ let same : d ≡ d' = ground (arith, found, equal) in rw (← same) p
      | inr other ↦
          let (d₁, e1, e2) =
            >>=-eq-ok (add_leaf fl patch.tok d) _ (rw (found, other, splice) at e) in
          let (p₁, _) = add_leaf-IsDraft patch.tok d room e1 p in
          let same : record d₁ { state = count_patch fl d₁.state } ≡ d' = cc in
          rw (← same) (patch-IsDraft d₁ p₁)
    ]
  ]

  pub break_here-IsDraft :
      (ctx : ProposeCtx) (tok : ℕ) (d : Draft fl) {d' : Draft fl}
      → length d.tree < budget
      → break_here fl budget ctx tok d ≡ ok d'
      → IsDraft d
      → IsDraft d'
  unfolding break_here
  break_here-IsDraft ctx tok d {d'} room e p =
      let (d₁, e1, e2) = >>=-eq-ok (add_leaf fl tok d) _ e in
      let (p₁, _) = add_leaf-IsDraft tok d room e1 p in
      elim (Bool-cases (ltb (length d₁.tree) budget)) [
        | inr full ↦ let same : d₁ ≡ d' = ground (arith, full) in rw (← same) p₁
        | inl more ↦
            let ((d₂, post), e3, e4) = >>=-eq-ok (look fl ctx d₁) _ (rw more at e2) in
            let (p₂, same_tree) = look-IsDraft ctx d₁ e3 p₁ in
            splice-IsDraft tok d₂ post (rw same_tree (ground (arith, more))) e4 p₂
      ]
