-- ===== src/Types/Tree.antt =====
-- Draft trees: parents stand before their children, and a chain is read back as it was added.
use speculation_ledger.Prelude.{
  ℕ, zero, suc, ◌+◌, ◌≡◌, refl, ap, ◌∙◌, inl, inr, true, Option, none, some, List, [], ◌∷◌, ◌++◌,
  arith, ◌==◌, if◌then◌else◌, Bool-cases, length, length-append, get_elem?,
}
use mathlib.Core.List.{append_assoc, append-nil}
use speculation_ledger.Types.{DraftNode, DraftTree, parent_ok, add, add_chain, chain_from, chain}

get_elem?-snoc {ℓ} :
    {A : Type ℓ} (xs : List A) (v : A) (i : ℕ)
    → get_elem? (xs ++ v ∷ []) i ≡ (if i == length xs then some v else get_elem? xs i)
get_elem?-snoc [] v zero = refl
get_elem?-snoc [] v (suc i) = ground arith
get_elem?-snoc (x ∷ xs) v zero = ground arith
get_elem?-snoc (x ∷ xs) v (suc i) = ground (arith, get_elem?-snoc xs v i)

-- Every parent has a smaller index than its child, where the first node has index i.
abbrev pub IsTopologicalFrom : ℕ → DraftTree → Type 0
IsTopologicalFrom i [] = Unit
IsTopologicalFrom i (n ∷ nodes) = (parent_ok n.parent i ≡ true) × IsTopologicalFrom (suc i) nodes

abbrev pub IsTopological : DraftTree → Type 0
IsTopological = IsTopologicalFrom 0

IsTopologicalFrom-snoc :
    (i : ℕ) (nodes : DraftTree) (n : DraftNode)
    → IsTopologicalFrom i nodes
    → parent_ok n.parent (i + length nodes) ≡ true
    → IsTopologicalFrom i (nodes ++ n ∷ [])
IsTopologicalFrom-snoc i [] n h p = let same : i + 0 ≡ i = omega arith in (rw same at p, tt)
IsTopologicalFrom-snoc i (m ∷ nodes) n h p =
    let same : i + suc (length nodes) ≡ suc i + length nodes = omega arith in
    (h.0, IsTopologicalFrom-snoc (suc i) nodes n h.1 (rw same at p))

-- A call of `add` that does not fail its assertion keeps every parent before its child, puts the new
-- node after the others, which stay as they were, and returns the index at which it stands.
pub add-IsTopological :
    (nodes nodes' : DraftTree) (tok i : ℕ) (parent : Option ℕ)
    → IsTopological nodes
    → add nodes tok parent ≡ some (nodes', i)
    → IsTopological nodes'
      × (nodes' ≡ nodes ++ record { tok = tok; parent = parent } ∷ [])
      × (get_elem? nodes' i ≡ some (record { tok = tok; parent = parent }))
unfolding add
add-IsTopological nodes nodes' tok i parent h e =
    elim (Bool-cases (parent_ok parent (length nodes))) [
      | inr bad ↦ absurd (ground arith)
      | inl good ↦
          let n : DraftNode = record { tok = tok; parent = parent } in
          let grown : nodes' ≡ nodes ++ n ∷ [] = ground arith in
          let index : i ≡ length nodes = ground arith in
          let start : length nodes ≡ 0 + length nodes = omega arith in
          rw (grown, index)
            (
              IsTopologicalFrom-snoc 0 nodes n h (rw start at good),
              refl,
              ground (arith, get_elem?-snoc nodes n (length nodes)),
            )
    ]

-- The nodes that `add_chain` adds, the first of them at index i.
chain_nodes : ℕ → Option ℕ → List ℕ → DraftTree
chain_nodes i parent [] = []
chain_nodes i parent (t ∷ toks) =
    record { tok = t; parent = parent } ∷ chain_nodes (suc i) (some i) toks

length-snoc {ℓ} : {A : Type ℓ} (xs : List A) (v : A) → length (xs ++ v ∷ []) ≡ suc (length xs)
length-snoc xs v = omega (arith, length-append xs (v ∷ []))

add_ok :
    (nodes : DraftTree) (t : ℕ) (parent : Option ℕ)
    → parent_ok parent (length nodes) ≡ true
    → add nodes t parent ≡ some (nodes ++ record { tok = t; parent = parent } ∷ [], length nodes)
unfolding add
add_ok nodes t parent h = ground arith

add_chain-nodes :
    (toks : List ℕ) (nodes : DraftTree) (parent : Option ℕ)
    → parent_ok parent (length nodes) ≡ true
    → add_chain nodes parent toks ≡ some (nodes ++ chain_nodes (length nodes) parent toks)
unfolding add_chain chain_nodes
add_chain-nodes [] nodes parent h = rw append-nil
add_chain-nodes (t ∷ toks) nodes parent h =
    let n : DraftNode = record { tok = t; parent = parent } in
    let next : parent_ok (some (length nodes)) (length (nodes ++ n ∷ [])) ≡ true =
      rw (length-snoc nodes n) (ground arith) in
    rw (add_ok nodes t parent h, add_chain)
      (add_chain-nodes toks (nodes ++ n ∷ []) (some (length nodes)) next
        ∙ rw (length-snoc nodes n, append_assoc nodes (n ∷ [])))

chain_from-chain_nodes :
    (toks : List ℕ) (i : ℕ) (parent : Option ℕ)
    → chain_from i parent (chain_nodes i parent toks) ≡ toks
unfolding chain_from chain_nodes
chain_from-chain_nodes [] i parent = refl
chain_from-chain_nodes (t ∷ toks) i none = ap (◌∷◌ t) (chain_from-chain_nodes toks (suc i) (some i))
chain_from-chain_nodes (t ∷ toks) i (some p) =
    let e : (p == p) ≡ true = ground arith in
    rw e (ap (◌∷◌ t) (chain_from-chain_nodes toks (suc i) (some i)))

-- Tokens added to an empty tree, each as the child of the one before, fail no assertion, and
-- `chain` reads them back in their order.
pub chain-add_chain :
    (toks : List ℕ) → (t : DraftTree) × (add_chain [] none toks ≡ some t) × (chain t ≡ toks)
unfolding chain
chain-add_chain toks =
    (chain_nodes 0 none toks, add_chain-nodes toks [] none refl, chain_from-chain_nodes toks 0 none)
