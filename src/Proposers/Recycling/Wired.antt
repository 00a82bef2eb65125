-- ===== src/Proposers/Recycling/Wired.antt =====
-- The wiring that `_tr_tree_wiring` of sim/proposers.py makes of a template.
use speculation_ledger.Prelude.{
  ℕ, suc, ◌<◌, ◌≡◌, refl, inl, inr, Bool, true, ◌&&◌, &&-both, Bool-cases, Option, none, some, List,
  [], ◌∷◌, arith, ltb, length, All,
}
use speculation_ledger.Result.{ok, or_raise, or_raise-eq-ok, key_error, >>=-eq-ok}
use speculation_ledger.Types.{Str, parent_ok}
use speculation_ledger.Prelude.Texts.{str_eq}
use speculation_ledger.Proposers.Recycling.{
  index_of, split_last, parent_index, wire, tr_tree_wiring, row_size,
}

-- From index i on, every parent is an earlier node or the root, and every slot is one of a row.
abbrev pub IsWired : ℕ → List (Option ℕ × ℕ) → Type 0
IsWired i [] = Unit
IsWired i (node ∷ wiring) =
    (parent_ok node.0 i ≡ true) × (node.1 < row_size) × IsWired (suc i) wiring

-- Every number of every path is a slot of a row.
abbrev pub all_slots : List ℕ → Bool
all_slots [] = true
all_slots (x ∷ xs) = ltb x row_size && all_slots xs

abbrev pub all_paths : List (List ℕ) → Bool
all_paths [] = true
all_paths (path ∷ paths) = all_slots path && all_paths paths

abbrev Earlier : ℕ → List (Str × ℕ) → Type 0
Earlier i rows = All (λ (row : Str × ℕ). row.1 < i) rows

Earlier-suc : (i : ℕ) (rows : List (Str × ℕ)) → Earlier i rows → Earlier (suc i) rows
Earlier-suc i [] a = tt
Earlier-suc i (row ∷ rows) a = (omega (arith, a.0), Earlier-suc i rows a.1)

index_of-lt :
    (i : ℕ) (rows : List (Str × ℕ)) (path : Str) {k : ℕ}
    → Earlier i rows
    → index_of rows path ≡ some k
    → k < i
unfolding index_of
index_of-lt i [] path a e = cc
index_of-lt i (row ∷ rows) path {k} a e = elim (Bool-cases (str_eq row.0 path)) [
  | inl here ↦ let same : row.1 ≡ k = ground (arith, here) in omega (arith, same, a.0)
  | inr other ↦ index_of-lt i rows path a.1 (rw (other, index_of) at e)
]

parent_index-Earlier :
    (i : ℕ) (rows : List (Str × ℕ)) (path : List ℕ) {parent : Option ℕ}
    → Earlier i rows
    → parent_index rows path ≡ ok parent
    → parent_ok parent i ≡ true
parent_index-Earlier i rows [] {parent} a e = let same : none ≡ parent = cc in rw (← same) refl
parent_index-Earlier i rows (x ∷ xs) {parent} a e =
    let (k, e1, e2) = >>=-eq-ok (or_raise (index_of rows (x ∷ xs)) key_error) _ e in
    let same : some k ≡ parent = cc in
    let small =
      index_of-lt i rows (x ∷ xs) a (or_raise-eq-ok (index_of rows (x ∷ xs)) key_error e1) in
    rw (← same) (ground (arith, small))

split_last-lt : (x : ℕ) (xs : List ℕ) → all_slots (x ∷ xs) ≡ true → (split_last x xs).1 < row_size
unfolding split_last
split_last-lt x [] slots = ground (arith, slots)
split_last-lt x (y ∷ ys) slots =
    split_last-lt y ys (&&-both (ltb x row_size) (all_slots (y ∷ ys)) slots).1

wire-IsWired :
    (i : ℕ) (rows : List (Str × ℕ)) (paths : List (List ℕ)) {wiring : List (Option ℕ × ℕ)}
    → Earlier i rows
    → all_paths paths ≡ true
    → wire i rows paths ≡ ok wiring
    → IsWired i wiring × (length wiring ≡ length paths)
unfolding wire
wire-IsWired i rows [] {wiring} a slots e = let same : [] ≡ wiring = cc in rw (← same) (tt, refl)
wire-IsWired i rows ([] ∷ paths) a slots e = cc
wire-IsWired i rows ((x ∷ xs) ∷ paths) {wiring} a slots e =
    let (parent, e1, r1) = >>=-eq-ok (parent_index rows (split_last x xs).0) _ e in
    let (rest, e2, r2) = >>=-eq-ok (wire (suc i) ((x ∷ xs, i) ∷ rows) paths) _ r1 in
    let (here, later) = &&-both (all_slots (x ∷ xs)) (all_paths paths) slots in
    let same : (parent, (split_last x xs).1) ∷ rest ≡ wiring = cc in
    let (wired, size) =
      wire-IsWired (suc i) ((x ∷ xs, i) ∷ rows) paths (omega arith, Earlier-suc i rows a) later
        e2 in
    rw (← same) (
      (parent_index-Earlier i rows (split_last x xs).0 a e1, split_last-lt x xs here, wired),
      omega (arith, size),
    )

-- A template whose numbers are all below 8, and whose wiring is made without an error, gives one node
-- for each path; every node's parent is the root or a node before it, and its slot is one of a row.
pub tr_tree_wiring-IsWired :
    (template : List (List ℕ)) {wiring : List (Option ℕ × ℕ)}
    → all_paths template ≡ true
    → tr_tree_wiring template ≡ ok wiring
    → IsWired 0 wiring × (length wiring ≡ length template)
unfolding tr_tree_wiring
tr_tree_wiring-IsWired template slots e = wire-IsWired 0 [] template tt slots e
