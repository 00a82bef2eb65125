-- ===== src/Proposers/Recycling.antt =====
-- `TokenRecyclingProposer` of sim/proposers.py: a fixed tree, filled from the rows of the last seen
-- successors of each token.
pub mod Wired
pub mod Rows
use speculation_ledger.Prelude.{
  ℕ, zero, suc, ◌+◌, ◌-◌, Bool, true, false, Option, none, some, List, [], ◌∷◌, ◌++◌, ◌==◌,
  if◌then◌else◌, length, take, last, get_elem?, set, replicate,
}
use speculation_ledger.Prelude.Dict.{Dict, lookup, insert}
use speculation_ledger.Result.{
  Result, ok, err, or_raise, index_error, key_error, assertion_error, ◌>>=◌,
}
use speculation_ledger.Types.{Str, Scope, VerifyOutcome, DraftTree, realized, add}
use speculation_ledger.Proposers.{ProposeCtx, BaseProposer}
use speculation_ledger.Prelude.Texts.{str_eq}

-- `TR_TREE_TEMPLATE`
abbrev pub tree_template : List (List ℕ)
tree_template =
    (0 ∷ [])
    ∷ (1 ∷ [])
    ∷ (2 ∷ [])
    ∷ (3 ∷ [])
    ∷ (4 ∷ [])
    ∷ (5 ∷ [])
    ∷ (6 ∷ [])
    ∷ (7 ∷ [])
    ∷ (0 ∷ 0 ∷ [])
    ∷ (0 ∷ 1 ∷ [])
    ∷ (0 ∷ 2 ∷ [])
    ∷ (0 ∷ 3 ∷ [])
    ∷ (0 ∷ 4 ∷ [])
    ∷ (0 ∷ 5 ∷ [])
    ∷ (0 ∷ 6 ∷ [])
    ∷ (0 ∷ 7 ∷ [])
    ∷ (1 ∷ 0 ∷ [])
    ∷ (1 ∷ 1 ∷ [])
    ∷ (1 ∷ 2 ∷ [])
    ∷ (1 ∷ 3 ∷ [])
    ∷ (2 ∷ 0 ∷ [])
    ∷ (2 ∷ 1 ∷ [])
    ∷ (2 ∷ 2 ∷ [])
    ∷ (3 ∷ 0 ∷ [])
    ∷ (3 ∷ 1 ∷ [])
    ∷ (4 ∷ 0 ∷ [])
    ∷ (5 ∷ 0 ∷ [])
    ∷ (6 ∷ 0 ∷ [])
    ∷ (7 ∷ 0 ∷ [])
    ∷ (0 ∷ 0 ∷ 0 ∷ [])
    ∷ (0 ∷ 0 ∷ 1 ∷ [])
    ∷ (0 ∷ 0 ∷ 2 ∷ [])
    ∷ (0 ∷ 0 ∷ 3 ∷ [])
    ∷ (0 ∷ 0 ∷ 4 ∷ [])
    ∷ (0 ∷ 0 ∷ 5 ∷ [])
    ∷ (0 ∷ 0 ∷ 6 ∷ [])
    ∷ (0 ∷ 0 ∷ 7 ∷ [])
    ∷ (0 ∷ 1 ∷ 0 ∷ [])
    ∷ (0 ∷ 1 ∷ 1 ∷ [])
    ∷ (0 ∷ 1 ∷ 2 ∷ [])
    ∷ (0 ∷ 2 ∷ 0 ∷ [])
    ∷ (0 ∷ 2 ∷ 1 ∷ [])
    ∷ (0 ∷ 3 ∷ 0 ∷ [])
    ∷ (0 ∷ 4 ∷ 0 ∷ [])
    ∷ (0 ∷ 5 ∷ 0 ∷ [])
    ∷ (0 ∷ 6 ∷ 0 ∷ [])
    ∷ (0 ∷ 7 ∷ 0 ∷ [])
    ∷ (1 ∷ 0 ∷ 0 ∷ [])
    ∷ (1 ∷ 0 ∷ 1 ∷ [])
    ∷ (1 ∷ 1 ∷ 0 ∷ [])
    ∷ (2 ∷ 0 ∷ 0 ∷ [])
    ∷ (3 ∷ 0 ∷ 0 ∷ [])
    ∷ (4 ∷ 0 ∷ 0 ∷ [])
    ∷ (5 ∷ 0 ∷ 0 ∷ [])
    ∷ (0 ∷ 0 ∷ 0 ∷ 0 ∷ [])
    ∷ (0 ∷ 0 ∷ 0 ∷ 1 ∷ [])
    ∷ (0 ∷ 0 ∷ 0 ∷ 2 ∷ [])
    ∷ (0 ∷ 0 ∷ 0 ∷ 3 ∷ [])
    ∷ (0 ∷ 0 ∷ 0 ∷ 4 ∷ [])
    ∷ (0 ∷ 0 ∷ 1 ∷ 0 ∷ [])
    ∷ (0 ∷ 0 ∷ 1 ∷ 1 ∷ [])
    ∷ (0 ∷ 0 ∷ 2 ∷ 0 ∷ [])
    ∷ (0 ∷ 0 ∷ 3 ∷ 0 ∷ [])
    ∷ (0 ∷ 0 ∷ 4 ∷ 0 ∷ [])
    ∷ (0 ∷ 1 ∷ 0 ∷ 0 ∷ [])
    ∷ (0 ∷ 2 ∷ 0 ∷ 0 ∷ [])
    ∷ (1 ∷ 0 ∷ 0 ∷ 0 ∷ [])
    ∷ (2 ∷ 0 ∷ 0 ∷ 0 ∷ [])
    ∷ (3 ∷ 0 ∷ 0 ∷ 0 ∷ [])
    ∷ (0 ∷ 0 ∷ 0 ∷ 0 ∷ 0 ∷ [])
    ∷ (0 ∷ 0 ∷ 0 ∷ 0 ∷ 1 ∷ [])
    ∷ (0 ∷ 0 ∷ 0 ∷ 0 ∷ 2 ∷ [])
    ∷ (0 ∷ 0 ∷ 0 ∷ 1 ∷ 0 ∷ [])
    ∷ (0 ∷ 0 ∷ 0 ∷ 2 ∷ 0 ∷ [])
    ∷ (0 ∷ 0 ∷ 1 ∷ 0 ∷ 0 ∷ [])
    ∷ (0 ∷ 1 ∷ 0 ∷ 0 ∷ 0 ∷ [])
    ∷ (1 ∷ 0 ∷ 0 ∷ 0 ∷ 0 ∷ [])
    ∷ (0 ∷ 0 ∷ 0 ∷ 0 ∷ 0 ∷ 0 ∷ [])
    ∷ (0 ∷ 0 ∷ 0 ∷ 0 ∷ 0 ∷ 1 ∷ [])
    ∷ (0 ∷ 0 ∷ 0 ∷ 1 ∷ 0 ∷ 0 ∷ [])
    ∷ []

-- `TR_K`
abbrev pub row_size : ℕ
row_size = 8

-- `index_of[path]`
unfoldable pub index_of : List (Str × ℕ) → Str → Option ℕ
index_of [] path = none
index_of (row ∷ rows) path =
    let rest = index_of rows path in if str_eq row.0 path then some row.1 else rest

-- `path[:-1]` and `path[-1]`, of a path that is not empty.
unfoldable pub split_last : ℕ → List ℕ → List ℕ × ℕ
split_last x [] = ([], x)
split_last x (y ∷ ys) = let (front, z) = split_last y ys in (x ∷ front, z)

-- The parent of a node: the root for a path of one, and else the node of the path before it.
abbrev pub parent_index : List (Str × ℕ) → List ℕ → Result (Option ℕ)
parent_index rows [] = ok none
parent_index rows (x ∷ xs) = or_raise (index_of rows (x ∷ xs)) key_error >>= (λ i. ok (some i))

-- The loop of `_tr_tree_wiring` from index i on, with the paths before it. The last assignment to a
-- path is the first row that `index_of` meets.
unfoldable pub wire : ℕ → List (Str × ℕ) → List (List ℕ) → Result (List (Option ℕ × ℕ))
unfolding split_last index_of
wire i rows [] = ok []
wire i rows ([] ∷ paths) = err index_error
wire i rows ((x ∷ xs) ∷ paths) = do
  parent ← parent_index rows (split_last x xs).0
  rest ← wire (suc i) ((x ∷ xs, i) ∷ rows) paths
  ok ((parent, (split_last x xs).1) ∷ rest)

unfoldable pub tr_tree_wiring : List (List ℕ) → Result (List (Option ℕ × ℕ))
unfolding wire
tr_tree_wiring template = wire 0 [] template

abbrev pub Table : Type 0
Table = Dict (List ℕ)

-- `_m_by_tenant`, and which of its tables `_m` is: `none` for the table that a new proposer has, which
-- belongs to no tenant.
pub record Recycling : Type 0 where
  pub tables : List (Str × Table)
  pub active : Option Str
  pub unowned : Table

abbrev pub new_recycling : Recycling
new_recycling = record { tables = []; active = none; unowned = [] }

unfoldable pub table_of : Str → List (Str × Table) → Option Table
table_of tenant [] = none
table_of tenant (row ∷ rows) =
    let rest = table_of tenant rows in if str_eq row.0 tenant then some row.1 else rest

unfoldable pub set_table : Str → Table → List (Str × Table) → List (Str × Table)
set_table tenant m [] = (tenant, m) ∷ []
set_table tenant m (row ∷ rows) =
    let rest = set_table tenant m rows in
    if str_eq row.0 tenant then (row.0, m) ∷ rows else row ∷ rest

abbrev pub or_no_table : Option Table → Table
or_no_table none = []
or_no_table (some m) = m

-- `self._m`, read and changed in place.
abbrev pub active_table : Recycling → Table
active_table st = elim st.active [
  | none ↦ st.unowned
  | some tenant ↦ or_no_table (table_of tenant st.tables)
]

abbrev pub put_table : Recycling → Table → Recycling
put_table st m = elim st.active [
  | none ↦ record st { unowned = m }
  | some tenant ↦ record st { tables = set_table tenant m st.tables }
]

-- `setdefault(scope.tenant, {})`
unfoldable pub begin_recycling : Scope → Recycling → Recycling
unfolding table_of set_table
begin_recycling scope st = record st {
  active = some scope.tenant;
  tables = set_table scope.tenant (or_no_table (table_of scope.tenant st.tables)) st.tables;
}

abbrev pub zero_row : List ℕ
zero_row = replicate row_size 0

abbrev pub or_zero_row : Option (List ℕ) → List ℕ
or_zero_row none = zero_row
or_zero_row (some row) = row

-- The token of the parent, for the root the last token.
abbrev pub parent_token : ℕ → List ℕ → Option ℕ → Result ℕ
parent_token root toks none = ok root
parent_token root toks (some p) = or_raise (get_elem? toks p) index_error

-- The loop over the wiring from index i on, with `toks` and the tree so far.
unfoldable pub fill_tree :
    Table → ℕ → ℕ → List (Option ℕ × ℕ) → List ℕ → DraftTree → Result DraftTree
fill_tree m root i [] toks tree = ok tree
fill_tree m root i ((parent, slot) ∷ wiring) toks tree = do
  parent_tok ← parent_token root toks parent
  tok ← or_raise (get_elem? (or_zero_row (lookup parent_tok m)) slot) index_error
  (tree', _) ← or_raise (add tree tok parent) assertion_error
  fill_tree m root (suc i) wiring (set toks i tok) tree'

-- `propose` with the wiring that the constructor made; the tree of an empty context is empty.
unfoldable pub propose_recycling : List (Option ℕ × ℕ) → ProposeCtx → Recycling → Result DraftTree
unfolding fill_tree
propose_recycling wiring ctx st = elim (last 1 ctx.recent) [
  | [] ↦ ok []
  | root ∷ _ ↦ fill_tree (active_table st) root 0 wiring (replicate (length wiring) 0) []
]

-- A row cut and filled up to `row_size`.
unfoldable pub pad_row : List ℕ → List ℕ
pad_row ids = let row = take row_size ids in row ++ replicate (row_size - length row) 0

-- The loop of `harvest` over the realized tokens and the top-k lists, from the token before them.
unfoldable pub learn : Option ℕ → List ℕ → List (List ℕ) → Table → Table
unfolding pad_row
learn prev [] topk m = m
learn prev (t ∷ toks) [] m = m
learn none (t ∷ toks) (ids ∷ topk) m = learn (some t) toks topk m
learn (some p) (t ∷ toks) ([] ∷ topk) m = learn (some t) toks topk m
learn (some p) (t ∷ toks) ((k ∷ ids) ∷ topk) m =
    learn (some t) toks topk (insert p (pad_row (k ∷ ids)) m)

unfoldable pub harvest_recycling : VerifyOutcome → Recycling → Recycling
unfolding learn
harvest_recycling ev st =
    put_table st
      (learn (get_elem? (last 1 ev.ctx_tail) 0) (realized ev) ev.topk_ids (active_table st))

abbrev pub recycling_proposer : List (Option ℕ × ℕ) → BaseProposer Recycling
recycling_proposer wiring = record {
  begin_request = λ scope st. ok (begin_recycling scope st);
  propose = λ ctx st. propose_recycling wiring ctx st >>= (λ tree. ok (tree, st));
  harvest = λ ev st. ok (harvest_recycling ev st);
  end_request = λ st. ok st;
  bump_epoch = λ scope file st. st;
}
