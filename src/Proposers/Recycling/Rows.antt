-- ===== src/Proposers/Recycling/Rows.antt =====
-- `TokenRecyclingProposer` of sim/proposers.py keeps rows of eight tokens, and so never raises.
use speculation_ledger.Prelude.{
  ℕ, suc, ◌+◌, ◌-◌, ◌≤◌, ◌≡◌, refl, inl, inr, Bool-cases, Option-cases, true, Option, none, some,
  List, [], ◌∷◌, ◌++◌, arith, ◌==◌, length, take, last, get_elem?, get_elem?-lt, set, length-set,
  All, replicate, length-replicate, length-append, length-take,
}
use speculation_ledger.Prelude.Dict.{lookup, insert}
use speculation_ledger.Result.{ok}
use speculation_ledger.Types.{Str, DraftTree, realized, parent_ok, add}
use speculation_ledger.Proposers.{ProposeCtx}
use speculation_ledger.Prelude.Texts.{str_eq}
use speculation_ledger.Replay.Rounds.Ends.{IsLawful}
use speculation_ledger.Proposers.Recycling.{
  row_size, Table, Recycling, table_of, set_table, or_no_table, active_table, put_table,
  begin_recycling, or_zero_row, parent_token, fill_tree, propose_recycling, pad_row, learn,
  harvest_recycling, recycling_proposer, tr_tree_wiring,
}
use speculation_ledger.Proposers.Recycling.Wired.{IsWired, all_paths, tr_tree_wiring-IsWired}

abbrev pub FullRows : Table → Type 0
FullRows m = All (λ (row : ℕ × List ℕ). length row.1 ≡ row_size) m

-- Every row of every table has eight tokens.
pub record IsFull (st : Recycling) : Type 0 where
  pub tables : All (λ (row : Str × Table). FullRows row.1) st.tables
  pub unowned : FullRows st.unowned

length-or_zero_row :
    (key : ℕ) (m : Table) → FullRows m → length (or_zero_row (lookup key m)) ≡ row_size
length-or_zero_row key [] a = refl
length-or_zero_row key (row ∷ m) a = elim (Bool-cases (key == row.0)) [
  | inl here ↦ rw here a.0
  | inr other ↦ rw other (length-or_zero_row key m a.1)
]

insert-FullRows :
    (key : ℕ) (row : List ℕ) (m : Table)
    → length row ≡ row_size
    → FullRows m
    → FullRows (insert key row m)
insert-FullRows key row [] h a = (h, tt)
insert-FullRows key row (r ∷ m) h a = elim (Bool-cases (key == r.0)) [
  | inl here ↦ rw here (h, a.1)
  | inr other ↦ rw other (a.0, insert-FullRows key row m h a.1)
]

length-pad_row : (ids : List ℕ) → length (pad_row ids) ≡ row_size
unfolding pad_row
length-pad_row ids =
    let row = take row_size ids in
    omega (
      arith,
      length-take row_size ids,
      length-append row (replicate (row_size - length row) 0),
      length-replicate {A = ℕ} (row_size - length row) 0,
    )

learn-FullRows :
    (prev : Option ℕ) (toks : List ℕ) (topk : List (List ℕ)) (m : Table)
    → FullRows m
    → FullRows (learn prev toks topk m)
unfolding learn
learn-FullRows prev [] topk m a = a
learn-FullRows prev (t ∷ toks) [] m a = a
learn-FullRows none (t ∷ toks) (ids ∷ topk) m a = learn-FullRows (some t) toks topk m a
learn-FullRows (some p) (t ∷ toks) ([] ∷ topk) m a = learn-FullRows (some t) toks topk m a
learn-FullRows (some p) (t ∷ toks) ((k ∷ ids) ∷ topk) m a =
    learn-FullRows (some t) toks topk (insert p (pad_row (k ∷ ids)) m)
      (insert-FullRows p (pad_row (k ∷ ids)) m (length-pad_row (k ∷ ids)) a)

table_of-FullRows :
    (tenant : Str) (rows : List (Str × Table))
    → All (λ (row : Str × Table). FullRows row.1) rows
    → FullRows (or_no_table (table_of tenant rows))
unfolding table_of
table_of-FullRows tenant [] a = tt
table_of-FullRows tenant (row ∷ rows) a = elim (Bool-cases (str_eq row.0 tenant)) [
  | inl here ↦ rw here a.0
  | inr other ↦ rw other (table_of-FullRows tenant rows a.1)
]

set_table-FullRows :
    (tenant : Str) (m : Table) (rows : List (Str × Table))
    → FullRows m
    → All (λ (row : Str × Table). FullRows row.1) rows
    → All (λ (row : Str × Table). FullRows row.1) (set_table tenant m rows)
unfolding set_table
set_table-FullRows tenant m [] h a = (h, tt)
set_table-FullRows tenant m (row ∷ rows) h a = elim (Bool-cases (str_eq row.0 tenant)) [
  | inl here ↦ rw here (h, a.1)
  | inr other ↦ rw other (a.0, set_table-FullRows tenant m rows h a.1)
]

active_table-FullRows : (st : Recycling) → IsFull st → FullRows (active_table st)
active_table-FullRows st f = elim (Option-cases st.active) [
  | inl loose ↦ rw loose f.unowned
  | inr (tenant, owned) ↦ rw owned (table_of-FullRows tenant st.tables f.tables)
]

put_table-IsFull : (st : Recycling) (m : Table) → FullRows m → IsFull st → IsFull (put_table st m)
put_table-IsFull st m h f = elim (Option-cases st.active) [
  | inl loose ↦ rw loose (record { tables = f.tables; unowned = h })
  | inr (tenant, owned) ↦
      rw owned
        (record { tables = set_table-FullRows tenant m st.tables h f.tables; unowned = f.unowned })
]

parent_token-ok :
    (root i : ℕ) (toks : List ℕ) (parent : Option ℕ)
    → parent_ok parent i ≡ true
    → i ≤ length toks
    → (t : ℕ) × (parent_token root toks parent ≡ ok t)
parent_token-ok root i toks none h size = (root, refl)
parent_token-ok root i toks (some p) h size =
    let (t, e) = get_elem?-lt p toks (ground (arith, h, size)) in (t, rw e refl)

-- The tree that is filled has a node for each entry of the wiring.
fill_tree-ok :
    (m : Table) (root i : ℕ) (wiring : List (Option ℕ × ℕ)) (toks : List ℕ) (tree : DraftTree)
    → FullRows m
    → IsWired i wiring
    → length toks ≡ i + length wiring
    → length tree ≡ i
    → (tree' : DraftTree) × (fill_tree m root i wiring toks tree ≡ ok tree')
      × (length tree' ≡ i + length wiring)
unfolding fill_tree add
fill_tree-ok m root i [] toks tree full wired size nodes = (tree, refl, omega (arith, nodes))
fill_tree-ok m root i ((parent, slot) ∷ wiring) toks tree full wired size nodes =
    let (parent_tok, e1) = parent_token-ok root i toks parent wired.0 (omega (arith, size)) in
    let row = or_zero_row (lookup parent_tok m) in
    let (tok, e2) =
      get_elem?-lt slot row (omega (arith, length-or_zero_row parent_tok m full, wired.1)) in
    let longer = tree ++ record { tok = tok; parent = parent } ∷ [] in
    let (tree', e3, size') =
      fill_tree-ok m root (suc i) wiring (set toks i tok) longer full wired.2
        (omega (arith, length-set toks i tok, size))
        (omega (arith, length-append tree (record { tok = tok; parent = parent } ∷ []), nodes)) in
    let fits : parent_ok parent (length tree) ≡ true = rw nodes wired.0 in
    (tree', rw (e1, e2, fits, e3) refl, omega (arith, size'))

propose_recycling-ok :
    (wiring : List (Option ℕ × ℕ)) (ctx : ProposeCtx) (st : Recycling)
    → IsWired 0 wiring
    → IsFull st
    → (tree : DraftTree) × (propose_recycling wiring ctx st ≡ ok tree)
unfolding propose_recycling
propose_recycling-ok wiring ctx st wired f =
    elim (last 1 ctx.recent)
      as (λ xs.
        (tree : DraftTree) × ((elim xs [
          | [] ↦ ok []
          | root ∷ _ ↦ fill_tree (active_table st) root 0 wiring (replicate (length wiring) 0) []
        ])
          ≡ ok tree)) [
            | [] ↦ ([], refl)
            | root ∷ rest ↦
                let (tree, e, _) =
                  fill_tree-ok (active_table st) root 0 wiring (replicate (length wiring) 0) []
                    (active_table-FullRows st f) wired
                    (omega (arith, length-replicate {A = ℕ} (length wiring) 0)) refl in
                (tree, e)
          ]

wired-IsLawful :
    (wiring : List (Option ℕ × ℕ)) → IsWired 0 wiring → IsLawful (recycling_proposer wiring) IsFull
unfolding begin_recycling harvest_recycling
wired-IsLawful wiring wired = record {
  begin_request = λ scope st f. (
    begin_recycling scope st,
    refl,
    record {
      tables =
          set_table-FullRows scope.tenant (or_no_table (table_of scope.tenant st.tables)) st.tables
            (table_of-FullRows scope.tenant st.tables f.tables) f.tables;
      unowned = f.unowned;
    },
  );
  propose = λ ctx st f.
      let (tree, e) = propose_recycling-ok wiring ctx st wired f in ((tree, st), rw e refl, f);
  harvest = λ ev st w f. (
    harvest_recycling ev st,
    refl,
    put_table-IsFull st _
        (learn-FullRows (get_elem? (last 1 ev.ctx_tail) 0) (realized ev) ev.topk_ids
          (active_table st) (active_table-FullRows st f))
        f,
  );
  end_request = λ st f. (st, refl, f);
  bump_epoch = λ scope file st f. f;
}

-- With the wiring that is made of a template whose numbers are below 8, no method of the proposer
-- raises from a state whose rows all have eight tokens, and all its methods keep them so.
pub recycling_proposer-IsLawful :
    (template : List (List ℕ)) {wiring : List (Option ℕ × ℕ)}
    → all_paths template ≡ true
    → tr_tree_wiring template ≡ ok wiring
    → IsLawful (recycling_proposer wiring) IsFull
recycling_proposer-IsLawful template {wiring} slots made =
    wired-IsLawful wiring (tr_tree_wiring-IsWired template slots made).0
