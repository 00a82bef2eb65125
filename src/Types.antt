-- ===== src/Types.antt =====
-- core/types.py: scopes, harvested outcomes, invalidation events and draft trees. A string is the
-- list of its UTF-8 bytes, and token ids are naturals.
pub mod Ids
pub mod Tree
pub mod Codec
use speculation_ledger.Prelude.{
  ℕ, suc, ◌+◌, ◌%◌, ◌^◌, Bool, Option, none, some, List, [], ◌∷◌, ◌++◌, ltb, ◌==◌, if◌then◌else◌,
  length, take,
}
use speculation_ledger.Hash.{Blake2b}

abbrev pub Str : Type 0
Str = List ℕ

-- `Segment.CODE` and `Segment.TEXT`
abbrev pub seg_code : ℕ
seg_code = 2

abbrev pub seg_text : ℕ
seg_text = 3

pub data ScopeKind : Type 0 where
  session repo global : ScopeKind

pub record Scope : Type 0 where
  pub tenant : Str
  pub repo : Str
  pub session : Str
  pub instance_id : Str

-- The separator of `stable_u64`, U+001F.
abbrev pub separator : ℕ
separator = 0x1f

-- `"\x1f".join(parts)`
unfoldable pub join : List Str → Str
join [] = []
join (p ∷ []) = p
join (p ∷ q ∷ ps) = p ++ separator ∷ join (q ∷ ps)

abbrev pub word_session : Str
word_session = b's' ∷ b'e' ∷ b's' ∷ b's' ∷ b'i' ∷ b'o' ∷ b'n' ∷ []

abbrev pub word_repo : Str
word_repo = b'r' ∷ b'e' ∷ b'p' ∷ b'o' ∷ []

abbrev pub word_global : Str
word_global = b'g' ∷ b'l' ∷ b'o' ∷ b'b' ∷ b'a' ∷ b'l' ∷ []

abbrev pub word_file : Str
word_file = b'f' ∷ b'i' ∷ b'l' ∷ b'e' ∷ []

-- The arguments of `stable_u64` for the id of a scope at each tier.
unfoldable pub id_parts : Scope → ScopeKind → List Str
id_parts s ScopeKind.session = word_session ∷ s.tenant ∷ s.repo ∷ s.session ∷ []
id_parts s ScopeKind.repo = word_repo ∷ s.tenant ∷ s.repo ∷ []
id_parts s ScopeKind.global = word_global ∷ s.tenant ∷ []

pub record VerifyOutcome : Type 0 where
  pub scope : Scope
  pub ctx_tail : List ℕ
  pub draft_ids : List ℕ
  pub accepted_len : ℕ
  pub bonus_id : ℕ
  pub topk_ids : List (List ℕ)
  pub topk_logp_q8 : List (List ℕ)
  pub seg : List ℕ
  pub file_id : ℕ
  pub t_us : ℕ

unfoldable pub realized : VerifyOutcome → List ℕ
realized ev = take ev.accepted_len ev.draft_ids ++ ev.bonus_id ∷ []

module _ (h : Blake2b) where
  unfoldable pub stable_u64 : List Str → ℕ
  stable_u64 parts = h.digest 8 (join parts)

  -- `session_id()`, `repo_id()` and `global_id()`, chosen as in `id_of`.
  unfoldable pub id_of : Scope → ScopeKind → ℕ
  unfolding stable_u64 id_parts
  id_of s kind = stable_u64 (id_parts s kind)

  -- `[sid for _, sid in scope.scope_stack()]`
  unfoldable pub scope_ids : Scope → List ℕ
  unfolding id_of
  scope_ids s = id_of s ScopeKind.session ∷ id_of s ScopeKind.repo ∷ id_of s ScopeKind.global ∷ []

  -- `InvalidationEvent.file_id`: 32 bits, and never 0.
  unfoldable pub file_id : Str → ℕ
  unfolding stable_u64
  file_id path =
      let fid = stable_u64 (word_file ∷ path ∷ []) % 2 ^ 32 in if fid == 0 then 1 else fid

-- `parent` is `none` where the source has -1.
pub record DraftNode : Type 0 where
  pub tok : ℕ
  pub parent : Option ℕ

abbrev pub DraftTree : Type 0
DraftTree = List DraftNode

-- `parent < len(self.nodes)`
abbrev pub parent_ok : Option ℕ → ℕ → Bool
parent_ok none n = Bool.true
parent_ok (some p) n = ltb p n

-- `add` returns the tree and the new node's index; `none` is the failed assertion.
unfoldable pub add : DraftTree → ℕ → Option ℕ → Option (DraftTree × ℕ)
add nodes tok parent =
    if parent_ok parent (length nodes)
    then some (nodes ++ record { tok = tok; parent = parent } ∷ [], length nodes)
    else none

-- `parent = -1`, then `parent = tree.add(tok, parent)` for each token.
unfoldable pub add_chain : DraftTree → Option ℕ → List ℕ → Option DraftTree
add_chain nodes parent [] = some nodes
add_chain nodes parent (t ∷ toks) = elim (add nodes t parent) [
  | none ↦ none
  | some (nodes', i) ↦ add_chain nodes' (some i) toks
]

abbrev pub same_parent : Option ℕ → Option ℕ → Bool
same_parent none none = Bool.true
same_parent (some p) (some q) = p == q
same_parent _ _ = Bool.false

-- The loop of `chain`, from the node with index i.
unfoldable pub chain_from : ℕ → Option ℕ → DraftTree → List ℕ
chain_from i parent [] = []
chain_from i parent (n ∷ nodes) =
    let here = chain_from (suc i) (some i) nodes in
    let past = chain_from (suc i) parent nodes in
    if same_parent n.parent parent then n.tok ∷ here else past

unfoldable pub chain : DraftTree → List ℕ
unfolding chain_from
chain nodes = chain_from 0 none nodes
