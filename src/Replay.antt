-- ===== src/Replay.antt =====
-- `oracle_accept` of sim/replay.py: the walk down a draft tree along the tokens that really came.
-- The tree is one that `add` built, so that every parent has a place in the table of children.
pub mod Prefix
pub mod Requests
pub mod Rounds
pub mod Totals
use speculation_ledger.Prelude.{
  ℕ, zero, suc, Option, none, some, List, [], ◌∷◌, ◌==◌, if◌then◌else◌, length, drop,
}
use speculation_ledger.Types.{DraftNode, DraftTree}

-- `n.parent + 1`
abbrev pub slot_of : Option ℕ → ℕ
slot_of none = 0
slot_of (some i) = suc i

-- `children[slot]` as pairs of an index and its token, where the first node has index i.
unfoldable pub kids_from : ℕ → DraftTree → ℕ → List (ℕ × ℕ)
kids_from i [] slot = []
kids_from i (n ∷ nodes) slot =
    let rest = kids_from (suc i) nodes slot in
    if slot_of n.parent == slot then (i, n.tok) ∷ rest else rest

-- The first child with the token.
unfoldable pub first_hit : List (ℕ × ℕ) → ℕ → Option (ℕ × ℕ)
first_hit [] t = none
first_hit (k ∷ kids) t = let rest = first_hit kids t in if k.1 == t then some k else rest

-- The draft token that a greedy verifier has compared at the place where the walk stops.
abbrev pub first_tok : List (ℕ × ℕ) → Option ℕ
first_tok [] = none
first_tok (k ∷ kids) = some k.1

-- The loop, from the children of `slot` and the tokens that are left of the truth. A round that goes
-- on takes one of these.
unfoldable pub walk : DraftTree → ℕ → List ℕ → List ℕ × Option ℕ
unfolding kids_from first_hit
walk nodes slot [] = ([], first_tok (kids_from 0 nodes slot))
walk nodes slot (t ∷ truth) = elim (first_hit (kids_from 0 nodes slot) t) [
  | none ↦ ([], first_tok (kids_from 0 nodes slot))
  | some k ↦ let (path, rejected) = walk nodes (suc k.0) truth in (k.1 ∷ path, rejected)
]

unfoldable pub oracle_accept : DraftTree → List ℕ → ℕ → ℕ × List ℕ × Option ℕ
unfolding walk
oracle_accept nodes truth p =
    let (path, rejected) = walk nodes 0 (drop p truth) in (length path, path, rejected)
