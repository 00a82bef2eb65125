-- ===== src/Replay/Prefix.antt =====
-- What `oracle_accept` of sim/replay.py accepts is what really came, and its rejection is one.
use speculation_ledger.Prelude.{
  ℕ, suc, ◌≡◌, ◌≢◌, ◌⊎◌, refl, ap, inl, inr, none, some, List, [], ◌∷◌, arith, ◌==◌, Bool-cases,
  Option-cases, length, take, drop, get_elem?,
}
use speculation_ledger.Types.{DraftTree}
use speculation_ledger.Replay.{kids_from, first_hit, first_tok, walk, oracle_accept}

first_hit-tok : (kids : List (ℕ × ℕ)) (t : ℕ) {k : ℕ × ℕ} → first_hit kids t ≡ some k → k.1 ≡ t
unfolding first_hit
first_hit-tok [] t e = cc
first_hit-tok (x ∷ kids) t {k} e = elim (Bool-cases (x.1 == t)) [
  | inl hit ↦ let same : x ≡ k = cc in rw (← same) (ground (arith, hit))
  | inr miss ↦ first_hit-tok kids t (rw (miss, first_hit) at e)
]

first_hit-first_tok :
    (kids : List (ℕ × ℕ)) (t : ℕ) → first_hit kids t ≡ none → first_tok kids ≢ some t
unfolding first_hit
first_hit-first_tok [] t e = cc
first_hit-first_tok (k ∷ kids) t e = λ same. absurd (ground arith)

walk-take :
    (nodes : DraftTree) (slot : ℕ) (truth : List ℕ)
    → let (path, rejected) = walk nodes slot truth in
      (path ≡ take (length path) truth)
      × ((get_elem? truth (length path) ≡ none) ⊎ (rejected ≢ get_elem? truth (length path)))
unfolding walk
walk-take nodes slot [] = (refl, inl refl)
walk-take nodes slot (t ∷ truth) = elim (Option-cases (first_hit (kids_from 0 nodes slot) t)) [
  | inl lost ↦ rw (lost, walk) (refl, inr (first_hit-first_tok (kids_from 0 nodes slot) t lost))
  | inr (k, hit) ↦
      let (rest, stop) = walk-take nodes (suc k.0) truth in
      let tok = first_hit-tok (kids_from 0 nodes slot) t hit in
      rw (hit, walk) (rw tok (ap (◌∷◌ t) rest), stop)
]

-- For every tree, truth and position: the accepted tokens are the first ones of truth[p:], as many
-- as the returned length says; and where the truth goes on after them, the returned draft token is
-- not the one that came.
pub oracle_accept-take :
    (nodes : DraftTree) (truth : List ℕ) (p : ℕ)
    → let (n, path, rejected) = oracle_accept nodes truth p in
      (path ≡ take n (drop p truth))
      × ((get_elem? (drop p truth) n ≡ none) ⊎ (rejected ≢ get_elem? (drop p truth) n))
unfolding oracle_accept
oracle_accept-take nodes truth p = walk-take nodes 0 (drop p truth)
