-- ===== src/Tests/Keys.antt =====
-- The theorems on signatures, ids, trees and the arena at concrete inputs.
use speculation_ledger.Prelude.{
  take, ◌⊎◌, ℕ, suc, ◌<◌, ◌^◌, ◌≡◌, ◌≢◌, refl, inl, min, none, some, List, [], ◌∷◌, arith, length,
  map, last, range, get_elem?,
}
use speculation_ledger.Signature.{
  u64, min_order, max_order, fmix64, sig_of, fold_key, lookup_key, apply_key, new_stack, push_many,
  stack_list,
}
use speculation_ledger.Signature.Mix.{unmix, unmix-fmix64}
use speculation_ledger.Signature.Keys.{inline_keys-eq-fold_key}
use speculation_ledger.Signature.Rolling.{stack_list-push_many}
use speculation_ledger.Types.{ScopeKind, separator, id_of, id_parts, join, DraftTree, add}
use speculation_ledger.Types.Ids.{id_of_apart, repo_id_merges}
use speculation_ledger.Replay.{oracle_accept}
use speculation_ledger.Replay.Prefix.{oracle_accept-take}
use speculation_ledger.Tests.Toys.{toy_hash, toy_scope, other_scope}

unmix-fmix64_example : (unmix (fmix64 12345) ≡ u64 12345) × (fmix64 12345 < 2 ^ 64)
unmix-fmix64_example = unmix-fmix64 12345

inline_keys-eq-fold_key_example :
    (lookup_key 99 3 1234 2 ≡ fold_key 99 3 1234 2) × (apply_key 99 3 1234 2 ≡ fold_key 99 3 1234 2)
inline_keys-eq-fold_key_example = inline_keys-eq-fold_key 99 3 1234 2 (omega arith) (omega arith)

abbrev four_tokens : List ℕ
four_tokens = 10 ∷ 20 ∷ 30 ∷ 40 ∷ []

stack_list-push_many_example :
    stack_list (push_many new_stack four_tokens)
    ≡ map
        (λ o. sig_of (last o four_tokens))
        (range min_order (suc (min (length four_tokens) max_order)))
stack_list-push_many_example = stack_list-push_many four_tokens

tiers_differ : ScopeKind.session ≢ ScopeKind.repo
tiers_differ e = cc

digests_differ :
    toy_hash.digest 8 (join (id_parts toy_scope ScopeKind.repo))
    ≢ toy_hash.digest 8 (join (id_parts other_scope ScopeKind.repo))
unfolding join id_parts
digests_differ e = absurd (ground (arith, e))

tenants_differ : toy_scope.tenant ≢ other_scope.tenant
tenants_differ e = absurd (ground (arith, e))

id_of_apart_example :
    id_of toy_hash toy_scope ScopeKind.repo ≢ id_of toy_hash other_scope ScopeKind.repo
id_of_apart_example =
    id_of_apart toy_hash toy_scope other_scope ScopeKind.repo ScopeKind.repo
      ((omega arith, tt), (omega arith, tt), (omega arith, tt))
      ((omega arith, tt), (omega arith, tt), (omega arith, tt)) (λ e. absurd (digests_differ e))
      (inl tenants_differ)

repo_id_merges_example :
    ((b'a' ∷ separator ∷ b'b' ∷ []) ≢ (b'a' ∷ []))
    × (id_of toy_hash
          (record toy_scope { tenant = b'a' ∷ separator ∷ b'b' ∷ []; repo = b'c' ∷ [] })
          ScopeKind.repo
        ≡ id_of toy_hash
            (record toy_scope { tenant = b'a' ∷ []; repo = b'b' ∷ separator ∷ b'c' ∷ [] })
            ScopeKind.repo)
repo_id_merges_example = repo_id_merges toy_hash (b'a' ∷ []) (b'b' ∷ []) (b'c' ∷ []) (b's' ∷ []) []

abbrev one_node : DraftTree
one_node = record { tok = 4; parent = none } ∷ []

abbrev two_nodes : DraftTree
two_nodes = record { tok = 4; parent = none } ∷ record { tok = 5; parent = some 0 } ∷ []

add_one : add one_node 5 (some 0) ≡ some (two_nodes, 1)
unfolding add
add_one = refl

abbrev came : List ℕ
came = 4 ∷ 6 ∷ []

oracle_accept-take_example :
    let (n, path, rejected) = oracle_accept two_nodes (9 ∷ came) 1 in
    (path ≡ take n came) × ((get_elem? came n ≡ none) ⊎ (rejected ≢ get_elem? came n))
oracle_accept-take_example = oracle_accept-take two_nodes (9 ∷ came) 1

-- The first token is accepted, and 5 was drafted where 6 came.
accept_one : oracle_accept two_nodes (9 ∷ 4 ∷ 6 ∷ []) 1 ≡ (1, 4 ∷ [], some 5)
unfolding oracle_accept
accept_one = refl
