-- ===== src/Types/Ids.antt =====
-- Scope ids: the parts can be read back from what is hashed, so ids of different tenants coincide
-- only where the hash collides, if no name holds the separator.
use mathlib.Core.List.{append_assoc}
use speculation_ledger.Prelude.{
  ℕ, ◌≤◌, ◌<◌, ◌^◌, ◌≡◌, ◌≢◌, refl, sym, ap, ◌∙◌, List, [], ◌∷◌, ◌++◌, arith, ◌==◌, if◌then◌else◌,
  All, length, length-append, ◌⊎◌, inl, inr,
}
use speculation_ledger.Hash.{Blake2b}
use speculation_ledger.Types.{
  Str, Scope, ScopeKind, separator, join, id_parts, id_of, file_id, word_repo,
}

-- The first part of a joined text, and the rest behind its separator.
abbrev push_first : ℕ → List Str → List Str
push_first c [] = (c ∷ []) ∷ []
push_first c (p ∷ ps) = (c ∷ p) ∷ ps

split : Str → List Str
split [] = [] ∷ []
split (c ∷ s) = let rest = split s in if c == separator then [] ∷ rest else push_first c rest

abbrev pub IsPlain : Str → Type 0
IsPlain = All (λ c. c ≢ separator)

split-plain : (p : Str) → IsPlain p → split p ≡ p ∷ []
unfolding split
split-plain [] h = refl
split-plain (c ∷ p) h = ground (arith, split-plain p h.1, h.0)

split-append : (p s : Str) → IsPlain p → split (p ++ separator ∷ s) ≡ p ∷ split s
unfolding split
split-append [] s h = refl
split-append (c ∷ p) s h = ground (arith, split-append p s h.1, h.0)

split-join : (p : Str) (ps : List Str) → All IsPlain (p ∷ ps) → split (join (p ∷ ps)) ≡ p ∷ ps
unfolding join
split-join p [] h = split-plain p h.0
split-join p (q ∷ ps) h = split-append p (join (q ∷ ps)) h.0 ∙ ap (◌∷◌ p) (split-join q ps h.1)

abbrev pub IsPlainScope : Scope → Type 0
IsPlainScope s = IsPlain s.tenant × IsPlain s.repo × IsPlain s.session

id_parts-IsPlain : (s : Scope) (k : ScopeKind) → IsPlainScope s → All IsPlain (id_parts s k)
unfolding id_parts
id_parts-IsPlain s ScopeKind.session h = (omega arith, (h.0, (h.1, (h.2, tt))))
id_parts-IsPlain s ScopeKind.repo h = (omega arith, (h.0, (h.1, tt)))
id_parts-IsPlain s ScopeKind.global h = (omega arith, (h.0, tt))

split-id : (s : Scope) (k : ScopeKind) → IsPlainScope s → split (join (id_parts s k)) ≡ id_parts s k
unfolding id_parts
split-id s ScopeKind.session h = split-join _ _ (id_parts-IsPlain s ScopeKind.session h)
split-id s ScopeKind.repo h = split-join _ _ (id_parts-IsPlain s ScopeKind.repo h)
split-id s ScopeKind.global h = split-join _ _ (id_parts-IsPlain s ScopeKind.global h)

abbrev part : ℕ → List Str → Str
part i [] = []
part i (p ∷ []) = p
part i (p ∷ q ∷ ps) = if i == 0 then p else q

id_parts_tenant : (s : Scope) (k : ScopeKind) → part 1 (id_parts s k) ≡ s.tenant
unfolding id_parts
id_parts_tenant s ScopeKind.session = refl
id_parts_tenant s ScopeKind.repo = refl
id_parts_tenant s ScopeKind.global = refl

id_parts-kind : (s s' : Scope) (k k' : ScopeKind) → k ≢ k' → id_parts s k ≢ id_parts s' k'
unfolding id_parts
id_parts-kind s s' ScopeKind.session ScopeKind.session h e = h refl
id_parts-kind s s' ScopeKind.repo ScopeKind.repo h e = h refl
id_parts-kind s s' ScopeKind.global ScopeKind.global h e = h refl
id_parts-kind s s' ScopeKind.session ScopeKind.repo h e = cc
id_parts-kind s s' ScopeKind.session ScopeKind.global h e = cc
id_parts-kind s s' ScopeKind.repo ScopeKind.session h e = cc
id_parts-kind s s' ScopeKind.repo ScopeKind.global h e = cc
id_parts-kind s s' ScopeKind.global ScopeKind.session h e = cc
id_parts-kind s s' ScopeKind.global ScopeKind.repo h e = cc

module _ (h : Blake2b) where
  -- Let no name of two scopes hold the separator U+001F, and let the hash not map the two texts that are
  -- hashed to one digest, unless they are the same text. If the tenants differ, or the tiers do, then the
  -- id of the one scope at its tier is not the id of the other at its tier.
  pub id_of_apart :
      (s s' : Scope) (k k' : ScopeKind)
      → IsPlainScope s
      → IsPlainScope s'
      → (h.digest 8 (join (id_parts s k)) ≡ h.digest 8 (join (id_parts s' k'))
          → join (id_parts s k) ≡ join (id_parts s' k'))
      → (s.tenant ≢ s'.tenant) ⊎ (k ≢ k')
      → id_of h s k ≢ id_of h s' k'
  unfolding id_of
  id_of_apart s s' k k' p p' injective differ same =
      parts_apart (sym (split-id s k p) ∙ ap split (injective same) ∙ split-id s' k' p')
    where
      parts_apart : id_parts s k ≢ id_parts s' k'
      parts_apart e = elim differ [
        | inl t ↦ t (sym (id_parts_tenant s k) ∙ ap (part 1) e ∙ id_parts_tenant s' k')
        | inr d ↦ id_parts-kind s s' k k' d e
      ]

  -- A separator inside a name moves the border between tenant and repo: these two scopes have
  -- different tenants and one repo id, for every hash.
  pub repo_id_merges :
      (a b c session instance_id : Str)
      → let s : Scope = record {
        tenant = a ++ separator ∷ b;
        repo = c;
        session = session;
        instance_id = instance_id;
      } in
        let s' : Scope = record {
          tenant = a;
          repo = b ++ separator ∷ c;
          session = session;
          instance_id = instance_id;
        } in
        ((a ++ separator ∷ b) ≢ a) × (id_of h s ScopeKind.repo ≡ id_of h s' ScopeKind.repo)
  unfolding id_of join
  repo_id_merges a b c session instance_id = (
    λ e. absurd (omega (arith, ap length e, length-append a (separator ∷ b))),
    ap (λ (t : Str). h.digest 8 (word_repo ++ separator ∷ t))
        (append_assoc a (separator ∷ b) (separator ∷ c)),
  )

-- The epoch domain of a file is a 32-bit number and is never 0, which stands for no domain.
pub file_id_bounds : (h : Blake2b) (path : Str) → (1 ≤ file_id h path) × (file_id h path < 2 ^ 32)
unfolding file_id
file_id_bounds h path = ground arith
