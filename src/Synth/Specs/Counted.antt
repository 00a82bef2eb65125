-- ===== src/Synth/Specs/Counted.antt =====
-- The turns of sim/synth.py are as many as the parameters say, and each is one of a session of its repo.
use speculation_ledger.Prelude.{
  ℕ, suc, ◌*◌, ◌≡◌, refl, ap, ◌∙◌, inl, inr, Bool-cases, List, [], ◌∷◌, arith, length,
  length-append, length-map, length-range, map, range, All, All-append,
}
use native.Mathlib.Nat.{suc-mul}
use speculation_ledger.Floats.{Floats}
use speculation_ledger.Types.{Str}
use speculation_ledger.Synth.{SynthParams}
use speculation_ledger.Synth.Specs.{
  TurnSpec, repo_of, tenant_of, session_of, session_specs, repo_specs, tenant_specs, turn_specs,
  insert_spec, sort_specs, spec_lt,
}
use speculation_ledger.Synth.Turns.{concat}

-- The session is one of the repo.
abbrev pub IsSpec : TurnSpec → Type 0
IsSpec s = (si : ℕ) × (s.session ≡ session_of s.repo si)

All-insert_spec :
    (Q : TurnSpec → Type 0) (s : TurnSpec) (ss : List TurnSpec)
    → Q s
    → All Q ss
    → All Q (insert_spec s ss)
unfolding insert_spec
All-insert_spec Q s [] q a = (q, tt)
All-insert_spec Q s (c ∷ cs) q a = elim (Bool-cases (spec_lt c s)) [
  | inl first ↦ rw first (a.0, All-insert_spec Q s cs q a.1)
  | inr later ↦ rw later (q, a)
]

All-sort_specs : (Q : TurnSpec → Type 0) (ss : List TurnSpec) → All Q ss → All Q (sort_specs ss)
unfolding sort_specs
All-sort_specs Q [] a = tt
All-sort_specs Q (s ∷ ss) a = All-insert_spec Q s (sort_specs ss) a.0 (All-sort_specs Q ss a.1)

length-insert_spec :
    (s : TurnSpec) (ss : List TurnSpec) → length (insert_spec s ss) ≡ suc (length ss)
unfolding insert_spec
length-insert_spec s [] = refl
length-insert_spec s (c ∷ cs) = elim (Bool-cases (spec_lt c s)) [
  | inl first ↦ rw first (ap suc (length-insert_spec s cs))
  | inr later ↦ rw later refl
]

length-sort_specs : (ss : List TurnSpec) → length (sort_specs ss) ≡ length ss
unfolding sort_specs
length-sort_specs [] = refl
length-sort_specs (s ∷ ss) = length-insert_spec s (sort_specs ss) ∙ ap suc (length-sort_specs ss)

-- A loop that adds as many turns each time, all of them of sessions of their repos.
abbrev pub Loop : ℕ → List TurnSpec → Type 0
Loop n ss = All IsSpec ss × (length ss ≡ n)

concat-Loop :
    (f : ℕ → List TurnSpec) (n : ℕ) (is : List ℕ)
    → ((i : ℕ) → Loop n (f i))
    → Loop (length is * n) (concat (map f is))
concat-Loop f n [] each = (tt, omega arith)
concat-Loop f n (i ∷ is) each =
    let (a, size) = each i in
    let (rest, sizes) = concat-Loop f n is each in
    (
      All-append IsSpec (f i) (concat (map f is)) a rest,
      omega (arith, length-append (f i) (concat (map f is)), size, sizes, suc-mul (length is) n),
    )

count-Loop :
    (f : ℕ → List TurnSpec) (m n : ℕ)
    → ((i : ℕ) → Loop n (f i))
    → Loop (m * n) (concat (map f (range 0 m)))
count-Loop f m n each =
    let (a, size) = concat-Loop f n (range 0 m) each in (a, size ∙ ap (λ k. k * n) (length-range m))

session_specs-Loop :
    (turns : ℕ) (tenant repo : Str) (si : ℕ) → Loop turns (session_specs turns tenant repo si)
unfolding session_specs
session_specs-Loop turns tenant repo si =
    (each (range 0 turns), length-map one (range 0 turns) ∙ length-range turns)
  where
    one : ℕ → TurnSpec
    one tu = record { tenant = tenant; repo = repo; session = session_of repo si; turn = tu }

    each : (is : List ℕ) → All IsSpec (map one is)
    each [] = tt
    each (i ∷ is) = ((si, refl), each is)

-- The turns in their order: of each session of each repo of each tenant, as many as asked for.
pub turn_specs-Loop :
    {fl : Floats} (p : SynthParams fl)
    → Loop
        (p.tenants * (p.repos * (p.sessions_per_repo * p.turns_per_session)))
        (sort_specs (turn_specs p))
unfolding tenant_specs repo_specs
turn_specs-Loop p =
    let sessions = λ (tenant : Str) (ri : ℕ).
      count-Loop (session_specs p.turns_per_session tenant (repo_of tenant ri)) p.sessions_per_repo
        p.turns_per_session (session_specs-Loop p.turns_per_session tenant (repo_of tenant ri)) in
    let repos = λ (ti : ℕ).
      count-Loop (repo_specs p.sessions_per_repo p.turns_per_session (tenant_of ti)) p.repos _
        (sessions (tenant_of ti)) in
    let (a, size) =
      count-Loop (tenant_specs p.repos p.sessions_per_repo p.turns_per_session) p.tenants _ repos in
    (All-sort_specs IsSpec (turn_specs p) a, length-sort_specs (turn_specs p) ∙ size)
