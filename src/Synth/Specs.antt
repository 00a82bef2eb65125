-- ===== src/Synth/Specs.antt =====
-- `turn_specs` of `generate` in sim/synth.py: the turns of all sessions, and their order.
pub mod Counted
use speculation_ledger.Prelude.{
  ℕ, ◌&&◌, ◌||◌, Bool, List, [], ◌∷◌, ◌++◌, ltb, ◌==◌, if◌then◌else◌, map, range,
}
use speculation_ledger.Prelude.Texts.{str_eq, decimal}
use speculation_ledger.Floats.{Floats}
use speculation_ledger.Types.{Str}
use speculation_ledger.Convert.Read.{str_lt}
use speculation_ledger.Synth.{SynthParams}
use speculation_ledger.Synth.Turns.{concat}

abbrev text_tenant : Str
text_tenant = b't' ∷ b'e' ∷ b'n' ∷ b'a' ∷ b'n' ∷ b't' ∷ []

abbrev text_repo : Str
text_repo = b'/' ∷ b'r' ∷ b'e' ∷ b'p' ∷ b'o' ∷ []

-- One of `turn_specs`.
pub record TurnSpec : Type 0 where
  pub tenant : Str
  pub repo : Str
  pub session : Str
  pub turn : ℕ

abbrev pub tenant_of : ℕ → Str
tenant_of ti = text_tenant ++ decimal ti

abbrev pub repo_of : Str → ℕ → Str
repo_of tenant ri = tenant ++ (text_repo ++ decimal ri)

abbrev pub session_of : Str → ℕ → Str
session_of repo si = repo ++ b'/' ∷ b's' ∷ decimal si

-- The loops that fill `turn_specs`.
unfoldable pub session_specs : ℕ → Str → Str → ℕ → List TurnSpec
session_specs turns tenant repo si =
    map (λ tu. record { tenant = tenant; repo = repo; session = session_of repo si; turn = tu })
      (range 0 turns)

unfoldable pub repo_specs : ℕ → ℕ → Str → ℕ → List TurnSpec
unfolding session_specs
repo_specs sessions turns tenant ri =
    concat (map (session_specs turns tenant (repo_of tenant ri)) (range 0 sessions))

unfoldable pub tenant_specs : ℕ → ℕ → ℕ → ℕ → List TurnSpec
unfolding repo_specs
tenant_specs repos sessions turns ti =
    concat (map (repo_specs sessions turns (tenant_of ti)) (range 0 repos))

-- `<` on (turn, tenant, repo, session)
unfoldable pub spec_lt : TurnSpec → TurnSpec → Bool
unfolding str_lt
spec_lt a b =
    ltb a.turn b.turn
    || (a.turn == b.turn)
      && (str_lt a.tenant b.tenant
          || str_eq a.tenant b.tenant
            && (str_lt a.repo b.repo || str_eq a.repo b.repo && str_lt a.session b.session))

unfoldable pub insert_spec : TurnSpec → List TurnSpec → List TurnSpec
unfolding spec_lt
insert_spec s [] = s ∷ []
insert_spec s (c ∷ cs) = let rest = insert_spec s cs in if spec_lt c s then c ∷ rest else s ∷ c ∷ cs

-- `turn_specs.sort(...)`, which keeps the order of equals.
unfoldable pub sort_specs : List TurnSpec → List TurnSpec
unfolding insert_spec
sort_specs [] = []
sort_specs (s ∷ ss) = insert_spec s (sort_specs ss)

abbrev pub turn_specs : {fl : Floats} → SynthParams fl → List TurnSpec
turn_specs p =
    concat (map (tenant_specs p.repos p.sessions_per_repo p.turns_per_session) (range 0 p.tenants))
