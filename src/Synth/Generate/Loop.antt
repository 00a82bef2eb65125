-- ===== src/Synth/Generate/Loop.antt =====
-- `generate` of sim/synth.py: the loop over the turns, which keeps the files of each repo and the path
-- that each session worked on.
use speculation_ledger.Prelude.{ℕ, suc, ◌+◌, none, some, List, [], ◌∷◌, length}
use speculation_ledger.Prelude.Texts.{decimal, find, store}
use speculation_ledger.Floats.{Floats, Casts}
use speculation_ledger.Random.{Random, run_with}
use speculation_ledger.Hash.{Blake2b}
use speculation_ledger.Result.{Result, ok, ◌>>=◌}
use speculation_ledger.Types.{Str, stable_u64}
use speculation_ledger.Convert.{RawRecord}
use speculation_ledger.Synth.{SynthParams, think_templates}
use speculation_ledger.Synth.Specs.{TurnSpec, turn_specs, sort_specs}
use speculation_ledger.Synth.Turns.{Files}
use speculation_ledger.Synth.Generate.{Turned, record_of, repo_state, turn_draws}

abbrev text_turn : Str
text_turn = b't' ∷ b'u' ∷ b'r' ∷ b'n' ∷ []

-- `states` and `last_path`, and what was written.
pub record World : Type 0 where
  pub states : List (Str × Files)
  pub last_path : List (Str × Str)

pub record Written : Type 0 where
  pub records : List RawRecord
  pub n_records : ℕ
  pub total_tokens : ℕ

abbrev pub world_after : TurnSpec → Turned → World → World
world_after s t w = record {
  states = store s.repo t.files w.states;
  last_path = store s.session t.path w.last_path;
}

abbrev pub add_written : RawRecord → ℕ → Written → Written
add_written rec tokens out = record {
  records = rec ∷ out.records;
  n_records = suc out.n_records;
  total_tokens = tokens + out.total_tokens;
}

module _ (fl : Floats) (casts : Casts fl) (rnd : Random fl) (h : Blake2b) (p : SynthParams fl) where
  -- `states[repo]`, made where it is not there.
  unfoldable pub state_of : TurnSpec → World → Result Files
  unfolding repo_state
  state_of s w = elim (find s.repo w.states) [
    | none ↦ repo_state fl casts rnd h p s.tenant s.repo
    | some files ↦ ok files
  ]

  -- The numbers of a turn.
  unfoldable pub turn_rng : TurnSpec → rnd.Rng
  unfolding stable_u64
  turn_rng s =
      rnd.seeded (stable_u64 h (text_turn ∷ decimal p.seed ∷ s.session ∷ decimal s.turn ∷ []))

  -- A round of the loop over the turns, up to the writing of its record.
  unfoldable pub turn_of : TurnSpec → World → Result Turned
  unfolding state_of think_templates turn_draws turn_rng
  turn_of s w = state_of s w >>= (λ files. think_templates h p rnd s.repo >>= (λ templates.
      run_with (turn_draws fl casts rnd h p s.repo templates files (find s.session w.last_path))
        (turn_rng s)))

  -- The loop over the turns, from the one of time `ts` on.
  unfoldable pub write_turns : Str → ℕ → List TurnSpec → World → Result Written
  unfolding turn_of
  write_turns tokenizer_hash ts [] w = ok (record { records = []; n_records = 0; total_tokens = 0 })
  write_turns tokenizer_hash ts (s ∷ ss) w = turn_of s w >>= (λ t.
      write_turns tokenizer_hash (suc ts) ss (world_after s t w) >>= (λ out.
        ok (add_written (record_of tokenizer_hash ts s t.req t.steps) (length t.req.tokens) out)))

  unfoldable pub generate : Str → Result Written
  unfolding sort_specs write_turns
  generate tokenizer_hash =
      write_turns tokenizer_hash 0 (sort_specs (turn_specs p))
        (record { states = []; last_path = [] })
