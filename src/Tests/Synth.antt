-- ===== src/Tests/Synth.antt =====
-- The generator of traces at small parameters, with numbers that count on in place of random ones.
use native.Mathlib.Nat.{mod-lt}
use speculation_ledger.Prelude.{
  ℕ, suc, ◌+◌, ◌-◌, ◌%◌, ◌≡◌, ◌<◌, refl, inl, inr, Bool, Bool-cases, true, List, [], ◌∷◌, arith,
  ◌==◌, if◌then◌else◌, All, length,
}
use speculation_ledger.Prelude.Texts.{decimal, digits}
use speculation_ledger.Random.{Random, RandomLaws, Yields}
use speculation_ledger.Result.{ok}
use speculation_ledger.Types.{Str}
use speculation_ledger.Convert.{TraceRequest}
use speculation_ledger.Convert.Read.{read_traces}
use speculation_ledger.Convert.Read.Reading.{IsAligned, InTime, tokens_in}
use speculation_ledger.Proposers.Recycling.{Recycling, new_recycling, recycling_proposer}
use speculation_ledger.Proposers.Recycling.Rows.{IsFull}
use speculation_ledger.Replay.Requests.{RequestMetrics}
use speculation_ledger.Replay.Rounds.{run_replay}
use speculation_ledger.Synth.{SynthParams, Req, empty_req}
use speculation_ledger.Synth.Turns.{Files}
use speculation_ledger.Synth.Turns.Edit.{gen_tool_edit}
use speculation_ledger.Synth.Turns.Even.{IsUsable, IsEven}
use speculation_ledger.Synth.Turns.Edits.{AreFiles, Has, gen_tool_edit-IsEven}
use speculation_ledger.Synth.Generate.Records.{IsRecord}
use speculation_ledger.Synth.Generate.Loop.{Written, generate}
use speculation_ledger.Synth.Generate.Readable.{generate-IsRecord, generate-read_traces}
use speculation_ledger.Synth.Generate.Replayed.{tokens_of, generate-run_replay}
use speculation_ledger.Tests.Toys.{toy_hash, toy_floats, toy_casts}
use speculation_ledger.Tests.Replays.{small_wiring, lawful, new_IsFull}

-- The state is a count, and the fractions are 0 and 1/2 in turn.
abbrev toy_random : Random toy_floats
toy_random = record {
  Rng = ℕ;
  seeded = λ n. n;
  randrange = λ n g. (g % n, suc g);
  randint = λ a b g. (a + g % (b - a + 1), suc g);
  random = λ g. (if g % 2 == 0 then 0 else 50, suc g);
  gauss = λ mu sigma g. (mu, suc g);
  uniform = λ a b g. (b, suc g);
}

abbrev toy_laws : RandomLaws toy_random toy_casts
toy_laws = record {
  randrange-lt = λ n g some_there. mod-lt g some_there;
  randint-le = λ a b g le.
      let one_there : 0 < b - a + 1 = omega arith in
      let small = mod-lt g one_there in (omega arith, omega (arith, small, le));
  square-lt = λ n g some_there small. elim (Bool-cases (g % 2 == 0)) [
    | inl even ↦ rw even (omega (arith, some_there))
    | inr odd ↦ rw odd (omega (arith, some_there))
  ];
}

abbrev toy_synth : SynthParams toy_floats
toy_synth = record {
  seed = 1;
  vocab = 40;
  tenants = 1;
  repos = 2;
  sessions_per_repo = 1;
  turns_per_session = 2;
  files_per_repo = 2;
  file_lines = 2;
  line_len = 2;
  think_sents = (1, 2);
  sent_len = (1, 2);
  think_novelty = 20;
  think_templates = 2;
  file_locality = 60;
  edit_prob = 55;
  edit_lines = (1, 2);
  mutate_toks = (1, 2);
  consistent_mut = 70;
  k_top = 2;
}

abbrev usable : IsUsable toy_synth
usable = record {
  vocab = omega arith;
  files = omega arith;
  templates = omega arith;
  sents = omega arith;
  sent_min = omega arith;
  sent = omega arith;
  edit = omega arith;
  mutate = omega arith;
  line = omega arith;
  lines = omega arith;
}

-- `str(407)`
decimal_test : decimal 407 ≡ b'4' ∷ b'0' ∷ b'7' ∷ []
unfolding decimal digits
decimal_test = refl

generate-IsRecord_example :
    (out : Written) × (generate toy_floats toy_casts toy_random toy_hash toy_synth [] ≡ ok out)
    × All IsRecord out.records
    × (out.n_records ≡ 4)
    × (length out.records ≡ 4)
generate-IsRecord_example =
    generate-IsRecord toy_floats toy_casts toy_random toy_laws toy_hash toy_synth usable []

generate-read_traces_example :
    (out : Written) × (reqs : List TraceRequest) × (generate toy_floats toy_casts toy_random
        toy_hash toy_synth []
      ≡ ok out)
    × ((strict : Bool) → read_traces strict out.records ≡ ok reqs)
    × All IsAligned reqs
    × InTime reqs
    × (length reqs ≡ 4)
    × (tokens_in reqs ≡ out.total_tokens)
generate-read_traces_example =
    generate-read_traces toy_floats toy_casts toy_random toy_laws toy_hash toy_synth usable []

generate-run_replay_example :
    (out : Written) × (reqs : List TraceRequest) × (rms : List RequestMetrics) × (st' : Recycling)
    × (generate toy_floats toy_casts toy_random toy_hash toy_synth [] ≡ ok out)
    × (read_traces true out.records ≡ ok reqs)
    × (run_replay toy_hash (recycling_proposer small_wiring) 8 reqs new_recycling ≡ ok (rms, st'))
    × IsFull st'
    × (tokens_of rms ≡ out.total_tokens)
generate-run_replay_example =
    generate-run_replay toy_floats toy_casts toy_random toy_laws toy_hash toy_synth usable []
      (recycling_proposer small_wiring) IsFull lawful 8 new_recycling new_IsFull

-- A repo with one file.
abbrev toy_path : Str
toy_path = b'f' ∷ []

abbrev toy_files : Files
toy_files = (toy_path, (20 ∷ 21 ∷ []) ∷ (22 ∷ []) ∷ []) ∷ []

gen_tool_edit-IsEven_example :
    Yields
      (λ (x : Req × Files).
        IsEven x.0 × AreFiles toy_synth x.1 × ((j : Str) → Has j toy_files → Has j x.1))
      (gen_tool_edit toy_floats toy_random toy_hash toy_synth toy_casts
        (b'r' ∷ [])
        toy_path
        (30 ∷ [])
        toy_files
        empty_req)
gen_tool_edit-IsEven_example =
    gen_tool_edit-IsEven toy_floats toy_casts toy_random toy_laws toy_hash toy_synth usable
      (b'r' ∷ []) toy_path (30 ∷ []) toy_files empty_req (_, refl)
      (((omega arith, (omega arith, tt)), refl), tt)
      (record { length_seg = refl; length_alts = refl; segs = tt; events = tt })
