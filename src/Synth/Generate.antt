-- ===== src/Synth/Generate.antt =====
-- `generate` of sim/synth.py, to the list of the records that it writes: the state of the repos, the
-- turns of the sessions in their order, and the record of a turn. The texts of the hashes that it only
-- passes on, of the tokenizer and of the tokens, are not made: the first is a parameter.
pub mod Records
pub mod Turn
pub mod Loop
pub mod Worlds
pub mod Valid
pub mod Readable
pub mod Replayed
use speculation_ledger.Prelude.{
  ℕ, zero, suc, ◌+◌, ◌&&◌, ◌||◌, Bool, Option, none, some, List, [], ◌∷◌, ◌++◌, ltb, ◌==◌,
  if◌then◌else◌, length, map, range,
}
use speculation_ledger.Prelude.Int.{pos}
use speculation_ledger.Prelude.Texts.{str_eq, decimal, find, store}
use speculation_ledger.Floats.{Floats, Casts}
use speculation_ledger.Random.{
  Draw, Random, pure, ◌>>=◌, run_with, below, fraction, pick, at, repeated,
}
use speculation_ledger.Hash.{Blake2b}
use speculation_ledger.Result.{Result, ok}
use speculation_ledger.Types.{Str, stable_u64}
use speculation_ledger.Convert.{RawScope, RawStep, RawEvent, RawRecord, schema_version}
use speculation_ledger.Convert.Read.{str_lt}
use speculation_ledger.Synth.{
  SynthParams, Req, empty_req, tok, topic_bank, code_word, think_templates,
}
use speculation_ledger.Synth.Specs.{TurnSpec}
use speculation_ledger.Synth.Topk.{emit_topk}
use speculation_ledger.Synth.Turns.{Files, concat, gen_think, gen_tool_read, gen_text}
use speculation_ledger.Synth.Turns.Edit.{gen_tool_edit}

abbrev text_repo_init : Str
text_repo_init = b'r' ∷ b'e' ∷ b'p' ∷ b'o' ∷ b'-' ∷ b'i' ∷ b'n' ∷ b'i' ∷ b't' ∷ []

abbrev text_src : Str
text_src = b's' ∷ b'r' ∷ b'c' ∷ b'/' ∷ []

abbrev text_mod : Str
text_mod = b'_' ∷ b'm' ∷ b'o' ∷ b'd' ∷ []

abbrev text_py : Str
text_py = b'.' ∷ b'p' ∷ b'y' ∷ []

abbrev text_synth : Str
text_synth = b's' ∷ b'y' ∷ b'n' ∷ b't' ∷ b'h' ∷ b'-' ∷ []

abbrev text_model : Str
text_model =
    b's' ∷ b'y' ∷ b'n' ∷ b't' ∷ b'h' ∷ b'e' ∷ b't' ∷ b'i' ∷ b'c' ∷ b'-' ∷ b'o' ∷ b'r' ∷ b'a' ∷ b'c'
    ∷ b'l' ∷ b'e' ∷ []

-- `sorted(state.files)`
unfoldable pub insert_path : Str → List Str → List Str
unfolding str_lt
insert_path s [] = s ∷ []
insert_path s (c ∷ cs) = let rest = insert_path s cs in if str_lt c s then c ∷ rest else s ∷ c ∷ cs

unfoldable pub sort_paths : List Str → List Str
unfolding insert_path
sort_paths [] = []
sort_paths (s ∷ ss) = insert_path s (sort_paths ss)

unfoldable pub path_of : Str → ℕ → Str
path_of repo fi = text_src ++ (repo ++ (text_mod ++ (decimal fi ++ text_py)))

-- The step of a record for one token.
abbrev pub step_of : ℕ → ℕ → List ℕ × List ℕ → ℕ → RawStep
step_of i t row seg = record {
  pos = some i;
  proposed = some [];
  accepted_len = some (pos 0);
  bonus = some t;
  topk_ids = some (row.0 ∷ []);
  topk_logp_q8 = some (map pos row.1 ∷ []);
  seg = some (pos seg ∷ []);
}

-- `if r.events: rec["events"] = r.events`
abbrev pub listed : List RawEvent → Option (List RawEvent)
listed [] = none
listed (ev ∷ evs) = some (ev ∷ evs)

abbrev pub record_of : Str → ℕ → TurnSpec → Req → List RawStep → RawRecord
record_of tokenizer_hash ts s r steps = record {
  schema_version = some schema_version;
  request_id = some (s.session ++ b'/' ∷ b't' ∷ decimal s.turn);
  ts = some ts;
  scope = some (record {
    tenant = some s.tenant;
    repo = some s.repo;
    session = some s.session;
    instance_id = some (text_synth ++ s.session);
  });
  model = some text_model;
  tokenizer_hash = some tokenizer_hash;
  steps = some steps;
  events = listed r.events;
}

-- What a turn makes: the request with its steps, the files that it leaves and the path it worked on.
pub record Turned : Type 0 where
  pub req : Req
  pub steps : List RawStep
  pub files : Files
  pub path : Str

module _ (fl : Floats) (casts : Casts fl) (rnd : Random fl) (h : Blake2b) (p : SynthParams fl) where
  -- `_RepoState.__init__`
  unfoldable pub init_lines : Str → Draw fl rnd (List (List ℕ))
  unfolding code_word
  init_lines repo =
      repeated fl rnd p.file_lines
        (repeated fl rnd p.line_len (below fl rnd 400 >>= (λ i. pure (code_word h p repo i))))

  unfoldable pub init_files : Str → ℕ → ℕ → Files → Draw fl rnd Files
  unfolding init_lines path_of
  init_files repo zero fi files = pure files
  init_files repo (suc n) fi files = do
    lines ← init_lines repo
    init_files repo n (suc fi) (store (path_of repo fi) lines files)

  unfoldable pub repo_state : Str → Str → Result Files
  unfolding init_files stable_u64
  repo_state tenant repo =
      run_with (init_files repo p.files_per_repo 0 [])
        (rnd.seeded (stable_u64 h (text_repo_init ∷ tenant ∷ repo ∷ [])))

  -- The path of the turn: the one before it, now and then, or any.
  unfoldable pub choose_path : Option Str → List Str → Draw fl rnd Str
  choose_path none paths = pick fl rnd paths
  choose_path (some prev) paths = do
    x ← fraction fl rnd
    if fl.lt x p.file_locality then pure prev else pick fl rnd paths

  -- The loop over the tokens of the request.
  unfoldable pub emit_steps : Req → ℕ → List ℕ → Draw fl rnd (List RawStep)
  unfolding emit_topk
  emit_steps r i [] = pure []
  emit_steps r i (t ∷ ts) = do
    alts ← at fl rnd r.alts i
    row ← emit_topk fl rnd casts t alts p.vocab p.k_top
    seg ← at fl rnd r.seg i
    rest ← emit_steps r (suc i) ts
    pure (step_of i t row seg ∷ rest)

  -- What a turn draws, from the files of its repo and the path of the turn before it.
  unfoldable pub turn_draws : Str → List (List (Option ℕ)) → Files → Option Str → Draw fl rnd Turned
  unfolding topic_bank tok gen_think choose_path gen_tool_edit gen_tool_read gen_text emit_steps
      sort_paths
  turn_draws repo templates files prev = do
    let bank = topic_bank h p repo
    r₁ ← gen_think fl rnd h p bank templates empty_req
    let paths = sort_paths (map (λ f. f.0) files)
    path ← choose_path prev paths
    let siblings = map (tok h p) paths
    x ← fraction fl rnd
    done ←
        if fl.lt x p.edit_prob
        then gen_tool_edit fl rnd h p casts repo path siblings files r₁
        else (gen_tool_read fl rnd h p path siblings r₁ >>= (λ r. pure (r, files)))
    r ← gen_text fl rnd h p bank done.0
    steps ← emit_steps r 0 r.tokens
    pure (record { req = r; steps = steps; files = done.1; path = path })
