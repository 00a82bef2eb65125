-- ===== src/Synth.antt =====
-- sim/synth.py: the parameters and the vocabulary of synthetic traces, and the request that is built up.
-- A vocab is taken to be above 16: a smaller one divides by zero or makes ids of no token.
pub mod Topk
pub mod Turns
pub mod Specs
pub mod Generate
use speculation_ledger.Prelude.{
  ℕ, zero, suc, ◌+◌, ◌-◌, ◌%◌, Option, none, some, List, [], ◌∷◌, ◌++◌, ◌==◌, if◌then◌else◌, length,
  get_or, set, replicate, map, range,
}
use speculation_ledger.Prelude.Texts.{decimal}
use speculation_ledger.Floats.{Floats}
use speculation_ledger.Random.{
  Draw, Random, pure, raise, run_with, ◌>>=◌, between, below, fraction, pick, at, repeated,
}
use speculation_ledger.Hash.{Blake2b}
use speculation_ledger.Result.{Result, assertion_error}
use speculation_ledger.Types.{Str, stable_u64}
use speculation_ledger.Convert.{RawEvent}

-- `_SPECIAL`
abbrev pub special : ℕ
special = 16

pub record SynthParams (fl : Floats) : Type 0 where
  pub seed : ℕ
  pub vocab : ℕ
  pub tenants : ℕ
  pub repos : ℕ
  pub sessions_per_repo : ℕ
  pub turns_per_session : ℕ
  pub files_per_repo : ℕ
  pub file_lines : ℕ
  pub line_len : ℕ
  pub think_sents : ℕ × ℕ
  pub sent_len : ℕ × ℕ
  pub think_novelty : fl.F
  pub think_templates : ℕ
  pub file_locality : fl.F
  pub edit_prob : fl.F
  pub edit_lines : ℕ × ℕ
  pub mutate_toks : ℕ × ℕ
  pub consistent_mut : fl.F
  pub k_top : ℕ

-- `_Req`
pub record Req : Type 0 where
  pub tokens : List ℕ
  pub seg : List ℕ
  pub alts : List (List ℕ)
  pub events : List RawEvent

abbrev pub empty_req : Req
empty_req = record { tokens = []; seg = []; alts = []; events = [] }

abbrev pub put_rows : List ℕ → ℕ → List (List ℕ) → Req → Req
put_rows toks seg alts r = record {
  tokens = r.tokens ++ toks;
  seg = r.seg ++ replicate (length toks) seg;
  alts = r.alts ++ alts;
  events = r.events;
}

-- `put` without alternatives
unfoldable pub put_plain : List ℕ → ℕ → Req → Req
put_plain toks seg r = put_rows toks seg (replicate (length toks) []) r

-- `put` with alternatives, of which there have to be as many as tokens.
unfoldable pub put : {R : Type 0} → List ℕ → ℕ → List (List ℕ) → Req → R → Result (Req × R)
put toks seg alts r =
    if length alts == length toks then pure (put_rows toks seg alts r) else raise assertion_error

-- The texts of `json_struct`.
abbrev pub json_texts : List Str
json_texts =
    (b'{' ∷ [])
    ∷ (b'}' ∷ [])
    ∷ (b'[' ∷ [])
    ∷ (b']' ∷ [])
    ∷ (b':' ∷ [])
    ∷ (b',' ∷ [])
    ∷ (b'"' ∷ [])
    ∷ (b'n' ∷ b'a' ∷ b'm' ∷ b'e' ∷ [])
    ∷ (b'a' ∷ b'r' ∷ b'g' ∷ b'u' ∷ b'm' ∷ b'e' ∷ b'n' ∷ b't' ∷ b's' ∷ [])
    ∷ (b'p' ∷ b'a' ∷ b't' ∷ b'h' ∷ [])
    ∷ (b'r' ∷ b'e' ∷ b'a' ∷ b'd' ∷ b'_' ∷ b'f' ∷ b'i' ∷ b'l' ∷ b'e' ∷ [])
    ∷ (b'e' ∷ b'd' ∷ b'i' ∷ b't' ∷ b'_' ∷ b'f' ∷ b'i' ∷ b'l' ∷ b'e' ∷ [])
    ∷ (b'c' ∷ b'o' ∷ b'n' ∷ b't' ∷ b'e' ∷ b'n' ∷ b't' ∷ [])
    ∷ (b'o' ∷ b'l' ∷ b'd' ∷ [])
    ∷ (b'n' ∷ b'e' ∷ b'w' ∷ [])
    ∷ []

abbrev pub text_common : Str
text_common = b'c' ∷ b'o' ∷ b'm' ∷ b'm' ∷ b'o' ∷ b'n' ∷ []

abbrev text_topic : Str
text_topic = b':' ∷ b't' ∷ b'o' ∷ b'p' ∷ b'i' ∷ b'c' ∷ []

abbrev text_code : Str
text_code = b':' ∷ b'c' ∷ b'o' ∷ b'd' ∷ b'e' ∷ []

abbrev text_ren : Str
text_ren = b':' ∷ b'r' ∷ b'e' ∷ b'n' ∷ b':' ∷ []

abbrev text_mut : Str
text_mut = b'm' ∷ b'u' ∷ b't' ∷ []

abbrev text_tmpl : Str
text_tmpl = b't' ∷ b'm' ∷ b'p' ∷ b'l' ∷ []

module _ (h : Blake2b) {fl : Floats} (p : SynthParams fl) where
  -- `_tok(word, p.vocab)`
  unfoldable pub tok : Str → ℕ
  tok text = special + stable_u64 h ((b'w' ∷ []) ∷ text ∷ []) % (p.vocab - special)

  -- `json_struct[i]`
  unfoldable pub json : ℕ → ℕ
  unfolding tok
  json i = get_or (map tok json_texts) i 0

  unfoldable pub common : List ℕ
  unfolding tok
  common = map (λ i. tok (text_common ++ decimal i)) (range 0 200)

  unfoldable pub topic_bank : Str → List ℕ
  unfolding tok
  topic_bank repo = map (λ i. tok (repo ++ (text_topic ++ decimal i))) (range 0 120)

  unfoldable pub code_word : Str → ℕ → ℕ
  unfolding tok
  code_word repo i = tok (repo ++ (text_code ++ decimal i))

  -- `rename_of` of a repo's state
  unfoldable pub rename_of : Str → ℕ → ℕ
  unfolding tok
  rename_of repo t = tok (repo ++ (text_ren ++ decimal t))

  module _ (rnd : Random fl) where
    -- A template's slots are `none`.
    unfoldable pub template_token : List ℕ → Draw fl rnd (Option ℕ)
    unfolding common
    template_token bank = do
      x ← fraction fl rnd
      t ← if fl.lt x (fl.ratio 1 2) then pick fl rnd bank else pick fl rnd common
      pure (some t)

    -- `for _ in range(n): t[rng.randrange(ln)] = -1`
    unfoldable pub make_slots : ℕ → ℕ → List (Option ℕ) → Draw fl rnd (List (Option ℕ))
    make_slots zero ln t = pure t
    make_slots (suc n) ln t = do i ← below fl rnd ln; make_slots n ln (set t i none)

    unfoldable pub think_template : List ℕ → Draw fl rnd (List (Option ℕ))
    unfolding template_token make_slots
    think_template bank = do
      ln ← between fl rnd p.sent_len
      t ← repeated fl rnd ln (template_token bank)
      n ← between fl rnd (1, 2)
      make_slots n ln t

    -- `think_templates(repo)`, which draws from numbers of its own.
    unfoldable pub think_templates : Str → Result (List (List (Option ℕ)))
    unfolding think_template topic_bank
    think_templates repo =
        run_with (repeated fl rnd p.think_templates (think_template (topic_bank repo)))
          (rnd.seeded (stable_u64 h (text_tmpl ∷ repo ∷ [])))

    unfoldable pub mutate_tok : Str → ℕ → Draw fl rnd ℕ
    unfolding rename_of tok
    mutate_tok repo t = do
      x ← fraction fl rnd
      if fl.lt x p.consistent_mut
          then pure (rename_of repo t)
          else below fl rnd 4000 >>= (λ i. pure (tok (text_mut ++ decimal i)))
