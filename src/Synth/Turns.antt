-- ===== src/Synth/Turns.antt =====
-- sim/synth.py: the parts of one turn, which are put at the end of a request.
pub mod Edit
pub mod Even
pub mod Edits
use speculation_ledger.Prelude.{
  ℕ, zero, suc, ◌+◌, ◌-◌, ◌||◌, Bool, true, false, not, Option, none, some, List, [], ◌∷◌, ◌++◌,
  min, ◌==◌, if◌then◌else◌, length, set, map,
}
use speculation_ledger.Prelude.Int.{ℤ, pos}
use speculation_ledger.Prelude.Texts.{find, store}
use speculation_ledger.Floats.{Floats, Casts}
use speculation_ledger.Random.{
  Draw, Random, Gen, pure, raise, ◌>>=◌, below, between, fraction, pick, at, repeated,
}
use speculation_ledger.Hash.{Blake2b}
use speculation_ledger.Result.{key_error}
use speculation_ledger.Types.{Str, seg_code, seg_text}
use speculation_ledger.Store.{elem}
use speculation_ledger.Convert.{RawEvent}
use speculation_ledger.Replay.Requests.{word_file_edit}
use speculation_ledger.Synth.{
  special, SynthParams, Req, put_plain, put, tok, json_texts, json, common, rename_of, mutate_tok,
}

-- `Segment.THINK` and `Segment.TOOL`
abbrev pub seg_think : ℕ
seg_think = 0

abbrev pub seg_tool : ℕ
seg_tool = 1

-- The lines of the files of a repo, by their paths.
abbrev pub Files : Type 0
Files = List (Str × List (List ℕ))

-- `[s for s in sibling_paths if s != path_tok]`
unfoldable pub others : ℕ → List ℕ → List ℕ
others t [] = []
others t (s ∷ ss) = let rest = others t ss in if s == t then rest else s ∷ rest

-- `call` of `_gen_tool_read`
abbrev pub read_call : List (Option ℕ)
read_call =
    some 0
    ∷ some 6
    ∷ some 7
    ∷ some 6
    ∷ some 4
    ∷ some 6
    ∷ some 10
    ∷ some 6
    ∷ some 3
    ∷ some 0
    ∷ some 6
    ∷ some 9
    ∷ some 6
    ∷ some 4
    ∷ some 6
    ∷ none
    ∷ some 6
    ∷ some 1
    ∷ some 1
    ∷ []

abbrev pub concat {ℓ} : {A : Type ℓ} → List (List A) → List A
concat [] = []
concat (xs ∷ xss) = xs ++ concat xss

module _ (fl : Floats) (rnd : Random fl) (h : Blake2b) (p : SynthParams fl) where
  -- `v.common[rng.randrange(60)]`
  unfoldable pub common_60 : Draw fl rnd ℕ
  unfolding common
  common_60 = below fl rnd 60 >>= (λ i. at fl rnd (common h p) i)

  -- A token of a new sentence.
  unfoldable pub novel_token : List ℕ → Draw fl rnd ℕ
  novel_token bank = do
    x ← fraction fl rnd
    if fl.lt x (fl.ratio 1 2)
        then below fl rnd (p.vocab - special) >>= (λ i. pure (special + i))
        else pick fl rnd bank

  abbrev pub one_of : List ℕ → Draw fl rnd (List ℕ)
  one_of bank = pick fl rnd bank >>= (λ a. pure (a ∷ []))

  -- A template's token with its alternatives: a slot is filled from the bank.
  unfoldable pub fill_slot : List ℕ → Option ℕ → Draw fl rnd (ℕ × List ℕ)
  unfolding common_60
  fill_slot bank none = do
    t ← pick fl rnd bank
    a ← pick fl rnd bank
    b ← pick fl rnd bank
    pure (t, a ∷ b ∷ [])
  fill_slot bank (some t) = common_60 >>= (λ a. pure (t, a ∷ []))

  -- The loop over a template: the sentence and its alternatives.
  unfoldable pub fill_template : List ℕ → List (Option ℕ) → Draw fl rnd (List ℕ × List (List ℕ))
  unfolding fill_slot
  fill_template bank [] = pure ([], [])
  fill_template bank (t ∷ ts) = do
    x ← fill_slot bank t
    xs ← fill_template bank ts
    pure (x.0 ∷ xs.0, x.1 ∷ xs.1)

  unfoldable pub novel_sentence : List ℕ → ℕ → Req → Draw fl rnd Req
  unfolding novel_token
  novel_sentence bank ln r = do
    sent ← repeated fl rnd ln (novel_token bank)
    alts ← repeated fl rnd (length sent) (one_of bank)
    put sent seg_think alts r

  unfoldable pub template_sentence : List ℕ → List (Option ℕ) → Req → Draw fl rnd Req
  unfolding fill_template
  template_sentence bank t r =
      fill_template bank t >>= (λ filled. put filled.0 seg_think filled.1 r)

  unfoldable pub think_sentence : List ℕ → List (List (Option ℕ)) → Req → Draw fl rnd Req
  unfolding novel_sentence template_sentence
  think_sentence bank templates r = do
    x ← fraction fl rnd
    if fl.lt x p.think_novelty
        then (between fl rnd p.sent_len >>= (λ ln. novel_sentence bank ln r))
        else (pick fl rnd templates >>= (λ t. template_sentence bank t r))

  unfoldable pub think_loop : ℕ → List ℕ → List (List (Option ℕ)) → Req → Draw fl rnd Req
  unfolding think_sentence
  think_loop zero bank templates r = pure r
  think_loop (suc n) bank templates r =
      think_sentence bank templates r >>= (λ r'. think_loop n bank templates r')

  unfoldable pub gen_think : List ℕ → List (List (Option ℕ)) → Req → Draw fl rnd Req
  unfolding think_loop
  gen_think bank templates r = between fl rnd p.think_sents >>= (λ n. think_loop n bank templates r)

  -- The alternatives at one place of a tool call.
  unfoldable pub tool_alt : ℕ → ℕ → List ℕ → ℕ → List ℕ
  unfolding others json tok
  tool_alt path_tok other_tool siblings t =
      if t == json h p 10 || t == json h p 11
      then other_tool ∷ []
      else if t == path_tok
      then others path_tok siblings
      else if elem t (map (tok h p) json_texts)
      then json h p 5 ∷ json h p 1 ∷ []
      else []

  unfoldable pub tool_alts : ℕ → ℕ → List ℕ → List ℕ → List (List ℕ)
  unfolding tool_alt
  tool_alts path_tok other_tool siblings toks = map (tool_alt path_tok other_tool siblings) toks

  -- The places of `json_struct` from which a list of tokens is made; `none` is the path.
  unfoldable pub spell : Str → List (Option ℕ) → List ℕ
  unfolding json tok
  spell path [] = []
  spell path (none ∷ is) = tok h p path ∷ spell path is
  spell path (some i ∷ is) = json h p i ∷ spell path is

  unfoldable pub gen_tool_read : Str → List ℕ → Req → Draw fl rnd Req
  unfolding spell tool_alts
  gen_tool_read path siblings r =
      let call = spell path read_call in
      put call seg_tool (tool_alts (tok h p path) (json h p 11) siblings call) r

  -- A token of the closing text.
  unfoldable pub text_token : List ℕ → Draw fl rnd ℕ
  unfolding common_60
  text_token bank = do
    x ← fraction fl rnd
    if fl.lt x (fl.ratio 3 5) then common_60 else pick fl rnd bank

  unfoldable pub gen_text : List ℕ → Req → Draw fl rnd Req
  unfolding text_token common_60
  gen_text bank r = do
    ln ← between fl rnd p.sent_len
    sent ← repeated fl rnd ln (text_token bank)
    alts ← repeated fl rnd (length sent) (common_60 >>= (λ a. pure (a ∷ [])))
    put sent seg_text alts r
