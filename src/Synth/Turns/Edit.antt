-- ===== src/Synth/Turns/Edit.antt =====
-- `_gen_tool_edit` of sim/synth.py: an edit of some lines of a file.
use speculation_ledger.Prelude.{
  ℕ, zero, suc, ◌+◌, ◌-◌, Option, none, some, List, [], ◌∷◌, ◌++◌, min, length, set, map,
}
use speculation_ledger.Prelude.Int.{pos}
use speculation_ledger.Prelude.Texts.{find, store}
use speculation_ledger.Floats.{Floats, Casts}
use speculation_ledger.Random.{Draw, Random, pure, raise, ◌>>=◌, below, between, fraction, at}
use speculation_ledger.Hash.{Blake2b}
use speculation_ledger.Result.{key_error}
use speculation_ledger.Types.{Str, seg_code}
use speculation_ledger.Convert.{RawEvent}
use speculation_ledger.Replay.Requests.{word_file_edit}
use speculation_ledger.Synth.{SynthParams, Req, put_plain, put, tok, json, rename_of, mutate_tok}
use speculation_ledger.Synth.Turns.{Files, seg_tool, spell, tool_alts, concat}

-- `head`, `mid` and `tail` of `_gen_tool_edit`
abbrev pub edit_head : List (Option ℕ)
edit_head =
    some 0
    ∷ some 6
    ∷ some 7
    ∷ some 6
    ∷ some 4
    ∷ some 6
    ∷ some 11
    ∷ some 6
    ∷ some 3
    ∷ some 0
    ∷ some 6
    ∷ some 9
    ∷ some 6
    ∷ some 4
    ∷ some 6
    ∷ none
    ∷ some 6
    ∷ some 1
    ∷ some 6
    ∷ some 13
    ∷ some 6
    ∷ some 4
    ∷ some 6
    ∷ []

abbrev pub edit_mid : List (Option ℕ)
edit_mid = some 6 ∷ some 1 ∷ some 6 ∷ some 14 ∷ some 6 ∷ some 4 ∷ some 6 ∷ []

abbrev pub edit_tail : List (Option ℕ)
edit_tail = some 6 ∷ some 1 ∷ some 1 ∷ []

abbrev pub no_alts : List ℕ → List (List ℕ)
no_alts toks = map (λ (_ : ℕ). []) toks

-- What the loop over the edited lines collects: the old block, and the new lines with alternatives.
pub record Edit : Type 0 where
  pub old_body : List ℕ
  pub new_lines : List (List ℕ)
  pub new_alts : List (List (List ℕ))

-- `lines[li] = new_lines[off]` for each of them.
unfoldable pub write_lines : ℕ → List (List ℕ) → List (List ℕ) → List (List ℕ)
write_lines li [] lines = lines
write_lines li (new ∷ news) lines = write_lines (suc li) news (set lines li new)

-- The event at the end of an edit.
abbrev pub edit_event : Str → ℕ → ℕ → RawEvent
edit_event path place bump = record {
  pos = some place;
  kind = some word_file_edit;
  file = some path;
  bump_pos = some (pos bump);
}

module _ (fl : Floats) (rnd : Random fl) (h : Blake2b) (p : SynthParams fl) where
  -- The mutations of one line, which record the old token as the alternative at its place.
  unfoldable pub mutate_line :
      Str → ℕ → List ℕ × List (List ℕ) → Draw fl rnd (List ℕ × List (List ℕ))
  mutate_line repo zero l = pure l
  mutate_line repo (suc n) l = do
    j ← below fl rnd (length l.0)
    old_tok ← at fl rnd l.0 j
    new_tok ← mutate_tok h p rnd repo old_tok
    mutate_line repo n (set l.0 j new_tok, set l.1 j (old_tok ∷ []))

  unfoldable pub edit_lines : Str → List (List ℕ) → ℕ → ℕ → Draw fl rnd Edit
  unfolding mutate_line
  edit_lines repo lines zero li = pure (record { old_body = []; new_lines = []; new_alts = [] })
  edit_lines repo lines (suc n) li = do
    line ← at fl rnd lines li
    times ← between fl rnd p.mutate_toks
    new ← mutate_line repo times (line, no_alts line)
    rest ← edit_lines repo lines n (suc li)
    pure (record {
      old_body = line ++ rest.old_body;
      new_lines = new.0 ∷ rest.new_lines;
      new_alts = new.1 ∷ rest.new_alts;
    })

  -- `state.files[path]`
  abbrev pub file_at : Files → Str → Draw fl rnd (List (List ℕ))
  file_at files path = elim (find path files) [ none ↦ raise key_error | some lines ↦ pure lines ]

  unfoldable pub gen_tool_edit :
      Casts fl → Str → Str → List ℕ → Files → Req → Draw fl rnd (Req × Files)
  unfolding spell tool_alts edit_lines write_lines rename_of put_plain
  gen_tool_edit casts repo path siblings files r = do
    let head = spell fl rnd h p path edit_head
    r₁ ← put head seg_tool (tool_alts fl rnd h p (tok h p path) (json h p 10) siblings head) r
    lines ← file_at files path
    wanted ← between fl rnd p.edit_lines
    let n_edit = min wanted (length lines)
    x ← fraction fl rnd
    let from = casts.floor (fl.times (fl.ratio (length lines - n_edit + 1) 1) (fl.pow x 2))
    edit ← edit_lines repo lines n_edit from
    r₂ ← put edit.old_body seg_code (map (λ t. rename_of h p repo t ∷ []) edit.old_body) r₁
    let r₃ = put_plain (spell fl rnd h p path edit_mid) seg_tool r₂
    r₄ ← put (concat edit.new_lines) seg_code (concat edit.new_alts) r₃
    let r₅ = put_plain (spell fl rnd h p path edit_tail) seg_tool r₄
    pure (
      record r₅ {
        events = r₅.events ++ edit_event path (length r₅.tokens - 1) (length r₃.tokens - 1) ∷ [];
      },
      store path (write_lines from edit.new_lines lines) files,
    )
