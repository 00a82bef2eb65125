-- ===== src/Synth/Turns/Edits.antt =====
-- What an edit of sim/synth.py does to the request and to the files of the repo.
use speculation_ledger.Prelude.{
  ℕ, zero, suc, ◌+◌, ◌-◌, ◌≤◌, ◌<◌, ◌≡◌, ◌^◌, refl, sym, ◌∙◌, inl, inr, Bool-cases, some, List, [],
  ◌∷◌, ◌++◌, min, arith, length, length-append, length-map, length-set, set, All, All-append,
  All-set, All-get_elem?,
}
use speculation_ledger.Prelude.Texts.{
  str_eq, str_eq_sound, find, store, find-store_same, find-store_other, All-store,
}
use speculation_ledger.Floats.{Floats, Casts}
use speculation_ledger.Random.{
  Random, RandomLaws, Yields, Yields-pure, Yields-bind, below-lt, between-le, fraction,
  at-get_elem?,
}
use speculation_ledger.Hash.{Blake2b}
use speculation_ledger.Convert.Normalize.{normalize_event}
use speculation_ledger.Types.{Str, seg_code}
use speculation_ledger.Synth.{SynthParams, Req, tok, json, rename_of, mutate_tok}
use speculation_ledger.Synth.Turns.{Files, spell, tool_alts, concat, seg_tool}
use speculation_ledger.Synth.Turns.Edit.{
  Edit, edit_event, edit_head, edit_mid, edit_tail, no_alts, mutate_line, edit_lines, write_lines,
  file_at, gen_tool_edit,
}
use speculation_ledger.Synth.Turns.Even.{
  IsUsable, HasKeys, IsEven, Any, Yields-if, Yields-fraction, put_plain-IsEven, put-IsEven,
  length-tool_alts,
}

-- A line that has a token.
abbrev pub IsLine : List ℕ → Type 0
IsLine l = 0 < length l

-- The lines of a file: as many as the parameters ask for, and none of them empty.
abbrev pub IsFile : {fl : Floats} → SynthParams fl → List (List ℕ) → Type 0
IsFile p lines = All IsLine lines × (length lines ≡ p.file_lines)

abbrev pub AreFiles : {fl : Floats} → SynthParams fl → Files → Type 0
AreFiles p files = All (λ f. IsFile p f.1) files

-- A file of this path is there.
abbrev pub Has : Str → Files → Type 0
Has path files = (lines : List (List ℕ)) × (find path files ≡ some lines)

pub Has-store :
    (key j : Str) (new : List (List ℕ)) (files : Files) → Has j files → Has j (store key new files)
Has-store key j new files (lines, e) = elim (Bool-cases (str_eq key j)) [
  | inl same ↦ (new, rw (sym (str_eq_sound key j same)) (find-store_same key new files))
  | inr apart ↦ (lines, find-store_other key j new files apart ∙ e)
]

pub find-IsFile :
    {fl : Floats} (p : SynthParams fl) (path : Str) (files : Files) {lines : List (List ℕ)}
    → AreFiles p files
    → find path files ≡ some lines
    → IsFile p lines
find-IsFile p path [] a e = absurd (ground arith)
find-IsFile p path (f ∷ files) {lines} a e = elim (Bool-cases (str_eq f.0 path)) [
  | inl here ↦ let same : f.1 ≡ lines = ground (arith, rw here at e) in rw same at a.0
  | inr past ↦ find-IsFile p path files a.1 (rw past at e)
]

write_lines-IsFile :
    {fl : Floats} (p : SynthParams fl) (li : ℕ) (news lines : List (List ℕ))
    → All IsLine news
    → IsFile p lines
    → IsFile p (write_lines li news lines)
unfolding write_lines
write_lines-IsFile p li [] lines a f = f
write_lines-IsFile p li (new ∷ news) lines a f =
    write_lines-IsFile p (suc li) news (set lines li new) a.1
      (All-set IsLine lines li new a.0 f.0, length-set lines li new ∙ f.1)

-- A line and its alternatives.
abbrev Both : List ℕ × List (List ℕ) → Type 0
Both l = IsLine l.0 × (length l.1 ≡ length l.0)

-- The lines of an edit have as many alternatives as tokens, and none of them is empty.
abbrev Fits : Edit → Type 0
Fits e = All IsLine e.new_lines × (length (concat e.new_alts) ≡ length (concat e.new_lines))

edit_event-keys :
    (path : Str) (place bump : ℕ) (r : Req)
    → IsEven r
    → IsEven (record r { events = r.events ++ edit_event path place bump ∷ [] })
unfolding normalize_event
edit_event-keys path place bump r e =
    let keys : HasKeys (edit_event path place bump) = (_, refl) in
    record {
      length_seg = e.length_seg;
      length_alts = e.length_alts;
      segs = e.segs;
      events = All-append HasKeys r.events (edit_event path place bump ∷ []) e.events (keys, tt);
    }

module _ (fl : Floats) (casts : Casts fl) (rnd : Random fl) (laws : RandomLaws rnd casts)
    (h : Blake2b) (p : SynthParams fl) (u : IsUsable p) where
  Yields-square :
      (n : ℕ)
      → 0 < n
      → n < 2 ^ 52
      → Yields (λ x. casts.floor (fl.times (fl.ratio n 1) (fl.pow x 2)) < n) (fraction fl rnd)
  unfolding fraction
  Yields-square n some_there small = record {
    run = λ g. let r = rnd.random g in (r.0, r.1, refl, laws.square-lt n g some_there small);
  }

  Yields-mutate_tok : (repo : Str) (t : ℕ) → Yields Any (mutate_tok h p rnd repo t)
  unfolding mutate_tok
  Yields-mutate_tok repo t = Yields-bind (Yields-fraction fl casts rnd laws h p u) λ x _.
      Yields-if (fl.lt x p.consistent_mut) (Yields-pure (rename_of h p repo t) tt)
        (Yields-bind (below-lt fl rnd casts laws 4000 (omega arith)) λ i _. Yields-pure _ tt)

  Yields-mutate_line :
      (repo : Str) (n : ℕ) (l : List ℕ × List (List ℕ))
      → Both l
      → Yields Both (mutate_line fl rnd h p repo n l)
  unfolding mutate_line
  Yields-mutate_line repo zero l b = Yields-pure l b
  Yields-mutate_line repo (suc n) l b =
      Yields-bind (below-lt fl rnd casts laws (length l.0) b.0) λ j small.
        Yields-bind (at-get_elem? fl rnd casts laws l.0 j small) λ old _.
          Yields-bind (Yields-mutate_tok repo old) λ new _.
            let tokens = length-set l.0 j new in
            let alts = length-set l.1 j (old ∷ []) in
            Yields-mutate_line repo n (set l.0 j new, set l.1 j (old ∷ []))
              (omega (arith, b.0, tokens), alts ∙ (b.1 ∙ sym tokens))

  Yields-edit_lines :
      (repo : Str) (lines : List (List ℕ)) (n li : ℕ)
      → All IsLine lines
      → li + n ≤ length lines
      → Yields Fits (edit_lines fl rnd h p repo lines n li)
  unfolding edit_lines
  Yields-edit_lines repo lines zero li a small = Yields-pure _ (tt, refl)
  Yields-edit_lines repo lines (suc n) li a small =
      Yields-bind (at-get_elem? fl rnd casts laws lines li (omega (arith, small))) λ line e.
        Yields-bind (between-le fl rnd casts laws p.mutate_toks u.mutate) λ times _.
          Yields-bind
            (Yields-mutate_line repo times (line, no_alts line)
              (All-get_elem? IsLine lines li a e, length-map {B = List ℕ} (λ (_ : ℕ). []) line))
            λ new b.
              Yields-bind (Yields-edit_lines repo lines n (suc li) a (omega (arith, small)))
                λ rest f. Yields-pure _ (
                  (b.0, f.0),
                  omega (
                    arith,
                    b.1,
                    f.1,
                    length-append new.0 (concat rest.new_lines),
                    length-append new.1 (concat rest.new_alts),
                  ),
                )

  -- An edit keeps the lists of the request even, gives its event the keys it needs, and leaves files
  -- of the same paths and sizes.
  pub gen_tool_edit-IsEven :
      (repo path : Str) (siblings : List ℕ) (files : Files) (r : Req)
      → Has path files
      → AreFiles p files
      → IsEven r
      → Yields
          (λ x. IsEven x.0 × AreFiles p x.1 × ((j : Str) → Has j files → Has j x.1))
          (gen_tool_edit fl rnd h p casts repo path siblings files r)
  unfolding gen_tool_edit
  gen_tool_edit-IsEven repo path siblings files r (lines, found) good e =
      let is_file = find-IsFile p path files good found in
      let head = spell fl rnd h p path edit_head in
      Yields-bind
        (put-IsEven head seg_tool (tool_alts fl rnd h p (tok h p path) (json h p 10) siblings head)
          r (length-tool_alts fl casts rnd laws h p u (tok h p path) (json h p 10) siblings head)
          (omega arith) e)
        λ r₁ e₁.
          Yields-bind {P = λ ls. ls ≡ lines} (rw (file_at, found) (Yields-pure lines refl))
            λ ls same. rw same (
              Yields-bind (between-le fl rnd casts laws p.edit_lines u.edit) λ wanted _.
                let n_edit = min wanted (length lines) in
                let there : 0 < length lines - n_edit + 1 = omega arith in
                let few : length lines - n_edit + 1 < 2 ^ 52 = omega (arith, u.lines, is_file.1) in
                Yields-bind (Yields-square (length lines - n_edit + 1) there few) λ x from_small.
                  let within : casts.floor
                          (fl.times (fl.ratio (length lines - n_edit + 1) 1) (fl.pow x 2))
                        + n_edit
                      ≤ length lines =
                    omega (arith, from_small) in
                  Yields-bind (Yields-edit_lines repo lines n_edit _ is_file.0 within) λ edit fits.
                    Yields-bind
                      (put-IsEven edit.old_body seg_code _ r₁
                        (length-map {B = List ℕ} (λ t. rename_of h p repo t ∷ []) edit.old_body)
                        (omega arith) e₁)
                      λ r₂ e₂.
                        let e₃ =
                          put_plain-IsEven (spell fl rnd h p path edit_mid) seg_tool r₂
                            (omega arith) e₂ in
                        Yields-bind
                          (put-IsEven (concat edit.new_lines) seg_code (concat edit.new_alts) _
                            fits.1 (omega arith) e₃)
                          λ r₄ e₄.
                            let e₅ =
                              put_plain-IsEven (spell fl rnd h p path edit_tail) seg_tool r₄
                                (omega arith) e₄ in
                            Yields-pure _ (
                              edit_event-keys path _ _ _ e₅,
                              All-store (λ f. IsFile p f.1) path _ files
                                  (λ j. write_lines-IsFile p _ edit.new_lines lines fits.0 is_file)
                                  good,
                              λ j there'. Has-store path j _ files there',
                            ))
