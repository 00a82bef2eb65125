-- ===== src/Synth/Turns/Even.antt =====
-- What sim/synth.py puts into a request keeps its lists of one length, and nothing raises.
use speculation_ledger.Prelude.{
  ℕ, zero, suc, ◌+◌, ◌-◌, ◌≤◌, ◌<◌, ◌≡◌, ◌^◌, refl, ap, Bool, if◌then◌else◌, true, false, Option,
  none, some, List, [], ◌∷◌, ◌++◌, arith, ◌==◌, length, length-append, length-replicate, length-map,
  range, replicate, All, All-append, All-replicate,
}
use speculation_ledger.Floats.{Floats, Casts}
use speculation_ledger.Random.{
  Random, RandomLaws, Gen, Draw, ◌>>=◌, Yields, Yields-pure, Yields-bind, Yields-weaken, pure,
  below-lt, between-le, fraction, at-get_elem?, pick, pick-All, repeated, repeated-All,
}
use speculation_ledger.Hash.{Blake2b}
use speculation_ledger.Result.{ok}
use speculation_ledger.Convert.{RawEvent, TraceEvent}
use speculation_ledger.Convert.Normalize.{normalize_event}
use speculation_ledger.Types.{Str, seg_text}
use speculation_ledger.Prelude.Texts.{decimal}
use speculation_ledger.Synth.{
  special, SynthParams, Req, put_rows, put_plain, put, common, tok, json, text_common,
}
use speculation_ledger.Synth.Turns.{
  common_60, novel_token, one_of, fill_slot, fill_template, think_sentence, think_loop, gen_think,
  tool_alts, spell, read_call, gen_tool_read, text_token, gen_text, seg_think, seg_tool, tool_alt,
  novel_sentence, template_sentence,
}

-- The parameters with which every draw is from a range that is not empty.
pub record IsUsable {fl : Floats} (p : SynthParams fl) : Type 0 where
  pub vocab : special < p.vocab
  pub files : 0 < p.files_per_repo
  pub templates : 0 < p.think_templates
  pub sents : p.think_sents.0 ≤ p.think_sents.1
  pub sent_min : 0 < p.sent_len.0
  pub sent : p.sent_len.0 ≤ p.sent_len.1
  pub edit : p.edit_lines.0 ≤ p.edit_lines.1
  pub mutate : p.mutate_toks.0 ≤ p.mutate_toks.1
  pub line : 0 < p.line_len
  pub lines : p.file_lines + 1 < 2 ^ 52

abbrev pub HasKeys : RawEvent → Type 0
HasKeys ev = (e : TraceEvent) × (normalize_event ev ≡ ok e)

-- A request with one segment and one list of alternatives for each token.
pub record IsEven (r : Req) : Type 0 where
  pub length_seg : length r.seg ≡ length r.tokens
  pub length_alts : length r.alts ≡ length r.tokens
  pub segs : All (λ s. s ≤ 3) r.seg
  pub events : All HasKeys r.events

pub put_rows-IsEven :
    (toks : List ℕ) (seg : ℕ) (alts : List (List ℕ)) (r : Req)
    → length alts ≡ length toks
    → seg ≤ 3
    → IsEven r
    → IsEven (put_rows toks seg alts r)
put_rows-IsEven toks seg alts r same small e = record {
  length_seg = omega (
    arith,
    e.length_seg,
    length-append r.seg (replicate (length toks) seg),
    length-append r.tokens toks,
    length-replicate (length toks) seg,
  );
  length_alts =
      omega (arith, e.length_alts, same, length-append r.alts alts, length-append r.tokens toks);
  segs =
      All-append (λ s. s ≤ 3) r.seg (replicate (length toks) seg) e.segs
        (All-replicate (λ s. s ≤ 3) (length toks) seg small);
  events = e.events;
}

pub put_plain-IsEven :
    (toks : List ℕ) (seg : ℕ) (r : Req) → seg ≤ 3 → IsEven r → IsEven (put_plain toks seg r)
unfolding put_plain
put_plain-IsEven toks seg r small e =
    put_rows-IsEven toks seg (replicate (length toks) []) r
      (length-replicate {A = List ℕ} (length toks) []) small e

pub put-IsEven :
    {R : Type 0} (toks : List ℕ) (seg : ℕ) (alts : List (List ℕ)) (r : Req)
    → length alts ≡ length toks
    → seg ≤ 3
    → IsEven r
    → Yields {R = R} IsEven (put toks seg alts r)
unfolding put pure
put-IsEven toks seg alts r same small e =
    let test : (length alts == length toks) ≡ true = ground (arith, same) in
    record {
      run = λ g. (
        put_rows toks seg alts r,
        g,
        rw (put, test) refl,
        put_rows-IsEven toks seg alts r same small e,
      );
    }

-- A draw of something, of which nothing is asked.
abbrev pub Any : {A : Type 0} → A → Type 0
Any a = Unit {0}

All-Any : {A : Type 0} (xs : List A) → All Any xs
All-Any [] = tt
All-Any (x ∷ xs) = (tt, All-Any xs)

-- An `if` between two draws.
pub Yields-if :
    {R A : Type 0} {P : A → Type 0} (b : Bool) {m n : Gen R A}
    → Yields P m
    → Yields P n
    → Yields P (if b then m else n)
Yields-if true y z = y
Yields-if false y z = z

module _ (fl : Floats) (casts : Casts fl) (rnd : Random fl) (laws : RandomLaws rnd casts)
    (h : Blake2b) (p : SynthParams fl) (u : IsUsable p) where
  pub Yields-fraction : Yields (λ _. Unit {0}) (fraction fl rnd)
  unfolding fraction
  Yields-fraction = record { run = λ g. let r = rnd.random g in (r.0, r.1, refl, tt) }

  pub Yields-pick : {A : Type 0} (xs : List A) → 0 < length xs → Yields Any (pick fl rnd xs)
  Yields-pick xs some_there = pick-All fl rnd casts laws Any xs some_there (All-Any xs)

  pub length-common : length (common h p) ≡ 200
  unfolding common
  length-common = length-map {B = ℕ} (λ i. tok h p (text_common ++ decimal i)) (range 0 200)

  Yields-common_60 : Yields Any (common_60 fl rnd h p)
  unfolding common_60
  Yields-common_60 = Yields-bind (below-lt fl rnd casts laws 60 (omega arith)) λ i small.
      Yields-weaken
        (at-get_elem? fl rnd casts laws (common h p) i (omega (arith, small, length-common)))
        λ _ _. tt

  module _ (bank : List ℕ) (bank_there : 0 < length bank) where
    Yields-novel_token : Yields Any (novel_token fl rnd h p bank)
    unfolding novel_token
    Yields-novel_token = Yields-bind Yields-fraction λ x _.
        Yields-if (fl.lt x (fl.ratio 1 2))
          (Yields-bind (below-lt fl rnd casts laws (p.vocab - special) (omega (arith, u.vocab)))
            λ i _. Yields-pure (special + i) tt)
          (Yields-pick bank bank_there)

    Yields-text_token : Yields Any (text_token fl rnd h p bank)
    unfolding text_token
    Yields-text_token =
        Yields-bind Yields-fraction
          λ x _. Yields-if (fl.lt x (fl.ratio 3 5)) Yields-common_60 (Yields-pick bank bank_there)

    Yields-one_of : Yields Any (one_of fl rnd h p bank)
    Yields-one_of = Yields-bind (Yields-pick bank bank_there) λ a _. Yields-pure (a ∷ []) tt

    -- Tokens drawn one by one, and as many lists of alternatives, are put at the end.
    put_drawn-IsEven :
        (n seg : ℕ) (token : Draw fl rnd ℕ) (alt : Draw fl rnd (List ℕ)) (r : Req)
        → seg ≤ 3
        → Yields Any token
        → Yields Any alt
        → IsEven r
        → Yields IsEven (
            repeated fl rnd n token
            >>= (λ sent. repeated fl rnd (length sent) alt >>= (λ alts. put sent seg alts r)))
    put_drawn-IsEven n seg token alt r small y z e =
        Yields-bind (repeated-All fl rnd casts laws Any n token y) λ sent _.
          Yields-bind (repeated-All fl rnd casts laws Any (length sent) alt z)
            λ alts same. put-IsEven sent seg alts r same.1 small e

    abbrev Even : List ℕ × List (List ℕ) → Type 0
    Even l = length l.1 ≡ length l.0

    Yields-fill_template : (t : List (Option ℕ)) → Yields Even (fill_template fl rnd h p bank t)
    unfolding fill_template fill_slot
    Yields-fill_template [] = Yields-pure ([], []) refl
    Yields-fill_template (none ∷ ts) =
        Yields-bind {P = Any}
          (Yields-bind (Yields-pick bank bank_there) λ t _.
            Yields-bind (Yields-pick bank bank_there) λ a _.
              Yields-bind (Yields-pick bank bank_there) λ b _. Yields-pure (t, a ∷ b ∷ []) tt)
          λ x _.
            Yields-bind (Yields-fill_template ts)
              λ xs e. Yields-pure (x.0 ∷ xs.0, x.1 ∷ xs.1) (ap suc e)
    Yields-fill_template (some t ∷ ts) =
        Yields-bind {P = Any} (Yields-bind Yields-common_60 λ a _. Yields-pure (t, a ∷ []) tt)
          λ x _.
            Yields-bind (Yields-fill_template ts)
              λ xs e. Yields-pure (x.0 ∷ xs.0, x.1 ∷ xs.1) (ap suc e)

    module _ (templates : List (List (Option ℕ))) (templates_there : 0 < length templates) where
      think_sentence-IsEven :
          (r : Req) → IsEven r → Yields IsEven (think_sentence fl rnd h p bank templates r)
      unfolding think_sentence novel_sentence template_sentence
      think_sentence-IsEven r e = Yields-bind Yields-fraction λ x _.
          Yields-if (fl.lt x p.think_novelty)
            (Yields-bind (between-le fl rnd casts laws p.sent_len u.sent) λ ln _.
              put_drawn-IsEven ln seg_think (novel_token fl rnd h p bank) (one_of fl rnd h p bank) r
                (omega arith) Yields-novel_token Yields-one_of e)
            (Yields-bind (Yields-pick templates templates_there) λ t _.
              Yields-bind (Yields-fill_template t)
                λ filled same. put-IsEven filled.0 seg_think filled.1 r same (omega arith) e)

      think_loop-IsEven :
          (n : ℕ) (r : Req) → IsEven r → Yields IsEven (think_loop fl rnd h p n bank templates r)
      unfolding think_loop
      think_loop-IsEven zero r e = Yields-pure r e
      think_loop-IsEven (suc n) r e =
          Yields-bind (think_sentence-IsEven r e) λ r' e'. think_loop-IsEven n r' e'

      pub gen_think-IsEven :
          (r : Req) → IsEven r → Yields IsEven (gen_think fl rnd h p bank templates r)
      unfolding gen_think
      gen_think-IsEven r e =
          Yields-bind (between-le fl rnd casts laws p.think_sents u.sents)
            λ n _. think_loop-IsEven n r e

    pub gen_text-IsEven : (r : Req) → IsEven r → Yields IsEven (gen_text fl rnd h p bank r)
    unfolding gen_text
    gen_text-IsEven r e = Yields-bind (between-le fl rnd casts laws p.sent_len u.sent) λ ln _.
        put_drawn-IsEven ln seg_text (text_token fl rnd h p bank)
          (common_60 fl rnd h p >>= (λ a. pure (a ∷ []))) r (omega arith) Yields-text_token
          (Yields-bind Yields-common_60 λ a _. Yields-pure (a ∷ []) tt) e

  pub length-tool_alts :
      (t o : ℕ) (siblings toks : List ℕ)
      → length (tool_alts fl rnd h p t o siblings toks) ≡ length toks
  unfolding tool_alts
  length-tool_alts t o siblings toks =
      length-map {B = List ℕ} (tool_alt fl rnd h p t o siblings) toks

  pub gen_tool_read-IsEven :
      (path : Str) (siblings : List ℕ) (r : Req)
      → IsEven r
      → Yields IsEven (gen_tool_read fl rnd h p path siblings r)
  unfolding gen_tool_read
  gen_tool_read-IsEven path siblings r e =
      let call = spell fl rnd h p path read_call in
      put-IsEven call seg_tool (tool_alts fl rnd h p (tok h p path) (json h p 11) siblings call) r
        (length-tool_alts (tok h p path) (json h p 11) siblings call) (omega arith) e
