-- ===== src/Synth/Generate/Records.antt =====
-- What a record of sim/synth.py is to the reader: a valid one, with the tokens that its steps spell.
use speculation_ledger.Prelude.{
  ℕ, suc, ◌≤◌, ◌≡◌, refl, sym, ap, ◌∙◌, inl, inr, List-cases, true, List, [], ◌∷◌, arith, leb, ◌==◌,
  length, length-map, map, All,
}
use speculation_ledger.Prelude.Int.{pos}
use speculation_ledger.Result.{ok}
use speculation_ledger.Convert.{RawEvent, RawStep, RawRecord, TraceEvent, TraceRequest}
use speculation_ledger.Convert.Validate.{
  all_in, validate_record, validate_body, validate_step, validate_steps, complete, check_accepted,
  check_rows, missing, complain,
}
use speculation_ledger.Convert.Normalize.{
  Rows, join_rows, step_rows, slice_to, normalize_step, normalize_steps, normalize_scope,
  normalize_record, normalize_events,
}
use speculation_ledger.Convert.Read.Reading.{HasEvents}
use speculation_ledger.Types.{Str}
use speculation_ledger.Synth.{Req}
use speculation_ledger.Synth.Specs.{TurnSpec}
use speculation_ledger.Synth.Topk.Widths.{Topk}
use speculation_ledger.Synth.Turns.Even.{HasKeys}
use speculation_ledger.Synth.Generate.{step_of, record_of}

-- A step that the check finds no fault with.
abbrev pub IsStep : RawStep → Type 0
IsStep st = (i : ℕ) → validate_step i st ≡ []

all_in-pos : (qs : List ℕ) → All (λ q. q ≤ 255) qs → all_in 255 (map pos qs) ≡ true
all_in-pos [] a = refl
all_in-pos (q ∷ qs) a =
    let e : leb q 255 ≡ true = ground (arith, a.0) in rw (e, all_in-pos qs a.1) refl

pub step_of-IsStep :
    (i t seg : ℕ) (row : List ℕ × List ℕ) → seg ≤ 3 → Topk row → IsStep (step_of i t row seg)
unfolding validate_step complete check_accepted check_rows
step_of-IsStep i t seg row small (same, codes) j =
    let seg_in : leb seg 3 ≡ true = ground (arith, small) in
    let rows : (length row.0 == length (map pos row.1)) ≡ true =
      ground (arith, same, length-map pos row.1) in
    rw (seg_in, rows, all_in-pos row.1 codes) refl

validate_steps-All : (i : ℕ) (steps : List RawStep) → All IsStep steps → validate_steps i steps ≡ []
unfolding validate_steps
validate_steps-All i [] a = refl
validate_steps-All i (st ∷ steps) a = rw (a.0 i) (validate_steps-All (suc i) steps a.1)

-- The tokens that the reader gets from these steps.
abbrev pub Spells : List RawStep → List ℕ → Type 0
Spells steps ts = (rows : Rows) × (normalize_steps steps ≡ ok rows) × (rows.tokens ≡ ts)

pub no_steps-Spells : Spells [] []
unfolding normalize_steps
no_steps-Spells = (_, refl, refl)

pub step_of-Spells :
    (i t seg : ℕ) (row : List ℕ × List ℕ) (steps : List RawStep) (ts : List ℕ)
    → Spells steps ts
    → Spells (step_of i t row seg ∷ steps) (t ∷ ts)
unfolding normalize_steps normalize_step step_rows slice_to
step_of-Spells i t seg row steps ts (rows, e, same) =
    let first = step_rows [] (pos 0) t (pos seg ∷ []) (row.0 ∷ []) (map pos row.1 ∷ []) in
    (join_rows first rows, rw e refl, ap (◌∷◌ t) same)

-- The request that the reader makes of a record has the tokens that its steps spell.
pub record_of-tokens :
    (tokenizer_hash : Str) (ts : ℕ) (s : TurnSpec) (r : Req) (steps : List RawStep)
    (tokens : List ℕ) {req : TraceRequest}
    → Spells steps tokens
    → HasEvents (record_of tokenizer_hash ts s r steps)
    → normalize_record (record_of tokenizer_hash ts s r steps) ≡ ok req
    → req.tokens ≡ tokens
unfolding normalize_record normalize_scope
record_of-tokens tokenizer_hash ts s r steps tokens {req} (rows, e, same) (evs, keys) made =
    let read = rw (e, keys) at made in
    let tokens_read : rows.tokens ≡ req.tokens = ground (arith, read) in sym tokens_read ∙ same

-- A record that the reader takes.
pub record IsRecord (rec : RawRecord) : Type 0 where
  pub valid : validate_record rec ≡ []
  pub events : HasEvents rec

normalize_events-keys :
    (evs : List RawEvent)
    → All HasKeys evs
    → (es : List TraceEvent) × (normalize_events evs ≡ ok es)
unfolding normalize_events
normalize_events-keys [] a = ([], refl)
normalize_events-keys (ev ∷ evs) a =
    let (e, keys) = a.0 in
    let (es, rest) = normalize_events-keys evs a.1 in (e ∷ es, rw (keys, rest) refl)

pub record_of-IsRecord :
    (tokenizer_hash : Str) (ts : ℕ) (s : TurnSpec) (r : Req) (steps : List RawStep)
    → All IsStep steps
    → All HasKeys r.events
    → IsRecord (record_of tokenizer_hash ts s r steps)
unfolding validate_record validate_body missing complain normalize_events
record_of-IsRecord tokenizer_hash ts s r steps a keys = record {
  valid = validate_steps-All 0 steps a;
  events = elim (List-cases r.events) [
    | inl nothing ↦ ([], rw nothing refl)
    | inr (ev, evs, e) ↦ rw e (normalize_events-keys (ev ∷ evs) (rw e at keys))
  ];
}
