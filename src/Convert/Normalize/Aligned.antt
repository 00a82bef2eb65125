-- ===== src/Convert/Normalize/Aligned.antt =====
-- What `normalize_record` of sim/convert.py makes of a record that passes `validate_record`, which
-- does not look at the events.
use speculation_ledger.Prelude.{
  ℕ, zero, suc, ◌≡◌, refl, sym, ◌∙◌, inl, inr, true, false, List, [], ◌∷◌, ◌++◌, arith, ◌⊎◌, length,
  take, replicate, length-replicate, length-append, length-take, All,
}
use speculation_ledger.Prelude.Int.{ℤ, pos}
use speculation_ledger.Result.{ok, err, key_error}
use speculation_ledger.Convert.{RawStep, RawRecord, TraceEvent, TraceRequest}
use speculation_ledger.Convert.Validate.{
  TraceStep, all_in, all_rows_in, bad_length, validate_record,
}
use speculation_ledger.Convert.Validate.Accept.{Sound, Accepted, validate_record-AcceptedRecord}
use speculation_ledger.Convert.Normalize.{
  slice_to, or_default, Rows, no_rows, join_rows, step_rows, normalize_step, normalize_steps,
  or_none_listed, normalize_events, sort_events, normalize_scope, or_empty, normalize_record,
}
use speculation_ledger.Convert.Normalize.Keys.{all_keyed, normalize_events-cases}
use speculation_ledger.Convert.Normalize.Sorted.{IsSorted, sort_events-IsSorted}

-- One segment and one row of each kind for each token, the values within their ranges.
pub record Aligned (tokens : List ℕ) (seg : List ℤ) (topk_ids : List (List ℕ))
    (topk_logp_q8 : List (List ℤ)) : Type 0 where
  pub length_seg : length seg ≡ length tokens
  pub length_ids : length topk_ids ≡ length tokens
  pub length_q8s : length topk_logp_q8 ≡ length tokens
  pub segs : all_in 3 seg ≡ true
  pub q8s : all_rows_in 255 topk_logp_q8 ≡ true

abbrev pub AlignedRows : Rows → Type 0
AlignedRows r = Aligned r.tokens r.seg r.topk_ids r.topk_logp_q8

length-or_default :
    {A : Type 0} (n : ℕ) (xs : List A) (d : A)
    → bad_length n (length xs) ≡ false
    → length (or_default xs (replicate n d)) ≡ n
length-or_default n [] d h = length-replicate n d
length-or_default n (x ∷ xs) d h = ground arith

all_in-or_default :
    (n : ℕ) (xs : List ℤ)
    → all_in 3 xs ≡ true
    → all_in 3 (or_default xs (replicate n (pos 3))) ≡ true
all_in-or_default n (x ∷ xs) h = h
all_in-or_default zero [] h = refl
all_in-or_default (suc n) [] h = all_in-or_default n [] refl

all_rows_in-or_default :
    (n : ℕ) (xs : List (List ℤ))
    → all_rows_in 255 xs ≡ true
    → all_rows_in 255 (or_default xs (replicate n [])) ≡ true
all_rows_in-or_default n (x ∷ xs) h = h
all_rows_in-or_default zero [] h = refl
all_rows_in-or_default (suc n) [] h = all_rows_in-or_default n [] refl

all_in-append :
    (hi : ℕ) (xs ys : List ℤ)
    → all_in hi xs ≡ true
    → all_in hi ys ≡ true
    → all_in hi (xs ++ ys) ≡ true
all_in-append hi [] ys hx hy = hy
all_in-append hi (x ∷ xs) ys hx hy = ground (arith, all_in-append hi xs ys)

all_rows_in-append :
    (hi : ℕ) (xs ys : List (List ℤ))
    → all_rows_in hi xs ≡ true
    → all_rows_in hi ys ≡ true
    → all_rows_in hi (xs ++ ys) ≡ true
all_rows_in-append hi [] ys hx hy = hy
all_rows_in-append hi (x ∷ xs) ys hx hy = ground (arith, all_rows_in-append hi xs ys)

AlignedRows-join_rows : (a b : Rows) → AlignedRows a → AlignedRows b → AlignedRows (join_rows a b)
AlignedRows-join_rows a b p q = record {
  length_seg = omega (
    arith,
    length-append a.seg b.seg,
    length-append a.tokens b.tokens,
    p.length_seg,
    q.length_seg,
  );
  length_ids = omega (
    arith,
    length-append a.topk_ids b.topk_ids,
    length-append a.tokens b.tokens,
    p.length_ids,
    q.length_ids,
  );
  length_q8s = omega (
    arith,
    length-append a.topk_logp_q8 b.topk_logp_q8,
    length-append a.tokens b.tokens,
    p.length_q8s,
    q.length_q8s,
  );
  segs = all_in-append 3 a.seg b.seg p.segs q.segs;
  q8s = all_rows_in-append 255 a.topk_logp_q8 b.topk_logp_q8 p.q8s q.q8s;
}

step_rows-Aligned :
    (s : TraceStep) (a : ℕ)
    → Sound s a
    → AlignedRows (step_rows s.proposed (pos a) s.bonus s.seg s.topk_ids s.topk_logp_q8)
unfolding step_rows slice_to
step_rows-Aligned s a h =
    let size : length (take a s.proposed ++ s.bonus ∷ []) ≡ suc a = omega (
      arith,
      h.accepted,
      length-append (take a s.proposed) (s.bonus ∷ []),
      length-take a s.proposed,
    ) in
    rw size (record {
      length_seg = length-or_default (suc a) s.seg (pos 3) h.seg_length ∙ sym size;
      length_ids = length-or_default (suc a) s.topk_ids [] h.ids_length ∙ sym size;
      length_q8s = length-or_default (suc a) s.topk_logp_q8 [] h.q8s_length ∙ sym size;
      segs = all_in-or_default (suc a) s.seg h.segs;
      q8s = all_rows_in-or_default (suc a) s.topk_logp_q8 h.q8s;
    })

normalize_step-Aligned :
    (st : RawStep) → Accepted st → (r : Rows) × (normalize_step st ≡ ok r) × AlignedRows r
unfolding normalize_step
normalize_step-Aligned st h =
    let s = h.step in
    (
      step_rows s.proposed (pos h.count) s.bonus s.seg s.topk_ids s.topk_logp_q8,
      rw
          (
            h.holds.proposed, h.holds.accepted_len, h.holds.bonus, h.holds.seg, h.holds.topk_ids,
            h.holds.topk_logp_q8, h.natural,
          )
          refl,
      step_rows-Aligned s h.count h.sound,
    )

normalize_steps-Aligned :
    (steps : List RawStep)
    → All Accepted steps
    → (r : Rows) × (normalize_steps steps ≡ ok r) × AlignedRows r
unfolding normalize_steps
normalize_steps-Aligned [] h = (
  no_rows,
  refl,
  record { length_seg = refl; length_ids = refl; length_q8s = refl; segs = refl; q8s = refl },
)
normalize_steps-Aligned (st ∷ steps) h =
    let (r, e, p) = normalize_step-Aligned st h.0 in
    let (rest, e', q) = normalize_steps-Aligned steps h.1 in
    (join_rows r rest, rw (e, e') refl, AlignedRows-join_rows r rest p q)

pub normalize_record-listed :
    (r : RawRecord) (evs : List TraceEvent)
    → validate_record r ≡ []
    → normalize_events (or_none_listed r.events) ≡ ok evs
    → (req : TraceRequest) × (normalize_record r ≡ ok req)
      × Aligned req.tokens req.seg req.topk_ids req.topk_logp_q8
      × IsSorted req.events
unfolding normalize_record normalize_scope
normalize_record-listed r evs valid listed =
    let a = validate_record-AcceptedRecord r valid in
    let (rows, e, aligned) = normalize_steps-Aligned a.steps a.accepted in
    (
      record {
        request_id = a.request_id.0;
        ts = a.ts.0;
        scope = record {
          tenant = a.tenant.0;
          repo = a.repo.0;
          session = a.session.0;
          instance_id = or_empty a.scope.instance_id;
        };
        model = a.model.0;
        tokenizer_hash = a.tokenizer_hash.0;
        tokens = rows.tokens;
        seg = rows.seg;
        topk_ids = rows.topk_ids;
        topk_logp_q8 = rows.topk_logp_q8;
        events = sort_events evs;
      },
      rw
          (
            a.has_scope, a.request_id.1, a.ts.1, a.tenant.1, a.repo.1, a.session.1, a.model.1,
            a.tokenizer_hash.1, a.has_steps, e, listed,
          )
          refl,
      aligned,
      sort_events-IsSorted evs,
    )

normalize_record-unlisted :
    (r : RawRecord)
    → validate_record r ≡ []
    → normalize_events (or_none_listed r.events) ≡ err key_error
    → normalize_record r ≡ err key_error
unfolding normalize_record normalize_scope
normalize_record-unlisted r valid unlisted =
    let a = validate_record-AcceptedRecord r valid in
    let (rows, e, _) = normalize_steps-Aligned a.steps a.accepted in
    rw
      (
        a.has_scope, a.request_id.1, a.ts.1, a.tenant.1, a.repo.1, a.session.1, a.model.1,
        a.tokenizer_hash.1, a.has_steps, e, unlisted,
      )
      refl

-- A record of which `validate_record` has no complaint is normalized without an error exactly where
-- each of its events has its three keys without a default. Then the request has one segment and one
-- top-k list of each kind for each of its tokens, the segments are in 0..3, the quantised
-- log-probabilities in 0..255, and the events are in the order of their positions. Where an event lacks
-- such a key, the valid record ends in a KeyError.
pub normalize_record-Aligned :
    (r : RawRecord)
    → validate_record r ≡ []
    → ((all_keyed (or_none_listed r.events) ≡ true)
        × (req : TraceRequest) × (normalize_record r ≡ ok req)
        × Aligned req.tokens req.seg req.topk_ids req.topk_logp_q8
        × IsSorted req.events)
      ⊎ ((all_keyed (or_none_listed r.events) ≡ false) × (normalize_record r ≡ err key_error))
normalize_record-Aligned r valid = elim (normalize_events-cases (or_none_listed r.events)) [
  | inl (keyed, evs, listed) ↦
      let (req, e, aligned, sorted) = normalize_record-listed r evs valid listed in
      inl (keyed, req, e, aligned, sorted)
  | inr (lacks, unlisted) ↦ inr (lacks, normalize_record-unlisted r valid unlisted)
]
