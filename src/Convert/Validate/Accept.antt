-- ===== src/Convert/Validate/Accept.antt =====
-- What `validate_record` of sim/convert.py makes sure of, where it has no complaint.
use speculation_ledger.Prelude.{
  ℕ, suc, ◌≤◌, ◌≡◌, ◌≢◌, refl, sym, Bool, true, false, not, Option, none, some, List, [], ◌∷◌, ◌++◌,
  arith, ltb, length, All,
}
use speculation_ledger.Prelude.Int.{ℤ, pos, negsuc}
use speculation_ledger.Result.{Result, ok, err}
use speculation_ledger.Convert.{RawScope, RawStep, RawRecord, has}
use speculation_ledger.Convert.Validate.{
  Complaint, missing, complain, keys_step, keys_top, keys_scope, TraceStep, complete, all_in,
  all_rows_in, when, bad_length, check_schema, check_accepted, many_accepted, check_step, first_key,
  validate_step, validate_steps, or_no_steps, or_absent, validate_body, validate_record,
}

nil_of_append : {A : Type 0} (xs ys : List A) → xs ++ ys ≡ [] → (xs ≡ []) × (ys ≡ [])
nil_of_append [] ys e = (refl, e)
nil_of_append (x ∷ xs) ys e = absurd (ground arith)

false_of_when : (b : Bool) (c : Complaint) → when b c ≡ [] → b ≡ false
false_of_when true c e = absurd (ground arith)
false_of_when false c e = refl

-- The raw step has these values.
pub record Holds (st : RawStep) (s : TraceStep) : Type 0 where
  pub proposed : st.proposed ≡ some s.proposed
  pub accepted_len : st.accepted_len ≡ some s.accepted_len
  pub bonus : st.bonus ≡ some s.bonus
  pub topk_ids : st.topk_ids ≡ some s.topk_ids
  pub topk_logp_q8 : st.topk_logp_q8 ≡ some s.topk_logp_q8
  pub seg : st.seg ≡ some s.seg

complete-Holds : (st : RawStep) (s : TraceStep) → complete st ≡ ok s → Holds st s
unfolding complete
complete-Holds st s e = ground arith

complete_err : (st : RawStep) {r : _} → complete st ≡ err r → missing 0 (keys_step st) ≢ []
unfolding complete missing
complete_err st e = λ h. ground arith

-- What the checks of one step make sure of.
pub record Sound (s : TraceStep) (a : ℕ) : Type 0 where
  pub accepted : a ≤ length s.proposed
  pub segs : all_in 3 s.seg ≡ true
  pub ids_length : bad_length (suc a) (length s.topk_ids) ≡ false
  pub q8s_length : bad_length (suc a) (length s.topk_logp_q8) ≡ false
  pub seg_length : bad_length (suc a) (length s.seg) ≡ false
  pub q8s : all_rows_in 255 s.topk_logp_q8 ≡ true

true_of_not : (b : Bool) → not b ≡ false → b ≡ true
true_of_not true e = refl
true_of_not false e = sym e

check_accepted-Sound : (i a : ℕ) (s : TraceStep) → check_accepted i a s ≡ [] → Sound s a
unfolding check_accepted
check_accepted-Sound i a s e =
    let (p, e1) = nil_of_append _ _ e in
    let (q, e2) = nil_of_append _ _ e1 in
    let (r, e3) = nil_of_append _ _ e2 in
    let (t, e4) = nil_of_append _ _ e3 in
    let (u, e5) = nil_of_append _ _ e4 in
    let (v, w) = nil_of_append _ _ e5 in
    let few = false_of_when (ltb (length s.proposed) a) (many_accepted i) p in
    record {
      accepted = ground (arith, few);
      segs = true_of_not _ (false_of_when _ _ q);
      ids_length = false_of_when _ _ r;
      q8s_length = false_of_when _ _ t;
      seg_length = false_of_when _ _ u;
      q8s = true_of_not _ (false_of_when _ _ w);
    }

-- A step with no complaint has all its keys, a count of accepted tokens that is not negative, and
-- lists that fit it.
pub record Accepted (st : RawStep) : Type 0 where
  pub step : TraceStep
  pub count : ℕ
  pub holds : Holds st step
  pub natural : step.accepted_len ≡ pos count
  pub sound : Sound step count

pub validate_step-Accepted : (i : ℕ) (st : RawStep) → validate_step i st ≡ [] → Accepted st
unfolding validate_step
validate_step-Accepted i st e = by_result (complete st) refl e
  where
    by_sign :
        (s : TraceStep) (a : ℤ)
        → complete st ≡ ok s
        → s.accepted_len ≡ a
        → check_step i s a ≡ []
        → Accepted st
    by_sign s (pos a) c n h = record {
      step = s;
      count = a;
      holds = complete-Holds st s c;
      natural = n;
      sound = check_accepted-Sound i a s h;
    }
    by_sign s (negsuc a) c n h = absurd (ground arith)

    by_result :
        (r : Result TraceStep)
        → complete st ≡ r
        → elim r [
          | err _ ↦
              complain (λ k. Complaint.missing_step i k) (first_key (missing 0 (keys_step st)))
          | ok s ↦ check_step i s s.accepted_len
        ]
          ≡ []
        → Accepted st
    by_result (ok s) c h = by_sign s s.accepted_len c refl h
    by_result (err x) c h = absurd (complete_err st c (ground arith))

pub validate_steps-Accepted :
    (i : ℕ) (steps : List RawStep) → validate_steps i steps ≡ [] → All Accepted steps
unfolding validate_steps
validate_steps-Accepted i [] e = tt
validate_steps-Accepted i (st ∷ steps) e =
    let (here, rest) = nil_of_append (validate_step i st) (validate_steps (suc i) steps) e in
    (validate_step-Accepted i st here, validate_steps-Accepted (suc i) steps rest)

-- The keys that a record needs are there, and its steps are accepted.
pub record AcceptedRecord (r : RawRecord) : Type 0 where
  pub request_id : (x : List ℕ) × (r.request_id ≡ some x)
  pub ts : (x : ℕ) × (r.ts ≡ some x)
  pub model : (x : List ℕ) × (r.model ≡ some x)
  pub tokenizer_hash : (x : List ℕ) × (r.tokenizer_hash ≡ some x)
  pub scope : RawScope
  pub has_scope : r.scope ≡ some scope
  pub tenant : (x : List ℕ) × (scope.tenant ≡ some x)
  pub repo : (x : List ℕ) × (scope.repo ≡ some x)
  pub session : (x : List ℕ) × (scope.session ≡ some x)
  pub steps : List RawStep
  pub has_steps : r.steps ≡ some steps
  pub accepted : All Accepted steps

there : {A : Type 0} (o : Option A) → has o ≡ true → (x : A) × (o ≡ some x)
there none e = cc
there (some x) e = (x, refl)

missing_none :
    (i : ℕ) (b : Bool) (bs : List Bool)
    → missing i (b ∷ bs) ≡ []
    → (b ≡ true) × (missing (suc i) bs ≡ [])
unfolding missing
missing_none i true bs e = (refl, e)
missing_none i false bs e = absurd (ground arith)

complain_none : (f : ℕ → Complaint) (ks : List ℕ) → complain f ks ≡ [] → ks ≡ []
unfolding complain
complain_none f [] e = refl
complain_none f (k ∷ ks) e = absurd (ground arith)

keys_there :
    (r : RawRecord)
    → missing 0 (keys_top r) ≡ []
    → (has r.schema_version ≡ true)
      × (has r.request_id ≡ true)
      × (has r.ts ≡ true)
      × (has r.scope ≡ true)
      × (has r.model ≡ true)
      × (has r.tokenizer_hash ≡ true)
      × (has r.steps ≡ true)
keys_there r m =
    let (k0, m1) = missing_none 0 _ _ m in
    let (k1, m2) = missing_none 1 _ _ m1 in
    let (k2, m3) = missing_none 2 _ _ m2 in
    let (k3, m4) = missing_none 3 _ _ m3 in
    let (k4, m5) = missing_none 4 _ _ m4 in
    let (k5, m6) = missing_none 5 _ _ m5 in
    let (k6, m7) = missing_none 6 _ _ m6 in (k0, k1, k2, k3, k4, k5, k6)

scope_there :
    (s : RawScope)
    → missing 0 (keys_scope s) ≡ []
    → (has s.tenant ≡ true) × (has s.repo ≡ true) × (has s.session ≡ true)
scope_there s m =
    let (k0, m1) = missing_none 0 _ _ m in
    let (k1, m2) = missing_none 1 _ _ m1 in let (k2, m3) = missing_none 2 _ _ m2 in (k0, k1, k2)

pub validate_record-AcceptedRecord : (r : RawRecord) → validate_record r ≡ [] → AcceptedRecord r
unfolding validate_record validate_body
validate_record-AcceptedRecord r e = by_missing (missing 0 (keys_top r)) refl e
  where
    by_missing :
        (ks : List ℕ)
        → missing 0 (keys_top r) ≡ ks
        → elim ks [
          | [] ↦ validate_body r
          | k ∷ ks ↦ complain (λ n. Complaint.missing_top n) (k ∷ ks)
        ]
          ≡ []
        → AcceptedRecord r
    by_missing (k ∷ ks) m h =
        absurd (ground (arith, complain_none (λ (n : ℕ). Complaint.missing_top n) (k ∷ ks) h))
    by_missing [] m h =
        let k = keys_there r m in
        let (sc, has_sc) = there r.scope k.3 in
        let (steps, has_steps) = there r.steps k.6 in
        let (schema, rest) =
          nil_of_append (check_schema r.schema_version)
            (complain (λ n. Complaint.missing_scope n) (missing 0 (keys_scope (or_absent r.scope)))
              ++ validate_steps 0 (or_no_steps r.steps))
            h in
        let (keys, body) =
          nil_of_append
            (complain (λ n. Complaint.missing_scope n) (missing 0 (keys_scope (or_absent r.scope))))
            (validate_steps 0 (or_no_steps r.steps)) rest in
        let none_missing =
          complain_none (λ n. Complaint.missing_scope n)
            (missing 0 (keys_scope (or_absent r.scope))) keys in
        let t = scope_there sc (rw has_sc at none_missing) in
        record {
          request_id = there r.request_id k.1;
          ts = there r.ts k.2;
          model = there r.model k.4;
          tokenizer_hash = there r.tokenizer_hash k.5;
          scope = sc;
          has_scope = has_sc;
          tenant = there sc.tenant t.0;
          repo = there sc.repo t.1;
          session = there sc.session t.2;
          steps = steps;
          has_steps = has_steps;
          accepted = validate_steps-Accepted 0 steps (rw has_steps at body);
        }
