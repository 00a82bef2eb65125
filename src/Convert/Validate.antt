-- ===== src/Convert/Validate.antt =====
-- `validate_record` of sim/convert.py: the list of what is wrong with a record.
pub mod Accept
use speculation_ledger.Prelude.{
  ℕ, suc, ◌+◌, Bool, true, false, not, ◌&&◌, ◌||◌, Option, none, some, List, [], ◌∷◌, ◌++◌, leb,
  ltb, ◌==◌, if◌then◌else◌, length,
}
use speculation_ledger.Prelude.Int.{ℤ, pos, negsuc}
use speculation_ledger.Result.{Result, ok, err, or_raise, key_error, ◌>>=◌}
use speculation_ledger.Convert.{RawScope, RawStep, RawRecord, schema_version, has}

-- The error messages. A key is named by its place in `_REQUIRED_TOP`, `_REQUIRED_SCOPE` or
-- `_REQUIRED_STEP`, and one of the three lists of a step by its place in the loop over them.
pub data Complaint : Type 0 where
  missing_top : ℕ → Complaint
  wrong_schema : ℕ → Complaint
  missing_scope : ℕ → Complaint
  missing_step : ℕ → ℕ → Complaint
  negative_accepted : ℕ → Complaint
  many_accepted : ℕ → Complaint
  seg_range : ℕ → Complaint
  wrong_length : ℕ → ℕ → Complaint
  row_mismatch : ℕ → ℕ → Complaint
  q8_range : ℕ → Complaint

-- The places of the keys that are not there.
unfoldable pub missing : ℕ → List Bool → List ℕ
missing i [] = []
missing i (b ∷ bs) = let rest = missing (suc i) bs in if b then rest else i ∷ rest

unfoldable pub complain : (ℕ → Complaint) → List ℕ → List Complaint
complain f [] = []
complain f (k ∷ ks) = f k ∷ complain f ks

abbrev pub keys_top : RawRecord → List Bool
keys_top r =
    has r.schema_version
    ∷ has r.request_id
    ∷ has r.ts
    ∷ has r.scope
    ∷ has r.model
    ∷ has r.tokenizer_hash
    ∷ has r.steps
    ∷ []

abbrev pub keys_scope : RawScope → List Bool
keys_scope s = has s.tenant ∷ has s.repo ∷ has s.session ∷ []

abbrev pub keys_step : RawStep → List Bool
keys_step s =
    has s.pos
    ∷ has s.proposed
    ∷ has s.accepted_len
    ∷ has s.bonus
    ∷ has s.topk_ids
    ∷ has s.topk_logp_q8
    ∷ has s.seg
    ∷ []

-- A step with all its keys.
pub record TraceStep : Type 0 where
  pub proposed : List ℕ
  pub accepted_len : ℤ
  pub bonus : ℕ
  pub topk_ids : List (List ℕ)
  pub topk_logp_q8 : List (List ℤ)
  pub seg : List ℤ

unfoldable pub complete : RawStep → Result TraceStep
complete s = do
  place ← or_raise s.pos key_error
  proposed ← or_raise s.proposed key_error
  accepted_len ← or_raise s.accepted_len key_error
  bonus ← or_raise s.bonus key_error
  topk_ids ← or_raise s.topk_ids key_error
  topk_logp_q8 ← or_raise s.topk_logp_q8 key_error
  seg ← or_raise s.seg key_error
  ok (record {
    proposed = proposed;
    accepted_len = accepted_len;
    bonus = bonus;
    topk_ids = topk_ids;
    topk_logp_q8 = topk_logp_q8;
    seg = seg;
  })

-- `lo <= x <= hi` for lo = 0
abbrev pub in_range : ℕ → ℤ → Bool
in_range hi (pos n) = leb n hi
in_range hi (negsuc n) = false

abbrev pub all_in : ℕ → List ℤ → Bool
all_in hi [] = true
all_in hi (x ∷ xs) = in_range hi x && all_in hi xs

abbrev pub all_rows_in : ℕ → List (List ℤ) → Bool
all_rows_in hi [] = true
all_rows_in hi (row ∷ rows) = all_in hi row && all_rows_in hi rows

abbrev pub when : Bool → Complaint → List Complaint
when true c = c ∷ []
when false c = []

-- `len(xs) not in (n_real, 0)`
abbrev pub bad_length : ℕ → ℕ → Bool
bad_length n len = not (len == n || len == 0)

-- The loop over the rows of both lists, to the first pair of different lengths.
unfoldable pub check_rows : ℕ → ℕ → List (List ℕ) → List (List ℤ) → List Complaint
check_rows i r (ids ∷ idss) (qs ∷ qss) =
    let rest = check_rows i (suc r) idss qss in
    if length ids == length qs then rest else row_mismatch i r ∷ []
check_rows i r [] qss = []
check_rows i r (ids ∷ idss) [] = []

-- The checks of a step that has its keys and accepted `a` tokens.
unfoldable pub check_accepted : ℕ → ℕ → TraceStep → List Complaint
unfolding check_rows
check_accepted i a s =
    when (ltb (length s.proposed) a) (many_accepted i)
    ++ (when (not (all_in 3 s.seg)) (seg_range i)
        ++ (when (bad_length (suc a) (length s.topk_ids)) (wrong_length i 0)
            ++ (when (bad_length (suc a) (length s.topk_logp_q8)) (wrong_length i 1)
                ++ (when (bad_length (suc a) (length s.seg)) (wrong_length i 2)
                    ++ (check_rows i 0 s.topk_ids s.topk_logp_q8
                        ++ when (not (all_rows_in 255 s.topk_logp_q8)) (q8_range i))))))

abbrev pub check_step : ℕ → TraceStep → ℤ → List Complaint
check_step i s (pos a) = check_accepted i a s
check_step i s (negsuc a) = negative_accepted i ∷ []

-- The first key that a step lacks.
abbrev pub first_key : List ℕ → List ℕ
first_key [] = []
first_key (k ∷ ks) = k ∷ []

unfoldable pub validate_step : ℕ → RawStep → List Complaint
unfolding complete check_accepted missing complain
validate_step i st = elim (complete st) [
  | err _ ↦ complain (missing_step i) (first_key (missing 0 (keys_step st)))
  | ok s ↦ check_step i s s.accepted_len
]

unfoldable pub validate_steps : ℕ → List RawStep → List Complaint
unfolding validate_step
validate_steps i [] = []
validate_steps i (s ∷ steps) = validate_step i s ++ validate_steps (suc i) steps

abbrev pub or_absent : Option RawScope → RawScope
or_absent none = record { tenant = none; repo = none; session = none; instance_id = none }
or_absent (some s) = s

abbrev pub or_no_steps : Option (List RawStep) → List RawStep
or_no_steps none = []
or_no_steps (some steps) = steps

abbrev pub check_schema : Option ℕ → List Complaint
check_schema none = []
check_schema (some v) = if v == schema_version then [] else wrong_schema v ∷ []

-- The part after the first return, where the top-level keys are there.
unfoldable pub validate_body : RawRecord → List Complaint
unfolding validate_steps
validate_body r =
    check_schema r.schema_version
    ++ (complain missing_scope (missing 0 (keys_scope (or_absent r.scope)))
        ++ validate_steps 0 (or_no_steps r.steps))

unfoldable pub validate_record : RawRecord → List Complaint
unfolding validate_body
validate_record r = elim (missing 0 (keys_top r)) [
  | [] ↦ validate_body r
  | k ∷ ks ↦ complain missing_top (k ∷ ks)
]
