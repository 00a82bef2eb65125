-- ===== src/Tests/Traces.antt =====
-- The theorems on trace records at concrete inputs.
use speculation_ledger.Prelude.{ℕ, ◌≡◌, ◌⊎◌, refl, true, false, none, some, List, [], ◌∷◌}
use speculation_ledger.Prelude.Int.{pos}
use speculation_ledger.Result.{ok, err, key_error}
use speculation_ledger.Convert.{RawScope, RawStep, RawEvent, RawRecord, TraceRequest}
use speculation_ledger.Convert.Validate.{
  complete, check_rows, check_accepted, missing, complain, validate_step, validate_steps,
  validate_body, validate_record,
}
use speculation_ledger.Convert.Normalize.{normalize_record}
use speculation_ledger.Convert.Normalize.Aligned.{Aligned, normalize_record-Aligned}
use speculation_ledger.Convert.Normalize.Sorted.{IsSorted}
use speculation_ledger.Convert.Read.{read_traces}
use speculation_ledger.Convert.Read.Reading.{Reads, read_traces-InTime}
use speculation_ledger.Convert.TokenLog.{TokenLog}
use speculation_ledger.Convert.TokenLog.Kept.{Complete}

abbrev raw_scope : RawScope
raw_scope = record {
  tenant = some (b'a' ∷ []);
  repo = some (b'r' ∷ []);
  session = some (b's' ∷ []);
  instance_id = none;
}

-- Two tokens accepted of three that were drafted.
abbrev raw_step : RawStep
raw_step = record {
  pos = some 0;
  proposed = some (4 ∷ 5 ∷ 6 ∷ []);
  accepted_len = some (pos 2);
  bonus = some 7;
  topk_ids = some ((4 ∷ []) ∷ [] ∷ (7 ∷ 6 ∷ []) ∷ []);
  topk_logp_q8 = some ((pos 3 ∷ []) ∷ [] ∷ (pos 2 ∷ pos 90 ∷ []) ∷ []);
  seg = some [];
}

abbrev raw_event : ℕ → RawEvent
raw_event n = record {
  pos = some n;
  kind = some (b'e' ∷ []);
  file = some (b'f' ∷ []);
  bump_pos = none;
}

abbrev raw_record : RawRecord
raw_record = record {
  schema_version = some 1;
  request_id = some (b'q' ∷ []);
  ts = some 9;
  scope = some raw_scope;
  model = some (b'm' ∷ []);
  tokenizer_hash = some [];
  steps = some (raw_step ∷ []);
  events = some (raw_event 2 ∷ raw_event 1 ∷ []);
}

raw_record_valid : validate_record raw_record ≡ []
unfolding validate_record validate_body validate_steps validate_step complete check_accepted
    check_rows missing complain
raw_record_valid = refl

normalize_record-Aligned_example :
    ((true ≡ true)
      × (req : TraceRequest) × (normalize_record raw_record ≡ ok req)
      × Aligned req.tokens req.seg req.topk_ids req.topk_logp_q8
      × IsSorted req.events)
    ⊎ ((true ≡ false) × (normalize_record raw_record ≡ err key_error))
normalize_record-Aligned_example = normalize_record-Aligned raw_record raw_record_valid

abbrev log : TokenLog
log = record {
  request_id = some (b'q' ∷ []);
  ts = some 9;
  scope = some raw_scope;
  model = none;
  tokenizer_hash = some [];
  tokens = some (4 ∷ 5 ∷ []);
  seg = some (pos 2 ∷ pos 0 ∷ []);
  topk_ids = some ((4 ∷ 8 ∷ []) ∷ [] ∷ []);
  topk_logp_q8 = some ((pos 3 ∷ pos 60 ∷ []) ∷ [] ∷ []);
  events = none;
}

abbrev log_Complete : Complete log
log_Complete = record {
  tokens = (4 ∷ 5 ∷ [], refl);
  request_id = (b'q' ∷ [], refl);
  ts = (9, refl);
  tokenizer_hash = ([], refl);
  tenant = b'a' ∷ [];
  repo = b'r' ∷ [];
  session = b's' ∷ [];
  instance_id = none;
  has_scope = refl;
}

-- A record of another schema, and a good one.
abbrev records : List RawRecord
records = record raw_record { schema_version = some 2 } ∷ raw_record ∷ []

read_traces-InTime_example : Reads true records (read_traces true records)
read_traces-InTime_example = read_traces-InTime true records
