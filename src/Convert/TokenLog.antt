-- ===== src/Convert/TokenLog.antt =====
-- `convert_token_log` of sim/convert.py: a list of tokens becomes a record with one step for each.
-- The keys `t_us` and `final_text_sha`, which nothing reads again, are left out.
pub mod Kept
use speculation_ledger.Prelude.{ℕ, suc, ◌+◌, Option, none, some, List, [], ◌∷◌, length, replicate}
use speculation_ledger.Prelude.Int.{ℤ, pos}
use speculation_ledger.Result.{Result, ok, err, or_raise, key_error, index_error, ◌>>=◌}
use speculation_ledger.Types.{Str, seg_text}
use speculation_ledger.Convert.{RawScope, RawStep, RawEvent, RawRecord, schema_version}
use speculation_ledger.Convert.Normalize.{or_default}

pub record TokenLog : Type 0 where
  pub request_id : Option Str
  pub ts : Option ℕ
  pub scope : Option RawScope
  pub model : Option Str
  pub tokenizer_hash : Option Str
  pub tokens : Option (List ℕ)
  pub seg : Option (List ℤ)
  pub topk_ids : Option (List (List ℕ))
  pub topk_logp_q8 : Option (List (List ℤ))
  pub events : Option (List RawEvent)

-- `rec.get(key) or default`
abbrev pub get_or_default {ℓ} : {A : Type ℓ} → Option (List A) → List A → List A
get_or_default none d = d
get_or_default (some xs) d = or_default xs d

-- `[list(row)] if row else []`
abbrev pub one_row {ℓ} : {A : Type ℓ} → List A → List (List A)
one_row [] = []
one_row (x ∷ xs) = (x ∷ xs) ∷ []

unfoldable pub log_step : ℕ → ℕ → ℤ → List ℕ → List ℤ → RawStep
log_step i t s ids qs = record {
  pos = some i;
  proposed = some [];
  accepted_len = some (pos 0);
  bonus = some t;
  topk_ids = some (one_row ids);
  topk_logp_q8 = some (one_row qs);
  seg = some (s ∷ []);
}

-- The loop over the tokens from index i on, with the rest of each list from that index on.
unfoldable pub log_steps :
    ℕ → List ℕ → List ℤ → List (List ℕ) → List (List ℤ) → Result (List RawStep)
log_steps i [] seg tki tkq = ok []
log_steps i (t ∷ toks) [] tki tkq = err index_error
log_steps i (t ∷ toks) (s ∷ seg) [] tkq = err index_error
log_steps i (t ∷ toks) (s ∷ seg) (ids ∷ tki) [] = err index_error
log_steps i (t ∷ toks) (s ∷ seg) (ids ∷ tki) (qs ∷ tkq) = do
  rest ← log_steps (suc i) toks seg tki tkq
  ok (log_step i t s ids qs ∷ rest)

-- `if rec.get("events")`
abbrev pub nonempty_events : Option (List RawEvent) → Option (List RawEvent)
nonempty_events none = none
nonempty_events (some []) = none
nonempty_events (some (e ∷ es)) = some (e ∷ es)

-- The model's default, "unknown".
abbrev pub unknown : Str
unknown = 117 ∷ 110 ∷ 107 ∷ 110 ∷ 111 ∷ 119 ∷ 110 ∷ []

abbrev pub or_unknown : Option Str → Str
or_unknown none = unknown
or_unknown (some m) = m

abbrev pub log_seg : TokenLog → ℕ → List ℤ
log_seg log n = get_or_default log.seg (replicate n (pos seg_text))

abbrev pub log_ids : TokenLog → ℕ → List (List ℕ)
log_ids log n = get_or_default log.topk_ids (replicate n [])

abbrev pub log_q8s : TokenLog → ℕ → List (List ℤ)
log_q8s log n = get_or_default log.topk_logp_q8 (replicate n [])

unfoldable pub convert_token_log : TokenLog → Result RawRecord
unfolding log_steps log_step
convert_token_log log = do
  toks ← or_raise log.tokens key_error
  steps ←
      log_steps 0 toks (log_seg log (length toks)) (log_ids log (length toks))
        (log_q8s log (length toks))
  request_id ← or_raise log.request_id key_error
  ts ← or_raise log.ts key_error
  scope ← or_raise log.scope key_error
  tokenizer_hash ← or_raise log.tokenizer_hash key_error
  ok (record {
    schema_version = some schema_version;
    request_id = some request_id;
    ts = some ts;
    scope = some scope;
    model = some (or_unknown log.model);
    tokenizer_hash = some tokenizer_hash;
    steps = some steps;
    events = nonempty_events log.events;
  })
