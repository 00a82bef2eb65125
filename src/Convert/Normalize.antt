-- ===== src/Convert/Normalize.antt =====
-- `normalize_record` of sim/convert.py: a record by realized positions.
pub mod Keys
pub mod Sorted
pub mod Aligned
use speculation_ledger.Prelude.{
  ℕ, suc, ◌-◌, ◌+◌, Option, none, some, List, [], ◌∷◌, ◌++◌, ltb, if◌then◌else◌, length, take,
  replicate,
}
use speculation_ledger.Prelude.Int.{ℤ, pos, negsuc}
use speculation_ledger.Result.{Result, ok, or_raise, key_error, ◌>>=◌}
use speculation_ledger.Types.{Str, Scope, seg_text}
use speculation_ledger.Convert.{RawScope, RawStep, RawEvent, RawRecord, TraceEvent, TraceRequest}

-- `xs[:n]`
unfoldable pub slice_to {ℓ} : {A : Type ℓ} → ℤ → List A → List A
slice_to (pos n) xs = take n xs
slice_to (negsuc n) xs = take (length xs - suc n) xs

-- `xs or default`
abbrev pub or_default {ℓ} : {A : Type ℓ} → List A → List A → List A
or_default [] d = d
or_default (x ∷ xs) d = x ∷ xs

-- What one step adds to the four lists of a request.
pub record Rows : Type 0 where
  pub tokens : List ℕ
  pub seg : List ℤ
  pub topk_ids : List (List ℕ)
  pub topk_logp_q8 : List (List ℤ)

abbrev pub no_rows : Rows
no_rows = record { tokens = []; seg = []; topk_ids = []; topk_logp_q8 = [] }

abbrev pub join_rows : Rows → Rows → Rows
join_rows a b = record {
  tokens = a.tokens ++ b.tokens;
  seg = a.seg ++ b.seg;
  topk_ids = a.topk_ids ++ b.topk_ids;
  topk_logp_q8 = a.topk_logp_q8 ++ b.topk_logp_q8;
}

unfoldable pub step_rows : List ℕ → ℤ → ℕ → List ℤ → List (List ℕ) → List (List ℤ) → Rows
step_rows proposed accepted_len bonus seg topk_ids topk_logp_q8 =
    let tokens = slice_to accepted_len proposed ++ bonus ∷ [] in
    let n = length tokens in
    record {
      tokens = tokens;
      seg = or_default seg (replicate n (pos seg_text));
      topk_ids = or_default topk_ids (replicate n []);
      topk_logp_q8 = or_default topk_logp_q8 (replicate n []);
    }

unfoldable pub normalize_step : RawStep → Result Rows
unfolding step_rows
normalize_step st = do
  proposed ← or_raise st.proposed key_error
  accepted_len ← or_raise st.accepted_len key_error
  bonus ← or_raise st.bonus key_error
  seg ← or_raise st.seg key_error
  topk_ids ← or_raise st.topk_ids key_error
  topk_logp_q8 ← or_raise st.topk_logp_q8 key_error
  ok (step_rows proposed accepted_len bonus seg topk_ids topk_logp_q8)

unfoldable pub normalize_steps : List RawStep → Result Rows
normalize_steps [] = ok no_rows
normalize_steps (st ∷ steps) = do
  rows ← normalize_step st
  rest ← normalize_steps steps
  ok (join_rows rows rest)

abbrev pub or_minus_one : Option ℤ → ℤ
or_minus_one none = negsuc 0
or_minus_one (some b) = b

unfoldable pub normalize_event : RawEvent → Result TraceEvent
normalize_event ev = do
  place ← or_raise ev.pos key_error
  kind ← or_raise ev.kind key_error
  file ← or_raise ev.file key_error
  ok (record { pos = place; kind = kind; file = file; bump_pos = or_minus_one ev.bump_pos })

unfoldable pub normalize_events : List RawEvent → Result (List TraceEvent)
unfolding normalize_event
normalize_events [] = ok []
normalize_events (ev ∷ evs) = do e ← normalize_event ev; rest ← normalize_events evs; ok (e ∷ rest)

-- `sort(key=lambda e: e.pos)`, which keeps the order of equals.
unfoldable pub insert_event : TraceEvent → List TraceEvent → List TraceEvent
insert_event e [] = e ∷ []
insert_event e (c ∷ cs) =
    let rest = insert_event e cs in if ltb c.pos e.pos then c ∷ rest else e ∷ c ∷ cs

unfoldable pub sort_events : List TraceEvent → List TraceEvent
unfolding insert_event
sort_events [] = []
sort_events (e ∷ es) = insert_event e (sort_events es)

abbrev pub or_none_listed : Option (List RawEvent) → List RawEvent
or_none_listed none = []
or_none_listed (some evs) = evs

abbrev pub or_empty : Option Str → Str
or_empty none = []
or_empty (some s) = s

unfoldable pub normalize_scope : RawScope → Result Scope
normalize_scope sc = do
  tenant ← or_raise sc.tenant key_error
  repo ← or_raise sc.repo key_error
  session ← or_raise sc.session key_error
  ok (record {
    tenant = tenant;
    repo = repo;
    session = session;
    instance_id = or_empty sc.instance_id;
  })

unfoldable pub normalize_record : RawRecord → Result TraceRequest
unfolding normalize_scope normalize_steps normalize_events sort_events
normalize_record r = do
  sc ← or_raise r.scope key_error
  request_id ← or_raise r.request_id key_error
  ts ← or_raise r.ts key_error
  scope ← normalize_scope sc
  model ← or_raise r.model key_error
  tokenizer_hash ← or_raise r.tokenizer_hash key_error
  steps ← or_raise r.steps key_error
  rows ← normalize_steps steps
  events ← normalize_events (or_none_listed r.events)
  ok (record {
    request_id = request_id;
    ts = ts;
    scope = scope;
    model = model;
    tokenizer_hash = tokenizer_hash;
    tokens = rows.tokens;
    seg = rows.seg;
    topk_ids = rows.topk_ids;
    topk_logp_q8 = rows.topk_logp_q8;
    events = sort_events events;
  })
