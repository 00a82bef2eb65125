-- ===== src/Replay/Requests.antt =====
-- What `run_replay` of sim/replay.py prepares and counts for one request.
use speculation_ledger.Prelude.{
  ℕ, zero, suc, ◌+◌, ◌-◌, Bool, Option, none, some, List, [], ◌∷◌, ◌==◌, if◌then◌else◌, length, min,
  replicate,
}
use speculation_ledger.Prelude.Texts.{str_eq}
use speculation_ledger.Prelude.Dict.{Dict, lookup, insert}
use speculation_ledger.Hash.{Blake2b}
use speculation_ledger.Types.{Str, file_id}
use speculation_ledger.Convert.{TraceEvent, TraceRequest}

-- "file_edit"
abbrev pub word_file_edit : Str
word_file_edit = b'f' ∷ b'i' ∷ b'l' ∷ b'e' ∷ b'_' ∷ b'e' ∷ b'd' ∷ b'i' ∷ b't' ∷ []

-- `e.type == "file_edit"`
abbrev pub is_file_edit : TraceEvent → Bool
is_file_edit e = str_eq e.kind word_file_edit

-- `file_ids[i] = fid` for the i in range(lo, hi).
unfoldable pub fill : ℕ → ℕ → ℕ → List ℕ → List ℕ
fill lo hi fid [] = []
fill zero zero fid (x ∷ xs) = x ∷ xs
fill zero (suc hi) fid (x ∷ xs) = fid ∷ fill zero hi fid xs
fill (suc lo) hi fid (x ∷ xs) = x ∷ fill lo (hi - 1) fid xs

-- `next((file_ids[i] for i in ... if file_ids[i]), 0)`
unfoldable pub first_nonzero : List ℕ → ℕ
first_nonzero [] = 0
first_nonzero (x ∷ xs) = let rest = first_nonzero xs in if x == 0 then rest else x

module _ (h : Blake2b) where
  -- The loop over the events, from the list so far and `prev_end`.
  unfoldable pub mark_files : List TraceEvent → ℕ → List ℕ → List ℕ
  unfolding fill
  mark_files [] prev_end ids = ids
  mark_files (ev ∷ evs) prev_end ids =
      let past = mark_files evs prev_end ids in
      let marked =
        mark_files evs (ev.pos + 1)
          (fill prev_end (min (ev.pos + 1) (length ids)) (file_id h ev.file) ids) in
      if is_file_edit ev then marked else past

  unfoldable pub file_ids : TraceRequest → List ℕ
  unfolding mark_files
  file_ids req = mark_files req.events 0 (replicate (length req.tokens) 0)

-- The two dicts are keyed by the segment that `_SEG_NAMES` names.
pub record RequestMetrics : Type 0 where
  pub request_id : Str
  pub ts : ℕ
  pub session : Str
  pub steps : ℕ
  pub tokens : ℕ
  pub drafted_tokens : ℕ
  pub drafted_steps : ℕ
  pub seg_steps : Dict ℕ
  pub seg_tokens : Dict ℕ

abbrev pub new_metrics : TraceRequest → RequestMetrics
new_metrics req = record {
  request_id = req.request_id;
  ts = req.ts;
  session = req.scope.session;
  steps = 0;
  tokens = 0;
  drafted_tokens = 0;
  drafted_steps = 0;
  seg_steps = [];
  seg_tokens = [];
}

abbrev pub or_zero : Option ℕ → ℕ
or_zero none = 0
or_zero (some n) = n

-- `d[key] = d.get(key, 0) + k`
unfoldable pub add_at : ℕ → ℕ → Dict ℕ → Dict ℕ
add_at key k d = insert key (or_zero (lookup key d) + k) d

-- The counts of one step that realized `n_real` tokens where `drafted` were drafted.
unfoldable pub count_step : ℕ → ℕ → ℕ → RequestMetrics → RequestMetrics
unfolding add_at
count_step seg n_real drafted rm = record rm {
  steps = rm.steps + 1;
  tokens = rm.tokens + n_real;
  seg_steps = add_at seg 1 rm.seg_steps;
  seg_tokens = add_at seg n_real rm.seg_tokens;
  drafted_tokens = rm.drafted_tokens + drafted;
  drafted_steps = rm.drafted_steps + (if drafted == 0 then 0 else 1);
}
