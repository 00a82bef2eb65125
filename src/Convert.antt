-- ===== src/Convert.antt =====
-- sim/convert.py: records of a trace as they are read, their validation, and the view by realized
-- positions. A JSON object is a record with an optional field for each key that the code asks for;
-- the values have the types that the schema gives them, where an int is a natural or an integer.
pub mod Validate
pub mod Normalize
pub mod TokenLog
pub mod Read
use speculation_ledger.Prelude.{ℕ, Bool, true, false, Option, none, some, List, []}
use speculation_ledger.Prelude.Int.{ℤ, pos, negsuc}
use speculation_ledger.Types.{Str, Scope}

pub record RawScope : Type 0 where
  pub tenant : Option Str
  pub repo : Option Str
  pub session : Option Str
  pub instance_id : Option Str

pub record RawStep : Type 0 where
  pub pos : Option ℕ
  pub proposed : Option (List ℕ)
  pub accepted_len : Option ℤ
  pub bonus : Option ℕ
  pub topk_ids : Option (List (List ℕ))
  pub topk_logp_q8 : Option (List (List ℤ))
  pub seg : Option (List ℤ)

pub record RawEvent : Type 0 where
  pub pos : Option ℕ
  pub kind : Option Str
  pub file : Option Str
  pub bump_pos : Option ℤ

pub record RawRecord : Type 0 where
  pub schema_version : Option ℕ
  pub request_id : Option Str
  pub ts : Option ℕ
  pub scope : Option RawScope
  pub model : Option Str
  pub tokenizer_hash : Option Str
  pub steps : Option (List RawStep)
  pub events : Option (List RawEvent)

-- `kind` is the field `type`.
pub record TraceEvent : Type 0 where
  pub pos : ℕ
  pub kind : Str
  pub file : Str
  pub bump_pos : ℤ

-- `effective_bump_pos()`
unfoldable pub effective_bump_pos : TraceEvent → ℕ
effective_bump_pos e = elim e.bump_pos [ pos b ↦ b | negsuc _ ↦ e.pos ]

pub record TraceRequest : Type 0 where
  pub request_id : Str
  pub ts : ℕ
  pub scope : Scope
  pub model : Str
  pub tokenizer_hash : Str
  pub tokens : List ℕ
  pub seg : List ℤ
  pub topk_ids : List (List ℕ)
  pub topk_logp_q8 : List (List ℤ)
  pub events : List TraceEvent

-- `SCHEMA_VERSION`
abbrev pub schema_version : ℕ
schema_version = 1

-- `k in d`
abbrev pub has {ℓ} : {A : Type ℓ} → Option A → Bool
has none = false
has (some a) = true
