-- ===== src/Convert/TokenLog/Kept.antt =====
-- What `convert_token_log` of sim/convert.py makes is valid, and normalizes to what the log said.
use speculation_ledger.Prelude.{ℕ, ◌≡◌, Bool, true, ◌&&◌, Option, some, List, [], ◌∷◌, ◌==◌, length}
use speculation_ledger.Prelude.Int.{ℤ}
use speculation_ledger.Types.{Str}
use speculation_ledger.Convert.Normalize.Aligned.{Aligned}
use speculation_ledger.Convert.TokenLog.{TokenLog}

-- The rows of the two lists have the same lengths, one by one.
abbrev pub same_lengths : List (List ℕ) → List (List ℤ) → Bool
same_lengths (ids ∷ idss) (qs ∷ qss) = (length ids == length qs) && same_lengths idss qss
same_lengths [] qss = true
same_lengths (ids ∷ idss) [] = true

-- A log with the keys that have no default.
pub record Complete (log : TokenLog) : Type 0 where
  pub tokens : (v : List ℕ) × (log.tokens ≡ some v)
  pub request_id : (v : Str) × (log.request_id ≡ some v)
  pub ts : (v : ℕ) × (log.ts ≡ some v)
  pub tokenizer_hash : (v : Str) × (log.tokenizer_hash ≡ some v)
  pub tenant : Str
  pub repo : Str
  pub session : Str
  pub instance_id : Option Str
  pub has_scope :
      log.scope
      ≡ some (record {
        tenant = some tenant;
        repo = some repo;
        session = some session;
        instance_id = instance_id;
      })
