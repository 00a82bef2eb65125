-- ===== src/Hash.antt =====
-- `hashlib.blake2b`, which the program uses and does not implement.
use speculation_ledger.Prelude.{ℕ, List, ◌^◌, ◌<◌}

pub record Blake2b : Type 0 where
  -- `digest n bytes` is the digest of n bytes, read as a little-endian number.
  pub digest : ℕ → List ℕ → ℕ
  pub digest-lt : (n : ℕ) (bytes : List ℕ) → digest n bytes < 256 ^ n
