-- ===== src/Arena.antt =====
-- core/arena.py: the append-only token array with its dedup table, and span entries.
pub mod Content
pub mod Compact
use mathlib.Core.Option
use speculation_ledger.Prelude.{
  ℕ, suc, ◌+◌, ◌*◌, ◌/◌, ◌%◌, ◌^◌, Option, none, some, List, [], ◌∷◌, ◌++◌, ltb, if◌then◌else◌,
  length, take, drop,
}
use speculation_ledger.Prelude.Dict.{Dict, lookup, insert}
use speculation_ledger.Hash.{Blake2b}

-- `t.to_bytes(4, "little", signed=False)` of each token, joined; `none` is its OverflowError.
unfoldable pub encode : List ℕ → Option (List ℕ)
encode [] = some []
encode (t ∷ ts) =
    if ltb t (2 ^ 32)
    then Option.map
        (λ bytes. (t % 256) ∷ (t / 256 % 256) ∷ (t / 65536 % 256) ∷ (t / 16777216) ∷ bytes)
        (encode ts)
    else none

pub record Break : Type 0 where
  pub count : ℕ
  pub patch_key : ℕ

pub record SpanEntry : Type 0 where
  pub key : ℕ
  pub arena_off : ℕ
  pub length : ℕ
  pub scope_id : ℕ
  pub seg : ℕ
  pub dom : ℕ
  pub epoch : ℕ
  pub count : ℕ
  pub breaks : Dict Break

-- `SpanEntry.bytes()`
unfoldable pub span_bytes : SpanEntry → ℕ
span_bytes s = 20 + 10 * length s.breaks

pub record SpanArena : Type 0 where
  pub tokens : List ℕ
  pub dedup : Dict ℕ

abbrev pub new_arena : SpanArena
new_arena = record { tokens = []; dedup = [] }

-- `get(off, length)`: a slice, which stops at the end of the array.
unfoldable pub get : SpanArena → ℕ → ℕ → List ℕ
get a off len = take len (drop off a.tokens)

-- `bytes()`
unfoldable pub arena_bytes : SpanArena → ℕ
arena_bytes a = 4 * length a.tokens

-- `load(tokens)`
unfoldable pub load_arena : List ℕ → SpanArena
load_arena tokens = record { tokens = tokens; dedup = [] }

module _ (h : Blake2b) where
  unfoldable pub content_hash : List ℕ → Option ℕ
  content_hash tokens = Option.map (λ bytes. h.digest 16 bytes) (encode tokens)

  -- The part of `add` behind the hash.
  unfoldable pub add_hashed : SpanArena → List ℕ → ℕ → SpanArena × ℕ × ℕ
  add_hashed a tokens c = elim (lookup c a.dedup) [
    | some off ↦ (a, off, length tokens)
    | none ↦
        let off = length a.tokens in
        (record { tokens = a.tokens ++ tokens; dedup = insert c off a.dedup }, off, length tokens)
  ]

  -- `add(tokens)`: the arena after it, the offset and the length; `none` is the OverflowError.
  unfoldable pub add : SpanArena → List ℕ → Option (SpanArena × ℕ × ℕ)
  add a tokens = Option.map (add_hashed a tokens) (content_hash tokens)

  -- The loop of `compact` over the live entries: the fresh arena and the entries moved to it.
  unfoldable pub compact_into :
      SpanArena → SpanArena → List SpanEntry → Option (SpanArena × List SpanEntry)
  compact_into old fresh [] = some (fresh, [])
  compact_into old fresh (e ∷ live) = elim (add fresh (get old e.arena_off e.length)) [
    | none ↦ none
    | some (fresh', off, _) ↦
        Option.map (λ r. (r.0, record e { arena_off = off } ∷ r.1)) (compact_into old fresh' live)
  ]

  unfoldable pub compact : SpanArena → List SpanEntry → Option (SpanArena × List SpanEntry)
  unfolding compact_into
  compact a live = compact_into a new_arena live
