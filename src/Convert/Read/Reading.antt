-- ===== src/Convert/Read/Reading.antt =====
-- What `read_traces` of sim/convert.py gives: aligned requests in the order of time, or one error.
use speculation_ledger.Prelude.{
  ℕ, suc, ◌+◌, length, ◌≤◌, ◌≡◌, ◌≢◌, ◌⊎◌, refl, ap, ◌∙◌, inl, inr, Bool, Bool-cases, List-cases,
  true, false, List, [], ◌∷◌, arith, All,
}
use speculation_ledger.Result.{Result, ok, err, value_error, key_error}
use speculation_ledger.Convert.{RawRecord, TraceEvent, TraceRequest}
use speculation_ledger.Convert.Validate.{validate_record}
use speculation_ledger.Convert.Normalize.{or_none_listed, normalize_events}
use speculation_ledger.Convert.Normalize.Aligned.{Aligned, normalize_record-Aligned}
use speculation_ledger.Convert.Normalize.Keys.{all_keyed}
use speculation_ledger.Convert.Read.{before, insert_request, sort_requests, read_all, read_traces}

-- Every event of a record has its keys.
abbrev pub HasEvents : RawRecord → Type 0
HasEvents r = (evs : List TraceEvent) × (normalize_events (or_none_listed r.events) ≡ ok evs)

abbrev pub IsAligned : TraceRequest → Type 0
IsAligned req = Aligned req.tokens req.seg req.topk_ids req.topk_logp_q8

-- The requests are in the order of their times.
abbrev pub InTime : List TraceRequest → Type 0
InTime [] = Unit
InTime (r ∷ rs) = All (λ (c : TraceRequest). r.ts ≤ c.ts) rs × InTime rs

All-insert_request :
    (Q : TraceRequest → Type 0) (r : TraceRequest) (rs : List TraceRequest)
    → Q r
    → All Q rs
    → All Q (insert_request r rs)
unfolding insert_request
All-insert_request Q r [] q a = (q, tt)
All-insert_request Q r (c ∷ cs) q a = elim (Bool-cases (before c r)) [
  | inl first ↦ rw first (a.0, All-insert_request Q r cs q a.1)
  | inr later ↦ rw later (q, a)
]

pub All-sort_requests :
    (Q : TraceRequest → Type 0) (rs : List TraceRequest) → All Q rs → All Q (sort_requests rs)
unfolding sort_requests
All-sort_requests Q [] a = tt
All-sort_requests Q (r ∷ rs) a =
    All-insert_request Q r (sort_requests rs) a.0 (All-sort_requests Q rs a.1)

-- The tokens of some requests, counted.
abbrev pub tokens_in : List TraceRequest → ℕ
tokens_in [] = 0
tokens_in (r ∷ rs) = length r.tokens + tokens_in rs

insert_request-counts :
    (r : TraceRequest) (rs : List TraceRequest)
    → (length (insert_request r rs) ≡ suc (length rs))
      × (tokens_in (insert_request r rs) ≡ length r.tokens + tokens_in rs)
unfolding insert_request
insert_request-counts r [] = (refl, refl)
insert_request-counts r (c ∷ cs) = elim (Bool-cases (before c r)) [
  | inl first ↦
      let (many, sum) = insert_request-counts r cs in
      rw first (omega (arith, many), omega (arith, sum))
  | inr later ↦ rw later (refl, refl)
]

-- The sorting loses no request and no token.
pub sort_requests-counts :
    (rs : List TraceRequest)
    → (length (sort_requests rs) ≡ length rs) × (tokens_in (sort_requests rs) ≡ tokens_in rs)
unfolding sort_requests
sort_requests-counts [] = (refl, refl)
sort_requests-counts (r ∷ rs) =
    let (many, sum) = sort_requests-counts rs in
    let (many', sum') = insert_request-counts r (sort_requests rs) in
    (omega (arith, many, many'), omega (arith, sum, sum'))

All-later :
    (lo hi : ℕ) (rs : List TraceRequest)
    → lo ≤ hi
    → All (λ (c : TraceRequest). hi ≤ c.ts) rs
    → All (λ (c : TraceRequest). lo ≤ c.ts) rs
All-later lo hi [] h a = tt
All-later lo hi (c ∷ cs) h a = (omega (arith, a.0), All-later lo hi cs h a.1)

before-le : (a b : TraceRequest) → before a b ≡ true → a.ts ≤ b.ts
unfolding before
before-le a b h = ground (arith, h)

before-ge : (a b : TraceRequest) → before a b ≡ false → b.ts ≤ a.ts
unfolding before
before-ge a b h = ground (arith, h)

insert_request-InTime :
    (r : TraceRequest) (rs : List TraceRequest) → InTime rs → InTime (insert_request r rs)
unfolding insert_request
insert_request-InTime r [] h = (tt, tt)
insert_request-InTime r (c ∷ cs) h = elim (Bool-cases (before c r)) [
  | inl first ↦ rw first (
    All-insert_request (λ (x : TraceRequest). c.ts ≤ x.ts) r cs (before-le c r first) h.0,
    insert_request-InTime r cs h.1,
  )
  | inr later ↦ let low = before-ge c r later in rw later ((low, All-later r.ts c.ts cs low h.0), h)
]

pub sort_requests-InTime : (rs : List TraceRequest) → InTime (sort_requests rs)
unfolding sort_requests
sort_requests-InTime [] = tt
sort_requests-InTime (r ∷ rs) = insert_request-InTime r (sort_requests rs) (sort_requests-InTime rs)

-- Some record of a list is so.
abbrev pub HasSome : (RawRecord → Type 0) → List RawRecord → Type 0
HasSome Q [] = true ≡ false
HasSome Q (r ∷ rs) = Q r ⊎ HasSome Q rs

abbrev pub IsBad : RawRecord → Type 0
IsBad r = validate_record r ≢ []

-- A record that is not bad, with an event that lacks a key.
abbrev pub LacksKey : RawRecord → Type 0
LacksKey r = (validate_record r ≡ []) × (all_keyed (or_none_listed r.events) ≡ false)

-- How many of the records have no complaint.
abbrev pub count_good : List RawRecord → ℕ
count_good [] = 0
count_good (r ∷ rs) = elim (validate_record r) [ [] ↦ suc (count_good rs) | c ∷ cs ↦ count_good rs ]

-- The first record that is bad or lacks a key ends the reading, or there is none that does.
pub data Reads (strict : Bool) (recs : List RawRecord) : Result (List TraceRequest) → Type 0 where
  refused : strict ≡ true → HasSome IsBad recs → Reads strict recs (err value_error)
  unkeyed : HasSome LacksKey recs → Reads strict recs (err key_error)
  gives :
      (reqs : List TraceRequest)
      → length reqs ≡ count_good recs
      → All IsAligned reqs
      → InTime reqs
      → Reads strict recs (ok reqs)

-- The same, before the requests are sorted.
ReadsAligned : Bool → List RawRecord → Result (List TraceRequest) → Type 0
ReadsAligned strict recs r =
    ((strict ≡ true) × HasSome IsBad recs × (r ≡ err value_error))
    ⊎ (HasSome LacksKey recs × (r ≡ err key_error))
    ⊎ ((reqs : List TraceRequest) × (r ≡ ok reqs)
        × (length reqs ≡ count_good recs)
        × All IsAligned reqs)

read_all-ReadsAligned :
    (strict : Bool) (recs : List RawRecord) → ReadsAligned strict recs (read_all strict recs)
unfolding read_all ReadsAligned
read_all-ReadsAligned strict [] = inr (inr ([], refl, refl, tt))
read_all-ReadsAligned strict (rec ∷ recs) = elim (List-cases (validate_record rec)) [
  | inl valid ↦ elim (normalize_record-Aligned rec valid) [
    | inr (lacks, e) ↦ inr (inl (inl (valid, lacks), rw (valid, read_all, e) refl))
    | inl (_, req, e, aligned, _) ↦ elim (read_all-ReadsAligned strict recs) [
      | inl (is_strict, bad, e') ↦ inl (is_strict, inr bad, rw (valid, read_all, e, e') refl)
      | inr (inl (lacks, e')) ↦ inr (inl (inr lacks, rw (valid, read_all, e, e') refl))
      | inr (inr (reqs, e', many, all_aligned)) ↦ inr (
          inr (
            req ∷ reqs,
            rw (valid, read_all, e, e') refl,
            rw (valid, count_good) (ap suc many),
            (aligned, all_aligned),
          ))
    ]
  ]
  | inr (c, cs, wrong) ↦ elim (Bool-cases strict) [
    | inl is_strict ↦
        inl (is_strict, inl (λ none_wrong. absurd (cc)), rw (wrong, read_all, is_strict) refl)
    | inr lenient ↦ elim (read_all-ReadsAligned strict recs) [
      | inl (is_strict, bad, e') ↦ absurd (cc)
      | inr (inl (lacks, e')) ↦ inr (inl (inr lacks, rw (wrong, read_all, lenient, e') refl))
      | inr (inr (reqs, e', many, all_aligned)) ↦ inr (
          inr (
            reqs,
            rw (wrong, read_all, lenient, e') refl,
            rw (wrong, count_good) many,
            all_aligned,
          ))
    ]
  ]
]

-- For any records, the reading ends in one of three ways: in a ValueError, only where it is strict
-- and some record is bad; in a KeyError, only where some record has no complaint but an event without
-- one of its keys; or in as many requests as records without a complaint, whose lists are aligned and in range, in the
-- order of their times.
pub read_traces-InTime :
    (strict : Bool) (recs : List RawRecord) → Reads strict recs (read_traces strict recs)
unfolding read_traces ReadsAligned
read_traces-InTime strict recs = elim (read_all-ReadsAligned strict recs) [
  | inl (is_strict, bad, e) ↦ rw e (Reads.refused is_strict bad)
  | inr (inl (lacks, e)) ↦ rw e (Reads.unkeyed lacks)
  | inr (inr (reqs, e, many, all_aligned)) ↦ rw e (
      Reads.gives (sort_requests reqs) ((sort_requests-counts reqs).0 ∙ many)
        (All-sort_requests IsAligned reqs all_aligned) (sort_requests-InTime reqs))
]
