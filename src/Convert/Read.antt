-- ===== src/Convert/Read.antt =====
-- `read_traces` of sim/convert.py, from the parsed records of the files on.
pub mod Reading
use speculation_ledger.Prelude.{
  ℕ, Bool, true, false, ◌&&◌, ◌||◌, Option, none, some, List, [], ◌∷◌, ltb, ◌==◌, if◌then◌else◌,
}
use speculation_ledger.Result.{Result, ok, err, value_error, ◌>>=◌}
use speculation_ledger.Types.{Str}
use speculation_ledger.Convert.{RawRecord, TraceRequest}
use speculation_ledger.Convert.Validate.{validate_record}
use speculation_ledger.Convert.Normalize.{normalize_record}

-- `<` on texts, whose UTF-8 bytes are in the order of their code points.
unfoldable pub str_lt : Str → Str → Bool
str_lt xs [] = false
str_lt [] (y ∷ ys) = true
str_lt (x ∷ xs) (y ∷ ys) = let rest = str_lt xs ys in ltb x y || (x == y) && rest

-- `(a.ts, a.request_id) < (b.ts, b.request_id)`
unfoldable pub before : TraceRequest → TraceRequest → Bool
unfolding str_lt
before a b = ltb a.ts b.ts || (a.ts == b.ts) && str_lt a.request_id b.request_id

-- `reqs.sort(...)`, which keeps the order of equals.
unfoldable pub insert_request : TraceRequest → List TraceRequest → List TraceRequest
unfolding before
insert_request r [] = r ∷ []
insert_request r (c ∷ cs) =
    let rest = insert_request r cs in if before c r then c ∷ rest else r ∷ c ∷ cs

unfoldable pub sort_requests : List TraceRequest → List TraceRequest
unfolding insert_request
sort_requests [] = []
sort_requests (r ∷ rs) = insert_request r (sort_requests rs)

-- The loop over the records: a bad one is an error or is passed over.
unfoldable pub read_all : Bool → List RawRecord → Result (List TraceRequest)
read_all strict [] = ok []
read_all strict (rec ∷ recs) = elim (validate_record rec) [
  | [] ↦ do req ← normalize_record rec; rest ← read_all strict recs; ok (req ∷ rest)
  | c ∷ cs ↦ elim strict [ true ↦ err value_error | false ↦ read_all strict recs ]
]

unfoldable pub read_traces : Bool → List RawRecord → Result (List TraceRequest)
unfolding read_all sort_requests
read_traces strict recs = read_all strict recs >>= (λ reqs. ok (sort_requests reqs))
