-- ===== src/Tests/Dense.antt =====
-- The theorems on the dense-key proposer at concrete inputs, with an index that is a list of numbers
-- and finds its first one.
use speculation_ledger.Prelude.{
  ℕ, ◌≡◌, ◌<◌, ◌+◌, refl, sym, arith, true, false, List, [], ◌∷◌, ◌++◌, length, length-append,
}
use speculation_ledger.Prelude.Int.{ℤ, pos, negsuc}
use mathlib.Core.List.{append_assoc, append-nil}
use speculation_ledger.Proposers.Dense.{Faiss, DenseConfig, dense_proposer, new_index}
use speculation_ledger.Proposers.Dense.Batches.{
  FaissLaws, Call, add_call, search_call, answers, plain_answers, answers-plain,
}
use speculation_ledger.Proposers.Dense.Offsets.{IsIndexed, dense_proposer-IsLawful}
use speculation_ledger.Replay.Rounds.Ends.{IsLawful}
use speculation_ledger.Tests.Toys.{toy_floats, toy_hash}

abbrev first_of : ℕ → List ℕ → ℕ × ℤ
first_of v [] = (0, negsuc 0)
first_of v (x ∷ xs) = (v + x, pos 0)

abbrev toy_faiss : Faiss toy_floats
toy_faiss = record {
  Vec = ℕ;
  Index = List ℕ;
  empty = [];
  add = λ xs i. i ++ xs;
  ntotal = λ i. length i;
  search = first_of;
  upgrade = λ i. i;
  embed = λ toks. length toks;
  infinity = 1000;
}

first_of-lt : (v : ℕ) (i : List ℕ) {d k : ℕ} → first_of v i ≡ (d, pos k) → k < length i
first_of-lt v [] e = absurd (cc)
first_of-lt v (x ∷ xs) {d} {k} e = let same : 0 ≡ k = cc in omega (arith, same)

toy_laws : FaissLaws toy_floats toy_faiss
toy_laws = record {
  add_nil = λ i. append-nil i;
  add_append = λ xs ys i. sym (append_assoc i xs ys);
  ntotal_empty = refl;
  ntotal_add = λ xs i. length-append i xs;
  ntotal_upgrade = λ i. refl;
  found = λ v i e. first_of-lt v i e;
}

abbrev calls : List (Call toy_floats toy_faiss)
calls = add_call 5 0 ∷ search_call 1 ∷ add_call 6 1 ∷ search_call 2 ∷ []

answers-plain_example :
    answers toy_floats toy_faiss calls (new_index toy_floats toy_faiss false)
    ≡ plain_answers toy_floats toy_faiss calls []
answers-plain_example =
    answers-plain toy_floats toy_faiss toy_laws calls (new_index toy_floats toy_faiss false) refl

abbrev config : DenseConfig toy_floats toy_faiss
config = record { window = 16; max_dist = 35; ivfpq = true }

dense_proposer-IsLawful_example :
    IsLawful (dense_proposer toy_floats toy_faiss toy_hash config) (IsIndexed toy_floats toy_faiss)
dense_proposer-IsLawful_example =
    dense_proposer-IsLawful toy_floats toy_faiss toy_laws toy_hash config
