-- ===== src/Proposers/Dense/Batches.antt =====
-- `_RepoIndex` of sim/dense_key.py against an index without a buffer.
use speculation_ledger.Prelude.{
  ℕ, ◌+◌, ◌<◌, ◌≡◌, refl, sym, ap, ◌∙◌, inl, inr, Bool-cases, List-cases, true, false, List, [],
  ◌∷◌, ◌++◌, arith, leb, ◌==◌, length,
}
use speculation_ledger.Prelude.Int.{ℤ, pos}
use speculation_ledger.Floats.{Floats}
use speculation_ledger.Proposers.Dense.{
  Faiss, RepoIndex, batch_size, maybe_upgrade, flush, add_vector, nearest, search,
}

-- What faiss documents: vectors are added one after another and counted, an upgrade keeps their number,
-- and the number that a search finds is that of a vector.
pub record FaissLaws (fl : Floats) (faiss : Faiss fl) : Type 0 where
  pub add_nil : (i : faiss.Index) → faiss.add [] i ≡ i
  pub add_append :
      (xs ys : List faiss.Vec) (i : faiss.Index)
      → faiss.add (xs ++ ys) i ≡ faiss.add ys (faiss.add xs i)
  pub ntotal_empty : faiss.ntotal faiss.empty ≡ 0
  pub ntotal_add :
      (xs : List faiss.Vec) (i : faiss.Index)
      → faiss.ntotal (faiss.add xs i) ≡ faiss.ntotal i + length xs
  pub ntotal_upgrade : (i : faiss.Index) → faiss.ntotal (faiss.upgrade i) ≡ faiss.ntotal i
  pub found :
      (v : faiss.Vec) (i : faiss.Index) {d : fl.F} {k : ℕ}
      → faiss.search v i ≡ (d, pos k)
      → k < faiss.ntotal i

module _ (fl : Floats) (faiss : Faiss fl) where
  -- A call of an index.
  pub data Call : Type 0 where
    add_call : faiss.Vec → ℕ → Call
    search_call : faiss.Vec → Call

  -- The answers of the searches among the calls.
  unfoldable pub answers : List Call → RepoIndex fl faiss → List (fl.F × ℤ)
  unfolding add_vector search
  answers [] r = []
  answers (add_call vec off ∷ calls) r = answers calls (add_vector fl faiss vec off r)
  answers (search_call vec ∷ calls) r =
      (search fl faiss vec r).1 ∷ answers calls (search fl faiss vec r).0

  -- The same of an index that takes every vector in at once.
  unfoldable pub plain_answers : List Call → faiss.Index → List (fl.F × ℤ)
  plain_answers [] i = []
  plain_answers (add_call vec off ∷ calls) i = plain_answers calls (faiss.add (vec ∷ []) i)
  plain_answers (search_call vec ∷ calls) i = nearest fl faiss vec i ∷ plain_answers calls i

  module _ (laws : FaissLaws fl faiss) where
    -- The index that a buffered one stands for.
    abbrev whole : RepoIndex fl faiss → faiss.Index
    whole r = faiss.add r.buf r.index

    maybe_upgrade-flat :
        (r : RepoIndex fl faiss) → r.use_ivfpq ≡ false → maybe_upgrade fl faiss r ≡ r
    unfolding maybe_upgrade
    maybe_upgrade-flat r flat = rw flat refl

    -- A flushed index holds the vectors that were in the buffer, and an empty buffer.
    abbrev Flushed : RepoIndex fl faiss → RepoIndex fl faiss → Type 0
    Flushed r r' = (r'.index ≡ whole r) × (r'.buf ≡ []) × (r'.use_ivfpq ≡ false)

    flush-Flushed : (r : RepoIndex fl faiss) → r.use_ivfpq ≡ false → Flushed r (flush fl faiss r)
    unfolding flush
    flush-Flushed r flat = elim (List-cases r.buf) [
      | inl nothing ↦
          let test : (length r.buf == 0) ≡ true = rw nothing refl in
          rw test (
            sym (laws.add_nil r.index) ∙ ap (λ b. faiss.add b r.index) (sym nothing),
            nothing,
            flat,
          )
      | inr (v, vs, waiting) ↦
          let test : (length r.buf == 0) ≡ false = rw waiting (ground arith) in
          let r' : RepoIndex fl faiss = record r { index = whole r; buf = [] } in
          rw (test, maybe_upgrade-flat r' flat) (refl, refl, flat)
    ]

    whole-flush :
        (r : RepoIndex fl faiss) → r.use_ivfpq ≡ false → whole (flush fl faiss r) ≡ whole r
    whole-flush r flat =
        let (same, nothing, _) = flush-Flushed r flat in
        rw (nothing, laws.add_nil (flush fl faiss r).index) same

    add_vector-whole :
        (vec : faiss.Vec) (off : ℕ) (r : RepoIndex fl faiss)
        → r.use_ivfpq ≡ false
        → (whole (add_vector fl faiss vec off r) ≡ faiss.add (vec ∷ []) (whole r))
          × ((add_vector fl faiss vec off r).use_ivfpq ≡ false)
    unfolding add_vector
    add_vector-whole vec off r flat =
        let r' : RepoIndex fl faiss = record r {
          buf = r.buf ++ vec ∷ [];
          offsets = r.offsets ++ off ∷ [];
        } in
        let longer = laws.add_append r.buf (vec ∷ []) r.index in
        elim (Bool-cases (leb batch_size (length r'.buf))) [
          | inl full ↦ rw full (whole-flush r' flat ∙ longer, (flush-Flushed r' flat).2)
          | inr room ↦ rw room (longer, flat)
        ]

    -- A flat index with a buffer answers every sequence of calls as one without a buffer does that holds
    -- the same vectors.
    pub answers-plain :
        (calls : List Call) (r : RepoIndex fl faiss)
        → r.use_ivfpq ≡ false
        → answers calls r ≡ plain_answers calls (faiss.add r.buf r.index)
    unfolding answers plain_answers search
    answers-plain [] r flat = refl
    answers-plain (add_call vec off ∷ calls) r flat =
        let (same, flat') = add_vector-whole vec off r flat in
        answers-plain calls (add_vector fl faiss vec off r) flat' ∙ ap (plain_answers calls) same
    answers-plain (search_call vec ∷ calls) r flat =
        let (same, _, flat') = flush-Flushed r flat in
        let rest =
          answers-plain calls (flush fl faiss r) flat'
          ∙ ap (plain_answers calls) (whole-flush r flat) in
        rw (same, rest) refl
