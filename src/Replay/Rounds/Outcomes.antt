-- ===== src/Replay/Rounds/Outcomes.antt =====
-- The outcomes that `run_replay` of sim/replay.py makes of a request whose lists are aligned.
use speculation_ledger.Prelude.{
  ℕ, zero, suc, ◌+◌, ◌≤◌, ◌<◌, ◌≡◌, refl, ◌∙◌, Bool, true, ◌&&◌, &&-both, Option, none, some, List,
  [], ◌∷◌, arith, leb, length, take, drop, map, All, length-take, length-map, length-drop,
  length-append,
}
use speculation_ledger.Prelude.Int.{ℤ, pos, negsuc}
use speculation_ledger.Types.{VerifyOutcome}
use speculation_ledger.Convert.{TraceRequest}
use speculation_ledger.Convert.Validate.{in_range, all_in, all_rows_in}
use speculation_ledger.Convert.Normalize.Aligned.{Aligned}
use speculation_ledger.Store.Steps.{IsByteWide}
use speculation_ledger.Replay.Rounds.{nat_of, maybe_one, window, make_outcome}

abbrev pub AlignedRequest : TraceRequest → Type 0
AlignedRequest req = Aligned req.tokens req.seg req.topk_ids req.topk_logp_q8

-- The lists of an outcome have one entry for each realized token, one draft token at most was
-- rejected, and the numbers are within their ranges.
pub record IsWellFormed (ev : VerifyOutcome) : Type 0 where
  pub accepted : ev.accepted_len ≤ length ev.draft_ids
  pub rejected : length ev.draft_ids ≤ ev.accepted_len + 1
  pub length_seg : length ev.seg ≡ ev.accepted_len + 1
  pub length_ids : length ev.topk_ids ≡ ev.accepted_len + 1
  pub length_q8s : length ev.topk_logp_q8 ≡ ev.accepted_len + 1
  pub segs : All (λ s. s ≤ 3) ev.seg
  pub q8s : IsByteWide ev

length-window :
    {A : Type 0} (p n : ℕ) (xs : List A) → p + n ≤ length xs → length (window p n xs) ≡ n
length-window p n xs h = omega (arith, length-take n (drop p xs), length-drop p xs)

module _ {A : Type 0} (test : A → Bool) (all : List A → Bool) (all_nil : all [] ≡ true)
    (all_cons : (x : A) (xs : List A) → all (x ∷ xs) ≡ test x && all xs) where
  all-take : (n : ℕ) (xs : List A) → all xs ≡ true → all (take n xs) ≡ true
  all-take zero xs h = all_nil
  all-take (suc n) [] h = all_nil
  all-take (suc n) (x ∷ xs) h =
      let (first, rest) = &&-both (test x) (all xs) (rw (all_cons x xs) at h) in
      rw (all_cons x (take n xs), first, all-take n xs rest) refl

  all-drop : (n : ℕ) (xs : List A) → all xs ≡ true → all (drop n xs) ≡ true
  all-drop zero xs h = h
  all-drop (suc n) [] h = all_nil
  all-drop (suc n) (x ∷ xs) h =
      all-drop n xs (&&-both (test x) (all xs) (rw (all_cons x xs) at h)).1

  all-window : (p n : ℕ) (xs : List A) → all xs ≡ true → all (window p n xs) ≡ true
  all-window p n xs h = all-take n (drop p xs) (all-drop p xs h)

All-nat_of : (hi : ℕ) (xs : List ℤ) → all_in hi xs ≡ true → All (λ n. n ≤ hi) (map nat_of xs)
All-nat_of hi [] h = tt
All-nat_of hi (pos n ∷ xs) h =
    let (first, rest) = &&-both (leb n hi) (all_in hi xs) h in
    (ground (arith, first), All-nat_of hi xs rest)
All-nat_of hi (negsuc n ∷ xs) h = absurd (ground (arith, h))

All-nats_of :
    (hi : ℕ) (xss : List (List ℤ))
    → all_rows_in hi xss ≡ true
    → All (All (λ n. n ≤ hi)) (map (map nat_of) xss)
All-nats_of hi [] h = tt
All-nats_of hi (xs ∷ xss) h =
    let (first, rest) = &&-both (all_in hi xs) (all_rows_in hi xss) h in
    (All-nat_of hi xs first, All-nats_of hi xss rest)

length-maybe_one : (o : Option ℕ) → length (maybe_one o) ≤ 1
length-maybe_one none = omega arith
length-maybe_one (some t) = omega arith

pub make_outcome-IsWellFormed :
    (req : TraceRequest) (fids : List ℕ) (p acc : ℕ) (path : List ℕ) (rej_tok : Option ℕ)
    (bonus : ℕ)
    → AlignedRequest req
    → p + acc < length req.tokens
    → acc ≤ length path
    → IsWellFormed (make_outcome req fids p acc path rej_tok bonus)
unfolding make_outcome
make_outcome-IsWellFormed req fids p acc path rej_tok bonus a inside short =
    let n = acc + 1 in
    let drafted = length-append (take acc path) (maybe_one rej_tok) in
    let path_size = length-take acc path in
    let one = length-maybe_one rej_tok in
    let seg_in = all-window (in_range 3) (all_in 3) refl (λ x xs. refl) p n req.seg a.segs in
    let q8s_in =
      all-window (all_in 255) (all_rows_in 255) refl (λ x xs. refl) p n req.topk_logp_q8 a.q8s in
    record {
      accepted = omega arith;
      rejected = omega arith;
      length_seg =
          length-map nat_of (window p n req.seg)
          ∙ length-window p n req.seg (omega (arith, a.length_seg));
      length_ids = length-window p n req.topk_ids (omega (arith, a.length_ids));
      length_q8s =
          length-map (map nat_of) (window p n req.topk_logp_q8)
          ∙ length-window p n req.topk_logp_q8 (omega (arith, a.length_q8s));
      segs = All-nat_of 3 (window p n req.seg) seg_in;
      q8s = All-nats_of 255 (window p n req.topk_logp_q8) q8s_in;
    }
