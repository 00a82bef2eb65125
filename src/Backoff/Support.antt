-- ===== src/Backoff/Support.antt =====
-- What the candidates of `blend` of core/backoff.py rest on: each one's support is the count of one
-- candidate of one source, and is not summed over the sources.
use speculation_ledger.Prelude.{
  ℕ, zero, suc, ◌+◌, ◌≤◌, ◌≡◌, refl, ap, ◌⊎◌, inl, inr, Bool-cases, Option-cases, List-cases, some,
  List, [], ◌∷◌, ◌++◌, arith, max, leb, ◌==◌, if◌then◌else◌, length, length-take, take, map, All,
}
use speculation_ledger.Prelude.Dict.{Dict, lookup, insert}
use speculation_ledger.Floats.{Floats}
use speculation_ledger.Result.{ok, >>=-eq-ok}
use speculation_ledger.Backoff.{
  SourceCand, Source, BackoffParams, PosteriorCand, Posterior, Slot, or_new, add_cands, add_sources,
  weights, zero_f, one, half, of_ℕ, or_one, divide, q8_to_p, total_acc_count,
}
use speculation_ledger.Backoff.Rank.{
  Scored, score_slot, score_slots, best_score, sort_keys, key_lt, insert_sorted, sort_from,
  renormalize, rank_slots, blend_weighted, blend,
}

-- One of these candidates has this token, and this many observations.
abbrev pub Backed : List SourceCand → ℕ → ℕ → Type 0
Backed [] tok n = 1 ≤ 0
Backed (c ∷ cs) tok n = ((c.0 ≡ tok) × (c.1 + c.2 ≡ n)) ⊎ Backed cs tok n

abbrev pub cands_of : List Source → List SourceCand
cands_of [] = []
cands_of (s ∷ ss) = s.cands ++ cands_of ss

abbrev AllBacked : List SourceCand → List SourceCand → Type 0
AllBacked all cs = All (λ c. Backed all c.0 (c.1 + c.2)) cs

Backed-past :
    (c : SourceCand) (all cs : List SourceCand) → AllBacked all cs → AllBacked (c ∷ all) cs
Backed-past c all [] a = tt
Backed-past c all (x ∷ cs) a = (inr a.0, Backed-past c all cs a.1)

Backed-all : (all : List SourceCand) → AllBacked all all
Backed-all [] = tt
Backed-all (c ∷ all) = (inl (refl, refl), Backed-past c all all (Backed-all all))

All-split : {A : Type 0} (Q : A → Type 0) (xs ys : List A) → All Q (xs ++ ys) → All Q xs × All Q ys
All-split Q [] ys a = (tt, a)
All-split Q (x ∷ xs) ys a = let (b, c) = All-split Q xs ys a.1 in ((a.0, b), c)

module _ (fl : Floats) (all : List SourceCand) where
  abbrev Slots : Dict (Slot fl) → Type 0
  Slots d = All (λ e. Backed all e.0 e.1.sup) d

  lookup-Slots :
      (tok : ℕ) (d : Dict (Slot fl)) {s : Slot fl}
      → Slots d
      → lookup tok d ≡ some s
      → Backed all tok s.sup
  lookup-Slots tok [] a e = absurd (ground (arith, e))
  lookup-Slots tok (row ∷ d) {s} a e = elim (Bool-cases (tok == row.0)) [
    | inl here ↦
        let key : row.0 ≡ tok = ground (arith, here) in
        let same : row.1 ≡ s = ground (arith, rw here at e) in rw (← key, ← same) a.0
    | inr past ↦ lookup-Slots tok d a.1 (rw past at e)
  ]

  insert-Slots :
      (tok : ℕ) (s : Slot fl) (d : Dict (Slot fl))
      → Backed all tok s.sup
      → Slots d
      → Slots (insert tok s d)
  insert-Slots tok s [] b a = (b, tt)
  insert-Slots tok s (row ∷ d) b a = elim (Bool-cases (tok == row.0)) [
    | inl here ↦ let key : tok ≡ row.0 = ground (arith, here) in rw (here, ← key) (b, a.1)
    | inr past ↦ rw past (a.0, insert-Slots tok s d b a.1)
  ]

  max-Backed : (tok m n : ℕ) → Backed all tok m → Backed all tok n → Backed all tok (max m n)
  max-Backed tok m n b c = elim (Bool-cases (leb m n)) [
    | inl less ↦ let same : max m n ≡ n = ground (arith, less) in rw same c
    | inr more ↦ let same : max m n ≡ m = ground (arith, more) in rw same b
  ]

  sup-Backed :
      (tok n : ℕ) (d : Dict (Slot fl))
      → Slots d
      → Backed all tok n
      → Backed all tok (max (or_new fl (lookup tok d)).sup n)
  sup-Backed tok n d a b = elim (Option-cases (lookup tok d)) [
    | inl new ↦ let same : max 0 n ≡ n = omega arith in rw (new, same) b
    | inr (s, found) ↦ rw found (max-Backed tok s.sup n (lookup-Slots tok d a found) b)
  ]

  add_cands-Slots :
      (p : BackoffParams fl) (w w_hi z freq_den : fl.F) (cs : List SourceCand) (d : Dict (Slot fl))
      {d' : Dict (Slot fl)}
      → AllBacked all cs
      → Slots d
      → add_cands fl p w w_hi z freq_den cs d ≡ ok d'
      → Slots d'
  unfolding add_cands
  add_cands-Slots p w w_hi z freq_den [] d {d'} b a e = let same : d ≡ d' = cc in rw (← same) a
  add_cands-Slots p w w_hi z freq_den ((tok, acc, r, q) ∷ cs) d b a e =
      let seen = fl.plus (of_ℕ fl acc) p.beta_a in
      let (freq, e1, r1) = >>=-eq-ok (divide fl seen freq_den) _ e in
      let (rate, e2, r2) =
        >>=-eq-ok (divide fl seen (fl.plus (fl.plus (of_ℕ fl (acc + r)) p.beta_a) p.beta_b)) _ r1 in
      let (share, e3, r3) = >>=-eq-ok (divide fl (q8_to_p fl q) z) _ r2 in
      add_cands-Slots p w w_hi z freq_den cs _ b.1
        (insert-Slots tok _ d (sup-Backed tok (acc + r) d a b.0) a) r3

  add_sources-Slots :
      (p : BackoffParams fl) (ss : List Source) (ws : List fl.F) (d : Dict (Slot fl)) (hi : fl.F)
      {r : Dict (Slot fl) × fl.F}
      → AllBacked all (cands_of ss)
      → Slots d
      → add_sources fl p ss ws d hi ≡ ok r
      → Slots r.0
  unfolding add_sources
  add_sources-Slots p [] ws d hi {r} b a e = let same : (d, hi) ≡ r = cc in rw (← same) a
  add_sources-Slots p (s ∷ ss) [] d hi {r} b a e = let same : (d, hi) ≡ r = cc in rw (← same) a
  add_sources-Slots p (s ∷ ss) (w ∷ ws) d hi b a e =
      let (here, rest) =
        All-split (λ (c : SourceCand). Backed all c.0 (c.1 + c.2)) s.cands (cands_of ss) b in
      elim (Bool-cases (fl.le w (zero_f fl))) [
        | inl skipped ↦ add_sources-Slots p ss ws d hi rest a (rw skipped at e)
        | inr used ↦
            let w_hi = if leb p.p_hat_min_order s.match_len then w else zero_f fl in
            let z = or_one fl (fl.sum (map (λ (c : SourceCand). q8_to_p fl c.3) s.cands)) in
            let freq_den =
              fl.plus (of_ℕ fl (total_acc_count s))
                (fl.times (of_ℕ fl (max 1 (length s.cands))) p.beta_a) in
            let (d', e1, r1) =
              >>=-eq-ok (add_cands fl p w w_hi z freq_den s.cands d) _ (rw used at e) in
            add_sources-Slots p ss ws d' _ rest
              (add_cands-Slots p w w_hi z freq_den s.cands d here a e1) r1
      ]

  -- A candidate of the posterior whose support is that of one candidate of a source.
  abbrev BackedCand : PosteriorCand fl → Type 0
  BackedCand c = Backed all c.tok c.support

  abbrev BackedScored : List (Scored fl) → Type 0
  BackedScored cs = All (λ c. BackedCand c.0) cs

  score_slots-Backed :
      (uni gate w_sum w_hi_sum : fl.F) (n : ℕ) (d : Dict (Slot fl)) {cs : List (Scored fl)}
      → Slots d
      → score_slots fl uni gate w_sum w_hi_sum n d ≡ ok cs
      → BackedScored cs
  unfolding score_slots score_slot
  score_slots-Backed uni gate w_sum w_hi_sum n [] {cs} a e =
      let same : [] ≡ cs = cc in rw (← same) tt
  score_slots-Backed uni gate w_sum w_hi_sum n ((tok, s) ∷ d) {cs} a e =
      let (c, e1, r1) = >>=-eq-ok (score_slot fl uni gate w_sum w_hi_sum n (tok, s)) _ e in
      let (rest, e2, r2) = >>=-eq-ok (score_slots fl uni gate w_sum w_hi_sum n d) _ r1 in
      let (wa, e3, r3) =
        >>=-eq-ok (if fl.lt (zero_f fl) s.wt then divide fl s.wa s.wt else ok (half fl)) _ e1 in
      let (wph, e4, r4) =
        >>=-eq-ok (if fl.lt (zero_f fl) w_hi_sum then divide fl s.wph w_hi_sum else ok uni) _ r3 in
      let (freq, e5, r5) = >>=-eq-ok (divide fl s.wf w_sum) _ r4 in
      let tok_same : tok ≡ c.0.tok = ground (arith, r5) in
      let sup_same : s.sup ≡ c.0.support = ground (arith, r5) in
      let listed : (c ∷ rest) ≡ cs = ground (arith, r2) in
      rw (← listed)
        (rw (← tok_same, ← sup_same) a.0, score_slots-Backed uni gate w_sum w_hi_sum n d a.1 e2)

  sort_keys-Backed :
      (m : fl.F) (cs : List (Scored fl)) {ks : List (Scored fl)}
      → BackedScored cs
      → sort_keys fl m cs ≡ ok ks
      → BackedScored ks
  unfolding sort_keys
  sort_keys-Backed m [] {ks} a e = let same : [] ≡ ks = cc in rw (← same) tt
  sort_keys-Backed m ((c, score) ∷ cs) {ks} a e =
      let (share, e1, r1) = >>=-eq-ok (divide fl score m) _ e in
      let (rest, e2, r2) = >>=-eq-ok (sort_keys fl m cs) _ r1 in
      let listed : ((c, fl.round_1 share) ∷ rest) ≡ ks = ground (arith, r2) in
      rw (← listed) (a.0, sort_keys-Backed m cs a.1 e2)

  insert_sorted-Backed :
      (x : Scored fl) (cs : List (Scored fl))
      → BackedCand x.0
      → BackedScored cs
      → BackedScored (insert_sorted fl x cs)
  unfolding insert_sorted
  insert_sorted-Backed x [] b a = (b, tt)
  insert_sorted-Backed x (y ∷ ys) b a = elim (Bool-cases (key_lt fl x y)) [
    | inl below ↦ rw below (b, a)
    | inr behind ↦ rw behind (a.0, insert_sorted-Backed x ys b a.1)
  ]

  sort_from-Backed :
      (cs sorted : List (Scored fl))
      → BackedScored sorted
      → BackedScored cs
      → BackedScored (sort_from fl sorted cs)
  unfolding sort_from
  sort_from-Backed [] sorted a b = a
  sort_from-Backed (c ∷ cs) sorted a b =
      sort_from-Backed cs (insert_sorted fl c sorted) (insert_sorted-Backed c sorted b.0 a) b.1

  first-Backed :
      (n : ℕ) (cs : List (Scored fl))
      → BackedScored cs
      → All BackedCand (take n (map (λ (c : Scored fl). c.0) cs))
  first-Backed zero cs a = tt
  first-Backed (suc n) [] a = tt
  first-Backed (suc n) (c ∷ cs) a = (a.0, first-Backed n cs a.1)

  renormalize-Backed :
      (z : fl.F) (cs : List (PosteriorCand fl)) {r : List (PosteriorCand fl)}
      → All BackedCand cs
      → renormalize fl z cs ≡ ok r
      → All BackedCand r × (length r ≡ length cs)
  unfolding renormalize
  renormalize-Backed z [] {r} a e = let same : [] ≡ r = cc in rw (← same) (tt, refl)
  renormalize-Backed z (c ∷ cs) {r} a e =
      let (p_hat, e1, r1) =
        >>=-eq-ok (divide fl c.p_hat (if fl.lt z (one fl) then one fl else z)) _ e in
      let (rest, e2, r2) = >>=-eq-ok (renormalize fl z cs) _ r1 in
      let (b, size) = renormalize-Backed z cs a.1 e2 in
      let listed : (record c { p_hat = p_hat } ∷ rest) ≡ r = ground (arith, r2) in
      rw (← listed) ((a.0, b), ap suc size)

  -- What a posterior is made of.
  pub record IsSupported (p : BackoffParams fl) (post : Posterior fl) : Type 0 where
    pub backed : All BackedCand post.cands
    pub few : length post.cands ≤ p.max_cands

  rank_slots-IsSupported :
      (p : BackoffParams fl) (ss : List Source) (w_sum hi : fl.F) (d : Dict (Slot fl))
      {post : Posterior fl}
      → Slots d
      → rank_slots fl p ss w_sum hi d ≡ ok (some post)
      → IsSupported p post
  unfolding rank_slots
  rank_slots-IsSupported p ss w_sum hi d {post} a e =
      let (uni, e1, r1) = >>=-eq-ok (divide fl (one fl) (of_ℕ fl (length d))) _ e in
      let (gate, e2, r2) = >>=-eq-ok (divide fl hi (fl.plus hi p.anno_prior_w)) _ r1 in
      let (scored, e3, r3) = >>=-eq-ok (score_slots fl uni gate w_sum hi (length d) d) _ r2 in
      let (keyed, e4, r4) =
        >>=-eq-ok (sort_keys fl (or_one fl (best_score fl scored)) scored) _ r3 in
      let firsts = map (λ (c : Scored fl). c.0) (sort_from fl [] keyed) in
      let cands = take p.max_cands firsts in
      let z = fl.sum (map (λ (c : PosteriorCand fl). c.p_hat) cands) in
      let (final, e5, r5) =
        >>=-eq-ok (if fl.lt (zero_f fl) z then renormalize fl z cands else ok cands) _ r4 in
      let keyed_backed =
        sort_keys-Backed _ scored (score_slots-Backed uni gate w_sum hi (length d) d a e3) e4 in
      let backed =
        first-Backed p.max_cands (sort_from fl [] keyed)
          (sort_from-Backed keyed [] tt keyed_backed) in
      let made : final ≡ post.cands = ground (arith, r5) in
      let size = length-take p.max_cands firsts in
      elim (Bool-cases (fl.lt (zero_f fl) z)) [
        | inl mass ↦
            let (b, same) = renormalize-Backed z cands backed (rw mass at e5) in
            record { backed = rw (← made) b; few = rw (← made) (omega (arith, same, size)) }
        | inr nothing ↦
            let same : cands ≡ final = ground (arith, rw nothing at e5) in
            record {
              backed = rw (← made, ← same) backed;
              few = rw (← made, ← same) (omega (arith, size));
            }
      ]

-- Where the blend returns a posterior, it has at most `max_cands` candidates, and the support of each one
-- is the number of observations of one candidate of one source with the same token: it is not added up
-- over the sources.
pub blend-IsSupported :
    (fl : Floats) (p : BackoffParams fl) (sources : List Source) {post : Posterior fl}
    → blend fl p sources ≡ ok (some post)
    → IsSupported fl (cands_of sources) p post
unfolding blend blend_weighted
blend-IsSupported fl p [] e = absurd (ground (arith, e))
blend-IsSupported fl p (s ∷ ss) {post} e =
    let (ws, e1, r1) = >>=-eq-ok (weights fl p (s ∷ ss)) _ e in
    elim (Bool-cases (fl.le (fl.sum ws) (zero_f fl))) [
      | inl nothing ↦ absurd (ground (arith, rw nothing at r1))
      | inr there ↦
          let (r, e2, r2) =
            >>=-eq-ok (add_sources fl p (s ∷ ss) ws [] (zero_f fl)) _ (rw there at r1) in
          let all = cands_of (s ∷ ss) in
          let slots =
            add_sources-Slots fl all p (s ∷ ss) ws [] (zero_f fl) (Backed-all all) tt e2 in
          elim (List-cases r.0) [
            | inl empty ↦ absurd (ground (arith, rw empty at r2))
            | inr (row, d, full) ↦
                rank_slots-IsSupported fl all p (s ∷ ss) (fl.sum ws) r.1 (row ∷ d)
                  (rw full at slots) (rw full at r2)
          ]
    ]
