-- ===== src/Synth/Topk/Widths.antt =====
-- The top-k lists of sim/synth.py have as many ids as codes, and the codes fit eight bits.
use speculation_ledger.Prelude.{
  ℕ, zero, suc, ◌+◌, ◌-◌, ◌≤◌, ◌<◌, ◌≡◌, refl, inl, inr, Bool-cases, ◌||◌, List, [], ◌∷◌, arith,
  leb, ◌==◌, length, length-append, map, All,
}
use speculation_ledger.Floats.{Floats, Casts}
use speculation_ledger.Random.{
  Random, RandomLaws, Yields, Yields-pure, Yields-bind, below-lt, gaussian, uniformly,
}
use speculation_ledger.Store.{elem}
use speculation_ledger.Types.Codec.{logp_to_q8, logp_to_q8-le}
use speculation_ledger.Synth.{special}
use speculation_ledger.Synth.Topk.{Rows, add_row, add_alts, moved_on, fill_up, emit_topk}

-- What a top-k list of a valid record is.
abbrev pub Topk : List ℕ × List ℕ → Type 0
Topk r = (length r.0 ≡ length r.1) × All (λ q. q ≤ 255) r.1

module _ (fl : Floats) (casts : Casts fl) (rnd : Random fl) (laws : RandomLaws rnd casts) where
  -- As many ids as log-probabilities.
  abbrev Even : Rows fl rnd → Type 0
  Even r = length r.ids ≡ length r.lps

  Yields-uniformly : (a b : fl.F) → Yields (λ _. Unit {0}) (uniformly fl rnd a b)
  unfolding uniformly
  Yields-uniformly a b = record { run = λ g. let r = rnd.uniform a b g in (r.0, r.1, refl, tt) }

  Yields-gaussian : (a b : fl.F) → Yields (λ _. Unit {0}) (gaussian fl rnd a b)
  unfolding gaussian
  Yields-gaussian a b = record { run = λ g. let r = rnd.gauss a b g in (r.0, r.1, refl, tt) }

  add_row-Even : (d : ℕ) (r : Rows fl rnd) (lp : fl.F) → Even r → Even (add_row fl rnd d r lp)
  add_row-Even d r lp e =
      omega (arith, e, length-append r.ids (d ∷ []), length-append r.lps (r.lp ∷ []))

  add_alts-Even :
      (k true_tok : ℕ) (alts : List ℕ) (r : Rows fl rnd)
      → Even r
      → Yields Even (add_alts fl rnd k true_tok alts r)
  unfolding add_alts
  add_alts-Even k t [] r e = Yields-pure r e
  add_alts-Even k t (a ∷ alts) r e = elim (Bool-cases (leb k (length r.ids))) [
    | inl full ↦ rw (full, add_alts) (Yields-pure r e)
    | inr room ↦ elim (Bool-cases (a == t || elem a r.ids)) [
      | inl there ↦ rw (room, there, add_alts) (add_alts-Even k t alts r e)
      | inr new ↦
          rw (room, new, add_alts)
            (Yields-bind (Yields-uniformly (fl.ratio 1 5) (fl.ratio 4 5)) λ x _.
              add_alts-Even k t alts (add_row fl rnd a r (fl.minus r.lp x))
                (add_row-Even a r (fl.minus r.lp x) e))
    ]
  ]

  fill_up-Even :
      (vocab n : ℕ) (r : Rows fl rnd)
      → special < vocab
      → Even r
      → Yields Even (fill_up fl rnd vocab n r)
  unfolding fill_up
  fill_up-Even vocab zero r v e = Yields-pure r e
  fill_up-Even vocab (suc n) r v e =
      Yields-bind (Yields-uniformly (fl.ratio 2 5) (fl.ratio 7 5)) λ x _.
        Yields-bind (below-lt fl rnd casts laws (vocab - special) (omega (arith, v))) λ d _.
          fill_up-Even vocab n _ v (
            add_row-Even (moved_on fl rnd vocab r.ids (special + d))
              (record r { lp = fl.minus r.lp x }) (fl.minus r.lp x) e)

  codes-All :
      (lps : List fl.F)
      → All (λ q. q ≤ 255) (map (λ l. logp_to_q8 fl casts l) lps)
        × (length (map (λ l. logp_to_q8 fl casts l) lps) ≡ length lps)
  codes-All [] = (tt, refl)
  codes-All (l ∷ lps) =
      let (a, e) = codes-All lps in ((logp_to_q8-le fl casts l, a), omega (arith, e))

  pub emit_topk-Topk :
      (true_tok : ℕ) (alts : List ℕ) (vocab k : ℕ)
      → special < vocab
      → Yields Topk (emit_topk fl rnd casts true_tok alts vocab k)
  unfolding emit_topk
  emit_topk-Topk t alts vocab k v =
      Yields-bind (Yields-gaussian (fl.neg_ratio 18 100) (fl.ratio 12 100)) λ x _.
        Yields-bind (Yields-uniformly (fl.ratio 1 2) (fl.ratio 1 1)) λ y _.
          Yields-bind (add_alts-Even k t alts _ refl) λ r e.
            Yields-bind (fill_up-Even vocab (k - length r.ids) r v e) λ r' e'.
              Yields-pure _ (let (a, size) = codes-All r'.lps in (omega (arith, e', size), a))
