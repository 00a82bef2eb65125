-- ===== src/Synth/Topk.antt =====
-- `_emit_topk` of sim/synth.py: the top-k list of a token.
pub mod Widths
use speculation_ledger.Prelude.{
  ℕ, zero, suc, ◌+◌, ◌-◌, ◌%◌, Bool, true, false, ◌||◌, List, [], ◌∷◌, ◌++◌, leb, ◌==◌,
  if◌then◌else◌, length, map,
}
use speculation_ledger.Floats.{Floats, Casts}
use speculation_ledger.Random.{Draw, Random, pure, ◌>>=◌, below, gaussian, uniformly}
use speculation_ledger.Store.{elem}
use speculation_ledger.Types.Codec.{logp_to_q8}
use speculation_ledger.Synth.{special}

module _ (fl : Floats) (rnd : Random fl) where
  -- `ids`, `lps` and `lp`
  pub record Rows : Type 0 where
    pub ids : List ℕ
    pub lps : List fl.F
    pub lp : fl.F

  abbrev pub add_row : ℕ → Rows → fl.F → Rows
  add_row d r lp = record { ids = r.ids ++ d ∷ []; lps = r.lps ++ r.lp ∷ []; lp = lp }

  -- The loop over the alternatives.
  unfoldable pub add_alts : ℕ → ℕ → List ℕ → Rows → Draw fl rnd Rows
  add_alts k true_tok [] r = pure r
  add_alts k true_tok (a ∷ alts) r = elim (leb k (length r.ids)) [
    | true ↦ pure r
    | false ↦ elim (a == true_tok || elem a r.ids) [
      | true ↦ add_alts k true_tok alts r
      | false ↦ do
        x ← uniformly fl rnd (fl.ratio 1 5) (fl.ratio 4 5)
        add_alts k true_tok alts (add_row a r (fl.minus r.lp x))
    ]
  ]

  -- A number that was drawn is moved on by one where it is there.
  abbrev pub moved_on : ℕ → List ℕ → ℕ → ℕ
  moved_on vocab ids d = if elem d ids then special + (d + 1 - special) % (vocab - special) else d

  -- `while len(ids) < k`, of which every round adds one.
  unfoldable pub fill_up : ℕ → ℕ → Rows → Draw fl rnd Rows
  fill_up vocab zero r = pure r
  fill_up vocab (suc n) r = do
    x ← uniformly fl rnd (fl.ratio 2 5) (fl.ratio 7 5)
    d ← below fl rnd (vocab - special)
    let lp = fl.minus r.lp x
    fill_up vocab n (add_row (moved_on vocab r.ids (special + d)) (record r { lp = lp }) lp)

  -- `min(-0.01, x)`
  abbrev pub at_most_top : fl.F → fl.F
  at_most_top x = if fl.lt x (fl.neg_ratio 1 100) then x else fl.neg_ratio 1 100

  unfoldable pub emit_topk : Casts fl → ℕ → List ℕ → ℕ → ℕ → Draw fl rnd (List ℕ × List ℕ)
  unfolding add_alts fill_up
  emit_topk casts true_tok alts vocab k = do
    x ← gaussian fl rnd (fl.neg_ratio 18 100) (fl.ratio 12 100)
    y ← uniformly fl rnd (fl.ratio 1 2) (fl.ratio 1 1)
    let true_lp = at_most_top x
    r ←
        add_alts k true_tok alts
          (record { ids = true_tok ∷ []; lps = true_lp ∷ []; lp = fl.minus true_lp y })
    r' ← fill_up vocab (k - length r.ids) r
    pure (r'.ids, map (λ l. logp_to_q8 fl casts l) r'.lps)
