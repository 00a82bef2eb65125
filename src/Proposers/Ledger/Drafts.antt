-- ===== src/Proposers/Ledger/Drafts.antt =====
-- The two loops of `LedgerProposer.propose` of sim/proposers.py: they keep to the budget and end.
use speculation_ledger.Prelude.{
  ℕ, zero, suc, ◌+◌, ◌-◌, ◌≤◌, ◌<◌, ◌≡◌, ◌⊎◌, refl, ◌∙◌, sym, ap, inl, inr, Bool, Bool-cases,
  Option-cases, List-cases, ltb→lt, false, ◌&&◌, &&-both, Option, none, some, List, [], ◌∷◌, arith,
  ltb, leb, ◌==◌, length,
}
use speculation_ledger.Floats.{Floats}
use speculation_ledger.Hash.{Blake2b}
use speculation_ledger.Result.{Result, ok, or_raise, index_error, >>=-eq-ok}
use speculation_ledger.Types.{DraftTree}
use speculation_ledger.Types.Tree.{IsTopological}
use speculation_ledger.Signature.{stack_list}
use speculation_ledger.Backoff.{PosteriorCand, Posterior}
use speculation_ledger.Backoff.Rank.{correction}
use speculation_ledger.Store.Lookup.{lookup_span}
use speculation_ledger.Store.Steps.{looked_up_span}
use speculation_ledger.Store.Steps.Invariant.{IsValid, step-IsValid}
use speculation_ledger.Proposers.{ProposeCtx}
use speculation_ledger.Proposers.Ledger.{
  LedgerConfig, LedgerState, Draft, count_patch, add_leaf, extend, look, is_heavy, break_here,
  span_loop, span_part, rej_dominant, patched, chain_step, chain_loop, propose,
}
use speculation_ledger.Proposers.Ledger.Budget.{
  IsDraft, add_leaf-IsDraft, extend-IsDraft, look-IsDraft, patch-IsDraft, break_here-IsDraft,
}

module _ (fl : Floats) (h : Blake2b) (cfg : LedgerConfig fl) (ctx : ProposeCtx) where
  abbrev Drafted : Draft fl → Type 0
  Drafted d = IsDraft fl h ctx.budget d

  span_loop-Drafted :
      (breaks : List (ℕ × ℕ)) (off : ℕ) (toks : List ℕ) (d : Draft fl) {ended : Bool}
      {d' : Draft fl}
      → span_loop fl cfg ctx breaks off toks d ≡ ok (ended, d')
      → Drafted d
      → Drafted d'
  unfolding span_loop
  span_loop-Drafted breaks off [] d {d' = d'} e p = let same : d ≡ d' = cc in rw (← same) p
  span_loop-Drafted breaks off (tok ∷ toks) d {d' = d'} e p =
      elim (Bool-cases (leb ctx.budget (length d.tree))) [
        | inl full ↦ let same : d ≡ d' = ground (arith, full) in rw (← same) p
        | inr more ↦
            let room : length d.tree < ctx.budget = ground (arith, more) in
            elim (Bool-cases (is_heavy fl cfg.break_split_min breaks off)) [
              | inl heavy ↦
                  let (d₁, e1, e2) =
                    >>=-eq-ok (break_here fl ctx.budget ctx tok d) _
                      (rw (more, heavy, span_loop) at e) in
                  let same : d₁ ≡ d' = cc in
                  rw (← same) (break_here-IsDraft fl h ctx.budget ctx tok d room e1 p)
              | inr light ↦
                  let (d₁, e1, e2) =
                    >>=-eq-ok (extend fl tok d) _ (rw (more, light, span_loop) at e) in
                  span_loop-Drafted breaks (suc off) toks d₁ e2
                    (extend-IsDraft fl h ctx.budget tok d room e1 p).0
            ]
      ]

  -- A draft with another state, whose store is valid.
  restated-Drafted :
      (d : Draft fl) (s : LedgerState fl)
      → IsValid fl h s.store
      → Drafted d
      → Drafted (record d { state = s })
  restated-Drafted d s valid p = record {
    topological = p.topological;
    parent_in = p.parent_in;
    within = p.within;
    valid = valid;
  }

  span_part-Drafted :
      (d : Draft fl) {ended : Bool} {d' : Draft fl}
      → span_part fl cfg ctx d ≡ ok (ended, d')
      → Drafted d
      → Drafted d'
  unfolding span_part
  span_part-Drafted d {d' = d'} e p =
      let r = lookup_span fl d.state.store (stack_list d.sims) ctx.scope_stack ctx.seg in
      let valid =
        step-IsValid fl h (looked_up_span d.state.store (stack_list d.sims) ctx.scope_stack ctx.seg)
          p.valid in
      let d₁ = record d { state = record d.state { store = r.0 } } in
      let p₁ : Drafted d₁ = restated-Drafted d (record d.state { store = r.0 }) valid p in
      elim (Option-cases r.1) [
        | inl nothing ↦ let same : d₁ ≡ d' = ground (arith, nothing) in rw (← same) p₁
        | inr (sp, found) ↦ elim (Bool-cases (leb cfg.span_min_count sp.count)) [
          | inr rare ↦ let same : d₁ ≡ d' = ground (arith, found, rare) in rw (← same) p₁
          | inl often ↦
              let s : LedgerState fl = record d₁.state { n_span_uses = d₁.state.n_span_uses + 1 } in
              span_loop-Drafted sp.breaks 0 sp.tokens (record d₁ { state = s })
                (rw (found, often, span_part) at e) (restated-Drafted d₁ s valid p₁)
        ]
      ]

  -- A round of the second loop keeps the draft, and adds to it unless it is the last one.
  abbrev Grown : Option fl.F → Draft fl → Draft fl → Type 0
  Grown next d d' = Drafted d' × ((next ≡ none) ⊎ (length d.tree < length d'.tree))

  patched-Grown :
      (top patch : PosteriorCand fl) (cum : fl.F) (d : Draft fl) {next : Option fl.F}
      {d' : Draft fl}
      → length d.tree < ctx.budget
      → patched fl ctx.budget top patch cum d ≡ ok (next, d')
      → Drafted d
      → Grown next d d'
  unfolding patched
  patched-Grown top patch cum d {next} {d'} room e p = elim (Bool-cases (patch.tok == top.tok)) [
    | inl equal ↦
        let (d₁, e1, e2) = >>=-eq-ok (add_leaf fl top.tok d) _ (rw (equal, patched) at e) in
        let same : d₁ ≡ d' = cc in
        let last_round : none ≡ next = cc in
        rw (← same) ((add_leaf-IsDraft fl h ctx.budget top.tok d room e1 p).0, inl (sym last_round))
    | inr other ↦ elim (Bool-cases (leb 2 (ctx.budget - length d.tree))) [
      | inl both ↦
          let (d₁, e1, r1) = >>=-eq-ok (add_leaf fl top.tok d) _ (rw (other, both, patched) at e) in
          let (d₂, e2, r2) = >>=-eq-ok (extend fl patch.tok d₁) _ r1 in
          let (p₁, size₁) = add_leaf-IsDraft fl h ctx.budget top.tok d room e1 p in
          let (p₂, size₂) =
            extend-IsDraft fl h ctx.budget patch.tok d₁ (ground (arith, both, size₁)) e2 p₁ in
          let same : record d₂ { state = count_patch fl d₂.state } ≡ d' = cc in
          rw (← same) (patch-IsDraft fl h ctx.budget d₂ p₂, inr (omega (arith, size₁, size₂)))
      | inr one ↦
          let (d₂, e2, r2) = >>=-eq-ok (extend fl patch.tok d) _ (rw (other, one, patched) at e) in
          let (p₂, size₂) = extend-IsDraft fl h ctx.budget patch.tok d room e2 p in
          let same : record d₂ { state = count_patch fl d₂.state } ≡ d' = cc in
          rw (← same) (patch-IsDraft fl h ctx.budget d₂ p₂, inr (omega (arith, size₂)))
    ]
  ]

  stopped-Grown :
      (d : Draft fl) (r : Result (Option fl.F × Draft fl)) {next : Option fl.F} {d' : Draft fl}
      → r ≡ ok (none, d)
      → r ≡ ok (next, d')
      → Drafted d
      → Grown next d d'
  stopped-Grown d r {next} {d'} e₀ e p =
      let same : d ≡ d' = cc in
      let last_round : none ≡ next = cc in rw (← same) (p, inl (sym last_round))

  chain_step-Grown :
      (cum : fl.F) (post : Option (Posterior fl)) (d : Draft fl) {next : Option fl.F}
      {d' : Draft fl}
      → length d.tree < ctx.budget
      → chain_step fl cfg ctx.budget cum post d ≡ ok (next, d')
      → Drafted d
      → Grown next d d'
  unfolding chain_step
  chain_step-Grown cum none d room e p = stopped-Grown d (ok (none, d)) refl e p
  chain_step-Grown cum (some post) d {next} {d'} room e p = elim (List-cases post.cands) [
    | inl nothing ↦ stopped-Grown d (ok (none, d)) refl (rw (nothing, chain_step) at e) p
    | inr (top, others, found) ↦ elim (Bool-cases (fl.lt post.weight cfg.w_min)) [
      | inl light ↦ stopped-Grown d (ok (none, d)) refl (rw (found, light, chain_step) at e) p
      | inr weighty ↦ elim (Bool-cases (rej_dominant fl cfg top)) [
        | inl rejected ↦
            let (patch, e1, e2) =
              >>=-eq-ok (or_raise (correction fl post) index_error) _
                (rw (found, weighty, rejected, chain_step) at e) in
            patched-Grown top patch cum d room e2 p
        | inr accepted ↦
            let (d₁, e1, e2) =
              >>=-eq-ok (extend fl top.tok d) _ (rw (found, weighty, accepted, chain_step) at e) in
            let (p₁, size) = extend-IsDraft fl h ctx.budget top.tok d room e1 p in
            let same : d₁ ≡ d' = cc in rw (← same) (p₁, inr (omega (arith, size)))
      ]
    ]
  ]

  -- With a round for each node that the budget has left, the loop does not stop for want of rounds.
  chain_loop-Drafted :
      (fuel : ℕ) (cum : fl.F) (d : Draft fl) {more : Bool} {d' : Draft fl}
      → ctx.budget ≤ length d.tree + fuel
      → chain_loop fl cfg ctx fuel cum d ≡ ok (more, d')
      → Drafted d
      → Drafted d' × (more ≡ false)
  unfolding chain_loop
  chain_loop-Drafted zero cum d {more} {d'} enough e p =
      let same : d ≡ d' = cc in
      let asked : (ltb (length d.tree) ctx.budget && fl.le cfg.cum_min cum) ≡ more = cc in
      let over : ltb (length d.tree) ctx.budget ≡ false = ground (arith, enough) in
      (rw (← same) p, sym asked ∙ rw over refl)
  chain_loop-Drafted (suc fuel) cum d {more} {d'} enough e p =
      elim (Bool-cases (ltb (length d.tree) ctx.budget && fl.le cfg.cum_min cum)) [
        | inr over ↦
            let same : d ≡ d' = ground (arith, over) in
            let last_round : false ≡ more = ground (arith, over) in (rw (← same) p, sym last_round)
        | inl on ↦
            let room : length d.tree < ctx.budget =
              ltb→lt _ _ (&&-both (ltb (length d.tree) ctx.budget) (fl.le cfg.cum_min cum) on).0 in
            let ((d₁, post), e1, r1) = >>=-eq-ok (look fl ctx d) _ (rw (on, chain_loop) at e) in
            let ((next, d₂), e2, r2) = >>=-eq-ok (chain_step fl cfg ctx.budget cum post d₁) _ r1 in
            let (p₁, tree_same) = look-IsDraft fl h ctx.budget ctx d e1 p in
            let (p₂, grown) = chain_step-Grown cum post d₁ (rw tree_same room) e2 p₁ in
            elim (Option-cases next) [
              | inl ended ↦
                  let r = rw ended at r2 in
                  let same : d₂ ≡ d' = cc in
                  let last_round : false ≡ more = cc in (rw (← same) p₂, sym last_round)
              | inr (cum', goes_on) ↦
                  chain_loop-Drafted fuel cum' d₂
                    (elim grown [
                      | inl ended ↦ absurd (cc)
                      | inr longer ↦ omega (arith, longer, ap length tree_same)
                    ])
                    (rw goes_on at r2) p₂
            ]
      ]

  finished-IsTopological :
      (d : Draft fl) {tree : DraftTree} {s' : LedgerState fl}
      → d.tree ≡ tree
      → d.state ≡ s'
      → Drafted d
      → IsTopological tree × (length tree ≤ ctx.budget) × IsValid fl h s'.store
  finished-IsTopological d e₁ e₂ p = rw (← e₁, ← e₂) (p.topological, p.within, p.valid)

  -- If `propose` returns, its draft has at most as many nodes as the budget, each after its parent, and
  -- a valid store is left valid.
  pub propose-IsTopological :
      (s : LedgerState fl) {tree : DraftTree} {s' : LedgerState fl}
      → propose fl cfg ctx s ≡ ok (tree, s')
      → IsValid fl h s.store
      → IsTopological tree × (length tree ≤ ctx.budget) × IsValid fl h s'.store
  unfolding propose
  propose-IsTopological s {tree} {s'} e valid =
      let d₀ : Draft fl = record { tree = []; parent = none; sims = ctx.sigs; state = s } in
      let ((ended, d), e1, r1) = >>=-eq-ok (span_part fl cfg ctx d₀) _ e in
      let p =
        span_part-Drafted d₀ e1
          (record { topological = tt; parent_in = refl; within = omega arith; valid = valid }) in
      elim (Bool-cases ended) [
        | inl over ↦
            let r = rw over at r1 in finished-IsTopological d {tree = tree} {s' = s'} (cc) (cc) p
        | inr goes_on ↦
            let ((more, d'), e2, r2) =
              >>=-eq-ok (chain_loop fl cfg ctx ctx.budget (fl.ratio 1 1) d) _ (rw goes_on at r1) in
            let (p', _) = chain_loop-Drafted ctx.budget (fl.ratio 1 1) d (omega arith) e2 p in
            finished-IsTopological d' {tree = tree} {s' = s'} (cc) (cc) p'
      ]
