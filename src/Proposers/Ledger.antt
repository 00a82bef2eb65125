-- ===== src/Proposers/Ledger.antt =====
-- `LedgerProposer` of sim/proposers.py: drafts from the store's spans and posteriors.
pub mod Budget
pub mod Drafts
use speculation_ledger.Prelude.{
  ℕ, zero, suc, ◌+◌, ◌-◌, Bool, true, false, not, ◌&&◌, Option, none, some, List, [], ◌∷◌, ltb, leb,
  ◌==◌, if◌then◌else◌, length, take, get_elem?, replicate,
}
use speculation_ledger.Floats.{Floats}
use speculation_ledger.Hash.{Blake2b}
use speculation_ledger.Result.{Result, ok, or_raise, index_error, assertion_error, ◌>>=◌}
use speculation_ledger.Types.{VerifyOutcome, DraftTree, realized, add}
use speculation_ledger.Signature.{RollingSigStack, push, stack_list}
use speculation_ledger.Backoff.{PosteriorCand, Posterior}
use speculation_ledger.Backoff.Rank.{correction}
use speculation_ledger.Store.{LedgerStore, bump_epoch}
use speculation_ledger.Store.Spans.{flush_runs}
use speculation_ledger.Store.Queue.{harvest, drain}
use speculation_ledger.Store.Lookup.{SpanProposal, lookup_posterior, lookup_span}
use speculation_ledger.Proposers.{ProposeCtx, BaseProposer}

module _ (fl : Floats) where
  -- The settings of a proposer; `positive` is `value_mode == "positive"`.
  pub record LedgerConfig : Type 0 where
    pub positive : Bool
    pub cum_min : fl.F
    pub w_min : fl.F
    pub rej_margin : fl.F
    pub span_min_count : ℕ
    pub break_split_min : ℕ

  pub record LedgerState : Type 0 where
    pub store : LedgerStore fl
    pub n_span_uses : ℕ
    pub n_patches : ℕ

  -- The variables of `propose`.
  pub record Draft : Type 0 where
    pub tree : DraftTree
    pub parent : Option ℕ
    pub sims : RollingSigStack
    pub state : LedgerState

  abbrev pub count_patch : LedgerState → LedgerState
  count_patch s = record s { n_patches = s.n_patches + 1 }

  -- `tree.add(tok, parent)`
  unfoldable pub add_leaf : ℕ → Draft → Result Draft
  add_leaf tok d = do
    (tree, _) ← or_raise (add d.tree tok d.parent) assertion_error
    ok (record d { tree = tree })

  -- `parent = tree.add(tok, parent)`, then `sims.push(tok)`.
  unfoldable pub extend : ℕ → Draft → Result Draft
  extend tok d = do
    (tree, i) ← or_raise (add d.tree tok d.parent) assertion_error
    ok (record d { tree = tree; parent = some i; sims = push d.sims tok })

  -- `self.store.lookup` in the context of the draft.
  unfoldable pub look : ProposeCtx → Draft → Result (Draft × Option (Posterior fl))
  look ctx d = do
    (store, post) ← lookup_posterior fl d.state.store (stack_list d.sims) ctx.scope_stack ctx.seg
    ok (record d { state = record d.state { store = store } }, post)

  -- `off in heavy`
  unfoldable pub is_heavy : ℕ → List (ℕ × ℕ) → ℕ → Bool
  is_heavy least [] off = false
  is_heavy least (b ∷ breaks) off =
      let rest = is_heavy least breaks off in
      if b.0 == off then (if leb least b.1 then true else rest) else rest

  -- The patch beside a span's token at a break: the correction, where it is another token.
  unfoldable pub splice : ℕ → Draft → Option (Posterior fl) → Result Draft
  unfolding add_leaf
  splice tok d none = ok d
  splice tok d (some post) = elim (correction fl post) [
    | none ↦ ok d
    | some patch ↦ elim (patch.tok == tok) [
      | true ↦ ok d
      | false ↦ do d' ← add_leaf patch.tok d; ok (record d' { state = count_patch d'.state })
    ]
  ]

  -- A token at a break, where the draft ends.
  unfoldable pub break_here : ℕ → ProposeCtx → ℕ → Draft → Result Draft
  unfolding add_leaf look splice
  break_here budget ctx tok d = do
    d₁ ← add_leaf tok d
    elim (ltb (length d₁.tree) budget) [
      | false ↦ ok d₁
      | true ↦ look ctx d₁ >>= (λ (d₂, post). splice tok d₂ post)
    ]

  -- The loop over a span's tokens from offset `off` on; the Boolean says whether the draft has ended.
  unfoldable pub span_loop :
      LedgerConfig → ProposeCtx → List (ℕ × ℕ) → ℕ → List ℕ → Draft → Result (Bool × Draft)
  unfolding is_heavy break_here extend
  span_loop cfg ctx breaks off [] d = ok (false, d)
  span_loop cfg ctx breaks off (tok ∷ toks) d = elim (leb ctx.budget (length d.tree)) [
    | true ↦ ok (false, d)
    | false ↦ elim (is_heavy cfg.break_split_min breaks off) [
      | true ↦ break_here ctx.budget ctx tok d >>= (λ d'. ok (true, d'))
      | false ↦ extend tok d >>= (λ d'. span_loop cfg ctx breaks (suc off) toks d')
    ]
  ]

  unfoldable pub span_part : LedgerConfig → ProposeCtx → Draft → Result (Bool × Draft)
  unfolding span_loop
  span_part cfg ctx d =
      let (store, span) =
        lookup_span fl d.state.store (stack_list d.sims) ctx.scope_stack ctx.seg in
      let d₁ = record d { state = record d.state { store = store } } in
      elim span [
        | none ↦ ok (false, d₁)
        | some sp ↦ elim (leb cfg.span_min_count sp.count) [
          | false ↦ ok (false, d₁)
          | true ↦
              span_loop cfg ctx sp.breaks 0 sp.tokens
                (record d₁ { state = record d₁.state { n_span_uses = d₁.state.n_span_uses + 1 } })
        ]
      ]

  -- `max(p, 0.05)`
  abbrev pub at_least_floor : fl.F → fl.F
  at_least_floor p = if fl.lt p (fl.ratio 1 20) then fl.ratio 1 20 else p

  -- `rej_dominant`
  abbrev pub rej_dominant : LedgerConfig → PosteriorCand fl → Bool
  rej_dominant cfg top =
      ltb 0 top.support && fl.lt top.p_acc (fl.minus (fl.ratio 1 2) cfg.rej_margin)

  -- An edge that is mostly rejected: with the correction `patch` beside it where the budget allows both.
  unfoldable pub patched :
      ℕ → PosteriorCand fl → PosteriorCand fl → fl.F → Draft → Result (Option fl.F × Draft)
  unfolding add_leaf extend
  patched budget top patch cum d = elim (patch.tok == top.tok) [
    | true ↦ add_leaf top.tok d >>= (λ d'. ok (none, d'))
    | false ↦ do
      d₁ ← elim (leb 2 (budget - length d.tree)) [ true ↦ add_leaf top.tok d | false ↦ ok d ]
      d₂ ← extend patch.tok d₁
      ok (
        some (fl.times cum (at_least_floor patch.p_acc)),
        record d₂ { state = count_patch d₂.state },
      )
  ]

  -- The body of the loop from a posterior on: the next `cum`, or `none` for a break.
  unfoldable pub chain_step :
      LedgerConfig → ℕ → fl.F → Option (Posterior fl) → Draft → Result (Option fl.F × Draft)
  unfolding patched
  chain_step cfg budget cum none d = ok (none, d)
  chain_step cfg budget cum (some post) d = elim post.cands [
    | [] ↦ ok (none, d)
    | top ∷ _ ↦ elim (fl.lt post.weight cfg.w_min) [
      | true ↦ ok (none, d)
      | false ↦ elim (rej_dominant cfg top) [
        | true ↦
            or_raise (correction fl post) index_error >>= (λ patch. patched budget top patch cum d)
        | false ↦
            extend top.tok d >>= (λ d'. ok (some (fl.times cum (at_least_floor top.p_acc)), d'))
      ]
    ]
  ]

  -- `while len(tree) < budget and cum >= self.cum_min`, in at most so many rounds: the condition at the
  -- end of them, and the draft. A round that goes on adds a node.
  unfoldable pub chain_loop : LedgerConfig → ProposeCtx → ℕ → fl.F → Draft → Result (Bool × Draft)
  unfolding look chain_step
  chain_loop cfg ctx zero cum d = ok (ltb (length d.tree) ctx.budget && fl.le cfg.cum_min cum, d)
  chain_loop cfg ctx (suc fuel) cum d =
      elim (ltb (length d.tree) ctx.budget && fl.le cfg.cum_min cum) [
        | false ↦ ok (false, d)
        | true ↦ do
          (d₁, post) ← look ctx d
          (next, d₂) ← chain_step cfg ctx.budget cum post d₁
          elim next [ none ↦ ok (false, d₂) | some cum' ↦ chain_loop cfg ctx fuel cum' d₂ ]
      ]

  unfoldable pub propose :
      LedgerConfig → ProposeCtx → LedgerState → Result (DraftTree × LedgerState)
  unfolding span_part chain_loop
  propose cfg ctx s = do
    (ended, d) ← span_part cfg ctx (record { tree = []; parent = none; sims = ctx.sigs; state = s })
    elim ended [
      | true ↦ ok (d.tree, d.state)
      | false ↦
          chain_loop cfg ctx ctx.budget (fl.ratio 1 1) d >>= (λ (_, d'). ok (d'.tree, d'.state))
    ]

-- `realized[:-1]`
abbrev pub without_last : List ℕ → List ℕ
without_last xs = take (length xs - 1) xs

-- The outcome without what the verifier rejected and the distributions that it saw.
unfoldable pub positive_only : VerifyOutcome → VerifyOutcome
positive_only ev =
    let n = length (realized ev) in
    record ev {
      draft_ids = without_last (realized ev);
      accepted_len = n - 1;
      topk_ids = replicate n [];
      topk_logp_q8 = replicate n [];
    }

module _ (fl : Floats) (h : Blake2b) where
  abbrev pub stored_outcome : LedgerConfig fl → VerifyOutcome → VerifyOutcome
  stored_outcome cfg ev = if cfg.positive then positive_only ev else ev

  -- `harvest`, with the drain that follows.
  unfoldable pub harvest_ledger :
      LedgerConfig fl → VerifyOutcome → LedgerState fl → Result (LedgerState fl)
  unfolding positive_only
  harvest_ledger cfg ev s = do
    (n, store) ← drain fl h none (harvest fl s.store (stored_outcome cfg ev ∷ []))
    ok (record s { store = store })

  unfoldable pub end_ledger : LedgerState fl → Result (LedgerState fl)
  end_ledger s = flush_runs fl h s.store >>= (λ store. ok (record s { store = store }))

  abbrev pub ledger_proposer : LedgerConfig fl → BaseProposer (LedgerState fl)
  ledger_proposer cfg = record {
    begin_request = λ scope s. ok s;
    propose = λ ctx s. propose fl cfg ctx s;
    harvest = λ ev s. harvest_ledger cfg ev s;
    end_request = λ s. end_ledger s;
    bump_epoch = λ scope file s. record s { store = bump_epoch fl s.store scope file };
  }
