-- ===== src/Store/Spans/Frame.antt =====
-- The span half of core/store.py leaves the hot table, the queue, the epochs and the counters alone.
use speculation_ledger.Prelude.{
  ℕ, suc, ◌≡◌, refl, ◌∙◌, inl, inr, List, [], ◌∷◌, arith, ltb, Bool-cases, Option-cases, length,
}
use speculation_ledger.Prelude.Dict.{Dict, lookup, insert, erase}
use speculation_ledger.Floats.{Floats}
use speculation_ledger.Hash.{Blake2b}
use speculation_ledger.Result.{ok, overflow_error, or_raise, >>=-eq-ok}
use speculation_ledger.Signature.{min_order, RollingSigStack, stack_list}
use speculation_ledger.Types.{VerifyOutcome, ScopeKind, id_of}
use speculation_ledger.Arena.{SpanArena, SpanEntry}
use speculation_ledger.Arena as Arena
use speculation_ledger.Store.State.{RunState, LedgerStore, elem}
use speculation_ledger.Store.Spans.{
  span_key, register, register_at_depths, register_at_orders, flush_popped, flush_run, must_flush,
  start_run, extend_run, track_run,
}

module _ (fl : Floats) where
  -- The second store differs from the first in spans, runs and arena at most.
  pub record IsFramed (st st' : LedgerStore fl) : Type 0 where
    pub params_same : st'.params ≡ st.params
    pub hot_same : st'.hot ≡ st.hot
    pub queue_same : st'.queue ≡ st.queue
    pub epochs_same : st'.epochs ≡ st.epochs
    pub stats_same : st'.stats ≡ st.stats
    pub due_same : st'.events_since_compact ≡ st.events_since_compact

  pub aside :
      (st : LedgerStore fl) (spans : Dict SpanEntry) (arena : SpanArena) (runs : Dict RunState)
      → IsFramed st (record st { spans = spans; arena = arena; runs = runs })
  aside st spans arena runs = record {
    params_same = refl;
    hot_same = refl;
    queue_same = refl;
    epochs_same = refl;
    stats_same = refl;
    due_same = refl;
  }

  pub framed : (st : LedgerStore fl) → IsFramed st st
  framed st = aside st st.spans st.arena st.runs

  pub then-IsFramed : (a b c : LedgerStore fl) → IsFramed a b → IsFramed b c → IsFramed a c
  then-IsFramed a b c p q = record {
    params_same = q.params_same ∙ p.params_same;
    hot_same = q.hot_same ∙ p.hot_same;
    queue_same = q.queue_same ∙ p.queue_same;
    epochs_same = q.epochs_same ∙ p.epochs_same;
    stats_same = q.stats_same ∙ p.stats_same;
    due_same = q.due_same ∙ p.due_same;
  }

  register_at_depths-IsFramed :
      (run : RunState) (off len sig order depth : ℕ) (ids : List ℕ) (st : LedgerStore fl)
      → IsFramed st (register_at_depths fl run off len sig order depth ids st)
  unfolding register_at_depths
  register_at_depths-IsFramed run off len sig order depth [] st = framed st
  register_at_depths-IsFramed run off len sig order depth (sid ∷ ids) st =
      elim (Bool-cases (elem depth st.params.span_scope_depths)) [
        | inl on ↦ rw on (
            then-IsFramed st _ _
              (aside st
                (insert (span_key sig order sid run.seg)
                  (register fl st run off len (span_key sig order sid run.seg) sid
                    (lookup (span_key sig order sid run.seg) st.spans))
                  st.spans)
                st.arena st.runs)
              (register_at_depths-IsFramed run off len sig order (suc depth) ids _))
        | inr off' ↦ rw off' (register_at_depths-IsFramed run off len sig order (suc depth) ids st)
      ]

  register_at_orders-IsFramed :
      (run : RunState) (off len order : ℕ) (sigs : List ℕ) (st : LedgerStore fl)
      → IsFramed st (register_at_orders fl run off len order sigs st)
  unfolding register_at_orders
  register_at_orders-IsFramed run off len order [] st = framed st
  register_at_orders-IsFramed run off len order (sig ∷ sigs) st =
      elim (Bool-cases (elem order st.params.span_orders)) [
        | inl on ↦ rw on (
            then-IsFramed st _ _
              (register_at_depths-IsFramed run off len sig order 0 run.scope_ids st)
              (register_at_orders-IsFramed run off len (suc order) sigs _))
        | inr off' ↦ rw off' (register_at_orders-IsFramed run off len (suc order) sigs st)
      ]

module _ (fl : Floats) (h : Blake2b) where
  flush_popped-IsFramed :
      (run : RunState) (st st' : LedgerStore fl)
      → flush_popped fl h run st ≡ ok st'
      → IsFramed fl st st'
  unfolding flush_popped
  flush_popped-IsFramed run st st' e =
      elim (Bool-cases (ltb (length run.tokens) st.params.span_min_len)) [
        | inl short ↦ let same : st ≡ st' = ground (arith, short) in rw (← same) (framed fl st)
        | inr long ↦
            let ((arena, off, len), first, rest) =
              >>=-eq-ok (or_raise (Arena.add h st.arena run.tokens) overflow_error) _
                (rw long at e) in
            let same : register_at_orders fl run off len min_order run.start_sigs
                  (record st { arena = arena })
                ≡ st' =
              ground arith in
            rw (← same) (
              then-IsFramed fl st (record st { arena = arena }) _
                (aside fl st st.spans arena st.runs)
                (register_at_orders-IsFramed fl run off len min_order run.start_sigs _))
      ]

  pub flush_run-IsFramed :
      (sid : ℕ) (st st' : LedgerStore fl) → flush_run fl h sid st ≡ ok st' → IsFramed fl st st'
  unfolding flush_run
  flush_run-IsFramed sid st st' e = elim (Option-cases (lookup sid st.runs)) [
    | inl none_there ↦
        let same : st ≡ st' = ground (arith, none_there) in rw (← same) (framed fl st)
    | inr (run, there) ↦
        then-IsFramed fl st (record st { runs = erase sid st.runs }) st'
          (aside fl st st.spans st.arena (erase sid st.runs))
          (flush_popped-IsFramed run _ st' (rw (there, flush_run) at e))
  ]

  pub track_run-IsFramed :
      (ev : VerifyOutcome) (sigs : RollingSigStack) (seg dom tok : ℕ) (sids : List ℕ)
      (st st' : LedgerStore fl)
      → track_run fl h ev sigs seg dom tok sids st ≡ ok st'
      → IsFramed fl st st'
  unfolding track_run
  track_run-IsFramed ev sigs seg dom tok sids st st' e =
      let sid = id_of h ev.scope ScopeKind.session in
      let write : (run : RunState) (mid : LedgerStore fl)
          → IsFramed fl st mid
          → ok (record mid { runs = insert sid (extend_run fl h run tok dom) mid.runs }) ≡ ok st'
          → IsFramed fl st st' =
        λ run mid before eq.
          let moved = then-IsFramed fl st mid _ before (
            aside fl mid mid.spans mid.arena (insert sid (extend_run fl h run tok dom) mid.runs)) in
          let same : record mid { runs = insert sid (extend_run fl h run tok dom) mid.runs } ≡ st' =
            ground arith in
          rw (← same) moved in
      elim (Option-cases (lookup sid st.runs)) [
        | inl new ↦
            write (start_run fl h seg dom (stack_list sigs) sids) st (framed fl st)
              (ground (arith, new))
        | inr (run, there) ↦ elim (Bool-cases (must_flush fl h st run seg)) [
          | inr kept ↦ write run st (framed fl st) (ground (arith, there, kept))
          | inl full ↦
              let (mid, first, rest) =
                >>=-eq-ok (flush_run fl h sid st) _ (rw (there, full, track_run) at e) in
              write (start_run fl h seg dom (stack_list sigs) sids) mid
                (flush_run-IsFramed sid st mid first) (ground arith)
        ]
      ]
