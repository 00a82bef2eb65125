-- ===== src/Store/Steps/Invariant.antt =====
-- What holds of a `LedgerStore` of core/store.py after any sequence of calls.
use speculation_ledger.Prelude.{
  ℕ, zero, suc, ◌+◌, ◌-◌, ◌≡◌, refl, inl, inr, ◌&&◌, ◌≤◌, Option, List, [], ◌∷◌, ◌++◌, arith, ltb,
  leb, ◌==◌, Bool-cases, length, All, All-append, drop, map, length-drop,
}
use speculation_ledger.Floats.{Floats}
use speculation_ledger.Hash.{Blake2b}
use speculation_ledger.Result.{ok, >>=-eq-ok}
use speculation_ledger.Types.{VerifyOutcome}
use speculation_ledger.Store.State.{
  StoreParams, LedgerStore, RunState, new_store, bump_epoch, refresh_sizes,
}
use speculation_ledger.Store.Spans.{flush_run, flush_all, flush_runs}
use speculation_ledger.Store.Spans.Frame.{IsFramed, framed, then-IsFramed, flush_run-IsFramed}
use speculation_ledger.Store.Apply.{apply}
use speculation_ledger.Store.Apply.Hot.{IsHotOk, apply-IsHotOk}
use speculation_ledger.Store.Compact.{compact, stats}
use speculation_ledger.Store.Compact.Decay.{compact-IsHotOk}
use speculation_ledger.Store.Queue.{below_max, drain_loop, after_drain, drain}
use speculation_ledger.Store.Queue.Drops.{harvested, harvest_lem}
use speculation_ledger.Store.Queue.Drains.{drain_lem, compact-Counts}
use speculation_ledger.Store.Snapshot.Fits.{load-Loaded}
use speculation_ledger.Store.Steps.{
  IsByteWide, Step, Reach, looked_up, looked_up_span, bumped, harvested_all, drained, flushed,
  compacted, loaded, counted, start, later,
}
use speculation_ledger.Store.Steps.Probes.{lookup_posterior-Kept, lookup_span-Kept}

All-drop : {A : Type 0} (Q : A → Type 0) (n : ℕ) (xs : List A) → All Q xs → All Q (drop n xs)
All-drop Q zero xs h = h
All-drop Q (suc n) [] h = h
All-drop Q (suc n) (x ∷ xs) h = All-drop Q n xs h.1

module _ (fl : Floats) (h : Blake2b) where
  -- The hot table is in order, and the queue is within its bound and holds byte-wide events.
  pub record IsValid (st : LedgerStore fl) : Type 0 where
    pub hot_ok : IsHotOk fl st
    pub queue_fits : length st.queue ≤ st.params.queue_cap
    pub queue_wide : All IsByteWide st.queue

  drain_loop-IsHotOk :
      (max_events : Option ℕ) (n : ℕ) (q : List VerifyOutcome) (st st' : LedgerStore fl) (n' : ℕ)
      → All IsByteWide q
      → drain_loop fl h max_events n q st ≡ ok (n', st')
      → IsHotOk fl st
      → IsHotOk fl st'
  unfolding drain_loop
  drain_loop-IsHotOk max_events n [] st st' n' wide e ho =
      let same : st ≡ st' = ground arith in rw (← same) ho
  drain_loop-IsHotOk max_events n (ev ∷ q) st st' n' wide e ho =
      elim (Bool-cases (below_max fl h max_events n)) [
        | inr full ↦ let same : st ≡ st' = ground (arith, full) in rw (← same) ho
        | inl more ↦
            let (mid, first, rest) =
              >>=-eq-ok (apply fl h ev (record st { queue = q })) _ (rw (more, drain_loop) at e) in
            let before : IsHotOk fl (record st { queue = q }) = record {
              init = ho.init;
              bounded = ho.bounded;
              entries = ho.entries;
            } in
            drain_loop-IsHotOk max_events (suc n) q mid st' n' wide.1 rest
              (apply-IsHotOk fl h ev (record st { queue = q }) mid wide.0 first before)
      ]

  after_drain-IsHotOk :
      (n : ℕ) (st st' : LedgerStore fl)
      → after_drain fl h n st ≡ ok st'
      → IsHotOk fl st
      → IsHotOk fl st'
  unfolding after_drain
  after_drain-IsHotOk n st st' e ho =
      let ce = st.params.compact_every in
      let due = record st { events_since_compact = st.events_since_compact + n } in
      let ho' : IsHotOk fl due = record {
        init = ho.init;
        bounded = ho.bounded;
        entries = ho.entries;
      } in
      elim (Bool-cases (n == 0)) [
        | inl idle ↦ let same : st ≡ st' = ground (arith, idle) in rw (← same) ho
        | inr some_taken ↦ elim (Bool-cases (ltb 0 ce && leb ce due.events_since_compact)) [
          | inr not_due ↦
              let same : due ≡ st' = ground (arith, some_taken, not_due) in rw (← same) ho'
          | inl now ↦
              let (mid, first, rest) =
                >>=-eq-ok (compact fl h due) _ (rw (some_taken, now, after_drain) at e) in
              let same : record mid { events_since_compact = 0 } ≡ st' = ground arith in
              let after = compact-IsHotOk fl h due mid first ho' in
              rw (← same)
                (record { init = after.init; bounded = after.bounded; entries = after.entries })
        ]
      ]

  drain-IsHotOk :
      (max_events : Option ℕ) (st st' : LedgerStore fl) (n : ℕ)
      → All IsByteWide st.queue
      → drain fl h max_events st ≡ ok (n, st')
      → IsHotOk fl st
      → IsHotOk fl st'
  unfolding drain
  drain-IsHotOk max_events st st' n wide e ho =
      let ((k, mid), first, rest) = >>=-eq-ok (drain_loop fl h max_events 0 st.queue st) _ e in
      let (last_st, second, final) = >>=-eq-ok (after_drain fl h k mid) _ rest in
      let same : last_st ≡ st' = ground arith in
      rw (← same) (
        after_drain-IsHotOk k mid last_st second
          (drain_loop-IsHotOk max_events 0 st.queue st mid k wide first ho))

  flush_all-IsFramed :
      (sids : List ℕ) (st st' : LedgerStore fl)
      → flush_all fl h sids st ≡ ok st'
      → IsFramed fl st st'
  unfolding flush_all
  flush_all-IsFramed [] st st' e = let same : st ≡ st' = ground arith in rw (← same) (framed fl st)
  flush_all-IsFramed (sid ∷ sids) st st' e =
      let (mid, first, rest) = >>=-eq-ok (flush_run fl h sid st) _ e in
      then-IsFramed fl st mid st' (flush_run-IsFramed fl h sid st mid first)
        (flush_all-IsFramed sids mid st' rest)

  -- A store that differs in other parts at most.
  moved-IsValid :
      (st st' : LedgerStore fl)
      → st'.params ≡ st.params
      → st'.queue ≡ st.queue
      → IsHotOk fl st'
      → IsValid st
      → IsValid st'
  moved-IsValid st st' params_same queue_same ho v = record {
    hot_ok = ho;
    queue_fits = rw (params_same, queue_same) v.queue_fits;
    queue_wide = rw queue_same v.queue_wide;
  }

  harvested-IsValid :
      (st : LedgerStore fl) (events : List VerifyOutcome)
      → All IsByteWide events
      → IsValid st
      → IsValid (harvested fl st events)
  harvested-IsValid st events wide v =
      let all = st.queue ++ events in
      let kept = length-drop (length all - st.params.queue_cap) all in
      record {
        hot_ok = record {
          init = v.hot_ok.init;
          bounded = v.hot_ok.bounded;
          entries = v.hot_ok.entries;
        };
        queue_fits = omega (arith, kept);
        queue_wide =
            All-drop IsByteWide (length all - st.params.queue_cap) all
              (All-append IsByteWide st.queue events v.queue_wide wide);
      }

  -- Every call of a public method that returns leaves a valid store valid.
  pub step-IsValid : {st st' : LedgerStore fl} → Step fl h st st' → IsValid st → IsValid st'
  unfolding bump_epoch refresh_sizes stats flush_runs
  step-IsValid (looked_up st st' sigs scopes seg post e) v =
      let k = lookup_posterior-Kept fl st st' sigs scopes seg post e v.hot_ok in
      moved-IsValid st st' k.params_same k.queue_same k.hot_ok v
  step-IsValid (looked_up_span st sigs scopes seg) v =
      let k = lookup_span-Kept fl st sigs scopes seg v.hot_ok in
      moved-IsValid st _ k.params_same k.queue_same k.hot_ok v
  step-IsValid (bumped st scope file_id) v =
      moved-IsValid st (bump_epoch fl st scope file_id) refl refl
        (record { init = v.hot_ok.init; bounded = v.hot_ok.bounded; entries = v.hot_ok.entries }) v
  step-IsValid (harvested_all st events wide) v =
      rw (harvest_lem fl st events v.queue_fits) (harvested-IsValid st events wide v)
  step-IsValid (drained st st' max_events n e) v =
      let (total, left, events, params_same) = drain_lem fl h max_events st st' n e in
      let shorter = length-drop n st.queue in
      let fits = v.queue_fits in
      record {
        hot_ok = drain-IsHotOk max_events st st' n v.queue_wide e v.hot_ok;
        queue_fits = rw (left, params_same) (omega arith);
        queue_wide = rw left (All-drop IsByteWide n st.queue v.queue_wide);
      }
  step-IsValid (flushed st st' e) v =
      let f = flush_all-IsFramed (map (λ (r : ℕ × RunState). r.0) st.runs) st st' e in
      moved-IsValid st st' f.params_same f.queue_same
        (record {
          init = rw f.params_same v.hot_ok.init;
          bounded = rw (f.params_same, f.hot_same) v.hot_ok.bounded;
          entries = rw (f.params_same, f.hot_same) v.hot_ok.entries;
        })
        v
  step-IsValid (compacted st st' e) v =
      let c =
        compact-Counts fl h st.params st.queue st.stats.harvested_events st st' e
          (record { params_same = refl; queue_same = refl; events = refl }) in
      moved-IsValid st st' c.params_same c.queue_same (compact-IsHotOk fl h st st' e v.hot_ok) v
  step-IsValid (loaded st st' order doc fits e) v =
      let k = load-Loaded fl order doc st st' fits e v.hot_ok in
      moved-IsValid st st' k.params_same k.queue_same k.hot_ok v
  step-IsValid (counted st) v =
      moved-IsValid st (stats fl st).0 refl refl
        (record { init = v.hot_ok.init; bounded = v.hot_ok.bounded; entries = v.hot_ok.entries }) v

  -- With k_init at least 1, every store that a sequence of returning calls of the public methods makes
  -- of a new one has a queue within queue_cap, a hot table within max_entries (unless that is 0), and in
  -- it entries that stand under their keys, keep to their own caps of at most max(k_init, k_max), to
  -- 16-bit counts and to byte-wide summaries, and have a cache that is empty or up to date. The
  -- conditions on the calls are that all harvested log-probabilities are in 0..255, and that a document
  -- that is loaded has at most max_entries entries (unless that is 0), each with a cap from 1 to
  -- max(k_init, k_max), with no more candidates than its cap, and with 16-bit counts and byte-wide
  -- summaries.
  pub Reach-IsValid :
      (params : StoreParams fl) (st : LedgerStore fl)
      → 1 ≤ params.k_init
      → Reach fl h params st
      → IsValid st
  unfolding new_store
  Reach-IsValid params _ h1 start = record {
    hot_ok = record { init = h1; bounded = omega arith; entries = tt };
    queue_fits = omega arith;
    queue_wide = tt;
  }
  Reach-IsValid params _ h1 (later {st} {st'} r s) = step-IsValid s (Reach-IsValid params st h1 r)
