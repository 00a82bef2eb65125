-- ===== src/Store/Queue/Drains.antt =====
-- `drain` of core/store.py takes the oldest events from the queue, and counts each.
use speculation_ledger.Prelude.{
  ℕ, suc, ◌+◌, ◌-◌, ◌≡◌, refl, sym, ◌∙◌, inl, inr, true, false, Option, none, some, List, [], ◌∷◌,
  arith, leb, ltb, ◌==◌, ◌&&◌, min, Bool-cases, length, drop, map,
}
use speculation_ledger.Floats.{Floats}
use speculation_ledger.Hash.{Blake2b}
use speculation_ledger.Result.{Result, ok, overflow_error, or_raise, >>=-eq-ok}
use speculation_ledger.Types.{VerifyOutcome}
use speculation_ledger.Arena.{SpanEntry}
use speculation_ledger.Arena as Arena
use speculation_ledger.Store.State.{StoreParams, LedgerStore, refresh_sizes}
use speculation_ledger.Store.Apply.{apply}
use speculation_ledger.Store.Apply.Counts.{Counts, apply-Counts}
use speculation_ledger.Store.Compact.{compact, live_spans}
use speculation_ledger.Store.Queue.{below_max, drain_loop, after_drain, drain}

module _ (fl : Floats) (h : Blake2b) where
  -- The number of events that are taken from a queue of this length, after n were.
  abbrev pub taken : Option ℕ → ℕ → ℕ → ℕ
  taken none n l = l
  taken (some m) n l = min (m - n) l

  taken-empty : (max_events : Option ℕ) (n : ℕ) → taken max_events n 0 ≡ 0
  taken-empty none n = refl
  taken-empty (some m) n = omega arith

  taken-more :
      (max_events : Option ℕ) (n l : ℕ)
      → below_max fl h max_events n ≡ true
      → taken max_events n (suc l) ≡ suc (taken max_events (suc n) l)
  taken-more none n l more = refl
  taken-more (some m) n l more = ground arith

  taken-full :
      (max_events : Option ℕ) (n l : ℕ)
      → below_max fl h max_events n ≡ false
      → taken max_events n l ≡ 0
  taken-full none n l full = cc
  taken-full (some m) n l full = ground arith

  stopped :
      (max_events : Option ℕ) (n : ℕ) (p : StoreParams fl) (q : List VerifyOutcome) (total : ℕ)
      (st st' : LedgerStore fl) (n' : ℕ)
      → Path (Result (ℕ × LedgerStore fl)) (ok (n, st)) (ok (n', st'))
      → Counts fl p q total st
      → taken max_events n (length q) ≡ 0
      → let k = taken max_events n (length q) in
        (n' ≡ n + k) × Counts fl p (drop k q) (total + k) st'
  stopped max_events n p q total st st' n' e c zero_k =
      let same : st ≡ st' = ground arith in
      rw zero_k (
        ground arith,
        rw (← same) (record {
          params_same = c.params_same;
          queue_same = c.queue_same;
          events = omega (arith, c.events);
        }),
      )

  drain_loop-Counts :
      (max_events : Option ℕ) (n : ℕ) (p : StoreParams fl) (q : List VerifyOutcome) (total : ℕ)
      (st st' : LedgerStore fl) (n' : ℕ)
      → drain_loop fl h max_events n q st ≡ ok (n', st')
      → Counts fl p q total st
      → let k = taken max_events n (length q) in
        (n' ≡ n + k) × Counts fl p (drop k q) (total + k) st'
  unfolding drain_loop
  drain_loop-Counts max_events n p [] total st st' n' e c =
      stopped max_events n p [] total st st' n' e c (taken-empty max_events n)
  drain_loop-Counts max_events n p (ev ∷ q) total st st' n' e c =
      elim (Bool-cases (below_max fl h max_events n)) [
        | inl more ↦
            let (mid, first, rest) =
              >>=-eq-ok (apply fl h ev (record st { queue = q })) _ (rw (more, drain_loop) at e) in
            let next =
              apply-Counts fl h p q total ev _ mid first
                (record { params_same = c.params_same; queue_same = refl; events = c.events }) in
            let (total_n, after) =
              drain_loop-Counts max_events (suc n) p q (suc total) mid st' n' rest next in
            let k = taken max_events (suc n) (length q) in
            let one_more : taken max_events n (suc (length q)) ≡ suc k =
              taken-more max_events n (length q) more in
            rw one_more (
              omega (arith, total_n),
              record {
                params_same = after.params_same;
                queue_same = after.queue_same;
                events = omega (arith, after.events);
              },
            )
        | inr full ↦
            stopped max_events n p (ev ∷ q) total st st' n' (rw (full, drain_loop) at e) c
              (taken-full max_events n (suc (length q)) full)
      ]

  pub compact-Counts :
      (p : StoreParams fl) (q : List VerifyOutcome) (total : ℕ) (st st' : LedgerStore fl)
      → compact fl h st ≡ ok st'
      → Counts fl p q total st
      → Counts fl p q total st'
  unfolding compact refresh_sizes
  compact-Counts p q total st st' e c =
      let kept = map (λ (s : ℕ × SpanEntry). s.1) (live_spans fl st st.spans) in
      let ((arena, moved), first, rest) =
        >>=-eq-ok (or_raise (Arena.compact h st.arena kept) overflow_error) _ e in
      let events_same : st.stats.harvested_events ≡ st'.stats.harvested_events = ground arith in
      let params_kept : st.params ≡ st'.params = ground arith in
      let queue_kept : st.queue ≡ st'.queue = ground arith in
      record {
        params_same = sym params_kept ∙ c.params_same;
        queue_same = sym queue_kept ∙ c.queue_same;
        events = sym events_same ∙ c.events;
      }

  after_drain-Counts :
      (n : ℕ) (p : StoreParams fl) (q : List VerifyOutcome) (total : ℕ) (st st' : LedgerStore fl)
      → after_drain fl h n st ≡ ok st'
      → Counts fl p q total st
      → Counts fl p q total st'
  unfolding after_drain
  after_drain-Counts n p q total st st' e c =
      let ce = st.params.compact_every in
      let due = record st { events_since_compact = st.events_since_compact + n } in
      elim (Bool-cases (n == 0)) [
        | inl idle ↦ let same : st ≡ st' = ground (arith, idle) in rw (← same) c
        | inr some_taken ↦ elim (Bool-cases (ltb 0 ce && leb ce due.events_since_compact)) [
          | inr not_due ↦
              let same : due ≡ st' = ground (arith, some_taken, not_due) in
              rw (← same) (record {
                params_same = c.params_same;
                queue_same = c.queue_same;
                events = c.events;
              })
          | inl now ↦
              let (mid, first, rest) =
                >>=-eq-ok (compact fl h due) _ (rw (some_taken, now, after_drain) at e) in
              let same : record mid { events_since_compact = 0 } ≡ st' = ground arith in
              let after = compact-Counts p q total due mid first (record {
                params_same = c.params_same;
                queue_same = c.queue_same;
                events = c.events;
              }) in
              rw (← same) (record {
                params_same = after.params_same;
                queue_same = after.queue_same;
                events = after.events;
              })
        ]
      ]

  -- A drain that returns has taken every event of the queue, or the oldest max_events of them where
  -- that is less: it returns their number, leaves the others in the queue in their order, and adds
  -- the number to the events harvested, with or without the compaction; the parameters stay.
  pub drain_lem :
      (max_events : Option ℕ) (st st' : LedgerStore fl) (n : ℕ)
      → drain fl h max_events st ≡ ok (n, st')
      → (n ≡ taken max_events 0 (length st.queue))
        × (st'.queue ≡ drop n st.queue)
        × (st'.stats.harvested_events ≡ st.stats.harvested_events + n)
        × (st'.params ≡ st.params)
  unfolding drain
  drain_lem max_events st st' n e =
      let ((k, mid), first, rest) = >>=-eq-ok (drain_loop fl h max_events 0 st.queue st) _ e in
      let (last_st, second, final) = >>=-eq-ok (after_drain fl h k mid) _ rest in
      let (total, counted) =
        drain_loop-Counts max_events 0 st.params st.queue st.stats.harvested_events st mid k first
          (record { params_same = refl; queue_same = refl; events = refl }) in
      let after = after_drain-Counts k _ _ _ mid last_st second counted in
      let same_st : last_st ≡ st' = ground arith in
      let same_n : k ≡ n = ground arith in
      let all : n ≡ taken max_events 0 (length st.queue) = omega (arith, same_n, total) in
      (
        all,
        rw (← same_st, all) after.queue_same,
        rw (← same_st, all) after.events,
        rw (← same_st) after.params_same,
      )
