-- ===== src/Store/Steps/Probes.antt =====
-- The lookups of core/store.py change the caches of hot entries and the counters only.
use speculation_ledger.Prelude.{
  ℕ, suc, ◌≡◌, refl, ◌∙◌, inl, inr, true, false, not, Bool, Option, none, some, List, [], ◌∷◌,
  arith, ltb, ◌==◌, if◌then◌else◌, Bool-cases, Option-cases,
}
use speculation_ledger.Prelude.Dict.{lookup, length-insert_old}
use speculation_ledger.Floats.{Floats}
use speculation_ledger.Result.{ok, >>=-eq-ok}
use speculation_ledger.Signature.{min_order, max_order, lookup_key}
use speculation_ledger.Backoff.{Source, Posterior}
use speculation_ledger.Backoff.Rank.{blend}
use speculation_ledger.Hot.{HotEntry, sources_view}
use speculation_ledger.Hot.Cache.{sources_view_lem}
use speculation_ledger.Hot.Ok.{IsOk}
use speculation_ledger.Store.State.{LedgerStats, LedgerStore, elem, is_stale, is_stale_span}
use speculation_ledger.Store.Spans.{Best, better, span_key}
use speculation_ledger.Store.Apply.Hot.{AllOk-insert, AllOk-lookup, IsHotOk, top_cap}
use speculation_ledger.Store.Lookup.{
  count_lookup, count_stale, count_result, probe, probe_depths, probe_orders, lookup_posterior,
  probe_span, probe_span_depths, probe_span_orders, lookup_span,
}

module _ (fl : Floats) where
  -- What a step of a lookup leaves: a hot table in order, and the queue and parameters as they were.
  pub record Kept (st st' : LedgerStore fl) : Type 0 where
    pub params_same : st'.params ≡ st.params
    pub queue_same : st'.queue ≡ st.queue
    pub hot_ok : IsHotOk fl st'

  sources_view-IsOk :
      (top key : ℕ) (e : HotEntry fl) → IsOk fl top key e → IsOk fl top key (sources_view fl e).1
  unfolding sources_view
  sources_view-IsOk top key e h =
      let (v_eq, rest_same, coherent) = sources_view_lem fl e h.coherent in
      elim (Option-cases e.src) [
        | inl empty ↦
            rw (empty, sources_view)
              (record {
                keyed = h.keyed;
                within = record {
                  room = h.within.room;
                  fits = h.within.fits;
                  widths = h.within.widths;
                };
                coherent = inr refl;
                capped = h.capped;
              })
        | inr (v, full) ↦ rw (full, sources_view) h
      ]

  probe-Kept :
      (seg order depth key : ℕ) (st : LedgerStore fl) (sources : List Source)
      → IsHotOk fl st
      → Kept st (probe fl seg order depth key (lookup key st.hot) (st, sources)).0
  unfolding probe
  probe-Kept seg order depth key st sources h = elim (Option-cases (lookup key st.hot)) [
    | inl nothing ↦
        rw (nothing, probe) (record { params_same = refl; queue_same = refl; hot_ok = h })
    | inr (e, there) ↦ elim (Bool-cases (is_stale fl st e)) [
      | inl stale ↦
          rw (there, stale, probe)
            (record {
              params_same = refl;
              queue_same = refl;
              hot_ok = record { init = h.init; bounded = h.bounded; entries = h.entries };
            })
      | inr live ↦ elim (Bool-cases (not (e.seg == seg))) [
        | inl other ↦
            rw (there, live, other, probe)
              (record { params_same = refl; queue_same = refl; hot_ok = h })
        | inr same ↦
            let viewed =
              sources_view-IsOk (top_cap fl st) key e
                (AllOk-lookup fl (top_cap fl st) key st.hot h.entries there) in
            let long = length-insert_old key (sources_view fl e).1 st.hot there in
            rw (there, live, same, probe)
              (record {
                params_same = refl;
                queue_same = refl;
                hot_ok = record {
                  init = h.init;
                  bounded = ground (arith, long, h.bounded);
                  entries =
                      AllOk-insert fl (top_cap fl st) key (sources_view fl e).1 st.hot viewed
                        h.entries;
                };
              })
      ]
    ]
  ]

  then-Kept : (a b c : LedgerStore fl) → Kept a b → Kept b c → Kept a c
  then-Kept a b c p q = record {
    params_same = q.params_same ∙ p.params_same;
    queue_same = q.queue_same ∙ p.queue_same;
    hot_ok = q.hot_ok;
  }

  same-Kept : (st : LedgerStore fl) → IsHotOk fl st → Kept st st
  same-Kept st h = record { params_same = refl; queue_same = refl; hot_ok = h }

  Kept-if :
      {A : Type 0} (b : Bool) (st : LedgerStore fl) (x y : LedgerStore fl × A)
      → Kept st x.0
      → Kept st y.0
      → Kept st (if b then x else y).0
  Kept-if true st x y hx hy = hx
  Kept-if false st x y hx hy = hy

  probe_depths-Kept :
      (seg sig order depth : ℕ) (ids : List ℕ) (r : LedgerStore fl × List Source)
      → IsHotOk fl r.0
      → Kept r.0 (probe_depths fl seg sig order depth ids r).0
  unfolding probe_depths
  probe_depths-Kept seg sig order depth [] r h = same-Kept r.0 h
  probe_depths-Kept seg sig order depth (scope_id ∷ ids) r h =
      let key = lookup_key sig order scope_id seg in
      let probed = probe fl seg order depth key (lookup key r.0.hot) r in
      let next = if elem depth r.0.params.scope_depths then probed else r in
      let one =
        Kept-if (elem depth r.0.params.scope_depths) r.0 probed r
          (probe-Kept seg order depth key r.0 r.1 h) (same-Kept r.0 h) in
      then-Kept r.0 next.0 _ one (probe_depths-Kept seg sig order (suc depth) ids next one.hot_ok)

  probe_orders-Kept :
      (seg : ℕ) (scopes : List ℕ) (order : ℕ) (sigs : List ℕ) (r : LedgerStore fl × List Source)
      → IsHotOk fl r.0
      → Kept r.0 (probe_orders fl seg scopes order sigs r).0
  unfolding probe_orders
  probe_orders-Kept seg scopes order [] r h = same-Kept r.0 h
  probe_orders-Kept seg scopes order (sig ∷ sigs) r h =
      let probed = probe_depths fl seg sig order 0 scopes r in
      let next = if elem order r.0.params.orders then probed else r in
      let one =
        Kept-if (elem order r.0.params.orders) r.0 probed r
          (probe_depths-Kept seg sig order 0 scopes r h) (same-Kept r.0 h) in
      Kept-if (ltb max_order order) r.0 r (probe_orders fl seg scopes (suc order) sigs next)
        (same-Kept r.0 h)
        (then-Kept r.0 next.0 _ one (probe_orders-Kept seg scopes (suc order) sigs next one.hot_ok))

  -- The counters are no part of what is kept.
  recount :
      (a b : LedgerStore fl) (stats : LedgerStats) → Kept a b → Kept a (record b { stats = stats })
  recount a b stats k = record {
    params_same = k.params_same;
    queue_same = k.queue_same;
    hot_ok = record {
      init = k.hot_ok.init;
      bounded = k.hot_ok.bounded;
      entries = k.hot_ok.entries;
    };
  }

  count_result-Kept :
      (a b : LedgerStore fl) (post : Option (Posterior fl))
      → Kept a b
      → Kept a (count_result fl b post)
  count_result-Kept a b none k = k
  count_result-Kept a b (some post) k = recount a b _ k

  pub lookup_posterior-Kept :
      (st st' : LedgerStore fl) (sigs scopes : List ℕ) (seg : ℕ) (post : Option (Posterior fl))
      → lookup_posterior fl st sigs scopes seg ≡ ok (st', post)
      → IsHotOk fl st
      → Kept st st'
  unfolding lookup_posterior
  lookup_posterior-Kept st st' sigs scopes seg post e h =
      let counted = count_lookup fl st in
      let r = probe_orders fl seg scopes min_order sigs (counted, []) in
      let first = recount st st counted.stats (same-Kept st h) in
      let probed = probe_orders-Kept seg scopes min_order sigs (counted, []) first.hot_ok in
      let (posterior, blended, rest) = >>=-eq-ok (blend fl st.params.backoff r.1) _ e in
      let same : count_result fl r.0 posterior ≡ st' = ground arith in
      rw (← same) (count_result-Kept st r.0 posterior (then-Kept st counted r.0 first probed))

  probe_span-Kept :
      (seg key : ℕ) (r : LedgerStore fl × Best)
      → IsHotOk fl r.0
      → Kept r.0 (probe_span fl seg key (lookup key r.0.spans) r).0
  unfolding probe_span
  probe_span-Kept seg key (st, best) h = elim (Option-cases (lookup key st.spans)) [
    | inl nothing ↦ rw (nothing, probe_span) (same-Kept st h)
    | inr (s, there) ↦
        rw (there, probe_span)
          (Kept-if (is_stale_span fl st s) st (count_stale fl st, best) _
            (recount st st _ (same-Kept st h))
            (Kept-if (not (s.seg == seg)) st (st, best) (st, better best key key s) (same-Kept st h)
              (same-Kept st h)))
  ]

  probe_span_depths-Kept :
      (seg sig order depth : ℕ) (ids : List ℕ) (r : LedgerStore fl × Best)
      → IsHotOk fl r.0
      → Kept r.0 (probe_span_depths fl seg sig order depth ids r).0
  unfolding probe_span_depths
  probe_span_depths-Kept seg sig order depth [] r h = same-Kept r.0 h
  probe_span_depths-Kept seg sig order depth (scope_id ∷ ids) r h =
      let key = span_key sig order scope_id seg in
      let probed = probe_span fl seg key (lookup key r.0.spans) r in
      let next = if elem depth r.0.params.scope_depths then probed else r in
      let one =
        Kept-if (elem depth r.0.params.scope_depths) r.0 probed r (probe_span-Kept seg key r h)
          (same-Kept r.0 h) in
      then-Kept r.0 next.0 _ one
        (probe_span_depths-Kept seg sig order (suc depth) ids next one.hot_ok)

  probe_span_orders-Kept :
      (seg : ℕ) (scopes : List ℕ) (order : ℕ) (sigs : List ℕ) (r : LedgerStore fl × Best)
      → IsHotOk fl r.0
      → Kept r.0 (probe_span_orders fl seg scopes order sigs r).0
  unfolding probe_span_orders
  probe_span_orders-Kept seg scopes order [] r h = same-Kept r.0 h
  probe_span_orders-Kept seg scopes order (sig ∷ sigs) r h =
      let next = probe_span_depths fl seg sig order 0 scopes r in
      let one = probe_span_depths-Kept seg sig order 0 scopes r h in
      Kept-if (ltb max_order order) r.0 r (probe_span_orders fl seg scopes (suc order) sigs next)
        (same-Kept r.0 h)
        (then-Kept r.0 next.0 _ one
          (probe_span_orders-Kept seg scopes (suc order) sigs next one.hot_ok))

  pub lookup_span-Kept :
      (st : LedgerStore fl) (sigs scopes : List ℕ) (seg : ℕ)
      → IsHotOk fl st
      → Kept st (lookup_span fl st sigs scopes seg).0
  unfolding lookup_span
  lookup_span-Kept st sigs scopes seg h =
      Kept-if (ltb st.params.version 2) st (st, none) _ (same-Kept st h)
        (probe_span_orders-Kept seg scopes min_order sigs (st, none) h)
