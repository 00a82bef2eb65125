-- ===== src/Store/Lookup.antt =====
-- `LedgerStore.lookup` and `lookup_span` of core/store.py.
use speculation_ledger.Prelude.{
  ℕ, suc, ◌+◌, not, Option, none, some, List, [], ◌∷◌, ◌++◌, ltb, ◌==◌, if◌then◌else◌,
}
use speculation_ledger.Prelude.Dict.{Dict, lookup, insert}
use speculation_ledger.Floats.{Floats}
use speculation_ledger.Result.{Result, ok, ◌>>=◌}
use speculation_ledger.Signature.{min_order, max_order, lookup_key}
use speculation_ledger.Arena.{SpanEntry, Break, get}
use speculation_ledger.Backoff.{Source, Posterior}
use speculation_ledger.Backoff.Rank.{blend}
use speculation_ledger.Hot.{HotEntry, sources_view}
use speculation_ledger.Store.State.{LedgerStore, elem, is_stale, is_stale_span}
use speculation_ledger.Store.Spans.{Best, better, span_key}

module _ (fl : Floats) where
  abbrev pub count_lookup : LedgerStore fl → LedgerStore fl
  count_lookup st = record st { stats = record st.stats { lookups = st.stats.lookups + 1 } }

  abbrev pub count_stale : LedgerStore fl → LedgerStore fl
  count_stale st = record st { stats = record st.stats { stale_skips = st.stats.stale_skips + 1 } }

  abbrev count_hit : LedgerStore fl → LedgerStore fl
  count_hit st = record st { stats = record st.stats { hits = st.stats.hits + 1 } }

  -- The entry found under a key: a stale one is counted, one of another segment is skipped, and any
  -- other fills its cache and becomes a source.
  unfoldable pub probe :
      ℕ
      → ℕ
      → ℕ
      → ℕ
      → Option (HotEntry fl)
      → LedgerStore fl × List Source
      → LedgerStore fl × List Source
  probe seg order depth key none (st, sources) = (st, sources)
  probe seg order depth key (some e) (st, sources) =
      let (v, e') = sources_view fl e in
      let s : Source = record {
        match_len = order;
        scope_depth = depth;
        cands = v.cands;
        total = some v.total;
        total_acc = some v.total_acc;
      } in
      if is_stale fl st e
      then (count_stale st, sources)
      else if not (e.seg == seg)
      then (st, sources)
      else (record st { hot = insert key e' st.hot }, sources ++ s ∷ [])

  -- The inner loop over the active scopes, from the one with index `depth`.
  unfoldable pub probe_depths :
      ℕ → ℕ → ℕ → ℕ → List ℕ → LedgerStore fl × List Source → LedgerStore fl × List Source
  probe_depths seg sig order depth [] r = r
  probe_depths seg sig order depth (scope_id ∷ ids) r =
      let key = lookup_key sig order scope_id seg in
      probe_depths seg sig order (suc depth) ids (
        if elem depth r.0.params.scope_depths
        then probe seg order depth key (lookup key r.0.hot) r
        else r)

  -- The outer loop, from the signature of `order`; it stops above `max_order`.
  unfoldable pub probe_orders :
      ℕ → List ℕ → ℕ → List ℕ → LedgerStore fl × List Source → LedgerStore fl × List Source
  probe_orders seg scope_stack order [] r = r
  probe_orders seg scope_stack order (sig ∷ sigs) r =
      let rest =
        probe_orders seg scope_stack (suc order) sigs (
          if elem order r.0.params.orders then probe_depths seg sig order 0 scope_stack r else r) in
      if ltb max_order order then r else rest

  abbrev pub count_result : LedgerStore fl → Option (Posterior fl) → LedgerStore fl
  count_result st none = st
  count_result st (some post) = count_hit st

  unfoldable pub lookup_posterior :
      LedgerStore fl → List ℕ → List ℕ → ℕ → Result (LedgerStore fl × Option (Posterior fl))
  lookup_posterior st sig_stack scope_stack seg = do
    let (st', sources) = probe_orders seg scope_stack min_order sig_stack (count_lookup st, [])
    post ← blend fl st.params.backoff sources
    ok (count_result st' post, post)

  -- `SpanProposal`
  pub record SpanProposal : Type 0 where
    pub tokens : List ℕ
    pub breaks : List (ℕ × ℕ)
    pub count : ℕ
    pub key : ℕ

  -- `sorted` of (off, count) pairs with different offsets.
  unfoldable pub insert_break : ℕ × ℕ → List (ℕ × ℕ) → List (ℕ × ℕ)
  insert_break b [] = b ∷ []
  insert_break b (c ∷ cs) = if ltb b.0 c.0 then b ∷ c ∷ cs else c ∷ insert_break b cs

  unfoldable pub sorted_breaks : Dict Break → List (ℕ × ℕ)
  unfolding insert_break
  sorted_breaks [] = []
  sorted_breaks ((off, b) ∷ bs) = insert_break (off, b.count) (sorted_breaks bs)

  unfoldable pub probe_span :
      ℕ → ℕ → Option SpanEntry → LedgerStore fl × Best → LedgerStore fl × Best
  probe_span seg key none (st, best) = (st, best)
  probe_span seg key (some s) (st, best) =
      if is_stale_span fl st s
      then (count_stale st, best)
      else if not (s.seg == seg)
      then (st, best)
      else (st, better best key key s)

  unfoldable pub probe_span_depths :
      ℕ → ℕ → ℕ → ℕ → List ℕ → LedgerStore fl × Best → LedgerStore fl × Best
  probe_span_depths seg sig order depth [] r = r
  probe_span_depths seg sig order depth (scope_id ∷ ids) r =
      let key = span_key sig order scope_id seg in
      probe_span_depths seg sig order (suc depth) ids (
        if elem depth r.0.params.scope_depths
        then probe_span seg key (lookup key r.0.spans) r
        else r)

  unfoldable pub probe_span_orders :
      ℕ → List ℕ → ℕ → List ℕ → LedgerStore fl × Best → LedgerStore fl × Best
  probe_span_orders seg scope_stack order [] r = r
  probe_span_orders seg scope_stack order (sig ∷ sigs) r =
      let rest =
        probe_span_orders seg scope_stack (suc order) sigs
          (probe_span_depths seg sig order 0 scope_stack r) in
      if ltb max_order order then r else rest

  abbrev proposal : LedgerStore fl → Best → Option SpanProposal
  proposal st none = none
  proposal st (some (key, s)) = some (record {
    tokens = get st.arena s.arena_off s.length;
    breaks = sorted_breaks s.breaks;
    count = s.count;
    key = s.key;
  })

  unfoldable pub lookup_span :
      LedgerStore fl → List ℕ → List ℕ → ℕ → LedgerStore fl × Option SpanProposal
  lookup_span st sig_stack scope_stack seg =
      let (st', best) = probe_span_orders seg scope_stack min_order sig_stack (st, none) in
      if ltb st.params.version 2 then (st, none) else (st', proposal st' best)
