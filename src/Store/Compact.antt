-- ===== src/Store/Compact.antt =====
-- `LedgerStore.compact`, `stats` and the byte counts of core/store.py.
pub mod Decay
use speculation_ledger.Prelude.{
  ℕ, suc, ◌+◌, ◌^◌, ◌/◌, min, max, Bool, ◌&&◌, Option, none, some, List, [], ◌∷◌, ◌==◌,
  if◌then◌else◌, length, map,
}
use speculation_ledger.Prelude.Dict.{Dict}
use speculation_ledger.Floats.{Floats}
use speculation_ledger.Hash.{Blake2b}
use speculation_ledger.Result.{Result, ok, overflow_error, or_raise, ◌>>=◌}
use speculation_ledger.Arena.{SpanEntry, Break, span_bytes, arena_bytes}
use speculation_ledger.Arena as Arena
use speculation_ledger.Hot.{Cand, HotEntry, entry_bytes}
use speculation_ledger.Store.State.{LedgerStore, is_stale, is_stale_span, refresh_sizes}

-- `x >> shift`
abbrev pub shifted : ℕ → ℕ → ℕ
shifted x shift = x / 2 ^ shift

abbrev pub decay_cand : ℕ → Cand → Cand
decay_cand shift c = record c { acc = shifted c.acc shift; rej = shifted c.rej shift }

-- The candidates after the decay, without those whose counts are both 0.
unfoldable pub decay_cands : ℕ → Dict Cand → Dict Cand
decay_cands shift [] = []
decay_cands shift ((t, c) ∷ d) =
    let c' = decay_cand shift c in
    let rest = decay_cands shift d in if c'.acc == 0 && c'.rej == 0 then rest else (t, c') ∷ rest

unfoldable pub decay_breaks : ℕ → Dict Break → Dict Break
decay_breaks shift [] = []
decay_breaks shift ((off, b) ∷ bs) =
    let n = shifted b.count shift in
    let rest = decay_breaks shift bs in
    if n == 0 then rest else (off, record b { count = n }) ∷ rest

-- The entries that `compact` of the arena has moved, back under their keys.
unfoldable pub refile : Dict SpanEntry → List SpanEntry → Dict SpanEntry
refile [] moved = []
refile (e ∷ d) [] = []
refile (e ∷ d) (s ∷ moved) = (e.0, s) ∷ refile d moved

module _ (fl : Floats) where
  abbrev decay_entry : LedgerStore fl → HotEntry fl → HotEntry fl
  decay_entry st e = record e { cands = decay_cands st.params.decay_shift e.cands; src = none }

  -- An entry that keeps candidates keeps a cap between `k_init` and `k_max`.
  abbrev recap : LedgerStore fl → HotEntry fl → HotEntry fl
  recap st e = record e { k_cap = max st.params.k_init (min e.k_cap st.params.k_max) }

  -- What becomes of one entry: `none` if it is dropped.
  unfoldable pub keep_entry : LedgerStore fl → HotEntry fl → Option (HotEntry fl)
  keep_entry st e =
      let e' = decay_entry st e in
      if is_stale fl st e then none else elim e'.cands [ [] ↦ none | c ∷ cs ↦ some (recap st e') ]

  abbrev keep : ℕ → Option (HotEntry fl) → Dict (HotEntry fl) → Dict (HotEntry fl)
  keep key none d = d
  keep key (some e) d = (key, e) ∷ d

  unfoldable pub live_hot : LedgerStore fl → Dict (HotEntry fl) → Dict (HotEntry fl)
  unfolding keep_entry
  live_hot st [] = []
  live_hot st (e ∷ d) = keep e.0 (keep_entry st e.1) (live_hot st d)

  unfoldable pub live_spans : LedgerStore fl → Dict SpanEntry → Dict SpanEntry
  live_spans st [] = []
  live_spans st ((key, s) ∷ d) =
      let n = shifted s.count st.params.decay_shift in
      let s' = record s { count = n; breaks = decay_breaks st.params.decay_shift s.breaks } in
      let rest = live_spans st d in
      if is_stale_span fl st s then rest else if n == 0 then rest else (key, s') ∷ rest

  abbrev count_compaction : LedgerStore fl → LedgerStore fl
  count_compaction st = record st {
    stats = record st.stats { compactions = st.stats.compactions + 1 };
  }

  unfoldable pub compact : Blake2b → LedgerStore fl → Result (LedgerStore fl)
  compact h st = do
    let hot = live_hot st st.hot
    let spans = live_spans st st.spans
    (arena, moved) ←
        or_raise (Arena.compact h st.arena (map (λ (e : ℕ × SpanEntry). e.1) spans)) overflow_error
    ok (
        refresh_sizes fl
          (count_compaction (record st { hot = hot; spans = refile spans moved; arena = arena })))

  unfoldable pub hot_bytes : Dict (HotEntry fl) → ℕ
  hot_bytes [] = 0
  hot_bytes (e ∷ d) = entry_bytes fl e.1 + hot_bytes d

  unfoldable pub spans_bytes : Dict SpanEntry → ℕ
  spans_bytes [] = 0
  spans_bytes (e ∷ d) = span_bytes e.1 + spans_bytes d

  -- `stats()`: the store with the counters refreshed, and the bytes.
  unfoldable pub stats : LedgerStore fl → LedgerStore fl × ℕ
  unfolding hot_bytes spans_bytes
  stats st = (refresh_sizes fl st, hot_bytes st.hot + spans_bytes st.spans + arena_bytes st.arena)
