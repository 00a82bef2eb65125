-- ===== src/Store/State.antt =====
-- The state of `LedgerStore`, the epochs and the hot table.
use speculation_ledger.Prelude.{
  ℕ, ◌+◌, ◌%◌, ◌^◌, Bool, false, ◌&&◌, ◌||◌, not, none, some, List, [], ◌∷◌, leb, ◌==◌,
  if◌then◌else◌, length,
}
use speculation_ledger.Prelude.Dict.{Dict, lookup, insert}
use speculation_ledger.Floats.{Floats}
use speculation_ledger.Types.{VerifyOutcome}
use speculation_ledger.Arena.{SpanArena, SpanEntry, new_arena}
use speculation_ledger.Backoff.{BackoffParams}
use speculation_ledger.Hot.{HotEntry, new_entry, reset}

-- The counters of `LedgerStats`; `bytes` is computed when `stats` is called.
pub record LedgerStats : Type 0 where
  pub lookups : ℕ
  pub hits : ℕ
  pub entries : ℕ
  pub queue_depth : ℕ
  pub drops : ℕ
  pub harvested_events : ℕ
  pub stale_skips : ℕ
  pub compactions : ℕ
  pub evictions : ℕ
  pub span_entries : ℕ
  pub arena_tokens : ℕ

abbrev pub new_stats : LedgerStats
new_stats = record {
  lookups = 0;
  hits = 0;
  entries = 0;
  queue_depth = 0;
  drops = 0;
  harvested_events = 0;
  stale_skips = 0;
  compactions = 0;
  evictions = 0;
  span_entries = 0;
  arena_tokens = 0;
}

-- `_RunState`
pub record RunState : Type 0 where
  pub seg : ℕ
  pub dom : ℕ
  pub tokens : List ℕ
  pub start_sigs : List ℕ
  pub scope_ids : List ℕ

-- `n in xs`, for the tuples of active orders and depths.
abbrev pub elem : ℕ → List ℕ → Bool
elem n [] = false
elem n (x ∷ xs) = n == x || elem n xs

-- The dict from (scope id, domain) to an epoch.
abbrev pub Epochs : Type 0
Epochs = List (ℕ × ℕ × ℕ)

-- `_epochs.get((scope, dom), 0)`
unfoldable pub epoch_of : ℕ → ℕ → Epochs → ℕ
epoch_of scope dom [] = 0
epoch_of scope dom ((s, d, v) ∷ t) = if scope == s && dom == d then v else epoch_of scope dom t

unfoldable pub set_epoch : ℕ → ℕ → ℕ → Epochs → Epochs
set_epoch scope dom v [] = (scope, dom, v) ∷ []
set_epoch scope dom v ((s, d, w) ∷ t) =
    if scope == s && dom == d then (s, d, v) ∷ t else (s, d, w) ∷ set_epoch scope dom v t

module _ (fl : Floats) where
  pub record StoreParams : Type 0 where
    pub version : ℕ
    pub k_init : ℕ
    pub k_max : ℕ
    pub coverage_target : fl.F
    pub queue_cap : ℕ
    pub max_entries : ℕ
    pub compact_every : ℕ
    pub decay_shift : ℕ
    pub orders : List ℕ
    pub scope_depths : List ℕ
    pub span_min_len : ℕ
    pub span_max_len : ℕ
    pub span_orders : List ℕ
    pub span_scope_depths : List ℕ
    pub backoff : BackoffParams fl

  pub record LedgerStore : Type 0 where
    pub params : StoreParams
    pub hot : Dict (HotEntry fl)
    pub spans : Dict SpanEntry
    pub arena : SpanArena
    pub epochs : Epochs
    pub queue : List VerifyOutcome
    pub runs : Dict RunState
    pub stats : LedgerStats
    pub events_since_compact : ℕ

  unfoldable pub new_store : StoreParams → LedgerStore
  new_store params = record {
    params = params;
    hot = [];
    spans = [];
    arena = new_arena;
    epochs = [];
    queue = [];
    runs = [];
    stats = new_stats;
    events_since_compact = 0;
  }

  -- `_epoch_now`
  unfoldable pub epoch_now : LedgerStore → ℕ → ℕ → ℕ
  epoch_now st scope_id dom = if dom == 0 then 0 else epoch_of scope_id dom st.epochs

  -- `& U16_MAX` is the remainder by 2^16.
  unfoldable pub bump_epoch : LedgerStore → ℕ → ℕ → LedgerStore
  bump_epoch st scope file_id = record st {
    epochs = set_epoch scope file_id ((epoch_of scope file_id st.epochs + 1) % 2 ^ 16) st.epochs;
  }

  -- `_refresh_sizes`
  unfoldable pub refresh_sizes : LedgerStore → LedgerStore
  refresh_sizes st = record st {
    stats = record st.stats {
      entries = length st.hot;
      span_entries = length st.spans;
      arena_tokens = length st.arena.tokens;
      queue_depth = length st.queue;
    };
  }

  -- `e.epoch != self._epoch_now(e.scope_id, e.dom)`
  unfoldable pub is_stale : LedgerStore → HotEntry fl → Bool
  is_stale st e = not (e.epoch == epoch_now st e.scope_id e.dom)

  unfoldable pub is_stale_span : LedgerStore → SpanEntry → Bool
  is_stale_span st s = not (s.epoch == epoch_now st s.scope_id s.dom)

  -- `del self._hot[next(iter(self._hot))]`
  abbrev pub drop_oldest : Dict (HotEntry fl) → Dict (HotEntry fl)
  drop_oldest [] = []
  drop_oldest (e ∷ d) = d

  -- Room for one more entry, under `max_entries`.
  unfoldable pub make_slot : LedgerStore → LedgerStore
  make_slot st =
      if not (st.params.max_entries == 0) && leb st.params.max_entries (length st.hot)
      then record st {
        hot = drop_oldest st.hot;
        stats = record st.stats { evictions = st.stats.evictions + 1 };
      }
      else st

  -- The entry that `_get_or_create` returns for one that is there.
  unfoldable pub revalidate : LedgerStore → HotEntry fl → ℕ → ℕ → HotEntry fl
  revalidate st e dom scope_id =
      let now = epoch_now st scope_id dom in
      if is_stale st e
      then reset fl e now dom
      else if not (dom == 0) && not (e.dom == dom)
      then record e { dom = dom; epoch = now }
      else e

  -- `_get_or_create`: the store with room for the entry, and the entry, which the caller files
  -- under `key` after its own changes.
  unfoldable pub get_or_create : LedgerStore → ℕ → ℕ → ℕ → ℕ → LedgerStore × HotEntry fl
  get_or_create st key seg dom scope_id = elim (lookup key st.hot) [
    | some e ↦ (st, revalidate st e dom scope_id)
    | none ↦
        let now = epoch_now st scope_id dom in
        (make_slot st, new_entry fl key seg dom scope_id now st.params.k_init)
  ]

  -- The entry back in its place in the table.
  abbrev pub file : LedgerStore → ℕ → HotEntry fl → LedgerStore
  file st key e = record st { hot = insert key e st.hot }
