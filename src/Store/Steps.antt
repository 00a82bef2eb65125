-- ===== src/Store/Steps.antt =====
-- The life of a `LedgerStore` of core/store.py, as a sequence of calls of its public methods that
-- change it and return, `load` among them. The parameters stay the ones that the store was made with.
pub mod Probes
pub mod Invariant
use speculation_ledger.Prelude.{ℕ, ◌≤◌, ◌≡◌, Option, some, List, All, length}
use speculation_ledger.Floats.{Floats}
use speculation_ledger.Hash.{Blake2b}
use speculation_ledger.Result.{Result, ok}
use speculation_ledger.Types.{VerifyOutcome}
use speculation_ledger.Backoff.{Posterior}
use speculation_ledger.Store.State.{StoreParams, LedgerStore, new_store, bump_epoch}
use speculation_ledger.Store.Spans.{flush_runs}
use speculation_ledger.Store.Compact.{compact, stats}
use speculation_ledger.Store.Queue.{harvest, drain}
use speculation_ledger.Store.Snapshot.{Sorting, Doc, load}
use speculation_ledger.Store.Snapshot.Fits.{FitsDoc}
use speculation_ledger.Store.Lookup.{lookup_posterior, lookup_span}

-- Every quantised log-probability of an outcome is in 0..255.
abbrev pub IsByteWide : VerifyOutcome → Type 0
IsByteWide ev = All (All (λ q. q ≤ 255)) ev.topk_logp_q8

module _ (fl : Floats) (h : Blake2b) where
  -- One call. The events that a caller harvests are byte-wide, and a document that it loads fits the
  -- store's parameters.
  pub data Step : LedgerStore fl → LedgerStore fl → Type 0 where
    looked_up :
        (st st' : LedgerStore fl) (sigs scopes : List ℕ) (seg : ℕ) (post : Option (Posterior fl))
        → lookup_posterior fl st sigs scopes seg ≡ ok (st', post)
        → Step st st'
    looked_up_span :
        (st : LedgerStore fl) (sigs scopes : List ℕ) (seg : ℕ)
        → Step st (lookup_span fl st sigs scopes seg).0
    bumped : (st : LedgerStore fl) (scope file_id : ℕ) → Step st (bump_epoch fl st scope file_id)
    harvested_all :
        (st : LedgerStore fl) (events : List VerifyOutcome)
        → All IsByteWide events
        → Step st (harvest fl st events)
    drained :
        (st st' : LedgerStore fl) (max_events : Option ℕ) (n : ℕ)
        → drain fl h max_events st ≡ ok (n, st')
        → Step st st'
    flushed : (st st' : LedgerStore fl) → flush_runs fl h st ≡ ok st' → Step st st'
    compacted : (st st' : LedgerStore fl) → compact fl h st ≡ ok st' → Step st st'
    loaded :
        (st st' : LedgerStore fl) (order : Sorting) (doc : Doc fl)
        → FitsDoc fl order st.params doc
        → load fl order doc st ≡ some st'
        → Step st st'
    counted : (st : LedgerStore fl) → Step st (stats fl st).0

  pub data Reach (params : StoreParams fl) : LedgerStore fl → Type 0 where
    start : Reach params (new_store fl params)
    later : {st st' : LedgerStore fl} → Reach params st → Step st st' → Reach params st'
