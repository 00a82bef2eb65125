-- ===== src/Store/Queue.antt =====
-- The harvest queue of core/store.py: `harvest` and `drain`.
pub mod Drops
pub mod Drains
use speculation_ledger.Prelude.{
  ℕ, suc, ◌+◌, Bool, true, false, ◌&&◌, Option, none, some, List, [], ◌∷◌, ◌++◌, ltb, leb, ◌==◌,
  if◌then◌else◌, length,
}
use speculation_ledger.Floats.{Floats}
use speculation_ledger.Hash.{Blake2b}
use speculation_ledger.Result.{Result, ok, ◌>>=◌}
use speculation_ledger.Types.{VerifyOutcome}
use speculation_ledger.Store.State.{LedgerStore}
use speculation_ledger.Store.Apply.{apply}
use speculation_ledger.Store.Compact.{compact}

-- `q.popleft()`
abbrev pub pop_left : List VerifyOutcome → List VerifyOutcome
pop_left [] = []
pop_left (e ∷ q) = q

module _ (fl : Floats) where
  abbrev add_drops : ℕ → LedgerStore fl → LedgerStore fl
  add_drops n st = record st { stats = record st.stats { drops = st.stats.drops + n } }

  -- One round of `harvest`'s loop.
  unfoldable pub enqueue : LedgerStore fl → VerifyOutcome → LedgerStore fl
  enqueue st e =
      let room =
        if leb st.params.queue_cap (length st.queue)
        then add_drops 1 (record st { queue = pop_left st.queue })
        else st in
      record room { queue = room.queue ++ e ∷ [] }

  unfoldable pub enqueue_all : LedgerStore fl → List VerifyOutcome → LedgerStore fl
  enqueue_all st [] = st
  enqueue_all st (e ∷ events) = enqueue_all (enqueue st e) events

  -- `queue_cap` is a natural, so `cap <= 0` is `cap == 0`.
  unfoldable pub harvest : LedgerStore fl → List VerifyOutcome → LedgerStore fl
  harvest st events =
      if st.params.queue_cap == 0 then add_drops (length events) st else enqueue_all st events

module _ (fl : Floats) (h : Blake2b) where
  -- `max_events is None or n < max_events`
  abbrev pub below_max : Option ℕ → ℕ → Bool
  below_max none n = true
  below_max (some m) n = ltb n m

  -- The loop of `drain` over the queue, which `_apply` leaves alone: the count and the store.
  unfoldable pub drain_loop :
      Option ℕ → ℕ → List VerifyOutcome → LedgerStore fl → Result (ℕ × LedgerStore fl)
  drain_loop max_events n [] st = ok (n, st)
  drain_loop max_events n (ev ∷ q) st =
      let more : Result (ℕ × LedgerStore fl) = (do
        st' ← apply fl h ev (record st { queue = q })
        drain_loop max_events (suc n) q st') in
      if below_max max_events n then more else ok (n, st)

  -- The compaction that falls due after a drain.
  unfoldable pub after_drain : ℕ → LedgerStore fl → Result (LedgerStore fl)
  after_drain n st =
      let ce = st.params.compact_every in
      let counted = record st { events_since_compact = st.events_since_compact + n } in
      let compacted : Result (LedgerStore fl) = (do
        st' ← compact fl h counted
        ok (record st' { events_since_compact = 0 })) in
      if n == 0
      then ok st
      else if ltb 0 ce && leb ce counted.events_since_compact
      then compacted
      else ok counted

  unfoldable pub drain : Option ℕ → LedgerStore fl → Result (ℕ × LedgerStore fl)
  unfolding drain_loop after_drain
  drain max_events st = do
    (n, st') ← drain_loop max_events 0 st.queue st
    st'' ← after_drain n st'
    ok (n, st'')
