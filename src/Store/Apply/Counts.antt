-- ===== src/Store/Apply/Counts.antt =====
-- `_apply` of core/store.py leaves the queue alone and counts one event.
use speculation_ledger.Prelude.{
  ℕ, suc, ◌≡◌, ap, ◌∙◌, inl, inr, List, arith, leb, ◌==◌, not, ◌&&◌, Bool-cases, Option-cases,
  length,
}
use speculation_ledger.Prelude.Dict.{lookup}
use speculation_ledger.Floats.{Floats}
use speculation_ledger.Hash.{Blake2b}
use speculation_ledger.Result.{ok, >>=-eq-ok}
use speculation_ledger.Hot.{update_realized}
use speculation_ledger.Types.{VerifyOutcome}
use speculation_ledger.Store.State.{
  StoreParams, LedgerStore, make_slot, get_or_create, refresh_sizes, file,
}
use speculation_ledger.Store.Spans.Frame.{IsFramed, track_run-IsFramed}
use speculation_ledger.Store.Apply.{
  update_entry, apply, seg_at, dom_at, reject, rejected_at, merge_at,
}
use speculation_ledger.Store.Apply.Keeps.{keeps_apply, note_found-IsFramed}

module _ (fl : Floats) where
  -- The parameters, the queue and the number of events harvested so far are these.
  pub record Counts (p : StoreParams fl) (q : List VerifyOutcome) (n : ℕ) (st : LedgerStore fl)
      : Type 0 where
    pub params_same : st.params ≡ p
    pub queue_same : st.queue ≡ q
    pub events : st.stats.harvested_events ≡ n

  get_or_create-Counts :
      (p : StoreParams fl) (q : List VerifyOutcome) (n : ℕ) (st : LedgerStore fl)
      (key seg dom sid : ℕ)
      → Counts p q n st
      → Counts p q n (get_or_create fl st key seg dom sid).0
  unfolding get_or_create make_slot
  get_or_create-Counts p q n st key seg dom sid c = elim (Option-cases (lookup key st.hot)) [
    | inr (e, old) ↦ rw (old, get_or_create) c
    | inl new ↦
        elim (Bool-cases
          (not (st.params.max_entries == 0) && leb st.params.max_entries (length st.hot))) [
            | inl full ↦
                rw (new, get_or_create, make_slot, full)
                  (record {
                    params_same = c.params_same;
                    queue_same = c.queue_same;
                    events = c.events;
                  })
            | inr free ↦ rw (new, get_or_create, make_slot, free) c
          ]
  ]

module _ (fl : Floats) (h : Blake2b) where
  update_entry-Counts :
      (p : StoreParams fl) (q : List VerifyOutcome) (n : ℕ) (ev : VerifyOutcome)
      (pos tok key sid : ℕ) (st st' : LedgerStore fl)
      → update_entry fl ev pos tok key sid st ≡ ok st'
      → Counts fl p q n st
      → Counts fl p q n st'
  unfolding update_entry
  update_entry-Counts p q n ev pos tok key sid st st' r c =
      let before = get_or_create-Counts fl p q n st key (seg_at ev pos) (dom_at ev pos) sid c in
      let (e', merged, rest) =
        >>=-eq-ok
          (merge_at fl st ev pos (
            reject fl st (rejected_at ev pos) (
              update_realized fl (get_or_create fl st key (seg_at ev pos) (dom_at ev pos) sid).1 tok
                st.params.k_max st.params.coverage_target)))
          _ r in
      let same : file fl (get_or_create fl st key (seg_at ev pos) (dom_at ev pos) sid).0 key e'
          ≡ st' =
        ground arith in
      rw (← same) (record {
        params_same = before.params_same;
        queue_same = before.queue_same;
        events = before.events;
      })

  pub framed-Counts :
      (p : StoreParams fl) (q : List VerifyOutcome) (n : ℕ) (st st' : LedgerStore fl)
      → IsFramed fl st st'
      → Counts fl p q n st
      → Counts fl p q n st'
  framed-Counts p q n st st' f c = record {
    params_same = f.params_same ∙ c.params_same;
    queue_same = f.queue_same ∙ c.queue_same;
    events = ap (λ s. s.harvested_events) f.stats_same ∙ c.events;
  }

  -- A call of `_apply` that returns leaves the queue as it was, and adds 1 to the events harvested.
  pub apply-Counts :
      (p : StoreParams fl) (q : List VerifyOutcome) (n : ℕ) (ev : VerifyOutcome)
      (st st' : LedgerStore fl)
      → apply fl h ev st ≡ ok st'
      → Counts fl p q n st
      → Counts fl p q (suc n) st'
  unfolding refresh_sizes
  apply-Counts p q n ev =
      keeps_apply fl h ev (Counts fl p q n)
        (λ pos tok key sid. update_entry-Counts p q n ev pos tok key sid)
        (λ pos tok sigs sids s s' e.
          framed-Counts p q n s s'
            (track_run-IsFramed fl h ev sigs (seg_at ev pos) (dom_at ev pos) tok sids s s' e))
        (Counts fl p q (suc n))
        (λ s patch found c.
          let noted = framed-Counts p q n s _ (note_found-IsFramed fl h ev patch found s) c in
          record {
            params_same = noted.params_same;
            queue_same = noted.queue_same;
            events = omega (arith, noted.events);
          })
