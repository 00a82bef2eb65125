-- ===== src/Convert/Normalize/Sorted.antt =====
-- `normalize_record` of sim/convert.py sorts the events by their positions.
use speculation_ledger.Prelude.{ℕ, ◌≤◌, inl, inr, List, [], ◌∷◌, arith, ltb, All, Bool-cases}
use speculation_ledger.Convert.{TraceEvent}
use speculation_ledger.Convert.Normalize.{insert_event, sort_events}

-- The events are in the order of their positions.
abbrev pub IsSorted : List TraceEvent → Type 0
IsSorted [] = Unit
IsSorted (e ∷ es) = All (λ (c : TraceEvent). e.pos ≤ c.pos) es × IsSorted es

All-insert_event :
    (lo : ℕ) (e : TraceEvent) (es : List TraceEvent)
    → lo ≤ e.pos
    → All (λ (c : TraceEvent). lo ≤ c.pos) es
    → All (λ (c : TraceEvent). lo ≤ c.pos) (insert_event e es)
unfolding insert_event
All-insert_event lo e [] h a = (h, tt)
All-insert_event lo e (c ∷ cs) h a = ground (arith, All-insert_event lo e cs h a.1)

All-below :
    (lo hi : ℕ) (es : List TraceEvent)
    → lo ≤ hi
    → All (λ (c : TraceEvent). hi ≤ c.pos) es
    → All (λ (c : TraceEvent). lo ≤ c.pos) es
All-below lo hi [] h a = tt
All-below lo hi (c ∷ cs) h a = (omega (arith, a.0), All-below lo hi cs h a.1)

insert_event-IsSorted :
    (e : TraceEvent) (es : List TraceEvent) → IsSorted es → IsSorted (insert_event e es)
unfolding insert_event
insert_event-IsSorted e [] h = (tt, tt)
insert_event-IsSorted e (c ∷ cs) h = elim (Bool-cases (ltb c.pos e.pos)) [
  | inl later ↦
      rw later
        (All-insert_event c.pos e cs (ground (arith, later)) h.0, insert_event-IsSorted e cs h.1)
  | inr before ↦
      let low : e.pos ≤ c.pos = ground (arith, before) in
      rw before ((low, All-below e.pos c.pos cs low h.0), h)
]

pub sort_events-IsSorted : (es : List TraceEvent) → IsSorted (sort_events es)
unfolding sort_events
sort_events-IsSorted [] = tt
sort_events-IsSorted (e ∷ es) = insert_event-IsSorted e (sort_events es) (sort_events-IsSorted es)
