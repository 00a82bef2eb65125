-- ===== src/Store/Queue/Drops.antt =====
-- `harvest` of core/store.py keeps the newest events and counts the others.
use speculation_ledger.Prelude.{
  ℕ, suc, ◌+◌, ◌-◌, ◌≤◌, ◌<◌, ◌≡◌, refl, ap, sym, ◌∙◌, inl, inr, List, [], ◌∷◌, ◌++◌, arith, leb,
  ◌==◌, Bool-cases, length, last, length-append, length-drop,
}
use speculation_ledger.Floats.{Floats}
use speculation_ledger.Types.{VerifyOutcome}
use speculation_ledger.Store.State.{LedgerStore}
use speculation_ledger.Store.Queue.{enqueue, enqueue_all, harvest, pop_left}

last-longer :
    {A : Type 0} (n : ℕ) (x : A) (xs : List A) → n ≤ length xs → last n (x ∷ xs) ≡ last n xs
last-longer n x xs h =
    let one_more : suc (length xs) - n ≡ suc (length xs - n) = omega arith in rw one_more refl

last-all : {A : Type 0} (n : ℕ) (xs : List A) → length xs ≤ n → last n xs ≡ xs
last-all n xs h = let nothing : length xs - n ≡ 0 = omega arith in rw nothing refl

append_snoc : {A : Type 0} (xs : List A) (y : A) (ys : List A) → (xs ++ y ∷ []) ++ ys ≡ xs ++ y ∷ ys
append_snoc [] y ys = refl
append_snoc (x ∷ xs) y ys = ap (◌∷◌ x) (append_snoc xs y ys)

last-step :
    {A : Type 0} (n : ℕ) (q : List A) (e : A) (es : List A)
    → length q ≤ n
    → last n (last n (q ++ e ∷ []) ++ es) ≡ last n (q ++ e ∷ es)
last-step n [] e es h = elim (Bool-cases (n == 0)) [
  | inl z ↦
      let none_left : n ≡ 0 = ground arith in rw none_left (sym (last-longer 0 e es (omega arith)))
  | inr p ↦ rw (last-all n (e ∷ []) (ground arith)) refl
]
last-step n (x ∷ q) e es h = elim (Bool-cases (leb n (suc (length q)))) [
  | inr free ↦
      rw (last-all n (x ∷ q ++ e ∷ []) (ground (arith, length-append q (e ∷ []))))
        (ap (λ r. last n (x ∷ r)) (append_snoc q e es))
  | inl full ↦
      let inner = last-longer n x (q ++ e ∷ []) (ground (arith, length-append q (e ∷ []))) in
      let exact = last-all n (q ++ e ∷ []) (omega (arith, length-append q (e ∷ []))) in
      let outer = last-longer n x (q ++ e ∷ es) (ground (arith, length-append q (e ∷ es))) in
      rw (inner, exact, append_snoc q e es) (sym outer)
]

pop_left-last :
    (n : ℕ) (q : List VerifyOutcome) (e : VerifyOutcome)
    → 0 < n
    → length q ≡ n
    → last n (q ++ e ∷ []) ≡ pop_left q ++ e ∷ []
pop_left-last n [] e h exact = absurd (omega arith)
pop_left-last n (x ∷ q) e h exact =
    let longer = length-append q (e ∷ []) in
    last-longer n x (q ++ e ∷ []) (omega arith) ∙ last-all n (q ++ e ∷ []) (omega arith)

append_nil : {A : Type 0} (xs : List A) → xs ++ [] ≡ xs
append_nil [] = refl
append_nil (x ∷ xs) = ap (◌∷◌ x) (append_nil xs)

last-zero : {A : Type 0} (xs : List A) → last 0 xs ≡ []
last-zero [] = refl
last-zero (x ∷ xs) = last-longer 0 x xs (omega arith) ∙ last-zero xs

last-none : {A : Type 0} (n : ℕ) (q es : List A) → n ≡ 0 → length q ≡ 0 → last n (q ++ es) ≡ q
last-none n [] es h empty = rw h (last-zero es)
last-none n (x ∷ q) es h empty = absurd (omega arith)

module _ (fl : Floats) where
  abbrev put : LedgerStore fl → List VerifyOutcome → ℕ → LedgerStore fl
  put st q n = record st { queue = q; stats = record st.stats { drops = n } }

  -- The store after `events` were put in: the queue, and the counter of drops.
  abbrev pub harvested : LedgerStore fl → List VerifyOutcome → LedgerStore fl
  harvested st events =
      let all = st.queue ++ events in
      let cap = st.params.queue_cap in put st (last cap all) (st.stats.drops + (length all - cap))

  enqueue_lem :
      (st : LedgerStore fl) (e : VerifyOutcome)
      → 0 < st.params.queue_cap
      → length st.queue ≤ st.params.queue_cap
      → enqueue fl st e ≡ harvested st (e ∷ [])
  unfolding enqueue
  enqueue_lem st e h fits = elim (Bool-cases (leb st.params.queue_cap (length st.queue))) [
    | inl full ↦
        let exact : length st.queue ≡ st.params.queue_cap = ground (arith, full) in
        let moved = pop_left-last st.params.queue_cap st.queue e h exact in
        let counts : st.stats.drops + (length (st.queue ++ e ∷ []) - st.params.queue_cap)
            ≡ st.stats.drops + 1 =
          omega (arith, length-append st.queue (e ∷ [])) in
        rw (full, enqueue) (rw (counts, moved) refl)
    | inr free ↦
        let room : length (st.queue ++ e ∷ []) ≤ st.params.queue_cap =
          ground (arith, free, length-append st.queue (e ∷ [])) in
        let counts : st.stats.drops + (length (st.queue ++ e ∷ []) - st.params.queue_cap)
            ≡ st.stats.drops =
          omega arith in
        rw (free, enqueue)
          (rw (counts, last-all st.params.queue_cap (st.queue ++ e ∷ []) room) refl)
  ]

  harvested-step :
      (st : LedgerStore fl) (e : VerifyOutcome) (events : List VerifyOutcome)
      → length st.queue ≤ st.params.queue_cap
      → harvested (harvested st (e ∷ [])) events ≡ harvested st (e ∷ events)
  harvested-step st e events fits =
      let cap = st.params.queue_cap in
      let all_but = length-append (last cap (st.queue ++ e ∷ [])) events in
      let kept = length-drop (length (st.queue ++ e ∷ []) - cap) (st.queue ++ e ∷ []) in
      let total = length-append st.queue (e ∷ events) in
      let first = length-append st.queue (e ∷ []) in
      let counts : st.stats.drops
            + (length (st.queue ++ e ∷ []) - cap)
            + (length (last cap (st.queue ++ e ∷ []) ++ events) - cap)
          ≡ st.stats.drops + (length (st.queue ++ e ∷ events) - cap) =
        omega arith in
      rw (counts, last-step cap st.queue e events fits) refl

  enqueue_all_lem :
      (st : LedgerStore fl) (events : List VerifyOutcome)
      → 0 < st.params.queue_cap
      → length st.queue ≤ st.params.queue_cap
      → enqueue_all fl st events ≡ harvested st events
  unfolding enqueue_all
  enqueue_all_lem st [] h fits =
      let counts : st.stats.drops + (length (st.queue ++ []) - st.params.queue_cap)
          ≡ st.stats.drops =
        omega (arith, length-append st.queue []) in
      rw counts (rw (append_nil st.queue, last-all st.params.queue_cap st.queue fits) refl)
  enqueue_all_lem st (e ∷ events) h fits =
      let kept =
        length-drop (length (st.queue ++ e ∷ []) - st.params.queue_cap) (st.queue ++ e ∷ []) in
      rw (enqueue_lem st e h fits) (
        enqueue_all_lem (harvested st (e ∷ [])) events h (omega arith)
        ∙ harvested-step st e events fits)

  -- If the queue is within queue_cap, then harvesting a batch of events leaves the last queue_cap of
  -- the queued and new events, in their order, adds the number of the others to drops, and changes
  -- nothing else; this includes queue_cap = 0, where every event is dropped.
  pub harvest_lem :
      (st : LedgerStore fl) (events : List VerifyOutcome)
      → length st.queue ≤ st.params.queue_cap
      → harvest fl st events ≡ harvested st events
  unfolding harvest
  harvest_lem st events fits = elim (Bool-cases (st.params.queue_cap == 0)) [
    | inl off ↦
        let zero_cap : st.params.queue_cap ≡ 0 = ground (arith, off) in
        let all_lost = last-none st.params.queue_cap st.queue events zero_cap (omega arith) in
        let counts : st.stats.drops + (length (st.queue ++ events) - st.params.queue_cap)
            ≡ st.stats.drops + length events =
          omega (arith, length-append st.queue events) in
        rw (off, harvest) (rw (all_lost, counts) refl)
    | inr on ↦ rw (on, harvest) (enqueue_all_lem st events (ground (arith, on)) fits)
  ]
