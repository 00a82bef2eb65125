-- ===== src/Convert/Normalize/Keys.antt =====
-- The keys of an event that `normalize_record` of sim/convert.py reads without a default.
use speculation_ledger.Prelude.{
  ◌≡◌, refl, inl, inr, true, false, List, [], ◌∷◌, Bool, ◌&&◌, ◌⊎◌, Option-cases,
}
use speculation_ledger.Result.{ok, err, key_error}
use speculation_ledger.Convert.{RawEvent, TraceEvent, has}
use speculation_ledger.Convert.Normalize.{or_minus_one, normalize_event, normalize_events}

-- An event has the keys that are read without a default.
abbrev pub is_keyed : RawEvent → Bool
is_keyed ev = has ev.pos && (has ev.kind && has ev.file)

abbrev pub all_keyed : List RawEvent → Bool
all_keyed [] = true
all_keyed (ev ∷ evs) = is_keyed ev && all_keyed evs

normalize_event-cases :
    (ev : RawEvent)
    → ((is_keyed ev ≡ true) × (e : TraceEvent) × (normalize_event ev ≡ ok e))
      ⊎ ((is_keyed ev ≡ false) × (normalize_event ev ≡ err key_error))
unfolding normalize_event
normalize_event-cases ev = elim (Option-cases ev.pos) [
  | inl lacks ↦ inr (rw lacks refl, rw lacks refl)
  | inr (p, has_pos) ↦ elim (Option-cases ev.kind) [
    | inl lacks ↦ inr (rw (has_pos, lacks) refl, rw (has_pos, lacks) refl)
    | inr (k, has_kind) ↦ elim (Option-cases ev.file) [
      | inl lacks ↦ inr (rw (has_pos, has_kind, lacks) refl, rw (has_pos, has_kind, lacks) refl)
      | inr (f, has_file) ↦ inl (
        rw (has_pos, has_kind, has_file) refl,
        record { pos = p; kind = k; file = f; bump_pos = or_minus_one ev.bump_pos },
        rw (has_pos, has_kind, has_file) refl,
      )
    ]
  ]
]

-- Events are normalized where each of them has its keys, and end in a KeyError otherwise.
pub normalize_events-cases :
    (evs : List RawEvent)
    → ((all_keyed evs ≡ true) × (es : List TraceEvent) × (normalize_events evs ≡ ok es))
      ⊎ ((all_keyed evs ≡ false) × (normalize_events evs ≡ err key_error))
unfolding normalize_events
normalize_events-cases [] = inl (refl, [], refl)
normalize_events-cases (ev ∷ evs) = elim (normalize_event-cases ev) [
  | inr (lacks, e) ↦ inr (rw lacks refl, rw e refl)
  | inl (keyed, x, e) ↦ elim (normalize_events-cases evs) [
    | inr (lacks, e') ↦ inr (rw (keyed, lacks) refl, rw (e, e') refl)
    | inl (all, xs, e') ↦ inl (rw (keyed, all) refl, x ∷ xs, rw (e, e') refl)
  ]
]

pub all_keyed-listed :
    (evs : List RawEvent)
    → all_keyed evs ≡ true
    → (es : List TraceEvent) × (normalize_events evs ≡ ok es)
all_keyed-listed evs keyed = elim (normalize_events-cases evs) [
  | inl (_, es, listed) ↦ (es, listed)
  | inr (lacks, _) ↦ absurd (cc)
]
