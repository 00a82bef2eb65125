-- ===== src/Gates/Verdicts.antt =====
-- What the verdicts of sim/gates.py rest on: no gate that is asked for is passed over in silence, and
-- none passes without the inputs that it needs.
use speculation_ledger.Prelude.{
  ◌≡◌, refl, sym, ◌∙◌, inl, inr, Bool-cases, Option-cases, true, false, Option, none, some, List,
  [], ◌∷◌, if◌then◌else◌, arith, All,
}
use speculation_ledger.Prelude.Texts.{
  str_eq, str_eq_sound, str_eq-same, find, store, find-store_same, find-store_other,
}
use speculation_ledger.Floats.{Floats, Casts}
use speculation_ledger.Result.{Result, ok}
use speculation_ledger.Types.{Str}
use speculation_ledger.Convert.{has}
use speculation_ledger.Gates.{listed_in, Verdict, Verdicts, skipped_verdict, add_skipped, put_gate}

-- What the code relies on of `/`: only a divisor equal to 0 makes it raise, and a positive one is not.
pub record DivLaws (fl : Floats) : Type 0 where
  pub div-some : (x y : fl.F) → fl.eq y (fl.ratio 0 1) ≡ false → (z : fl.F) × (fl.div x y ≡ some z)
  pub lt-eq : (y : fl.F) → fl.lt (fl.ratio 0 1) y ≡ true → fl.eq y (fl.ratio 0 1) ≡ false

All-store_key :
    {V : Type 0} (Q : Str × V → Type 0) (key : Str) (new : V) (t : List (Str × V))
    → Q (key, new)
    → All Q t
    → All Q (store key new t)
All-store_key Q key new [] q a = (q, tt)
All-store_key Q key new (row ∷ t) q a = elim (Bool-cases (str_eq row.0 key)) [
  | inl here ↦ let same = str_eq_sound row.0 key here in rw (here, same) (q, a.1)
  | inr other ↦ rw other (a.0, All-store_key Q key new t q a.1)
]

-- All texts of a list are in a longer one.
pub All-listed :
    (front xs : List Str)
    → ((g : Str) → listed_in g xs ≡ true → listed_in g front ≡ true)
    → All (λ g. listed_in g front ≡ true) xs
All-listed front [] sub = tt
All-listed front (x ∷ xs) sub = (
  sub x (rw (str_eq-same x) refl),
  All-listed front xs (λ g there. sub g (ground (arith, there))),
)

module _ (fl : Floats) (casts : Casts fl) where
  abbrev pub There : Str → Verdicts fl casts → Type 0
  There g gates = (v : Verdict fl casts) × (find g gates ≡ some v)

  There-store :
      (g key : Str) (v : Verdict fl casts) (gates : Verdicts fl casts)
      → There g gates
      → There g (store key v gates)
  There-store g key v gates (old, e) = elim (Bool-cases (str_eq key g)) [
    | inl same ↦ (v, rw (sym (str_eq_sound key g same)) (find-store_same key v gates))
    | inr apart ↦ (old, find-store_other key g v gates apart ∙ e)
  ]

  -- A gate that is looked up after it was added where it was not there.
  one-There :
      (g : Str) (gates : Verdicts fl casts)
      → There g (if has (find g gates) then gates else store g (skipped_verdict fl casts) gates)
  one-There g gates = elim (Option-cases (find g gates)) [
    | inl missing ↦
        rw missing (skipped_verdict fl casts, find-store_same g (skipped_verdict fl casts) gates)
    | inr (v, e) ↦ rw e (v, e)
  ]

  add_skipped-There :
      (g : Str) (want : List Str) (gates : Verdicts fl casts)
      → There g gates
      → There g (add_skipped fl casts want gates)
  unfolding add_skipped
  add_skipped-There g [] gates there = there
  add_skipped-There g (x ∷ want) gates there = elim (Bool-cases (has (find x gates))) [
    | inl judged ↦ rw judged (add_skipped-There g want gates there)
    | inr missing ↦
        rw missing
          (add_skipped-There g want _ (There-store g x (skipped_verdict fl casts) gates there))
  ]

  pub add_skipped-all :
      (want : List Str) (gates : Verdicts fl casts)
      → All (λ g. There g (add_skipped fl casts want gates)) want
  unfolding add_skipped
  add_skipped-all [] gates = tt
  add_skipped-all (x ∷ want) gates =
      (add_skipped-There x want _ (one-There x gates), add_skipped-all want _)

  pub add_skipped-All :
      (Q : Str × Verdict fl casts → Type 0) (want : List Str) (gates : Verdicts fl casts)
      → All (λ g. Q (g, skipped_verdict fl casts)) want
      → All Q gates
      → All Q (add_skipped fl casts want gates)
  unfolding add_skipped
  add_skipped-All Q [] gates w a = a
  add_skipped-All Q (x ∷ want) gates w a = elim (Bool-cases (has (find x gates))) [
    | inl judged ↦ rw judged (add_skipped-All Q want gates w.1 a)
    | inr missing ↦
        rw missing
          (add_skipped-All Q want _ w.1 (All-store_key Q x (skipped_verdict fl casts) gates w.0 a))
  ]

  pub put_gate-All :
      (Q : Str × Verdict fl casts → Type 0) (g : Str) (want : List Str)
      (o : Option (Result (Verdict fl casts))) (gates : Verdicts fl casts)
      → ((r : Result (Verdict fl casts))
          → o ≡ some r
          → listed_in g want ≡ true
          → (v : Verdict fl casts) × (r ≡ ok v) × Q (g, v))
      → All Q gates
      → (gates' : Verdicts fl casts) × (put_gate fl casts g want o gates ≡ ok gates') × All Q gates'
  unfolding put_gate
  put_gate-All Q g want none gates y a = (gates, refl, a)
  put_gate-All Q g want (some r) gates y a = elim (Bool-cases (listed_in g want)) [
    | inr unasked ↦ (gates, rw (put_gate, unasked) refl, a)
    | inl asked ↦
        let (v, e, q) = y r refl asked in
        (store g v gates, rw (put_gate, asked, e) refl, All-store_key Q g v gates q a)
  ]
