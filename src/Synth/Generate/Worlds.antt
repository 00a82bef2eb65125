-- ===== src/Synth/Generate/Worlds.antt =====
-- The state between the turns of sim/synth.py: each repo has its files, and the path that a session
-- worked on is a file of its repo.
use speculation_ledger.Prelude.{
  ℕ, ◌<◌, ◌≡◌, refl, sym, ◌∙◌, inl, inr, Bool-cases, some, List, [], ◌∷◌, arith, length,
}
use speculation_ledger.Prelude.Texts.{
  str_eq, str_eq_sound, decimal, decimal-All, append-slash, find, store, find-store_same,
  find-store_other, find-store_either,
}
use speculation_ledger.Floats.{Floats}
use speculation_ledger.Random.{Gen, Yields, run_with}
use speculation_ledger.Result.{ok}
use speculation_ledger.Types.{Str}
use speculation_ledger.Synth.{SynthParams}
use speculation_ledger.Synth.Specs.{TurnSpec, session_of}
use speculation_ledger.Synth.Specs.Counted.{IsSpec}
use speculation_ledger.Synth.Turns.{Files}
use speculation_ledger.Synth.Turns.Edits.{AreFiles, Has}
use speculation_ledger.Synth.Generate.{Turned}
use speculation_ledger.Synth.Generate.Turn.{IsTurn}
use speculation_ledger.Synth.Generate.Loop.{World, world_after}

-- A computation that draws returns from any numbers.
pub run_with-Yields :
    {R A : Type 0} {P : A → Type 0} {m : Gen R A} (g : R)
    → Yields P m
    → (a : A) × (run_with m g ≡ ok a) × P a
unfolding run_with
run_with-Yields g y = let (a, g', e, q) = y.run g in (a, rw (run_with, e) refl, q)

-- The files of a repo, of which there is one.
abbrev pub IsState : {fl : Floats} → SynthParams fl → Files → Type 0
IsState p files = AreFiles p files × (0 < length files)

pub record Tracked {fl : Floats} (p : SynthParams fl) (w : World) : Type 0 where
  pub states : (repo : Str) {files : Files} → find repo w.states ≡ some files → IsState p files
  pub last_path :
      (repo : Str) (si : ℕ) {path : Str}
      → find (session_of repo si) w.last_path ≡ some path
      → (files : Files) × (find repo w.states ≡ some files) × Has path files

pub store-there :
    (key : Str) (new : List (List ℕ)) (files : Files) → 0 < length (store key new files)
store-there key new [] = omega arith
store-there key new (f ∷ files) = elim (Bool-cases (str_eq f.0 key)) [
  | inl here ↦ rw here (omega arith)
  | inr other ↦ rw other (omega arith)
]

Has-there : (path : Str) (files : Files) → Has path files → 0 < length files
Has-there path [] (lines, e) = absurd (ground arith)
Has-there path (f ∷ files) there = omega arith

session_of-repo :
    (repo repo' : Str) (si si' : ℕ) → session_of repo si ≡ session_of repo' si' → repo ≡ repo'
session_of-repo repo repo' si si' e =
    append-slash repo repo' (b's' ∷ decimal si) (b's' ∷ decimal si') (omega arith, decimal-All si)
      (omega arith, decimal-All si') e

pub world_after-Tracked :
    {fl : Floats} (p : SynthParams fl) (s : TurnSpec) (files : Files) (t : Turned) (w : World)
    → IsSpec s
    → ((files' : Files) → find s.repo w.states ≡ some files' → files' ≡ files)
    → IsTurn p files t
    → Tracked p w
    → Tracked p (world_after s t w)
world_after-Tracked p s files t w (si, named) current turn tracked = record {
  states = λ repo {files = found} e. elim (find-store_either s.repo repo t.files w.states e) [
    | inl (same, new) ↦ rw (sym new) (turn.are_files, Has-there t.path t.files turn.has_path)
    | inr (apart, before) ↦ tracked.states repo before
  ];
  last_path = λ repo si' {path = path} e.
      elim (find-store_either s.session (session_of repo si') t.path w.last_path e) [
        | inl (same, new) ↦
            let here = session_of-repo s.repo repo si si' (sym named ∙ same) in
            (
              t.files,
              rw (sym here) (find-store_same s.repo t.files w.states),
              rw (sym new) turn.has_path,
            )
        | inr (apart, before) ↦
            let (old, found, has) = tracked.last_path repo si' before in
            elim (Bool-cases (str_eq s.repo repo)) [
              | inl here ↦
                  let same = str_eq_sound s.repo repo here in
                  let now : old ≡ files = current old (rw same found) in
                  (
                    t.files,
                    rw (sym same) (find-store_same s.repo t.files w.states),
                    turn.kept path (rw (sym now) has),
                  )
              | inr other ↦ (old, find-store_other s.repo repo t.files w.states other ∙ found, has)
            ]
      ];
}
