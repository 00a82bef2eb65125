-- ===== src/Synth/Generate/Turn.antt =====
-- What a turn of sim/synth.py draws: steps without fault, and files that keep their paths and sizes.
use speculation_ledger.Prelude.{
  ℕ, suc, ◌+◌, ◌≤◌, ◌<◌, ◌≡◌, refl, inl, inr, Bool-cases, Option-cases, Option, some, List, [], ◌∷◌,
  arith, length, length-map, map, All, All-weaken, All-get_elem?,
}
use speculation_ledger.Prelude.Texts.{str_eq, str_eq-same}
use speculation_ledger.Floats.{Floats, Casts}
use speculation_ledger.Random.{
  Random, RandomLaws, Yields, Yields-pure, Yields-bind, at-get_elem?, pick-All,
}
use speculation_ledger.Hash.{Blake2b}
use speculation_ledger.Convert.Read.{str_lt}
use speculation_ledger.Types.{Str}
use speculation_ledger.Synth.{SynthParams, Req, empty_req, topic_bank}
use speculation_ledger.Synth.Topk.Widths.{emit_topk-Topk}
use speculation_ledger.Synth.Turns.{Files}
use speculation_ledger.Synth.Turns.Even.{
  IsUsable, IsEven, Yields-if, Yields-fraction, gen_think-IsEven, gen_text-IsEven,
  gen_tool_read-IsEven,
}
use speculation_ledger.Synth.Turns.Edits.{AreFiles, Has, gen_tool_edit-IsEven}
use speculation_ledger.Synth.Generate.{
  Turned, choose_path, emit_steps, turn_draws, insert_path, sort_paths,
}
use speculation_ledger.Synth.Generate.Records.{
  IsStep, Spells, no_steps-Spells, step_of-Spells, step_of-IsStep,
}

keys-Has : (files : Files) → All (λ j. Has j files) (map (λ f. f.0) files)
keys-Has [] = tt
keys-Has (f ∷ files) = (
  (f.1, rw (str_eq-same f.0) refl),
  All-weaken _ _ (map (λ f. f.0) files) (λ j there. past f files j there) (keys-Has files),
)
  where
    past : (f : Str × List (List ℕ)) (files : Files) (j : Str) → Has j files → Has j (f ∷ files)
    past f files j (lines, e) = elim (Bool-cases (str_eq f.0 j)) [
      | inl here ↦ (f.1, rw here refl)
      | inr other ↦ (lines, rw other e)
    ]

All-insert_path :
    (Q : Str → Type 0) (s : Str) (ss : List Str) → Q s → All Q ss → All Q (insert_path s ss)
unfolding insert_path
All-insert_path Q s [] q a = (q, tt)
All-insert_path Q s (c ∷ cs) q a = elim (Bool-cases (str_lt c s)) [
  | inl first ↦ rw first (a.0, All-insert_path Q s cs q a.1)
  | inr later ↦ rw later (q, a)
]

All-sort_paths : (Q : Str → Type 0) (ss : List Str) → All Q ss → All Q (sort_paths ss)
unfolding sort_paths
All-sort_paths Q [] a = tt
All-sort_paths Q (s ∷ ss) a = All-insert_path Q s (sort_paths ss) a.0 (All-sort_paths Q ss a.1)

insert_path-there : (s : Str) (ss : List Str) → 0 < length (insert_path s ss)
unfolding insert_path
insert_path-there s [] = omega arith
insert_path-there s (c ∷ cs) = elim (Bool-cases (str_lt c s)) [
  | inl first ↦ rw first (omega arith)
  | inr later ↦ rw later (omega arith)
]

sort_paths-there : (ss : List Str) → 0 < length ss → 0 < length (sort_paths ss)
unfolding sort_paths
sort_paths-there [] few = absurd (omega arith)
sort_paths-there (s ∷ ss) few = insert_path-there s (sort_paths ss)

-- What a turn leaves, of the files that it found.
pub record IsTurn {fl : Floats} (p : SynthParams fl) (files : Files) (t : Turned) : Type 0 where
  pub even : IsEven t.req
  pub steps : All IsStep t.steps
  pub spells : Spells t.steps t.req.tokens
  pub are_files : AreFiles p t.files
  pub kept : (j : Str) → Has j files → Has j t.files
  pub has_path : Has t.path t.files

module _ (fl : Floats) (casts : Casts fl) (rnd : Random fl) (laws : RandomLaws rnd casts)
    (h : Blake2b) (p : SynthParams fl) (u : IsUsable p) where
  emit_steps-IsStep :
      (r : Req) (i : ℕ) (ts : List ℕ)
      → IsEven r
      → i + length ts ≡ length r.tokens
      → Yields (λ steps. All IsStep steps × Spells steps ts) (emit_steps fl casts rnd h p r i ts)
  unfolding emit_steps
  emit_steps-IsStep r i [] e all = Yields-pure [] (tt, no_steps-Spells)
  emit_steps-IsStep r i (t ∷ ts) e all =
      Yields-bind (at-get_elem? fl rnd casts laws r.alts i (omega (arith, all, e.length_alts)))
        λ alts _.
          Yields-bind (emit_topk-Topk fl casts rnd laws t alts p.vocab p.k_top u.vocab) λ row topk.
            Yields-bind (at-get_elem? fl rnd casts laws r.seg i (omega (arith, all, e.length_seg)))
              λ seg found.
                Yields-bind (emit_steps-IsStep r (suc i) ts e (omega (arith, all))) λ rest a.
                  Yields-pure _ (
                    (
                      step_of-IsStep i t seg row (All-get_elem? (λ s. s ≤ 3) r.seg i e.segs found)
                          topk,
                      a.0,
                    ),
                    step_of-Spells i t seg row rest ts a.1,
                  )

  choose_path-Has :
      (prev : Option Str) (files : Files)
      → 0 < length files
      → ((path : Str) → prev ≡ some path → Has path files)
      → Yields
          (λ path. Has path files)
          (choose_path fl casts rnd h p prev (sort_paths (map (λ f. f.0) files)))
  unfolding choose_path
  choose_path-Has prev files there known =
      let any =
        pick-All fl rnd casts laws (λ path. Has path files) (sort_paths (map (λ f. f.0) files))
          (sort_paths-there (map (λ f. f.0) files)
            (omega (arith, there, length-map (λ (f : Str × List (List ℕ)). f.0) files)))
          (All-sort_paths (λ path. Has path files) _ (keys-Has files)) in
      elim (Option-cases prev) [
        | inl first ↦ rw (first, choose_path) any
        | inr (path, e) ↦
            rw (e, choose_path)
              (Yields-bind (Yields-fraction fl casts rnd laws h p u)
                λ x _. Yields-if (fl.lt x p.file_locality) (Yields-pure path (known path e)) any)
      ]

  pub turn_draws-IsTurn :
      (repo : Str) (templates : List (List (Option ℕ))) (files : Files) (prev : Option Str)
      → 0 < length templates
      → 0 < length files
      → AreFiles p files
      → ((path : Str) → prev ≡ some path → Has path files)
      → Yields (IsTurn p files) (turn_draws fl casts rnd h p repo templates files prev)
  unfolding turn_draws topic_bank
  turn_draws-IsTurn repo templates files prev templates_there files_there good known =
      let bank_there : 0 < length (topic_bank h p repo) = omega arith in
      let empty : IsEven empty_req = record {
        length_seg = refl;
        length_alts = refl;
        segs = tt;
        events = tt;
      } in
      Yields-bind
        (gen_think-IsEven fl casts rnd laws h p u (topic_bank h p repo) bank_there templates
          templates_there empty_req empty)
        λ r₁ e₁. Yields-bind (choose_path-Has prev files files_there known) λ path has.
          Yields-bind (Yields-fraction fl casts rnd laws h p u) λ x _.
            Yields-bind
              (Yields-if (fl.lt x p.edit_prob)
                (gen_tool_edit-IsEven fl casts rnd laws h p u repo path _ files r₁ has good e₁)
                (Yields-bind (gen_tool_read-IsEven fl casts rnd laws h p u path _ r₁ e₁)
                  λ r e. Yields-pure (r, files) (e, good, λ j there. there)))
              λ done d.
                Yields-bind
                  (gen_text-IsEven fl casts rnd laws h p u (topic_bank h p repo) bank_there done.0
                    d.0)
                  λ r e. Yields-bind (emit_steps-IsStep r 0 r.tokens e (omega arith)) λ steps s.
                    Yields-pure _ (record {
                      even = e;
                      steps = s.0;
                      spells = s.1;
                      are_files = d.1;
                      kept = d.2;
                      has_path = d.2 path has;
                    })
