-- ===== src/Synth/Generate/Valid.antt =====
-- `generate` of sim/synth.py returns, and writes records that the strict reader takes.
use speculation_ledger.Prelude.{
  ℕ, zero, suc, ◌+◌, ◌<◌, ◌≡◌, refl, sym, ap, ◌∙◌, inl, inr, Option-cases, Option, some, List, [],
  arith, length, All,
}
use speculation_ledger.Prelude.Texts.{find, store, All-store}
use speculation_ledger.Floats.{Floats, Casts}
use speculation_ledger.Random.{
  Random, RandomLaws, Yields, Yields-pure, Yields-bind, Yields-weaken, below-lt, between-le, at,
  repeated-All,
}
use speculation_ledger.Hash.{Blake2b}
use speculation_ledger.Result.{ok}
use speculation_ledger.Types.{Str}
use speculation_ledger.Synth.{
  SynthParams, topic_bank, think_templates, think_template, template_token, make_slots, common,
}
use speculation_ledger.Synth.Specs.{TurnSpec}
use speculation_ledger.Synth.Specs.Counted.{IsSpec}
use speculation_ledger.Synth.Turns.{Files}
use speculation_ledger.Synth.Turns.Even.{
  IsUsable, IsEven, Any, Yields-if, Yields-fraction, Yields-pick, length-common,
}
use speculation_ledger.Synth.Turns.Edits.{IsLine, IsFile, AreFiles}
use speculation_ledger.Synth.Generate.{Turned, init_lines, init_files, repo_state, path_of}
use speculation_ledger.Synth.Generate.Turn.{turn_draws-IsTurn}
use speculation_ledger.Synth.Generate.Records.{IsStep, Spells}
use speculation_ledger.Synth.Generate.Worlds.{
  IsState, Tracked, world_after-Tracked, run_with-Yields, store-there,
}
use speculation_ledger.Synth.Generate.Loop.{World, world_after, state_of, turn_rng, turn_of}

module _ (fl : Floats) (casts : Casts fl) (rnd : Random fl) (laws : RandomLaws rnd casts)
    (h : Blake2b) (p : SynthParams fl) (u : IsUsable p) where
  Yields-init_lines : (repo : Str) → Yields (IsFile p) (init_lines fl casts rnd h p repo)
  unfolding init_lines
  Yields-init_lines repo = repeated-All fl rnd casts laws IsLine p.file_lines _ (
      Yields-weaken
        (repeated-All fl rnd casts laws Any p.line_len _
          (Yields-bind (below-lt fl rnd casts laws 400 (omega arith)) λ i _. Yields-pure _ tt))
        λ line a. omega (arith, a.1, u.line))

  Yields-init_files :
      (repo : Str) (n fi : ℕ) (files : Files)
      → 0 < n + length files
      → AreFiles p files
      → Yields (IsState p) (init_files fl casts rnd h p repo n fi files)
  unfolding init_files
  Yields-init_files repo zero fi files there good = Yields-pure files (good, omega (arith, there))
  Yields-init_files repo (suc n) fi files there good =
      Yields-bind (Yields-init_lines repo) λ lines is_file.
        Yields-init_files repo n (suc fi) (store (path_of repo fi) lines files)
          (omega (arith, store-there (path_of repo fi) lines files))
          (All-store (λ f. IsFile p f.1) (path_of repo fi) lines files (λ j. is_file) good)

  repo_state-IsState :
      (tenant repo : Str)
      → (files : Files) × (repo_state fl casts rnd h p tenant repo ≡ ok files) × IsState p files
  unfolding repo_state
  repo_state-IsState tenant repo =
      run_with-Yields _ (Yields-init_files repo p.files_per_repo 0 [] (omega (arith, u.files)) tt)

  Yields-make_slots :
      (n ln : ℕ) (t : List (Option ℕ)) → 0 < ln → Yields Any (make_slots h p rnd n ln t)
  unfolding make_slots
  Yields-make_slots zero ln t some_there = Yields-pure t tt
  Yields-make_slots (suc n) ln t some_there =
      Yields-bind (below-lt fl rnd casts laws ln some_there)
        λ i _. Yields-make_slots n ln _ some_there

  Yields-think_template :
      (bank : List ℕ) → 0 < length bank → Yields Any (think_template h p rnd bank)
  unfolding think_template template_token
  Yields-think_template bank there =
      let words_there : 0 < length (common h p) =
        omega (arith, length-common fl casts rnd laws h p u) in
      Yields-bind (between-le fl rnd casts laws p.sent_len u.sent) λ ln long.
        Yields-bind
          (repeated-All fl rnd casts laws Any ln _ (
            Yields-bind (Yields-fraction fl casts rnd laws h p u) λ x _.
              Yields-bind
                (Yields-if (fl.lt x (fl.ratio 1 2)) (Yields-pick fl casts rnd laws h p u bank there)
                  (Yields-pick fl casts rnd laws h p u (common h p) words_there))
                λ t _. Yields-pure _ tt))
          λ t _.
            Yields-bind (between-le fl rnd casts laws (1, 2) (omega arith))
              λ n _. Yields-make_slots n ln t (omega (arith, long.0, u.sent_min))

  think_templates-there :
      (repo : Str)
      → (ts : List (List (Option ℕ))) × (think_templates h p rnd repo ≡ ok ts) × (0 < length ts)
  unfolding think_templates topic_bank
  think_templates-there repo =
      let (ts, e, a) = run_with-Yields _ (
        repeated-All fl rnd casts laws Any p.think_templates _
          (Yields-think_template (topic_bank h p repo) (omega arith))) in
      (ts, e, omega (arith, a.1, u.templates))

  -- The files of a turn's repo, which are those of its state where it has one.
  state_of-IsState :
      (s : TurnSpec) (w : World)
      → Tracked p w
      → (files : Files) × (state_of fl casts rnd h p s w ≡ ok files)
        × IsState p files
        × ((old : Files) → find s.repo w.states ≡ some old → old ≡ files)
  unfolding state_of
  state_of-IsState s w tracked = elim (Option-cases (find s.repo w.states)) [
    | inl new ↦
        let (files, e, good) = repo_state-IsState s.tenant s.repo in
        (files, rw (state_of, new) e, good, λ old found. absurd (cc))
    | inr (files, found) ↦ (
      files,
      rw (state_of, found) refl,
      tracked.states s.repo found,
      λ old found'. ground (arith, found, found'),
    )
  ]

  -- A turn returns, with steps of no fault that spell its tokens, and the state stays tracked.
  pub turn_of-IsTurn :
      (s : TurnSpec) (w : World)
      → IsSpec s
      → Tracked p w
      → (t : Turned) × (turn_of fl casts rnd h p s w ≡ ok t)
        × (All IsStep t.steps × Spells t.steps t.req.tokens × IsEven t.req)
        × Tracked p (world_after s t w)
  unfolding turn_of
  turn_of-IsTurn s w (si, named) tracked =
      let (files, found, good, current) = state_of-IsState s w tracked in
      let (templates, drawn, there) = think_templates-there s.repo in
      let (t, e, turn) = run_with-Yields (turn_rng fl casts rnd h p s) (
        turn_draws-IsTurn fl casts rnd laws h p u s.repo templates files
          (find s.session w.last_path) there good.1 good.0
          λ path last.
            let (old, at, has) =
              tracked.last_path s.repo si (ap (λ x. find x w.last_path) (sym named) ∙ last) in
            rw (sym (current old at)) has) in
      (
        t,
        rw (turn_of, found, drawn) e,
        (turn.steps, turn.spells, turn.even),
        world_after-Tracked p s files t w (si, named) current turn tracked,
      )
