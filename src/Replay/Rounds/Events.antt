-- ===== src/Replay/Rounds/Events.antt =====
-- The events that `run_replay` of sim/replay.py fires after a step.
use speculation_ledger.Prelude.{ℕ, ◌+◌, inl, inr, List, [], ◌∷◌, ltb, Bool-cases}
use speculation_ledger.Hash.{Blake2b}
use speculation_ledger.Types.{Scope, DraftTree}
use speculation_ledger.Convert.{TraceEvent, TraceRequest, effective_bump_pos}
use speculation_ledger.Proposers.{BaseProposer}
use speculation_ledger.Replay.Requests.{is_file_edit}
use speculation_ledger.Replay.Rounds.{Round, fire, fire_reached, advance}

-- They keep what every bump of an epoch keeps.
module _ (h : Blake2b) {S : Type 0} (P : BaseProposer S) (Inv : S → Type 0)
    (bumped : (scope file : ℕ) (st : S) → Inv st → Inv (P.bump_epoch scope file st)) where
  fire-Inv : (scope : Scope) (e : TraceEvent) (st : S) → Inv st → Inv (fire h P scope e st)
  unfolding fire
  fire-Inv scope e st v = elim (Bool-cases (is_file_edit e)) [
    | inl edit ↦ rw edit (bumped _ _ _ (bumped _ _ st v))
    | inr other ↦ rw other v
  ]

  fire_reached-Inv :
      (scope : Scope) (reached : ℕ) (evs : List TraceEvent) (st : S)
      → Inv st
      → Inv (fire_reached h P scope reached evs st).1
  unfolding fire_reached
  fire_reached-Inv scope reached [] st v = v
  fire_reached-Inv scope reached (e ∷ evs) st v =
      elim (Bool-cases (ltb (effective_bump_pos e) reached)) [
        | inl now ↦
            rw now
              (fire_reached-Inv scope reached evs (fire h P scope e st) (fire-Inv scope e st v))
        | inr later ↦ rw later v
      ]

  module _ (req : TraceRequest) (fids : List ℕ) (budget : ℕ) where
    pub advance-Inv :
        (seg : ℕ) (tree : DraftTree) (acc : ℕ) (s : Round S) (st : S)
        → Inv st
        → Inv (advance h P req fids budget seg tree acc s st).proposer
    unfolding advance
    advance-Inv seg tree acc s st v = fire_reached-Inv req.scope (s.p + (acc + 1)) s.events st v
