-- ===== src/Proposers.antt =====
-- sim/proposers.py: what a replay asks of a proposer, and the proposers. The state that a proposer
-- keeps between calls is passed on explicitly.
pub mod Recycling
pub mod Ledger
pub mod Dense
use speculation_ledger.Prelude.{ℕ, List, []}
use speculation_ledger.Result.{Result, ok}
use speculation_ledger.Types.{Scope, VerifyOutcome, DraftTree}
use speculation_ledger.Signature.{RollingSigStack}

pub record ProposeCtx : Type 0 where
  pub sigs : RollingSigStack
  pub scope_stack : List ℕ
  pub seg : ℕ
  pub budget : ℕ
  pub recent : List ℕ
  pub place : ℕ

-- The methods of a proposer whose state is an S. `bump_epoch scope file` is what the replay does to
-- `proposer.store` where the proposer is a `LedgerProposer`; for the others it changes nothing.
pub record BaseProposer (S : Type 0) : Type 0 where
  pub begin_request : Scope → S → Result S
  pub propose : ProposeCtx → S → Result (DraftTree × S)
  pub harvest : VerifyOutcome → S → Result S
  pub end_request : S → Result S
  pub bump_epoch : ℕ → ℕ → S → S

-- `VanillaProposer`, with the methods that it inherits.
abbrev pub vanilla_proposer : BaseProposer Unit
vanilla_proposer = record {
  begin_request = λ scope st. ok st;
  propose = λ ctx st. ok ([], st);
  harvest = λ ev st. ok st;
  end_request = λ st. ok st;
  bump_epoch = λ scope file st. st;
}
