-- ===== src/Synth/Generate/Replayed.antt =====
-- From `generate` of sim/synth.py through `read_traces` to `run_replay` of sim/replay.py.
use speculation_ledger.Prelude.{ℕ, ◌+◌, ◌≡◌, refl, ◌∙◌, List, [], ◌∷◌, arith, length, map, true}
use speculation_ledger.Floats.{Floats, Casts}
use speculation_ledger.Random.{Random, RandomLaws}
use speculation_ledger.Hash.{Blake2b}
use speculation_ledger.Result.{ok}
use speculation_ledger.Types.{Str}
use speculation_ledger.Convert.{TraceRequest}
use speculation_ledger.Convert.Read.{read_traces}
use speculation_ledger.Convert.Read.Reading.{tokens_in}
use speculation_ledger.Proposers.{BaseProposer}
use speculation_ledger.Replay.Requests.{RequestMetrics}
use speculation_ledger.Replay.Rounds.{run_replay}
use speculation_ledger.Replay.Rounds.Ends.{IsLawful, run_replay-Returns}
use speculation_ledger.Synth.{SynthParams}
use speculation_ledger.Synth.Turns.Even.{IsUsable}
use speculation_ledger.Synth.Generate.Loop.{Written, generate}
use speculation_ledger.Synth.Generate.Readable.{generate-read_traces}

-- The tokens of some metrics, counted.
abbrev pub tokens_of : List RequestMetrics → ℕ
tokens_of [] = 0
tokens_of (rm ∷ rms) = rm.tokens + tokens_of rms

tokens_of-tokens_in :
    (rms : List RequestMetrics) (reqs : List TraceRequest)
    → map (λ (rm : RequestMetrics). rm.tokens) rms
      ≡ map (λ (req : TraceRequest). length req.tokens) reqs
    → tokens_of rms ≡ tokens_in reqs
tokens_of-tokens_in [] [] e = refl
tokens_of-tokens_in [] (req ∷ reqs) e = absurd (ground (arith, e))
tokens_of-tokens_in (rm ∷ rms) [] e = absurd (ground (arith, e))
tokens_of-tokens_in (rm ∷ rms) (req ∷ reqs) e =
    let first : rm.tokens ≡ length req.tokens = cc in
    let rest : map (λ (rm : RequestMetrics). rm.tokens) rms
        ≡ map (λ (req : TraceRequest). length req.tokens) reqs =
      cc in
    omega (arith, first, tokens_of-tokens_in rms reqs rest)

module _ (fl : Floats) (casts : Casts fl) (rnd : Random fl) (laws : RandomLaws rnd casts)
    (h : Blake2b) (p : SynthParams fl) (u : IsUsable p) (tokenizer_hash : Str) where
  -- For usable parameters and lawful random numbers, the generator returns, the strict reader takes all
  -- that it writes, and the replay of the requests against a lawful proposer, from a state in which its
  -- invariant holds, returns and keeps the invariant. It counts as many tokens as the generator did.
  pub generate-run_replay :
      {S : Type 0} (P : BaseProposer S) (Inv : S → Type 0)
      → IsLawful P Inv
      → (budget : ℕ) (st : S) → Inv st
      → (out : Written) × (reqs : List TraceRequest) × (rms : List RequestMetrics) × (st' : S)
        × (generate fl casts rnd h p tokenizer_hash ≡ ok out)
        × (read_traces true out.records ≡ ok reqs)
        × (run_replay h P budget reqs st ≡ ok (rms, st'))
        × Inv st'
        × (tokens_of rms ≡ out.total_tokens)
  generate-run_replay P Inv lawful budget st v =
      let (out, reqs, e, read, aligned, ordered, many, sum) =
        generate-read_traces fl casts rnd laws h p u tokenizer_hash in
      let (rms, st', e', v', counted) =
        run_replay-Returns h P Inv lawful budget reqs st aligned v in
      (out, reqs, rms, st', e, read true, e', v', tokens_of-tokens_in rms reqs counted ∙ sum)
