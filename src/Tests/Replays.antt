-- ===== src/Tests/Replays.antt =====
-- The theorems on proposers and on the replay at concrete inputs.
use speculation_ledger.Prelude.{
  ℕ, ◌≡◌, ◌≤◌, refl, true, Option, none, some, List, [], ◌∷◌, All, length,
}
use speculation_ledger.Prelude.Int.{pos, negsuc}
use speculation_ledger.Result.{ok}
use speculation_ledger.Types.{VerifyOutcome}
use speculation_ledger.Convert.{TraceEvent, TraceRequest}
use speculation_ledger.Proposers.{vanilla_proposer}
use speculation_ledger.Proposers.Recycling.{
  Recycling, new_recycling, tree_template, index_of, split_last, wire, tr_tree_wiring,
  recycling_proposer,
}
use speculation_ledger.Proposers.Recycling.Wired.{all_paths}
use speculation_ledger.Proposers.Recycling.Rows.{IsFull, recycling_proposer-IsLawful}
use speculation_ledger.Replay.Requests.{RequestMetrics, word_file_edit}
use speculation_ledger.Replay.Rounds.{replay_request, run_replay}
use speculation_ledger.Replay.Rounds.Outcomes.{AlignedRequest, IsWellFormed}
use speculation_ledger.Replay.Rounds.Ends.{IsLawful, replay_request-Returns}
use speculation_ledger.Replay.Rounds.Record.{recording, all_realized, replay_request-all_realized}
use speculation_ledger.Replay.Rounds.Vanilla.{vanilla_proposer-steps}
use speculation_ledger.Replay.Totals.{sort_named, insert_named, totals}
use speculation_ledger.Replay.Totals.Balance.{values, run_replay-totals}
use speculation_ledger.Tests.Toys.{toy_floats, toy_casts, toy_hash, toy_scope}

abbrev edit : TraceEvent
edit = record { pos = 1; kind = word_file_edit; file = b'f' ∷ []; bump_pos = negsuc 0 }

abbrev request : TraceRequest
request = record {
  request_id = b'q' ∷ [];
  ts = 9;
  scope = toy_scope;
  model = [];
  tokenizer_hash = [];
  tokens = 4 ∷ 5 ∷ 6 ∷ [];
  seg = pos 3 ∷ pos 2 ∷ pos 2 ∷ [];
  topk_ids = [] ∷ (5 ∷ 8 ∷ []) ∷ [] ∷ [];
  topk_logp_q8 = [] ∷ (pos 3 ∷ pos 60 ∷ []) ∷ [] ∷ [];
  events = edit ∷ [];
}

abbrev aligned : AlignedRequest request
aligned = record {
  length_seg = refl;
  length_ids = refl;
  length_q8s = refl;
  segs = refl;
  q8s = refl;
}

-- The wiring of a small template, and a proposer with it.
abbrev pub small : List (List ℕ)
small = (0 ∷ []) ∷ (1 ∷ []) ∷ (0 ∷ 2 ∷ []) ∷ []

abbrev pub small_wiring : List (Option ℕ × ℕ)
small_wiring = (none, 0) ∷ (none, 1) ∷ (some 0, 2) ∷ []

pub small_wired : tr_tree_wiring small ≡ ok small_wiring
unfolding tr_tree_wiring wire split_last index_of
small_wired = refl

-- The template of the source passes the test.
template_test : all_paths tree_template ≡ true
template_test = refl

-- Its wiring is made without an error.
template_wired : (wiring : List (Option ℕ × ℕ)) × (tr_tree_wiring tree_template ≡ ok wiring)
unfolding tr_tree_wiring wire split_last index_of
template_wired = (_, refl)

recycling_proposer-IsLawful_example : IsLawful (recycling_proposer small_wiring) IsFull
recycling_proposer-IsLawful_example = recycling_proposer-IsLawful small refl small_wired

abbrev pub lawful : IsLawful (recycling_proposer small_wiring) IsFull
lawful = recycling_proposer-IsLawful small refl small_wired

abbrev pub new_IsFull : IsFull new_recycling
new_IsFull = record { tables = tt; unowned = tt }

replay_request-Returns_example :
    (rm : RequestMetrics) × (st' : Recycling) × (replay_request toy_hash
        (recycling_proposer small_wiring)
        8
        request
        new_recycling
      ≡ ok (rm, st'))
    × IsFull st'
    × (rm.tokens ≡ length request.tokens)
    × (rm.steps ≤ rm.tokens)
    × (rm.drafted_steps ≤ rm.steps)
replay_request-Returns_example =
    replay_request-Returns toy_hash (recycling_proposer small_wiring) IsFull lawful 8 request
      new_recycling aligned new_IsFull

replay_request-all_realized_example :
    (rm : RequestMetrics) × (log : List VerifyOutcome) × (st' : Recycling) × (replay_request
        toy_hash
        (recording (recycling_proposer small_wiring))
        8
        request
        ([], new_recycling)
      ≡ ok (rm, (log, st')))
    × (all_realized log ≡ 4 ∷ 5 ∷ 6 ∷ [])
    × (length log ≡ rm.steps)
    × All IsWellFormed log
replay_request-all_realized_example =
    replay_request-all_realized toy_hash (recycling_proposer small_wiring) IsFull lawful 8 request
      new_recycling aligned new_IsFull

vanilla_proposer-steps_example :
    (rm : RequestMetrics) × (replay_request toy_hash vanilla_proposer 8 request tt ≡ ok (rm, tt))
    × (rm.steps ≡ length request.tokens)
    × (rm.tokens ≡ length request.tokens)
    × (rm.drafted_tokens ≡ 0)
vanilla_proposer-steps_example = vanilla_proposer-steps toy_hash 8 request aligned

-- The totals of two requests, with two tokens of code and one of text in each.
run_replay-totals_example :
    (rms : List RequestMetrics) × (st' : Recycling) × (run_replay toy_hash
        (recycling_proposer small_wiring)
        8
        (request ∷ request ∷ [])
        new_recycling
      ≡ ok (rms, st'))
    × (length rms ≡ 2)
    × ((totals toy_floats toy_casts rms).tokens ≡ 6)
    × ((totals toy_floats toy_casts rms).steps ≤ (totals toy_floats toy_casts rms).tokens)
    × (values (totals toy_floats toy_casts rms).per_seg_steps
        ≡ (totals toy_floats toy_casts rms).steps)
    × All (λ (rm : RequestMetrics). values rm.seg_tokens ≡ rm.tokens) rms
run_replay-totals_example =
    run_replay-totals toy_hash (recycling_proposer small_wiring) toy_floats toy_casts IsFull lawful
      8 (request ∷ request ∷ []) new_recycling (aligned, (aligned, tt)) new_IsFull

-- The names of the segments are code, text, think and tool.
sort_named_test :
    sort_named {V = ℕ} ((0, 5) ∷ (1, 6) ∷ (2, 7) ∷ (3, 8) ∷ [])
    ≡ (2, 7) ∷ (3, 8) ∷ (0, 5) ∷ (1, 6) ∷ []
unfolding sort_named insert_named
sort_named_test = refl
