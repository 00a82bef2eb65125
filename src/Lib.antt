-- ===== src/Lib.antt =====
-- SpeculationLedger: the ledger of verified tokens behind speculative decoding. A serving engine
-- reports what became of each draft (a VerifyOutcome); the store counts, per recent context, which
-- tokens were accepted and rejected, and a proposer looks up what to draft next. The model covers
-- core/, the library that the simulator and the engine plug-in share, and of the simulator under
-- sim/ the making and the reading of traces, the proposers, the replay
-- and the judgement of gates.
--
-- The parts, and how they interact:
--   * core/signature.py hashes the last 2 to 8 tokens of a context incrementally and folds the hash
--     with a scope and a segment into a key: Signature.antt (RollingSigStack is a record of its list
--     of signatures and the stream length), with its laws in Signature/Mix, Signature/Keys and
--     Signature/Rolling. 64-bit numbers are naturals with the masks written out as `% 2 ^ 64`;
--     exclusive or and shifts are in Bits.
--   * core/types.py names scopes, outcomes and draft trees: Types.antt, laws in Types/Ids, Types/Tree.
--     A text is its list of UTF-8 bytes; the parent -1 of a node is `none`.
--   * core/arena.py stores the tokens of spans once per content: Arena.antt, laws in Arena/Content and
--     Arena/Compact. The dedup dict is keyed by the digest as a number.
--   * core/store.py, class HotEntry: the candidates of one key with adaptive room, saturating counts
--     and a cached view: Hot.antt, laws in Hot/Evict, Hot/Counts, Hot/Capacity, Hot/Cache, Hot/Ok.
--   * core/store.py, class LedgerStore: Store/State.antt (the state, epochs, _get_or_create),
--     Store/Spans.antt (_find_span_entry, _track_run, _flush_run), Store/Apply.antt (_apply),
--     Store/Compact.antt (compact, stats), Store/Queue.antt (harvest, drain), Store/Lookup.antt
--     (lookup, lookup_span), Store/Snapshot.antt (the document of snapshot and load; Store/Snapshot/Fits.antt
--     says when a document suits the parameters of a store).
--     Store/Steps.antt has the calls of the public methods, load among them, as a step relation, and
--     Store/Steps/Invariant.antt the invariant over sequences of them.
--   * core/backoff.py blends the entries found for one context into a posterior: Backoff.antt. lookup
--     calls it with the sources that it collected. Backoff/Rank.antt has the ranking, and
--     Backoff/Support.antt what the candidates rest on.
--   * sim/convert.py reads traces: Convert.antt has the records and requests, Convert/Validate.antt
--     validate_record, Convert/Normalize.antt normalize_record, Convert/TokenLog.antt convert_token_log
--     and Convert/Read.antt read_traces, each with its laws below it. A JSON object is a record with an
--     optional field for each key that is asked for.
--   * sim/proposers.py drafts tokens: Proposers.antt has the interface of a proposer, a record of its
--     methods on a state, and VanillaProposer; Proposers/Ledger.antt LedgerProposer, which calls
--     lookup, lookup_span, harvest, drain and flush_runs of the store, and Proposers/Recycling.antt
--     TokenRecyclingProposer. Proposers/Dense.antt has DenseKeyProposer of sim/dense_key.py.
--   * sim/replay.py replays recorded tokens against drafts: Replay.antt has oracle_accept, the walk
--     down a draft tree, Replay/Requests.antt the file ids and counts of a request, and
--     Replay/Rounds.antt the loop of run_replay against any proposer. Replay/Rounds/Ends.antt states
--     what a proposer has to keep for a replay to end.
--     Replay/Totals.antt has the rates, the rows and the totals of the report.
--   * sim/gates.py judges an experiment by the totals of its proposers: Gates.antt has _judge, with
--     Gates/Verdicts.antt, Gates/Passes.antt and Gates/Grounds.antt on what its verdicts rest on.
--   * sim/synth.py writes traces to replay: Synth.antt has its parameters, vocabulary and the request
--     that is built up, Synth/Topk.antt _emit_topk, Synth/Specs.antt the turns and their order,
--     Synth/Turns.antt the parts of a turn (_gen_think, _gen_tool_read, _gen_text; Synth/Turns/Edit.antt
--     _gen_tool_edit),
--     Synth/Generate.antt the state of a repo, a turn and its record, and Synth/Generate/Loop.antt the
--     loop of generate. A function that draws numbers is a computation of Random.antt, from the state of
--     the numbers to a result and their next state. Synth/Generate/Readable.antt and
--     Synth/Generate/Replayed.antt follow what is written through read_traces and run_replay.
--
-- How Python is read: a dict is an association list in insertion order (Prelude/Dict), so that the
-- eviction of the oldest entry and the order of iteration are those of the source. The objects that
-- the source changes in place are returned and filed again under their key; `_apply` keeps a span
-- object from before its loop, and the model looks the same key up after it. An exception is an
-- error of the Result type (Result.antt lists them). Parameters that the source has as int are
-- naturals, so `queue_cap <= 0` is `queue_cap == 0`. Nearly every loop is a structural recursion
-- over the list that the source iterates over; `drain` recurses over the queue, to which `_apply`
-- adds nothing, and `oracle_accept` over the truth, of which every round of its loop takes a token.
-- Two loops have fuel: the one over the positions of a request, as many rounds as tokens, since a
-- round realizes one at least, and the chain of LedgerProposer, as many as its budget, since a
-- round that goes on adds a node. The loop that fills a top-k list runs as often as places are left,
-- since each round adds one.
--
-- Parameters: Floats and Casts (the operations on Python floats and their conversions), Random
-- (random.Random), Hash (blake2b, of which only the size of the digest is assumed) and Faiss (the vector
-- index and the embedding of a context). What is assumed of them stands in records of laws, which the
-- claims that need them name: RandomLaws, that a number drawn from a range is in it, and that a fraction
-- squared and multiplied by an n below 2 ^ 52 has a floor below n; DivLaws in Gates/Verdicts.antt, that
-- a division raises for a divisor equal to 0 only, which a positive float is not; and FaissLaws in
-- Proposers/Dense/Batches.antt. Nothing is assumed of the hash but the size of its digests: the claim on
-- scope ids takes as a hypothesis that the two texts at hand have different digests, and the claims on the
-- arena leave open the case that the arena holds, at the very offset in question, other tokens of the
-- same content hash.
--
-- Not modelled: the JSON and gzip layers of snapshot and load (the order in which the members of a
-- JSON object come back is a parameter, Sorting), SuffixAutomaton and recurrence_stats (the loops of the
-- automaton end only by an invariant on the texts of its states; the rate that the judgement of a gate
-- takes from them is an argument), the files, the JSON and the text hashes of traces, the construction
-- of proposers and of parameters from a config, the run of an experiment and its report, and analysis/,
-- scripts/ and bench/.
pub mod Prelude
pub mod Bits
pub mod Floats
pub mod Random
pub mod Hash
pub mod Signature
pub mod Result
pub mod Backoff
pub mod Types
pub mod Arena
pub mod Store
pub mod Convert
pub mod Proposers
pub mod Replay
pub mod Synth
pub mod Gates
pub mod Tests
pub mod Hot
