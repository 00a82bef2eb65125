-- ===== src/Synth/Generate/Readable.antt =====
-- From `generate` of sim/synth.py to `read_traces` of sim/convert.py: what is written is read back.
use speculation_ledger.Prelude.{
  ℕ, suc, ◌*◌, ◌≡◌, refl, ap, ◌∙◌, Bool, List, [], ◌∷◌, arith, length, All,
}
use speculation_ledger.Floats.{Floats, Casts}
use speculation_ledger.Random.{Random, RandomLaws}
use speculation_ledger.Hash.{Blake2b}
use speculation_ledger.Result.{ok}
use speculation_ledger.Types.{Str}
use speculation_ledger.Convert.{RawRecord, TraceRequest}
use speculation_ledger.Convert.Normalize.{normalize_record}
use speculation_ledger.Convert.Normalize.Aligned.{normalize_record-listed}
use speculation_ledger.Convert.Read.{read_all, read_traces, sort_requests}
use speculation_ledger.Convert.Read.Reading.{
  IsAligned, InTime, All-sort_requests, sort_requests-InTime, tokens_in, sort_requests-counts,
}
use speculation_ledger.Synth.{SynthParams}
use speculation_ledger.Synth.Specs.{TurnSpec, turn_specs, sort_specs}
use speculation_ledger.Synth.Specs.Counted.{IsSpec, turn_specs-Loop}
use speculation_ledger.Synth.Turns.Even.{IsUsable}
use speculation_ledger.Synth.Generate.{record_of}
use speculation_ledger.Synth.Generate.Records.{IsRecord, record_of-IsRecord, record_of-tokens}
use speculation_ledger.Synth.Generate.Worlds.{Tracked}
use speculation_ledger.Synth.Generate.Loop.{World, Written, add_written, write_turns, generate}
use speculation_ledger.Synth.Generate.Valid.{turn_of-IsTurn}

-- What was written is read back, without a bad record: as many requests as records, aligned, and with
-- as many tokens as were counted.
pub record ReadsBack (out : Written) : Type 0 where
  pub reqs : List TraceRequest
  pub read : (strict : Bool) → read_all strict out.records ≡ ok reqs
  pub aligned : All IsAligned reqs
  pub length_reqs : length reqs ≡ length out.records
  pub tokens : tokens_in reqs ≡ out.total_tokens

add_written-ReadsBack :
    (rec : RawRecord) (tokens : List ℕ) (out : Written)
    → IsRecord rec
    → ((req : TraceRequest) → normalize_record rec ≡ ok req → req.tokens ≡ tokens)
    → ReadsBack out
    → ReadsBack (add_written rec (length tokens) out)
unfolding read_all
add_written-ReadsBack rec tokens out r same b =
    let (req, e, aligned, _) = normalize_record-listed rec r.events.0 r.valid r.events.1 in
    record {
      reqs = req ∷ b.reqs;
      read = λ strict. rw (r.valid, read_all, e, b.read strict) refl;
      aligned = (aligned, b.aligned);
      length_reqs = ap suc b.length_reqs;
      tokens = omega (arith, ap (λ (ts : List ℕ). length ts) (same req e), b.tokens);
    }

module _ (fl : Floats) (casts : Casts fl) (rnd : Random fl) (laws : RandomLaws rnd casts)
    (h : Blake2b) (p : SynthParams fl) (u : IsUsable p) (tokenizer_hash : Str) where
  -- What a run writes.
  record Good (n : ℕ) (out : Written) : Type 0 where
    records : All IsRecord out.records
    counted : out.n_records ≡ n
    length_records : length out.records ≡ n
    back : ReadsBack out

  write_turns-Good :
      (ts : ℕ) (ss : List TurnSpec) (w : World)
      → All IsSpec ss
      → Tracked p w
      → (out : Written) × (write_turns fl casts rnd h p tokenizer_hash ts ss w ≡ ok out)
        × Good (length ss) out
  unfolding write_turns read_all
  write_turns-Good ts [] w a tracked = (
    _,
    refl,
    record {
      records = tt;
      counted = refl;
      length_records = refl;
      back = record {
        reqs = [];
        read = λ strict. refl;
        aligned = tt;
        length_reqs = refl;
        tokens = refl;
      };
    },
  )
  write_turns-Good ts (s ∷ ss) w a tracked =
      let (t, e, turn, tracked') = turn_of-IsTurn fl casts rnd laws h p u s w a.0 tracked in
      let (out, e', good) = write_turns-Good (suc ts) ss _ a.1 tracked' in
      let rec = record_of tokenizer_hash ts s t.req t.steps in
      let r = record_of-IsRecord tokenizer_hash ts s t.req t.steps turn.0 turn.2.events in
      (
        add_written rec (length t.req.tokens) out,
        rw (e, e') refl,
        record {
          records = (r, good.records);
          counted = ap suc good.counted;
          length_records = ap suc good.length_records;
          back =
              add_written-ReadsBack rec t.req.tokens out r
                (λ req made.
                  record_of-tokens tokenizer_hash ts s t.req t.steps t.req.tokens turn.1 r.events
                    made)
                good.back;
        },
      )

  -- How many turns the parameters ask for.
  abbrev pub turns_in : ℕ
  turns_in = p.tenants * (p.repos * (p.sessions_per_repo * p.turns_per_session))

  generate-Good :
      (out : Written) × (generate fl casts rnd h p tokenizer_hash ≡ ok out) × Good turns_in out
  unfolding generate
  generate-Good =
      let (a, size) = turn_specs-Loop p in
      let start : Tracked p (record { states = []; last_path = [] }) = record {
        states = λ repo e. absurd (cc);
        last_path = λ repo si e. absurd (cc);
      } in
      let (out, e, good) = write_turns-Good 0 (sort_specs (turn_specs p)) _ a start in
      (
        out,
        e,
        record {
          records = good.records;
          counted = good.counted ∙ size;
          length_records = good.length_records ∙ size;
          back = good.back;
        },
      )

  -- For usable parameters and lawful random numbers, the generator returns. It writes as many records as
  -- the parameters ask for turns and counts them rightly, the check of records has no complaint of any
  -- of them, and their events have their keys.
  pub generate-IsRecord :
      (out : Written) × (generate fl casts rnd h p tokenizer_hash ≡ ok out)
      × All IsRecord out.records
      × (out.n_records ≡ turns_in)
      × (length out.records ≡ turns_in)
  generate-IsRecord =
      let (out, e, good) = generate-Good in
      (out, e, good.records, good.counted, good.length_records)

  -- What the generator writes, with usable parameters and lawful random numbers, the strict reader takes:
  -- it gives a request for each turn, aligned and in the order of time, and all their tokens together are
  -- as many as the generator counted.
  pub generate-read_traces :
      (out : Written) × (reqs : List TraceRequest) × (generate fl casts rnd h p tokenizer_hash
        ≡ ok out)
      × ((strict : Bool) → read_traces strict out.records ≡ ok reqs)
      × All IsAligned reqs
      × InTime reqs
      × (length reqs ≡ turns_in)
      × (tokens_in reqs ≡ out.total_tokens)
  unfolding read_traces
  generate-read_traces =
      let (out, e, good) = generate-Good in
      let back = good.back in
      let (many, sum) = sort_requests-counts back.reqs in
      (
        out,
        sort_requests back.reqs,
        e,
        λ strict. rw (back.read strict) refl,
        All-sort_requests IsAligned back.reqs back.aligned,
        sort_requests-InTime back.reqs,
        many ∙ (back.length_reqs ∙ good.length_records),
        sum ∙ back.tokens,
      )
