-- ===== src/Replay/Rounds/Record.antt =====
-- What `run_replay` of sim/replay.py tells a proposer in the course of a request: a proposer that
-- also records the outcomes that it harvests.
use speculation_ledger.Prelude.{
  ℕ, ◌+◌, ◌≡◌, refl, ap, sym, ◌∙◌, inl, inr, Bool-cases, List, [], ◌∷◌, ◌++◌, arith, ltb, length,
  take, All, take-add, take-length, length-append,
}
use mathlib.Core.List.{append_assoc, append-nil}
use speculation_ledger.Hash.{Blake2b}
use speculation_ledger.Result.{ok, ◌>>=◌, >>=-eq-ok}
use speculation_ledger.Types.{Scope, VerifyOutcome, realized}
use speculation_ledger.Signature.{new_stack}
use speculation_ledger.Convert.{TraceEvent, TraceRequest, effective_bump_pos}
use speculation_ledger.Proposers.{BaseProposer}
use speculation_ledger.Replay.Requests.{
  is_file_edit, file_ids, RequestMetrics, new_metrics, count_step,
}
use speculation_ledger.Replay.Rounds.{Round, context, advance, fire, fire_reached, replay_request}
use speculation_ledger.Replay.Rounds.Facts.{
  Stepped, outcome, realized-outcome, p-Stepped, rounds-induct,
}
use speculation_ledger.Replay.Rounds.Outcomes.{
  AlignedRequest, IsWellFormed, make_outcome-IsWellFormed,
}
use speculation_ledger.Replay.Rounds.Ends.{IsLawful, rounds-Returns}

-- The proposer P, with the outcomes that it has harvested.
abbrev pub recording : {S : Type 0} → BaseProposer S → BaseProposer (List VerifyOutcome × S)
recording P = record {
  begin_request = λ scope r. P.begin_request scope r.1 >>= (λ st. ok (r.0, st));
  propose = λ ctx r. P.propose ctx r.1 >>= (λ d. ok (d.0, (r.0, d.1)));
  harvest = λ ev r. P.harvest ev r.1 >>= (λ st. ok (r.0 ++ ev ∷ [], st));
  end_request = λ r. P.end_request r.1 >>= (λ st. ok (r.0, st));
  bump_epoch = λ scope file r. (r.0, P.bump_epoch scope file r.1);
}

-- All the tokens that the outcomes say were realized.
abbrev pub all_realized : List VerifyOutcome → List ℕ
all_realized [] = []
all_realized (ev ∷ evs) = realized ev ++ all_realized evs

all_realized-append_one :
    (evs : List VerifyOutcome) (ev : VerifyOutcome)
    → all_realized (evs ++ ev ∷ []) ≡ all_realized evs ++ realized ev
all_realized-append_one [] ev = append-nil (realized ev)
all_realized-append_one (e ∷ evs) ev =
    ap (λ xs. realized e ++ xs) (all_realized-append_one evs ev)
    ∙ sym (append_assoc (realized e) (all_realized evs) (realized ev))

All-append_one :
    {A : Type 0} (Q : A → Type 0) (xs : List A) (x : A) → All Q xs → Q x → All Q (xs ++ x ∷ [])
All-append_one Q [] x a q = (q, tt)
All-append_one Q (y ∷ xs) x a q = (a.0, All-append_one Q xs x a.1 q)

module _ (h : Blake2b) {S : Type 0} (P : BaseProposer S) where
  fire-log :
      (scope : Scope) (e : TraceEvent) (r : List VerifyOutcome × S)
      → (fire h (recording P) scope e r).0 ≡ r.0
  unfolding fire
  fire-log scope e r = elim (Bool-cases (is_file_edit e)) [
    | inl edit ↦ rw edit refl
    | inr other ↦ rw other refl
  ]

  fire_reached-log :
      (scope : Scope) (reached : ℕ) (evs : List TraceEvent) (r : List VerifyOutcome × S)
      → (fire_reached h (recording P) scope reached evs r).1.0 ≡ r.0
  unfolding fire_reached
  fire_reached-log scope reached [] r = refl
  fire_reached-log scope reached (e ∷ evs) r =
      elim (Bool-cases (ltb (effective_bump_pos e) reached)) [
        | inl now ↦ rw now (
            fire_reached-log scope reached evs (fire h (recording P) scope e r)
            ∙ fire-log scope e r)
        | inr later ↦ rw later refl
      ]

  module _ (req : TraceRequest) (fids : List ℕ) (budget : ℕ) where
    -- The recorded outcomes tell the tokens before p, one outcome for each step.
    record Told (s : Round (List VerifyOutcome × S)) : Type 0 where
      tokens : all_realized s.proposer.0 ≡ take s.p req.tokens
      steps : length s.proposer.0 ≡ s.metrics.steps
      formed : All IsWellFormed s.proposer.0

    Stepped-log :
        {s s' : Round (List VerifyOutcome × S)} (t : Stepped h (recording P) req fids budget s s')
        → s'.proposer.0 ≡ s.proposer.0 ++ outcome h (recording P) req fids budget t ∷ []
    unfolding advance
    Stepped-log {s} t =
        let (d, e1, r1) =
          >>=-eq-ok (P.propose (context h (recording P) req fids budget t.seg s) s.proposer.1) _
            t.proposed in
        let (st, e2, r2) =
          >>=-eq-ok (P.harvest (outcome h (recording P) req fids budget t) t.drafted.1) _
            t.harvested in
        let kept : s.proposer.0 ≡ t.drafted.0 = cc in
        let told : t.drafted.0 ++ outcome h (recording P) req fids budget t ∷ [] ≡ t.taught.0 =
          cc in
        rw (← t.advanced) (
          fire_reached-log req.scope (s.p + (t.acc + 1)) s.events t.taught
          ∙ sym told
          ∙ ap (λ xs. xs ++ outcome h (recording P) req fids budget t ∷ []) (sym kept))

    Stepped-Told :
        AlignedRequest req
        → (s s' : Round (List VerifyOutcome × S)) → Stepped h (recording P) req fids budget s s'
        → Told s
        → Told s'
    unfolding advance count_step
    Stepped-Told a s s' t told =
        let ev = outcome h (recording P) req fids budget t in
        let one_more : s'.metrics.steps ≡ s.metrics.steps + 1 = rw (← t.advanced) refl in
        rw (Stepped-log t) (record {
          tokens =
              all_realized-append_one s.proposer.0 ev
              ∙ rw (told.tokens, realized-outcome h (recording P) req fids budget t)
                  (take-add s.p (t.acc + 1) req.tokens)
              ∙ ap (λ k. take k req.tokens) (sym (p-Stepped h (recording P) req fids budget t));
          steps = omega (arith, length-append s.proposer.0 (ev ∷ []), told.steps, one_more);
          formed = All-append_one IsWellFormed s.proposer.0 ev told.formed (
              make_outcome-IsWellFormed req fids s.p t.acc t.path t.rej_tok t.bonus a t.fits
                t.acc_path);
        })

  recording-IsLawful :
      (Inv : S → Type 0)
      → IsLawful P Inv
      → IsLawful (recording P) (λ (r : List VerifyOutcome × S). Inv r.1)
  recording-IsLawful Inv l = record {
    begin_request =
        λ scope r v. let (st, e, v') = l.begin_request scope r.1 v in ((r.0, st), rw e refl, v');
    propose = λ ctx r v.
        let ((tree, st), e, v') = l.propose ctx r.1 v in ((tree, (r.0, st)), rw e refl, v');
    harvest =
        λ ev r w v. let (st, e, v') = l.harvest ev r.1 w v in ((r.0 ++ ev ∷ [], st), rw e refl, v');
    end_request = λ r v. let (st, e, v') = l.end_request r.1 v in ((r.0, st), rw e refl, v');
    bump_epoch = λ scope file r v. l.bump_epoch scope file r.1 v;
  }

  -- Against a lawful proposer that records what it harvests, the replay of a request whose lists are
  -- aligned returns. The recorded outcomes are well-formed, one for each step that is counted, and the
  -- tokens that they say were realized are, one after another, all the tokens of the request.
  pub replay_request-all_realized :
      (Inv : S → Type 0) (lawful : IsLawful P Inv) (budget : ℕ) (req : TraceRequest) (st : S)
      → AlignedRequest req
      → Inv st
      → (rm : RequestMetrics) × (log : List VerifyOutcome) × (st' : S) × (replay_request h
            (recording P)
            budget
            req
            ([], st)
          ≡ ok (rm, (log, st')))
        × (all_realized log ≡ req.tokens)
        × (length log ≡ rm.steps)
        × All IsWellFormed log
  unfolding replay_request
  replay_request-all_realized Inv lawful budget req st a v =
      let R = recording P in
      let l = recording-IsLawful Inv lawful in
      let (st₁, e, v₁) = lawful.begin_request req.scope st v in
      let s : Round (List VerifyOutcome × S) = record {
        p = 0;
        sigs = new_stack;
        recent = [];
        events = req.events;
        metrics = new_metrics req;
        proposer = ([], st₁);
      } in
      let (s', e', v', c, done) =
        rounds-Returns h R (λ r. Inv r.1) l req (file_ids h req) budget (length req.tokens) s a
          (omega arith) v₁
          (record {
            tokens_p = refl;
            inside = omega arith;
            steps = omega arith;
            drafted = omega arith;
          }) in
      let told : Told req (file_ids h req) budget s' =
        rounds-induct h R req (file_ids h req) budget (Told req (file_ids h req) budget)
          (λ x y inside t q. Stepped-Told req (file_ids h req) budget a x y t q) (length req.tokens)
          s s' e' (record { tokens = refl; steps = refl; formed = tt }) in
      let (st₂, e'', v'') = lawful.end_request s'.proposer.1 v' in
      (
        s'.metrics,
        s'.proposer.0,
        st₂,
        rw (e, e', e'') refl,
        told.tokens ∙ ap (λ k. take k req.tokens) done ∙ take-length req.tokens,
        told.steps,
        told.formed,
      )
