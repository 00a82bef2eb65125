-- ===== src/Store/Apply/Keeps.antt =====
-- What every update of an entry and every step of a run keeps, `_apply` keeps.
use speculation_ledger.Prelude.{
  ℕ, suc, ◌≡◌, inl, inr, none, some, List, [], ◌∷◌, arith, leb, Bool-cases, Option-cases,
}
use speculation_ledger.Floats.{Floats}
use speculation_ledger.Hash.{Blake2b}
use speculation_ledger.Result.{ok, >>=-eq-ok}
use speculation_ledger.Signature.{
  min_order, RollingSigStack, new_stack, push, push_many, stack_list,
}
use speculation_ledger.Types.{VerifyOutcome, scope_ids, realized}
use speculation_ledger.Store.State.{LedgerStore, elem, refresh_sizes}
use speculation_ledger.Store.Spans.{Best, track_run}
use speculation_ledger.Prelude.Dict.{lookup, insert}
use speculation_ledger.Store.Spans.Frame.{IsFramed, framed, aside}
use speculation_ledger.Store.Apply.{
  note_span, Patch, no_patch, seg_at, dom_at, update_entry, update_depths, update_orders, track,
  apply_positions, note_found, count_event, span_at_start, apply,
}

-- The note on the draft's span changes the span table at most.
pub note_found-IsFramed :
    (fl : Floats) (h : Blake2b) (ev : VerifyOutcome) (patch : Patch) (found : Best)
    (st : LedgerStore fl)
    → IsFramed fl st (note_found fl h st ev patch found)
note_found-IsFramed fl h ev patch none st = framed fl st
note_found-IsFramed fl h ev patch (some (key, best)) st =
    elim (Option-cases (lookup key st.spans)) [
      | inl gone ↦ rw (gone, note_found) (framed fl st)
      | inr (s, there) ↦
          rw (there, note_found)
            (aside fl st (insert key (note_span fl h st ev patch s) st.spans) st.arena st.runs)
    ]

module _ (fl : Floats) (h : Blake2b) (ev : VerifyOutcome) (P : LedgerStore fl → Type 0)
    (entry : (pos tok key sid : ℕ) (st st' : LedgerStore fl)
      → update_entry fl ev pos tok key sid st ≡ ok st'
      → P st
      → P st')
    (tracked : (pos tok : ℕ) (sigs : RollingSigStack) (sids : List ℕ) (st st' : LedgerStore fl)
      → track_run fl h ev sigs (seg_at ev pos) (dom_at ev pos) tok sids st ≡ ok st'
      → P st
      → P st') where
  keeps_depths :
      (pos tok sig order depth : ℕ) (sids : List ℕ) (st st' : LedgerStore fl) (patch patch' : Patch)
      → update_depths fl ev pos tok sig order depth sids st patch ≡ ok (st', patch')
      → P st
      → P st'
  unfolding update_depths
  keeps_depths pos tok sig order depth [] st st' patch patch' e p =
      let same : st ≡ st' = ground arith in rw (← same) p
  keeps_depths pos tok sig order depth (sid ∷ sids) st st' patch patch' e p =
      elim (Bool-cases (elem depth st.params.scope_depths)) [
        | inr off ↦
            keeps_depths pos tok sig order (suc depth) sids st st' patch patch' (rw off at e) p
        | inl on ↦
            let (mid, first, rest) = >>=-eq-ok _ _ (rw on at e) in
            keeps_depths pos tok sig order (suc depth) sids mid st' _ patch' rest
              (entry pos tok _ sid st mid first p)
      ]

  keeps_orders :
      (pos tok : ℕ) (sids : List ℕ) (order : ℕ) (sigs : List ℕ) (st st' : LedgerStore fl)
      (patch patch' : Patch)
      → update_orders fl ev pos tok sids order sigs st patch ≡ ok (st', patch')
      → P st
      → P st'
  unfolding update_orders
  keeps_orders pos tok sids order [] st st' patch patch' e p =
      let same : st ≡ st' = ground arith in rw (← same) p
  keeps_orders pos tok sids order (sig ∷ sigs) st st' patch patch' e p =
      elim (Bool-cases (elem order st.params.orders)) [
        | inr off ↦ keeps_orders pos tok sids (suc order) sigs st st' patch patch' (rw off at e) p
        | inl on ↦
            let ((mid, mid_patch), first, rest) = >>=-eq-ok _ _ (rw on at e) in
            keeps_orders pos tok sids (suc order) sigs mid st' mid_patch patch' rest
              (keeps_depths pos tok sig order 0 sids st mid patch mid_patch first p)
      ]

  keeps_track :
      (pos tok : ℕ) (sigs : RollingSigStack) (sids : List ℕ) (st st' : LedgerStore fl)
      → track fl h ev sigs pos tok sids st ≡ ok st'
      → P st
      → P st'
  keeps_track pos tok sigs sids st st' e p = elim (Bool-cases (leb 2 st.params.version)) [
    | inl on ↦ tracked pos tok sigs sids st st' (rw on at e) p
    | inr off ↦ let same : st ≡ st' = ground arith in rw (← same) p
  ]

  keeps_positions :
      (sids : List ℕ) (pos : ℕ) (toks : List ℕ) (sigs : RollingSigStack) (st st' : LedgerStore fl)
      (patch patch' : Patch)
      → apply_positions fl h ev sids pos toks sigs st patch ≡ ok (st', patch')
      → P st
      → P st'
  unfolding apply_positions
  keeps_positions sids pos [] sigs st st' patch patch' e p =
      let same : st ≡ st' = ground arith in rw (← same) p
  keeps_positions sids pos (tok ∷ toks) sigs st st' patch patch' e p =
      let ((mid, mid_patch), first, rest) = >>=-eq-ok _ _ e in
      let (next, second, last) = >>=-eq-ok _ _ rest in
      keeps_positions sids (suc pos) toks (push sigs tok) next st' mid_patch patch' last (
        keeps_track pos tok sigs sids mid next second
          (keeps_orders pos tok sids min_order (stack_list sigs) st mid patch mid_patch first p))

  -- What the last step makes of it, every call of `_apply` that returns makes of it.
  pub keeps_apply :
      (Q : LedgerStore fl → Type 0)
      → ((st : LedgerStore fl) (patch : Patch) (found : Best)
          → P st
          → Q (refresh_sizes fl (count_event fl h (note_found fl h st ev patch found))))
      → (st st' : LedgerStore fl) → apply fl h ev st ≡ ok st'
      → P st
      → Q st'
  unfolding apply
  keeps_apply Q finish st st' e p =
      let sids = scope_ids h ev.scope in
      let sigs = push_many new_stack ev.ctx_tail in
      let ((mid, patch), first, rest) = >>=-eq-ok _ _ e in
      let same : refresh_sizes fl
            (count_event fl h (note_found fl h mid ev patch (span_at_start fl h ev sigs sids st)))
          ≡ st' =
        ground arith in
      rw (← same) (
        finish mid patch _
          (keeps_positions sids 0 (realized ev) sigs st mid no_patch patch first p))
