-- ===== src/Signature/Rolling.antt =====
-- The incremental signatures agree with `sig_of` over the last tokens of the stream.
use mathlib.Core.List.{map, append_assoc, append-nil}
use mathlib.Core.Path.{ap₂}
use native.Mathlib.Numerals.{add-one}
use native.Mathlib.Decide.{dec_lt}
use speculation_ledger.Prelude.{
  ℕ, zero, suc, ◌+◌, ◌-◌, ◌*◌, ◌≤◌, ◌<◌, min, ◌≡◌, refl, sym, ap, ◌∙◌, arith, List, [], ◌∷◌, ◌++◌,
  length, get_or, set, range, range_from, last, drop, length-append, length-set, get_or-set,
  drop-append_of_le,
}
use speculation_ledger.Signature.{
  u64, mult, min_order, max_order, fmix64, sig_step, sig_from, sig_of, RollingSigStack, new_stack,
  roll, push, push_many, stack_list,
}
use speculation_ledger.Signature.Mix.{unmix-fmix64}

sig_from-append : (h : ℕ) (xs ys : List ℕ) → sig_from h (xs ++ ys) ≡ sig_from (sig_from h xs) ys
unfolding sig_from
sig_from-append h [] ys = refl
sig_from-append h (x ∷ xs) ys = sig_from-append (sig_step h x) xs ys

sig_of-nil : sig_of [] ≡ 0
unfolding sig_of sig_from
sig_of-nil = refl

-- The recurrence of the source's comment: one more token extends a window's signature.
pub sig_of-snoc :
    (xs : List ℕ) (t : ℕ) → sig_of (xs ++ t ∷ []) ≡ u64 (sig_of xs * mult + fmix64 (t + 1))
unfolding sig_of sig_from
sig_of-snoc xs t = sig_from-append 0 xs (t ∷ [])

sig_of-single : (t : ℕ) → sig_of ([] ++ t ∷ []) ≡ fmix64 (t + 1)
sig_of-single t = sig_of-snoc [] t ∙ omega (arith, sig_of-nil, (unmix-fmix64 (t + 1)).1)

length-roll : (k m : ℕ) (s : List ℕ) → length (roll k m s) ≡ length s
unfolding roll
length-roll zero m s = refl
length-roll (suc k) m s = length-roll k m _ ∙ length-set s (suc (suc k)) _

-- A round writes one place from the place below it, which no earlier round has written.
get_or-roll_above :
    (k m o : ℕ) (s : List ℕ) → suc k < length s → suc k < o → get_or (roll k m s) o 0 ≡ get_or s o 0
unfolding roll
get_or-roll_above zero m o s h above = refl
get_or-roll_above (suc k) m o s h above =
    let v = u64 (get_or s (suc k) 0 * mult + m) in
    get_or-roll_above k m o (set s (suc (suc k)) v) (omega (arith, length-set s (suc (suc k)) v))
      (omega arith)
    ∙ ground (arith, get_or-set s (suc (suc k)) o v 0)

get_or-roll :
    (k m o : ℕ) (s : List ℕ)
    → suc k < length s
    → o < k
    → get_or (roll k m s) (suc (suc o)) 0 ≡ u64 (get_or s (suc o) 0 * mult + m)
unfolding roll
get_or-roll zero m o s h below = absurd (omega arith)
get_or-roll (suc k) m o s h below =
    let v = u64 (get_or s (suc k) 0 * mult + m) in
    let written = get_or-set s (suc (suc k)) in
    let fits = length-set s (suc (suc k)) v in
    elim (dec_lt o k) [
      | yes p ↦
          get_or-roll k m o (set s (suc (suc k)) v) (omega (arith, fits)) p
          ∙ ground (arith, written (suc o) v 0)
      | no p ↦
          let e : o ≡ k = omega arith in
          rw e (
            get_or-roll_above k m (suc (suc k)) (set s (suc (suc k)) v) (omega (arith, fits))
              (omega arith)
            ∙ ground (arith, written (suc (suc k)) v 0))
    ]

last-snoc :
    (o : ℕ) (xs : List ℕ) (t : ℕ)
    → o ≤ length xs
    → last (suc o) (xs ++ t ∷ []) ≡ last o xs ++ t ∷ []
last-snoc o xs t h =
    let e : length (xs ++ t ∷ []) - suc o ≡ length xs - o =
      omega (arith, length-append xs (t ∷ [])) in
    rw e (drop-append_of_le (length xs - o) xs (t ∷ []) (omega arith))

drop-length : (xs : List ℕ) → drop (length xs) xs ≡ []
drop-length [] = refl
drop-length (x ∷ xs) = drop-length xs

last-zero : (xs : List ℕ) → last 0 xs ≡ []
last-zero xs = let e : length xs - 0 ≡ length xs = omega arith in rw e (drop-length xs)

-- After the tokens `hist`, each place up to `max_order` that the stream is long enough for holds
-- the signature of the stream's last tokens.
pub record Tracks (st : RollingSigStack) (hist : List ℕ) : Type 0 where
  pub counted : st.n ≡ length hist
  pub width : length st.sigs ≡ suc max_order
  pub windows :
      (o : ℕ)
      → o < max_order
      → suc o ≤ length hist
      → get_or st.sigs (suc o) 0 ≡ sig_of (last (suc o) hist)

pub Tracks-new : Tracks new_stack []
unfolding new_stack
Tracks-new = record { counted = refl; width = refl; windows = λ o h p. absurd (omega arith) }

window-push :
    (st : RollingSigStack) (hist : List ℕ) (t o : ℕ)
    → Tracks st hist
    → o < max_order
    → suc o ≤ length (hist ++ t ∷ [])
    → get_or (push st t).sigs (suc o) 0 ≡ sig_of (last (suc o) (hist ++ t ∷ []))
unfolding push
window-push st hist t zero tr h p =
    let m = fmix64 (t + 1) in
    let rolled = roll (max_order - 1) m st.sigs in
    get_or-set rolled 1 1 m 0 (omega (arith, length-roll 7 m st.sigs, tr.width))
    ∙ sym (
        ap sig_of
          (last-snoc 0 hist t (omega arith) ∙ ap (λ (xs : List ℕ). xs ++ t ∷ []) (last-zero hist))
        ∙ sig_of-single t)
window-push st hist t (suc o) tr h p =
    let m = fmix64 (t + 1) in
    let rolled = roll (max_order - 1) m st.sigs in
    let fits : suc o ≤ length hist = omega (arith, length-append hist (t ∷ [])) in
    ground (arith, get_or-set rolled 1 (suc (suc o)) m 0, length-roll 7 m st.sigs, tr.width)
    ∙ get_or-roll 7 m o st.sigs (omega (arith, tr.width)) (omega arith)
    ∙ ap (λ (w : ℕ). u64 (w * mult + m)) (tr.windows o (omega arith) fits)
    ∙ sym (ap sig_of (last-snoc (suc o) hist t fits) ∙ sig_of-snoc (last (suc o) hist) t)

pub Tracks-push :
    (st : RollingSigStack) (hist : List ℕ) (t : ℕ)
    → Tracks st hist
    → Tracks (push st t) (hist ++ t ∷ [])
unfolding push
Tracks-push st hist t tr = record {
  counted = omega (arith, length-append hist (t ∷ []), tr.counted);
  width = length-set _ 1 _ ∙ length-roll 7 _ st.sigs ∙ tr.width;
  windows = λ o h p. window-push st hist t o tr h p;
}

pub Tracks-push_many :
    (st : RollingSigStack) (hist toks : List ℕ)
    → Tracks st hist
    → Tracks (push_many st toks) (hist ++ toks)
unfolding push_many
Tracks-push_many st hist [] tr = rw append-nil tr
Tracks-push_many st hist (t ∷ toks) tr =
    rw (append_assoc hist (t ∷ []) toks) at
      (Tracks-push_many (push st t) (hist ++ t ∷ []) toks (Tracks-push st hist t tr))

windows_agree :
    (st : RollingSigStack) (hist : List ℕ) (lo k : ℕ)
    → Tracks st hist
    → k ≤ min (length hist) max_order - lo
    → map (λ o. get_or st.sigs o 0) (range_from (suc lo) k)
      ≡ map (λ o. sig_of (last o hist)) (range_from (suc lo) k)
windows_agree st hist lo zero tr h = refl
windows_agree st hist lo (suc k) tr h =
    ap₂ ◌∷◌ (tr.windows lo (omega arith) (omega arith))
      (windows_agree st hist (suc lo) k tr (omega arith))

-- After any tokens have been pushed on a new stack, `stack_list` is the list of the signatures that
-- the non-incremental `sig_of` gives for the last 2, 3, ... tokens, up to the smaller of 8 and the
-- number of tokens.
pub stack_list-push_many :
    (toks : List ℕ)
    → stack_list (push_many new_stack toks)
      ≡ map (λ o. sig_of (last o toks)) (range min_order (suc (min (length toks) max_order)))
unfolding stack_list
stack_list-push_many toks =
    let tr = Tracks-push_many new_stack [] toks Tracks-new in
    rw (tr.counted, add-one)
      (windows_agree (push_many new_stack toks) toks 1 (suc (min (length toks) max_order) - 2) tr
        (omega arith))
