-- ===== src/Hot.antt =====
-- `HotEntry` of core/store.py. A method returns the entry after its changes. `q8` is -1 where the
-- source has -1, for a candidate that no top-k list has shown yet.
pub mod Evict
pub mod Capacity
pub mod Counts
pub mod Cache
pub mod Ok
use speculation_ledger.Prelude.{
  ℕ, zero, suc, ◌+◌, ◌*◌, ◌/◌, ◌≡◌, min, Bool, true, false, ◌&&◌, ◌||◌, not, Option, none, some,
  List, [], ◌∷◌, ltb, leb, ◌==◌, if◌then◌else◌, length, map,
}
use speculation_ledger.Prelude.Int.{ℤ, pos, negsuc}
use speculation_ledger.Prelude.Dict.{Dict, lookup, contains, insert, erase}
use speculation_ledger.Floats.{Floats}

abbrev pub u16_max : ℕ
u16_max = 0xFFFF

-- `[acc u16, rej u16, logp q8]`
pub record Cand : Type 0 where
  pub acc : ℕ
  pub rej : ℕ
  pub q8 : ℤ

abbrev pub fresh : Cand
fresh = record { acc = 0; rej = 0; q8 = negsuc 0 }

-- What `sources_view` returns: the candidates as (tok, acc, rej, q8), Σ(acc + rej) and Σacc.
pub record View : Type 0 where
  pub cands : List (ℕ × ℕ × ℕ × ℕ)
  pub total : ℕ
  pub total_acc : ℕ

-- `q if q >= 0 else 256`
abbrev pub q_rank : ℤ → ℕ
q_rank (pos q) = q
q_rank (negsuc _) = 256

-- `q if q >= 0 else 255`
abbrev pub q_seen : ℤ → ℕ
q_seen (pos q) = q
q_seen (negsuc _) = 255

-- `rank(x) < rank(y)` for rank = (acc + rej, -q_rank, -tok), compared as tuples are.
unfoldable pub rank_lt : ℕ × Cand → ℕ × Cand → Bool
rank_lt (t, c) (t', c') =
    let m = c.acc + c.rej in
    let m' = c'.acc + c'.rej in
    let r = q_rank c.q8 in
    let r' = q_rank c'.q8 in ltb m m' || (m == m' && (ltb r' r || (r == r' && ltb t' t)))

-- One round of `_evict_weakest`'s loop on the pair (worst, victim).
unfoldable pub weaker : Option (ℕ × Cand) → ℕ × Cand → Option (ℕ × Cand)
unfolding rank_lt
weaker none e = some e
weaker (some w) e = if rank_lt e w then some e else some w

unfoldable pub weakest : ℕ → Option (ℕ × Cand) → Dict Cand → Option (ℕ × Cand)
weakest protect worst [] = worst
weakest protect worst (e ∷ d) = weakest protect (if e.0 == protect then worst else weaker worst e) d

unfoldable pub evict_weakest : ℕ → Dict Cand → Dict Cand
evict_weakest protect d = elim (weakest protect none d) [ none ↦ d | some v ↦ erase v.0 d ]

-- Writes through the list that `_ensure` returned.
abbrev pub adjust : ℕ → (Cand → Cand) → Dict Cand → Dict Cand
adjust k f [] = []
adjust k f (e ∷ d) = if k == e.0 then (e.0, f e.1) ∷ d else e ∷ adjust k f d

abbrev pub count_accepted : Cand → Cand
count_accepted c = if ltb c.acc u16_max then record c { acc = c.acc + 1 } else c

abbrev pub count_rejected : Cand → Cand
count_rejected c = if ltb c.rej u16_max then record c { rej = c.rej + 1 } else c

-- `t in obs`
abbrev pub seen : ℕ → List ℕ → Bool
seen t [] = false
seen t (i ∷ ids) = t == i || seen t ids

-- The decay of a candidate that the observed top-k list leaves out.
abbrev pub decay_q : ℤ → ℤ
decay_q (pos q) = pos (if ltb q 240 then q + 16 else 255)
decay_q (negsuc n) = negsuc n

abbrev pub decay_unseen : List ℕ → Dict Cand → Dict Cand
decay_unseen ids [] = []
decay_unseen ids ((t, c) ∷ d) =
    (t, if seen t ids then c else record c { q8 = decay_q c.q8 }) ∷ decay_unseen ids d

-- `int(q) if c[2] < 0 else (3 * c[2] + int(q)) >> 2`
abbrev pub blend_q : ℤ → ℕ → ℤ
blend_q (negsuc _) q = pos q
blend_q (pos old) q = pos ((3 * old + q) / 4)

-- `sum(1 for t in ids if t in cands)`
unfoldable pub covered : List ℕ → Dict Cand → ℕ
covered [] d = 0
covered (t ∷ ids) d = (if contains t d then 1 else 0) + covered ids d

unfoldable pub view_cands : Dict Cand → List (ℕ × ℕ × ℕ × ℕ)
view_cands [] = []
view_cands ((t, c) ∷ d) = (t, c.acc, c.rej, q_seen c.q8) ∷ view_cands d

-- The loop of `sources_view` over the tuples, with its two sums.
unfoldable pub view_totals : ℕ → ℕ → List (ℕ × ℕ × ℕ × ℕ) → ℕ × ℕ
view_totals total total_acc [] = (total, total_acc)
view_totals total total_acc ((_, a, r, _) ∷ cs) = view_totals (total + (a + r)) (total_acc + a) cs

unfoldable pub compute_view : Dict Cand → View
unfolding view_cands view_totals
compute_view d =
    let cs = view_cands d in
    let (total, total_acc) = view_totals 0 0 cs in
    record { cands = cs; total = total; total_acc = total_acc }

-- `total_count()`
unfoldable pub total_count : Dict Cand → ℕ
total_count [] = 0
total_count ((_, c) ∷ d) = c.acc + c.rej + total_count d

module _ (fl : Floats) where
  open fl use {F, ratio, plus, times, lt}

  pub record HotEntry : Type 0 where
    pub key : ℕ
    pub seg : ℕ
    pub dom : ℕ
    pub scope_id : ℕ
    pub epoch : ℕ
    pub k_cap : ℕ
    pub cov_ema : F
    pub cands : Dict Cand
    pub src : Option View

  abbrev one : F
  one = ratio 1 1

  -- `HotEntry(key, seg, dom, scope_id, epoch, k_init)`
  unfoldable pub new_entry : ℕ → ℕ → ℕ → ℕ → ℕ → ℕ → HotEntry
  new_entry key seg dom scope_id epoch k_init = record {
    key = key;
    seg = seg;
    dom = dom;
    scope_id = scope_id;
    epoch = epoch;
    k_cap = k_init;
    cov_ema = one;
    cands = [];
    src = none;
  }

  unfoldable pub reset : HotEntry → ℕ → ℕ → HotEntry
  reset e epoch dom = record e { cands = []; epoch = epoch; dom = dom; cov_ema = one; src = none }

  -- `self.cov_ema < cov_target and self.k_cap < k_max`
  abbrev pub may_grow : HotEntry → ℕ → F → Bool
  may_grow e k_max cov_target = lt e.cov_ema cov_target && ltb e.k_cap k_max

  abbrev pub grow : HotEntry → ℕ → HotEntry
  grow e k_max = record e { k_cap = min k_max (e.k_cap * 2) }

  -- The room that `_ensure` makes for a new candidate.
  unfoldable pub make_room : HotEntry → ℕ → ℕ → F → HotEntry
  make_room e tok k_max cov_target =
      if leb e.k_cap (length e.cands)
      then if may_grow e k_max cov_target
        then grow e k_max
        else record e { cands = evict_weakest tok e.cands }
      else e

  unfoldable pub ensure : HotEntry → ℕ → ℕ → F → HotEntry
  ensure e tok k_max cov_target = elim (lookup tok e.cands) [
    | none ↦
        let r = make_room e tok k_max cov_target in record r { cands = insert tok fresh r.cands }
    | some _ ↦ e
  ]

  unfoldable pub update_realized : HotEntry → ℕ → ℕ → F → HotEntry
  update_realized e tok k_max cov_target =
      let r = ensure e tok k_max cov_target in
      record r { cands = adjust tok count_accepted r.cands; src = none }

  unfoldable pub update_rejected : HotEntry → ℕ → ℕ → F → HotEntry
  update_rejected e tok k_max cov_target =
      let r = ensure e tok k_max cov_target in
      record r { cands = adjust tok count_rejected r.cands; src = none }

  -- One round of `merge_topk`'s last loop.
  unfoldable pub merge_one : HotEntry → ℕ → ℕ → ℕ → F → HotEntry
  merge_one e t q k_max cov_target = elim (lookup t e.cands) [
    | some c ↦ record e { cands = adjust t (λ c. record c { q8 = blend_q c.q8 q }) e.cands }
    | none ↦
        let seen_once = record fresh { q8 = pos q } in
        if leb e.k_cap (length e.cands)
        then if may_grow e k_max cov_target
          then record (grow e k_max) { cands = insert t seen_once e.cands }
          else e
        else record e { cands = insert t seen_once e.cands }
  ]

  -- `zip` stops at the shorter list.
  unfoldable pub merge_all : HotEntry → List ℕ → List ℕ → ℕ → F → HotEntry
  merge_all e [] qs k_max cov_target = e
  merge_all e (t ∷ ids) [] k_max cov_target = e
  merge_all e (t ∷ ids) (q ∷ qs) k_max cov_target =
      merge_all (merge_one e t q k_max cov_target) ids qs k_max cov_target

  unfoldable pub merge_topk : HotEntry → List ℕ → List ℕ → ℕ → F → HotEntry
  merge_topk e [] q8s k_max cov_target = e
  merge_topk e (t ∷ ts) q8s k_max cov_target =
      let ids = t ∷ ts in
      let cov = ratio (covered ids e.cands) (length ids) in
      let ema = plus (times (ratio 75 100) e.cov_ema) (times (ratio 25 100) cov) in
      let decayed = record e { cov_ema = ema; cands = decay_unseen ids e.cands } in
      record (merge_all decayed ids q8s k_max cov_target) { src = none }

  -- The view, and the entry with its cache filled.
  unfoldable pub sources_view : HotEntry → View × HotEntry
  sources_view e = elim e.src [
    | some v ↦ (v, e)
    | none ↦ let v = compute_view e.cands in (v, record e { src = some v })
  ]

  -- `bytes()`
  unfoldable pub entry_bytes : HotEntry → ℕ
  entry_bytes e = 11 + (if e.dom == 0 then 0 else 4) + 9 * length e.cands
