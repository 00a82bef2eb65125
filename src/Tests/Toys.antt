-- ===== src/Tests/Toys.antt =====
-- A hash, a stand-in for the floats in hundredths, and the inputs of the tests.
use native.Mathlib.Nat.{mod-lt, one-le-pow}
use speculation_ledger.Prelude.{
  ℕ, zero, suc, ◌+◌, ◌-◌, ◌*◌, ◌/◌, ◌%◌, ◌^◌, none, some, List, [], ◌∷◌, arith, ltb, leb, ◌==◌,
  if◌then◌else◌,
}
use speculation_ledger.Prelude.Int.{ℤ, pos, negsuc}
use speculation_ledger.Prelude.Dict.{Dict}
use speculation_ledger.Floats.{Floats, Casts}
use speculation_ledger.Hash.{Blake2b}
use speculation_ledger.Types.{Scope, VerifyOutcome, seg_text}
use speculation_ledger.Hot.{Cand, HotEntry}
use speculation_ledger.Backoff.{BackoffParams}
use speculation_ledger.Store.{StoreParams}

abbrev poly : List ℕ → ℕ
poly [] = 7
poly (b ∷ bytes) = 31 * poly bytes + b

abbrev pub toy_hash : Blake2b
toy_hash = record {
  digest = λ n bytes. poly bytes % 256 ^ n;
  digest-lt = λ n bytes. mod-lt (poly bytes) (omega (arith, one-le-pow n 256 (omega arith)));
}

abbrev total : List ℕ → ℕ
total [] = 0
total (x ∷ xs) = x + total xs

abbrev power : ℕ → ℕ → ℕ
power x zero = 100
power x (suc n) = x * power x n / 100

abbrev pub toy_floats : Floats
toy_floats = record {
  F = ℕ;
  ratio = λ n d. n * 100 / d;
  neg_ratio = λ n d. 0;
  plus = λ x y. x + y;
  minus = λ x y. x - y;
  times = λ x y. x * y / 100;
  div = λ x y. if y == 0 then none else some (x * 100 / y);
  pow = power;
  exp = λ x. x;
  sum = total;
  round_1 = λ x. x / 10 * 10;
  lt = ltb;
  le = leb;
  eq = λ x y. x == y;
}

abbrev pub toy_casts : Casts toy_floats
toy_casts = record {
  neg = λ x. x;
  round = λ x. pos (x / 100);
  round_6 = λ x. x;
  floor = λ x. x / 100;
  inf = 0;
  neg_inf = 0;
}

abbrev pub toy_scope : Scope
toy_scope = record { tenant = b'a' ∷ []; repo = b'r' ∷ []; session = b's' ∷ []; instance_id = [] }

abbrev pub other_scope : Scope
other_scope = record toy_scope { tenant = b'b' ∷ [] }

-- One token drafted and rejected, with two candidates at its place.
abbrev pub toy_event : VerifyOutcome
toy_event = record {
  scope = toy_scope;
  ctx_tail = 5 ∷ 6 ∷ [];
  draft_ids = 8 ∷ [];
  accepted_len = 0;
  bonus_id = 9;
  topk_ids = (9 ∷ 8 ∷ []) ∷ [];
  topk_logp_q8 = (4 ∷ 30 ∷ []) ∷ [];
  seg = seg_text ∷ [];
  file_id = 0;
  t_us = 0;
}

abbrev pub toy_backoff : BackoffParams toy_floats
toy_backoff = record {
  order_decay = 55;
  scope_decay = 35;
  count_prior = 200;
  beta_a = 50;
  beta_b = 50;
  max_cands = 8;
  anno_prior_w = 25;
  p_hat_min_order = 4;
}

abbrev pub toy_params : StoreParams toy_floats
toy_params = record {
  version = 1;
  k_init = 4;
  k_max = 16;
  coverage_target = 90;
  queue_cap = 2;
  max_entries = 3;
  compact_every = 0;
  decay_shift = 1;
  orders = 2 ∷ [];
  scope_depths = 0 ∷ [];
  span_min_len = 6;
  span_max_len = 64;
  span_orders = 4 ∷ 8 ∷ [];
  span_scope_depths = 0 ∷ 1 ∷ [];
  backoff = toy_backoff;
}

abbrev cand : ℕ → ℕ → ℤ → Cand
cand a r q = record { acc = a; rej = r; q8 = q }

-- A full table: its weakest candidate is 12.
abbrev pub toy_cands : Dict Cand
toy_cands = (11, cand 3 1 (pos 20)) ∷ (12, cand 0 1 (negsuc 0)) ∷ []

abbrev pub toy_entry : HotEntry toy_floats
toy_entry = record {
  key = 77;
  seg = 2;
  dom = 42;
  scope_id = 1;
  epoch = 0;
  k_cap = 2;
  cov_ema = 95;
  cands = toy_cands;
  src = none;
}
