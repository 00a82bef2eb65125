-- ===== src/Tests/Entries.antt =====
-- The theorems on hot entries at concrete inputs.
use speculation_ledger.Prelude.{ℕ, suc, ◌≡◌, ◌⊎◌, refl, some, [], ◌∷◌, arith, length, All}
use speculation_ledger.Prelude.Dict.{lookup, erase}
use speculation_ledger.Prelude.Int.{pos}
use speculation_ledger.Hot.{Cand, evict_weakest, update_realized, update_rejected, merge_topk}
use speculation_ledger.Hot.Evict.{AtLeast, evict_weakest_lem}
use speculation_ledger.Hot.Capacity.{IsWithin, updates-IsWithin}
use speculation_ledger.Hot.Counts.{
  Dropped, HasCounts, Starts, one_more, update_realized_lem, update_rejected_lem,
  merge_topk-HasCounts,
}
use speculation_ledger.Tests.Toys.{toy_floats, toy_cands, toy_entry}

evict_weakest_lem_example :
    (v : ℕ × Cand) × (lookup v.0 toy_cands ≡ some v.1)
    × All (λ (e : ℕ × Cand). AtLeast v e) toy_cands
    × (evict_weakest 13 toy_cands ≡ erase v.0 toy_cands)
    × (suc (length (evict_weakest 13 toy_cands)) ≡ length toy_cands)
evict_weakest_lem_example = evict_weakest_lem 13 toy_cands (refl, (refl, tt)) refl (omega arith)

toy_entry-IsWithin : IsWithin toy_floats toy_entry
toy_entry-IsWithin = record {
  room = omega arith;
  fits = omega arith;
  widths = ((omega arith, omega arith, omega arith), ((omega arith, omega arith, omega arith), tt));
}

updates-IsWithin_example :
    IsWithin toy_floats (update_realized toy_floats toy_entry 13 16 90)
    × IsWithin toy_floats (update_rejected toy_floats toy_entry 13 16 90)
updates-IsWithin_example = updates-IsWithin toy_floats 16 90 toy_entry 13 toy_entry-IsWithin

update_realized_lem_example :
    (c : Cand) × (c' : Cand) × Starts toy_cands 13 c
    × (lookup 13 (update_realized toy_floats toy_entry 13 16 90).cands ≡ some c')
    × (c'.acc ≡ one_more c.acc)
    × (c'.rej ≡ c.rej)
    × (c'.q8 ≡ c.q8)
    × ((lookup 12 (update_realized toy_floats toy_entry 13 16 90).cands ≡ lookup 12 toy_cands)
        ⊎ Dropped toy_floats 16 90 toy_entry 13 12)
update_realized_lem_example = update_realized_lem toy_floats 16 90 toy_entry 13 12 (omega arith)

update_rejected_lem_example :
    (c : Cand) × (c' : Cand) × Starts toy_cands 11 c
    × (lookup 11 (update_rejected toy_floats toy_entry 11 16 90).cands ≡ some c')
    × (c'.rej ≡ one_more c.rej)
    × (c'.acc ≡ c.acc)
    × (c'.q8 ≡ c.q8)
    × ((lookup 12 (update_rejected toy_floats toy_entry 11 16 90).cands ≡ lookup 12 toy_cands)
        ⊎ Dropped toy_floats 16 90 toy_entry 11 12)
update_rejected_lem_example = update_rejected_lem toy_floats 16 90 toy_entry 11 12 (omega arith)

merge_topk-HasCounts_example :
    HasCounts toy_floats 16 90 11
      (record { acc = 3; rej = 1; q8 = pos 20 })
      (merge_topk toy_floats toy_entry (11 ∷ 14 ∷ []) (8 ∷ 90 ∷ []) 16 90).cands
merge_topk-HasCounts_example =
    merge_topk-HasCounts toy_floats 16 90 toy_entry (11 ∷ 14 ∷ []) (8 ∷ 90 ∷ []) 11 refl
