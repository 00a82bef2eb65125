-- ===== src/Arena/Compact.antt =====
-- Compaction moves the live spans and keeps their tokens.
use speculation_ledger.Prelude.{
  ◌≡◌, refl, sym, ap, ◌∙◌, ◌⊎◌, inl, inr, some, List, [], ◌∷◌, arith, Option-cases, length, All,
}
use speculation_ledger.Hash.{Blake2b}
use speculation_ledger.Arena.{SpanArena, SpanEntry, new_arena, get, add, compact_into, compact}
use speculation_ledger.Arena.Content.{
  Clashes, Clashes-Extends, IsSound, Extends, Extends-refl, Extends-trans, Holds, Holds-Extends,
  add_lem,
}

-- The entry's whole length can be read.
abbrev pub IsPlaced : SpanArena → SpanEntry → Type 0
IsPlaced a e = length (get a e.arena_off e.length) ≡ e.length

module _ (h : Blake2b) where
  -- The entries are those of before but for their offsets, and each has the tokens it had, unless just
  -- where it points the new arena has other tokens of the same content hash.
  abbrev pub Moved : SpanArena → SpanArena → List SpanEntry → List SpanEntry → Type 0
  Moved old new [] [] = Unit
  Moved old new [] (e' ∷ live') = ⊥
  Moved old new (e ∷ live) [] = ⊥
  Moved old new (e ∷ live) (e' ∷ live') =
      (e' ≡ record e { arena_off = e'.arena_off })
      × ((get new e'.arena_off e'.length ≡ get old e.arena_off e.length)
          ⊎ Clashes h new e'.arena_off (get old e.arena_off e.length))
      × Moved old new live live'

  compact_into_lem :
      (old fresh fresh' : SpanArena) (live live' : List SpanEntry)
      → IsSound h fresh
      → All (IsPlaced old) live
      → compact_into h old fresh live ≡ some (fresh', live')
      → IsSound h fresh' × Extends fresh fresh' × Moved old fresh' live live'
  unfolding compact_into
  compact_into_lem old fresh fresh' [] live' sound placed e =
      let f : fresh ≡ fresh' = ground arith in
      let l : [] ≡ live' = ground arith in rw (← f, ← l) (sound, Extends-refl fresh, tt)
  compact_into_lem old fresh fresh' (x ∷ live) live' sound placed e =
      elim (Option-cases (add h fresh (get old x.arena_off x.length))) [
        | inl bad ↦ absurd (ground (arith, bad))
        | inr ((mid, off, len), added) ↦ elim (Option-cases (compact_into h old mid live)) [
          | inl bad ↦ absurd (ground (arith, added, bad))
          | inr ((end, moved), rest) ↦
              let toks = get old x.arena_off x.length in
              let f : end ≡ fresh' = ground (arith, added, rest) in
              let l : record x { arena_off = off } ∷ moved ≡ live' = ground (arith, added, rest) in
              let (sound', grown, size, got) = add_lem h fresh mid toks off len sound added in
              let (sound'', grown', others) =
                compact_into_lem old mid end live moved sound' placed.1 rest in
              let whole = Extends-trans fresh mid end grown grown' in
              rw (← f, ← l)
                (
                  sound'',
                  whole,
                  (
                    refl,
                    elim got [
                      | inr clash ↦ inr (Clashes-Extends h fresh end off toks whole clash)
                      | inl there ↦
                          let held : Holds mid off toks = rw (← size) there in
                          inl (
                            ap (get end off) (sym placed.0)
                            ∙ Holds-Extends mid end off toks grown' held)
                    ],
                    others,
                  ),
                )
        ]
      ]

  -- A compaction that raises no error leaves an arena whose dedup table is right. Where every live
  -- span could be read in full before, each of them is still there in its place, unchanged but for
  -- its offset, and is read as the same tokens, unless just where it points the new arena has other
  -- tokens of the same content hash.
  pub compact_keeps_tokens :
      (a a' : SpanArena) (live live' : List SpanEntry)
      → All (IsPlaced a) live
      → compact h a live ≡ some (a', live')
      → IsSound h a' × Moved a a' live live'
  unfolding compact
  compact_keeps_tokens a a' live live' placed e =
      let (sound, _, kept) = compact_into_lem a new_arena a' live live' tt placed e in (sound, kept)
