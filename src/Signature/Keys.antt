-- ===== src/Signature/Keys.antt =====
-- The hot-table keys: the two expansions of `fold_key` agree with it, and two keys that differ in
-- one coordinate only never coincide.
use speculation_ledger.Prelude.{ℕ, ◌+◌, ◌*◌, ◌%◌, ◌^◌, ◌≤◌, ◌<◌, ◌≡◌, ◌≢◌, sym, ap, ◌∙◌, arith}
use speculation_ledger.Bits.{◌⊕◌, xor-lt, xor_assoc, xor_injective, xor_comm}
use speculation_ledger.Signature.{
  order_salt, seg_salt, mix, fmix64, fold_key, lookup_key, apply_key, max_order,
}
use speculation_ledger.Signature.Mix.{u64-lt, u64_of_lt, mix-injective}

order_salt-lt : (o : ℕ) → order_salt o < 2 ^ 64
unfolding order_salt
order_salt-lt o = u64-lt (0xA076_1D64_78BD_642F * (o + 1))

seg_salt-lt : (s : ℕ) → seg_salt s < 2 ^ 64
unfolding seg_salt
seg_salt-lt s = u64-lt (0xE703_7ED1_A0B4_28DB * (s + 3))

folded-lt :
    (sig order scope_id seg : ℕ)
    → sig < 2 ^ 64
    → scope_id < 2 ^ 64
    → sig ⊕ order_salt order ⊕ scope_id ⊕ seg_salt seg < 2 ^ 64
folded-lt sig order scope_id seg hs hi =
    xor-lt 64 _ _ (xor-lt 64 _ _ (xor-lt 64 _ _ hs (order_salt-lt order)) hi) (seg_salt-lt seg)

-- For a 64-bit signature and a 64-bit scope id, the key that `lookup` computes inline and the key
-- that `_apply` computes inline are both the one that `fold_key` specifies.
pub inline_keys-eq-fold_key :
    (sig order scope_id seg : ℕ)
    → sig < 2 ^ 64
    → scope_id < 2 ^ 64
    → (lookup_key sig order scope_id seg ≡ fold_key sig order scope_id seg)
      × (apply_key sig order scope_id seg ≡ fold_key sig order scope_id seg)
unfolding lookup_key apply_key fold_key fmix64
inline_keys-eq-fold_key sig order scope_id seg hs hi =
    let unmasked = sym (u64_of_lt _ (folded-lt sig order scope_id (seg % 4) hs hi)) in
    (
      ap mix (sym (xor_assoc (sig ⊕ order_salt order) scope_id (seg_salt (seg % 4))) ∙ unmasked),
      ap mix unmasked,
    )

fold_key-injective :
    (sig order scope_id seg sig' order' scope_id' seg' : ℕ)
    → sig < 2 ^ 64
    → scope_id < 2 ^ 64
    → sig' < 2 ^ 64
    → scope_id' < 2 ^ 64
    → fold_key sig order scope_id seg ≡ fold_key sig' order' scope_id' seg'
    → sig ⊕ order_salt order ⊕ scope_id ⊕ seg_salt (seg % 4)
      ≡ sig' ⊕ order_salt order' ⊕ scope_id' ⊕ seg_salt (seg' % 4)
unfolding fold_key fmix64
fold_key-injective sig order scope_id seg sig' order' scope_id' seg' hs hi hs' hi' e =
    let masked = mix-injective _ _ (u64-lt _) (u64-lt _) e in
    sym (u64_of_lt _ (folded-lt sig order scope_id (seg % 4) hs hi))
    ∙ masked
    ∙ u64_of_lt _ (folded-lt sig' order' scope_id' (seg' % 4) hs' hi')

xor_injective_left : (c a b : ℕ) → c ⊕ a ≡ c ⊕ b → a ≡ b
xor_injective_left c a b h = xor_injective a b c (xor_comm a c ∙ h ∙ xor_comm c b)

order_salt-injective : (o o' : ℕ) → o ≤ 8 → o' ≤ 8 → order_salt o ≡ order_salt o' → o ≡ o'
unfolding order_salt
order_salt-injective o o' h h' e = omega arith

seg_salt-injective : (s s' : ℕ) → s < 4 → s' < 4 → seg_salt s ≡ seg_salt s' → s ≡ s'
unfolding seg_salt
seg_salt-injective s s' h h' e = omega arith

module _ (sig sig' order order' scope_id scope_id' seg seg' : ℕ) (hs : sig < 2 ^ 64)
    (hs' : sig' < 2 ^ 64) (ho : order ≤ max_order) (ho' : order' ≤ max_order)
    (hi : scope_id < 2 ^ 64) (hi' : scope_id' < 2 ^ 64) (hg : seg < 4) (hg' : seg' < 4) where
  -- Two keys that differ in one coordinate only (the 64-bit signature, the order up to 8, the 64-bit
  -- scope id or the segment below 4) are different: within one order, signature and segment no two
  -- scopes share an entry.
  pub fold_key_separates :
      sig ≢ sig'
      → order ≢ order'
      → scope_id ≢ scope_id'
      → seg ≢ seg'
      → (fold_key sig order scope_id seg ≢ fold_key sig' order scope_id seg)
        × (fold_key sig order scope_id seg ≢ fold_key sig order' scope_id seg)
        × (fold_key sig order scope_id seg ≢ fold_key sig order scope_id' seg)
        × (fold_key sig order scope_id seg ≢ fold_key sig order scope_id seg')
  fold_key_separates ns nord ni ng = (
    λ e. ns (
        xor_injective _ _ (order_salt order) (
          xor_injective _ _ scope_id
            (xor_injective _ _ _ (fold_key-injective _ _ _ _ _ _ _ _ hs hi hs' hi e)))),
    λ e. nord (
        order_salt-injective _ _ ho ho' (
          xor_injective_left sig _ _ (
            xor_injective _ _ scope_id
              (xor_injective _ _ _ (fold_key-injective _ _ _ _ _ _ _ _ hs hi hs hi e))))),
    λ e. ni (
        xor_injective_left (sig ⊕ order_salt order) _ _
          (xor_injective _ _ _ (fold_key-injective _ _ _ _ _ _ _ _ hs hi hs hi' e))),
    λ e. ng (same_seg (fold_key-injective _ _ _ _ _ _ _ _ hs hi hs hi e)),
  )
    where
      same_seg :
          sig ⊕ order_salt order ⊕ scope_id ⊕ seg_salt (seg % 4)
            ≡ sig ⊕ order_salt order ⊕ scope_id ⊕ seg_salt (seg' % 4)
          → seg ≡ seg'
      same_seg e =
          let low : seg % 4 ≡ seg' % 4 =
            seg_salt-injective (seg % 4) (seg' % 4) (omega arith) (omega arith)
              (xor_injective_left (sig ⊕ order_salt order ⊕ scope_id) _ _ e) in
          omega arith
