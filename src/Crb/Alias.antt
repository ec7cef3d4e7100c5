-- ===== src/Crb/Alias.antt =====
-- Where the addresses that unm_nic_pci_get_crb_addr_2M gives lie, and that no two agents share one.
use hp_nx_nic.Prelude.{
  ℕ, ◌+◌, ◌-◌, ◌*◌, ◌%◌, ◌^◌, ◌≤◌, ◌<◌, ◌≡◌, ◌≢◌, refl, ◌⊎◌, inl, inr, true, false, ◌&&◌, ltb, leb,
  ◌==◌, if◌then◌else◌, arith, if-cases,
}
use mathlib.Core.Path.{subst}
use hp_nx_nic.Crb.Table.{SubBlock}
use hp_nx_nic.Crb.Map.{fits, fits-sub_block, agree, agree-sub_block}
use hp_nx_nic.Crb.{
  sub_block, hub_of, crb_blk, crb_subblk, CrbAddr, invalid, direct, windowed, direct_map,
  get_crb_addr_2m, pci_crbspace, crb_max, pci_camqm, pci_camqm_2m_end, pci_camqm_2m_base,
  crb_indirect_2m,
}

-- The offset in the CRB space, and the entry of an offset there.
abbrev pub in_crb : ℕ → ℕ
in_crb off = off - pci_crbspace

abbrev entry : ℕ → SubBlock
entry o = sub_block (crb_blk o) (crb_subblk o)

-- What an entry says of an access that it translates.
abbrev Entered : ℕ → ℕ → ℕ → SubBlock → ℕ → Type 0
Entered base o len m a =
    (m.valid ≢ 0)
    × (m.start_128m ≤ o)
    × (o + len ≤ m.end_128m)
    × (a + m.start_128m ≡ o + m.start_2m + base)

-- The ways to a result.
data Found (base off len : ℕ) : CrbAddr → Type 0 where
  outside : (crb_max ≤ off) ⊎ (off < pci_crbspace) → Found base off len invalid
  queue :
      {a : ℕ}
      → pci_camqm ≤ off
      → off + len ≤ pci_camqm_2m_end
      → a ≡ off - pci_camqm + pci_camqm_2m_base + base
      → Found base off len (direct a)
  entered :
      {a : ℕ}
      → pci_crbspace ≤ off
      → off < crb_max
      → Entered base (in_crb off) len (entry (in_crb off)) a
      → Found base off len (direct a)
  missed :
      {o : ℕ}
      → pci_crbspace ≤ off
      → off < crb_max
      → o ≡ in_crb off
      → Found base off len (windowed o)

direct_map-Found :
    (base off len : ℕ)
    → pci_crbspace ≤ off
    → off < crb_max
    → Found base off len (direct_map base (in_crb off) len (entry (in_crb off)))
unfolding direct_map
direct_map-Found base off len p q =
    if-cases (Found base off len)
      ((if (entry (in_crb off)).valid == 0 then false else true)
        && (leb (entry (in_crb off)).start_128m (in_crb off)
            && leb (in_crb off + len) (entry (in_crb off)).end_128m))
      (λ h. entered p q (ground arith, ground arith, ground arith, ground arith))
      (λ h. missed p q refl)

get_crb_addr_2m-Found : (base off len : ℕ) → Found base off len (get_crb_addr_2m base off len)
unfolding get_crb_addr_2m
get_crb_addr_2m-Found base off len =
    if-cases (Found base off len) (leb crb_max off) (λ h. outside (inl (ground arith)))
      (λ h.
        if-cases (Found base off len) (leb pci_camqm off && leb (off + len) pci_camqm_2m_end)
          (λ k. queue (ground arith) (ground arith) refl)
          (λ k.
            if-cases (Found base off len) (ltb off pci_crbspace) (λ l. outside (inr (ground arith)))
              (λ l. direct_map-Found base off len (ground arith) (ground arith))))

-- A result within the map of 2 MB, or an offset of the 64 blocks.
abbrev pub InBar : ℕ → ℕ → ℕ → CrbAddr → Type 0
InBar base off len invalid = (crb_max ≤ off) ⊎ (off < pci_crbspace)
InBar base off len (direct a) = (base + pci_camqm_2m_base ≤ a) × (a + len ≤ base + crb_indirect_2m)
InBar base off len (windowed o) = (o + pci_crbspace ≡ off) × (o < 64 * 2 ^ 20)

Entered-InBar :
    (base o len : ℕ) (i j : ℕ) (m : SubBlock) {a : ℕ}
    → fits i j m ≡ true
    → Entered base o len m a
    → (base + pci_camqm_2m_base ≤ a) × (a + len ≤ base + crb_indirect_2m)
Entered-InBar base o len i j m f (v, s, e, eq) = (ground arith, ground arith)

Found-InBar : (base off len : ℕ) {r : CrbAddr} → Found base off len r → InBar base off len r
Found-InBar base off len (outside h) = h
Found-InBar base off len (queue p q e) = (omega arith, omega arith)
Found-InBar base off len (entered p q e) =
    Entered-InBar base (in_crb off) len (crb_blk (in_crb off)) (crb_subblk (in_crb off))
      (entry (in_crb off)) (fits-sub_block (crb_blk (in_crb off)) (crb_subblk (in_crb off))) e
Found-InBar base off len (missed p q e) = (omega arith, omega arith)

-- The result of get_crb_addr_2M, for any base address and access: an address that it finds is that
-- of the queue manager's page or behind it, and the access ends before the indirect window; an offset
-- that needs the window is the one that was asked for, in the 64 blocks; and -1 is given only outside
-- the CRB space.
pub get_crb_addr_2m-InBar : (base off len : ℕ) → InBar base off len (get_crb_addr_2m base off len)
get_crb_addr_2m-InBar base off len = Found-InBar base off len (get_crb_addr_2m-Found base off len)

-- What tells two registers apart: the agent of the block, and the place in the block.
abbrev pub SameRegister : ℕ → ℕ → Type 0
SameRegister off off' =
    (hub_of (crb_blk (in_crb off)) ≡ hub_of (crb_blk (in_crb off')))
    × (in_crb off % 2 ^ 20 ≡ in_crb off' % 2 ^ 20)

Entered-SameRegister :
    (base o len o' len' : ℕ) (i j k l : ℕ) (m n : SubBlock) (a : ℕ)
    → 0 < len
    → 0 < len'
    → fits i j m ≡ true
    → fits k l n ≡ true
    → agree i m k n ≡ true
    → Entered base o len m a
    → Entered base o' len' n a
    → (hub_of i ≡ hub_of k) × (o % 2 ^ 20 ≡ o' % 2 ^ 20)
Entered-SameRegister base o len o' len' i j k l m n a p p' f f' g (v, s, e, eq) (v', s', e', eq') =
    (ground arith, ground arith)

Found-SameRegister :
    (base off len off' len' : ℕ) (a : ℕ)
    → 0 < len
    → 0 < len'
    → Found base off len (direct a)
    → Found base off' len' (direct a)
    → (off ≡ off') ⊎ SameRegister off off'
Found-SameRegister base off len off' len' a p p' (queue s e eq) (queue s' e' eq') =
    inl (omega arith)
Found-SameRegister base off len off' len' a p p' (queue s e eq) (entered s' e' w) =
    absurd (ground (arith, fits-sub_block (crb_blk (in_crb off')) (crb_subblk (in_crb off'))))
Found-SameRegister base off len off' len' a p p' (entered s e w) (queue s' e' eq') =
    absurd (ground (arith, fits-sub_block (crb_blk (in_crb off)) (crb_subblk (in_crb off))))
Found-SameRegister base off len off' len' a p p' (entered s e w) (entered s' e' w') = inr (
    Entered-SameRegister base (in_crb off) len (in_crb off') len' (crb_blk (in_crb off))
      (crb_subblk (in_crb off)) (crb_blk (in_crb off')) (crb_subblk (in_crb off'))
      (entry (in_crb off)) (entry (in_crb off')) a p p'
      (fits-sub_block (crb_blk (in_crb off)) (crb_subblk (in_crb off)))
      (fits-sub_block (crb_blk (in_crb off')) (crb_subblk (in_crb off')))
      (agree-sub_block (crb_blk (in_crb off)) (crb_subblk (in_crb off)) (crb_blk (in_crb off'))
        (crb_subblk (in_crb off')))
      w w')

-- Two offsets that get_crb_addr_2M translates to one address of the card are the same offset, or
-- belong to one register: the same place of the same agent, by the table of agents that the
-- indirect access uses. Each access takes at least one byte.
pub get_crb_addr_2m-SameRegister :
    (base off len off' len' a : ℕ)
    → 0 < len
    → 0 < len'
    → get_crb_addr_2m base off len ≡ direct a
    → get_crb_addr_2m base off' len' ≡ direct a
    → (off ≡ off') ⊎ SameRegister off off'
get_crb_addr_2m-SameRegister base off len off' len' a p p' e e' =
    Found-SameRegister base off len off' len' a p p'
      (subst (Found base off len) e (get_crb_addr_2m-Found base off len))
      (subst (Found base off' len') e' (get_crb_addr_2m-Found base off' len'))
