-- ===== src/Crb/Table.antt =====
-- The direct map of driver/unm_nic_hw.c: crb_128M_2M_map, one row for each block of 1 MB, with the
-- entries of its sub-blocks of 64 KB in order. An entry that the initialiser leaves out is zero.
use hp_nx_nic.Prelude.{ℕ, List, [], ◌∷◌}

-- crb_128M_2M_sub_block_map_t.
pub record SubBlock : Type 0 where
  pub valid : ℕ
  pub start_128m : ℕ
  pub end_128m : ℕ
  pub start_2m : ℕ

abbrev pub empty : SubBlock
empty = record { valid = 0; start_128m = 0; end_128m = 0; start_2m = 0 }

abbrev valid_at : ℕ → ℕ → ℕ → SubBlock
valid_at s e t = record { valid = 1; start_128m = s; end_128m = e; start_2m = t }

abbrev invalid_at : ℕ → ℕ → ℕ → SubBlock
invalid_at s e t = record { valid = 0; start_128m = s; end_128m = e; start_2m = t }

unfoldable pub crb_128m_2m_map : List (List SubBlock)
crb_128m_2m_map =
    (empty ∷ [])
    ∷ (valid_at 0x0100000 0x0102000 0x120000
        ∷ valid_at 0x0110000 0x0120000 0x130000
        ∷ valid_at 0x0120000 0x0122000 0x124000
        ∷ valid_at 0x0130000 0x0132000 0x126000
        ∷ valid_at 0x0140000 0x0142000 0x128000
        ∷ valid_at 0x0150000 0x0152000 0x12a000
        ∷ valid_at 0x0160000 0x0170000 0x110000
        ∷ valid_at 0x0170000 0x0172000 0x12e000
        ∷ empty
        ∷ empty
        ∷ empty
        ∷ empty
        ∷ empty
        ∷ empty
        ∷ valid_at 0x01e0000 0x01e0800 0x122000
        ∷ empty
        ∷ [])
    ∷ (valid_at 0x0200000 0x0210000 0x180000 ∷ [])
    ∷ (empty ∷ [])
    ∷ (valid_at 0x0400000 0x0401000 0x169000 ∷ [])
    ∷ (valid_at 0x0500000 0x0510000 0x140000 ∷ [])
    ∷ (valid_at 0x0600000 0x0610000 0x1c0000 ∷ [])
    ∷ (valid_at 0x0700000 0x0704000 0x1b8000 ∷ [])
    ∷ (valid_at 0x0800000 0x0802000 0x170000
        ∷ empty
        ∷ empty
        ∷ empty
        ∷ empty
        ∷ empty
        ∷ empty
        ∷ empty
        ∷ empty
        ∷ empty
        ∷ empty
        ∷ empty
        ∷ empty
        ∷ empty
        ∷ empty
        ∷ valid_at 0x08f0000 0x08f2000 0x172000
        ∷ [])
    ∷ (valid_at 0x0900000 0x0902000 0x174000
        ∷ empty
        ∷ empty
        ∷ empty
        ∷ empty
        ∷ empty
        ∷ empty
        ∷ empty
        ∷ empty
        ∷ empty
        ∷ empty
        ∷ empty
        ∷ empty
        ∷ empty
        ∷ empty
        ∷ valid_at 0x09f0000 0x09f2000 0x176000
        ∷ [])
    ∷ (invalid_at 0x0a00000 0x0a02000 0x178000
        ∷ empty
        ∷ empty
        ∷ empty
        ∷ empty
        ∷ empty
        ∷ empty
        ∷ empty
        ∷ empty
        ∷ empty
        ∷ empty
        ∷ empty
        ∷ empty
        ∷ empty
        ∷ empty
        ∷ valid_at 0x0af0000 0x0af2000 0x17a000
        ∷ [])
    ∷ (invalid_at 0x0b00000 0x0b02000 0x17c000
        ∷ empty
        ∷ empty
        ∷ empty
        ∷ empty
        ∷ empty
        ∷ empty
        ∷ empty
        ∷ empty
        ∷ empty
        ∷ empty
        ∷ empty
        ∷ empty
        ∷ empty
        ∷ empty
        ∷ valid_at 0x0bf0000 0x0bf2000 0x17e000
        ∷ [])
    ∷ (valid_at 0x0c00000 0x0c04000 0x1d4000 ∷ [])
    ∷ (valid_at 0x0d00000 0x0d04000 0x1a4000 ∷ [])
    ∷ (valid_at 0x0e00000 0x0e04000 0x1a0000 ∷ [])
    ∷ (valid_at 0x0f00000 0x0f01000 0x164000 ∷ [])
    ∷ (invalid_at 0x1000000 0x1004000 0x1a8000 ∷ [])
    ∷ (valid_at 0x1100000 0x1101000 0x160000 ∷ [])
    ∷ (valid_at 0x1200000 0x1201000 0x161000 ∷ [])
    ∷ (valid_at 0x1300000 0x1301000 0x162000 ∷ [])
    ∷ (valid_at 0x1400000 0x1401000 0x163000 ∷ [])
    ∷ (valid_at 0x1500000 0x1501000 0x165000 ∷ [])
    ∷ (valid_at 0x1600000 0x1601000 0x166000 ∷ [])
    ∷ (empty ∷ [])
    ∷ (empty ∷ [])
    ∷ (empty ∷ [])
    ∷ (empty ∷ [])
    ∷ (empty ∷ [])
    ∷ (empty ∷ [])
    ∷ (valid_at 0x1d00000 0x1d10000 0x190000 ∷ [])
    ∷ (valid_at 0x1e00000 0x1e01000 0x16a000 ∷ [])
    ∷ (valid_at 0x1f00000 0x1f10000 0x150000 ∷ [])
    ∷ (empty ∷ [])
    ∷ (valid_at 0x2100000 0x2102000 0x120000
        ∷ valid_at 0x2110000 0x2120000 0x130000
        ∷ valid_at 0x2120000 0x2122000 0x124000
        ∷ valid_at 0x2130000 0x2132000 0x126000
        ∷ valid_at 0x2140000 0x2142000 0x128000
        ∷ valid_at 0x2150000 0x2152000 0x12a000
        ∷ valid_at 0x2160000 0x2170000 0x110000
        ∷ valid_at 0x2170000 0x2172000 0x12e000
        ∷ empty
        ∷ empty
        ∷ empty
        ∷ empty
        ∷ empty
        ∷ empty
        ∷ empty
        ∷ empty
        ∷ [])
    ∷ (valid_at 0x2200000 0x2204000 0x1b0000 ∷ [])
    ∷ (empty ∷ [])
    ∷ (empty ∷ [])
    ∷ (empty ∷ [])
    ∷ (empty ∷ [])
    ∷ (empty ∷ [])
    ∷ (valid_at 0x2800000 0x2804000 0x1a4000 ∷ [])
    ∷ (valid_at 0x2900000 0x2901000 0x16b000 ∷ [])
    ∷ (valid_at 0x2a00000 0x2a00400 0x1ac400 ∷ [])
    ∷ (valid_at 0x2b00000 0x2b00400 0x1ac800 ∷ [])
    ∷ (valid_at 0x2c00000 0x2c00400 0x1acc00 ∷ [])
    ∷ (valid_at 0x2d00000 0x2d00400 0x1ad000 ∷ [])
    ∷ (valid_at 0x2e00000 0x2e00400 0x1ad400 ∷ [])
    ∷ (valid_at 0x2f00000 0x2f00400 0x1ad800 ∷ [])
    ∷ (valid_at 0x3000000 0x3000400 0x1adc00 ∷ [])
    ∷ (invalid_at 0x3100000 0x3104000 0x1a8000 ∷ [])
    ∷ (valid_at 0x3200000 0x3204000 0x1d4000 ∷ [])
    ∷ (valid_at 0x3300000 0x3304000 0x1a0000 ∷ [])
    ∷ (empty ∷ [])
    ∷ (valid_at 0x3500000 0x3500400 0x1ac000 ∷ [])
    ∷ (valid_at 0x3600000 0x3600400 0x1ae000 ∷ [])
    ∷ (valid_at 0x3700000 0x3700400 0x1ae400 ∷ [])
    ∷ (valid_at 0x3800000 0x3804000 0x1d0000 ∷ [])
    ∷ (valid_at 0x3900000 0x3904000 0x1b4000 ∷ [])
    ∷ (valid_at 0x3a00000 0x3a04000 0x1d8000 ∷ [])
    ∷ (empty ∷ [])
    ∷ (empty ∷ [])
    ∷ (valid_at 0x3d00000 0x3d04000 0x1dc000 ∷ [])
    ∷ (valid_at 0x3e00000 0x3e01000 0x167000 ∷ [])
    ∷ (valid_at 0x3f00000 0x3f01000 0x168000 ∷ [])
    ∷ []
