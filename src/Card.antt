-- ===== src/Card.antt =====
-- The card as the driver's register access sees it: a trace of reads and writes, and a responder
-- that answers each read from the trace before it.
pub mod Semaphore
use hp_nx_nic.Prelude.{ℕ, List, ◌∷◌}

-- The registers that the modelled functions use, by the names of include/nic_phan_reg.h and
-- include/unm_inc.h without their prefixes.
pub data Register : Type 0 where
  sem2_lock : Register
  sem2_unlock : Register
  rom_lock_id : Register
  romusb_glb_status : Register
  romusb_rom_address : Register
  romusb_rom_abyte_cnt : Register
  romusb_rom_dummy_byte_cnt : Register
  romusb_rom_instr_opcode : Register
  romusb_rom_rdata : Register
  sem5_lock : Register
  sem5_unlock : Register
  cdrp_crb : Register
  sign_crb : Register
  arg1_crb : Register
  arg2_crb : Register
  arg3_crb : Register
  cmdpeg_state : Register
  romusb_glb_pegtune_done : Register
  dimm_status : Register
  sem7_lock : Register
  sem7_unlock : Register
  crb_win_lock_id : Register
  -- a register of the host's PCI block, by its offset
  pcix_ph : ℕ → Register
  -- a place in the mapped memory of the card, by its address and width in bytes
  mapped : ℕ → ℕ → Register
  -- a register behind NXRD32 and NXWR32, by its offset in the map of 128 MB
  crb : ℕ → Register

pub data Access : Type 0 where
  get : Register → Access
  put : Register → ℕ → Access

-- The latest access stands first.
abbrev pub Trace : Type 0
Trace = List Access

abbrev pub Responder : Type 0
Responder = Trace → Register → ℕ

-- A register read and a register write.
abbrev pub read : Responder → Register → Trace → ℕ × Trace
read card r t = (card t r, get r ∷ t)

abbrev pub write : Register → ℕ → Trace → Trace
write r v t = put r v ∷ t
