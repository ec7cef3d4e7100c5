-- ===== src/Rom.antt =====
-- The flash and the start of the firmware, in driver/unm_nic_init.c: the ROM semaphore and the fast
-- read, nx_phantom_init, and the tests of firmware versions.
pub mod FastRead
pub mod Version
mod Tests
use Prim.Native.Nat.{bit_and}
use hp_nx_nic.Prelude.{
  ℕ, zero, suc, ◌+◌, ◌-◌, ◌/◌, ◌%◌, ◌^◌, Bool, true, false, ◌&&◌, ◌||◌, Option, none, some, List,
  [], ◌∷◌, ◌==◌, if◌then◌else◌,
}
use hp_nx_nic.Prelude.Int.{ℤ, pos, negsuc, sub_ℕ, is_zero}
use hp_nx_nic.Card.{
  sem2_lock, sem2_unlock, rom_lock_id, romusb_glb_status, romusb_rom_address, romusb_rom_abyte_cnt,
  romusb_rom_dummy_byte_cnt, romusb_rom_instr_opcode, romusb_rom_rdata, cmdpeg_state,
  romusb_glb_pegtune_done, dimm_status, get, put, Trace, Responder,
}
use hp_nx_nic.Card.Semaphore.{acquire}

abbrev pub rom_max_timeout : ℕ
rom_max_timeout = 100

abbrev pub rom_lock_timeout : ℕ
rom_lock_timeout = 10000

abbrev pub rom_lock_driver : ℕ
rom_lock_driver = 0x0d417340

-- The end of rom_lock: the owner is noted.
unfoldable pub rom_locked : Bool × Trace → Bool × Trace
rom_locked (true, t) = (true, put rom_lock_id rom_lock_driver ∷ t)
rom_locked (false, t) = (false, t)

-- rom_lock: whether it returns 0.
unfoldable pub rom_lock : Responder → Trace → Bool × Trace
rom_lock card t = rom_locked (acquire card sem2_lock rom_lock_timeout t)

-- rom_unlock
abbrev pub rom_unlock : Trace → Trace
rom_unlock t = get sem2_unlock ∷ t

-- The loop of wait_rom_done, with the rounds left behind this one; the last round fails whatever
-- it reads.
unfoldable pub wait_rom : Responder → ℕ → Trace → Bool × Trace
wait_rom card zero t = (false, get romusb_glb_status ∷ t)
wait_rom card (suc n) t =
    let rest = wait_rom card n (get romusb_glb_status ∷ t) in
    if card t romusb_glb_status / 2 % 2 == 0 then rest else (true, get romusb_glb_status ∷ t)

-- wait_rom_done: whether it returns 0.
unfoldable pub wait_rom_done : Responder → Trace → Bool × Trace
wait_rom_done card t = wait_rom card (rom_max_timeout - 1) t

-- The part of do_rom_fast_read behind wait_rom_done; none is -1.
unfoldable pub rom_read : Responder → Bool × Trace → Option ℕ × Trace
rom_read card (false, t) = (none, t)
rom_read card (true, t) =
    let t' : Trace = put romusb_rom_abyte_cnt 0 ∷ put romusb_rom_dummy_byte_cnt 0 ∷ t in
    (some (card t' romusb_rom_rdata), get romusb_rom_rdata ∷ t')

-- The writes that start a read.
abbrev pub start_read : ℕ → Trace → Trace
start_read addr t =
    put romusb_rom_instr_opcode 0xb
    ∷ put romusb_rom_dummy_byte_cnt 0
    ∷ put romusb_rom_abyte_cnt 3
    ∷ put romusb_rom_address addr
    ∷ t

-- do_rom_fast_read
unfoldable pub do_rom_fast_read : Responder → ℕ → Trace → Option ℕ × Trace
unfolding rom_read
do_rom_fast_read card addr t = rom_read card (wait_rom_done card (start_read addr t))

-- The locking loop of rom_fast_read, with the loops that are left: these, and the trace. `again` is
-- the loop with one less.
unfoldable pub lock_next : (Trace → ℕ × Trace) → ℕ → Bool × Trace → ℕ × Trace
lock_next again n (true, t) = (suc n, t)
lock_next again n (false, t) = again t

unfoldable pub lock_loop : Responder → ℕ → Trace → ℕ × Trace
unfolding lock_next
lock_loop card zero t = (0, (rom_lock card t).1)
lock_loop card (suc n) t = lock_next (lock_loop card n) n (rom_lock card t)

-- The part of rom_fast_read behind the loop.
unfoldable pub read_locked : Responder → ℕ → ℕ × Trace → Option ℕ × Trace
read_locked card addr (zero, t) = (none, t)
read_locked card addr (suc n, t) =
    let (value, t') = do_rom_fast_read card addr t in (value, rom_unlock t')

-- rom_fast_read; it is modelled for any number of loops, which is 50000 in the code.
unfoldable pub rom_fast_read : Responder → ℕ → ℕ → Trace → Option ℕ × Trace
unfolding read_locked
rom_fast_read card loops addr t = read_locked card addr (lock_loop card loops t)

-- check_for_bad_spd
unfoldable pub check_for_bad_spd : Responder → Trace → ℕ × Trace
check_for_bad_spd card t =
    let val : ℕ = bit_and (card t dimm_status) 0xff00ffff in
    (if bit_and val 0x80000000 == 0 then if val == 0 then 0 else 2 else 1, get dimm_status ∷ t)

abbrev pub phan_initialize_complete : ℕ
phan_initialize_complete = 0xff01

abbrev pub phan_initialize_ack : ℕ
phan_initialize_ack = 0xf00f

-- The loop of nx_phantom_init, with the retries that are left: whether the state was seen.
unfoldable pub await_peg : Responder → ℕ → Trace → Bool × Trace
await_peg card zero t = (false, t)
await_peg card (suc n) t =
    let val : ℕ = card t cmdpeg_state in
    let rest = await_peg card n (get cmdpeg_state ∷ t) in
    if val == phan_initialize_complete || val == phan_initialize_ack
    then (true, get cmdpeg_state ∷ t)
    else rest

unfoldable pub peg_ready : Responder → Bool × Trace → Bool × Trace
unfolding check_for_bad_spd
peg_ready card (true, t) = (true, t)
peg_ready card (false, t) = (false, get romusb_glb_pegtune_done ∷ (check_for_bad_spd card t).1)

-- nx_phantom_init: whether it returns 0.
unfoldable pub phantom_init : Responder → ℕ → Trace → Bool × Trace
unfolding peg_ready await_peg
phantom_init card pegtune_val t =
    if pegtune_val == 0 then peg_ready card (await_peg card 60 t) else (true, t)

-- `nic_version_t`, less the build.
pub record NicVersion : Type 0 where
  pub major : ℕ
  pub minor : ℕ
  pub sub : ℕ

-- compare_fw_version, where the differences fit an `int`.
unfoldable pub compare_fw_version : NicVersion → NicVersion → ℤ
compare_fw_version ver1 ver2 =
    let major : ℤ = sub_ℕ ver1.major ver2.major in
    let minor : ℤ = sub_ℕ ver1.minor ver2.minor in
    if is_zero major then if is_zero minor then sub_ℕ ver1.sub ver2.sub else minor else major

-- NX_SUPPORTED_FW_VERSIONS
abbrev pub supported_fw_versions : List NicVersion
supported_fw_versions =
    record { major = 3; minor = 4; sub = 0 } ∷ record { major = 4; minor = 0; sub = 0 } ∷ []

unfoldable pub is_supported : NicVersion → List NicVersion → Bool
is_supported version [] = false
is_supported version (v ∷ vs) =
    version.major == v.major && version.minor == v.minor || is_supported version vs

-- nx_fw_hw_version_check: whether it returns 0.
unfoldable pub fw_hw_version_check : NicVersion → Bool
unfolding is_supported
fw_hw_version_check version = is_supported version supported_fw_versions
