-- ===== src/Hal.antt =====
-- The command interface of the host abstraction layer, driver/nxhal.c and
-- include/nxhal_nic_interface.h.
pub mod Command
pub mod Contexts
mod Tests
use Prim.Native.Nat.{bit_and, bit_or}
use hp_nx_nic.Prelude.{
  ℕ, zero, suc, ◌*◌, ◌%◌, ◌^◌, Bool, true, false, List, ◌∷◌, ltb, ◌==◌, if◌then◌else◌,
}
use hp_nx_nic.Card.{
  Register, sem5_lock, sem5_unlock, cdrp_crb, sign_crb, arg1_crb, arg2_crb, arg3_crb, Access, get,
  put, Trace, Responder, read, write,
}
use hp_nx_nic.Card.Semaphore.{acquire}

abbrev pub crb_retry_count : ℕ
crb_retry_count = 4000

-- NX_CDRP_RSP_OK, NX_CDRP_RSP_FAIL and NX_CDRP_RSP_TIMEOUT
abbrev pub rsp_ok : ℕ
rsp_ok = 1

abbrev pub rsp_fail : ℕ
rsp_fail = 2

abbrev pub rsp_timeout : ℕ
rsp_timeout = 3

-- NX_RCODE_SUCCESS and NX_RCODE_TIMEOUT
abbrev pub rcode_success : ℕ
rcode_success = 0

abbrev pub rcode_timeout : ℕ
rcode_timeout = 17

-- NX_CDRP_IS_RSP: bit 31 of the 32-bit word is clear.
abbrev pub is_rsp : ℕ → Bool
is_rsp rsp = ltb (rsp % 2 ^ 32) (2 ^ 31)

-- NX_CDRP_FORM_CMD
abbrev pub form_cmd : ℕ → ℕ
form_cmd cmd = bit_or 0x80000000 cmd

-- NX_CDRP_SIGNATURE_MAKE
abbrev pub signature_make : ℕ → ℕ → ℕ
signature_make pcifn version =
    bit_or (bit_or (bit_and pcifn 0xff) (bit_and version 0xff * 2 ^ 8)) (0xcafe * 2 ^ 16)

-- api_lock: whether it returns 0.
unfoldable pub api_lock : Responder → Trace → Bool × Trace
api_lock card t = acquire card sem5_lock crb_retry_count t

-- api_unlock
abbrev pub api_unlock : Trace → Trace
api_unlock t = get sem5_unlock ∷ t

-- The loop of poll_rsp, with the rounds that are left before the time-out.
unfoldable pub poll : Responder → ℕ → Trace → ℕ × Trace
poll card zero t = (rsp_timeout, get cdrp_crb ∷ t)
poll card (suc n) t =
    let rest = poll card n (get cdrp_crb ∷ t) in
    if is_rsp (card t cdrp_crb) then (card t cdrp_crb, get cdrp_crb ∷ t) else rest

-- poll_rsp
unfoldable pub poll_rsp : Responder → Trace → ℕ × Trace
unfolding poll
poll_rsp card t = poll card crb_retry_count t

-- The writes of a command: the signature and the arguments before the command itself.
abbrev pub command : ℕ → ℕ → ℕ → ℕ → ℕ → ℕ → Trace → Trace
command pci_fn version arg1 arg2 arg3 cmd t = write cdrp_crb (form_cmd cmd) (
    write arg3_crb arg3 (
      write arg2_crb arg2 (write arg1_crb arg1 (write sign_crb (signature_make pci_fn version) t))))

-- The part of issue_cmd behind poll_rsp.
unfoldable pub respond : Responder → ℕ × Trace → ℕ × Trace
respond card (rsp, t) =
    if rsp == rsp_timeout
    then (rcode_timeout, api_unlock t)
    else if rsp == rsp_fail
    then (card t arg1_crb, api_unlock (get arg1_crb ∷ t))
    else (rcode_success, api_unlock t)

-- The part of issue_cmd behind api_lock.
unfoldable pub issue_locked : Responder → ℕ → ℕ → ℕ → ℕ → ℕ → ℕ → Bool × Trace → ℕ × Trace
unfolding respond
issue_locked card pci_fn version arg1 arg2 arg3 cmd (true, t) =
    respond card (poll_rsp card (command pci_fn version arg1 arg2 arg3 cmd t))
issue_locked card pci_fn version arg1 arg2 arg3 cmd (false, t) = (rcode_timeout, t)

-- issue_cmd
unfoldable pub issue_cmd : Responder → ℕ → ℕ → ℕ → ℕ → ℕ → ℕ → Trace → ℕ × Trace
unfolding issue_locked
issue_cmd card pci_fn version arg1 arg2 arg3 cmd t =
    issue_locked card pci_fn version arg1 arg2 arg3 cmd (api_lock card t)
