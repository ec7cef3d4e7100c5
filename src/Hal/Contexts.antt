-- ===== src/Hal/Contexts.antt =====
-- The slots of receive and transmit contexts of driver/nxhal.c: find_open_rx_id, find_open_tx_id,
-- nx_fw_cmd_create_rx_ctx_alloc and nx_fw_cmd_create_rx_ctx_free.
pub mod Slots
use hp_nx_nic.Prelude.{
  ℕ, zero, suc, ◌+◌, ◌-◌, ◌*◌, ◌/◌, ◌%◌, ◌^◌, Bool, true, false, ◌&&◌, ◌||◌, Option, none, some,
  List, [], ◌∷◌, ltb, ◌==◌, if◌then◌else◌, set, get_elem?,
}
use hp_nx_nic.Prelude.Int.{ℤ, pos, negsuc}
use hp_nx_nic.Hal.{rcode_success}
use hp_nx_nic.Prelude.Kernel.{Outcome, ok, fault}

-- NX_RCODE_NO_HOST_MEM, NX_RCODE_CMD_FAILED and NX_RCODE_MAX_EXCEEDED
abbrev pub rcode_no_host_mem : ℕ
rcode_no_host_mem = 1

abbrev pub rcode_cmd_failed : ℕ
rcode_cmd_failed = 18

abbrev pub rcode_max_exceeded : ℕ
rcode_max_exceeded = 20

-- The sizes of the context and of the elements of the arrays that follow it.
pub record Sizes : Type 0 where
  pub rx_ctx : ℕ
  pub rds_ring : ℕ
  pub sds_ring : ℕ
  pub rx_rule : ℕ

-- `nx_host_rx_ctx_t`, at an address.
pub record RxCtx : Type 0 where
  pub addr : ℕ
  pub alloc_len : ℕ
  pub num_rds_rings : ℕ
  pub num_sds_rings : ℕ
  pub num_rules : ℕ
  pub pci_func : ℕ
  pub this_id : ℕ

-- The parts of `nx_host_nic_t` that the contexts use. The arrays have `alloc_rx_ctxs` and
-- `alloc_tx_ctxs` elements; a transmit context is its address.
pub record HostNic : Type 0 where
  pub rx_ctxs : List (Option RxCtx)
  pub tx_ctxs : List (Option ℕ)
  pub rx_ctxs_state : ℕ
  pub active_rx_ctxs : ℕ
  pub pci_func : ℕ

-- `(rx_ctxs_state & (1 << i)) == 0`
abbrev pub is_closed : ℕ → ℕ → Bool
is_closed state i = state / 2 ^ i % 2 == 0

-- The loop of find_open_rx_id from index `i` on.
unfoldable pub open_rx_from : ℕ → ℕ → List (Option RxCtx) → Option ℕ
open_rx_from state i [] = none
open_rx_from state i (none ∷ slots) =
    let rest = open_rx_from state (suc i) slots in if is_closed state i then some i else rest
open_rx_from state i (some c ∷ slots) = open_rx_from state (suc i) slots

-- find_open_rx_id; none is -1.
unfoldable pub find_open_rx_id : HostNic → Option ℕ
unfolding open_rx_from
find_open_rx_id d = open_rx_from d.rx_ctxs_state 0 d.rx_ctxs

-- The loop of find_open_tx_id from index `i` on.
unfoldable pub open_tx_from : ℕ → List (Option ℕ) → Option ℕ
open_tx_from i [] = none
open_tx_from i (none ∷ slots) = some i
open_tx_from i (some c ∷ slots) = open_tx_from (suc i) slots

-- find_open_tx_id
unfoldable pub find_open_tx_id : HostNic → Option ℕ
unfolding open_tx_from
find_open_tx_id d = open_tx_from 0 d.tx_ctxs

-- The context that is filled in; the numbers of rings are cut to 16 bits.
abbrev pub new_rx_ctx : Sizes → HostNic → ℕ → ℕ → ℕ → ℕ → ℕ → RxCtx
new_rx_ctx sizes d num_rds_rings num_sds_rings num_rules addr id = record {
  addr = addr;
  alloc_len =
      (sizes.rx_ctx
        + sizes.rds_ring * num_rds_rings
        + sizes.sds_ring * num_sds_rings
        + sizes.rx_rule * num_rules)
      % 2 ^ 32;
  num_rds_rings = num_rds_rings % 2 ^ 16;
  num_sds_rings = num_sds_rings % 2 ^ 16;
  num_rules = num_rules % 2 ^ 16;
  pci_func = d.pci_func;
  this_id = id;
}

-- The part behind find_open_rx_id; `alloc` is what nx_os_alloc_mem returns.
unfoldable pub alloc_in :
    Sizes → Option ℕ → HostNic → ℕ → ℕ → ℕ → Option ℕ → ℕ × Option RxCtx × HostNic
alloc_in sizes alloc d num_rds_rings num_sds_rings num_rules none = (rcode_max_exceeded, none, d)
alloc_in sizes none d num_rds_rings num_sds_rings num_rules (some id) = (rcode_no_host_mem, none, d)
alloc_in sizes (some addr) d num_rds_rings num_sds_rings num_rules (some id) =
    let ctx = new_rx_ctx sizes d num_rds_rings num_sds_rings num_rules addr id in
    (
      rcode_success,
      some ctx,
      record d {
        rx_ctxs = set d.rx_ctxs id (some ctx);
        active_rx_ctxs = (d.active_rx_ctxs + 1) % 2 ^ 16;
      },
    )

-- nx_fw_cmd_create_rx_ctx_alloc, for a device that is there.
unfoldable pub create_rx_ctx_alloc :
    Sizes → Option ℕ → HostNic → ℕ → ℕ → ℕ → ℕ × Option RxCtx × HostNic
unfolding alloc_in
create_rx_ctx_alloc sizes alloc d num_rds_rings num_sds_rings num_rules =
    alloc_in sizes alloc d num_rds_rings num_sds_rings num_rules (find_open_rx_id d)

-- `rx_ctxs[this_id] != prx_ctx`, by address.
abbrev pub holds_other : Option RxCtx → RxCtx → Bool
holds_other none ctx = true
holds_other (some c) ctx = if c.addr == ctx.addr then false else true

-- The part behind the read of the slot, which is none outside the array.
unfoldable pub free_in : HostNic → RxCtx → Option (Option RxCtx) → Outcome (ℕ × HostNic)
free_in d ctx none = fault
free_in d ctx (some slot) =
    if holds_other slot ctx || ltb d.active_rx_ctxs 1
    then ok (rcode_cmd_failed, d)
    else ok (
      rcode_success,
      record d { rx_ctxs = set d.rx_ctxs ctx.this_id none; active_rx_ctxs = d.active_rx_ctxs - 1 },
    )

-- nx_fw_cmd_create_rx_ctx_free, for a device and a context that are there.
unfoldable pub create_rx_ctx_free : HostNic → RxCtx → Outcome (ℕ × HostNic)
unfolding free_in
create_rx_ctx_free d ctx = free_in d ctx (get_elem? d.rx_ctxs ctx.this_id)
