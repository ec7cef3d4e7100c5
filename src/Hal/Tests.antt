-- ===== src/Hal/Tests.antt =====
-- A card that answers a command at once, and a device with three receive slots.
use hp_nx_nic.Prelude.{ℕ, some, none, [], ◌∷◌, arith}
use hp_nx_nic.Card.{Register, sem5_lock, cdrp_crb, Responder}
use hp_nx_nic.Hal.{command, issue_cmd}
use hp_nx_nic.Hal.Command.{Issues, issue_cmd-Issues}
use hp_nx_nic.Hal.Contexts.{Sizes, RxCtx, HostNic, create_rx_ctx_alloc}
use hp_nx_nic.Hal.Contexts.Slots.{Allocates, create_rx_ctx_alloc-Allocates}

abbrev answer : Register → ℕ
answer sem5_lock = 1
answer cdrp_crb = 1
answer _ = 0

abbrev ready : Responder
ready = λ t r. answer r

issue_cmd-Issues_example :
    Issues ready []
      (command 0 1 5 6 7 9)
      (issue_cmd ready 0 1 5 6 7 9 []).0
      (issue_cmd ready 0 1 5 6 7 9 []).1
issue_cmd-Issues_example = issue_cmd-Issues ready 0 1 5 6 7 9 []

abbrev taken : RxCtx
taken = record {
  addr = 4096;
  alloc_len = 400;
  num_rds_rings = 2;
  num_sds_rings = 4;
  num_rules = 0;
  pci_func = 0;
  this_id = 0;
}

-- Slot 0 is taken, slot 1 has its state bit set, slot 2 is open.
abbrev device : HostNic
device = record {
  rx_ctxs = some taken ∷ none ∷ none ∷ [];
  tx_ctxs = none ∷ [];
  rx_ctxs_state = 2;
  active_rx_ctxs = 1;
  pci_func = 0;
}

abbrev sizes : Sizes
sizes = record { rx_ctx = 200; rds_ring = 64; sds_ring = 48; rx_rule = 32 }

create_rx_ctx_alloc-Allocates_example :
    Allocates device (some 8192) (create_rx_ctx_alloc sizes (some 8192) device 2 4 0)
create_rx_ctx_alloc-Allocates_example =
    create_rx_ctx_alloc-Allocates sizes device 2 4 0 (some 8192) (omega arith)
