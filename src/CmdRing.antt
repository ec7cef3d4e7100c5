-- ===== src/CmdRing.antt =====
-- The command ring of the transmit path, in driver/unm_nic_main.c and driver/unm_nic.h: the queue
-- of waiting descriptors, the ring, and what any history of their calls keeps.
pub mod Pending
pub mod Window
pub mod Ring
pub mod History
mod Tests
