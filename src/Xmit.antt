-- ===== src/Xmit.antt =====
-- The transmit path, in driver/unm_nic_main.c: unm_nic_xmit_frame and its helpers.
pub mod Packet
pub mod Fill
pub mod Headers
pub mod Frame
pub mod Entries
pub mod Gather
pub mod Complete
pub mod Post
pub mod Outcome
pub mod Transmits
pub mod Balance
pub mod Bytes
pub mod Release
mod Tests
