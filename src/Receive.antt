-- ===== src/Receive.antt =====
-- The receive rings, in driver/unm_nic_main.c: buffers go to the card and come back.
pub mod Buffers
pub mod Prepare
pub mod Post
pub mod Doorbell
pub mod Posted
pub mod Freed
pub mod Status
pub mod Spans
pub mod Rounds
pub mod Polls
pub mod Ring
pub mod Packet
pub mod Arrival
mod Tests
