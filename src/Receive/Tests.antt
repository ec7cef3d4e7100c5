-- ===== src/Receive/Tests.antt =====
-- Receive rings of four buffers and a status ring of eight descriptors.
use hp_nx_nic.Prelude.{
  ℕ, zero, suc, ◌+◌, true, false, ◌≡◌, refl, Option, none, some, [], ◌∷◌, replicate, arith,
}
use hp_nx_nic.Receive.Buffers.{
  RxBuffer, FreeBufs, RdsRing, refill, post_rx_descriptors, post_freed_ring,
}
use hp_nx_nic.Receive.Posted.{IsReady, Posted, post_rx_descriptors-Posted}
use hp_nx_nic.Receive.Freed.{Conserves, post_freed_ring-Conserves}
use hp_nx_nic.Receive.Status.{StatusDesc, SdsRing, poll, process_message, process_rcv_ring}
use hp_nx_nic.Prelude.Kernel.{fault}
use hp_nx_nic.Receive.Packet.{Receiving, receive}

abbrev filled : ℕ → RxBuffer
filled n = record {
  skb = some (100 + n);
  dma = 4096 + n;
  ref_handle = n;
  busy = true;
  lro_current_frags = 0;
  lro_expected_frags = 0;
}

abbrev emptied : ℕ → RxBuffer
emptied n = record (filled n) { skb = none; busy = false }

-- Two buffers wait; buffer 2 has no skb.
abbrev rds : RdsRing
rds = record {
  ring_size = 4;
  desc_head = replicate 4 (record { reference_handle = 0; buffer_length = 0; addr_buffer = 0 });
  producer = 3;
  dma_size = 1500;
  rx_buf_arr = filled 0 ∷ filled 1 ∷ emptied 2 ∷ filled 3 ∷ [];
  alloc_failures = 1;
  posting = false;
  free_rxbufs = record { count = 1; head = 1 ∷ [] };
  host_rx_producer = none;
  alloc_failures_def = 0;
  allocs = 0;
  freed = [];
}

abbrev waiting : FreeBufs
waiting = record { count = 2; head = 2 ∷ 0 ∷ [] }

-- The kernel has one skb left.
abbrev one_skb : ℕ → Option ℕ
one_skb zero = some 500
one_skb (suc n) = none

abbrev map_all : ℕ → Option ℕ
map_all skb = some (skb + 8192)

rds-IsReady : IsReady rds (1 ∷ 2 ∷ 0 ∷ [])
rds-IsReady = record {
  exponent = 2;
  power = refl;
  small = omega arith;
  sized = refl;
  producer_in = omega arith;
  few = omega arith;
  inside = λ b h. ground arith;
  distinct = λ b. ground arith;
}

rds-IsReady_waiting : IsReady rds (2 ∷ 0 ∷ [])
rds-IsReady_waiting = record {
  exponent = 2;
  power = refl;
  small = omega arith;
  sized = refl;
  producer_in = omega arith;
  few = omega arith;
  inside = λ b h. ground arith;
  distinct = λ b. ground arith;
}

post_rx_descriptors-Posted_example :
    Posted (2 ∷ 0 ∷ []) rds (post_rx_descriptors one_skb map_all waiting rds)
post_rx_descriptors-Posted_example =
    post_rx_descriptors-Posted one_skb map_all waiting rds rds-IsReady_waiting refl refl
      (omega arith)

post_freed_ring-Conserves_example :
    Conserves waiting rds (post_freed_ring one_skb map_all waiting rds)
post_freed_ring-Conserves_example =
    post_freed_ring-Conserves one_skb map_all waiting rds rds-IsReady refl refl

abbrev status : ℕ → ℕ → ℕ → StatusDesc
status owner opcode cnt = record {
  owner = owner;
  opcode = opcode;
  desc_cnt = cnt;
  body0 = opcode;
  body1 = 0;
}

-- A packet, a message of three descriptors over the end of the ring, and a chain that waits.
abbrev sds : SdsRing
sds = record {
  desc_head =
      status 1 30 3
      ∷ status 1 0x11 4
      ∷ status 1 0 0
      ∷ status 1 0 0
      ∷ status 2 0 0
      ∷ status 1 0x3 1
      ∷ status 1 30 3
      ∷ status 1 0 0
      ∷ [];
  consumer = 5;
  max_rx_desc_count = 8;
  msg_type_rx_desc = 3;
  msg_type_sync_offload = 4;
  host_sds_consumer = none;
  polled = 0;
}

-- Two messages are taken, but the chain that waits makes the result 1.
stopped_short : (process_rcv_ring sds 64).0 ≡ 1
unfolding process_rcv_ring poll process_message
stopped_short = refl

consumed : (process_rcv_ring sds 64).2.consumer ≡ 1
unfolding process_rcv_ring poll process_message
consumed = refl

-- The skb is used up, and both buffers are posted.
posted_two : (post_rx_descriptors one_skb map_all waiting rds).0 ≡ 2
unfolding post_rx_descriptors refill
posted_two = refl

-- Buffer 3 is with the card.
abbrev receiving : Receiving
receiving = record {
  rds = rds;
  free_rbufs = waiting;
  unmapped = [];
  rcvdbadskb = 0;
  alloc_failures_imm = 0;
}

-- The index behind the last buffer passes the test.
past_the_end : receive one_skb map_all 4 receiving ≡ fault
unfolding receive
past_the_end = refl
