-- ===== src/Receive/Packet.antt =====
-- A packet that arrived, in driver/unm_nic_main.c: process_rxbuffer, and the part of
-- unm_process_rcv that finds the buffer.
use hp_nx_nic.Prelude.{
  ℕ, ◌+◌, Bool, true, false, Option, none, some, List, [], ◌∷◌, ◌++◌, ltb, leb, if◌then◌else◌,
  get_elem?,
}
use hp_nx_nic.Prelude.Counts.{count}
use hp_nx_nic.Prelude.Kernel.{Outcome, ok, bug, relinked, fault}
use hp_nx_nic.Prelude.Words.{add32, sub32}
use hp_nx_nic.Receive.Buffers.{RxBuffer, FreeBufs, RdsRing, set_buffer, alloc_rx_skb}

-- A receive ring with the list of its buffers that a status ring holds, and `unmapped`, the
-- addresses whose mappings process_rxbuffer took down.
pub record Receiving : Type 0 where
  pub rds : RdsRing
  pub free_rbufs : FreeBufs
  pub unmapped : List ℕ
  pub rcvdbadskb : ℕ
  pub alloc_failures_imm : ℕ

-- NX_NIC_RX_POST_THRES
abbrev pub rx_post_thres : ℕ
rx_post_thres = 4

-- What becomes of the message: it is ignored, its buffer is reposted with the packet, or the skb
-- goes up the stack.
pub data Arrival : Type 0 where
  ignored : Arrival
  reposted : Arrival
  delivered : ℕ → Arrival

-- list_add_tail, with the count; a buffer that is on a list already is linked again.
abbrev pub link_buffer : ℕ → Arrival → Receiving → Outcome (Arrival × Receiving)
link_buffer i up t =
    if leb 1 (count i (t.rds.free_rxbufs.head ++ t.free_rbufs.head))
    then relinked
    else ok (
      up,
      record t {
        free_rbufs = record {
          count = add32 t.free_rbufs.count 1;
          head = t.free_rbufs.head ++ i ∷ [];
        };
      },
    )

-- The buffer without its skb.
abbrev pub clear_buffer : RxBuffer → RxBuffer
clear_buffer x = record x {
  skb = none;
  busy = false;
  lro_current_frags = 0;
  lro_expected_frags = 0;
}

abbrev pub count_failure : Bool × RdsRing → Receiving → Receiving
count_failure (true, r) t = record t { rds = r }
count_failure (false, r) t = record t {
  rds = record r { alloc_failures = r.alloc_failures + 1 };
  alloc_failures_imm = t.alloc_failures_imm + 1;
}

-- "system is running very low on buffers"
abbrev pub is_low : RdsRing → Bool
is_low r = ltb (sub32 r.ring_size r.alloc_failures) rx_post_thres

abbrev pub repost : ℕ → RxBuffer → Receiving → Outcome (Arrival × Receiving)
repost i x t =
    link_buffer i reposted (record t { rds = set_buffer i (record x { busy = true }) t.rds })

module _ (alloc_skb : ℕ → Option ℕ) (map_skb : ℕ → Option ℕ) where
  -- process_rxbuffer for a buffer and its skb; without one the caller meets BUG().
  unfoldable pub process_rxbuffer :
      ℕ → RxBuffer → Option ℕ → Receiving → Outcome (Arrival × Receiving)
  process_rxbuffer i x none t = bug
  process_rxbuffer i x (some skb) t = link_buffer i (delivered skb) (
      count_failure (alloc_rx_skb alloc_skb map_skb i (set_buffer i (clear_buffer x) t.rds))
        (record t { unmapped = x.dma ∷ t.unmapped }))

  -- `none` is an index outside of the array.
  abbrev pub receive_buffer : ℕ → Option RxBuffer → Receiving → Outcome (Arrival × Receiving)
  receive_buffer i none t = fault
  receive_buffer i (some x) t = if is_low t.rds then repost i x t else process_rxbuffer i x x.skb t

  -- unm_process_rcv up to the packet, for the receive ring that the message names.
  unfoldable pub receive : ℕ → Receiving → Outcome (Arrival × Receiving)
  unfolding process_rxbuffer
  receive i t =
      if ltb t.rds.ring_size i
      then ok (ignored, t)
      else receive_buffer i (get_elem? t.rds.rx_buf_arr i) t
