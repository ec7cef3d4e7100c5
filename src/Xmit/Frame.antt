-- ===== src/Xmit/Frame.antt =====
-- unm_nic_xmit_frame, in driver/unm_nic_main.c, as it is built for Linux.
use hp_nx_nic.Prelude.{
  ℕ, ◌+◌, ◌-◌, ◌/◌, ◌%◌, ◌^◌, Bool, true, false, ◌&&◌, Option, none, some, List, [], ◌∷◌, ◌++◌, ltb,
  ◌==◌, if◌then◌else◌, length, set, get_elem?, get_or, take,
}
use mathlib.Core.Bool.{not}
use mathlib.Core.Option
use hp_nx_nic.Prelude.Words.{sub32}
use hp_nx_nic.CmdRing.Window.{get_next_index}
use hp_nx_nic.CmdRing.Ring.{Adapter, CmdBuffer, no_room, update_cmd_producer}
use hp_nx_nic.Xmit.Packet.{
  Skb, SkbFrag, Frag, Descriptor, Entry, desc, header, zero_descriptor, change_desc, tx_ether_pkt,
  is_packet_tagged, check_tso, add_flag, flags_vlan_tagged,
}
use hp_nx_nic.Xmit.Fill.{Filling, fill_frags, field}
use hp_nx_nic.Xmit.Headers.{tso_copy_headers, header_overrun}

-- What the transmit path uses of `struct unm_adapter_s` and of the network device. The fragArray
-- of each command buffer stands in `frag_arrays`. `mapped` and `unmapped` list the DMA mappings
-- that the path made and that it took down itself; `locks` and `unlocks` count the calls of
-- spin_lock and spin_unlock for tx_lock.
pub record Transmit : Type 0 where
  pub ring : Adapter Entry
  pub frag_arrays : List (List Frag)
  pub mapped : List Frag
  pub unmapped : List Frag
  pub carrier_ok : Bool
  pub loopback_start : Bool
  pub hw_vlan_tx : Bool
  pub tso_enabled : Bool
  pub portnum : ℕ
  pub badskblen : ℕ
  pub txdropped : ℕ
  pub txbytes : ℕ
  pub xmitcalled : ℕ
  pub locks : ℕ
  pub unlocks : ℕ
  pub overrun : List ℕ

pub data TxStatus : Type 0 where
  netdev_tx_ok : TxStatus
  netdev_tx_busy : TxStatus

abbrev pub max_sg_per_tx : ℕ
max_sg_per_tx = 14

abbrev pub free_skb : Skb → Transmit → Transmit
free_skb skb t = record t { ring = record t.ring { freed = skb.id ∷ t.ring.freed } }

-- The label drop_packet, which goes on at `done`.
abbrev pub drop_packet : Skb → Transmit → TxStatus × Transmit
drop_packet skb t =
    (netdev_tx_ok, record (free_skb skb t) { txdropped = t.txdropped + 1; unlocks = t.unlocks + 1 })

-- The label requeue_packet.
abbrev pub requeue_packet : Transmit → TxStatus × Transmit
requeue_packet t = (
  netdev_tx_busy,
  record t { ring = record t.ring { queue_stopped = true }; unlocks = t.unlocks + 1 },
)

abbrev pub is_tagged : Skb → Transmit → Bool
is_tagged skb t = not t.hw_vlan_tx && is_packet_tagged skb

abbrev pub max_frags : Bool → ℕ
max_frags tagged = max_sg_per_tx - (if tagged then 1 else 0)

abbrev pub frag_count : Skb → ℕ
frag_count skb = 1 + length skb.frags

abbrev pub total_size : List SkbFrag → ℕ
total_size [] = 0
total_size (f ∷ fs) = f.size + total_size fs

-- (fragCount + 3) >> 2
abbrev pub no_of_desc : Skb → ℕ
no_of_desc skb = (frag_count skb + 3) / 4

abbrev pub packet_mss : Skb → Transmit → ℕ
packet_mss skb t = if ltb 0 skb.gso_size && t.tso_enabled then skb.gso_size else 0

abbrev pub first_seg_len : Skb → ℕ
first_seg_len skb = sub32 skb.len skb.data_len

abbrev pub packet_buffer : Skb → Transmit → CmdBuffer
packet_buffer skb t = record {
  skb = some skb.id;
  frag_count = frag_count skb % 2 ^ 8;
  mss = packet_mss skb t;
  total_length = skb.len;
  cmd = tx_ether_pkt;
  port = t.portnum % 2 ^ 16;
}

-- The command buffer of the producer index takes the packet, and its entry a new descriptor.
unfoldable pub start_packet : Skb → Transmit → Transmit
start_packet skb t = record t {
  ring = record t.ring {
    cmd_desc_head =
        set t.ring.cmd_desc_head t.ring.cmd_producer
          (desc (record zero_descriptor { mss = packet_mss skb t % 2 ^ 16 }));
    cmd_buf_arr =
        Option.map (λ bufs. set bufs t.ring.cmd_producer (packet_buffer skb t)) t.ring.cmd_buf_arr;
  };
}

abbrev pub put_first : Skb → Transmit → Frag → Descriptor → Descriptor
put_first skb t f d = record d {
  total_length = skb.len % 2 ^ 24;
  num_of_buffers = frag_count skb % 2 ^ 8;
  opcode = tx_ether_pkt;
  port = t.portnum % 2 ^ 4;
  ctx_id = t.portnum % 2 ^ 4;
  buffer1 = field f;
}

-- What the fragment loop starts from.
unfoldable pub start_filling : Skb → Transmit → Frag → Filling
start_filling skb t f = record {
  ring = change_desc (put_first skb t f) t.ring.cmd_desc_head t.ring.cmd_producer;
  frag_array = set (get_or t.frag_arrays t.ring.cmd_producer []) 0 f;
  producer = t.ring.cmd_producer;
  k = 1;
  mapped = f ∷ [];
  unmapped = [];
}

-- What the loop changed, in place.
unfoldable pub commit : Transmit → Filling → Transmit
commit t s = record t {
  ring = record t.ring { cmd_desc_head = s.ring };
  frag_arrays = set t.frag_arrays t.ring.cmd_producer s.frag_array;
  mapped = t.mapped ++ s.mapped;
  unmapped = t.unmapped ++ s.unmapped;
}

abbrev pub entry_length : Option Entry → ℕ
entry_length none = 0
entry_length (some (header o bs)) = 0
entry_length (some (desc d)) = d.total_length

-- The ring behind the two steps that complete the first descriptor.
unfoldable pub describe : Skb → Bool → ℕ → List Entry → List Entry
unfolding check_tso
describe skb tagged saved ring =
    let ring' = change_desc (check_tso skb tagged) ring saved in
    if tagged then change_desc (add_flag flags_vlan_tagged) ring' saved else ring'

-- The statements from the copy of the headers to the label `done`.
unfoldable pub publish : Transmit → ℕ × List Entry → TxStatus × Transmit
unfolding update_cmd_producer
publish t (producer, ring) = (
  netdev_tx_ok,
  record t {
    ring =
        update_cmd_producer (record t.ring { cmd_desc_head = ring; cmd_producer = producer })
          producer;
    txbytes = t.txbytes + entry_length (get_elem? ring t.ring.cmd_producer);
    xmitcalled = t.xmitcalled + 1;
    unlocks = t.unlocks + 1;
  },
)

-- The bytes of the headers that run over their entries, into the memory behind them: the next entry
-- of the ring, or what lies behind the ring. They are noted, and the ring is as without them.
abbrev pub note_overrun : Skb → List Entry → Transmit → Transmit
note_overrun skb ring t = record t {
  overrun = t.overrun ++ header_overrun skb (get_elem? ring t.ring.cmd_producer);
}

-- The part behind the loop, which ended at `last`.
unfoldable pub post_packet : Skb → Bool → Transmit → ℕ → TxStatus × Transmit
unfolding describe tso_copy_headers header_overrun publish
post_packet skb tagged t last =
    let size = t.ring.max_tx_desc_count in
    let ring = describe skb tagged t.ring.cmd_producer t.ring.cmd_desc_head in
    publish (note_overrun skb ring t)
      (tso_copy_headers size skb t.ring.cmd_producer (get_next_index last size, ring))

unfoldable pub finish_packet : Skb → Bool → Transmit → Bool × Filling → TxStatus × Transmit
unfolding commit post_packet
finish_packet skb tagged t (false, s) = drop_packet skb (commit t s)
finish_packet skb tagged t (true, s) = post_packet skb tagged (commit t s) s.producer

-- What is not under this repository: __pskb_pull_tail, try_map_skb_data and try_map_frag_page
-- with the kernel's DMA calls; each is `none` if it fails.
module _ (pull_tail : Skb → ℕ → Option Skb) (map_data : Skb → ℕ → Option ℕ)
    (map_page : SkbFrag → Option ℕ) where
  -- The packet with at most as many fragments as the card takes.
  unfoldable pub pull_frags : Skb → Bool → Option Skb
  pull_frags skb tagged =
      if ltb (max_frags tagged) (frag_count skb)
      then pull_tail skb (total_size (take (frag_count skb - max_frags tagged) skb.frags))
      else some skb

  unfoldable pub map_frags : Skb → Bool → Transmit → Option ℕ → TxStatus × Transmit
  unfolding start_filling fill_frags
  map_frags skb tagged t none = drop_packet skb t
  map_frags skb tagged t (some dma) = finish_packet skb tagged t (
      fill_frags t.ring.max_tx_desc_count map_page 1 skb.frags
        (start_filling skb t (record { dma = dma; length = first_seg_len skb })))

  -- The part under tx_lock.
  unfoldable pub xmit_locked : Skb → Bool → Transmit → TxStatus × Transmit
  unfolding start_packet
  xmit_locked skb tagged t =
      if not t.carrier_ok && not t.loopback_start
      then drop_packet skb t
      else if no_room t.ring (no_of_desc skb + 2)
      then requeue_packet t
      else map_frags skb tagged (start_packet skb t) (map_data skb (first_seg_len skb))

  unfoldable pub xmit_pulled : Skb → Bool → Transmit → Option Skb → TxStatus × Transmit
  unfolding xmit_locked
  xmit_pulled skb tagged t none = drop_packet skb t
  xmit_pulled skb tagged t (some pulled) =
      xmit_locked pulled tagged (record t { locks = t.locks + 1 })

  -- unm_nic_xmit_frame
  unfoldable pub xmit_frame : Skb → Transmit → TxStatus × Transmit
  unfolding pull_frags
  xmit_frame skb t =
      if skb.len == 0
      then (netdev_tx_ok, record (free_skb skb t) { badskblen = t.badskblen + 1 })
      else xmit_pulled skb (is_tagged skb t) t (pull_frags skb (is_tagged skb t))
