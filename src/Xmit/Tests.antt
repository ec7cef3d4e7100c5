-- ===== src/Xmit/Tests.antt =====
-- Packets on a ring of 16 entries.
use hp_nx_nic.Prelude.{
  ℕ, zero, suc, ◌+◌, true, false, ◌≡◌, refl, sym, ap, Option, none, some, List, [], ◌∷◌, replicate,
  arith, length, get_elem?, take, some-injective,
}
use hp_nx_nic.CmdRing.Pending.{Pending}
use hp_nx_nic.CmdRing.Ring.{Adapter, request_buffer, process_cmd_ring}
use hp_nx_nic.Xmit.Packet.{Skb, SkbFrag, Frag, Entry, desc, zero_descriptor, no_frag}
use hp_nx_nic.Xmit.Headers.{copy_headers, copy_for, header_overrun}
use hp_nx_nic.Xmit.Frame.{Transmit, TxStatus, xmit_frame, xmit_pulled, map_frags, finish_packet}
use hp_nx_nic.Xmit.Outcome.Valid.{IsValid}
use hp_nx_nic.Xmit.Transmits.{PullsTail, Transmits, xmit_frame-Transmits}
use hp_nx_nic.Xmit.Balance.{Grows, xmit_frame-Grows}
use hp_nx_nic.Xmit.Release.{Frees, free_tx_resources, free_tx_resources-Frees}
use hp_nx_nic.Xmit.Bytes.{bytes_from, header_entries, wire_bytes, copy_headers-wire}

abbrev idle : Pending Entry
idle = record { cnt = 0; free_list = []; cmd_list = []; curr_block = none }

-- The card has consumed all entries before the last.
abbrev ring16 : Adapter Entry
ring16 = record {
  cmd_producer = 15;
  last_cmd_consumer = 14;
  max_tx_desc_count = 16;
  cmd_desc_head = replicate 16 (desc zero_descriptor);
  cmd_buf_arr = some (replicate 16 (request_buffer 0));
  pending_cmds = idle;
  crb_addr_cmd_producer = true;
  doorbell = none;
  queue_stopped = false;
  running = true;
  tx_timeout_count = 0;
  xmitfinished = 0;
  freed = [];
  unmapped = 0;
}

abbrev card : Transmit
card = record {
  ring = ring16;
  frag_arrays = replicate 16 (replicate 17 no_frag);
  mapped = [];
  unmapped = [];
  carrier_ok = true;
  loopback_start = false;
  hw_vlan_tx = true;
  tso_enabled = true;
  portnum = 1;
  badskblen = 0;
  txdropped = 0;
  txbytes = 0;
  xmitcalled = 0;
  locks = 0;
  unlocks = 0;
  overrun = [];
}

abbrev page : ℕ → SkbFrag
page n = record { page = n; page_offset = 0; size = 1000 + n }

-- A large packet of six buffers, whose headers have 54 bytes.
abbrev large : Skb
large = record {
  id = 7;
  len = 5069;
  data_len = 5015;
  bytes = replicate 54 9;
  frags = page 1 ∷ page 2 ∷ page 3 ∷ page 4 ∷ page 5 ∷ [];
  gso_size = 1460;
  checksum_hw = true;
  protocol = 0x0800;
  vlan_tag = some 5;
  network_offset = 14;
  network_header_size = 20;
  transport_offset = 34;
  tcp_doff = 5;
  ip_protocol = 6;
  ipv6_nexthdr = 0;
}

-- The same with more fragments than the card takes.
abbrev scattered : Skb
scattered = record large { frags = replicate 16 (page 1) }

-- A pull that moves every fragment, one that fails, and mappings that succeed.
abbrev pull_all : Skb → ℕ → Option Skb
pull_all s delta = some (record s { frags = [] })

abbrev pull_none : Skb → ℕ → Option Skb
pull_none s delta = none

abbrev map_head : Skb → ℕ → Option ℕ
map_head s n = some 4096

abbrev map_all : SkbFrag → Option ℕ
map_all f = some (f.page + 8192)

pull_all-PullsTail : PullsTail pull_all
pull_all-PullsTail = record {
  same_skb = λ s s' delta e. sym (ap Skb.id (some-injective e));
  fewer = λ s s' n h e.
      let gone : length s'.frags ≡ 0 = sym (ap (λ (q : Skb). length q.frags) (some-injective e)) in
      omega (arith, gone, h);
}

rooms_of :
    (n i : ℕ) (fs : List Frag)
    → get_elem? (replicate n (replicate 17 no_frag)) i ≡ some fs
    → length fs ≡ 17
rooms_of zero i fs e = absurd (cc e)
rooms_of (suc n) zero fs e = sym (ap length (some-injective e))
rooms_of (suc n) (suc i) fs e = rooms_of n i fs e

card-IsValid : IsValid card
card-IsValid = record {
  consumer_in = omega arith;
  producer_in = omega arith;
  small = omega arith;
  sized = refl;
  arrays = refl;
  rooms = λ i fs e. rooms_of 16 i fs e;
}

xmit_frame-Transmits_example :
    Transmits pull_all map_head map_all large card (xmit_frame pull_all map_head map_all large card)
xmit_frame-Transmits_example =
    xmit_frame-Transmits pull_all map_head map_all large card pull_all-PullsTail card-IsValid

xmit_frame-Grows_example :
    Grows card.ring (xmit_frame pull_all map_head map_all scattered card).1.ring
xmit_frame-Grows_example =
    xmit_frame-Grows pull_all map_head map_all scattered card pull_all-PullsTail card-IsValid

copy_headers-wire_example :
    let (prod', ring') = copy_headers 16 (some 5) (replicate 80 9) 70 (15, ring16.cmd_desc_head) in
    bytes_from 16 ring' 15 (header_entries 70) ≡ take 70 (wire_bytes (some 5) (replicate 80 9))
copy_headers-wire_example =
    copy_headers-wire 16 15 ring16.cmd_desc_head (some 5) (replicate 80 9) 70 (omega arith)
      (omega arith) refl (omega arith) (omega arith) (omega arith)

-- The packet takes two descriptors and one entry for its headers, over the end of the ring.
abbrev posted : TxStatus × Transmit
posted = xmit_frame pull_all map_head map_all large card

posted_producer : posted.1.ring.cmd_producer ≡ 2
unfolding xmit_frame xmit_pulled map_frags finish_packet copy_for
posted_producer = refl

-- The packet that cannot be pulled leaves a lock unlocked that nobody took.
unlocked_free : (xmit_frame pull_none map_head map_all scattered card).1.unlocks ≡ 1
unfolding xmit_frame xmit_pulled
unlocked_free = refl

free_tx_resources-Frees_example :
    Frees (replicate 16 (request_buffer 0)) card (free_tx_resources card)
free_tx_resources-Frees_example =
    free_tx_resources-Frees card (replicate 16 (request_buffer 0)) refl refl refl

-- A packet whose second fragment cannot be mapped is dropped, and freed again with the ring.
abbrev map_none : SkbFrag → Option ℕ
map_none f = none

abbrev refused : Transmit
refused = (xmit_frame pull_all map_head map_none large card).1

freed_twice : (free_tx_resources refused).ring.freed ≡ 7 ∷ 7 ∷ []
unfolding xmit_frame xmit_pulled map_frags finish_packet free_tx_resources
freed_twice = refl

-- A posted packet that the card has consumed has its six mappings taken down, and again with the
-- ring.
abbrev completed : Transmit
completed = record posted.1 { ring = (process_cmd_ring posted.1.ring 2 2).1 }

unmapped_once : completed.ring.unmapped ≡ 6
unfolding xmit_frame xmit_pulled map_frags finish_packet copy_for process_cmd_ring
unmapped_once = refl

unmapped_twice : length (free_tx_resources completed).unmapped ≡ 6
unfolding xmit_frame xmit_pulled map_frags finish_packet copy_for process_cmd_ring free_tx_resources
unmapped_twice = refl

-- Headers of 138 bytes, with a tag and with IP and TCP options of full size: 12 bytes run over.
abbrev long_headers : Skb
long_headers = record large {
  bytes = replicate 134 9;
  network_header_size = 60;
  transport_offset = 74;
  tcp_doff = 15;
}

run_over : length (xmit_frame pull_all map_head map_all long_headers card).1.overrun ≡ 12
unfolding xmit_frame xmit_pulled map_frags finish_packet copy_for header_overrun
run_over = refl
