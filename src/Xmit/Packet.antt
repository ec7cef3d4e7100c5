-- ===== src/Xmit/Packet.antt =====
-- What the transmit path reads of an skb, and what it writes to the command ring
-- (driver/unm_nic_main.c, include/nic_cmn.h, include/kernel_compatibility.h). The macros for the
-- headers are those for kernels behind 2.6.26.
use hp_nx_nic.Prelude.{
  ℕ, ◌+◌, ◌*◌, ◌%◌, ◌^◌, Bool, ◌&&◌, ◌||◌, Option, none, some, List, ◌==◌, ltb, if◌then◌else◌,
  get_elem?, get_or, set,
}
use Prim.Native.Nat.{bit_or}

-- `skb_frag_struct`, with its page as a number.
pub record SkbFrag : Type 0 where
  pub page : ℕ
  pub page_offset : ℕ
  pub size : ℕ

-- `struct sk_buff`: `id` is its address, `bytes` those of its linear part, at `data`. The offsets and
-- protocol numbers are those that the kernel's header accessors return.
pub record Skb : Type 0 where
  pub id : ℕ
  pub len : ℕ
  pub data_len : ℕ
  pub bytes : List ℕ
  pub frags : List SkbFrag
  pub gso_size : ℕ
  pub checksum_hw : Bool
  pub protocol : ℕ
  pub vlan_tag : Option ℕ
  pub network_offset : ℕ
  pub network_header_size : ℕ
  pub transport_offset : ℕ
  pub tcp_doff : ℕ
  pub ip_protocol : ℕ
  pub ipv6_nexthdr : ℕ

-- `struct unm_skb_frag`, and a buffer of a descriptor.
pub record Frag : Type 0 where
  pub dma : ℕ
  pub length : ℕ

-- `cmdDescType0_t`; `vlan_tci` is the last half word of `mcastAddr`.
pub record Descriptor : Type 0 where
  pub tcp_hdr_offset : ℕ
  pub ip_hdr_offset : ℕ
  pub flags : ℕ
  pub opcode : ℕ
  pub num_of_buffers : ℕ
  pub total_length : ℕ
  pub mss : ℕ
  pub port : ℕ
  pub ctx_id : ℕ
  pub total_hdr_length : ℕ
  pub vlan_tci : ℕ
  pub buffer1 : Frag
  pub buffer2 : Frag
  pub buffer3 : Frag
  pub buffer4 : Frag

-- An entry of the command ring: a descriptor, or packet bytes written over it from an offset on.
pub data Entry : Type 0 where
  desc : Descriptor → Entry
  header : ℕ → List ℕ → Entry

abbrev pub no_frag : Frag
no_frag = record { dma = 0; length = 0 }

-- What memset leaves.
abbrev pub zero_descriptor : Descriptor
zero_descriptor = record {
  tcp_hdr_offset = 0;
  ip_hdr_offset = 0;
  flags = 0;
  opcode = 0;
  num_of_buffers = 0;
  total_length = 0;
  mss = 0;
  port = 0;
  ctx_id = 0;
  total_hdr_length = 0;
  vlan_tci = 0;
  buffer1 = no_frag;
  buffer2 = no_frag;
  buffer3 = no_frag;
  buffer4 = no_frag;
}

abbrev pub change_entry : (Descriptor → Descriptor) → Option Entry → List Entry → ℕ → List Entry
change_entry f none ring i = ring
change_entry f (some (header o bs)) ring i = ring
change_entry f (some (desc d)) ring i = set ring i (desc (f d))

-- Fields of the descriptor at an index are written.
abbrev pub change_desc : (Descriptor → Descriptor) → List Entry → ℕ → List Entry
change_desc f ring i = change_entry f (get_elem? ring i) ring i

abbrev pub tx_ether_pkt : ℕ
tx_ether_pkt = 0x01

abbrev pub tx_tcp_pkt : ℕ
tx_tcp_pkt = 0x02

abbrev pub tx_udp_pkt : ℕ
tx_udp_pkt = 0x03

abbrev pub tx_tcp_lso : ℕ
tx_tcp_lso = 0x05

abbrev pub tx_tcp_lso6 : ℕ
tx_tcp_lso6 = 0x06

abbrev pub tx_tcpv6_pkt : ℕ
tx_tcpv6_pkt = 0x0b

abbrev pub tx_udpv6_pkt : ℕ
tx_udpv6_pkt = 0x0c

abbrev pub flags_vlan_tagged : ℕ
flags_vlan_tagged = 0x10

abbrev pub flags_vlan_oob : ℕ
flags_vlan_oob = 0x40

-- A half word of the frame in network order.
abbrev pub half_word : List ℕ → ℕ → ℕ
half_word bytes i = get_or bytes i 0 * 256 + get_or bytes (i + 1) 0

-- is_packet_tagged
abbrev pub is_packet_tagged : Skb → Bool
is_packet_tagged skb = half_word skb.bytes 12 == 0x8100

-- The test of PROTO_IS_IP and PROTO_IS_IPV6 for the two ether types.
abbrev pub has_ether_type : ℕ → Skb → Bool → Bool
has_ether_type ty skb tagged = skb.protocol == ty || tagged && half_word skb.bytes 16 == ty

abbrev pub is_ip : Skb → Bool → Bool
is_ip skb tagged = has_ether_type 0x0800 skb tagged

abbrev pub is_ipv6 : Skb → Bool → Bool
is_ipv6 skb tagged = has_ether_type 0x86dd skb tagged

-- The assignments behind the tests of nx_nic_check_tso.
abbrev pub put_offsets : Skb → Descriptor → Descriptor
put_offsets skb d = record d {
  tcp_hdr_offset = skb.transport_offset % 2 ^ 8;
  ip_hdr_offset = skb.network_offset % 2 ^ 8;
}

abbrev pub lso_opcode : Skb → Bool → ℕ → ℕ
lso_opcode skb tagged old =
    if is_ip skb tagged then tx_tcp_lso else if is_ipv6 skb tagged then tx_tcp_lso6 else old

abbrev pub put_lso : Skb → Bool → Descriptor → Descriptor
put_lso skb tagged d = record d {
  total_hdr_length =
      (14 + (if tagged then 4 else 0) + skb.network_header_size + skb.tcp_doff * 4) % 2 ^ 8;
  opcode = lso_opcode skb tagged d.opcode;
}

-- The opcode for a checksum by the card; `none` is the early return.
abbrev pub checksum_opcode : Skb → Bool → ℕ → Option ℕ
checksum_opcode skb tagged old =
    if is_ip skb tagged
    then (if skb.ip_protocol == 6
        then some tx_tcp_pkt
        else if skb.ip_protocol == 17
        then some tx_udp_pkt
        else none)
    else if is_ipv6 skb tagged
    then (if skb.ipv6_nexthdr == 6
        then some tx_tcpv6_pkt
        else if skb.ipv6_nexthdr == 17
        then some tx_udpv6_pkt
        else none)
    else some old

abbrev pub put_checksum : Skb → Option ℕ → Descriptor → Descriptor
put_checksum skb none d = d
put_checksum skb (some code) d = put_offsets skb (record d { opcode = code })

-- nx_nic_check_tso
unfoldable pub check_tso : Skb → Bool → Descriptor → Descriptor
check_tso skb tagged d =
    if ltb 0 d.mss
    then put_offsets skb (put_lso skb tagged d)
    else if skb.checksum_hw
    then put_checksum skb (checksum_opcode skb tagged d.opcode) d
    else put_offsets skb d

-- `flags |= ...`
abbrev pub add_flag : ℕ → Descriptor → Descriptor
add_flag f d = record d { flags = bit_or d.flags f }
