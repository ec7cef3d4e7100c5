-- ===== src/Xmit/Headers.antt =====
-- nx_nic_tso_copy_headers, in driver/unm_nic_main.c: the headers of a large packet are copied into
-- the ring entries behind its descriptors, with the tag that the kernel keeps beside the packet.
use hp_nx_nic.Prelude.{
  ℕ, ◌+◌, ◌-◌, ◌/◌, ◌%◌, ◌^◌, Bool, ◌||◌, Option, none, some, List, [], ◌∷◌, ◌++◌, ◌==◌, ltb,
  if◌then◌else◌, set, get_elem?, take, drop,
}
use hp_nx_nic.CmdRing.Window.{get_next_index}
use hp_nx_nic.Xmit.Packet.{
  Skb, Descriptor, Entry, desc, header, add_flag, flags_vlan_tagged, flags_vlan_oob, tx_tcp_lso,
  tx_tcp_lso6,
}

-- memcpy from `skb->data + from`; behind the linear part, which the headers lie in, there is nothing
-- to copy.
abbrev pub copy_bytes : List ℕ → ℕ → ℕ → List ℕ
copy_bytes bytes from n = take n (drop from bytes)

abbrev pub is_lso : Descriptor → Bool
is_lso d = d.opcode == tx_tcp_lso || d.opcode == tx_tcp_lso6

-- The tag as it stands in a frame: the ether type 0x8100 and the tag control information.
abbrev pub tag_bytes : ℕ → List ℕ
tag_bytes vid = 0x81 ∷ 0x00 ∷ (vid / 2 ^ 8) % 2 ^ 8 ∷ vid % 2 ^ 8 ∷ []

-- The bytes of the first header entry, from offset 2 on. With a tag, its first 16 bytes are the
-- 12 bytes of the addresses and the tag.
abbrev pub first_bytes : Option ℕ → List ℕ → ℕ → List ℕ
first_bytes none bytes n = copy_bytes bytes 0 n
first_bytes (some vid) bytes n =
    copy_bytes bytes 0 12 ++ (tag_bytes (vid % 2 ^ 16) ++ copy_bytes bytes 12 (n - 16))

-- `skbsrc`
abbrev pub more_from : Option ℕ → ℕ → ℕ
more_from none n = n
more_from (some vid) n = n - 4

-- `sizeof(cmdDescType0_t) - IP_ALIGNMENT_BYTES`
abbrev pub first_room : ℕ
first_room = 62

-- `sizeof(cmdDescType0_t)`
abbrev pub entry_size : ℕ
entry_size = 64

-- What is copied to the second entry; the bytes behind its 64 are not in that entry.
abbrev pub more_bytes : Option ℕ → List ℕ → ℕ → ℕ → List ℕ
more_bytes vid bytes hdr_len first_hdr_len =
    copy_bytes bytes (more_from vid first_hdr_len) (hdr_len - first_hdr_len)

abbrev pub copy_more : ℕ → Option ℕ → List ℕ → ℕ → ℕ → ℕ × List Entry → ℕ × List Entry
copy_more size vid bytes hdr_len first_hdr_len (prod, ring) = (
  get_next_index prod size,
  set ring prod (header 0 (take entry_size (more_bytes vid bytes hdr_len first_hdr_len))),
)

abbrev pub copy_first : ℕ → Option ℕ → List ℕ → ℕ → ℕ × List Entry → ℕ × List Entry
copy_first size vid bytes n (prod, ring) =
    (get_next_index prod size, set ring prod (header 2 (first_bytes vid bytes n)))

-- The entries filled for a header of `hdr_len` bytes.
unfoldable pub copy_headers : ℕ → Option ℕ → List ℕ → ℕ → ℕ × List Entry → ℕ × List Entry
copy_headers size vid bytes hdr_len at =
    if ltb first_room hdr_len
    then copy_more size vid bytes hdr_len first_room (copy_first size vid bytes first_room at)
    else copy_first size vid bytes hdr_len at

-- What the second memcpy writes behind its entry.
unfoldable pub overrun_of : Option ℕ → List ℕ → ℕ → List ℕ
overrun_of vid bytes hdr_len =
    if ltb first_room hdr_len then drop entry_size (more_bytes vid bytes hdr_len first_room) else []

-- `flags |= FLAGS_VLAN_OOB`, and the tag.
abbrev pub put_tag : Option ℕ → Descriptor → Descriptor
put_tag none d = d
put_tag (some vid) d = record (add_flag flags_vlan_oob d) { vlan_tci = vid % 2 ^ 16 }

-- The lengths of a large packet's descriptor once a tag is inserted.
abbrev pub make_room_for_tag : Option ℕ → Descriptor → Descriptor
make_room_for_tag none d = d
make_room_for_tag (some vid) d = record (add_flag flags_vlan_tagged d) {
  total_hdr_length = (d.total_hdr_length + 4) % 2 ^ 8;
  tcp_hdr_offset = (d.tcp_hdr_offset + 4) % 2 ^ 8;
  ip_hdr_offset = (d.ip_hdr_offset + 4) % 2 ^ 8;
}

unfoldable pub copy_for : ℕ → Skb → ℕ → ℕ × List Entry → Descriptor → ℕ × List Entry
unfolding copy_headers
copy_for size skb saved (prod, ring) d =
    let lso = make_room_for_tag skb.vlan_tag d in
    if is_lso d
    then copy_headers size skb.vlan_tag skb.bytes lso.total_hdr_length
        (prod, set ring saved (desc lso))
    else (prod, set ring saved (desc d))

abbrev pub tso_copy_entry : ℕ → Skb → ℕ → ℕ × List Entry → Option Entry → ℕ × List Entry
tso_copy_entry size skb saved at none = at
tso_copy_entry size skb saved at (some (header o bs)) = at
tso_copy_entry size skb saved at (some (desc d)) =
    copy_for size skb saved at (put_tag skb.vlan_tag d)

-- nx_nic_tso_copy_headers: the producer index and the ring behind it, `saved` the index of the
-- packet's first descriptor.
unfoldable pub tso_copy_headers : ℕ → Skb → ℕ → ℕ × List Entry → ℕ × List Entry
tso_copy_headers size skb saved (prod, ring) =
    tso_copy_entry size skb saved (prod, ring) (get_elem? ring saved)

-- The bytes that nx_nic_tso_copy_headers writes behind the entries of the headers, for the packet's
-- first descriptor.
unfoldable pub header_overrun : Skb → Option Entry → List ℕ
unfolding overrun_of
header_overrun skb none = []
header_overrun skb (some (header o bs)) = []
header_overrun skb (some (desc d)) =
    let lso = make_room_for_tag skb.vlan_tag (put_tag skb.vlan_tag d) in
    if is_lso (put_tag skb.vlan_tag d)
    then overrun_of skb.vlan_tag skb.bytes lso.total_hdr_length
    else []
