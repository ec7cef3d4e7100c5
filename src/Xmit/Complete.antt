-- ===== src/Xmit/Complete.antt =====
-- What completing the first descriptor and copying the headers leave of the ring, in
-- driver/unm_nic_main.c: nx_nic_check_tso and nx_nic_tso_copy_headers.
use hp_nx_nic.Prelude.{
  ℕ, ◌<◌, ◌≡◌, refl, sym, ap, ◌∙◌, Bool, ◌≢◌, Option, none, some, List, arith, ltb, length, set,
  get_elem?, take, length-set, get_elem?-set_self, get_elem?-set_ne, if-cases,
}
use hp_nx_nic.CmdRing.Window.{get_next_index}
use hp_nx_nic.Xmit.Packet.{
  Skb, Descriptor, Entry, desc, header, change_desc, check_tso, put_checksum, checksum_opcode,
  add_flag, flags_vlan_tagged,
}
use hp_nx_nic.Xmit.Headers.{
  tso_copy_headers, copy_for, copy_headers, first_bytes, entry_size, more_bytes, first_room, is_lso,
  put_tag, make_room_for_tag,
}
use hp_nx_nic.Xmit.Frame.{describe}
use hp_nx_nic.Xmit.Entries.{
  buffer, entry_buffer, buffer_at, length-change_desc, change_desc_ne, change_desc_self,
}

-- The second ring differs in the entry `saved` at most, and that keeps its buffers.
pub record Keeps (saved : ℕ) (ring ring' : List Entry) : Type 0 where
  pub same_length : length ring' ≡ length ring
  pub others : (i : ℕ) → saved ≢ i → get_elem? ring' i ≡ get_elem? ring i
  pub described : (d : Descriptor) × (get_elem? ring' saved ≡ some (desc d))
  pub buffers : (k : ℕ) → buffer_at ring' saved k ≡ buffer_at ring saved k

Keeps-trans : {saved : ℕ} {a b c : List Entry} → Keeps saved a b → Keeps saved b c → Keeps saved a c
Keeps-trans p q = record {
  same_length = q.same_length ∙ p.same_length;
  others = λ i n. q.others i n ∙ p.others i n;
  described = q.described;
  buffers = λ k. q.buffers k ∙ p.buffers k;
}

Keeps-set :
    (saved : ℕ) (ring : List Entry) (d d' : Descriptor)
    → saved < length ring
    → get_elem? ring saved ≡ some (desc d)
    → ((k : ℕ) → buffer k d' ≡ buffer k d)
    → Keeps saved ring (set ring saved (desc d'))
Keeps-set saved ring d d' h e same =
    let there : get_elem? (set ring saved (desc d')) saved ≡ some (desc d') =
      get_elem?-set_self ring saved (desc d') h in
    record {
      same_length = length-set ring saved (desc d');
      others = λ i n. get_elem?-set_ne ring (desc d') n;
      described = (d', there);
      buffers = λ k. ap (entry_buffer k) there ∙ (ap some (same k) ∙ sym (ap (entry_buffer k) e));
    }

Keeps-change :
    (f : Descriptor → Descriptor) (saved : ℕ) (ring : List Entry) (d : Descriptor)
    → saved < length ring
    → get_elem? ring saved ≡ some (desc d)
    → ((k : ℕ) → buffer k (f d) ≡ buffer k d)
    → Keeps saved ring (change_desc f ring saved)
Keeps-change f saved ring d h e same =
    let there : get_elem? (change_desc f ring saved) saved ≡ some (desc (f d)) =
      change_desc_self f ring saved d h e in
    record {
      same_length = length-change_desc f ring saved;
      others = λ i n. change_desc_ne f ring saved i n;
      described = (f d, there);
      buffers = λ k. ap (entry_buffer k) there ∙ (ap some (same k) ∙ sym (ap (entry_buffer k) e));
    }

buffer-put_checksum :
    (skb : Skb) (o : Option ℕ) (d : Descriptor) (k : ℕ)
    → buffer k (put_checksum skb o d) ≡ buffer k d
buffer-put_checksum skb none d k = refl
buffer-put_checksum skb (some c) d k = refl

buffer-check_tso :
    (skb : Skb) (tagged : Bool) (d : Descriptor) (k : ℕ)
    → buffer k (check_tso skb tagged d) ≡ buffer k d
unfolding check_tso
buffer-check_tso skb tagged d k =
    if-cases (λ x. buffer k x ≡ buffer k d) (ltb 0 d.mss) (λ e. refl)
      (λ e.
        if-cases (λ x. buffer k x ≡ buffer k d) skb.checksum_hw
          (λ e'. buffer-put_checksum skb (checksum_opcode skb tagged d.opcode) d k) (λ e'. refl))

pub describe-Keeps :
    (skb : Skb) (tagged : Bool) (saved : ℕ) (ring : List Entry) (d : Descriptor)
    → saved < length ring
    → get_elem? ring saved ≡ some (desc d)
    → Keeps saved ring (describe skb tagged saved ring)
unfolding describe
describe-Keeps skb tagged saved ring d h e =
    let checked : Keeps saved ring (change_desc (check_tso skb tagged) ring saved) =
      Keeps-change (check_tso skb tagged) saved ring d h e (buffer-check_tso skb tagged d) in
    let (d', e') = checked.described in
    if-cases (Keeps saved ring) tagged
      (λ t. Keeps-trans checked (
        Keeps-change (add_flag flags_vlan_tagged) saved
          (change_desc (check_tso skb tagged) ring saved) d' (omega (arith, checked.same_length, h))
          e' (λ k. refl)))
      (λ t. checked)

-- The outcomes of copying the headers: none, one or two entries from the producer index on.
pub data Copied (size saved : ℕ) (ring : List Entry) (prod : ℕ) : ℕ × List Entry → Type 0 where
  no_entry :
      {ring' : List Entry} → Keeps saved ring ring' → Copied size saved ring prod (prod, ring')
  one_entry :
      {ring' : List Entry} (e : Entry)
      → Keeps saved ring ring'
      → Copied size saved ring prod (get_next_index prod size, set ring' prod e)
  two_entries :
      {ring' : List Entry} (e e' : Entry)
      → Keeps saved ring ring'
      → Copied size saved ring prod (
        get_next_index (get_next_index prod size) size,
        set (set ring' prod e) (get_next_index prod size) e',
      )

buffer-put_tag : (vid : Option ℕ) (d : Descriptor) (k : ℕ) → buffer k (put_tag vid d) ≡ buffer k d
buffer-put_tag none d k = refl
buffer-put_tag (some v) d k = refl

buffer-make_room :
    (vid : Option ℕ) (d : Descriptor) (k : ℕ) → buffer k (make_room_for_tag vid d) ≡ buffer k d
buffer-make_room none d k = refl
buffer-make_room (some v) d k = refl

copy_headers-Copied :
    (size saved : ℕ) (ring ring' : List Entry) (prod : ℕ) (vid : Option ℕ) (bytes : List ℕ)
    (hdr_len : ℕ)
    → Keeps saved ring ring'
    → Copied size saved ring prod (copy_headers size vid bytes hdr_len (prod, ring'))
unfolding copy_headers
copy_headers-Copied size saved ring ring' prod vid bytes n keeps =
    if-cases (Copied size saved ring prod) (ltb first_room n)
      (λ e.
        two_entries (header 2 (first_bytes vid bytes first_room))
          (header 0 (take entry_size (more_bytes vid bytes n first_room))) keeps)
      (λ e. one_entry (header 2 (first_bytes vid bytes n)) keeps)

copy_for-Copied :
    (size saved : ℕ) (skb : Skb) (ring : List Entry) (prod : ℕ) (d d0 : Descriptor)
    → saved < length ring
    → get_elem? ring saved ≡ some (desc d0)
    → ((k : ℕ) → buffer k d ≡ buffer k d0)
    → Copied size saved ring prod (copy_for size skb saved (prod, ring) d)
unfolding copy_for
copy_for-Copied size saved skb ring prod d d0 h e same =
    let lso = make_room_for_tag skb.vlan_tag d in
    if-cases (Copied size saved ring prod) (is_lso d)
      (λ t.
        copy_headers-Copied size saved ring (set ring saved (desc lso)) prod skb.vlan_tag skb.bytes
          lso.total_hdr_length
          (Keeps-set saved ring d0 lso h e (λ k. buffer-make_room skb.vlan_tag d k ∙ same k)))
      (λ t. no_entry (Keeps-set saved ring d0 d h e same))

pub tso_copy_headers-Copied :
    (size saved : ℕ) (skb : Skb) (ring : List Entry) (prod : ℕ) (d : Descriptor)
    → saved < length ring
    → get_elem? ring saved ≡ some (desc d)
    → Copied size saved ring prod (tso_copy_headers size skb saved (prod, ring))
unfolding tso_copy_headers
tso_copy_headers-Copied size saved skb ring prod d h e = rw e (
    copy_for-Copied size saved skb ring prod (put_tag skb.vlan_tag d) d h e
      (buffer-put_tag skb.vlan_tag d))
