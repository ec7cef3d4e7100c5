-- ===== src/Xmit/Outcome/Valid.antt =====
-- The states that the transmit path runs in, and the first fragment.
use hp_nx_nic.Prelude.{
  get_or-get, ℕ, ◌+◌, ◌/◌, ◌%◌, ◌^◌, ◌≤◌, ◌<◌, ◌≡◌, refl, sym, ap, ◌∙◌, false, some, List, [], ◌∷◌,
  arith, length, set, get_elem?, get_or, take, length-set, get_elem?-set_self, get_elem?-lt,
  some-injective,
}
use hp_nx_nic.CmdRing.Window.{wrap}
use hp_nx_nic.CmdRing.Ring.{no_room}
use hp_nx_nic.Xmit.Packet.{Skb, Frag, Descriptor, desc, Entry, change_desc, zero_descriptor}
use hp_nx_nic.Xmit.Fill.{field}
use hp_nx_nic.Xmit.Frame.{
  Transmit, frag_count, no_of_desc, packet_mss, put_first, start_packet, start_filling,
}
use hp_nx_nic.Xmit.Entries.{entry_buffer, buffer_at, Holds, length-change_desc, change_desc_self}
use hp_nx_nic.Xmit.Gather.Step.{At}

-- MAX_BUFFERS_PER_CMD + 1
abbrev pub array_room : ℕ
array_room = 17

pub record IsValid (t : Transmit) : Type 0 where
  pub consumer_in : t.ring.last_cmd_consumer < t.ring.max_tx_desc_count
  pub producer_in : t.ring.cmd_producer < t.ring.max_tx_desc_count
  pub small : t.ring.max_tx_desc_count < 2 ^ 31
  pub sized : length t.ring.cmd_desc_head ≡ t.ring.max_tx_desc_count
  pub arrays : length t.frag_arrays ≡ t.ring.max_tx_desc_count
  pub rooms :
      (i : ℕ) (fs : List Frag) → get_elem? t.frag_arrays i ≡ some fs → length fs ≡ array_room

own_array :
    (t : Transmit) → IsValid t → length (get_or t.frag_arrays t.ring.cmd_producer []) ≡ array_room
own_array t v =
    let (fs, e) =
      get_elem?-lt t.frag_arrays t.ring.cmd_producer (omega (arith, v.arrays, v.producer_in)) in
    ap length (get_or-get t.frag_arrays t.ring.cmd_producer fs [] e)
    ∙ v.rooms t.ring.cmd_producer fs e

-- The room test leaves the entries that a packet may use free.
pub room_left :
    (t : Transmit) (p : Skb)
    → IsValid t
    → frag_count p ≤ 14
    → no_room t.ring (no_of_desc p + 2) ≡ false
    → (frag_count p + 3) / 4 + 2 < t.ring.max_tx_desc_count
room_left t p v few h = ground arith

first_taken : (fs : List Frag) (f : Frag) → 0 < length fs → f ∷ [] ≡ take 1 (set fs 0 f)
first_taken [] f h = absurd (omega arith)
first_taken (x ∷ xs) f h = refl

-- A ring with the first descriptor written is at fragment 1.
first-Holds :
    (size saved : ℕ) (ring : List Entry) (fs : List Frag) (f : Frag) (d : Descriptor)
    → saved < size
    → get_elem? ring saved ≡ some (desc d)
    → d.buffer1 ≡ field f
    → 0 < length fs
    → Holds size ring saved (set fs 0 f) 1
first-Holds size saved ring fs f d h e same room j g hj hg =
    let first : j ≡ 0 = omega arith in
    let which : f ≡ g =
      some-injective
        (sym (get_elem?-set_self fs 0 f room) ∙ (ap (get_elem? (set fs 0 f)) (sym first) ∙ hg)) in
    let index : wrap size (saved + 0 / 4) ≡ saved = ground arith in
    ap (λ n. buffer_at ring (wrap size (saved + n / 4)) (n % 4)) first
    ∙ (ap (λ i. buffer_at ring i 0) index
        ∙ (ap (entry_buffer 0) e ∙ ap some (same ∙ ap field which)))

pub start_filling-At :
    (p : Skb) (t : Transmit) (f : Frag)
    → IsValid t
    → At t.ring.max_tx_desc_count t.ring.cmd_producer array_room 1
        (start_filling p (start_packet p t) f)
unfolding start_filling start_packet
start_filling-At p t f v =
    let size = t.ring.max_tx_desc_count in
    let saved = t.ring.cmd_producer in
    let fs = get_or t.frag_arrays saved [] in
    let blank : Descriptor = record zero_descriptor { mss = packet_mss p t % 2 ^ 16 } in
    let ring0 = set t.ring.cmd_desc_head saved (desc blank) in
    let put = put_first p (start_packet p t) f in
    let in_ring : saved < length t.ring.cmd_desc_head = omega (arith, v.sized, v.producer_in) in
    let in_ring0 : saved < length ring0 =
      omega (arith, length-set t.ring.cmd_desc_head saved (desc blank), in_ring) in
    let there : get_elem? (change_desc put ring0 saved) saved ≡ some (desc (put blank)) =
      change_desc_self put ring0 saved blank in_ring0
        (get_elem?-set_self t.ring.cmd_desc_head saved (desc blank) in_ring) in
    let room : length fs ≡ array_room = own_array t v in
    record {
      mapped_all = first_taken fs f (omega (arith, room));
      unmapped_none = refl;
      producer_at = ground (arith, v.producer_in);
      k_at = refl;
      sized =
          length-change_desc put ring0 saved
          ∙ (length-set t.ring.cmd_desc_head saved (desc blank) ∙ v.sized);
      described = (put blank, there);
      roomy = length-set fs 0 f ∙ room;
      holds =
          first-Holds size saved (change_desc put ring0 saved) fs f (put blank) v.producer_in there
            refl (omega (arith, room));
    }
