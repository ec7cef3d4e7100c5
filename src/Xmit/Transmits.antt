-- ===== src/Xmit/Transmits.antt =====
-- The contract of unm_nic_xmit_frame, in driver/unm_nic_main.c.
use hp_nx_nic.Prelude.{
  ℕ, ◌+◌, ◌-◌, ◌≤◌, ◌≡◌, refl, sym, ap, Bool, true, false, ◌&&◌, Option, none, some, [], arith, ltb,
  ◌==◌, length, take, if-cases, some-injective,
}
use mathlib.Core.Path.{subst}
use mathlib.Core.Bool.{not}
use mathlib.Core.List.{append-nil}
use hp_nx_nic.CmdRing.Ring.{no_room}
use hp_nx_nic.Xmit.Packet.{Skb, SkbFrag}
use hp_nx_nic.Xmit.Fill.{fill_frags}
use hp_nx_nic.Xmit.Frame.{
  Transmit, TxStatus, netdev_tx_ok, free_skb, drop_packet, is_tagged, max_frags, frag_count,
  total_size, no_of_desc, first_seg_len, start_packet, start_filling, pull_frags, map_frags,
  xmit_locked, xmit_pulled, xmit_frame,
}
use hp_nx_nic.Xmit.Gather.{fill_frags-Filled}
use hp_nx_nic.Xmit.Outcome.{Handled, dropped, requeued, drop_started, finish-Handled}
use hp_nx_nic.Xmit.Outcome.Valid.{IsValid, array_room, start_filling-At, room_left}

-- What __pskb_pull_tail does to a packet: it stays where it is, and loses the fragments whose
-- bytes it moves to the linear part.
pub record PullsTail (pull_tail : Skb → ℕ → Option Skb) : Type 0 where
  pub same_skb : (s s' : Skb) (delta : ℕ) → pull_tail s delta ≡ some s' → s'.id ≡ s.id
  pub fewer :
      (s s' : Skb) (n : ℕ)
      → n ≤ length s.frags
      → pull_tail s (total_size (take n s.frags)) ≡ some s'
      → length s'.frags + n ≤ length s.frags

few_kept : (tagged : Bool) (n : ℕ) → ltb (max_frags tagged) (1 + n) ≡ false → 1 + n ≤ 14
few_kept true n h = ground arith
few_kept false n h = ground arith

some_left : (tagged : Bool) (n : ℕ) → 1 + n - max_frags tagged ≤ n
some_left true n = omega arith
some_left false n = omega arith

few_left :
    (tagged : Bool) (n m : ℕ)
    → ltb (max_frags tagged) (1 + n) ≡ true
    → m + (1 + n - max_frags tagged) ≤ n
    → 1 + m ≤ 14
few_left true n m many h = ground arith
few_left false n m many h = ground arith

locked-IsValid : (t : Transmit) → IsValid t → IsValid (record t { locks = t.locks + 1 })
locked-IsValid t v = record {
  consumer_in = v.consumer_in;
  producer_in = v.producer_in;
  small = v.small;
  sized = v.sized;
  arrays = v.arrays;
  rooms = v.rooms;
}

module _ (pull_tail : Skb → ℕ → Option Skb) (map_data : Skb → ℕ → Option ℕ)
    (map_page : SkbFrag → Option ℕ) where
  map_frags-Handled :
      (p : Skb) (tagged : Bool) (t : Transmit) (o : Option ℕ)
      → IsValid t
      → frag_count p ≤ 14
      → no_room t.ring (no_of_desc p + 2) ≡ false
      → Handled p t (map_frags pull_tail map_data map_page p tagged (start_packet p t) o)
  unfolding map_frags start_packet
  map_frags-Handled p tagged t none v few room = drop_started p tagged t v few
  map_frags-Handled p tagged t (some dma) v few room =
      let size = t.ring.max_tx_desc_count in
      finish-Handled p tagged t v few
        (fill_frags size map_page 1 p.frags
          (start_filling p (start_packet p t) (record { dma = dma; length = first_seg_len p })))
        room
        (fill_frags-Filled size t.ring.cmd_producer array_room v.producer_in map_page 1 p.frags
          (start_filling p (start_packet p t) (record { dma = dma; length = first_seg_len p }))
          (omega arith) (omega (arith, few)) (omega (arith, room_left t p v few room))
          (start_filling-At p t (record { dma = dma; length = first_seg_len p }) v))

  drop_locked : (p : Skb) (t : Transmit) → Handled p t (drop_packet p t)
  drop_locked p t = dropped (record {
    frags = [];
    mapped = sym (append-nil t.mapped);
    unmapped = sym (append-nil t.unmapped);
    freed = refl;
    producer_kept = refl;
    consumer_kept = refl;
    max_kept = refl;
    sized = refl;
    counted = refl;
    locked = refl;
    unlocked = refl;
  })

  xmit_locked-Handled :
      (p : Skb) (tagged : Bool) (t : Transmit)
      → IsValid t
      → frag_count p ≤ 14
      → Handled p t (xmit_locked pull_tail map_data map_page p tagged t)
  unfolding xmit_locked
  xmit_locked-Handled p tagged t v few =
      if-cases (Handled p t) (not t.carrier_ok && not t.loopback_start) (λ e. drop_locked p t)
        (λ e.
          if-cases (Handled p t) (no_room t.ring (no_of_desc p + 2)) (λ full. requeued full)
            (λ room. map_frags-Handled p tagged t (map_data p (first_seg_len p)) v few room))

  pub pull_frags-few :
      (skb p : Skb) (tagged : Bool)
      → PullsTail pull_tail
      → pull_frags pull_tail map_data map_page skb tagged ≡ some p
      → (p.id ≡ skb.id) × (frag_count p ≤ 14)
  unfolding pull_frags
  pull_frags-few skb p tagged pulls =
      if-cases (λ (o : Option Skb). o ≡ some p → (p.id ≡ skb.id) × (frag_count p ≤ 14))
        (ltb (max_frags tagged) (frag_count skb))
        (λ many e.
          let n = frag_count skb - max_frags tagged in
          (
            pulls.same_skb skb p (total_size (take n skb.frags)) e,
            few_left tagged (length skb.frags) (length p.frags) many
                (pulls.fewer skb p n (some_left tagged (length skb.frags)) e),
          ))
        (λ enough e.
          let same : skb ≡ p = some-injective e in
          (
            ap Skb.id (sym same),
            subst (λ q. frag_count q ≤ 14) same (few_kept tagged (length skb.frags) enough),
          ))

  -- The ways out of a call.
  pub data Transmits (skb : Skb) (t : Transmit) : TxStatus × Transmit → Type 0 where
    bad_length :
        skb.len ≡ 0
        → Transmits skb t (netdev_tx_ok, record (free_skb skb t) { badskblen = t.badskblen + 1 })
    not_pulled :
        pull_frags pull_tail map_data map_page skb (is_tagged skb t) ≡ none
        → Transmits skb t (drop_packet skb t)
    handled :
        (p : Skb) {r : TxStatus × Transmit}
        → pull_frags pull_tail map_data map_page skb (is_tagged skb t) ≡ some p
        → p.id ≡ skb.id
        → frag_count p ≤ 14
        → Handled p (record t { locks = t.locks + 1 }) r
        → Transmits skb t r

  pulled-Transmits :
      (skb : Skb) (t : Transmit) (o : Option Skb)
      → PullsTail pull_tail
      → IsValid t
      → pull_frags pull_tail map_data map_page skb (is_tagged skb t) ≡ o
      → Transmits skb t (xmit_pulled pull_tail map_data map_page skb (is_tagged skb t) t o)
  unfolding xmit_pulled
  pulled-Transmits skb t none pulls v e = not_pulled e
  pulled-Transmits skb t (some p) pulls v e =
      let (same, few) = pull_frags-few skb p (is_tagged skb t) pulls e in
      handled p e same few (
        xmit_locked-Handled p (is_tagged skb t) (record t { locks = t.locks + 1 })
          (locked-IsValid t v) few)

  -- If __pskb_pull_tail takes fragments off a packet that stays where it is, then
  -- unm_nic_xmit_frame on a valid adapter ends in one of these ways. It frees an empty packet;
  -- or drops one that could not be pulled; or, with at most 14 fragments, stops the queue and
  -- keeps the packet because the ring has no room; or frees the packet, having taken down
  -- exactly the mappings it made; or posts it: the mappings made are those of the fragArray of its
  -- command buffer, which stand in this order, four in each, in the descriptors from the old
  -- producer index on, and the new index is at most two entries behind them.
  pub xmit_frame-Transmits :
      (skb : Skb) (t : Transmit)
      → PullsTail pull_tail
      → IsValid t
      → Transmits skb t (xmit_frame pull_tail map_data map_page skb t)
  unfolding xmit_frame
  xmit_frame-Transmits skb t pulls v =
      if-cases (Transmits skb t) (skb.len == 0) (λ e. bad_length (ground arith))
        (λ e.
          pulled-Transmits skb t (pull_frags pull_tail map_data map_page skb (is_tagged skb t))
            pulls v refl)
