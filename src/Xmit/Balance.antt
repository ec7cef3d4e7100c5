-- ===== src/Xmit/Balance.antt =====
-- What every call of unm_nic_xmit_frame keeps, in driver/unm_nic_main.c: the ring and its lock.
use hp_nx_nic.Prelude.{ℕ, ◌+◌, ◌/◌, ◌≤◌, ◌<◌, ◌≡◌, refl, sym, ◌∙◌, false, Option, arith, length}
use hp_nx_nic.CmdRing.Window.{wrap}
use hp_nx_nic.CmdRing.Ring.{Adapter, no_room}
use hp_nx_nic.CmdRing.Ring.Fifo.{in_flight}
use hp_nx_nic.Xmit.Packet.{Skb, SkbFrag, Entry}
use hp_nx_nic.Xmit.Frame.{Transmit, TxStatus, frag_count, no_of_desc, xmit_frame}
use hp_nx_nic.Xmit.Outcome.{Handled, sent, dropped, requeued}
use hp_nx_nic.Xmit.Outcome.Valid.{IsValid, room_left}
use hp_nx_nic.Xmit.Transmits.{
  PullsTail, Transmits, bad_length, not_pulled, handled, xmit_frame-Transmits,
}

-- The indices stay in the ring, and the entries between them grow by those of a packet.
pub record Grows (a a' : Adapter Entry) : Type 0 where
  pub used : ℕ
  pub at_most : used ≤ 6
  pub grown : in_flight a' ≡ in_flight a + used
  pub below : in_flight a' < a.max_tx_desc_count
  pub producer_in : a'.cmd_producer < a'.max_tx_desc_count
  pub max_kept : a'.max_tx_desc_count ≡ a.max_tx_desc_count
  pub consumer_kept : a'.last_cmd_consumer ≡ a.last_cmd_consumer
  pub sized : length a'.cmd_desc_head ≡ a'.max_tx_desc_count

kept-Grows :
    (t : Transmit) (a' : Adapter Entry)
    → IsValid t
    → a'.cmd_producer ≡ t.ring.cmd_producer
    → a'.max_tx_desc_count ≡ t.ring.max_tx_desc_count
    → a'.last_cmd_consumer ≡ t.ring.last_cmd_consumer
    → length a'.cmd_desc_head ≡ length t.ring.cmd_desc_head
    → Grows t.ring a'
kept-Grows t a' v ep em ec el = record {
  used = 0;
  at_most = omega arith;
  grown = ground (arith, ep, em, ec);
  below = ground (arith, ep, em, ec, v.consumer_in, v.producer_in);
  producer_in = omega (arith, ep, em, v.producer_in);
  max_kept = em;
  consumer_kept = ec;
  sized = el ∙ (v.sized ∙ sym em);
}

-- With the room that the test found, the entries of a packet do not reach the consumer.
sent_arithmetic :
    (t : Transmit) (p : Skb) (used producer : ℕ)
    → IsValid t
    → frag_count p ≤ 14
    → no_room t.ring (no_of_desc p + 2) ≡ false
    → used ≤ (frag_count p + 3) / 4 + 2
    → producer ≡ wrap t.ring.max_tx_desc_count (t.ring.cmd_producer + used)
    → (producer < t.ring.max_tx_desc_count)
      × (in_flight (record t.ring { cmd_producer = producer }) ≡ in_flight t.ring + used)
      × (in_flight t.ring + used < t.ring.max_tx_desc_count)
sent_arithmetic t p used producer v few room most e = (
  ground (arith, e, most, v.consumer_in, v.producer_in, room_left t p v few room),
  ground (arith, e, most, v.consumer_in, v.producer_in, v.small, room, few),
  ground (arith, most, v.consumer_in, v.producer_in, v.small, room, few),
)

sent-Grows :
    (t : Transmit) (p : Skb) (a' : Adapter Entry) (used : ℕ)
    → IsValid t
    → frag_count p ≤ 14
    → no_room t.ring (no_of_desc p + 2) ≡ false
    → used ≤ (frag_count p + 3) / 4 + 2
    → a'.cmd_producer ≡ wrap t.ring.max_tx_desc_count (t.ring.cmd_producer + used)
    → a'.max_tx_desc_count ≡ t.ring.max_tx_desc_count
    → a'.last_cmd_consumer ≡ t.ring.last_cmd_consumer
    → length a'.cmd_desc_head ≡ t.ring.max_tx_desc_count
    → Grows t.ring a'
sent-Grows t p a' used v few room most ep em ec el =
    let (inside, grown, below) = sent_arithmetic t p used a'.cmd_producer v few room most ep in
    let same : in_flight a' ≡ in_flight (record t.ring { cmd_producer = a'.cmd_producer }) =
      ground (arith, em, ec) in
    record {
      used = used;
      at_most = omega (arith, most, few);
      grown = same ∙ grown;
      below = omega (arith, same, grown, below);
      producer_in = omega (arith, inside, em);
      max_kept = em;
      consumer_kept = ec;
      sized = el ∙ sym em;
    }

Handled-Grows :
    (t : Transmit) (p : Skb) (r : TxStatus × Transmit)
    → IsValid t
    → frag_count p ≤ 14
    → Handled p (record t { locks = t.locks + 1 }) r
    → Grows t.ring r.1.ring
Handled-Grows t p r v few (requeued full) = kept-Grows t r.1.ring v refl refl refl refl
Handled-Grows t p r v few (dropped d) =
    kept-Grows t r.1.ring v d.producer_kept d.max_kept d.consumer_kept d.sized
Handled-Grows t p r v few (sent room s) =
    sent-Grows t p r.1.ring s.described.used v few room s.described.at_most s.described.index
      s.max_kept s.consumer_kept s.described.sized

Transmits-Grows :
    (pull_tail : Skb → ℕ → Option Skb) (map_data : Skb → ℕ → Option ℕ)
    (map_page : SkbFrag → Option ℕ) (skb : Skb) (t : Transmit) (r : TxStatus × Transmit)
    → IsValid t
    → Transmits pull_tail map_data map_page skb t r
    → Grows t.ring r.1.ring
Transmits-Grows pull_tail map_data map_page skb t r v (bad_length e) =
    kept-Grows t r.1.ring v refl refl refl refl
Transmits-Grows pull_tail map_data map_page skb t r v (not_pulled e) =
    kept-Grows t r.1.ring v refl refl refl refl
Transmits-Grows pull_tail map_data map_page skb t r v (handled p e same few h) =
    Handled-Grows t p r v few h

-- If __pskb_pull_tail takes fragments off a packet that stays where it is, then on a valid adapter
-- unm_nic_xmit_frame moves the producer index so that the entries between the consumer index and it
-- grow by at most six, whatever happens: they stay fewer than the ring has, the producer index stays
-- in the ring, and the consumer index and the size of the ring stay.
pub xmit_frame-Grows :
    (pull_tail : Skb → ℕ → Option Skb) (map_data : Skb → ℕ → Option ℕ)
    (map_page : SkbFrag → Option ℕ) (skb : Skb) (t : Transmit)
    → PullsTail pull_tail
    → IsValid t
    → Grows t.ring (xmit_frame pull_tail map_data map_page skb t).1.ring
xmit_frame-Grows pull_tail map_data map_page skb t pulls v =
    Transmits-Grows pull_tail map_data map_page skb t (xmit_frame pull_tail map_data map_page skb t)
      v (xmit_frame-Transmits pull_tail map_data map_page skb t pulls v)

-- The call locked and unlocked equally often.
abbrev pub Balanced : Transmit → Transmit → Type 0
Balanced t t' = t'.unlocks + t.locks ≡ t'.locks + t.unlocks
