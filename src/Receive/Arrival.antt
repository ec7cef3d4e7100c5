-- ===== src/Receive/Arrival.antt =====
-- What becomes of the buffer of a packet that arrived, in driver/unm_nic_main.c.
use hp_nx_nic.Prelude.{
  ℕ, ◌+◌, ◌≤◌, ◌<◌, ◌≡◌, ◌≢◌, Bool, true, false, none, some, [], ◌∷◌, ◌++◌, length,
}
use hp_nx_nic.Prelude.Counts.{count}
use hp_nx_nic.Prelude.Kernel.{Outcome, ok}
use hp_nx_nic.Receive.Buffers.{RdsRing, buffer_of}
use hp_nx_nic.Receive.Packet.{Receiving, Arrival, reposted, delivered, is_low}

-- Buffer `i` is with the card: it has an skb and is on no list.
pub record IsPosted (i : ℕ) (t : Receiving) : Type 0 where
  pub skb : ℕ
  pub holds : (buffer_of t.rds i).skb ≡ some skb
  pub inside : i < length t.rds.rx_buf_arr
  pub within : i ≤ t.rds.ring_size
  pub unlinked : count i (t.rds.free_rxbufs.head ++ t.free_rbufs.head) ≡ 0

-- What a packet in buffer `i` leaves: the buffer is on the status ring's list, once, and the others
-- are as they were.
pub record Returned (i : ℕ) (t t' : Receiving) : Type 0 where
  pub linked : t'.free_rbufs.head ≡ t.free_rbufs.head ++ i ∷ []
  pub rds_list : t'.rds.free_rxbufs ≡ t.rds.free_rxbufs
  pub others : (j : ℕ) → i ≢ j → buffer_of t'.rds j ≡ buffer_of t.rds j

-- The ways of a packet whose buffer is with the card.
pub data Arrives (i : ℕ) (t : Receiving) (skb : ℕ) : Outcome (Arrival × Receiving) → Type 0 where
  low :
      {t' : Receiving}
      → is_low t.rds ≡ true
      → Returned i t t'
      → (buffer_of t'.rds i).skb ≡ some skb
      → Arrives i t skb (ok (reposted, t'))
  replaced :
      {t' : Receiving} (new : ℕ)
      → is_low t.rds ≡ false
      → Returned i t t'
      → (buffer_of t'.rds i).skb ≡ some new
      → t'.rds.alloc_failures ≡ t.rds.alloc_failures
      → Arrives i t skb (ok (delivered skb, t'))
  emptied :
      {t' : Receiving}
      → is_low t.rds ≡ false
      → Returned i t t'
      → (buffer_of t'.rds i).skb ≡ none
      → t'.rds.alloc_failures ≡ t.rds.alloc_failures + 1
      → Arrives i t skb (ok (delivered skb, t'))

-- nx_alloc_rx_skb for a buffer without an skb.
data Allocates (b : ℕ) (r : RdsRing) : Bool × RdsRing → Type 0 where
  allocated :
      {r' : RdsRing} (new : ℕ)
      → (buffer_of r' b).skb ≡ some new
      → ((j : ℕ) → b ≢ j → buffer_of r' j ≡ buffer_of r j)
      → r'.free_rxbufs ≡ r.free_rxbufs
      → r'.alloc_failures ≡ r.alloc_failures
      → Allocates b r (true, r')
  starved :
      {r' : RdsRing}
      → r'.rx_buf_arr ≡ r.rx_buf_arr
      → r'.free_rxbufs ≡ r.free_rxbufs
      → r'.alloc_failures ≡ r.alloc_failures
      → Allocates b r (false, r')
