-- ===== src/Receive/Prepare.antt =====
-- What getting a buffer ready for the card does, in driver/unm_nic_main.c: nx_alloc_rx_skb.
use hp_nx_nic.Prelude.{
  get_or-set_self, get_or-set_ne, ℕ, zero, suc, ◌+◌, ◌<◌, ◌≡◌, ◌≢◌, refl, ap, ◌∙◌, Bool, true,
  false, Option, none, some, List, [], ◌∷◌, length, set, get_or, length-set,
}
use hp_nx_nic.Receive.Buffers.{
  RxBuffer, RdsRing, no_buffer, buffer_of, put_skb, take_skb, alloc_rx_skb, count_refill, refill,
  ready_for, ready_buffer,
}

-- What the preparation of a buffer keeps of the ring.
pub record Prepares (b : ℕ) (r r' : RdsRing) : Type 0 where
  pub size_kept : r'.ring_size ≡ r.ring_size
  pub descs_kept : r'.desc_head ≡ r.desc_head
  pub dma_size_kept : r'.dma_size ≡ r.dma_size
  pub free_kept : r'.free_rxbufs ≡ r.free_rxbufs
  pub host_kept : r'.host_rx_producer ≡ r.host_rx_producer
  pub others : (i : ℕ) → b ≢ i → buffer_of r' i ≡ buffer_of r i
  pub handle_kept : (i : ℕ) → (buffer_of r' i).ref_handle ≡ (buffer_of r i).ref_handle
  pub buffers_kept : length r'.rx_buf_arr ≡ length r.rx_buf_arr

-- A write that keeps the handle keeps every handle.
handle-set :
    (xs : List RxBuffer) (i j : ℕ) (x : RxBuffer)
    → x.ref_handle ≡ (get_or xs i no_buffer).ref_handle
    → (get_or (set xs i x) j no_buffer).ref_handle ≡ (get_or xs j no_buffer).ref_handle
handle-set [] i j x e = refl
handle-set (y ∷ ys) zero zero x e = e
handle-set (y ∷ ys) zero (suc j) x e = refl
handle-set (y ∷ ys) (suc i) zero x e = refl
handle-set (y ∷ ys) (suc i) (suc j) x e = handle-set ys i j x e

-- Fields that posting does not read may change.
pub Prepares-same :
    (b : ℕ) (r r' : RdsRing)
    → r'.ring_size ≡ r.ring_size
    → r'.desc_head ≡ r.desc_head
    → r'.dma_size ≡ r.dma_size
    → r'.free_rxbufs ≡ r.free_rxbufs
    → r'.host_rx_producer ≡ r.host_rx_producer
    → r'.rx_buf_arr ≡ r.rx_buf_arr
    → Prepares b r r'
Prepares-same b r r' size descs dma free host arr = record {
  size_kept = size;
  descs_kept = descs;
  dma_size_kept = dma;
  free_kept = free;
  host_kept = host;
  others = λ i n. ap (λ xs. get_or xs i no_buffer) arr;
  handle_kept = λ i. ap (λ xs. (get_or xs i no_buffer).ref_handle) arr;
  buffers_kept = ap length arr;
}

Prepares-trans :
    {b : ℕ} {r r' r'' : RdsRing} → Prepares b r r' → Prepares b r' r'' → Prepares b r r''
Prepares-trans p q = record {
  size_kept = q.size_kept ∙ p.size_kept;
  descs_kept = q.descs_kept ∙ p.descs_kept;
  dma_size_kept = q.dma_size_kept ∙ p.dma_size_kept;
  free_kept = q.free_kept ∙ p.free_kept;
  host_kept = q.host_kept ∙ p.host_kept;
  others = λ i n. q.others i n ∙ p.others i n;
  handle_kept = λ i. q.handle_kept i ∙ p.handle_kept i;
  buffers_kept = q.buffers_kept ∙ p.buffers_kept;
}

-- The preparation, and the skb that it leaves in the buffer if it succeeds.
pub data Prepared (b : ℕ) (r : RdsRing) : Bool × RdsRing → Type 0 where
  prepared :
      {r' : RdsRing} (skb : ℕ)
      → Prepares b r r'
      → (buffer_of r' b).skb ≡ some skb
      → Prepared b r (true, r')
  refused : {r' : RdsRing} → Prepares b r r' → Prepared b r (false, r')

module _ (alloc_skb : ℕ → Option ℕ) (map_skb : ℕ → Option ℕ) where
  put_skb-Prepared :
      (b skb : ℕ) (o : Option ℕ) (r : RdsRing)
      → b < length r.rx_buf_arr
      → Prepared b r (put_skb alloc_skb map_skb b skb o r)
  put_skb-Prepared b skb none r h =
      refused (Prepares-same b r (record r { freed = skb ∷ r.freed }) refl refl refl refl refl refl)
  put_skb-Prepared b skb (some dma) r h =
      let x : RxBuffer = record (buffer_of r b) { skb = some skb; busy = true; dma = dma } in
      prepared skb
        (record {
          size_kept = refl;
          descs_kept = refl;
          dma_size_kept = refl;
          free_kept = refl;
          host_kept = refl;
          others = λ i n. get_or-set_ne r.rx_buf_arr b i x no_buffer n;
          handle_kept = λ i. handle-set r.rx_buf_arr b i x refl;
          buffers_kept = length-set r.rx_buf_arr b x;
        })
        (ap RxBuffer.skb (get_or-set_self r.rx_buf_arr b x no_buffer h))

  take_skb-Prepared :
      (b : ℕ) (o : Option ℕ) (r : RdsRing)
      → b < length r.rx_buf_arr
      → Prepared b r (take_skb alloc_skb map_skb b o r)
  take_skb-Prepared b none r h = refused (Prepares-same b r r refl refl refl refl refl refl)
  take_skb-Prepared b (some skb) r h = put_skb-Prepared b skb (map_skb skb) r h

  Prepared-trans :
      (b : ℕ) (r r1 : RdsRing) (out : Bool × RdsRing)
      → Prepares b r r1
      → Prepared b r1 out
      → Prepared b r out
  Prepared-trans b r r1 out p (prepared skb q e) = prepared skb (Prepares-trans p q) e
  Prepared-trans b r r1 out p (refused q) = refused (Prepares-trans p q)

  -- nx_alloc_rx_skb gives the buffer an skb, or leaves every buffer as it was.
  pub alloc_rx_skb-Prepared :
      (b : ℕ) (r : RdsRing)
      → b < length r.rx_buf_arr
      → Prepared b r (alloc_rx_skb alloc_skb map_skb b r)
  unfolding alloc_rx_skb
  alloc_rx_skb-Prepared b r h =
      let asked : RdsRing = record r { allocs = r.allocs + 1 } in
      Prepared-trans b r asked (take_skb alloc_skb map_skb b (alloc_skb r.allocs) asked)
        (Prepares-same b r asked refl refl refl refl refl refl)
        (take_skb-Prepared b (alloc_skb r.allocs) asked h)

  count_refill-Prepared :
      (b : ℕ) (r : RdsRing) (out : Bool × RdsRing)
      → Prepared b r out
      → Prepared b r (count_refill out)
  count_refill-Prepared b r out (prepared {r' = r'} skb p e) =
      prepared skb
        (Prepares-trans p
          (Prepares-same b r' (count_refill (true, r')).1 refl refl refl refl refl refl))
        e
  count_refill-Prepared b r out (refused {r' = r'} p) = refused (
      Prepares-trans p
        (Prepares-same b r' (count_refill (false, r')).1 refl refl refl refl refl refl))

  ready_for-Prepared :
      (b : ℕ) (o : Option ℕ) (r : RdsRing)
      → b < length r.rx_buf_arr
      → (buffer_of r b).skb ≡ o
      → Prepared b r (ready_for alloc_skb map_skb b o r)
  unfolding refill
  ready_for-Prepared b none r h e =
      count_refill-Prepared b r (alloc_rx_skb alloc_skb map_skb b r) (alloc_rx_skb-Prepared b r h)
  ready_for-Prepared b (some skb) r h e =
      prepared skb (Prepares-same b r r refl refl refl refl refl refl) e

  pub ready_buffer-Prepared :
      (b : ℕ) (r : RdsRing)
      → b < length r.rx_buf_arr
      → Prepared b r (ready_buffer alloc_skb map_skb b r)
  unfolding ready_buffer
  ready_buffer-Prepared b r h = ready_for-Prepared b (buffer_of r b).skb r h refl
