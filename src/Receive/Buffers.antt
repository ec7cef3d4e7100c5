-- ===== src/Receive/Buffers.antt =====
-- The buffers of a receive ring and their way to the card, in driver/unm_nic_main.c:
-- nx_alloc_rx_skb, nx_post_rx_descriptors, nx_post_freed_rxbufs and unm_post_rx_buffers.
use Prim.Native.Nat.{bit_and}
use hp_nx_nic.Prelude.{
  ℕ, ◌+◌, ◌-◌, Bool, true, false, ◌&&◌, ◌||◌, Option, none, some, List, [], ◌∷◌, ◌++◌, ltb, ◌==◌,
  if◌then◌else◌, set, get_or,
}
use hp_nx_nic.Prelude.Words.{add32, sub32}
use hp_nx_nic.CmdRing.Window.{get_next_index}

-- `struct unm_rx_buffer`; an skb is its address.
pub record RxBuffer : Type 0 where
  pub skb : Option ℕ
  pub dma : ℕ
  pub ref_handle : ℕ
  pub busy : Bool
  pub lro_current_frags : ℕ
  pub lro_expected_frags : ℕ

-- `rcvDesc_t`
pub record RcvDesc : Type 0 where
  pub reference_handle : ℕ
  pub buffer_length : ℕ
  pub addr_buffer : ℕ

-- `nx_free_rbufs_t`: a buffer on the list is its index in `rx_buf_arr`.
pub record FreeBufs : Type 0 where
  pub count : ℕ
  pub head : List ℕ

-- What posting uses of `rds_host_ring_t` and `nx_host_rds_ring_t`. `host_rx_producer` is the last
-- value written to that register, `allocs` counts the skbs asked for, `freed` lists those given
-- back.
pub record RdsRing : Type 0 where
  pub ring_size : ℕ
  pub desc_head : List RcvDesc
  pub producer : ℕ
  pub dma_size : ℕ
  pub rx_buf_arr : List RxBuffer
  pub alloc_failures : ℕ
  pub posting : Bool
  pub free_rxbufs : FreeBufs
  pub host_rx_producer : Option ℕ
  pub alloc_failures_def : ℕ
  pub allocs : ℕ
  pub freed : List ℕ

-- What an index outside the array would show.
abbrev pub no_buffer : RxBuffer
no_buffer = record {
  skb = none;
  dma = 0;
  ref_handle = 0;
  busy = false;
  lro_current_frags = 0;
  lro_expected_frags = 0;
}

abbrev pub buffer_of : RdsRing → ℕ → RxBuffer
buffer_of r b = get_or r.rx_buf_arr b no_buffer

abbrev pub set_buffer : ℕ → RxBuffer → RdsRing → RdsRing
set_buffer b x r = record r { rx_buf_arr = set r.rx_buf_arr b x }

abbrev pub is_empty : List ℕ → Bool
is_empty [] = true
is_empty (x ∷ xs) = false

abbrev pub no_bufs : FreeBufs
no_bufs = record { count = 0; head = [] }

-- What posting a buffer leaves behind: the ring, the producer index and the number of buffers.
pub record Posting : Type 0 where
  pub rds : RdsRing
  pub at : ℕ
  pub count : ℕ

abbrev pub rcv_desc : RdsRing → RxBuffer → RcvDesc
rcv_desc r x = record {
  reference_handle = x.ref_handle;
  buffer_length = r.dma_size;
  addr_buffer = x.dma;
}

-- The part of the loop behind the allocation.
unfoldable pub write_desc : ℕ → Posting → Posting
write_desc b s = record s {
  rds = record s.rds { desc_head = set s.rds.desc_head s.at (rcv_desc s.rds (buffer_of s.rds b)) };
  at = get_next_index s.at s.rds.ring_size;
  count = s.count + 1;
}

-- The counters behind an allocation; `alloc_failures` goes down if it is above 0.
abbrev pub count_refill : Bool × RdsRing → Bool × RdsRing
count_refill (true, r) = (true, record r { alloc_failures = r.alloc_failures - 1 })
count_refill (false, r) = (false, record r { alloc_failures_def = r.alloc_failures_def + 1 })

-- The buffers that are left go back to the ring's own list.
abbrev pub give_back : List ℕ → ℕ → RdsRing → RdsRing
give_back rest count r = if is_empty rest then r else (record r {
  free_rxbufs = record {
    count = add32 r.free_rxbufs.count count;
    head = r.free_rxbufs.head ++ rest;
  };
})

-- "write the count to Phantom"
abbrev pub ring_doorbell : ℕ → RdsRing → RdsRing
ring_doorbell count r =
    if ltb 0 count
    then (record r { host_rx_producer = some (bit_and (sub32 r.producer 1) (sub32 r.ring_size 1)) })
    else r

-- The part behind the loop.
unfoldable pub finish_post : FreeBufs → List ℕ × Posting → ℕ × RdsRing
finish_post free (rest, s) =
    let back = give_back rest (sub32 free.count s.count) s.rds in
    (s.count, record (ring_doorbell s.count (record back { producer = s.at })) { posting = false })

-- The ring's list is taken over, and `posting` set.
abbrev pub start_posting : RdsRing → RdsRing
start_posting r = record r { free_rxbufs = no_bufs; posting = true }

-- The buffers of a status ring join those of the receive ring.
abbrev pub splice : FreeBufs → RdsRing → FreeBufs × RdsRing
splice f r = if is_empty f.head then (f, r) else (
  no_bufs,
  record r {
    free_rxbufs = record {
      count = add32 r.free_rxbufs.count f.count;
      head = r.free_rxbufs.head ++ f.head;
    };
  },
)

abbrev pub not_posting : RdsRing → Bool
not_posting r = if r.posting then false else ltb 0 r.free_rxbufs.count

-- The answers of the kernel: ALLOC_SKB by the number of the call, and try_map_skb_data.
module _ (alloc_skb : ℕ → Option ℕ) (map_skb : ℕ → Option ℕ) where
  abbrev pub put_skb : ℕ → ℕ → Option ℕ → RdsRing → Bool × RdsRing
  put_skb b skb none r = (false, record r { freed = skb ∷ r.freed })
  put_skb b skb (some dma) r =
      (true, set_buffer b (record (buffer_of r b) { skb = some skb; busy = true; dma = dma }) r)

  abbrev pub take_skb : ℕ → Option ℕ → RdsRing → Bool × RdsRing
  take_skb b none r = (false, r)
  take_skb b (some skb) r = put_skb b skb (map_skb skb) r

  -- nx_alloc_rx_skb: `true` for the result 0, `false` for -ENOMEM.
  unfoldable pub alloc_rx_skb : ℕ → RdsRing → Bool × RdsRing
  alloc_rx_skb b r = take_skb b (alloc_skb r.allocs) (record r { allocs = r.allocs + 1 })

  -- A buffer without an skb gets one, or the loop ends.
  unfoldable pub refill : ℕ → RdsRing → Bool × RdsRing
  unfolding alloc_rx_skb
  refill b r = count_refill (alloc_rx_skb b r)

  abbrev pub ready_for : ℕ → Option ℕ → RdsRing → Bool × RdsRing
  ready_for b none r = refill b r
  ready_for b (some skb) r = (true, r)

  unfoldable pub ready_buffer : ℕ → RdsRing → Bool × RdsRing
  ready_buffer b r = ready_for b (buffer_of r b).skb r

  -- The loop: the buffers that it leaves on the list, and what it did.
  unfoldable pub post_buffers : List ℕ → Posting → List ℕ × Posting
  unfolding ready_buffer write_desc
  post_buffers [] s = ([], s)
  post_buffers (b ∷ bs) s =
      let (ok, r) = ready_buffer b s.rds in
      let rest = post_buffers bs (write_desc b (record s { rds = r })) in
      if ok then rest else (b ∷ bs, record s { rds = r })

  -- nx_post_rx_descriptors
  unfoldable pub post_rx_descriptors : FreeBufs → RdsRing → ℕ × RdsRing
  unfolding post_buffers finish_post
  post_rx_descriptors free r =
      finish_post free (post_buffers free.head (record { rds = r; at = r.producer; count = 0 }))

  -- unm_post_rx_buffers
  unfoldable pub post_rx_buffers : RdsRing → ℕ × RdsRing
  unfolding post_rx_descriptors
  post_rx_buffers r =
      if r.posting || is_empty r.free_rxbufs.head
      then (0, r)
      else post_rx_descriptors r.free_rxbufs (start_posting r)

  unfoldable pub post_spliced : FreeBufs × RdsRing → FreeBufs × RdsRing
  unfolding post_rx_descriptors
  post_spliced (f, r) =
      if not_posting r then (f, (post_rx_descriptors r.free_rxbufs (start_posting r)).1) else (f, r)

  -- A round of nx_post_freed_rxbufs.
  unfoldable pub post_freed_ring : FreeBufs → RdsRing → FreeBufs × RdsRing
  unfolding post_spliced
  post_freed_ring f r =
      if r.free_rxbufs.count == 0 && f.count == 0 then (f, r) else post_spliced (splice f r)

  -- nx_post_freed_rxbufs, for the lists of a status ring and the receive rings.
  unfoldable pub post_freed_rxbufs : List FreeBufs → List RdsRing → List (FreeBufs × RdsRing)
  unfolding post_freed_ring
  post_freed_rxbufs (f ∷ fs) (r ∷ rs) = post_freed_ring f r ∷ post_freed_rxbufs fs rs
  post_freed_rxbufs fs rs = []
