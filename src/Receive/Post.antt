-- ===== src/Receive/Post.antt =====
-- What the loop of nx_post_rx_descriptors does, in driver/unm_nic_main.c.
use hp_nx_nic.Prelude.{
  ℕ, suc, ◌+◌, ◌≤◌, ◌<◌, ◌≡◌, ◌≢◌, refl, sym, ap, ◌∙◌, Bool, Option, some, List, [], ◌∷◌, ◌++◌, map,
  arith, if◌then◌else◌, length, length-set,
}
use mathlib.Core.Path.{ap₂}
use mathlib.Core.List.{append-nil, append_assoc}
use hp_nx_nic.Prelude.Counts.{count}
use hp_nx_nic.CmdRing.Window.{wrap, window, window-push}
use hp_nx_nic.Receive.Buffers.{
  RxBuffer, RcvDesc, RdsRing, buffer_of, Posting, rcv_desc, write_desc, ready_buffer, post_buffers,
}
use hp_nx_nic.Receive.Prepare.{
  Prepares, Prepares-same, Prepared, prepared, refused, ready_buffer-Prepared,
}

-- The descriptor of a buffer, and that a list of buffers all have skbs.
abbrev pub desc_of : RdsRing → ℕ → Option RcvDesc
desc_of r b = some (rcv_desc r (buffer_of r b))

abbrev pub Full : RdsRing → List ℕ → Type 0
Full r [] = Unit
Full r (b ∷ bs) = ((skb : ℕ) × ((buffer_of r b).skb ≡ some skb)) × Full r bs

-- The state of the loop with `n` descriptors written from `start` on, for the list `bs`.
pub record Loop (size start n : ℕ) (bs : List ℕ) (s : Posting) : Type 0 where
  pub ring_size : s.rds.ring_size ≡ size
  pub sized : length s.rds.desc_head ≡ size
  pub index : s.at ≡ wrap size (start + n)
  pub fits : n + length bs ≤ size
  pub inside : (b : ℕ) → 1 ≤ count b bs → b < length s.rds.rx_buf_arr
  pub distinct : (b : ℕ) → count b bs ≤ 1

-- What the loop leaves: a front of the list is posted, with its descriptors written in order.
pub record Posts (size start n : ℕ) (bs : List ℕ) (s : Posting) (out : List ℕ × Posting)
    : Type 0 where
  pub posted : List ℕ
  pub all : bs ≡ posted ++ out.0
  pub counted : out.1.count ≡ s.count + length posted
  pub index : out.1.at ≡ wrap size (start + (n + length posted))
  pub written :
      window out.1.rds.desc_head size start (n + length posted)
      ≡ window s.rds.desc_head size start n ++ map (desc_of out.1.rds) posted
  pub full : Full out.1.rds posted
  pub ring_size : out.1.rds.ring_size ≡ s.rds.ring_size
  pub dma_size : out.1.rds.dma_size ≡ s.rds.dma_size
  pub free_kept : out.1.rds.free_rxbufs ≡ s.rds.free_rxbufs
  pub host_kept : out.1.rds.host_rx_producer ≡ s.rds.host_rx_producer
  pub others : (i : ℕ) → count i bs ≡ 0 → buffer_of out.1.rds i ≡ buffer_of s.rds i
  pub handle_kept : (i : ℕ) → (buffer_of out.1.rds i).ref_handle ≡ (buffer_of s.rds i).ref_handle

abbrev pub desc_with : RxBuffer → ℕ → RcvDesc
desc_with x m = record { reference_handle = x.ref_handle; buffer_length = m; addr_buffer = x.dma }

counts_more : (i b : ℕ) (bs : List ℕ) → 1 ≤ count i bs → 1 ≤ count i (b ∷ bs)
counts_more i b bs h = omega (arith, h)

counts_less : (i b : ℕ) (bs : List ℕ) → count i (b ∷ bs) ≤ 1 → count i bs ≤ 1
counts_less i b bs h = omega (arith, h)

counts_head : (b : ℕ) (bs : List ℕ) → 1 ≤ count b (b ∷ bs)
counts_head b bs = ground arith

counts_once : (b : ℕ) (bs : List ℕ) → count b (b ∷ bs) ≤ 1 → count b bs ≡ 0
counts_once b bs h = ground arith

counts_none : (i b : ℕ) (bs : List ℕ) → count i (b ∷ bs) ≡ 0 → (b ≢ i) × (count i bs ≡ 0)
counts_none i b bs h = ((λ e. ground arith), ground arith)

module _ (alloc_skb : ℕ → Option ℕ) (map_skb : ℕ → Option ℕ) (size start : ℕ)
    (start_in : start < size) where
  Posts-none :
      (n : ℕ) (bs : List ℕ) (s : Posting) (r' : RdsRing) (b : ℕ)
      → (s.at ≡ wrap size (start + n))
      → Prepares b s.rds r'
      → ((i : ℕ) → count i bs ≡ 0 → buffer_of r' i ≡ buffer_of s.rds i)
      → Posts size start n bs s (bs, record s { rds = r' })
  Posts-none n bs s r' b index p others =
      let same : n + 0 ≡ n = omega arith in
      record {
        posted = [];
        all = refl;
        counted = omega arith;
        index = index ∙ ap (λ m. wrap size (start + m)) (sym same);
        written =
            ap (λ d. window d size start (n + 0)) p.descs_kept
            ∙ (ap (window s.rds.desc_head size start) same
                ∙ sym (append-nil (window s.rds.desc_head size start n)));
        full = tt;
        ring_size = p.size_kept;
        dma_size = p.dma_size_kept;
        free_kept = p.free_kept;
        host_kept = p.host_kept;
        others = others;
        handle_kept = p.handle_kept;
      }

  -- The state behind a buffer that was posted.
  Loop-next :
      (n b : ℕ) (bs : List ℕ) (s : Posting) (r' : RdsRing)
      → Loop size start n (b ∷ bs) s
      → Prepares b s.rds r'
      → Loop size start (suc n) bs (write_desc b (record s { rds = r' }))
  unfolding write_desc
  Loop-next n b bs s r' l p = record {
    ring_size = p.size_kept ∙ l.ring_size;
    sized =
        length-set r'.desc_head s.at (rcv_desc r' (buffer_of r' b))
        ∙ (ap length p.descs_kept ∙ l.sized);
    index = ground (arith, l.index, l.ring_size, p.size_kept, start_in, l.fits);
    fits = omega (arith, l.fits);
    inside = λ i h. omega (arith, l.inside i (counts_more i b bs h), p.buffers_kept);
    distinct = λ i. counts_less i b bs (l.distinct i);
  }

  -- The window grows by the descriptor of the buffer.
  written-next :
      (n b : ℕ) (bs : List ℕ) (s : Posting) (r' : RdsRing)
      → Loop size start n (b ∷ bs) s
      → Prepares b s.rds r'
      → window (write_desc b (record s { rds = r' })).rds.desc_head size start (suc n)
        ≡ window s.rds.desc_head size start n ++ desc_of r' b ∷ []
  unfolding write_desc
  written-next n b bs s r' l p =
      window-push r'.desc_head size start n s.at (rcv_desc r' (buffer_of r' b)) start_in
        (omega (arith, l.fits)) (ap length p.descs_kept ∙ l.sized) l.index
      ∙ ap (λ d. window d size start n ++ desc_of r' b ∷ []) p.descs_kept

  posted-Posts :
      (n b skb : ℕ) (bs : List ℕ) (s : Posting) (r' : RdsRing) (out : List ℕ × Posting)
      → Loop size start n (b ∷ bs) s
      → Prepares b s.rds r'
      → (buffer_of r' b).skb ≡ some skb
      → Posts size start (suc n) bs (write_desc b (record s { rds = r' })) out
      → Posts size start n (b ∷ bs) s out
  unfolding write_desc
  posted-Posts n b skb bs s r' out l p e q =
      let once : count b bs ≡ 0 = counts_once b bs (l.distinct b) in
      let kept : buffer_of out.1.rds b ≡ buffer_of r' b = q.others b once in
      let more : n + suc (length q.posted) ≡ suc n + length q.posted = omega arith in
      let same : desc_of r' b ≡ desc_of out.1.rds b =
        ap₂ (λ (x : RxBuffer) (m : ℕ). some (desc_with x m)) (sym kept) (sym q.dma_size) in
      record {
        posted = b ∷ q.posted;
        all = ap (λ l. b ∷ l) q.all;
        counted = omega (arith, q.counted);
        index = q.index ∙ ap (λ m. wrap size (start + m)) (sym more);
        written =
            ap (window out.1.rds.desc_head size start) more
            ∙ (q.written
                ∙ (ap (λ w. w ++ map (desc_of out.1.rds) q.posted) (written-next n b bs s r' l p)
                    ∙ (append_assoc (window s.rds.desc_head size start n) (desc_of r' b ∷ [])
                          (map (desc_of out.1.rds) q.posted)
                        ∙ ap
                            (λ d.
                              window s.rds.desc_head size start n
                              ++ d ∷ map (desc_of out.1.rds) q.posted)
                            same)));
        full = ((skb, ap RxBuffer.skb kept ∙ e), q.full);
        ring_size = q.ring_size ∙ p.size_kept;
        dma_size = q.dma_size ∙ p.dma_size_kept;
        free_kept = q.free_kept ∙ p.free_kept;
        host_kept = q.host_kept ∙ p.host_kept;
        others =
            λ i h. let (other, gone) = counts_none i b bs h in q.others i gone ∙ p.others i other;
        handle_kept = λ i. q.handle_kept i ∙ p.handle_kept i;
      }

  step-Posts :
      (n b : ℕ) (bs : List ℕ) (s : Posting) (out : Bool × RdsRing)
      → Loop size start n (b ∷ bs) s
      → Prepared b s.rds out
      → ((s' : Posting)
          → Loop size start (suc n) bs s'
          → Posts size start (suc n) bs s' (post_buffers alloc_skb map_skb bs s'))
      → Posts size start n (b ∷ bs) s (
          if out.0
          then post_buffers alloc_skb map_skb bs (write_desc b (record s { rds = out.1 }))
          else (b ∷ bs, record s { rds = out.1 }))
  step-Posts n b bs s out l (prepared {r' = r'} skb p e) again =
      let s' = write_desc b (record s { rds = r' }) in
      posted-Posts n b skb bs s r' (post_buffers alloc_skb map_skb bs s') l p e
        (again s' (Loop-next n b bs s r' l p))
  step-Posts n b bs s out l (refused {r' = r'} p) again =
      Posts-none n (b ∷ bs) s r' b l.index p
        (λ i h. let (other, gone) = counts_none i b bs h in p.others i other)

  pub post_buffers-Posts :
      (n : ℕ) (bs : List ℕ) (s : Posting)
      → Loop size start n bs s
      → Posts size start n bs s (post_buffers alloc_skb map_skb bs s)
  unfolding post_buffers
  post_buffers-Posts n [] s l =
      Posts-none n [] s s.rds 0 l.index (Prepares-same 0 s.rds s.rds refl refl refl refl refl refl)
        (λ i h. refl)
  post_buffers-Posts n (b ∷ bs) s l =
      step-Posts n b bs s (ready_buffer alloc_skb map_skb b s.rds) l
        (ready_buffer-Prepared alloc_skb map_skb b s.rds (l.inside b (counts_head b bs)))
        (λ s' l'. post_buffers-Posts (suc n) bs s' l')
