-- ===== src/Receive/Posted.antt =====
-- What nx_post_rx_descriptors does, in driver/unm_nic_main.c.
use Prim.Native.Nat.{bit_and}
use hp_nx_nic.Prelude.{
  Bool-cases, get_or, ltb→lt, ℕ, ◌+◌, ◌-◌, ◌^◌, ◌≤◌, ◌<◌, ◌≡◌, refl, sym, ap, ◌∙◌, false, Option,
  some, List, [], ◌∷◌, ◌++◌, map, arith, ltb, ◌==◌, if◌then◌else◌, length, length-append, inl, inr,
}
use mathlib.Core.Path.{subst, ap₂}
use hp_nx_nic.Prelude.Counts.{count}
use hp_nx_nic.Prelude.Words.{sub32}
use hp_nx_nic.CmdRing.Window.{wrap, window}
use hp_nx_nic.Receive.Buffers.{
  no_buffer, FreeBufs, RdsRing, Posting, give_back, ring_doorbell, finish_post, post_buffers,
  post_rx_descriptors,
}
use hp_nx_nic.Receive.Post.{desc_of, desc_with, Full, Loop, Posts, post_buffers-Posts}
use hp_nx_nic.Receive.Doorbell.{
  IsCounted, rung_value, Rung, ring_doorbell-Rung, back_of, give_back-back_of, back_of-IsCounted,
  last_index,
}

-- A ring that the buffers `bs` can be posted to.
pub record IsReady (r : RdsRing) (bs : List ℕ) : Type 0 where
  pub exponent : ℕ
  pub power : r.ring_size ≡ 2 ^ exponent
  pub small : exponent ≤ 31
  pub sized : length r.desc_head ≡ r.ring_size
  pub producer_in : r.producer < r.ring_size
  pub few : length bs ≤ r.ring_size
  pub inside : (b : ℕ) → 1 ≤ count b bs → b < length r.rx_buf_arr
  pub distinct : (b : ℕ) → count b bs ≤ 1

-- What a call posts and what it leaves, for the list `bs` of buffers.
pub record Posted (bs : List ℕ) (r : RdsRing) (out : ℕ × RdsRing) : Type 0 where
  pub posted : List ℕ
  pub rest : List ℕ
  pub all : bs ≡ posted ++ rest
  pub returned : out.0 ≡ length posted
  pub written :
      window out.1.desc_head r.ring_size r.producer (length posted) ≡ map (desc_of out.1) posted
  pub full : Full out.1 posted
  pub index : out.1.producer ≡ wrap r.ring_size (r.producer + length posted)
  pub rung : out.1.host_rx_producer ≡ (
      if ltb 0 (length posted)
      then some (wrap r.ring_size (r.producer + (length posted - 1)))
      else r.host_rx_producer)
  pub given_back : out.1.free_rxbufs.head ≡ r.free_rxbufs.head ++ rest
  pub counted : IsCounted out.1.free_rxbufs
  pub not_posting : out.1.posting ≡ false

last_posted :
    (k start n at : ℕ) (h : Option ℕ)
    → k ≤ 31
    → start < 2 ^ k
    → n ≤ 2 ^ k
    → at ≡ wrap (2 ^ k) (start + n)
    → (if ltb 0 n then some (bit_and (sub32 at 1) (sub32 (2 ^ k) 1)) else h)
      ≡ (if ltb 0 n then some (wrap (2 ^ k) (start + (n - 1))) else h)
last_posted k start n at h hk hs hn e = elim (Bool-cases (ltb 0 n)) [
  | inl more ↦
      let one : 0 < n = ltb→lt 0 n more in
      let inside : at < 2 ^ k = ground (arith, e, hs, hn) in
      let value : (if at == 0 then 2 ^ k - 1 else at - 1) ≡ wrap (2 ^ k) (start + (n - 1)) =
        ground (arith, e, hs, hn, one) in
      rw more (ap some (last_index k at hk inside ∙ value))
  | inr none_posted ↦ rw none_posted refl
]

Full-kept : (bs : List ℕ) (r r' : RdsRing) → r'.rx_buf_arr ≡ r.rx_buf_arr → Full r bs → Full r' bs
Full-kept [] r r' e f = tt
Full-kept (b ∷ bs) r r' e ((skb, h), f) =
    ((skb, ap (λ xs. (get_or xs b no_buffer).skb) e ∙ h), Full-kept bs r r' e f)

module _ (alloc_skb : ℕ → Option ℕ) (map_skb : ℕ → Option ℕ) where
  start_Loop :
      (bs : List ℕ) (r : RdsRing)
      → IsReady r bs
      → Loop r.ring_size r.producer 0 bs (record { rds = r; at = r.producer; count = 0 })
  start_Loop bs r v = record {
    ring_size = refl;
    sized = v.sized;
    index = ground (arith, v.producer_in);
    fits = omega (arith, v.few);
    inside = v.inside;
    distinct = v.distinct;
  }

  finish_post-Posted :
      (free : FreeBufs) (r : RdsRing) (out : List ℕ × Posting)
      → IsReady r free.head
      → IsCounted free
      → IsCounted r.free_rxbufs
      → length r.free_rxbufs.head + length free.head < 2 ^ 32
      → Posts r.ring_size r.producer 0 free.head
          (record { rds = r; at = r.producer; count = 0 })
          out
      → Posted free.head r (finish_post free out)
  unfolding finish_post
  finish_post-Posted free r (rest, s) v c own small q =
      let m = sub32 free.count s.count in
      let base : RdsRing = record (give_back rest m s.rds) { producer = s.at } in
      let base' : RdsRing = record s.rds {
        free_rxbufs = back_of rest m s.rds.free_rxbufs;
        producer = s.at;
      } in
      let path : base ≡ base' =
        ap (λ (x : RdsRing). record x { producer = s.at }) (give_back-back_of rest m s.rds) in
      let u : Rung s.count base (ring_doorbell s.count base) = ring_doorbell-Rung s.count base in
      let descs = u.descs_kept ∙ ap RdsRing.desc_head path in
      let arr = u.arr_kept ∙ ap RdsRing.rx_buf_arr path in
      let dma = u.dma_size_kept ∙ ap RdsRing.dma_size path in
      let value : ℕ → ℕ → Option ℕ → Option ℕ =
        λ m z h. if ltb 0 m then some (bit_and (sub32 s.at 1) (sub32 z 1)) else h in
      let n : s.count ≡ length q.posted = omega (arith, q.counted) in
      let same : 0 + length q.posted ≡ length q.posted = omega arith in
      let parts : length free.head ≡ length q.posted + length rest =
        ap length q.all ∙ length-append q.posted rest in
      let left : m ≡ length rest = omega (arith, c, n, parts, small) in
      let kept_small : length s.rds.free_rxbufs.head + length rest < 2 ^ 32 =
        omega (arith, ap (λ (f : FreeBufs). length f.head) q.free_kept, parts, small) in
      let own' : IsCounted s.rds.free_rxbufs =
        ap FreeBufs.count q.free_kept
        ∙ (own ∙ ap (λ (f : FreeBufs). length f.head) (sym q.free_kept)) in
      let (counted, head) = back_of-IsCounted rest m s.rds.free_rxbufs own' left kept_small in
      record {
        posted = q.posted;
        rest = rest;
        all = q.all;
        returned = n;
        written =
            ap (λ d. window d r.ring_size r.producer (length q.posted)) descs
            ∙ (ap (window s.rds.desc_head r.ring_size r.producer) (sym same)
                ∙ (q.written
                    ∙ ap₂
                        (λ xs (m : ℕ).
                          map (λ b. some (desc_with (get_or xs b no_buffer) m)) q.posted)
                        (sym arr) (sym dma)));
        full = Full-kept q.posted s.rds (finish_post free (rest, s)).1 arr q.full;
        index =
            u.producer_kept
            ∙ (ap RdsRing.producer path
                ∙ (q.index ∙ ap (λ n. wrap r.ring_size (r.producer + n)) same));
        rung =
            u.rung
            ∙ (ap (rung_value s.count) path
                ∙ (ap (λ z. value s.count z s.rds.host_rx_producer) (q.ring_size ∙ v.power)
                    ∙ (ap (λ m. value m (2 ^ v.exponent) s.rds.host_rx_producer) n
                        ∙ (ap (value (length q.posted) (2 ^ v.exponent)) q.host_kept
                            ∙ (last_posted v.exponent r.producer (length q.posted) s.at
                                  r.host_rx_producer v.small (omega (arith, v.power, v.producer_in))
                                  (omega (arith, parts, v.few, v.power))
                                  (q.index ∙ ap₂ (λ z m. wrap z (r.producer + m)) v.power same)
                                ∙ ap
                                    (λ z.
                                      if ltb 0 (length q.posted)
                                      then some (wrap z (r.producer + (length q.posted - 1)))
                                      else r.host_rx_producer)
                                    (sym v.power))))));
        given_back =
            ap FreeBufs.head (u.free_kept ∙ ap RdsRing.free_rxbufs path)
            ∙ (head ∙ ap (λ (f : FreeBufs). f.head ++ rest) q.free_kept);
        counted = subst IsCounted (sym (u.free_kept ∙ ap RdsRing.free_rxbufs path)) counted;
        not_posting = refl;
      }

  -- If every list is counted and the buffers are distinct, inside the array and not more than the
  -- ring has entries, which are a power of two, then nx_post_rx_descriptors posts a front of its
  -- list: its result is their number, the descriptors from the old producer index on name them in
  -- order with the addresses of their skbs, and the producer register, if it is written, names the
  -- last of them. The other buffers join the ring's own list, which stays counted, and `posting`
  -- is cleared.
  pub post_rx_descriptors-Posted :
      (free : FreeBufs) (r : RdsRing)
      → IsReady r free.head
      → IsCounted free
      → IsCounted r.free_rxbufs
      → length r.free_rxbufs.head + length free.head < 2 ^ 32
      → Posted free.head r (post_rx_descriptors alloc_skb map_skb free r)
  unfolding post_rx_descriptors
  post_rx_descriptors-Posted free r v c own small =
      let s : Posting = record { rds = r; at = r.producer; count = 0 } in
      finish_post-Posted free r (post_buffers alloc_skb map_skb free.head s) v c own small (
        post_buffers-Posts alloc_skb map_skb r.ring_size r.producer v.producer_in 0 free.head s
          (start_Loop free.head r v))
