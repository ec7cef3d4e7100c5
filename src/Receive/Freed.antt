-- ===== src/Receive/Freed.antt =====
-- What a round of nx_post_freed_rxbufs does, in driver/unm_nic_main.c.
use native.Mathlib.Nat.{pow-le-pow_right}
use hp_nx_nic.Prelude.{
  ℕ, ◌+◌, ◌^◌, ◌%◌, ◌≤◌, ◌<◌, ◌≡◌, Option, refl, sym, ap, ◌∙◌, true, false, ◌&&◌, List, [], ◌∷◌,
  ◌++◌, map, arith, ◌==◌, length, length-append, if-cases,
}
use mathlib.Core.Path.{subst}
use mathlib.Core.List.{append-nil}
use hp_nx_nic.CmdRing.Window.{wrap, window}
use hp_nx_nic.Receive.Buffers.{
  FreeBufs, RdsRing, is_empty, splice, not_posting, start_posting, post_rx_descriptors,
  post_spliced, post_freed_ring,
}
use hp_nx_nic.Receive.Post.{desc_of, Full}
use hp_nx_nic.Receive.Doorbell.{IsCounted}
use hp_nx_nic.Receive.Posted.{IsReady, Posted, post_rx_descriptors-Posted}

-- What a round leaves of the buffers that a status ring and a receive ring hold.
pub record Conserves (f : FreeBufs) (r : RdsRing) (out : FreeBufs × RdsRing) : Type 0 where
  pub posted : List ℕ
  pub all : r.free_rxbufs.head ++ f.head ≡ posted ++ (out.1.free_rxbufs.head ++ out.0.head)
  pub written :
      window out.1.desc_head r.ring_size r.producer (length posted) ≡ map (desc_of out.1) posted
  pub full : Full out.1 posted
  pub index : out.1.producer ≡ wrap r.ring_size (r.producer + length posted)
  pub counted_rds : IsCounted out.1.free_rxbufs
  pub counted_sds : IsCounted out.0
  pub held : r.posting ≡ true → (posted ≡ []) × (out.1.posting ≡ true)

-- The lists once they are joined.
record Spliced (f : FreeBufs) (r : RdsRing) (out : FreeBufs × RdsRing) : Type 0 where
  bufs : FreeBufs
  ring : out.1 ≡ record r { free_rxbufs = bufs }
  joined : bufs.head ≡ r.free_rxbufs.head ++ f.head
  counted : IsCounted bufs
  gone : out.0.head ≡ []
  counted_sds : IsCounted out.0

empty : (xs : List ℕ) → is_empty xs ≡ true → xs ≡ []
empty [] e = refl
empty (x ∷ xs) e = absurd (cc e)

splice-Spliced :
    (f : FreeBufs) (r : RdsRing)
    → IsCounted f
    → IsCounted r.free_rxbufs
    → length r.free_rxbufs.head + length f.head < 2 ^ 32
    → Spliced f r (splice f r)
splice-Spliced f r cf cr small =
    if-cases (Spliced f r) (is_empty f.head)
      (λ e. record {
        bufs = r.free_rxbufs;
        ring = refl;
        joined =
            sym (append-nil r.free_rxbufs.head)
            ∙ ap (λ l. r.free_rxbufs.head ++ l) (sym (empty f.head e));
        counted = cr;
        gone = empty f.head e;
        counted_sds = cf;
      })
      (λ e. record {
        bufs = record {
          count = (r.free_rxbufs.count + f.count) % 2 ^ 32;
          head = r.free_rxbufs.head ++ f.head;
        };
        ring = refl;
        joined = refl;
        counted = omega (arith, cf, cr, small, length-append r.free_rxbufs.head f.head);
        gone = refl;
        counted_sds = refl;
      })

nil_of : (xs : List ℕ) → length xs ≡ 0 → xs ≡ []
nil_of [] e = refl
nil_of (x ∷ xs) e = absurd (omega arith)

idle_count : (n m : ℕ) {k : ℕ} → (n == 0 && m == 0) ≡ true → m ≡ k → k ≡ 0
idle_count n m e h = ground (arith, e, h)

idle_ring : (r : RdsRing) → not_posting r ≡ true → r.posting ≡ false
idle_ring r e = ground (arith, e)

started-IsReady :
    (r : RdsRing) (bufs : FreeBufs) (bs : List ℕ)
    → IsReady r bs
    → IsReady (start_posting (record r { free_rxbufs = bufs })) bs
started-IsReady r bufs bs v = record {
  exponent = v.exponent;
  power = v.power;
  small = v.small;
  sized = v.sized;
  producer_in = v.producer_in;
  few = v.few;
  inside = v.inside;
  distinct = v.distinct;
}

ring_small : (r : RdsRing) (bs : List ℕ) → IsReady r bs → r.ring_size < 2 ^ 32
ring_small r bs v =
    let most : 2 ^ v.exponent ≤ 2 ^ 31 = pow-le-pow_right (omega arith) v.small in
    omega (arith, v.power, most)

module _ (alloc_skb : ℕ → Option ℕ) (map_skb : ℕ → Option ℕ) where
  -- A ring that posts already keeps the buffers.
  kept-Conserves :
      (f f1 : FreeBufs) (r : RdsRing) (bufs : FreeBufs)
      → IsReady r bufs.head
      → bufs.head ≡ r.free_rxbufs.head ++ f.head
      → IsCounted bufs
      → f1.head ≡ []
      → IsCounted f1
      → Conserves f r (f1, record r { free_rxbufs = bufs })
  kept-Conserves f f1 r bufs v joined counted gone counted1 = record {
    posted = [];
    all = sym joined ∙ (sym (append-nil bufs.head) ∙ ap (λ l. bufs.head ++ l) (sym gone));
    written = refl;
    full = tt;
    index = ground (arith, v.producer_in);
    counted_rds = counted;
    counted_sds = counted1;
    held = λ e. (refl, e);
  }

  Posted-Conserves :
      (f f1 : FreeBufs) (r : RdsRing) (bufs : FreeBufs) (out : ℕ × RdsRing)
      → bufs.head ≡ r.free_rxbufs.head ++ f.head
      → f1.head ≡ []
      → IsCounted f1
      → r.posting ≡ false
      → Posted bufs.head (start_posting (record r { free_rxbufs = bufs })) out
      → Conserves f r (f1, out.1)
  Posted-Conserves f f1 r bufs out joined gone counted1 idle p = record {
    posted = p.posted;
    all =
        sym joined
        ∙ (p.all
            ∙ ap (λ l. p.posted ++ l)
                (sym p.given_back
                  ∙ (sym (append-nil out.1.free_rxbufs.head)
                      ∙ ap (λ l. out.1.free_rxbufs.head ++ l) (sym gone))));
    written = p.written;
    full = p.full;
    index = p.index;
    counted_rds = p.counted;
    counted_sds = counted1;
    held = λ e. absurd (cc (e, idle));
  }

  spliced-Conserves :
      (f f1 : FreeBufs) (r : RdsRing) (bufs : FreeBufs)
      → IsReady r bufs.head
      → bufs.head ≡ r.free_rxbufs.head ++ f.head
      → IsCounted bufs
      → f1.head ≡ []
      → IsCounted f1
      → length bufs.head < 2 ^ 32
      → Conserves f r (post_spliced alloc_skb map_skb (f1, record r { free_rxbufs = bufs }))
  unfolding post_spliced
  spliced-Conserves f f1 r bufs v joined counted gone counted1 small =
      let r1 : RdsRing = record r { free_rxbufs = bufs } in
      if-cases (Conserves f r) (not_posting r1)
        (λ e.
          Posted-Conserves f f1 r bufs
            (post_rx_descriptors alloc_skb map_skb bufs (start_posting r1)) joined gone counted1
            (idle_ring r1 e)
            (post_rx_descriptors-Posted alloc_skb map_skb bufs (start_posting r1)
              (started-IsReady r bufs bufs.head v) counted refl (omega (arith, small))))
        (λ e. kept-Conserves f f1 r bufs v joined counted gone counted1)

  -- If both lists are counted and together hold distinct buffers of the ring's array, at most as
  -- many as the ring has entries, which are a power of two, then a round of nx_post_freed_rxbufs
  -- loses no buffer: the two lists, joined, are those that it posts, in order and with their skbs,
  -- followed by those that the two lists then hold. It posts none while another call is posting.
  pub post_freed_ring-Conserves :
      (f : FreeBufs) (r : RdsRing)
      → IsReady r (r.free_rxbufs.head ++ f.head)
      → IsCounted f
      → IsCounted r.free_rxbufs
      → Conserves f r (post_freed_ring alloc_skb map_skb f r)
  unfolding post_freed_ring
  post_freed_ring-Conserves f r v cf cr =
      let few : length r.free_rxbufs.head + length f.head < 2 ^ 32 = omega (
        arith,
        sym (length-append r.free_rxbufs.head f.head),
        v.few,
        ring_small r (r.free_rxbufs.head ++ f.head) v,
      ) in
      let u : Spliced f r (splice f r) = splice-Spliced f r cf cr few in
      if-cases (Conserves f r) (r.free_rxbufs.count == 0 && f.count == 0)
        (λ e.
          let none_left : f.head ≡ [] =
            nil_of f.head (idle_count r.free_rxbufs.count f.count e cf) in
          let joined : r.free_rxbufs.head ≡ r.free_rxbufs.head ++ f.head =
            sym (append-nil r.free_rxbufs.head)
            ∙ ap (λ l. r.free_rxbufs.head ++ l) (sym none_left) in
          kept-Conserves f f r r.free_rxbufs (subst (IsReady r) (sym joined) v) joined cr none_left
            cf)
        (λ e.
          subst (λ x. Conserves f r (post_spliced alloc_skb map_skb ((splice f r).0, x)))
            (sym u.ring)
            (spliced-Conserves f (splice f r).0 r u.bufs (subst (IsReady r) (sym u.joined) v)
              u.joined u.counted u.gone u.counted_sds
              (omega (arith, ap length u.joined, length-append r.free_rxbufs.head f.head, few))))
