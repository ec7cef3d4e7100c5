-- ===== src/CmdRing/Ring/Fifo.antt =====
-- The command ring and its pending queue together are one FIFO of descriptors.
use mathlib.Core.Path.{subst, ap₂}
use mathlib.Core.List.{append-nil, append_assoc, map-append}
use hp_nx_nic.Prelude.{
  ℕ, suc, ◌+◌, ◌-◌, ◌≤◌, ◌<◌, ◌^◌, ◌≡◌, ◌≢◌, refl, sym, ap, ◌∙◌, ◌⊎◌, Option, none, some, List, [],
  ◌∷◌, ◌++◌, map, arith, leb, if◌then◌else◌, length, length-set, set, inl, inr,
}
use hp_nx_nic.Prelude.Int.{ℤ, pos}
use hp_nx_nic.CmdRing.Pending.{queued}
use hp_nx_nic.CmdRing.Pending.Fifo
use hp_nx_nic.CmdRing.Window.{get_next_index, wrap, window, window-push}
use hp_nx_nic.CmdRing.Ring.{
  Adapter, update_cmd_producer, put_desc, put_descs, queue_request, post_request, send_cmd_descs,
}

module _ {A : Type 0} where
  -- The entries between the consumer and the producer.
  abbrev pub in_flight : Adapter A → ℕ
  in_flight a =
      if leb a.last_cmd_consumer a.cmd_producer
      then a.cmd_producer - a.last_cmd_consumer
      else a.cmd_producer + a.max_tx_desc_count - a.last_cmd_consumer

  abbrev pub ring_view : Adapter A → List (Option A)
  ring_view a = window a.cmd_desc_head a.max_tx_desc_count a.last_cmd_consumer (in_flight a)

  -- What the card has still to consume, oldest first: the ring, then the pending queue.
  abbrev pub view : Adapter A → List (Option A)
  view a = ring_view a ++ map some (queued a.pending_cmds)

  pub record IsValid (a : Adapter A) : Type 0 where
    pub consumer_in : a.last_cmd_consumer < a.max_tx_desc_count
    pub producer_in : a.cmd_producer < a.max_tx_desc_count
    pub least : 1 < a.max_tx_desc_count
    pub small : a.max_tx_desc_count < 2 ^ 31
    pub sized : length a.cmd_desc_head ≡ a.max_tx_desc_count
    pub pending : Fifo.IsValid a.pending_cmds

  -- What the copying loop leaves, if it started `n` entries behind the consumer.
  pub record Put (a : Adapter A) (n : ℕ) (ds : List A) (out : ℕ × Adapter A) : Type 0 where
    pub index : out.0 ≡ wrap a.max_tx_desc_count (a.last_cmd_consumer + (n + length ds))
    pub written :
        window out.1.cmd_desc_head a.max_tx_desc_count a.last_cmd_consumer (n + length ds)
        ≡ window a.cmd_desc_head a.max_tx_desc_count a.last_cmd_consumer n ++ map some ds
    pub size_kept : length out.1.cmd_desc_head ≡ length a.cmd_desc_head
    pub max_kept : out.1.max_tx_desc_count ≡ a.max_tx_desc_count
    pub consumer_kept : out.1.last_cmd_consumer ≡ a.last_cmd_consumer
    pub pending_kept : out.1.pending_cmds ≡ a.pending_cmds
    pub producer_kept : out.1.cmd_producer ≡ a.cmd_producer

  put_descs-Put :
      (cmd : ℕ) (a : Adapter A) (n producer : ℕ) (ds : List A)
      → a.last_cmd_consumer < a.max_tx_desc_count
      → producer ≡ wrap a.max_tx_desc_count (a.last_cmd_consumer + n)
      → n + length ds < a.max_tx_desc_count
      → length a.cmd_desc_head ≡ a.max_tx_desc_count
      → Put a n ds (put_descs cmd a producer ds)
  unfolding put_descs put_desc
  put_descs-Put cmd a n producer [] hc hp hn hs =
      ground (arith, append-nil (window a.cmd_desc_head a.max_tx_desc_count a.last_cmd_consumer n))
  put_descs-Put cmd a n producer (d ∷ ds) hc hp hn hs =
      let a' = put_desc cmd a producer d in
      let len = a.max_tx_desc_count in
      let out = put_descs cmd a' (get_next_index producer len) ds in
      let rest : Put a' (suc n) ds (put_descs cmd a' (get_next_index producer len) ds) =
        put_descs-Put cmd a' (suc n) (get_next_index producer len) ds hc (ground arith)
          (omega arith) (length-set a.cmd_desc_head producer d ∙ hs) in
      let pushed : window (set a.cmd_desc_head producer d) len a.last_cmd_consumer (suc n)
          ≡ window a.cmd_desc_head len a.last_cmd_consumer n ++ some d ∷ [] =
        window-push a.cmd_desc_head len a.last_cmd_consumer n producer d hc (omega arith) hs hp in
      let step : suc n + length ds ≡ n + length (d ∷ ds) = omega arith in
      record {
        index = rest.index ∙ ap (λ k. wrap len (a.last_cmd_consumer + k)) step;
        written =
            ap (window out.1.cmd_desc_head len a.last_cmd_consumer) (sym step)
            ∙ (rest.written
                ∙ (ap (λ l. l ++ map some ds) pushed
                    ∙ append_assoc (window a.cmd_desc_head len a.last_cmd_consumer n) (some d ∷ [])
                        (map some ds)));
        size_kept = rest.size_kept ∙ length-set a.cmd_desc_head producer d;
        max_kept = rest.max_kept;
        consumer_kept = rest.consumer_kept;
        pending_kept = rest.pending_kept;
        producer_kept = rest.producer_kept;
      }

  -- The ring with `n` entries behind the consumer and the producer index at `p`.
  pub record At (n p : ℕ) (a : Adapter A) : Type 0 where
    pub index : p ≡ wrap a.max_tx_desc_count (a.last_cmd_consumer + n)
    pub room : n < a.max_tx_desc_count
    pub consumer_in : a.last_cmd_consumer < a.max_tx_desc_count
    pub least : 1 < a.max_tx_desc_count
    pub small : a.max_tx_desc_count < 2 ^ 31
    pub sized : length a.cmd_desc_head ≡ a.max_tx_desc_count
    pub pending : Fifo.IsValid a.pending_cmds

  abbrev pub view_at : ℕ → Adapter A → List (Option A)
  view_at n a =
      window a.cmd_desc_head a.max_tx_desc_count a.last_cmd_consumer n
      ++ map some (queued a.pending_cmds)

  pub IsValid-At : (a : Adapter A) → IsValid a → At (in_flight a) a.cmd_producer a
  IsValid-At a v = ground arith

  -- Copying descriptors behind the window keeps the description, and extends the window.
  pub put_descs-At :
      (cmd n p : ℕ) (a : Adapter A) (ds : List A)
      → At n p a
      → n + length ds < a.max_tx_desc_count
      → let (p', a') = put_descs cmd a p ds in
        At (n + length ds) p' a'
        × (window a'.cmd_desc_head a'.max_tx_desc_count a'.last_cmd_consumer (n + length ds)
            ≡ window a.cmd_desc_head a.max_tx_desc_count a.last_cmd_consumer n ++ map some ds)
        × (a'.pending_cmds ≡ a.pending_cmds)
        × (a'.max_tx_desc_count ≡ a.max_tx_desc_count)
        × (a'.cmd_producer ≡ a.cmd_producer)
  put_descs-At cmd n p a ds t h =
      let q : Put a n ds (put_descs cmd a p ds) =
        put_descs-Put cmd a n p ds t.consumer_in t.index h t.sized in
      (
        record {
          index = rw (q.max_kept, q.consumer_kept) q.index;
          room = rw q.max_kept h;
          consumer_in = rw (q.max_kept, q.consumer_kept) t.consumer_in;
          least = rw q.max_kept t.least;
          small = rw q.max_kept t.small;
          sized = rw (q.max_kept, q.size_kept) t.sized;
          pending = subst Fifo.IsValid (sym q.pending_kept) t.pending;
        },
        rw (q.max_kept, q.consumer_kept) q.written,
        q.pending_kept,
        q.max_kept,
        q.producer_kept,
      )

  in_flight-At :
      (n p : ℕ) (a : Adapter A) → At n p a → in_flight (record a { cmd_producer = p }) ≡ n
  in_flight-At n p a t = ground arith

  update-kept :
      (a : Adapter A) (p : ℕ)
      → IsValid a
      → IsValid (update_cmd_producer a p) × (view (update_cmd_producer a p) ≡ view a)
  unfolding update_cmd_producer
  update-kept a p v = ground arith

  -- The adapter once the producer index is stored and written to the card.
  abbrev pub published : ℕ × Adapter A → Adapter A
  published (producer, a') = update_cmd_producer (record a' { cmd_producer = producer }) producer

  -- A producer index that did not move needs no store.
  pub unmoved-view :
      (n : ℕ) (a : Adapter A) → At n a.cmd_producer a → IsValid a × (view a ≡ view_at n a)
  unmoved-view n a t = (ground arith, ap (λ k. view_at k a) (in_flight-At n a.cmd_producer a t))

  pub published-view :
      (n p : ℕ) (a : Adapter A)
      → At n p a
      → IsValid (published (p, a)) × (view (published (p, a)) ≡ view_at n a)
  unfolding update_cmd_producer
  published-view n p a t =
      let moved : in_flight (record a { cmd_producer = p }) ≡ n = in_flight-At n p a t in
      let shown : view (record a { cmd_producer = p }) ≡ view_at n a =
        ap (λ k. view_at k a) moved in
      let valid : IsValid (record a { cmd_producer = p }) = ground arith in
      let (valid', shown') = update-kept (record a { cmd_producer = p }) p valid in
      (valid', shown' ∙ shown)

  eq-nil : (xs : List A) → length xs ≡ 0 → xs ≡ []
  eq-nil [] h = refl
  eq-nil (x ∷ xs) h = absurd (omega arith)

  -- What nx_nic_send_cmd_descs may answer. A refused request leaves the adapter as it is, and
  -- is refused only for a ring that is not allocated, for its size, or for want of memory.
  abbrev pub Sends : Option ℕ → Adapter A → List A → ℤ × Adapter A → Type 0
  Sends alloc a ds (rv, a') =
      ((rv ≡ pos 0) × IsValid a' × (view a' ≡ view a ++ map some ds))
      ⊎ ((rv ≢ pos 0)
          × (a' ≡ a)
          × ((a.cmd_buf_arr ≡ none) ⊎ (ds ≡ []) ⊎ (64 < length ds) ⊎ (alloc ≡ none)))

  pub append-view :
      (r : List (Option A)) (xs ys : List A)
      → r ++ map some (xs ++ ys) ≡ (r ++ map some xs) ++ map some ys
  append-view r xs ys = simp (map-append, append_assoc)

  queue_request-Sends :
      (alloc : Option ℕ) (a : Adapter A) (ds : List A)
      → IsValid a
      → length ds ≤ 64
      → a.pending_cmds.cnt + length ds < 2 ^ 32
      → Sends alloc a ds (queue_request alloc a ds)
  unfolding queue_request
  queue_request-Sends alloc a ds v h s =
      elim (Fifo.queue_desc_list-Queued alloc a.pending_cmds ds v.pending h s) [
        | inl (e, v', o) ↦ inl (
          e,
          ground arith,
          ap (λ l. ring_view a ++ map some l) o
              ∙ append-view (ring_view a) (queued a.pending_cmds) ds,
        )
        | inr (e, same, no_memory) ↦
            inr (
              ground arith,
              ap (λ p. record a { pending_cmds = p }) same,
              inr (inr (inr no_memory)),
            )
      ]

  post_request-Sends :
      (alloc : Option ℕ) (a : Adapter A) (ds : List A)
      → IsValid a
      → a.pending_cmds.cnt ≡ 0
      → in_flight a + length ds < a.max_tx_desc_count
      → Sends alloc a ds (post_request a ds)
  unfolding post_request
  post_request-Sends alloc a ds v e h =
      let (t, w, kept, _, _) =
        put_descs-At 0 (in_flight a) a.cmd_producer a ds (IsValid-At a v) h in
      let (v', shown) = published-view _ _ _ t in
      let none_waits : queued a.pending_cmds ≡ [] =
        eq-nil (queued a.pending_cmds) (omega (arith, v.pending.counted)) in
      inl (
        refl,
        v',
        shown ∙ (ap₂ (λ l p. l ++ map some (queued p)) w kept ∙ rw none_waits (simp append-nil)),
      )

  -- On a valid adapter, with fewer than 2 ^ 32 descriptors waiting after the call,
  -- nx_nic_send_cmd_descs returns 0 with all descriptors, in order, behind all that the card has
  -- to consume, or an error with nothing changed, which it does only if there is no buffer array,
  -- no descriptor, more than 64 of them, or no memory for a block.
  pub send_cmd_descs-Sends :
      (alloc : Option ℕ) (a : Adapter A) (ds : List A)
      → IsValid a
      → a.pending_cmds.cnt + length ds < 2 ^ 32
      → Sends alloc a ds (send_cmd_descs alloc a ds)
  unfolding send_cmd_descs
  send_cmd_descs-Sends alloc a ds v s =
      ground (arith, queue_request-Sends alloc a ds v, post_request-Sends alloc a ds v, eq-nil ds)
