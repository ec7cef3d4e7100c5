-- ===== src/CmdRing/Ring/Reap.antt =====
-- unm_process_cmd_ring takes finished entries off the front of the FIFO, oldest first.
use mathlib.Core.List.{append_assoc}
use Prim.Native.Nat.{min}
use hp_nx_nic.Prelude.{
  ℕ, zero, suc, ◌+◌, ◌-◌, ◌≤◌, ◌<◌, ◌≡◌, refl, sym, ap, ◌∙◌, inl, inr, Option, none, some, List,
  ◌++◌, map, arith, Bool, ◌==◌, Bool-cases, get_elem?,
}
use hp_nx_nic.CmdRing.Pending.{queued}
use hp_nx_nic.CmdRing.Window.{get_next_index, wrap, window, window-split}
use hp_nx_nic.CmdRing.Ring.{
  CmdBuffer, Adapter, max_status_handle, release_packet, release_buffer, release_entry, reap,
  wake_queue, finish_reap, process_cmd_ring,
}
use hp_nx_nic.CmdRing.Ring.Fifo.{IsValid, in_flight, view}

wrap-suc :
    (len h j : ℕ)
    → h < len
    → suc j < len
    → wrap len (get_next_index h len + j) ≡ wrap len (h + suc j)
wrap-suc len h j hh hj = ground arith

wrap-step :
    (len h k rounds : ℕ)
    → h < len
    → k < len
    → 1 ≤ k
    → wrap len (get_next_index h len + min (k - 1) rounds) ≡ wrap len (h + min k (suc rounds))
wrap-step len h k rounds hh hk h1 =
    let count : suc (min (k - 1) rounds) ≡ min k (suc rounds) = omega arith in
    wrap-suc len h (min (k - 1) rounds) hh (omega arith) ∙ ap (λ j. wrap len (h + j)) count

module _ {A : Type 0} where
  -- What releasing packets leaves alone.
  record Kept (a a' : Adapter A) : Type 0 where
    entries : a'.cmd_desc_head ≡ a.cmd_desc_head
    max_kept : a'.max_tx_desc_count ≡ a.max_tx_desc_count
    consumer : a'.last_cmd_consumer ≡ a.last_cmd_consumer
    producer : a'.cmd_producer ≡ a.cmd_producer
    pending : a'.pending_cmds ≡ a.pending_cmds

  release_packet-Kept :
      (skb : Option ℕ) (b : CmdBuffer) (bufs : List CmdBuffer) (i : ℕ) (a : Adapter A)
      → Kept a (release_packet skb b bufs i a)
  unfolding release_packet
  release_packet-Kept none b bufs i a = ground arith
  release_packet-Kept (some skb) b bufs i a = ground arith

  release_entry-Kept : (a : Adapter A) (i : ℕ) → Kept a (release_entry a i)
  unfolding release_entry release_buffer
  release_entry-Kept a i = at a.cmd_buf_arr
    where
      at_buffer :
          (b : Option CmdBuffer) (bufs : List CmdBuffer) → Kept a (release_buffer b bufs i a)
      at_buffer none bufs = ground arith
      at_buffer (some b) bufs = release_packet-Kept b.skb b bufs i a

      at :
          (bs : Option (List CmdBuffer))
          → Kept a (elim bs [ none ↦ a | some bufs ↦ release_buffer (get_elem? bufs i) bufs i a ])
      at none = ground arith
      at (some bufs) = at_buffer (get_elem? bufs i) bufs

  Kept-trans : (a b c : Adapter A) → Kept a b → Kept b c → Kept a c
  Kept-trans a b c p q = ground arith

  -- Where the loop stops, if the consumer index read is `k` entries ahead.
  abbrev Reaps : (len h k rounds : ℕ) → Adapter A → ℕ × Adapter A → Type 0
  Reaps len h k rounds a (last, a') = (last ≡ wrap len (h + min k rounds)) × Kept a a'

  reap-Reaps :
      (len rounds consumer h k : ℕ) (a : Adapter A)
      → a.max_tx_desc_count ≡ len
      → h < len
      → k < len
      → consumer ≡ wrap len (h + k)
      → Reaps len h k rounds a (reap rounds consumer a h)
  unfolding reap
  reap-Reaps len zero consumer h k a em hh hk e = ground arith
  reap-Reaps len (suc rounds) consumer h k a em hh hk e =
      let kept : Kept a (release_entry a h) = release_entry-Kept a h in
      let next : get_next_index h a.max_tx_desc_count ≡ get_next_index h len =
        ap (get_next_index h) em in
      elim (Bool-cases (h == consumer)) [
        | inl stop ↦ rw stop (ground arith)
        | inr go ↦
            rw (go, next)
              (let (index, rest) =
                  reap-Reaps len rounds consumer (get_next_index h len) (k - 1) (release_entry a h)
                    (kept.max_kept ∙ em) (ground arith) (omega arith) (ground arith) in
                (index ∙ wrap-step len h k rounds hh hk (ground arith), Kept-trans a _ _ kept rest))
      ]

  rest-view :
      (a a' : Adapter A) (last h n : ℕ)
      → Kept a a'
      → last ≡ wrap a.max_tx_desc_count h
      → window a'.cmd_desc_head a'.max_tx_desc_count last n ++ map some (queued a'.pending_cmds)
        ≡ window a.cmd_desc_head a.max_tx_desc_count (wrap a.max_tx_desc_count h) n
          ++ map some (queued a.pending_cmds)
  rest-view a a' last h n k e = rw (k.entries, k.max_kept, k.pending, e)

  Kept-view : (a a' : Adapter A) → IsValid a → Kept a a' → IsValid a' × (view a' ≡ view a)
  Kept-view a a' v k = (ground arith, rw (k.entries, k.max_kept, k.pending, k.consumer, k.producer))

  -- The adapter once the consumer index is stored behind `m` finished entries.
  consumed-view :
      (a a' : Adapter A) (m last : ℕ)
      → IsValid a
      → Kept a a'
      → m ≤ in_flight a
      → last ≡ wrap a.max_tx_desc_count (a.last_cmd_consumer + m)
      → let b = record a' { last_cmd_consumer = last } in
        IsValid b
        × (view a ≡ window a.cmd_desc_head a.max_tx_desc_count a.last_cmd_consumer m ++ view b)
  consumed-view a a' m last v k hm e =
      let b = record a' { last_cmd_consumer = last } in
      let left : m + in_flight b ≡ in_flight a = ground arith in
      (
        ground arith,
        ap
              (λ j.
                window a.cmd_desc_head a.max_tx_desc_count a.last_cmd_consumer j
                ++ map some (queued a.pending_cmds))
              (sym left)
            ∙ (ap (λ l. l ++ map some (queued a.pending_cmds))
                  (window-split a.cmd_desc_head a.max_tx_desc_count a.last_cmd_consumer m
                    (in_flight b) v.consumer_in (ground arith))
                ∙ (append_assoc (window a.cmd_desc_head a.max_tx_desc_count a.last_cmd_consumer m)
                      (window a.cmd_desc_head a.max_tx_desc_count
                        (wrap a.max_tx_desc_count (a.last_cmd_consumer + m)) (in_flight b))
                      (map some (queued a.pending_cmds))
                    ∙ ap
                        (λ l. window a.cmd_desc_head a.max_tx_desc_count a.last_cmd_consumer m ++ l)
                        (sym (rest-view a a' last (a.last_cmd_consumer + m) (in_flight b) k e)))),
      )

  wake_queue-view :
      (a : Adapter A) → IsValid a → IsValid (wake_queue a) × (view (wake_queue a) ≡ view a)
  unfolding wake_queue
  wake_queue-view a v = ground arith

  -- What unm_process_cmd_ring may answer, if the index it reads is `k` entries ahead.
  abbrev pub Processes : Adapter A → ℕ → ℕ → Bool × Adapter A → Type 0
  Processes a k later (done, a') =
      IsValid a'
      × (view a
          ≡ window a.cmd_desc_head a.max_tx_desc_count a.last_cmd_consumer (min k max_status_handle)
            ++ view a')
      × (done ≡ (a'.last_cmd_consumer == later))

  finish_reap-Processes :
      (a : Adapter A) (k consumer later : ℕ) (out : ℕ × Adapter A)
      → IsValid a
      → k ≤ in_flight a
      → consumer ≡ wrap a.max_tx_desc_count (a.last_cmd_consumer + k)
      → Reaps a.max_tx_desc_count a.last_cmd_consumer k max_status_handle a out
      → Processes a k later (finish_reap a consumer later out)
  unfolding finish_reap
  finish_reap-Processes a k consumer later (last, a') v hk e (stop, kept) =
      elim (Bool-cases (a.last_cmd_consumer == consumer)) [
        | inl same ↦ rw same (nothing (ground arith))
        | inr moved ↦ rw moved (
            let (v2, front) =
              consumed-view a a' (min k max_status_handle) last v kept (omega arith) stop in
            let (v3, woken) = wake_queue-view (record a' { last_cmd_consumer = last }) v2 in
            (
              v3,
              front
                  ∙ ap
                      (λ l.
                        window a.cmd_desc_head a.max_tx_desc_count a.last_cmd_consumer
                          (min k max_status_handle)
                        ++ l)
                      (sym woken),
              refl,
            ))
      ]
    where
      nothing : k ≡ 0 → Processes a k later (a'.last_cmd_consumer == later, a')
      nothing zero_k =
          let (v2, same_view) = Kept-view a a' v kept in (v2, rw zero_k (sym same_view), refl)

  -- On a valid adapter, if the card has consumed the `k` oldest entries of the ring,
  -- unm_process_cmd_ring takes these off the front of what the card has to consume, 128 at most,
  -- keeps the rest and the validity, and returns whether it has caught up with the second reading
  -- of the card's index.
  pub process_cmd_ring-Processes :
      (a : Adapter A) (k consumer later : ℕ)
      → IsValid a
      → k ≤ in_flight a
      → consumer ≡ wrap a.max_tx_desc_count (a.last_cmd_consumer + k)
      → Processes a k later (process_cmd_ring a consumer later)
  unfolding process_cmd_ring
  process_cmd_ring-Processes a k consumer later v hk e =
      finish_reap-Processes a k consumer later _ v hk e (
        reap-Reaps a.max_tx_desc_count max_status_handle consumer a.last_cmd_consumer k a refl
          v.consumer_in (ground arith) e)
