-- ===== src/CmdRing/Ring.antt =====
-- The ring itself, in driver/unm_nic_main.c: nx_nic_send_cmd_descs, unm_proc_pending_cmd_desc,
-- unm_process_cmd_ring and unm_nic_update_cmd_producer.
pub mod Fifo
pub mod Drain
pub mod Reap
use mathlib.Core.Option
use hp_nx_nic.Prelude.{
  ℕ, zero, suc, ◌+◌, ◌-◌, ◌*◌, Bool, true, false, ◌&&◌, ◌||◌, Option, none, some, List, [], ◌∷◌,
  ltb, leb, ◌==◌, if◌then◌else◌, length, set, get_elem?,
}
use hp_nx_nic.Prelude.Int.{ℤ, pos, negsuc}
use hp_nx_nic.Prelude.Kernel.{einval}
use hp_nx_nic.Prelude.Words.{add32, sub32}
use hp_nx_nic.CmdRing.Pending.{
  Block, Pending, max_pending_desc_block_size, dequeue, queue_desc_list, free_block,
}
use hp_nx_nic.CmdRing.Window.{get_next_index}

-- The fields of `struct unm_cmd_buffer` that the ring operations read or write; an skb is its
-- address, and `none` is NULL.
pub record CmdBuffer : Type 0 where
  pub skb : Option ℕ
  pub frag_count : ℕ
  pub mss : ℕ
  pub total_length : ℕ
  pub cmd : ℕ
  pub port : ℕ

-- The parts of `struct unm_adapter_s` and of the network device that belong to the ring.
-- `doorbell` is the last value written to the producer register, `freed` the skbs given to
-- dev_kfree_skb_any and `unmapped` the number of DMA mappings taken down.
pub record Adapter (A : Type 0) : Type 0 where
  pub cmd_producer : ℕ
  pub last_cmd_consumer : ℕ
  pub max_tx_desc_count : ℕ
  pub cmd_desc_head : List A
  pub cmd_buf_arr : Option (List CmdBuffer)
  pub pending_cmds : Pending A
  pub crb_addr_cmd_producer : Bool
  pub doorbell : Option ℕ
  pub queue_stopped : Bool
  pub running : Bool
  pub tx_timeout_count : ℕ
  pub xmitfinished : ℕ
  pub freed : List ℕ
  pub unmapped : ℕ

abbrev pub pegnet_request : ℕ
pegnet_request = 0x11

abbrev pub max_status_handle : ℕ
max_status_handle = 128

-- The command buffer of a request that carries no packet.
abbrev pub request_buffer : ℕ → CmdBuffer
request_buffer cmd = record {
  skb = none;
  frag_count = 0;
  mss = 0;
  total_length = 0;
  cmd = cmd;
  port = 0;
}

abbrev pub is_null : Option (List CmdBuffer) → Bool
is_null none = true
is_null (some bufs) = false

module _ {A : Type 0} where
  -- unm_nic_update_cmd_producer
  unfoldable pub update_cmd_producer : Adapter A → ℕ → Adapter A
  update_cmd_producer a producer =
      if a.crb_addr_cmd_producer then (record a { doorbell = some producer }) else a

  -- One round of the copying loops: the entry of the producer index is filled. The ring is used while
  -- cmd_buf_arr is allocated with the ring's size; for another array, which the code would reach
  -- outside of, only the descriptor is written.
  pub put_desc : ℕ → Adapter A → ℕ → A → Adapter A
  put_desc cmd a producer d = record a {
    cmd_buf_arr = Option.map (λ bufs. set bufs producer (request_buffer cmd)) a.cmd_buf_arr;
    cmd_desc_head = set a.cmd_desc_head producer d;
  }

  -- The loop: the producer index behind the entries, and the filled ring.
  pub put_descs : ℕ → Adapter A → ℕ → List A → ℕ × Adapter A
  unfolding put_desc
  put_descs cmd a producer [] = (producer, a)
  put_descs cmd a producer (d ∷ ds) =
      put_descs cmd (put_desc cmd a producer d) (get_next_index producer a.max_tx_desc_count) ds

  -- The test for room, with the wrap of the unsigned sums.
  abbrev pub no_room : Adapter A → ℕ → Bool
  no_room a n =
      leb
        (if leb a.last_cmd_consumer a.cmd_producer
          then add32 a.last_cmd_consumer a.max_tx_desc_count
          else a.last_cmd_consumer)
        (add32 a.cmd_producer n)

  pub queue_request : Option ℕ → Adapter A → List A → ℤ × Adapter A
  queue_request alloc a ds =
      let (rv, p) = queue_desc_list alloc a.pending_cmds ds in (rv, record a { pending_cmds = p })

  pub post_request : Adapter A → List A → ℤ × Adapter A
  unfolding put_descs update_cmd_producer
  post_request a ds =
      let (producer, a') = put_descs 0 a a.cmd_producer ds in
      (pos 0, update_cmd_producer (record a' { cmd_producer = producer }) producer)

  -- nx_nic_send_cmd_descs. `alloc` is what kmalloc returns if a block is wanted.
  unfoldable pub send_cmd_descs : Option ℕ → Adapter A → List A → ℤ × Adapter A
  unfolding queue_request post_request
  send_cmd_descs alloc a ds =
      if is_null a.cmd_buf_arr
      then (negsuc 0, a)
      else if ltb max_pending_desc_block_size (length ds) || length ds == 0
      then (einval, a)
      else if ltb 0 a.pending_cmds.cnt || no_room a (length ds)
      then queue_request alloc a ds
      else post_request a ds

  -- The entries that unm_proc_pending_cmd_desc may fill.
  pub free_length : Adapter A → ℕ
  free_length a =
      if a.cmd_producer == a.last_cmd_consumer
      then a.max_tx_desc_count - 1
      else if ltb a.last_cmd_consumer a.cmd_producer
      then a.max_tx_desc_count - a.cmd_producer + a.last_cmd_consumer - 1
      else a.last_cmd_consumer - a.cmd_producer - 1

  -- The body of the `while (length)` loop, for what the dequeue returned; `again` is the loop.
  pub proc_block :
      (Adapter A → ℕ → ℕ → Option (ℕ × Adapter A))
      → Adapter A
      → ℕ
      → ℕ
      → Option (Block A) × Pending A
      → Option (ℕ × Adapter A)
  unfolding put_descs free_block
  proc_block again a producer len (none, p) = some (producer, record a { pending_cmds = p })
  proc_block again a producer len (some b, p) =
      let (next, a') = put_descs pegnet_request (record a { pending_cmds = p }) producer b.cmd in
      again (record a' { pending_cmds = free_block a'.pending_cmds b }) next (len - length b.cmd)

  -- The loop on fuel; `none` means that the fuel ran out.
  pub proc_loop : ℕ → Adapter A → ℕ → ℕ → Option (ℕ × Adapter A)
  unfolding proc_block
  proc_loop zero a producer len = none
  proc_loop (suc fuel) a producer len =
      if len == 0
      then some (producer, a)
      else proc_block (proc_loop fuel) a producer len (dequeue a.pending_cmds len)

  pub finish_pending : Adapter A → ℕ × Adapter A → Adapter A
  unfolding update_cmd_producer
  finish_pending a (producer, a') =
      if a.cmd_producer == producer
      then a'
      else update_cmd_producer (record a' { cmd_producer = producer }) producer

  -- unm_proc_pending_cmd_desc. Each round takes one block: two more than there are full blocks
  -- is enough fuel.
  unfoldable pub proc_pending : Adapter A → Option (Adapter A)
  unfolding free_length proc_loop finish_pending
  proc_pending a =
      Option.map (finish_pending a)
        (proc_loop (length a.pending_cmds.cmd_list + 2) a a.cmd_producer (free_length a))

  -- What the loop of unm_process_cmd_ring does with the buffer of a finished entry.
  pub release_packet : Option ℕ → CmdBuffer → List CmdBuffer → ℕ → Adapter A → Adapter A
  release_packet none b bufs i a = a
  release_packet (some skb) b bufs i a = record a {
    cmd_buf_arr = some (set bufs i (record b { skb = none }));
    xmitfinished = a.xmitfinished + 1;
    freed = skb ∷ a.freed;
    unmapped = a.unmapped + 1 + (b.frag_count - 1);
  }

  pub release_buffer : Option CmdBuffer → List CmdBuffer → ℕ → Adapter A → Adapter A
  unfolding release_packet
  release_buffer none bufs i a = a
  release_buffer (some b) bufs i a = release_packet b.skb b bufs i a

  -- The buffer of an entry, in an array of the ring's size; there is none outside of the array, which
  -- the code would reach outside of.
  pub release_entry : Adapter A → ℕ → Adapter A
  unfolding release_buffer
  release_entry a i = elim a.cmd_buf_arr [
    | none ↦ a
    | some bufs ↦ release_buffer (get_elem? bufs i) bufs i a
  ]

  -- The loop, with the rounds that are left: where it stops, and how many entries it released.
  pub reap : ℕ → ℕ → Adapter A → ℕ → ℕ × Adapter A
  unfolding release_entry
  reap zero consumer a last = (last, a)
  reap (suc rounds) consumer a last =
      let rest =
        reap rounds consumer (release_entry a last) (get_next_index last a.max_tx_desc_count) in
      if last == consumer then (last, a) else rest

  pub wake_queue : Adapter A → Adapter A
  wake_queue a =
      if a.queue_stopped && a.running
      then (record a { tx_timeout_count = 0; queue_stopped = false })
      else a

  -- The part behind the loop, which stopped at `last`.
  pub finish_reap : Adapter A → ℕ → ℕ → ℕ × Adapter A → Bool × Adapter A
  unfolding wake_queue
  finish_reap a consumer later (last, a') =
      let a'' =
        (if a.last_cmd_consumer == consumer
          then a'
          else wake_queue (record a' { last_cmd_consumer = last })) in
      (a''.last_cmd_consumer == later, a'')

  -- unm_process_cmd_ring. The card's consumer index is read twice: `consumer`, then `later`.
  unfoldable pub process_cmd_ring : Adapter A → ℕ → ℕ → Bool × Adapter A
  unfolding reap finish_reap
  process_cmd_ring a consumer later =
      finish_reap a consumer later (reap max_status_handle consumer a a.last_cmd_consumer)
