-- ===== src/CmdRing/Pending.antt =====
-- The queue of command descriptors that wait for room in the command ring: the structures of
-- driver/unm_nic.h and, in driver/unm_nic_main.c, unm_init_pending_cmd_desc to
-- nx_queue_pend_cmd_desc_list.
pub mod Fifo
use hp_nx_nic.Prelude.{
  ℕ, ◌+◌, ◌≡◌, Bool, Option, none, some, List, [], ◌∷◌, ◌++◌, map, ltb, leb, ◌==◌, if◌then◌else◌,
  length,
}
use hp_nx_nic.Prelude.Int.{ℤ, pos, is_zero}
use hp_nx_nic.Prelude.Kernel.{enomem}
use hp_nx_nic.Prelude.Words.{add32, sub32}

abbrev pub max_pending_desc_block_size : ℕ
max_pending_desc_block_size = 64

-- A block: its kernel address, and the entries `cmd[0 .. cnt)`. `cnt` is the length of the list.
pub record Block (A : Type 0) : Type 0 where
  pub addr : ℕ
  pub cmd : List A

pub record Pending (A : Type 0) : Type 0 where
  pub cnt : ℕ
  pub free_list : List (Block A)
  pub cmd_list : List (Block A)
  pub curr_block : Option (Block A)

module _ {A : Type 0} where
  pub init : Pending A
  init = record { cnt = 0; free_list = []; cmd_list = []; curr_block = none }

  abbrev pub addrs : List (Block A) → List ℕ
  addrs = map λ b. b.addr

  abbrev pub addr_of : Option (Block A) → List ℕ
  addr_of none = []
  addr_of (some b) = b.addr ∷ []

  -- The addresses handed to kfree, in order, and the emptied queue.
  pub destroy : Pending A → List ℕ × Pending A
  unfolding init
  destroy p = (addr_of p.curr_block ++ (addrs p.free_list ++ addrs p.cmd_list), init)

  unfoldable pub free_block : Pending A → Block A → Pending A
  free_block p b = record p { free_list = p.free_list ++ record b { cmd = [] } ∷ [] }

  -- `block == NULL || length < block->cnt` of the current block
  pub dequeue_curr : Option (Block A) → Pending A → ℕ → Option (Block A) × Pending A
  dequeue_curr none p len = (none, p)
  dequeue_curr (some b) p len =
      if ltb len (length b.cmd)
      then (none, p)
      else (some b, record p { curr_block = none; cnt = sub32 p.cnt (length b.cmd) })

  pub dequeue_list : List (Block A) → Pending A → ℕ → Option (Block A) × Pending A
  unfolding dequeue_curr
  dequeue_list [] p len = dequeue_curr p.curr_block p len
  dequeue_list (b ∷ rest) p len =
      if ltb len max_pending_desc_block_size
      then (none, p)
      else (some b, record p { cmd_list = rest; cnt = sub32 p.cnt (length b.cmd) })

  -- The block that the caller may write to the ring, if `length` free entries hold it.
  unfoldable pub dequeue : Pending A → ℕ → Option (Block A) × Pending A
  unfolding dequeue_list
  dequeue p len = dequeue_list p.cmd_list p len

  -- the part of nx_queue_pend_cmd_desc from the memcpy on; a full block joins the command list
  pub append_desc : Block A → A → Pending A → Pending A
  append_desc b d p =
      let b' = record b { cmd = b.cmd ++ d ∷ [] } in
      if length b'.cmd == max_pending_desc_block_size
      then (record p { cmd_list = p.cmd_list ++ b' ∷ []; cnt = add32 p.cnt 1; curr_block = none })
      else (record p { cnt = add32 p.cnt 1; curr_block = some b' })

  pub queue_free : List (Block A) → A → Pending A → Pending A
  unfolding append_desc
  queue_free [] d p = p
  queue_free (b ∷ rest) d p = append_desc (record b { cmd = [] }) d (record p { free_list = rest })

  pub queue_block : Option (Block A) → A → Pending A → Pending A
  unfolding append_desc queue_free
  queue_block (some b) d p = append_desc b d p
  queue_block none d p = queue_free p.free_list d p

  -- nx_queue_pend_cmd_desc: with no block at hand the descriptor is dropped.
  pub queue_desc : Pending A → A → Pending A
  unfolding queue_block
  queue_desc p d = queue_block p.curr_block d p

  -- `block && block->cnt <= MAX_PENDING_DESC_BLOCK_SIZE - cnt`, an unsigned comparison
  pub has_room : Option (Block A) → ℕ → Bool
  has_room none cnt = Bool.false
  has_room (some b) cnt = leb (length b.cmd) (sub32 max_pending_desc_block_size cnt)

  abbrev pub is_empty : List (Block A) → Bool
  is_empty [] = Bool.true
  is_empty (b ∷ bs) = Bool.false

  -- `alloc` is what kmalloc returns if it is called.
  pub make_available : Option ℕ → Pending A → ℕ → ℤ × Pending A
  unfolding has_room free_block
  make_available alloc p cnt =
      if has_room p.curr_block cnt
      then (pos 0, p)
      else if is_empty p.free_list
      then elim alloc [
        | none ↦ (enomem, p)
        | some a ↦ (pos 0, free_block p (record { addr = a; cmd = [] }))
      ]
      else (pos 0, p)

  pub queue_all : Pending A → List A → Pending A
  queue_all p [] = p
  queue_all p (d ∷ ds) = queue_all (queue_desc p d) ds

  -- nx_queue_pend_cmd_desc_list; its caller passes at least one descriptor.
  unfoldable pub queue_desc_list : Option ℕ → Pending A → List A → ℤ × Pending A
  unfolding make_available queue_all
  queue_desc_list alloc p ds =
      let (rv, p') = make_available alloc p (length ds) in
      if is_zero rv then (rv, queue_all p' ds) else (rv, p')

  abbrev pub cmds : List (Block A) → List A
  cmds [] = []
  cmds (b ∷ bs) = b.cmd ++ cmds bs

  abbrev pub cmds_of : Option (Block A) → List A
  cmds_of none = []
  cmds_of (some b) = b.cmd

  -- The descriptors that wait, oldest first.
  abbrev pub queued : Pending A → List A
  queued p = cmds p.cmd_list ++ cmds_of p.curr_block
