-- ===== src/CmdRing/Pending/Fifo.antt =====
-- The pending queue is a FIFO of descriptors: what queueing adds and dequeueing takes, and that
-- no block overflows and no descriptor is dropped.
use mathlib.Core.List.{append-nil, append_assoc}
use hp_nx_nic.Prelude.{
  ℕ, ◌+◌, ◌≡◌, ◌≤◌, ◌<◌, ◌^◌, refl, ap, ◌-◌, ◌*◌, ◌∙◌, Option, none, some, List, [], ◌∷◌, ◌++◌, ◌⊎◌,
  inl, arith, length, length-append,
}
use hp_nx_nic.Prelude.Int.{ℤ, pos}
use hp_nx_nic.Prelude.Kernel.{enomem}
use hp_nx_nic.CmdRing.Pending.{
  Block, Pending, max_pending_desc_block_size, dequeue_curr, dequeue_list, dequeue, append_desc,
  queue_free, queue_block, queue_desc, free_block, has_room, make_available, queue_all,
  queue_desc_list, cmds, cmds_of, queued,
}

module _ {A : Type 0} where
  abbrev pub AllFull : List (Block A) → Type 0
  AllFull [] = Unit
  AllFull (b ∷ bs) = (length b.cmd ≡ max_pending_desc_block_size) × AllFull bs

  abbrev pub HasRoom : Option (Block A) → Type 0
  HasRoom none = Unit
  HasRoom (some b) = length b.cmd < max_pending_desc_block_size

  -- Blocks on the command list are full, the current one is not, and `cnt` counts descriptors.
  pub record IsValid (p : Pending A) : Type 0 where
    pub full : AllFull p.cmd_list
    pub room : HasRoom p.curr_block
    pub counted : p.cnt ≡ length (queued p)
    pub small : p.cnt < 2 ^ 32

  abbrev pub curr_space : Option (Block A) → ℕ
  curr_space none = 0
  curr_space (some b) = max_pending_desc_block_size - length b.cmd

  -- How many descriptors the blocks at hand still take.
  abbrev pub space : Pending A → ℕ
  space p = curr_space p.curr_block + max_pending_desc_block_size * length p.free_list

  pub AllFull-snoc :
      (bs : List (Block A)) (b : Block A)
      → AllFull bs
      → length b.cmd ≡ max_pending_desc_block_size
      → AllFull (bs ++ b ∷ [])
  AllFull-snoc [] b h e = (e, tt)
  AllFull-snoc (c ∷ bs) b h e = (h.0, AllFull-snoc bs b h.1 e)

  pub cmds-snoc : (bs : List (Block A)) (b : Block A) → cmds (bs ++ b ∷ []) ≡ cmds bs ++ b.cmd
  cmds-snoc [] b = append-nil b.cmd
  cmds-snoc (c ∷ bs) b = rw (cmds-snoc bs b, append_assoc)

  append_desc-queued :
      (b : Block A) (d : A) (p : Pending A)
      → queued (append_desc b d p) ≡ cmds p.cmd_list ++ (b.cmd ++ d ∷ [])
  unfolding append_desc
  append_desc-queued b d p = ground (
    arith,
    cmds-snoc p.cmd_list (record b { cmd = b.cmd ++ d ∷ [] }),
    append-nil (cmds p.cmd_list ++ (b.cmd ++ d ∷ [])),
  )

  append_desc-IsValid :
      (b : Block A) (d : A) (p : Pending A)
      → AllFull p.cmd_list
      → length b.cmd < max_pending_desc_block_size
      → p.cnt ≡ length (cmds p.cmd_list) + length b.cmd
      → p.cnt + 1 < 2 ^ 32
      → IsValid (append_desc b d p)
  unfolding append_desc
  append_desc-IsValid b d p f h e s = ground (
    arith,
    AllFull-snoc p.cmd_list (record b { cmd = b.cmd ++ d ∷ [] }),
    ap length (append_desc-queued b d p),
    length-append b.cmd (d ∷ []),
    length-append (cmds p.cmd_list) (b.cmd ++ d ∷ []),
  )

  append_desc-space :
      (b : Block A) (d : A) (p : Pending A)
      → length b.cmd < max_pending_desc_block_size
      → space (append_desc b d p) + 1
        ≡ max_pending_desc_block_size
          - length b.cmd
          + max_pending_desc_block_size * length p.free_list
  unfolding append_desc
  append_desc-space b d p h = ground (arith, length-append b.cmd (d ∷ []))

  -- One descriptor: it joins the end of the queue, and takes one entry of the room.
  pub record Queued (p : Pending A) (ds : List A) (q : Pending A) : Type 0 where
    pub valid : IsValid q
    pub order : queued q ≡ queued p ++ ds
    pub space_left : space q + length ds ≡ space p

  queue_free-Queued :
      (p : Pending A) (fs : List (Block A)) (d : A)
      → p.curr_block ≡ none
      → p.free_list ≡ fs
      → IsValid p
      → 1 ≤ space p
      → p.cnt + 1 < 2 ^ 32
      → Queued p (d ∷ []) (queue_free fs d p)
  unfolding queue_free
  queue_free-Queued p [] d ec ef v h s = absurd (omega (arith, ap length ef, ap curr_space ec))
  queue_free-Queued p (b ∷ rest) d ec ef v h s = ground (
    arith,
    append_desc-IsValid (record b { cmd = [] }) d (record p { free_list = rest }),
    append_desc-queued (record b { cmd = [] }) d (record p { free_list = rest }),
    append_desc-space (record b { cmd = [] }) d (record p { free_list = rest }),
    append-nil (cmds p.cmd_list),
  )

  queue_block-Queued :
      (p : Pending A) (o : Option (Block A)) (d : A)
      → p.curr_block ≡ o
      → IsValid p
      → 1 ≤ space p
      → p.cnt + 1 < 2 ^ 32
      → Queued p (d ∷ []) (queue_block o d p)
  unfolding queue_block
  queue_block-Queued p none d ec v h s = queue_free-Queued p p.free_list d ec refl v h s
  queue_block-Queued p (some b) d ec v h s = ground (
    arith,
    append_desc-IsValid b d p,
    append_desc-queued b d p,
    append_desc-space b d p,
    append_assoc (cmds p.cmd_list) b.cmd (d ∷ []),
    length-append (cmds p.cmd_list) b.cmd,
  )

  queue_desc-Queued :
      (p : Pending A) (d : A)
      → IsValid p
      → 1 ≤ space p
      → p.cnt + 1 < 2 ^ 32
      → Queued p (d ∷ []) (queue_desc p d)
  unfolding queue_desc
  queue_desc-Queued p d v h s = queue_block-Queued p p.curr_block d refl v h s

  queue_all-Queued :
      (p : Pending A) (ds : List A)
      → IsValid p
      → length ds ≤ space p
      → p.cnt + length ds < 2 ^ 32
      → Queued p ds (queue_all p ds)
  unfolding queue_all
  queue_all-Queued p [] v h s = ground (arith, append-nil (queued p))
  queue_all-Queued p (d ∷ ds) v h s =
      let one : Queued p (d ∷ []) (queue_desc p d) =
        queue_desc-Queued p d v (omega arith) (omega arith) in
      let cnt_one : (queue_desc p d).cnt ≡ p.cnt + 1 = omega (
        arith,
        one.valid.counted,
        v.counted,
        ap length one.order,
        length-append (queued p) (d ∷ []),
      ) in
      let rest : Queued (queue_desc p d) ds (queue_all (queue_desc p d) ds) =
        queue_all-Queued (queue_desc p d) ds one.valid (omega arith) (omega arith) in
      record {
        valid = rest.valid;
        order = rest.order ∙ (ap (λ l. l ++ ds) one.order ∙ append_assoc (queued p) (d ∷ []) ds);
        space_left = omega arith;
      }

  -- What nx_make_available_pend_cmd_desc may answer for `n` descriptors.
  abbrev pub Answers : Option ℕ → Pending A → ℕ → ℤ × Pending A → Type 0
  Answers alloc p n (rv, q) =
      ((rv ≡ pos 0) × IsValid q × (queued q ≡ queued p) × (n ≤ space q) × (q.cnt ≡ p.cnt))
      ⊎ ((rv ≡ enomem) × (q ≡ p) × (alloc ≡ none))

  -- With a block on the free list, or one just allocated, there is room for a whole request.
  make_available-Answers :
      (alloc : Option ℕ) (p : Pending A) (n : ℕ)
      → IsValid p
      → n ≤ max_pending_desc_block_size
      → Answers alloc p n (make_available alloc p n)
  unfolding make_available has_room free_block
  make_available-Answers alloc p n v h = ground (arith, length-append p.free_list)

  -- What nx_queue_pend_cmd_desc_list may answer: the descriptors join the end of the queue, or
  -- nothing changes because no block could be allocated.
  abbrev pub Queues : Option ℕ → Pending A → List A → ℤ × Pending A → Type 0
  Queues alloc p ds (rv, q) =
      ((rv ≡ pos 0) × IsValid q × (queued q ≡ queued p ++ ds))
      ⊎ ((rv ≡ enomem) × (q ≡ p) × (alloc ≡ none))

  -- On a valid queue, at most 64 descriptors, with which the count stays below 2 ^ 32, are queued
  -- whole and in order with result 0, or refused whole with -ENOMEM if no block could be allocated.
  pub queue_desc_list-Queued :
      (alloc : Option ℕ) (p : Pending A) (ds : List A)
      → IsValid p
      → length ds ≤ max_pending_desc_block_size
      → p.cnt + length ds < 2 ^ 32
      → Queues alloc p ds (queue_desc_list alloc p ds)
  unfolding queue_desc_list
  queue_desc_list-Queued alloc p ds v h s = ground (
    arith,
    make_available-Answers alloc p (length ds) v h,
    queue_all-Queued (make_available alloc p (length ds)).1 ds,
  )

  abbrev pub curr_blocks : Option (Block A) → ℕ
  curr_blocks none = 0
  curr_blocks (some b) = 1

  -- The blocks that hold descriptors.
  abbrev pub blocks : Pending A → ℕ
  blocks p = length p.cmd_list + curr_blocks p.curr_block

  -- A block that returns to the free list changes neither the queue nor its invariant.
  pub free_block-kept :
      (p : Pending A) (b : Block A)
      → IsValid p
      → IsValid (free_block p b)
        × (queued (free_block p b) ≡ queued p)
        × (blocks (free_block p b) ≡ blocks p)
  unfolding free_block
  free_block-kept p b v = ground arith

  -- What unm_dequeue_pending_cmd_desc may answer when `len` ring entries are free.
  abbrev pub Dequeues : Pending A → ℕ → Option (Block A) × Pending A → Type 0
  Dequeues p len (none, q) = (q ≡ p) × ((queued p ≡ []) ⊎ (len < max_pending_desc_block_size))
  Dequeues p len (some b, q) =
      IsValid q × (queued p ≡ b.cmd ++ queued q) × (length b.cmd ≤ len) × (blocks q + 1 ≡ blocks p)

  dequeue_curr-Dequeues :
      (p : Pending A) (o : Option (Block A)) (len : ℕ)
      → p.curr_block ≡ o
      → p.cmd_list ≡ []
      → IsValid p
      → Dequeues p len (dequeue_curr o p len)
  unfolding dequeue_curr
  dequeue_curr-Dequeues p none len ec el v = (refl, inl (rw (el, ec) refl))
  dequeue_curr-Dequeues p (some b) len ec el v = ground (arith, append-nil b.cmd)

  dequeue_list-Dequeues :
      (p : Pending A) (bs : List (Block A)) (len : ℕ)
      → p.cmd_list ≡ bs
      → IsValid p
      → Dequeues p len (dequeue_list bs p len)
  unfolding dequeue_list
  dequeue_list-Dequeues p [] len el v = dequeue_curr-Dequeues p p.curr_block len refl el v
  dequeue_list-Dequeues p (b ∷ bs) len el v = ground (
    arith,
    append_assoc b.cmd (cmds bs) (cmds_of p.curr_block),
    length-append b.cmd (cmds bs ++ cmds_of p.curr_block),
  )

  -- From a valid queue unm_dequeue_pending_cmd_desc takes the oldest block, if its descriptors fit
  -- in `len` ring entries; it takes none only if the queue is empty or `len` is less than 64.
  pub dequeue-Dequeues : (p : Pending A) (len : ℕ) → IsValid p → Dequeues p len (dequeue p len)
  unfolding dequeue
  dequeue-Dequeues p len v = dequeue_list-Dequeues p p.cmd_list len refl v
