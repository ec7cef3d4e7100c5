-- ===== src/MemPool.antt =====
-- The memory pool of driver/nx_mem_pool.c and driver/nx_mem_pool.h: a list of nodes that are
-- allocated once, handed out from its front and taken back at its end.
pub mod Lifetime
pub mod Nodes
mod Tests
use hp_nx_nic.Prelude.{
  ℕ, zero, suc, ◌+◌, ◌-◌, ◌*◌, ◌/◌, Option, none, some, List, [], ◌∷◌, ◌++◌, ◌==◌, if◌then◌else◌,
}
use hp_nx_nic.Prelude.Int.{ℤ, pos, ◌-ℤ◌, ◌+ℤ◌, ltb_ℤ, is_zero}
use hp_nx_nic.Prelude.Kernel.{
  Outcome, ok, bug, relinked, fault, Memory, Kmalloc, kfree, is_member, enomem,
}

-- sizeof(nx_mem_pool_node_t) on a 64-bit machine: a list head and a pointer.
abbrev pub node_size : ℕ
node_size = 24

-- The word of a node that holds its pool, behind the list head.
abbrev pub pool_field : ℕ → ℕ
pool_field node = node + 16

abbrev pub alignment : ℕ
alignment = 8

-- `nx_mem_pool_t`; the free list holds the addresses of its nodes, front first, and `self` is the
-- address of the pool.
pub record Pool : Type 0 where
  pub self : ℕ
  pub free_list : List ℕ
  pub max_entries : ℕ
  pub entry_size : ℕ
  pub allocated : ℤ
  pub offset : ℕ

unfoldable pub free_nodes : List ℕ → Memory → Memory
unfolding kfree
free_nodes [] m = m
free_nodes (a ∷ rest) m = free_nodes rest (kfree a m)

-- nx_mem_pool_destroy
unfoldable pub destroy : Pool → Memory → Outcome (Pool × Memory)
unfolding free_nodes
destroy p m =
    if is_zero p.allocated then ok (record p { free_list = [] }, free_nodes p.free_list m) else bug

-- The result of nx_mem_pool_create, which ends with the pool destroyed if memory runs out.
pub give_up : Outcome (Pool × Memory) → Outcome (ℤ × Pool × Memory)
give_up (ok (p, m)) = ok (enomem, p, m)
give_up bug = bug
give_up relinked = relinked
give_up fault = fault

abbrev pub store : (ℕ → ℕ) → ℕ → ℕ → ℕ → ℕ
store f a v b = if a == b then v else f b

-- One round of the loop of nx_mem_pool_create, for what kmalloc returned; `again` is the loop.
pub fill_one :
    (Pool → Memory → Outcome (ℤ × Pool × Memory))
    → Option ℕ
    → Pool
    → Memory
    → Outcome (ℤ × Pool × Memory)
unfolding destroy give_up
fill_one again none p m = give_up (destroy p m)
fill_one again (some node) p m =
    again (record p { free_list = node ∷ p.free_list })
      (record { live = node ∷ m.live; word = store m.word (pool_field node) p.self })

-- The loop, with the rounds that are left.
pub fill : Kmalloc → ℕ → Pool → Memory → Outcome (ℤ × Pool × Memory)
unfolding fill_one
fill kmalloc zero p m = ok (pos 0, p, m)
fill kmalloc (suc n) p m = fill_one (fill kmalloc n) (kmalloc p.entry_size m.live) p m

-- nx_mem_pool_create: the pool of `max_entries` entries of the given size.
unfoldable pub create : Kmalloc → ℕ → ℕ → ℕ → Memory → Outcome (ℤ × Pool × Memory)
unfolding fill
create kmalloc self max_entries entry_size m =
    let offset : ℕ = (node_size + (alignment - 1)) / alignment * alignment in
    fill kmalloc max_entries
      (record {
        self = self;
        free_list = [];
        max_entries = max_entries;
        entry_size = entry_size + offset;
        allocated = pos 0;
        offset = offset;
      })
      m

pub alloc_front : List ℕ → Pool → Option ℕ × Pool
alloc_front [] p = (none, p)
alloc_front (node ∷ rest) p =
    (some (node + p.offset), record p { free_list = rest; allocated = p.allocated +ℤ pos 1 })

-- nx_mem_pool_alloc: the pointer behind the node's header, or NULL.
unfoldable pub alloc : Pool → Option ℕ × Pool
unfolding alloc_front
alloc p = alloc_front p.free_list p

-- nx_mem_pool_free
unfoldable pub free : Pool → Memory → ℕ → Outcome Pool
free p m ptr =
    let node = ptr - p.offset in
    if m.word (pool_field node) == p.self
    then if is_member node p.free_list
      then relinked
      else (let allocated = p.allocated -ℤ pos 1 in
          if ltb_ℤ allocated (pos 0)
          then bug
          else ok (record p { free_list = p.free_list ++ node ∷ []; allocated = allocated }))
    else bug
