-- ===== src/MemPool/Tests.antt =====
-- A pool of two nodes at work.
use hp_nx_nic.Prelude.{ℕ, ◌+◌, ◌≤◌, ◌≡◌, refl, [], ◌∷◌, arith}
use hp_nx_nic.Prelude.Counts.{count, remove}
use hp_nx_nic.Prelude.Int.{pos}
use hp_nx_nic.Prelude.Kernel.{ok, Memory}
use hp_nx_nic.Prelude.Bump.{bump, bump-IsFresh}
use hp_nx_nic.MemPool.{Pool, create, destroy, alloc, free}
use hp_nx_nic.MemPool.Lifetime.{Creates, create-Creates, destroy-idle}
use hp_nx_nic.MemPool.Nodes.{IsValid, Allocs, alloc-Allocs, free-in_use}

abbrev heap : Memory
heap = record { live = 7 ∷ []; word = λ a. 100 }

-- Node 500 is free, node 600 in use.
abbrev pool : Pool
pool = record {
  self = 100;
  free_list = 500 ∷ [];
  max_entries = 2;
  entry_size = 104;
  allocated = pos 1;
  offset = 24;
}

pool-IsValid : IsValid pool heap (600 ∷ [])
pool-IsValid = record { counted = refl; distinct = λ a. ground arith; owned = λ a h. refl }

create-Creates_example : Creates 100 (7 ∷ []) 2 (create bump 100 2 80 heap)
create-Creates_example = create-Creates bump 100 2 80 heap bump-IsFresh

abbrev idle_pool : Pool
idle_pool = record pool { allocated = pos 0 }

abbrev idle_heap : Memory
idle_heap = record heap { live = 500 ∷ 7 ∷ [] }

idle_listed : (b : ℕ) → count b idle_pool.free_list ≤ count b idle_heap.live
idle_listed b = ground arith

destroy-idle_example :
    (q : Pool) × (m' : Memory) × (destroy idle_pool idle_heap ≡ ok (q, m'))
    × ((a : ℕ) → count a m'.live + count a (500 ∷ []) ≡ count a (500 ∷ 7 ∷ []))
destroy-idle_example = destroy-idle idle_pool idle_heap refl idle_listed

alloc-Allocs_example : Allocs pool heap (600 ∷ []) (alloc pool)
alloc-Allocs_example = alloc-Allocs pool heap (600 ∷ []) pool-IsValid

free-in_use_example :
    (q : Pool) × (free pool heap 624 ≡ ok q)
    × IsValid q heap (remove 600 (600 ∷ []))
    × (q.free_list ≡ 500 ∷ 600 ∷ [])
    × (q.self ≡ 100)
    × (q.offset ≡ 24)
free-in_use_example = free-in_use pool heap (600 ∷ []) 600 pool-IsValid (omega arith)
