-- ===== src/MemPool/Lifetime.antt =====
-- Creating and destroying a pool: the kernel heap gains the nodes of the pool, or nothing.
use mathlib.Core.Path.{subst}
use hp_nx_nic.Prelude.{
  ℕ, zero, suc, ◌+◌, ◌≤◌, ◌≡◌, refl, ap, ◌∙◌, ◌⊎◌, inl, inr, Option, none, some, List, [], ◌∷◌,
  ◌++◌, arith, length,
}
use hp_nx_nic.Prelude.Counts.{count, remove, remove-head, count-append, count-remove}
use hp_nx_nic.Prelude.Int.{ℤ, pos}
use hp_nx_nic.Prelude.Kernel.{
  Outcome, ok, bug, relinked, fault, Memory, Kmalloc, IsFresh, kfree, enomem,
}
use hp_nx_nic.MemPool.{
  Pool, pool_field, store, free_nodes, destroy, give_up, fill_one, fill, create,
}

-- Nodes freed in the order of the free list, the last one allocated first.
free_nodes-live :
    (xs live : List ℕ) (m : Memory) → m.live ≡ xs ++ live → (free_nodes xs m).live ≡ live
unfolding free_nodes kfree
free_nodes-live [] live m e = e
free_nodes-live (x ∷ xs) live m e =
    free_nodes-live xs live (kfree x m) (ap (remove x) e ∙ remove-head x (xs ++ live))

-- No address stands twice in `xs`, nor in `xs` and on the rest of the heap.
abbrev pub Distinct : List ℕ → List ℕ → Type 0
Distinct xs live = (a : ℕ) → 1 ≤ count a xs → count a (xs ++ live) ≡ 1

-- The header of each node names the pool.
abbrev pub Owned : ℕ → List ℕ → Memory → Type 0
Owned self xs m = (a : ℕ) → 1 ≤ count a xs → m.word (pool_field a) ≡ self

-- The state of the loop of nx_mem_pool_create.
record Filling (self : ℕ) (live : List ℕ) (p : Pool) (m : Memory) : Type 0 where
  on_heap : m.live ≡ p.free_list ++ live
  none_out : p.allocated ≡ pos 0
  owner : p.self ≡ self
  distinct : Distinct p.free_list live
  owned : Owned self p.free_list m

-- A pool is created whole, of `n` distinct nodes that were not live, or the heap is as it was.
abbrev pub Creates : ℕ → List ℕ → ℕ → Outcome (ℤ × Pool × Memory) → Type 0
Creates self live n (ok (rv, p, m)) =
    ((rv ≡ pos 0)
      × (length p.free_list ≡ n)
      × (p.self ≡ self)
      × (p.allocated ≡ pos 0)
      × (m.live ≡ p.free_list ++ live)
      × Distinct p.free_list live
      × Owned self p.free_list m)
    ⊎ ((rv ≡ enomem) × (m.live ≡ live))
Creates self live n bug = ⊥
Creates self live n relinked = ⊥
Creates self live n fault = ⊥

module _ (self : ℕ) (live : List ℕ) where
  give_up-Creates :
      (n : ℕ) (p : Pool) (m : Memory)
      → Filling self live p m
      → Creates self live n (give_up (destroy p m))
  unfolding give_up destroy
  give_up-Creates n p m f = rw f.none_out (inr (refl, free_nodes-live p.free_list live m f.on_heap))

  fill_one-Filling :
      (kmalloc : Kmalloc) (node : ℕ) (p : Pool) (m : Memory)
      → IsFresh kmalloc
      → kmalloc p.entry_size m.live ≡ some node
      → Filling self live p m
      → Filling self live
          (record p { free_list = node ∷ p.free_list })
          (record { live = node ∷ m.live; word = store m.word (pool_field node) p.self })
  fill_one-Filling kmalloc node p m fresh got f = record {
    on_heap = ap (λ l. node ∷ l) f.on_heap;
    none_out = f.none_out;
    owner = f.owner;
    distinct = distinct_step;
    owned = owned_step;
  }
    where
      unused : count node (p.free_list ++ live) ≡ 0
      unused = rw f.on_heap at (fresh p.entry_size node m.live got)

      distinct_step :
          (a : ℕ) → 1 ≤ count a (node ∷ p.free_list) → count a (node ∷ p.free_list ++ live) ≡ 1
      distinct_step a h = ground (arith, unused, f.distinct a, count-append a p.free_list live)

      owned_step :
          (a : ℕ)
          → 1 ≤ count a (node ∷ p.free_list)
          → store m.word (pool_field node) p.self (pool_field a) ≡ self
      owned_step a h = ground (arith, f.owned a, f.owner)

  -- The loop, whatever kmalloc answers.
  fill-Creates :
      (kmalloc : Kmalloc) (n k : ℕ) (p : Pool) (m : Memory)
      → IsFresh kmalloc
      → Filling self live p m
      → length p.free_list ≡ k
      → Creates self live (n + k) (fill kmalloc n p m)
  unfolding fill
  fill-Creates kmalloc zero k p m fresh f e =
      inl (refl, omega arith, f.owner, f.none_out, f.on_heap, f.distinct, f.owned)
  fill-Creates kmalloc (suc n) k p m fresh f e =
      one (kmalloc p.entry_size m.live) refl
        (λ p' m' f' e'. fill-Creates kmalloc n (suc k) p' m' fresh f' e')
    where
      one :
          (got : Option ℕ)
          → kmalloc p.entry_size m.live ≡ got
          → ((p' : Pool) (m' : Memory)
              → Filling self live p' m'
              → length p'.free_list ≡ suc k
              → Creates self live (n + suc k) (fill kmalloc n p' m'))
          → Creates self live (suc n + k) (fill_one (fill kmalloc n) got p m)
      one none eq ih = give_up-Creates (suc n + k) p m f
      one (some node) eq ih =
          let more : n + suc k ≡ suc n + k = omega arith in
          subst (λ j. Creates self live j (fill kmalloc n next_pool next_memory)) more
            (ih next_pool next_memory (fill_one-Filling kmalloc node p m fresh eq f) (ap suc e))
        where
          next_pool : Pool
          next_pool = record p { free_list = node ∷ p.free_list }

          next_memory : Memory
          next_memory = record {
            live = node ∷ m.live;
            word = store m.word (pool_field node) p.self;
          }

-- For a kmalloc that returns fresh blocks, nx_mem_pool_create returns 0 with a pool of exactly the
-- entries asked for, distinct, not live before and marked with the pool, none of them in use, or
-- -ENOMEM with the heap as it was.
pub create-Creates :
    (kmalloc : Kmalloc) (self n size : ℕ) (m : Memory)
    → IsFresh kmalloc
    → Creates self m.live n (create kmalloc self n size m)
unfolding create
create-Creates kmalloc self n size m fresh =
    let all : n + 0 ≡ n = omega arith in
    subst (λ j. Creates self m.live j (create kmalloc self n size m)) all
      (fill-Creates self m.live kmalloc n 0 _ m fresh
        (record {
          on_heap = refl;
          none_out = refl;
          owner = refl;
          distinct = λ a h. absurd (omega arith);
          owned = λ a h. absurd (omega arith);
        })
        refl)

free_nodes-count :
    (xs : List ℕ) (m : Memory)
    → ((b : ℕ) → count b xs ≤ count b m.live)
    → (a : ℕ) → count a (free_nodes xs m).live + count a xs ≡ count a m.live
unfolding free_nodes kfree
free_nodes-count [] m h a = omega arith
free_nodes-count (x ∷ xs) m h a = ground (
  arith,
  free_nodes-count xs (kfree x m) (λ b. ground (arith, h b, h x, count-remove b x m.live)) a,
  count-remove a x m.live,
  h x,
)

-- With nothing in use and every node of the free list live, nx_mem_pool_destroy ends and takes
-- each node of the free list off the heap once, and nothing else.
pub destroy-idle :
    (p : Pool) (m : Memory)
    → p.allocated ≡ pos 0
    → ((b : ℕ) → count b p.free_list ≤ count b m.live)
    → (q : Pool) × (m' : Memory) × (destroy p m ≡ ok (q, m'))
      × ((a : ℕ) → count a m'.live + count a p.free_list ≡ count a m.live)
unfolding destroy
destroy-idle p m e h =
    (record p { free_list = [] }, free_nodes p.free_list m, rw e, free_nodes-count p.free_list m h)

-- With a node in use it stops the kernel.
pub destroy-in_use : (p : Pool) (m : Memory) (n : ℕ) → p.allocated ≡ pos (suc n) → destroy p m ≡ bug
unfolding destroy
destroy-in_use p m n e = rw e (ground arith)
