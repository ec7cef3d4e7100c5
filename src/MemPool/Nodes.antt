-- ===== src/MemPool/Nodes.antt =====
-- Handing out and taking back nodes: no node is handed out twice, none is lost, and freeing what
-- was handed out never stops the kernel.
use hp_nx_nic.Prelude.{
  ℕ, suc, ◌+◌, ◌-◌, ◌≤◌, ◌≡◌, ◌≢◌, refl, ap, Option, none, some, List, [], ◌∷◌, ◌++◌, true, false,
  arith, length,
}
use hp_nx_nic.Prelude.Counts.{count, remove, count-append, count-remove, length-remove}
use hp_nx_nic.Prelude.Int.{ℤ, pos, ◌-ℤ◌, ◌+ℤ◌}
use hp_nx_nic.Prelude.Kernel.{ok, bug, relinked, Memory, is_member}
use hp_nx_nic.MemPool.{Pool, pool_field, alloc_front, alloc, free}

-- `out` are the nodes in use. Each node is in one place, and names the pool in its header.
pub record IsValid (p : Pool) (m : Memory) (out : List ℕ) : Type 0 where
  pub counted : p.allocated ≡ pos (length out)
  pub distinct : (a : ℕ) → count a p.free_list + count a out ≤ 1
  pub owned : (a : ℕ) → 1 ≤ count a p.free_list + count a out → m.word (pool_field a) ≡ p.self

-- `is_member` and `count` agree.
pub is_member-count : (a : ℕ) (xs : List ℕ) → count a xs ≡ 0 → is_member a xs ≡ false
is_member-count a [] h = refl
is_member-count a (x ∷ xs) h = ground (arith, is_member-count a xs)

pub is_member-of_count : (a : ℕ) (xs : List ℕ) → 1 ≤ count a xs → is_member a xs ≡ true
is_member-of_count a [] h = absurd (omega arith)
is_member-of_count a (x ∷ xs) h = ground (arith, is_member-of_count a xs)

counted_more : (k : ℤ) (n : ℕ) → k ≡ pos n → k +ℤ pos 1 ≡ pos (suc n)
unfolding ◌+ℤ◌
counted_more k n e = rw e (ground arith)

counted_less : (k : ℤ) (n : ℕ) → k ≡ pos (suc n) → k -ℤ pos 1 ≡ pos n
unfolding ◌-ℤ◌
counted_less k n e = rw e (ground arith)

-- What nx_mem_pool_alloc may answer: NULL from an exhausted pool, or a node that was not in use.
abbrev pub Allocs : Pool → Memory → List ℕ → Option ℕ × Pool → Type 0
Allocs p m out (none, q) = (p.free_list ≡ []) × (q ≡ p)
Allocs p m out (some ptr, q) =
    (node : ℕ) × (ptr ≡ node + p.offset)
    × (count node out ≡ 0)
    × IsValid q m (node ∷ out)
    × (length q.free_list + 1 ≡ length p.free_list)
    × (q.self ≡ p.self)
    × (q.offset ≡ p.offset)

alloc_front-Allocs :
    (p : Pool) (m : Memory) (out xs : List ℕ)
    → p.free_list ≡ xs
    → IsValid p m out
    → Allocs p m out (alloc_front xs p)
unfolding alloc_front
alloc_front-Allocs p m out [] e v = (e, refl)
alloc_front-Allocs p m out (x ∷ xs) e v = (
  x,
  refl,
  ground (arith, v.distinct x, ap (count x) e),
  record {
    counted = counted_more p.allocated (length out) v.counted;
    distinct = λ a. ground (arith, v.distinct a, ap (count a) e);
    owned = λ a h. v.owned a (ground (arith, ap (count a) e));
  },
  omega (arith, ap length e),
  refl,
  refl,
)

-- On a valid pool nx_mem_pool_alloc returns NULL with the pool unchanged, only if no node is free,
-- or a pointer behind a node that was not in use, which leaves the free list and joins the nodes
-- in use of a valid pool.
pub alloc-Allocs :
    (p : Pool) (m : Memory) (out : List ℕ) → IsValid p m out → Allocs p m out (alloc p)
unfolding alloc
alloc-Allocs p m out v = alloc_front-Allocs p m out p.free_list refl v

-- Given the pointer of a node in use of a valid pool, nx_mem_pool_free succeeds, appends the node
-- to the free list, and leaves a valid pool in which that node is no longer in use.
pub free-in_use :
    (p : Pool) (m : Memory) (out : List ℕ) (node : ℕ)
    → IsValid p m out
    → 1 ≤ count node out
    → (q : Pool) × (free p m (node + p.offset) ≡ ok q)
      × IsValid q m (remove node out)
      × (q.free_list ≡ p.free_list ++ node ∷ [])
      × (q.self ≡ p.self)
      × (q.offset ≡ p.offset)
unfolding free
free-in_use p m out node v h = (
  record p { free_list = p.free_list ++ node ∷ []; allocated = p.allocated -ℤ pos 1 },
  freed,
  record {
    counted = less;
    distinct = λ a.
        ground
          (arith, v.distinct a, count-append a p.free_list (node ∷ []), count-remove a node out h);
    owned = λ a k.
        v.owned a
          (ground (arith, count-append a p.free_list (node ∷ []), count-remove a node out h));
  },
  refl,
  refl,
  refl,
)
  where
    less : p.allocated -ℤ pos 1 ≡ pos (length (remove node out))
    less =
        counted_less p.allocated (length (remove node out))
          (rw v.counted (ap pos (omega (arith, length-remove node out h))))

    same : node + p.offset - p.offset ≡ node
    same = omega arith

    freed :
        free p m (node + p.offset)
        ≡ ok (record p { free_list = p.free_list ++ node ∷ []; allocated = p.allocated -ℤ pos 1 })
    freed =
        rw (same, less)
          (ground (arith, v.owned node, v.distinct node, is_member-count node p.free_list))

-- Given the pointer of a node that is already free in a valid pool, nx_mem_pool_free links the
-- node a second time: it does not detect a double free.
pub free-twice :
    (p : Pool) (m : Memory) (out : List ℕ) (node : ℕ)
    → IsValid p m out
    → 1 ≤ count node p.free_list
    → free p m (node + p.offset) ≡ relinked
unfolding free
free-twice p m out node v h =
    let same : node + p.offset - p.offset ≡ node = omega arith in
    rw same (ground (arith, v.owned node, is_member-of_count node p.free_list))

pub free-wrong_pool :
    (p : Pool) (m : Memory) (ptr : ℕ)
    → m.word (pool_field (ptr - p.offset)) ≢ p.self
    → free p m ptr ≡ bug
unfolding free
free-wrong_pool p m ptr h = ground arith
