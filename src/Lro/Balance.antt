-- ===== src/Lro/Balance.antt =====
-- The flow table and the memory pool agree: the nodes of the table are the entries in use.
use mathlib.Core.Path.{subst}
use hp_nx_nic.Prelude.{
  ℕ, ◌+◌, ◌≤◌, ◌≡◌, ◌⊎◌, inl, inr, sym, ap, Option, none, some, List, [], ◌∷◌, arith, ◌==◌,
  if◌then◌else◌, true, false, Bool-cases, length,
}
use hp_nx_nic.Prelude.Counts.{count, remove}
use hp_nx_nic.Prelude.Kernel.{ok, Memory}
use hp_nx_nic.MemPool
use hp_nx_nic.MemPool.Nodes
use hp_nx_nic.MemPool.Nodes.{alloc-Allocs, free-in_use}
use hp_nx_nic.HashTable
use hp_nx_nic.HashTable.Lookup
use hp_nx_nic.HashTable.Lookup.{all_addrs}
use hp_nx_nic.Lro.Key.{HostKey, lro_hash_ops}

-- The pointers that the pool handed out for its nodes.
abbrev pub pointers : ℕ → List ℕ → List ℕ
pointers offset [] = []
pointers offset (n ∷ ns) = (n + offset) ∷ pointers offset ns

-- `loose` are pointers in use that are in no chain.
pub record Balanced (p : MemPool.Pool) (m : Memory) (tbl : HashTable.Table HostKey ℕ)
    (loose : List ℕ) : Type 0 where
  pub out : List ℕ
  pub pool : Nodes.IsValid p m out
  pub table : Lookup.IsValid lro_hash_ops tbl
  pub held :
      (a : ℕ) → count a (all_addrs tbl.buckets) + count a loose ≡ count a (pointers p.offset out)

pub pointers-remove :
    (offset n a : ℕ) (ns : List ℕ)
    → 1 ≤ count n ns
    → count a (pointers offset (remove n ns)) + (if n + offset == a then 1 else 0)
      ≡ count a (pointers offset ns)
unfolding remove
pointers-remove offset n a [] h = absurd (omega arith)
pointers-remove offset n a (x ∷ xs) h = ground (arith, pointers-remove offset n a xs)

pub pointers-in :
    (offset a : ℕ) (ns : List ℕ)
    → 1 ≤ count a (pointers offset ns)
    → (n : ℕ) × (a ≡ n + offset) × (1 ≤ count n ns)
pointers-in offset a [] h = absurd (omega arith)
pointers-in offset a (x ∷ xs) h = cases (Bool-cases (x + offset == a)) (pointers-in offset a xs)
  where
    cases :
        ((x + offset == a) ≡ true) ⊎ ((x + offset == a) ≡ false)
        → (1 ≤ count a (pointers offset xs) → (n : ℕ) × (a ≡ n + offset) × (1 ≤ count n xs))
        → (n : ℕ) × (a ≡ n + offset) × (1 ≤ count n (x ∷ xs))
    cases (inl e) ih = (x, ground arith, ground arith)
    cases (inr e) ih = let (n, en, hn) = ih (ground arith) in (n, en, omega arith)

-- The pool's parts that no call changes.
abbrev pub SamePool : MemPool.Pool → MemPool.Pool → Type 0
SamePool p q = (q.self ≡ p.self) × (q.offset ≡ p.offset)

module _ (p : MemPool.Pool) (m : Memory) (tbl : HashTable.Table HostKey ℕ) where
  -- What nx_mem_pool_alloc answers on a balanced pool.
  abbrev pub Allocated : Option ℕ × MemPool.Pool → Type 0
  Allocated (none, q) = (p.free_list ≡ []) × (q ≡ p)
  Allocated (some ptr, q) = (1 ≤ length p.free_list) × Balanced q m tbl (ptr ∷ [])

  pub alloc-Balanced : Balanced p m tbl [] → Allocated (MemPool.alloc p)
  alloc-Balanced b = answer (MemPool.alloc p) (alloc-Allocs p m b.out b.pool)
    where
      answer : (r : Option ℕ × MemPool.Pool) → Nodes.Allocs p m b.out r → Allocated r
      answer (none, q) a = a
      answer (some ptr, q) (node, e, fresh, v, len, self, offset) = (
        omega (arith, len),
        record {
          out = node ∷ b.out;
          pool = v;
          table = b.table;
          held = λ a.
              let moved : count a (pointers q.offset b.out) ≡ count a (pointers p.offset b.out) =
                ap (λ o. count a (pointers o b.out)) offset in
              rw e (ground (arith, b.held a, moved, offset));
        },
      )

  -- nx_mem_pool_free takes a loose pointer back.
  pub free-Balanced :
      (ptr : ℕ)
      → Balanced p m tbl (ptr ∷ [])
      → (q : MemPool.Pool) × (MemPool.free p m ptr ≡ ok q) × Balanced q m tbl []
  free-Balanced ptr b =
      let (node, e, used) = pointers-in p.offset ptr b.out (ground (arith, b.held ptr)) in
      let (q, freed, v, listed, self, offset) = free-in_use p m b.out node b.pool used in
      (
        q,
        subst (λ x. MemPool.free p m x ≡ ok q) (sym e) freed,
        record {
          out = remove node b.out;
          pool = v;
          table = b.table;
          held = λ a.
              rw offset (ground (arith, b.held a, pointers-remove p.offset node a b.out used, e));
        },
      )
