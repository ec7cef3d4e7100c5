-- ===== src/Lro/Cleanup.antt =====
-- The end of the offload: unm_cleanup_lro gives every entry back and the pool's memory to the heap.
use mathlib.Core.Path.{subst}
use hp_nx_nic.Prelude.{
  ℕ, ◌+◌, ◌≤◌, ◌≡◌, refl, sym, ap, ◌∙◌, List, [], ◌∷◌, ◌++◌, arith, true, false, length,
}
use hp_nx_nic.Prelude.Counts.{count, remove, count-append, count-remove}
use hp_nx_nic.Prelude.Int.{pos}
use hp_nx_nic.Prelude.Kernel.{Outcome, ok, Memory}
use hp_nx_nic.MemPool
use hp_nx_nic.MemPool.Nodes
use hp_nx_nic.MemPool.Nodes.{free-in_use}
use hp_nx_nic.MemPool.Lifetime.{destroy-idle}
use hp_nx_nic.HashTable
use hp_nx_nic.HashTable.Chain.{addrs}
use hp_nx_nic.HashTable.Lookup.{all_addrs}
use hp_nx_nic.HashTable.Delete.{
  all_nodes, Stops, Visits, all_visited, visited, stopped, destroy-Visits,
}
use hp_nx_nic.Lro.Balance.{pointers, pointers-in, pointers-remove}
use hp_nx_nic.Lro.Flows.{IsValid}
use hp_nx_nic.Lro.{Entry, Lro, destroy_node, destroy_pool, destroyed, cleanup_lro}

addrs-append :
    (a : ℕ) (xs ys : List Entry)
    → count a (addrs (xs ++ ys)) ≡ count a (addrs xs) + count a (addrs ys)
addrs-append a [] ys = omega arith
addrs-append a (x ∷ xs) ys = omega (arith, addrs-append a xs ys)

all_nodes-addrs :
    (a : ℕ) (bs : List (List Entry)) → count a (addrs (all_nodes bs)) ≡ count a (all_addrs bs)
all_nodes-addrs a [] = refl
all_nodes-addrs a (b ∷ bs) = omega (
  arith,
  addrs-append a b (all_nodes bs),
  count-append a (addrs b) (all_addrs bs),
  all_nodes-addrs a bs,
)

ok-injective : {A : Type 0} {x y : A} → ◌≡◌ {A = Outcome A} (ok x) (ok y) → x ≡ y
ok-injective e = cc

-- Every entry is given back: no node is in use, and the free list has them all.
record Drained (m : Memory) (p : MemPool.Pool) (out : List ℕ) (o : Outcome MemPool.Pool)
    : Type 0 where
  after : MemPool.Pool
  done : o ≡ ok after
  idle : after.allocated ≡ pos 0
  listed : (a : ℕ) → count a after.free_list ≡ count a p.free_list + count a out

no_pointers : (offset : ℕ) (out : List ℕ) → ((a : ℕ) → 0 ≡ count a (pointers offset out)) → out ≡ []
no_pointers offset [] h = refl
no_pointers offset (n ∷ ns) h = absurd (ground (arith, h (n + offset)))

-- The callback gives the node of the first entry back.
record FreesFirst (m : Memory) (x : Entry) (xs : List Entry) (p : MemPool.Pool) (out : List ℕ)
    (o : Outcome MemPool.Pool) : Type 0 where
  node : ℕ
  used : 1 ≤ count node out
  after : MemPool.Pool
  freed : o ≡ ok after
  valid : Nodes.IsValid after m (remove node out)
  appended : after.free_list ≡ p.free_list ++ node ∷ []
  left : (a : ℕ) → count a (addrs xs) ≡ count a (pointers after.offset (remove node out))

destroy_node-FreesFirst :
    (m : Memory) (x : Entry) (xs : List Entry) (p : MemPool.Pool) (out : List ℕ)
    → Nodes.IsValid p m out
    → ((a : ℕ) → count a (addrs (x ∷ xs)) ≡ count a (pointers p.offset out))
    → FreesFirst m x xs p out (destroy_node m x p)
unfolding destroy_node
destroy_node-FreesFirst m x xs p out v h =
    let (node, e, used) = pointers-in p.offset x.addr out (ground (arith, h x.addr)) in
    let (q, freed, w, appended, self, offset) = free-in_use p m out node v used in
    record {
      node = node;
      used = used;
      after = q;
      freed = subst (λ y. MemPool.free p m y ≡ ok q) (sym e) freed;
      valid = w;
      appended = appended;
      left = λ a.
          let moved : count a (pointers q.offset (remove node out))
              ≡ count a (pointers p.offset (remove node out)) =
            ap (λ o. count a (pointers o (remove node out))) offset in
          ground (arith, h a, pointers-remove p.offset node a out used, e, moved);
    }

Visits-Drained :
    (m : Memory) {xs : List Entry} {p : MemPool.Pool} {o : Outcome MemPool.Pool} (out : List ℕ)
    → Visits (destroy_node m) xs p o
    → Nodes.IsValid p m out
    → ((a : ℕ) → count a (addrs xs) ≡ count a (pointers p.offset out))
    → Drained m p out o
Visits-Drained m {p = p} out (all_visited s) v h =
    let none_out : out ≡ [] = no_pointers s.offset out h in
    record {
      after = s;
      done = refl;
      idle = v.counted ∙ ap (λ l. pos (length l)) none_out;
      listed = λ a. omega (arith, ap (count a) none_out);
    }
Visits-Drained m out (visited x ns s s' o called rest_visits) v h =
    let f : FreesFirst m x ns s out (destroy_node m x s) =
      destroy_node-FreesFirst m x ns s out v h in
    let same : f.after ≡ s' = ok-injective (sym f.freed ∙ called) in
    let rest : Drained m s' (remove f.node out) o =
      Visits-Drained m (remove f.node out) rest_visits
        (subst (λ q. Nodes.IsValid q m (remove f.node out)) same f.valid)
        (subst (λ q. (a : ℕ) → count a (addrs ns) ≡ count a (pointers q.offset (remove f.node out)))
          same f.left) in
    record {
      after = rest.after;
      done = rest.done;
      idle = rest.idle;
      listed = λ a. ground (
        arith,
        rest.listed a,
        ap (λ q. count a q.free_list) same,
        ap (count a) f.appended,
        count-append a s.free_list (f.node ∷ []),
        count-remove a f.node out f.used,
      );
    }
Visits-Drained m out (stopped x ns s o called stops) v h =
    let f : FreesFirst m x ns s out (destroy_node m x s) =
      destroy_node-FreesFirst m x ns s out v h in
    absurd (subst Stops (sym called ∙ f.freed) stops)

-- From an initialised state in which exactly the nodes of the table are in use, and the pool's
-- nodes are live, unm_cleanup_lro ends without stopping the kernel, in a state that is not
-- initialised, and takes each node of the pool off the heap once and nothing else.
pub cleanup_lro-frees :
    {A : Type 0} (s : Lro A) (v : IsValid s)
    → s.initialized ≡ true
    → ((a : ℕ) → count a s.mem_pool.free_list + count a v.out ≤ count a s.memory.live)
    → (s' : Lro A) × (cleanup_lro s ≡ ok s')
      × (s'.initialized ≡ false)
      × ((a : ℕ)
          → count a s'.memory.live + (count a s.mem_pool.free_list + count a v.out)
            ≡ count a s.memory.live)
unfolding cleanup_lro destroy_pool destroyed
cleanup_lro-frees s v started live =
    let d : Drained s.memory s.mem_pool v.out
        (HashTable.destroy (destroy_node s.memory) s.hash_tbl s.mem_pool) =
      Visits-Drained s.memory v.out (destroy-Visits (destroy_node s.memory) s.hash_tbl s.mem_pool)
        v.pool (λ a. omega (arith, all_nodes-addrs a s.hash_tbl.buckets, v.held a)) in
    let (q, m, ended, freed) =
      destroy-idle d.after s.memory d.idle (λ a. omega (arith, d.listed a, live a)) in
    (
      record s { mem_pool = q; memory = m; initialized = false },
      rw (started, d.done, ended) refl,
      refl,
      λ a. omega (arith, freed a, d.listed a),
    )
