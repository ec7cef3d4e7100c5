-- ===== src/HashTable/Delete.antt =====
-- Deletion from the hash table, its creation and its destruction.
use hp_nx_nic.Prelude.{
  ℕ, zero, suc, Bool, false, ◌+◌, ◌*◌, ◌≤◌, ◌<◌, ◌^◌, ◌≡◌, refl, Option, none, some, List, [], ◌∷◌,
  true, ◌++◌, ◌&&◌, ◌==◌, if◌then◌else◌, arith, get_elem?, replicate, get_elem?-lt,
  length-replicate,
}
use hp_nx_nic.Prelude.Int.{ℤ, pos}
use hp_nx_nic.Prelude.Counts.{count}
use hp_nx_nic.Prelude.Kernel.{Outcome, ok, bug, relinked, fault, enomem}
use hp_nx_nic.HashTable.{
  Node, Ops, Table, head_size, alloc_size, init_buckets, allocated, create, bucket_index, on_bucket,
  get, delete, unlink, destroy_next, destroy_bucket, destroy_buckets, destroy,
}
use hp_nx_nic.HashTable.Chain.{same, IsLawful}
use hp_nx_nic.HashTable.Removal.{taken, Removed, unlink-Removed}
use hp_nx_nic.HashTable.Lookup.{
  IsValid, AllUnique, all_addrs, all_addrs-set, set-find, get_elem?-AllUnique, bucket_index-lt,
  set_bucket-IsValid,
}

module _ {K D : Type 0} (ops : Ops K) (t : Table K D) (v : IsValid ops t) where
  -- The outcome of nx_hash_tbl_delete.
  abbrev pub Deletes : K → Option (Option (Node K D) × Table K D) → Type 0
  Deletes key none = ⊥
  Deletes key (some (r, t')) =
      (get ops key t ≡ some r)
      × IsValid ops t'
      × (t'.bucket_cnt ≡ t.bucket_cnt)
      × ((k : K)
          → get ops k t' ≡ (
              if bucket_index ops t k == bucket_index ops t key && same ops key k
              then some none
              else get ops k t))
      × ((a : ℕ) → taken r a + count a (all_addrs t'.buckets) ≡ count a (all_addrs t.buckets))

  module _ (laws : IsLawful ops) where
    delete_found :
        (key : K) (xs : List (Node K D))
        → get_elem? t.buckets (bucket_index ops t key) ≡ some xs
        → Removed ops key xs (unlink ops key xs)
        → Deletes key (delete ops key t)
    unfolding delete on_bucket get
    delete_found key xs e d =
        let i : ℕ = bucket_index ops t key in
        rw e (
          rw (e, d.result) refl,
          set_bucket-IsValid ops t v i (unlink ops key xs).1 d.unique,
          refl,
          (λ k.
              set-find ops k t.buckets i (bucket_index ops t k) xs (unlink ops key xs).1
                (same ops key k) none e (d.found k)),
          (λ a. omega (arith, d.counted a, all_addrs-set t.buckets i xs (unlink ops key xs).1 a e)),
        )

    -- On a valid table with a lawful comparison nx_hash_tbl_delete finds its bucket and returns
    -- what a lookup of the key finds; later lookups do not find the key, and are the same under
    -- all other keys; the table stays valid and loses the address of the returned node, and no
    -- other.
    pub delete-Deletes : (key : K) → Deletes key (delete ops key t)
    delete-Deletes key =
        let b : (xs : List (Node K D)) × (get_elem? t.buckets (bucket_index ops t key) ≡ some xs) =
          get_elem?-lt t.buckets (bucket_index ops t key) (bucket_index-lt ops t key v) in
        delete_found key b.0 b.1 (
          unlink-Removed ops laws key b.0
            (get_elem?-AllUnique ops t.buckets (bucket_index ops t key) b.0 v.all_unique b.1))

module _ {K : Type 0} (D : Type 0) (ops : Ops K) where
  replicate-AllUnique : (n : ℕ) → AllUnique ops (replicate {A = List (Node K D)} n [])
  replicate-AllUnique zero = tt
  replicate-AllUnique (suc n) = (tt, replicate-AllUnique n)

  replicate-all_addrs : (n : ℕ) → all_addrs (replicate {A = List (Node K D)} n []) ≡ []
  replicate-all_addrs zero = refl
  replicate-all_addrs (suc n) = replicate-all_addrs n

  -- The outcome of nx_hash_tbl_create for `n` buckets, where vmalloc answers `found`.
  abbrev pub Makes : ℕ → Bool → Outcome (ℤ × Table K D) → Type 0
  Makes n true o =
      (t : Table K D) × (o ≡ ok (pos 0, t)) × IsValid ops t × (all_addrs t.buckets ≡ [])
  Makes n false o = (t : Table K D) × (o ≡ ok (enomem, t))

  -- For 1 to 2 ^ 26 - 1 buckets, whose size fits an `int`, nx_hash_tbl_create asks vmalloc for the
  -- size of the buckets, and returns 0 and a valid table without nodes, or -ENOMEM without memory.
  pub create-Makes :
      (vmalloc : ℕ → Bool) (n : ℕ)
      → 1 ≤ n
      → n < 2 ^ 26
      → Makes n (vmalloc (n * head_size)) (create vmalloc n)
  unfolding create allocated init_buckets
  create-Makes vmalloc n h k =
      let size : alloc_size n ≡ n * head_size = ground arith in
      rw size (made (vmalloc (n * head_size)))
    where
      made : (found : Bool) → Makes n found (allocated (n * head_size) n found)
      made true =
          let t : Table K D = record { buckets = replicate n []; bucket_cnt = n } in
          (
            t,
            ground arith,
            record {
              sized = length-replicate n [];
              nonempty = h;
              int_sized = omega arith;
              all_unique = replicate-AllUnique n;
            },
            replicate-all_addrs n,
          )
      made false = (record { buckets = []; bucket_cnt = n }, refl)

-- The nodes of the table, in the order of the buckets.
abbrev pub all_nodes : {K D : Type 0} → List (List (Node K D)) → List (Node K D)
all_nodes [] = []
all_nodes (b ∷ bs) = b ++ all_nodes bs

-- The callback did not return.
abbrev pub Stops : {S : Type 0} → Outcome S → Type 0
Stops (ok s) = ⊥
Stops bug = Unit {0}
Stops relinked = Unit {0}
Stops fault = Unit {0}

module _ {K D S : Type 0} (destroy_cb : Node K D → S → Outcome S) where
  -- A run that calls the callback once for each of the nodes, on the state that the call before
  -- left, until one does not return.
  pub data Visits : List (Node K D) → S → Outcome S → Type 0 where
    all_visited : (s : S) → Visits [] s (ok s)
    visited :
        (n : Node K D) (ns : List (Node K D)) (s s' : S) (o : Outcome S)
        → destroy_cb n s ≡ ok s'
        → Visits ns s' o
        → Visits (n ∷ ns) s o
    stopped :
        (n : Node K D) (ns : List (Node K D)) (s : S) (o : Outcome S)
        → destroy_cb n s ≡ o
        → Stops o
        → Visits (n ∷ ns) s o

  -- The rest of a bucket, where `o` is what the callback made of its first node, and the buckets
  -- behind it.
  after_node :
      (n : Node K D) (ns : List (Node K D)) (bs : List (List (Node K D))) (s : S) (o : Outcome S)
      → destroy_cb n s ≡ o
      → ((s' : S)
          → Visits
              (ns ++ all_nodes bs)
              s'
              (destroy_next (destroy_buckets destroy_cb bs) (destroy_bucket destroy_cb ns s')))
      → Visits (n ∷ (ns ++ all_nodes bs)) s (
          destroy_next
            (destroy_buckets destroy_cb bs)
            (destroy_next (destroy_bucket destroy_cb ns) o))
  unfolding destroy_next
  after_node n ns bs s (ok s') e rest =
      visited n (ns ++ all_nodes bs) s s'
        (destroy_next (destroy_buckets destroy_cb bs) (destroy_bucket destroy_cb ns s')) e (rest s')
  after_node n ns bs s bug e rest = stopped n (ns ++ all_nodes bs) s bug e tt
  after_node n ns bs s relinked e rest = stopped n (ns ++ all_nodes bs) s relinked e tt
  after_node n ns bs s fault e rest = stopped n (ns ++ all_nodes bs) s fault e tt

  -- The nodes of a bucket and of the buckets behind it, whose run is `behind`.
  destroy_bucket-Visits :
      (ns : List (Node K D)) (bs : List (List (Node K D)))
      → ((s : S) → Visits (all_nodes bs) s (destroy_buckets destroy_cb bs s))
      → (s : S)
      → Visits
          (ns ++ all_nodes bs)
          s
          (destroy_next (destroy_buckets destroy_cb bs) (destroy_bucket destroy_cb ns s))
  unfolding destroy_next destroy_bucket
  destroy_bucket-Visits [] bs behind s = behind s
  destroy_bucket-Visits (n ∷ ns) bs behind s =
      after_node n ns bs s (destroy_cb n s) refl (destroy_bucket-Visits ns bs behind)

  destroy_buckets-Visits :
      (bs : List (List (Node K D))) (s : S)
      → Visits (all_nodes bs) s (destroy_buckets destroy_cb bs s)
  unfolding destroy_buckets
  destroy_buckets-Visits [] s = all_visited s
  destroy_buckets-Visits (b ∷ bs) s = destroy_bucket-Visits b bs (destroy_buckets-Visits bs) s

  -- nx_hash_tbl_destroy calls the callback once for each node of the table, in the order of the
  -- buckets and of the nodes in a bucket, each time on the state that the call before left; it ends
  -- with the state that the last call left, or where a call does not return.
  pub destroy-Visits :
      (t : Table K D) (s : S) → Visits (all_nodes t.buckets) s (destroy destroy_cb t s)
  unfolding destroy
  destroy-Visits t s = destroy_buckets-Visits t.buckets s
