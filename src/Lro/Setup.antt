-- ===== src/Lro/Setup.antt =====
-- The beginning of the offload, unm_init_lro, and its switch, nx_lro_set_state.
use hp_nx_nic.Prelude.{
  ℕ, ◌+◌, ◌*◌, ◌≤◌, ◌<◌, ◌^◌, ◌≡◌, ◌⊎◌, inl, inr, refl, sym, ap, ◌∙◌, Option, none, some, [], ◌++◌,
  Bool, true, false, arith, leb, if◌then◌else◌, some-injective,
}
use hp_nx_nic.Prelude.Counts.{count, count-append}
use hp_nx_nic.Prelude.Int.{ℤ, pos, is_zero}
use hp_nx_nic.Prelude.Kernel.{Outcome, ok, bug, relinked, fault, Memory, Kmalloc, IsFresh}
use hp_nx_nic.MemPool
use hp_nx_nic.MemPool.Lifetime
use hp_nx_nic.MemPool.Lifetime.{create-Creates, destroy-idle, Distinct, Owned}
use hp_nx_nic.HashTable
use hp_nx_nic.HashTable.{head_size}
use hp_nx_nic.HashTable.Delete
use hp_nx_nic.HashTable.Delete.{create-Makes}
use hp_nx_nic.Lro.Key.{HostKey, lro_hash_ops}
use hp_nx_nic.Lro.Flows.{IsValid}
use hp_nx_nic.Lro.{
  Lro, lro_entry_size, fw_version, init_lro, init_entries, pool_created, table_created, undo_pool,
}

module _ {A : Type 0} (s : Lro A) where
  -- Started: the state is valid with nothing in use, and the pool's nodes are what the heap gained.
  pub record Started (s' : Lro A) : Type 0 where
    pub valid : IsValid s'
    pub unused : valid.out ≡ []
    pub initialized_eq : s'.initialized ≡ true
    pub enabled_eq : s'.enabled ≡ 1
    pub live_eq :
        (a : ℕ) → count a s'.memory.live ≡ count a s'.mem_pool.free_list + count a s.memory.live

  -- The outcome of unm_init_lro: started, or an error with the heap as it was.
  abbrev pub Inits : Outcome (ℤ × Lro A) → Type 0
  Inits (ok (rv, s')) =
      ((rv ≡ pos 0) × Started s')
      ⊎ ((is_zero rv ≡ false)
          × (s'.initialized ≡ s.initialized)
          × ((a : ℕ) → count a s'.memory.live ≡ count a s.memory.live))
  Inits bug = ⊥
  Inits relinked = ⊥
  Inits fault = ⊥

  -- The pool is made, and nx_hash_tbl_create answered.
  table_created-Inits :
      (n : ℕ) (found : Bool) (p : MemPool.Pool) (m : Memory)
      (o : Outcome (ℤ × HashTable.Table HostKey ℕ))
      → Delete.Makes ℕ lro_hash_ops n found o
      → p.allocated ≡ pos 0
      → m.live ≡ p.free_list ++ s.memory.live
      → Distinct p.free_list s.memory.live
      → Owned p.self p.free_list m
      → Inits (table_created s p m o)
  unfolding table_created undo_pool
  table_created-Inits n true p m o (tbl, made, v, empty) idle live distinct owned = rw made (
      inl (
        refl,
        record {
          valid = record {
            out = [];
            pool = record {
              counted = idle;
              distinct = λ a. ground (arith, distinct a, count-append a p.free_list s.memory.live);
              owned = λ a h. owned a (omega (arith, h));
            };
            table = v;
            held = λ a. omega (arith, ap (count a) empty);
          };
          unused = refl;
          initialized_eq = refl;
          enabled_eq = refl;
          live_eq = λ a. ap (count a) live ∙ count-append a p.free_list s.memory.live;
        },
      ))
  table_created-Inits n false p m o (tbl, made) idle live distinct owned =
      let split : (a : ℕ) → count a m.live ≡ count a p.free_list + count a s.memory.live =
        λ a. ap (count a) live ∙ count-append a p.free_list s.memory.live in
      let (q, m', ended, freed) = destroy-idle p m idle (λ a. omega (arith, split a)) in
      rw (made, ended) (inr (refl, refl, λ a. omega (arith, freed a, split a)))

  pool_created-Inits :
      (self n : ℕ) (vmalloc : ℕ → Bool) (o : Outcome (ℤ × MemPool.Pool × Memory))
      → 1 ≤ n
      → n < 2 ^ 26
      → Lifetime.Creates self s.memory.live n o
      → Inits (pool_created vmalloc n s o)
  unfolding pool_created
  pool_created-Inits self n vmalloc (ok (rv, p, m)) low high
        (inl (e, size, named, idle, live, distinct, owned)) =
      rw e (
        table_created-Inits n (vmalloc (n * head_size)) p m (HashTable.create vmalloc n)
          (create-Makes ℕ lro_hash_ops vmalloc n low high) idle live distinct
          (λ a h. owned a h ∙ sym named))
  pool_created-Inits self n vmalloc (ok (rv, p, m)) low high (inr (e, live)) =
      rw e (inr (refl, refl, λ a. ap (count a) live))
  pool_created-Inits self n vmalloc bug low high c = absurd c
  pool_created-Inits self n vmalloc relinked low high c = absurd c
  pool_created-Inits self n vmalloc fault low high c = absurd c

  -- For a kmalloc that returns fresh blocks, and a firmware that is older than 4.0.222 or answers
  -- with 1 to 2 ^ 26 - 1 entries, whose buckets have a size that fits an `int`, or an error, unm_init_lro ends without stopping the kernel: with 0
  -- in a valid state with no entry in use, whose pool is what the heap gained, or with an error,
  -- the heap as it was and the offload as initialised as before.
  pub init_lro-Inits :
      (kmalloc : Kmalloc) (vmalloc : ℕ → Bool) (self version : ℕ) (queried : Option ℕ)
      → IsFresh kmalloc
      → ((n : ℕ) → queried ≡ some n → (1 ≤ n) × (n < 2 ^ 26))
      → Inits (init_lro kmalloc vmalloc self version queried s)
  unfolding init_lro init_entries
  init_lro-Inits kmalloc vmalloc self version queried fresh range =
      old_or_new (leb (fw_version 4 0 222) version)
    where
      entries :
          (o : Option ℕ)
          → ((n : ℕ) → o ≡ some n → (1 ≤ n) × (n < 2 ^ 26))
          → Inits (init_entries kmalloc vmalloc self s o)
      entries none h = inr (refl, refl, λ a. refl)
      entries (some n) h =
          let (low, high) = h n refl in
          pool_created-Inits self n vmalloc (MemPool.create kmalloc self n lro_entry_size s.memory)
            low high (create-Creates kmalloc self n lro_entry_size s.memory fresh)

      old_or_new :
          (b : Bool) → Inits (init_entries kmalloc vmalloc self s (if b then queried else some 32))
      old_or_new true = entries queried range
      old_or_new false =
          entries (some 32)
            (λ n e. let h : 32 ≡ n = some-injective e in (omega (arith, h), omega (arith, h)))
