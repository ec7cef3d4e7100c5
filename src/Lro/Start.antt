-- ===== src/Lro/Start.antt =====
-- Starting the offload of a flow, nx_initiate_lro.
use mathlib.Core.Path.{ap₂}
use hp_nx_nic.Prelude.{
  ℕ, ◌+◌, ◌≡◌, ◌⊎◌, inl, inr, refl, sym, ap, ◌∙◌, Option, none, some, [], ◌∷◌, arith, ◌==◌, ◌&&◌,
  ◌≤◌, length, if◌then◌else◌, true, false, ==_iff, Bool, Bool-cases, some-injective,
}
use hp_nx_nic.Prelude.Counts.{count}
use hp_nx_nic.Prelude.Int.{ℤ, pos, is_zero}
use hp_nx_nic.Prelude.Kernel.{Outcome, ok}
use hp_nx_nic.CmdRing.Ring.{Adapter, send_cmd_descs}
use hp_nx_nic.MemPool
use hp_nx_nic.HashTable
use hp_nx_nic.HashTable.{node_exists, bucket_index}
use hp_nx_nic.HashTable.Chain.{same}
use hp_nx_nic.HashTable.Lookup
use hp_nx_nic.HashTable.Lookup.{all_addrs, insert-Inserts, get-cong}
use hp_nx_nic.HashTable.Removal.{taken}
use hp_nx_nic.HashTable.Delete
use hp_nx_nic.HashTable.Delete.{delete-Deletes}
use hp_nx_nic.Lro.Key.{HostKey, v4, lro_hash_ops}
use hp_nx_nic.Lro.Compare.{lro_hash_ops-IsLawful}
use hp_nx_nic.Lro.Balance.{Balanced, Allocated, alloc-Balanced}
use hp_nx_nic.Lro.Flows.{lookup, same_flow, IsValid, Returns, Returns-from, free_entry-Returns}
use hp_nx_nic.Lro.{
  Entry, LroRequest, add_flow, Lro, in_array, free_entry, initiate_sent, initiate_inserted,
  initiate_allocated, initiate_lro,
}

-- `with_node` finds the node for the keys of its flow, and is `before` for the others.
abbrev pub Adds : HashTable.Table HostKey ℕ → Entry → HashTable.Table HostKey ℕ → Type 0
Adds before node with_node =
    (k : HostKey)
    → lookup k with_node
      ≡ (if same_flow before k node.key then some (some node) else lookup k before)

bucket_index-cnt :
    (t u : HashTable.Table HostKey ℕ) (k : HostKey)
    → t.bucket_cnt ≡ u.bucket_cnt
    → bucket_index lro_hash_ops t k ≡ bucket_index lro_hash_ops u k
unfolding HashTable.bucket_index
bucket_index-cnt t u k e = rw e refl

pick :
    {L : Type 0} (i e : Bool) (x n b : L)
    → (i ≡ true → e ≡ true → n ≡ b)
    → (if i && e then n else if i && e then x else b) ≡ b
pick true true x n b h = h refl refl
pick true false x n b h = refl
pick false e x n b h = refl

-- Deleting the key of the added node again gives the lookups before.
undo-lookup :
    (before with_node after : HashTable.Table HostKey ℕ) (node : Entry)
    → lookup node.key before ≡ some none
    → Adds before node with_node
    → with_node.bucket_cnt ≡ before.bucket_cnt
    → ((k : HostKey)
        → lookup k after ≡ (
            if bucket_index lro_hash_ops with_node k == bucket_index lro_hash_ops with_node node.key
              && same lro_hash_ops node.key k
            then some none
            else lookup k with_node))
    → (k : HostKey) → lookup k after ≡ lookup k before
undo-lookup before with_node after node fresh adds cnt dels k =
    let here : Bool =
      bucket_index lro_hash_ops before k == bucket_index lro_hash_ops before node.key in
    let here' : Bool =
      bucket_index lro_hash_ops with_node k == bucket_index lro_hash_ops with_node node.key in
    let e : Bool = same lro_hash_ops k node.key in
    let kept : here' ≡ here =
      ap₂ (λ i j. i == j) (bucket_index-cnt with_node before k cnt)
        (bucket_index-cnt with_node before node.key cnt) in
    let turned : same lro_hash_ops node.key k ≡ e = lro_hash_ops-IsLawful.same_sym node.key k in
    dels k
    ∙ ap₂ (λ b l. if b then some none else l) (ap₂ (λ i j. i && j) kept turned) (adds k)
    ∙ pick here e (some (some node)) (some none) (lookup k before) (λ i j.
      sym (
        get-cong lro_hash_ops before lro_hash_ops-IsLawful k node.key ((==_iff _ _).0 i) j ∙ fresh))

-- What a call of nx_initiate_lro leaves, if sending the request answers `sent`: the pool has no
-- entry left; or it has one, and the flow is in the table; or the flow is not, and is added and the
-- request sent; or sending fails, and the lookups are as before.
pub data Initiates {A : Type 0} (s : Lro A) (key : HostKey) (ctx_id : ℕ) (sent : ℤ × Adapter A)
    (o : Outcome (ℤ × Lro A)) : Type 0 where
  exhausted : s.mem_pool.free_list ≡ [] → o ≡ ok (pos 0, s) → Initiates s key ctx_id sent o
  offloaded :
      (x : Entry)
      → 1 ≤ length s.mem_pool.free_list
      → lookup key s.hash_tbl ≡ some (some x)
      → Returns s node_exists s.ring s.hash_tbl o
      → Initiates s key ctx_id sent o
  added :
      (new : ℕ) (tbl : HashTable.Table HostKey ℕ)
      → 1 ≤ length s.mem_pool.free_list
      → lookup key s.hash_tbl ≡ some none
      → Adds s.hash_tbl (record { addr = new; key = key; container = ctx_id }) tbl
      → is_zero sent.0 ≡ true
      → Returns s sent.0 sent.1 tbl o
      → Initiates s key ctx_id sent o
  refused :
      (tbl : HashTable.Table HostKey ℕ)
      → 1 ≤ length s.mem_pool.free_list
      → lookup key s.hash_tbl ≡ some none
      → is_zero sent.0 ≡ false
      → ((k : HostKey) → lookup k tbl ≡ lookup k s.hash_tbl)
      → Returns s sent.0 sent.1 tbl o
      → Initiates s key ctx_id sent o

module _ {A : Type 0} (s : Lro A) (key : HostKey) (ctx_id : ℕ) (sent : ℤ × Adapter A) where
  -- The entry is allocated and in the table, and the request is sent.
  sent-Initiates :
      (p : MemPool.Pool) (new : ℕ) (tbl : HashTable.Table HostKey ℕ)
      → 1 ≤ length s.mem_pool.free_list
      → lookup key s.hash_tbl ≡ some none
      → Adds s.hash_tbl (record { addr = new; key = key; container = ctx_id }) tbl
      → tbl.bucket_cnt ≡ s.hash_tbl.bucket_cnt
      → Balanced p s.memory tbl []
      → Initiates s key ctx_id sent
          (initiate_sent (record s { mem_pool = p; hash_tbl = tbl }) key new sent)
  unfolding initiate_sent
  sent-Initiates p new tbl free fresh adds cnt b =
      success_or_undo (Bool-cases (is_zero sent.0)) (HashTable.delete lro_hash_ops key tbl)
        (delete-Deletes lro_hash_ops tbl b.table lro_hash_ops-IsLawful key)
    where
      node : Entry
      node = record { addr = new; key = key; container = ctx_id }

      same_node :
          bucket_index lro_hash_ops s.hash_tbl key ≡ bucket_index lro_hash_ops s.hash_tbl key
      same_node = refl

      here : lookup key tbl ≡ some (some node)
      here = adds key ∙ rw ((==_iff _ _).1 same_node, lro_hash_ops-IsLawful.same_refl key) refl

      undone :
          (r : Option Entry) (after : HashTable.Table HostKey ℕ)
          → r ≡ some node
          → Lookup.IsValid lro_hash_ops after
          → ((a : ℕ)
              → taken r a + count a (all_addrs after.buckets) ≡ count a (all_addrs tbl.buckets))
          → Balanced p s.memory after (new ∷ [])
      undone r after e v counts = record {
        out = b.out;
        pool = b.pool;
        table = v;
        held = λ a.
            let h : taken r a ≡ taken (some node) a = ap (λ x. taken x a) e in
            omega (arith, counts a, h, b.held a);
      }

      success_or_undo :
          (is_zero sent.0 ≡ true) ⊎ (is_zero sent.0 ≡ false)
          → (d : Option (Option Entry × HashTable.Table HostKey ℕ))
          → Delete.Deletes lro_hash_ops tbl b.table key d
          → Initiates s key ctx_id sent (
              if is_zero sent.0
              then ok (sent.0, record s { mem_pool = p; hash_tbl = tbl; ring = sent.1 })
              else in_array
                  (λ (r, after).
                    free_entry sent.0
                      (record s { mem_pool = p; hash_tbl = after; ring = sent.1 })
                      new)
                  d)
      success_or_undo z none d = absurd d
      success_or_undo (inl z) (some (r, after)) d = rw z (
          added new tbl free fresh adds z (record {
            after = record s { mem_pool = p; hash_tbl = tbl; ring = sent.1 };
            returned = refl;
            valid = b;
            ring_eq = refl;
            table_eq = refl;
            memory_eq = refl;
            initialized_eq = refl;
            enabled_eq = refl;
          }))
      success_or_undo (inr z) (some (r, after)) (got, v, cnt', looks, counts) = rw z (
          refused after free fresh z (undo-lookup s.hash_tbl tbl after node fresh adds cnt looks) (
            Returns-from s (record s { mem_pool = p; hash_tbl = after; ring = sent.1 }) refl refl
              refl
              (free_entry-Returns sent.0
                (record s { mem_pool = p; hash_tbl = after; ring = sent.1 }) new
                (undone r after (some-injective (sym got ∙ here)) v counts))))

module _ {A : Type 0} (as_desc : LroRequest → A) (kmalloced : Option ℕ) (s : Lro A) (key : HostKey)
    (rss_hash ctx_id timestamp : ℕ) where
  -- The request of the flow, as a descriptor.
  abbrev pub request : A
  request =
      as_desc (add_flow ctx_id (v4 key.daddr) (v4 key.saddr) key.dport key.sport rss_hash timestamp)

  abbrev pub sending : ℤ × Adapter A
  sending = send_cmd_descs kmalloced s.ring (request ∷ [])

  -- An entry is allocated, and nx_hash_tbl_insert answered.
  inserted-Initiates :
      (p : MemPool.Pool) (new : ℕ)
      → 1 ≤ length s.mem_pool.free_list
      → (b : Balanced p s.memory s.hash_tbl (new ∷ []))
      → (r : Option (ℤ × HashTable.Table HostKey ℕ))
      → Lookup.Inserts lro_hash_ops s.hash_tbl b.table
          (record { addr = new; key = key; container = ctx_id })
          r
      → Initiates s key ctx_id sending
          (in_array (initiate_inserted kmalloced (record s { mem_pool = p }) key new request) r)
  unfolding initiate_inserted
  inserted-Initiates p new free b none i = absurd i
  inserted-Initiates p new free b (some (rv, tbl)) (inl (e, t, x, got)) =
      rw (e, t)
        (offloaded x free got (
          Returns-from s (record s { mem_pool = p }) refl refl refl
            (free_entry-Returns node_exists (record s { mem_pool = p }) new b)))
  inserted-Initiates p new free b (some (rv, tbl)) (inr (e, fresh, v, cnt, adds, counts)) = rw e (
      sent-Initiates s key ctx_id sending p new tbl free fresh adds cnt (record {
        out = b.out;
        pool = b.pool;
        table = v;
        held = λ a. omega (arith, counts a, b.held a);
      }))

  -- From a state in which exactly the nodes of the table are in use, nx_initiate_lro ends in such a
  -- state and never stops the kernel. It returns 0 and the state as it was if the pool is
  -- exhausted; else NX_HASH_TBL_NODE_EXISTS with table and ring unchanged if the flow is in the
  -- table, 0 with the flow added and its request sent, or the error of sending, with all lookups as
  -- before; in each of these the heap and the switches of the offload stay as they are.
  pub initiate_lro-Initiates :
      IsValid s
      → Initiates s key ctx_id sending
          (initiate_lro as_desc kmalloced s key rss_hash ctx_id timestamp)
  unfolding initiate_lro initiate_allocated
  initiate_lro-Initiates b =
      answer (MemPool.alloc s.mem_pool) (alloc-Balanced s.mem_pool s.memory s.hash_tbl b)
    where
      answer :
          (r : Option ℕ × MemPool.Pool)
          → Allocated s.mem_pool s.memory s.hash_tbl r
          → Initiates s key ctx_id sending
              (initiate_allocated as_desc kmalloced s key rss_hash ctx_id timestamp r)
      answer (none, p) (empty, e) =
          exhausted empty (ap (λ q. ok (pos 0, record s { mem_pool = q })) e)
      answer (some new, p) (free, v) =
          inserted-Initiates p new free v
            (HashTable.insert lro_hash_ops (record { addr = new; key = key; container = ctx_id })
              s.hash_tbl)
            (insert-Inserts lro_hash_ops s.hash_tbl v.table lro_hash_ops-IsLawful
              (record { addr = new; key = key; container = ctx_id }))
