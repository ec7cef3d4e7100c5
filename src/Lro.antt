-- ===== src/Lro.antt =====
-- Large receive offload: the table of offloaded flows of driver/unm_nic_lro.c, which joins the hash
-- table, the memory pool and the command ring.
pub mod Key
pub mod Compare
pub mod Balance
pub mod Flows
pub mod Start
pub mod Setup
pub mod Cleanup
pub mod Switch
mod Tests
use hp_nx_nic.Prelude.{
  ℕ, ◌+◌, ◌-◌, ◌*◌, ◌%◌, ◌^◌, Bool, true, false, Option, none, some, [], ◌∷◌, leb, ◌==◌,
  if◌then◌else◌,
}
use hp_nx_nic.Prelude.Int.{ℤ, pos, negsuc, is_zero, eqb_ℤ}
use hp_nx_nic.Prelude.Kernel.{Outcome, ok, bug, relinked, fault, Memory, Kmalloc, eio}
use hp_nx_nic.CmdRing.Ring.{Adapter, send_cmd_descs}
use hp_nx_nic.MemPool
use hp_nx_nic.HashTable
use hp_nx_nic.Lro.Key.{HostKey, v4, lro_hash_ops}

-- A node of the flow table; its container keeps the `ctx_id` of `lro_entry_t`.
abbrev pub Entry : Type 0
Entry = HashTable.Node HostKey ℕ

-- sizeof(lro_entry_t) on a 64-bit machine.
abbrev pub lro_entry_size : ℕ
lro_entry_size = 80

-- The requests that the driver sends the card, `nx_nic_lro_request_t`, by their sub-opcode.
pub data LroRequest : Type 0 where
  add_flow : (ctxid daddr saddr dport sport rss_hash timestamp : ℕ) → LroRequest
  cleanup_all : (ctxid : ℕ) → LroRequest

-- The parts of the adapter that the offload uses; `A` is a descriptor of the command ring. The
-- pool's nodes lie in `memory`.
pub record Lro (A : Type 0) : Type 0 where
  pub ring : Adapter A
  pub mem_pool : MemPool.Pool
  pub hash_tbl : HashTable.Table HostKey ℕ
  pub memory : Memory
  pub initialized : Bool
  pub enabled : ℕ

-- The result of a hash table call, whose bucket may lie outside the array.
abbrev pub in_array : {R S : Type 0} → (R → Outcome S) → Option R → Outcome S
in_array f none = fault
in_array f (some r) = f r

-- nx_lro_destroy_node, on the pool.
unfoldable pub destroy_node : Memory → Entry → MemPool.Pool → Outcome MemPool.Pool
destroy_node m node p = MemPool.free p m node.addr

-- The byte that an `int` is stored as.
abbrev pub byte_of : ℤ → ℕ
byte_of (pos n) = n % 2 ^ 8
byte_of (negsuc n) = 255 - n % 2 ^ 8

module _ {A : Type 0} where
  -- nx_mem_pool_free of the entry's memory, with what the caller returns.
  pub free_done : ℤ → Lro A → Outcome MemPool.Pool → Outcome (ℤ × Lro A)
  free_done rv s (ok p) = ok (rv, record s { mem_pool = p })
  free_done rv s bug = bug
  free_done rv s relinked = relinked
  free_done rv s fault = fault

  unfoldable pub free_entry : ℤ → Lro A → ℕ → Outcome (ℤ × Lro A)
  unfolding free_done
  free_entry rv s ptr = free_done rv s (MemPool.free s.mem_pool s.memory ptr)

  -- What nx_initiate_lro does with the result of nx_nic_send_cmd_descs.
  unfoldable pub initiate_sent : Lro A → HostKey → ℕ → ℤ × Adapter A → Outcome (ℤ × Lro A)
  initiate_sent s key ptr (rv, ring) =
      let sent : Lro A = record s { ring = ring } in
      if is_zero rv
      then ok (rv, sent)
      else in_array (λ (r, tbl). free_entry rv (record sent { hash_tbl = tbl }) ptr)
          (HashTable.delete lro_hash_ops key s.hash_tbl)

  -- What it does with the result of nx_hash_tbl_insert.
  unfoldable pub initiate_inserted :
      Option ℕ → Lro A → HostKey → ℕ → A → ℤ × HashTable.Table HostKey ℕ → Outcome (ℤ × Lro A)
  unfolding initiate_sent
  initiate_inserted kmalloced s key ptr req (rv, tbl) =
      let new : Lro A = record s { hash_tbl = tbl } in
      if eqb_ℤ rv HashTable.node_inserted
      then initiate_sent new key ptr (send_cmd_descs kmalloced s.ring (req ∷ []))
      else free_entry rv new ptr

  unfoldable pub initiate_allocated :
      (LroRequest → A)
      → Option ℕ
      → Lro A
      → HostKey
      → ℕ
      → ℕ
      → ℕ
      → Option ℕ × MemPool.Pool
      → Outcome (ℤ × Lro A)
  unfolding initiate_inserted
  initiate_allocated as_desc kmalloced s key rss_hash ctx_id timestamp (none, p) =
      ok (pos 0, record s { mem_pool = p })
  initiate_allocated as_desc kmalloced s key rss_hash ctx_id timestamp (some new, p) =
      let node : Entry = record { addr = new; key = key; container = ctx_id } in
      let req : LroRequest =
        add_flow ctx_id (v4 key.daddr) (v4 key.saddr) key.dport key.sport rss_hash timestamp in
      in_array (initiate_inserted kmalloced (record s { mem_pool = p }) key new (as_desc req))
        (HashTable.insert lro_hash_ops node s.hash_tbl)

  -- nx_initiate_lro. `as_desc` is the cast of a request to a descriptor, and `kmalloced` what
  -- kmalloc returns if the request has to wait.
  unfoldable pub initiate_lro :
      (LroRequest → A) → Option ℕ → Lro A → HostKey → ℕ → ℕ → ℕ → Outcome (ℤ × Lro A)
  unfolding initiate_allocated
  initiate_lro as_desc kmalloced s key rss_hash ctx_id timestamp =
      initiate_allocated as_desc kmalloced s key rss_hash ctx_id timestamp
        (MemPool.alloc s.mem_pool)

  unfoldable pub deleted : Lro A → Option Entry × HashTable.Table HostKey ℕ → Outcome (ℤ × Lro A)
  unfolding free_entry
  deleted s (none, tbl) = ok (pos 0, record s { hash_tbl = tbl })
  deleted s (some entry, tbl) = free_entry (pos 0) (record s { hash_tbl = tbl }) entry.addr

  -- nx_handle_lro_response, which returns nothing, of a response with this key.
  unfoldable pub handle_lro_response : Lro A → HostKey → Outcome (ℤ × Lro A)
  unfolding deleted
  handle_lro_response s key = in_array (deleted s) (HashTable.delete lro_hash_ops key s.hash_tbl)

  pub destroyed : Lro A → Outcome (MemPool.Pool × Memory) → Outcome (Lro A)
  destroyed s (ok (p, m)) = ok (record s { mem_pool = p; memory = m; initialized = false })
  destroyed s bug = bug
  destroyed s relinked = relinked
  destroyed s fault = fault

  pub destroy_pool : Lro A → Outcome MemPool.Pool → Outcome (Lro A)
  unfolding destroyed
  destroy_pool s (ok p) = destroyed s (MemPool.destroy p s.memory)
  destroy_pool s bug = bug
  destroy_pool s relinked = relinked
  destroy_pool s fault = fault

  -- unm_cleanup_lro
  unfoldable pub cleanup_lro : Lro A → Outcome (Lro A)
  unfolding destroy_pool destroy_node
  cleanup_lro s =
      if s.initialized
      then destroy_pool s (HashTable.destroy (destroy_node s.memory) s.hash_tbl s.mem_pool)
      else ok (record s { initialized = false })

  -- nx_lro_send_cleanup, for the context of the first receive ring.
  unfoldable pub send_cleanup : (LroRequest → A) → Option ℕ → Lro A → ℕ → ℤ × Lro A
  send_cleanup as_desc kmalloced s context_id =
      let (rv, ring) = send_cmd_descs kmalloced s.ring (as_desc (cleanup_all context_id) ∷ []) in
      (rv, record s { ring = ring })

  pub cleanup_sent : ℤ × Lro A → ℤ × Lro A
  cleanup_sent (rv, s) = if is_zero rv then (pos 0, record s { enabled = 0 }) else (pos 1, s)

  -- nx_lro_set_state. `enabled` is a byte.
  unfoldable pub set_state : (LroRequest → A) → Option ℕ → ℕ → Lro A → ℤ → ℤ × Lro A
  unfolding cleanup_sent send_cleanup
  set_state as_desc kmalloced context_id s val =
      if eqb_ℤ (pos s.enabled) val
      then (pos 0, s)
      else if (if s.initialized then false else if is_zero val then false else true)
      then (eio, s)
      else if is_zero val
      then cleanup_sent (send_cleanup as_desc kmalloced s context_id)
      else (pos 0, record s { enabled = byte_of val })

-- NX_FW_VERSION
abbrev pub fw_version : ℕ → ℕ → ℕ → ℕ
fw_version a b c = a * 2 ^ 16 + b * 2 ^ 8 + c

module _ {A : Type 0} where
  -- unm_init_lro where nx_hash_tbl_create fails: the pool is destroyed.
  pub undo_pool : ℤ → Lro A → Outcome (MemPool.Pool × Memory) → Outcome (ℤ × Lro A)
  undo_pool rv s (ok (p, m)) = ok (rv, record s { mem_pool = p; memory = m })
  undo_pool rv s bug = bug
  undo_pool rv s relinked = relinked
  undo_pool rv s fault = fault

  -- ... for the result of nx_hash_tbl_create,
  pub table_created :
      Lro A → MemPool.Pool → Memory → Outcome (ℤ × HashTable.Table HostKey ℕ) → Outcome (ℤ × Lro A)
  unfolding undo_pool
  table_created s p m (ok (rv, tbl)) =
      if is_zero rv
      then ok (
        pos 0,
        record s { mem_pool = p; memory = m; hash_tbl = tbl; initialized = true; enabled = 1 },
      )
      else undo_pool rv (record s { hash_tbl = tbl }) (MemPool.destroy p m)
  table_created s p m bug = bug
  table_created s p m relinked = relinked
  table_created s p m fault = fault

  -- ... for the result of nx_mem_pool_create,
  pub pool_created :
      (ℕ → Bool) → ℕ → Lro A → Outcome (ℤ × MemPool.Pool × Memory) → Outcome (ℤ × Lro A)
  unfolding table_created
  pool_created vmalloc max_lro s (ok (rv, p, m)) =
      if is_zero rv
      then table_created s p m (HashTable.create vmalloc max_lro)
      else ok (rv, record s { mem_pool = p; memory = m })
  pool_created vmalloc max_lro s bug = bug
  pool_created vmalloc max_lro s relinked = relinked
  pool_created vmalloc max_lro s fault = fault

  pub init_entries : Kmalloc → (ℕ → Bool) → ℕ → Lro A → Option ℕ → Outcome (ℤ × Lro A)
  unfolding pool_created
  init_entries kmalloc vmalloc self s none = ok (eio, s)
  init_entries kmalloc vmalloc self s (some max_lro) =
      pool_created vmalloc max_lro s (MemPool.create kmalloc self max_lro lro_entry_size s.memory)

  -- unm_init_lro, for the firmware's version and its answer to nx_fw_cmd_query_max_lro, which is
  -- none if the query fails; `self` is the address of the pool, and `vmalloc` whether vmalloc
  -- finds memory of a size.
  unfoldable pub init_lro : Kmalloc → (ℕ → Bool) → ℕ → ℕ → Option ℕ → Lro A → Outcome (ℤ × Lro A)
  unfolding init_entries
  init_lro kmalloc vmalloc self version queried s =
      init_entries kmalloc vmalloc self s
        (if leb (fw_version 4 0 222) version then queried else some 32)
