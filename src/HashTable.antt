-- ===== src/HashTable.antt =====
-- The hash table of driver/nx_hash_table.c and driver/nx_hash_table.h: an array of buckets, each a
-- kernel list of nodes that the caller owns.
pub mod Chain
pub mod Removal
pub mod Lookup
pub mod Delete
mod Tests
use Prim.Native.Nat.{bit_and}
use mathlib.Core.Option
use hp_nx_nic.Prelude.{
  ℕ, ◌+◌, ◌-◌, ◌*◌, ◌%◌, ◌^◌, ltb, leb, Bool, true, false, Option, none, some, List, [], ◌∷◌, ◌++◌,
  ◌==◌, if◌then◌else◌, replicate, get_elem?, set,
}
use hp_nx_nic.Prelude.Int.{ℤ, pos, ltb_ℤ, is_zero}
use hp_nx_nic.Prelude.Words.{sub32}
use hp_nx_nic.Prelude.Kernel.{Outcome, ok, bug, relinked, fault, enomem}

-- NX_HASH_TBL_NODE_INSERTED and NX_HASH_TBL_NODE_EXISTS
abbrev pub node_inserted : ℤ
node_inserted = pos 1

abbrev pub node_exists : ℤ
node_exists = pos 2

-- `nx_hash_tbl_node_t`, at an address, with what its key points to and what the structure around
-- it holds.
pub record Node (K D : Type 0) : Type 0 where
  pub addr : ℕ
  pub key : K
  pub container : D

-- `nx_hash_tbl_ops_t`, less the callback, which only nx_hash_tbl_destroy takes.
pub record Ops (K : Type 0) : Type 0 where
  pub hash : K → ℕ
  pub compare_keys : K → K → ℤ

-- `nx_hash_tbl_t`
pub record Table (K D : Type 0) : Type 0 where
  pub buckets : List (List (Node K D))
  pub bucket_cnt : ℕ

-- `sizeof (nx_hbucket_head_t)`: a spin lock of 4 bytes, padded to 8, and two pointers of 64 bits.
abbrev pub head_size : ℕ
head_size = 24

-- What vmalloc is asked for: `alloc_size` is an `int`, whose 32 bits are widened to 64 bits with
-- the sign.
abbrev pub alloc_size : ℕ → ℕ
alloc_size bucket_cnt =
    let size = bucket_cnt * head_size % 2 ^ 32 in
    if ltb size (2 ^ 31) then size else size + (2 ^ 64 - 2 ^ 32)

-- The loop of nx_hash_tbl_create, which initialises all the buckets; it must stay in the block of
-- `size` bytes.
unfoldable pub init_buckets : {K D : Type 0} → ℕ → ℕ → Outcome (ℤ × Table K D)
init_buckets size bucket_cnt =
    if leb (bucket_cnt * head_size) size
    then ok (pos 0, record { buckets = replicate bucket_cnt []; bucket_cnt = bucket_cnt })
    else fault

allocated : {K D : Type 0} → ℕ → ℕ → Bool → Outcome (ℤ × Table K D)
unfolding init_buckets
allocated size bucket_cnt true = init_buckets size bucket_cnt
allocated size bucket_cnt false = ok (enomem, record { buckets = []; bucket_cnt = bucket_cnt })

-- nx_hash_tbl_create, with whether vmalloc finds memory of a size; the count is not negative.
unfoldable pub create : {K D : Type 0} → (ℕ → Bool) → ℕ → Outcome (ℤ × Table K D)
unfolding allocated
create vmalloc bucket_cnt =
    let size = alloc_size bucket_cnt in allocated size bucket_cnt (vmalloc size)

-- nx_hash_tbl_destroy hands each node to the callback, which updates the state `S`.
unfoldable pub destroy_next : {S : Type 0} → (S → Outcome S) → Outcome S → Outcome S
destroy_next rest (ok s) = rest s
destroy_next rest bug = bug
destroy_next rest relinked = relinked
destroy_next rest fault = fault

unfoldable pub destroy_bucket :
    {K D S : Type 0} → (Node K D → S → Outcome S) → List (Node K D) → S → Outcome S
unfolding destroy_next
destroy_bucket destroy_cb [] s = ok s
destroy_bucket destroy_cb (x ∷ xs) s = destroy_next (destroy_bucket destroy_cb xs) (destroy_cb x s)

pub destroy_buckets :
    {K D S : Type 0} → (Node K D → S → Outcome S) → List (List (Node K D)) → S → Outcome S
unfolding destroy_bucket destroy_next
destroy_buckets destroy_cb [] s = ok s
destroy_buckets destroy_cb (b ∷ bs) s =
    destroy_next (destroy_buckets destroy_cb bs) (destroy_bucket destroy_cb b s)

unfoldable pub destroy : {K D S : Type 0} → (Node K D → S → Outcome S) → Table K D → S → Outcome S
unfolding destroy_buckets
destroy destroy_cb t s = destroy_buckets destroy_cb t.buckets s

-- The index of get_bucket.
unfoldable pub bucket_index : {K D : Type 0} → Ops K → Table K D → K → ℕ
bucket_index ops t k = bit_and (ops.hash k) (sub32 t.bucket_cnt 1)

-- list_insert_before, where the list entry is named by the address of its node.
unfoldable pub list_insert_before :
    {K D : Type 0} → Node K D → ℕ → List (Node K D) → List (Node K D)
list_insert_before new before [] = new ∷ []
list_insert_before new before (x ∷ xs) =
    if x.addr == before then new ∷ x ∷ xs else x ∷ list_insert_before new before xs

-- How the loop of nx_hash_tbl_insert ends: at an equal key, or with `entry`.
pub data Scan : Type 0 where
  exists : Scan
  place : Option ℕ → Scan

unfoldable pub scan : {K D : Type 0} → Ops K → K → List (Node K D) → Option ℕ → Scan
scan ops k [] entry = place entry
scan ops k (x ∷ xs) entry =
    let rv = ops.compare_keys k x.key in
    let rest = scan ops k xs (if ltb_ℤ rv (pos 0) then none else some x.addr) in
    if is_zero rv then exists else rest

unfoldable pub insert_at : {K D : Type 0} → Node K D → List (Node K D) → Scan → ℤ × List (Node K D)
unfolding list_insert_before
insert_at node xs exists = (node_exists, xs)
insert_at node xs (place (some entry)) = (node_inserted, list_insert_before node entry xs)
insert_at node xs (place none) = (node_inserted, xs ++ node ∷ [])

unfoldable pub insert_bucket :
    {K D : Type 0} → Ops K → Node K D → List (Node K D) → ℤ × List (Node K D)
unfolding insert_at scan
insert_bucket ops node xs = insert_at node xs (scan ops node.key xs none)

-- A call on the bucket that it reads; none outside the array.
unfoldable pub on_bucket :
    {K D R : Type 0}
    → Table K D
    → ℕ
    → (List (Node K D) → R × List (Node K D))
    → Option (List (Node K D))
    → Option (R × Table K D)
on_bucket t i f none = none
on_bucket t i f (some xs) = some ((f xs).0, record t { buckets = set t.buckets i (f xs).1 })

-- nx_hash_tbl_insert
unfoldable pub insert : {K D : Type 0} → Ops K → Node K D → Table K D → Option (ℤ × Table K D)
unfolding on_bucket insert_bucket bucket_index
insert ops node t =
    let i = bucket_index ops t node.key in
    on_bucket t i (insert_bucket ops node) (get_elem? t.buckets i)

-- The loop of nx_hash_tbl_get.
unfoldable pub find : {K D : Type 0} → Ops K → K → List (Node K D) → Option (Node K D)
find ops k [] = none
find ops k (x ∷ xs) =
    let rest = find ops k xs in if is_zero (ops.compare_keys k x.key) then some x else rest

-- nx_hash_tbl_get; the outer option is none outside the array.
unfoldable pub get : {K D : Type 0} → Ops K → K → Table K D → Option (Option (Node K D))
unfolding find bucket_index
get ops k t = Option.map (find ops k) (get_elem? t.buckets (bucket_index ops t k))

-- The loop of nx_hash_tbl_delete.
unfoldable pub unlink :
    {K D : Type 0} → Ops K → K → List (Node K D) → Option (Node K D) × List (Node K D)
unlink ops k [] = (none, [])
unlink ops k (x ∷ xs) =
    let rest = unlink ops k xs in
    if is_zero (ops.compare_keys k x.key) then (some x, xs) else (rest.0, x ∷ rest.1)

-- nx_hash_tbl_delete
unfoldable pub delete :
    {K D : Type 0} → Ops K → K → Table K D → Option (Option (Node K D) × Table K D)
unfolding on_bucket unlink bucket_index
delete ops k t =
    let i = bucket_index ops t k in on_bucket t i (unlink ops k) (get_elem? t.buckets i)
