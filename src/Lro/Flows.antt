-- ===== src/Lro/Flows.antt =====
-- Starting and ending the offload of a flow.
use hp_nx_nic.Prelude.{
  ℕ, ◌+◌, ◌≡◌, ◌∙◌, refl, Option, none, some, [], ◌∷◌, arith, ◌==◌, ◌&&◌, if◌then◌else◌, Bool,
}
use hp_nx_nic.Prelude.Counts.{count}
use hp_nx_nic.Prelude.Int.{ℤ, pos}
use hp_nx_nic.Prelude.Kernel.{Outcome, ok}
use hp_nx_nic.CmdRing.Ring.{Adapter}
use hp_nx_nic.HashTable
use hp_nx_nic.HashTable.Chain.{same}
use hp_nx_nic.HashTable.Lookup
use hp_nx_nic.HashTable.Lookup.{all_addrs, insert-Inserts}
use hp_nx_nic.HashTable.Removal.{taken}
use hp_nx_nic.HashTable.Delete
use hp_nx_nic.HashTable.Delete.{delete-Deletes}
use hp_nx_nic.Lro.Key.{HostKey, lro_hash_ops}
use hp_nx_nic.Lro.Compare.{lro_hash_ops-IsLawful}
use hp_nx_nic.Lro.Balance.{Balanced, free-Balanced}
use hp_nx_nic.Lro.{Entry, Lro, in_array, free_done, free_entry, deleted, handle_lro_response}

-- The table's lookup, and whether two keys lead to the same flow of the table.
abbrev pub lookup : HostKey → HashTable.Table HostKey ℕ → Option (Option Entry)
lookup k tbl = HashTable.get lro_hash_ops k tbl

abbrev pub same_flow : HashTable.Table HostKey ℕ → HostKey → HostKey → Bool
same_flow tbl k key =
    HashTable.bucket_index lro_hash_ops tbl k == HashTable.bucket_index lro_hash_ops tbl key
    && same lro_hash_ops k key

module _ {A : Type 0} where
  -- Exactly the nodes of the table are in use.
  abbrev pub IsValid : Lro A → Type 0
  IsValid s = Balanced s.mem_pool s.memory s.hash_tbl []

  -- A call on `s` that returns `rv` and a valid state with this table and this ring, and leaves the
  -- heap and the switches of the offload as they are.
  pub record Returns (s : Lro A) (rv : ℤ) (ring : Adapter A) (tbl : HashTable.Table HostKey ℕ)
      (o : Outcome (ℤ × Lro A)) : Type 0 where
    pub after : Lro A
    pub returned : o ≡ ok (rv, after)
    pub valid : IsValid after
    pub ring_eq : after.ring ≡ ring
    pub table_eq : after.hash_tbl ≡ tbl
    pub memory_eq : after.memory ≡ s.memory
    pub initialized_eq : after.initialized ≡ s.initialized
    pub enabled_eq : after.enabled ≡ s.enabled

  pub free_entry-Returns :
      (rv : ℤ) (s : Lro A) (ptr : ℕ)
      → Balanced s.mem_pool s.memory s.hash_tbl (ptr ∷ [])
      → Returns s rv s.ring s.hash_tbl (free_entry rv s ptr)
  unfolding free_entry free_done
  free_entry-Returns rv s ptr b =
      let (q, freed, v) = free-Balanced s.mem_pool s.memory s.hash_tbl ptr b in
      record {
        after = record s { mem_pool = q };
        returned = rw freed refl;
        valid = v;
        ring_eq = refl;
        table_eq = refl;
        memory_eq = refl;
        initialized_eq = refl;
        enabled_eq = refl;
      }

  -- A call on a state with the same heap and switches.
  pub Returns-from :
      (s s1 : Lro A) {rv : ℤ} {ring : Adapter A} {tbl : HashTable.Table HostKey ℕ}
      {o : Outcome (ℤ × Lro A)}
      → s1.memory ≡ s.memory
      → s1.initialized ≡ s.initialized
      → s1.enabled ≡ s.enabled
      → Returns s1 rv ring tbl o
      → Returns s rv ring tbl o
  Returns-from s s1 m i e r = record {
    after = r.after;
    returned = r.returned;
    valid = r.valid;
    ring_eq = r.ring_eq;
    table_eq = r.table_eq;
    memory_eq = r.memory_eq ∙ m;
    initialized_eq = r.initialized_eq ∙ i;
    enabled_eq = r.enabled_eq ∙ e;
  }

  -- The outcome of nx_handle_lro_response for the key of a flow.
  pub Ends : Lro A → HostKey → Outcome (ℤ × Lro A) → Type 0
  Ends s key o =
      (tbl : HashTable.Table HostKey ℕ) × Returns s (pos 0) s.ring tbl o
      × ((k : HostKey)
          → lookup k tbl ≡ (
              if HashTable.bucket_index lro_hash_ops s.hash_tbl k
                  == HashTable.bucket_index lro_hash_ops s.hash_tbl key
                && same lro_hash_ops key k
              then some none
              else lookup k s.hash_tbl))

  deleted-Returns :
      (s : Lro A) (r : Option Entry) (tbl : HashTable.Table HostKey ℕ)
      → IsValid s
      → Lookup.IsValid lro_hash_ops tbl
      → ((a : ℕ)
          → taken r a + count a (all_addrs tbl.buckets) ≡ count a (all_addrs s.hash_tbl.buckets))
      → Returns s (pos 0) s.ring tbl (deleted s (r, tbl))
  unfolding deleted
  deleted-Returns s none tbl b t h = record {
    after = record s { hash_tbl = tbl };
    returned = refl;
    valid = record {
      out = b.out;
      pool = b.pool;
      table = t;
      held = λ a. omega (arith, h a, b.held a);
    };
    ring_eq = refl;
    table_eq = refl;
    memory_eq = refl;
    initialized_eq = refl;
    enabled_eq = refl;
  }
  deleted-Returns s (some x) tbl b t h =
      Returns-from s (record s { hash_tbl = tbl }) refl refl refl
        (free_entry-Returns (pos 0) (record s { hash_tbl = tbl }) x.addr
          (record {
            out = b.out;
            pool = b.pool;
            table = t;
            held = λ a. omega (arith, h a, b.held a);
          }))

  -- From a state in which exactly the nodes of the table are in use, nx_handle_lro_response ends
  -- in such a state and does not stop the kernel; the key is no longer found, and all other
  -- lookups and the ring are the same.
  pub handle_lro_response-Ends :
      (s : Lro A) (key : HostKey) → IsValid s → Ends s key (handle_lro_response s key)
  unfolding handle_lro_response Ends
  handle_lro_response-Ends s key b =
      answer (HashTable.delete lro_hash_ops key s.hash_tbl)
        (delete-Deletes lro_hash_ops s.hash_tbl b.table lro_hash_ops-IsLawful key)
    where
      answer :
          (r : Option (Option Entry × HashTable.Table HostKey ℕ))
          → Delete.Deletes lro_hash_ops s.hash_tbl b.table key r
          → Ends s key (in_array (deleted s) r)
      answer none d = absurd d
      answer (some (r, tbl)) (got, t, cnt, looks, counts) =
          (tbl, deleted-Returns s r tbl b t counts, looks)
