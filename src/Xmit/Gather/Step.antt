-- ===== src/Xmit/Gather/Step.antt =====
-- The states of the fragment loop, and the move to the next descriptor.
use hp_nx_nic.Prelude.{
  ℕ, ◌+◌, ◌-◌, ◌/◌, ◌%◌, ◌<◌, ◌≡◌, sym, ap, ◌∙◌, true, false, ◌≢◌, some, List, [], arith, ◌==◌,
  length, set, get_elem?, take, length-set, get_elem?-set_self, get_elem?-set_ne, if-cases,
}
use mathlib.Core.Path.{subst}
use hp_nx_nic.CmdRing.Window.{wrap, get_next_index}
use hp_nx_nic.Xmit.Entries.{entry_buffer, Holds, wrap_ne}
use hp_nx_nic.Xmit.Packet.{Frag, Descriptor, Entry, desc, zero_descriptor}
use hp_nx_nic.Xmit.Fill.{Filling, next_desc}

-- The state of the loop before fragment `i`.
pub record At (size saved room i : ℕ) (s : Filling) : Type 0 where
  pub mapped_all : s.mapped ≡ take i s.frag_array
  pub unmapped_none : s.unmapped ≡ []
  pub producer_at : s.producer ≡ wrap size (saved + (i - 1) / 4)
  pub k_at : s.k ≡ (i - 1) % 4 + 1
  pub sized : length s.ring ≡ size
  pub described : (d : Descriptor) × (get_elem? s.ring s.producer ≡ some (desc d))
  pub roomy : length s.frag_array ≡ room
  pub holds : Holds size s.ring saved s.frag_array i

-- The state of the loop once it has the descriptor for fragment `i`.
pub record Ready (size saved room i : ℕ) (s : Filling) : Type 0 where
  pub mapped_all : s.mapped ≡ take i s.frag_array
  pub unmapped_none : s.unmapped ≡ []
  pub producer_at : s.producer ≡ wrap size (saved + i / 4)
  pub k_at : s.k ≡ i % 4
  pub sized : length s.ring ≡ size
  pub described : (d : Descriptor) × (get_elem? s.ring s.producer ≡ some (desc d))
  pub roomy : length s.frag_array ≡ room
  pub holds : Holds size s.ring saved s.frag_array i

module _ (size saved room : ℕ) (saved_in : saved < size) where
  -- A new descriptor leaves the ones before it as they are.
  Holds-set :
      (ring : List Entry) (fs : List Frag) (i : ℕ) (e : Entry)
      → i / 4 ≡ (i - 1) / 4 + 1
      → i / 4 < size
      → Holds size ring saved fs i
      → Holds size (set ring (wrap size (saved + i / 4)) e) saved fs i
  Holds-set ring fs i e new fits h j f hj hf =
      let other : wrap size (saved + i / 4) ≢ wrap size (saved + j / 4) =
        wrap_ne size saved (j / 4) (i / 4) saved_in (omega arith) fits in
      ap (entry_buffer (j % 4)) (get_elem?-set_ne ring e other) ∙ h j f hj hf

  k_zero : (i k : ℕ) → 0 < i → k ≡ (i - 1) % 4 + 1 → (k % 4 == 0) ≡ true → i % 4 ≡ 0
  k_zero i k pos e h = let zero_k : k % 4 ≡ 0 = ground arith in omega arith

  k_kept : (i k : ℕ) → 0 < i → k ≡ (i - 1) % 4 + 1 → (k % 4 == 0) ≡ false → k ≡ i % 4
  k_kept i k pos e h = let some_k : k % 4 ≢ 0 = ground arith in omega arith

  same_entry : (i k : ℕ) → 0 < i → k ≡ i % 4 → k ≡ (i - 1) % 4 + 1 → (i - 1) / 4 ≡ i / 4
  same_entry i k pos e h = omega arith

  new_entry : (i : ℕ) → 0 < i → i % 4 ≡ 0 → i / 4 ≡ (i - 1) / 4 + 1
  new_entry i pos e = omega arith

  next_index :
      (i p : ℕ)
      → 0 < i
      → i / 4 < size
      → i % 4 ≡ 0
      → p ≡ wrap size (saved + (i - 1) / 4)
      → get_next_index p size ≡ wrap size (saved + i / 4)
  next_index i p pos fits e h = ground (arith, new_entry i pos e)

  pub next_desc-Ready :
      (i : ℕ) (s : Filling)
      → 0 < i
      → i / 4 < size
      → At size saved room i s
      → Ready size saved room i (next_desc size s)
  unfolding next_desc
  next_desc-Ready i s pos fits t =
      if-cases (Ready size saved room i) (s.k % 4 == 0)
        (λ e.
          let index : get_next_index s.producer size ≡ wrap size (saved + i / 4) =
            next_index i s.producer pos fits (k_zero i s.k pos t.k_at e) t.producer_at in
          record {
            mapped_all = t.mapped_all;
            unmapped_none = t.unmapped_none;
            producer_at = index;
            k_at = sym (k_zero i s.k pos t.k_at e);
            sized =
                length-set s.ring (get_next_index s.producer size) (desc zero_descriptor) ∙ t.sized;
            described = (
              zero_descriptor,
              get_elem?-set_self s.ring (get_next_index s.producer size) (desc zero_descriptor)
                  (ground (arith, index, t.sized, saved_in)),
            );
            roomy = t.roomy;
            holds =
                subst (λ p. Holds size (set s.ring p (desc zero_descriptor)) saved s.frag_array i)
                  (sym index)
                  (Holds-set s.ring s.frag_array i (desc zero_descriptor)
                    (new_entry i pos (k_zero i s.k pos t.k_at e)) fits t.holds);
          })
        (λ e. record {
          mapped_all = t.mapped_all;
          unmapped_none = t.unmapped_none;
          producer_at =
              t.producer_at
              ∙ ap (λ q. wrap size (saved + q))
                  (same_entry i s.k pos (k_kept i s.k pos t.k_at e) t.k_at);
          k_at = k_kept i s.k pos t.k_at e;
          sized = t.sized;
          described = t.described;
          roomy = t.roomy;
          holds = t.holds;
        })
