-- ===== src/Xmit/Fill.antt =====
-- The fragment loop of unm_nic_xmit_frame and netxen_clean_tx_dma_mapping, in
-- driver/unm_nic_main.c.
use hp_nx_nic.Prelude.{
  ℕ, suc, ◌+◌, ◌-◌, ◌%◌, ◌^◌, Bool, true, false, Option, none, some, List, [], ◌∷◌, ◌++◌, ◌==◌,
  if◌then◌else◌, set, take,
}
use hp_nx_nic.CmdRing.Window.{get_next_index}
use hp_nx_nic.Xmit.Packet.{SkbFrag, Frag, Descriptor, Entry, desc, zero_descriptor, change_desc}

-- What the loop works on: the ring, `pbuf->fragArray`, the index and the buffer number it has
-- reached, and the mappings made and taken down since the frame was accepted.
pub record Filling : Type 0 where
  pub ring : List Entry
  pub frag_array : List Frag
  pub producer : ℕ
  pub k : ℕ
  pub mapped : List Frag
  pub unmapped : List Frag

-- A length field of a descriptor has 16 bits.
abbrev pub field : Frag → Frag
field f = record f { length = f.length % 2 ^ 16 }

-- The `switch (k)`.
abbrev pub put_buffer : ℕ → Frag → Descriptor → Descriptor
put_buffer k f d =
    if k == 0
    then (record d { buffer1 = field f })
    else if k == 1
    then (record d { buffer2 = field f })
    else if k == 2
    then (record d { buffer3 = field f })
    else if k == 3
    then (record d { buffer4 = field f })
    else d

-- "move to next desc. if there is a need"
unfoldable pub next_desc : ℕ → Filling → Filling
next_desc size s =
    let next = get_next_index s.producer size in
    if s.k % 4 == 0
    then (record s { k = 0; producer = next; ring = set s.ring next (desc zero_descriptor) })
    else s

-- The rest of a round whose fragment is mapped, with the increment of `k`.
unfoldable pub put_frag : ℕ → Frag → Filling → Filling
put_frag i f s = record s {
  frag_array = set s.frag_array i f;
  ring = change_desc (put_buffer s.k f) s.ring s.producer;
  k = s.k + 1;
  mapped = s.mapped ++ f ∷ [];
}

-- netxen_clean_tx_dma_mapping: fragment 0 goes in any case.
unfoldable pub clean_tx_dma_mapping : Filling → ℕ → Filling
clean_tx_dma_mapping s last = record s {
  unmapped = s.unmapped ++ take (suc (last - 1)) s.frag_array;
}

abbrev pub as_frag : ℕ → SkbFrag → Frag
as_frag dma f = record { dma = dma; length = f.size }

-- The loop, from fragment `i` on; `false` is the jump to drop_packet. `map_page` is
-- try_map_frag_page, which is `none` if the mapping fails.
unfoldable pub fill_frags : ℕ → (SkbFrag → Option ℕ) → ℕ → List SkbFrag → Filling → Bool × Filling
unfolding next_desc put_frag clean_tx_dma_mapping
fill_frags size map_page i [] s = (true, s)
fill_frags size map_page i (f ∷ fs) s = elim (map_page f) [
  | none ↦ (false, clean_tx_dma_mapping (next_desc size s) i)
  | some dma ↦ fill_frags size map_page (suc i) fs (put_frag i (as_frag dma f) (next_desc size s))
]
