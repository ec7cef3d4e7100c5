-- ===== src/Xmit/Entries.antt =====
-- The entries of the command ring as the buffers they hold, in driver/unm_nic_main.c.
use hp_nx_nic.Prelude.{
  ℕ, ◌+◌, ◌/◌, ◌%◌, ◌<◌, ◌≡◌, refl, ap, ◌∙◌, ◌≢◌, Option, none, some, List, arith, ◌==◌,
  if◌then◌else◌, length, get_elem?, length-set, get_elem?-set_self, get_elem?-set_ne,
}
use hp_nx_nic.CmdRing.Window.{wrap}
use hp_nx_nic.Xmit.Packet.{Frag, Descriptor, Entry, desc, header, change_entry, change_desc}
use hp_nx_nic.Xmit.Fill.{field}

-- Buffer `k` of a descriptor, and of the entry at an index.
abbrev pub buffer : ℕ → Descriptor → Frag
buffer k d =
    if k == 0
    then d.buffer1
    else if k == 1
    then d.buffer2
    else if k == 2
    then d.buffer3
    else d.buffer4

abbrev pub entry_buffer : ℕ → Option Entry → Option Frag
entry_buffer k none = none
entry_buffer k (some (header o bs)) = none
entry_buffer k (some (desc d)) = some (buffer k d)

abbrev pub buffer_at : List Entry → ℕ → ℕ → Option Frag
buffer_at ring i k = entry_buffer k (get_elem? ring i)

-- An entry that holds a buffer is a descriptor.
pub entry_buffer-desc :
    (o : Option Entry) (k : ℕ) (b : Frag)
    → entry_buffer k o ≡ some b
    → (d : Descriptor) × (o ≡ some (desc d))
entry_buffer-desc none k b e = absurd (cc e)
entry_buffer-desc (some (header o bs)) k b e = absurd (cc e)
entry_buffer-desc (some (desc d)) k b e = (d, refl)

-- The first `n` fragments of `fs` stand in the descriptors from entry `saved` on.
abbrev pub Holds : ℕ → List Entry → ℕ → List Frag → ℕ → Type 0
Holds size ring saved fs n =
    (j : ℕ) (f : Frag)
    → j < n
    → get_elem? fs j ≡ some f
    → buffer_at ring (wrap size (saved + j / 4)) (j % 4) ≡ some (field f)

length-change_entry :
    (f : Descriptor → Descriptor) (o : Option Entry) (ring : List Entry) (i : ℕ)
    → length (change_entry f o ring i) ≡ length ring
length-change_entry f none ring i = refl
length-change_entry f (some (header o bs)) ring i = refl
length-change_entry f (some (desc d)) ring i = length-set ring i (desc (f d))

-- Changing a descriptor keeps the number of entries and the other entries.
pub length-change_desc :
    (f : Descriptor → Descriptor) (ring : List Entry) (i : ℕ)
    → length (change_desc f ring i) ≡ length ring
length-change_desc f ring i = length-change_entry f (get_elem? ring i) ring i

change_entry_ne :
    (f : Descriptor → Descriptor) (o : Option Entry) (ring : List Entry) (i j : ℕ)
    → i ≢ j
    → get_elem? (change_entry f o ring i) j ≡ get_elem? ring j
change_entry_ne f none ring i j n = refl
change_entry_ne f (some (header o bs)) ring i j n = refl
change_entry_ne f (some (desc d)) ring i j n = get_elem?-set_ne ring (desc (f d)) n

pub change_desc_ne :
    (f : Descriptor → Descriptor) (ring : List Entry) (i j : ℕ)
    → i ≢ j
    → get_elem? (change_desc f ring i) j ≡ get_elem? ring j
change_desc_ne f ring i j n = change_entry_ne f (get_elem? ring i) ring i j n

-- The descriptor that was changed.
pub change_desc_self :
    (f : Descriptor → Descriptor) (ring : List Entry) (i : ℕ) (d : Descriptor)
    → i < length ring
    → get_elem? ring i ≡ some (desc d)
    → get_elem? (change_desc f ring i) i ≡ some (desc (f d))
change_desc_self f ring i d h e =
    ap (λ o. get_elem? (change_entry f o ring i) i) e ∙ get_elem?-set_self ring i (desc (f d)) h

pub div_mod_ne : (i j : ℕ) → j / 4 ≡ i / 4 → j ≢ i → j % 4 ≢ i % 4
div_mod_ne i j e n h = n (omega arith)

pub wrap_ne :
    (size saved a b : ℕ)
    → saved < size
    → a < b
    → b < size
    → wrap size (saved + b) ≢ wrap size (saved + a)
wrap_ne size saved a b hs hab hb e = ground arith
