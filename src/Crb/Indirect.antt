-- ===== src/Crb/Indirect.antt =====
-- The indirect access to a register, of unm_nic_pci_set_crbwindow_2M: the window and the address in it
-- together are the register's internal address.
use hp_nx_nic.Prelude.{
  ℕ, ◌+◌, ◌-◌, ◌*◌, ◌%◌, ◌^◌, ◌≤◌, ◌<◌, ◌≡◌, refl, Option, none, some, ◌==◌, if◌then◌else◌, List,
  [], ◌∷◌, ◌&&◌, ◌⊎◌,
}
use hp_nx_nic.Card.{mapped, put, get, Trace, Responder}
use hp_nx_nic.Crb.Alias.{in_crb}
use hp_nx_nic.Crb.{
  wx_at, read_wx_2m, write_wx_at, write_wx_2m, write_at, write_len, write_ioctl_2m, read_at,
  read_len, read_ioctl_2m, CrbAddr, invalid, direct, windowed, get_crb_addr_2m, Adapter, hub_of,
  crb_blk, crb_indirect_2m, crb_window_2m,
}

-- The window that stands in the trace: the latest value written to its register.
abbrev pub window_of : ℕ → Trace → ℕ
window_of base [] = 0
window_of base (get r ∷ t) = window_of base t
window_of base (put (mapped a w) v ∷ t) =
    if w == 4 && a == crb_window_2m + base then v else window_of base t
window_of base (put r v ∷ t) = window_of base t

-- An address reaches the register of an offset: by the direct map, or through the window that stands
-- in the trace, which together with the address names the agent of the offset's block and the place
-- in the block.
abbrev pub Reaches : ℕ → Trace → ℕ → ℕ → ℕ → Type 0
Reaches base u x off len =
    (get_crb_addr_2m base off len ≡ direct x)
    ⊎ ((crb_indirect_2m + base ≤ x)
        × (x < crb_indirect_2m + base + 2 ^ 16)
        × (window_of base u + (x - (crb_indirect_2m + base))
            ≡ hub_of (crb_blk (in_crb off)) * 2 ^ 20 + in_crb off % 2 ^ 20))

-- What a read gives: the one value that the card answers at an address that reaches the register.
abbrev pub Reads : Responder → Adapter → ℕ → ℕ → Option (List ℕ × (Adapter × Trace)) → Type 0
Reads card a off len none = get_crb_addr_2m a.pci_base0 off len ≡ invalid
Reads card a off len (some (values, s)) =
    (u : Trace) × (x : ℕ) × (values ≡ card u (mapped x len) ∷ []) × Reaches a.pci_base0 u x off len

-- The value of a read of one word, as the buffer of read_ioctl_2M has it.
abbrev pub as_buffer : Option (ℕ × (Adapter × Trace)) → Option (List ℕ × (Adapter × Trace))
as_buffer none = none
as_buffer (some (v, s)) = some (v ∷ [], s)

wx_at-read_at :
    (card : Responder) (a : Adapter) (t : Trace) (r : CrbAddr)
    → as_buffer (wx_at card a t r) ≡ read_at card a 4 t r
unfolding wx_at read_at read_len
wx_at-read_at card a t invalid = refl
wx_at-read_at card a t (direct x) = refl
wx_at-read_at card a t (windowed o) = refl

write_wx_at-write_at :
    (card : Responder) (a : Adapter) (v : ℕ) (t : Trace) (r : CrbAddr)
    → write_wx_at card a v t r ≡ write_at card a (λ i. v) 4 t r
unfolding write_wx_at write_at write_len
write_wx_at-write_at card a v t invalid = refl
write_wx_at-write_at card a v t (direct x) = refl
write_wx_at-write_at card a v t (windowed o) = refl

-- The access to one word and the access by a length do the same, for any card: read_wx_2M gives
-- what read_ioctl_2M puts in a buffer of 4 bytes, write_wx_2M writes what write_ioctl_2M takes from
-- one, and both leave the same adapter and make the same accesses.
pub wx_2m-ioctl_2m :
    (card : Responder) (a : Adapter) (off v : ℕ) (t : Trace)
    → (as_buffer (read_wx_2m card a off t) ≡ read_ioctl_2m card a off 4 t)
      × (write_wx_2m card a off v t ≡ write_ioctl_2m card a off (λ i. v) 4 t)
unfolding read_wx_2m write_wx_2m read_ioctl_2m write_ioctl_2m
wx_2m-ioctl_2m card a off v t = (
  wx_at-read_at card a t (get_crb_addr_2m a.pci_base0 off 4),
  write_wx_at-write_at card a v t (get_crb_addr_2m a.pci_base0 off 4),
)
