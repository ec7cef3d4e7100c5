-- ===== src/Crb.antt =====
-- The card's registers behind a memory window: driver/unm_nic_hw.c, the addresses of the old map of
-- 128 MB, which the driver uses throughout, and how cards with 2 MB and with 128 MB are reached.
mod Table
mod Hubs
mod Agents
mod Map
mod Alias
mod Indirect
pub mod Window
mod Tests
use Prim.Native.Nat.{bit_or, bit_and}
use hp_nx_nic.Prelude.{
  ℕ, zero, suc, ◌+◌, ◌-◌, ◌*◌, ◌/◌, ◌%◌, ◌^◌, Option, none, some, List, [], ◌∷◌, Bool, true, false,
  ◌&&◌, get_elem?, ltb, leb, ◌==◌, if◌then◌else◌,
}
use hp_nx_nic.Card.{
  Register, sem7_lock, sem7_unlock, crb_win_lock_id, pcix_ph, mapped, get, Trace, Responder, read,
  write,
}
use hp_nx_nic.Card.Semaphore.{acquire}
use hp_nx_nic.Crb.Table.{SubBlock, empty, crb_128m_2m_map}
use hp_nx_nic.Crb.Agents.{crb_hub_agt}

abbrev pub pci_crbspace : ℕ
pci_crbspace = 0x6000000

abbrev pub pci_crb_windowsize : ℕ
pci_crb_windowsize = 0x100000

-- UNM_PCI_CRB_WINDOW
abbrev pub pci_crb_window : ℕ → ℕ
pci_crb_window a = pci_crbspace + a * pci_crb_windowsize

abbrev pub crb_pcix_host : ℕ
crb_pcix_host = pci_crb_window 0

abbrev pub crb_ddr_net : ℕ
crb_ddr_net = pci_crb_window 2

abbrev pub crb_qdr_net : ℕ
crb_qdr_net = pci_crb_window 29

abbrev pub crb_pcix_host2 : ℕ
crb_pcix_host2 = pci_crb_window 32

abbrev pub crb_max : ℕ
crb_max = pci_crb_window 64

abbrev pub pci_direct_crb : ℕ
pci_direct_crb = 0x4400000

abbrev pub pci_camqm : ℕ
pci_camqm = 0x4800000

abbrev pub pci_camqm_max : ℕ
pci_camqm_max = 0x4ffffff

abbrev pub pci_camqm_2m_end : ℕ
pci_camqm_2m_end = 0x4800800

abbrev pub pci_camqm_2m_base : ℕ
pci_camqm_2m_base = 0xff800

abbrev pub crb_window_2m : ℕ
crb_window_2m = 0x130060

abbrev pub crb_indirect_2m : ℕ
crb_indirect_2m = 0x1e0000

-- The fields of unm_adapter that choose the windows.
pub record Adapter : Type 0 where
  pub crb_win : ℕ
  pub curr_window : ℕ
  pub pci_base0 : ℕ
  pub pci_func : ℕ
  pub portnum : ℕ

-- CRB_BLK and CRB_SUBBLK
abbrev pub crb_blk : ℕ → ℕ
crb_blk off = off / 2 ^ 20 % 64

abbrev pub crb_subblk : ℕ → ℕ
crb_subblk off = off / 2 ^ 16 % 16

or_empty : Option SubBlock → SubBlock
or_empty none = empty
or_empty (some m) = m

in_block : Option (List SubBlock) → ℕ → SubBlock
in_block none j = empty
in_block (some b) j = or_empty (get_elem? b j)

-- An entry of crb_128M_2M_map, which C fills up with zeroes.
pub sub_block : ℕ → ℕ → SubBlock
sub_block i j = in_block (get_elem? crb_128m_2m_map i) j

-- What unm_nic_pci_get_crb_addr_2M finds: -1, or 0 with the address in the map of 2 MB, or 1 with
-- the offset in the CRB space.
pub data CrbAddr : Type 0 where
  invalid : CrbAddr
  direct : ℕ → CrbAddr
  windowed : ℕ → CrbAddr

-- The direct map, where `m` is the entry of the offset.
unfoldable pub direct_map : ℕ → ℕ → ℕ → SubBlock → CrbAddr
direct_map base off len m =
    if (if m.valid == 0 then false else true)
      && (leb m.start_128m off && leb (off + len) m.end_128m)
    then direct (off + m.start_2m - m.start_128m + base)
    else windowed off

-- unm_nic_pci_get_crb_addr_2M
unfoldable pub get_crb_addr_2m : ℕ → ℕ → ℕ → CrbAddr
get_crb_addr_2m base off len =
    if leb crb_max off
    then invalid
    else if leb pci_camqm off && leb (off + len) pci_camqm_2m_end
    then direct (off - pci_camqm + pci_camqm_2m_base + base)
    else if ltb off pci_crbspace
    then invalid
    else direct_map base (off - pci_crbspace) len
        (sub_block (crb_blk (off - pci_crbspace)) (crb_subblk (off - pci_crbspace)))

abbrev pub or_zero : Option ℕ → ℕ
or_zero none = 0
or_zero (some n) = n

unfoldable pub hub_of : ℕ → ℕ
hub_of i = or_zero (get_elem? crb_hub_agt i)

-- CRB_HI, in 32 bits.
unfoldable pub crb_hi : ℕ → ℕ
crb_hi off = bit_or (hub_of (crb_blk off) * 2 ^ 20 % 2 ^ 32) (bit_and off 0xf0000)

-- unm_nic_pci_set_crbwindow_2M; the value read back only decides on a message.
unfoldable pub set_crbwindow_2m : Adapter → ℕ → Trace → ℕ × (Adapter × Trace)
set_crbwindow_2m a off t =
    let base = a.pci_base0 in
    let win = mapped (crb_window_2m + base) 4 in
    (
      off % 2 ^ 16 + crb_indirect_2m + base,
      (record a { crb_win = crb_hi off }, get win ∷ write win (crb_hi off) t),
    )

-- CRB_WIN_LOCK_TIMEOUT
unfoldable pub crb_win_lock_timeout : ℕ
crb_win_lock_timeout = 100000000

locked : ℕ → Bool × Trace → Trace
locked port (true, t) = write crb_win_lock_id port t
locked port (false, t) = t

-- crb_win_lock; its callers do not look at what it returns.
unfoldable pub crb_win_lock : Responder → Adapter → Trace → Trace
unfolding locked
crb_win_lock card a t = locked a.portnum (acquire card sem7_lock crb_win_lock_timeout t)

-- crb_win_unlock
abbrev pub crb_win_unlock : Trace → Trace
crb_win_unlock t = get sem7_unlock ∷ t

-- UNM_NIC_HW_BLOCK_READ_64, in the order of the reads.
unfoldable pub block_read_64 : Responder → ℕ → ℕ → Trace → List ℕ × Trace
block_read_64 card addr zero t = ([], t)
block_read_64 card addr (suc n) t =
    let rest = block_read_64 card (addr + 8) n (get (mapped addr 8) ∷ t) in
    (card t (mapped addr 8) ∷ rest.0, rest.1)

-- UNM_NIC_HW_BLOCK_WRITE_64: the words of `data_ptr` from the one at `i` on.
unfoldable pub block_write_64 : (ℕ → ℕ) → ℕ → ℕ → ℕ → Trace → Trace
block_write_64 data_ptr i addr zero t = t
block_write_64 data_ptr i addr (suc n) t =
    block_write_64 data_ptr (suc i) (addr + 8) n (write (mapped addr 8) (data_ptr i) t)

-- A width that one access takes.
abbrev pub is_width : ℕ → Bool
is_width len =
    if len == 1 then true else if len == 2 then true else if len == 4 then true else len == 8

-- The switch of unm_nic_hw_read_ioctl_2M.
unfoldable pub read_len : Responder → ℕ → ℕ → Trace → List ℕ × Trace
unfolding block_read_64
read_len card addr len t =
    if is_width len
    then (card t (mapped addr len) ∷ [], get (mapped addr len) ∷ t)
    else block_read_64 card addr (len / 8) t

-- The switch of unm_nic_hw_write_ioctl_2M.
unfoldable pub write_len : (ℕ → ℕ) → ℕ → ℕ → Trace → Trace
unfolding block_write_64
write_len data_ptr addr len t =
    if is_width len
    then write (mapped addr len) (data_ptr 0) t
    else block_write_64 data_ptr 0 addr (len / 8) t

read_at : Responder → Adapter → ℕ → Trace → CrbAddr → Option (List ℕ × (Adapter × Trace))
unfolding read_len set_crbwindow_2m crb_win_lock
read_at card a len t invalid = none
read_at card a len t (direct addr) = let r = read_len card addr len t in some (r.0, (a, r.1))
read_at card a len t (windowed off) =
    let s = set_crbwindow_2m a off (crb_win_lock card a t) in
    let r = read_len card s.0 len s.1.1 in some (r.0, (s.1.0, crb_win_unlock r.1))

-- unm_nic_hw_read_ioctl_2M, with no result where BUG_ON stops the kernel.
unfoldable pub read_ioctl_2m :
    Responder → Adapter → ℕ → ℕ → Trace → Option (List ℕ × (Adapter × Trace))
unfolding read_at
read_ioctl_2m card a off len t = read_at card a len t (get_crb_addr_2m a.pci_base0 off len)

write_at : Responder → Adapter → (ℕ → ℕ) → ℕ → Trace → CrbAddr → Option (Adapter × Trace)
unfolding write_len set_crbwindow_2m crb_win_lock
write_at card a data_ptr len t invalid = none
write_at card a data_ptr len t (direct addr) = some (a, write_len data_ptr addr len t)
write_at card a data_ptr len t (windowed off) =
    let s = set_crbwindow_2m a off (crb_win_lock card a t) in
    some (s.1.0, crb_win_unlock (write_len data_ptr s.0 len s.1.1))

-- unm_nic_hw_write_ioctl_2M
unfoldable pub write_ioctl_2m :
    Responder → Adapter → ℕ → (ℕ → ℕ) → ℕ → Trace → Option (Adapter × Trace)
unfolding write_at
write_ioctl_2m card a off data_ptr len t =
    write_at card a data_ptr len t (get_crb_addr_2m a.pci_base0 off len)

wx_at : Responder → Adapter → Trace → CrbAddr → Option (ℕ × (Adapter × Trace))
unfolding set_crbwindow_2m crb_win_lock
wx_at card a t invalid = none
wx_at card a t (direct addr) = some (card t (mapped addr 4), (a, get (mapped addr 4) ∷ t))
wx_at card a t (windowed off) =
    let s = set_crbwindow_2m a off (crb_win_lock card a t) in
    some (card s.1.1 (mapped s.0 4), (s.1.0, crb_win_unlock (get (mapped s.0 4) ∷ s.1.1)))

-- unm_nic_hw_read_wx_2M, which is NXRD32 on cards with 2 MB.
unfoldable pub read_wx_2m : Responder → Adapter → ℕ → Trace → Option (ℕ × (Adapter × Trace))
unfolding wx_at
read_wx_2m card a off t = wx_at card a t (get_crb_addr_2m a.pci_base0 off 4)

write_wx_at : Responder → Adapter → ℕ → Trace → CrbAddr → Option (Adapter × Trace)
unfolding set_crbwindow_2m crb_win_lock
write_wx_at card a data_word t invalid = none
write_wx_at card a data_word t (direct addr) = some (a, write (mapped addr 4) data_word t)
write_wx_at card a data_word t (windowed off) =
    let s = set_crbwindow_2m a off (crb_win_lock card a t) in
    some (s.1.0, crb_win_unlock (write (mapped s.0 4) data_word s.1.1))

-- unm_nic_hw_write_wx_2M, which is NXWR32 on cards with 2 MB.
unfoldable pub write_wx_2m : Responder → Adapter → ℕ → ℕ → Trace → Option (Adapter × Trace)
unfolding write_wx_at
write_wx_2m card a off data_word t =
    write_wx_at card a data_word t (get_crb_addr_2m a.pci_base0 off 4)

-- PCIE_CRB_WINDOW_REG
abbrev pub pcie_crb_window_reg : ℕ → ℕ
pcie_crb_window_reg func = if ltb func 4 then 0x10210 + 0x20 * func else 0x102ac + 0x10 * (func - 4)

-- The loop of unm_nic_pci_change_crbwindow_128M around the read of the window register, with the
-- reads that are left; it has no bound in the code.
unfoldable pub await_window : Responder → Register → ℕ → ℕ → Trace → Option Trace
await_window card r window zero t = none
await_window card r window (suc n) t =
    let rest = await_window card r window n (get r ∷ t) in
    if card t r == window then some (get r ∷ t) else rest

settled : Adapter → ℕ → Option Trace → Option (Adapter × Trace)
settled a wndw none = none
settled a wndw (some t) = some (record a { curr_window = wndw }, t)

-- unm_nic_pci_change_crbwindow_128M: the window is one bit at place 25 of the register.
unfoldable pub change_crbwindow_128m :
    Responder → ℕ → Adapter → ℕ → Trace → Option (Adapter × Trace)
unfolding await_window settled
change_crbwindow_128m card fuel a wndw t =
    let r = pcix_ph (pcie_crb_window_reg a.pci_func) in
    let window = wndw % 2 * 2 ^ 25 in
    if a.curr_window == wndw
    then some (a, t)
    else settled a wndw (await_window card r window fuel (write r window t))

at_offset : ℕ → Option (Adapter × Trace) → Option (ℕ × (Adapter × Trace))
at_offset off none = none
at_offset off (some s) = some (off, s)

-- unm_nic_pci_set_crbwindow
unfoldable pub set_crbwindow : Responder → ℕ → Adapter → ℕ → Trace → Option (ℕ × (Adapter × Trace))
unfolding change_crbwindow_128m at_offset
set_crbwindow card fuel a off t =
    let first = change_crbwindow_128m card fuel a 0 t in
    let second = change_crbwindow_128m card fuel a 1 t in
    if leb crb_pcix_host off && ltb off crb_ddr_net
    then some (off, (a, t))
    else if leb crb_pcix_host off && ltb off crb_pcix_host2
    then at_offset off (if a.curr_window == 0 then some (a, t) else first)
    else if ltb crb_pcix_host2 off && ltb off crb_max
    then at_offset (off - crb_pcix_host2 + crb_pcix_host)
        (if a.curr_window == 1 then some (a, t) else second)
    else some (off, (a, t))
