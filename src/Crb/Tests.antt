-- ===== src/Crb/Tests.antt =====
-- Registers of both maps, and a card that shows the value written last.
use hp_nx_nic.Prelude.{ℕ, ◌^◌, ◌≡◌, ◌⊎◌, refl, [], ◌∷◌, arith}
use hp_nx_nic.Card.{pcix_ph, get, put, Trace, Responder}
use hp_nx_nic.Crb.{
  Adapter, direct, get_crb_addr_2m, direct_map, sub_block, in_block, or_empty,
  change_crbwindow_128m,
}
use hp_nx_nic.Crb.Table.{crb_128m_2m_map}
use hp_nx_nic.Crb.Alias.{InBar, get_crb_addr_2m-InBar, SameRegister, get_crb_addr_2m-SameRegister}
use hp_nx_nic.Crb.Window.{Settles, Moved, change_crbwindow_128m-Moved}

-- The second sub-block of the PCI express block, in the first and in the second half of the space.
abbrev upper : ℕ
upper = 0x8110060

abbrev lower : ℕ
lower = 0x6110060

upper_lem : get_crb_addr_2m 0 upper 4 ≡ direct 0x130060
unfolding get_crb_addr_2m direct_map sub_block in_block or_empty crb_128m_2m_map
upper_lem = refl

lower_lem : get_crb_addr_2m 0 lower 4 ≡ direct 0x130060
unfolding get_crb_addr_2m direct_map sub_block in_block or_empty crb_128m_2m_map
lower_lem = refl

get_crb_addr_2m-InBar_example : InBar 0xf0000000 lower 4 (get_crb_addr_2m 0xf0000000 lower 4)
get_crb_addr_2m-InBar_example = get_crb_addr_2m-InBar 0xf0000000 lower 4

get_crb_addr_2m-SameRegister_example : (lower ≡ upper) ⊎ SameRegister lower upper
get_crb_addr_2m-SameRegister_example =
    get_crb_addr_2m-SameRegister 0 lower 4 upper 4 0x130060 (omega arith) (omega arith) lower_lem
      upper_lem

abbrev last_written : Responder
last_written [] r = 0
last_written (put s v ∷ t) r = v
last_written (get s ∷ t) r = last_written t r

abbrev adapter : Adapter
adapter = record { crb_win = 0; curr_window = 1; pci_base0 = 0xf0000000; pci_func = 2; portnum = 2 }

last_written-Settles : Settles last_written 1
last_written-Settles n v t = (0, omega arith, refl)

-- The second half of the space was chosen before.
abbrev upper_chosen : Trace
upper_chosen = put (pcix_ph 0x10250) (2 ^ 25) ∷ []

change_crbwindow_128m-Moved_example :
    Moved last_written 1 adapter 0 upper_chosen
      (change_crbwindow_128m last_written 1 adapter 0 upper_chosen)
change_crbwindow_128m-Moved_example =
    change_crbwindow_128m-Moved last_written 1 adapter upper_chosen last_written-Settles refl 0
