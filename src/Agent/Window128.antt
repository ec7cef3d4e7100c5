-- ===== src/Agent/Window128.antt =====
-- unm_nic_pci_mem_read_128M of driver/unm_nic_hw.c: the test agent of a card with 128 MB, whose
-- registers need the window moved.
use hp_nx_nic.Prelude.{
  ℕ, ◌+◌, ◌^◌, ◌<◌, ◌≡◌, refl, sym, Option, none, some, true, if◌then◌else◌, arith, if-cases,
}
use mathlib.Core.Path.{subst}
use hp_nx_nic.Card.{Register, mapped, Trace, Responder}
use hp_nx_nic.Crb.{Adapter, change_crbwindow_128m}
use hp_nx_nic.Crb.Window.{
  Settles, Shows, Moved, change_crbwindow_128m-Written, change_crbwindow_128m-Moved,
}
use hp_nx_nic.Agent.Reading.{Serves}
use hp_nx_nic.Agent.Contents.{
  HoldsAt, finish_read-HoldsAt, read_words-Valued, mem_bound_check-Bounds,
}
use hp_nx_nic.Agent.{mem_bound_check, read_words, finish_read}

-- The registers of the agent where `mem_crb` is mapped, which pci_base_offset gives.
abbrev pub host_agent : ℕ → ℕ → Register
host_agent mem_crb r = mapped (mem_crb + r) 4

with_value : Option ℕ → Option (Adapter × Trace) → Option (Option ℕ × (Adapter × Trace))
with_value v none = none
with_value v (some s) = some (v, s)

module _ (card : Responder) (fuel over mem_crb off size old : ℕ) where
  leave : Adapter → Option ℕ × Trace → Option (Option ℕ × (Adapter × Trace))
  unfolding with_value
  leave b (v, u) = with_value v (change_crbwindow_128m card fuel b 1 u)

  in_window : Option (Adapter × Trace) → Option (Option ℕ × (Adapter × Trace))
  unfolding leave finish_read
  in_window none = none
  in_window (some (b, u)) =
      leave b (finish_read over off size old (read_words card (host_agent mem_crb) off size u))

-- unm_nic_pci_mem_read_128M, with no result if a wait for the window runs out of its count. Behind
-- mem_bound_check no third word is read.
unfoldable pub mem_read_128m :
    Responder
    → (ℕ → ℕ → Trace → Option ℕ × Trace)
    → ℕ
    → ℕ
    → ℕ
    → Adapter
    → ℕ
    → ℕ
    → ℕ
    → Trace
    → Option (Option ℕ × (Adapter × Trace))
unfolding in_window
mem_read_128m card mem_read_direct fuel over mem_crb a off size old t =
    let direct = mem_read_direct off size t in
    if mem_bound_check off size
    then in_window card fuel over mem_crb off size old (change_crbwindow_128m card fuel a 0 t)
    else some (direct.0, (a, direct.1))

-- A call that returns with the window of the upper half, in the adapter and on the card, and with a
-- read of the memory.
abbrev pub Restores :
    (ℕ → Register)
    → Responder
    → (ℕ → ℕ)
    → Adapter
    → ℕ
    → ℕ
    → Option (Option ℕ × (Adapter × Trace))
    → Type 0
Restores reg card mem a off size o =
    (v : Option ℕ) × (u : Trace) × (o ≡ some (v, (record a { curr_window = 1 }, u)))
    × Shows a.pci_func 1 u
    × HoldsAt reg card mem off size v

module _ (card : Responder) (mem : ℕ → ℕ) (fuel over mem_crb off size old : ℕ) (a : Adapter)
    (s : Settles card fuel) where
  leave-Restores :
      (r : Option ℕ × Trace)
      → HoldsAt (host_agent mem_crb) card mem off size r.0
      → Restores
          (host_agent mem_crb)
          card
          mem
          a
          off
          size
          (leave card fuel over mem_crb off size old (record a { curr_window = 0 }) r)
  unfolding leave with_value
  leave-Restores (v, u) h =
      let m =
        change_crbwindow_128m-Written card fuel (record a { curr_window = 0 }) u s 1
          (omega arith) in
      (v, m.trace, rw m.returned refl, m.shown, h)

  in_window-Restores :
      (t : Trace) (o : Option (Adapter × Trace))
      → Moved card fuel a 0 t o
      → ((u : Trace) → Shows a.pci_func 0 u → Serves (host_agent mem_crb) u card mem)
      → ((x : ℕ) → mem x < 2 ^ 64)
      → mem_bound_check off size ≡ true
      → Restores
          (host_agent mem_crb)
          card
          mem
          a
          off
          size
          (in_window card fuel over mem_crb off size old o)
  unfolding in_window
  in_window-Restores t o moved w m h =
      let (low, p, l, width) = mem_bound_check-Bounds off size h in
      let reg : ℕ → Register = host_agent mem_crb in
      let u : Trace = moved.trace in
      subst
        (λ x. Restores reg card mem a off size (in_window card fuel over mem_crb off size old x))
        (sym moved.returned)
        (leave-Restores (finish_read over off size old (read_words card reg off size u)) (
          finish_read-HoldsAt reg u card mem over off size old width
            (read_words card reg off size u)
            (read_words-Valued reg u card mem over off size (w u moved.shown) m p l)))

-- If the card has the window that the adapter notes, shows a window within the reads that are
-- counted, and its agent shows the words that it is asked for once the window of the lower half was
-- written, then a read of memory that mem_bound_check allows returns with the window of the upper
-- half noted and last written to the card, as the driver keeps it between calls, and the buffer has
-- the bytes of the memory, or the agent was busy in 1000 reads of its control register in a row.
pub mem_read_128m-Restores :
    (card : Responder) (mem_read_direct : ℕ → ℕ → Trace → Option ℕ × Trace) (mem : ℕ → ℕ)
    (fuel over mem_crb : ℕ) (a : Adapter) (off size old : ℕ) (t : Trace)
    → Settles card fuel
    → Shows a.pci_func a.curr_window t
    → ((u : Trace) → Shows a.pci_func 0 u → Serves (host_agent mem_crb) u card mem)
    → ((x : ℕ) → mem x < 2 ^ 64)
    → mem_bound_check off size ≡ true
    → Restores
        (host_agent mem_crb)
        card
        mem
        a
        off
        size
        (mem_read_128m card mem_read_direct fuel over mem_crb a off size old t)
unfolding mem_read_128m
mem_read_128m-Restores card mem_read_direct mem fuel over mem_crb a off size old t s step w m h =
    if-cases (Restores (host_agent mem_crb) card mem a off size) (mem_bound_check off size)
      (λ e.
        in_window-Restores card mem fuel over mem_crb off size old a s t
          (change_crbwindow_128m card fuel a 0 t)
          (change_crbwindow_128m-Moved card fuel a t s step 0) w m h)
      (λ e. absurd (ground arith))
