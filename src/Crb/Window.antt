-- ===== src/Crb/Window.antt =====
-- The window of the map of 128 MB: how unm_nic_pci_change_crbwindow_128M moves it on the card, and
-- where unm_nic_pci_set_crbwindow places an offset.
use hp_nx_nic.Prelude.{
  ℕ, zero, suc, ◌+◌, ◌*◌, ◌%◌, ◌^◌, ◌≤◌, ◌<◌, ◌≡◌, ◌≢◌, refl, sym, ap, ◌∙◌, ◌⊎◌, inl, inr, Option,
  none, some, [], ◌∷◌, ◌==◌, if◌then◌else◌, arith, if-cases,
}
use mathlib.Core.Path.{subst}
use hp_nx_nic.Card.{Register, pcix_ph, get, put, Trace, Responder}
use hp_nx_nic.Card.Semaphore.{reads, reads-suc}
use hp_nx_nic.Crb.{
  Adapter, crb_pcix_host, crb_pcix_host2, crb_ddr_net, await_window, settled, change_crbwindow_128m,
  pcie_crb_window_reg,
}

-- What the code relies on: the card shows a window within `fuel` reads after it is written.
abbrev pub Settles : Responder → ℕ → Type 0
Settles card fuel =
    (n v : ℕ) (t : Trace)
    → (k : ℕ) × (k < fuel) × (card (reads (pcix_ph n) k (put (pcix_ph n) v ∷ t)) (pcix_ph n) ≡ v)

-- The latest value that was written to a register of the PCI block.
abbrev pub written_window : ℕ → Trace → Option ℕ
written_window n [] = none
written_window n (get r ∷ t) = written_window n t
written_window n (put (pcix_ph m) v ∷ t) = if m == n then some v else written_window n t
written_window n (put r v ∷ t) = written_window n t

pub written_window-reads :
    (n : ℕ) (r : Register) (k : ℕ) (t : Trace) → written_window n (reads r k t) ≡ written_window n t
written_window-reads n r zero t = refl
written_window-reads n r (suc k) t = written_window-reads n r k t

-- The card has the window `wndw` of a function: the bit at place 25 of its register.
abbrev pub Shows : ℕ → ℕ → Trace → Type 0
Shows func wndw t = written_window (pcie_crb_window_reg func) t ≡ some (wndw % 2 * 2 ^ 25)

-- The loop read the register until it showed the value, and not longer.
abbrev pub Awaited : Responder → Register → ℕ → ℕ → Trace → Option Trace → Type 0
Awaited card r w fuel t o =
    (k : ℕ) × (k < fuel)
    × (o ≡ some (reads r (suc k) t))
    × (card (reads r k t) r ≡ w)
    × ((i : ℕ) → i < k → card (reads r i t) r ≢ w)

Awaited-suc :
    (card : Responder) (r : Register) (w fuel : ℕ) (t : Trace) (o : Option Trace)
    → card t r ≢ w
    → Awaited card r w fuel (get r ∷ t) o
    → Awaited card r w (suc fuel) t o
Awaited-suc card r w fuel t o now (k, le, e, shown, before) =
    (suc k, omega arith, e ∙ ap some more, ap (λ u. card u r) same ∙ shown, earlier)
  where
    same : reads r (suc k) t ≡ reads r k (get r ∷ t)
    same = sym (reads-suc r k t)

    more : reads r (suc k) (get r ∷ t) ≡ reads r (suc (suc k)) t
    more = reads-suc r (suc k) t

    earlier : (i : ℕ) → i < suc k → card (reads r i t) r ≢ w
    earlier zero h = now
    earlier (suc i) h = subst (λ u. card u r ≢ w) (reads-suc r i t) (before i (omega arith))

-- A round of the loop; `rest` is what the rounds behind it do.
round-Awaited :
    (card : Responder) (r : Register) (w n k : ℕ) (t : Trace)
    → k < suc n
    → card (reads r k t) r ≡ w
    → card t r ≢ w
    → ((k : ℕ)
        → k < n
        → card (reads r k (get r ∷ t)) r ≡ w
        → Awaited card r w n (get r ∷ t) (await_window card r w n (get r ∷ t)))
    → Awaited card r w (suc n) t (await_window card r w n (get r ∷ t))
round-Awaited card r w n zero t s e h rest = absurd (h e)
round-Awaited card r w n (suc k) t s e h rest =
    Awaited-suc card r w n t (await_window card r w n (get r ∷ t)) h
      (rest k (omega arith) (ap (λ u. card u r) (reads-suc r k t) ∙ e))

await_window-Awaited :
    (card : Responder) (r : Register) (w fuel k : ℕ) (t : Trace)
    → k < fuel
    → card (reads r k t) r ≡ w
    → Awaited card r w fuel t (await_window card r w fuel t)
unfolding await_window
await_window-Awaited card r w zero k t s e = absurd (omega arith)
await_window-Awaited card r w (suc n) k t s e =
    if-cases (Awaited card r w (suc n) t) (card t r == w)
      (λ h. (0, omega arith, refl, ground arith, λ i l. absurd (omega arith)))
      (λ h.
        round-Awaited card r w n k t s e (ground arith)
          (λ k s e. await_window-Awaited card r w n k (get r ∷ t) s e))

-- The call returned with the window that was asked for, in the adapter and on the card: it was there
-- already and nothing was done, or its register was written once and read until it showed the window.
pub record Moved (card : Responder) (fuel : ℕ) (a : Adapter) (wndw : ℕ) (t : Trace)
    (o : Option (Adapter × Trace)) : Type 0 where
  pub trace : Trace
  pub returned : o ≡ some (record a { curr_window = wndw }, trace)
  pub shown : Shows a.pci_func wndw trace
  pub waited :
      let r = pcix_ph (pcie_crb_window_reg a.pci_func) in
      let w = wndw % 2 * 2 ^ 25 in
      (a.curr_window ≡ wndw) × (trace ≡ t)
      ⊎ (a.curr_window ≢ wndw) × Awaited card r w fuel (put r w ∷ t) (some trace)

settled-Moved :
    (card : Responder) (fuel : ℕ) (a : Adapter) (wndw : ℕ) (t : Trace) (o : Option Trace)
    → a.curr_window ≢ wndw
    → Awaited card
        (pcix_ph (pcie_crb_window_reg a.pci_func))
        (wndw % 2 * 2 ^ 25)
        fuel
        (put (pcix_ph (pcie_crb_window_reg a.pci_func)) (wndw % 2 * 2 ^ 25) ∷ t)
        o
    → Moved card fuel a wndw t (settled a wndw o)
unfolding settled
settled-Moved card fuel a wndw t o other (k, le, e, found, before) =
    let n : ℕ = pcie_crb_window_reg a.pci_func in
    let r : Register = pcix_ph n in
    let w : ℕ = wndw % 2 * 2 ^ 25 in
    rw e (record {
      trace = reads r (suc k) (put r w ∷ t);
      returned = refl;
      shown = written_window-reads n r (suc k) (put r w ∷ t) ∙ ground arith;
      waited = inr (other, (k, le, refl, found, before));
    })

module _ (card : Responder) (fuel : ℕ) (a : Adapter) (t : Trace) (h : Settles card fuel) where
  moving-Moved :
      (wndw : ℕ)
      → let r = pcix_ph (pcie_crb_window_reg a.pci_func) in
        let w = wndw % 2 * 2 ^ 25 in
        a.curr_window ≢ wndw
        → Moved card fuel a wndw t (settled a wndw (await_window card r w fuel (put r w ∷ t)))
  moving-Moved wndw other =
      let r : Register = pcix_ph (pcie_crb_window_reg a.pci_func) in
      let w : ℕ = wndw % 2 * 2 ^ 25 in
      let k : (k : ℕ) × (k < fuel) × (card (reads r k (put r w ∷ t)) r ≡ w) =
        h (pcie_crb_window_reg a.pci_func) w t in
      settled-Moved card fuel a wndw t (await_window card r w fuel (put r w ∷ t)) other
        (await_window-Awaited card r w fuel k.0 (put r w ∷ t) k.1 k.2)

  -- To another window than the noted one the call moves whatever the card had before.
  pub change_crbwindow_128m-Written :
      (wndw : ℕ)
      → a.curr_window ≢ wndw
      → Moved card fuel a wndw t (change_crbwindow_128m card fuel a wndw t)
  unfolding change_crbwindow_128m
  change_crbwindow_128m-Written wndw other =
      if-cases (Moved card fuel a wndw t) (a.curr_window == wndw)
        (λ e. absurd (ground (arith, other))) (λ e. moving-Moved wndw other)

module _ (card : Responder) (fuel : ℕ) (a : Adapter) (t : Trace) (h : Settles card fuel)
    (step : Shows a.pci_func a.curr_window t) where
  kept-Moved : (wndw : ℕ) → a.curr_window ≡ wndw → Moved card fuel a wndw t (some (a, t))
  kept-Moved wndw e = record {
    trace = t;
    returned = ap (λ n. some (record a { curr_window = n }, t)) e;
    shown = subst (λ n. Shows a.pci_func n t) e step;
    waited = inl (e, refl);
  }

  -- If the card has the window that the adapter notes, and shows a window within the reads that are
  -- counted, for which the code has no bound, the change of the window returns with the window that
  -- was asked for noted and last written to the card. If it was noted before, nothing is done; else
  -- its register is written once and read until it shows the window, and nothing else is accessed.
  pub change_crbwindow_128m-Moved :
      (wndw : ℕ) → Moved card fuel a wndw t (change_crbwindow_128m card fuel a wndw t)
  unfolding change_crbwindow_128m
  change_crbwindow_128m-Moved wndw =
      if-cases (Moved card fuel a wndw t) (a.curr_window == wndw)
        (λ e. kept-Moved wndw (ground arith))
        (λ e. moving-Moved card fuel a t h wndw (ground arith))

-- Where the offset `off` of the CRB space is placed: in the lower half of the space, at the place
-- that with the value of the card's window register makes the offset; the first two blocks need no
-- window, as both halves hold them, and nothing is done for them. The one offset at the border of
-- the halves is passed through. The adapter notes the window that the card has.
pub data Placed (a : Adapter) (off : ℕ) (t : Trace) : Option (ℕ × (Adapter × Trace)) → Type 0 where
  border : off ≡ crb_pcix_host2 → Placed a off t (some (off, (a, t)))
  both_halves : crb_pcix_host ≤ off → off < crb_ddr_net → Placed a off t (some (off, (a, t)))
  behind_window :
      (x v : ℕ) {b : Adapter} {u : Trace}
      → crb_ddr_net ≤ off
      → crb_pcix_host ≤ x
      → x < crb_pcix_host2
      → written_window (pcie_crb_window_reg a.pci_func) u ≡ some v
      → x + v ≡ off
      → b.pci_func ≡ a.pci_func
      → Shows b.pci_func b.curr_window u
      → Placed a off t (some (x, (b, u)))
