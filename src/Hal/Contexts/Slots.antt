-- ===== src/Hal/Contexts/Slots.antt =====
-- A new context gets the first open slot, and freeing it gives the device back as it was.
use hp_nx_nic.Prelude.{
  ℕ, zero, suc, ◌+◌, ◌-◌, ◌<◌, ◌%◌, ◌^◌, ◌≡◌, ◌⊎◌, inl, inr, refl, ap, ◌∙◌, true, false, Option,
  none, some, List, [], ◌∷◌, ◌==◌, ltb, if◌then◌else◌, arith, set, get_elem?, some-injective, sym,
  Bool-cases,
}
use hp_nx_nic.Prelude.Kernel.{ok}
use hp_nx_nic.Hal.{rcode_success}
use hp_nx_nic.Hal.Contexts.{
  rcode_no_host_mem, rcode_max_exceeded, Sizes, RxCtx, HostNic, is_closed, open_rx_from,
  find_open_rx_id, new_rx_ctx, alloc_in, create_rx_ctx_alloc, free_in, create_rx_ctx_free,
}

-- What the search may answer: no slot, all of them taken or their state bit set; or the first slot
-- that is empty with its bit clear.
abbrev pub Opens : ℕ → ℕ → List (Option RxCtx) → Option ℕ → Type 0
Opens state i slots none = (j : ℕ) → get_elem? slots j ≡ some none → is_closed state (i + j) ≡ false
Opens state i slots (some id) =
    (j : ℕ) × (id ≡ i + j)
    × (get_elem? slots j ≡ some none)
    × (is_closed state id ≡ true)
    × ((l : ℕ) → l < j → get_elem? slots l ≡ some none → is_closed state (i + l) ≡ false)

-- One slot more in front, which is not open.
Opens-cons :
    (state i : ℕ) (o : Option RxCtx) (slots : List (Option RxCtx)) (r : Option ℕ)
    → (some o ≡ some none → is_closed state i ≡ false)
    → Opens state (suc i) slots r
    → Opens state i (o ∷ slots) r
Opens-cons state i o slots none h rest = next
  where
    next : (j : ℕ) → get_elem? (o ∷ slots) j ≡ some none → is_closed state (i + j) ≡ false
    next zero e = let same : i + 0 ≡ i = omega arith in rw same (h e)
    next (suc j) e = let same : i + suc j ≡ suc i + j = omega arith in rw same (rest j e)
Opens-cons state i o slots (some id) h (j, eq, free, closed, first) =
    (suc j, omega arith, free, closed, next)
  where
    next :
        (l : ℕ) → l < suc j → get_elem? (o ∷ slots) l ≡ some none → is_closed state (i + l) ≡ false
    next zero lt e = let same : i + 0 ≡ i = omega arith in rw same (h e)
    next (suc l) lt e =
        let same : i + suc l ≡ suc i + l = omega arith in rw same (first l (omega arith) e)

open_rx_from-Opens :
    (state i : ℕ) (slots : List (Option RxCtx)) → Opens state i slots (open_rx_from state i slots)
unfolding open_rx_from
open_rx_from-Opens state i [] = λ j e. absurd (ground arith)
open_rx_from-Opens state i (some c ∷ slots) =
    Opens-cons state i (some c) slots (open_rx_from state (suc i) slots)
      (λ e. absurd (ground arith)) (open_rx_from-Opens state (suc i) slots)
open_rx_from-Opens state i (none ∷ slots) =
    here (Bool-cases (is_closed state i)) (open_rx_from-Opens state (suc i) slots)
  where
    here :
        (is_closed state i ≡ true) ⊎ (is_closed state i ≡ false)
        → Opens state (suc i) slots (open_rx_from state (suc i) slots)
        → Opens state i
            (none ∷ slots)
            (if is_closed state i then some i else open_rx_from state (suc i) slots)
    here (inl e) rest = rw e (0, omega arith, refl, e, λ l lt. absurd (omega arith))
    here (inr e) rest =
        rw e (Opens-cons state i none slots (open_rx_from state (suc i) slots) (λ z. e) rest)

-- find_open_rx_id returns the first slot that is empty with its state bit clear, or -1 if there is
-- no such slot.
pub find_open_rx_id-Opens : (d : HostNic) → Opens d.rx_ctxs_state 0 d.rx_ctxs (find_open_rx_id d)
unfolding find_open_rx_id
find_open_rx_id-Opens d = open_rx_from-Opens d.rx_ctxs_state 0 d.rx_ctxs

set-restores :
    (slots : List (Option RxCtx)) (id : ℕ) (c : Option RxCtx)
    → get_elem? slots id ≡ some none
    → (set (set slots id c) id none ≡ slots) × (get_elem? (set slots id c) id ≡ some c)
set-restores [] id c e = absurd (ground arith)
set-restores (s ∷ slots) zero c e = (ap (λ x. x ∷ slots) (sym (some-injective e)), refl)
set-restores (s ∷ slots) (suc id) c e =
    let (back, there) = set-restores slots id c e in (ap (λ l. s ∷ l) back, there)

-- What the allocation may answer, with what freeing the context then does.
abbrev pub Allocates : HostNic → Option ℕ → ℕ × Option RxCtx × HostNic → Type 0
Allocates d alloc (rcode, none, d') =
    (d' ≡ d)
    × (((rcode ≡ rcode_max_exceeded) × (find_open_rx_id d ≡ none))
        ⊎ ((rcode ≡ rcode_no_host_mem) × (alloc ≡ none)))
Allocates d alloc (rcode, some ctx, d') =
    (rcode ≡ rcode_success)
    × (find_open_rx_id d ≡ some ctx.this_id)
    × (alloc ≡ some ctx.addr)
    × (d'.rx_ctxs ≡ set d.rx_ctxs ctx.this_id (some ctx))
    × (create_rx_ctx_free d' ctx ≡ ok (rcode_success, d))

module _ (sizes : Sizes) (d : HostNic) (num_rds_rings num_sds_rings num_rules : ℕ) where
  alloc_in-Allocates :
      (alloc : Option ℕ) (o : Option ℕ)
      → d.active_rx_ctxs + 1 < 2 ^ 16
      → find_open_rx_id d ≡ o
      → Opens d.rx_ctxs_state 0 d.rx_ctxs o
      → Allocates d alloc (alloc_in sizes alloc d num_rds_rings num_sds_rings num_rules o)
  unfolding alloc_in create_rx_ctx_free free_in
  alloc_in-Allocates alloc none small e w = (refl, inl (refl, e))
  alloc_in-Allocates none (some id) small e w = (refl, inr (refl, refl))
  alloc_in-Allocates (some addr) (some id) small e (j, same, free, closed, first) =
      let here : get_elem? d.rx_ctxs id ≡ some none =
        ap (λ k. get_elem? d.rx_ctxs k) (omega (arith, same)) ∙ free in
      let ctx : RxCtx = new_rx_ctx sizes d num_rds_rings num_sds_rings num_rules addr id in
      let (back, there) = set-restores d.rx_ctxs id (some ctx) here in
      let up : (d.active_rx_ctxs + 1) % 2 ^ 16 ≡ d.active_rx_ctxs + 1 = omega arith in
      let down : d.active_rx_ctxs + 1 - 1 ≡ d.active_rx_ctxs = omega arith in
      let mine : (addr == addr) ≡ true = ground arith in
      let some_left : ltb (d.active_rx_ctxs + 1) 1 ≡ false = ground arith in
      (refl, e, refl, refl, rw (there, mine, up, some_left, back, down) refl)

  -- With fewer than 65535 contexts active, nx_fw_cmd_create_rx_ctx_alloc changes nothing and returns
  -- NX_RCODE_MAX_EXCEEDED if no slot is open, or NX_RCODE_NO_HOST_MEM if there is no memory; else it
  -- puts a context at the address it was given into the slot that find_open_rx_id names, and
  -- nx_fw_cmd_create_rx_ctx_free of this context succeeds and gives the device back as it was.
  pub create_rx_ctx_alloc-Allocates :
      (alloc : Option ℕ)
      → d.active_rx_ctxs + 1 < 2 ^ 16
      → Allocates d alloc (create_rx_ctx_alloc sizes alloc d num_rds_rings num_sds_rings num_rules)
  unfolding create_rx_ctx_alloc
  create_rx_ctx_alloc-Allocates alloc small =
      alloc_in-Allocates alloc (find_open_rx_id d) small refl (find_open_rx_id-Opens d)
