-- ===== src/Agent/RoundTrip.antt =====
-- What mem_write_2M stores, mem_read_2M reads back.
use Prim.Native.Nat.{bit_or}
use mathlib.Core.Path.{subst}
use native.Mathlib.Nat.{
  mul_assoc, mul_comm, mul-add-div_right, add-mul-mod_self_right, mod-eq_of_lt, div-lt_iff_lt-mul,
  mod-lt,
}
use hp_nx_nic.Prelude.{
  ℕ, zero, suc, ◌+◌, ◌-◌, ◌*◌, ◌/◌, ◌%◌, ◌^◌, ◌≤◌, ◌<◌, ◌≡◌, refl, sym, ap, ◌∙◌, Option, none, some,
  [], ◌∷◌, Bool, true, ◌==◌, if◌then◌else◌, arith,
}
use hp_nx_nic.Prelude.Kernel.{Outcome, ok, bug, relinked, fault}
use hp_nx_nic.Card.{Register, crb, get, put, Trace, Responder}
use hp_nx_nic.Card.Semaphore.{reads}
use hp_nx_nic.Crb.{crb_ddr_net}
use hp_nx_nic.Agent.Fields.{field, pow-pos, pow_add, place_lt}
use hp_nx_nic.Agent.Reading.{Serves, Busy}
use hp_nx_nic.Agent.Contents.{
  content, field_within, Holds, mem_read_2m-Holds, mem_bound_check-Bounds,
}
use hp_nx_nic.Agent.Merging.{replaced}
use hp_nx_nic.Agent.Write.{tmpw_of, mem_write_2m}
use hp_nx_nic.Agent.Writing.{tmpw_of-lt, Written, mem_write_2m-Written}
use hp_nx_nic.Agent.{
  off0_of, off8_of, mem_read_2m, mem_bound_check, ddr_agent, max_ctl_check, start_write,
  miu_test_agt_ctrl, miu_test_agt_addr_lo, miu_test_agt_wrdata_lo, miu_test_agt_wrdata_hi,
  miu_ta_ctl_start, miu_ta_ctl_enable, miu_ta_ctl_write,
}

field-replaced : (w p q v : ℕ) → v < 2 ^ q → field (replaced w p q v) p q ≡ v
field-replaced w p q v d =
    let high : ℕ = w / 2 ^ (p + q) * 2 ^ q in
    let none_left : w % 2 ^ p / 2 ^ p < 1 =
      (div-lt_iff_lt-mul (pow-pos p)).1 (omega (arith, mod-lt w (pow-pos p))) in
    let cut : replaced w p q v / 2 ^ p ≡ v + high =
      mul-add-div_right (pow-pos p) (high + v) (w % 2 ^ p) ∙ omega (arith, none_left) in
    ap (λ n. n % 2 ^ q) cut ∙ add-mul-mod_self_right v (w / 2 ^ (p + q)) (2 ^ q) ∙ mod-eq_of_lt d

content-replaced :
    (mem : ℕ → ℕ) (off size w v : ℕ)
    → off0_of off + size ≤ 8
    → v < 2 ^ (8 * size)
    → mem (off8_of off) < 2 ^ 64
    → mem (off8_of off) ≡ replaced w (8 * off0_of off) (8 * size) v
    → content mem off size ≡ v
content-replaced mem off size w v h d b e =
    sym (field_within (mem (off8_of off)) (mem (off8_of off + 8)) (off0_of off) size h b)
    ∙ ap (λ n. field n (8 * off0_of off) (8 * size)) e
    ∙ field-replaced w (8 * off0_of off) (8 * size) v d

-- The buffer has the data that was written, or the agent was busy.
abbrev pub HoldsData : Responder → ℕ → ℕ → Outcome (Option ℕ × Trace) → Type 0
HoldsData card size value (ok (none, t)) = (u : Trace) × Busy ddr_agent card max_ctl_check u
HoldsData card size value (ok (some v, t)) = v ≡ tmpw_of size value
HoldsData card size value _ = ⊥

Holds-HoldsData :
    (card : Responder) (mem : ℕ → ℕ) (off size value : ℕ) (r : Outcome (Option ℕ × Trace))
    → content mem off size ≡ tmpw_of size value
    → Holds card mem off size r
    → HoldsData card size value r
Holds-HoldsData card mem off size value (ok (none, t)) e h = h
Holds-HoldsData card mem off size value (ok (some v, t)) e h = h ∙ e
Holds-HoldsData card mem off size value bug e h = h
Holds-HoldsData card mem off size value relinked e h = h
Holds-HoldsData card mem off size value fault e h = h

replaced-lt : (w p q v : ℕ) → p + q ≤ 64 → w < 2 ^ 64 → v < 2 ^ q → replaced w p q v < 2 ^ 64
replaced-lt w p q v h b d =
    let r : ℕ = 64 - (p + q) in
    let total : r + (p + q) ≡ 64 = omega (arith, h) in
    let border : 2 ^ r * 2 ^ (p + q) ≡ 2 ^ 64 = sym (pow_add r (p + q)) ∙ ap (λ n. 2 ^ n) total in
    let upper : w / 2 ^ (p + q) < 2 ^ r =
      (div-lt_iff_lt-mul (pow-pos (p + q))).1 (omega (arith, border, b)) in
    let high : v + w / 2 ^ (p + q) * 2 ^ q < 2 ^ q * 2 ^ r =
      place_lt v (w / 2 ^ (p + q)) (2 ^ q) (2 ^ r) d upper in
    let whole : w % 2 ^ p + (v + w / 2 ^ (p + q) * 2 ^ q) * 2 ^ p < 2 ^ p * (2 ^ q * 2 ^ r) =
      place_lt (w % 2 ^ p) (v + w / 2 ^ (p + q) * 2 ^ q) (2 ^ p) (2 ^ q * 2 ^ r)
        (mod-lt w (pow-pos p)) high in
    let swap : v + w / 2 ^ (p + q) * 2 ^ q ≡ w / 2 ^ (p + q) * 2 ^ q + v = omega arith in
    let moved : (v + w / 2 ^ (p + q) * 2 ^ q) * 2 ^ p ≡ (w / 2 ^ (p + q) * 2 ^ q + v) * 2 ^ p =
      ap (λ n. n * 2 ^ p) swap in
    let size : 2 ^ p * (2 ^ q * 2 ^ r) ≡ 2 ^ 64 =
      sym (mul_assoc (2 ^ p) (2 ^ q) (2 ^ r))
      ∙ ap (λ n. n * 2 ^ r) (sym (pow_add p q))
      ∙ mul_comm (2 ^ (p + q)) (2 ^ r)
      ∙ border in
    omega (arith, whole, moved, size)

-- The value that a trace wrote last to a register behind NXWR32.
abbrev pub last_put : ℕ → Trace → Option ℕ
last_put n [] = none
last_put n (get r ∷ t) = last_put n t
last_put n (put (crb m) v ∷ t) = if m == n then some v else last_put n t
last_put n (put r v ∷ t) = last_put n t

last_put-reads :
    (n : ℕ) (r : Register) (k : ℕ) (t : Trace) → last_put n (reads r k t) ≡ last_put n t
last_put-reads n r zero t = refl
last_put-reads n r (suc k) t = last_put-reads n r k t

-- What the code relies on: a request to write, made last, leaves the word of the data registers at the
-- address of the address register.
abbrev pub Stores : Trace → (ℕ → ℕ) → Type 0
Stores u mem =
    (addr lo hi : ℕ)
    → last_put (crb_ddr_net + miu_test_agt_ctrl) u
      ≡ some (bit_or (bit_or miu_ta_ctl_start miu_ta_ctl_enable) miu_ta_ctl_write)
    → last_put (crb_ddr_net + miu_test_agt_addr_lo) u ≡ some addr
    → last_put (crb_ddr_net + miu_test_agt_wrdata_lo) u ≡ some lo
    → last_put (crb_ddr_net + miu_test_agt_wrdata_hi) u ≡ some hi
    → mem addr ≡ lo + hi * 2 ^ 32

Stores-word :
    (mem : ℕ → ℕ) (addr w k : ℕ) (t : Trace)
    → addr < 2 ^ 32
    → w < 2 ^ 64
    → Stores (reads (ddr_agent miu_test_agt_ctrl) k (start_write ddr_agent addr w t)) mem
    → mem addr ≡ w
unfolding start_write
Stores-word mem addr w k t h b stores =
    let u : Trace = start_write ddr_agent addr w t in
    let skip : (n : ℕ) → last_put n (reads (ddr_agent miu_test_agt_ctrl) k u) ≡ last_put n u =
      λ n. last_put-reads n (ddr_agent miu_test_agt_ctrl) k u in
    let small : addr % 2 ^ 32 ≡ addr = mod-eq_of_lt h in
    ap mem (sym small)
    ∙ stores (addr % 2 ^ 32) (w % 2 ^ 32) (w / 2 ^ 32 % 2 ^ 32)
        (skip (crb_ddr_net + miu_test_agt_ctrl) ∙ refl)
        (skip (crb_ddr_net + miu_test_agt_addr_lo) ∙ refl)
        (skip (crb_ddr_net + miu_test_agt_wrdata_lo) ∙ refl)
        (skip (crb_ddr_net + miu_test_agt_wrdata_hi) ∙ refl)
    ∙ omega (arith, b)

module _ (card : Responder) (mem_read_direct : ℕ → ℕ → Trace → Option ℕ × Trace)
    (mem_write_direct : ℕ → ℕ → ℕ → Trace → Bool × Trace) (mem mem' : ℕ → ℕ)
    (over off size value old : ℕ) (t u : Trace) where
  -- The word that the write asks the agent to write is in the memory behind it.
  stored_word :
      Written card
        (off8_of off)
        (replaced (mem (off8_of off)) (8 * off0_of off) (8 * size) (tmpw_of size value))
        (ok (true, u))
      → mem (off8_of off) < 2 ^ 64
      → mem_bound_check off size ≡ true
      → off0_of off + size ≤ 8
      → Stores u mem'
      → mem' (off8_of off)
        ≡ replaced (mem (off8_of off)) (8 * off0_of off) (8 * size) (tmpw_of size value)
  stored_word (t1, k, e) b h within stores =
      let (low, g, l, width) = mem_bound_check-Bounds off size h in
      let w : ℕ = replaced (mem (off8_of off)) (8 * off0_of off) (8 * size) (tmpw_of size value) in
      Stores-word mem' (off8_of off) w k t1 (omega (arith, low))
        (replaced-lt (mem (off8_of off)) (8 * off0_of off) (8 * size) (tmpw_of size value)
          (omega (arith, within)) b (tmpw_of-lt size value width))
        (subst (λ x. Stores x mem') e stores)

  -- For an agent that shows the words it is asked for, and after a request to write holds the word of
  -- its data registers at the address of its address register: if mem_write_2M of an access within
  -- one word of 8 bytes, to memory that mem_bound_check allows, succeeds, then mem_read_2M of the same
  -- offset and size behind it gives the data that was written, as a number of the access's size,
  -- whatever the memory held before; it fails only after an agent that was busy in all the 1000 reads
  -- of its control register in a row.
  pub mem_read_2m-mem_write_2m :
      Serves ddr_agent t card mem
      → ((a : ℕ) → mem a < 2 ^ 64)
      → mem_bound_check off size ≡ true
      → off0_of off + size ≤ 8
      → mem_write_2m card mem_read_direct mem_write_direct over off size value t ≡ ok (true, u)
      → Stores u mem'
      → Serves ddr_agent u card mem'
      → ((a : ℕ) → mem' a < 2 ^ 64)
      → HoldsData card size value (mem_read_2m card mem_read_direct over off size old u)
  mem_read_2m-mem_write_2m s b h within done stores s' b' =
      let (low, g, l, width) = mem_bound_check-Bounds off size h in
      let w : ℕ = mem (off8_of off) in
      let written : Written card (off8_of off)
          (replaced w (8 * off0_of off) (8 * size) (tmpw_of size value)) (ok (true, u)) =
        subst
          (λ (r : Outcome (Bool × Trace)).
            Written card (off8_of off)
              (replaced w (8 * off0_of off) (8 * size) (tmpw_of size value)) r)
          done
          (mem_write_2m-Written card mem_read_direct mem_write_direct mem over off size value t s b
            h within) in
      Holds-HoldsData card mem' off size value
        (mem_read_2m card mem_read_direct over off size old u)
        (content-replaced mem' off size w (tmpw_of size value) within (tmpw_of-lt size value width)
          (b' (off8_of off)) (stored_word written (b (off8_of off)) h within stores))
        (mem_read_2m-Holds card mem_read_direct mem' over off size old u s' b' h)
