-- ===== src/Agent/Write.antt =====
-- unm_nic_pci_mem_write_2M of driver/unm_nic_hw.c: the words around the access are read, the data is
-- merged into them, and they are written through the test agent.
use Prim.Native.Nat.{bit_or, bit_and}
use hp_nx_nic.Prelude.{
  ℕ, ◌+◌, ◌-◌, ◌*◌, ◌/◌, ◌%◌, ◌^◌, Option, none, some, Bool, true, false, ◌&&◌, ltb, leb, ◌==◌,
  if◌then◌else◌,
}
use hp_nx_nic.Prelude.Kernel.{Outcome, ok, fault}
use hp_nx_nic.Card.{Register, Trace, Responder}
use hp_nx_nic.Agent.{
  off0_of, off8_of, sz0_of, sz1_of, loop_of, ones, await_agent, max_ctl_check, start_write,
  mem_read_2m, mem_bound_check, ddr_agent, qdr_agent, addr_qdr_net, p3_addr_qdr_net_max,
}

-- tmpw: the data as an unsigned number of its size, or of 8 bytes.
abbrev pub tmpw_of : ℕ → ℕ → ℕ
tmpw_of size value =
    if size == 1
    then value % 2 ^ 8
    else if size == 2
    then value % 2 ^ 16
    else if size == 4
    then value % 2 ^ 32
    else value % 2 ^ 64

-- The complement of a word.
abbrev pub not64 : ℕ → ℕ
not64 n = 2 ^ 64 - 1 - n

-- word[0], merged.
unfoldable pub merge0 : ℕ → ℕ → ℕ → ℕ → ℕ → ℕ
merge0 over off0 sz0 w tmpw =
    bit_or (bit_and w (not64 (ones over sz0 * 2 ^ (8 * off0) % 2 ^ 64)))
      (tmpw * 2 ^ (8 * off0) % 2 ^ 64)

-- word[1], merged, where there are two words.
unfoldable pub merge1 : ℕ → ℕ → ℕ → ℕ → ℕ → ℕ
merge1 over sz0 sz1 w tmpw = bit_or (bit_and w (ones over sz1)) (tmpw / 2 ^ (8 * sz0))

unfoldable pub merge : ℕ → ℕ → ℕ → ℕ → ℕ × ℕ → ℕ × ℕ
unfolding merge0 merge1
merge over off size tmpw (w0, w1) =
    let off0 = off0_of off in
    let sz0 = sz0_of off0 size in
    (
      merge0 over off0 sz0 w0 tmpw,
      if loop_of off0 size == 2 then merge1 over sz0 (sz1_of off0 size) w1 tmpw else w1,
    )

unfoldable pub first_only : Outcome (Option ℕ × Trace) → Outcome (Option (ℕ × ℕ) × Trace)
first_only (ok (none, t)) = ok (none, t)
first_only (ok (some w, t)) = ok (some (w, 0), t)
first_only _ = fault

unfoldable pub joined : ℕ → Outcome (Option ℕ × Trace) → Outcome (Option (ℕ × ℕ) × Trace)
joined w0 (ok (none, t)) = ok (none, t)
joined w0 (ok (some w1, t)) = ok (some (w0, w1), t)
joined w0 _ = fault

module _ (card : Responder) (mem_read_direct : ℕ → ℕ → Trace → Option ℕ × Trace) (over : ℕ) where
  unfoldable pub with_second : ℕ → Outcome (Option ℕ × Trace) → Outcome (Option (ℕ × ℕ) × Trace)
  unfolding joined
  with_second addr (ok (none, t)) = ok (none, t)
  with_second addr (ok (some w0, t)) = joined w0 (mem_read_2m card mem_read_direct over addr 8 0 t)
  with_second addr _ = fault

  -- The words around the access, through mem_read_2M; a whole word is not read.
  unfoldable pub old_words : ℕ → ℕ → Trace → Outcome (Option (ℕ × ℕ) × Trace)
  unfolding first_only with_second
  old_words off size t =
      let loop = loop_of (off0_of off) size in
      let first = mem_read_2m card mem_read_direct over (off8_of off) 8 0 t in
      if size == 8 && off0_of off == 0
      then ok (some (0, 0), t)
      else if loop == 0
      then ok (some (0, 0), t)
      else if loop == 1
      then first_only first
      else with_second (off8_of off + 8) first

module _ (card : Responder) (reg : ℕ → Register) where
  unfoldable pub write_second : ℕ → ℕ → Bool × Trace → Bool × Trace
  unfolding await_agent start_write
  write_second addr w1 (true, t) = await_agent card reg max_ctl_check (start_write reg addr w1 t)
  write_second addr w1 (false, t) = (false, t)

  -- The loop of mem_write, for at most two words.
  unfoldable pub write_words : ℕ → ℕ → ℕ × ℕ → Trace → Bool × Trace
  unfolding write_second await_agent start_write
  write_words loop off8 (w0, w1) t =
      let first = await_agent card reg max_ctl_check (start_write reg off8 w0 t) in
      if loop == 0 then (true, t) else if loop == 1 then first else write_second (off8 + 8) w1 first

  unfoldable pub merged_write :
      ℕ → ℕ → ℕ → ℕ → Outcome (Option (ℕ × ℕ) × Trace) → Outcome (Bool × Trace)
  unfolding write_words merge
  merged_write over off size value (ok (some ws, t)) = ok (
      write_words (loop_of (off0_of off) size) (off8_of off)
        (merge over off size (tmpw_of size value) ws) t)
  merged_write over off size value (ok (none, t)) = ok (false, t)
  merged_write over off size value _ = fault

-- mem_write behind its tests; a third word lies outside the array.
unfoldable pub write_agent :
    Responder
    → (ℕ → ℕ → Trace → Option ℕ × Trace)
    → (ℕ → Register)
    → ℕ
    → ℕ
    → ℕ
    → ℕ
    → Trace
    → Outcome (Bool × Trace)
unfolding old_words merged_write
write_agent card mem_read_direct reg over off size value t =
    if ltb 2 (loop_of (off0_of off) size)
    then fault
    else merged_write card reg over off size value (old_words card mem_read_direct over off size t)

-- unm_nic_pci_mem_write_2M: false for -1. The direct accesses are arguments, and so is what a shift
-- by 64 gives.
unfoldable pub mem_write_2m :
    Responder
    → (ℕ → ℕ → Trace → Option ℕ × Trace)
    → (ℕ → ℕ → ℕ → Trace → Bool × Trace)
    → ℕ
    → ℕ
    → ℕ
    → ℕ
    → Trace
    → Outcome (Bool × Trace)
unfolding write_agent
mem_write_2m card mem_read_direct mem_write_direct over off size value t =
    if leb addr_qdr_net off && leb off p3_addr_qdr_net_max
    then write_agent card mem_read_direct qdr_agent over off size value t
    else if mem_bound_check off size
    then write_agent card mem_read_direct ddr_agent over off size value t
    else ok (mem_write_direct off size value t)
