-- ===== src/Agent.antt =====
-- Access to the card's memory through the test agent of the memory controller: the functions
-- unm_nic_pci_mem_bound_check, unm_nic_pci_mem_read_2M and unm_nic_pci_mem_write_2M, and their
-- variants for cards with 128 MB, of driver/unm_nic_hw.c.
pub mod Fields
mod Assembly
mod Reading
mod Contents
mod Write
mod Merging
mod Writing
mod RoundTrip
mod Window128
mod Tests
use Prim.Native.Nat.{bit_or, bit_and}
use hp_nx_nic.Prelude.{
  ℕ, zero, suc, ◌+◌, ◌-◌, ◌*◌, ◌/◌, ◌%◌, ◌^◌, Option, none, some, Bool, true, false, ◌∷◌, ◌&&◌,
  ◌||◌, ltb, leb, ◌==◌, if◌then◌else◌,
}
use hp_nx_nic.Prelude.Kernel.{Outcome, ok, fault}
use hp_nx_nic.Card.{Register, crb, get, Trace, Responder, write}
use hp_nx_nic.Crb.{crb_ddr_net, crb_qdr_net, is_width}

abbrev pub addr_ddr_net : ℕ
addr_ddr_net = 0

abbrev pub addr_ddr_net_max : ℕ
addr_ddr_net_max = 0xfffffff

abbrev pub addr_qdr_net : ℕ
addr_qdr_net = 0x300000000

abbrev pub p3_addr_qdr_net_max : ℕ
p3_addr_qdr_net_max = 0x303ffffff

-- ADDR_IN_RANGE
abbrev pub addr_in_range : ℕ → ℕ → ℕ → Bool
addr_in_range addr low high = leb addr high && leb low addr

-- unm_nic_pci_mem_bound_check, where the sum with the size wraps at 64 bits.
unfoldable pub mem_bound_check : ℕ → ℕ → Bool
mem_bound_check addr size =
    addr_in_range addr addr_ddr_net addr_ddr_net_max
    && addr_in_range ((addr + size + (2 ^ 64 - 1)) % 2 ^ 64) addr_ddr_net addr_ddr_net_max
    && is_width size

-- The registers of the agent, and the flags of the control register.
abbrev pub miu_test_agt_ctrl : ℕ
miu_test_agt_ctrl = 0x90

abbrev pub miu_test_agt_addr_lo : ℕ
miu_test_agt_addr_lo = 0x94

abbrev pub miu_test_agt_addr_hi : ℕ
miu_test_agt_addr_hi = 0x98

abbrev pub miu_test_agt_wrdata_lo : ℕ
miu_test_agt_wrdata_lo = 0xa0

abbrev pub miu_test_agt_wrdata_hi : ℕ
miu_test_agt_wrdata_hi = 0xa4

abbrev pub miu_test_agt_rddata : ℕ → ℕ
miu_test_agt_rddata i = 0xa8 + 4 * i

abbrev pub miu_ta_ctl_start : ℕ
miu_ta_ctl_start = 1

abbrev pub miu_ta_ctl_enable : ℕ
miu_ta_ctl_enable = 2

abbrev pub miu_ta_ctl_write : ℕ
miu_ta_ctl_write = 4

abbrev pub miu_ta_ctl_busy : ℕ
miu_ta_ctl_busy = 8

-- MAX_CTL_CHECK
unfoldable pub max_ctl_check : ℕ
max_ctl_check = 1000

-- The place of an access in its words of 8 bytes.
abbrev pub off8_of : ℕ → ℕ
off8_of off = off / 8 % 2 ^ 29 * 8

abbrev pub off0_of : ℕ → ℕ
off0_of off = off % 8

abbrev pub sz0_of : ℕ → ℕ → ℕ
sz0_of off0 size = if ltb size (8 - off0) then size else 8 - off0

abbrev pub sz1_of : ℕ → ℕ → ℕ
sz1_of off0 size = size - sz0_of off0 size

-- The number of words, also for a size of 0, where the code shifts -1.
abbrev pub loop_of : ℕ → ℕ → ℕ
loop_of off0 size = (off0 + size + 7) / 8

-- The registers of the agent are those of the function `reg`.
module _ (card : Responder) (reg : ℕ → Register) where
  -- The loop of reads of the control register, with the checks that are left: whether the agent was
  -- not busy in one of them.
  unfoldable pub await_agent : ℕ → Trace → Bool × Trace
  await_agent zero t = (false, t)
  await_agent (suc n) t =
      let rest = await_agent n (get (reg miu_test_agt_ctrl) ∷ t) in
      if bit_and (card t (reg miu_test_agt_ctrl)) miu_ta_ctl_busy == 0
      then (true, get (reg miu_test_agt_ctrl) ∷ t)
      else rest

  -- The loop over the halves of a word, `n` of them from the one at `k` on.
  unfoldable pub read_halves : ℕ → ℕ → ℕ → Trace → ℕ × Trace
  read_halves k zero word t = (word, t)
  read_halves k (suc n) word t =
      let temp = card t (reg (miu_test_agt_rddata k)) % 2 ^ 32 in
      read_halves (suc k) n (bit_or word (temp * 2 ^ (32 * k)))
        (get (reg (miu_test_agt_rddata k)) ∷ t)

-- The writes that start a read, and those that start a write.
unfoldable pub start_read : (ℕ → Register) → ℕ → Trace → Trace
start_read reg addr t = write (reg miu_test_agt_ctrl) (bit_or miu_ta_ctl_start miu_ta_ctl_enable) (
    write (reg miu_test_agt_ctrl) miu_ta_ctl_enable
      (write (reg miu_test_agt_addr_hi) 0 (write (reg miu_test_agt_addr_lo) (addr % 2 ^ 32) t)))

unfoldable pub start_write : (ℕ → Register) → ℕ → ℕ → Trace → Trace
start_write reg addr word t =
    write (reg miu_test_agt_ctrl)
      (bit_or (bit_or miu_ta_ctl_start miu_ta_ctl_enable) miu_ta_ctl_write)
      (write (reg miu_test_agt_ctrl) (bit_or miu_ta_ctl_enable miu_ta_ctl_write) (
        write (reg miu_test_agt_wrdata_hi) (word / 2 ^ 32 % 2 ^ 32) (
          write (reg miu_test_agt_wrdata_lo) (word % 2 ^ 32) (
            write (reg miu_test_agt_addr_hi) 0
              (write (reg miu_test_agt_addr_lo) (addr % 2 ^ 32) t)))))

-- Two words from two results, of which the first may fail.
and_then : Option ℕ → Option ℕ × Trace → Option (ℕ × ℕ) × Trace
and_then none r = (none, r.1)
and_then (some w0) (none, t) = (none, t)
and_then (some w0) (some w1, t) = (some (w0, w1), t)

module _ (card : Responder) (reg : ℕ → Register) where
  halves_after : ℕ → ℕ → Bool × Trace → Option ℕ × Trace
  unfolding read_halves
  halves_after k n (false, t) = (none, t)
  halves_after k n (true, t) = let r = read_halves card reg k n 0 t in (some r.0, r.1)

  -- One round of the loop of mem_read: the halves of the word at `addr`, `n` of them from `k` on.
  unfoldable pub read_word : ℕ → ℕ → ℕ → Trace → Option ℕ × Trace
  unfolding halves_after await_agent start_read
  read_word addr k n t =
      halves_after k n (await_agent card reg max_ctl_check (start_read reg addr t))

  second_word : ℕ → ℕ → Option ℕ × Trace → Option (ℕ × ℕ) × Trace
  unfolding read_word and_then
  second_word addr n (none, t) = (none, t)
  second_word addr n (some w0, t) = and_then (some w0) (read_word addr 0 n t)

  -- The loop of mem_read, for at most two words.
  unfoldable pub read_words : ℕ → ℕ → Trace → Option (ℕ × ℕ) × Trace
  unfolding second_word and_then
  read_words off size t =
      let off0 = off0_of off in
      let off8 = off8_of off in
      let sz0 = sz0_of off0 size in
      let first = read_word off8 (off0 / 4) ((off0 + sz0 + 3) / 4 - off0 / 4) t in
      if loop_of off0 size == 0
      then (some (0, 0), t)
      else if loop_of off0 size == 1
      then and_then first.0 (some 0, first.1)
      else second_word (off8 + 8) ((sz1_of off0 size + 3) / 4) first

-- ~(~0ULL << (n * 8)); C leaves a shift by 64 undefined, and `over` is what it gives.
abbrev pub ones : ℕ → ℕ → ℕ
ones over n = if n == 8 then over else 2 ^ (8 * n) - 1

-- The value of mem_read, from its words.
unfoldable pub value_from : ℕ → ℕ → ℕ → ℕ → ℕ → ℕ → ℕ
value_from over off0 sz0 sz1 w0 w1 =
    if sz0 == 8
    then w0
    else bit_or (bit_and (w0 / 2 ^ (8 * off0)) (ones over sz0))
        (bit_and w1 (ones over sz1) * 2 ^ (8 * sz0) % 2 ^ 64)

abbrev pub value_of : ℕ → ℕ → ℕ → ℕ × ℕ → ℕ
value_of over off size (w0, w1) =
    value_from over (off0_of off) (sz0_of (off0_of off) size) (sz1_of (off0_of off) size) w0 w1

-- What the buffer holds, which held `old` before.
abbrev pub stored : ℕ → ℕ → ℕ → ℕ
stored size old value = if is_width size then value % 2 ^ (8 * size) else old

unfoldable pub finish_read : ℕ → ℕ → ℕ → ℕ → Option (ℕ × ℕ) × Trace → Option ℕ × Trace
unfolding value_from
finish_read over off size old (none, t) = (none, t)
finish_read over off size old (some ws, t) = (some (stored size old (value_of over off size ws)), t)

-- mem_read behind its tests; a third word lies outside the array.
unfoldable pub read_agent :
    Responder → (ℕ → Register) → ℕ → ℕ → ℕ → ℕ → Trace → Outcome (Option ℕ × Trace)
unfolding finish_read read_words
read_agent card reg over off size old t =
    if ltb 2 (loop_of (off0_of off) size)
    then fault
    else ok (finish_read over off size old (read_words card reg off size t))

-- The registers of the two controllers.
abbrev pub ddr_agent : ℕ → Register
ddr_agent r = crb (crb_ddr_net + r)

abbrev pub qdr_agent : ℕ → Register
qdr_agent r = crb (crb_qdr_net + r)

-- unm_nic_pci_mem_read_2M: the content of the buffer, or none for -1. The direct access of
-- unm_nic_pci_mem_read_direct is an argument.
unfoldable pub mem_read_2m :
    Responder
    → (ℕ → ℕ → Trace → Option ℕ × Trace)
    → ℕ
    → ℕ
    → ℕ
    → ℕ
    → Trace
    → Outcome (Option ℕ × Trace)
unfolding read_agent
mem_read_2m card mem_read_direct over off size old t =
    if leb addr_qdr_net off && leb off p3_addr_qdr_net_max
    then read_agent card qdr_agent over off size old t
    else if mem_bound_check off size
    then read_agent card ddr_agent over off size old t
    else ok (mem_read_direct off size t)
