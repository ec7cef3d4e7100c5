-- ===== src/Agent/Tests.antt =====
-- An agent whose words tell their address.
use hp_nx_nic.Prelude.{
  ℕ, zero, suc, ◌+◌, ◌*◌, ◌/◌, ◌%◌, ◌^◌, ◌<◌, ◌≡◌, refl, ap, ◌∙◌, Option, none, some, Bool, true,
  false, [], ◌∷◌, ◌==◌, if◌then◌else◌, arith,
}
use hp_nx_nic.Card.{mapped, pcix_ph, crb, get, put, Trace, Responder}
use hp_nx_nic.Crb.{crb_ddr_net, or_zero}
use hp_nx_nic.Prelude.Kernel.{ok}
use Prim.Native.Nat.{bit_or}
use hp_nx_nic.Agent.Reading.{Since, started, polled, Serves}
use hp_nx_nic.Agent.Contents.{Holds, mem_read_2m-Holds}
use hp_nx_nic.Agent.Merging.{replaced, merge1-below}
use hp_nx_nic.Agent.Write.{tmpw_of, mem_write_2m, merge, merge0, merge1}
use hp_nx_nic.Agent.Writing.{Written, mem_write_2m-Written}
use hp_nx_nic.Agent.RoundTrip.{HoldsData, Stores, mem_read_2m-mem_write_2m}
use hp_nx_nic.Crb.{Adapter}
use hp_nx_nic.Crb.Window.{Settles}
use hp_nx_nic.Agent.Window128.{host_agent, mem_read_128m, Restores, mem_read_128m-Restores}
use hp_nx_nic.Agent.{
  off0_of, off8_of, start_read, start_write, miu_test_agt_ctrl, max_ctl_check, mem_read_2m,
  mem_bound_check, ddr_agent, miu_test_agt_addr_lo, miu_test_agt_rddata,
}

-- The address that the agent was given last.
abbrev requested : Trace → ℕ
requested [] = 0
requested (put (crb n) v ∷ t) = if n == crb_ddr_net + miu_test_agt_addr_lo then v else requested t
requested (_ ∷ t) = requested t

abbrev memory : ℕ → ℕ
memory a = a % 2 ^ 32 * 2 ^ 32 + 0x11223344

abbrev agent : Responder
agent t (crb n) =
    if n == crb_ddr_net + miu_test_agt_rddata 0
    then 0x11223344
    else if n == crb_ddr_net + miu_test_agt_rddata 1
    then requested t
    else 0
agent t _ = 0

requested-Since :
    (t0 : Trace) {addr : ℕ} {u : Trace}
    → Since ddr_agent t0 (some addr) u
    → requested u ≡ addr % 2 ^ 32
unfolding start_read
requested-Since t0 (started addr s) = refl
requested-Since t0 (polled r s) = requested-Since t0 s

agent-Serves : (t0 : Trace) → Serves ddr_agent t0 agent memory
agent-Serves t0 addr zero u h s = omega arith
agent-Serves t0 addr (suc zero) u h s = requested-Since t0 s ∙ omega arith
agent-Serves t0 addr (suc (suc k)) u h s = absurd (omega arith)

memory-lt : (a : ℕ) → memory a < 2 ^ 64
memory-lt a = omega arith

abbrev no_read : ℕ → ℕ → Trace → Option ℕ × Trace
no_read off size t = (none, t)

abbrev no_write : ℕ → ℕ → ℕ → Trace → Bool × Trace
no_write off size value t = (false, t)

across : mem_bound_check 0x1006 4 ≡ true
unfolding mem_bound_check
across = refl

inside : mem_bound_check 0x1002 2 ≡ true
unfolding mem_bound_check
inside = refl

-- Four bytes across the border of two words.
mem_read_2m-Holds_example : Holds agent memory 0x1006 4 (mem_read_2m agent no_read 0 0x1006 4 0 [])
mem_read_2m-Holds_example =
    mem_read_2m-Holds agent no_read memory 0 0x1006 4 0 [] (agent-Serves []) memory-lt across

mem_write_2m-Written_example :
    Written agent
      (off8_of 0x1002)
      (replaced (memory (off8_of 0x1002)) (8 * off0_of 0x1002) (8 * 2) (tmpw_of 2 0xabcd))
      (mem_write_2m agent no_read no_write 0 0x1002 2 0xabcd [])
mem_write_2m-Written_example =
    mem_write_2m-Written agent no_read no_write memory 0 0x1002 2 0xabcd [] (agent-Serves [])
      memory-lt inside (omega arith)

-- A word that the memory holds already, and the accesses of writing it.
abbrev word : ℕ
word = 0x100011223344

abbrev behind_write : Trace
behind_write = get (ddr_agent miu_test_agt_ctrl) ∷ start_write ddr_agent 0x1000 word []

wrote : mem_write_2m agent no_read no_write 0 0x1000 8 word [] ≡ ok (true, behind_write)
unfolding mem_write_2m merge merge0 mem_bound_check max_ctl_check
wrote = refl

behind_write-Stores : Stores behind_write memory
unfolding start_write
behind_write-Stores addr lo hi c a l h = omega (arith, ap or_zero a, ap or_zero l, ap or_zero h)

aligned : mem_bound_check 0x1000 8 ≡ true
unfolding mem_bound_check
aligned = refl

mem_read_2m-mem_write_2m_example :
    HoldsData agent 8 word (mem_read_2m agent no_read 0 0x1000 8 0 behind_write)
mem_read_2m-mem_write_2m_example =
    mem_read_2m-mem_write_2m agent no_read no_write memory memory 0 0x1000 8 word 0 [] behind_write
      (agent-Serves []) memory-lt aligned (omega arith) wrote behind_write-Stores
      (agent-Serves behind_write) memory-lt

-- Eight bytes from the middle of a word: the upper half of the second word is lost.
merge1-below_example :
    (merge1 0 4 4 0x5555555500000000 0x1111111122222222
      ≡ bit_or (0x5555555500000000 % 2 ^ (8 * 4)) (0x1111111122222222 / 2 ^ (8 * 4)))
    × (merge1 0 4 4 0x5555555500000000 0x1111111122222222 < 2 ^ (8 * 4))
merge1-below_example =
    merge1-below 0 4 4 0x5555555500000000 0x1111111122222222 (omega arith) (omega arith)

-- A card with 128 MB, which shows its window at once and whose agent is mapped at `mapped_crb`.
abbrev mapped_crb : ℕ
mapped_crb = 0x200000

abbrev shown : Trace → ℕ
shown [] = 0
shown (put (pcix_ph n) v ∷ t) = v
shown (_ ∷ t) = shown t

abbrev requested_128m : Trace → ℕ
requested_128m [] = 0
requested_128m (put (mapped n w) v ∷ t) =
    if n == mapped_crb + miu_test_agt_addr_lo then v else requested_128m t
requested_128m (_ ∷ t) = requested_128m t

abbrev card_128m : Responder
card_128m t (pcix_ph n) = shown t
card_128m t (mapped n w) =
    if n == mapped_crb + miu_test_agt_rddata 0
    then 0x11223344
    else if n == mapped_crb + miu_test_agt_rddata 1
    then requested_128m t
    else 0
card_128m t _ = 0

requested_128m-Since :
    (t0 : Trace) {addr : ℕ} {u : Trace}
    → Since (host_agent mapped_crb) t0 (some addr) u
    → requested_128m u ≡ addr % 2 ^ 32
unfolding start_read
requested_128m-Since t0 (started addr s) = refl
requested_128m-Since t0 (polled r s) = requested_128m-Since t0 s

card_128m-Serves : (t0 : Trace) → Serves (host_agent mapped_crb) t0 card_128m memory
card_128m-Serves t0 addr zero u h s = omega arith
card_128m-Serves t0 addr (suc zero) u h s = requested_128m-Since t0 s ∙ omega arith
card_128m-Serves t0 addr (suc (suc k)) u h s = absurd (omega arith)

card_128m-Settles : Settles card_128m 1
card_128m-Settles n v t = (0, omega arith, refl)

abbrev adapter : Adapter
adapter = record { crb_win = 0; curr_window = 1; pci_base0 = 0; pci_func = 5; portnum = 1 }

abbrev upper_chosen : Trace
upper_chosen = put (pcix_ph 0x102bc) (2 ^ 25) ∷ []

mem_read_128m-Restores_example :
    Restores
      (host_agent mapped_crb)
      card_128m
      memory
      adapter
      0x1006
      4
      (mem_read_128m card_128m no_read 1 0 mapped_crb adapter 0x1006 4 0 upper_chosen)
mem_read_128m-Restores_example =
    mem_read_128m-Restores card_128m no_read memory 1 0 mapped_crb adapter 0x1006 4 0 upper_chosen
      card_128m-Settles refl (λ u e. card_128m-Serves u) memory-lt across
