-- ===== src/Agent/Writing.antt =====
-- What mem_write_2M writes: an access within one word changes its own bytes and no other.
use Prim.Native.Nat.{bit_or, bit_and}
use hp_nx_nic.Prelude.{
  ℕ, zero, suc, ◌+◌, ◌*◌, ◌%◌, ◌^◌, ◌≤◌, ◌<◌, ◌≡◌, refl, sym, ap, ◌∙◌, Option, none, some, Bool,
  true, false, ◌∷◌, ◌&&◌, ltb, leb, ◌==◌, arith, if-cases,
}
use hp_nx_nic.Prelude.Kernel.{Outcome, ok, bug, relinked, fault}
use mathlib.Core.Path.{subst, ap₂}
use native.Mathlib.Nat.{mod-lt}
use hp_nx_nic.Prelude.Bits.{zero-bit_and, zero-bit_or}
use hp_nx_nic.Card.{get, Trace, Responder}
use hp_nx_nic.Card.Semaphore.{reads, reads-suc}
use hp_nx_nic.Crb.{is_width}
use hp_nx_nic.Agent.Fields.{field, pow-pos}
use hp_nx_nic.Agent.Reading.{Serves, Busy, Busy-suc}
use hp_nx_nic.Agent.Contents.{
  content, sz0_within, Holds, mem_read_2m-Holds, mem_bound_check-Bounds, mem_bound_check-word,
}
use hp_nx_nic.Agent.Merging.{replaced, merge0-replaced}
use hp_nx_nic.Agent.Write.{
  tmpw_of, merge0, merge, first_only, old_words, write_words, merged_write, write_agent,
  mem_write_2m,
}
use hp_nx_nic.Agent.{
  off0_of, off8_of, sz0_of, loop_of, mem_read_2m, mem_bound_check, ddr_agent, max_ctl_check,
  start_write, await_agent, miu_test_agt_ctrl, miu_ta_ctl_busy, addr_qdr_net, p3_addr_qdr_net_max,
}

module _ (card : Responder) where
  -- The wait for the agent reads its control register and nothing else.
  abbrev Ended : ℕ → Trace → Bool × Trace → Type 0
  Ended n t (true, u) = (k : ℕ) × (u ≡ reads (ddr_agent miu_test_agt_ctrl) k t)
  Ended n t (false, u) = Busy ddr_agent card n t

  await_agent-Ended : (n : ℕ) (t : Trace) → Ended n t (await_agent card ddr_agent n t)
  unfolding await_agent
  await_agent-Ended zero t = λ i h. absurd (omega arith)
  await_agent-Ended (suc n) t =
      if-cases (Ended (suc n) t)
        (bit_and (card t (ddr_agent miu_test_agt_ctrl)) miu_ta_ctl_busy == 0) (λ e. (1, refl))
        (λ e.
          longer (await_agent card ddr_agent n (get (ddr_agent miu_test_agt_ctrl) ∷ t)) e
            (await_agent-Ended n (get (ddr_agent miu_test_agt_ctrl) ∷ t)))
    where
      longer :
          (r : Bool × Trace)
          → (bit_and (card t (ddr_agent miu_test_agt_ctrl)) miu_ta_ctl_busy == 0) ≡ false
          → Ended n (get (ddr_agent miu_test_agt_ctrl) ∷ t) r
          → Ended (suc n) t r
      longer (true, u) e (k, same) = (suc k, same ∙ reads-suc (ddr_agent miu_test_agt_ctrl) k t)
      longer (false, u) e h = Busy-suc ddr_agent card n t e h

  -- The end of a write that gave the agent the word `w` for the address `addr` last, or of one for
  -- which the agent was busy in all the checks.
  abbrev pub Written : ℕ → ℕ → Outcome (Bool × Trace) → Type 0
  Written addr w (ok (true, u)) =
      (t : Trace) × (k : ℕ) × (u
        ≡ reads (ddr_agent miu_test_agt_ctrl) k (start_write ddr_agent addr w t))
  Written addr w (ok (false, u)) = (t : Trace) × Busy ddr_agent card max_ctl_check t
  Written addr w _ = ⊥

  Ended-Written :
      (addr w : ℕ) (t : Trace) (r : Bool × Trace)
      → Ended max_ctl_check (start_write ddr_agent addr w t) r
      → Written addr w (ok r)
  Ended-Written addr w t (true, u) (k, e) = (t, k, e)
  Ended-Written addr w t (false, u) h = (start_write ddr_agent addr w t, h)

pub tmpw_of-lt : (size value : ℕ) → is_width size ≡ true → tmpw_of size value < 2 ^ (8 * size)
tmpw_of-lt size value w =
    if-cases (λ v. v < 2 ^ (8 * size)) (size == 1) (λ e. below 1 (ground arith))
      (λ e.
        if-cases (λ v. v < 2 ^ (8 * size)) (size == 2) (λ f. below 2 (ground arith))
          (λ f.
            if-cases (λ v. v < 2 ^ (8 * size)) (size == 4) (λ g. below 4 (ground arith))
              (λ g. below 8 (ground arith))))
  where
    below : (n : ℕ) → size ≡ n → value % 2 ^ (8 * n) < 2 ^ (8 * size)
    below n e =
        subst (λ m. value % 2 ^ (8 * n) < 2 ^ (8 * m)) (sym e) (mod-lt value (pow-pos (8 * n)))

whole_word :
    (over w d : ℕ) → w < 2 ^ 64 → d < 2 ^ 64 → merge0 over 0 8 0 d ≡ replaced w (8 * 0) (8 * 8) d
unfolding merge0
whole_word over w d b e =
    ap₂ bit_or (zero-bit_and _) refl ∙ zero-bit_or (d * 2 ^ (8 * 0) % 2 ^ 64) ∙ omega (arith, b, e)

-- A word that starts at its offset is read as it is.
content-word :
    (mem : ℕ → ℕ) (a : ℕ) → mem a < 2 ^ 64 → off8_of a ≡ a → off0_of a ≡ 0 → content mem a 8 ≡ mem a
content-word mem a b e f =
    ap₂ (λ x y. field (mem x + mem (x + 8) * 2 ^ 64) (8 * y) (8 * 8)) e f ∙ omega (arith, b)

module _ (card : Responder) (mem : ℕ → ℕ) (over off size value : ℕ) where
  -- The word at the offset, with the data in its place.
  abbrev pub new_word : ℕ
  new_word = replaced (mem (off8_of off)) (8 * off0_of off) (8 * size) (tmpw_of size value)

  abbrev Old : Outcome (Option (ℕ × ℕ) × Trace) → Type 0
  Old (ok (some ws, t)) =
      merge0 over (off0_of off) (sz0_of (off0_of off) size) ws.0 (tmpw_of size value) ≡ new_word
  Old (ok (none, t)) = (u : Trace) × Busy ddr_agent card max_ctl_check u
  Old _ = ⊥

  Old-whole :
      (t : Trace)
      → mem (off8_of off) < 2 ^ 64
      → is_width size ≡ true
      → size ≡ 8
      → off0_of off ≡ 0
      → Old (ok (some (0, 0), t))
  Old-whole t b w e f =
      let d : ℕ = tmpw_of size value in
      let power : 2 ^ (8 * size) ≡ 2 ^ (8 * 8) = ap (λ n. 2 ^ (8 * n)) e in
      let part : sz0_of (off0_of off) size ≡ 8 = ground arith in
      ap₂ (λ x y. merge0 over x y 0 d) f part
      ∙ whole_word over (mem (off8_of off)) d b (omega (arith, power, tmpw_of-lt size value w))
      ∙ sym (ap₂ (λ x y. replaced (mem (off8_of off)) (8 * x) (8 * y) d) f e)

  Old-read :
      (t : Trace)
      → ((a : ℕ) → mem a < 2 ^ 64)
      → off ≤ 0xfffffff
      → off0_of off + size ≤ 8
      → size < 8
      → is_width size ≡ true
      → (r : Outcome (Option ℕ × Trace)) → Holds card mem (off8_of off) 8 r
      → Old (first_only r)
  unfolding first_only
  Old-read t b p h l w (ok (none, u)) e = e
  Old-read t b p h l w (ok (some v, u)) e =
      let a : ℕ = off8_of off in
      let same : v ≡ mem a = e ∙ content-word mem a (b a) (omega arith) (omega arith) in
      ap₂ (λ x y. merge0 over (off0_of off) x y (tmpw_of size value))
        (sz0_within (off0_of off) size h) same
      ∙ merge0-replaced over (off0_of off) size (mem a) (tmpw_of size value) l h (b a)
          (tmpw_of-lt size value w)
  Old-read t b p h l w bug e = e
  Old-read t b p h l w relinked e = e
  Old-read t b p h l w fault e = e

  old_words-Old :
      (mem_read_direct : ℕ → ℕ → Trace → Option ℕ × Trace) (t : Trace)
      → Serves ddr_agent t card mem
      → ((a : ℕ) → mem a < 2 ^ 64)
      → mem_bound_check off size ≡ true
      → off0_of off + size ≤ 8
      → Old (old_words card mem_read_direct over off size t)
  unfolding old_words
  old_words-Old mem_read_direct t s b h within =
      let (low, g, l, w) = mem_bound_check-Bounds off size h in
      let word : mem_bound_check (off8_of off) 8 ≡ true = mem_bound_check-word off low in
      if-cases Old (size == 8 && off0_of off == 0)
        (λ e. Old-whole t (b (off8_of off)) w (ground arith) (ground arith))
        (λ e.
          if-cases Old (loop_of (off0_of off) size == 0) (λ f. absurd (ground arith))
            (λ f.
              if-cases Old (loop_of (off0_of off) size == 1)
                (λ k.
                  Old-read t b low within (ground arith) w
                    (mem_read_2m card mem_read_direct over (off8_of off) 8 0 t)
                    (mem_read_2m-Holds card mem_read_direct mem over (off8_of off) 8 0 t s b word))
                (λ k. absurd (ground arith))))

  merged_write-Written :
      off0_of off + size ≤ 8
      → 1 ≤ size
      → (r : Outcome (Option (ℕ × ℕ) × Trace)) → Old r
      → Written card (off8_of off) new_word (merged_write card ddr_agent over off size value r)
  unfolding merged_write write_words merge
  merged_write-Written h g (ok (none, t)) e = e
  merged_write-Written h g (ok (some (w0, w1), t)) e =
      let once : loop_of (off0_of off) size ≡ 1 = omega arith in
      if-cases (λ (r : Bool × Trace). Written card (off8_of off) new_word (ok r))
        (loop_of (off0_of off) size == 0) (λ f. absurd (ground arith))
        (λ f.
          if-cases (λ (r : Bool × Trace). Written card (off8_of off) new_word (ok r))
            (loop_of (off0_of off) size == 1)
            (λ k.
              subst
                (λ w. Written card (off8_of off) new_word (
                  ok (
                    await_agent card ddr_agent max_ctl_check
                      (start_write ddr_agent (off8_of off) w t))))
                (sym e)
                (Ended-Written card (off8_of off) new_word t
                  (await_agent card ddr_agent max_ctl_check
                    (start_write ddr_agent (off8_of off) new_word t))
                  (await_agent-Ended card max_ctl_check
                    (start_write ddr_agent (off8_of off) new_word t))))
            (λ k. absurd (ground arith)))
  merged_write-Written h g bug e = e
  merged_write-Written h g relinked e = e
  merged_write-Written h g fault e = e

-- A write within one word of 8 bytes to memory that mem_bound_check allows, for an agent that shows
-- the words it is asked for: either the agent was busy in all the 1000 reads of its control register
-- in a row, and the write fails, or the last request to the agent was to write the word at the
-- offset as it was, with the data in place of the bytes of the access and no other.
pub mem_write_2m-Written :
    (card : Responder) (mem_read_direct : ℕ → ℕ → Trace → Option ℕ × Trace)
    (mem_write_direct : ℕ → ℕ → ℕ → Trace → Bool × Trace) (mem : ℕ → ℕ) (over off size value : ℕ)
    (t : Trace)
    → Serves ddr_agent t card mem
    → ((a : ℕ) → mem a < 2 ^ 64)
    → mem_bound_check off size ≡ true
    → off0_of off + size ≤ 8
    → Written card
        (off8_of off)
        (replaced (mem (off8_of off)) (8 * off0_of off) (8 * size) (tmpw_of size value))
        (mem_write_2m card mem_read_direct mem_write_direct over off size value t)
unfolding mem_write_2m write_agent
mem_write_2m-Written card mem_read_direct mem_write_direct mem over off size value t s b h within =
    let (low, g, l, w) = mem_bound_check-Bounds off size h in
    let word : ℕ = replaced (mem (off8_of off)) (8 * off0_of off) (8 * size) (tmpw_of size value) in
    if-cases (Written card (off8_of off) word) (leb addr_qdr_net off && leb off p3_addr_qdr_net_max)
      (λ e. absurd (ground arith))
      (λ e.
        if-cases (Written card (off8_of off) word) (mem_bound_check off size)
          (λ f.
            if-cases (Written card (off8_of off) word) (ltb 2 (loop_of (off0_of off) size))
              (λ m. absurd (ground arith))
              (λ m.
                merged_write-Written card mem over off size value within g
                  (old_words card mem_read_direct over off size t)
                  (old_words-Old card mem over off size value mem_read_direct t s b h within)))
          (λ f. absurd (ground arith)))
