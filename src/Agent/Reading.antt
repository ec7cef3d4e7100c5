-- ===== src/Agent/Reading.antt =====
-- That mem_read_2M gives the content of the memory, for an agent that shows the word it was asked for.
use Prim.Native.Nat.{bit_or, bit_and}
use mathlib.Core.Path.{subst}
use hp_nx_nic.Prelude.{
  ℕ, zero, suc, ◌+◌, ◌*◌, ◌/◌, ◌%◌, ◌^◌, ◌≤◌, ◌<◌, ◌≡◌, ◌≢◌, ap, ◌∙◌, Option, none, some, Bool,
  true, false, ◌∷◌, ◌==◌, arith, if-cases,
}
use hp_nx_nic.Prelude.Bits.{bit_or-above, zero-bit_or}
use hp_nx_nic.Card.{Register, get, Trace, Responder}
use hp_nx_nic.Card.Semaphore.{reads, reads-suc}
use hp_nx_nic.Agent.Assembly.{part}
use hp_nx_nic.Agent.{
  await_agent, read_halves, read_word, halves_after, start_read, max_ctl_check, miu_test_agt_ctrl,
  miu_test_agt_rddata, miu_ta_ctl_busy,
}

module _ (reg : ℕ → Register) (t0 : Trace) where
  -- The traces since `t0` with nothing but reads and requests for words, and the word that was
  -- requested last.
  pub data Since : Option ℕ → Trace → Type 0 where
    now : Since none t0
    started :
        {o : Option ℕ} {t : Trace} (addr : ℕ)
        → Since o t
        → Since (some addr) (start_read reg addr t)
    polled : {o : Option ℕ} {u : Trace} (r : Register) → Since o u → Since o (get r ∷ u)

  -- What the code relies on: as long as it only reads, the agent shows the halves of the word that
  -- it was asked for.
  abbrev pub Serves : Responder → (ℕ → ℕ) → Type 0
  Serves card mem =
      (addr k : ℕ) (u : Trace)
      → k < 2
      → Since (some addr) u
      → card u (reg (miu_test_agt_rddata k)) ≡ mem addr / 2 ^ (32 * k) % 2 ^ 32

module _ (reg : ℕ → Register) where
  -- The agent is busy in `n` reads of its control register in a row.
  abbrev pub Busy : Responder → ℕ → Trace → Type 0
  Busy card n t =
      (i : ℕ)
      → i < n
      → bit_and (card (reads (reg miu_test_agt_ctrl) i t) (reg miu_test_agt_ctrl)) miu_ta_ctl_busy
        ≢ 0

  pub Busy-suc :
      (card : Responder) (n : ℕ) (t : Trace)
      → (bit_and (card t (reg miu_test_agt_ctrl)) miu_ta_ctl_busy == 0) ≡ false
      → Busy card n (get (reg miu_test_agt_ctrl) ∷ t)
      → Busy card (suc n) t
  Busy-suc card n t e h zero s = ground arith
  Busy-suc card n t e h (suc i) s =
      subst (λ u. bit_and (card u (reg miu_test_agt_ctrl)) miu_ta_ctl_busy ≢ 0)
        (reads-suc (reg miu_test_agt_ctrl) i t) (h i (omega arith))

module _ (reg : ℕ → Register) (t0 : Trace) where
  -- A wait that ended after some reads, or for which the agent was busy throughout.
  abbrev Waited : Responder → ℕ → ℕ → Trace → Bool × Trace → Type 0
  Waited card addr n t (true, u) = Since reg t0 (some addr) u
  Waited card addr n t (false, u) = Busy reg card n t

  await_agent-Waited :
      (card : Responder) (addr n : ℕ) (t : Trace)
      → Since reg t0 (some addr) t
      → Waited card addr n t (await_agent card reg n t)
  unfolding await_agent
  await_agent-Waited card addr zero t a = λ i h. absurd (omega arith)
  await_agent-Waited card addr (suc n) t a =
      if-cases (Waited card addr (suc n) t)
        (bit_and (card t (reg miu_test_agt_ctrl)) miu_ta_ctl_busy == 0)
        (λ e. polled (reg miu_test_agt_ctrl) a)
        (λ e. longer (await_agent card reg n (get (reg miu_test_agt_ctrl) ∷ t)) e (
          await_agent-Waited card addr n (get (reg miu_test_agt_ctrl) ∷ t)
            (polled (reg miu_test_agt_ctrl) a)))
    where
      longer :
          (r : Bool × Trace)
          → (bit_and (card t (reg miu_test_agt_ctrl)) miu_ta_ctl_busy == 0) ≡ false
          → Waited card addr n (get (reg miu_test_agt_ctrl) ∷ t) r
          → Waited card addr (suc n) t r
      longer (true, u) e h = h
      longer (false, u) e h = Busy-suc reg card n t e h

  -- What a read of halves from the place after a wait gives.
  read_halves-part :
      (card : Responder) (mem : ℕ → ℕ) (addr k n : ℕ) (u : Trace)
      → Serves reg t0 card mem
      → mem addr < 2 ^ 64
      → k + n ≤ 2
      → 1 ≤ n
      → Since reg t0 (some addr) u
      → (read_halves card reg k n 0 u).0 ≡ part (mem addr) k n
  unfolding read_halves
  read_halves-part card mem addr zero zero u s m h g a = absurd (omega arith)
  read_halves-part card mem addr zero (suc zero) u s m h g a =
      let low : card u (reg (miu_test_agt_rddata 0)) ≡ mem addr / 2 ^ (32 * 0) % 2 ^ 32 =
        s addr 0 u (omega arith) a in
      zero-bit_or (card u (reg (miu_test_agt_rddata 0)) % 2 ^ 32 * 2 ^ (32 * 0))
      ∙ omega (arith, low)
  read_halves-part card mem addr zero (suc (suc zero)) u s m h g a =
      let v : Trace = get (reg (miu_test_agt_rddata 0)) ∷ u in
      let low : card u (reg (miu_test_agt_rddata 0)) ≡ mem addr / 2 ^ (32 * 0) % 2 ^ 32 =
        s addr 0 u (omega arith) a in
      let high : card v (reg (miu_test_agt_rddata 1)) ≡ mem addr / 2 ^ (32 * 1) % 2 ^ 32 =
        s addr 1 v (omega arith) (polled (reg (miu_test_agt_rddata 0)) a) in
      let x : ℕ = card u (reg (miu_test_agt_rddata 0)) % 2 ^ 32 in
      let y : ℕ = card v (reg (miu_test_agt_rddata 1)) % 2 ^ 32 in
      let first : bit_or 0 (x * 2 ^ (32 * 0)) ≡ x = zero-bit_or (x * 2 ^ (32 * 0)) ∙ omega arith in
      ap (λ w. bit_or w (y * 2 ^ 32)) first
      ∙ bit_or-above 32 x y (omega arith)
      ∙ omega (arith, low, high, m)
  read_halves-part card mem addr zero (suc (suc (suc n))) u s m h g a = absurd (omega arith)
  read_halves-part card mem addr (suc zero) zero u s m h g a = absurd (omega arith)
  read_halves-part card mem addr (suc zero) (suc zero) u s m h g a =
      let high : card u (reg (miu_test_agt_rddata 1)) ≡ mem addr / 2 ^ (32 * 1) % 2 ^ 32 =
        s addr 1 u (omega arith) a in
      zero-bit_or (card u (reg (miu_test_agt_rddata 1)) % 2 ^ 32 * 2 ^ (32 * 1))
      ∙ omega (arith, high, m)
  read_halves-part card mem addr (suc zero) (suc (suc n)) u s m h g a = absurd (omega arith)
  read_halves-part card mem addr (suc (suc k)) n u s m h g a = absurd (omega arith)

  read_halves-Since :
      (card : Responder) (k n w : ℕ) {o : Option ℕ} {u : Trace}
      → Since reg t0 o u
      → Since reg t0 o (read_halves card reg k n w u).1
  unfolding read_halves
  read_halves-Since card k zero w a = a
  read_halves-Since card k (suc n) w a =
      read_halves-Since card (suc k) n _ (polled (reg (miu_test_agt_rddata k)) a)

  -- One word: its halves, or an agent that is busy for all the checks.
  abbrev pub WordRead : Responder → (ℕ → ℕ) → ℕ → ℕ → ℕ → Option ℕ × Trace → Type 0
  WordRead card mem addr k n (none, u) = (v : Trace) × Busy reg card max_ctl_check v
  WordRead card mem addr k n (some w, u) = (w ≡ part (mem addr) k n) × Since reg t0 (some addr) u

  halves_after-WordRead :
      (card : Responder) (mem : ℕ → ℕ) (addr k n : ℕ) (t : Trace)
      → Serves reg t0 card mem
      → mem addr < 2 ^ 64
      → k + n ≤ 2
      → 1 ≤ n
      → (r : Bool × Trace) → Waited card addr max_ctl_check t r
      → WordRead card mem addr k n (halves_after card reg k n r)
  unfolding halves_after
  halves_after-WordRead card mem addr k n t s b h g (true, u) a =
      (read_halves-part card mem addr k n u s b h g a, read_halves-Since card k n 0 a)
  halves_after-WordRead card mem addr k n t s b h g (false, u) w = (t, w)

  pub read_word-WordRead :
      (card : Responder) (mem : ℕ → ℕ) (addr k n : ℕ) {o : Option ℕ} (t : Trace)
      → Serves reg t0 card mem
      → mem addr < 2 ^ 64
      → k + n ≤ 2
      → 1 ≤ n
      → Since reg t0 o t
      → WordRead card mem addr k n (read_word card reg addr k n t)
  unfolding read_word
  read_word-WordRead card mem addr k n t s b h g a =
      halves_after-WordRead card mem addr k n (start_read reg addr t) s b h g
        (await_agent card reg max_ctl_check (start_read reg addr t))
        (await_agent-Waited card addr max_ctl_check (start_read reg addr t) (started addr a))
