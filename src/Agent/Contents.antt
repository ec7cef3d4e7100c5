-- ===== src/Agent/Contents.antt =====
-- What mem_read_2M reads: the bytes of the memory at the offset.
use hp_nx_nic.Prelude.{
  ℕ, ◌+◌, ◌-◌, ◌*◌, ◌/◌, ◌%◌, ◌^◌, ◌≤◌, ◌<◌, ◌≡◌, sym, ap, ◌∙◌, Option, none, some, true, ◌&&◌, ltb,
  leb, ◌==◌, arith, if-cases,
}
use mathlib.Core.Path.{subst, ap₂}
use hp_nx_nic.Prelude.Kernel.{Outcome, ok}
use native.Mathlib.Nat.{mod-lt, mod-eq_of_lt}
use hp_nx_nic.Card.{Register, Trace, Responder}
use hp_nx_nic.Crb.{is_width}
use hp_nx_nic.Agent.Fields.{field, field_low, pow-pos}
use hp_nx_nic.Agent.Assembly.{part, one_word, two_words}
use hp_nx_nic.Agent.Reading.{now, Serves, Busy, WordRead, read_word-WordRead}
use hp_nx_nic.Agent.{
  off0_of, off8_of, sz0_of, sz1_of, loop_of, value_from, value_of, and_then, second_word, read_word,
  read_words, finish_read, read_agent, mem_read_2m, mem_bound_check, ddr_agent, max_ctl_check,
  addr_qdr_net, p3_addr_qdr_net_max,
}

-- The bytes of the memory from the offset on, as a number with the first byte lowest.
abbrev pub content : (ℕ → ℕ) → ℕ → ℕ → ℕ
content mem off size =
    field (mem (off8_of off) + mem (off8_of off + 8) * 2 ^ 64) (8 * off0_of off) (8 * size)

pub sz0_within : (o size : ℕ) → o + size ≤ 8 → sz0_of o size ≡ size
sz0_within o size h = ground arith

sz0_across : (o size : ℕ) → 8 < o + size → sz0_of o size ≡ 8 - o
sz0_across o size h = ground arith

sz1_within : (o size : ℕ) → o + size ≤ 8 → sz1_of o size ≡ 0
sz1_within o size h = omega (arith, sz0_within o size h)

-- The upper word does not matter to a field of the lower one.
pub field_within :
    (w v o size : ℕ)
    → o + size ≤ 8
    → w < 2 ^ 64
    → field w (8 * o) (8 * size) ≡ field (w + v * 2 ^ 64) (8 * o) (8 * size)
field_within w v o size h s =
    let place : 8 * o + 8 * size + (64 - 8 * o - 8 * size) ≡ 64 = omega (arith, h) in
    let lower : (w + v * 2 ^ 64) % 2 ^ 64 ≡ w = omega (arith, s) in
    ap (λ n. field n (8 * o) (8 * size)) (sym lower)
    ∙ subst
        (λ a.
          field ((w + v * 2 ^ 64) % 2 ^ a) (8 * o) (8 * size)
          ≡ field (w + v * 2 ^ 64) (8 * o) (8 * size))
        place (field_low (w + v * 2 ^ 64) (8 * o) (8 * size) (64 - 8 * o - 8 * size))

module _ (reg : ℕ → Register) (t0 : Trace) (card : Responder) (mem : ℕ → ℕ) (over : ℕ) where
  -- The words of an access that give the content, or an agent that was busy for all the checks.
  abbrev pub Valued : ℕ → ℕ → Option (ℕ × ℕ) → Type 0
  Valued off size none = (u : Trace) × Busy reg card max_ctl_check u
  Valued off size (some ws) = value_of over off size ws ≡ content mem off size

  within-Valued :
      (off size : ℕ)
      → ((a : ℕ) → mem a < 2 ^ 64)
      → off0_of off + size ≤ 8
      → 1 ≤ size
      → (first : Option ℕ × Trace)
      → WordRead reg t0 card mem
          (off8_of off)
          (off0_of off / 4)
          ((off0_of off + size + 3) / 4 - off0_of off / 4)
          first
      → Valued off size (and_then first.0 (some 0, first.1)).0
  unfolding and_then
  within-Valued off size b h g (none, u) w = w
  within-Valued off size b h g (some w0, u) (e, a) =
      let o : ℕ = off0_of off in
      ap₂ (λ m n. value_from over o m n w0 0) (sz0_within o size h) (sz1_within o size h)
      ∙ ap (λ w. value_from over o size 0 w 0) e
      ∙ (one_word over (off0_of off) size (mem (off8_of off)) h g (b (off8_of off))
          ∙ field_within (mem (off8_of off)) (mem (off8_of off + 8)) (off0_of off) size h
              (b (off8_of off)))

  across-Valued :
      (off size : ℕ) (w0 : ℕ)
      → ((a : ℕ) → mem a < 2 ^ 64)
      → 8 < off0_of off + size
      → size ≤ 8
      → w0
        ≡ part
            (mem (off8_of off))
            (off0_of off / 4)
            ((off0_of off + sz0_of (off0_of off) size + 3) / 4 - off0_of off / 4)
      → (second : Option ℕ × Trace)
      → WordRead reg t0 card mem (off8_of off + 8) 0 ((sz1_of (off0_of off) size + 3) / 4) second
      → Valued off size (and_then (some w0) second).0
  unfolding and_then
  across-Valued off size w0 b h g e (none, u) w = w
  across-Valued off size w0 b h g e (some w1, u) (f, a) =
      let o : ℕ = off0_of off in
      let s0 : sz0_of o size ≡ 8 - o = sz0_across o size h in
      let total : sz0_of o size + sz1_of o size ≡ size = omega (arith, s0, h) in
      ap₂ (λ v w. value_from over o (sz0_of o size) (sz1_of o size) v w) e f
      ∙ (two_words over o (sz0_of o size) (sz1_of o size) (mem (off8_of off))
            (mem (off8_of off + 8)) (omega (arith, s0)) (omega (arith, s0)) (omega (arith, g, h))
            (omega (arith, s0, h)) (omega (arith, total, g)) (b (off8_of off))
          ∙ ap (λ n. field (mem (off8_of off) + mem (off8_of off + 8) * 2 ^ 64) (8 * o) (8 * n))
              total)

  second_word-Valued :
      (off size : ℕ)
      → Serves reg t0 card mem
      → ((a : ℕ) → mem a < 2 ^ 64)
      → 8 < off0_of off + size
      → size ≤ 8
      → (first : Option ℕ × Trace)
      → WordRead reg t0 card mem
          (off8_of off)
          (off0_of off / 4)
          ((off0_of off + sz0_of (off0_of off) size + 3) / 4 - off0_of off / 4)
          first
      → Valued off size
          (second_word card reg (off8_of off + 8) ((sz1_of (off0_of off) size + 3) / 4) first).0
  unfolding second_word
  second_word-Valued off size s b h g (none, t) w = w
  second_word-Valued off size s b h g (some w0, t) (e, a) =
      let n : ℕ = (sz1_of (off0_of off) size + 3) / 4 in
      let s0 : sz0_of (off0_of off) size ≡ 8 - off0_of off = sz0_across (off0_of off) size h in
      across-Valued off size w0 b h g e (read_word card reg (off8_of off + 8) 0 n t) (
        read_word-WordRead reg t0 card mem (off8_of off + 8) 0 n t s (b (off8_of off + 8))
          (omega (arith, s0, g)) (omega (arith, s0, h)) a)

  pub read_words-Valued :
      (off size : ℕ)
      → Serves reg t0 card mem
      → ((a : ℕ) → mem a < 2 ^ 64)
      → 1 ≤ size
      → size ≤ 8
      → Valued off size (read_words card reg off size t0).0
  unfolding read_words
  read_words-Valued off size s b g l =
      let o : ℕ = off0_of off in
      let sz0 : ℕ = sz0_of o size in
      let n : ℕ = (o + sz0 + 3) / 4 - o / 4 in
      let fits : (1 ≤ sz0) × (o + sz0 ≤ 8) = (ground arith, ground arith) in
      let first : WordRead reg t0 card mem (off8_of off) (o / 4) n
          (read_word card reg (off8_of off) (o / 4) n t0) =
        read_word-WordRead reg t0 card mem (off8_of off) (o / 4) n t0 s (b (off8_of off))
          (omega (arith, fits)) (omega (arith, fits)) now in
      if-cases (λ (r : Option (ℕ × ℕ) × Trace). Valued off size r.0) (loop_of o size == 0)
        (λ e. absurd (ground arith))
        (λ e.
          if-cases (λ (r : Option (ℕ × ℕ) × Trace). Valued off size r.0) (loop_of o size == 1)
            (λ f.
              let h : o + size ≤ 8 = ground arith in
              within-Valued off size b h g (read_word card reg (off8_of off) (o / 4) n t0) (
                subst
                  (λ m.
                    WordRead reg t0 card mem (off8_of off) (o / 4) ((o + m + 3) / 4 - o / 4)
                      (read_word card reg (off8_of off) (o / 4) n t0))
                  (sz0_within o size h) first))
            (λ f.
              second_word-Valued off size s b (ground arith) l
                (read_word card reg (off8_of off) (o / 4) n t0) first))

-- The buffer after a read: the bytes of the memory, or -1 after an agent that was busy for all the
-- checks.
abbrev pub HoldsAt : (ℕ → Register) → Responder → (ℕ → ℕ) → ℕ → ℕ → Option ℕ → Type 0
HoldsAt reg card mem off size none = (u : Trace) × Busy reg card max_ctl_check u
HoldsAt reg card mem off size (some v) = v ≡ content mem off size

abbrev pub Holds : Responder → (ℕ → ℕ) → ℕ → ℕ → Outcome (Option ℕ × Trace) → Type 0
Holds card mem off size (ok (v, t)) = HoldsAt ddr_agent card mem off size v
Holds card mem off size _ = ⊥

pub finish_read-HoldsAt :
    (reg : ℕ → Register) (t0 : Trace) (card : Responder) (mem : ℕ → ℕ) (over off size old : ℕ)
    → is_width size ≡ true
    → (r : Option (ℕ × ℕ) × Trace) → Valued reg t0 card mem over off size r.0
    → HoldsAt reg card mem off size (finish_read over off size old r).0
unfolding finish_read
finish_read-HoldsAt reg t0 card mem over off size old w (none, t) h = h
finish_read-HoldsAt reg t0 card mem over off size old w (some ws, t) h =
    if-cases (λ v. v ≡ content mem off size) (is_width size)
      (λ e.
        ap (λ v. v % 2 ^ (8 * size)) h
        ∙ mod-eq_of_lt (
            mod-lt ((mem (off8_of off) + mem (off8_of off + 8) * 2 ^ 64) / 2 ^ (8 * off0_of off))
              (pow-pos (8 * size))))
      (λ e. absurd (ground arith))

pub mem_bound_check-Bounds :
    (off size : ℕ)
    → mem_bound_check off size ≡ true
    → (off ≤ 0xfffffff) × (1 ≤ size) × (size ≤ 8) × (is_width size ≡ true)
unfolding mem_bound_check
mem_bound_check-Bounds off size h = (ground arith, ground arith, ground arith, ground arith)

pub mem_bound_check-word : (off : ℕ) → off ≤ 0xfffffff → mem_bound_check (off8_of off) 8 ≡ true
unfolding mem_bound_check
mem_bound_check-word off h = ground arith

-- A read of memory that mem_bound_check allows: for an agent that shows the words it is asked for,
-- the buffer then has the bytes of the memory from the offset on, whether they lie in one word of
-- 8 bytes or across a border. The read fails only after an agent that was busy in all the 1000 reads
-- of its control register in a row.
pub mem_read_2m-Holds :
    (card : Responder) (mem_read_direct : ℕ → ℕ → Trace → Option ℕ × Trace) (mem : ℕ → ℕ)
    (over off size old : ℕ) (t : Trace)
    → Serves ddr_agent t card mem
    → ((a : ℕ) → mem a < 2 ^ 64)
    → mem_bound_check off size ≡ true
    → Holds card mem off size (mem_read_2m card mem_read_direct over off size old t)
unfolding mem_read_2m read_agent
mem_read_2m-Holds card mem_read_direct mem over off size old t s b h =
    let (low, g, l, w) = mem_bound_check-Bounds off size h in
    if-cases (Holds card mem off size) (leb addr_qdr_net off && leb off p3_addr_qdr_net_max)
      (λ e. absurd (ground arith))
      (λ e.
        if-cases (Holds card mem off size) (mem_bound_check off size)
          (λ f.
            if-cases (Holds card mem off size) (ltb 2 (loop_of (off0_of off) size))
              (λ m. absurd (ground arith))
              (λ m.
                finish_read-HoldsAt ddr_agent t card mem over off size old w
                  (read_words card ddr_agent off size t)
                  (read_words-Valued ddr_agent t card mem over off size s b g l)))
          (λ f. absurd (ground arith)))
