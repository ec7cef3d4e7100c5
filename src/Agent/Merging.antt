-- ===== src/Agent/Merging.antt =====
-- What mem_write_2M merges into a word.
use Prim.Native.Nat.{bit_or, bit_and}
use mathlib.Core.Path.{ap₂}
use native.Mathlib.Nat.{
  div-lt_iff_lt-mul, mod-lt, mod-eq_of_lt, mul_assoc, mul_comm, suc-mul, pow-le-pow_right,
}
use hp_nx_nic.Prelude.{
  ℕ, zero, suc, ◌+◌, ◌-◌, ◌*◌, ◌/◌, ◌%◌, ◌^◌, ◌≤◌, ◌<◌, ◌≡◌, sym, ap, ◌∙◌, ◌==◌, arith, if-cases,
}
use hp_nx_nic.Prelude.Bits.{bit_or-lt, bit_or-low, bit_or-disjoint, bit_and-ones, bit_and-parts}
use hp_nx_nic.Agent.{ones}
use hp_nx_nic.Agent.Write.{merge0, merge1, not64}
use hp_nx_nic.Agent.Fields.{pow_add, pow-pos, place_lt}

-- A word with `v` in the field of `q` bits from place `p` on.
abbrev pub replaced : ℕ → ℕ → ℕ → ℕ → ℕ
replaced w p q v = (w / 2 ^ (p + q) * 2 ^ q + v) * 2 ^ p + w % 2 ^ p

pred_mul : (n m : ℕ) → 0 < n → (n - 1) * m + m ≡ n * m
pred_mul zero m h = absurd (omega arith)
pred_mul (suc n) m h =
    let same : suc n - 1 ≡ n = omega arith in ap (λ k. k * m + m) same ∙ sym (suc-mul n m)

-- What is not masked away: the bits above the field and below.
mask-outside :
    (w p q : ℕ)
    → p + q ≤ 64
    → w < 2 ^ 64
    → bit_and w (not64 ((2 ^ q - 1) * 2 ^ p)) ≡ w / 2 ^ (p + q) * 2 ^ (p + q) + w % 2 ^ p
mask-outside w p q h s =
    let r : ℕ = 64 - (p + q) in
    let total : r + (p + q) ≡ 64 = omega (arith, h) in
    let border : 2 ^ r * 2 ^ (p + q) ≡ 2 ^ 64 = sym (pow_add r (p + q)) ∙ ap (λ n. 2 ^ n) total in
    let inner : 2 ^ (p + q) ≡ 2 ^ p * 2 ^ q = pow_add p q in
    let e : (2 ^ q - 1) * 2 ^ p + 2 ^ p ≡ 2 ^ q * 2 ^ p = pred_mul (2 ^ q) (2 ^ p) (pow-pos q) in
    let f : (2 ^ r - 1) * 2 ^ (p + q) + 2 ^ (p + q) ≡ 2 ^ r * 2 ^ (p + q) =
      pred_mul (2 ^ r) (2 ^ (p + q)) (pow-pos r) in
    let swap : 2 ^ q * 2 ^ p ≡ 2 ^ p * 2 ^ q = mul_comm (2 ^ q) (2 ^ p) in
    let mask : not64 ((2 ^ q - 1) * 2 ^ p) ≡ (2 ^ r - 1) * 2 ^ (p + q) + (2 ^ p - 1) =
      omega (arith, e, f, swap, inner, border, pow-pos p) in
    let below : 2 ^ p - 1 < 2 ^ (p + q) = omega (arith, e, swap, inner, pow-pos p) in
    let upper : w / 2 ^ (p + q) < 2 ^ r =
      (div-lt_iff_lt-mul (pow-pos (p + q))).1 (omega (arith, border, s)) in
    ap (bit_and w) mask
    ∙ bit_and-parts (p + q) w (2 ^ r - 1) (2 ^ p - 1) below
    ∙ ap₂ (λ x y. x * 2 ^ (p + q) + y) (bit_and-ones r (w / 2 ^ (p + q)) ∙ mod-eq_of_lt upper)
        (bit_and-ones p w)

-- The data among what is left of the word.
or_field :
    (w p q v : ℕ)
    → v < 2 ^ q
    → bit_or (w / 2 ^ (p + q) * 2 ^ (p + q) + w % 2 ^ p) (v * 2 ^ p) ≡ replaced w p q v
or_field w p q v h =
    let high : ℕ = w / 2 ^ (p + q) in
    let move : high * 2 ^ (p + q) ≡ high * 2 ^ q * 2 ^ p =
      ap (λ n. high * n) (pow_add p q ∙ mul_comm (2 ^ p) (2 ^ q))
      ∙ sym (mul_assoc high (2 ^ q) (2 ^ p)) in
    ap (λ n. bit_or (n + w % 2 ^ p) (v * 2 ^ p)) move
    ∙ bit_or-low p (high * 2 ^ q) v (w % 2 ^ p) (mod-lt w (pow-pos p))
    ∙ ap (λ n. n * 2 ^ p + w % 2 ^ p) (bit_or-disjoint q high v h)

shift-lt : (v p q : ℕ) → p + q ≤ 64 → v < 2 ^ q → v * 2 ^ p < 2 ^ 64
shift-lt v p q h s =
    let inside : 0 + v * 2 ^ p < 2 ^ p * 2 ^ q = place_lt 0 v (2 ^ p) (2 ^ q) (pow-pos p) s in
    let bound : 2 ^ (p + q) ≤ 2 ^ 64 = pow-le-pow_right (omega arith) h in
    omega (arith, inside, bound, pow_add p q)

pub merge0-replaced :
    (over o s w v : ℕ)
    → s < 8
    → o + s ≤ 8
    → w < 2 ^ 64
    → v < 2 ^ (8 * s)
    → merge0 over o s w v ≡ replaced w (8 * o) (8 * s) v
unfolding merge0
merge0-replaced over o s w v l h b d =
    let places : 8 * o + 8 * s ≤ 64 = omega (arith, h) in
    let below : 2 ^ (8 * s) - 1 < 2 ^ (8 * s) = omega (arith, pow-pos (8 * s)) in
    let mask : ones over s * 2 ^ (8 * o) % 2 ^ 64 ≡ (2 ^ (8 * s) - 1) * 2 ^ (8 * o) =
      if-cases (λ m. m * 2 ^ (8 * o) % 2 ^ 64 ≡ (2 ^ (8 * s) - 1) * 2 ^ (8 * o)) (s == 8)
        (λ e. absurd (ground arith))
        (λ e. mod-eq_of_lt (shift-lt (2 ^ (8 * s) - 1) (8 * o) (8 * s) places below)) in
    ap₂ (λ m n. bit_or (bit_and w (not64 m)) n) mask
      (mod-eq_of_lt (shift-lt v (8 * o) (8 * s) places d))
    ∙ ap (λ n. bit_or n (v * 2 ^ (8 * o))) (mask-outside w (8 * o) (8 * s) places b)
    ∙ or_field w (8 * o) (8 * s) v d

-- The second word of a write across a border: of the old word it has the bytes under the data, joined
-- bit by bit with the data, and none of the bytes above, whatever they were.
pub merge1-below :
    (over s0 s1 w v : ℕ)
    → s1 < 8
    → v < 2 ^ (8 * s0 + 8 * s1)
    → (merge1 over s0 s1 w v ≡ bit_or (w % 2 ^ (8 * s1)) (v / 2 ^ (8 * s0)))
      × (merge1 over s0 s1 w v < 2 ^ (8 * s1))
unfolding merge1
merge1-below over s0 s1 w v l b =
    let mask : bit_and w (ones over s1) ≡ w % 2 ^ (8 * s1) =
      if-cases (λ m. bit_and w m ≡ w % 2 ^ (8 * s1)) (s1 == 8) (λ e. absurd (ground arith))
        (λ e. bit_and-ones (8 * s1) w) in
    let swap : 2 ^ (8 * s0 + 8 * s1) ≡ 2 ^ (8 * s1) * 2 ^ (8 * s0) =
      pow_add (8 * s0) (8 * s1) ∙ mul_comm (2 ^ (8 * s0)) (2 ^ (8 * s1)) in
    let high : v / 2 ^ (8 * s0) < 2 ^ (8 * s1) =
      (div-lt_iff_lt-mul (pow-pos (8 * s0))).1 (omega (arith, b, swap)) in
    let same : merge1 over s0 s1 w v ≡ bit_or (w % 2 ^ (8 * s1)) (v / 2 ^ (8 * s0)) =
      ap (λ n. bit_or n (v / 2 ^ (8 * s0))) mask in
    (
      same,
      rw same (
          bit_or-lt (8 * s1) (w % 2 ^ (8 * s1)) (v / 2 ^ (8 * s0)) (mod-lt w (pow-pos (8 * s1)))
            high),
    )
