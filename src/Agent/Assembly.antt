-- ===== src/Agent/Assembly.antt =====
-- What the halves of a word and two words give: the value of mem_read as a field.
use Prim.Native.Nat.{bit_or, bit_and}
use native.Mathlib.Nat.{div-lt_iff_lt-mul, mod-lt, mod-eq_of_lt, pow-le-pow_right}
use hp_nx_nic.Prelude.{
  ℕ, ◌+◌, ◌-◌, ◌*◌, ◌/◌, ◌%◌, ◌^◌, ◌≤◌, ◌<◌, ◌≡◌, refl, sym, ap, ◌∙◌, ◌==◌, if◌then◌else◌, arith,
  if-cases, ℕ_discrete,
}
use mathlib.Core.Path.{subst, ap₂}
use hp_nx_nic.Prelude.Bits.{bit_or-above, bit_and-ones}
use hp_nx_nic.Agent.{value_from, ones}
use hp_nx_nic.Agent.Fields.{
  field, pow_add, pow-pos, field_low, field_high, quotient_across, place_lt,
}

-- The part of a word that `n` halves from the one at `k` on hold.
abbrev pub part : ℕ → ℕ → ℕ → ℕ
part w k n = if n == 2 then w else if k == 0 then w % 2 ^ 32 else w / 2 ^ 32 * 2 ^ 32

part-field :
    (w o s : ℕ)
    → o + s ≤ 8
    → 1 ≤ s
    → field (part w (o / 4) ((o + s + 3) / 4 - o / 4)) (8 * o) (8 * s) ≡ field w (8 * o) (8 * s)
part-field w o s h g =
    if-cases (λ v. field v (8 * o) (8 * s) ≡ field w (8 * o) (8 * s)) ((o + s + 3) / 4 - o / 4 == 2)
      (λ e. refl)
      (λ e.
        if-cases (λ v. field v (8 * o) (8 * s) ≡ field w (8 * o) (8 * s)) (o / 4 == 0)
          (λ f.
            let place : 8 * o + 8 * s + (32 - 8 * o - 8 * s) ≡ 32 = ground arith in
            subst (λ a. field (w % 2 ^ a) (8 * o) (8 * s) ≡ field w (8 * o) (8 * s)) place
              (field_low w (8 * o) (8 * s) (32 - 8 * o - 8 * s)))
          (λ f.
            let place : 32 + (8 * o - 32) ≡ 8 * o = ground arith in
            subst (λ p. field (w / 2 ^ 32 * 2 ^ 32) p (8 * s) ≡ field w p (8 * s)) place
              (field_high w 32 (8 * o - 32) (8 * s))))

-- Below 8 bytes, the value is the field of the first word below what the second word has.
value_from-fields :
    (over o s0 s1 w0 w1 : ℕ)
    → s0 < 8
    → s0 + s1 ≤ 8
    → 1 ≤ s0
    → value_from over o s0 s1 w0 w1 ≡ field w0 (8 * o) (8 * s0) + w1 % 2 ^ (8 * s1) * 2 ^ (8 * s0)
unfolding value_from
value_from-fields over o s0 s1 w0 w1 l h g =
    if-cases (λ v. v ≡ field w0 (8 * o) (8 * s0) + w1 % 2 ^ (8 * s1) * 2 ^ (8 * s0)) (s0 == 8)
      (λ e. absurd (ground arith)) (λ e. ap₂ bit_or low high ∙ joined)
  where
    ones-lt : (s x : ℕ) → s < 8 → bit_and x (ones over s) ≡ x % 2 ^ (8 * s)
    ones-lt s x p =
        if-cases (λ m. bit_and x m ≡ x % 2 ^ (8 * s)) (s == 8) (λ e. absurd (ground arith))
          (λ e. bit_and-ones (8 * s) x)

    low : bit_and (w0 / 2 ^ (8 * o)) (ones over s0) ≡ field w0 (8 * o) (8 * s0)
    low = ones-lt s0 (w0 / 2 ^ (8 * o)) l

    rest : ℕ
    rest = w1 % 2 ^ (8 * s1)

    fits : rest * 2 ^ (8 * s0) < 2 ^ 64
    fits =
        let inside : 0 + rest * 2 ^ (8 * s0) < 2 ^ (8 * s0) * 2 ^ (8 * s1) =
          place_lt 0 rest (2 ^ (8 * s0)) (2 ^ (8 * s1)) (pow-pos (8 * s0))
            (mod-lt w1 (pow-pos (8 * s1))) in
        let places : 8 * s0 + 8 * s1 ≤ 64 = omega (arith, h) in
        let bound : 2 ^ (8 * s0 + 8 * s1) ≤ 2 ^ 64 = pow-le-pow_right (omega arith) places in
        omega (arith, inside, bound, pow_add (8 * s0) (8 * s1))

    high : bit_and w1 (ones over s1) * 2 ^ (8 * s0) % 2 ^ 64 ≡ rest * 2 ^ (8 * s0)
    high =
        ap (λ m. m * 2 ^ (8 * s0) % 2 ^ 64) (ones-lt s1 w1 (omega (arith, l, h, g)))
        ∙ mod-eq_of_lt fits

    joined :
        bit_or (field w0 (8 * o) (8 * s0)) (rest * 2 ^ (8 * s0))
        ≡ field w0 (8 * o) (8 * s0) + rest * 2 ^ (8 * s0)
    joined =
        bit_or-above (8 * s0) (field w0 (8 * o) (8 * s0)) rest
          (mod-lt (w0 / 2 ^ (8 * o)) (pow-pos (8 * s0)))

whole_word :
    (over w : ℕ)
    → w < 2 ^ 64
    → value_from over 0 8 0 (part w (0 / 4) ((0 + 8 + 3) / 4 - 0 / 4)) 0 ≡ field w (8 * 0) (8 * 8)
unfolding value_from
whole_word over w s = omega (arith, s)

low_part : (w s1 : ℕ) → s1 ≤ 7 → part w 0 ((s1 + 3) / 4) % 2 ^ (8 * s1) ≡ w % 2 ^ (8 * s1)
low_part w s1 h =
    if-cases (λ v. v % 2 ^ (8 * s1) ≡ w % 2 ^ (8 * s1)) ((s1 + 3) / 4 == 2) (λ e. refl)
      (λ e.
        let place : 0 + 8 * s1 + (32 - 8 * s1) ≡ 32 = ground arith in
        let one : (n : ℕ) → n / 2 ^ 0 ≡ n = λ n. omega arith in
        subst (λ a. w % 2 ^ a % 2 ^ (8 * s1) ≡ w % 2 ^ (8 * s1)) place
          (ap (λ n. n % 2 ^ (8 * s1)) (sym (one (w % 2 ^ (0 + 8 * s1 + (32 - 8 * s1)))))
            ∙ field_low w 0 (8 * s1) (32 - 8 * s1)
            ∙ ap (λ n. n % 2 ^ (8 * s1)) (one w)))

-- The field across the border, from its two parts.
border_field :
    (o s0 s1 v w : ℕ)
    → o + s0 ≡ 8
    → v < 2 ^ 64
    → field v (8 * o) (8 * s0) + w % 2 ^ (8 * s1) * 2 ^ (8 * s0)
      ≡ field (v + w * 2 ^ 64) (8 * o) (8 * (s0 + s1))
border_field o s0 s1 v w e s =
    let places : 8 * s0 + 8 * o ≡ 64 = omega (arith, e) in
    let border : 2 ^ (8 * s0) * 2 ^ (8 * o) ≡ 2 ^ 64 =
      sym (pow_add (8 * s0) (8 * o)) ∙ ap (λ n. 2 ^ n) places in
    let size : 2 ^ (8 * s0) * 2 ^ (8 * s1) ≡ 2 ^ (8 * (s0 + s1)) =
      sym (pow_add (8 * s0) (8 * s1)) ∙ ap (λ n. 2 ^ n) (omega arith) in
    let inside : v < 2 ^ (8 * s0) * 2 ^ (8 * o) = omega (arith, border, s) in
    let upper : field v (8 * o) (8 * s0) ≡ v / 2 ^ (8 * o) =
      mod-eq_of_lt ((div-lt_iff_lt-mul (pow-pos (8 * o))).1 inside) in
    ap (λ n. n + w % 2 ^ (8 * s1) * 2 ^ (8 * s0)) upper
    ∙ sym (
        quotient_across v w (2 ^ (8 * o)) (2 ^ (8 * s0)) (2 ^ (8 * s1)) (pow-pos (8 * o))
          (pow-pos (8 * s0)) (pow-pos (8 * s1)) inside)
    ∙ ap₂ (λ x y. (v + w * x) / 2 ^ (8 * o) % y) border size

-- An access within one word, of which the needed halves are there.
pub one_word :
    (over o size w : ℕ)
    → o + size ≤ 8
    → 1 ≤ size
    → w < 2 ^ 64
    → value_from over o size 0 (part w (o / 4) ((o + size + 3) / 4 - o / 4)) 0
      ≡ field w (8 * o) (8 * size)
one_word over o size w h g s = elim (ℕ_discrete size 8) [
  | yes e ↦ let first : o ≡ 0 = omega (arith, h, e) in rw (e, first) (whole_word over w s)
  | no n ↦
      value_from-fields over o size 0 (part w (o / 4) ((o + size + 3) / 4 - o / 4)) 0
        (omega (arith, h, n)) (omega (arith, h)) g
      ∙ omega (arith, part-field w o size h g)
]

-- An access across the border of two words.
pub two_words :
    (over o s0 s1 v w : ℕ)
    → o + s0 ≡ 8
    → 1 ≤ s0
    → 1 ≤ o
    → 1 ≤ s1
    → s0 + s1 ≤ 8
    → v < 2 ^ 64
    → value_from over o s0 s1 (part v (o / 4) ((o + s0 + 3) / 4 - o / 4)) (part w 0 ((s1 + 3) / 4))
      ≡ field (v + w * 2 ^ 64) (8 * o) (8 * (s0 + s1))
two_words over o s0 s1 v w e p0 po p1 h s =
    value_from-fields over o s0 s1 (part v (o / 4) ((o + s0 + 3) / 4 - o / 4))
      (part w 0 ((s1 + 3) / 4)) (omega arith) h p0
    ∙ ap₂ (λ x y. x + y * 2 ^ (8 * s0)) (part-field v o s0 (omega arith) p0)
        (low_part w s1 (omega arith))
    ∙ border_field o s0 s1 v w e s
