-- ===== src/Prelude/Bits.antt =====
-- Bounds of the bit operations, from the recursion on digits that they stand for.
use Prim.Native.Nat.{bit_and, bit_and-bitwise, bit_or, bit_or-bitwise, digits, min, max}
use mathlib.Core.Path.{ap₂}
use native.Mathlib.Nat.{pow-succ', one-le-pow, div-div-eq-div-mul, div-add-mod, mul_assoc}
use hp_nx_nic.Prelude.{
  ℕ, zero, suc, ◌+◌, ◌-◌, ◌*◌, ◌/◌, ◌%◌, ◌^◌, ◌≤◌, ◌<◌, ◌≡◌, refl, sym, ap, ◌∙◌, arith,
}

mask_digits-le : (n a b : ℕ) → digits (λ b. zero) min n a b ≤ b
mask_digits-le zero a b = omega arith
mask_digits-le (suc n) zero b = omega arith
mask_digits-le (suc n) (suc a) b = omega (arith, mask_digits-le n (suc a / 2) (b / 2))

-- Masking never exceeds the mask.
pub bit_and-le_mask : (a b : ℕ) → bit_and a b ≤ b
bit_and-le_mask a b = rw (bit_and-bitwise a b) (mask_digits-le a a b)

-- One binary digit of an operation at a time: the recursion runs on a count of digits that is as
-- large as the first number, so that more digits than needed change nothing.
or_digits : ℕ → ℕ → ℕ → ℕ
or_digits n a b = digits (λ b. b) max n a b

or_digits-fuel : (n m a b : ℕ) → a ≤ n → a ≤ m → or_digits n a b ≡ or_digits m a b
unfolding or_digits
or_digits-fuel zero zero a b p q = refl
or_digits-fuel zero (suc m) zero b p q = refl
or_digits-fuel zero (suc m) (suc a) b p q = absurd (omega arith)
or_digits-fuel (suc n) zero zero b p q = refl
or_digits-fuel (suc n) zero (suc a) b p q = absurd (omega arith)
or_digits-fuel (suc n) (suc m) zero b p q = refl
or_digits-fuel (suc n) (suc m) (suc a) b p q =
    let less : or_digits n (suc a / 2) (b / 2) ≡ or_digits m (suc a / 2) (b / 2) =
      or_digits-fuel n m (suc a / 2) (b / 2) (omega arith) (omega arith) in
    ap (λ k. k * 2 + max (suc a % 2) (b % 2)) less

pub zero-bit_or : (b : ℕ) → bit_or 0 b ≡ b
zero-bit_or b = bit_or-bitwise 0 b

pub bit_or-step : (a b : ℕ) → bit_or a b ≡ bit_or (a / 2) (b / 2) * 2 + max (a % 2) (b % 2)
unfolding or_digits
bit_or-step zero b = omega (arith, zero-bit_or b, zero-bit_or (b / 2))
bit_or-step (suc a) b =
    bit_or-bitwise (suc a) b
    ∙ ap (λ k. k * 2 + max (suc a % 2) (b % 2))
        (or_digits-fuel a (suc a / 2) (suc a / 2) (b / 2) (omega arith) (omega arith)
          ∙ sym (bit_or-bitwise (suc a / 2) (b / 2)))

bit_or-zero_fuel : (n a : ℕ) → a ≤ n → bit_or a 0 ≡ a
bit_or-zero_fuel n zero h = zero-bit_or 0
bit_or-zero_fuel zero (suc a) h = absurd (omega arith)
bit_or-zero_fuel (suc n) (suc a) h =
    omega (arith, bit_or-step (suc a) 0, bit_or-zero_fuel n (suc a / 2) (omega arith))

pub bit_or-zero : (a : ℕ) → bit_or a 0 ≡ a
bit_or-zero a = bit_or-zero_fuel a a (omega arith)

half_pow : (a k : ℕ) → a / 2 / 2 ^ k ≡ a / 2 ^ suc k
half_pow a k = rw (pow-succ' 2 k) (div-div-eq-div-mul a 2 (2 ^ k))

mod_pow : (a k : ℕ) → a % 2 ^ suc k ≡ 2 * (a / 2 % 2 ^ k) + a % 2
mod_pow a k =
    let q : a / 2 / 2 ^ k ≡ a / 2 ^ suc k = half_pow a k in
    let p : 2 ^ suc k ≡ 2 * 2 ^ k = pow-succ' 2 k in
    let x : 2 ^ suc k * (a / 2 ^ suc k) + a % 2 ^ suc k ≡ a = div-add-mod a (2 ^ suc k) in
    let y : 2 ^ k * (a / 2 / 2 ^ k) + a / 2 % 2 ^ k ≡ a / 2 = div-add-mod (a / 2) (2 ^ k) in
    let z : 2 ^ suc k * (a / 2 ^ suc k) ≡ 2 * (2 ^ k * (a / 2 / 2 ^ k)) =
      ap₂ ◌*◌ p (sym q) ∙ mul_assoc 2 (2 ^ k) (a / 2 / 2 ^ k) in
    omega (arith, x, y, z)

zero_pow : (h : ℕ) → h * 2 ^ 0 ≡ h
zero_pow h = omega arith

double_pow : (h k : ℕ) → h * 2 ^ suc k ≡ 2 * (h * 2 ^ k)
double_pow h k = rw (pow-succ' 2 k) (grind arith)

-- Bits below the place of the second number stand aside.
pub bit_or-low :
    (k h x low : ℕ) → low < 2 ^ k → bit_or (h * 2 ^ k + low) (x * 2 ^ k) ≡ bit_or h x * 2 ^ k + low
bit_or-low zero h x low s =
    let none : low ≡ 0 = omega arith in
    let same : h + 0 ≡ h = omega arith in
    rw (none, zero_pow h, zero_pow x, zero_pow (bit_or h x))
      (ap (λ n. bit_or n x) same ∙ omega arith)
bit_or-low (suc k) h x low s =
    let a : h * 2 ^ suc k ≡ 2 * (h * 2 ^ k) = double_pow h k in
    let b : x * 2 ^ suc k ≡ 2 * (x * 2 ^ k) = double_pow x k in
    let c : bit_or h x * 2 ^ suc k ≡ 2 * (bit_or h x * 2 ^ k) = double_pow (bit_or h x) k in
    let a2 : (h * 2 ^ suc k + low) / 2 ≡ h * 2 ^ k + low / 2 = omega (arith, a) in
    let b2 : x * 2 ^ suc k / 2 ≡ x * 2 ^ k = omega (arith, b) in
    let half : low / 2 < 2 ^ k = omega (arith, double_pow 1 k) in
    let rest : bit_or ((h * 2 ^ suc k + low) / 2) (x * 2 ^ suc k / 2)
        ≡ bit_or h x * 2 ^ k + low / 2 =
      ap₂ bit_or a2 b2 ∙ bit_or-low k h x (low / 2) half in
    omega (arith, bit_or-step (h * 2 ^ suc k + low) (x * 2 ^ suc k), rest, a, b, c)

-- Bits at and above 2 ^ k, and bits below.
pub bit_or-disjoint : (k h x : ℕ) → x < 2 ^ k → bit_or (h * 2 ^ k) x ≡ h * 2 ^ k + x
bit_or-disjoint zero h x s =
    let none : x ≡ 0 = omega arith in rw (none, zero_pow h) (bit_or-zero h ∙ omega arith)
bit_or-disjoint (suc k) h x s =
    let a : h * 2 ^ suc k ≡ 2 * (h * 2 ^ k) = double_pow h k in
    let a2 : h * 2 ^ suc k / 2 ≡ h * 2 ^ k = omega (arith, a) in
    let half : x / 2 < 2 ^ k = omega (arith, double_pow 1 k) in
    let rest : bit_or (h * 2 ^ suc k / 2) (x / 2) ≡ h * 2 ^ k + x / 2 =
      ap₂ bit_or a2 refl ∙ bit_or-disjoint k h (x / 2) half in
    omega (arith, bit_or-step (h * 2 ^ suc k) x, rest, a)

and_digits : ℕ → ℕ → ℕ → ℕ
and_digits n a b = digits (λ b. zero) min n a b

and_digits-fuel : (n m a b : ℕ) → a ≤ n → a ≤ m → and_digits n a b ≡ and_digits m a b
unfolding and_digits
and_digits-fuel zero zero a b p q = refl
and_digits-fuel zero (suc m) zero b p q = refl
and_digits-fuel zero (suc m) (suc a) b p q = absurd (omega arith)
and_digits-fuel (suc n) zero zero b p q = refl
and_digits-fuel (suc n) zero (suc a) b p q = absurd (omega arith)
and_digits-fuel (suc n) (suc m) zero b p q = refl
and_digits-fuel (suc n) (suc m) (suc a) b p q =
    let less : and_digits n (suc a / 2) (b / 2) ≡ and_digits m (suc a / 2) (b / 2) =
      and_digits-fuel n m (suc a / 2) (b / 2) (omega arith) (omega arith) in
    ap (λ k. k * 2 + min (suc a % 2) (b % 2)) less

pub zero-bit_and : (b : ℕ) → bit_and 0 b ≡ 0
zero-bit_and b = bit_and-bitwise 0 b

pub bit_and-step : (a b : ℕ) → bit_and a b ≡ bit_and (a / 2) (b / 2) * 2 + min (a % 2) (b % 2)
unfolding and_digits
bit_and-step zero b = omega (arith, zero-bit_and b, zero-bit_and (b / 2))
bit_and-step (suc a) b =
    bit_and-bitwise (suc a) b
    ∙ ap (λ k. k * 2 + min (suc a % 2) (b % 2))
        (and_digits-fuel a (suc a / 2) (suc a / 2) (b / 2) (omega arith) (omega arith)
          ∙ sym (bit_and-bitwise (suc a / 2) (b / 2)))

bit_and-zero_fuel : (n a : ℕ) → a ≤ n → bit_and a 0 ≡ 0
bit_and-zero_fuel n zero h = zero-bit_and 0
bit_and-zero_fuel zero (suc a) h = absurd (omega arith)
bit_and-zero_fuel (suc n) (suc a) h =
    omega (arith, bit_and-step (suc a) 0, bit_and-zero_fuel n (suc a / 2) (omega arith))

pub bit_and-zero : (a : ℕ) → bit_and a 0 ≡ 0
bit_and-zero a = bit_and-zero_fuel a a (omega arith)

-- A mask of ones keeps the low bits.
pub bit_and-ones : (k a : ℕ) → bit_and a (2 ^ k - 1) ≡ a % 2 ^ k
bit_and-ones zero a = bit_and-zero a ∙ omega arith
bit_and-ones (suc k) a =
    let p : 2 ^ suc k ≡ 2 * 2 ^ k = omega (arith, double_pow 1 k) in
    let pos : 1 ≤ 2 ^ k = one-le-pow k 2 (omega arith) in
    let m2 : (2 ^ suc k - 1) / 2 ≡ 2 ^ k - 1 = omega (arith, p, pos) in
    let rest : bit_and (a / 2) ((2 ^ suc k - 1) / 2) ≡ a / 2 % 2 ^ k =
      ap (λ m. bit_and (a / 2) m) m2 ∙ bit_and-ones k (a / 2) in
    omega (arith, bit_and-step a (2 ^ suc k - 1), rest, p, pos, mod_pow a k)

-- A mask that is shifted to the left.
pub bit_and-shift : (k a m : ℕ) → bit_and a (m * 2 ^ k) ≡ bit_and (a / 2 ^ k) m * 2 ^ k
bit_and-shift zero a m =
    let same : a / 2 ^ 0 ≡ a = omega arith in
    rw (zero_pow m, zero_pow (bit_and (a / 2 ^ 0) m), same) refl
bit_and-shift (suc k) a m =
    let b : m * 2 ^ suc k ≡ 2 * (m * 2 ^ k) = double_pow m k in
    let b2 : m * 2 ^ suc k / 2 ≡ m * 2 ^ k = omega (arith, b) in
    let q : a / 2 / 2 ^ k ≡ a / 2 ^ suc k = half_pow a k in
    let c : bit_and (a / 2 ^ suc k) m * 2 ^ suc k ≡ 2 * (bit_and (a / 2 ^ suc k) m * 2 ^ k) =
      double_pow (bit_and (a / 2 ^ suc k) m) k in
    let rest : bit_and (a / 2) (m * 2 ^ suc k / 2) ≡ bit_and (a / 2 ^ suc k) m * 2 ^ k =
      ap₂ bit_and refl b2 ∙ bit_and-shift k (a / 2) m ∙ ap (λ n. bit_and n m * 2 ^ k) q in
    omega (arith, bit_and-step a (m * 2 ^ suc k), rest, b, c)

-- Bits below 2 ^ k, and bits at and above.
pub bit_or-above : (k low x : ℕ) → low < 2 ^ k → bit_or low (x * 2 ^ k) ≡ low + x * 2 ^ k
bit_or-above k low x s =
    let same : low ≡ 0 * 2 ^ k + low = omega arith in
    ap (λ n. bit_or n (x * 2 ^ k)) same
    ∙ bit_or-low k 0 x low s
    ∙ ap (λ n. n * 2 ^ k + low) (zero-bit_or x)
    ∙ omega arith

-- A mask in two parts.
pub bit_and-parts :
    (k a h l : ℕ)
    → l < 2 ^ k
    → bit_and a (h * 2 ^ k + l) ≡ bit_and (a / 2 ^ k) h * 2 ^ k + bit_and a l
bit_and-parts zero a h l s =
    let none : l ≡ 0 = omega arith in
    let same : h * 2 ^ 0 + 0 ≡ h = omega arith in
    let whole : a / 2 ^ 0 ≡ a = omega arith in
    rw (none, same, whole) (omega (arith, bit_and-zero a))
bit_and-parts (suc k) a h l s =
    let b : h * 2 ^ suc k ≡ 2 * (h * 2 ^ k) = double_pow h k in
    let b2 : (h * 2 ^ suc k + l) / 2 ≡ h * 2 ^ k + l / 2 = omega (arith, b) in
    let half : l / 2 < 2 ^ k = omega (arith, double_pow 1 k) in
    let up : ℕ = bit_and (a / 2 ^ suc k) h in
    let rest : bit_and (a / 2) ((h * 2 ^ suc k + l) / 2) ≡ up * 2 ^ k + bit_and (a / 2) (l / 2) =
      ap₂ bit_and refl b2
      ∙ bit_and-parts k (a / 2) h (l / 2) half
      ∙ ap (λ n. bit_and n h * 2 ^ k + bit_and (a / 2) (l / 2)) (half_pow a k) in
    omega (arith, bit_and-step a (h * 2 ^ suc k + l), bit_and-step a l, rest, b, double_pow up k)

-- Two numbers of `k` bits.
pub bit_or-lt : (k a b : ℕ) → a < 2 ^ k → b < 2 ^ k → bit_or a b < 2 ^ k
bit_or-lt zero a b p q =
    let first : a ≡ 0 = omega arith in
    let second : b ≡ 0 = omega arith in
    let both : bit_or a b ≡ bit_or 0 0 = ap₂ bit_or first second in
    omega (arith, both, zero-bit_or 0)
bit_or-lt (suc k) a b p q =
    let d : 2 ^ suc k ≡ 2 * 2 ^ k = pow-succ' 2 k in
    omega
      (arith, bit_or-step a b, d, bit_or-lt k (a / 2) (b / 2) (omega (arith, d)) (omega (arith, d)))
