-- ===== src/Agent/Fields.antt =====
-- Fields of a number: `q` bits from place `p` on.
use native.Mathlib.Nat.{
  pow-suc, one-le-pow, div-div-eq-div-mul, div-add-mod', add-mul-div_right, add-mul-mod_self_right,
  mul-div_cancel, mul_assoc, mod-lt, mod-eq_of_lt, div-lt_iff_lt-mul, mul-le-mul_right, mul_comm,
  add-mul,
}
use hp_nx_nic.Prelude.{
  ℕ, zero, suc, ◌+◌, ◌*◌, ◌/◌, ◌%◌, ◌^◌, ◌≤◌, ◌<◌, ◌≡◌, refl, sym, ap, ◌∙◌, arith,
}

abbrev pub field : ℕ → ℕ → ℕ → ℕ
field w p q = w / 2 ^ p % 2 ^ q

pub pow_add : (a b : ℕ) → 2 ^ (a + b) ≡ 2 ^ a * 2 ^ b
pow_add a zero = let same : a + zero ≡ a = omega arith in rw same (omega arith)
pow_add a (suc b) =
    let next : a + suc b ≡ suc (a + b) = omega arith in
    rw (next, pow-suc 2 (a + b), pow-suc 2 b, pow_add a b) (mul_assoc (2 ^ a) (2 ^ b) 2)

pub pow-pos : (k : ℕ) → 0 < 2 ^ k
pow-pos k = omega (arith, one-le-pow k 2 (omega arith))

-- The same for any numbers in place of powers: a part of a quotient, cut off above.
cut_quotient : (w x y z : ℕ) → 0 < x → w % (x * y * z) / x % y ≡ w / x % y
cut_quotient w x y z h =
    let a : ℕ = x * y * z in
    let divided : w / a * a + w % a ≡ w = div-add-mod' w a in
    let split : w ≡ w % a + w / a * z * y * x = grind arith in
    let half : w / x ≡ w % a / x + w / a * z * y =
      ap (λ n. n / x) split ∙ add-mul-div_right (w % a) (w / a * z * y) h in
    sym (ap (λ n. n % y) half ∙ add-mul-mod_self_right (w % a / x) (w / a * z) y)

-- The bits above a field do not matter, and neither do those below.
pub field_low : (w p q r : ℕ) → field (w % 2 ^ (p + q + r)) p q ≡ field w p q
field_low w p q r =
    let whole : 2 ^ (p + q + r) ≡ 2 ^ p * 2 ^ q * 2 ^ r =
      pow_add (p + q) r ∙ ap (λ n. n * 2 ^ r) (pow_add p q) in
    rw whole (cut_quotient w (2 ^ p) (2 ^ q) (2 ^ r) (pow-pos p))

pub field_high : (w a d q : ℕ) → field (w / 2 ^ a * 2 ^ a) (a + d) q ≡ field w (a + d) q
field_high w a d q =
    let shrink : (n : ℕ) → n / 2 ^ (a + d) ≡ n / 2 ^ a / 2 ^ d =
      λ n. rw (pow_add a d) (sym (div-div-eq-div-mul n (2 ^ a) (2 ^ d))) in
    rw (shrink w, shrink (w / 2 ^ a * 2 ^ a), mul-div_cancel (w / 2 ^ a) (pow-pos a)) refl

pub place_lt : (a b k m : ℕ) → a < k → b < m → a + b * k < k * m
place_lt a b k m p q =
    let next : suc b * k ≤ m * k = mul-le-mul_right k q in
    let up : suc b * k ≡ b * k + k = grind arith in omega (arith, next, up, mul_comm m k)

-- A field across the border of two words of `x * k` is what the first word has above, below what
-- the second has below: `x` divides the place away, the first word leaves `k`, the second `m`.
pub quotient_across :
    (w v x k m : ℕ)
    → 0 < x
    → 0 < k
    → 0 < m
    → w < k * x
    → (w + v * (k * x)) / x % (k * m) ≡ w / x + v % m * k
quotient_across w v x k m hx hk hm s =
    let upper : w / x < k = (div-lt_iff_lt-mul hx).1 s in
    let same : w + v * (k * x) ≡ w + v * k * x = ap (λ n. w + n) (sym (mul_assoc v k x)) in
    let half : (w + v * (k * x)) / x ≡ w / x + v * k =
      ap (λ n. n / x) same ∙ add-mul-div_right w (v * k) hx in
    let divided : v / m * m + v % m ≡ v = div-add-mod' v m in
    let e : v * k ≡ (v / m * m + v % m) * k = ap (λ n. n * k) (sym divided) in
    let f : (v / m * m + v % m) * k ≡ v / m * m * k + v % m * k = add-mul (v / m * m) (v % m) k in
    let g : v / m * m * k ≡ v / m * (k * m) =
      mul_assoc (v / m) m k ∙ ap (λ n. v / m * n) (mul_comm m k) in
    let split : w / x + v * k ≡ w / x + v % m * k + v / m * (k * m) = grind arith in
    let lower : v % m < m = mod-lt v hm in
    let low : w / x + v % m * k < k * m = place_lt (w / x) (v % m) k m upper lower in
    ap (λ n. n % (k * m)) (half ∙ split)
    ∙ add-mul-mod_self_right (w / x + v % m * k) (v / m) (k * m)
    ∙ mod-eq_of_lt low
