-- ===== src/Receive/Doorbell.antt =====
-- The statements of nx_post_rx_descriptors behind its loop, in driver/unm_nic_main.c.
use Prim.Native.Nat.{bit_and}
use native.Mathlib.Nat.{mul-suc, add-mul-mod_self_left, mod-eq_of_lt}
use hp_nx_nic.Agent.Fields.{pow_add, pow-pos}
use hp_nx_nic.Prelude.{
  Bool-cases, ℕ, suc, ◌+◌, ◌-◌, ◌*◌, ◌^◌, ◌%◌, ◌≤◌, ◌<◌, ◌≡◌, refl, sym, ap, ◌∙◌, Option, some,
  List, [], ◌∷◌, ◌++◌, arith, ltb, ◌==◌, if◌then◌else◌, length, length-append, if-cases, inl, inr,
}
use mathlib.Core.List.{append-nil}
use hp_nx_nic.Prelude.Bits.{bit_and-ones}
use hp_nx_nic.Prelude.Words.{add32, sub32}
use hp_nx_nic.Receive.Buffers.{FreeBufs, RdsRing, give_back, ring_doorbell}

-- A list whose count is right.
abbrev pub IsCounted : FreeBufs → Type 0
IsCounted f = f.count ≡ length f.head

abbrev pub rung_value : ℕ → RdsRing → Option ℕ
rung_value n r =
    if ltb 0 n
    then some (bit_and (sub32 r.producer 1) (sub32 r.ring_size 1))
    else r.host_rx_producer

-- Writing the producer register changes nothing else.
pub record Rung (n : ℕ) (r r' : RdsRing) : Type 0 where
  pub descs_kept : r'.desc_head ≡ r.desc_head
  pub arr_kept : r'.rx_buf_arr ≡ r.rx_buf_arr
  pub dma_size_kept : r'.dma_size ≡ r.dma_size
  pub size_kept : r'.ring_size ≡ r.ring_size
  pub producer_kept : r'.producer ≡ r.producer
  pub free_kept : r'.free_rxbufs ≡ r.free_rxbufs
  pub rung : r'.host_rx_producer ≡ rung_value n r

pub ring_doorbell-Rung : (n : ℕ) (r : RdsRing) → Rung n r (ring_doorbell n r)
ring_doorbell-Rung n r =
    let value = bit_and (sub32 r.producer 1) (sub32 r.ring_size 1) in
    if-cases (Rung n r) (ltb 0 n)
      (λ e. record {
        descs_kept = refl;
        arr_kept = refl;
        dma_size_kept = refl;
        size_kept = refl;
        producer_kept = refl;
        free_kept = refl;
        rung = sym (ap (λ t. if t then some value else r.host_rx_producer) e);
      })
      (λ e. record {
        descs_kept = refl;
        arr_kept = refl;
        dma_size_kept = refl;
        size_kept = refl;
        producer_kept = refl;
        free_kept = refl;
        rung = sym (ap (λ t. if t then some value else r.host_rx_producer) e);
      })

-- The list of the ring once the buffers that are left are back.
abbrev pub back_of : List ℕ → ℕ → FreeBufs → FreeBufs
back_of [] n f = f
back_of (b ∷ bs) n f = record { count = add32 f.count n; head = f.head ++ b ∷ bs }

pub give_back-back_of :
    (rest : List ℕ) (n : ℕ) (r : RdsRing)
    → give_back rest n r ≡ record r { free_rxbufs = back_of rest n r.free_rxbufs }
give_back-back_of [] n r = refl
give_back-back_of (b ∷ bs) n r = refl

-- The buffers that are left join the ring's list, with their number.
pub back_of-IsCounted :
    (rest : List ℕ) (n : ℕ) (f : FreeBufs)
    → IsCounted f
    → n ≡ length rest
    → length f.head + length rest < 2 ^ 32
    → IsCounted (back_of rest n f) × ((back_of rest n f).head ≡ f.head ++ rest)
back_of-IsCounted [] n f c e small = (c, sym (append-nil f.head))
back_of-IsCounted (b ∷ bs) n f c e small =
    (omega (arith, c, e, small, length-append f.head (b ∷ bs)), refl)

-- The value that is written names the last descriptor.
pub last_index :
    (k p : ℕ)
    → k ≤ 31
    → p < 2 ^ k
    → bit_and (sub32 p 1) (sub32 (2 ^ k) 1) ≡ (if p == 0 then 2 ^ k - 1 else p - 1)
last_index k p hk hp =
    let size = 2 ^ k in
    let many = 2 ^ (32 - k) in
    let all : k + (32 - k) ≡ 32 = omega (arith, hk) in
    let split : 2 ^ 32 ≡ size * many = ap (λ n. 2 ^ n) (sym all) ∙ pow_add k (32 - k) in
    let some_many : many ≡ suc (many - 1) = omega (arith, pow-pos (32 - k)) in
    let product : size * many ≡ size * (many - 1) + size =
      ap (λ n. size * n) some_many ∙ mul-suc size (many - 1) in
    let mask : sub32 size 1 ≡ size - 1 = omega (arith, pow-pos k, split, product) in
    let masked : bit_and (sub32 p 1) (sub32 size 1) ≡ sub32 p 1 % size =
      ap (bit_and (sub32 p 1)) mask ∙ bit_and-ones k (sub32 p 1) in
    masked ∙ elim (Bool-cases (p == 0)) [
      | inl zero_p ↦
          let value : sub32 p 1 ≡ size - 1 + size * (many - 1) = ground (arith, split, product) in
          rw zero_p (
            ap (λ n. n % size) value
            ∙ (add-mul-mod_self_left (size - 1) size (many - 1)
                ∙ mod-eq_of_lt (omega (arith, pow-pos k))))
      | inr some_p ↦
          let value : sub32 p 1 ≡ p - 1 = ground (arith, hp, split, product) in
          rw some_p (ap (λ n. n % size) value ∙ mod-eq_of_lt (omega (arith, hp)))
    ]
