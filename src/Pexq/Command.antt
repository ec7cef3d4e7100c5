-- ===== src/Pexq/Command.antt =====
-- The command word of a doorbell.
use Prim.Native.Nat.{bit_or}
use hp_nx_nic.Prelude.{ℕ, ◌+◌, ◌*◌, ◌/◌, ◌%◌, ◌^◌, ◌<◌, ◌≡◌, ap, ◌∙◌, arith}
use hp_nx_nic.Prelude.Bits.{bit_or-above}
use hp_nx_nic.Pexq.{Dbell, post_cmd}

-- Fields that do not overlap are added.
post_cmd_sum :
    (d : Dbell)
    → post_cmd d
      ≡ d.paddr % 2 ^ 40 + d.num_msgs % 2 ^ 8 * 2 ^ 40 + 2 * 2 ^ 48 + 2 ^ 51 + 2 ^ 52 + 2 ^ 53
unfolding post_cmd
post_cmd_sum d =
    let a : ℕ = d.paddr % 2 ^ 40 in
    let b : ℕ = a + d.num_msgs % 2 ^ 8 * 2 ^ 40 in
    let s1 : bit_or a (d.num_msgs % 2 ^ 8 * 2 ^ 40) ≡ b =
      bit_or-above 40 a (d.num_msgs % 2 ^ 8) (omega arith) in
    let s2 : bit_or b (2 * 2 ^ 48) ≡ b + 2 * 2 ^ 48 = bit_or-above 48 b 2 (omega arith) in
    let s3 : bit_or (b + 2 * 2 ^ 48) (1 * 2 ^ 51) ≡ b + 2 * 2 ^ 48 + 1 * 2 ^ 51 =
      bit_or-above 51 (b + 2 * 2 ^ 48) 1 (omega arith) in
    let s4 : bit_or (b + 2 * 2 ^ 48 + 2 ^ 51) (1 * 2 ^ 52) ≡ b + 2 * 2 ^ 48 + 2 ^ 51 + 1 * 2 ^ 52 =
      bit_or-above 52 (b + 2 * 2 ^ 48 + 2 ^ 51) 1 (omega arith) in
    let s5 : bit_or (b + 2 * 2 ^ 48 + 2 ^ 51 + 2 ^ 52) (1 * 2 ^ 53)
        ≡ b + 2 * 2 ^ 48 + 2 ^ 51 + 2 ^ 52 + 1 * 2 ^ 53 =
      bit_or-above 53 (b + 2 * 2 ^ 48 + 2 ^ 51 + 2 ^ 52) 1 (omega arith) in
    ap (λ n. bit_or (bit_or (bit_or (bit_or n (2 * 2 ^ 48)) (2 ^ 51)) (2 ^ 52)) (2 ^ 53)) s1
    ∙ ap (λ n. bit_or (bit_or (bit_or n (2 ^ 51)) (2 ^ 52)) (2 ^ 53)) s2
    ∙ ap (λ n. bit_or (bit_or n (2 ^ 52)) (2 ^ 53)) s3
    ∙ ap (λ n. bit_or n (2 ^ 53)) s4
    ∙ s5

-- The command of a doorbell for fewer than 256 messages tells the card the low 40 bits of their
-- address and their number, and has the same flags above for each doorbell.
pub post_cmd-fields :
    (d : Dbell)
    → d.num_msgs < 256
    → (post_cmd d % 2 ^ 40 ≡ d.paddr % 2 ^ 40)
      × (post_cmd d / 2 ^ 40 % 2 ^ 8 ≡ d.num_msgs)
      × (post_cmd d / 2 ^ 48 ≡ 0x3a)
post_cmd-fields d h =
    (omega (arith, post_cmd_sum d), omega (arith, post_cmd_sum d, h), omega (arith, post_cmd_sum d))
