-- ===== src/Lro/Key.antt =====
-- The key of a flow: `ip_addr_t` of include/nx_types.h, `nx_host_key_t` of driver/nx_hash_table.h,
-- nx_cmp_ip_key of driver/nx_hash_table.c and lro_ipv4_hash of driver/unm_nic_lro.c.
use Prim.Native.Nat.{bit_and, bit_or, bit_xor}
use hp_nx_nic.Prelude.{ℕ, ◌-◌, ◌*◌, ◌/◌, ◌%◌, ◌^◌, ltb, ◌==◌, if◌then◌else◌}
use hp_nx_nic.Prelude.Int.{ℤ, pos, negsuc, sub_ℕ, is_zero}
use hp_nx_nic.Prelude.Words.{sub32}
use hp_nx_nic.HashTable.{Ops}

-- `ip_addr_t`: a union, of which v4 is the first word.
pub record IpAddr : Type 0 where
  pub v6_0 : ℕ
  pub v6_1 : ℕ
  pub v6_2 : ℕ
  pub v6_3 : ℕ

abbrev pub v4 : IpAddr → ℕ
v4 a = a.v6_0

-- `nx_host_key_t`
pub record HostKey : Type 0 where
  pub ip_version : ℕ
  pub daddr : IpAddr
  pub saddr : IpAddr
  pub sport : ℕ
  pub dport : ℕ

-- What a field of 8, 16 or 32 bits holds.
abbrev pub w8 : ℕ → ℕ
w8 a = a % 2 ^ 8

abbrev pub w16 : ℕ → ℕ
w16 a = a % 2 ^ 16

abbrev pub w32 : ℕ → ℕ
w32 a = a % 2 ^ 32

-- The `int` with the bits of a word.
unfoldable pub to_int : ℕ → ℤ
to_int a = if ltb a (2 ^ 31) then pos a else negsuc (2 ^ 32 - a - 1)

-- The `int` that a difference of two words ends as.
unfoldable pub diff32 : ℕ → ℕ → ℤ
unfolding to_int
diff32 a b = to_int (sub32 (w32 a) (w32 b))

abbrev pub diff16 : ℕ → ℕ → ℤ
diff16 a b = sub_ℕ (w16 a) (w16 b)

-- The next comparison, if the last one found no difference.
abbrev pub then_cmp : ℤ → ℤ → ℤ
then_cmp rv next = if is_zero rv then next else rv

abbrev pub cmp_ports : HostKey → HostKey → ℤ
cmp_ports key1 key2 = then_cmp (diff16 key1.sport key2.sport) (diff16 key1.dport key2.dport)

-- One round of the loop over the four words of IPv6 addresses.
abbrev pub cmp_words : ℕ → ℕ → ℕ → ℕ → ℤ → ℤ
cmp_words d1 d2 s1 s2 next = then_cmp (diff32 d1 d2) (then_cmp (diff32 s1 s2) next)

unfoldable pub cmp_v6 : HostKey → HostKey → ℤ
unfolding diff32
cmp_v6 key1 key2 = cmp_words key1.daddr.v6_0 key2.daddr.v6_0 key1.saddr.v6_0 key2.saddr.v6_0 (
    cmp_words key1.daddr.v6_1 key2.daddr.v6_1 key1.saddr.v6_1 key2.saddr.v6_1 (
      cmp_words key1.daddr.v6_2 key2.daddr.v6_2 key1.saddr.v6_2 key2.saddr.v6_2 (
        cmp_words key1.daddr.v6_3 key2.daddr.v6_3 key1.saddr.v6_3 key2.saddr.v6_3
          (cmp_ports key1 key2))))

unfoldable pub cmp_v4 : HostKey → HostKey → ℤ
unfolding diff32
cmp_v4 key1 key2 =
    if w32 (v4 key1.daddr) == w32 (v4 key2.daddr)
    then cmp_ports key1 key2
    else diff32 (v4 key1.daddr) (v4 key2.daddr)

-- nx_cmp_ip_key
unfoldable pub cmp_ip_key : HostKey → HostKey → ℤ
unfolding cmp_v4 cmp_v6
cmp_ip_key key1 key2 =
    then_cmp (sub_ℕ (w8 key1.ip_version) (w8 key2.ip_version))
      (if w8 key1.ip_version == 4 then cmp_v4 key1 key2 else cmp_v6 key1 key2)

abbrev pub num_lro_entries : ℕ
num_lro_entries = 32

-- lro_ipv4_hash
unfoldable pub lro_ipv4_hash : HostKey → ℕ
lro_ipv4_hash key =
    let daddr : ℕ = w32 (v4 key.daddr) in
    let swapped : ℕ =
      bit_or (bit_and daddr 0xF0F0F0F0 / 16) (bit_and daddr 0x0F0F0F0F * 16 % 2 ^ 32) in
    let hash1 : ℕ = bit_xor swapped (w16 key.dport * 2 ^ 16) in
    let hash2 : ℕ = bit_xor hash1 (w32 (v4 key.saddr)) in
    let hash3 : ℕ = bit_xor hash2 (w16 key.sport) in
    let hash4 : ℕ = bit_xor hash3 (hash3 / 2 ^ 16) in
    bit_and (bit_xor hash4 (hash4 / 2 ^ 8)) (num_lro_entries - 1)

-- `lro_hash_ops`, less the callback.
abbrev pub lro_hash_ops : Ops HostKey
lro_hash_ops = record { hash = lro_ipv4_hash; compare_keys = cmp_ip_key }
