-- ===== src/Lro/Compare.antt =====
-- Which keys nx_cmp_ip_key takes for the same.
use hp_nx_nic.Prelude.{
  ℕ, ◌^◌, ◌<◌, ◌≡◌, refl, sym, ◌∙◌, ◌↔◌, List, [], ◌∷◌, true, false, ◌==◌, if◌then◌else◌, arith,
  Bool-cases, inl, inr, ◌⊎◌,
}
use hp_nx_nic.Prelude.Int.{ℤ, sub_ℕ, is_zero}
use hp_nx_nic.Prelude.Words.{sub32}
use hp_nx_nic.HashTable.Chain.{same, IsLawful}
use hp_nx_nic.Lro.Key.{
  HostKey, v4, w8, w16, w32, to_int, diff32, diff16, then_cmp, cmp_ports, cmp_words, cmp_v4, cmp_v6,
  cmp_ip_key, lro_hash_ops,
}

-- The words that nx_cmp_ip_key compares: of an IPv4 key the source address is not one.
abbrev pub compared : HostKey → List ℕ
compared k =
    if w8 k.ip_version == 4
    then w8 k.ip_version ∷ w32 (v4 k.daddr) ∷ w16 k.sport ∷ w16 k.dport ∷ []
    else w8 k.ip_version
      ∷ w32 k.daddr.v6_0
      ∷ w32 k.daddr.v6_1
      ∷ w32 k.daddr.v6_2
      ∷ w32 k.daddr.v6_3
      ∷ w32 k.saddr.v6_0
      ∷ w32 k.saddr.v6_1
      ∷ w32 k.saddr.v6_2
      ∷ w32 k.saddr.v6_3
      ∷ w16 k.sport
      ∷ w16 k.dport
      ∷ []

words-zero : (a b : ℕ) → a < 2 ^ 32 → b < 2 ^ 32 → (is_zero (to_int (sub32 a b)) ≡ true) ↔ (a ≡ b)
unfolding to_int
words-zero a b ha hb = ground arith

diff32-zero : (a b : ℕ) → (is_zero (diff32 a b) ≡ true) ↔ (w32 a ≡ w32 b)
unfolding diff32
diff32-zero a b = words-zero (w32 a) (w32 b) (omega arith) (omega arith)

sub-zero : (a b : ℕ) → (is_zero (sub_ℕ a b) ≡ true) ↔ (a ≡ b)
sub-zero a b = ground arith

then_cmp-zero :
    (rv next : ℤ)
    → (is_zero (then_cmp rv next) ≡ true) ↔ ((is_zero rv ≡ true) × (is_zero next ≡ true))
then_cmp-zero rv next = both (Bool-cases (is_zero rv))
  where
    both :
        (is_zero rv ≡ true) ⊎ (is_zero rv ≡ false)
        → (is_zero (then_cmp rv next) ≡ true) ↔ ((is_zero rv ≡ true) × (is_zero next ≡ true))
    both (inl e) = rw e (ground arith)
    both (inr e) = rw e (ground arith)

cmp_ports-zero :
    (a b : HostKey)
    → (is_zero (cmp_ports a b) ≡ true) ↔ ((w16 a.sport ≡ w16 b.sport) × (w16 a.dport ≡ w16 b.dport))
cmp_ports-zero a b = ground (
  arith,
  then_cmp-zero (diff16 a.sport b.sport) (diff16 a.dport b.dport),
  sub-zero (w16 a.sport) (w16 b.sport),
  sub-zero (w16 a.dport) (w16 b.dport),
)

cmp_words-zero :
    (d1 d2 s1 s2 : ℕ) (next : ℤ)
    → (is_zero (cmp_words d1 d2 s1 s2 next) ≡ true)
      ↔ ((w32 d1 ≡ w32 d2) × (w32 s1 ≡ w32 s2) × (is_zero next ≡ true))
cmp_words-zero d1 d2 s1 s2 next = ground (
  arith,
  then_cmp-zero (diff32 d1 d2) (then_cmp (diff32 s1 s2) next),
  then_cmp-zero (diff32 s1 s2) next,
  diff32-zero d1 d2,
  diff32-zero s1 s2,
)

cmp_v4-zero :
    (a b : HostKey)
    → (is_zero (cmp_v4 a b) ≡ true)
      ↔ ((w32 (v4 a.daddr) ≡ w32 (v4 b.daddr)) × (is_zero (cmp_ports a b) ≡ true))
unfolding cmp_v4
cmp_v4-zero a b = cases (Bool-cases (w32 (v4 a.daddr) == w32 (v4 b.daddr)))
  where
    cases :
        ((w32 (v4 a.daddr) == w32 (v4 b.daddr)) ≡ true)
          ⊎ ((w32 (v4 a.daddr) == w32 (v4 b.daddr)) ≡ false)
        → (is_zero (cmp_v4 a b) ≡ true)
          ↔ ((w32 (v4 a.daddr) ≡ w32 (v4 b.daddr)) × (is_zero (cmp_ports a b) ≡ true))
    cases (inl e) =
        let h : w32 (v4 a.daddr) ≡ w32 (v4 b.daddr) = ground arith in
        rw e ((λ z. (h, z)), (λ z. z.1))
    cases (inr e) = rw e (
      (λ z. absurd (ground (arith, diff32-zero (v4 a.daddr) (v4 b.daddr)))),
      (λ z. absurd (ground arith)),
    )

cmp_v6-zero :
    (a b : HostKey)
    → (is_zero (cmp_v6 a b) ≡ true) ↔ (
        (w32 a.daddr.v6_0 ≡ w32 b.daddr.v6_0)
        × (w32 a.saddr.v6_0 ≡ w32 b.saddr.v6_0)
        × (w32 a.daddr.v6_1 ≡ w32 b.daddr.v6_1)
        × (w32 a.saddr.v6_1 ≡ w32 b.saddr.v6_1)
        × (w32 a.daddr.v6_2 ≡ w32 b.daddr.v6_2)
        × (w32 a.saddr.v6_2 ≡ w32 b.saddr.v6_2)
        × (w32 a.daddr.v6_3 ≡ w32 b.daddr.v6_3)
        × (w32 a.saddr.v6_3 ≡ w32 b.saddr.v6_3)
        × (is_zero (cmp_ports a b) ≡ true))
unfolding cmp_v6
cmp_v6-zero a b =
    let last : ℤ = cmp_ports a b in
    let three : ℤ = cmp_words a.daddr.v6_3 b.daddr.v6_3 a.saddr.v6_3 b.saddr.v6_3 last in
    let two : ℤ = cmp_words a.daddr.v6_2 b.daddr.v6_2 a.saddr.v6_2 b.saddr.v6_2 three in
    let one : ℤ = cmp_words a.daddr.v6_1 b.daddr.v6_1 a.saddr.v6_1 b.saddr.v6_1 two in
    let l0 = cmp_words-zero a.daddr.v6_0 b.daddr.v6_0 a.saddr.v6_0 b.saddr.v6_0 one in
    let l1 = cmp_words-zero a.daddr.v6_1 b.daddr.v6_1 a.saddr.v6_1 b.saddr.v6_1 two in
    let l2 = cmp_words-zero a.daddr.v6_2 b.daddr.v6_2 a.saddr.v6_2 b.saddr.v6_2 three in
    let l3 = cmp_words-zero a.daddr.v6_3 b.daddr.v6_3 a.saddr.v6_3 b.saddr.v6_3 last in
    (
      (λ z.
          let (d0, s0, z1) = l0.0 z in
          let (d1, s1, z2) = l1.0 z1 in
          let (d2, s2, z3) = l2.0 z2 in
          let (d3, s3, z4) = l3.0 z3 in (d0, s0, d1, s1, d2, s2, d3, s3, z4)),
      (λ (d0, s0, d1, s1, d2, s2, d3, s3, z4).
          l0.1 (d0, s0, l1.1 (d1, s1, l2.1 (d2, s2, l3.1 (d3, s3, z4))))),
    )

version_first :
    (a b : HostKey)
    → (is_zero (cmp_ip_key a b) ≡ true) ↔ (
        (w8 a.ip_version ≡ w8 b.ip_version)
        × (is_zero (if w8 a.ip_version == 4 then cmp_v4 a b else cmp_v6 a b) ≡ true))
unfolding cmp_ip_key
version_first a b = ground (
  arith,
  then_cmp-zero (sub_ℕ (w8 a.ip_version) (w8 b.ip_version))
      (if w8 a.ip_version == 4 then cmp_v4 a b else cmp_v6 a b),
  sub-zero (w8 a.ip_version) (w8 b.ip_version),
)

-- nx_cmp_ip_key answers 0 exactly for keys with the same compared words: the version, addresses
-- and ports for IPv6, but the version, destination address and ports, without the source address,
-- for IPv4.
pub cmp_ip_key-zero :
    (a b : HostKey) → (is_zero (cmp_ip_key a b) ≡ true) ↔ (compared a ≡ compared b)
cmp_ip_key-zero a b = cases (Bool-cases (w8 a.ip_version == 4))
  where
    cases :
        ((w8 a.ip_version == 4) ≡ true) ⊎ ((w8 a.ip_version == 4) ≡ false)
        → (is_zero (cmp_ip_key a b) ≡ true) ↔ (compared a ≡ compared b)
    cases (inl e) = ground (arith, version_first a b, cmp_v4-zero a b, cmp_ports-zero a b)
    cases (inr e) = ground (arith, version_first a b, cmp_v6-zero a b, cmp_ports-zero a b)

-- A test that is true exactly for equal images, is symmetric, and congruent.
same_as :
    (a b c d : HostKey)
    → ((compared a ≡ compared b) → compared c ≡ compared d)
    → ((compared c ≡ compared d) → compared a ≡ compared b)
    → same lro_hash_ops a b ≡ same lro_hash_ops c d
same_as a b c d f g =
    cases (Bool-cases (same lro_hash_ops a b)) (Bool-cases (same lro_hash_ops c d))
  where
    cases :
        (same lro_hash_ops a b ≡ true) ⊎ (same lro_hash_ops a b ≡ false)
        → (same lro_hash_ops c d ≡ true) ⊎ (same lro_hash_ops c d ≡ false)
        → same lro_hash_ops a b ≡ same lro_hash_ops c d
    cases (inl x) (inl y) = x ∙ sym y
    cases (inr x) (inr y) = x ∙ sym y
    cases (inl x) (inr y) = x ∙ sym ((cmp_ip_key-zero c d).1 (f ((cmp_ip_key-zero a b).0 x)))
    cases (inr x) (inl y) = (cmp_ip_key-zero a b).1 (g ((cmp_ip_key-zero c d).0 y)) ∙ sym y

-- So sameness of keys is an equivalence, as the hash table needs.
pub lro_hash_ops-IsLawful : IsLawful lro_hash_ops
lro_hash_ops-IsLawful = record {
  same_refl = λ a. (cmp_ip_key-zero a a).1 refl;
  same_sym = λ a b. same_as a b b a sym sym;
  same_cong = λ a b c h.
      let e : compared a ≡ compared b = (cmp_ip_key-zero a b).0 h in
      same_as a c b c (λ p. sym e ∙ p) (λ p. e ∙ p);
}
