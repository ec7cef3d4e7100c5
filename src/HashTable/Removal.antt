-- ===== src/HashTable/Removal.antt =====
-- One bucket of the hash table: removal of the node that a lookup finds.
use hp_nx_nic.Prelude.{
  ℕ, ◌+◌, ◌≡◌, refl, sym, ◌∙◌, Option, none, some, List, [], ◌∷◌, true, false, if◌then◌else◌, arith,
  Bool-cases, inl, inr, ◌⊎◌,
}
use hp_nx_nic.Prelude.Counts.{count}
use hp_nx_nic.HashTable.{Node, Ops, find, unlink}
use hp_nx_nic.HashTable.Chain.{same, IsLawful, indicator, addrs, Unique, find-cong}

-- How often the address stands in what a removal returns.
abbrev pub taken : {K D : Type 0} → Option (Node K D) → ℕ → ℕ
taken none a = 0
taken (some x) a = indicator x.addr a

module _ {K D : Type 0} (ops : Ops K) where
  -- `r` is what a lookup of `key` finds in `xs`, and `xs` without it.
  pub record Removed (key : K) (xs : List (Node K D)) (r : Option (Node K D) × List (Node K D))
      : Type 0 where
    pub result : r.0 ≡ find ops key xs
    pub found : (k : K) → find ops k r.1 ≡ (if same ops key k then none else find ops k xs)
    pub unique : Unique ops r.1
    pub counted : (a : ℕ) → taken r.0 a + count a (addrs r.1) ≡ count a (addrs xs)

  module _ (laws : IsLawful ops) where
    unlink-head :
        (key : K) (x : Node K D) (xs : List (Node K D))
        → Unique ops (x ∷ xs)
        → same ops key x.key ≡ true
        → Removed key (x ∷ xs) (some x, xs)
    unfolding find
    unlink-head key x xs (ux, u) e = record {
      result = rw e refl;
      found = λ k. found_step k (Bool-cases (same ops key k));
      unique = u;
      counted = λ a. refl;
    }
      where
        found_step :
            (k : K)
            → (same ops key k ≡ true) ⊎ (same ops key k ≡ false)
            → find ops k xs ≡ (if same ops key k then none else find ops k (x ∷ xs))
        found_step k (inl h) =
            let key_k : find ops key xs ≡ find ops k xs = find-cong ops laws key k xs h in
            let key_x : find ops key xs ≡ find ops x.key xs = find-cong ops laws key x.key xs e in
            rw h (sym key_k ∙ key_x ∙ ux)
        found_step k (inr h) =
            let other : same ops k x.key ≡ false =
              laws.same_sym k x.key ∙ sym (laws.same_cong key x.key k e) ∙ h in
            rw (h, other) refl

    unlink-tail :
        (key : K) (x : Node K D) (xs : List (Node K D)) (r : Option (Node K D) × List (Node K D))
        → Unique ops (x ∷ xs)
        → same ops key x.key ≡ false
        → Removed key xs r
        → Removed key (x ∷ xs) (r.0, x ∷ r.1)
    unfolding find
    unlink-tail key x xs r (ux, u) e d = record {
      result = rw e d.result;
      found = λ k. found_step k (Bool-cases (same ops key k));
      unique = (d.found x.key ∙ rw e ux, d.unique);
      counted = λ a. omega (arith, d.counted a);
    }
      where
        found_step :
            (k : K)
            → (same ops key k ≡ true) ⊎ (same ops key k ≡ false)
            → find ops k (x ∷ r.1) ≡ (if same ops key k then none else find ops k (x ∷ xs))
        found_step k (inl h) =
            let other : same ops k x.key ≡ false = sym (laws.same_cong key k x.key h) ∙ e in
            rw (other, d.found k, h) refl
        found_step k (inr h) = rw (d.found k, h) refl

    -- The loop of nx_hash_tbl_delete.
    pub unlink-Removed :
        (key : K) (xs : List (Node K D)) → Unique ops xs → Removed key xs (unlink ops key xs)
    unfolding unlink find
    unlink-Removed key [] u = record {
      result = refl;
      found = λ k. ground arith;
      unique = u;
      counted = λ a. refl;
    }
    unlink-Removed key (x ∷ xs) u =
        here_or_later (Bool-cases (same ops key x.key)) (unlink-Removed key xs u.1)
      where
        here_or_later :
            (same ops key x.key ≡ true) ⊎ (same ops key x.key ≡ false)
            → Removed key xs (unlink ops key xs)
            → Removed key (x ∷ xs) (unlink ops key (x ∷ xs))
        here_or_later (inl e) d = rw e (unlink-head key x xs u e)
        here_or_later (inr e) d = rw e (unlink-tail key x xs (unlink ops key xs) u e d)
