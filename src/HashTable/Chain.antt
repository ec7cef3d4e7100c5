-- ===== src/HashTable/Chain.antt =====
-- One bucket of the hash table: what lookup, insertion and removal do to its chain of nodes.
use hp_nx_nic.Prelude.{
  ℕ, ◌+◌, ◌≡◌, refl, ◌∙◌, Option, none, some, List, [], ◌∷◌, ◌++◌, Bool, true, false, ◌==◌,
  if◌then◌else◌, arith, Bool-cases, inl, inr, ◌⊎◌,
}
use hp_nx_nic.Prelude.Int.{ltb_ℤ, pos, is_zero}
use hp_nx_nic.Prelude.Counts.{count}
use hp_nx_nic.HashTable.{
  Node, Ops, exists, place, scan, list_insert_before, insert_at, insert_bucket, find, node_inserted,
  node_exists,
}

-- Two keys are the same where the comparison answers 0.
abbrev pub same : {K : Type 0} → Ops K → K → K → Bool
same ops a b = is_zero (ops.compare_keys a b)

-- What a comparison has to satisfy: sameness is reflexive and symmetric, and same keys have the same sames.
pub record IsLawful {K : Type 0} (ops : Ops K) : Type 0 where
  pub same_refl : (a : K) → same ops a a ≡ true
  pub same_sym : (a b : K) → same ops a b ≡ same ops b a
  pub same_cong : (a b c : K) → same ops a b ≡ true → same ops a c ≡ same ops b c

abbrev pub indicator : ℕ → ℕ → ℕ
indicator b a = if b == a then 1 else 0

abbrev pub addrs : {K D : Type 0} → List (Node K D) → List ℕ
addrs [] = []
addrs (x ∷ xs) = x.addr ∷ addrs xs

module _ {K D : Type 0} (ops : Ops K) where
  -- No two nodes of a chain have the same key.
  abbrev pub Unique : List (Node K D) → Type 0
  Unique [] = Unit
  Unique (x ∷ xs) = (find ops x.key xs ≡ none) × Unique xs

  -- `ys` is `xs` with the node added, for lookups, uniqueness and addresses.
  pub record Inserted (node : Node K D) (xs ys : List (Node K D)) : Type 0 where
    pub found : (k : K) → find ops k ys ≡ (if same ops k node.key then some node else find ops k xs)
    pub unique : Unique ys
    pub counted : (a : ℕ) → count a (addrs ys) ≡ indicator node.addr a + count a (addrs xs)

  find-none_head :
      (k : K) (x : Node K D) (xs : List (Node K D))
      → find ops k (x ∷ xs) ≡ none
      → same ops k x.key ≡ false
  unfolding find
  find-none_head k x xs h = ground arith

  find-none_tail :
      (k : K) (x : Node K D) (xs : List (Node K D))
      → find ops k (x ∷ xs) ≡ none
      → find ops k xs ≡ none
  unfolding find
  find-none_tail k x xs h = ground arith

  module _ (laws : IsLawful ops) where
    pub find-cong :
        (a b : K) (xs : List (Node K D)) → same ops a b ≡ true → find ops a xs ≡ find ops b xs
    unfolding find
    find-cong a b [] h = refl
    find-cong a b (x ∷ xs) h = rw (laws.same_cong a b x.key h, find-cong a b xs h) refl

    same-apart :
        (k : K) (node x : Node K D)
        → same ops node.key x.key ≡ false
        → same ops k node.key ≡ true
        → same ops k x.key ≡ false
    same-apart k node x h e = laws.same_cong k node.key x.key e ∙ h

    add_head-Inserted :
        (node : Node K D) (xs : List (Node K D))
        → Unique xs
        → find ops node.key xs ≡ none
        → Inserted node xs (node ∷ xs)
    unfolding find
    add_head-Inserted node xs u fresh = record {
      found = λ k. refl;
      unique = (fresh, u);
      counted = λ a. refl;
    }

    -- Behind a node of another key.
    add_tail-Inserted :
        (node x : Node K D) (xs ys : List (Node K D))
        → Unique (x ∷ xs)
        → find ops node.key (x ∷ xs) ≡ none
        → Inserted node xs ys
        → Inserted node (x ∷ xs) (x ∷ ys)
    unfolding find
    add_tail-Inserted node x xs ys (ux, u) fresh i = record {
      found = λ k. found_step k (Bool-cases (same ops k node.key));
      unique = (kept, i.unique);
      counted = λ a. omega (arith, i.counted a);
    }
      where
        apart : same ops node.key x.key ≡ false
        apart = find-none_head node.key x xs fresh

        found_step :
            (k : K)
            → (same ops k node.key ≡ true) ⊎ (same ops k node.key ≡ false)
            → find ops k (x ∷ ys) ≡ (if same ops k node.key then some node else find ops k (x ∷ xs))
        found_step k (inl e) = rw (same-apart k node x apart e, i.found k, e) refl
        found_step k (inr e) = rw (i.found k, e) refl

        kept : find ops x.key ys ≡ none
        kept = i.found x.key ∙ rw (laws.same_sym x.key node.key, apart) ux

    insert_before-Inserted :
        (node : Node K D) (before : ℕ) (xs : List (Node K D))
        → Unique xs
        → find ops node.key xs ≡ none
        → Inserted node xs (list_insert_before node before xs)
    unfolding list_insert_before
    insert_before-Inserted node before [] u fresh = add_head-Inserted node [] u fresh
    insert_before-Inserted node before (x ∷ xs) u fresh =
        front_or_tail (Bool-cases (x.addr == before))
          (insert_before-Inserted node before xs u.1 (find-none_tail node.key x xs fresh))
      where
        front_or_tail :
            ((x.addr == before) ≡ true) ⊎ ((x.addr == before) ≡ false)
            → Inserted node xs (list_insert_before node before xs)
            → Inserted node (x ∷ xs) (list_insert_before node before (x ∷ xs))
        front_or_tail (inl e) rest = rw e (add_head-Inserted node (x ∷ xs) u fresh)
        front_or_tail (inr e) rest =
            rw e (add_tail-Inserted node x xs (list_insert_before node before xs) u fresh rest)

    append-Inserted :
        (node : Node K D) (xs : List (Node K D))
        → Unique xs
        → find ops node.key xs ≡ none
        → Inserted node xs (xs ++ node ∷ [])
    append-Inserted node [] u fresh = add_head-Inserted node [] u fresh
    append-Inserted node (x ∷ xs) u fresh =
        add_tail-Inserted node x xs (xs ++ node ∷ []) u fresh
          (append-Inserted node xs u.1 (find-none_tail node.key x xs fresh))

    -- Where the scan ends follows from what a lookup finds.
    scan-exists :
        (k : K) (x : Node K D) (xs : List (Node K D)) (entry : Option ℕ)
        → find ops k xs ≡ some x
        → scan ops k xs entry ≡ exists
    unfolding find scan
    scan-exists k x [] entry h = ground arith
    scan-exists k x (y ∷ ys) entry h =
        let next : Option ℕ =
          if ltb_ℤ (ops.compare_keys k y.key) (pos 0) then none else some y.addr in
        ground (arith, scan-exists k x ys next)

    scan-place :
        (k : K) (xs : List (Node K D)) (entry : Option ℕ)
        → find ops k xs ≡ none
        → (place' : Option ℕ) × (scan ops k xs entry ≡ place place')
    unfolding find scan
    scan-place k [] entry h = (entry, refl)
    scan-place k (y ∷ ys) entry h =
        let later =
          scan-place k ys (if ltb_ℤ (ops.compare_keys k y.key) (pos 0) then none else some y.addr)
            (find-none_tail k y ys h) in
        (later.0, rw (find-none_head k y ys h) later.1)

    -- Either the chain has the key and stays as it is, or it gains the node.
    pub insert_bucket-some :
        (node x : Node K D) (xs : List (Node K D))
        → find ops node.key xs ≡ some x
        → insert_bucket ops node xs ≡ (node_exists, xs)
    unfolding insert_bucket insert_at
    insert_bucket-some node x xs h = rw (scan-exists node.key x xs none h) refl

    pub insert_bucket-none :
        (node : Node K D) (xs : List (Node K D))
        → Unique xs
        → find ops node.key xs ≡ none
        → (ys : List (Node K D)) × (insert_bucket ops node xs ≡ (node_inserted, ys))
          × Inserted node xs ys
    unfolding insert_bucket insert_at
    insert_bucket-none node xs u h = placed (scan-place node.key xs none h)
      where
        placed :
            ((entry : Option ℕ) × (scan ops node.key xs none ≡ place entry))
            → (ys : List (Node K D)) × (insert_bucket ops node xs ≡ (node_inserted, ys))
              × Inserted node xs ys
        placed (none, e) = (xs ++ node ∷ [], rw e refl, append-Inserted node xs u h)
        placed (some entry, e) =
            (list_insert_before node entry xs, rw e refl, insert_before-Inserted node entry xs u h)
