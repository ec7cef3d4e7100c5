-- ===== src/HashTable/Lookup.antt =====
-- The hash table as a whole: a valid table answers every call, and a lookup sees what was inserted
-- and deleted before it.
use mathlib.Core.Path.{subst}
use mathlib.Core.Option
use Prim.Native.Nat.{bit_and}
use hp_nx_nic.Prelude.{
  ℕ, zero, suc, ◌+◌, ◌≤◌, ◌<◌, ◌^◌, ◌≡◌, refl, ap, Option, none, some, List, [], ◌∷◌, ◌++◌, Bool,
  true, false, ◌&&◌, ◌==◌, if◌then◌else◌, arith, length, set, get_elem?, length-set, some-injective,
  get_elem?-lt, Option-cases, set_self, ◌⊎◌, inl, inr, sym, ◌∙◌,
}
use hp_nx_nic.Prelude.Int.{ℤ}
use hp_nx_nic.Prelude.Bits.{bit_and-le_mask}
use hp_nx_nic.Prelude.Words.{sub32}
use hp_nx_nic.Prelude.Counts.{count, count-append}
use hp_nx_nic.HashTable.{
  Node, Ops, Table, bucket_index, on_bucket, insert, insert_bucket, get, find, node_inserted,
  node_exists,
}
use hp_nx_nic.HashTable.Chain.{
  same, IsLawful, indicator, addrs, Unique, Inserted, insert_bucket-some, insert_bucket-none,
  find-cong,
}

abbrev pub all_addrs : {K D : Type 0} → List (List (Node K D)) → List ℕ
all_addrs [] = []
all_addrs (b ∷ bs) = addrs b ++ all_addrs bs

abbrev pub AllUnique : {K D : Type 0} → Ops K → List (List (Node K D)) → Type 0
AllUnique ops [] = Unit
AllUnique ops (b ∷ bs) = Unique ops b × AllUnique ops bs

-- The array has a bucket for each index, and no bucket holds a key twice.
pub record IsValid {K D : Type 0} (ops : Ops K) (t : Table K D) : Type 0 where
  pub sized : length t.buckets ≡ t.bucket_cnt
  pub nonempty : 1 ≤ t.bucket_cnt
  pub int_sized : t.bucket_cnt < 2 ^ 31
  pub all_unique : AllUnique ops t.buckets

module _ {K D : Type 0} (ops : Ops K) where
  pub get_elem?-AllUnique :
      (bs : List (List (Node K D))) (i : ℕ) (b : List (Node K D))
      → AllUnique ops bs
      → get_elem? bs i ≡ some b
      → Unique ops b
  get_elem?-AllUnique [] i b u e = absurd (ground arith)
  get_elem?-AllUnique (c ∷ bs) zero b u e = subst (Unique ops) (some-injective e) u.0
  get_elem?-AllUnique (c ∷ bs) (suc i) b u e = get_elem?-AllUnique bs i b u.1 e

  set-AllUnique :
      (bs : List (List (Node K D))) (i : ℕ) (b : List (Node K D))
      → AllUnique ops bs
      → Unique ops b
      → AllUnique ops (set bs i b)
  set-AllUnique [] i b u v = u
  set-AllUnique (c ∷ bs) zero b u v = (v, u.1)
  set-AllUnique (c ∷ bs) (suc i) b u v = (u.0, set-AllUnique bs i b u.1 v)

  pub bucket_index-lt :
      (t : Table K D) (k : K) → IsValid ops t → bucket_index ops t k < length t.buckets
  unfolding bucket_index
  bucket_index-lt t k v =
      let le : bit_and (ops.hash k) (sub32 t.bucket_cnt 1) ≤ sub32 t.bucket_cnt 1 =
        bit_and-le_mask (ops.hash k) (sub32 t.bucket_cnt 1) in
      omega (arith, le, v.sized, v.nonempty, v.int_sized)

pub all_addrs-set :
    {K D : Type 0} (bs : List (List (Node K D))) (i : ℕ) (b c : List (Node K D)) (a : ℕ)
    → get_elem? bs i ≡ some b
    → count a (all_addrs (set bs i c)) + count a (addrs b)
      ≡ count a (all_addrs bs) + count a (addrs c)
all_addrs-set [] i b c a e = absurd (ground arith)
all_addrs-set (d ∷ bs) zero b c a e =
    let same_bucket : addrs d ≡ addrs b = ap addrs (some-injective e) in
    rw
      (
        count-append a (addrs d) (all_addrs bs),
        count-append a (addrs c) (all_addrs bs),
        same_bucket,
      )
      (omega arith)
all_addrs-set (d ∷ bs) (suc i) b c a e = omega (
  arith,
  all_addrs-set bs i b c a e,
  count-append a (addrs d) (all_addrs bs),
  count-append a (addrs d) (all_addrs (set bs i c)),
)

-- A lookup in bucket `j` after bucket `i` became `ys`, which agrees with `xs` but for `s`.
pub set-find :
    {K D : Type 0} (ops : Ops K) (k : K) (bs : List (List (Node K D))) (i j : ℕ)
    (xs ys : List (Node K D)) (s : Bool) (w : Option (Node K D))
    → get_elem? bs i ≡ some xs
    → find ops k ys ≡ (if s then w else find ops k xs)
    → Option.map (find ops k) (get_elem? (set bs i ys) j)
      ≡ (if j == i && s then some w else Option.map (find ops k) (get_elem? bs j))
set-find ops k [] i j xs ys s w e f = absurd (ground arith)
set-find ops k (c ∷ cs) zero zero xs ys true w e f = rw f refl
set-find ops k (c ∷ cs) zero zero xs ys false w e f =
    rw f (ap (λ o. Option.map (find ops k) o) (sym e))
set-find ops k (c ∷ cs) zero (suc j) xs ys s w e f =
    let h : (suc j == 0) ≡ false = ground arith in rw h refl
set-find ops k (c ∷ cs) (suc i) zero xs ys s w e f =
    let h : (0 == suc i) ≡ false = ground arith in rw h refl
set-find ops k (c ∷ cs) (suc i) (suc j) xs ys s w e f =
    let h : (suc j == suc i) ≡ (j == i) = ground arith in rw h (set-find ops k cs i j xs ys s w e f)

module _ {K D : Type 0} (ops : Ops K) (t : Table K D) (v : IsValid ops t) where
  pub set_bucket-IsValid :
      (i : ℕ) (ys : List (Node K D))
      → Unique ops ys
      → IsValid ops (record t { buckets = set t.buckets i ys })
  set_bucket-IsValid i ys u = record {
    sized = length-set t.buckets i ys ∙ v.sized;
    nonempty = v.nonempty;
    int_sized = v.int_sized;
    all_unique = set-AllUnique ops t.buckets i ys v.all_unique u;
  }

  -- The outcome of nx_hash_tbl_insert.
  abbrev pub Inserts : Node K D → Option (ℤ × Table K D) → Type 0
  Inserts node none = ⊥
  Inserts node (some (rv, t')) =
      ((rv ≡ node_exists) × (t' ≡ t) × (x : Node K D) × (get ops node.key t ≡ some (some x)))
      ⊎ ((rv ≡ node_inserted)
          × (get ops node.key t ≡ some none)
          × IsValid ops t'
          × (t'.bucket_cnt ≡ t.bucket_cnt)
          × ((k : K)
              → get ops k t' ≡ (
                  if bucket_index ops t k == bucket_index ops t node.key && same ops k node.key
                  then some (some node)
                  else get ops k t))
          × ((a : ℕ)
              → count a (all_addrs t'.buckets)
                ≡ indicator node.addr a + count a (all_addrs t.buckets)))

  module _ (laws : IsLawful ops) where
    insert_found :
        (node : Node K D) (xs : List (Node K D))
        → get_elem? t.buckets (bucket_index ops t node.key) ≡ some xs
        → Inserts node (insert ops node t)
    unfolding insert on_bucket get
    insert_found node xs e = exists_or_new (Option-cases (find ops node.key xs))
      where
        exists_or_new :
            (find ops node.key xs ≡ none) ⊎ ((x : Node K D) × (find ops node.key xs ≡ some x))
            → Inserts node (insert ops node t)
        exists_or_new (inr (x, h)) =
            rw (e, insert_bucket-some ops laws node x xs h)
              (inl (
                refl,
                rw (set_self t.buckets (bucket_index ops t node.key) xs e) refl,
                x,
                rw (e, h) refl,
              ))
        exists_or_new (inl h) = new (
            insert_bucket-none ops laws node xs
              (get_elem?-AllUnique ops t.buckets (bucket_index ops t node.key) xs v.all_unique e) h)
          where
            new :
                ((ys : List (Node K D)) × (insert_bucket ops node xs ≡ (node_inserted, ys))
                  × Inserted ops node xs ys)
                → Inserts node (insert ops node t)
            new (ys, r, i) =
                rw (e, r)
                  (inr (
                    refl,
                    rw (e, h) refl,
                    set_bucket-IsValid (bucket_index ops t node.key) ys i.unique,
                    refl,
                    (λ k.
                        set-find ops k t.buckets (bucket_index ops t node.key)
                          (bucket_index ops t k) xs ys (same ops k node.key) (some node) e
                          (i.found k)),
                    (λ a. omega (
                      arith,
                      i.counted a,
                      all_addrs-set t.buckets (bucket_index ops t node.key) xs ys a e,
                    )),
                  ))

    -- On a valid table with a lawful comparison nx_hash_tbl_insert finds its bucket. If a lookup
    -- finds the key it returns NX_HASH_TBL_NODE_EXISTS and changes nothing; otherwise it returns
    -- NX_HASH_TBL_NODE_INSERTED, later lookups find the node under its key and are the same under
    -- all other keys, the table stays valid and gains the node's address.
    pub insert-Inserts : (node : Node K D) → Inserts node (insert ops node t)
    insert-Inserts node =
        let b : (xs : List (Node K D)) × (get_elem? t.buckets (bucket_index ops t node.key)
              ≡ some xs) =
          get_elem?-lt t.buckets (bucket_index ops t node.key) (bucket_index-lt ops t node.key v) in
        insert_found node b.0 b.1

-- Same keys of one bucket have the same lookup.
pub get-cong :
    {K D : Type 0} (ops : Ops K) (t : Table K D)
    → IsLawful ops
    → (a b : K) → bucket_index ops t a ≡ bucket_index ops t b
    → same ops a b ≡ true
    → get ops a t ≡ get ops b t
unfolding get
get-cong {K = K} {D = D} ops t laws a b i e =
    ap (λ j. Option.map (find ops a) (get_elem? t.buckets j)) i
    ∙ at_bucket (get_elem? t.buckets (bucket_index ops t b))
  where
    at_bucket :
        (o : Option (List (Node K D))) → Option.map (find ops a) o ≡ Option.map (find ops b) o
    at_bucket none = refl
    at_bucket (some xs) = ap some (find-cong ops laws a b xs e)
