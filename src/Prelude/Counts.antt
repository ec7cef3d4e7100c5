-- ===== src/Prelude/Counts.antt =====
-- How often a number occurs in a list, and the removal of one occurrence: the multiset view of
-- the lists of addresses that the components keep.
use hp_nx_nic.Prelude.{ℕ, ◌+◌, ◌≤◌, ◌≡◌, List, [], ◌∷◌, ◌++◌, arith, ◌==◌, if◌then◌else◌, length}

abbrev pub count : ℕ → List ℕ → ℕ
count a [] = 0
count a (x ∷ xs) = (if x == a then 1 else 0) + count a xs

unfoldable pub remove : ℕ → List ℕ → List ℕ
remove a [] = []
remove a (x ∷ xs) = if x == a then xs else x ∷ remove a xs

pub count-append :
    (u : ℕ) (front back : List ℕ) → count u (front ++ back) ≡ count u front + count u back
count-append u [] back = omega arith
count-append u (n ∷ front) back = omega (arith, count-append u front back)

pub count-remove :
    (a b : ℕ) (xs : List ℕ)
    → 1 ≤ count b xs
    → count a (remove b xs) + (if b == a then 1 else 0) ≡ count a xs
unfolding remove
count-remove a b [] h = absurd (omega arith)
count-remove a b (x ∷ xs) h = ground (arith, count-remove a b xs)

pub length-remove : (b : ℕ) (xs : List ℕ) → 1 ≤ count b xs → length (remove b xs) + 1 ≡ length xs
unfolding remove
length-remove b [] h = absurd (omega arith)
length-remove b (x ∷ xs) h = ground (arith, length-remove b xs)

pub remove-head : (a : ℕ) (xs : List ℕ) → remove a (a ∷ xs) ≡ xs
unfolding remove
remove-head a xs = ground arith
