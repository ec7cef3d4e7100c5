-- ===== src/Prelude/Bump.antt =====
-- A concrete kmalloc, which shows that fresh allocation can be had.
use hp_nx_nic.Prelude.{ℕ, ◌+◌, ◌<◌, ◌≡◌, refl, some, List, [], ◌∷◌, arith, some-injective}
use hp_nx_nic.Prelude.Counts.{count}
use hp_nx_nic.Prelude.Kernel.{Kmalloc, IsFresh}

abbrev pub total : List ℕ → ℕ
total [] = 0
total (x ∷ xs) = x + total xs

-- It takes the first address behind all live ones.
abbrev pub bump : Kmalloc
bump = λ size live. some (1 + total live)

count-above : (a : ℕ) (live : List ℕ) → total live < a → count a live ≡ 0
count-above a [] h = refl
count-above a (x ∷ xs) h = ground (arith, count-above a xs)

pub bump-IsFresh : IsFresh bump
bump-IsFresh = λ size a live e. count-above a live (omega (arith, some-injective e))
