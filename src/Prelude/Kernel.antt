-- ===== src/Prelude/Kernel.antt =====
-- What the components share of the Linux kernel: its heap, and the ends of a call.
use hp_nx_nic.Prelude.{ℕ, ◌≡◌, Option, some, List, ◌∷◌, Bool, false, ◌||◌, [], ◌==◌}
use hp_nx_nic.Prelude.Int.{ℤ, negsuc}
use hp_nx_nic.Prelude.Counts.{count, remove}

-- The error numbers that the driver returns, negated.
abbrev pub eio : ℤ
eio = negsuc 4

abbrev pub enomem : ℤ
enomem = negsuc 11

abbrev pub einval : ℤ
einval = negsuc 21

-- A call ends, or stops the kernel in BUG(), or links a list entry that is linked already, which
-- the kernel's lists do not support, or reaches outside an array.
pub data Outcome {ℓ} (A : Type ℓ) : Type ℓ where
  ok : A → Outcome A
  bug : Outcome A
  relinked : Outcome A
  fault : Outcome A

-- The live blocks of the kernel heap, and what a word of memory holds.
pub record Memory : Type 0 where
  pub live : List ℕ
  pub word : ℕ → ℕ

-- kmalloc: an address, from the size and the live blocks.
abbrev pub Kmalloc : Type 0
Kmalloc = ℕ → List ℕ → Option ℕ

-- Its documented behaviour: a block that it returns was not live.
abbrev pub IsFresh : Kmalloc → Type 0
IsFresh kmalloc = (size a : ℕ) (live : List ℕ) → kmalloc size live ≡ some a → count a live ≡ 0

unfoldable pub kfree : ℕ → Memory → Memory
kfree a m = record m { live = remove a m.live }

abbrev pub is_member : ℕ → List ℕ → Bool
is_member a [] = false
is_member a (x ∷ xs) = x == a || is_member a xs
