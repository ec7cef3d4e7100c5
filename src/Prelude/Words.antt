-- ===== src/Prelude/Words.antt =====
-- Arithmetic of the C types at their widths, with the wrap written out.
use hp_nx_nic.Prelude.{ℕ, ◌+◌, ◌-◌, ◌%◌, ◌^◌}

-- uint32_t a + b and a - b
abbrev pub add32 : ℕ → ℕ → ℕ
add32 a b = (a + b) % 2 ^ 32

abbrev pub sub32 : ℕ → ℕ → ℕ
sub32 a b = (a + 2 ^ 32 - b) % 2 ^ 32
