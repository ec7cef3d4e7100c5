-- ===== src/Lro/Switch.antt =====
-- The switch of the offload, nx_lro_set_state.
use hp_nx_nic.Prelude.{ℕ, ◌<◌, ◌^◌, ◌≡◌, ◌⊎◌, Option, false, arith}
use hp_nx_nic.Prelude.Int.{ℤ, pos, is_zero}
use hp_nx_nic.Lro.{LroRequest, Lro, byte_of, send_cleanup, cleanup_sent, set_state}

-- What a call may answer: success with the switch at the value, or an error with it as it was.
abbrev pub Sets : {A : Type 0} → Lro A → ℤ → ℤ × Lro A → Type 0
Sets s val (rv, s') =
    ((rv ≡ pos 0) × (s'.enabled ≡ byte_of val)) ⊎ ((is_zero rv ≡ false) × (s'.enabled ≡ s.enabled))

-- From a switch that is a byte, nx_lro_set_state returns 0 with the switch at the byte of the value,
-- or an error with the switch as it was.
pub set_state-Sets :
    {A : Type 0} (as_desc : LroRequest → A) (kmalloced : Option ℕ) (context_id : ℕ) (s : Lro A)
    (val : ℤ)
    → s.enabled < 2 ^ 8
    → Sets s val (set_state as_desc kmalloced context_id s val)
unfolding set_state cleanup_sent send_cleanup
set_state-Sets as_desc kmalloced context_id s val h = ground arith
