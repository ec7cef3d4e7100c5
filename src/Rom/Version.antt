-- ===== src/Rom/Version.antt =====
-- The order of firmware versions.
use hp_nx_nic.Prelude.{◌<◌, ◌≡◌, ◌⊎◌, ◌↔◌, arith, true}
use hp_nx_nic.Prelude.Int.{pos, ltb_ℤ}
use hp_nx_nic.Rom.{NicVersion, compare_fw_version}

-- The version `b` is later than `a`.
abbrev pub IsLater : NicVersion → NicVersion → Type 0
IsLater a b =
    (a.major < b.major)
    ⊎ ((a.major ≡ b.major) × ((a.minor < b.minor) ⊎ ((a.minor ≡ b.minor) × (a.sub < b.sub))))

-- compare_fw_version is negative exactly if the second version is the later one, positive exactly
-- if the first is, for versions whose differences fit an `int`, as those of the model do.
pub compare_fw_version-IsLater :
    (ver1 ver2 : NicVersion)
    → ((ltb_ℤ (compare_fw_version ver1 ver2) (pos 0) ≡ true) ↔ IsLater ver1 ver2)
      × ((ltb_ℤ (pos 0) (compare_fw_version ver1 ver2) ≡ true) ↔ IsLater ver2 ver1)
unfolding compare_fw_version
compare_fw_version-IsLater ver1 ver2 = (ground arith, ground arith)
