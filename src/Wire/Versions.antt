-- ===== src/Wire/Versions.antt =====
-- The version test of guest/src/imb_wire.hpp.
use isaac_metal_bridge.Base.{ℕ, ◌+◌, ◌*◌, ◌^◌, ◌≤◌, ◌<◌, ◌≡◌, ◌↔◌, true, arith}
use isaac_metal_bridge.Wire.{version_range_includes}

-- A version as one number.
abbrev pub version : ℕ → ℕ → ℕ
version major minor = major * 2 ^ 16 + minor

-- For minor versions below 2 ^ 16, a version is in the range exactly when, as the number major * 2
-- ^ 16 + minor, it lies between the ends of the range.
pub version_range_includes_iff :
    (min_major min_minor max_major max_minor major minor : ℕ)
    → min_minor < 2 ^ 16
    → max_minor < 2 ^ 16
    → minor < 2 ^ 16
    → (version_range_includes min_major min_minor max_major max_minor major minor ≡ true) ↔ (
        (version min_major min_minor ≤ version major minor)
        × (version major minor ≤ version max_major max_minor))
unfolding version_range_includes
version_range_includes_iff min_major min_minor max_major max_minor major minor h k l = ground arith
