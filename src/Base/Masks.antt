-- ===== src/Base/Masks.antt =====
-- The masks `~(2 ^ k - 1)` of the source, which round a 64-bit number down.
use Prim.Native.Nat.{ℕ, zero, suc, ◌+◌, ◌-◌, ◌*◌, ◌/◌, ◌^◌, ◌≤◌, ◌<◌, bit_and}
use mathlib.Core.Path.{◌≡◌, ap, ◌∙◌}
use native.Mathlib.Nat.{div-lt_iff_lt-mul}
use native.Mathlib.Omega.{arith}
use isaac_metal_bridge.Base.Bits.{bit_and-high_mask, two_pow-add, one-le-two_pow}
use isaac_metal_bridge.Base.Words.{two64, not64}

pub pred-mul : (q p : ℕ) → 1 ≤ q → (q - 1) * p + p ≡ q * p
pred-mul zero p h = absurd (omega arith)
pred-mul (suc q) p h = omega (arith, ap (λ (t : ℕ). t * p) (pred q))
  where
    pred : (q : ℕ) → suc q - 1 ≡ q
    pred q = omega arith

-- `~(2 ^ k - 1)` is a mask of ones over `k` zeros.
pub high_mask : (j k : ℕ) → j + k ≡ 64 → not64 (2 ^ k - 1) ≡ (2 ^ j - 1) * 2 ^ k
high_mask j k e = omega (
  arith,
  pred-mul (2 ^ j) (2 ^ k) (one-le-two_pow j),
  two_pow-add j k,
  ap (λ (t : ℕ). 2 ^ t) e,
  one-le-two_pow k,
)

-- Masking a 64-bit address with `~(2 ^ k - 1)` rounds it down.
pub round_down : (k a : ℕ) → k < 64 → a < two64 → bit_and a (not64 (2 ^ k - 1)) ≡ a / 2 ^ k * 2 ^ k
round_down k a small below =
    ap (bit_and a) (high_mask (64 - k) k (omega arith))
    ∙ bit_and-high_mask (64 - k) k a (
        (div-lt_iff_lt-mul (one-le-two_pow k)).1
          (omega (arith, two_pow-add (64 - k) k, ap (λ (t : ℕ). 2 ^ t) (whole k small))))
  where
    whole : (k : ℕ) → k < 64 → 64 - k + k ≡ 64
    whole k h = omega arith
