-- ===== src/Base/BitOr.antt =====
-- `|` on the native numbers, and the idiom of the source that sets the bits above a number.
use Prim.Native.Nat.{digits, bit_or-bitwise}
use Prim.Native.Nat.{ℕ, zero, suc, ◌+◌, ◌*◌, ◌/◌, ◌%◌, ◌^◌, ◌≤◌, ◌<◌, max, bit_or}
use mathlib.Core.Path.{◌≡◌, refl, ap}
use native.Mathlib.Nat.{pow-suc}
use native.Mathlib.Omega.{arith}

abbrev digits_or : ℕ → ℕ → ℕ → ℕ
digits_or = digits (λ b. b) max

digits_or-fuel : (n m a b : ℕ) → a ≤ n → a ≤ m → digits_or n a b ≡ digits_or m a b
digits_or-fuel zero zero a b p q = refl
digits_or-fuel zero (suc m) zero b p q = refl
digits_or-fuel zero (suc m) (suc a) b p q = absurd (omega arith)
digits_or-fuel (suc n) zero zero b p q = refl
digits_or-fuel (suc n) zero (suc a) b p q = absurd (omega arith)
digits_or-fuel (suc n) (suc m) zero b p q = refl
digits_or-fuel (suc n) (suc m) (suc a) b p q =
    omega (arith, digits_or-fuel n m (suc a / 2) (b / 2) (omega arith) (omega arith))

-- The lowest digit of `a | b`, and the rest.
pub bit_or-halves : (a b : ℕ) → bit_or a b ≡ bit_or (a / 2) (b / 2) * 2 + max (a % 2) (b % 2)
bit_or-halves zero b = omega (arith, bit_or-bitwise 0 b, bit_or-bitwise 0 (b / 2))
bit_or-halves (suc a) b = omega (
  arith,
  bit_or-bitwise (suc a) b,
  bit_or-bitwise (suc a / 2) (b / 2),
  digits_or-fuel a (suc a / 2) (suc a / 2) (b / 2) (omega arith) (omega arith),
)

pub bit_or-zero_left : (b : ℕ) → bit_or 0 b ≡ b
bit_or-zero_left b = omega (arith, bit_or-bitwise 0 b)

twice_shifted : (q k : ℕ) → q * 2 ^ suc k ≡ 2 * (q * 2 ^ k)
twice_shifted q k = omega (arith, ap (λ (t : ℕ). q * t) (pow-suc 2 k))

-- `a | b << k` adds, if `a` has at most `k` digits.
pub bit_or-above : (k a b : ℕ) → a < 2 ^ k → bit_or a (b * 2 ^ k) ≡ a + b * 2 ^ k
bit_or-above zero a b h = ground (arith, bit_or-zero_left b)
bit_or-above (suc k) a b h = ground (
  arith,
  pow-suc 2 k,
  twice_shifted b k,
  bit_or-halves a (b * 2 ^ suc k),
  bit_or-above k (a / 2) b,
)
