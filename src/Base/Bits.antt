-- ===== src/Base/Bits.antt =====
-- `&` on the native numbers, digit by digit, and the two idioms of the source that use it: the
-- test for a power of two and the mask that rounds an address down.
use Prim.Native.Nat.{digits, bit_and-bitwise}
use Prim.Native.Nat.{ℕ, zero, suc, ◌+◌, ◌-◌, ◌*◌, ◌/◌, ◌%◌, ◌^◌, ◌≤◌, ◌<◌, min, bit_and}
use mathlib.Core.Path.{◌≡◌, refl, ap}
use mathlib.Core.Logic.{◌≢◌}
use native.Mathlib.Decide.{ℕ_discrete}
use native.Mathlib.Nat.{pow-suc, one-le-pow}
use native.Mathlib.Omega.{arith}

-- `bit_and` on fuel `n`, once `n` is at least the left operand.
abbrev digits_and : ℕ → ℕ → ℕ → ℕ
digits_and = digits (λ b. zero) min

digits_and-fuel : (n m a b : ℕ) → a ≤ n → a ≤ m → digits_and n a b ≡ digits_and m a b
digits_and-fuel zero zero a b p q = refl
digits_and-fuel zero (suc m) zero b p q = refl
digits_and-fuel zero (suc m) (suc a) b p q = absurd (omega arith)
digits_and-fuel (suc n) zero zero b p q = refl
digits_and-fuel (suc n) zero (suc a) b p q = absurd (omega arith)
digits_and-fuel (suc n) (suc m) zero b p q = refl
digits_and-fuel (suc n) (suc m) (suc a) b p q =
    omega (arith, digits_and-fuel n m (suc a / 2) (b / 2) (omega arith) (omega arith))

-- The lowest digit of `a & b`, and the rest.
pub bit_and-halves : (a b : ℕ) → bit_and a b ≡ bit_and (a / 2) (b / 2) * 2 + min (a % 2) (b % 2)
bit_and-halves zero b = omega (arith, bit_and-bitwise 0 b, bit_and-bitwise 0 (b / 2))
bit_and-halves (suc a) b = omega (
  arith,
  bit_and-bitwise (suc a) b,
  bit_and-bitwise (suc a / 2) (b / 2),
  digits_and-fuel a (suc a / 2) (suc a / 2) (b / 2) (omega arith) (omega arith),
)

bit_and-zero_right : (n a : ℕ) → a ≤ n → bit_and a 0 ≡ 0
bit_and-zero_right n zero h = refl
bit_and-zero_right zero (suc a) h = absurd (omega arith)
bit_and-zero_right (suc n) (suc a) h =
    omega (arith, bit_and-halves (suc a) 0, bit_and-zero_right n (suc a / 2) (omega arith))

twice_shifted : (q k : ℕ) → q * 2 ^ suc k ≡ 2 * (q * 2 ^ k)
twice_shifted q k = omega (arith, ap (λ (t : ℕ). q * t) (pow-suc 2 k))

pub bit_and-ones : (j a : ℕ) → a < 2 ^ j → bit_and a (2 ^ j - 1) ≡ a
bit_and-ones zero a h = omega (arith, bit_and-zero_right a a (omega arith))
bit_and-ones (suc j) a h =
    ground
      (arith, pow-suc 2 j, one-le-pow j 2, bit_and-halves a (2 ^ suc j - 1), bit_and-ones j (a / 2))

high_mask_fields :
    (j k q r : ℕ)
    → q < 2 ^ j
    → r < 2 ^ k
    → bit_and (q * 2 ^ k + r) ((2 ^ j - 1) * 2 ^ k) ≡ q * 2 ^ k
high_mask_fields j zero q r hq hr = ground (arith, bit_and-ones j q)
high_mask_fields j (suc k) q r hq hr = ground (
  arith,
  pow-suc 2 k,
  twice_shifted q k,
  twice_shifted (2 ^ j - 1) k,
  bit_and-halves (q * 2 ^ suc k + r) ((2 ^ j - 1) * 2 ^ suc k),
  high_mask_fields j k q (r / 2),
)

-- A mask of `j` ones over `k` zeros rounds down to a multiple of `2 ^ k`.
pub bit_and-high_mask :
    (j k a : ℕ) → a / 2 ^ k < 2 ^ j → bit_and a ((2 ^ j - 1) * 2 ^ k) ≡ a / 2 ^ k * 2 ^ k
bit_and-high_mask j k a h =
    ground (arith, one-le-pow k 2, high_mask_fields j k (a / 2 ^ k) (a % 2 ^ k))

self_fuel : (n a : ℕ) → a ≤ n → bit_and a a ≡ a
self_fuel n zero h = refl
self_fuel zero (suc a) h = absurd (omega arith)
self_fuel (suc n) (suc a) h =
    omega (arith, bit_and-halves (suc a) (suc a), self_fuel n (suc a / 2) (omega arith))

pub bit_and_self : (a : ℕ) → bit_and a a ≡ a
bit_and_self a = self_fuel a a (omega arith)

-- `a & (a - 1)` is zero for the powers of two only.
pub power_of_two : (n a : ℕ) → a ≤ n → 0 < a → bit_and a (a - 1) ≡ 0 → (k : ℕ) × (a ≡ 2 ^ k)
power_of_two zero a h p e = absurd (omega arith)
power_of_two (suc n) a h p e = elim (ℕ_discrete (a % 2) 0) [
  | yes even ↦
      let half = power_of_two n (a / 2) (omega arith) (omega arith) (
        omega (
          arith,
          bit_and-halves a (a - 1),
          ap (λ (t : ℕ). bit_and (a / 2) t) (predecessor even),
        )) in
      (suc half.0, omega (arith, half.1, pow-suc 2 half.0))
  | no odd ↦ (
    0,
    omega (
      arith,
      bit_and-halves a (a - 1),
      ap (λ (t : ℕ). bit_and (a / 2) t) (halves_meet odd),
      bit_and_self (a / 2),
    ),
  )
]
  where
    predecessor : a % 2 ≡ 0 → (a - 1) / 2 ≡ a / 2 - 1
    predecessor even = omega arith

    halves_meet : a % 2 ≢ 0 → (a - 1) / 2 ≡ a / 2
    halves_meet odd = omega arith

pub two_pow-add : (j k : ℕ) → 2 ^ (j + k) ≡ 2 ^ j * 2 ^ k
two_pow-add zero k = ground (arith, ap (λ (t : ℕ). 2 ^ t) (zero_left k))
  where
    zero_left : (k : ℕ) → 0 + k ≡ k
    zero_left k = omega arith
two_pow-add (suc j) k = omega (
  arith,
  ap (λ (t : ℕ). 2 ^ t) (suc_left j k),
  pow-suc 2 (j + k),
  pow-suc 2 j,
  two_pow-add j k,
  ap (λ (t : ℕ). t * 2 ^ k) (pow-suc 2 j),
)
  where
    suc_left : (j k : ℕ) → suc j + k ≡ suc (j + k)
    suc_left j k = omega arith

pub one-le-two_pow : (k : ℕ) → 1 ≤ 2 ^ k
one-le-two_pow k = one-le-pow k 2 (omega arith)
