-- ===== src/Wire/Digits.antt =====
-- The little-endian digits of a number, the specification of the loops of
-- guest/src/imb_wire.hpp.
use isaac_metal_bridge.Base.{
  ℕ, zero, suc, ◌+◌, ◌*◌, ◌/◌, ◌%◌, ◌^◌, ◌≤◌, ◌<◌, ◌≡◌, refl, ap, ap₂, sym, ◌∙◌, [], ◌∷◌, ◌++◌,
  length, drop, two_pow-add, one-le-two_pow, arith,
}
use native.Mathlib.Nat.{div-div-eq-div-mul}
use isaac_metal_bridge.Wire.{Bytes, append_bytes, append_little_endian}

unfoldable pub digits : ℕ → ℕ → Bytes
digits zero v = []
digits (suc n) v = v % 256 ∷ digits n (v / 256)

-- The number in the first `n` bytes.
unfoldable pub number : ℕ → Bytes → ℕ
number zero bs = 0
number (suc n) [] = 0
number (suc n) (b ∷ bs) = b + 256 * number n bs

abbrev pub IsBytes : Bytes → Type 0
IsBytes [] = Unit {0}
IsBytes (b ∷ bs) = (b < 256) × IsBytes bs

pub byte_shift : (i : ℕ) → 2 ^ ((i + 1) * 8) ≡ 2 ^ (i * 8) * 256
byte_shift i = ap (λ (t : ℕ). 2 ^ t) (next i) ∙ two_pow-add (i * 8) 8
  where
    next : (i : ℕ) → (i + 1) * 8 ≡ i * 8 + 8
    next i = omega arith

pub append_assoc : (xs ys zs : Bytes) → xs ++ ys ++ zs ≡ xs ++ (ys ++ zs)
append_assoc [] ys zs = refl
append_assoc (x ∷ xs) ys zs = ap (λ (t : Bytes). x ∷ t) (append_assoc xs ys zs)

pub append-nil : (xs : Bytes) → xs ++ [] ≡ xs
append-nil [] = refl
append-nil (x ∷ xs) = ap (λ (t : Bytes). x ∷ t) (append-nil xs)

append_bytes_lem :
    (n i : ℕ) (output : Bytes) (v : ℕ)
    → append_bytes n i output v ≡ output ++ digits n (v / 2 ^ (i * 8))
unfolding append_bytes digits
append_bytes_lem zero i output v = sym (append-nil output)
append_bytes_lem (suc n) i output v =
    append_bytes_lem n (i + 1) (output ++ (v / 2 ^ (i * 8) % 256) ∷ []) v
    ∙ push output (v / 2 ^ (i * 8) % 256) (digits n (v / 2 ^ ((i + 1) * 8)))
    ∙ ap (λ (t : ℕ). output ++ (v / 2 ^ (i * 8) % 256) ∷ digits n t) (shifted v i)
  where
    push : (xs : Bytes) (b : ℕ) (ys : Bytes) → (xs ++ b ∷ []) ++ ys ≡ xs ++ (b ∷ ys)
    push xs b ys = append_assoc xs (b ∷ []) ys

    shifted : (v i : ℕ) → v / 2 ^ ((i + 1) * 8) ≡ v / 2 ^ (i * 8) / 256
    shifted v i =
        ap (λ (t : ℕ). v / t) (byte_shift i) ∙ sym (div-div-eq-div-mul v (2 ^ (i * 8)) 256)

pub append_little_endian_lem :
    (width : ℕ) (output : Bytes) (v : ℕ)
    → append_little_endian width output v ≡ output ++ digits width v
append_little_endian_lem width output v =
    append_bytes_lem width 0 output v ∙ ap (λ (t : ℕ). output ++ digits width t) (whole v)
  where
    whole : (v : ℕ) → v / 2 ^ (0 * 8) ≡ v
    whole v = omega arith

pub number-digits : (n v : ℕ) (rest : Bytes) → v < 2 ^ (n * 8) → number n (digits n v ++ rest) ≡ v
unfolding number digits
number-digits zero v rest h = omega arith
number-digits (suc n) v rest h =
    omega (arith, number-digits n (v / 256) rest (omega (arith, shift n)))
  where
    shift : (n : ℕ) → 2 ^ (suc n * 8) ≡ 2 ^ (n * 8) * 256
    shift n = ap (λ (t : ℕ). 2 ^ (t * 8)) (one_more n) ∙ byte_shift n
      where
        one_more : (n : ℕ) → suc n ≡ n + 1
        one_more n = omega arith

pub digits-number :
    (n : ℕ) (bs : Bytes) → n ≤ length bs → IsBytes bs → digits n (number n bs) ++ drop n bs ≡ bs
unfolding number digits
digits-number zero bs h v = refl
digits-number (suc n) [] h v = absurd (omega arith)
digits-number (suc n) (b ∷ bs) h v =
    ap₂ (λ (t : ℕ) (ts : Bytes). t ∷ ts) (low v.0)
      (ap (λ (t : ℕ). digits n t ++ drop n bs) (high v.0) ∙ digits-number n bs (omega arith) v.1)
  where
    low : b < 256 → (b + 256 * number n bs) % 256 ≡ b
    low h = omega arith

    high : b < 256 → (b + 256 * number n bs) / 256 ≡ number n bs
    high h = omega arith

pub number-lt : (n : ℕ) (bs : Bytes) → IsBytes bs → number n bs < 2 ^ (n * 8)
unfolding number
number-lt zero bs v = omega arith
number-lt (suc n) [] v = one-le-two_pow (suc n * 8)
number-lt (suc n) (b ∷ bs) v = omega (arith, number-lt n bs v.1, v.0, shift n)
  where
    shift : (n : ℕ) → 2 ^ (suc n * 8) ≡ 2 ^ (n * 8) * 256
    shift n = ap (λ (t : ℕ). 2 ^ (t * 8)) (one_more n) ∙ byte_shift n
      where
        one_more : (n : ℕ) → suc n ≡ n + 1
        one_more n = omega arith
