-- ===== src/Icd/Saturation.antt =====
-- The clamped arithmetic of guest/vulkan_icd/imb_vulkan_icd.cpp is exact arithmetic cut at
-- UINT64_MAX, and `alignClamped` rounds up.
use isaac_metal_bridge.Base.{
  ℕ, zero, suc, ◌+◌, ◌-◌, ◌*◌, ◌/◌, ◌%◌, ◌^◌, ◌≤◌, ◌<◌, min, ◌≡◌, ap, ◌∙◌, inl, inr, ◌⊎◌,
  Bool-cases, ltb, leb, leb→le, max64, two64, add64, sub64, not64, bit_and, round_down,
  one-le-two_pow, arith,
}
use native.Mathlib.Nat.{
  le-div_iff_mul-le, mul_comm, pow-le-pow_right, mul-mod_left, div-add-mod', mod-lt,
  le-mul_of_pos_right,
}
use isaac_metal_bridge.Icd.Sizes.{clamped_multiply, clamped_add, align_clamped}

abbrev pub sat : ℕ → ℕ
sat n = min n max64

pub clamped_add_lem : (a b : ℕ) → a ≤ max64 → b ≤ max64 → clamped_add a b ≡ sat (a + b)
unfolding clamped_add
clamped_add_lem a b h k = ground arith

pub clamped_multiply_lem : (a b : ℕ) → clamped_multiply a b ≡ sat (a * b)
unfolding clamped_multiply
clamped_multiply_lem zero b = ground arith
clamped_multiply_lem (suc a) b = elim (Bool-cases (ltb (max64 / suc a) b)) [
  | inl over ↦ rw over (
      ground (
        arith,
        (le-div_iff_mul-le {k = suc a} {x = b} {y = max64} (omega arith)).1,
        mul_comm b (suc a),
      ))
  | inr fits ↦ rw fits (
      ground (
        arith,
        (le-div_iff_mul-le {k = suc a} {x = b} {y = max64} (omega arith)).0,
        mul_comm b (suc a),
      ))
]

pub sat-sat_add : (a b : ℕ) → sat (sat a + sat b) ≡ sat (a + b)
sat-sat_add a b = omega arith

pub sat-sat_mul : (a b : ℕ) → sat (sat a * b) ≡ sat (a * b)
sat-sat_mul a zero = omega arith
sat-sat_mul a (suc b) = elim (Bool-cases (leb a max64)) [
  | inl small ↦ ap (λ (t : ℕ). sat (t * suc b)) (within a (leb→le a max64 small))
  | inr large ↦
      ap (λ (t : ℕ). sat (t * suc b)) (beyond a (ground arith))
      ∙ both (max64 * suc b) (a * suc b) (le-mul_of_pos_right {m = suc b} max64 (omega arith))
          (above a (a * suc b) (ground arith) (le-mul_of_pos_right {m = suc b} a (omega arith)))
]
  where
    within : (a : ℕ) → a ≤ max64 → sat a ≡ a
    within a h = omega arith

    beyond : (a : ℕ) → max64 < a → sat a ≡ max64
    beyond a h = omega arith

    above : (a x : ℕ) → max64 < a → a ≤ x → max64 ≤ x
    above a x h k = omega arith

    both : (x y : ℕ) → max64 ≤ x → max64 ≤ y → sat x ≡ sat y
    both x y h k = omega arith

-- The least multiple of `2 ^ k` that is not below the value, or UINT64_MAX.
pub align_clamped_lem :
    (value k : ℕ)
    → k < 64
    → value ≤ max64
    → (align_clamped value (2 ^ k) ≡ max64)
      ⊎ ((value ≤ align_clamped value (2 ^ k))
          × (align_clamped value (2 ^ k) < value + 2 ^ k)
          × (align_clamped value (2 ^ k) % 2 ^ k ≡ 0)
          × (align_clamped value (2 ^ k) ≤ max64))
unfolding align_clamped
align_clamped_lem value k small below = elim (Bool-cases (ltb (max64 - (2 ^ k - 1)) value)) [
  | inl over ↦ inl (ground (arith, one-le-two_pow k))
  | inr fits ↦
      let p = 2 ^ k in
      let sum : sub64 (add64 value p) 1 ≡ value + p - 1 =
        add-before value p (one-le-two_pow k)
          (room value p (one-le-two_pow k) (top k small) (ground arith)) in
      let end : value + p - 1 ≤ max64 = ground (arith, one-le-two_pow k) in
      let rounded : align_clamped value p ≡ (value + p - 1) / p * p = ground (
        arith,
        one-le-two_pow k,
        ap (λ (t : ℕ). bit_and t (not64 (p - 1))) sum,
        round_down k (value + p - 1),
      ) in
      inr (
        omega (
          arith,
          rounded,
          div-add-mod' (value + p - 1) p,
          mod-lt (value + p - 1) (one-le-two_pow k),
        ),
        omega (arith, rounded, div-add-mod' (value + p - 1) p, one-le-two_pow k),
        ap (λ (t : ℕ). t % p) rounded ∙ mul-mod_left ((value + p - 1) / p) p,
        omega (arith, rounded, div-add-mod' (value + p - 1) p, one-le-two_pow k, end),
      )
]
  where
    top : (k : ℕ) → k < 64 → 2 ^ k ≤ two64
    top k h = pow-le-pow_right {n = 2} (omega arith) {i = k} {j = 64} (omega arith)

    room : (value p : ℕ) → 1 ≤ p → p ≤ two64 → value ≤ max64 - (p - 1) → value + p ≤ two64
    room value p one below h = omega arith

    add-before : (value p : ℕ) → 1 ≤ p → value + p ≤ two64 → sub64 (add64 value p) 1 ≡ value + p - 1
    add-before value p one h = omega arith
