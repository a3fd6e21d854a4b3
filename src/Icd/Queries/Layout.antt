-- ===== src/Icd/Queries/Layout.antt =====
-- What a row of query results of guest/vulkan_icd/imb_vulkan_icd.cpp is made of.
use isaac_metal_bridge.Base.{
  ℕ, zero, suc, ◌+◌, ◌/◌, ◌%◌, ◌^◌, ◌≤◌, ◌<◌, ◌≡◌, ◌≢◌, refl, ap, sym, ◌∙◌, ◌⊎◌, Bool, true, false,
  max, bit_and, arith,
}
use native.Mathlib.Nat.{pow-suc, div-div-eq-div-mul}
use isaac_metal_bridge.Icd.Driver.{Enums, QueryPoolState}
use isaac_metal_bridge.Icd.Queries.{row_of, count_bits, value_count}

-- How many of the lowest bits of a number are set.
unfoldable pub set_bits : ℕ → ℕ → ℕ
set_bits zero bits = 0
set_bits (suc n) bits = set_bits n bits + bits / 2 ^ n % 2

-- What the flags and the type of the pool ask for: so many values of so many bytes for each query,
-- and whether an availability follows them.
pub record IsLayout (vk : Enums) (flags : ℕ) (s : QueryPoolState) (width values : ℕ) (asked : Bool)
    : Type 0 where
  pub narrow : bit_and flags vk.query_result_64 ≡ 0 → width ≡ 4
  pub wide : bit_and flags vk.query_result_64 ≢ 0 → width ≡ 8
  pub one : s.type ≢ vk.query_type_pipeline_statistics → values ≡ 1
  pub statistics :
      s.type ≡ vk.query_type_pipeline_statistics
      → values ≡ max (set_bits 32 s.pipeline_statistics) 1
  pub unasked : bit_and flags vk.query_result_with_availability ≡ 0 → asked ≡ false
  pub available : bit_and flags vk.query_result_with_availability ≢ 0 → asked ≡ true

set_bits-halves : (n bits : ℕ) → set_bits (suc n) bits ≡ bits % 2 + set_bits n (bits / 2)
unfolding set_bits
set_bits-halves zero bits = omega arith
set_bits-halves (suc n) bits =
    let next : bits / 2 ^ suc n ≡ bits / 2 / 2 ^ n =
      ap (λ (x : ℕ). bits / x) (omega (arith, pow-suc 2 n))
      ∙ sym (div-div-eq-div-mul bits 2 (2 ^ n)) in
    let last : bits / 2 ^ suc n % 2 ≡ bits / 2 / 2 ^ n % 2 = ap (λ (x : ℕ). x % 2) next in
    omega (arith, set_bits-halves n bits, last)

set_bits-le : (n bits : ℕ) → set_bits n bits ≤ n
unfolding set_bits
set_bits-le zero bits = omega arith
set_bits-le (suc n) bits = omega (arith, set_bits-le n bits)

set_bits-zero : (n : ℕ) → set_bits n 0 ≡ 0
unfolding set_bits
set_bits-zero zero = refl
set_bits-zero (suc n) = omega (arith, set_bits-halves n 0, set_bits-zero n)

count_bits_lem : (n bits : ℕ) → count_bits n bits ≡ set_bits n bits
unfolding count_bits set_bits
count_bits_lem zero bits = refl
count_bits_lem (suc n) bits =
    ground (arith, set_bits-halves n bits, set_bits-zero (suc n), count_bits_lem n (bits / 2))

value_count_lem :
    (vk : Enums) (flags : ℕ) (s : QueryPoolState) (width values : ℕ) (asked : Bool)
    → IsLayout vk flags s width values asked
    → value_count vk s ≡ values
unfolding value_count
value_count_lem vk flags s width values asked l =
    ground (arith, l.one, l.statistics, count_bits_lem 32 s.pipeline_statistics)

-- The row that the code works out is the one asked for.
pub row_of_lem :
    (vk : Enums) (flags : ℕ) (s : QueryPoolState) (width values : ℕ) (asked : Bool)
    → IsLayout vk flags s width values asked
    → row_of vk flags s ≡ record { width = width; values = values; availability = asked }
row_of_lem vk flags s width values asked l =
    let w : (row_of vk flags s).width ≡ width = ground (arith, l.narrow, l.wide) in
    let v : (row_of vk flags s).values ≡ values = value_count_lem vk flags s width values asked l in
    let a : (row_of vk flags s).availability ≡ asked = ground (arith, l.unasked, l.available) in
    λ i. record { width = w i; values = v i; availability = a i }

pub IsLayout-small :
    (vk : Enums) (flags : ℕ) (s : QueryPoolState) (width values : ℕ) (asked : Bool)
    → IsLayout vk flags s width values asked
    → ((width ≡ 4) ⊎ (width ≡ 8)) × (0 < values) × (values ≤ 32)
IsLayout-small vk flags s width values asked l = (
  ground (arith, l.narrow, l.wide),
  ground (arith, l.one, l.statistics),
  ground (arith, l.one, l.statistics, set_bits-le 32 s.pipeline_statistics),
)
