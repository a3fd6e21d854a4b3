-- ===== src/Icd/Queries/Numbers.antt =====
-- The rows of query results of guest/vulkan_icd/imb_vulkan_icd.cpp, read as numbers.
use isaac_metal_bridge.Base.{
  subst, ℕ, zero, suc, ◌+◌, ◌-◌, ◌*◌, ◌/◌, ◌%◌, ◌^◌, ◌≤◌, ◌<◌, ◌≡◌, refl, ap, sym, ◌∙◌, ◌⊎◌, inl,
  inr, Bool, true, false, ◌&&◌, ltb, ◌==◌, if◌then◌else◌, mul64, arith,
}
use native.Mathlib.Nat.{pow-suc}
use isaac_metal_bridge.Cuda.Memory.Bytes.{byte_of}
use isaac_metal_bridge.Icd.Driver.Transfers.{within}
use isaac_metal_bridge.Icd.Queries.{Row, row_size, row_byte}

-- The number in so many bytes, low byte first.
abbrev pub number_at : ℕ → ℕ → (ℕ → ℕ) → ℕ
number_at zero start bytes = 0
number_at (suc n) start bytes = bytes start + 256 * number_at n (start + 1) bytes

abbrev pub words : ℕ → Bool → ℕ
words values false = values
words values true = values + 1

-- The row of a query at an offset: its value, zeros for the other values, and whether it is ready.
pub record HoldsRow (width values : ℕ) (asked : Bool) (value : ℕ) (ready : Bool) (start : ℕ)
    (bytes : ℕ → ℕ) : Type 0 where
  pub narrow : width ≡ 4 → number_at width start bytes ≡ value % 2 ^ 32
  pub wide : width ≡ 8 → value < 2 ^ 64 → number_at width start bytes ≡ value
  pub zeros : (j : ℕ) → 0 < j → j < values → number_at width (start + j * width) bytes ≡ 0
  pub is_ready : asked ≡ true → ready ≡ true → number_at width (start + values * width) bytes ≡ 1
  pub is_not_ready :
      asked ≡ true → ready ≡ false → number_at width (start + values * width) bytes ≡ 0

number_at-byte_of :
    (n start v : ℕ) (bytes : ℕ → ℕ)
    → v < 256 ^ n
    → ((i : ℕ) → i < n → bytes (start + i) ≡ byte_of i v)
    → number_at n start bytes ≡ v
unfolding byte_of
number_at-byte_of zero start v bytes h e = omega arith
number_at-byte_of (suc n) start v bytes h e =
    let rest =
      number_at-byte_of n (start + 1) (v / 256) bytes (omega (arith, pow-suc 256 n, h))
        (λ i l. ap bytes (omega arith) ∙ e (suc i) (omega arith)) in
    let first : bytes start ≡ v % 256 = ap bytes (omega arith) ∙ e 0 (omega arith) in
    omega (arith, first, rest)

byte_of-zero : (i : ℕ) → byte_of i 0 ≡ 0
unfolding byte_of
byte_of-zero zero = refl
byte_of-zero (suc i) = byte_of-zero i

turn_le : (w j n : ℕ) → 0 < j → j < n → (w ≤ j * w) × (j * w + w ≤ n * w)
turn_le w j n p l = (grind arith, grind arith)

module _ (width values : ℕ) (asked : Bool) (either : (width ≡ 4) ⊎ (width ≡ 8)) (pos : 0 < values)
    (few : values ≤ 32) where
  abbrev pub row : Row
  row = record { width = width; values = values; availability = asked }

  bounds : (width ≤ values * width) × (values * width ≤ 256)
  bounds = elim either [
    | inl e ↦
        subst (λ (x : ℕ). (x ≤ values * x) × (values * x ≤ 256)) (sym e) (omega arith, omega arith)
    | inr e ↦
        subst (λ (x : ℕ). (x ≤ values * x) × (values * x ≤ 256)) (sym e) (omega arith, omega arith)
  ]

  pow_large : 1 < 256 ^ width
  pow_large = elim either [
    | inl e ↦ omega (arith, ap (λ (x : ℕ). 256 ^ x) e)
    | inr e ↦ omega (arith, ap (λ (x : ℕ). 256 ^ x) e)
  ]

  pub row_size_lem : row_size row ≡ words values asked * width
  row_size_lem = elim either [
    | inl e ↦
        subst
          (λ (x : ℕ).
            mul64 ((values + (if asked then 1 else 0)) % 2 ^ 32) x ≡ words values asked * x)
          (sym e) (size_at 4 asked (omega arith))
    | inr e ↦
        subst
          (λ (x : ℕ).
            mul64 ((values + (if asked then 1 else 0)) % 2 ^ 32) x ≡ words values asked * x)
          (sym e) (size_at 8 asked (omega arith))
  ]
    where
      size_at :
          (w : ℕ) (b : Bool)
          → (values + 1) * w < 2 ^ 64
          → mul64 ((values + (if b then 1 else 0)) % 2 ^ 32) w ≡ words values b * w
      size_at w false h =
          let small : (values + 0) % 2 ^ 32 ≡ values = omega arith in rw (small) (omega (arith, h))
      size_at w true h =
          let small : (values + 1) % 2 ^ 32 ≡ values + 1 = omega arith in
          rw (small) (omega (arith, h))

  words_lem : (b : Bool) → words values b * width ≡ values * width + (if b then width else 0)
  words_lem false = omega arith
  words_lem true = omega arith

  module _ (value : ℕ) (ready : Bool) (start : ℕ) (bytes : ℕ → ℕ)
      (holds : (k : ℕ)
        → k < words values asked * width
        → bytes (start + k) ≡ row_byte row value ready k) where
    value_bytes :
        (v i : ℕ)
        → v ≡ (if width == 8 then value else value % 2 ^ 32)
        → i < width
        → bytes (start + i) ≡ byte_of i v
    unfolding row_byte
    value_bytes v i e l =
        holds i (omega (arith, words_lem asked, bounds.0, l)) ∙ ground (arith, l, e)

    zero_bytes : (k : ℕ) → width ≤ k → k < values * width → bytes (start + k) ≡ 0
    unfolding row_byte
    zero_bytes k p l = holds k (omega (arith, words_lem asked, l)) ∙ ground (arith, p, l)

    ready_bytes :
        (i : ℕ)
        → asked ≡ true
        → i < width
        → bytes (start + (values * width + i)) ≡ byte_of i (if ready then 1 else 0)
    unfolding row_byte
    ready_bytes i a l =
        holds (values * width + i) (ground (arith, words_lem asked, a, l))
        ∙ reached (values * width) width asked i a l bounds.0
      where
        reached :
            (n w : ℕ) (b : Bool) (i : ℕ)
            → b ≡ true
            → i < w
            → w ≤ n
            → (if ltb (n + i) w
                then byte_of (n + i) (if w == 8 then value else value % 2 ^ 32)
                else if b && within n w (n + i)
                then byte_of (n + i - n) (if ready then 1 else 0)
                else 0)
              ≡ byte_of i (if ready then 1 else 0)
        reached n w b i a l h =
            let same : n + i - n ≡ i = omega arith in
            ground (arith, ap (λ (x : ℕ). byte_of x (if ready then 1 else 0)) same)

    value_number :
        (v : ℕ)
        → v ≡ (if width == 8 then value else value % 2 ^ 32)
        → v < 256 ^ width
        → number_at width start bytes ≡ v
    value_number v e h = number_at-byte_of width start v bytes h (λ i l. value_bytes v i e l)

    zero_number : (j : ℕ) → 0 < j → j < values → number_at width (start + j * width) bytes ≡ 0
    zero_number j p l =
        number_at-byte_of width (start + j * width) 0 bytes (omega (arith, pow_large)) (λ i h.
          ap bytes (omega arith)
          ∙ zero_bytes (j * width + i) (omega (arith, (turn_le width j values p l).0))
              (omega (arith, (turn_le width j values p l).1, h))
          ∙ sym (byte_of-zero i))

    ready_number :
        (n : ℕ)
        → asked ≡ true
        → n ≡ (if ready then 1 else 0)
        → n < 256 ^ width
        → number_at width (start + values * width) bytes ≡ n
    ready_number n a e h =
        number_at-byte_of width (start + values * width) n bytes h
          (λ i l. ap bytes (omega arith) ∙ ready_bytes i a l ∙ ap (byte_of i) (sym e))

    pub stored-HoldsRow : HoldsRow width values asked value ready start bytes
    stored-HoldsRow = record {
      narrow = λ e.
          value_number (value % 2 ^ 32) (ground (arith, e))
            (omega (arith, ap (λ (x : ℕ). 256 ^ x) e));
      wide = λ e h.
          value_number value (ground (arith, e)) (omega (arith, h, ap (λ (x : ℕ). 256 ^ x) e));
      zeros = zero_number;
      is_ready = λ a b. ready_number 1 a (ground (arith, b)) pow_large;
      is_not_ready = λ a b. ready_number 0 a (ground (arith, b)) (omega (arith, pow_large));
    }
