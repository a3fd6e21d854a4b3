-- ===== src/Wire/Reading.antt =====
-- What `readLittleEndian` of guest/src/imb_wire.hpp returns, and when it throws.
use isaac_metal_bridge.Base.{
  ℕ, zero, suc, ◌+◌, ◌*◌, ◌%◌, ◌^◌, ◌≤◌, ◌<◌, ◌≡◌, refl, ap, ◌∙◌, ◌↔◌, none, some, [], ◌∷◌, length,
  get_or, drop, bit_or, bit_or-above, one-le-two_pow, arith,
}
use native.Mathlib.Nat.{pow-le-pow_right, mod-eq_of_lt, mul-le-mul_right, mul-lt-mul_of_pos_right}
use isaac_metal_bridge.Wire.{Bytes, read_bytes, read_little_endian}
use isaac_metal_bridge.Wire.Digits.{number, IsBytes, byte_shift}

get_or-byte : (bs : Bytes) (i : ℕ) → IsBytes bs → get_or bs i 0 < 256
get_or-byte [] i v = omega arith
get_or-byte (b ∷ bs) zero v = v.0
get_or-byte (b ∷ bs) (suc i) v = get_or-byte bs i v.1

number-drop :
    (n k : ℕ) (bs : Bytes)
    → k < length bs
    → number (suc n) (drop k bs) ≡ get_or bs k 0 + 256 * number n (drop (suc k) bs)
unfolding number
number-drop n k [] h = absurd (omega arith)
number-drop n zero (b ∷ bs) h = refl
number-drop n (suc k) (b ∷ bs) h = number-drop n k bs (omega arith)

-- One turn of the loop: the shift loses nothing, and the or adds.
turn :
    (width i b result : ℕ)
    → i < width
    → b < 256
    → result < 2 ^ (i * 8)
    → bit_or result (b * 2 ^ (i * 8) % 2 ^ (width * 8)) ≡ result + b * 2 ^ (i * 8)
turn width i b result h byte small =
    ap (λ (t : ℕ). bit_or result t) (mod-eq_of_lt fits) ∙ bit_or-above (i * 8) result b small
  where
    wide : 2 ^ ((i + 1) * 8) ≤ 2 ^ (width * 8)
    wide = pow-le-pow_right (omega arith) (omega arith)

    fits : b * 2 ^ (i * 8) < 2 ^ (width * 8)
    fits = ground (arith, wide, byte_shift i, mul-lt-mul_of_pos_right byte (one-le-two_pow (i * 8)))

pub read_bytes_lem :
    (n width i : ℕ) (input : Bytes) (offset result : ℕ)
    → i + n ≡ width
    → offset + width ≤ length input
    → IsBytes input
    → result < 2 ^ (i * 8)
    → read_bytes n width i input offset result
      ≡ result + number n (drop (offset + i) input) * 2 ^ (i * 8)
unfolding read_bytes
read_bytes_lem zero width i input offset result e room v small = unfold number in omega arith
read_bytes_lem (suc n) width i input offset result e room v small =
    let b = get_or input (offset + i) 0 in
    let byte = get_or-byte input (offset + i) v in
    let rest = number n (drop (suc (offset + i)) input) in
    let step : bit_or result (b * 2 ^ (i * 8) % 2 ^ (width * 8)) ≡ result + b * 2 ^ (i * 8) =
      turn width i b result (omega arith) byte small in
    ap (λ (t : ℕ). read_bytes n width (i + 1) input offset t) step
    ∙ read_bytes_lem n width (i + 1) input offset (result + b * 2 ^ (i * 8)) (omega arith) room v
        (grown i b result byte small)
    ∙ total i b rest result (number n (drop (offset + (i + 1)) input))
        (number (suc n) (drop (offset + i) input))
        (ap (λ (t : ℕ). number n (drop t input)) (next offset i))
        (number-drop n (offset + i) input (omega arith))
  where
    next : (offset i : ℕ) → offset + (i + 1) ≡ suc (offset + i)
    next offset i = omega arith

    at_most : (b : ℕ) → b < 256 → b ≤ 255
    at_most b h = omega arith

    grown :
        (i b result : ℕ)
        → b < 256
        → result < 2 ^ (i * 8)
        → result + b * 2 ^ (i * 8) < 2 ^ ((i + 1) * 8)
    grown i b result h small =
        omega (arith, byte_shift i, mul-le-mul_right (2 ^ (i * 8)) (at_most b h))

    total :
        (i b rest result x y : ℕ)
        → x ≡ rest
        → y ≡ b + 256 * rest
        → result + b * 2 ^ (i * 8) + x * 2 ^ ((i + 1) * 8) ≡ result + y * 2 ^ (i * 8)
    total i b rest result x y e f = omega (
      arith,
      ap (λ (t : ℕ). t * 2 ^ (i * 8)) f,
      ap (λ (t : ℕ). t * 2 ^ ((i + 1) * 8)) e,
      ap (λ (t : ℕ). rest * t) (byte_shift i),
    )

-- Reading an integer throws exactly when its last byte lies beyond the end of the input.
pub read_little_endian_iff :
    (width : ℕ) (input : Bytes) (offset : ℕ)
    → (read_little_endian width input offset ≡ none) ↔ (length input < offset + width)
unfolding read_little_endian
read_little_endian_iff width input offset = ground arith

pub read_little_endian_lem :
    (width : ℕ) (input : Bytes) (offset : ℕ)
    → offset + width ≤ length input
    → IsBytes input
    → read_little_endian width input offset ≡ some (number width (drop offset input))
unfolding read_little_endian
read_little_endian_lem width input offset room v =
    ground (arith, read_bytes_lem width width 0 input offset 0, whole)
  where
    whole : number width (drop (offset + 0) input) ≡ number width (drop offset input)
    whole = ap (λ (t : ℕ). number width (drop t input)) (same offset)
      where
        same : (k : ℕ) → k + 0 ≡ k
        same k = omega arith
