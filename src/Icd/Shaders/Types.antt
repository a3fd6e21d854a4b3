-- ===== src/Icd/Shaders/Types.antt =====
-- The search of guest/vulkan_icd/imb_vulkan_icd.cpp for matrices of 64-bit floats ends, and on a
-- list of instructions finds what they declare.
use isaac_metal_bridge.Base.{
  ℕ, zero, suc, ◌-◌, ◌≤◌, ◌<◌, ◌≡◌, refl, inl, inr, Bool-cases, Bool, false, ◌&&◌, ◌||◌, not, some,
  List, [], ◌∷◌, ◌++◌, leb, ltb, ◌==◌, length, drop, contains, arith,
}
use isaac_metal_bridge.Icd.Shaders.{
  instruction_words, opcode_of, declared, collect_result_types, is_empty, finds_float64_matrix,
  spirv_uses_float64_matrix,
}

length-drop : {A : Type 0} (n : ℕ) (xs : List A) → length (drop n xs) ≡ length xs - n
length-drop zero xs = omega arith
length-drop (suc n) [] = omega arith
length-drop (suc n) (x ∷ xs) = omega (arith, length-drop n xs)

-- An instruction that lies inside the words is read.
declared-reads :
    (opcode : ℕ) (wants : ℕ → Bool) (w : ℕ) (ws : List ℕ)
    → instruction_words w ≤ suc (length ws)
    → (found : List ℕ) × (declared opcode wants (w ∷ ws) ≡ some found)
unfolding declared
declared-reads opcode wants w [] inside = ([], rw short refl)
  where
    short : (opcode_of w == opcode && leb 3 (instruction_words w)) ≡ false
    short = ground (arith, inside)
declared-reads opcode wants w (x ∷ []) inside = ([], rw short refl)
  where
    short : (opcode_of w == opcode && leb 3 (instruction_words w)) ≡ false
    short = ground (arith, inside)
declared-reads opcode wants w (x ∷ y ∷ ws) inside =
    elim (Bool-cases (opcode_of w == opcode && leb 3 (instruction_words w))) [
      | inr other ↦ ([], rw other refl)
      | inl here ↦ elim (Bool-cases (wants y)) [
        | inl wanted ↦ (x ∷ [], rw (here, wanted) refl)
        | inr unwanted ↦ ([], rw (here, unwanted) refl)
      ]
    ]

collect_result_types-ends :
    (n opcode : ℕ) (wants : ℕ → Bool) (words : List ℕ)
    → length words < n
    → (found : List ℕ) × (collect_result_types n opcode wants words ≡ some found)
unfolding collect_result_types
collect_result_types-ends zero opcode wants words fuel = absurd (omega arith)
collect_result_types-ends (suc n) opcode wants [] fuel = ([], refl)
collect_result_types-ends (suc n) opcode wants (w ∷ ws) fuel =
    elim (Bool-cases (instruction_words w == 0 || ltb (suc (length ws)) (instruction_words w))) [
      | inl broken ↦ ([], rw broken refl)
      | inr sound ↦
          let here = declared-reads opcode wants w ws (ground arith) in
          let rest =
            collect_result_types-ends n opcode wants (drop (instruction_words w) (w ∷ ws))
              (shorter (instruction_words w) sound) in
          (here.0 ++ rest.0, rw (sound, here.1, rest.1) refl)
    ]
  where
    shorter : (k : ℕ) → (k == 0 || ltb (suc (length ws)) k) ≡ false → length (drop k (w ∷ ws)) < n
    shorter k h = ground (arith, length-drop k (w ∷ ws))

-- For any words, also of no valid module, the search for matrices of 64-bit floats ends, with one
-- turn more than there are words behind the header for each of its loops, and reads no word behind
-- the last.
pub spirv_uses_float64_matrix-ends :
    (words : List ℕ) → (b : Bool) × (spirv_uses_float64_matrix words ≡ some b)
unfolding spirv_uses_float64_matrix finds_float64_matrix
spirv_uses_float64_matrix-ends words = elim (Bool-cases (ltb (length words) 5)) [
  | inl short ↦ (false, rw short refl)
  | inr long ↦
      let rest = drop 5 words in
      let n = suc (length rest) in
      let floats = collect_result_types-ends n 22 (λ third. third == 64) rest (omega arith) in
      elim (Bool-cases (is_empty floats.0)) [
        | inl no_floats ↦ (false, rw (long, finds_float64_matrix, floats.1, no_floats) refl)
        | inr some_floats ↦
            let vectors =
              collect_result_types-ends n 23 (λ third. contains third floats.0) rest
                (omega arith) in
            elim (Bool-cases (is_empty vectors.0)) [
              | inl no_vectors ↦ (
                false,
                rw (long, finds_float64_matrix, floats.1, some_floats, vectors.1, no_vectors) refl,
              )
              | inr some_vectors ↦
                  let matrices =
                    collect_result_types-ends n 24 (λ third. contains third vectors.0) rest
                      (omega arith) in
                  (
                    not (is_empty matrices.0),
                    rw
                        (
                          long, finds_float64_matrix, floats.1, some_floats, vectors.1,
                          some_vectors, matrices.1,
                        )
                        refl,
                  )
            ]
      ]
]
