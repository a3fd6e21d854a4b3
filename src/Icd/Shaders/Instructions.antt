-- ===== src/Icd/Shaders/Instructions.antt =====
-- What the search of guest/vulkan_icd/imb_vulkan_icd.cpp for matrices of 64-bit floats finds in a
-- list of instructions.
use isaac_metal_bridge.Base.{
  ℕ, zero, suc, ◌+◌, ◌*◌, ◌^◌, ◌<◌, ◌≡◌, refl, ap, sym, ◌∙◌, inl, inr, Bool-cases, Bool, true,
  false, ◌&&◌, ◌||◌, not, Option, some, List, [], ◌∷◌, ◌++◌, leb, ltb, ◌==◌, if◌then◌else◌, length,
  drop, contains, arith, length-append,
}
use isaac_metal_bridge.Icd.Shaders.{
  instruction_words, opcode_of, declared, and_append, collect_result_types, is_empty,
  finds_float64_matrix, spirv_uses_float64_matrix,
}

pub record Instruction : Type 0 where
  pub opcode : ℕ
  pub operands : List ℕ

-- The opcode and the number of words fit sixteen bits each.
pub record IsInstruction (i : Instruction) : Type 0 where
  pub small_opcode : i.opcode < 2 ^ 16
  pub short : suc (length i.operands) < 2 ^ 16

abbrev pub AllInstructions : List Instruction → Type 0
AllInstructions [] = Unit {0}
AllInstructions (i ∷ is) = IsInstruction i × AllInstructions is

abbrev pub first_word : Instruction → ℕ
first_word i = suc (length i.operands) * 2 ^ 16 + i.opcode

unfoldable pub encode : List Instruction → List ℕ
encode [] = []
encode (i ∷ is) = first_word i ∷ i.operands ++ encode is

-- The type that an instruction declares: its first operand, if its second is wanted.
unfoldable pub declares : (ℕ → Bool) → List ℕ → List ℕ
declares wants (result ∷ third ∷ more) = if wants third then result ∷ [] else []
declares wants _ = []

unfoldable pub results : ℕ → (ℕ → Bool) → List Instruction → List ℕ
unfolding declares
results opcode wants [] = []
results opcode wants (i ∷ is) =
    (if i.opcode == opcode then declares wants i.operands else []) ++ results opcode wants is

-- The specification: a matrix of vectors of floats of 64 bits.
abbrev pub declares_float64_matrix : List Instruction → Bool
declares_float64_matrix is =
    let floats = results 22 (λ third. third == 64) is in
    let vectors = results 23 (λ third. contains third floats) is in
    not (is_empty (results 24 (λ third. contains third vectors) is))

drop-append : (xs ys : List ℕ) → drop (length xs) (xs ++ ys) ≡ ys
drop-append [] ys = refl
drop-append (x ∷ xs) ys = drop-append xs ys

declared-declares :
    (opcode code : ℕ) (wants : ℕ → Bool) (w : ℕ) (operands rest : List ℕ)
    → opcode_of w ≡ code
    → instruction_words w ≡ suc (length operands)
    → declared opcode wants (w ∷ operands ++ rest)
      ≡ some (if code == opcode then declares wants operands else [])
unfolding declared declares
declared-declares opcode code wants w [] rest is_code words = rw (declared, none_here) none_there
  where
    none_here : (opcode_of w == opcode && leb 3 (instruction_words w)) ≡ false
    none_here = ground (arith, words)

    none_there : some [] ≡ some (if code == opcode then declares wants [] else [])
    none_there = ground arith
declared-declares opcode code wants w (x ∷ []) rest is_code words =
    rw (declared, none_here) none_there
  where
    none_here : (opcode_of w == opcode && leb 3 (instruction_words w)) ≡ false
    none_here = ground (arith, words)

    none_there : some [] ≡ some (if code == opcode then declares wants (x ∷ []) else [])
    none_there = ground arith
declared-declares opcode code wants w (x ∷ y ∷ more) rest is_code words =
    elim (Bool-cases (code == opcode)) [
      | inr other ↦ rw (declared, skipped other, other) refl
      | inl here ↦ elim (Bool-cases (wants y)) [
        | inl wanted ↦ rw (declared, taken here, wanted, here) refl
        | inr unwanted ↦ rw (declared, taken here, unwanted, here) refl
      ]
    ]
  where
    skipped :
        (code == opcode) ≡ false → (opcode_of w == opcode && leb 3 (instruction_words w)) ≡ false
    skipped other = ground (arith, is_code)

    taken : (code == opcode) ≡ true → (opcode_of w == opcode && leb 3 (instruction_words w)) ≡ true
    taken here = ground (arith, is_code, words)

module _ (i : Instruction) (ok : IsInstruction i) where
  instruction_words-first_word : instruction_words (first_word i) ≡ suc (length i.operands)
  instruction_words-first_word = omega (arith, ok.small_opcode, ok.short)

  opcode_of-first_word : opcode_of (first_word i) ≡ i.opcode
  opcode_of-first_word = omega (arith, ok.small_opcode, ok.short)

collect_result_types-encode :
    (n opcode : ℕ) (wants : ℕ → Bool) (is : List Instruction)
    → AllInstructions is
    → length (encode is) < n
    → collect_result_types n opcode wants (encode is) ≡ some (results opcode wants is)
unfolding collect_result_types encode results
collect_result_types-encode zero opcode wants is ok fuel = absurd (omega arith)
collect_result_types-encode (suc n) opcode wants [] ok fuel = refl
collect_result_types-encode (suc n) opcode wants (i ∷ is) ok fuel =
    let words = instruction_words-first_word i ok.0 in
    let here =
      declared-declares opcode i.opcode wants (first_word i) i.operands (encode is)
        (opcode_of-first_word i ok.0) words in
    let rest =
      collect_result_types-encode n opcode wants is ok.1
        (omega (arith, fuel, length-append i.operands (encode is))) in
    rw (collect_result_types, inside words, here)
      (ap
        (λ (x : Option (List ℕ)).
          and_append (some (if i.opcode == opcode then declares wants i.operands else [])) x)
        (again words ∙ rest))
  where
    inside :
        instruction_words (first_word i) ≡ suc (length i.operands)
        → (instruction_words (first_word i) == 0
            || ltb (suc (length (i.operands ++ encode is))) (instruction_words (first_word i)))
          ≡ false
    inside words = ground (arith, words, length-append i.operands (encode is))

    again :
        instruction_words (first_word i) ≡ suc (length i.operands)
        → collect_result_types n opcode wants
            (drop (instruction_words (first_word i)) (first_word i ∷ i.operands ++ encode is))
          ≡ collect_result_types n opcode wants (encode is)
    again words =
        ap
          (λ (k : ℕ).
            collect_result_types n opcode wants (drop k (first_word i ∷ i.operands ++ encode is)))
          words
        ∙ ap (λ (x : List ℕ). collect_result_types n opcode wants x)
            (drop-append i.operands (encode is))

-- No type is found among none.
declares-nothing : (operands : List ℕ) → declares (λ third. contains third []) operands ≡ []
unfolding declares contains
declares-nothing [] = refl
declares-nothing (x ∷ []) = refl
declares-nothing (x ∷ y ∷ more) = refl

results-nothing :
    (opcode : ℕ) (types : List ℕ) (is : List Instruction)
    → is_empty types ≡ true
    → results opcode (λ third. contains third types) is ≡ []
unfolding results
results-nothing opcode (x ∷ types) is e = absurd (cc e)
results-nothing opcode [] [] e = refl
results-nothing opcode [] (i ∷ is) e = elim (Bool-cases (i.opcode == opcode)) [
  | inl here ↦ rw (results, here, declares-nothing i.operands) (results-nothing opcode [] is e)
  | inr other ↦ rw (results, other) (results-nothing opcode [] is e)
]

-- For the words of a list of instructions, whose opcodes and numbers of words fit sixteen bits,
-- behind any header of five words, the search answers whether the instructions declare a matrix
-- type whose columns are of a vector type whose components are of a float type of 64 bits.
pub spirv_uses_float64_matrix-encode :
    (magic version generator bound schema : ℕ) (is : List Instruction)
    → AllInstructions is
    → spirv_uses_float64_matrix (magic ∷ version ∷ generator ∷ bound ∷ schema ∷ encode is)
      ≡ some (declares_float64_matrix is)
unfolding spirv_uses_float64_matrix finds_float64_matrix
spirv_uses_float64_matrix-encode magic version generator bound schema is ok =
    rw (whole, finds_float64_matrix, read 22 (λ third. third == 64))
      (elim (Bool-cases (is_empty floats)) [
        | inl no_floats ↦ rw no_floats (ap (λ (x : Bool). some x) (sym (nothing no_floats)))
        | inr some_floats ↦
            rw (some_floats, read 23 (λ third. contains third floats))
              (elim (Bool-cases (is_empty vectors)) [
                | inl no_vectors ↦
                    rw no_vectors (ap (λ (x : Bool). some x) (sym (no_matrix no_vectors)))
                | inr some_vectors ↦
                    rw (some_vectors, read 24 (λ third. contains third vectors)) refl
              ])
      ])
  where
    floats : List ℕ
    floats = results 22 (λ third. third == 64) is

    vectors : List ℕ
    vectors = results 23 (λ third. contains third floats) is

    whole : ltb (length (magic ∷ version ∷ generator ∷ bound ∷ schema ∷ encode is)) 5 ≡ false
    whole = ground arith

    read :
        (opcode : ℕ) (wants : ℕ → Bool)
        → collect_result_types (suc (length (encode is))) opcode wants (encode is)
          ≡ some (results opcode wants is)
    read opcode wants =
        collect_result_types-encode (suc (length (encode is))) opcode wants is ok (omega arith)

    no_matrix : is_empty vectors ≡ true → declares_float64_matrix is ≡ false
    no_matrix e = ap (λ (x : List ℕ). not (is_empty x)) (results-nothing 24 vectors is e)

    nothing : is_empty floats ≡ true → declares_float64_matrix is ≡ false
    nothing e = no_matrix (ap is_empty (results-nothing 23 floats is e))
