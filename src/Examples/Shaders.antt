-- ===== src/Examples/Shaders.antt =====
-- Shader modules of guest/vulkan_icd/imb_vulkan_icd.cpp at concrete inputs.
use isaac_metal_bridge.Base.{◌≡◌, refl, Bool, true, some, List, [], ◌∷◌, contains, arith}
use isaac_metal_bridge.Icd.Shaders.{spirv_uses_float64_matrix}
use isaac_metal_bridge.Icd.Shaders.Types.{spirv_uses_float64_matrix-ends}
use isaac_metal_bridge.Icd.Shaders.Instructions.{
  Instruction, AllInstructions, encode, results, declares_float64_matrix,
  spirv_uses_float64_matrix-encode,
}

-- %1 is the 64-bit float, %2 a vector of two of it, %3 a matrix of two of those.
abbrev instructions : List Instruction
instructions =
    record { opcode = 22; operands = 1 ∷ 64 ∷ [] }
    ∷ record { opcode = 23; operands = 2 ∷ 1 ∷ 2 ∷ [] }
    ∷ record { opcode = 24; operands = 3 ∷ 2 ∷ 2 ∷ [] }
    ∷ []

instructions-AllInstructions : AllInstructions instructions
instructions-AllInstructions = (
  record { small_opcode = omega arith; short = omega arith },
  (
    record { small_opcode = omega arith; short = omega arith },
    (record { small_opcode = omega arith; short = omega arith }, tt),
  ),
)

-- A float with a word too few.
spirv_uses_float64_matrix-ends_example :
    (b : Bool) × (spirv_uses_float64_matrix (119734787 ∷ 0 ∷ 0 ∷ 9 ∷ 0 ∷ 196630 ∷ 1 ∷ []) ≡ some b)
spirv_uses_float64_matrix-ends_example =
    spirv_uses_float64_matrix-ends (119734787 ∷ 0 ∷ 0 ∷ 9 ∷ 0 ∷ 196630 ∷ 1 ∷ [])

spirv_uses_float64_matrix-encode_example :
    spirv_uses_float64_matrix (119734787 ∷ 0 ∷ 0 ∷ 9 ∷ 0 ∷ encode instructions)
    ≡ some (declares_float64_matrix instructions)
spirv_uses_float64_matrix-encode_example =
    spirv_uses_float64_matrix-encode 119734787 0 0 9 0 instructions instructions-AllInstructions

-- They declare such a matrix.
instructions_declare : declares_float64_matrix instructions ≡ true
unfolding results contains
instructions_declare = refl
