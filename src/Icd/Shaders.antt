-- ===== src/Icd/Shaders.antt =====
-- Shader modules of guest/vulkan_icd/imb_vulkan_icd.cpp: the hash of their code, and the search in
-- it for matrices of 64-bit floats.
pub mod Types
pub mod Instructions
use isaac_metal_bridge.Base.{
  ℕ, zero, suc, ◌+◌, ◌*◌, ◌/◌, ◌%◌, ◌^◌, Bool, true, false, ◌&&◌, ◌||◌, not, Option, none, some,
  List, [], ◌∷◌, ◌++◌, leb, ltb, ◌==◌, if◌then◌else◌, mul64, length, get_elem?, drop, contains,
}
use Prim.Native.Nat.{bit_xor}
use isaac_metal_bridge.Cuda.Registry.{is_member, new_object, enrol, withdraw, delete_object}
use isaac_metal_bridge.Cuda.Memory.Bytes.{byte_of}
use isaac_metal_bridge.Icd.Result.{
  initialization_failed, out_of_host_memory, Answer, reject, answer,
}
use isaac_metal_bridge.Icd.Driver.{Driver, ShaderModuleState, valid_device}

-- The hash goes on over a list of bytes.
unfoldable pub hash_bytes : ℕ → List ℕ → ℕ
hash_bytes hash [] = hash
hash_bytes hash (b ∷ bs) = hash_bytes (mul64 (bit_xor hash b) 1099511628211) bs

-- The bytes of the words, low ones first.
unfoldable pub bytes_of : List ℕ → List ℕ
unfolding byte_of
bytes_of [] = []
bytes_of (w ∷ ws) = byte_of 0 w ∷ byte_of 1 w ∷ byte_of 2 w ∷ byte_of 3 w ∷ bytes_of ws

unfoldable pub shader_hash : List ℕ → ℕ
unfolding hash_bytes bytes_of
shader_hash words = hash_bytes 1469598103934665603 (bytes_of words)

abbrev pub instruction_words : ℕ → ℕ
instruction_words word = word / 2 ^ 16 % 2 ^ 16

abbrev pub opcode_of : ℕ → ℕ
opcode_of word = word % 2 ^ 16

-- The type that the instruction at the front declares if its third word is wanted: `none` for a read
-- behind the words.
unfoldable pub declared : ℕ → (ℕ → Bool) → List ℕ → Option (List ℕ)
declared opcode wants [] = none
declared opcode wants (w ∷ ws) =
    if opcode_of w == opcode && leb 3 (instruction_words w)
    then elim (get_elem? ws 1) [
      | none ↦ none
      | some third ↦
          if wants third
          then elim (get_elem? ws 0) [ none ↦ none | some r ↦ some (r ∷ []) ]
          else some []
    ]
    else some []

abbrev pub and_append : Option (List ℕ) → Option (List ℕ) → Option (List ℕ)
and_append none rest = none
and_append (some found) none = none
and_append (some found) (some rest) = some (found ++ rest)

-- The loop over the instructions, on fuel; the words are those from the offset on.
unfoldable pub collect_result_types : ℕ → ℕ → (ℕ → Bool) → List ℕ → Option (List ℕ)
unfolding declared
collect_result_types zero opcode wants words = none
collect_result_types (suc n) opcode wants [] = some []
collect_result_types (suc n) opcode wants (w ∷ ws) =
    let rest = collect_result_types n opcode wants (drop (instruction_words w) (w ∷ ws)) in
    if instruction_words w == 0 || ltb (suc (length ws)) (instruction_words w)
    then some []
    else and_append (declared opcode wants (w ∷ ws)) rest

abbrev pub is_empty : List ℕ → Bool
is_empty [] = true
is_empty (x ∷ xs) = false

-- `words` are those behind the header of five.
unfoldable pub finds_float64_matrix : List ℕ → Option Bool
unfolding collect_result_types
finds_float64_matrix words =
    let fuel = suc (length words) in
    elim (collect_result_types fuel 22 (λ third. third == 64) words) [
      | none ↦ none
      | some floats ↦
          if is_empty floats
          then some false
          else elim (collect_result_types fuel 23 (λ third. contains third floats) words) [
            | none ↦ none
            | some vectors ↦
                if is_empty vectors
                then some false
                else elim (collect_result_types fuel 24 (λ third. contains third vectors) words) [
                  | none ↦ none
                  | some matrices ↦ some (not (is_empty matrices))
                ]
          ]
    ]

unfoldable pub spirv_uses_float64_matrix : List ℕ → Option Bool
unfolding finds_float64_matrix
spirv_uses_float64_matrix words =
    if ltb (length words) 5 then some false else finds_float64_matrix (drop 5 words)

-- The code of the shaders that the driver knows, which the build generates.
pub record KnownShaders : Type 0 where
  pub add_u32 : List ℕ
  pub triangle_vertex : List ℕ
  pub triangle_fragment : List ℕ

unfoldable pub same_words : List ℕ → List ℕ → Bool
same_words [] [] = true
same_words [] (y ∷ ys) = false
same_words (x ∷ xs) [] = false
same_words (x ∷ xs) (y ∷ ys) = x == y && same_words xs ys

abbrev pub has_magic : List ℕ → Bool
has_magic [] = false
has_magic (w ∷ ws) = w == 119734787

-- `size` is the size of the code in bytes and `words` its words; `searched` and `assigned` are false if
-- the search or the copy finds no memory.
unfoldable pub create_shader_module :
    KnownShaders
    → Bool
    → ℕ
    → ℕ
    → List ℕ
    → Option ℕ
    → Bool
    → Bool
    → Driver
    → Option (Answer Driver ℕ)
unfolding shader_hash spirv_uses_float64_matrix same_words
create_shader_module known given device size words allocation searched assigned d =
    if not given || (ltb size 4 || (not (size % 4 == 0) || not (has_magic words)))
    then some (reject d initialization_failed)
    else if not (valid_device device d)
    then some (reject d initialization_failed)
    else elim allocation [
      | none ↦ some (reject d out_of_host_memory)
      | some p ↦
          if not searched || not assigned
          then some (reject d out_of_host_memory)
          else elim (spirv_uses_float64_matrix words) [
            | none ↦ none
            | some uses ↦
                let state : ShaderModuleState = record {
                  device = device;
                  is_add_uint32 = same_words words known.add_u32;
                  is_triangle_vertex = same_words words known.triangle_vertex;
                  is_triangle_fragment = same_words words known.triangle_fragment;
                  uses_float64_matrix = uses;
                  hash = shader_hash words;
                  code = words;
                } in
                some (
                  answer
                    (record d { shader_modules = enrol p (new_object p state d.shader_modules) }) p)
          ]
    ]

unfoldable pub destroy_shader_module : ℕ → Driver → Option Driver
destroy_shader_module p d =
    if p == 0 || not (is_member p d.shader_modules)
    then some d
    else elim (delete_object p (withdraw p d.shader_modules)) [
      | none ↦ none
      | some modules ↦ some (record d { shader_modules = modules })
    ]
