-- ===== src/Cuda/External.antt =====
-- External memory of guest/cuda_shim/imb_cuda_shim.cpp, with the globals its mipmapped arrays and
-- arrays share. Handles are addresses, 0 for null; what `new`, `mmap` and `fstat` return is an
-- argument of the call.
pub mod Mipmaps
pub mod Arrays
pub mod LevelArrays
pub mod Intact
pub mod Changes
pub mod Rollback
pub mod Histories
use isaac_metal_bridge.Base.{
  ℕ, ◌-◌, ◌^◌, ℤ, pos, Bool, true, false, not, ◌||◌, Option, none, some, List, [], ◌∷◌, put, insert,
  set, leb, ltb, ◌==◌, if◌then◌else◌, max64, add64, bit_and,
}
use isaac_metal_bridge.Cuda.Result.{
  Reply, Outcome, done, fault, fail, succeed, quiet, invalid_value, out_of_memory, invalid_handle,
}
use isaac_metal_bridge.Cuda.Registry.{
  Registry, is_member, object, new_object, enrol, withdraw, delete_object,
}
use isaac_metal_bridge.Cuda.Memory.State.{Memory, munmap, close, after_call}

pub record ExternalMemoryState : Type 0 where
  pub fd : ℕ
  pub size : ℕ
  pub mapping : ℕ

-- `mipmap` is 0 for an array of its own.
pub record ArrayState : Type 0 where
  pub mipmap : ℕ
  pub level : ℕ

pub record MipmapDescriptor : Type 0 where
  pub offset : ℕ
  pub width : ℕ
  pub height : ℕ
  pub depth : ℕ
  pub format : ℤ
  pub num_channels : ℕ
  pub flags : ℕ
  pub num_levels : ℕ

-- `levels` holds a null pointer for a level whose array was destroyed.
pub record MipmappedArrayState : Type 0 where
  pub memory : ℕ
  pub descriptor : MipmapDescriptor
  pub levels : List (Option ℕ)

-- gExternalMemories, gMipmappedArrays, gArrays, gNextTextureObject, over the memory globals.
pub record External : Type 0 where
  pub memory : Memory
  pub memories : Registry ExternalMemoryState
  pub mipmaps : Registry MipmappedArrayState
  pub arrays : Registry ArrayState
  pub next_texture_object : ℕ

pub record HandleDescriptor : Type 0 where
  pub type : ℤ
  pub fd : ℤ
  pub size : ℕ
  pub flags : ℕ

pub record BufferDescriptor : Type 0 where
  pub offset : ℕ
  pub size : ℕ
  pub flags : ℕ

-- The descriptor of a handle whose type is 1, OPAQUE_FD, if it is one.
abbrev pub opaque_fd : ℤ → ℤ → Option ℕ
opaque_fd (pos t) (pos fd) = if t == 1 then some fd else none
opaque_fd _ _ = none

-- `fstat` succeeds, and the file is large enough.
abbrev pub is_large_enough : Option ℤ → ℕ → Bool
is_large_enough (some (pos n)) size = leb size n
is_large_enough _ size = false

unfoldable pub map_external : External → ℕ → ℕ → Option ℕ → Option ℕ → Reply External ℕ
map_external x fd size none allocation = fail x out_of_memory
map_external x fd size (some mapping) none =
    fail (record x { memory = after_call x.memory (munmap mapping size) }) out_of_memory
map_external x fd size (some mapping) (some p) =
    let state : ExternalMemoryState = record { fd = fd; size = size; mapping = mapping } in
    succeed (record x { memories = enrol p (new_object p state x.memories) }) p

unfoldable pub cu_import_external_memory :
    External → Bool → Option HandleDescriptor → Option ℤ → Option ℕ → Option ℕ → Reply External ℕ
cu_import_external_memory x given none status mapping allocation = fail x invalid_value
cu_import_external_memory x given (some d) status mapping allocation =
    elim (opaque_fd d.type d.fd) [
      | none ↦ fail x invalid_value
      | some fd ↦
          if not given
            || (d.size == 0 || (not (bit_and d.flags (2 ^ 32 - 2) == 0) || ltb max64 d.size))
          then fail x invalid_value
          else if not (is_large_enough status d.size)
          then fail x invalid_value
          else map_external x fd d.size mapping allocation
    ]

-- The buffer inside a valid external memory.
unfoldable pub map_buffer : External → ExternalMemoryState → BufferDescriptor → Reply External ℕ
map_buffer x state d =
    if ltb state.size d.offset || ltb (state.size - d.offset) d.size
    then fail x invalid_handle
    else let pointer = add64 state.mapping d.offset in
      succeed
        (record x {
          memory = record (x.memory) {
            device_allocations = put pointer d.size x.memory.device_allocations;
            external_device_pointers = insert pointer x.memory.external_device_pointers;
          };
        })
        pointer

unfoldable pub cu_external_memory_get_mapped_buffer :
    External → Bool → ℕ → Option BufferDescriptor → Outcome External ℕ
cu_external_memory_get_mapped_buffer x given external_memory none = done (fail x invalid_value)
cu_external_memory_get_mapped_buffer x given external_memory (some d) =
    if not given
      || (d.size == 0 || (not (d.flags == 0) || (ltb max64 d.offset || ltb max64 d.size)))
    then done (fail x invalid_value)
    else if not (is_member external_memory x.memories)
    then done (fail x invalid_handle)
    else elim (object external_memory x.memories) [
      | none ↦ fault
      | some state ↦ done (map_buffer x state d)
    ]

-- Does a mipmap in the set use this memory? `none` if one of them is dead.
unfoldable pub is_used : External → ℕ → List ℕ → Option Bool
is_used x memory [] = some false
is_used x memory (p ∷ ps) =
    let rest = is_used x memory ps in
    elim (object p x.mipmaps) [
      | none ↦ none
      | some state ↦ if state.memory == memory then some true else rest
    ]

unfoldable pub release_external : External → ℕ → Outcome External (Unit {0})
release_external x memory = elim (object memory x.memories) [
  | none ↦ fault
  | some state ↦ elim (delete_object memory (withdraw memory x.memories)) [
    | none ↦ fault
    | some memories ↦ done (
        quiet (record x {
          memory =
              after_call (after_call x.memory (munmap state.mapping state.size)) (close state.fd);
          memories = memories;
        }))
  ]
]

unfoldable pub cu_destroy_external_memory : External → ℕ → Outcome External (Unit {0})
unfolding is_used release_external
cu_destroy_external_memory x memory =
    if memory == 0
    then done (quiet x)
    else if not (is_member memory x.memories)
    then done (fail x invalid_handle)
    else elim (is_used x memory x.mipmaps.members) [
      | none ↦ fault
      | some true ↦ done (fail x invalid_handle)
      | some false ↦ release_external x memory
    ]
