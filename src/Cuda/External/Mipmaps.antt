-- ===== src/Cuda/External/Mipmaps.antt =====
-- Mipmapped arrays of guest/cuda_shim/imb_cuda_shim.cpp: made over an external memory with one
-- array per level, asked for a level, destroyed with their arrays.
use isaac_metal_bridge.Base.{
  ℕ, zero, suc, ◌+◌, Bool, not, ◌&&◌, ◌||◌, Option, none, some, List, [], ◌∷◌, get_elem?, set,
  replicate, leb, ◌==◌, if◌then◌else◌, max64,
}
use isaac_metal_bridge.Cuda.Result.{
  Outcome, done, fault, fail, succeed, quiet, invalid_value, out_of_memory, invalid_handle,
}
use isaac_metal_bridge.Cuda.Registry.{
  Registry, is_member, object, new_object, enrol, withdraw, delete_object,
}
use isaac_metal_bridge.Cuda.External.{ArrayState, MipmapDescriptor, MipmappedArrayState, External}

-- The arrays made so far and the vector of levels; `bad_alloc` is thrown by a `new`.
pub data Levels : Type 0 where
  made : Registry ArrayState → List (Option ℕ) → Levels
  bad_alloc : Registry ArrayState → List (Option ℕ) → Levels

-- The loop over the levels, with `n` of them left; `news` is what each `new` returns.
unfoldable pub make_levels :
    ℕ → ℕ → ℕ → (ℕ → Option ℕ) → Registry ArrayState → List (Option ℕ) → Levels
make_levels mipmap zero level news arrays levels = made arrays levels
make_levels mipmap (suc n) level news arrays levels = elim (news level) [
  | none ↦ bad_alloc arrays levels
  | some a ↦
      make_levels mipmap n (level + 1) news
        (enrol a (new_object a (record { mipmap = mipmap; level = level }) arrays))
        (set levels level (some a))
]

-- `gArrays.erase(array); delete array;` for each array that is there.
unfoldable pub delete_levels : List (Option ℕ) → Registry ArrayState → Option (Registry ArrayState)
delete_levels [] arrays = some arrays
delete_levels (none ∷ levels) arrays = delete_levels levels arrays
delete_levels (some a ∷ levels) arrays = elim (delete_object a (withdraw a arrays)) [
  | none ↦ none
  | some arrays' ↦ delete_levels levels arrays'
]

-- The end of the call: the mipmap enters the set, or all of it is deleted.
unfoldable pub finish_mipmap : External → ℕ → MipmappedArrayState → Levels → Outcome External ℕ
finish_mipmap x p state (made arrays levels) = done (
    succeed
      (record x {
        mipmaps = enrol p (new_object p (record state { levels = levels }) x.mipmaps);
        arrays = arrays;
      })
      p)
finish_mipmap x p state (bad_alloc arrays levels) = elim (delete_levels levels arrays) [
  | none ↦ fault
  | some arrays' ↦ done (fail (record x { arrays = arrays' }) out_of_memory)
]

abbrev pub is_valid_descriptor : MipmapDescriptor → Bool
is_valid_descriptor d =
    not (d.num_levels == 0)
    && (not (d.width == 0)
        && (not (d.height == 0)
            && (not (d.num_channels == 0) && (leb d.num_channels 4 && leb d.offset max64))))

-- `resizes` is false if `levels.resize` throws.
unfoldable pub make_mipmap :
    External → ℕ → MipmapDescriptor → Option ℕ → Bool → (ℕ → Option ℕ) → Outcome External ℕ
unfolding make_levels finish_mipmap
make_mipmap x memory d none resizes news = done (fail x out_of_memory)
make_mipmap x memory d (some p) resizes news =
    let state : MipmappedArrayState = record { memory = memory; descriptor = d; levels = [] } in
    finish_mipmap x p state (
      if resizes
      then make_levels p d.num_levels 0 news x.arrays (replicate d.num_levels none)
      else bad_alloc x.arrays [])

unfoldable pub cu_external_memory_get_mapped_mipmapped_array :
    External
    → Bool
    → ℕ
    → Option MipmapDescriptor
    → Option ℕ
    → Bool
    → (ℕ → Option ℕ)
    → Outcome External ℕ
cu_external_memory_get_mapped_mipmapped_array x given external_memory none allocation resizes news =
    done (fail x invalid_value)
cu_external_memory_get_mapped_mipmapped_array x given external_memory (some d) allocation resizes
      news =
    if not given || not (is_valid_descriptor d)
    then done (fail x invalid_value)
    else if not (is_member external_memory x.memories)
    then done (fail x invalid_handle)
    else elim (object external_memory x.memories) [
      | none ↦ fault
      | some memory ↦
          if leb memory.size d.offset
          then done (fail x invalid_handle)
          else make_mipmap x external_memory d allocation resizes news
    ]

-- `state->levels[level]`, `none` if it is out of range or a null pointer.
abbrev pub level_at : List (Option ℕ) → ℕ → Option ℕ
level_at levels level = elim (get_elem? levels level) [ none ↦ none | some array ↦ array ]

unfoldable pub cu_mipmapped_array_get_level : External → Bool → ℕ → ℕ → Outcome External ℕ
cu_mipmapped_array_get_level x given mipmap level =
    if not given
    then done (fail x invalid_value)
    else if not (is_member mipmap x.mipmaps)
    then done (fail x invalid_handle)
    else elim (object mipmap x.mipmaps) [
      | none ↦ fault
      | some state ↦ elim (level_at state.levels level) [
        | none ↦ done (fail x invalid_handle)
        | some array ↦ done (succeed x array)
      ]
    ]

unfoldable pub cu_mipmapped_array_destroy : External → ℕ → Outcome External (Unit {0})
unfolding delete_levels
cu_mipmapped_array_destroy x mipmap =
    if mipmap == 0
    then done (quiet x)
    else if not (is_member mipmap x.mipmaps)
    then done (fail x invalid_handle)
    else elim (object mipmap x.mipmaps) [
      | none ↦ fault
      | some state ↦ elim (delete_levels state.levels x.arrays) [
        | none ↦ fault
        | some arrays ↦ elim (delete_object mipmap (withdraw mipmap x.mipmaps)) [
          | none ↦ fault
          | some mipmaps ↦ done (quiet (record x { mipmaps = mipmaps; arrays = arrays }))
        ]
      ]
    ]
