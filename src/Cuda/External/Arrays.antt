-- ===== src/Cuda/External/Arrays.antt =====
-- Arrays and texture objects of guest/cuda_shim/imb_cuda_shim.cpp.
use isaac_metal_bridge.Base.{
  ℕ, Bool, not, ◌||◌, Option, none, some, set, ◌==◌, if◌then◌else◌, add64,
}
use isaac_metal_bridge.Cuda.Result.{
  Reply, Outcome, done, fault, fail, succeed, quiet, invalid_value, out_of_memory, invalid_handle,
}
use isaac_metal_bridge.Cuda.Registry.{
  is_member, object, new_object, enrol, withdraw, delete_object, store_object,
}
use isaac_metal_bridge.Cuda.External.{ArrayState, External}
use isaac_metal_bridge.Cuda.External.Mipmaps.{level_at}

unfoldable pub cu_array_3d_create : External → Bool → Bool → Option ℕ → Reply External ℕ
cu_array_3d_create x given descriptor allocation =
    if not given || not descriptor then fail x invalid_value else elim allocation [
      | none ↦ fail x out_of_memory
      | some p ↦
          let state : ArrayState = record { mipmap = 0; level = 0 } in
          succeed (record x { arrays = enrol p (new_object p state x.arrays) }) p
    ]

-- A mipmap that still lists the array forgets it; `none` if the mipmap is dead.
unfoldable pub forget_level : External → ℕ → ArrayState → Option External
forget_level x array state =
    if state.mipmap == 0 || not (is_member state.mipmap x.mipmaps)
    then some x
    else elim (object state.mipmap x.mipmaps) [
      | none ↦ none
      | some m ↦ elim (level_at m.levels state.level) [
        | none ↦ some x
        | some a ↦
            if a == array
            then some (record x {
              mipmaps =
                  store_object state.mipmap (record m { levels = set m.levels state.level none })
                    x.mipmaps;
            })
            else some x
      ]
    ]

unfoldable pub cu_array_destroy : External → ℕ → Outcome External (Unit {0})
unfolding forget_level
cu_array_destroy x array =
    if array == 0
    then done (quiet x)
    else if not (is_member array x.arrays)
    then done (fail x invalid_handle)
    else elim (object array x.arrays) [
      | none ↦ fault
      | some state ↦ elim (forget_level x array state) [
        | none ↦ fault
        | some x' ↦ elim (delete_object array (withdraw array x'.arrays)) [
          | none ↦ fault
          | some arrays ↦ done (quiet (record x' { arrays = arrays }))
        ]
      ]
    ]

unfoldable pub cu_tex_object_create : External → Bool → Bool → Bool → Reply External ℕ
cu_tex_object_create x given resource texture =
    if not given || (not resource || not texture)
    then fail x invalid_value
    else succeed (record x { next_texture_object = add64 x.next_texture_object 1 })
        x.next_texture_object

unfoldable pub cu_tex_object_destroy : External → ℕ → Reply External (Unit {0})
cu_tex_object_destroy x texture = if texture == 0 then fail x invalid_value else quiet x
