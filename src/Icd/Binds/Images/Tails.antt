-- ===== src/Icd/Binds/Images/Tails.antt =====
-- The opaque binds of images in vkQueueBindSparse of guest/vulkan_icd/imb_vulkan_icd.cpp, with the
-- mip tails.
use isaac_metal_bridge.Base.{
  ℕ, zero, suc, ◌+◌, ◌-◌, Bool, ◌&&◌, not, none, some, List, [], ◌∷◌, ◌++◌, ltb, ◌==◌,
  if◌then◌else◌, max, add64, mul64, bit_and,
}
use isaac_metal_bridge.Cuda.Registry.{object}
use isaac_metal_bridge.Icd.Sizes.{SparseRequirements, level_extent, sparse_image_requirements}
use isaac_metal_bridge.Icd.Bindings.{SparseBufferBinding, SparseMemoryBind, binding_of}
use isaac_metal_bridge.Icd.Result.{success, out_of_host_memory}
use isaac_metal_bridge.Icd.Driver.{Driver, ImageState, Step, and_then}
use isaac_metal_bridge.Icd.Binds.{BufferBinds, has_zero}
use isaac_metal_bridge.Icd.Binds.Images.{
  SparseHost, store_image, each_step, ensure_sparse_image_backing, update_sparse_image_mapping,
  tiles_of,
}

abbrev pub same_range : SparseMemoryBind → SparseBufferBinding → Bool
same_range bind b = b.resource_offset == bind.resource_offset && b.size == bind.size

unfoldable pub without_range :
    SparseMemoryBind → List SparseBufferBinding → List SparseBufferBinding
without_range bind [] = []
without_range bind (b ∷ bs) =
    let rest = without_range bind bs in if same_range bind b then rest else b ∷ rest

unfoldable pub replace_sparse_image_opaque_binding :
    SparseHost → ℕ → SparseMemoryBind → Driver → Step
unfolding without_range
replace_sparse_image_opaque_binding h p bind d = elim (object p d.images) [
  | none ↦ none
  | some i ↦
      let erased = without_range bind i.sparse_opaque_bindings in
      let d' = store_image p (record i { sparse_opaque_bindings = erased }) d in
      if bind.memory == 0
      then some (success, d')
      else if not (h.grows p d')
      then some (out_of_host_memory, d')
      else some (
        success,
        store_image p (record i { sparse_opaque_bindings = erased ++ binding_of bind ∷ [] }) d,
      )
]

-- The levels of the mip tail from `level`, with `n` of them left.
unfoldable pub map_tail_levels : SparseHost → ImageState → Bool → ℕ → ℕ → ℕ → Driver → Step
unfolding update_sparse_image_mapping level_extent
map_tail_levels h i maps layer zero level d = some (success, d)
map_tail_levels h i maps layer (suc n) level d =
    if has_zero i.metal_sparse_granularity
    then none
    else (let t = tiles_of (level_extent i.extent level) i.metal_sparse_granularity in
        and_then
          (update_sparse_image_mapping h
            (record {
              resource_id = i.resource_id;
              maps = maps;
              mip_level = level;
              slice = layer;
              tile_x = 0;
              tile_y = 0;
              tile_z = 0;
              tile_width = max 1 t.width;
              tile_height = max 1 t.height;
              tile_depth = max 1 t.depth;
            })
            d)
          (map_tail_levels h i maps layer n (level + 1)))

abbrev pub meets_tail : SparseRequirements → SparseMemoryBind → ℕ → Bool
meets_tail r bind layer =
    let start = add64 r.image_mip_tail_offset (mul64 r.image_mip_tail_stride layer) in
    ltb bind.resource_offset (add64 start r.image_mip_tail_size)
    && ltb start (add64 bind.resource_offset bind.size)

-- The layers from `layer`, with `n` of them left.
unfoldable pub map_tail_layers :
    SparseHost → ImageState → SparseRequirements → SparseMemoryBind → ℕ → ℕ → Driver → Step
unfolding map_tail_levels
map_tail_layers h i r bind zero layer d = some (success, d)
map_tail_layers h i r bind (suc n) layer d =
    and_then
      (if meets_tail r bind layer
        then map_tail_levels h i (not (bind.memory == 0)) layer
            (i.mip_levels - r.image_mip_tail_first_lod) r.image_mip_tail_first_lod d
        else some (success, d))
      (map_tail_layers h i r bind n (layer + 1))

-- The mip tail of an image that is backed.
unfoldable pub map_tail : SparseHost → ℕ → SparseRequirements → SparseMemoryBind → Driver → Step
unfolding map_tail_layers
map_tail h p r bind d = elim (object p d.images) [
  | none ↦ none
  | some i ↦ map_tail_layers h i r bind i.array_layers 0 d
]

unfoldable pub bind_opaque :
    SparseHost → ℕ → ImageState → SparseRequirements → SparseMemoryBind → Driver → Step
unfolding ensure_sparse_image_backing map_tail replace_sparse_image_opaque_binding
bind_opaque h p i r bind d =
    and_then
      (if bit_and bind.flags h.vk.sparse_memory_bind_metadata == 0
          && ltb r.image_mip_tail_first_lod i.mip_levels
        then and_then (ensure_sparse_image_backing h p d) (map_tail h p r bind)
        else some (success, d))
      (replace_sparse_image_opaque_binding h p bind)

unfoldable pub bind_opaques : SparseHost → BufferBinds → Driver → Step
unfolding each_step bind_opaque sparse_image_requirements
bind_opaques h x d = elim (object x.target d.images) [
  | none ↦ none
  | some i ↦
      each_step
        (bind_opaque h x.target i
          (sparse_image_requirements h.layout i.format i.type i.extent i.mip_levels i.array_layers))
        x.binds d
]
