-- ===== src/Icd/Binds/Images/Tiles.antt =====
-- The binds of an image's tiles in vkQueueBindSparse of guest/vulkan_icd/imb_vulkan_icd.cpp.
use isaac_metal_bridge.Base.{
  ℕ, ◌-◌, ◌^◌, ℤ, pos, negsuc, ◌/◌, Bool, false, ◌&&◌, not, none, some, List, [], ◌∷◌, ◌++◌, ◌==◌,
  if◌then◌else◌,
}
use isaac_metal_bridge.Cuda.Registry.{object}
use isaac_metal_bridge.Icd.Result.{success, out_of_host_memory}
use isaac_metal_bridge.Icd.Driver.{
  Driver, ImageState, SparseImageBinding, TileMapping, Step, and_then,
}
use isaac_metal_bridge.Icd.Binds.{TileBind, TileBinds, has_zero}
use isaac_metal_bridge.Icd.Binds.Images.{
  SparseHost, store_image, each_step, ensure_sparse_image_backing, update_sparse_image_mapping,
  tiles_of,
}

abbrev pub tile_binding : TileBind → SparseImageBinding
tile_binding bind = record {
  aspect_mask = bind.aspect_mask;
  mip_level = bind.mip_level;
  array_layer = bind.array_layer;
  offset_x = bind.offset_x;
  offset_y = bind.offset_y;
  offset_z = bind.offset_z;
  extent = bind.extent;
  memory = bind.memory;
  memory_offset = bind.memory_offset;
  flags = bind.flags;
}

-- `int32_t` to `uint32_t`.
abbrev pub offset_of : ℤ → ℕ
offset_of (pos n) = n
offset_of (negsuc n) = 2 ^ 32 - 1 - n

abbrev pub same_int : ℤ → ℤ → Bool
same_int (pos a) (pos b) = a == b
same_int (negsuc a) (negsuc b) = a == b
same_int _ _ = false

abbrev pub same_tiles : TileBind → SparseImageBinding → Bool
same_tiles bind b =
    b.aspect_mask == bind.aspect_mask
    && (b.mip_level == bind.mip_level
        && (b.array_layer == bind.array_layer
            && (same_int b.offset_x bind.offset_x
                && (same_int b.offset_y bind.offset_y
                    && (same_int b.offset_z bind.offset_z
                        && (b.extent.width == bind.extent.width
                            && (b.extent.height == bind.extent.height
                                && b.extent.depth == bind.extent.depth)))))))

unfoldable pub without_tiles : TileBind → List SparseImageBinding → List SparseImageBinding
without_tiles bind [] = []
without_tiles bind (b ∷ bs) =
    let rest = without_tiles bind bs in if same_tiles bind b then rest else b ∷ rest

unfoldable pub replace_sparse_image_binding : SparseHost → ℕ → TileBind → Driver → Step
unfolding without_tiles
replace_sparse_image_binding h p bind d = elim (object p d.images) [
  | none ↦ none
  | some i ↦
      let erased = without_tiles bind i.sparse_bindings in
      let d' = store_image p (record i { sparse_bindings = erased }) d in
      if bind.memory == 0
      then some (success, d')
      else if not (h.grows p d')
      then some (out_of_host_memory, d')
      else some (
        success,
        store_image p (record i { sparse_bindings = erased ++ tile_binding bind ∷ [] }) d,
      )
]

abbrev pub tile_mapping : ImageState → TileBind → TileMapping
tile_mapping i bind =
    let g = i.metal_sparse_granularity in
    let t = tiles_of bind.extent g in
    record {
      resource_id = i.resource_id;
      maps = not (bind.memory == 0);
      mip_level = bind.mip_level;
      slice = bind.array_layer;
      tile_x = offset_of bind.offset_x / g.width;
      tile_y = offset_of bind.offset_y / g.height;
      tile_z = offset_of bind.offset_z / g.depth;
      tile_width = t.width;
      tile_height = t.height;
      tile_depth = t.depth;
    }

unfoldable pub bind_tile : SparseHost → ℕ → TileBind → Driver → Step
unfolding update_sparse_image_mapping replace_sparse_image_binding
bind_tile h p bind d = elim (object p d.images) [
  | none ↦ none
  | some i ↦
      if has_zero i.metal_sparse_granularity
      then none
      else and_then (update_sparse_image_mapping h (tile_mapping i bind) d)
          (replace_sparse_image_binding h p bind)
]

unfoldable pub bind_tiles : SparseHost → TileBinds → Driver → Step
unfolding each_step bind_tile ensure_sparse_image_backing
bind_tiles h x d =
    and_then (ensure_sparse_image_backing h x.target d) (each_step (bind_tile h x.target) x.binds)
