-- ===== src/Icd/Sizes.antt =====
-- The sizes and offsets of images in guest/vulkan_icd/imb_vulkan_icd.cpp: 64-bit arithmetic that
-- stops at UINT64_MAX, over 32-bit extents.
use isaac_metal_bridge.Base.{
  ℕ, zero, suc, ◌+◌, ◌-◌, ◌/◌, ◌^◌, max, Bool, not, ◌&&◌, ◌||◌, ltb, ◌==◌, if◌then◌else◌, max64,
  add64, sub64, mul64, not64, add32, sub32, bit_and,
}
use isaac_metal_bridge.Icd.Formats.{
  Vulkan, Extent, format_block_info, format_aspect_mask, metal_sparse_image_granularity,
  sparse_image_granularity,
}

unfoldable pub clamped_multiply : ℕ → ℕ → ℕ
clamped_multiply left right =
    if not (left == 0) && ltb (max64 / left) right then max64 else mul64 left right

unfoldable pub clamped_add : ℕ → ℕ → ℕ
clamped_add left right = if ltb (max64 - left) right then max64 else add64 left right

unfoldable pub align_clamped : ℕ → ℕ → ℕ
align_clamped value alignment =
    if alignment == 0 || ltb (max64 - (alignment - 1)) value
    then max64
    else bit_and (sub64 (add64 value alignment) 1) (not64 (alignment - 1))

-- `(a + b - 1) / b` on 32 bits.
abbrev pub blocks : ℕ → ℕ → ℕ
blocks a b = sub32 (add32 a b) 1 / b

unfoldable pub mip_byte_size : Vulkan → ℕ → Extent → ℕ
unfolding clamped_multiply format_block_info
mip_byte_size vk format extent =
    let block = format_block_info vk format in
    clamped_multiply
      (clamped_multiply
        (clamped_multiply (blocks extent.width block.width) (blocks extent.height block.height))
        (blocks extent.depth block.depth))
      block.bytes

-- The extent of a level below 32, where the shifts are defined.
unfoldable pub level_extent : Extent → ℕ → Extent
level_extent e level = record {
  width = max 1 (e.width / 2 ^ level);
  height = max 1 (e.height / 2 ^ level);
  depth = max 1 (e.depth / 2 ^ level);
}

-- The loop that adds the sizes of the levels from `level`, with `n` of them left.
unfoldable pub add_levels : Vulkan → ℕ → Extent → ℕ → ℕ → ℕ → ℕ
unfolding clamped_add mip_byte_size level_extent
add_levels vk format extent zero level bytes = bytes
add_levels vk format extent (suc n) level bytes =
    add_levels vk format extent n (level + 1)
      (clamped_add bytes (mip_byte_size vk format (level_extent extent level)))

unfoldable pub image_layer_byte_size : Vulkan → ℕ → Extent → ℕ → ℕ
unfolding add_levels
image_layer_byte_size vk format extent mip_levels = add_levels vk format extent mip_levels 0 0

unfoldable pub image_subresource_byte_offset : Vulkan → ℕ → Extent → ℕ → ℕ → ℕ → ℕ
unfolding clamped_multiply image_layer_byte_size add_levels
image_subresource_byte_offset vk format extent mip_levels mip_level array_layer =
    add_levels vk format extent mip_level 0
      (clamped_multiply (image_layer_byte_size vk format extent mip_levels) array_layer)

pub record SparseRequirements : Type 0 where
  pub aspect_mask : ℕ
  pub image_granularity : Extent
  pub image_mip_tail_first_lod : ℕ
  pub image_mip_tail_size : ℕ
  pub image_mip_tail_offset : ℕ
  pub image_mip_tail_stride : ℕ

-- The variables of the loop over the levels.
pub record Tiling : Type 0 where
  pub first_lod : ℕ
  pub tiled : ℕ
  pub tail : ℕ

abbrev pub is_small : Extent → Extent → Bool
is_small e g = ltb e.width g.width || (ltb e.height g.height || ltb e.depth g.depth)

abbrev pub tile_bytes : Extent → Extent → ℕ → ℕ
tile_bytes e g bytes =
    clamped_multiply
      (clamped_multiply (clamped_multiply (blocks e.width g.width) (blocks e.height g.height))
        (blocks e.depth g.depth))
      bytes

unfoldable pub tile_level : Extent → Extent → ℕ → Extent → ℕ → Tiling → Tiling
unfolding clamped_add clamped_multiply
tile_level granularity metal mip_levels e level t =
    let first =
      if t.first_lod == mip_levels && is_small e granularity then level else t.first_lod in
    if ltb level first
    then record {
      first_lod = first;
      tiled = clamped_add t.tiled (tile_bytes e granularity 65536);
      tail = t.tail;
    }
    else record {
      first_lod = first;
      tiled = t.tiled;
      tail = clamped_add t.tail (tile_bytes e metal 16384);
    }

unfoldable pub tile_levels : Extent → Extent → ℕ → Extent → ℕ → ℕ → Tiling → Tiling
unfolding tile_level level_extent
tile_levels granularity metal mip_levels extent zero level t = t
tile_levels granularity metal mip_levels extent (suc n) level t =
    tile_levels granularity metal mip_levels extent n (level + 1)
      (tile_level granularity metal mip_levels (level_extent extent level) level t)

unfoldable pub sparse_image_requirements : Vulkan → ℕ → ℕ → Extent → ℕ → ℕ → SparseRequirements
unfolding tile_levels align_clamped clamped_multiply format_aspect_mask sparse_image_granularity
    metal_sparse_image_granularity
sparse_image_requirements vk format type extent mip_levels array_layers =
    let granularity = sparse_image_granularity vk format type in
    let metal = metal_sparse_image_granularity vk format type in
    let start : Tiling = record { first_lod = mip_levels; tiled = 0; tail = 0 } in
    let t = tile_levels granularity metal mip_levels extent mip_levels 0 start in
    let tail = align_clamped (max t.tail 1) 65536 in
    let has_tail = ltb t.first_lod mip_levels in
    record {
      aspect_mask = format_aspect_mask vk format;
      image_granularity = granularity;
      image_mip_tail_first_lod = t.first_lod;
      image_mip_tail_size = if has_tail then tail else 0;
      image_mip_tail_offset = align_clamped (clamped_multiply t.tiled array_layers) 65536;
      image_mip_tail_stride = if has_tail then tail else 0;
    }

unfoldable pub image_allocation_size : Vulkan → ℕ → ℕ → Extent → ℕ → ℕ → ℕ → ℕ → ℕ
unfolding clamped_add clamped_multiply align_clamped image_layer_byte_size sparse_image_requirements
image_allocation_size vk format type extent mip_levels array_layers samples flags =
    let sparse = sparse_image_requirements vk format type extent mip_levels array_layers in
    let bytes =
      clamped_multiply
        (clamped_multiply (image_layer_byte_size vk format extent mip_levels) array_layers)
        samples in
    if not (bit_and flags vk.image_create_sparse_residency_bit == 0)
    then (if sparse.image_mip_tail_size == 0
        then sparse.image_mip_tail_offset
        else clamped_add sparse.image_mip_tail_offset (
            clamped_add (clamped_multiply sparse.image_mip_tail_stride (array_layers - 1))
              sparse.image_mip_tail_size))
    else align_clamped (max bytes 1) 256
