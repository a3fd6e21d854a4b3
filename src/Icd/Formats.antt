-- ===== src/Icd/Formats.antt =====
-- Pixel formats of guest/vulkan_icd/imb_vulkan_icd.cpp. The numbers of VkFormat, VkImageType and the
-- flags are those of the Vulkan headers, which are a parameter.
use isaac_metal_bridge.Base.{ℕ, ◌≤◌, ◌≡◌, ◌&&◌, ◌||◌, leb, ◌==◌, if◌then◌else◌, bit_or, mul32}

-- The constants of the Vulkan headers that the layout uses.
pub record Vulkan : Type 0 where
  pub r8_unorm : ℕ
  pub r8_srgb : ℕ
  pub r8g8_unorm : ℕ
  pub r8g8_srgb : ℕ
  pub r8g8b8_unorm : ℕ
  pub b8g8r8_srgb : ℕ
  pub r8g8b8a8_unorm : ℕ
  pub a2b10g10r10_sint_pack32 : ℕ
  pub r16_unorm : ℕ
  pub r16_sfloat : ℕ
  pub r16g16_unorm : ℕ
  pub r16g16_sfloat : ℕ
  pub r16g16b16_unorm : ℕ
  pub r16g16b16_sfloat : ℕ
  pub r16g16b16a16_unorm : ℕ
  pub r16g16b16a16_sfloat : ℕ
  pub r32_uint : ℕ
  pub r32_sfloat : ℕ
  pub r32g32_uint : ℕ
  pub r32g32_sfloat : ℕ
  pub r32g32b32_uint : ℕ
  pub r32g32b32_sfloat : ℕ
  pub r32g32b32a32_uint : ℕ
  pub r32g32b32a32_sfloat : ℕ
  pub bc1_rgb_unorm_block : ℕ
  pub bc1_rgba_srgb_block : ℕ
  pub bc2_unorm_block : ℕ
  pub bc3_srgb_block : ℕ
  pub bc4_unorm_block : ℕ
  pub bc4_snorm_block : ℕ
  pub bc5_unorm_block : ℕ
  pub bc7_srgb_block : ℕ
  pub d16_unorm : ℕ
  pub x8_d24_unorm_pack32 : ℕ
  pub d32_sfloat : ℕ
  pub s8_uint : ℕ
  pub d16_unorm_s8_uint : ℕ
  pub d24_unorm_s8_uint : ℕ
  pub d32_sfloat_s8_uint : ℕ
  pub image_aspect_color_bit : ℕ
  pub image_aspect_depth_bit : ℕ
  pub image_aspect_stencil_bit : ℕ
  pub image_type_3d : ℕ
  pub image_create_sparse_residency_bit : ℕ

pub record FormatBlockInfo : Type 0 where
  pub width : ℕ
  pub height : ℕ
  pub depth : ℕ
  pub bytes : ℕ

abbrev pub block : ℕ → ℕ → ℕ → ℕ → FormatBlockInfo
block width height depth bytes = record {
  width = width;
  height = height;
  depth = depth;
  bytes = bytes;
}

unfoldable pub format_block_info : Vulkan → ℕ → FormatBlockInfo
format_block_info vk value =
    if leb vk.r8_unorm value && leb value vk.r8_srgb
    then block 1 1 1 1
    else if leb vk.r8g8_unorm value && leb value vk.r8g8_srgb
    then block 1 1 1 2
    else if leb vk.r8g8b8_unorm value && leb value vk.b8g8r8_srgb
    then block 1 1 1 3
    else if leb vk.r8g8b8a8_unorm value && leb value vk.a2b10g10r10_sint_pack32
    then block 1 1 1 4
    else if leb vk.r16_unorm value && leb value vk.r16_sfloat
    then block 1 1 1 2
    else if leb vk.r16g16_unorm value && leb value vk.r16g16_sfloat
    then block 1 1 1 4
    else if leb vk.r16g16b16_unorm value && leb value vk.r16g16b16_sfloat
    then block 1 1 1 6
    else if leb vk.r16g16b16a16_unorm value && leb value vk.r16g16b16a16_sfloat
    then block 1 1 1 8
    else if leb vk.r32_uint value && leb value vk.r32_sfloat
    then block 1 1 1 4
    else if leb vk.r32g32_uint value && leb value vk.r32g32_sfloat
    then block 1 1 1 8
    else if leb vk.r32g32b32_uint value && leb value vk.r32g32b32_sfloat
    then block 1 1 1 12
    else if leb vk.r32g32b32a32_uint value && leb value vk.r32g32b32a32_sfloat
    then block 1 1 1 16
    else if leb vk.bc1_rgb_unorm_block value && leb value vk.bc1_rgba_srgb_block
    then block 4 4 1 8
    else if leb vk.bc2_unorm_block value && leb value vk.bc3_srgb_block
    then block 4 4 1 16
    else if leb vk.bc4_unorm_block value && leb value vk.bc4_snorm_block
    then block 4 4 1 8
    else if leb vk.bc5_unorm_block value && leb value vk.bc7_srgb_block
    then block 4 4 1 16
    else block 1 1 1 4

unfoldable pub format_aspect_mask : Vulkan → ℕ → ℕ
format_aspect_mask vk format =
    if format == vk.d16_unorm || (format == vk.x8_d24_unorm_pack32 || format == vk.d32_sfloat)
    then vk.image_aspect_depth_bit
    else if format == vk.s8_uint
    then vk.image_aspect_stencil_bit
    else if format == vk.d16_unorm_s8_uint
        || (format == vk.d24_unorm_s8_uint || format == vk.d32_sfloat_s8_uint)
    then bit_or vk.image_aspect_depth_bit vk.image_aspect_stencil_bit
    else vk.image_aspect_color_bit

pub record Extent : Type 0 where
  pub width : ℕ
  pub height : ℕ
  pub depth : ℕ

unfoldable pub metal_sparse_image_granularity : Vulkan → ℕ → ℕ → Extent
unfolding format_block_info
metal_sparse_image_granularity vk format type =
    let info = format_block_info vk format in
    let count_x =
      if leb info.bytes 1
      then 128
      else if info.bytes == 2
      then 128
      else if info.bytes == 8
      then 64
      else if leb 16 info.bytes
      then 32
      else 64 in
    let count_y =
      if leb info.bytes 1
      then 128
      else if info.bytes == 2
      then 64
      else if info.bytes == 8
      then 32
      else if leb 16 info.bytes
      then 32
      else 64 in
    record {
      width = mul32 count_x info.width;
      height = mul32 count_y info.height;
      depth = if type == vk.image_type_3d then 4 else 1;
    }

unfoldable pub sparse_image_granularity : Vulkan → ℕ → ℕ → Extent
unfolding metal_sparse_image_granularity
sparse_image_granularity vk format type =
    let metal = metal_sparse_image_granularity vk format type in
    record { width = mul32 metal.width 2; height = mul32 metal.height 2; depth = metal.depth }

-- A block has at most 4 pixels a side and 1 to 16 bytes.
pub record IsBlock (b : FormatBlockInfo) : Type 0 where
  pub width : (1 ≤ b.width) × (b.width ≤ 4)
  pub height : (1 ≤ b.height) × (b.height ≤ 4)
  pub depth : b.depth ≡ 1
  pub bytes : (1 ≤ b.bytes) × (b.bytes ≤ 16)
