-- ===== src/Examples/Icd.antt =====
-- The layout of images in guest/vulkan_icd/imb_vulkan_icd.cpp at concrete inputs.
use isaac_metal_bridge.Base.{◌+◌, ◌≡◌, ◌≢◌, ◌≤◌, refl, inl, max64, arith}
use isaac_metal_bridge.Icd.Formats.{Vulkan, Extent, format_block_info}
use isaac_metal_bridge.Icd.Sizes.{
  level_extent, mip_byte_size, image_subresource_byte_offset, image_allocation_size,
  clamped_multiply, clamped_add, align_clamped, add_levels, image_layer_byte_size,
}
use isaac_metal_bridge.Icd.Subresources.{image_subresource-fits, image_subresource-disjoint}

-- The numbers of the Vulkan headers.
abbrev pub vulkan : Vulkan
vulkan = record {
  r8_unorm = 9;
  r8_srgb = 15;
  r8g8_unorm = 16;
  r8g8_srgb = 22;
  r8g8b8_unorm = 23;
  b8g8r8_srgb = 36;
  r8g8b8a8_unorm = 37;
  a2b10g10r10_sint_pack32 = 69;
  r16_unorm = 70;
  r16_sfloat = 76;
  r16g16_unorm = 77;
  r16g16_sfloat = 83;
  r16g16b16_unorm = 84;
  r16g16b16_sfloat = 90;
  r16g16b16a16_unorm = 91;
  r16g16b16a16_sfloat = 97;
  r32_uint = 98;
  r32_sfloat = 100;
  r32g32_uint = 101;
  r32g32_sfloat = 103;
  r32g32b32_uint = 104;
  r32g32b32_sfloat = 106;
  r32g32b32a32_uint = 107;
  r32g32b32a32_sfloat = 109;
  bc1_rgb_unorm_block = 131;
  bc1_rgba_srgb_block = 134;
  bc2_unorm_block = 135;
  bc3_srgb_block = 138;
  bc4_unorm_block = 139;
  bc4_snorm_block = 140;
  bc5_unorm_block = 141;
  bc7_srgb_block = 146;
  d16_unorm = 124;
  x8_d24_unorm_pack32 = 125;
  d32_sfloat = 126;
  s8_uint = 127;
  d16_unorm_s8_uint = 128;
  d24_unorm_s8_uint = 129;
  d32_sfloat_s8_uint = 130;
  image_aspect_color_bit = 1;
  image_aspect_depth_bit = 2;
  image_aspect_stencil_bit = 4;
  image_type_3d = 2;
  image_create_sparse_residency_bit = 2;
}

abbrev extent : Extent
extent = record { width = 16; height = 8; depth = 1 }

allocated : image_allocation_size vulkan 37 1 extent 3 2 1 0 ≡ 1536
unfolding image_allocation_size image_layer_byte_size add_levels clamped_multiply clamped_add
    mip_byte_size level_extent format_block_info align_clamped
allocated = refl

dense : image_allocation_size vulkan 37 1 extent 3 2 1 0 ≢ max64
dense e = omega (arith, allocated, e)

image_subresource-fits_example :
    image_subresource_byte_offset vulkan 37 extent 3 2 1
      + mip_byte_size vulkan 37 (level_extent extent 2)
    ≤ image_allocation_size vulkan 37 1 extent 3 2 1 0
image_subresource-fits_example =
    image_subresource-fits vulkan 37 extent 1 3 2 1 0 2 1 refl dense (omega arith) (omega arith)
      (omega arith)

image_subresource-disjoint_example :
    image_subresource_byte_offset vulkan 37 extent 3 2 0
      + mip_byte_size vulkan 37 (level_extent extent 2)
    ≤ image_subresource_byte_offset vulkan 37 extent 3 0 1
image_subresource-disjoint_example =
    image_subresource-disjoint vulkan 37 extent 1 3 2 1 0 2 0 0 1 refl dense (omega arith)
      (omega arith) (omega arith) (omega arith) (inl (omega arith))
