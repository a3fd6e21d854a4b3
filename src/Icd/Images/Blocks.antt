-- ===== src/Icd/Images/Blocks.antt =====
-- The blocks and the tiles of the formats of guest/vulkan_icd/imb_vulkan_icd.cpp are not empty.
use isaac_metal_bridge.Base.{
  ℕ, zero, suc, ◌≤◌, ◌≡◌, Bool, false, ◌&&◌, leb, ◌==◌, if◌then◌else◌, arith, mul32,
}
use isaac_metal_bridge.Icd.Formats.{
  Vulkan, FormatBlockInfo, block, IsBlock, format_block_info, sparse_image_granularity,
}
use isaac_metal_bridge.Icd.Binds.{has_zero}

-- The tests of the formats, whatever they come to.
abbrev chosen :
    Bool
    → Bool
    → Bool
    → Bool
    → Bool
    → Bool
    → Bool
    → Bool
    → Bool
    → Bool
    → Bool
    → Bool
    → Bool
    → Bool
    → Bool
    → Bool
    → FormatBlockInfo
chosen c1 c2 c3 c4 c5 c6 c7 c8 c9 c10 c11 c12 c13 c14 c15 c16 =
    if c1
    then block 1 1 1 1
    else if c2
    then block 1 1 1 2
    else if c3
    then block 1 1 1 3
    else if c4
    then block 1 1 1 4
    else if c5
    then block 1 1 1 2
    else if c6
    then block 1 1 1 4
    else if c7
    then block 1 1 1 6
    else if c8
    then block 1 1 1 8
    else if c9
    then block 1 1 1 4
    else if c10
    then block 1 1 1 8
    else if c11
    then block 1 1 1 12
    else if c12
    then block 1 1 1 16
    else if c13
    then block 4 4 1 8
    else if c14
    then block 4 4 1 16
    else if c15
    then block 4 4 1 8
    else if c16
    then block 4 4 1 16
    else block 1 1 1 4

chosen-IsBlock :
    (c1 c2 c3 c4 c5 c6 c7 c8 c9 c10 c11 c12 c13 c14 c15 c16 : Bool)
    → IsBlock (chosen c1 c2 c3 c4 c5 c6 c7 c8 c9 c10 c11 c12 c13 c14 c15 c16)
chosen-IsBlock c1 c2 c3 c4 c5 c6 c7 c8 c9 c10 c11 c12 c13 c14 c15 c16 = record {
  width = ground arith;
  height = ground arith;
  depth = ground arith;
  bytes = ground arith;
}

pub format_block_info-IsBlock : (vk : Vulkan) (format : ℕ) → IsBlock (format_block_info vk format)
unfolding format_block_info
format_block_info-IsBlock vk format =
    chosen-IsBlock (leb vk.r8_unorm format && leb format vk.r8_srgb)
      (leb vk.r8g8_unorm format && leb format vk.r8g8_srgb)
      (leb vk.r8g8b8_unorm format && leb format vk.b8g8r8_srgb)
      (leb vk.r8g8b8a8_unorm format && leb format vk.a2b10g10r10_sint_pack32)
      (leb vk.r16_unorm format && leb format vk.r16_sfloat)
      (leb vk.r16g16_unorm format && leb format vk.r16g16_sfloat)
      (leb vk.r16g16b16_unorm format && leb format vk.r16g16b16_sfloat)
      (leb vk.r16g16b16a16_unorm format && leb format vk.r16g16b16a16_sfloat)
      (leb vk.r32_uint format && leb format vk.r32_sfloat)
      (leb vk.r32g32_uint format && leb format vk.r32g32_sfloat)
      (leb vk.r32g32b32_uint format && leb format vk.r32g32b32_sfloat)
      (leb vk.r32g32b32a32_uint format && leb format vk.r32g32b32a32_sfloat)
      (leb vk.bc1_rgb_unorm_block format && leb format vk.bc1_rgba_srgb_block)
      (leb vk.bc2_unorm_block format && leb format vk.bc3_srgb_block)
      (leb vk.bc4_unorm_block format && leb format vk.bc4_snorm_block)
      (leb vk.bc5_unorm_block format && leb format vk.bc7_srgb_block)

side : (n s : ℕ) → (1 ≤ n) × (n ≤ 128) → (1 ≤ s) × (s ≤ 4) → (1 ≤ mul32 n s) × (mul32 n s ≤ 512)
side n zero h k = absurd (omega arith)
side n (suc zero) h k = (omega arith, omega arith)
side n (suc (suc zero)) h k = (omega arith, omega arith)
side n (suc (suc (suc zero))) h k = (omega arith, omega arith)
side n (suc (suc (suc (suc zero)))) h k = (omega arith, omega arith)
side n (suc (suc (suc (suc (suc s))))) h k = absurd (omega arith)

-- The number of blocks along a side of a tile.
abbrev along : ℕ → ℕ → ℕ → ℕ
along two eight bytes =
    if leb bytes 1
    then 128
    else if bytes == 2
    then two
    else if bytes == 8
    then eight
    else if leb 16 bytes
    then 32
    else 64

along-le :
    (two eight bytes : ℕ)
    → (1 ≤ two) × (two ≤ 128)
    → (1 ≤ eight) × (eight ≤ 128)
    → (1 ≤ along two eight bytes) × (along two eight bytes ≤ 128)
along-le two eight bytes h k = (ground arith, ground arith)

sides :
    (w h type type_3d : ℕ)
    → (1 ≤ w) × (w ≤ 512)
    → (1 ≤ h) × (h ≤ 512)
    → has_zero
        (record { width = mul32 w 2; height = mul32 h 2; depth = if type == type_3d then 4 else 1 })
      ≡ false
sides w h type type_3d i j = ground arith

pub sparse_image_granularity-sides :
    (vk : Vulkan) (format type : ℕ) → has_zero (sparse_image_granularity vk format type) ≡ false
unfolding sparse_image_granularity
sparse_image_granularity-sides vk format type =
    let b = format_block_info-IsBlock vk format in
    let info = format_block_info vk format in
    let w =
      side (along 128 64 info.bytes) info.width
        (along-le 128 64 info.bytes (omega arith, omega arith) (omega arith, omega arith))
        b.width in
    let h =
      side (along 64 32 info.bytes) info.height
        (along-le 64 32 info.bytes (omega arith, omega arith) (omega arith, omega arith))
        b.height in
    sides (mul32 (along 128 64 info.bytes) info.width) (mul32 (along 64 32 info.bytes) info.height)
      type vk.image_type_3d w h
