-- ===== src/Icd/Views.antt =====
-- Buffer views of guest/vulkan_icd/imb_vulkan_icd.cpp.
pub mod Ranges
use isaac_metal_bridge.Base.{
  ℕ, ◌+◌, ◌-◌, ◌/◌, ◌%◌, ◌^◌, ◌≤◌, ◌<◌, ◌≡◌, refl, ap, sym, ◌∙◌, inl, inr, Bool-cases, Option-cases,
  Bool, true, false, ◌&&◌, ◌||◌, not, Option, none, some, List, [], ◌∷◌, leb, ltb, ◌==◌,
  if◌then◌else◌, contains, arith,
}
use isaac_metal_bridge.Cuda.Registry.{is_member, object, new_object, enrol, withdraw, delete_object}
use isaac_metal_bridge.Icd.Formats.{Vulkan, FormatBlockInfo, format_block_info}
use isaac_metal_bridge.Icd.Result.{
  VkResult, success, initialization_failed, format_not_supported, out_of_host_memory, Answer,
  reject, answer,
}
use isaac_metal_bridge.Icd.Driver.{Driver, BufferState, BufferViewState, valid_device, whole_size}

-- The numbers of VkFormat that texel buffers may have.
pub record TexelFormats : Type 0 where
  pub r8_unorm : ℕ
  pub r8_snorm : ℕ
  pub r8_uint : ℕ
  pub r8_sint : ℕ
  pub r8g8_unorm : ℕ
  pub r8g8_snorm : ℕ
  pub r8g8_uint : ℕ
  pub r8g8_sint : ℕ
  pub r8g8b8a8_unorm : ℕ
  pub r8g8b8a8_snorm : ℕ
  pub r8g8b8a8_uint : ℕ
  pub r8g8b8a8_sint : ℕ
  pub r16_unorm : ℕ
  pub r16_snorm : ℕ
  pub r16_uint : ℕ
  pub r16_sint : ℕ
  pub r16_sfloat : ℕ
  pub r16g16_unorm : ℕ
  pub r16g16_snorm : ℕ
  pub r16g16_uint : ℕ
  pub r16g16_sint : ℕ
  pub r16g16_sfloat : ℕ
  pub r16g16b16a16_unorm : ℕ
  pub r16g16b16a16_snorm : ℕ
  pub r16g16b16a16_uint : ℕ
  pub r16g16b16a16_sint : ℕ
  pub r16g16b16a16_sfloat : ℕ
  pub r32_uint : ℕ
  pub r32_sint : ℕ
  pub r32_sfloat : ℕ
  pub r32g32_uint : ℕ
  pub r32g32_sint : ℕ
  pub r32g32_sfloat : ℕ
  pub r32g32b32a32_uint : ℕ
  pub r32g32b32a32_sint : ℕ
  pub r32g32b32a32_sfloat : ℕ

unfoldable pub texel_buffer_format_supported : TexelFormats → ℕ → Bool
unfolding contains
texel_buffer_format_supported vk format = contains format (
    vk.r8_unorm ∷ vk.r8_snorm ∷ vk.r8_uint ∷ vk.r8_sint ∷ vk.r8g8_unorm ∷ vk.r8g8_snorm
    ∷ vk.r8g8_uint ∷ vk.r8g8_sint ∷ vk.r8g8b8a8_unorm ∷ vk.r8g8b8a8_snorm ∷ vk.r8g8b8a8_uint
    ∷ vk.r8g8b8a8_sint ∷ vk.r16_unorm ∷ vk.r16_snorm ∷ vk.r16_uint ∷ vk.r16_sint ∷ vk.r16_sfloat
    ∷ vk.r16g16_unorm ∷ vk.r16g16_snorm ∷ vk.r16g16_uint ∷ vk.r16g16_sint ∷ vk.r16g16_sfloat
    ∷ vk.r16g16b16a16_unorm ∷ vk.r16g16b16a16_snorm ∷ vk.r16g16b16a16_uint ∷ vk.r16g16b16a16_sint
    ∷ vk.r16g16b16a16_sfloat ∷ vk.r32_uint ∷ vk.r32_sint ∷ vk.r32_sfloat ∷ vk.r32g32_uint
    ∷ vk.r32g32_sint ∷ vk.r32g32_sfloat ∷ vk.r32g32b32a32_uint ∷ vk.r32g32b32a32_sint
    ∷ vk.r32g32b32a32_sfloat ∷ [])

pub record BufferViewInfo : Type 0 where
  pub buffer : ℕ
  pub format : ℕ
  pub offset : ℕ
  pub range : ℕ

-- The tests on the format and its block.
unfoldable pub texel_fits : TexelFormats → Vulkan → BufferViewInfo → Bool
unfolding texel_buffer_format_supported format_block_info
texel_fits texels vk info =
    let block = format_block_info vk info.format in
    texel_buffer_format_supported texels info.format
    && (block.width == 1
        && (block.height == 1
            && (block.depth == 1 && (not (block.bytes == 0) && info.offset % block.bytes == 0))))

abbrev pub requested_range : BufferViewInfo → ℕ → ℕ
requested_range info remaining = if info.range == whole_size then remaining else info.range

-- An incomplete last texel is left out.
abbrev pub usable_range : ℕ → ℕ → ℕ
usable_range requested bytes = requested - requested % bytes

abbrev pub range_fits : ℕ → ℕ → ℕ → Bool
range_fits requested remaining bytes =
    not (requested == 0)
    && (leb requested remaining
        && (not (usable_range requested bytes == 0)
            && (usable_range requested bytes % bytes == 0
                && leb (usable_range requested bytes / bytes) (2 ^ 27))))

abbrev pub new_view : ℕ → BufferViewInfo → ℕ → BufferViewState
new_view device info range = record {
  device = device;
  buffer = info.buffer;
  format = info.format;
  offset = info.offset;
  range = range;
}

-- Once the buffer is found.
unfoldable pub add_view :
    TexelFormats → Vulkan → ℕ → BufferViewInfo → BufferState → Option ℕ → Driver → Answer Driver ℕ
unfolding texel_fits format_block_info
add_view texels vk device info b allocation d =
    let bytes = (format_block_info vk info.format).bytes in
    let remaining = b.size - info.offset in
    let requested = requested_range info remaining in
    if not (texel_fits texels vk info)
    then reject d format_not_supported
    else if not (range_fits requested remaining bytes)
    then reject d format_not_supported
    else elim allocation [
      | none ↦ reject d out_of_host_memory
      | some p ↦
          answer
            (record d {
              buffer_views = enrol p (
                  new_object p (new_view device info (usable_range requested bytes))
                    d.buffer_views);
            })
            p
    ]

-- `undefined` is VK_FORMAT_UNDEFINED.
unfoldable pub create_buffer_view :
    TexelFormats
    → Vulkan
    → ℕ
    → Bool
    → ℕ
    → BufferViewInfo
    → Option ℕ
    → Driver
    → Option (Answer Driver ℕ)
unfolding add_view
create_buffer_view texels vk undefined given device info allocation d =
    if not given || (info.buffer == 0 || info.format == undefined)
    then some (reject d initialization_failed)
    else if not (valid_device device d) || not (is_member info.buffer d.buffers)
    then some (reject d initialization_failed)
    else elim (object info.buffer d.buffers) [
      | none ↦ none
      | some b ↦
          if not (b.device == device) || leb b.size info.offset
          then some (reject d initialization_failed)
          else some (add_view texels vk device info b allocation d)
    ]

unfoldable pub destroy_buffer_view : ℕ → Driver → Option Driver
destroy_buffer_view p d =
    if p == 0 || not (is_member p d.buffer_views)
    then some d
    else elim (delete_object p (withdraw p d.buffer_views)) [
      | none ↦ none
      | some views ↦ some (record d { buffer_views = views })
    ]
