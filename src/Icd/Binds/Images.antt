-- ===== src/Icd/Binds/Images.antt =====
-- What vkQueueBindSparse of guest/vulkan_icd/imb_vulkan_icd.cpp does to an image: its resource, and
-- the mappings that the host is told of.
pub mod Tails
pub mod Tiles
use isaac_metal_bridge.Base.{
  ℕ, zero, suc, ◌+◌, ◌-◌, ◌^◌, ℤ, pos, negsuc, ◌/◌, Bool, true, false, ◌&&◌, ◌||◌, not, Option,
  none, some, List, [], ◌∷◌, ◌++◌, leb, ltb, ◌==◌, if◌then◌else◌, max, add64, mul64, bit_and,
  length,
}
use isaac_metal_bridge.Cuda.Registry.{Registry, is_member, object, store_object}
use isaac_metal_bridge.Icd.Formats.{Vulkan, Extent}
use isaac_metal_bridge.Icd.Sizes.{
  SparseRequirements, blocks, level_extent, sparse_image_requirements,
}
use isaac_metal_bridge.Icd.Bindings.{
  SparseBufferBinding, SparseMemoryBind, binding_of, replace_sparse_buffer_binding,
}
use isaac_metal_bridge.Icd.Result.{
  VkResult, success, initialization_failed, device_lost, out_of_host_memory, out_of_device_memory,
  format_not_supported,
}
use isaac_metal_bridge.Icd.Driver.{
  Driver, Enums, BufferState, ImageState, SemaphoreState, SparseImageBinding, TileMapping, Step,
  and_then,
}
use isaac_metal_bridge.Icd.Semaphores.{change, taken_back}
use isaac_metal_bridge.Icd.Fences.{mark_signaled}
use isaac_metal_bridge.Icd.Binds.{
  BufferBinds, TileBind, TileBinds, BindInfo, device_for_queue, check_fence, check_info, check_all,
  and_check, has_zero,
}

-- The numbers of VkFormat that the protocol has a format for.
pub record BridgeFormats : Type 0 where
  pub r8g8b8a8_unorm : ℕ
  pub b8g8r8a8_unorm : ℕ
  pub bc3_unorm_block : ℕ
  pub bc3_srgb_block : ℕ
  pub bc5_unorm_block : ℕ
  pub r16_unorm : ℕ
  pub r16g16b16a16_unorm : ℕ
  pub r8g8b8a8_uint : ℕ
  pub r8g8b8a8_snorm : ℕ
  pub r8g8b8a8_srgb : ℕ
  pub r32g32b32a32_sfloat : ℕ

-- The formats of the protocol, 0 for none.
unfoldable pub bridge_image_format : BridgeFormats → ℕ → ℕ
bridge_image_format f format =
    if format == f.r8g8b8a8_unorm
    then 1
    else if format == f.b8g8r8a8_unorm
    then 2
    else if format == f.bc3_unorm_block
    then 3
    else if format == f.bc3_srgb_block
    then 6
    else if format == f.bc5_unorm_block
    then 7
    else if format == f.r16_unorm
    then 4
    else if format == f.r16g16b16a16_unorm
    then 5
    else if format == f.r8g8b8a8_uint
    then 8
    else if format == f.r8g8b8a8_snorm
    then 9
    else if format == f.r8g8b8a8_srgb
    then 10
    else if format == f.r32g32b32a32_sfloat
    then 11
    else 0

-- What comes of a message about a mapping.
pub data Exchange : Type 0 where
  accepted out_of_memory refused : Exchange

-- What the host and the allocator answer: whether there is a connection, the resource made for an
-- image (`none` if it throws), what comes of the message after so many others, and whether the
-- bindings of an object can be replaced.
pub record SparseHost : Type 0 where
  pub vk : Enums
  pub layout : Vulkan
  pub formats : BridgeFormats
  pub connected : Bool
  pub creates : ℕ → Option ℕ
  pub exchange : ℕ → Exchange
  pub grows : ℕ → Driver → Bool

abbrev pub store_image : ℕ → ImageState → Driver → Driver
store_image p i d = record d { images = store_object p i d.images }

-- A loop over steps.
unfoldable pub each_step : {A : Type 0} → (A → Driver → Step) → List A → Driver → Step
each_step step [] d = some (success, d)
each_step step (x ∷ xs) d = and_then (step x d) (each_step step xs)

-- What keeps an image from having a sparse resource.
abbrev pub unsupported : SparseHost → ImageState → Bool
unsupported h i =
    not h.connected
    || (bit_and i.flags h.layout.image_create_sparse_residency_bit == 0
        || (not (i.type == h.vk.image_type_2d)
            || (not (i.samples == h.vk.sample_count_1)
                || (i.sparse_tile_bytes == 0
                    || (not (i.extent.depth == 1)
                        || (i.extent.width == 0 || i.extent.height == 0))))))

unfoldable pub back_image : SparseHost → ℕ → ImageState → Driver → Step
unfolding bridge_image_format
back_image h p i d =
    if unsupported h i || bridge_image_format h.formats i.format == 0
    then some (format_not_supported, d)
    else if not (i.resource_id == 0)
    then some (success, d)
    else elim (h.creates p) [
      | none ↦ some (out_of_device_memory, d)
      | some id ↦ some (success, store_image p (record i { resource_id = id }) d)
    ]

unfoldable pub ensure_sparse_image_backing : SparseHost → ℕ → Driver → Step
unfolding back_image
ensure_sparse_image_backing h p d =
    if p == 0 || not (is_member p d.images)
    then some (format_not_supported, d)
    else elim (object p d.images) [ none ↦ none | some i ↦ back_image h p i d ]

-- The host is told of a mapping of tiles; what is thrown is caught at the end of the call.
unfoldable pub update_sparse_image_mapping : SparseHost → TileMapping → Driver → Step
update_sparse_image_mapping h m d = elim (h.exchange (length d.mappings)) [
  | accepted ↦ some (success, record d { mappings = m ∷ d.mappings })
  | out_of_memory ↦ some (out_of_host_memory, d)
  | refused ↦ some (device_lost, d)
]

abbrev pub tiles_of : Extent → Extent → Extent
tiles_of e g = record {
  width = blocks e.width g.width;
  height = blocks e.height g.height;
  depth = blocks e.depth g.depth;
}
