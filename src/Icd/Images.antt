-- ===== src/Icd/Images.antt =====
-- Images of guest/vulkan_icd/imb_vulkan_icd.cpp: creating and destroying them, and what memory they
-- require.
pub mod Blocks
pub mod Tiled
pub mod Required
pub mod Histories
use isaac_metal_bridge.Base.{
  ℕ, ◌-◌, ◌*◌, ◌/◌, ◌^◌, Bool, true, false, ◌&&◌, ◌||◌, not, Option, none, some, [], ◌∷◌, leb, ltb,
  ◌==◌, if◌then◌else◌, min, max64, bit_and,
}
use isaac_metal_bridge.Cuda.Registry.{is_member, object, new_object, enrol, withdraw, delete_object}
use isaac_metal_bridge.Icd.Formats.{Extent, sparse_image_granularity}
use isaac_metal_bridge.Icd.Sizes.{
  SparseRequirements, image_allocation_size, sparse_image_requirements,
}
use isaac_metal_bridge.Icd.Result.{
  initialization_failed, out_of_host_memory, out_of_device_memory, format_not_supported, Answer,
  reject, answer,
}
use isaac_metal_bridge.Icd.Driver.{Driver, Enums, ImageState, valid_device}
use isaac_metal_bridge.Icd.Buffers.{MemoryRequirements}
use isaac_metal_bridge.Icd.Binds.{has_zero}
use isaac_metal_bridge.Icd.Binds.Images.{SparseHost, bridge_image_format}

-- What of VkImageCreateInfo the layout of an image depends on.
pub record ImageInfo : Type 0 where
  pub flags : ℕ
  pub type : ℕ
  pub format : ℕ
  pub extent : Extent
  pub mip_levels : ℕ
  pub array_layers : ℕ
  pub samples : ℕ

pub record TileProperties : Type 0 where
  pub tile : Extent
  pub bytes : ℕ

-- `enabled` is sparseImagesEnabled, and `queries` the host's answers, `none` for a throw.
pub record ImageHost : Type 0 where
  pub sparse : SparseHost
  pub enabled : Bool
  pub queries : ℕ → Option TileProperties

unfoldable pub query_metal_sparse_image_properties : ImageHost → ℕ → Option TileProperties
unfolding bridge_image_format
query_metal_sparse_image_properties h format =
    let bridge_format = bridge_image_format h.sparse.formats format in
    if not h.enabled || (bridge_format == 0 || not h.sparse.connected)
    then none
    else h.queries bridge_format

abbrev pub has_residency : ImageHost → ℕ → Bool
has_residency h flags = not (bit_and flags h.sparse.layout.image_create_sparse_residency_bit == 0)

-- The tiles of the host are those that the driver tells its clients of.
abbrev pub matches : Extent → TileProperties → Bool
matches expected m =
    leb m.tile.width ((2 ^ 32 - 1) / 2)
    && (leb m.tile.height ((2 ^ 32 - 1) / 2)
        && (m.tile.width * 2 == expected.width
            && (m.tile.height * 2 == expected.height
                && (m.tile.depth == expected.depth && m.bytes == 16384))))

-- What an image has of tiles.
pub record Tiles : Type 0 where
  pub bytes : ℕ
  pub granularity : Extent
  pub metal_granularity : Extent

abbrev pub no_extent : Extent
no_extent = record { width = 0; height = 0; depth = 0 }

abbrev pub matched : Extent → Option TileProperties → Option Tiles
matched expected none = none
matched expected (some m) =
    if matches expected m
    then some (record { bytes = 65536; granularity = expected; metal_granularity = m.tile })
    else none

abbrev pub no_tiles : Tiles
no_tiles = record { bytes = 0; granularity = no_extent; metal_granularity = no_extent }

-- `none` if the image is refused.
unfoldable pub tiles_for : ImageHost → ImageInfo → Option Tiles
unfolding query_metal_sparse_image_properties sparse_image_granularity
tiles_for h info =
    if not (has_residency h info.flags)
    then some no_tiles
    else if bit_and info.flags h.sparse.vk.image_create_sparse_binding == 0
        || (not (info.type == h.sparse.vk.image_type_2d)
            || not (info.samples == h.sparse.vk.sample_count_1))
    then none
    else matched (sparse_image_granularity h.sparse.layout info.format info.type)
        (query_metal_sparse_image_properties h info.format)

unfoldable pub size_for : ImageHost → ImageInfo → ℕ
unfolding image_allocation_size
size_for h i =
    image_allocation_size h.sparse.layout i.format i.type i.extent i.mip_levels i.array_layers
      i.samples i.flags

abbrev pub fresh_image : ImageHost → ℕ → ImageInfo → Tiles → ImageState
fresh_image h device info t = record {
  device = device;
  extent = info.extent;
  format = info.format;
  flags = info.flags;
  type = info.type;
  samples = info.samples;
  mip_levels = info.mip_levels;
  array_layers = info.array_layers;
  size = size_for h info;
  resource_id = 0;
  sparse_granularity = t.granularity;
  sparse_tile_bytes = t.bytes;
  metal_sparse_granularity = t.metal_granularity;
  sparse_bindings = [];
  sparse_opaque_bindings = [];
}

-- `allocation` is what `new` returns; `grows` is false if making the list of subresources throws
-- `std::bad_alloc`, which deletes the object. A `std::length_error`, which the source lets out, is
-- not modelled: the image's levels and layers are no more than a vector may hold.
abbrev pub add_image :
    ImageHost → ℕ → ImageInfo → Option ℕ → Bool → Driver → Option Tiles → Answer Driver ℕ
add_image h device info allocation grows d none = reject d format_not_supported
add_image h device info allocation grows d (some t) = elim allocation [
  | none ↦ reject d out_of_host_memory
  | some p ↦
      if not grows
      then reject d out_of_host_memory
      else answer
          (record d { images = enrol p (new_object p (fresh_image h device info t) d.images) }) p
]

unfoldable pub create_image :
    ImageHost → Bool → ℕ → ImageInfo → Option ℕ → Bool → Driver → Answer Driver ℕ
unfolding tiles_for
create_image h given device info allocation grows d =
    if not given || (has_zero info.extent || (info.array_layers == 0 || info.mip_levels == 0))
    then reject d initialization_failed
    else if size_for h info == max64
    then reject d out_of_device_memory
    else if not (valid_device device d)
    then reject d initialization_failed
    else add_image h device info allocation grows d (tiles_for h info)

unfoldable pub destroy_image : Bool → ℕ → Driver → Option Driver
destroy_image bridge p d =
    if p == 0 || not (is_member p d.images) then some d else elim (object p d.images) [
      | none ↦ none
      | some i ↦ elim (delete_object p (withdraw p d.images)) [
        | none ↦ none
        | some images ↦ some (record d {
          images = images;
          destroyed =
              if bridge && not (i.resource_id == 0)
              then i.resource_id ∷ d.destroyed
              else d.destroyed;
        })
      ]
    ]

abbrev pub required : Enums → ℕ → ℕ → MemoryRequirements
required vk size flags = record {
  size = size;
  alignment = if bit_and flags vk.image_create_sparse_binding == 0 then 256 else 65536;
  memory_type_bits = 0x0f;
}

-- What is stored through `requirements`, `none` for nothing.
unfoldable pub get_image_memory_requirements :
    Enums → Bool → ℕ → Driver → Option (Option MemoryRequirements)
get_image_memory_requirements vk given p d =
    if p == 0 || (not given || not (is_member p d.images))
    then some none
    else elim (object p d.images) [
      | none ↦ none
      | some i ↦ some (some (required vk i.size i.flags))
    ]

unfoldable pub get_device_image_memory_requirements :
    ImageHost → Bool → ℕ → ImageInfo → Driver → Option MemoryRequirements
get_device_image_memory_requirements h given device info d =
    if not given
    then none
    else if size_for h info == max64
    then some (record { size = 0; alignment = 0; memory_type_bits = 0 })
    else if not (valid_device device d)
    then none
    else some (required h.sparse.vk (size_for h info) info.flags)

-- The count that is stored, and the requirements if one is written; `given` is false if the client
-- asks for the count only.
unfoldable pub get_image_sparse_memory_requirements :
    ImageHost → ℕ → ℕ → Bool → ℕ → Driver → Option (ℕ × Option SparseRequirements)
unfolding sparse_image_requirements
get_image_sparse_memory_requirements h device p given capacity d =
    if not h.enabled || (not (valid_device device d) || not (is_member p d.images))
    then some (0, none)
    else elim (object p d.images) [
      | none ↦ none
      | some i ↦
          if not (i.device == device) || (not (has_residency h i.flags) || i.sparse_tile_bytes == 0)
          then some (0, none)
          else if not given
          then some (1, none)
          else if capacity == 0
          then some (0, none)
          else some (
            min capacity 1,
            some (
                sparse_image_requirements h.sparse.layout i.format i.type i.extent i.mip_levels
                  i.array_layers),
          )
    ]
