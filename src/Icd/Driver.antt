-- ===== src/Icd/Driver.antt =====
-- The state of guest/vulkan_icd/imb_vulkan_icd.cpp: DriverState with its objects, the bytes of the
-- files that it shares, and what it asked of the host and the system.
pub mod Transfers
use isaac_metal_bridge.Base.{
  ℕ, ◌+◌, ◌-◌, ◌^◌, Bool, true, false, Option, none, some, List, Table, lookup, max64, bit_and, ℤ,
}
use isaac_metal_bridge.Cuda.Registry.{Registry}
use isaac_metal_bridge.Icd.Bindings.{SparseBufferBinding}
use isaac_metal_bridge.Icd.Formats.{Extent}
use isaac_metal_bridge.Icd.Result.{VkResult, success}

-- The constants of the Vulkan headers that the calls use.
pub record Enums : Type 0 where
  pub memory_handle_opaque_fd : ℕ
  pub semaphore_handle_opaque_fd : ℕ
  pub semaphore_import_temporary : ℕ
  pub semaphore_wait_any : ℕ
  pub semaphore_type_binary : ℕ
  pub semaphore_type_timeline : ℕ
  pub fence_create_signaled : ℕ
  pub query_result_64 : ℕ
  pub query_result_with_availability : ℕ
  pub query_type_pipeline_statistics : ℕ
  pub sharing_mode_exclusive : ℕ
  pub sharing_mode_concurrent : ℕ
  pub buffer_create_sparse_binding : ℕ
  pub image_create_sparse_binding : ℕ
  pub image_type_2d : ℕ
  pub sample_count_1 : ℕ
  pub sparse_memory_bind_metadata : ℕ

-- `flags & ~bit`, of 32 bits.
abbrev pub without_bit : ℕ → ℕ → ℕ
without_bit flags bit = bit_and flags (2 ^ 32 - 1 - bit)

-- VK_WHOLE_SIZE.
abbrev pub whole_size : ℕ
whole_size = max64

-- `bytes` is empty until it is `backed`; the contents are by offset.
pub record DeviceMemoryState : Type 0 where
  pub device : ℕ
  pub size : ℕ
  pub resource_id : ℕ
  pub backed : Bool
  pub bytes : ℕ → ℕ
  pub mapped : Bool
  pub mapped_offset : ℕ
  pub mapped_size : ℕ
  pub map_reference_count : ℕ
  pub dirty_offset : ℕ
  pub dirty_end : ℕ
  pub export_handle_types : ℕ
  pub external_fd : Option ℕ

-- `memory` is 0 for a buffer that is not bound.
pub record BufferState : Type 0 where
  pub device : ℕ
  pub size : ℕ
  pub usage : ℕ
  pub flags : ℕ
  pub memory : ℕ
  pub memory_offset : ℕ
  pub device_address : ℕ
  pub sparse_bindings : List SparseBufferBinding

pub record BufferViewState : Type 0 where
  pub device : ℕ
  pub buffer : ℕ
  pub format : ℕ
  pub offset : ℕ
  pub range : ℕ

pub record SemaphoreState : Type 0 where
  pub device : ℕ
  pub signaled : Bool
  pub timeline : Bool
  pub value : ℕ
  pub export_handle_types : ℕ
  pub external_fd : Option ℕ

pub record SparseImageBinding : Type 0 where
  pub aspect_mask : ℕ
  pub mip_level : ℕ
  pub array_layer : ℕ
  pub offset_x : ℤ
  pub offset_y : ℤ
  pub offset_z : ℤ
  pub extent : Extent
  pub memory : ℕ
  pub memory_offset : ℕ
  pub flags : ℕ

-- What of an image sparse binding uses.
pub record ImageState : Type 0 where
  pub device : ℕ
  pub extent : Extent
  pub format : ℕ
  pub flags : ℕ
  pub type : ℕ
  pub samples : ℕ
  pub mip_levels : ℕ
  pub array_layers : ℕ
  pub size : ℕ
  pub resource_id : ℕ
  pub sparse_granularity : Extent
  pub sparse_tile_bytes : ℕ
  pub metal_sparse_granularity : Extent
  pub sparse_bindings : List SparseImageBinding
  pub sparse_opaque_bindings : List SparseBufferBinding

-- A mapping of tiles that the host is told of.
pub record TileMapping : Type 0 where
  pub resource_id : ℕ
  pub maps : Bool
  pub mip_level : ℕ
  pub slice : ℕ
  pub tile_x : ℕ
  pub tile_y : ℕ
  pub tile_z : ℕ
  pub tile_width : ℕ
  pub tile_height : ℕ
  pub tile_depth : ℕ

pub record FenceState : Type 0 where
  pub device : ℕ
  pub bridge_fence_id : ℕ
  pub result_memory : ℕ
  pub result_image : ℕ
  pub submitted : Bool
  pub signaled : Bool

pub record QueryPoolState : Type 0 where
  pub device : ℕ
  pub type : ℕ
  pub count : ℕ
  pub pipeline_statistics : ℕ
  pub values : List ℕ
  pub available : List Bool

pub record ShaderModuleState : Type 0 where
  pub device : ℕ
  pub is_add_uint32 : Bool
  pub is_triangle_vertex : Bool
  pub is_triangle_fragment : Bool
  pub uses_float64_matrix : Bool
  pub hash : ℕ
  pub code : List ℕ

pub record Driver : Type 0 where
  -- each device with its queues
  pub devices : Table (List ℕ)
  pub memories : Registry DeviceMemoryState
  pub buffers : Registry BufferState
  pub buffer_views : Registry BufferViewState
  pub images : Registry ImageState
  pub semaphores : Registry SemaphoreState
  pub fences : Registry FenceState
  pub query_pools : Registry QueryPoolState
  pub shader_modules : Registry ShaderModuleState
  pub next_buffer_device_address : ℕ
  -- the bytes of the files by descriptor and offset, and how many transfers were made
  pub files : ℕ → ℕ → ℕ
  pub transfers : ℕ
  -- the descriptors handed out, with the one of the driver that each duplicates
  pub duplicates : Table ℕ
  -- the descriptors closed and the host's resources destroyed, newest first
  pub closed : List ℕ
  pub destroyed : List ℕ
  -- the mappings of tiles that the host was told of, newest first
  pub mappings : List TileMapping

abbrev pub valid_device : ℕ → Driver → Bool
valid_device device d = elim (lookup device d.devices) [ none ↦ false | some _ ↦ true ]

-- A call on the driver: its code and the state after it; `none` is undefined behaviour, or a loop
-- that ran out of fuel.
abbrev pub Step : Type 0
Step = Option (VkResult × Driver)

-- `if (result != VK_SUCCESS) return result;`
abbrev pub and_then : Step → (Driver → Step) → Step
and_then none f = none
and_then (some (success, d)) f = f d
and_then (some (e, d)) f = some (e, d)
