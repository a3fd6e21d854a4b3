-- ===== src/Icd/Binds.antt =====
-- vkQueueBindSparse of guest/vulkan_icd/imb_vulkan_icd.cpp: what is asked for, and the checks that
-- come before any of it is done.
pub mod Images
pub mod Perform
pub mod Outcome
pub mod Stored
pub mod Backed
pub mod Checked
pub mod Buffers
pub mod Quiet
pub mod Mapped
pub mod Total
pub mod Bound
pub mod Read
pub mod Performed
use isaac_metal_bridge.Base.{
  ℕ, ℤ, pos, ◌-◌, ◌%◌, Bool, true, false, ◌&&◌, ◌||◌, not, Option, none, some, List, [], ◌∷◌, leb,
  ltb, ◌==◌, if◌then◌else◌, mul64, bit_and, Table, contains,
}
use isaac_metal_bridge.Cuda.Registry.{Registry, is_member, object}
use isaac_metal_bridge.Icd.Formats.{Vulkan, Extent, format_aspect_mask}
use isaac_metal_bridge.Icd.Sizes.{blocks, level_extent, clamped_multiply}
use isaac_metal_bridge.Icd.Bindings.{SparseMemoryBind}
use isaac_metal_bridge.Icd.Driver.{Driver, Enums, BufferState, ImageState, without_bit}

-- `given` is false if the array of the binds is null.
pub record BufferBinds : Type 0 where
  pub target : ℕ
  pub given : Bool
  pub binds : List SparseMemoryBind

pub record TileBind : Type 0 where
  pub aspect_mask : ℕ
  pub mip_level : ℕ
  pub array_layer : ℕ
  pub offset_x : ℤ
  pub offset_y : ℤ
  pub offset_z : ℤ
  pub extent : Extent
  pub memory : ℕ
  pub memory_offset : ℕ
  pub flags : ℕ

pub record TileBinds : Type 0 where
  pub target : ℕ
  pub given : Bool
  pub binds : List TileBind

-- `given` is false if an array that is counted is null.
pub record BindInfo : Type 0 where
  pub given : Bool
  pub waits : List ℕ
  pub buffer_binds : List BufferBinds
  pub image_opaque_binds : List BufferBinds
  pub image_binds : List TileBinds
  pub signals : List ℕ

-- One test after the other: `none` is an access of a dead object.
abbrev pub and_check : Option Bool → Option Bool → Option Bool
and_check none rest = none
and_check (some false) rest = some false
and_check (some true) rest = rest

unfoldable pub check_all : {A : Type 0} → (A → Option Bool) → List A → Option Bool
check_all check [] = some true
check_all check (x ∷ xs) = and_check (check x) (check_all check xs)

-- A handle that is looked up and then followed.
unfoldable pub check_object : {A : Type 0} → Registry A → ℕ → (A → Option Bool) → Option Bool
check_object r p check =
    if not (is_member p r) then some false else elim (object p r) [ none ↦ none | some a ↦ check a ]

abbrev pub is_empty : {A : Type 0} → List A → Bool
is_empty [] = true
is_empty (x ∷ xs) = false

-- 0 for VK_NULL_HANDLE.
unfoldable pub device_for_queue : ℕ → Table (List ℕ) → ℕ
unfolding contains
device_for_queue queue [] = 0
device_for_queue queue ((device, queues) ∷ rest) =
    if contains queue queues then device else device_for_queue queue rest

unfoldable pub check_fence : ℕ → ℕ → Driver → Option Bool
unfolding check_object
check_fence device fence d =
    if fence == 0
    then some true
    else check_object d.fences fence
        (λ s. some (s.device == device && (not s.submitted && not s.signaled)))

unfoldable pub check_wait : ℕ → Driver → ℕ → Option Bool
unfolding check_object
check_wait device d p =
    check_object d.semaphores p (λ s. some (s.device == device && (s.timeline || s.signaled)))

unfoldable pub check_signal : ℕ → Driver → ℕ → Option Bool
unfolding check_object
check_signal device d p = check_object d.semaphores p (λ s. some (s.device == device))

-- Whether a memory that is bound is of the device and holds so many bytes from the offset on.
unfoldable pub check_memory : ℕ → Driver → ℕ → ℕ → ℕ → Option Bool
unfolding check_object
check_memory device d memory offset size =
    if memory == 0
    then some true
    else check_object d.memories memory
        (λ m. some (m.device == device && (leb offset m.size && leb size (m.size - offset))))

abbrev pub fits_buffer : Enums → BufferState → SparseMemoryBind → Bool
fits_buffer vk b bind =
    not (bind.size == 0)
    && (leb bind.resource_offset b.size
        && (leb bind.size (b.size - bind.resource_offset)
            && (bind.resource_offset % 65536 == 0
                && (bind.memory_offset % 65536 == 0
                    && without_bit bind.flags vk.sparse_memory_bind_metadata == 0))))

unfoldable pub check_buffer_bind : Enums → ℕ → Driver → BufferState → SparseMemoryBind → Option Bool
unfolding check_memory
check_buffer_bind vk device d b bind =
    and_check (some (fits_buffer vk b bind))
      (check_memory device d bind.memory bind.memory_offset bind.size)

unfoldable pub check_buffer : Enums → ℕ → Driver → BufferBinds → Option Bool
unfolding check_object check_all check_buffer_bind
check_buffer vk device d x = check_object d.buffers x.target (λ (b : BufferState).
    and_check
      (some (
        b.device == device
        && (not (bit_and b.flags vk.buffer_create_sparse_binding == 0)
            && (is_empty x.binds || x.given))))
      (check_all (check_buffer_bind vk device d b) x.binds))

-- The tests on an image of both kinds of binds.
abbrev pub is_sparse_image : Vulkan → Enums → ℕ → ImageState → Bool
is_sparse_image formats vk device i =
    i.device == device
    && (not (bit_and i.flags vk.image_create_sparse_binding == 0)
        && (not (bit_and i.flags formats.image_create_sparse_residency_bit == 0)
            && not (i.sparse_tile_bytes == 0)))

abbrev pub fits_image : ImageState → SparseMemoryBind → Bool
fits_image i bind =
    not (bind.size == 0)
    && (leb bind.resource_offset i.size
        && (leb bind.size (i.size - bind.resource_offset)
            && (bind.resource_offset % i.sparse_tile_bytes == 0
                && (bind.size % i.sparse_tile_bytes == 0
                    && (bind.memory_offset % i.sparse_tile_bytes == 0 && bind.flags == 0)))))

unfoldable pub check_opaque_bind : ℕ → Driver → ImageState → SparseMemoryBind → Option Bool
unfolding check_memory
check_opaque_bind device d i bind =
    and_check (some (fits_image i bind))
      (check_memory device d bind.memory bind.memory_offset bind.size)

unfoldable pub check_opaque : Vulkan → Enums → ℕ → Driver → BufferBinds → Option Bool
unfolding check_object check_all check_opaque_bind
check_opaque formats vk device d x = check_object d.images x.target (λ (i : ImageState).
    and_check (some (is_sparse_image formats vk device i && (is_empty x.binds || x.given)))
      (check_all (check_opaque_bind device d i) x.binds))

-- One direction of a bind: not negative, inside the level, at a multiple of the granularity.
abbrev pub fits_level : ℤ → ℕ → ℕ → ℕ → Bool
fits_level (pos offset) size level granularity =
    leb offset level && (leb size (level - offset) && offset % granularity == 0)
fits_level _ size level granularity = false

abbrev pub fits_tiles : Vulkan → ImageState → TileBind → Bool
fits_tiles vk i bind =
    let level = level_extent i.extent bind.mip_level in
    let g = i.sparse_granularity in
    bind.aspect_mask == format_aspect_mask vk i.format
    && (not (bind.extent.width == 0)
        && (not (bind.extent.height == 0)
            && (not (bind.extent.depth == 0)
                && (fits_level bind.offset_x bind.extent.width level.width g.width
                    && (fits_level bind.offset_y bind.extent.height level.height g.height
                        && (fits_level bind.offset_z bind.extent.depth level.depth g.depth
                            && (bind.memory_offset % i.sparse_tile_bytes == 0
                                && bind.flags == 0)))))))

abbrev pub has_zero : Extent → Bool
has_zero e = e.width == 0 || (e.height == 0 || e.depth == 0)

abbrev pub required_bytes : Extent → ℕ → Extent → ℕ
required_bytes g tile_bytes e =
    clamped_multiply
      (mul64 (mul64 (blocks e.width g.width) (blocks e.height g.height)) (blocks e.depth g.depth))
      tile_bytes

-- `none` is also a division by zero.
unfoldable pub check_tile_bind : Vulkan → ℕ → Driver → ImageState → TileBind → Option Bool
unfolding check_memory clamped_multiply format_aspect_mask level_extent
check_tile_bind vk device d i bind =
    if leb i.mip_levels bind.mip_level || leb i.array_layers bind.array_layer
    then some false
    else if has_zero i.sparse_granularity
    then none
    else and_check (some (fits_tiles vk i bind)) (
        check_memory device d bind.memory bind.memory_offset
          (required_bytes i.sparse_granularity i.sparse_tile_bytes bind.extent))

unfoldable pub check_tiles : Vulkan → Enums → ℕ → Driver → TileBinds → Option Bool
unfolding check_object check_all check_tile_bind
check_tiles formats vk device d x = check_object d.images x.target (λ (i : ImageState).
    and_check (some (is_sparse_image formats vk device i && (is_empty x.binds || x.given)))
      (check_all (check_tile_bind formats device d i) x.binds))

unfoldable pub check_info : Vulkan → Enums → ℕ → Driver → BindInfo → Option Bool
unfolding check_wait check_signal check_buffer check_opaque check_tiles check_all
check_info formats vk device d info = and_check (some info.given) (
    and_check (check_all (check_wait device d) info.waits) (
      and_check (check_all (check_signal device d) info.signals) (
        and_check (check_all (check_buffer vk device d) info.buffer_binds) (
          and_check (check_all (check_opaque formats vk device d) info.image_opaque_binds)
            (check_all (check_tiles formats vk device d) info.image_binds)))))
