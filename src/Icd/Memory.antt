-- ===== src/Icd/Memory.antt =====
-- Device memory of guest/vulkan_icd/imb_vulkan_icd.cpp: its bytes, the file that shares them, and
-- the mapping of it.
pub mod Allocate
pub mod Export
pub mod Maps
pub mod Good
pub mod Moves
pub mod Calls
pub mod Mapped
pub mod Objects
pub mod Free
pub mod Share
pub mod Sync
pub mod Stale
use isaac_metal_bridge.Base.{
  ℕ, suc, ◌+◌, ◌-◌, Bool, true, false, not, ◌&&◌, ◌||◌, Option, none, some, List, [], ◌∷◌, leb, ltb,
  ◌==◌, if◌then◌else◌, min, max, add64,
}
use isaac_metal_bridge.Cuda.Registry.{Registry, is_member, object, store_object}
use isaac_metal_bridge.Cuda.Semaphores.{Device}
use isaac_metal_bridge.Icd.Result.{
  VkResult, success, out_of_host_memory, out_of_device_memory, device_lost, memory_map_failed,
}
use isaac_metal_bridge.Icd.Driver.{Driver, DeviceMemoryState, Step, and_then, whole_size}
use isaac_metal_bridge.Icd.Driver.Transfers.{write_range, read_range}

-- What the system and the host answer: whether the vector of a memory can be resized, the resource
-- that the host makes for it (`none` if there is no bridge, `some none` if it throws), and what the
-- transfers return.
pub record Surroundings : Type 0 where
  pub resizes : ℕ → Bool
  pub creates : ℕ → Option (Option ℕ)
  pub pwrite : Device
  pub pread : Device

abbrev pub store_memory : ℕ → DeviceMemoryState → Driver → Driver
store_memory p m d = record d { memories = store_object p m d.memories }

-- Resizing a vector that was empty fills it with zeros.
abbrev pub backed_memory : DeviceMemoryState → DeviceMemoryState
backed_memory m = if m.backed then m else record m { backed = true; bytes = λ a. 0 }

unfoldable pub ensure_resource :
    Surroundings → ℕ → Bool → DeviceMemoryState → Driver → VkResult × Driver
ensure_resource e p needs m d =
    if needs && m.resource_id == 0
    then elim (e.creates p) [
      | none ↦ (device_lost, d)
      | some none ↦ (out_of_device_memory, d)
      | some (some id) ↦ (success, store_memory p (record m { resource_id = id }) d)
    ]
    else (success, d)

unfoldable pub ensure_memory_backing : Surroundings → ℕ → Bool → Driver → Step
unfolding ensure_resource
ensure_memory_backing e p needs d =
    if p == 0 || not (is_member p d.memories)
    then some (memory_map_failed, d)
    else elim (object p d.memories) [
      | none ↦ none
      | some m ↦
          if not m.backed && not (e.resizes p)
          then some (out_of_host_memory, d)
          else some
              (ensure_resource e p needs (backed_memory m) (store_memory p (backed_memory m) d))
    ]

-- After the backing is there.
unfoldable pub write_back : Surroundings → ℕ → ℕ → ℕ → ℕ → Driver → Step
unfolding write_range
write_back e p fd offset size d = elim (object p d.memories) [
  | none ↦ none
  | some m ↦
      if ltb m.size offset || ltb (m.size - offset) size
      then some (memory_map_failed, d)
      else elim (write_range (suc size) e.pwrite fd m.bytes offset size 0 d) [
        | none ↦ none
        | some (true, d') ↦ some (success, d')
        | some (false, d') ↦ some (out_of_host_memory, d')
      ]
]

unfoldable pub sync_memory_to_external_fd : Surroundings → ℕ → ℕ → ℕ → Driver → Step
unfolding ensure_memory_backing write_back
sync_memory_to_external_fd e p offset size d =
    if p == 0 then some (success, d) else elim (object p d.memories) [
      | none ↦ none
      | some m ↦ elim m.external_fd [
        | none ↦ some (success, d)
        | some fd ↦
            if size == 0
            then some (success, d)
            else and_then (ensure_memory_backing e p false d) (write_back e p fd offset size)
      ]
    ]

unfoldable pub read_back : Surroundings → ℕ → ℕ → ℕ → ℕ → Driver → Step
unfolding read_range
read_back e p fd offset size d = elim (object p d.memories) [
  | none ↦ none
  | some m ↦
      if ltb m.size offset || ltb (m.size - offset) size
      then some (memory_map_failed, d)
      else elim (read_range (suc size) e.pread fd m.bytes offset size 0 d) [
        | none ↦ none
        | some (true, bytes, d') ↦ some (success, store_memory p (record m { bytes = bytes }) d')
        | some (false, bytes, d') ↦
            some (memory_map_failed, store_memory p (record m { bytes = bytes }) d')
      ]
]

unfoldable pub refresh_memory_from_external_fd : Surroundings → ℕ → ℕ → ℕ → Driver → Step
unfolding ensure_memory_backing read_back
refresh_memory_from_external_fd e p offset size d =
    if p == 0 then some (success, d) else elim (object p d.memories) [
      | none ↦ none
      | some m ↦ elim m.external_fd [
        | none ↦ some (success, d)
        | some fd ↦
            if size == 0
            then some (success, d)
            else and_then (ensure_memory_backing e p false d) (read_back e p fd offset size)
      ]
    ]

-- The range of bytes that the file may not hold: none, or wider by the given one.
abbrev pub cleaned : DeviceMemoryState → DeviceMemoryState
cleaned m = record m { dirty_offset = whole_size; dirty_end = 0 }

abbrev pub dirtied : ℕ → ℕ → DeviceMemoryState → DeviceMemoryState
dirtied start end m = record m {
  dirty_offset = min m.dirty_offset start;
  dirty_end = max m.dirty_end end;
}

abbrev pub is_shared : DeviceMemoryState → Bool
is_shared m = elim m.external_fd [ none ↦ false | some _ ↦ true ]

-- `if (state->externalFD >= 0) { dirtyOffset = VK_WHOLE_SIZE; dirtyEnd = 0; }`
unfoldable pub clean_shared : ℕ → Driver → Option Driver
clean_shared p d = elim (object p d.memories) [
  | none ↦ none
  | some m ↦ some (if is_shared m then store_memory p (cleaned m) d else d)
]
