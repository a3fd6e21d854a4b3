-- ===== src/Icd/Memory/Allocate.antt =====
-- Allocating and freeing device memory, of guest/vulkan_icd/imb_vulkan_icd.cpp.
use isaac_metal_bridge.Base.{
  ℕ, suc, ℤ, pos, Bool, true, false, not, ◌&&◌, ◌||◌, Option, none, some, List, [], ◌∷◌, leb, ltb,
  ◌==◌, if◌then◌else◌,
}
use isaac_metal_bridge.Cuda.Registry.{
  Registry, is_member, object, new_object, enrol, withdraw, store_object, delete_object,
}
use isaac_metal_bridge.Icd.Result.{
  initialization_failed, feature_not_present, out_of_device_memory, out_of_host_memory,
  invalid_external_handle, Answer, reject, answer,
}
use isaac_metal_bridge.Icd.Bindings.{SparseBufferBinding}
use isaac_metal_bridge.Icd.Driver.{
  Driver, Enums, DeviceMemoryState, BufferState, whole_size, valid_device, without_bit,
}
use isaac_metal_bridge.Icd.Driver.Transfers.{read_range}
use isaac_metal_bridge.Icd.Memory.{Surroundings}

-- The structures of a `pNext` chain that the call looks at.
pub data Extension : Type 0 where
  export_memory : ℕ → Extension
  -- the type of the handle, the descriptor
  import_memory_fd : ℕ → ℤ → Extension
  other : Extension

-- The last structure of each kind counts.
unfoldable pub export_types : List Extension → ℕ → ℕ
export_types [] types = types
export_types (export_memory t ∷ es) types = export_types es t
export_types (import_memory_fd t fd ∷ es) types = export_types es types
export_types (other ∷ es) types = export_types es types

unfoldable pub import_info : List Extension → Option (ℕ × ℤ) → Option (ℕ × ℤ)
import_info [] info = info
import_info (export_memory t ∷ es) info = import_info es info
import_info (import_memory_fd t fd ∷ es) info = import_info es (some (t, fd))
import_info (other ∷ es) info = import_info es info

pub record AllocateInfo : Type 0 where
  pub allocation_size : ℕ
  pub memory_type_index : ℕ
  pub extensions : List Extension

abbrev pub fresh_memory : ℕ → ℕ → ℕ → DeviceMemoryState
fresh_memory device size types = record {
  device = device;
  size = size;
  resource_id = 0;
  backed = false;
  bytes = λ a. 0;
  mapped = false;
  mapped_offset = 0;
  mapped_size = 0;
  map_reference_count = 0;
  dirty_offset = whole_size;
  dirty_end = 0;
  export_handle_types = types;
  external_fd = none;
}

abbrev pub add_memory : ℕ → DeviceMemoryState → Driver → Driver
add_memory p m d = record d { memories = enrol p (new_object p m d.memories) }

-- The bytes of an imported file; `status` is the size that `fstat` shows.
unfoldable pub import_memory :
    Surroundings → Enums → ℕ → DeviceMemoryState → ℕ → Option ℤ → Driver → Option (Answer Driver ℕ)
unfolding read_range
import_memory e vk p m fd (some (pos shown)) d =
    if ltb shown m.size
    then some (reject d invalid_external_handle)
    else if not (e.resizes p)
    then some (reject d out_of_host_memory)
    else elim (read_range (suc m.size) e.pread fd (λ a. 0) 0 m.size 0 d) [
      | none ↦ none
      | some (false, bytes, d') ↦
          some (reject (record d' { closed = fd ∷ d'.closed }) invalid_external_handle)
      | some (true, bytes, d') ↦ some (
          answer
            (add_memory p
              (record m {
                backed = true;
                bytes = bytes;
                external_fd = some fd;
                export_handle_types = vk.memory_handle_opaque_fd;
                dirty_offset = 0;
                dirty_end = m.size;
              })
              d')
            p)
    ]
import_memory e vk p m fd status d = some (reject d invalid_external_handle)

-- The test of the handle types.
abbrev pub accepts_import : Enums → Option (ℕ × ℤ) → Bool
accepts_import vk none = true
accepts_import vk (some (t, pos fd)) = t == vk.memory_handle_opaque_fd
accepts_import vk (some (t, _)) = false

-- After the checks, with a new object.
unfoldable pub add_allocation :
    Surroundings
    → Enums
    → ℕ
    → DeviceMemoryState
    → Option (ℕ × ℤ)
    → Option ℤ
    → Driver
    → Option (Answer Driver ℕ)
unfolding import_memory
add_allocation e vk p m (some (t, pos fd)) status d = import_memory e vk p m fd status d
add_allocation e vk p m (some (t, _)) status d = some (reject d invalid_external_handle)
add_allocation e vk p m none status d = some (answer (add_memory p m d) p)

-- `limit` is maxBufferLength, `none` without a bridge; `allocation` is what `new` returns.
unfoldable pub allocate_memory :
    Surroundings
    → Enums
    → Bool
    → ℕ
    → AllocateInfo
    → Option ℕ
    → Option ℕ
    → Option ℤ
    → Driver
    → Option (Answer Driver ℕ)
unfolding add_allocation export_types import_info
allocate_memory e vk given device info limit allocation status d =
    if not given || info.allocation_size == 0
    then some (reject d initialization_failed)
    else if not (valid_device device d) || leb 4 info.memory_type_index
    then some (reject d feature_not_present)
    else elim limit [
      | none ↦ some (reject d feature_not_present)
      | some longest ↦
          if ltb longest info.allocation_size
          then some (reject d out_of_device_memory)
          else if not (without_bit (export_types info.extensions 0) vk.memory_handle_opaque_fd == 0)
              || not (accepts_import vk (import_info info.extensions none))
          then some (reject d invalid_external_handle)
          else elim allocation [
            | none ↦ some (reject d out_of_host_memory)
            | some p ↦
                add_allocation e vk p
                  (fresh_memory device info.allocation_size (export_types info.extensions 0))
                  (import_info info.extensions none) status d
          ]
    ]

-- `std::erase_if` of the bindings of one memory.
unfoldable pub erase_bindings : ℕ → List SparseBufferBinding → List SparseBufferBinding
erase_bindings p [] = []
erase_bindings p (b ∷ bs) =
    let rest = erase_bindings p bs in if b.memory == p then rest else b ∷ rest

-- The loop over gState.buffers.
unfoldable pub erase_from_buffers :
    ℕ → List ℕ → Registry BufferState → Option (Registry BufferState)
unfolding erase_bindings
erase_from_buffers p [] buffers = some buffers
erase_from_buffers p (q ∷ qs) buffers = elim (object q buffers) [
  | none ↦ none
  | some b ↦
      erase_from_buffers p qs
        (store_object q (record b { sparse_bindings = erase_bindings p b.sparse_bindings }) buffers)
]

-- `bridge` is whether there is one; `delete` of the object is the end.
unfoldable pub release_memory :
    Bool → ℕ → Registry BufferState → DeviceMemoryState → Driver → Option Driver
release_memory bridge p buffers m d = elim (delete_object p (withdraw p d.memories)) [
  | none ↦ none
  | some memories ↦ some (record d {
    memories = memories;
    buffers = buffers;
    destroyed =
        if bridge && not (m.resource_id == 0) then m.resource_id ∷ d.destroyed else d.destroyed;
    closed = elim m.external_fd [ none ↦ d.closed | some fd ↦ fd ∷ d.closed ];
  })
]

unfoldable pub free_memory : Bool → ℕ → Driver → Option Driver
unfolding erase_from_buffers release_memory
free_memory bridge p d =
    if p == 0 || not (is_member p d.memories)
    then some d
    else elim (erase_from_buffers p d.buffers.members d.buffers) [
      | none ↦ none
      | some buffers ↦ elim (object p d.memories) [
        | none ↦ none
        | some m ↦ release_memory bridge p buffers m d
      ]
    ]
