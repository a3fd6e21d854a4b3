-- ===== src/Icd/Memory/Export.antt =====
-- Exporting device memory of guest/vulkan_icd/imb_vulkan_icd.cpp as a file descriptor.
use isaac_metal_bridge.Base.{
  ℕ, ℤ, pos, Bool, false, not, ◌||◌, Option, none, some, ◌∷◌, ◌==◌, if◌then◌else◌, put, sub64,
  bit_and,
}
use isaac_metal_bridge.Cuda.Registry.{is_member, object, store_object}
use isaac_metal_bridge.Icd.Result.{
  success, out_of_host_memory, invalid_external_handle, too_many_objects, Answer, reject, answer,
}
use isaac_metal_bridge.Icd.Driver.{Driver, Enums, DeviceMemoryState, Step, and_then, valid_device}
use isaac_metal_bridge.Icd.Memory.{
  Surroundings, store_memory, ensure_memory_backing, sync_memory_to_external_fd, cleaned,
}
use isaac_metal_bridge.Icd.Memory.Maps.{is_dirty}

-- A new file of zeros, whose descriptor the memory keeps.
abbrev pub with_file : ℕ → DeviceMemoryState → ℕ → Driver → Driver
with_file p m fd d = record d {
  files = λ f a. if f == fd then 0 else d.files f a;
  memories = store_object p (record m { external_fd = some fd }) d.memories;
}

-- `close(externalFD); externalFD = -1;`
unfoldable pub drop_file : ℕ → ℕ → Driver → Option Driver
drop_file p fd d = elim (object p d.memories) [
  | none ↦ none
  | some m ↦ some (record d {
    memories = store_object p (record m { external_fd = none }) d.memories;
    closed = fd ∷ d.closed;
  })
]

unfoldable pub clean : ℕ → Driver → Option Driver
clean p d = elim (object p d.memories) [
  | none ↦ none
  | some m ↦ some (store_memory p (cleaned m) d)
]

-- The file is made: `file` is what `mkstemp` returns, `truncates` whether `ftruncate` succeeds.
unfoldable pub make_file : Surroundings → ℕ → DeviceMemoryState → Option ℕ → Bool → Driver → Step
unfolding drop_file clean
make_file e p m none truncates d = some (too_many_objects, d)
make_file e p m (some fd) truncates d =
    if not truncates
    then some (out_of_host_memory, record d { closed = fd ∷ d.closed })
    else elim (sync_memory_to_external_fd e p 0 m.size (with_file p m fd d)) [
      | none ↦ none
      | some (success, d') ↦ elim (clean p d') [ none ↦ none | some d'' ↦ some (success, d'') ]
      | some (error, d') ↦ elim (drop_file p fd d') [ none ↦ none | some d'' ↦ some (error, d'') ]
    ]

-- The file is there: the dirty bytes are written.
unfoldable pub update_file : Surroundings → ℕ → DeviceMemoryState → Driver → Step
unfolding clean
update_file e p m d =
    if is_dirty m
    then and_then
        (sync_memory_to_external_fd e p m.dirty_offset (sub64 m.dirty_end m.dirty_offset) d)
        (λ (d' : Driver). elim (clean p d') [ none ↦ none | some d'' ↦ some (success, d'') ])
    else some (success, d)

-- `dup` of the descriptor that the memory keeps.
unfoldable pub hand_out : ℕ → Option ℕ → Driver → Option (Answer Driver ℕ)
hand_out p none d = some (reject d too_many_objects)
hand_out p (some output) d = elim (object p d.memories) [
  | none ↦ none
  | some m ↦ elim m.external_fd [
    | none ↦ some (reject d too_many_objects)
    | some fd ↦ some (answer (record d { duplicates = put output fd d.duplicates }) output)
  ]
]

unfoldable pub share_memory :
    Surroundings → ℕ → Option ℕ → Bool → Option ℕ → Driver → Option (Answer Driver ℕ)
unfolding make_file update_file hand_out
share_memory e p file truncates output d = elim (object p d.memories) [
  | none ↦ none
  | some m ↦
      let shared : Step = elim m.external_fd [
        | none ↦ make_file e p m file truncates d
        | some fd ↦ update_file e p m d
      ] in
      elim shared [
        | none ↦ none
        | some (success, d') ↦ hand_out p output d'
        | some (error, d') ↦ some (reject d' error)
      ]
]

pub record GetFdInfo : Type 0 where
  pub handle : ℕ
  pub handle_type : ℕ

-- `given` is false if a pointer is null or the structure has another type.
unfoldable pub get_memory_fd :
    Surroundings
    → Enums
    → Bool
    → ℕ
    → GetFdInfo
    → Option ℕ
    → Bool
    → Option ℕ
    → Driver
    → Option (Answer Driver ℕ)
unfolding share_memory
get_memory_fd e vk given device info file truncates output d =
    if not given || not (info.handle_type == vk.memory_handle_opaque_fd)
    then some (reject d invalid_external_handle)
    else if not (valid_device device d) || not (is_member info.handle d.memories)
    then some (reject d invalid_external_handle)
    else elim (object info.handle d.memories) [
      | none ↦ none
      | some m ↦
          if not (m.device == device)
            || bit_and m.export_handle_types vk.memory_handle_opaque_fd == 0
          then some (reject d invalid_external_handle)
          else elim (ensure_memory_backing e info.handle false d) [
            | none ↦ none
            | some (success, d') ↦ share_memory e info.handle file truncates output d'
            | some (error, d') ↦ some (reject d' error)
          ]
    ]

-- The memory types of a descriptor whose file is not empty.
unfoldable pub get_memory_fd_properties :
    Enums → Bool → ℕ → ℕ → ℤ → Option ℤ → Driver → Answer Driver ℕ
get_memory_fd_properties vk given device handle_type (pos fd) (some (pos shown)) d =
    if not given || not (handle_type == vk.memory_handle_opaque_fd)
    then reject d invalid_external_handle
    else if not (valid_device device d) || shown == 0
    then reject d invalid_external_handle
    else answer d 0x0f
get_memory_fd_properties vk given device handle_type fd status d = reject d invalid_external_handle
