-- ===== src/Icd/Buffers.antt =====
-- Buffers of guest/vulkan_icd/imb_vulkan_icd.cpp: their addresses, the memory behind them, and the
-- copies and fills of their bytes.
pub mod Transfer
pub mod Objects
pub mod Moves
pub mod Writes
pub mod Reads
pub mod Gather
pub mod Rounds
pub mod Copies
pub mod Addresses
use isaac_metal_bridge.Base.{
  ℕ, ◌+◌, ◌-◌, Bool, true, false, not, ◌&&◌, ◌||◌, Option, none, some, List, [], ◌∷◌, leb, ltb,
  ◌==◌, if◌then◌else◌, max, add64, sub64, not64, bit_and, max64,
}
use isaac_metal_bridge.Cuda.Registry.{
  Registry, is_member, object, new_object, enrol, withdraw, store_object, delete_object,
}
use isaac_metal_bridge.Icd.Result.{
  success, initialization_failed, feature_not_present, out_of_host_memory, Answer, reject, answer,
}
use isaac_metal_bridge.Icd.Driver.{Driver, Enums, BufferState, Step, and_then, valid_device}

pub record BufferInfo : Type 0 where
  pub size : ℕ
  pub usage : ℕ
  pub flags : ℕ
  pub sharing_mode : ℕ

-- `(size + 4095) & ~4095`.
abbrev pub address_span : ℕ → ℕ
address_span size = bit_and (add64 size 4095) (not64 4095)

unfoldable pub next_address : ℕ → ℕ → ℕ
next_address address size =
    if leb (address_span size) (max64 - address)
    then add64 address (max (address_span size) 4096)
    else address

abbrev pub fresh_buffer : ℕ → BufferInfo → ℕ → BufferState
fresh_buffer device info address = record {
  device = device;
  size = max 1 info.size;
  usage = info.usage;
  flags = info.flags;
  memory = 0;
  memory_offset = 0;
  device_address = address;
  sparse_bindings = [];
}

unfoldable pub create_buffer : Enums → Bool → ℕ → BufferInfo → Option ℕ → Driver → Answer Driver ℕ
unfolding next_address
create_buffer vk given device info allocation d =
    if not given
    then reject d initialization_failed
    else if not (valid_device device d)
        || (not (info.sharing_mode == vk.sharing_mode_exclusive)
            && not (info.sharing_mode == vk.sharing_mode_concurrent))
    then reject d feature_not_present
    else elim allocation [
      | none ↦ reject d out_of_host_memory
      | some p ↦
          let state = fresh_buffer device info d.next_buffer_device_address in
          answer
            (record d {
              buffers = enrol p (new_object p state d.buffers);
              next_buffer_device_address =
                  next_address d.next_buffer_device_address (max 1 info.size);
            })
            p
    ]

unfoldable pub destroy_buffer : ℕ → Driver → Option Driver
destroy_buffer p d =
    if p == 0 || not (is_member p d.buffers)
    then some d
    else elim (delete_object p (withdraw p d.buffers)) [
      | none ↦ none
      | some buffers ↦ some (record d { buffers = buffers })
    ]

pub record MemoryRequirements : Type 0 where
  pub size : ℕ
  pub alignment : ℕ
  pub memory_type_bits : ℕ

abbrev pub required : Enums → ℕ → ℕ → MemoryRequirements
required vk size flags =
    let alignment = if bit_and flags vk.buffer_create_sparse_binding == 0 then 4 else 65536 in
    record {
      size = bit_and (add64 size (alignment - 1)) (not64 (alignment - 1));
      alignment = alignment;
      memory_type_bits = 0x0f;
    }

-- What is stored through `requirements`, `none` for nothing.
unfoldable pub get_buffer_memory_requirements :
    Enums → Bool → ℕ → Driver → Option (Option MemoryRequirements)
get_buffer_memory_requirements vk given p d =
    if p == 0 || (not given || not (is_member p d.buffers))
    then some none
    else elim (object p d.buffers) [
      | none ↦ none
      | some b ↦ some (some (required vk b.size b.flags))
    ]

unfoldable pub get_device_buffer_memory_requirements :
    Enums → Bool → ℕ → BufferInfo → Driver → Option MemoryRequirements
get_device_buffer_memory_requirements vk given device info d =
    if not given || not (valid_device device d)
    then none
    else some (required vk (max 1 info.size) info.flags)

unfoldable pub bind_buffer_memory : ℕ → ℕ → ℕ → ℕ → Driver → Step
bind_buffer_memory device p memory memory_offset d =
    if (p == 0 || memory == 0) || (not (is_member p d.buffers) || not (is_member memory d.memories))
    then some (initialization_failed, d)
    else elim (object p d.buffers) [
      | none ↦ none
      | some b ↦ elim (object memory d.memories) [
        | none ↦ none
        | some m ↦
            if not (b.device == device)
              || (not (m.device == device)
                  || (ltb m.size memory_offset || ltb (m.size - memory_offset) b.size))
            then some (initialization_failed, d)
            else some (
              success,
              record d {
                buffers =
                    store_object p (record b { memory = memory; memory_offset = memory_offset })
                      d.buffers;
              },
            )
      ]
    ]

pub record BindBufferInfo : Type 0 where
  pub buffer : ℕ
  pub memory : ℕ
  pub memory_offset : ℕ

unfoldable pub bind_all : ℕ → List BindBufferInfo → Driver → Step
unfolding bind_buffer_memory
bind_all device [] d = some (success, d)
bind_all device (i ∷ is) d =
    and_then (bind_buffer_memory device i.buffer i.memory i.memory_offset d) (bind_all device is)

unfoldable pub bind_buffer_memory2 : Bool → ℕ → List BindBufferInfo → Driver → Step
unfolding bind_all
bind_buffer_memory2 given device [] d = bind_all device [] d
bind_buffer_memory2 given device (i ∷ is) d =
    if not given then some (initialization_failed, d) else bind_all device (i ∷ is) d

unfoldable pub get_buffer_device_address : Bool → ℕ → ℕ → Driver → Option ℕ
get_buffer_device_address given device p d =
    if not given || (p == 0 || (not (valid_device device d) || not (is_member p d.buffers)))
    then some 0
    else elim (object p d.buffers) [
      | none ↦ none
      | some b ↦ some (if b.device == device then b.device_address else 0)
    ]

abbrev pub covers : BufferState → ℕ → ℕ → Bool
covers b device address =
    b.device == device
    && (leb b.device_address address && ltb (sub64 address b.device_address) b.size)

-- The loop over gState.buffers: 0 if no buffer has the address, `none` if a handle is dead.
unfoldable pub find_buffer : ℕ → ℕ → List ℕ → Driver → Option ℕ
find_buffer device address [] d = some 0
find_buffer device address (p ∷ ps) d =
    let rest = find_buffer device address ps d in
    elim (object p d.buffers) [
      | none ↦ none
      | some b ↦ if covers b device address then some p else rest
    ]

unfoldable pub buffer_for_device_address : ℕ → ℕ → Driver → Option ℕ
unfolding find_buffer
buffer_for_device_address device address d =
    if address == 0 then some 0 else find_buffer device address d.buffers.members d
