-- ===== src/Examples/Driver.antt =====
-- Device memory and buffers of guest/vulkan_icd/imb_vulkan_icd.cpp at concrete inputs.
use isaac_metal_bridge.Base.{
  ℕ, ◌+◌, ◌≡◌, refl, sym, ◌∙◌, true, none, some, List, [], ◌∷◌, lookup, contains, put, min, arith,
}
use isaac_metal_bridge.Cuda.Registry.{object, empty, IsSound}
use isaac_metal_bridge.Cuda.Semaphores.{Device, moved}
use isaac_metal_bridge.Icd.Result.{VkResult, success}
use isaac_metal_bridge.Icd.Driver.{Driver, DeviceMemoryState, BufferState, Enums}
use isaac_metal_bridge.Icd.Memory.{Surroundings, sync_memory_to_external_fd}
use isaac_metal_bridge.Icd.Memory.Maps.{flush_mapped_memory_ranges, unmap_memory}
use isaac_metal_bridge.Icd.Memory.Good.{IsGood}
use isaac_metal_bridge.Icd.Memory.Sync.{
  IsBounded, IsShared, with_range_of, sync_memory_to_external_fd_lem,
}
use isaac_metal_bridge.Icd.Memory.Stale.{flush-unmap_stale}
use isaac_metal_bridge.Icd.Buffers.{BufferInfo, create_buffer, buffer_for_device_address}
use isaac_metal_bridge.Icd.Buffers.Addresses.{
  IsPlaced, create_buffer-IsPlaced, buffer_for_device_address_lem,
}
use isaac_metal_bridge.Icd.Histories.{
  Call, allocate, map, unmap, free, create, run, next, done, run-IsGood,
}

-- The numbers of the Vulkan headers.
abbrev pub vulkan : Enums
vulkan = record {
  memory_handle_opaque_fd = 1;
  semaphore_handle_opaque_fd = 1;
  semaphore_import_temporary = 1;
  semaphore_wait_any = 1;
  semaphore_type_binary = 0;
  semaphore_type_timeline = 1;
  fence_create_signaled = 1;
  query_result_64 = 1;
  query_result_with_availability = 4;
  query_type_pipeline_statistics = 1;
  sharing_mode_exclusive = 0;
  sharing_mode_concurrent = 1;
  buffer_create_sparse_binding = 1;
  image_create_sparse_binding = 1;
  image_type_2d = 1;
  sample_count_1 = 1;
  sparse_memory_bind_metadata = 1;
}

-- One device, and no object.
abbrev pub start : Driver
start = record {
  devices = (3, []) ∷ [];
  memories = empty;
  buffers = empty;
  buffer_views = empty;
  images = empty;
  semaphores = empty;
  fences = empty;
  query_pools = empty;
  shader_modules = empty;
  next_buffer_device_address = 4096;
  files = λ f a. 0;
  transfers = 0;
  duplicates = [];
  closed = [];
  destroyed = [];
  mappings = [];
}

-- Three bytes at most are moved at once.
abbrev pub chunks : Device
chunks i n = moved (min n 3)

chunks-IsBounded : IsBounded chunks
chunks-IsBounded i n k e = ground arith

abbrev pub around : Surroundings
around = record {
  resizes = λ p. true;
  creates = λ p. some (some 9);
  pwrite = chunks;
  pread = chunks;
}

-- A memory that is mapped and shared, with all of its eight bytes dirty.
abbrev pub shared_memory : DeviceMemoryState
shared_memory = record {
  device = 3;
  size = 8;
  resource_id = 0;
  backed = true;
  bytes = λ a. a + 1;
  mapped = true;
  mapped_offset = 0;
  mapped_size = 8;
  map_reference_count = 1;
  dirty_offset = 0;
  dirty_end = 8;
  export_handle_types = 1;
  external_fd = some 7;
}

abbrev sharing : Driver
sharing = record start { memories = record { live = (16, shared_memory) ∷ []; members = 16 ∷ [] } }

sharing-IsShared : IsShared 16 shared_memory 7 sharing
unfolding contains lookup
sharing-IsShared = record { valid = refl; there = refl; backed = refl; file = refl }

sync_memory_to_external_fd_lem_example :
    (r : VkResult) × (d' : Driver) × (sync_memory_to_external_fd around 16 2 4 sharing
      ≡ some (r, d'))
    × (object 16 d'.memories ≡ some shared_memory)
    × (d'.memories.members ≡ sharing.memories.members)
    × (r ≡ success
        → (f a : ℕ) → d'.files f a ≡ with_range_of sharing.files 7 shared_memory.bytes 2 4 f a)
sync_memory_to_external_fd_lem_example =
    sync_memory_to_external_fd_lem around 16 shared_memory 7 2 4 sharing chunks-IsBounded
      sharing-IsShared (omega arith) (omega arith)

-- A flush of four of the eight dirty bytes, and the unmapping after it.
abbrev after_flush : Driver
unfolding flush_mapped_memory_ranges
after_flush =
    elim (flush_mapped_memory_ranges around true (record { memory = 16; offset = 2; size = 4 } ∷ [])
      sharing) [ none ↦ start | some (r, d) ↦ d ]

abbrev after_unmap : Driver
unfolding unmap_memory
after_unmap = elim (unmap_memory around 16 after_flush) [ none ↦ start | some d ↦ d ]

after_flush_lem :
    flush_mapped_memory_ranges around true
      (record { memory = 16; offset = 2; size = 4 } ∷ [])
      sharing
    ≡ some (success, after_flush)
unfolding flush_mapped_memory_ranges contains lookup sync_memory_to_external_fd put
after_flush_lem = refl

after_unmap_lem : unmap_memory around 16 after_flush ≡ some after_unmap
unfolding unmap_memory flush_mapped_memory_ranges contains lookup sync_memory_to_external_fd put
after_unmap_lem = refl

flush-unmap_stale_example : after_unmap.files 7 0 ≡ sharing.files 7 0
flush-unmap_stale_example =
    flush-unmap_stale around 16 shared_memory 7 2 4 sharing after_flush after_unmap chunks-IsBounded
      sharing-IsShared (omega arith) (omega arith) (omega arith) after_flush_lem after_unmap_lem 7 0
      refl

abbrev buffer : BufferState
buffer = record {
  device = 3;
  size = 100;
  usage = 0;
  flags = 0;
  memory = 0;
  memory_offset = 0;
  device_address = 4096;
  sparse_bindings = [];
}

abbrev pub one_buffer : Driver
one_buffer = record start {
  buffers = record { live = (32, buffer) ∷ []; members = 32 ∷ [] };
  next_buffer_device_address = 8192;
}

one_buffer-only :
    (p : ℕ) (b : BufferState) → object p one_buffer.buffers ≡ some b → (p ≡ 32) × (buffer ≡ b)
unfolding lookup
one_buffer-only p b e = ground arith

one_buffer-IsPlaced : IsPlaced one_buffer
one_buffer-IsPlaced = record {
  below = λ p b e. rw (← (one_buffer-only p b e).1) (omega arith);
  positive = λ p b e. rw (← (one_buffer-only p b e).1) (omega arith, omega arith);
  apart = λ p q b c e k ne. absurd (ne ((one_buffer-only p b e).0 ∙ sym (one_buffer-only q c k).0));
  small = omega arith;
  started = omega arith;
}

pub one_buffer-IsSound : IsSound one_buffer.buffers
unfolding lookup contains
one_buffer-IsSound p = ground arith

buffer_for_device_address_lem_example : buffer_for_device_address 3 4100 one_buffer ≡ some 32
buffer_for_device_address_lem_example =
    buffer_for_device_address_lem one_buffer 32 buffer 4 one_buffer-IsPlaced one_buffer-IsSound
      (unfold lookup in refl) (omega arith)

abbrev buffer_info : BufferInfo
buffer_info = record { size = 10; usage = 0; flags = 0; sharing_mode = 0 }

create_buffer-IsPlaced_example :
    IsPlaced (create_buffer vulkan true 3 buffer_info (some 48) one_buffer).state
create_buffer-IsPlaced_example =
    create_buffer-IsPlaced vulkan true 3 buffer_info (some 48) one_buffer (omega arith)
      one_buffer-IsPlaced

start-IsGood : IsGood start
unfolding lookup contains
start-IsGood = record {
  memories = λ p. refl;
  buffers = λ p. refl;
  fit = λ p m e. absurd (cc e);
  bound = λ q b e. absurd (cc e);
}

abbrev calls : List (Surroundings × Call)
calls =
    (
      around,
      allocate true 3 (record { allocation_size = 8; memory_type_index = 0; extensions = [] })
          (some 16) none none,
    )
    ∷ (around, map true 16 0 8)
    ∷ (around, map true 16 0 8)
    ∷ (around, unmap 16)
    ∷ (around, create true 3 buffer_info (some 48))
    ∷ (around, free true 16)
    ∷ (around, unmap 16)
    ∷ []

run-IsGood_example : (d : Driver) × (run vulkan calls start ≡ some d) × IsGood d
run-IsGood_example =
    run-IsGood vulkan calls start
      (next (omega arith) (λ a h. next tt (λ b i. next tt (λ c j.
        next tt (λ d k. next (omega arith) (λ e l. next tt (λ f m. next tt (λ g n. done))))))))
      start-IsGood
