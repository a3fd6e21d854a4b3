-- ===== src/Examples/Binds.antt =====
-- Sparse binding of guest/vulkan_icd/imb_vulkan_icd.cpp at concrete inputs.
use isaac_metal_bridge.Base.{
  ℕ, zero, suc, ◌+◌, ◌<◌, ◌≡◌, refl, subst, true, none, some, Option, List, [], ◌∷◌, lookup,
  contains, put, insert, arith, length, pos,
}
use isaac_metal_bridge.Cuda.Registry.{object, delete_object}
use isaac_metal_bridge.Icd.Result.{VkResult, success, initialization_failed}
use isaac_metal_bridge.Icd.Bindings.{binding_at, replace_sparse_buffer_binding}
use isaac_metal_bridge.Icd.Driver.{Driver, DeviceMemoryState, BufferState}
use isaac_metal_bridge.Icd.Memory.Good.{IsFit}
use isaac_metal_bridge.Icd.Buffers.Objects.{GoodBuffer}
use isaac_metal_bridge.Icd.Binds.{BindInfo, TileBind}
use isaac_metal_bridge.Icd.Binds.Images.{SparseHost, BridgeFormats, accepted}
use isaac_metal_bridge.Icd.Binds.Perform.{queue_bind_sparse}
use isaac_metal_bridge.Icd.Binds.Outcome.{IsReady, resolved, folded}
use isaac_metal_bridge.Icd.Binds.Performed.{all_at}
use isaac_metal_bridge.Icd.Binds.Bound.{queue_bind_sparse_lem}
use isaac_metal_bridge.Icd.Binds.Read.{queue_bind_sparse-read}
use isaac_metal_bridge.Icd.Buffers.Gather.{IsAt}
use isaac_metal_bridge.Icd.Buffers.Transfer.{read_buffer}
use isaac_metal_bridge.Icd.Images.{
  ImageHost, ImageInfo, create_image, size_for, get_image_memory_requirements,
  get_device_image_memory_requirements,
}
use isaac_metal_bridge.Icd.Images.Histories.{
  ImageCall, create_call, bind_call, destroy_call, run, run-IsReady,
}
use isaac_metal_bridge.Icd.Images.Required.{create_image-requirements}
use isaac_metal_bridge.Examples.Driver.{vulkan, start, shared_memory, around}
use isaac_metal_bridge.Examples.Icd

-- The protocol's formats.
abbrev protocol_formats : BridgeFormats
protocol_formats = record {
  r8g8b8a8_unorm = 37;
  b8g8r8a8_unorm = 44;
  bc3_unorm_block = 137;
  bc3_srgb_block = 138;
  bc5_unorm_block = 141;
  r16_unorm = 70;
  r16g16b16a16_unorm = 91;
  r8g8b8a8_uint = 41;
  r8g8b8a8_snorm = 38;
  r8g8b8a8_srgb = 43;
  r32g32b32a32_sfloat = 109;
}

abbrev host : SparseHost
host = record {
  vk = vulkan;
  layout = Icd.vulkan;
  formats = protocol_formats;
  connected = true;
  creates = λ p. some 9;
  exchange = λ n. accepted;
  grows = λ p d. true;
}

-- Two pages of memory, and a buffer of three with none of them bound.
abbrev memory : DeviceMemoryState
memory = record shared_memory { size = 131072; external_fd = none }

abbrev buffer : BufferState
buffer = record {
  device = 3;
  size = 196608;
  usage = 0;
  flags = 1;
  memory = 0;
  memory_offset = 0;
  device_address = 4096;
  sparse_bindings = [];
}

abbrev unbound : Driver
unbound = record start {
  devices = (3, 7 ∷ []) ∷ [];
  memories = record { live = (16, memory) ∷ []; members = 16 ∷ [] };
  buffers = record { live = (32, buffer) ∷ []; members = 32 ∷ [] };
}

memory-IsFit : IsFit memory
memory-IsFit = record {
  small = omega arith;
  dirty = omega arith;
  within = omega arith;
  counted = omega arith;
  held = λ _. (omega arith, refl);
  free = λ e. ground arith;
}

only_memory : (p : ℕ) (m : DeviceMemoryState) → object p unbound.memories ≡ some m → memory ≡ m
unfolding lookup
only_memory p m e = ground arith

only_buffer : (q : ℕ) (b : BufferState) → object q unbound.buffers ≡ some b → buffer ≡ b
unfolding lookup
only_buffer q b e = ground arith

unbound-IsReady : IsReady unbound
unfolding lookup contains
unbound-IsReady = record {
  good = record {
    memories = λ p. ground arith;
    buffers = λ p. ground arith;
    fit = λ p m e. subst IsFit (only_memory p m e) memory-IsFit;
    bound =
        λ q b e. subst (GoodBuffer (16 ∷ [])) (only_buffer q b e) (omega arith, omega arith, tt);
  };
  images = λ p. refl;
  semaphores = λ p. refl;
  fences = λ p. refl;
  solid = λ p i e. absurd (ground arith);
}

-- The last two pages of the buffer go to the memory, then the second one is taken back.
abbrev binds : List BindInfo
binds =
    record {
      given = true;
      waits = [];
      buffer_binds =
          record {
            target = 32;
            given = true;
            binds =
                record {
                  resource_offset = 65536;
                  size = 131072;
                  memory = 16;
                  memory_offset = 0;
                  flags = 0;
                }
                ∷ record {
                  resource_offset = 65536;
                  size = 65536;
                  memory = 0;
                  memory_offset = 0;
                  flags = 0;
                }
                ∷ [];
          }
          ∷ [];
      image_opaque_binds = [];
      image_binds = [];
      signals = [];
    }
    ∷ []

queue_bind_sparse_lem_example :
    (r : VkResult) × (d' : Driver) × (queue_bind_sparse host true 7 binds 0 unbound ≡ some (r, d'))
    × IsReady d'
    × (d'.memories ≡ unbound.memories)
    × (r ≡ success → resolved 32 131077 d' ≡ all_at 32 131077 binds (resolved 32 131077 unbound))
    × (r ≡ initialization_failed → d' ≡ unbound)
queue_bind_sparse_lem_example =
    queue_bind_sparse_lem host true 7 binds 0 unbound unbound-IsReady 32 131077 (omega arith)

-- The third page is bound to the second page of the memory, the second page to none.
abbrev third_page : Option (ℕ × ℕ)
third_page = elim (queue_bind_sparse host true 7 binds 0 unbound) [
  | none ↦ none
  | some (r, d) ↦ resolved 32 131077 d
]

third_page_lem : third_page ≡ some (16, 65541)
unfolding queue_bind_sparse lookup put binding_at replace_sparse_buffer_binding
third_page_lem = refl

-- After these binds.
abbrev bound_state : Driver
unfolding queue_bind_sparse
bound_state = elim (queue_bind_sparse host true 7 binds 0 unbound) [
  | none ↦ unbound
  | some (r, d) ↦ d
]

abbrev bound_buffer : BufferState
bound_buffer = record buffer {
  sparse_bindings =
      replace_sparse_buffer_binding
        (replace_sparse_buffer_binding [] (record {
          resource_offset = 65536;
          size = 131072;
          memory = 16;
          memory_offset = 0;
          flags = 0;
        }))
        (record {
          resource_offset = 65536;
          size = 65536;
          memory = 0;
          memory_offset = 0;
          flags = 0;
        });
}

binds_succeed : queue_bind_sparse host true 7 binds 0 unbound ≡ some (success, bound_state)
unfolding queue_bind_sparse lookup put binding_at replace_sparse_buffer_binding
binds_succeed = refl

bound_buffer-there : object 32 bound_state.buffers ≡ some bound_buffer
unfolding queue_bind_sparse lookup put binding_at replace_sparse_buffer_binding
bound_buffer-there = refl

two_bytes :
    (i : ℕ)
    → i < 2
    → IsAt unbound (all_at 32 (131072 + i) binds (resolved 32 (131072 + i) unbound)) (65537 + i)
unfolding lookup binding_at folded
two_bytes zero h = record {
  memory = 16;
  place = 65536;
  state = memory;
  resolved = refl;
  bound = refl;
  there = refl;
  backed = refl;
  alone = refl;
  inside = omega arith;
  value = refl;
}
two_bytes (suc zero) h = record {
  memory = 16;
  place = 65537;
  state = memory;
  resolved = refl;
  bound = refl;
  there = refl;
  backed = refl;
  alone = refl;
  inside = omega arith;
  value = refl;
}
two_bytes (suc (suc i)) h = absurd (omega arith)

queue_bind_sparse-read_example :
    (bytes : ℕ → ℕ) × (d : Driver) × (read_buffer around true 32 135168 2 bound_state
      ≡ some (success, bytes, d))
    × ((i : ℕ) → i < 2 → bytes i ≡ 65537 + i)
queue_bind_sparse-read_example =
    queue_bind_sparse-read host true 7 binds 0 unbound bound_state around 32 bound_buffer 131072 2
      (λ i. 65537 + i) unbound-IsReady binds_succeed bound_buffer-there refl (omega arith)
      (omega arith) (omega arith) (omega arith) two_bytes

-- An image of four tiles, the second of which is bound and taken back.
abbrev image_host : ImageHost
image_host = record {
  sparse = host;
  enabled = true;
  queries =
      λ f. some (record { tile = record { width = 64; height = 64; depth = 1 }; bytes = 16384 });
}

abbrev image_info : ImageInfo
image_info = record {
  flags = 3;
  type = 1;
  format = 37;
  extent = record { width = 256; height = 256; depth = 1 };
  mip_levels = 1;
  array_layers = 1;
  samples = 1;
}

abbrev second_tile : ℕ → TileBind
second_tile memory = record {
  aspect_mask = 1;
  mip_level = 0;
  array_layer = 0;
  offset_x = pos 128;
  offset_y = pos 0;
  offset_z = pos 0;
  extent = record { width = 128; height = 128; depth = 1 };
  memory = memory;
  memory_offset = 65536;
  flags = 0;
}

abbrev image_binds : List BindInfo
image_binds =
    record {
      given = true;
      waits = [];
      buffer_binds = [];
      image_opaque_binds = [];
      image_binds =
          record { target = 64; given = true; binds = second_tile 16 ∷ second_tile 0 ∷ [] } ∷ [];
      signals = [];
    }
    ∷ []

abbrev image_calls : List ImageCall
image_calls =
    create_call image_host true 3 image_info (some 64) true
    ∷ bind_call host true 7 image_binds 0
    ∷ destroy_call true 64
    ∷ []

run-IsReady_example : (d' : Driver) × (run image_calls unbound ≡ some d') × IsReady d'
run-IsReady_example = run-IsReady image_calls unbound unbound-IsReady

-- The host is told of the tiles twice: that they are there, and that they are not.
abbrev told : Option Driver → ℕ
told none = 0
told (some d) = length d.mappings

told_lem : told (run image_calls unbound) ≡ 2
unfolding run size_for lookup insert put delete_object
told_lem = refl

made : (create_image image_host true 3 image_info (some 64) true unbound).out ≡ some 64
unfolding create_image size_for lookup
made = refl

create_image-requirements_example :
    get_image_memory_requirements vulkan true 64
      (create_image image_host true 3 image_info (some 64) true unbound).state
    ≡ some (
        get_device_image_memory_requirements image_host true 3 image_info
          (create_image image_host true 3 image_info (some 64) true unbound).state)
create_image-requirements_example =
    create_image-requirements image_host 3 image_info (some 64) true unbound 64 (omega arith) made
