-- ===== src/Examples/Mappings.antt =====
-- Reservations and mappings of guest/cuda_shim/imb_cuda_shim.cpp at concrete inputs.
use isaac_metal_bridge.Base.{ℕ, ◌+◌, ◌≡◌, ◌≢◌, ◌≤◌, ◌↔◌, some, [], ◌∷◌, lookup}
use isaac_metal_bridge.Cuda.Result.{success}
use isaac_metal_bridge.Cuda.Memory.State.{Memory, GenericAllocationState}
use isaac_metal_bridge.Cuda.Memory.Range.{Covered}
use isaac_metal_bridge.Cuda.Memory.Virtual.{cu_mem_map}
use isaac_metal_bridge.Cuda.Memory.Mapping.{cu_mem_map-success_iff}

abbrev page : ℕ
page = 65536

abbrev size : ℕ
size = 4096

-- A reservation of two pages with an allocation of two pages, one of which may be mapped.
abbrev reserved : Memory
reserved = record {
  device_allocations = [];
  host_allocations = [];
  virtual_reservations = (65536, 8192) ∷ [];
  generic_allocations = (1, record { fd = 7; size = 8192 }) ∷ [];
  next_generic_allocation_handle = 2;
  external_device_pointers = [];
  heap = [];
  bytes = λ a. 0;
  syscalls = [];
}

cu_mem_map-success_iff_example :
    ((cu_mem_map reserved 65536 4096 4096 1 0 (some 65536)).result ≡ success) ↔ (
      (page ≢ 0)
      × (size ≢ 0)
      × ((g : GenericAllocationState) × (lookup 1 reserved.generic_allocations ≡ some g)
          × (4096 + 4096 ≤ g.size))
      × Covered reserved.virtual_reservations 65536 4096
      × (some page ≡ some page))
cu_mem_map-success_iff_example = cu_mem_map-success_iff reserved 65536 4096 4096 1 (some 65536)
