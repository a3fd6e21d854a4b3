-- ===== src/Cuda/Memory/Copy.antt =====
-- Copies and fills of guest/cuda_shim/imb_cuda_shim.cpp. A host pointer is an address of the same
-- process, 0 for null; contexts and streams are ignored by the shim, and left out where no other
-- argument stands beside them. `pages` are the page tables of the process at the time of the call,
-- which the kernel keeps and `mmap` and `munmap` change.
use isaac_metal_bridge.Base.{
  ℕ, ◌*◌, ◌/◌, true, not, ◌&&◌, Option, none, some, ltb, ◌==◌, if◌then◌else◌, max64,
}
use isaac_metal_bridge.Cuda.Result.{Outcome, done, fault, fail, quiet, invalid_value}
use isaac_metal_bridge.Cuda.Memory.State.{Memory}
use isaac_metal_bridge.Cuda.Memory.Range.{resolve_device_range}
use isaac_metal_bridge.Cuda.Memory.Bytes.{Pages, memmove, memcpy, fill_n}

abbrev pub copied : Memory → Option (ℕ → ℕ) → Outcome Memory (Unit {0})
copied m none = fault
copied m (some bytes) = done (quiet (record m { bytes = bytes }))

unfoldable pub cu_memcpy_htod : Pages → Memory → ℕ → ℕ → ℕ → Outcome Memory (Unit {0})
cu_memcpy_htod pages m destination source size =
    if source == 0 && not (size == 0)
    then done (fail m invalid_value)
    else elim (resolve_device_range m destination size true) [
      | none ↦ done (fail m invalid_value)
      | some destination_host ↦ copied m (memcpy pages destination_host source size m.bytes)
    ]

unfoldable pub cu_memcpy_dtoh : Pages → Memory → ℕ → ℕ → ℕ → Outcome Memory (Unit {0})
cu_memcpy_dtoh pages m destination source size =
    if destination == 0 && not (size == 0)
    then done (fail m invalid_value)
    else elim (resolve_device_range m source size true) [
      | none ↦ done (fail m invalid_value)
      | some source_host ↦ copied m (memcpy pages destination source_host size m.bytes)
    ]

unfoldable pub cu_memcpy_dtod : Pages → Memory → ℕ → ℕ → ℕ → Outcome Memory (Unit {0})
cu_memcpy_dtod pages m destination source size =
    elim (resolve_device_range m destination size true) [
      | none ↦ done (fail m invalid_value)
      | some destination_host ↦ elim (resolve_device_range m source size true) [
        | none ↦ done (fail m invalid_value)
        | some source_host ↦ copied m (memmove pages destination_host source_host size m.bytes)
      ]
    ]

unfoldable pub cu_memcpy_peer_async :
    Pages → Memory → ℕ → ℕ → ℕ → ℕ → ℕ → ℕ → Outcome Memory (Unit {0})
unfolding cu_memcpy_dtod
cu_memcpy_peer_async pages m destination destination_context source source_context size stream =
    cu_memcpy_dtod pages m destination source size

-- `fillDeviceMemory` for values of `width` bytes.
unfoldable pub fill_device_memory : ℕ → Pages → Memory → ℕ → ℕ → ℕ → Outcome Memory (Unit {0})
fill_device_memory width pages m destination value count =
    if ltb (max64 / width) count
    then done (fail m invalid_value)
    else elim (resolve_device_range m destination (count * width) true) [
      | none ↦ done (fail m invalid_value)
      | some host ↦ copied m (fill_n pages width count host value m.bytes)
    ]

unfoldable pub cu_memset_d8 : Pages → Memory → ℕ → ℕ → ℕ → Outcome Memory (Unit {0})
cu_memset_d8 = fill_device_memory 1

unfoldable pub cu_memset_d16 : Pages → Memory → ℕ → ℕ → ℕ → Outcome Memory (Unit {0})
cu_memset_d16 = fill_device_memory 2

unfoldable pub cu_memset_d32 : Pages → Memory → ℕ → ℕ → ℕ → Outcome Memory (Unit {0})
cu_memset_d32 = fill_device_memory 4
