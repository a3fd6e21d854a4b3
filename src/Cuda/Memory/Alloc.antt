-- ===== src/Cuda/Memory/Alloc.antt =====
-- Allocation calls of guest/cuda_shim/imb_cuda_shim.cpp. What `malloc` returns is an argument of
-- the call, `none` for a null pointer; `given` says that an output pointer is not null.
use isaac_metal_bridge.Base.{
  ℕ, Bool, true, false, not, ◌||◌, Option, none, some, Table, lookup, put, erase, contains, remove,
  ◌==◌, if◌then◌else◌,
}
use isaac_metal_bridge.Cuda.Result.{
  Reply, Outcome, done, fault, fail, succeed, quiet, invalid_value, out_of_memory,
}
use isaac_metal_bridge.Cuda.Memory.State.{Memory, malloc_block, free_block}

-- Is the key in the map?
abbrev pub has : Table ℕ → ℕ → Bool
has t k = elim (lookup k t) [ none ↦ false | some _ ↦ true ]

-- `std::free` at the end of a call.
unfoldable pub freed : Memory → ℕ → Outcome Memory (Unit {0})
unfolding free_block
freed m block = elim (free_block m block) [ none ↦ fault | some m' ↦ done (quiet m') ]

unfoldable pub cu_mem_alloc : Memory → Bool → ℕ → Option ℕ → Reply Memory ℕ
cu_mem_alloc m given size allocation =
    if not given || size == 0 then fail m invalid_value else elim allocation [
      | none ↦ fail m out_of_memory
      | some block ↦
          succeed
            (record (malloc_block m block size) {
              device_allocations = put block size m.device_allocations;
            })
            block
    ]

unfoldable pub cu_mem_free : Memory → ℕ → Outcome Memory (Unit {0})
unfolding freed
cu_mem_free m pointer =
    if pointer == 0
    then done (quiet m)
    else if not (has m.device_allocations pointer)
    then done (fail m invalid_value)
    else let external = contains pointer m.external_device_pointers in
      let m' = record m {
        device_allocations = erase pointer m.device_allocations;
        external_device_pointers = remove pointer m.external_device_pointers;
      } in
      if external then done (quiet m') else freed m' pointer

unfoldable pub cu_mem_host_alloc : Memory → Bool → ℕ → Option ℕ → Reply Memory ℕ
cu_mem_host_alloc m given size allocation =
    if not given || size == 0 then fail m invalid_value else elim allocation [
      | none ↦ fail m out_of_memory
      | some block ↦
          succeed
            (record (malloc_block m block size) {
              host_allocations = put block size m.host_allocations;
            })
            block
    ]

unfoldable pub cu_mem_free_host : Memory → ℕ → Outcome Memory (Unit {0})
unfolding freed
cu_mem_free_host m pointer =
    if pointer == 0
    then done (quiet m)
    else if not (has m.host_allocations pointer)
    then done (fail m invalid_value)
    else freed (record m { host_allocations = erase pointer m.host_allocations }) pointer

unfoldable pub cu_mem_host_get_device_pointer : Memory → Bool → ℕ → Reply Memory ℕ
cu_mem_host_get_device_pointer m given host_pointer =
    if not given || host_pointer == 0
    then fail m invalid_value
    else if not (has m.host_allocations host_pointer)
    then fail m invalid_value
    else succeed m host_pointer
