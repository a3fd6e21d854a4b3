-- ===== src/Cuda/Memory/Virtual.antt =====
-- Virtual memory management of guest/cuda_shim/imb_cuda_shim.cpp: reservations, generic
-- allocations and mappings. What `mmap`, `memfd_create`, `ftruncate`, `munmap` and `dup` return is
-- an argument of each call, `none` or `false` for failure.
-- The system calls are kept in their order; the page tables that they change are the kernel's, and
-- an argument of the calls that access memory.
use isaac_metal_bridge.Base.{
  ℕ, ◌-◌, ◌*◌, Bool, true, not, ◌&&◌, ◌||◌, Option, none, some, Table, lookup, put, erase, ltb,
  ◌==◌, if◌then◌else◌, max64, add64, sub64, not64, bit_and,
}
use isaac_metal_bridge.Cuda.Result.{
  Reply, fail, succeed, quiet, invalid_value, out_of_memory, invalid_handle,
}
use isaac_metal_bridge.Cuda.Memory.State.{
  Memory, munmap, map_none, map_shared, close, dup, after_call,
}
use isaac_metal_bridge.Cuda.Memory.Range.{any_fits, resolve_device_range}

-- `if (length != 0) munmap(address, length)`.
abbrev pub trimmed : Memory → ℕ → ℕ → Memory
trimmed m address length = if length == 0 then m else after_call m (munmap address length)

abbrev reserved : Memory → ℕ → ℕ → Reply Memory ℕ
reserved m size reservation =
    succeed (record m { virtual_reservations = put reservation size m.virtual_reservations })
      reservation

abbrev default_alignment : ℕ
default_alignment = 64 * 1024

-- The address above `raw` that is a multiple of the alignment.
abbrev pub aligned_address : ℕ → ℕ → ℕ
aligned_address raw alignment = bit_and (sub64 (add64 raw alignment) 1) (not64 (sub64 alignment 1))

-- The branch with no requested address: over-allocate, then cut both ends off.
unfoldable pub reserve_aligned : Memory → ℕ → ℕ → Option ℕ → Reply Memory ℕ
reserve_aligned m size alignment mapping =
    if ltb (max64 - alignment) size then fail m out_of_memory else elim mapping [
      | none ↦ fail m out_of_memory
      | some raw ↦
          let aligned = aligned_address raw alignment in
          let prefix = sub64 aligned raw in
          let suffix = sub64 alignment prefix in
          reserved (trimmed (trimmed m raw prefix) (add64 aligned size) suffix) size aligned
    ]

unfoldable pub reserve_at : Memory → ℕ → Option ℕ → Reply Memory ℕ
reserve_at m size mapping = elim mapping [
  | none ↦ fail m out_of_memory
  | some reservation ↦ reserved m size reservation
]

unfoldable pub cu_mem_address_reserve : Memory → Bool → ℕ → ℕ → ℕ → ℕ → Option ℕ → Reply Memory ℕ
cu_mem_address_reserve m given size alignment requested_address flags mapping =
    if not given || (size == 0 || not (flags == 0))
    then fail m invalid_value
    else let alignment' = if alignment == 0 then default_alignment else alignment in
      if not (bit_and alignment' (sub64 alignment' 1) == 0) || ltb alignment' 4096
      then fail m invalid_value
      else if requested_address == 0
      then reserve_aligned m size alignment' mapping
      else reserve_at m size mapping

unfoldable pub cu_mem_address_free : Memory → ℕ → ℕ → Bool → Reply Memory (Unit {0})
cu_mem_address_free m pointer size unmaps =
    if pointer == 0 || size == 0
    then fail m invalid_value
    else elim (lookup pointer m.virtual_reservations) [
      | none ↦ fail m invalid_value
      | some reservation_size ↦
          if not (reservation_size == size)
          then fail m invalid_value
          else let m' = record m {
            virtual_reservations = erase pointer m.virtual_reservations;
            device_allocations = erase pointer m.device_allocations;
          } in
            if unmaps then quiet (after_call m' (munmap pointer size)) else fail m' invalid_value
    ]

-- `std::unordered_map::emplace` leaves an entry that is there.
abbrev pub emplace {ℓ} : {V : Type ℓ} → ℕ → V → Table V → Table V
emplace k v t = elim (lookup k t) [ none ↦ put k v t | some _ ↦ t ]

-- `stored` is false if `emplace` throws `std::bad_alloc`.
unfoldable pub cu_mem_create :
    Memory → Bool → ℕ → Bool → ℕ → Option ℕ → Bool → Bool → Reply Memory ℕ
cu_mem_create m given size properties flags memfd truncates stored =
    if not given || (not properties || (size == 0 || not (flags == 0)))
    then fail m invalid_value
    else elim memfd [
      | none ↦ fail m out_of_memory
      | some fd ↦
          if not truncates
          then fail (after_call m (close fd)) out_of_memory
          else let handle = m.next_generic_allocation_handle in
            let m' = record m { next_generic_allocation_handle = add64 handle 1 } in
            if not stored
            then fail (after_call m' (close fd)) out_of_memory
            else succeed
                (record m' {
                  generic_allocations =
                      emplace handle (record { fd = fd; size = size }) m.generic_allocations;
                })
                handle
    ]

unfoldable pub cu_mem_release : Memory → ℕ → Reply Memory (Unit {0})
cu_mem_release m handle = elim (lookup handle m.generic_allocations) [
  | none ↦ fail m invalid_handle
  | some allocation ↦ quiet (
      after_call (record m { generic_allocations = erase handle m.generic_allocations })
        (close allocation.fd))
]

-- `mapping` is the address that the fixed `mmap` returns.
unfoldable pub cu_mem_map : Memory → ℕ → ℕ → ℕ → ℕ → ℕ → Option ℕ → Reply Memory (Unit {0})
cu_mem_map m pointer size offset handle flags mapping =
    if pointer == 0 || (size == 0 || not (flags == 0))
    then fail m invalid_value
    else elim (lookup handle m.generic_allocations) [
      | none ↦ fail m invalid_handle
      | some allocation ↦
          if not (any_fits m.virtual_reservations pointer size)
            || (ltb allocation.size offset || ltb (allocation.size - offset) size)
          then fail m invalid_value
          else elim mapping [
            | none ↦ fail m out_of_memory
            | some mapped ↦
                let m' = after_call m (map_shared mapped size allocation.fd offset) in
                if not (mapped == pointer)
                then fail m' out_of_memory
                else quiet
                    (record m' { device_allocations = put pointer size m.device_allocations })
          ]
    ]

unfoldable pub cu_mem_unmap : Memory → ℕ → ℕ → Bool → Reply Memory (Unit {0})
cu_mem_unmap m pointer size remaps =
    if pointer == 0 || size == 0
    then fail m invalid_value
    else elim (lookup pointer m.device_allocations) [
      | none ↦ fail m invalid_value
      | some allocation_size ↦
          if not (allocation_size == size)
          then fail m invalid_value
          else let m' = record m { device_allocations = erase pointer m.device_allocations } in
            if remaps then quiet (after_call m' (map_none pointer size)) else fail m' invalid_value
    ]

unfoldable pub cu_mem_set_access : Memory → ℕ → ℕ → Bool → ℕ → Reply Memory (Unit {0})
cu_mem_set_access m pointer size descriptors descriptor_count =
    if pointer == 0 || (size == 0 || (not descriptors || descriptor_count == 0))
    then fail m invalid_value
    else elim (resolve_device_range m pointer size true) [
      | none ↦ fail m invalid_value
      | some _ ↦ quiet m
    ]

unfoldable pub cu_mem_get_allocation_granularity : Memory → Bool → Bool → ℕ → Reply Memory ℕ
cu_mem_get_allocation_granularity m given properties option =
    if not given || (not properties || (not (option == 0) && not (option == 1)))
    then fail m invalid_value
    else succeed m (64 * 1024)

unfoldable pub cu_mem_export_to_shareable_handle :
    Memory → Bool → ℕ → ℕ → ℕ → Option ℕ → Reply Memory ℕ
cu_mem_export_to_shareable_handle m given handle handle_type flags duplicate =
    if not given || (not (handle_type == 1) || not (flags == 0))
    then fail m invalid_value
    else elim (lookup handle m.generic_allocations) [
      | none ↦ fail m invalid_handle
      | some allocation ↦ elim duplicate [
        | none ↦ fail m out_of_memory
        | some exported ↦ succeed (after_call m (dup exported)) exported
      ]
    ]
