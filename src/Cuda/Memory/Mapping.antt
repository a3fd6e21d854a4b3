-- ===== src/Cuda/Memory/Mapping.antt =====
-- Generic allocations and mappings of guest/cuda_shim/imb_cuda_shim.cpp.
use isaac_metal_bridge.Base.{
  ℕ, ◌+◌, ◌≤◌, ◌<◌, ◌≡◌, ◌≢◌, ◌⊎◌, inl, inr, ◌↔◌, Bool, true, Option, none, some, ◌∷◌, lookup,
  lookup-put, arith, Option-cases,
}
use isaac_metal_bridge.Cuda.Result.{success, out_of_memory}
use isaac_metal_bridge.Cuda.Memory.State.{Memory, GenericAllocationState, close}
use isaac_metal_bridge.Cuda.Memory.Range.{Covered, any_fits→Covered, Covered→any_fits}
use isaac_metal_bridge.Cuda.Memory.Virtual.{cu_mem_create, cu_mem_map}

-- Where the next handle is free, cuMemCreate of a positive size that gets a descriptor either
-- succeeds, hands out that handle with the descriptor under it and makes no system call that
-- lasts, or answers out of memory, keeps the allocations and closes the descriptor.
pub cu_mem_create_descriptor :
    (m : Memory) (size fd : ℕ) (truncates stored : Bool)
    → 0 < size
    → lookup m.next_generic_allocation_handle m.generic_allocations ≡ none
    → let r = cu_mem_create m true size true 0 (some fd) truncates stored in
      ((r.result ≡ success)
        × (r.out ≡ some m.next_generic_allocation_handle)
        × (lookup m.next_generic_allocation_handle r.state.generic_allocations
            ≡ some (record { fd = fd; size = size }))
        × (r.state.syscalls ≡ m.syscalls))
      ⊎ ((r.result ≡ out_of_memory)
          × (r.state.generic_allocations ≡ m.generic_allocations)
          × (r.state.syscalls ≡ close fd ∷ m.syscalls))
unfolding cu_mem_create
cu_mem_create_descriptor m size fd truncates stored pos free = ground (
  arith,
  lookup-put m.next_generic_allocation_handle m.next_generic_allocation_handle
      (record { fd = fd; size = size }) m.generic_allocations,
)

-- cuMemMap with no flags succeeds exactly when the address and the size are not zero, the handle's
-- allocation holds the size from the offset on, one reservation holds the range, and the fixed
-- `mmap` returns the address.
pub cu_mem_map-success_iff :
    (m : Memory) (pointer size offset handle : ℕ) (mapping : Option ℕ)
    → ((cu_mem_map m pointer size offset handle 0 mapping).result ≡ success) ↔ (
        (pointer ≢ 0)
        × (size ≢ 0)
        × ((g : GenericAllocationState) × (lookup handle m.generic_allocations ≡ some g)
            × (offset + size ≤ g.size))
        × Covered m.virtual_reservations pointer size
        × (mapping ≡ some pointer))
unfolding cu_mem_map
cu_mem_map-success_iff m pointer size offset handle mapping =
    elim (Option-cases (lookup handle m.generic_allocations)) [
      | inl none_there ↦ (λ h. ground arith, λ h. ground arith)
      | inr (g, found) ↦ (
        λ h.
            let covered = any_fits→Covered m.virtual_reservations pointer size in
            (
              ground arith,
              ground arith,
              (g, found, ground arith),
              ground (arith, covered),
              ground arith,
            ),
        λ h. ground (arith, h.2.1, Covered→any_fits m.virtual_reservations pointer size h.3),
      )
    ]
