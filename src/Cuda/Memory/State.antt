-- ===== src/Cuda/Memory/State.antt =====
-- The globals of guest/cuda_shim/imb_cuda_shim.cpp that describe memory, with the parts of the
-- process that the calls on them change: the blocks of `malloc`, the bytes, the system calls made,
-- by which the kernel maps addresses to bytes.
use isaac_metal_bridge.Base.{ℕ, List, ◌∷◌, Table, Option, none, some, lookup, erase}

pub record GenericAllocationState : Type 0 where
  pub fd : ℕ
  pub size : ℕ

-- A system call whose effect outlives the call that makes it.
pub data Syscall : Type 0 where
  -- address, length
  munmap : ℕ → ℕ → Syscall
  -- `PROT_NONE`, anonymous, fixed: address, length
  map_none : ℕ → ℕ → Syscall
  -- shared, fixed: address, length, descriptor, offset
  map_shared : ℕ → ℕ → ℕ → ℕ → Syscall
  close : ℕ → Syscall
  dup : ℕ → Syscall

pub record Memory : Type 0 where
  -- gDeviceAllocations, gHostAllocations, gVirtualReservations: address to size
  pub device_allocations : Table ℕ
  pub host_allocations : Table ℕ
  pub virtual_reservations : Table ℕ
  -- gGenericAllocations and gNextGenericAllocationHandle
  pub generic_allocations : Table GenericAllocationState
  pub next_generic_allocation_handle : ℕ
  -- gExternalDevicePointers
  pub external_device_pointers : List ℕ
  -- the blocks that `malloc` gave out and `free` did not take back
  pub heap : Table ℕ
  -- the contents of the storage, by byte; which addresses lead to a byte is the kernel's
  pub bytes : ℕ → ℕ
  -- the system calls made, newest first
  pub syscalls : List Syscall

abbrev pub after_call : Memory → Syscall → Memory
after_call m c = record m { syscalls = c ∷ m.syscalls }

-- `std::malloc` returning `block`.
abbrev pub malloc_block : Memory → ℕ → ℕ → Memory
malloc_block m block size = record m { heap = (block, size) ∷ m.heap }

-- `std::free`: `none` for a pointer that is not a live block.
unfoldable pub free_block : Memory → ℕ → Option Memory
free_block m block = elim (lookup block m.heap) [
  | none ↦ none
  | some _ ↦ some (record m { heap = erase block m.heap })
]
