-- ===== src/Cuda/Memory/Ownership.antt =====
-- Who owns a block: the life of what cuMemAlloc and cuMemHostAlloc hand out, in
-- guest/cuda_shim/imb_cuda_shim.cpp.
use isaac_metal_bridge.Base.{
  ℕ, ◌≡◌, ◌≢◌, ◌↔◌, Bool, true, false, some, lookup, contains, lookup-put, lookup-erase,
  contains-remove, arith,
}
use isaac_metal_bridge.Cuda.Result.{Reply, done, fault}
use isaac_metal_bridge.Cuda.Memory.State.{Memory, free_block}
use isaac_metal_bridge.Cuda.Memory.Alloc.{
  has, cu_mem_alloc, cu_mem_free, cu_mem_host_alloc, cu_mem_free_host,
}

-- cuMemFree hands `free` a pointer that is not a live block exactly for a pointer that is not
-- null, is a device allocation, is no imported buffer, and is not a live block.
pub cu_mem_free-fault_iff :
    (m : Memory) (pointer : ℕ)
    → (cu_mem_free m pointer ≡ fault) ↔ (
        (pointer ≢ 0)
        × (has m.device_allocations pointer ≡ true)
        × (contains pointer m.external_device_pointers ≡ false)
        × (has m.heap pointer ≡ false))
unfolding cu_mem_free free_block
cu_mem_free-fault_iff m pointer = (λ h. ground arith, λ h. ground arith)

pub record IsOwned (m : Memory) : Type 0 where
  pub device_live :
      (p : ℕ)
      → has m.device_allocations p ≡ true
      → contains p m.external_device_pointers ≡ false
      → has m.heap p ≡ true
  pub host_live : (p : ℕ) → has m.host_allocations p ≡ true → has m.heap p ≡ true
  pub apart : (p : ℕ) → has m.device_allocations p ≡ true → has m.host_allocations p ≡ true → ⊥

-- What `malloc` promises of a block: not null, and not in use.
pub record IsFresh (m : Memory) (block : ℕ) : Type 0 where
  pub nonnull : block ≢ 0
  pub unused : has m.heap block ≡ false
  pub unregistered : has m.device_allocations block ≡ false

pub cu_mem_alloc-IsOwned :
    (m : Memory) (given : Bool) (size block : ℕ)
    → IsFresh m block
    → IsOwned m
    → IsOwned (cu_mem_alloc m given size (some block)).state
unfolding cu_mem_alloc lookup
cu_mem_alloc-IsOwned m given size block f v = record {
  device_live = λ p. ground (arith, lookup-put block p size m.device_allocations, v.device_live p);
  host_live = λ p. ground (arith, v.host_live p);
  apart =
      λ p. ground (arith, lookup-put block p size m.device_allocations, v.apart p, v.host_live p);
}

pub cu_mem_host_alloc-IsOwned :
    (m : Memory) (given : Bool) (size block : ℕ)
    → IsFresh m block
    → IsOwned m
    → IsOwned (cu_mem_host_alloc m given size (some block)).state
unfolding cu_mem_host_alloc lookup
cu_mem_host_alloc-IsOwned m given size block f v = record {
  device_live = λ p. ground (arith, v.device_live p);
  host_live = λ p. ground (arith, lookup-put block p size m.host_allocations, v.host_live p);
  apart = λ p. ground (arith, lookup-put block p size m.host_allocations, v.apart p);
}

pub cu_mem_free-IsOwned :
    (m : Memory) (pointer : ℕ) (r : Reply Memory (Unit {0}))
    → cu_mem_free m pointer ≡ done r
    → IsOwned m
    → IsOwned r.state
unfolding cu_mem_free free_block
cu_mem_free-IsOwned m pointer r e v = record {
  device_live = λ p. ground (
    arith,
    lookup-erase pointer p m.device_allocations,
    lookup-erase pointer p m.heap,
    contains-remove pointer p m.external_device_pointers,
    v.device_live p,
  );
  host_live = λ p. ground (arith, lookup-erase pointer p m.heap, v.host_live p, v.apart p);
  apart = λ p. ground (arith, lookup-erase pointer p m.device_allocations, v.apart p);
}

pub cu_mem_free_host-IsOwned :
    (m : Memory) (pointer : ℕ) (r : Reply Memory (Unit {0}))
    → cu_mem_free_host m pointer ≡ done r
    → IsOwned m
    → IsOwned r.state
unfolding cu_mem_free_host free_block
cu_mem_free_host-IsOwned m pointer r e v = record {
  device_live = λ p. ground (arith, lookup-erase pointer p m.heap, v.device_live p, v.apart p);
  host_live = λ p. ground (
    arith,
    lookup-erase pointer p m.host_allocations,
    lookup-erase pointer p m.heap,
    v.host_live p,
  );
  apart = λ p. ground (arith, lookup-erase pointer p m.host_allocations, v.apart p);
}
