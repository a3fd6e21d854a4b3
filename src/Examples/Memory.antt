-- ===== src/Examples/Memory.antt =====
-- Allocations and copies of guest/cuda_shim/imb_cuda_shim.cpp at concrete inputs.
use isaac_metal_bridge.Base.{
  ℕ, ◌+◌, ◌-◌, ◌≡◌, ◌<◌, ◌≤◌, ◌⊎◌, sym, ◌∙◌, inl, inr, none, some, [], ◌∷◌, ltb, if◌then◌else◌,
  lookup, contains, arith,
}
use isaac_metal_bridge.Cuda.Result.{done, quiet}
use isaac_metal_bridge.Cuda.Memory.State.{Memory}
use isaac_metal_bridge.Cuda.Memory.Bytes.{Pages}
use isaac_metal_bridge.Cuda.Memory.Storage.{IsMapped, IsSingle, IsOutside}
use isaac_metal_bridge.Cuda.Memory.Copied.{IsCopied}
use isaac_metal_bridge.Cuda.Memory.Filled.{IsFilled}
use isaac_metal_bridge.Cuda.Memory.Copy.{
  cu_memcpy_dtod, cu_memcpy_htod, cu_memcpy_dtoh, fill_device_memory,
}
use isaac_metal_bridge.Cuda.Memory.Ownership.{IsOwned}
use isaac_metal_bridge.Cuda.Memory.Histories.{run, run-IsOwned, free, free_host}
use isaac_metal_bridge.Cuda.Memory.Transfer.{
  IsApart, cu_memcpy_dtod-IsCopied, cu_memcpy_htod-dtoh, fill_device_memory_lem,
}

-- A device allocation of 64 bytes and a host allocation of 32.
abbrev pub two_blocks : Memory
two_blocks = record {
  device_allocations = (4096, 64) ∷ [];
  host_allocations = (8192, 32) ∷ [];
  virtual_reservations = [];
  generic_allocations = [];
  next_generic_allocation_handle = 1;
  external_device_pointers = [];
  heap = (4096, 64) ∷ (8192, 32) ∷ [];
  bytes = λ a. a;
  syscalls = [];
}

two_blocks-IsOwned : IsOwned two_blocks
unfolding lookup contains
two_blocks-IsOwned = record {
  device_live = λ p h e. ground arith;
  host_live = λ p h. ground arith;
  apart = λ p h g. ground arith;
}

run-IsOwned_example :
    (m : Memory) × (run two_blocks (free 4096 ∷ free 4096 ∷ free_host 8192 ∷ []) ≡ some m)
    × IsOwned m
run-IsOwned_example =
    run-IsOwned (free 4096 ∷ free 4096 ∷ free_host 8192 ∷ []) two_blocks two_blocks-IsOwned
      (tt, λ m e. (tt, λ n f. (tt, λ o g. tt)))

-- The first pages are mapped to themselves, the block of the device a second time at 20480, and
-- nothing from there on.
abbrev pages : Pages
pages a = if ltb a 20480 then some a else if ltb a 20544 then some (a - 20480 + 4096) else none

low : (a : ℕ) → a < 20480 → pages a ≡ some a
low a h = ground (arith, h)

low-IsMapped : (a size : ℕ) → a + size ≤ 20480 → IsMapped pages a size
low-IsMapped a size h i l = (a + i, low (a + i) (omega arith))

low_same : (a b c : ℕ) → a < 20480 → b < 20480 → pages a ≡ some c → pages b ≡ some c → a ≡ b
low_same a b c h k p q =
    let same : some a ≡ some b = sym (low a h) ∙ p ∙ sym q ∙ low b k in ground (arith, same)

low-IsSingle : (a size : ℕ) → a + size ≤ 20480 → IsSingle pages a size
low-IsSingle a size h i j c l k p q =
    omega (arith, low_same (a + i) (a + j) c (omega arith) (omega arith) p q)

low-IsApart :
    (a b size : ℕ)
    → a + size ≤ 20480
    → b + size ≤ 20480
    → (a + size ≤ b) ⊎ (b + size ≤ a)
    → IsApart pages a b size
low-IsApart a b size h k o i j c l m p q =
    absurd (ground (arith, low_same (a + i) (b + j) c (omega arith) (omega arith) p q, o))

cu_memcpy_dtod-IsCopied_example :
    (bytes : ℕ → ℕ) × (cu_memcpy_dtod pages two_blocks 4100 4096 16
      ≡ done (quiet (record two_blocks { bytes = bytes })))
    × IsCopied pages two_blocks.bytes bytes 4100 4096 16
cu_memcpy_dtod-IsCopied_example =
    cu_memcpy_dtod-IsCopied pages two_blocks 4100 4096 16 (inl (inl (omega arith, omega arith)))
      (inl (inl (omega arith, omega arith))) (low-IsMapped 4100 16 (omega arith))
      (low-IsMapped 4096 16 (omega arith)) (low-IsSingle 4100 16 (omega arith))
      (λ i j c l k p q. low_same (4100 + i) (4096 + j) c (omega (arith, l)) (omega (arith, k)) p q)

cu_memcpy_htod-dtoh_example :
    (m₁ m₂ : Memory) × (cu_memcpy_htod pages two_blocks 4096 100 8 ≡ done (quiet m₁))
    × (cu_memcpy_dtoh pages m₁ 200 4096 8 ≡ done (quiet m₂))
    × ((i c d : ℕ)
        → i < 8
        → pages (200 + i) ≡ some c
        → pages (100 + i) ≡ some d
        → m₂.bytes c ≡ two_blocks.bytes d)
    × ((c : ℕ)
        → IsOutside pages 4096 8 c
        → IsOutside pages 200 8 c
        → m₂.bytes c ≡ two_blocks.bytes c)
cu_memcpy_htod-dtoh_example =
    cu_memcpy_htod-dtoh pages two_blocks 4096 100 200 8 (omega arith) (omega arith)
      (inl (inl (omega arith, omega arith))) (low-IsMapped 4096 8 (omega arith))
      (low-IsMapped 100 8 (omega arith)) (low-IsMapped 200 8 (omega arith))
      (low-IsSingle 4096 8 (omega arith)) (low-IsSingle 200 8 (omega arith))
      (low-IsApart 4096 100 8 (omega arith) (omega arith) (inr (omega arith)))
      (low-IsApart 200 4096 8 (omega arith) (omega arith) (inl (omega arith)))

fill_device_memory_lem_example :
    (bytes : ℕ → ℕ) × (fill_device_memory 4 pages two_blocks 4096 305419896 16
      ≡ done (quiet (record two_blocks { bytes = bytes })))
    × IsFilled pages two_blocks.bytes bytes 4096 16 4 305419896
fill_device_memory_lem_example =
    fill_device_memory_lem 4 pages two_blocks 4096 305419896 16 (omega arith)
      (inl (inl (omega arith, omega arith))) (low-IsMapped 4096 64 (omega arith))
      (low-IsSingle 4096 64 (omega arith))
