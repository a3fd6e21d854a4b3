-- ===== src/Cuda/Memory/Transfer.antt =====
-- What the copies and fills of guest/cuda_shim/imb_cuda_shim.cpp do to the storage behind the
-- addresses, for any page tables of the process.
use isaac_metal_bridge.Base.{
  ℕ, ◌+◌, ◌*◌, ◌/◌, ◌≤◌, ◌<◌, ◌≡◌, refl, ◌∙◌, ◌≢◌, true, false, some, ◌==◌, ltb, max64, arith,
}
use native.Mathlib.Nat.{div-add-mod}
use isaac_metal_bridge.Cuda.Result.{done, quiet, fail, invalid_value}
use isaac_metal_bridge.Cuda.Memory.State.{Memory}
use isaac_metal_bridge.Cuda.Memory.Range.{resolve_device_range_iff, IsAllocated}
use isaac_metal_bridge.Cuda.Memory.Bytes.{Pages, memmove, memcpy}
use isaac_metal_bridge.Cuda.Memory.Storage.{IsMapped, IsSingle, IsOutside}
use isaac_metal_bridge.Cuda.Memory.Copied.{IsCopied, transfer_lem}
use isaac_metal_bridge.Cuda.Memory.Filled.{IsFilled, fill_n_lem}
use isaac_metal_bridge.Cuda.Memory.Copy.{
  cu_memcpy_htod, cu_memcpy_dtoh, cu_memcpy_dtod, fill_device_memory,
}

-- Where two ranges share a byte, both have it at the same address.
abbrev pub MeetsAtSame : Pages → ℕ → ℕ → ℕ → Type 0
MeetsAtSame pages to from size =
    (i j c : ℕ)
    → i < size
    → j < size
    → pages (to + i) ≡ some c
    → pages (from + j) ≡ some c
    → to + i ≡ from + j

-- Two ranges share no byte.
abbrev pub IsApart : Pages → ℕ → ℕ → ℕ → Type 0
IsApart pages to from size =
    (i j c : ℕ) → i < size → j < size → pages (to + i) ≡ some c → pages (from + j) ≢ some c

-- For two allocated ranges that are mapped, where no byte has two addresses in the destination and
-- a byte of both ranges has the same address in both, a device-to-device copy succeeds and changes
-- only the bytes: those of the destination are what those of the source were before, also where
-- the two overlap, and every byte without an address in the destination is as it was.
pub cu_memcpy_dtod-IsCopied :
    (pages : Pages) (m : Memory) (to from size : ℕ)
    → IsAllocated m to size
    → IsAllocated m from size
    → IsMapped pages to size
    → IsMapped pages from size
    → IsSingle pages to size
    → MeetsAtSame pages to from size
    → (bytes : ℕ → ℕ) × (cu_memcpy_dtod pages m to from size
        ≡ done (quiet (record m { bytes = bytes })))
      × IsCopied pages m.bytes bytes to from size
unfolding cu_memcpy_dtod memmove
cu_memcpy_dtod-IsCopied pages m to from size ht hf mapped readable single meet =
    let r =
      transfer_lem pages true to from size m.bytes mapped readable single
        (λ i j c l k p q. (refl, meet i j c l k p q)) in
    let to_itself = (resolve_device_range_iff m to size).1 ht in
    let from_itself = (resolve_device_range_iff m from size).1 hf in
    let moved : memmove pages to from size m.bytes ≡ some r.0 = r.1 in
    (r.0, rw (cu_memcpy_dtod, to_itself, from_itself, moved) refl, r.2)

-- For addresses that are not null, an allocated device range and host ranges, all mapped, where no
-- byte has two addresses in the device range or in the target, and the device range shares no byte
-- with the source or the target, copying to the device and back succeeds, gives the bytes of the
-- target what those of the source were, and changes no byte without an address in the device range
-- or the target.
pub cu_memcpy_htod-dtoh :
    (pages : Pages) (m : Memory) (device source target size : ℕ)
    → source ≢ 0
    → target ≢ 0
    → IsAllocated m device size
    → IsMapped pages device size
    → IsMapped pages source size
    → IsMapped pages target size
    → IsSingle pages device size
    → IsSingle pages target size
    → IsApart pages device source size
    → IsApart pages target device size
    → (m₁ m₂ : Memory) × (cu_memcpy_htod pages m device source size ≡ done (quiet m₁))
      × (cu_memcpy_dtoh pages m₁ target device size ≡ done (quiet m₂))
      × ((i c d : ℕ)
          → i < size
          → pages (target + i) ≡ some c
          → pages (source + i) ≡ some d
          → m₂.bytes c ≡ m.bytes d)
      × ((c : ℕ)
          → IsOutside pages device size c
          → IsOutside pages target size c
          → m₂.bytes c ≡ m.bytes c)
unfolding cu_memcpy_htod cu_memcpy_dtoh memcpy
cu_memcpy_htod-dtoh pages m device source target size hs ht h on_device on_source on_target single
      single' apart apart' =
    let there =
      transfer_lem pages false device source size m.bytes on_device on_source single
        (λ i j c l k p q. absurd (apart i j c l k p q)) in
    let back =
      transfer_lem pages false target device size there.0 on_target on_device single'
        (λ i j c l k p q. absurd (apart' i j c l k p q)) in
    let written : memcpy pages device source size m.bytes ≡ some there.0 = there.1 in
    let read : memcpy pages target device size there.0 ≡ some back.0 = back.1 in
    let up : Memory = record m { bytes = there.0 } in
    let source_given : (source == 0) ≡ false = ground arith in
    let target_given : (target == 0) ≡ false = ground arith in
    (
      up,
      record m { bytes = back.0 },
      rw (cu_memcpy_htod, source_given, (resolve_device_range_iff m device size).1 h, written) refl,
      rw (cu_memcpy_dtoh, target_given, (resolve_device_range_iff up device size).1 h, read) refl,
      λ i c d l p q.
          let e = on_device i l in back.2.inside i c e.0 l p e.1 ∙ there.2.inside i e.0 d l e.1 q,
      λ c o o'. back.2.outside c o' ∙ there.2.outside c o,
    )

-- For a count whose bytes do not wrap 64 bits and an allocated and mapped range in which no byte
-- has two addresses, filling succeeds, sets every byte of every element to the matching byte of
-- the value, and changes no byte without an address in the range.
pub fill_device_memory_lem :
    (width : ℕ) (pages : Pages) (m : Memory) (to value count : ℕ)
    → count ≤ max64 / width
    → IsAllocated m to (count * width)
    → IsMapped pages to (count * width)
    → IsSingle pages to (count * width)
    → (bytes : ℕ → ℕ) × (fill_device_memory width pages m to value count
        ≡ done (quiet (record m { bytes = bytes })))
      × IsFilled pages m.bytes bytes to count width value
unfolding fill_device_memory
fill_device_memory_lem width pages m to value count small h mapped single =
    let r = fill_n_lem pages width count to value m.bytes mapped single in
    let few : ltb (max64 / width) count ≡ false = ground arith in
    (
      r.0,
      rw (fill_device_memory, few, (resolve_device_range_iff m to (count * width)).1 h, r.1) refl,
      r.2,
    )

quotient_lt : (q w c n : ℕ) → q * w ≤ n → n < c * w → q < c
quotient_lt q w c n p h = grind arith

div-mul-le : (n w : ℕ) → n / w * w ≤ n
div-mul-le n w = omega (arith, div-add-mod n w)

-- A fill whose number of bytes exceeds 2 ^ 64 - 1 is refused and changes nothing.
pub fill_device_memory_wraps :
    (width : ℕ) (pages : Pages) (m : Memory) (to value count : ℕ)
    → max64 < count * width
    → fill_device_memory width pages m to value count ≡ done (fail m invalid_value)
unfolding fill_device_memory
fill_device_memory_wraps width pages m to value count h =
    ground (arith, quotient_lt (max64 / width) width count max64 (div-mul-le max64 width) h)
