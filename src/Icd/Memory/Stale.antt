-- ===== src/Icd/Memory/Stale.antt =====
-- Flushing a part of a shared memory of guest/vulkan_icd/imb_vulkan_icd.cpp and unmapping it: the
-- bytes outside the part are lost.
use isaac_metal_bridge.Base.{
  ℕ, ◌+◌, ◌-◌, ◌≤◌, ◌<◌, ◌≡◌, refl, ap, sym, ◌∙◌, inl, inr, Bool-cases, true, false, not, ◌&&◌,
  ◌||◌, Option, none, some, [], ◌∷◌, ltb, ◌==◌, arith,
}
use isaac_metal_bridge.Cuda.Registry.{is_member, object}
use isaac_metal_bridge.Icd.Result.{VkResult, success}
use isaac_metal_bridge.Icd.Driver.{Driver, DeviceMemoryState, Step, and_then, whole_size}
use isaac_metal_bridge.Icd.Driver.Transfers.{within}
use isaac_metal_bridge.Icd.Memory.{
  Surroundings, store_memory, sync_memory_to_external_fd, clean_shared, cleaned, is_shared,
}
use isaac_metal_bridge.Icd.Memory.Good.{object-store_self}
use isaac_metal_bridge.Icd.Memory.Maps.{
  range_size, with_range, flush_range, flush_ranges, flush_mapped_memory_ranges, unmap_memory,
  release_map, is_dirty,
}
use isaac_metal_bridge.Icd.Memory.Sync.{
  IsBounded, IsShared, sync_memory_to_external_fd_lem, with_range_of,
}

-- What a successful flush of one range leaves.
record IsFlushed (p : ℕ) (m : DeviceMemoryState) (offset size : ℕ) (d d1 : Driver) : Type 0 where
  clean : object p d1.memories ≡ some (cleaned m)
  outside : (f a : ℕ) → within offset size a ≡ false → d1.files f a ≡ d.files f a

module _ (e : Surroundings) (p : ℕ) (m : DeviceMemoryState) (fd offset size : ℕ) (d : Driver)
    (bounded : IsBounded e.pwrite) (s : IsShared p m fd d) (full : 0 < size)
    (inside : offset + size ≤ m.size) where
  finish_flush : VkResult → Driver → Step
  unfolding flush_ranges
  finish_flush r d' =
      and_then
        (and_then (some (r, d')) (λ (d' : Driver). elim (clean_shared p d') [
          | none ↦ none
          | some d'' ↦ some (success, d'')
        ]))
        (flush_ranges e [])

  clean_shared_lem :
      (d' : Driver)
      → object p d'.memories ≡ some m
      → clean_shared p d' ≡ some (store_memory p (cleaned m) d')
  unfolding clean_shared
  clean_shared_lem d' there = rw (there, clean_shared, shared) refl
    where
      shared : is_shared m ≡ true
      shared = ground (arith, s.file)

  flushed_state :
      (r : VkResult) (d' d1 : Driver)
      → object p d'.memories ≡ some m
      → finish_flush r d' ≡ some (success, d1)
      → (r ≡ success) × (d1 ≡ store_memory p (cleaned m) d')
  unfolding finish_flush
  flushed_state success d' d1 there h =
      let computed : finish_flush success d' ≡ some (success, store_memory p (cleaned m) d') =
        ap
          (λ (x : Option Driver).
            and_then (elim x [ none ↦ none | some d'' ↦ some (success, d'') ]) (flush_ranges e []))
          (clean_shared_lem d' there) in
      (refl, cc (computed, h))
  flushed_state r d' d1 there h = (cc h, absurd (cc h))

  flushed :
      (d1 : Driver)
      → size < whole_size
      → flush_mapped_memory_ranges e true
          (record { memory = p; offset = offset; size = size } ∷ [])
          d
        ≡ some (success, d1)
      → IsFlushed p m offset size d d1
  unfolding flush_mapped_memory_ranges finish_flush
  flushed d1 short h =
      let y = sync_memory_to_external_fd_lem e p m fd offset size d bounded s full inside in
      let f = flushed_state y.0 y.1 d1 y.3 (sym (through y.0 y.1 y.2) ∙ h) in
      record {
        clean =
            ap (λ (x : Driver). object p x.memories) f.1
            ∙ object-store_self p (cleaned m) y.1.memories;
        outside = λ g a out. ap (λ (x : Driver). x.files g a) f.1 ∙ y.5 f.0 g a ∙ elsewhere g a out;
      }
    where
      member : is_member p d.memories ≡ true
      member = ground (arith, s.valid)

      whole : (size == whole_size) ≡ false
      whole = ground arith

      part : (ltb m.size offset || ltb (m.size - offset) (range_size m offset size)) ≡ false
      part = ground arith

      through :
          (r : VkResult) (d' : Driver)
          → sync_memory_to_external_fd e p offset size d ≡ some (r, d')
          → flush_mapped_memory_ranges e true
              (record { memory = p; offset = offset; size = size } ∷ [])
              d
            ≡ finish_flush r d'
      through r d' q = rw (member, s.there, with_range, part, flush_range, whole, q) refl

      elsewhere :
          (g a : ℕ)
          → within offset size a ≡ false
          → with_range_of d.files fd m.bytes offset size g a ≡ d.files g a
      elsewhere g a out = ground arith

-- Unmapping a memory with no dirty bytes writes nothing.
unmapped_clean :
    (e : Surroundings) (p : ℕ) (m : DeviceMemoryState) (d d' : Driver)
    → object p d.memories ≡ some m
    → is_dirty m ≡ false
    → unmap_memory e p d ≡ some d'
    → (f a : ℕ) → d'.files f a ≡ d.files f a
unfolding unmap_memory
unmapped_clean e p m d d' there clean h f a =
    elim (Bool-cases (p == 0 || not (is_member p d.memories))) [
      | inl null ↦ stayed (sym (start null) ∙ h)
      | inr valid ↦ elim (Bool-cases (not m.mapped || m.map_reference_count == 0)) [
        | inl free ↦ stayed (sym (idle valid free) ∙ h)
        | inr taken ↦ released (sym (ends valid taken) ∙ h)
      ]
    ]
  where
    stayed : some d ≡ some d' → d'.files f a ≡ d.files f a
    stayed q = let same : d' ≡ d = cc q in ap (λ (x : Driver). x.files f a) same

    start : (p == 0 || not (is_member p d.memories)) ≡ true → unmap_memory e p d ≡ some d
    start null = rw null refl

    idle :
        (p == 0 || not (is_member p d.memories)) ≡ false
        → (not m.mapped || m.map_reference_count == 0) ≡ true
        → unmap_memory e p d ≡ some d
    idle valid free = rw (valid, there, unmap_memory, free) refl

    ends :
        (p == 0 || not (is_member p d.memories)) ≡ false
        → (not m.mapped || m.map_reference_count == 0) ≡ false
        → unmap_memory e p d ≡ release_map p d
    ends valid taken = rw (valid, there, unmap_memory, taken, quiet) refl
      where
        quiet : (is_shared m && is_dirty m) ≡ false
        quiet = ground arith

    released : release_map p d ≡ some d' → d'.files f a ≡ d.files f a
    released r = unfold release_map in ground arith

-- Where a memory of fewer than 2 ^ 64 - 1 bytes is there, has its bytes and keeps a file, and no
-- transfer moves more than it was asked for, a flush of a range that is not empty and lies inside
-- it, if it succeeds, is followed by an unmapping after which all bytes of the files outside the
-- range are those from before the flush, whatever was dirty.
pub flush-unmap_stale :
    (e : Surroundings) (p : ℕ) (m : DeviceMemoryState) (fd offset size : ℕ) (d d1 d2 : Driver)
    → IsBounded e.pwrite
    → IsShared p m fd d
    → 0 < size
    → offset + size ≤ m.size
    → m.size < whole_size
    → flush_mapped_memory_ranges e true (record { memory = p; offset = offset; size = size } ∷ []) d
      ≡ some (success, d1)
    → unmap_memory e p d1 ≡ some d2
    → (f a : ℕ) → within offset size a ≡ false
    → d2.files f a ≡ d.files f a
flush-unmap_stale e p m fd offset size d d1 d2 bounded s full inside short flush unmap f a out =
    let x = flushed e p m fd offset size d bounded s full inside d1 (omega arith) flush in
    unmapped_clean e p (cleaned m) d1 d2 x.clean refl unmap f a ∙ x.outside f a out
