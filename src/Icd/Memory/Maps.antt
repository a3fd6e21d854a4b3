-- ===== src/Icd/Memory/Maps.antt =====
-- Mapping, unmapping, flushing and invalidating device memory, of
-- guest/vulkan_icd/imb_vulkan_icd.cpp.
use isaac_metal_bridge.Base.{
  ℕ, ◌+◌, ◌-◌, ◌^◌, Bool, true, false, not, ◌&&◌, ◌||◌, Option, none, some, List, [], ◌∷◌, ltb,
  ◌==◌, if◌then◌else◌, add64, sub64,
}
use isaac_metal_bridge.Cuda.Registry.{is_member, object}
use isaac_metal_bridge.Icd.Result.{success, memory_map_failed, Answer, reject, answer}
use isaac_metal_bridge.Icd.Driver.{Driver, DeviceMemoryState, Step, and_then, whole_size}
use isaac_metal_bridge.Icd.Memory.{
  Surroundings, store_memory, ensure_memory_backing, sync_memory_to_external_fd,
  refresh_memory_from_external_fd, cleaned, dirtied, is_shared, clean_shared,
}

abbrev pub range_size : DeviceMemoryState → ℕ → ℕ → ℕ
range_size m offset size = if size == whole_size then m.size - offset else size

-- A memory that is mapped again: only the same range, counted in 32 bits.
unfoldable pub map_again : ℕ → DeviceMemoryState → ℕ → ℕ → Driver → Answer Driver ℕ
map_again p m offset size d =
    if not (m.mapped_offset == offset)
      || not (m.mapped_size == size)
      || m.map_reference_count == 2 ^ 32 - 1
    then reject d memory_map_failed
    else answer (store_memory p (record m { map_reference_count = m.map_reference_count + 1 }) d)
        offset

unfoldable pub map_first : ℕ → ℕ → ℕ → Driver → Option (Answer Driver ℕ)
map_first p offset size d = elim (object p d.memories) [
  | none ↦ none
  | some m ↦ some (
      answer
        (store_memory p
          (dirtied offset (add64 offset size) (record m {
            mapped = true;
            mapped_offset = offset;
            mapped_size = size;
            map_reference_count = 1;
          }))
          d)
        offset)
]

-- `out` is the offset in the bytes to which the pointer handed out points.
unfoldable pub map_memory : Surroundings → Bool → ℕ → ℕ → ℕ → Driver → Option (Answer Driver ℕ)
unfolding map_again map_first
map_memory e given p offset size d =
    if p == 0 || not given
    then some (reject d memory_map_failed)
    else if not (is_member p d.memories)
    then some (reject d memory_map_failed)
    else elim (object p d.memories) [
      | none ↦ none
      | some m ↦
          if ltb m.size offset || ltb (m.size - offset) (range_size m offset size)
          then some (reject d memory_map_failed)
          else if m.mapped
          then some (map_again p m offset (range_size m offset size) d)
          else elim (ensure_memory_backing e p false d) [
            | none ↦ none
            | some (success, d') ↦ map_first p offset (range_size m offset size) d'
            | some (error, d') ↦ some (reject d' error)
          ]
    ]

-- `dirtyOffset != VK_WHOLE_SIZE && dirtyEnd > dirtyOffset`
abbrev pub is_dirty : DeviceMemoryState → Bool
is_dirty m = not (m.dirty_offset == whole_size) && ltb m.dirty_offset m.dirty_end

abbrev pub unmapped : DeviceMemoryState → DeviceMemoryState
unmapped m = record m {
  mapped = false;
  mapped_offset = 0;
  mapped_size = 0;
  map_reference_count = 0;
}

-- After the dirty bytes are written back.
unfoldable pub release_map : ℕ → Driver → Option Driver
release_map p d = elim (object p d.memories) [
  | none ↦ none
  | some m ↦ some (
      store_memory p
        (if m.map_reference_count == 1
          then unmapped (if is_shared m then cleaned m else m)
          else record m { map_reference_count = m.map_reference_count - 1 })
        d)
]

unfoldable pub unmap_memory : Surroundings → ℕ → Driver → Option Driver
unfolding release_map
unmap_memory e p d =
    if p == 0 || not (is_member p d.memories) then some d else elim (object p d.memories) [
      | none ↦ none
      | some m ↦
          if not m.mapped || m.map_reference_count == 0
          then some d
          else if is_shared m && is_dirty m
          then elim (sync_memory_to_external_fd e p m.dirty_offset
              (sub64 m.dirty_end m.dirty_offset) d) [
                | none ↦ none
                | some (result, d') ↦ release_map p d'
              ]
          else release_map p d
    ]

pub record MappedMemoryRange : Type 0 where
  pub memory : ℕ
  pub offset : ℕ
  pub size : ℕ

-- One range of a flush or an invalidation; `transfer` moves the bytes.
unfoldable pub with_range : (ℕ → ℕ → ℕ → Driver → Step) → MappedMemoryRange → Driver → Step
with_range transfer r d =
    if not (is_member r.memory d.memories)
    then some (memory_map_failed, d)
    else elim (object r.memory d.memories) [
      | none ↦ none
      | some m ↦
          if ltb m.size r.offset || ltb (m.size - r.offset) (range_size m r.offset r.size)
          then some (memory_map_failed, d)
          else transfer r.memory r.offset (range_size m r.offset r.size) d
    ]

unfoldable pub flush_range : Surroundings → ℕ → ℕ → ℕ → Driver → Step
unfolding clean_shared
flush_range e p offset size d =
    and_then (sync_memory_to_external_fd e p offset size d)
      (λ (d' : Driver). elim (clean_shared p d') [ none ↦ none | some d'' ↦ some (success, d'') ])

unfoldable pub flush_ranges : Surroundings → List MappedMemoryRange → Driver → Step
unfolding with_range flush_range
flush_ranges e [] d = some (success, d)
flush_ranges e (r ∷ rs) d = and_then (with_range (flush_range e) r d) (flush_ranges e rs)

unfoldable pub invalidate_ranges : Surroundings → List MappedMemoryRange → Driver → Step
unfolding with_range
invalidate_ranges e [] d = some (success, d)
invalidate_ranges e (r ∷ rs) d =
    and_then (with_range (refresh_memory_from_external_fd e) r d) (invalidate_ranges e rs)

-- `given` is false if the array is null.
unfoldable pub flush_mapped_memory_ranges :
    Surroundings → Bool → List MappedMemoryRange → Driver → Step
unfolding flush_ranges
flush_mapped_memory_ranges e given [] d = flush_ranges e [] d
flush_mapped_memory_ranges e given (r ∷ rs) d =
    if not given then some (memory_map_failed, d) else flush_ranges e (r ∷ rs) d

unfoldable pub invalidate_mapped_memory_ranges :
    Surroundings → Bool → List MappedMemoryRange → Driver → Step
unfolding invalidate_ranges
invalidate_mapped_memory_ranges e given [] d = invalidate_ranges e [] d
invalidate_mapped_memory_ranges e given (r ∷ rs) d =
    if not given then some (memory_map_failed, d) else invalidate_ranges e (r ∷ rs) d
