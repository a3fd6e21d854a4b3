-- ===== src/Icd/Memory/Mapped.antt =====
-- Mapping, flushing and invalidating memory of guest/vulkan_icd/imb_vulkan_icd.cpp keeps the
-- invariant.
use isaac_metal_bridge.Base.{
  ℕ, ◌+◌, ◌-◌, ◌^◌, ◌≤◌, ◌≡◌, refl, ◌∙◌, inl, inr, ◌⊎◌, Bool-cases, Bool, true, false, not, ◌&&◌,
  ◌||◌, Option, some, List, [], ◌∷◌, ltb, ◌==◌, add64, arith,
}
use isaac_metal_bridge.Cuda.Registry.{is_member, object}
use isaac_metal_bridge.Icd.Result.{
  success, out_of_host_memory, memory_map_failed, Answer, reject, answer,
}
use isaac_metal_bridge.Icd.Driver.{Driver, DeviceMemoryState}
use isaac_metal_bridge.Icd.Memory.{
  Surroundings, store_memory, ensure_memory_backing, dirtied, backed_memory,
}
use isaac_metal_bridge.Icd.Memory.Maps.{
  range_size, map_again, map_first, map_memory, MappedMemoryRange, flush_mapped_memory_ranges,
  invalidate_mapped_memory_ranges,
}
use isaac_metal_bridge.Icd.Memory.Good.{
  IsFit, IsGood, Runs, stays, store_memory-After, member-object, held, object-store_self,
}
use isaac_metal_bridge.Icd.Memory.Moves.{backed_memory-IsFit}
use isaac_metal_bridge.Icd.Memory.Calls.{flush_ranges-Runs, invalidate_ranges-Runs}

-- A call that hands out something, and may make an object.
abbrev pub Gives : Option (Answer Driver ℕ) → Type 0
Gives o = (a : Answer Driver ℕ) × (o ≡ some a) × IsGood a.state

-- Backing a memory that is there: the vector cannot be resized, or the bytes are there.
pub ensure_memory_backing_lem :
    (e : Surroundings) (p : ℕ) (m : DeviceMemoryState) (d : Driver)
    → (p == 0 || not (is_member p d.memories)) ≡ false
    → object p d.memories ≡ some m
    → (ensure_memory_backing e p false d ≡ some (out_of_host_memory, d))
      ⊎ (ensure_memory_backing e p false d ≡ some (success, store_memory p (backed_memory m) d))
unfolding ensure_memory_backing
ensure_memory_backing_lem e p m d valid h = elim (Bool-cases (not m.backed && not (e.resizes p))) [
  | inl full ↦ inl (rw (valid, h, ensure_memory_backing, full) refl)
  | inr fits ↦ inr (rw (valid, h, ensure_memory_backing, fits) refl)
]

mapped_first : DeviceMemoryState → ℕ → ℕ → DeviceMemoryState
mapped_first m offset size = dirtied offset (add64 offset size) (record m {
  mapped = true;
  mapped_offset = offset;
  mapped_size = size;
  map_reference_count = 1;
})

mapped_first-IsFit :
    (m : DeviceMemoryState) (offset size : ℕ)
    → IsFit m
    → offset + size ≤ m.size
    → IsFit (mapped_first (backed_memory m) offset size)
unfolding mapped_first
mapped_first-IsFit m offset size f inside = ground arith

pub map_memory-Gives :
    (e : Surroundings) (given : Bool) (p offset size : ℕ) (d : Driver)
    → IsGood d
    → Gives (map_memory e given p offset size d)
unfolding map_memory mapped_first
map_memory-Gives e given p offset size d g = elim (Bool-cases (p == 0 || not given)) [
  | inl null ↦ (reject d memory_map_failed, rw null refl, g)
  | inr valid ↦ elim (Bool-cases (is_member p d.memories)) [
    | inr out ↦ (reject d memory_map_failed, rw (valid, out) refl, g)
    | inl member ↦ elim (member-object p d g member) [
      | held m h ↦
          let size' = range_size m offset size in
          elim (Bool-cases (ltb m.size offset || ltb (m.size - offset) size')) [
            | inl bad ↦ (reject d memory_map_failed, rw (valid, member, h, map_memory, bad) refl, g)
            | inr good ↦ elim (Bool-cases m.mapped) [
              | inl again ↦ (
                map_again p m offset size' d,
                rw (valid, member, h, map_memory, good, again) refl,
                again_good m h again,
              )
              | inr first ↦ elim (ensure_memory_backing_lem e p m d (ground arith) h) [
                | inl full ↦ (
                  reject d out_of_host_memory,
                  rw (valid, member, h, map_memory, good, first, full) refl,
                  g,
                )
                | inr backed ↦
                    let n = backed_memory m in
                    let d' = store_memory p n d in
                    let stored = object-store_self p n d.memories in
                    let a = store_memory-After p m n d h (backed_memory-IsFit m (g.fit p m h)) g in
                    let b =
                      store_memory-After p n (mapped_first n offset size') d' stored
                        (mapped_first-IsFit m offset size' (g.fit p m h) (ground arith)) a.good in
                    (
                      answer (store_memory p (mapped_first n offset size') d') offset,
                      proceeds m valid member h good first d' backed ∙ rw (stored, map_first) refl,
                      b.good,
                    )
              ]
            ]
          ]
    ]
  ]
]
  where
    proceeds :
        (m : DeviceMemoryState)
        → (p == 0 || not given) ≡ false
        → is_member p d.memories ≡ true
        → object p d.memories ≡ some m
        → (ltb m.size offset || ltb (m.size - offset) (range_size m offset size)) ≡ false
        → m.mapped ≡ false
        → (d' : Driver) → ensure_memory_backing e p false d ≡ some (success, d')
        → map_memory e given p offset size d ≡ map_first p offset (range_size m offset size) d'
    proceeds m valid member h good first d' backed =
        rw (valid, member, h, map_memory, good, first, backed) refl

    again_good :
        (m : DeviceMemoryState)
        → object p d.memories ≡ some m
        → m.mapped ≡ true
        → IsGood (map_again p m offset (range_size m offset size) d).state
    again_good m h used =
        let size' = range_size m offset size in
        elim (Bool-cases (
          not (m.mapped_offset == offset)
          || not (m.mapped_size == size')
          || m.map_reference_count == 2 ^ 32 - 1)) [
            | inl other ↦ rw (other, map_again) g
            | inr same ↦
                rw (same, map_again)
                  (let n = record m { map_reference_count = m.map_reference_count + 1 } in
                    let a =
                      store_memory-After p m n d h (once_more m (g.fit p m h) (ground arith) used)
                        g in
                    a.good)
          ]
      where
        once_more :
            (m : DeviceMemoryState)
            → IsFit m
            → (m.map_reference_count == 2 ^ 32 - 1) ≡ false
            → (m.mapped ≡ true)
            → IsFit (record m { map_reference_count = m.map_reference_count + 1 })
        once_more m f below used = ground arith

pub flush_mapped_memory_ranges-Runs :
    (e : Surroundings) (given : Bool) (rs : List MappedMemoryRange) (d : Driver)
    → IsGood d
    → Runs d (flush_mapped_memory_ranges e given rs d)
unfolding flush_mapped_memory_ranges
flush_mapped_memory_ranges-Runs e given [] d g = flush_ranges-Runs e [] d g
flush_mapped_memory_ranges-Runs e true (r ∷ rs) d g = flush_ranges-Runs e (r ∷ rs) d g
flush_mapped_memory_ranges-Runs e false (r ∷ rs) d g = stays memory_map_failed g

pub invalidate_mapped_memory_ranges-Runs :
    (e : Surroundings) (given : Bool) (rs : List MappedMemoryRange) (d : Driver)
    → IsGood d
    → Runs d (invalidate_mapped_memory_ranges e given rs d)
unfolding invalidate_mapped_memory_ranges
invalidate_mapped_memory_ranges-Runs e given [] d g = invalidate_ranges-Runs e [] d g
invalidate_mapped_memory_ranges-Runs e true (r ∷ rs) d g = invalidate_ranges-Runs e (r ∷ rs) d g
invalidate_mapped_memory_ranges-Runs e false (r ∷ rs) d g = stays memory_map_failed g
