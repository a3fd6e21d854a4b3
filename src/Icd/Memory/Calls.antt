-- ===== src/Icd/Memory/Calls.antt =====
-- Unmapping memory of guest/vulkan_icd/imb_vulkan_icd.cpp and the loops that flush and invalidate
-- it return and keep the invariant.
use isaac_metal_bridge.Base.{
  ℕ, ◌-◌, ◌≡◌, refl, ap, ◌∙◌, contains, inl, inr, Bool-cases, true, not, ◌&&◌, ◌||◌, Option, none,
  some, List, [], ◌∷◌, ltb, ◌==◌, if◌then◌else◌, sub64, arith,
}
use isaac_metal_bridge.Cuda.Registry.{is_member}
use isaac_metal_bridge.Icd.Result.{success, memory_map_failed}
use isaac_metal_bridge.Icd.Driver.{Driver, DeviceMemoryState, Step}
use isaac_metal_bridge.Icd.Memory.{
  Surroundings, store_memory, sync_memory_to_external_fd, refresh_memory_from_external_fd,
  clean_shared, cleaned, is_shared,
}
use isaac_metal_bridge.Icd.Memory.Maps.{
  range_size, unmapped, is_dirty, release_map, unmap_memory, MappedMemoryRange, with_range,
  flush_range, flush_ranges, invalidate_ranges,
}
use isaac_metal_bridge.Icd.Memory.Good.{
  IsFit, IsGood, After, After-trans, Runs, stays, and_then-Runs, store_memory-After, member-object,
  held,
}
use isaac_metal_bridge.Icd.Memory.Moves.{
  sync_memory_to_external_fd-Runs, refresh_memory_from_external_fd-Runs,
}

pub cleaned-IsFit : (m : DeviceMemoryState) → IsFit m → IsFit (cleaned m)
cleaned-IsFit m f = ground arith

-- A call that hands back only the state.
abbrev pub Ends : Driver → Option Driver → Type 0
Ends d o = (d' : Driver) × (o ≡ some d') × After d d'

pub clean_shared-Ends :
    (p : ℕ) (d : Driver) → IsGood d → is_member p d.memories ≡ true → Ends d (clean_shared p d)
unfolding clean_shared
clean_shared-Ends p d g member = elim (member-object p d g member) [
  | held m h ↦ elim (Bool-cases (is_shared m)) [
    | inl s ↦ (
      store_memory p (cleaned m) d,
      rw (h, clean_shared, s) refl,
      store_memory-After p m (cleaned m) d h (cleaned-IsFit m (g.fit p m h)) g,
    )
    | inr s ↦
        (d, rw (h, clean_shared, s) refl, record { good = g; members = refl; same_buffers = refl })
  ]
]

pub and_clean_shared-Runs :
    (p : ℕ) (d : Driver)
    → IsGood d
    → is_member p d.memories ≡ true
    → Runs d (elim (clean_shared p d) [ none ↦ none | some d'' ↦ some (success, d'') ])
and_clean_shared-Runs p d g member =
    let c = clean_shared-Ends p d g member in (success, c.0, rw c.1 refl, c.2)

module _ (e : Surroundings) where
  flush_range-Runs :
      (p offset size : ℕ) (d : Driver)
      → IsGood d
      → is_member p d.memories ≡ true
      → Runs d (flush_range e p offset size d)
  unfolding flush_range
  flush_range-Runs p offset size d g member =
      and_then-Runs d (sync_memory_to_external_fd e p offset size d)
        (λ (d' : Driver). elim (clean_shared p d') [ none ↦ none | some d'' ↦ some (success, d'') ])
        (sync_memory_to_external_fd-Runs e p offset size d g member)
        (λ d' a. and_clean_shared-Runs p d' a.good (ap (contains p) a.members ∙ member))

  with_range-Runs :
      (transfer : ℕ → ℕ → ℕ → Driver → Step)
      → ((p offset size : ℕ) (d : Driver)
          → IsGood d
          → is_member p d.memories ≡ true
          → Runs d (transfer p offset size d))
      → (r : MappedMemoryRange) (d : Driver) → IsGood d
      → Runs d (with_range transfer r d)
  unfolding with_range
  with_range-Runs transfer runs r d g = elim (Bool-cases (is_member r.memory d.memories)) [
    | inr out ↦ rw out (stays memory_map_failed g)
    | inl member ↦ elim (member-object r.memory d g member) [
      | held m h ↦
          elim (Bool-cases
            (ltb m.size r.offset || ltb (m.size - r.offset) (range_size m r.offset r.size))) [
              | inl bad ↦ rw (member, h, with_range, bad) (stays memory_map_failed g)
              | inr good ↦
                  rw (member, h, with_range, good)
                    (runs r.memory r.offset (range_size m r.offset r.size) d g member)
            ]
    ]
  ]

  pub flush_ranges-Runs :
      (rs : List MappedMemoryRange) (d : Driver) → IsGood d → Runs d (flush_ranges e rs d)
  unfolding flush_ranges
  flush_ranges-Runs [] d g = stays success g
  flush_ranges-Runs (r ∷ rs) d g =
      and_then-Runs d (with_range (flush_range e) r d) (flush_ranges e rs)
        (with_range-Runs (flush_range e) flush_range-Runs r d g)
        (λ d' a. flush_ranges-Runs rs d' a.good)

  pub invalidate_ranges-Runs :
      (rs : List MappedMemoryRange) (d : Driver) → IsGood d → Runs d (invalidate_ranges e rs d)
  unfolding invalidate_ranges
  invalidate_ranges-Runs [] d g = stays success g
  invalidate_ranges-Runs (r ∷ rs) d g =
      and_then-Runs d (with_range (refresh_memory_from_external_fd e) r d) (invalidate_ranges e rs)
        (with_range-Runs (refresh_memory_from_external_fd e)
          (refresh_memory_from_external_fd-Runs e) r d g)
        (λ d' a. invalidate_ranges-Runs rs d' a.good)

  release_map-Ends :
      (p : ℕ) (d : Driver) → IsGood d → is_member p d.memories ≡ true → Ends d (release_map p d)
  unfolding release_map
  release_map-Ends p d g member = elim (member-object p d g member) [
    | held m h ↦
        let m' =
          if m.map_reference_count == 1
          then unmapped (if is_shared m then cleaned m else m)
          else record m { map_reference_count = m.map_reference_count - 1 } in
        (
          store_memory p m' d,
          rw (h, release_map) refl,
          store_memory-After p m m' d h (fit m (g.fit p m h)) g,
        )
  ]
    where
      fit :
          (m : DeviceMemoryState)
          → IsFit m
          → IsFit (
              if m.map_reference_count == 1
              then unmapped (if is_shared m then cleaned m else m)
              else record m { map_reference_count = m.map_reference_count - 1 })
      fit m f = ground arith

  pub unmap_memory-Ends : (p : ℕ) (d : Driver) → IsGood d → Ends d (unmap_memory e p d)
  unfolding unmap_memory
  unmap_memory-Ends p d g = elim (Bool-cases (p == 0 || not (is_member p d.memories))) [
    | inl out ↦ rw out (d, refl, record { good = g; members = refl; same_buffers = refl })
    | inr valid ↦
        let member : is_member p d.memories ≡ true = ground arith in
        elim (member-object p d g member) [
          | held m h ↦ elim (Bool-cases (not m.mapped || m.map_reference_count == 0)) [
            | inl free ↦ (
              d,
              rw (valid, h, unmap_memory, free) refl,
              record { good = g; members = refl; same_buffers = refl },
            )
            | inr taken ↦ elim (Bool-cases (is_shared m && is_dirty m)) [
              | inr clean ↦
                  let r = release_map-Ends p d g member in
                  (r.0, rw (valid, h, unmap_memory, taken, clean) r.1, r.2)
              | inl dirty ↦
                  let s =
                    sync_memory_to_external_fd-Runs e p m.dirty_offset
                      (sub64 m.dirty_end m.dirty_offset) d g member in
                  let r = release_map-Ends p s.1 s.3.good (ap (contains p) s.3.members ∙ member) in
                  (r.0, rw (valid, h, unmap_memory, taken, dirty, s.2) r.1, After-trans s.3 r.2)
            ]
          ]
        ]
  ]
