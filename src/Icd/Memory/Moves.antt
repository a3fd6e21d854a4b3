-- ===== src/Icd/Memory/Moves.antt =====
-- The calls of guest/vulkan_icd/imb_vulkan_icd.cpp that move bytes between device memory and the
-- files return and keep the invariant.
use isaac_metal_bridge.Base.{
  ℕ, zero, suc, ◌+◌, ◌-◌, ◌<◌, ◌≡◌, refl, ap, ◌∙◌, contains, inl, inr, Bool-cases, Option-cases,
  Bool, true, false, not, ◌&&◌, ◌||◌, some, leb, ltb, ◌==◌, arith,
}
use isaac_metal_bridge.Cuda.Registry.{is_member, object}
use isaac_metal_bridge.Cuda.Semaphores.{Device}
use isaac_metal_bridge.Cuda.Semaphores.Signals.{Transfer-cases}
use isaac_metal_bridge.Icd.Result.{
  success, memory_map_failed, out_of_host_memory, out_of_device_memory, device_lost,
}
use isaac_metal_bridge.Icd.Driver.{Driver, DeviceMemoryState}
use isaac_metal_bridge.Icd.Driver.Transfers.{write_range, read_range, stored, counted, loaded}
use isaac_metal_bridge.Icd.Memory.{
  Surroundings, store_memory, ensure_memory_backing, ensure_resource, backed_memory, write_back,
  sync_memory_to_external_fd, read_back, refresh_memory_from_external_fd,
}
use isaac_metal_bridge.Icd.Memory.Good.{
  IsFit, IsGood, After, After-trans, Runs, stays, and_then-Runs, moved-IsGood, store_memory-After,
  member-object, object-store_self, held,
}

pub write_range-Runs :
    (n : ℕ) (pwrite : Device) (fd : ℕ) (bytes : ℕ → ℕ) (offset size written : ℕ) (d : Driver)
    → size - written < n
    → IsGood d
    → (b : Bool) × (d' : Driver) × (write_range n pwrite fd bytes offset size written d
        ≡ some (b, d'))
      × After d d'
unfolding write_range
write_range-Runs zero pwrite fd bytes offset size written d h g = absurd (omega arith)
write_range-Runs (suc n) pwrite fd bytes offset size written d h g =
    elim (Bool-cases (leb size written)) [
      | inl all ↦ (true, d, rw all refl, record { good = g; members = refl; same_buffers = refl })
      | inr part ↦ elim (Transfer-cases (pwrite d.transfers (size - written))) [
        | inr (inr e) ↦ (false, counted d, rw (part, e, write_range) refl, quietly)
        | inr (inl e) ↦ (false, counted d, rw (part, e, write_range) refl, quietly)
        | inl (k, e) ↦ elim (Bool-cases (k == 0)) [
          | inl stuck ↦ (false, counted d, rw (part, e, write_range, stuck) refl, quietly)
          | inr moves ↦
              let next = stored d fd bytes (offset + written) k in
              let kept : IsGood next = moved-IsGood d next.files (d.transfers + 1) g in
              let r =
                write_range-Runs n pwrite fd bytes offset size (written + k) next (ground arith)
                  kept in
              (
                r.0,
                r.1,
                rw (part, e, write_range, moves) r.2,
                record { good = r.3.good; members = r.3.members; same_buffers = r.3.same_buffers },
              )
        ]
      ]
    ]
  where
    quietly : After d (counted d)
    quietly = record {
      good = moved-IsGood d d.files (d.transfers + 1) g;
      members = refl;
      same_buffers = refl;
    }

pub read_range-Runs :
    (n : ℕ) (pread : Device) (fd : ℕ) (bytes : ℕ → ℕ) (offset size read : ℕ) (d : Driver)
    → size - read < n
    → (b : Bool) × (bytes' : ℕ → ℕ) × (k : ℕ) × (read_range n pread fd bytes offset size read d
        ≡ some (b, bytes', record d { transfers = k }))
unfolding read_range
read_range-Runs zero pread fd bytes offset size read d h = absurd (omega arith)
read_range-Runs (suc n) pread fd bytes offset size read d h = elim (Bool-cases (leb size read)) [
  | inl all ↦ (true, bytes, d.transfers, rw all refl)
  | inr part ↦ elim (Transfer-cases (pread d.transfers (size - read))) [
    | inr (inr e) ↦ (false, bytes, d.transfers + 1, rw (part, e, read_range) refl)
    | inr (inl e) ↦ (false, bytes, d.transfers + 1, rw (part, e, read_range) refl)
    | inl (k, e) ↦ elim (Bool-cases (k == 0)) [
      | inl stuck ↦ (false, bytes, d.transfers + 1, rw (part, e, read_range, stuck) refl)
      | inr moves ↦
          let r =
            read_range-Runs n pread fd (loaded d fd bytes (offset + read) k) offset size (read + k)
              (counted d) (ground arith) in
          (r.0, r.1, r.2, rw (part, e, read_range, moves) r.3)
    ]
  ]
]

pub backed_memory-IsFit : (m : DeviceMemoryState) → IsFit m → IsFit (backed_memory m)
backed_memory-IsFit m f = ground arith

module _ (e : Surroundings) (p : ℕ) where
  ensure_resource-Runs :
      (needs : Bool) (m : DeviceMemoryState) (d : Driver)
      → IsGood d
      → object p d.memories ≡ some m
      → Runs d (some (ensure_resource e p needs m d))
  unfolding ensure_resource
  ensure_resource-Runs needs m d g h = elim (Bool-cases (needs && m.resource_id == 0)) [
    | inr c ↦ rw c (stays success g)
    | inl c ↦ elim (Option-cases (e.creates p)) [
      | inl z ↦ rw (c, z) (stays device_lost g)
      | inr (o, z) ↦ elim (Option-cases o) [
        | inl y ↦ rw (c, z, y) (stays out_of_device_memory g)
        | inr (id, y) ↦
            rw (c, z, y)
              ((
                success,
                store_memory p (record m { resource_id = id }) d,
                refl,
                store_memory-After p m (record m { resource_id = id }) d h (same id) g,
              ))
      ]
    ]
  ]
    where
      same : (id : ℕ) → IsFit (record m { resource_id = id })
      same id =
          let f = g.fit p m h in
          record {
            small = f.small;
            dirty = f.dirty;
            within = f.within;
            counted = f.counted;
            held = f.held;
            free = f.free;
          }

  pub ensure_memory_backing-Runs :
      (needs : Bool) (d : Driver) → IsGood d → Runs d (ensure_memory_backing e p needs d)
  unfolding ensure_memory_backing
  ensure_memory_backing-Runs needs d g =
      elim (Bool-cases (p == 0 || not (is_member p d.memories))) [
        | inl bad ↦ rw bad (stays memory_map_failed g)
        | inr valid ↦ elim (member-object p d g (ground arith)) [
          | held m h ↦ elim (Bool-cases (not m.backed && not (e.resizes p))) [
            | inl full ↦ rw (valid, h, ensure_memory_backing, full) (stays out_of_host_memory g)
            | inr fits ↦
                rw (valid, h, ensure_memory_backing, fits)
                  (let a =
                      store_memory-After p m (backed_memory m) d h
                        (backed_memory-IsFit m (g.fit p m h)) g in
                    let r =
                      ensure_resource-Runs needs (backed_memory m)
                        (store_memory p (backed_memory m) d) a.good
                        (object-store_self p (backed_memory m) d.memories) in
                    (r.0, r.1, r.2, After-trans a r.3))
          ]
        ]
      ]

  pub write_back-Runs :
      (fd offset size : ℕ) (d : Driver)
      → IsGood d
      → is_member p d.memories ≡ true
      → Runs d (write_back e p fd offset size d)
  unfolding write_back
  write_back-Runs fd offset size d g member = elim (member-object p d g member) [
    | held m h ↦ elim (Bool-cases (ltb m.size offset || ltb (m.size - offset) size)) [
      | inl bad ↦ rw (h, write_back, bad) (stays memory_map_failed g)
      | inr good ↦
          let r = write_range-Runs (suc size) e.pwrite fd m.bytes offset size 0 d (omega arith) g in
          elim (Bool-cases r.0) [
            | inl all ↦ (success, r.1, rw (h, write_back, good, r.2, all) refl, r.3)
            | inr part ↦ (out_of_host_memory, r.1, rw (h, write_back, good, r.2, part) refl, r.3)
          ]
    ]
  ]

  pub sync_memory_to_external_fd-Runs :
      (offset size : ℕ) (d : Driver)
      → IsGood d
      → is_member p d.memories ≡ true
      → Runs d (sync_memory_to_external_fd e p offset size d)
  unfolding sync_memory_to_external_fd
  sync_memory_to_external_fd-Runs offset size d g member = elim (Bool-cases (p == 0)) [
    | inl null ↦ rw null (stays success g)
    | inr some_memory ↦ elim (member-object p d g member) [
      | held m h ↦ elim (Option-cases m.external_fd) [
        | inl alone ↦ rw (some_memory, h, sync_memory_to_external_fd, alone) (stays success g)
        | inr (fd, shared) ↦ elim (Bool-cases (size == 0)) [
          | inl empty ↦
              rw (some_memory, h, sync_memory_to_external_fd, shared, empty) (stays success g)
          | inr full ↦
              rw (some_memory, h, sync_memory_to_external_fd, shared, full)
                (and_then-Runs d (ensure_memory_backing e p false d) (write_back e p fd offset size)
                  (ensure_memory_backing-Runs false d g)
                  (λ d' a.
                    write_back-Runs fd offset size d' a.good (ap (contains p) a.members ∙ member)))
        ]
      ]
    ]
  ]

  pub read_back-Runs :
      (fd offset size : ℕ) (d : Driver)
      → IsGood d
      → is_member p d.memories ≡ true
      → Runs d (read_back e p fd offset size d)
  unfolding read_back
  read_back-Runs fd offset size d g member = elim (member-object p d g member) [
    | held m h ↦ elim (Bool-cases (ltb m.size offset || ltb (m.size - offset) size)) [
      | inl bad ↦ rw (h, read_back, bad) (stays memory_map_failed g)
      | inr good ↦
          let r = read_range-Runs (suc size) e.pread fd m.bytes offset size 0 d (omega arith) in
          let d' = store_memory p (record m { bytes = r.1 }) (record d { transfers = r.2 }) in
          elim (Bool-cases r.0) [
            | inl all ↦ (success, d', rw (h, read_back, good, r.3, all) refl, read m h r.1 r.2)
            | inr part ↦
                (memory_map_failed, d', rw (h, read_back, good, r.3, part) refl, read m h r.1 r.2)
          ]
    ]
  ]
    where
      read :
          (m : DeviceMemoryState)
          → object p d.memories ≡ some m
          → (bytes : ℕ → ℕ) (k : ℕ)
          → After d (store_memory p (record m { bytes = bytes }) (record d { transfers = k }))
      read m h bytes k =
          let f = g.fit p m h in
          let a =
            store_memory-After p m (record m { bytes = bytes }) (record d { transfers = k }) h
              (ground arith) (moved-IsGood d d.files k g) in
          record { good = a.good; members = a.members; same_buffers = a.same_buffers }

  pub refresh_memory_from_external_fd-Runs :
      (offset size : ℕ) (d : Driver)
      → IsGood d
      → is_member p d.memories ≡ true
      → Runs d (refresh_memory_from_external_fd e p offset size d)
  unfolding refresh_memory_from_external_fd
  refresh_memory_from_external_fd-Runs offset size d g member = elim (Bool-cases (p == 0)) [
    | inl null ↦ rw null (stays success g)
    | inr some_memory ↦ elim (member-object p d g member) [
      | held m h ↦ elim (Option-cases m.external_fd) [
        | inl alone ↦ rw (some_memory, h, refresh_memory_from_external_fd, alone) (stays success g)
        | inr (fd, shared) ↦ elim (Bool-cases (size == 0)) [
          | inl empty ↦
              rw (some_memory, h, refresh_memory_from_external_fd, shared, empty) (stays success g)
          | inr full ↦
              rw (some_memory, h, refresh_memory_from_external_fd, shared, full)
                (and_then-Runs d (ensure_memory_backing e p false d) (read_back e p fd offset size)
                  (ensure_memory_backing-Runs false d g)
                  (λ d' a.
                    read_back-Runs fd offset size d' a.good (ap (contains p) a.members ∙ member)))
        ]
      ]
    ]
  ]
