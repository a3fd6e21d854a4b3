-- ===== src/Icd/Memory/Objects.antt =====
-- Allocating, exporting and freeing device memory of guest/vulkan_icd/imb_vulkan_icd.cpp return and
-- keep the invariant.
use isaac_metal_bridge.Base.{
  subst, ℕ, suc, ◌≤◌, ◌≡◌, refl, inl, inr, Bool-cases, Bool, true, false, not, Option, none, some,
  List, [], ◌∷◌, ltb, ◌==◌, if◌then◌else◌, max64, arith, ℤ, pos, negsuc, insert, contains-insert,
  lookup-put,
}
use isaac_metal_bridge.Cuda.Registry.{enrol-IsSound}
use isaac_metal_bridge.Icd.Result.{
  out_of_host_memory, invalid_external_handle, initialization_failed, feature_not_present,
  out_of_device_memory, Answer, reject, answer,
}
use isaac_metal_bridge.Icd.Bindings.{SparseBufferBinding}
use isaac_metal_bridge.Icd.Driver.{Driver, DeviceMemoryState, Enums}
use isaac_metal_bridge.Icd.Memory.{Surroundings}
use isaac_metal_bridge.Icd.Memory.Allocate.{
  AllocateInfo, fresh_memory, add_memory, import_memory, add_allocation, allocate_memory,
  export_types, import_info,
}
use isaac_metal_bridge.Icd.Memory.Good.{IsFit, IsGood, AllBacked, moved-IsGood}
use isaac_metal_bridge.Icd.Memory.Moves.{read_range-Runs}
use isaac_metal_bridge.Icd.Memory.Mapped.{Gives}

AllBacked-insert :
    (p : ℕ) (members : List ℕ) (bs : List SparseBufferBinding)
    → AllBacked members bs
    → AllBacked (insert p members) bs
AllBacked-insert p members [] h = tt
AllBacked-insert p members (b ∷ bs) h =
    (ground (arith, contains-insert p b.memory members), AllBacked-insert p members bs h.1)

add_memory-IsGood :
    (p : ℕ) (m : DeviceMemoryState) (d : Driver) → IsFit m → IsGood d → IsGood (add_memory p m d)
add_memory-IsGood p m d f g = record {
  memories = enrol-IsSound d.memories p m g.memories;
  buffers = g.buffers;
  fit = λ q n h. elim (Bool-cases (p == q)) [
    | inl same ↦
        subst (λ (x : DeviceMemoryState). IsFit x)
          (ground (arith, lookup-put p q m d.memories.live)) f
    | inr other ↦ g.fit q n (ground (arith, lookup-put p q m d.memories.live))
  ];
  bound = λ q b h.
      let k = g.bound q b h in
      (k.0, k.1, AllBacked-insert p d.memories.members b.sparse_bindings k.2);
}

fresh_memory-IsFit : (device size types : ℕ) → size ≤ max64 → IsFit (fresh_memory device size types)
fresh_memory-IsFit device size types h = ground arith

module _ (e : Surroundings) (vk : Enums) (p : ℕ) where
  import_memory-Gives :
      (m : DeviceMemoryState) (fd : ℕ) (status : Option ℤ) (d : Driver)
      → IsFit m
      → m.mapped ≡ false
      → IsGood d
      → Gives (import_memory e vk p m fd status d)
  unfolding import_memory
  import_memory-Gives m fd none d f u g = (reject d invalid_external_handle, refl, g)
  import_memory-Gives m fd (some (negsuc n)) d f u g = (reject d invalid_external_handle, refl, g)
  import_memory-Gives m fd (some (pos shown)) d f u g = elim (Bool-cases (ltb shown m.size)) [
    | inl short ↦ (reject d invalid_external_handle, rw short refl, g)
    | inr long ↦ elim (Bool-cases (not (e.resizes p))) [
      | inl full ↦ (reject d out_of_host_memory, rw (long, full) refl, g)
      | inr fits ↦
          let r = read_range-Runs (suc m.size) e.pread fd (λ a. 0) 0 m.size 0 d (omega arith) in
          let d' = record d { transfers = r.2 } in
          let g' = moved-IsGood d d.files r.2 g in
          elim (Bool-cases r.0) [
            | inr part ↦ (
              reject (record d' { closed = fd ∷ d.closed }) invalid_external_handle,
              rw (long, fits, r.3, part) refl,
              record { memories = g.memories; buffers = g.buffers; fit = g.fit; bound = g.bound },
            )
            | inl all ↦
                let n = imported m fd r.1 in
                (
                  answer (add_memory p n d') p,
                  rw (long, fits, r.3, all) refl,
                  add_memory-IsGood p n d' (imported-IsFit m fd r.1 f u) g',
                )
          ]
    ]
  ]
    where
      imported : DeviceMemoryState → ℕ → (ℕ → ℕ) → DeviceMemoryState
      imported m fd bytes = record m {
        backed = true;
        bytes = bytes;
        external_fd = some fd;
        export_handle_types = vk.memory_handle_opaque_fd;
        dirty_offset = 0;
        dirty_end = m.size;
      }

      imported-IsFit :
          (m : DeviceMemoryState) (fd : ℕ) (bytes : ℕ → ℕ)
          → IsFit m
          → m.mapped ≡ false
          → IsFit (imported m fd bytes)
      imported-IsFit m fd bytes f u = ground arith

  add_allocation-Gives :
      (m : DeviceMemoryState) (info : Option (ℕ × ℤ)) (status : Option ℤ) (d : Driver)
      → IsFit m
      → m.mapped ≡ false
      → IsGood d
      → Gives (add_allocation e vk p m info status d)
  unfolding add_allocation
  add_allocation-Gives m none status d f u g =
      (answer (add_memory p m d) p, refl, add_memory-IsGood p m d f g)
  add_allocation-Gives m (some (t, pos fd)) status d f u g = import_memory-Gives m fd status d f u g
  add_allocation-Gives m (some (t, negsuc n)) status d f u g =
      (reject d invalid_external_handle, refl, g)

pub guard-Gives :
    (b : Bool) (x y : Option (Answer Driver ℕ)) → Gives x → Gives y → Gives (if b then x else y)
guard-Gives true x y gx gy = gx
guard-Gives false x y gx gy = gy

-- The sizes are 64-bit numbers.
pub allocate_memory-Gives :
    (e : Surroundings) (vk : Enums) (given : Bool) (device : ℕ) (info : AllocateInfo)
    (limit allocation : Option ℕ) (status : Option ℤ) (d : Driver)
    → info.allocation_size ≤ max64
    → IsGood d
    → Gives (allocate_memory e vk given device info limit allocation status d)
unfolding allocate_memory
allocate_memory-Gives e vk given device info none allocation status d small g =
    guard-Gives _ _ _ (reject d initialization_failed, refl, g)
      (guard-Gives _ _ _ (reject d feature_not_present, refl, g)
        (reject d feature_not_present, refl, g))
allocate_memory-Gives e vk given device info (some longest) none status d small g =
    guard-Gives _ _ _ (reject d initialization_failed, refl, g)
      (guard-Gives _ _ _ (reject d feature_not_present, refl, g)
        (guard-Gives _ _ _ (reject d out_of_device_memory, refl, g)
          (guard-Gives _ _ _ (reject d invalid_external_handle, refl, g)
            (reject d out_of_host_memory, refl, g))))
allocate_memory-Gives e vk given device info (some longest) (some p) status d small g =
    let m = fresh_memory device info.allocation_size (export_types info.extensions 0) in
    guard-Gives _ _ _ (reject d initialization_failed, refl, g)
      (guard-Gives _ _ _ (reject d feature_not_present, refl, g)
        (guard-Gives _ _ _ (reject d out_of_device_memory, refl, g)
          (guard-Gives _ _ _ (reject d invalid_external_handle, refl, g)
            (add_allocation-Gives e vk p m (import_info info.extensions none) status d
              (fresh_memory-IsFit device info.allocation_size (export_types info.extensions 0)
                small)
              refl g))))
