-- ===== src/Icd/Memory/Share.antt =====
-- Exporting device memory of guest/vulkan_icd/imb_vulkan_icd.cpp as a descriptor returns and keeps
-- the invariant.
use isaac_metal_bridge.Base.{
  ℕ, ◌≡◌, refl, ap, ◌∙◌, contains, inl, inr, Bool-cases, Option-cases, Bool, true, false, not, ◌||◌,
  Option, none, some, ◌==◌, ◌∷◌, sub64, arith, put,
}
use isaac_metal_bridge.Cuda.Registry.{is_member, object, store_object}
use isaac_metal_bridge.Icd.Result.{
  VkResult, success, out_of_host_memory, too_many_objects, invalid_external_handle, reject, answer,
}
use isaac_metal_bridge.Icd.Driver.{Driver, DeviceMemoryState, Step, Enums, valid_device}
use isaac_metal_bridge.Icd.Memory.{
  Surroundings, store_memory, ensure_memory_backing, sync_memory_to_external_fd, cleaned,
}
use isaac_metal_bridge.Icd.Memory.Maps.{is_dirty}
use isaac_metal_bridge.Icd.Memory.Export.{
  with_file, drop_file, clean, make_file, update_file, hand_out, share_memory, get_memory_fd,
  GetFdInfo,
}
use isaac_metal_bridge.Icd.Memory.Good.{
  IsFit, IsGood, After, After-trans, Runs, stays, and_then-Runs, store_memory-After, member-object,
  held,
}
use isaac_metal_bridge.Icd.Memory.Moves.{
  sync_memory_to_external_fd-Runs, ensure_memory_backing-Runs,
}
use isaac_metal_bridge.Icd.Memory.Calls.{Ends, cleaned-IsFit}
use isaac_metal_bridge.Icd.Memory.Mapped.{Gives}
use isaac_metal_bridge.Icd.Memory.Objects.{guard-Gives}

module _ (p : ℕ) where
  clean-Ends : (d : Driver) → IsGood d → is_member p d.memories ≡ true → Ends d (clean p d)
  unfolding clean
  clean-Ends d g member = elim (member-object p d g member) [
    | held m h ↦ (
      store_memory p (cleaned m) d,
      rw (h, clean) refl,
      store_memory-After p m (cleaned m) d h (cleaned-IsFit m (g.fit p m h)) g,
    )
  ]

  drop_file-Ends :
      (fd : ℕ) (d : Driver) → IsGood d → is_member p d.memories ≡ true → Ends d (drop_file p fd d)
  unfolding drop_file
  drop_file-Ends fd d g member = elim (member-object p d g member) [
    | held m h ↦
        let a =
          store_memory-After p m (record m { external_fd = none }) d h (alone m (g.fit p m h)) g in
        (
          record d {
            memories = store_object p (record m { external_fd = none }) d.memories;
            closed = fd ∷ d.closed;
          },
          rw (h, drop_file) refl,
          record {
            good = record {
              memories = a.good.memories;
              buffers = a.good.buffers;
              fit = a.good.fit;
              bound = a.good.bound;
            };
            members = refl;
            same_buffers = refl;
          },
        )
  ]
    where
      alone : (m : DeviceMemoryState) → IsFit m → IsFit (record m { external_fd = none })
      alone m f = ground arith

  and_clean-Runs :
      (d : Driver)
      → IsGood d
      → is_member p d.memories ≡ true
      → Runs d (elim (clean p d) [ none ↦ none | some d'' ↦ some (success, d'') ])
  and_clean-Runs d g member = let c = clean-Ends d g member in (success, c.0, rw c.1 refl, c.2)

  with_file-After :
      (m : DeviceMemoryState) (fd : ℕ) (d : Driver)
      → IsGood d
      → object p d.memories ≡ some m
      → After d (with_file p m fd d)
  with_file-After m fd d g h =
      let a =
        store_memory-After p m (record m { external_fd = some fd }) d h (shared m (g.fit p m h))
          g in
      record {
        good = record {
          memories = a.good.memories;
          buffers = a.good.buffers;
          fit = a.good.fit;
          bound = a.good.bound;
        };
        members = refl;
        same_buffers = refl;
      }
    where
      shared : (m : DeviceMemoryState) → IsFit m → IsFit (record m { external_fd = some fd })
      shared m f = ground arith

  module _ (e : Surroundings) where
    make_file-Runs :
        (m : DeviceMemoryState) (file : Option ℕ) (truncates : Bool) (d : Driver)
        → IsGood d
        → object p d.memories ≡ some m
        → is_member p d.memories ≡ true
        → Runs d (make_file e p m file truncates d)
    unfolding make_file
    make_file-Runs m none truncates d g h member = stays too_many_objects g
    make_file-Runs m (some fd) false d g h member = (
      out_of_host_memory,
      record d { closed = fd ∷ d.closed },
      refl,
      record {
        good = record { memories = g.memories; buffers = g.buffers; fit = g.fit; bound = g.bound };
        members = refl;
        same_buffers = refl;
      },
    )
    make_file-Runs m (some fd) true d g h member =
        let a = with_file-After m fd d g h in
        let r = sync_memory_to_external_fd-Runs e p 0 m.size (with_file p m fd d) a.good member in
        let member' : is_member p r.1.memories ≡ true = ap (contains p) r.3.members ∙ member in
        finish r.0 r.1 r.2 (After-trans a r.3) member'
      where
        finish :
            (r : VkResult) (d' : Driver)
            → sync_memory_to_external_fd e p 0 m.size (with_file p m fd d) ≡ some (r, d')
            → After d d'
            → is_member p d'.memories ≡ true
            → Runs d (make_file e p m (some fd) true d)
        finish success d' s a member' =
            let c = and_clean-Runs d' a.good member' in (c.0, c.1, rw s c.2, After-trans a c.3)
        finish r d' s a member' =
            let c = drop_file-Ends fd d' a.good member' in
            (r, c.0, rw (s, c.1) refl, After-trans a c.2)

    update_file-Runs :
        (m : DeviceMemoryState) (d : Driver)
        → IsGood d
        → is_member p d.memories ≡ true
        → Runs d (update_file e p m d)
    unfolding update_file
    update_file-Runs m d g member = elim (Bool-cases (is_dirty m)) [
      | inr clean ↦ rw clean (stays success g)
      | inl dirty ↦ rw dirty (
          and_then-Runs d
            (sync_memory_to_external_fd e p m.dirty_offset (sub64 m.dirty_end m.dirty_offset) d)
            (λ (d' : Driver). elim (clean p d') [ none ↦ none | some d'' ↦ some (success, d'') ])
            (sync_memory_to_external_fd-Runs e p m.dirty_offset (sub64 m.dirty_end m.dirty_offset) d
              g member)
            (λ d' a. and_clean-Runs d' a.good (ap (contains p) a.members ∙ member)))
    ]

    hand_out-Gives :
        (output : Option ℕ) (d : Driver)
        → IsGood d
        → is_member p d.memories ≡ true
        → Gives (hand_out p output d)
    unfolding hand_out
    hand_out-Gives none d g member = (reject d too_many_objects, refl, g)
    hand_out-Gives (some output) d g member = elim (member-object p d g member) [
      | held m h ↦ elim (Option-cases m.external_fd) [
        | inl alone ↦ (reject d too_many_objects, rw (h, hand_out, alone) refl, g)
        | inr (fd, shared) ↦ (
          answer (record d { duplicates = put output fd d.duplicates }) output,
          rw (h, hand_out, shared) refl,
          record { memories = g.memories; buffers = g.buffers; fit = g.fit; bound = g.bound },
        )
      ]
    ]

    share_memory-Gives :
        (file : Option ℕ) (truncates : Bool) (output : Option ℕ) (d : Driver)
        → IsGood d
        → is_member p d.memories ≡ true
        → Gives (share_memory e p file truncates output d)
    unfolding share_memory
    share_memory-Gives file truncates output d g member = elim (member-object p d g member) [
      | held m h ↦ elim (Option-cases m.external_fd) [
        | inl alone ↦
            let r = make_file-Runs m file truncates d g h member in
            rw (h, share_memory, alone) (after (make_file e p m file truncates d) r.0 r.1 r.2 r.3)
        | inr (fd, shared) ↦
            let r = update_file-Runs m d g member in
            rw (h, share_memory, shared) (after (update_file e p m d) r.0 r.1 r.2 r.3)
      ]
    ]
      where
        after :
            (s : Step) (r : VkResult) (d' : Driver)
            → s ≡ some (r, d')
            → After d d'
            → Gives (elim s [
              | none ↦ none
              | some (success, d') ↦ hand_out p output d'
              | some (error, d') ↦ some (reject d' error)
            ])
        after s success d' q a =
            rw q (hand_out-Gives output d' a.good (ap (contains p) a.members ∙ member))
        after s r d' q a = (reject d' r, rw q refl, a.good)

pub get_memory_fd-Gives :
    (e : Surroundings) (vk : Enums) (given : Bool) (device : ℕ) (info : GetFdInfo) (file : Option ℕ)
    (truncates : Bool) (output : Option ℕ) (d : Driver)
    → IsGood d
    → Gives (get_memory_fd e vk given device info file truncates output d)
unfolding get_memory_fd
get_memory_fd-Gives e vk given device info file truncates output d g =
    elim (Bool-cases (not given || not (info.handle_type == vk.memory_handle_opaque_fd))) [
      | inl null ↦ rw null (reject d invalid_external_handle, refl, g)
      | inr asked ↦
          elim (Bool-cases
            (not (valid_device device d) || not (is_member info.handle d.memories))) [
              | inl out ↦ rw (asked, out) (reject d invalid_external_handle, refl, g)
              | inr valid ↦
                  let member : is_member info.handle d.memories ≡ true = ground arith in
                  elim (member-object info.handle d g member) [
                    | held m h ↦
                        let r = ensure_memory_backing-Runs e info.handle false d g in
                        rw (asked, valid, h, get_memory_fd)
                          (guard-Gives _ _ _ (reject d invalid_external_handle, refl, g)
                            (after r.0 r.1 r.2 r.3 member))
                  ]
            ]
    ]
  where
    after :
        (r : VkResult) (d' : Driver)
        → ensure_memory_backing e info.handle false d ≡ some (r, d')
        → After d d'
        → is_member info.handle d.memories ≡ true
        → Gives (elim (ensure_memory_backing e info.handle false d) [
          | none ↦ none
          | some (success, d') ↦ share_memory e info.handle file truncates output d'
          | some (error, d') ↦ some (reject d' error)
        ])
    after success d' q a member = rw q (
        share_memory-Gives info.handle e file truncates output d' a.good
          (ap (contains info.handle) a.members ∙ member))
    after r d' q a member = (reject d' r, rw q refl, a.good)
