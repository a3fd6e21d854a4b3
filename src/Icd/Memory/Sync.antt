-- ===== src/Icd/Memory/Sync.antt =====
-- What writing memory to its file, in guest/vulkan_icd/imb_vulkan_icd.cpp, leaves in the file.
use isaac_metal_bridge.Base.{
  ℕ, zero, suc, ◌+◌, ◌-◌, ◌≤◌, ◌<◌, ◌≡◌, refl, ap, ◌∙◌, inl, inr, Bool-cases, Bool, true, false,
  not, ◌&&◌, ◌||◌, some, leb, ltb, ◌==◌, if◌then◌else◌, arith,
}
use isaac_metal_bridge.Cuda.Registry.{Registry, is_member, object}
use isaac_metal_bridge.Cuda.Semaphores.{Device, moved}
use isaac_metal_bridge.Cuda.Semaphores.Signals.{Transfer-cases}
use isaac_metal_bridge.Icd.Result.{VkResult, success, out_of_host_memory}
use isaac_metal_bridge.Icd.Driver.{Driver, DeviceMemoryState, Step, and_then}
use isaac_metal_bridge.Icd.Driver.Transfers.{write_range, stored, counted, within}
use isaac_metal_bridge.Icd.Memory.{
  Surroundings, store_memory, ensure_memory_backing, write_back, sync_memory_to_external_fd,
  backed_memory,
}
use isaac_metal_bridge.Icd.Memory.Good.{object-store_self}

-- No transfer moves more than it was asked for.
abbrev pub IsBounded : Device → Type 0
IsBounded pwrite = (i n k : ℕ) → pwrite i n ≡ moved k → k ≤ n

-- The file with the bytes of a range of memory.
abbrev pub with_range_of : (ℕ → ℕ → ℕ) → ℕ → (ℕ → ℕ) → ℕ → ℕ → ℕ → ℕ → ℕ
with_range_of files fd bytes start count f a =
    if f == fd && within start count a then bytes a else files f a

-- Nothing but the files and the count of transfers changes.
abbrev Rest : Driver → Driver → Type 0
Rest d d' = d' ≡ record d { files = d'.files; transfers = d'.transfers }

write_range_lem :
    (n : ℕ) (pwrite : Device) (fd : ℕ) (bytes : ℕ → ℕ) (offset size written : ℕ) (d : Driver)
    → IsBounded pwrite
    → written ≤ size
    → size - written < n
    → (b : Bool) × (d' : Driver) × (write_range n pwrite fd bytes offset size written d
        ≡ some (b, d'))
      × (d'.memories ≡ d.memories)
      × (b ≡ true
          → (f a : ℕ)
          → d'.files f a ≡ with_range_of d.files fd bytes (offset + written) (size - written) f a)
unfolding write_range
write_range_lem zero pwrite fd bytes offset size written d bounded le h = absurd (omega arith)
write_range_lem (suc n) pwrite fd bytes offset size written d bounded le h =
    elim (Bool-cases (leb size written)) [
      | inl all ↦ (true, d, rw all refl, refl, λ z f a. ground arith)
      | inr part ↦ elim (Transfer-cases (pwrite d.transfers (size - written))) [
        | inr (inr e) ↦
            (false, counted d, rw (part, e, write_range) refl, refl, λ z f a. absurd (cc z))
        | inr (inl e) ↦
            (false, counted d, rw (part, e, write_range) refl, refl, λ z f a. absurd (cc z))
        | inl (k, e) ↦ elim (Bool-cases (k == 0)) [
          | inl stuck ↦ (
            false,
            counted d,
            rw (part, e, write_range, stuck) refl,
            refl,
            λ z f a. absurd (cc z),
          )
          | inr moves ↦
              let bound = bounded d.transfers (size - written) k e in
              let next = stored d fd bytes (offset + written) k in
              let r =
                write_range_lem n pwrite fd bytes offset size (written + k) next bounded
                  (ground arith) (ground arith) in
              (
                r.0,
                r.1,
                rw (part, e, write_range, moves) r.2,
                r.3,
                λ z f a. r.4 z f a ∙ joined k bound f a,
              )
        ]
      ]
    ]
  where
    joined :
        (k : ℕ)
        → k ≤ size - written
        → (f a : ℕ)
        → with_range_of
            (stored d fd bytes (offset + written) k).files
            fd
            bytes
            (offset + (written + k))
            (size - (written + k))
            f
            a
          ≡ with_range_of d.files fd bytes (offset + written) (size - written) f a
    joined k bound f a = ground arith

backed_memory_self : (m : DeviceMemoryState) → m.backed ≡ true → backed_memory m ≡ m
backed_memory_self m h =
    ap (λ (b : Bool). if b then m else record m { backed = true; bytes = λ a. 0 }) h

pub ensure_backed :
    (e : Surroundings) (p : ℕ) (m : DeviceMemoryState) (d : Driver)
    → (p == 0 || not (is_member p d.memories)) ≡ false
    → object p d.memories ≡ some m
    → m.backed ≡ true
    → ensure_memory_backing e p false d ≡ some (success, store_memory p m d)
unfolding ensure_memory_backing
ensure_backed e p m d valid there backed =
    rw (valid, there, ensure_memory_backing, ready)
      (ap (λ (x : DeviceMemoryState). after_store x) (backed_memory_self m backed))
  where
    ready : (not m.backed && not (e.resizes p)) ≡ false
    ready = ground arith

    after_store : DeviceMemoryState → Step
    after_store x = some (success, store_memory p x d)

-- A memory that is there, has its bytes and keeps a file.
pub record IsShared (p : ℕ) (m : DeviceMemoryState) (fd : ℕ) (d : Driver) : Type 0 where
  pub valid : (p == 0 || not (is_member p d.memories)) ≡ false
  pub there : object p d.memories ≡ some m
  pub backed : m.backed ≡ true
  pub file : m.external_fd ≡ some fd

-- Where a memory is there, has its bytes and keeps a file, and no transfer moves more than it was
-- asked for, writing a range that is not empty and lies inside it returns and keeps that memory as
-- it is and the set of handles; if it succeeds, the file holds the bytes of the memory in the
-- range and is as before elsewhere, and so is every other file.
pub sync_memory_to_external_fd_lem :
    (e : Surroundings) (p : ℕ) (m : DeviceMemoryState) (fd offset size : ℕ) (d : Driver)
    → IsBounded e.pwrite
    → IsShared p m fd d
    → 0 < size
    → offset + size ≤ m.size
    → (r : VkResult) × (d' : Driver) × (sync_memory_to_external_fd e p offset size d ≡ some (r, d'))
      × (object p d'.memories ≡ some m)
      × (d'.memories.members ≡ d.memories.members)
      × (r ≡ success → (f a : ℕ) → d'.files f a ≡ with_range_of d.files fd m.bytes offset size f a)
unfolding sync_memory_to_external_fd
sync_memory_to_external_fd_lem e p m fd offset size d bounded s full inside =
    let d1 = store_memory p m d in
    let there = object-store_self p m d.memories in
    let w =
      write_range_lem (suc size) e.pwrite fd m.bytes offset size 0 d1 bounded (omega arith)
        (omega arith) in
    elim (Bool-cases w.0) [
      | inl all ↦ (
        success,
        w.1,
        start ∙ rw (there, write_back, fits, w.2, all) refl,
        ap (λ (x : Registry DeviceMemoryState). object p x) w.3 ∙ there,
        ap (λ (x : Registry DeviceMemoryState). x.members) w.3,
        λ z f a. w.4 all f a ∙ whole f a,
      )
      | inr part ↦ (
        out_of_host_memory,
        w.1,
        start ∙ rw (there, write_back, fits, w.2, part) refl,
        ap (λ (x : Registry DeviceMemoryState). object p x) w.3 ∙ there,
        ap (λ (x : Registry DeviceMemoryState). x.members) w.3,
        λ z f a. absurd (cc z),
      )
    ]
  where
    fits : (ltb m.size offset || ltb (m.size - offset) size) ≡ false
    fits = ground arith

    null : (p == 0) ≡ false
    null = ground (arith, s.valid)

    empty : (size == 0) ≡ false
    empty = ground arith

    through :
        (d1 : Driver)
        → ensure_memory_backing e p false d ≡ some (success, d1)
        → sync_memory_to_external_fd e p offset size d ≡ write_back e p fd offset size d1
    through d1 h =
        rw (null, s.there, sync_memory_to_external_fd, s.file, empty)
          (ap (λ (x : Step). and_then x (write_back e p fd offset size)) h)

    start :
        sync_memory_to_external_fd e p offset size d
        ≡ write_back e p fd offset size (store_memory p m d)
    start = through (store_memory p m d) (ensure_backed e p m d s.valid s.there s.backed)

    whole :
        (f a : ℕ)
        → with_range_of d.files fd m.bytes (offset + 0) (size - 0) f a
          ≡ with_range_of d.files fd m.bytes offset size f a
    whole f a = ground arith
