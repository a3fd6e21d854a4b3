-- ===== src/Icd/Buffers/Reads.antt =====
-- The loops of guest/vulkan_icd/imb_vulkan_icd.cpp that read the bytes of buffers end and
-- keep the invariant.
use isaac_metal_bridge.Base.{
  subst, ℕ, zero, suc, ◌+◌, ◌-◌, ◌<◌, ◌≡◌, refl, ap, sym, ◌∙◌, contains, inl, inr, Bool-cases,
  Option-cases, Bool, true, false, ◌||◌, none, some, List, leb, ltb, ◌==◌, if◌then◌else◌, add64,
  arith,
}
use isaac_metal_bridge.Cuda.Registry.{is_member, object}
use isaac_metal_bridge.Icd.Result.{VkResult, success, memory_map_failed}
use isaac_metal_bridge.Icd.Bindings.{SparseBufferBinding, binding_at}
use isaac_metal_bridge.Icd.Driver.{Driver, DeviceMemoryState, BufferState, Step}
use isaac_metal_bridge.Icd.Memory.{
  Surroundings, ensure_memory_backing, refresh_memory_from_external_fd,
}
use isaac_metal_bridge.Icd.Memory.Good.{
  IsGood, AllBacked, After, After-trans, Runs, member-object, held,
}
use isaac_metal_bridge.Icd.Memory.Moves.{
  ensure_memory_backing-Runs, refresh_memory_from_external_fd-Runs,
}
use isaac_metal_bridge.Icd.Buffers.Transfer.{
  chunk_of, memory_place, Read, and_read, gathered, read_chunk, read_sparse, read_bound,
}
use isaac_metal_bridge.Icd.Buffers.Moves.{binding_at-Found}

abbrev pub Reads : Driver → Read → Type 0
Reads d s =
    (r : VkResult) × (bytes : ℕ → ℕ) × (d' : Driver) × (s ≡ some (r, bytes, d')) × After d d'

unchanged : {d : Driver} → IsGood d → After d d
unchanged g = record { good = g; members = refl; same_buffers = refl }

pub idle : {d : Driver} (r : VkResult) (bytes : ℕ → ℕ) → IsGood d → Reads d (some (r, bytes, d))
idle {d} r bytes g = (r, bytes, d, refl, unchanged g)

and_read-Reads :
    {d : Driver} (s : Step) (f : Driver → Read)
    → Runs d s
    → ((d' : Driver) → After d d' → Reads d' (f d'))
    → Reads d (and_read s f)
and_read-Reads s f (success, d', e, a) k =
    let t = k d' a in (t.0, t.1, t.2, rw (e, and_read) t.3, After-trans a t.4)
and_read-Reads s f (r, d', e, a) k = (r, λ i. 0, d', rw e refl, a)

-- The rest of a loop after one of its rounds.
after_read :
    {d : Driver} (s : Read) (f : (ℕ → ℕ) → Driver → Read) (r : VkResult) (bytes : ℕ → ℕ)
    (d' : Driver)
    → s ≡ some (r, bytes, d')
    → After d d'
    → ((bytes : ℕ → ℕ) (d' : Driver) → After d d' → Reads d' (f bytes d'))
    → Reads d (elim s [
      | none ↦ none
      | some (success, bytes, d') ↦ f bytes d'
      | some (error, bytes, d') ↦ some (error, bytes, d')
    ])
after_read s f success bytes d' q a k =
    let t = k bytes d' a in (t.0, t.1, t.2, rw q t.3, After-trans a t.4)
after_read s f r bytes d' q a k = (r, bytes, d', rw q refl, a)

module _ (e : Surroundings) where
  read_chunk-Reads :
      (p source copied chunk : ℕ) (output : ℕ → ℕ) (d : Driver)
      → IsGood d
      → is_member p d.memories ≡ true
      → Reads d (read_chunk e p source copied chunk output d)
  unfolding read_chunk
  read_chunk-Reads p source copied chunk output d g member =
      and_read-Reads (ensure_memory_backing e p false d) check
        (ensure_memory_backing-Runs e p false d g)
        (λ d' a. check_reads d' a.good (ap (contains p) a.members ∙ member))
    where
      take : Driver → Read
      take d = elim (object p d.memories) [
        | none ↦ none
        | some m ↦ some (success, gathered output copied chunk m.bytes source, d)
      ]

      take_reads : (d : Driver) → IsGood d → is_member p d.memories ≡ true → Reads d (take d)
      take_reads d g member = elim (member-object p d g member) [
        | held m h ↦ (
          success,
          gathered output copied chunk m.bytes source,
          d,
          rw (h, take) refl,
          unchanged g,
        )
      ]

      check : Driver → Read
      check d = elim (object p d.memories) [
        | none ↦ none
        | some m ↦
            if ltb m.size source || ltb (m.size - source) chunk
            then some (memory_map_failed, λ i. 0, d)
            else and_read (refresh_memory_from_external_fd e p source chunk d) take
      ]

      check_reads : (d : Driver) → IsGood d → is_member p d.memories ≡ true → Reads d (check d)
      check_reads d g member = elim (member-object p d g member) [
        | held m h ↦ elim (Bool-cases (ltb m.size source || ltb (m.size - source) chunk)) [
          | inl bad ↦ rw (h, check, bad) (idle memory_map_failed (λ i. 0) g)
          | inr good ↦
              rw (h, check, good)
                (and_read-Reads (refresh_memory_from_external_fd e p source chunk d) take
                  (refresh_memory_from_external_fd-Runs e p source chunk d g member)
                  (λ d' a. take_reads d' a.good (ap (contains p) a.members ∙ member)))
        ]
      ]

  pub read_sparse-Reads :
      (n : ℕ) (bindings : List SparseBufferBinding) (offset size copied : ℕ) (output : ℕ → ℕ)
      (d : Driver)
      → size - copied < n
      → IsGood d
      → AllBacked d.memories.members bindings
      → Reads d (read_sparse n e bindings offset size copied output d)
  unfolding read_sparse
  read_sparse-Reads zero bindings offset size copied output d f g backed = absurd (omega arith)
  read_sparse-Reads (suc n) bindings offset size copied output d f g backed =
      elim (Bool-cases (leb size copied)) [
        | inl all ↦ rw all (idle success output g)
        | inr part ↦ elim (Option-cases (binding_at bindings (add64 offset copied))) [
          | inl hole ↦ rw (part, hole, read_sparse) (idle memory_map_failed (λ i. 0) g)
          | inr (b, h) ↦ elim (Bool-cases (b.memory == 0)) [
            | inl null ↦ rw (part, h, read_sparse, null) (idle memory_map_failed (λ i. 0) g)
            | inr bound ↦
                let o = add64 offset copied in
                let k = binding_at-Found bindings o d.memories.members b (omega arith) backed h in
                let chunk = chunk_of b o (size - copied) in
                let r =
                  read_chunk-Reads b.memory (memory_place b o) copied chunk output d g k.backed in
                rw (part, h, read_sparse, bound)
                  (after_read (read_chunk e b.memory (memory_place b o) copied chunk output d)
                    (read_sparse n e bindings offset size (copied + chunk)) r.0 r.1 r.2 r.3 r.4
                    (λ output' d' a.
                      read_sparse-Reads n bindings offset size (copied + chunk) output' d'
                        (ground (arith, k.below)) a.good
                        (subst (λ (x : List ℕ). AllBacked x bindings) (sym a.members) backed)))
          ]
        ]
      ]

  pub read_bound-Reads :
      (b : BufferState) (offset size : ℕ) (d : Driver)
      → IsGood d
      → Reads d (read_bound e b offset size d)
  unfolding read_bound
  read_bound-Reads b offset size d g = elim (Bool-cases (is_member b.memory d.memories)) [
    | inr gone ↦ (memory_map_failed, λ i. 0, d, fails gone, unchanged g)
    | inl member ↦
        and_read-Reads (ensure_memory_backing e b.memory false d) check
          (ensure_memory_backing-Runs e b.memory false d g)
          (λ d' a. check_reads d' a.good (ap (contains b.memory) a.members ∙ member))
  ]
    where
      source : ℕ
      source = add64 b.memory_offset offset

      take : Driver → Read
      take d = elim (object b.memory d.memories) [
        | none ↦ none
        | some m ↦ some (success, gathered (λ i. 0) 0 size m.bytes source, d)
      ]

      take_reads : (d : Driver) → IsGood d → is_member b.memory d.memories ≡ true → Reads d (take d)
      take_reads d g member = elim (member-object b.memory d g member) [
        | held m h ↦
            (success, gathered (λ i. 0) 0 size m.bytes source, d, rw (h, take) refl, unchanged g)
      ]

      refused : DeviceMemoryState → Bool
      refused m =
          (ltb m.size b.memory_offset || ltb (m.size - b.memory_offset) offset)
          || (ltb m.size source || ltb (m.size - source) size)

      check : Driver → Read
      check d = elim (object b.memory d.memories) [
        | none ↦ none
        | some m ↦
            if refused m
            then some (memory_map_failed, λ i. 0, d)
            else and_read (refresh_memory_from_external_fd e b.memory source size d) take
      ]

      fails :
          is_member b.memory d.memories ≡ false
          → and_read (ensure_memory_backing e b.memory false d) check
            ≡ some (memory_map_failed, λ i. 0, d)
      fails gone =
          unfold ensure_memory_backing in
          elim (Bool-cases (b.memory == 0)) [
            | inl null ↦ rw null refl
            | inr other ↦ rw (other, gone) refl
          ]

      check_reads :
          (d : Driver) → IsGood d → is_member b.memory d.memories ≡ true → Reads d (check d)
      check_reads d g member = elim (member-object b.memory d g member) [
        | held m h ↦ elim (Bool-cases (refused m)) [
          | inl bad ↦ rw (h, check, bad) (idle memory_map_failed (λ i. 0) g)
          | inr good ↦
              rw (h, check, good)
                (and_read-Reads (refresh_memory_from_external_fd e b.memory source size d) take
                  (refresh_memory_from_external_fd-Runs e b.memory source size d g member)
                  (λ d' a. take_reads d' a.good (ap (contains b.memory) a.members ∙ member)))
        ]
      ]
