-- ===== src/Icd/Buffers/Moves.antt =====
-- The loops of guest/vulkan_icd/imb_vulkan_icd.cpp that read and write buffers end and
-- keep the invariant.
use isaac_metal_bridge.Base.{
  subst, ℕ, zero, suc, ◌+◌, ◌-◌, ◌≤◌, ◌<◌, ◌≡◌, refl, ap, sym, ◌∙◌, contains, inl, inr, Bool-cases,
  Option-cases, true, false, ◌&&◌, ◌||◌, none, some, List, [], ◌∷◌, leb, ltb, ◌==◌, if◌then◌else◌,
  max64, add64, sub64, arith,
}
use isaac_metal_bridge.Cuda.Registry.{is_member, object}
use isaac_metal_bridge.Icd.Result.{VkResult, success, memory_map_failed}
use isaac_metal_bridge.Icd.Bindings.{SparseBufferBinding, binding_at}
use isaac_metal_bridge.Icd.Driver.{Driver, DeviceMemoryState, BufferState, Step, and_then}
use isaac_metal_bridge.Icd.Memory.{
  Surroundings, store_memory, ensure_memory_backing, sync_memory_to_external_fd, dirtied,
  clean_shared,
}
use isaac_metal_bridge.Icd.Memory.Good.{
  IsFit, IsGood, AllBacked, After, After-trans, Runs, stays, and_then-Runs, store_memory-After,
  member-object, held,
}
use isaac_metal_bridge.Icd.Memory.Moves.{
  ensure_memory_backing-Runs, sync_memory_to_external_fd-Runs,
}
use isaac_metal_bridge.Icd.Memory.Calls.{and_clean_shared-Runs}
use isaac_metal_bridge.Icd.Buffers.Transfer.{
  scattered, write_chunk, write_to_binding, write_sparse, write_bound, chunk_of, memory_place,
}

-- A binding that is found holds the byte and is one of them.
pub record Found (bindings : List SparseBufferBinding) (o : ℕ) (members : List ℕ)
    (b : SparseBufferBinding) : Type 0 where
  pub from : b.resource_offset ≤ o
  pub below : o - b.resource_offset < b.size
  pub backed : contains b.memory members ≡ true

pub binding_at-Found :
    (bs : List SparseBufferBinding) (o : ℕ) (members : List ℕ) (b : SparseBufferBinding)
    → o ≤ max64
    → AllBacked members bs
    → binding_at bs o ≡ some b
    → Found bs o members b
unfolding binding_at
binding_at-Found [] o members b low h e = absurd (cc e)
binding_at-Found (c ∷ bs) o members b low h e =
    elim (Bool-cases (leb c.resource_offset o && ltb (sub64 o c.resource_offset) c.size)) [
      | inl here ↦
          let q : c ≡ b = ground arith in
          subst (λ (x : SparseBufferBinding). Found (c ∷ bs) o members x) q
            (record { from = ground arith; below = ground arith; backed = h.0 })
      | inr further ↦
          let f = binding_at-Found bs o members b low h.1 (ground arith) in
          record { from = f.from; below = f.below; backed = f.backed }
    ]

-- The rest of a loop after one of its rounds.
pub after :
    {d : Driver} (s : Step) (f : Driver → Step) (r : VkResult) (d' : Driver)
    → s ≡ some (r, d')
    → After d d'
    → ((d' : Driver) → After d d' → Runs d' (f d'))
    → Runs d
        (elim s [ none ↦ none | some (success, d') ↦ f d' | some (error, d') ↦ some (error, d') ])
after s f success d' q a k = let t = k d' a in (t.0, t.1, rw q t.2, After-trans a t.3)
after s f r d' q a k = (r, d', rw q refl, a)

module _ (e : Surroundings) where
  write_chunk-Runs :
      (p place count : ℕ) (source : ℕ → ℕ) (from : ℕ) (m : DeviceMemoryState) (d : Driver)
      → IsGood d
      → object p d.memories ≡ some m
      → is_member p d.memories ≡ true
      → place + count ≤ m.size
      → Runs d (write_chunk e p place count source from d)
  unfolding write_chunk
  write_chunk-Runs p place count source from m d g h member inside =
      let n = written m in
      let d' = store_memory p n d in
      let a = store_memory-After p m n d h (written-IsFit m (g.fit p m h) inside) g in
      let r =
        and_then-Runs d' (sync_memory_to_external_fd e p place count d')
          (λ (d : Driver). elim (clean_shared p d) [ none ↦ none | some d' ↦ some (success, d') ])
          (sync_memory_to_external_fd-Runs e p place count d' a.good member)
          (λ d'' b. and_clean_shared-Runs p d'' b.good (ap (contains p) b.members ∙ member)) in
      (r.0, r.1, rw (h, write_chunk) r.2, After-trans a r.3)
    where
      written : DeviceMemoryState → DeviceMemoryState
      written m =
          dirtied place (add64 place count)
            (record m { bytes = scattered m.bytes place count source from })

      written-IsFit : (m : DeviceMemoryState) → IsFit m → place + count ≤ m.size → IsFit (written m)
      written-IsFit m f inside = ground arith

  write_to_binding-Runs :
      (p place count : ℕ) (source : ℕ → ℕ) (from : ℕ) (d : Driver)
      → IsGood d
      → is_member p d.memories ≡ true
      → Runs d (write_to_binding e p place count source from d)
  unfolding write_to_binding
  write_to_binding-Runs p place count source from d g member =
      and_then-Runs d (ensure_memory_backing e p false d) step
        (ensure_memory_backing-Runs e p false d g)
        (λ d' a. step_runs d' a.good (ap (contains p) a.members ∙ member))
    where
      step : Driver → Step
      step d = elim (object p d.memories) [
        | none ↦ none
        | some m ↦
            if ltb m.size place || ltb (m.size - place) count
            then some (memory_map_failed, d)
            else write_chunk e p place count source from d
      ]

      step_runs : (d : Driver) → IsGood d → is_member p d.memories ≡ true → Runs d (step d)
      step_runs d g member = elim (member-object p d g member) [
        | held m h ↦ elim (Bool-cases (ltb m.size place || ltb (m.size - place) count)) [
          | inl bad ↦ rw (h, step, bad) (stays memory_map_failed g)
          | inr good ↦
              rw (h, step, good)
                (write_chunk-Runs p place count source from m d g h member (ground arith))
        ]
      ]

  pub write_sparse-Runs :
      (n : ℕ) (bindings : List SparseBufferBinding) (offset : ℕ) (source : ℕ → ℕ) (size written : ℕ)
      (d : Driver)
      → size - written < n
      → IsGood d
      → AllBacked d.memories.members bindings
      → Runs d (write_sparse n e bindings offset source size written d)
  unfolding write_sparse
  write_sparse-Runs zero bindings offset source size written d f g backed = absurd (omega arith)
  write_sparse-Runs (suc n) bindings offset source size written d f g backed =
      elim (Bool-cases (leb size written)) [
        | inl all ↦ rw all (stays success g)
        | inr part ↦ elim (Option-cases (binding_at bindings (add64 offset written))) [
          | inl hole ↦ rw (part, hole, write_sparse) (stays memory_map_failed g)
          | inr (b, h) ↦ elim (Bool-cases (b.memory == 0)) [
            | inl null ↦ rw (part, h, write_sparse, null) (stays memory_map_failed g)
            | inr bound ↦
                let o = add64 offset written in
                let k = binding_at-Found bindings o d.memories.members b (omega arith) backed h in
                let chunk = chunk_of b o (size - written) in
                let r =
                  write_to_binding-Runs b.memory (memory_place b o) chunk source written d g
                    k.backed in
                rw (part, h, write_sparse, bound)
                  (after (write_to_binding e b.memory (memory_place b o) chunk source written d)
                    (write_sparse n e bindings offset source size (written + chunk)) r.0 r.1 r.2 r.3
                    (λ d' a.
                      write_sparse-Runs n bindings offset source size (written + chunk) d'
                        (ground (arith, k.below)) a.good
                        (subst (λ (x : List ℕ). AllBacked x bindings) (sym a.members) backed)))
          ]
        ]
      ]

  pub write_bound-Runs :
      (b : BufferState) (offset : ℕ) (source : ℕ → ℕ) (size : ℕ) (d : Driver)
      → IsGood d
      → Runs d (write_bound e b offset source size d)
  unfolding write_bound
  write_bound-Runs b offset source size d g = elim (Bool-cases (is_member b.memory d.memories)) [
    | inr gone ↦
        (memory_map_failed, d, fails gone, record { good = g; members = refl; same_buffers = refl })
    | inl member ↦
        and_then-Runs d (ensure_memory_backing e b.memory false d) step
          (ensure_memory_backing-Runs e b.memory false d g)
          (λ d' a. step_runs d' a.good (ap (contains b.memory) a.members ∙ member))
  ]
    where
      step : Driver → Step
      step d = elim (object b.memory d.memories) [
        | none ↦ none
        | some m ↦
            let place = add64 b.memory_offset offset in
            if (ltb m.size b.memory_offset || ltb (m.size - b.memory_offset) offset)
              || ltb (sub64 m.size place) size
            then some (memory_map_failed, d)
            else write_chunk e b.memory place size source 0 d
      ]

      fails :
          is_member b.memory d.memories ≡ false
          → and_then (ensure_memory_backing e b.memory false d) step ≡ some (memory_map_failed, d)
      fails gone =
          unfold ensure_memory_backing in
          elim (Bool-cases (b.memory == 0)) [
            | inl null ↦ rw null refl
            | inr other ↦ rw (other, gone) refl
          ]

      step_runs : (d : Driver) → IsGood d → is_member b.memory d.memories ≡ true → Runs d (step d)
      step_runs d g member = elim (member-object b.memory d g member) [
        | held m h ↦
            elim (Bool-cases (
              (ltb m.size b.memory_offset || ltb (m.size - b.memory_offset) offset)
              || ltb (sub64 m.size (add64 b.memory_offset offset)) size)) [
                | inl bad ↦ rw (h, step, bad) (stays memory_map_failed g)
                | inr good ↦
                    rw (h, step, good)
                      (write_chunk-Runs b.memory (add64 b.memory_offset offset) size source 0 m d g
                        h member (inside m (g.fit b.memory m h) good))
              ]
      ]
        where
          inside :
              (m : DeviceMemoryState)
              → IsFit m
              → ((ltb m.size b.memory_offset || ltb (m.size - b.memory_offset) offset)
                  || ltb (sub64 m.size (add64 b.memory_offset offset)) size)
                ≡ false
              → add64 b.memory_offset offset + size ≤ m.size
          inside m f good = ground (arith, f.small)
