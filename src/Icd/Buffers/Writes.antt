-- ===== src/Icd/Buffers/Writes.antt =====
-- Writing and filling buffers of guest/vulkan_icd/imb_vulkan_icd.cpp keeps the invariant.
use isaac_metal_bridge.Base.{
  ℕ, zero, suc, ◌+◌, ◌-◌, ◌<◌, ◌≡◌, ap, ◌∙◌, inl, inr, ◌⊎◌, Bool-cases, Option-cases, Bool, true,
  not, ◌||◌, leb, ltb, ◌==◌, min, add64, arith,
}
use isaac_metal_bridge.Cuda.Registry.{Registry, is_member, object}
use isaac_metal_bridge.Icd.Result.{success, memory_map_failed}
use isaac_metal_bridge.Icd.Driver.{Driver, BufferState}
use isaac_metal_bridge.Icd.Memory.{Surroundings}
use isaac_metal_bridge.Icd.Memory.Good.{IsGood, After, Runs, stays}
use isaac_metal_bridge.Icd.Buffers.Transfer.{
  write_buffer_bytes, fill_chunks, execute_buffer_fill, pattern,
}
use isaac_metal_bridge.Icd.Buffers.Moves.{after, write_bound-Runs, write_sparse-Runs}

-- Where the buffer is null, or one of the driver's.
pub write_buffer_bytes-Runs :
    (e : Surroundings) (given : Bool) (p offset : ℕ) (source : ℕ → ℕ) (size : ℕ) (d : Driver)
    → IsGood d
    → (p ≡ 0) ⊎ (is_member p d.buffers ≡ true)
    → Runs d (write_buffer_bytes e given p offset source size d)
unfolding write_buffer_bytes
write_buffer_bytes-Runs e given p offset source size d g known =
    elim (Bool-cases (p == 0 || (not given || size == 0))) [
      | inl null ↦ rw null (stays memory_map_failed g)
      | inr asked ↦ elim (Option-cases (object p d.buffers)) [
        | inl dead ↦ absurd (ground (arith, g.buffers p))
        | inr (b, h) ↦ elim (Bool-cases (ltb b.size offset || ltb (b.size - offset) size)) [
          | inl bad ↦ rw (asked, h, write_buffer_bytes, bad) (stays memory_map_failed g)
          | inr good ↦ elim (Bool-cases (b.memory == 0)) [
            | inl sparse ↦
                rw (asked, h, write_buffer_bytes, good, sparse)
                  (write_sparse-Runs e (suc size) b.sparse_bindings offset source size 0 d
                    (omega arith) g (g.bound p b h).2)
            | inr bound ↦
                rw (asked, h, write_buffer_bytes, good, bound)
                  (write_bound-Runs e b offset source size d g)
          ]
        ]
      ]
    ]

pub fill_chunks-Runs :
    (n : ℕ) (e : Surroundings) (p offset size value written : ℕ) (d : Driver)
    → size - written < n
    → IsGood d
    → (p ≡ 0) ⊎ (is_member p d.buffers ≡ true)
    → Runs d (fill_chunks n e p offset size value written d)
unfolding fill_chunks
fill_chunks-Runs zero e p offset size value written d f g known = absurd (omega arith)
fill_chunks-Runs (suc n) e p offset size value written d f g known =
    elim (Bool-cases (leb size written)) [
      | inl all ↦ rw all (stays success g)
      | inr part ↦
          let chunk = min 4096 (size - written) in
          let r =
            write_buffer_bytes-Runs e true p (add64 offset written) (pattern value) chunk d g
              known in
          rw part (
            after (write_buffer_bytes e true p (add64 offset written) (pattern value) chunk d)
              (fill_chunks n e p offset size value (written + chunk)) r.0 r.1 r.2 r.3
              (λ d' a.
                fill_chunks-Runs n e p offset size value (written + chunk) d' (ground arith) a.good
                  (still d' a)))
    ]
  where
    still : (d' : Driver) → After d d' → (p ≡ 0) ⊎ (is_member p d'.buffers ≡ true)
    still d' a = elim known [
      | inl null ↦ inl null
      | inr member ↦ inr (ap (λ (x : Registry BufferState). is_member p x) a.same_buffers ∙ member)
    ]

pub execute_buffer_fill-Runs :
    (e : Surroundings) (p offset size value : ℕ) (d : Driver)
    → IsGood d
    → (p ≡ 0) ⊎ (is_member p d.buffers ≡ true)
    → Runs d (execute_buffer_fill e p offset size value d)
unfolding execute_buffer_fill
execute_buffer_fill-Runs e p offset size value d g known = elim (Bool-cases (p == 0 || size == 0)) [
  | inl null ↦ rw null (stays memory_map_failed g)
  | inr asked ↦
      rw asked (fill_chunks-Runs (suc size) e p offset size value 0 d (omega arith) g known)
]
