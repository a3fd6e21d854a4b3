-- ===== src/Icd/Buffers/Copies.antt =====
-- Reads through a device address and copies between buffers of guest/vulkan_icd/imb_vulkan_icd.cpp end
-- and keep the invariant.
use isaac_metal_bridge.Base.{
  ℕ, suc, ◌-◌, ◌≡◌, refl, ap, ◌∙◌, contains, inl, inr, ◌⊎◌, Bool-cases, Option-cases, Bool, true,
  false, not, ◌||◌, none, some, List, [], ◌∷◌, ltb, ◌==◌, add64, sub64, arith,
}
use isaac_metal_bridge.Cuda.Registry.{Registry, is_member, object}
use isaac_metal_bridge.Icd.Result.{VkResult, success, memory_map_failed, out_of_host_memory}
use isaac_metal_bridge.Icd.Driver.{Driver, BufferState}
use isaac_metal_bridge.Icd.Memory.{Surroundings}
use isaac_metal_bridge.Icd.Memory.Good.{IsGood, After, After-trans, Runs, stays}
use isaac_metal_bridge.Icd.Buffers.{buffer_for_device_address, find_buffer, covers}
use isaac_metal_bridge.Icd.Buffers.Transfer.{
  Read, read_bound, bound_result, read_buffer, copy_device_address_bytes, copy_buffer_bytes,
  BufferCopy, write_buffer_bytes,
}
use isaac_metal_bridge.Icd.Buffers.Writes.{write_buffer_bytes-Runs}
use isaac_metal_bridge.Icd.Buffers.Reads.{Reads, idle, read_bound-Reads, read_sparse-Reads}

-- The buffer that is found is null or one of the driver's.
find_buffer_known :
    (device address : ℕ) (ps : List ℕ) (d : Driver)
    → IsGood d
    → ((p : ℕ) → contains p ps ≡ true → is_member p d.buffers ≡ true)
    → (p : ℕ) × (find_buffer device address ps d ≡ some p)
      × ((p ≡ 0) ⊎ (is_member p d.buffers ≡ true))
unfolding find_buffer contains
find_buffer_known device address [] d g known = (0, refl, inl refl)
find_buffer_known device address (q ∷ qs) d g known = elim (Option-cases (object q d.buffers)) [
  | inl dead ↦ absurd (ground (arith, g.buffers q, known q))
  | inr (b, h) ↦ elim (Bool-cases (covers b device address)) [
    | inl here ↦ (q, rw (h, find_buffer, here) refl, inr (ground (arith, known q)))
    | inr further ↦
        let r = find_buffer_known device address qs d g (λ p k. ground (arith, known p)) in
        (r.0, rw (h, find_buffer, further) r.1, r.2)
  ]
]

pub buffer_for_device_address_known :
    (device address : ℕ) (d : Driver)
    → IsGood d
    → (p : ℕ) × (buffer_for_device_address device address d ≡ some p)
      × ((p ≡ 0) ⊎ (is_member p d.buffers ≡ true))
unfolding buffer_for_device_address
buffer_for_device_address_known device address d g = elim (Bool-cases (address == 0)) [
  | inl null ↦ (0, rw null refl, inl refl)
  | inr asked ↦
      let r = find_buffer_known device address d.buffers.members d g (λ p k. k) in
      (r.0, rw asked r.1, r.2)
]

bound_result-Reads :
    {d : Driver} (resizes : Bool) (s : Read) → Reads d s → Reads d (bound_result resizes s)
unfolding bound_result
bound_result-Reads true s (success, bytes, d', e, a) = (success, bytes, d', rw e refl, a)
bound_result-Reads false s (success, bytes, d', e, a) =
    (out_of_host_memory, λ i. 0, d', rw e refl, a)
bound_result-Reads resizes s (r, bytes, d', e, a) = (r, bytes, d', rw e refl, a)

read_buffer-Reads :
    (e : Surroundings) (resizes : Bool) (p address size : ℕ) (d : Driver)
    → IsGood d
    → (p ≡ 0) ⊎ (is_member p d.buffers ≡ true)
    → Reads d (read_buffer e resizes p address size d)
unfolding read_buffer
read_buffer-Reads e resizes p address size d g known = elim (Bool-cases (p == 0 || size == 0)) [
  | inl null ↦ rw null (idle memory_map_failed (λ i. 0) g)
  | inr asked ↦ elim (Option-cases (object p d.buffers)) [
    | inl dead ↦ absurd (ground (arith, g.buffers p))
    | inr (b, h) ↦
        let offset = sub64 address b.device_address in
        elim (Bool-cases (ltb b.size offset || ltb (b.size - offset) size)) [
          | inl bad ↦ rw (asked, h, read_buffer, bad) (idle memory_map_failed (λ i. 0) g)
          | inr good ↦ elim (Bool-cases (not (b.memory == 0))) [
            | inl bound ↦
                rw (asked, h, read_buffer, good, bound)
                  (bound_result-Reads resizes (read_bound e b offset size d)
                    (read_bound-Reads e b offset size d g))
            | inr sparse ↦ elim (Bool-cases (not resizes)) [
              | inl full ↦
                  rw (asked, h, read_buffer, good, sparse, full)
                    (idle out_of_host_memory (λ i. 0) g)
              | inr fits ↦
                  rw (asked, h, read_buffer, good, sparse, fits)
                    (read_sparse-Reads e (suc size) b.sparse_bindings offset size 0 (λ i. 0) d
                      (omega arith) g (g.bound p b h).2)
            ]
          ]
        ]
  ]
]

pub copy_device_address_bytes-Reads :
    (e : Surroundings) (resizes : Bool) (device address size : ℕ) (d : Driver)
    → IsGood d
    → Reads d (copy_device_address_bytes e resizes device address size d)
unfolding copy_device_address_bytes
copy_device_address_bytes-Reads e resizes device address size d g =
    let b = buffer_for_device_address_known device address d g in
    rw (b.1, copy_device_address_bytes) (read_buffer-Reads e resizes b.0 address size d g b.2)

pub copy_buffer_bytes-Runs :
    (e : Surroundings) (resizes : Bool) (source destination : ℕ) (region : BufferCopy) (d : Driver)
    → IsGood d
    → (source ≡ 0) ⊎ (is_member source d.buffers ≡ true)
    → (destination ≡ 0) ⊎ (is_member destination d.buffers ≡ true)
    → Runs d (copy_buffer_bytes e resizes source destination region d)
unfolding copy_buffer_bytes
copy_buffer_bytes-Runs e resizes source destination region d g known_source known =
    elim (Bool-cases (source == 0 || (destination == 0 || region.size == 0))) [
      | inl null ↦ rw null (stays memory_map_failed g)
      | inr asked ↦ elim (Option-cases (object source d.buffers)) [
        | inl dead ↦ absurd (ground (arith, g.buffers source))
        | inr (s, h) ↦ elim (Option-cases (object destination d.buffers)) [
          | inl dead ↦ absurd (ground (arith, g.buffers destination))
          | inr (t, k) ↦ elim (Bool-cases (refused s t)) [
            | inl bad ↦ rw (asked, h, copy_buffer_bytes, k, bad) (stays memory_map_failed g)
            | inr good ↦
                let address = add64 s.device_address region.src_offset in
                let r =
                  copy_device_address_bytes-Reads e resizes s.device address region.size d g in
                rw (asked, h, copy_buffer_bytes, k, good)
                  (writes (copy_device_address_bytes e resizes s.device address region.size d) r.0
                    r.1 r.2 r.3 r.4)
          ]
        ]
      ]
    ]
  where
    refused : BufferState → BufferState → Bool
    refused s t =
        (ltb s.size region.src_offset || ltb (s.size - region.src_offset) region.size)
        || (ltb t.size region.dst_offset || ltb (t.size - region.dst_offset) region.size)

    still :
        (d' : Driver) → After d d' → (destination ≡ 0) ⊎ (is_member destination d'.buffers ≡ true)
    still d' a = elim known [
      | inl null ↦ inl null
      | inr member ↦
          inr (ap (λ (x : Registry BufferState). is_member destination x) a.same_buffers ∙ member)
    ]

    writes :
        (s : Read) (r : VkResult) (bytes : ℕ → ℕ) (d' : Driver)
        → s ≡ some (r, bytes, d')
        → After d d'
        → Runs d (elim s [
          | none ↦ none
          | some (success, bytes, d') ↦
              write_buffer_bytes e true destination region.dst_offset bytes region.size d'
          | some (error, bytes, d') ↦ some (error, d')
        ])
    writes s success bytes d' q a =
        let t =
          write_buffer_bytes-Runs e true destination region.dst_offset bytes region.size d' a.good
            (still d' a) in
        (t.0, t.1, rw q t.2, After-trans a t.3)
    writes s r bytes d' q a = (r, d', rw q refl, a)
