-- ===== src/Cuda/External/Rollback.antt =====
-- What cuExternalMemoryGetMappedMipmappedArray of guest/cuda_shim/imb_cuda_shim.cpp leaves behind
-- when a `new` fails, and what cuDestroyExternalMemory leaves behind.
use isaac_metal_bridge.Base.{
  [], ℕ, ◌≡◌, refl, ap, subst, ◌∙◌, inl, inr, Option-cases, Bool, true, false, Option, none, some,
  lookup, Table, lookup-put, add64, replicate, length-replicate, arith,
}
use isaac_metal_bridge.Cuda.Result.{Reply, Outcome, done, fault, out_of_memory}
use isaac_metal_bridge.Cuda.Registry.{object, IsSound, delete_object}
use isaac_metal_bridge.Cuda.External.{
  External, MipmappedArrayState, MipmapDescriptor, BufferDescriptor, map_buffer,
  cu_external_memory_get_mapped_buffer, cu_destroy_external_memory, release_external,
}
use isaac_metal_bridge.Cuda.External.Mipmaps.{
  Levels, made, bad_alloc, make_levels, finish_mipmap, make_mipmap,
}
use isaac_metal_bridge.Cuda.External.LevelArrays.{
  IsFresh, Builds, make_levels-Builds, start-IsBuilt, delete_built,
}

-- The arrays are those from before, and no mipmap is added.
abbrev pub IsRestored : External → Outcome External ℕ → Type 0
IsRestored x fault = ⊥
IsRestored x (done r) =
    r.result ≡ out_of_memory
    → (r.state.mipmaps ≡ x.mipmaps) × ((q : ℕ) → object q r.state.arrays ≡ object q x.arrays)

module _ (x : External) (news : ℕ → Option ℕ) (fresh : IsFresh x.arrays news) (p : ℕ) where
  finish_mipmap-IsRestored :
      (m : MipmappedArrayState) (levels : Levels)
      → Builds x.arrays news fresh p levels
      → IsRestored x (finish_mipmap x p m levels)
  unfolding finish_mipmap
  finish_mipmap-IsRestored m (made arrays levels) b = λ e. absurd (cc e)
  finish_mipmap-IsRestored m (bad_alloc arrays levels) (level, b) =
      let r = delete_built x.arrays news fresh p level arrays levels b in
      rw (r.1, finish_mipmap) (λ e. (refl, r.3))

-- Where the arrays' handles are the live arrays and `new` gives out arrays that are not in use and
-- all different, making a mipmap returns, and if it answers out of memory the mipmaps and the live
-- arrays are those from before.
pub make_mipmap-IsRestored :
    (x : External) (memory : ℕ) (d : MipmapDescriptor) (p : ℕ) (resizes : Bool)
    (news : ℕ → Option ℕ)
    → IsSound x.arrays
    → IsFresh x.arrays news
    → IsRestored x (make_mipmap x memory d (some p) resizes news)
unfolding make_mipmap
make_mipmap-IsRestored x memory d p true news v fresh =
    finish_mipmap-IsRestored x news fresh p
      (record { memory = memory; descriptor = d; levels = [] })
      (make_levels p d.num_levels 0 news x.arrays (replicate d.num_levels none))
      (make_levels-Builds x.arrays news fresh p d.num_levels 0 x.arrays
        (replicate d.num_levels none) (omega (arith, length-replicate {0} d.num_levels none))
        (start-IsBuilt x.arrays news fresh p d.num_levels v))
make_mipmap-IsRestored x memory d p false news v fresh =
    finish_mipmap-IsRestored x news fresh p
      (record { memory = memory; descriptor = d; levels = [] }) (bad_alloc x.arrays [])
      (0, start-IsBuilt x.arrays news fresh p 0 v)

-- The device allocations after the call are the given ones, if it returns.
abbrev pub Allocates {ℓ} : {A : Type ℓ} → Table ℕ → Outcome External A → Type 0
Allocates t fault = Unit {0}
Allocates t (done r) = r.state.memory.device_allocations ≡ t

release_external-Allocates :
    (x : External) (memory : ℕ) → Allocates x.memory.device_allocations (release_external x memory)
unfolding release_external delete_object
release_external-Allocates x memory = elim (Option-cases (object memory x.memories)) [
  | inl dead ↦ ground arith
  | inr (s, e) ↦ ground arith
]

destroy-Allocates :
    (x : External) (memory : ℕ)
    → Allocates x.memory.device_allocations (cu_destroy_external_memory x memory)
unfolding cu_destroy_external_memory
destroy-Allocates x memory = ground (arith, release_external-Allocates x memory)

-- The pointer handed out is a device allocation of the size.
abbrev pub Maps : ℕ → ℕ → Outcome External ℕ → Type 0
Maps p size fault = Unit {0}
Maps p size (done r) = r.out ≡ some p → lookup p r.state.memory.device_allocations ≡ some size

buffer-Maps :
    (x : External) (memory p : ℕ) (d : BufferDescriptor)
    → Maps p d.size (cu_external_memory_get_mapped_buffer x true memory (some d))
unfolding cu_external_memory_get_mapped_buffer map_buffer
buffer-Maps x memory p d = elim (Option-cases (object memory x.memories)) [
  | inl dead ↦ ground arith
  | inr (s, e) ↦
      ground (arith, lookup-put (add64 s.mapping d.offset) p d.size x.memory.device_allocations)
]

-- After a buffer was mapped from an external memory and cuDestroyExternalMemory of that memory has
-- returned, the buffer's address is still a device allocation of the buffer's size.
pub cu_destroy_external_memory_stale :
    (x : External) (memory p : ℕ) (d : BufferDescriptor) (r : Reply External ℕ)
    (q : Reply External (Unit {0}))
    → cu_external_memory_get_mapped_buffer x true memory (some d) ≡ done r
    → r.out ≡ some p
    → cu_destroy_external_memory r.state memory ≡ done q
    → lookup p q.state.memory.device_allocations ≡ some d.size
cu_destroy_external_memory_stale x memory p d r q mapped given destroyed =
    let kept : Allocates r.state.memory.device_allocations (done q) =
      subst (λ (o : Outcome External (Unit {0})). Allocates r.state.memory.device_allocations o)
        destroyed (destroy-Allocates r.state memory) in
    ap (λ (t : Table ℕ). lookup p t) kept
    ∙ subst (λ (o : Outcome External ℕ). Maps p d.size o) mapped (buffer-Maps x memory p d) given
