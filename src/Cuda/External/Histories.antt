-- ===== src/Cuda/External/Histories.antt =====
-- Histories of the external memory calls of guest/cuda_shim/imb_cuda_shim.cpp.
use isaac_metal_bridge.Base.{
  ℕ, ℤ, ◌≡◌, refl, ◌≢◌, inl, inr, Option-cases, Bool-cases, Bool, true, false, Option, none, some,
  List, [], ◌∷◌, put, insert, add64, replicate, length-replicate, arith,
}
use isaac_metal_bridge.Cuda.Result.{Outcome, done, fault}
use isaac_metal_bridge.Cuda.Registry.{object, is_member, delete_object}
use isaac_metal_bridge.Cuda.External.{
  External, ExternalMemoryState, MipmappedArrayState, HandleDescriptor, BufferDescriptor, opaque_fd,
  MipmapDescriptor, map_external, map_buffer, release_external, cu_import_external_memory,
  cu_external_memory_get_mapped_buffer, cu_destroy_external_memory,
}
use isaac_metal_bridge.Cuda.External.Mipmaps.{
  Levels, made, bad_alloc, make_levels, finish_mipmap, make_mipmap,
  cu_external_memory_get_mapped_mipmapped_array, cu_mipmapped_array_destroy,
}
use isaac_metal_bridge.Cuda.External.Arrays.{
  cu_array_3d_create, cu_array_destroy, cu_tex_object_create,
}
use isaac_metal_bridge.Cuda.Memory.State.{Memory, munmap, close, after_call}
use isaac_metal_bridge.Cuda.External.LevelArrays.{
  IsFresh, Builds, make_levels-Builds, start-IsBuilt, delete_built, delete_levels_lem,
}
use isaac_metal_bridge.Cuda.External.Intact.{IsIntact, forget_level-IsForgotten}
use isaac_metal_bridge.Cuda.External.Changes.{
  with_memory, memory_added, array_added, array_dropped, mipmap_dropped, used, memory_dropped,
  mipmap_added, arrays_restored,
}

-- The calls that change the state.
pub data Call : Type 0 where
  import_memory : Bool → Option HandleDescriptor → Option ℤ → Option ℕ → Option ℕ → Call
  get_buffer : Bool → ℕ → Option BufferDescriptor → Call
  get_mipmap : Bool → ℕ → Option MipmapDescriptor → Option ℕ → Bool → (ℕ → Option ℕ) → Call
  destroy_mipmap : ℕ → Call
  destroy_memory : ℕ → Call
  create_array : Bool → Bool → Option ℕ → Call
  destroy_array : ℕ → Call
  create_texture : Bool → Bool → Bool → Call

abbrev pub state_of {ℓ} : {A : Type ℓ} → Outcome External A → Option External
state_of (done r) = some r.state
state_of fault = none

unfoldable pub step : External → Call → Option External
step x (import_memory given d status mapping p) =
    some (cu_import_external_memory x given d status mapping p).state
step x (get_buffer given memory d) =
    state_of (cu_external_memory_get_mapped_buffer x given memory d)
step x (get_mipmap given memory d p resizes news) =
    state_of (cu_external_memory_get_mapped_mipmapped_array x given memory d p resizes news)
step x (destroy_mipmap p) = state_of (cu_mipmapped_array_destroy x p)
step x (destroy_memory p) = state_of (cu_destroy_external_memory x p)
step x (create_array given d p) = some (cu_array_3d_create x given d p).state
step x (destroy_array p) = state_of (cu_array_destroy x p)
step x (create_texture given resource texture) =
    some (cu_tex_object_create x given resource texture).state

-- What a history relies on: `new` gives out memory that is not null and not in use.
abbrev pub Allowed : External → Call → Type 0
Allowed x (get_mipmap given memory d (some p) resizes news) = (p ≢ 0) × IsFresh x.arrays news
Allowed x (create_array given d (some p)) = object p x.arrays ≡ none
Allowed x _ = Unit {0}

abbrev pub Keeps : Option External → Type 0
Keeps none = ⊥
Keeps (some x) = IsIntact x

module _ (x : External) (v : IsIntact x) where
  abbrev with_buffer : ExternalMemoryState → BufferDescriptor → Memory
  with_buffer s d =
      let pointer = add64 s.mapping d.offset in
      record (x.memory) {
        device_allocations = put pointer d.size x.memory.device_allocations;
        external_device_pointers = insert pointer x.memory.external_device_pointers;
      }

  import-Keeps :
      (given : Bool) (d : Option HandleDescriptor) (status : Option ℤ) (mapping p : Option ℕ)
      → Keeps (step x (import_memory given d status mapping p))
  unfolding step cu_import_external_memory map_external
  import-Keeps given none status mapping p = v
  import-Keeps given (some d) status none p = ground (arith, with_memory x v x.memory)
  import-Keeps given (some d) status (some mapping) none =
      ground (arith, with_memory x v (after_call x.memory (munmap mapping d.size)))
  import-Keeps given (some d) status (some mapping) (some p) =
      elim (Option-cases (opaque_fd d.type d.fd)) [
        | inl e ↦ ground arith
        | inr (fd, e) ↦
            ground
              (arith, memory_added x v p (record { fd = fd; size = d.size; mapping = mapping }))
      ]

  buffer-Keeps :
      (given : Bool) (memory : ℕ) (d : Option BufferDescriptor)
      → Keeps (step x (get_buffer given memory d))
  unfolding step cu_external_memory_get_mapped_buffer map_buffer
  buffer-Keeps given memory none = v
  buffer-Keeps given memory (some d) = elim (Option-cases (object memory x.memories)) [
    | inl dead ↦ ground (arith, v.memories memory)
    | inr (s, e) ↦ ground (arith, v.memories memory, with_memory x v (with_buffer s d))
  ]

  array-Keeps :
      (given d : Bool) (p : Option ℕ)
      → Allowed x (create_array given d p)
      → Keeps (step x (create_array given d p))
  unfolding step cu_array_3d_create
  array-Keeps given d none free = ground arith
  array-Keeps given d (some p) free =
      ground (arith, array_added x v p (record { mipmap = 0; level = 0 }) free)

  destroy_array-Keeps : (a : ℕ) → Keeps (step x (destroy_array a))
  destroy_array-Keeps a = elim (Option-cases (object a x.arrays)) [
    | inl dead ↦ unfold step cu_array_destroy in ground (arith, v.arrays a)
    | inr (s, found) ↦
        let f = forget_level-IsForgotten x v a s found in
        unfold step cu_array_destroy delete_object in
        ground (arith, v.arrays a, f.1, f.2.arrays, array_dropped x v a s f.0 f.2)
  ]

  destroy_mipmap-Keeps : (p : ℕ) → Keeps (step x (destroy_mipmap p))
  destroy_mipmap-Keeps p = elim (Option-cases (object p x.mipmaps)) [
    | inl dead ↦ unfold step cu_mipmapped_array_destroy in ground (arith, v.mipmaps p)
    | inr (m, found) ↦
        let r = delete_levels_lem p 0 m.levels x.arrays v.arrays (v.levels_owned p m found) in
        let kept = mipmap_dropped x v p m r.0 found r.2 r.3 in
        unfold step cu_mipmapped_array_destroy delete_object in
        ground (arith, v.mipmaps p, r.1, kept)
  ]

  destroy_memory-Keeps : (memory : ℕ) → Keeps (step x (destroy_memory memory))
  destroy_memory-Keeps memory = elim (Option-cases (object memory x.memories)) [
    | inl dead ↦ unfold step cu_destroy_external_memory in ground (arith, v.memories memory)
    | inr (s, found) ↦
        let r = used x v memory x.mipmaps.members (λ p h. ground (arith, v.mipmaps p)) in
        elim (Bool-cases r.0) [
          | inl busy ↦
              unfold step cu_destroy_external_memory in ground (arith, v.memories memory, r.1)
          | inr free ↦
              let globals =
                after_call (after_call x.memory (munmap s.mapping s.size)) (close s.fd) in
              let kept =
                memory_dropped x v memory globals
                  (λ p m h. r.2 free p m (ground (arith, v.mipmaps p)) h) in
              unfold step cu_destroy_external_memory release_external delete_object in
              ground (arith, v.memories memory, r.1, kept)
        ]
  ]

  finish_mipmap-Keeps :
      (p : ℕ) (m : MipmappedArrayState) (news : ℕ → Option ℕ) (levels : Levels)
      → p ≢ 0
      → (fresh : IsFresh x.arrays news) → is_member m.memory x.memories ≡ true
      → Builds x.arrays news fresh p levels
      → Keeps (state_of (finish_mipmap x p m levels))
  unfolding finish_mipmap
  finish_mipmap-Keeps p m news (made arrays levels) nonnull fresh valid (level, b) =
      mipmap_added x v p level (record m { levels = levels }) news arrays nonnull valid b
  finish_mipmap-Keeps p m news (bad_alloc arrays levels) nonnull fresh valid (level, b) =
      let r = delete_built x.arrays news fresh p level arrays levels b in
      rw (r.1, finish_mipmap) (arrays_restored x v r.0 r.2 r.3)

  make_mipmap-Keeps :
      (memory : ℕ) (d : MipmapDescriptor) (p : ℕ) (resizes : Bool) (news : ℕ → Option ℕ)
      → (p ≢ 0) × IsFresh x.arrays news
      → is_member memory x.memories ≡ true
      → Keeps (state_of (make_mipmap x memory d (some p) resizes news))
  unfolding make_mipmap
  make_mipmap-Keeps memory d p true news a valid =
      let built =
        make_levels-Builds x.arrays news a.1 p d.num_levels 0 x.arrays (replicate d.num_levels none)
          (omega (arith, length-replicate {0} d.num_levels none))
          (start-IsBuilt x.arrays news a.1 p d.num_levels v.arrays) in
      finish_mipmap-Keeps p (record { memory = memory; descriptor = d; levels = [] }) news
        (make_levels p d.num_levels 0 news x.arrays (replicate d.num_levels none)) a.0 a.1 valid
        built
  make_mipmap-Keeps memory d p false news a valid =
      finish_mipmap-Keeps p (record { memory = memory; descriptor = d; levels = [] }) news
        (bad_alloc x.arrays []) a.0 a.1 valid (0, start-IsBuilt x.arrays news a.1 p 0 v.arrays)

  get_mipmap-Keeps :
      (given : Bool) (memory : ℕ) (d : Option MipmapDescriptor) (p : Option ℕ) (resizes : Bool)
      (news : ℕ → Option ℕ)
      → Allowed x (get_mipmap given memory d p resizes news)
      → Keeps (step x (get_mipmap given memory d p resizes news))
  unfolding step cu_external_memory_get_mapped_mipmapped_array
  get_mipmap-Keeps given memory none p resizes news a = v
  get_mipmap-Keeps given memory (some d) none resizes news a =
      unfold make_mipmap in ground (arith, v.memories memory)
  get_mipmap-Keeps given memory (some d) (some p) resizes news a =
      ground (arith, v.memories memory, make_mipmap-Keeps memory d p resizes news a)

  -- A call that a history allows never touches a dead object and keeps every reference.
  step-Keeps : (call : Call) → Allowed x call → Keeps (step x call)
  step-Keeps (import_memory given d status mapping p) a = import-Keeps given d status mapping p
  step-Keeps (get_buffer given memory d) a = buffer-Keeps given memory d
  step-Keeps (get_mipmap given memory d p resizes news) a =
      get_mipmap-Keeps given memory d p resizes news a
  step-Keeps (destroy_mipmap p) a = destroy_mipmap-Keeps p
  step-Keeps (destroy_memory p) a = destroy_memory-Keeps p
  step-Keeps (create_array given d p) a = array-Keeps given d p a
  step-Keeps (destroy_array p) a = destroy_array-Keeps p
  step-Keeps (create_texture given resource texture) a =
      unfold step cu_tex_object_create in ground arith

unfoldable pub run : External → List Call → Option External
run x [] = some x
run x (call ∷ calls) = elim (step x call) [ none ↦ none | some x' ↦ run x' calls ]

-- Every call of the history is allowed in the state in which it is made.
abbrev pub AllAllowed : External → List Call → Type 0
AllAllowed x [] = Unit {0}
AllAllowed x (call ∷ calls) =
    Allowed x call × ((x' : External) → step x call ≡ some x' → AllAllowed x' calls)

-- From an intact state every history of the external memory, mipmap, array and texture calls
-- returns, without an access to or a deletion of a dead object, and ends in an intact state: the
-- handles are the live objects, no mipmap's memory is released, and every level of a mipmap is
-- null or a live array that names that mipmap and level. The condition on each call is that `new`
-- gives out arrays that are not in use and all different, and a mipmap that is not null.
pub run-IsIntact :
    (calls : List Call) (x : External)
    → IsIntact x
    → AllAllowed x calls
    → (x' : External) × (run x calls ≡ some x') × IsIntact x'
unfolding run
run-IsIntact [] x v a = (x, refl, v)
run-IsIntact (call ∷ calls) x v a = elim (Option-cases (step x call)) [
  | inl dead ↦ absurd (rw dead at (step-Keeps x v call a.0))
  | inr (x', e) ↦ rw (e, run) (run-IsIntact calls x' (rw e at (step-Keeps x v call a.0)) (a.1 x' e))
]
