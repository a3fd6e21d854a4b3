-- ===== src/Cuda/External/Changes.antt =====
-- How the changes that the external memory calls of guest/cuda_shim/imb_cuda_shim.cpp make keep
-- the references between memories, mipmaps and arrays.
use isaac_metal_bridge.Base.{
  ℕ, ◌≡◌, refl, ap, ◌≢◌, ◌∙◌, inl, inr, Option-cases, Bool-cases, Bool, true, false, Option, none,
  some, List, [], ◌∷◌, erase, contains, remove, lookup-put, lookup-erase, contains-insert,
  contains-remove, ◌==◌, if◌then◌else◌, arith,
}
use native.Mathlib.Decide.{ℕ_discrete}
use isaac_metal_bridge.Cuda.Registry.{
  Registry, object, is_live, is_member, IsSound, enrol, new_object,
}
use isaac_metal_bridge.Cuda.External.{
  External, ExternalMemoryState, MipmappedArrayState, ArrayState, is_used,
}
use isaac_metal_bridge.Cuda.External.Mipmaps.{level_at}
use isaac_metal_bridge.Cuda.Memory.State.{Memory}
use isaac_metal_bridge.Cuda.External.LevelArrays.{IsBuilt, listed, listed-level_at}
use isaac_metal_bridge.Cuda.External.Intact.{IsIntact, IsForgotten, levels_of}

module _ (x : External) (v : IsIntact x) where
  -- A change of the memory globals alone.
  pub with_memory : (m : _) → IsIntact (record x { memory = m })
  with_memory m = record {
    memories = v.memories;
    mipmaps = v.mipmaps;
    arrays = v.arrays;
    nonnull = v.nonnull;
    mipmap_memory = v.mipmap_memory;
    levels_owned = v.levels_owned;
  }

  pub memory_added :
      (p : ℕ) (s : ExternalMemoryState)
      → IsIntact (record x { memories = enrol p (new_object p s x.memories) })
  memory_added p s = record {
    memories = λ q. ground (
      arith,
      contains-insert p q x.memories.members,
      lookup-put p q s x.memories.live,
      v.memories q,
    );
    mipmaps = v.mipmaps;
    arrays = v.arrays;
    nonnull = v.nonnull;
    mipmap_memory =
        λ q m h. ground (arith, contains-insert p m.memory x.memories.members, v.mipmap_memory q m);
    levels_owned = v.levels_owned;
  }

  pub array_added :
      (p : ℕ) (s : ArrayState)
      → object p x.arrays ≡ none
      → IsIntact (record x { arrays = enrol p (new_object p s x.arrays) })
  array_added p s free = record {
    memories = v.memories;
    mipmaps = v.mipmaps;
    arrays = λ q.
        ground
          (arith, contains-insert p q x.arrays.members, lookup-put p q s x.arrays.live, v.arrays q);
    nonnull = v.nonnull;
    mipmap_memory = v.mipmap_memory;
    levels_owned =
        λ q m h l a at. ground (arith, lookup-put p a s x.arrays.live, v.levels_owned q m h l a at);
  }

  pub array_dropped :
      (a : ℕ) (s : ArrayState) (x' : External)
      → IsForgotten x a x'
      → IsIntact (record x' {
        arrays = record { live = erase a x'.arrays.live; members = remove a x'.arrays.members };
      })
  array_dropped a s x' f = record {
    memories = f.intact.memories;
    mipmaps = f.intact.mipmaps;
    arrays = λ q. ground (
      arith,
      contains-remove a q x'.arrays.members,
      lookup-erase a q x'.arrays.live,
      f.intact.arrays q,
    );
    nonnull = f.intact.nonnull;
    mipmap_memory = f.intact.mipmap_memory;
    levels_owned = λ q m h l b at. ground (
      arith,
      lookup-erase a b x'.arrays.live,
      f.intact.levels_owned q m h l b at,
      f.unlisted q m l h,
    );
  }

  -- All the arrays of a mipmap and the mipmap itself are taken away.
  pub mipmap_dropped :
      (p : ℕ) (m : MipmappedArrayState) (arrays : Registry ArrayState)
      → object p x.mipmaps ≡ some m
      → IsSound arrays
      → ((q : ℕ) → object q arrays ≡ (if listed q m.levels then none else object q x.arrays))
      → IsIntact (record x {
        arrays = arrays;
        mipmaps = record { live = erase p x.mipmaps.live; members = remove p x.mipmaps.members };
      })
  mipmap_dropped p m arrays found sound left = record {
    memories = v.memories;
    mipmaps = λ q. ground (
      arith,
      contains-remove p q x.mipmaps.members,
      lookup-erase p q x.mipmaps.live,
      v.mipmaps q,
    );
    arrays = sound;
    nonnull = λ q live. ground (arith, lookup-erase p q x.mipmaps.live, v.nonnull q);
    mipmap_memory = λ q n h. ground (arith, lookup-erase p q x.mipmaps.live, v.mipmap_memory q n);
    levels_owned = λ q n h l a at.
        let old : object q x.mipmaps ≡ some n = ground (arith, lookup-erase p q x.mipmaps.live) in
        let own = v.levels_owned q n old l a at in
        elim (Bool-cases (listed a m.levels)) [
          | inl shared ↦
              let level = listed-level_at a m.levels shared in
              absurd (
                ground (
                  arith,
                  own,
                  v.levels_owned p m found level.0 a level.1,
                  lookup-erase p q x.mipmaps.live,
                ))
          | inr apart ↦ ground (arith, left a, own)
        ];
  }

  pub used :
      (memory : ℕ) (ps : List ℕ)
      → ((p : ℕ) → contains p ps ≡ true → is_live p x.mipmaps ≡ true)
      → (b : Bool) × (is_used x memory ps ≡ some b)
        × (b ≡ false
            → (p : ℕ) (m : MipmappedArrayState) → contains p ps ≡ true
            → object p x.mipmaps ≡ some m
            → m.memory ≢ memory)
  unfolding is_used contains
  used memory [] live = (false, refl, λ e p m h. cc)
  used memory (p ∷ ps) live = elim (Option-cases (object p x.mipmaps)) [
    | inl dead ↦ absurd (ground (arith, live p))
    | inr (m, found) ↦
        let r = used memory ps (λ q h. ground (arith, live q)) in
        elim (Bool-cases (m.memory == memory)) [
          | inl hit ↦ (true, rw (found, is_used, hit), λ e. cc)
          | inr miss ↦ (r.0, rw (found, is_used, miss) r.1, λ e q n h g. ground (arith, r.2 e q n))
        ]
  ]

  pub memory_dropped :
      (memory : ℕ) (globals : Memory)
      → ((p : ℕ) (m : MipmappedArrayState) → object p x.mipmaps ≡ some m → m.memory ≢ memory)
      → IsIntact (record x {
        memory = globals;
        memories = record {
          live = erase memory x.memories.live;
          members = remove memory x.memories.members;
        };
      })
  memory_dropped memory globals free = record {
    memories = λ q. ground (
      arith,
      contains-remove memory q x.memories.members,
      lookup-erase memory q x.memories.live,
      v.memories q,
    );
    mipmaps = v.mipmaps;
    arrays = v.arrays;
    nonnull = v.nonnull;
    mipmap_memory = λ q m h.
        ground (
          arith,
          contains-remove memory m.memory x.memories.members,
          v.mipmap_memory q m,
          free q m,
        );
    levels_owned = v.levels_owned;
  }

  pub mipmap_added :
      (p level : ℕ) (m : MipmappedArrayState) (news : ℕ → Option ℕ) (arrays : Registry ArrayState)
      → p ≢ 0
      → is_member m.memory x.memories ≡ true
      → IsBuilt x.arrays news p level arrays m.levels
      → IsIntact (record x { mipmaps = enrol p (new_object p m x.mipmaps); arrays = arrays })
  mipmap_added p level m news arrays nonnull valid b = record {
    memories = v.memories;
    mipmaps = λ q. ground (
      arith,
      contains-insert p q x.mipmaps.members,
      lookup-put p q m x.mipmaps.live,
      v.mipmaps q,
    );
    arrays = b.sound;
    nonnull = λ q live. ground (arith, lookup-put p q m x.mipmaps.live, v.nonnull q);
    mipmap_memory = λ q n h. ground (arith, lookup-put p q m x.mipmaps.live, v.mipmap_memory q n);
    levels_owned = λ q n h l a at. elim (ℕ_discrete p q) [
      | yes own ↦
          let same : some m ≡ some n = ground (arith, lookup-put p q m x.mipmaps.live) in
          ground (
            arith,
            b.owns l a
                (ap (λ (o : Option MipmappedArrayState). level_at (levels_of o) l) same ∙ at),
          )
      | no other ↦
          let old : object q x.mipmaps ≡ some n = ground (arith, lookup-put p q m x.mipmaps.live) in
          ground (arith, v.levels_owned q n old l a at, b.others a, b.unused a)
    ];
  }

  pub arrays_restored :
      (arrays : Registry ArrayState)
      → IsSound arrays
      → ((q : ℕ) → object q arrays ≡ object q x.arrays)
      → IsIntact (record x { arrays = arrays })
  arrays_restored arrays sound same = record {
    memories = v.memories;
    mipmaps = v.mipmaps;
    arrays = sound;
    nonnull = v.nonnull;
    mipmap_memory = v.mipmap_memory;
    levels_owned = λ q m h l a at. same a ∙ v.levels_owned q m h l a at;
  }
