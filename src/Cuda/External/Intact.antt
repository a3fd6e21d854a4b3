-- ===== src/Cuda/External/Intact.antt =====
-- How external memories, mipmaps and arrays of guest/cuda_shim/imb_cuda_shim.cpp refer to one
-- another, and what destroying an array does to the mipmap that lists it.
use isaac_metal_bridge.Base.{
  ℕ, zero, suc, ◌≡◌, refl, sym, ap, ap₂, ◌≢◌, ◌∙◌, ◌⊎◌, inl, inr, Option-cases, true, Option, none,
  some, List, [], ◌∷◌, set, put, lookup-put, ◌==◌, if◌then◌else◌, arith,
}
use native.Mathlib.Decide.{ℕ_discrete}
use isaac_metal_bridge.Cuda.Registry.{object, is_live, is_member, IsSound}
use isaac_metal_bridge.Cuda.External.{External, MipmappedArrayState, ArrayState}
use isaac_metal_bridge.Cuda.External.Mipmaps.{level_at}
use isaac_metal_bridge.Cuda.External.Arrays.{forget_level}
use isaac_metal_bridge.Cuda.External.LevelArrays.{Owns}

pub record IsIntact (x : External) : Type 0 where
  pub memories : IsSound x.memories
  pub mipmaps : IsSound x.mipmaps
  pub arrays : IsSound x.arrays
  pub nonnull : (p : ℕ) → is_live p x.mipmaps ≡ true → p ≢ 0
  -- A mipmap's memory is not released, and its levels are live arrays that point back to it.
  pub mipmap_memory :
      (p : ℕ) (m : MipmappedArrayState)
      → object p x.mipmaps ≡ some m
      → is_member m.memory x.memories ≡ true
  pub levels_owned :
      (p : ℕ) (m : MipmappedArrayState) → object p x.mipmaps ≡ some m → Owns p 0 m.levels x.arrays

abbrev pub levels_of : Option MipmappedArrayState → List (Option ℕ)
levels_of none = []
levels_of (some m) = m.levels

level_at-set-none :
    (levels : List (Option ℕ)) (k l : ℕ)
    → level_at (set levels k none) l ≡ (if k == l then none else level_at levels l)
level_at-set-none [] k l = ground arith
level_at-set-none (x ∷ levels) zero zero = ground arith
level_at-set-none (x ∷ levels) zero (suc l) = ground arith
level_at-set-none (x ∷ levels) (suc k) zero = ground arith
level_at-set-none (x ∷ levels) (suc k) (suc l) = ground (arith, level_at-set-none levels k l)

-- No mipmap lists the array any more, and nothing else changed.
pub record IsForgotten (x : External) (array : ℕ) (x' : External) : Type 0 where
  pub intact : IsIntact x'
  pub arrays : x'.arrays ≡ x.arrays
  pub memories : x'.memories ≡ x.memories
  pub unlisted :
      (p : ℕ) (m : MipmappedArrayState) (l : ℕ)
      → object p x'.mipmaps ≡ some m
      → level_at m.levels l ≢ some array

module _ (x : External) (v : IsIntact x) (array : ℕ) (s : ArrayState)
    (found : object array x.arrays ≡ some s) where
  -- A level that holds the array is the one that the array names.
  level-of :
      (p : ℕ) (m : MipmappedArrayState) (l : ℕ)
      → object p x.mipmaps ≡ some m
      → level_at m.levels l ≡ some array
      → (s.mipmap ≡ p) × (s.level ≡ l)
  level-of p m l h e = ground (arith, v.levels_owned p m h l array e)

  -- Where the array is in no level, there is nothing to forget.
  IsForgotten-same :
      ((p : ℕ) (m : MipmappedArrayState) (l : ℕ)
        → object p x.mipmaps ≡ some m
        → level_at m.levels l ≢ some array)
      → IsForgotten x array x
  IsForgotten-same h = record { intact = v; arrays = refl; memories = refl; unlisted = h }

  abbrev cleared : MipmappedArrayState → External
  cleared m = record x {
    mipmaps = record (x.mipmaps) {
      live = put s.mipmap (record m { levels = set m.levels s.level none }) x.mipmaps.live;
    };
  }

  -- A level of the new state is a level of the old one, and not the array.
  level-cleared :
      (m n : MipmappedArrayState) (p l a : ℕ)
      → object s.mipmap x.mipmaps ≡ some m
      → object p (cleared m).mipmaps ≡ some n
      → level_at n.levels l ≡ some a
      → (o : MipmappedArrayState) × (object p x.mipmaps ≡ some o)
        × (level_at o.levels l ≡ some a)
        × ((s.mipmap ≢ p) ⊎ (s.level ≢ l))
  level-cleared m n p l a h e at =
      let m' : MipmappedArrayState = record m { levels = set m.levels s.level none } in
      let look = lookup-put s.mipmap p m' x.mipmaps.live in
      elim (ℕ_discrete s.mipmap p) [
        | yes hit ↦
            let same : some m' ≡ some n = ground (arith, look) in
            let at' : level_at m'.levels l ≡ some a =
              ground (arith, ap (λ (t : Option MipmappedArrayState). levels_of t) same) in
            (
              m,
              ground arith,
              ground (arith, level_at-set-none m.levels s.level l),
              inr (ground (arith, level_at-set-none m.levels s.level l)),
            )
        | no miss ↦ (n, ground (arith, look), at, inl miss)
      ]

  cleared-IsForgotten :
      (m : MipmappedArrayState)
      → object s.mipmap x.mipmaps ≡ some m
      → IsForgotten x array (cleared m)
  cleared-IsForgotten m h =
      let m' : MipmappedArrayState = record m { levels = set m.levels s.level none } in
      record {
        intact = record {
          memories = v.memories;
          mipmaps = λ q.
              ground
                (arith, lookup-put s.mipmap q m' x.mipmaps.live, v.mipmaps q, v.mipmaps s.mipmap);
          arrays = v.arrays;
          nonnull = λ q live.
              ground
                (arith, lookup-put s.mipmap q m' x.mipmaps.live, v.nonnull q, v.nonnull s.mipmap);
          mipmap_memory = λ p n e. ground (
            arith,
            lookup-put s.mipmap p m' x.mipmaps.live,
            v.mipmap_memory p n,
            v.mipmap_memory s.mipmap m h,
          );
          levels_owned = λ p n e l a at.
              let old = level-cleared m n p l a h e at in v.levels_owned p old.0 old.1 l a old.2;
        };
        arrays = refl;
        memories = refl;
        unlisted = λ p n l e at.
            let old = level-cleared m n p l array h e at in
            let own = level-of p old.0 l old.1 old.2 in ground (arith, old.3, own);
      }

  own_level :
      (m n : MipmappedArrayState) (p l : ℕ)
      → object s.mipmap x.mipmaps ≡ some m
      → object p x.mipmaps ≡ some n
      → level_at n.levels l ≡ some array
      → level_at m.levels s.level ≡ some array
  own_level m n p l h g e =
      let own = level-of p n l g e in
      let same : some m ≡ some n = sym h ∙ ap (λ (q : ℕ). object q x.mipmaps) own.0 ∙ g in
      ap₂ level_at (ap levels_of same) own.1 ∙ e

  -- cuArrayDestroy finds no dead mipmap, and leaves no level that holds the array.
  pub forget_level-IsForgotten :
      (x' : External) × (forget_level x array s ≡ some x') × IsForgotten x array x'
  forget_level-IsForgotten = elim (Option-cases (object s.mipmap x.mipmaps)) [
    | inl dead ↦ (
      x,
      unfold forget_level in ground (arith, v.mipmaps s.mipmap),
      IsForgotten-same (λ p m l h e. ground (arith, level-of p m l h e)),
    )
    | inr (m, h) ↦ elim (Option-cases (level_at m.levels s.level)) [
      | inl null ↦ (
        x,
        unfold forget_level in ground (arith, v.mipmaps s.mipmap, v.nonnull s.mipmap),
        IsForgotten-same (λ p n l g e. cc (own_level m n p l h g e)),
      )
      | inr (b, held) ↦ elim (ℕ_discrete b array) [
        | yes own ↦ (
          cleared m,
          unfold forget_level in ground (arith, v.mipmaps s.mipmap, v.nonnull s.mipmap),
          cleared-IsForgotten m h,
        )
        | no other ↦ (
          x,
          unfold forget_level in ground (arith, v.mipmaps s.mipmap, v.nonnull s.mipmap),
          IsForgotten-same (λ p n l g e. ground (arith, own_level m n p l h g e)),
        )
      ]
    ]
  ]
