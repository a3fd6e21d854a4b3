-- ===== src/Icd/Sparse.antt =====
-- The mip tail of sparse images in guest/vulkan_icd/imb_vulkan_icd.cpp.
use isaac_metal_bridge.Base.{
  ℕ, zero, suc, ◌+◌, ◌≤◌, ◌<◌, max, ◌≡◌, ◌≢◌, ◌↔◌, refl, ap, subst, sym, ◌∙◌, inl, inr, ◌⊎◌, Bool,
  true, false, Bool-cases, ltb, ◌==◌, ◌&&◌, if◌then◌else◌, max64, arith,
}
use native.Mathlib.Decide.{ℕ_discrete}
use isaac_metal_bridge.Icd.Formats.{
  Vulkan, Extent, sparse_image_granularity, metal_sparse_image_granularity,
}
use isaac_metal_bridge.Icd.Sizes.{
  Tiling, is_small, tile_level, tile_levels, level_extent, sparse_image_requirements, clamped_add,
  tile_bytes, align_clamped,
}
use isaac_metal_bridge.Icd.Saturation.{align_clamped_lem}

module _ (granularity metal : Extent) (mip_levels : ℕ) (extent : Extent) where
  abbrev small_at : ℕ → Bool
  small_at level = is_small (level_extent extent level) granularity

  -- Before `level`, `first` is the first small level, or `mip_levels` if there is none.
  pub record IsFirst (level first : ℕ) : Type 0 where
    pub large : (l : ℕ) → l < level → l < first → small_at l ≡ false
    pub found :
        ((first ≡ mip_levels) × (level ≤ mip_levels))
        ⊎ ((first < level) × (first < mip_levels) × (small_at first ≡ true))

  abbrev next_first : ℕ → ℕ → ℕ
  next_first level first = if first == mip_levels && small_at level then level else first

  tile_level-first :
      (level : ℕ) (t : Tiling)
      → (tile_level granularity metal mip_levels (level_extent extent level) level t).first_lod
        ≡ next_first level t.first_lod
  unfolding tile_level
  tile_level-first level t = elim (Bool-cases (ltb level (next_first level t.first_lod))) [
    | inl e ↦ rw e refl
    | inr e ↦ rw e refl
  ]

  next_first-IsFirst :
      (level first : ℕ)
      → level < mip_levels
      → IsFirst level first
      → IsFirst (level + 1) (next_first level first)
  next_first-IsFirst level first h f = elim f.found [
    | inr p ↦
        let kept : next_first level first ≡ first = ground (arith, p.0, p.1) in
        subst (λ (k : ℕ). IsFirst (level + 1) k) (sym kept)
          (record {
            large = λ l a b. f.large l (omega (arith, p.0)) b;
            found = inr (omega (arith, p.0), p.1, p.2);
          })
    | inl p ↦ elim (Bool-cases (small_at level)) [
      | inl s ↦
          let here : next_first level first ≡ level = rw s (test first level p.0) in
          subst (λ (k : ℕ). IsFirst (level + 1) k) (sym here)
            (record {
              large = λ l a b. f.large l b (omega (arith, p.0));
              found = inr (omega arith, h, s);
            })
      | inr s ↦
          let kept : next_first level first ≡ first = rw s (neither first level) in
          subst (λ (k : ℕ). IsFirst (level + 1) k) (sym kept)
            (record {
              large = λ l a b. elim (ℕ_discrete l level) [
                | yes e ↦ ap (λ (k : ℕ). small_at k) e ∙ s
                | no e ↦ f.large l (omega arith) b
              ];
              found = inl (p.0, omega arith);
            })
    ]
  ]
    where
      test : (a l : ℕ) → a ≡ mip_levels → (if a == mip_levels && true then l else a) ≡ l
      test a l e = ground arith

      neither : (a l : ℕ) → (if a == mip_levels && false then l else a) ≡ a
      neither a l = ground arith

  tile_levels-IsFirst :
      (n level : ℕ) (t : Tiling)
      → level + n ≡ mip_levels
      → IsFirst level t.first_lod
      → IsFirst mip_levels (tile_levels granularity metal mip_levels extent n level t).first_lod
  unfolding tile_levels
  tile_levels-IsFirst zero level t e f = subst (λ (k : ℕ). IsFirst k t.first_lod) (same e) f
    where
      same : level + 0 ≡ mip_levels → level ≡ mip_levels
      same e = omega arith
  tile_levels-IsFirst (suc n) level t e f =
      tile_levels-IsFirst n (level + 1)
        (tile_level granularity metal mip_levels (level_extent extent level) level t) (omega arith)
        (subst (λ (k : ℕ). IsFirst (level + 1) k) (sym (tile_level-first level t))
          (next_first-IsFirst level t.first_lod (omega arith) f))

start-IsFirst :
    (g metal : Extent) (mip_levels : ℕ) (extent : Extent)
    → IsFirst g metal mip_levels extent 0 mip_levels
start-IsFirst g metal mip_levels extent = record {
  large = λ l a b. absurd (omega arith);
  found = inl (refl, omega arith);
}

bound :
    (g metal : Extent) (mip_levels : ℕ) (extent : Extent) (first : ℕ)
    → IsFirst g metal mip_levels extent mip_levels first
    → first ≤ mip_levels
bound g metal mip_levels extent first f = elim f.found [
  | inl p ↦ omega (arith, p.0)
  | inr p ↦ omega (arith, p.1)
]

tail_iff :
    (first levels size : ℕ)
    → first ≤ levels
    → size ≢ 0
    → ((if ltb first levels then size else 0) ≡ 0) ↔ (first ≡ levels)
tail_iff first levels size h nonzero = ground arith

align_clamped-positive : (value : ℕ) → 1 ≤ value → value ≤ max64 → align_clamped value 65536 ≢ 0
align_clamped-positive value h k e = elim (align_clamped_lem value 16 (omega arith) k) [
  | inl cut ↦ differ (align_clamped value 65536) e cut
  | inr r ↦ omega (arith, r.0, e)
]
  where
    differ : (a : ℕ) → a ≡ 0 → a ≢ max64
    differ a e f = omega arith

clamped_add-le : (a b : ℕ) → clamped_add a b ≤ max64
unfolding clamped_add
clamped_add-le a b = ground arith

tile_level-tail :
    (g metal : Extent) (mip_levels : ℕ) (e : Extent) (level : ℕ) (t : Tiling)
    → t.tail ≤ max64
    → (tile_level g metal mip_levels e level t).tail ≤ max64
unfolding tile_level
tile_level-tail g metal mip_levels e level t h =
    elim (Bool-cases
      (ltb level (if t.first_lod == mip_levels && is_small e g then level else t.first_lod))) [
        | inl below ↦ rw below h
        | inr above ↦ rw above (clamped_add-le t.tail (tile_bytes e metal 16384))
      ]

tile_levels-tail :
    (g metal : Extent) (mip_levels : ℕ) (extent : Extent) (n level : ℕ) (t : Tiling)
    → t.tail ≤ max64
    → (tile_levels g metal mip_levels extent n level t).tail ≤ max64
unfolding tile_levels
tile_levels-tail g metal mip_levels extent zero level t h = h
tile_levels-tail g metal mip_levels extent (suc n) level t h =
    tile_levels-tail g metal mip_levels extent n (level + 1)
      (tile_level g metal mip_levels (level_extent extent level) level t)
      (tile_level-tail g metal mip_levels (level_extent extent level) level t h)

-- The mip tail of a sparse image begins at the first level that is smaller than the granularity in
-- some direction, or behind the last level; its size is zero exactly if it begins behind the last
-- level.
pub sparse_image_requirements-tail :
    (vk : Vulkan) (format type : ℕ) (extent : Extent) (mip_levels array_layers : ℕ)
    → (let r = sparse_image_requirements vk format type extent mip_levels array_layers in
        let first = r.image_mip_tail_first_lod in
        let small = λ (l : ℕ). is_small (level_extent extent l) r.image_granularity in
        (first ≤ mip_levels)
        × ((l : ℕ) → l < first → small l ≡ false)
        × (first < mip_levels → small first ≡ true)
        × ((r.image_mip_tail_size ≡ 0) ↔ (first ≡ mip_levels)))
unfolding sparse_image_requirements
sparse_image_requirements-tail vk format type extent mip_levels array_layers =
    let g = sparse_image_granularity vk format type in
    let metal = metal_sparse_image_granularity vk format type in
    let start : Tiling = record { first_lod = mip_levels; tiled = 0; tail = 0 } in
    let t = tile_levels g metal mip_levels extent mip_levels 0 start in
    let f =
      tile_levels-IsFirst g metal mip_levels extent mip_levels 0 start (omega arith)
        (start-IsFirst g metal mip_levels extent) in
    let tail = tile_levels-tail g metal mip_levels extent mip_levels 0 start (omega arith) in
    (
      bound g metal mip_levels extent t.first_lod f,
      λ l h. f.large l (omega (arith, bound g metal mip_levels extent t.first_lod f)) h,
      λ h. elim f.found [ inl p ↦ absurd (omega (arith, p.0)) | inr p ↦ p.2 ],
      tail_iff t.first_lod mip_levels (align_clamped (max t.tail 1) 65536)
          (bound g metal mip_levels extent t.first_lod f)
          (align_clamped-positive (max t.tail 1) (omega arith) (omega (arith, tail))),
    )
