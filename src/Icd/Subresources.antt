-- ===== src/Icd/Subresources.antt =====
-- The bytes of an image's subresources in guest/vulkan_icd/imb_vulkan_icd.cpp: where they lie, that
-- they do not overlap and that they fit in the image's allocation.
use isaac_metal_bridge.Base.{
  ℕ, zero, suc, ◌+◌, ◌*◌, ◌^◌, ◌≤◌, ◌<◌, max, ◌≡◌, ◌≢◌, ap, ◌∙◌, inl, inr, ◌⊎◌, true, ◌==◌, max64,
  bit_and, arith,
}
use native.Mathlib.Nat.{le-mul_of_pos_right, mul-le-mul_left, mul-suc}
use isaac_metal_bridge.Icd.Formats.{Vulkan, Extent, format_block_info}
use isaac_metal_bridge.Icd.Sizes.{
  clamped_multiply, clamped_add, align_clamped, blocks, mip_byte_size, level_extent, add_levels,
  image_layer_byte_size, image_subresource_byte_offset, image_allocation_size,
}
use isaac_metal_bridge.Icd.Saturation.{
  sat, clamped_add_lem, clamped_multiply_lem, sat-sat_add, sat-sat_mul, align_clamped_lem,
}

-- The size of a level with no bound on it.
unfoldable pub mip_bytes : Vulkan → ℕ → Extent → ℕ
mip_bytes vk format e =
    let b = format_block_info vk format in
    blocks e.width b.width * blocks e.height b.height * blocks e.depth b.depth * b.bytes

mip_byte_size_lem :
    (vk : Vulkan) (format : ℕ) (e : Extent)
    → mip_byte_size vk format e ≡ sat (mip_bytes vk format e)
unfolding mip_byte_size mip_bytes
mip_byte_size_lem vk format e =
    let b = format_block_info vk format in
    product (blocks e.width b.width) (blocks e.height b.height) (blocks e.depth b.depth) b.bytes
  where
    product :
        (x y z w : ℕ)
        → clamped_multiply (clamped_multiply (clamped_multiply x y) z) w ≡ sat (x * y * z * w)
    product x y z w =
        ap (λ (t : ℕ). clamped_multiply (clamped_multiply t z) w) (clamped_multiply_lem x y)
        ∙ ap (λ (t : ℕ). clamped_multiply t w)
            (clamped_multiply_lem (sat (x * y)) z ∙ sat-sat_mul (x * y) z)
        ∙ clamped_multiply_lem (sat (x * y * z)) w
        ∙ sat-sat_mul (x * y * z) w

-- Image data of one format and extent.
module _ (vk : Vulkan) (format : ℕ) (extent : Extent) where
  -- The bytes of `n` levels from `level`.
  unfoldable pub levels_bytes : ℕ → ℕ → ℕ
  levels_bytes zero level = 0
  levels_bytes (suc n) level =
      mip_bytes vk format (level_extent extent level) + levels_bytes n (level + 1)

  add_levels_lem :
      (n level bytes : ℕ)
      → add_levels vk format extent n level (sat bytes) ≡ sat (bytes + levels_bytes n level)
  unfolding add_levels levels_bytes
  add_levels_lem zero level bytes = omega arith
  add_levels_lem (suc n) level bytes =
      let size = mip_bytes vk format (level_extent extent level) in
      ap (λ (t : ℕ). add_levels vk format extent n (level + 1) t)
        (ap (λ (t : ℕ). clamped_add (sat bytes) t)
            (mip_byte_size_lem vk format (level_extent extent level))
          ∙ clamped_add_lem (sat bytes) (sat size) (sat-le bytes) (sat-le size)
          ∙ sat-sat_add bytes size)
      ∙ add_levels_lem n (level + 1) (bytes + size)
      ∙ ap sat (regroup bytes size (levels_bytes n (level + 1)))
    where
      sat-le : (n : ℕ) → sat n ≤ max64
      sat-le n = omega arith

      regroup : (a b c : ℕ) → a + b + c ≡ a + (b + c)
      regroup a b c = omega arith

  pub image_layer_byte_size_lem :
      (n : ℕ) → image_layer_byte_size vk format extent n ≡ sat (levels_bytes n 0)
  unfolding image_layer_byte_size
  image_layer_byte_size_lem n = add_levels_lem n 0 0 ∙ ap sat (left (levels_bytes n 0))
    where
      left : (n : ℕ) → 0 + n ≡ n
      left n = omega arith

  -- Where a subresource begins: after the layers before its own and the levels before its own.
  abbrev pub start_of : ℕ → ℕ → ℕ → ℕ
  start_of levels level layer = levels_bytes levels 0 * layer + levels_bytes level 0

  pub image_subresource_byte_offset_lem :
      (levels level layer : ℕ)
      → image_subresource_byte_offset vk format extent levels level layer
        ≡ sat (start_of levels level layer)
  unfolding image_subresource_byte_offset
  image_subresource_byte_offset_lem levels level layer =
      ap (λ (t : ℕ). add_levels vk format extent level 0 t)
        (ap (λ (t : ℕ). clamped_multiply t layer) (image_layer_byte_size_lem levels)
          ∙ clamped_multiply_lem (sat (levels_bytes levels 0)) layer
          ∙ sat-sat_mul (levels_bytes levels 0) layer)
      ∙ add_levels_lem level 0 (levels_bytes levels 0 * layer)

  -- A level ends before a later one begins.
  levels_bytes-le :
      (j n level : ℕ)
      → j < n
      → levels_bytes j level + mip_bytes vk format (level_extent extent (level + j))
        ≤ levels_bytes n level
  unfolding levels_bytes
  levels_bytes-le j zero level h = absurd (omega arith)
  levels_bytes-le zero (suc n) level h =
      omega (arith, ap (λ (t : ℕ). mip_bytes vk format (level_extent extent t)) (right level))
    where
      right : (l : ℕ) → l + 0 ≡ l
      right l = omega arith
  levels_bytes-le (suc j) (suc n) level h = omega (
    arith,
    levels_bytes-le j n (level + 1) (omega arith),
    ap (λ (t : ℕ). mip_bytes vk format (level_extent extent t)) (over level j),
  )
    where
      over : (l j : ℕ) → l + 1 + j ≡ l + suc j
      over l j = omega arith

  abbrev pub end_of : ℕ → ℕ → ℕ → ℕ
  end_of levels level layer =
      start_of levels level layer + mip_bytes vk format (level_extent extent level)

  end_of-le_layer :
      (levels level layer : ℕ)
      → level < levels
      → end_of levels level layer ≤ levels_bytes levels 0 * suc layer
  end_of-le_layer levels level layer h = omega (
    arith,
    levels_bytes-le level levels 0 h,
    mul-suc (levels_bytes levels 0) layer,
    ap (λ (t : ℕ). mip_bytes vk format (level_extent extent t)) (left level),
  )
    where
      left : (l : ℕ) → 0 + l ≡ l
      left l = omega arith

  end_of-le_start :
      (levels level layer level' layer' : ℕ)
      → level < levels
      → ((layer < layer') ⊎ ((layer ≡ layer') × (level < level')))
      → end_of levels level layer ≤ start_of levels level' layer'
  end_of-le_start levels level layer level' layer' h (inl before) = omega (
    arith,
    end_of-le_layer levels level layer h,
    mul-le-mul_left {m = suc layer} {n = layer'} (levels_bytes levels 0) (omega arith),
  )
  end_of-le_start levels level layer level' layer' h (inr (same, before)) = omega (
    arith,
    levels_bytes-le level level' 0 before,
    ap (λ (t : ℕ). mip_bytes vk format (level_extent extent t)) (left level),
    ap (λ (t : ℕ). levels_bytes levels 0 * t) same,
  )
    where
      left : (l : ℕ) → 0 + l ≡ l
      left l = omega arith

  -- The bytes of all subresources.
  abbrev pub all_bytes : ℕ → ℕ → ℕ → ℕ
  all_bytes levels layers samples = levels_bytes levels 0 * layers * samples

  total :
      (levels layers samples : ℕ)
      → clamped_multiply
          (clamped_multiply (image_layer_byte_size vk format extent levels) layers)
          samples
        ≡ sat (all_bytes levels layers samples)
  total levels layers samples =
      ap (λ (t : ℕ). clamped_multiply (clamped_multiply t layers) samples)
        (image_layer_byte_size_lem levels)
      ∙ ap (λ (t : ℕ). clamped_multiply t samples)
          (clamped_multiply_lem (sat (levels_bytes levels 0)) layers
            ∙ sat-sat_mul (levels_bytes levels 0) layers)
      ∙ clamped_multiply_lem (sat (levels_bytes levels 0 * layers)) samples
      ∙ sat-sat_mul (levels_bytes levels 0 * layers) samples

  dense_size :
      (type levels layers samples flags : ℕ)
      → (bit_and flags vk.image_create_sparse_residency_bit == 0) ≡ true
      → image_allocation_size vk format type extent levels layers samples flags
        ≡ align_clamped (max (sat (all_bytes levels layers samples)) 1) (2 ^ 8)
  unfolding image_allocation_size align_clamped
  dense_size type levels layers samples flags dense =
      rw dense (ap (λ (t : ℕ). align_clamped (max t 1) 256) (total levels layers samples))

  -- An allocation that was not cut holds all bytes.
  all_bytes-le :
      (type levels layers samples flags : ℕ)
      → (bit_and flags vk.image_create_sparse_residency_bit == 0) ≡ true
      → image_allocation_size vk format type extent levels layers samples flags ≢ max64
      → all_bytes levels layers samples
        ≤ image_allocation_size vk format type extent levels layers samples flags
  all_bytes-le type levels layers samples flags dense whole =
      let bytes = all_bytes levels layers samples in
      let size = dense_size type levels layers samples flags dense in
      elim (align_clamped_lem (max (sat bytes) 1) 8 (omega arith) (omega arith)) [
        | inl cut ↦ absurd (whole (size ∙ cut))
        | inr r ↦ holds bytes (align_clamped (max (sat bytes) 1) (2 ^ 8)) _ size r.0 r.3 whole
      ]
    where
      holds :
          (bytes a size : ℕ)
          → size ≡ a
          → max (sat bytes) 1 ≤ a
          → a ≤ max64
          → size ≢ max64
          → bytes ≤ size
      holds bytes a size e lo hi whole = omega (arith, whole)

  size-le :
      (type levels layers samples flags : ℕ)
      → (bit_and flags vk.image_create_sparse_residency_bit == 0) ≡ true
      → image_allocation_size vk format type extent levels layers samples flags ≤ max64
  size-le type levels layers samples flags dense =
      let bytes = all_bytes levels layers samples in
      elim (align_clamped_lem (max (sat bytes) 1) 8 (omega arith) (omega arith)) [
        | inl cut ↦ equal _ (dense_size type levels layers samples flags dense ∙ cut)
        | inr r ↦ under _ _ (dense_size type levels layers samples flags dense) r.3
      ]
    where
      equal : (a : ℕ) → a ≡ max64 → a ≤ max64
      equal a e = omega arith

      under : (a b : ℕ) → a ≡ b → b ≤ max64 → a ≤ max64
      under a b e h = omega arith

  all_bytes-bound :
      (levels layers samples layer : ℕ)
      → layer < layers
      → 1 ≤ samples
      → levels_bytes levels 0 * suc layer ≤ all_bytes levels layers samples
  all_bytes-bound levels layers samples layer h one =
      let l = levels_bytes levels 0 in
      omega (
        arith,
        mul-le-mul_left {m = suc layer} {n = layers} l (omega arith),
        le-mul_of_pos_right {m = samples} (l * layers) (omega arith),
      )

  -- For an image without sparse residency, at least one sample and an allocation size that was not
  -- cut at UINT64_MAX, every subresource, at its offset and with the size of its level, lies
  -- inside the allocation.
  pub image_subresource-fits :
      (type levels layers samples flags level layer : ℕ)
      → (bit_and flags vk.image_create_sparse_residency_bit == 0) ≡ true
      → image_allocation_size vk format type extent levels layers samples flags ≢ max64
      → 1 ≤ samples
      → level < levels
      → layer < layers
      → image_subresource_byte_offset vk format extent levels level layer
          + mip_byte_size vk format (level_extent extent level)
        ≤ image_allocation_size vk format type extent levels layers samples flags
  image_subresource-fits type levels layers samples flags level layer dense whole one h k =
      let size = mip_bytes vk format (level_extent extent level) in
      below (start_of levels level layer) size _ _ _
        (image_subresource_byte_offset_lem levels level layer)
        (mip_byte_size_lem vk format (level_extent extent level))
        (omega (
          arith,
          end_of-le_layer levels level layer h,
          all_bytes-bound levels layers samples layer k one,
          all_bytes-le type levels layers samples flags dense whole,
        ))
    where
      below :
          (a b offset size top : ℕ)
          → offset ≡ sat a
          → size ≡ sat b
          → a + b ≤ top
          → offset + size ≤ top
      below a b offset size top e f h = omega arith

  -- For an image without sparse residency, at least one sample and an allocation size that was not
  -- cut at UINT64_MAX, a subresource of an earlier layer, or of the same layer and an earlier
  -- level, ends before a later one begins.
  pub image_subresource-disjoint :
      (type levels layers samples flags level layer level' layer' : ℕ)
      → (bit_and flags vk.image_create_sparse_residency_bit == 0) ≡ true
      → image_allocation_size vk format type extent levels layers samples flags ≢ max64
      → 1 ≤ samples
      → level < levels
      → level' < levels
      → layer' < layers
      → ((layer < layer') ⊎ ((layer ≡ layer') × (level < level')))
      → image_subresource_byte_offset vk format extent levels level layer
          + mip_byte_size vk format (level_extent extent level)
        ≤ image_subresource_byte_offset vk format extent levels level' layer'
  image_subresource-disjoint type levels layers samples flags level layer level' layer' dense whole
        one h h' k before =
      let start = end_of-le_layer levels level' layer' h' in
      let bound = all_bytes-bound levels layers samples layer' k one in
      let top = all_bytes-le type levels layers samples flags dense whole in
      apart (start_of levels level layer) (mip_bytes vk format (level_extent extent level))
        (start_of levels level' layer') _ _ _ (image_subresource_byte_offset_lem levels level layer)
        (mip_byte_size_lem vk format (level_extent extent level))
        (image_subresource_byte_offset_lem levels level' layer')
        (end_of-le_start levels level layer level' layer' h before)
        (omega (arith, start, bound, top, size-le type levels layers samples flags dense))
    where
      apart :
          (a b c offset size next : ℕ)
          → offset ≡ sat a
          → size ≡ sat b
          → next ≡ sat c
          → a + b ≤ c
          → c ≤ max64
          → offset + size ≤ next
      apart a b c offset size next e f g h k = omega arith
