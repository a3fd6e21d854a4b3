-- ===== src/Icd/Views/Ranges.antt =====
-- The ranges of the buffer views of guest/vulkan_icd/imb_vulkan_icd.cpp.
use native.Mathlib.Nat.{mod-lt}
use isaac_metal_bridge.Base.{
  ℕ, ◌+◌, ◌-◌, ◌/◌, ◌%◌, ◌^◌, ◌≤◌, ◌<◌, ◌≡◌, refl, inl, inr, Bool-cases, Option-cases, Bool, true,
  false, ◌&&◌, ◌||◌, not, Option, none, some, leb, ◌==◌, arith,
}
use isaac_metal_bridge.Cuda.Registry.{is_member, object, IsSound}
use isaac_metal_bridge.Icd.Formats.{Vulkan, FormatBlockInfo, format_block_info}
use isaac_metal_bridge.Icd.Result.{
  success, format_not_supported, initialization_failed, out_of_host_memory, Answer, reject,
}
use isaac_metal_bridge.Icd.Driver.{Driver, BufferState, BufferViewState, valid_device}
use isaac_metal_bridge.Icd.Memory.Good.{object-store_self}
use isaac_metal_bridge.Icd.Views.{
  TexelFormats, BufferViewInfo, texel_buffer_format_supported, texel_fits, requested_range,
  usable_range, range_fits, new_view, add_view, create_buffer_view,
}

-- A view of whole texels, at most 2 ^ 27, inside its buffer, that leaves out less than a texel of
-- what was asked for.
pub record IsView (vk : Vulkan) (info : BufferViewInfo) (view : BufferViewState) (b : BufferState)
    : Type 0 where
  pub same_buffer : view.buffer ≡ info.buffer
  pub filled : 0 < view.range
  pub inside : view.offset + view.range ≤ b.size
  pub aligned : view.offset % (format_block_info vk info.format).bytes ≡ 0
  pub whole : view.range % (format_block_info vk info.format).bytes ≡ 0
  pub few : view.range / (format_block_info vk info.format).bytes ≤ 2 ^ 27
  pub tight :
      requested_range info (b.size - info.offset)
      < view.range + (format_block_info vk info.format).bytes

-- The tests on a range, as inequalities.
record Fits (requested remaining bytes : ℕ) : Type 0 where
  filled : 0 < usable_range requested bytes
  inside : usable_range requested bytes ≤ remaining
  whole : usable_range requested bytes % bytes ≡ 0
  few : usable_range requested bytes / bytes ≤ 2 ^ 27
  tight : 0 < bytes → requested < usable_range requested bytes + bytes

range_fits_lem :
    (requested remaining bytes : ℕ)
    → range_fits requested remaining bytes ≡ true
    → Fits requested remaining bytes
range_fits_lem requested remaining bytes h = record {
  filled = ground arith;
  inside = ground arith;
  whole = ground arith;
  few = ground arith;
  tight = λ p. omega (arith, mod-lt requested p);
}

both : (a b : Bool) → (a && b) ≡ true → (a ≡ true) × (b ≡ true)
both true b h = (refl, h)
both false b h = absurd (cc h)

block-aligned :
    (block : FormatBlockInfo) (offset : ℕ)
    → (block.width == 1
        && (block.height == 1
            && (block.depth == 1 && (not (block.bytes == 0) && offset % block.bytes == 0))))
      ≡ true
    → (0 < block.bytes) × (offset % block.bytes ≡ 0)
block-aligned block offset e = (ground arith, ground arith)

texel_fits-aligned :
    (texels : TexelFormats) (vk : Vulkan) (info : BufferViewInfo)
    → texel_fits texels vk info ≡ true
    → (0 < (format_block_info vk info.format).bytes)
      × (info.offset % (format_block_info vk info.format).bytes ≡ 0)
unfolding texel_fits
texel_fits-aligned texels vk info h =
    block-aligned (format_block_info vk info.format) info.offset
      (both (texel_buffer_format_supported texels info.format) _ h).1

add_view-IsView :
    (texels : TexelFormats) (vk : Vulkan) (device : ℕ) (info : BufferViewInfo) (b : BufferState)
    (allocation : Option ℕ) (d : Driver)
    → info.offset < b.size
    → (add_view texels vk device info b allocation d).result ≡ success
    → (p : ℕ) × (view : BufferViewState) × ((add_view texels vk device info b allocation d).out
        ≡ some p)
      × (object p (add_view texels vk device info b allocation d).state.buffer_views ≡ some view)
      × IsView vk info view b
unfolding add_view
add_view-IsView texels vk device info b allocation d inside ok =
    elim (Bool-cases (texel_fits texels vk info)) [
      | inr unfit ↦ absurd (no_view unfit)
      | inl fit ↦ elim (Bool-cases (range_fits requested remaining bytes)) [
        | inr long ↦ absurd (no_range fit long)
        | inl fits ↦ elim (Option-cases allocation) [
          | inl full ↦ absurd (no_memory fit fits full)
          | inr (p, made) ↦
              let r = range_fits_lem requested remaining bytes fits in
              let t = texel_fits-aligned texels vk info fit in
              let view = new_view device info (usable_range requested bytes) in
              (
                p,
                view,
                rw (add_view, fit, fits, made) refl,
                rw (add_view, fit, fits, made) (object-store_self p view d.buffer_views),
                record {
                  same_buffer = refl;
                  filled = r.filled;
                  inside = omega (arith, r.inside, inside);
                  aligned = t.1;
                  whole = r.whole;
                  few = r.few;
                  tight = r.tight t.0;
                },
              )
        ]
      ]
    ]
  where
    bytes : ℕ
    bytes = (format_block_info vk info.format).bytes

    remaining : ℕ
    remaining = b.size - info.offset

    requested : ℕ
    requested = requested_range info remaining

    no_view : texel_fits texels vk info ≡ false → ⊥
    no_view unfit =
        let rejected : (add_view texels vk device info b allocation d).result
            ≡ format_not_supported =
          rw (add_view, unfit) refl in
        cc (rejected, ok)

    no_range : texel_fits texels vk info ≡ true → range_fits requested remaining bytes ≡ false → ⊥
    no_range fit long =
        let rejected : (add_view texels vk device info b allocation d).result
            ≡ format_not_supported =
          rw (add_view, fit, long) refl in
        cc (rejected, ok)

    no_memory :
        texel_fits texels vk info ≡ true
        → range_fits requested remaining bytes ≡ true
        → allocation ≡ none
        → ⊥
    no_memory fit fits full =
        let rejected : (add_view texels vk device info b allocation d).result ≡ out_of_host_memory =
          rw (add_view, fit, fits, full) refl in
        cc (rejected, ok)

-- Where the handles of buffers are the live ones, vkCreateBufferView returns without an access to
-- a dead object, and if it succeeds the view handed out is of the buffer asked for, not empty and
-- inside it, its offset and its range are multiples of the size of a texel, it has at most 2 ^ 27
-- texels, and it leaves out less than a texel of the range asked for.
pub create_buffer_view-IsView :
    (texels : TexelFormats) (vk : Vulkan) (undefined : ℕ) (given : Bool) (device : ℕ)
    (info : BufferViewInfo) (allocation : Option ℕ) (d : Driver)
    → IsSound d.buffers
    → (a : Answer Driver ℕ) × (create_buffer_view texels vk undefined given device info allocation d
        ≡ some a)
      × (a.result ≡ success
          → (b : BufferState) × (p : ℕ) × (view : BufferViewState) × (object info.buffer d.buffers
              ≡ some b)
            × (a.out ≡ some p)
            × (object p a.state.buffer_views ≡ some view)
            × IsView vk info view b)
unfolding create_buffer_view
create_buffer_view-IsView texels vk undefined given device info allocation d v =
    elim (Bool-cases (not given || (info.buffer == 0 || info.format == undefined))) [
      | inl missing ↦ (refused, rw missing refl, λ z. absurd (cc z))
      | inr all ↦
          elim (Bool-cases (not (valid_device device d) || not (is_member info.buffer d.buffers))) [
            | inl invalid ↦ (refused, rw (all, invalid) refl, λ z. absurd (cc z))
            | inr valid ↦ elim (Option-cases (object info.buffer d.buffers)) [
              | inl dead ↦ absurd (ground (arith, v info.buffer))
              | inr (b, live) ↦
                  elim (Bool-cases (not (b.device == device) || leb b.size info.offset)) [
                    | inl other ↦ (refused, rw (all, valid, live, other) refl, λ z. absurd (cc z))
                    | inr own ↦ (
                      add_view texels vk device info b allocation d,
                      rw (all, valid, live, own) refl,
                      λ z.
                          let r =
                            add_view-IsView texels vk device info b allocation d (below b own) z in
                          (b, r.0, r.1, live, r.2, r.3, r.4),
                    )
                  ]
            ]
          ]
    ]
  where
    refused : Answer Driver ℕ
    refused = reject d initialization_failed

    below :
        (b : BufferState)
        → (not (b.device == device) || leb b.size info.offset) ≡ false
        → info.offset < b.size
    below b own = ground arith
