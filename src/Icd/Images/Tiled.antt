-- ===== src/Icd/Images/Tiled.antt =====
-- Creating and destroying images of guest/vulkan_icd/imb_vulkan_icd.cpp keeps the handles sound and
-- the tiles of sparse images not empty.
use isaac_metal_bridge.Base.{
  ℕ, ◌≡◌, refl, subst, inl, inr, Bool-cases, Option-cases, Bool, true, false, not, ◌&&◌, ◌||◌,
  Option, none, some, List, ◌∷◌, ◌==◌, max64, arith, lookup-erase, bit_and, if◌then◌else◌,
}
use isaac_metal_bridge.Cuda.Registry.{
  Registry, is_member, object, new_object, enrol, withdraw, delete_object, IsSound, enrol-IsSound,
  delete_object-IsSound, delete_object-ne_none,
}
use isaac_metal_bridge.Icd.Formats.{Extent, sparse_image_granularity}
use isaac_metal_bridge.Icd.Driver.{Driver, ImageState, valid_device}
use isaac_metal_bridge.Icd.Memory.Good.{held}
use isaac_metal_bridge.Icd.Binds.{has_zero}
use isaac_metal_bridge.Icd.Binds.Outcome.{IsReady, IsTiled, IsSolid}
use isaac_metal_bridge.Icd.Binds.Stored.{stored-IsSolid}
use isaac_metal_bridge.Icd.Binds.Quiet.{member-Live}
use isaac_metal_bridge.Icd.Images.{
  ImageHost, ImageInfo, TileProperties, Tiles, matches, matched, has_residency,
  query_metal_sparse_image_properties, tiles_for, size_for, fresh_image, add_image, create_image,
  destroy_image, no_tiles,
}
use isaac_metal_bridge.Icd.Images.Blocks.{sparse_image_granularity-sides}

abbrev AreTiled : Tiles → Type 0
AreTiled t =
    (t.bytes == 0) ≡ false
    → (has_zero t.granularity ≡ false) × (has_zero t.metal_granularity ≡ false)

-- Tiles that are half as large as others that are not empty are not empty.
matched-AreTiled :
    (expected : Extent) (m : Option TileProperties) (t : Tiles)
    → has_zero expected ≡ false
    → matched expected m ≡ some t
    → AreTiled t
matched-AreTiled expected none t h e = absurd (ground arith)
matched-AreTiled expected (some m) t h e = elim (Bool-cases (matches expected m)) [
  | inr bad ↦ absurd (ground arith)
  | inl good ↦
      let found : record { bytes = 65536; granularity = expected; metal_granularity = m.tile } ≡ t =
        ground arith in
      subst AreTiled found (λ x. (h, ground arith))
]

chosen :
    (plain refused : Bool) (m : Option Tiles) (t : Tiles)
    → (if plain then some no_tiles else if refused then none else m) ≡ some t
    → (m ≡ some t → AreTiled t)
    → AreTiled t
chosen true refused m t e k =
    let same : no_tiles ≡ t = ground arith in subst AreTiled same (λ x. absurd (ground arith))
chosen false true m t e k = absurd (ground arith)
chosen false false m t e k = k e

tiles_for-AreTiled :
    (h : ImageHost) (info : ImageInfo) (t : Tiles) → tiles_for h info ≡ some t → AreTiled t
unfolding tiles_for
tiles_for-AreTiled h info t e =
    chosen (not (has_residency h info.flags))
      (bit_and info.flags h.sparse.vk.image_create_sparse_binding == 0
        || (not (info.type == h.sparse.vk.image_type_2d)
            || not (info.samples == h.sparse.vk.sample_count_1)))
      (matched (sparse_image_granularity h.sparse.layout info.format info.type)
        (query_metal_sparse_image_properties h info.format))
      t e
      (matched-AreTiled (sparse_image_granularity h.sparse.layout info.format info.type)
        (query_metal_sparse_image_properties h info.format) t
        (sparse_image_granularity-sides h.sparse.layout info.format info.type))

-- Images are replaced by others that are sound and solid.
images-IsReady :
    (d : Driver) (images : Registry ImageState) (destroyed : List ℕ)
    → IsReady d
    → IsSound images
    → IsSolid images
    → IsReady (record d { images = images; destroyed = destroyed })
images-IsReady d images destroyed r sound solid = record {
  good = record {
    memories = r.good.memories;
    buffers = r.good.buffers;
    fit = r.good.fit;
    bound = r.good.bound;
  };
  images = sound;
  semaphores = r.semaphores;
  fences = r.fences;
  solid = solid;
}

new-IsSolid :
    (p : ℕ) (i : ImageState) (r : Registry ImageState)
    → IsTiled i
    → IsSolid r
    → IsSolid (enrol p (new_object p i r))
new-IsSolid p i r = stored-IsSolid p i r

add_image-IsReady :
    (h : ImageHost) (device : ℕ) (info : ImageInfo) (allocation : Option ℕ) (grows : Bool)
    (d : Driver) (o : Option Tiles)
    → ((t : Tiles) → o ≡ some t → AreTiled t)
    → IsReady d
    → IsReady (add_image h device info allocation grows d o).state
add_image-IsReady h device info allocation grows d none k r = r
add_image-IsReady h device info none grows d (some t) k r = r
add_image-IsReady h device info (some p) false d (some t) k r = r
add_image-IsReady h device info (some p) true d (some t) k r =
    let i = fresh_image h device info t in
    images-IsReady d (enrol p (new_object p i d.images)) d.destroyed r
      (enrol-IsSound d.images p i r.images) (new-IsSolid p i d.images (k t refl) r.solid)

pub create_image-IsReady :
    (h : ImageHost) (given : Bool) (device : ℕ) (info : ImageInfo) (allocation : Option ℕ)
    (grows : Bool) (d : Driver)
    → IsReady d
    → IsReady (create_image h given device info allocation grows d).state
unfolding create_image
create_image-IsReady h given device info allocation grows d r =
    elim (Bool-cases
      (not given || (has_zero info.extent || (info.array_layers == 0 || info.mip_levels == 0)))) [
        | inl e1 ↦ rw e1 r
        | inr e1 ↦ elim (Bool-cases (size_for h info == max64)) [
          | inl e2 ↦ rw (e1, e2) r
          | inr e2 ↦ elim (Bool-cases (valid_device device d)) [
            | inr e3 ↦ rw (e1, e2, e3) r
            | inl e3 ↦
                rw (e1, e2, e3)
                  (add_image-IsReady h device info allocation grows d (tiles_for h info)
                    (tiles_for-AreTiled h info) r)
          ]
        ]
      ]

pub destroy_image-IsReady :
    (bridge : Bool) (p : ℕ) (d : Driver)
    → IsReady d
    → (d' : Driver) × (destroy_image bridge p d ≡ some d') × IsReady d'
unfolding destroy_image
destroy_image-IsReady bridge p d r = elim (Bool-cases (p == 0 || not (is_member p d.images))) [
  | inl out ↦ (d, rw out refl, r)
  | inr valid ↦ elim (member-Live p d.images r.images (ground arith)) [
    | held i live ↦ elim (Option-cases (delete_object p (withdraw p d.images))) [
      | inl stuck ↦ absurd (delete_object-ne_none d.images p (ground arith) r.images stuck)
      | inr (images, e) ↦ (
        record d {
          images = images;
          destroyed =
              if bridge && not (i.resource_id == 0)
              then i.resource_id ∷ d.destroyed
              else d.destroyed;
        },
        rw (valid, live, e, destroy_image) refl,
        images-IsReady d images _ r (delete_object-IsSound d.images p images e r.images)
            (λ q j k. r.solid q j (left images e q j k)),
      )
    ]
  ]
]
  where
    left :
        (images : Registry ImageState)
        → delete_object p (withdraw p d.images) ≡ some images
        → (q : ℕ) (j : ImageState) → object q images ≡ some j
        → object q d.images ≡ some j
    left images e q j k = unfold delete_object in ground (arith, lookup-erase p q d.images.live)
