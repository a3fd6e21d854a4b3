-- ===== src/Icd/Binds/Stored.antt =====
-- Storing an image in vkQueueBindSparse of guest/vulkan_icd/imb_vulkan_icd.cpp.
use isaac_metal_bridge.Base.{
  subst, ℕ, ◌≡◌, refl, sym, ap, inl, inr, Bool-cases, false, some, List, ◌==◌, lookup-put, arith,
}
use isaac_metal_bridge.Cuda.Registry.{Registry, object, store_object, IsSound, store_object-IsSound}
use isaac_metal_bridge.Icd.Formats.{Extent}
use isaac_metal_bridge.Icd.Driver.{Driver, ImageState, TileMapping}
use isaac_metal_bridge.Icd.Binds.{has_zero}
use isaac_metal_bridge.Icd.Binds.Images.{store_image}
use isaac_metal_bridge.Icd.Binds.Outcome.{
  IsReady, IsSolid, IsTiled, Keeps, Stays, Stays-refl, stored-Stays,
}

-- Images and mappings are changed.
pub images-Keeps :
    (d : Driver) (images : Registry ImageState) (mappings : List TileMapping)
    → IsReady d
    → Stays (λ i. i.sparse_tile_bytes) d.images images
    → IsSound images
    → IsSolid images
    → Keeps d (record d { images = images; mappings = mappings })
images-Keeps d images mappings r tiles sound solid = record {
  ready = record {
    good = record {
      memories = r.good.memories;
      buffers = r.good.buffers;
      fit = r.good.fit;
      bound = r.good.bound;
    };
    images = sound;
    semaphores = r.semaphores;
    fences = r.fences;
    solid = solid;
  };
  memories = refl;
  semaphores = refl;
  fences = refl;
  sizes = Stays-refl (λ b. b.size) d.buffers;
  tiles = tiles;
}

pub stored-IsSolid :
    (p : ℕ) (i : ImageState) (r : Registry ImageState)
    → IsTiled i
    → IsSolid r
    → IsSolid (store_object p i r)
stored-IsSolid p i r fine solid q j h = elim (Bool-cases (p == q)) [
  | inl same ↦
      let e : i ≡ j = ground (arith, lookup-put p q i r.live) in
      subst (λ (x : ImageState). IsTiled x) e fine
  | inr other ↦ solid q j (ground (arith, lookup-put p q i r.live))
]

-- What stays of an image that is stored.
abbrev pub tiling_of : ImageState → ℕ × Extent × Extent
tiling_of i = (i.sparse_tile_bytes, i.sparse_granularity, i.metal_sparse_granularity)

abbrev IsTiling : ℕ × Extent × Extent → Type 0
IsTiling t = (t.0 == 0) ≡ false → (has_zero t.1 ≡ false) × (has_zero t.2 ≡ false)

-- An image that keeps its tiles is stored.
pub store_image-Keeps :
    (p : ℕ) (i j : ImageState) (d : Driver)
    → IsReady d
    → object p d.images ≡ some i
    → tiling_of j ≡ tiling_of i
    → Keeps d (store_image p j d)
store_image-Keeps p i j d r h e =
    images-Keeps d (store_object p j d.images) d.mappings r
      (stored-Stays (λ i. i.sparse_tile_bytes) p i j d.images h (ap (λ t. t.0) e))
      (store_object-IsSound d.images p j (ground arith) r.images)
      (stored-IsSolid p j d.images (subst IsTiling (sym e) (r.solid p i h)) r.solid)
