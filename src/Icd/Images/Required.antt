-- ===== src/Icd/Images/Required.antt =====
-- The memory that an image of guest/vulkan_icd/imb_vulkan_icd.cpp requires is what its create info
-- requires.
use isaac_metal_bridge.Base.{
  ℕ, ◌≡◌, ◌≢◌, refl, Bool, true, false, not, ◌||◌, Option, none, some, ◌==◌, max64, arith,
  if◌then◌else◌, contains-insert, lookup-put, subst, ap, sym, ◌∙◌,
}
use isaac_metal_bridge.Cuda.Registry.{is_member, object, new_object, enrol}
use isaac_metal_bridge.Icd.Result.{initialization_failed, out_of_device_memory, Answer, reject}
use isaac_metal_bridge.Icd.Driver.{Driver, valid_device}
use isaac_metal_bridge.Icd.Binds.{has_zero}
use isaac_metal_bridge.Icd.Images.{
  ImageHost, ImageInfo, Tiles, tiles_for, size_for, fresh_image, add_image, create_image,
  get_image_memory_requirements, get_device_image_memory_requirements,
}

-- An image that was added is there.
data Added (h : ImageHost) (device : ℕ) (info : ImageInfo) (p : ℕ) (d d' : Driver) : Type 0 where
  added :
      (t : Tiles)
      → d' ≡ record d { images = enrol p (new_object p (fresh_image h device info t) d.images) }
      → Added h device info p d d'

add_image-Added :
    (h : ImageHost) (device : ℕ) (info : ImageInfo) (allocation : Option ℕ) (grows : Bool)
    (d : Driver) (o : Option Tiles) (p : ℕ)
    → (add_image h device info allocation grows d o).out ≡ some p
    → Added h device info p d (add_image h device info allocation grows d o).state
add_image-Added h device info allocation grows d none p e = absurd (ground arith)
add_image-Added h device info none grows d (some t) p e = absurd (ground arith)
add_image-Added h device info (some q) false d (some t) p e = absurd (ground arith)
add_image-Added h device info (some q) true d (some t) p e =
    let same : q ≡ p = ground arith in
    added t (
      ap (λ r. record d { images = enrol r (new_object r (fresh_image h device info t) d.images) })
        same)

-- The tests that come first are passed.
reached :
    (c e f : Bool) (r s t a : Answer Driver ℕ) (p : ℕ)
    → r.out ≡ none
    → s.out ≡ none
    → t.out ≡ none
    → (if c then r else if e then s else if f then t else a).out ≡ some p
    → (c ≡ false) × (e ≡ false) × (f ≡ false)
reached true e f r s t a p i j k h = absurd (ground arith)
reached false true f r s t a p i j k h = absurd (ground arith)
reached false false true r s t a p i j k h = absurd (ground arith)
reached false false false r s t a p i j k h = (refl, refl, refl)

module _ (h : ImageHost) (device : ℕ) (info : ImageInfo) (allocation : Option ℕ) (grows : Bool)
    (d : Driver) (p : ℕ) where
  -- The requirements of an image that was added.
  stored :
      (t : Tiles)
      → p ≢ 0
      → (size_for h info == max64) ≡ false
      → valid_device device d ≡ true
      → (d' : Driver)
      → d' ≡ record d { images = enrol p (new_object p (fresh_image h device info t) d.images) }
      → get_image_memory_requirements h.sparse.vk true p d'
        ≡ some (get_device_image_memory_requirements h true device info d')
  unfolding get_image_memory_requirements get_device_image_memory_requirements
  stored t live small valid d' e =
      let i = fresh_image h device info t in
      let images = enrol p (new_object p i d.images) in
      let listed : (p == 0 || not (is_member p images)) ≡ false =
        ground (arith, contains-insert p p d.images.members) in
      let there : object p images ≡ some i = ground (arith, lookup-put p p i d.images.live) in
      subst
        (λ (s : Driver).
          get_image_memory_requirements h.sparse.vk true p s
          ≡ some (get_device_image_memory_requirements h true device info s))
        (sym e)
        (rw
          (
            listed, there, small, valid, get_image_memory_requirements,
            get_device_image_memory_requirements,
          )
          refl)

  -- If vkCreateImage hands out an image that is not null, then vkGetImageMemoryRequirements of the
  -- image stores what vkGetDeviceImageMemoryRequirements stores for its create info.
  pub create_image-requirements :
      p ≢ 0
      → (create_image h true device info allocation grows d).out ≡ some p
      → get_image_memory_requirements h.sparse.vk true p
          (create_image h true device info allocation grows d).state
        ≡ some (
            get_device_image_memory_requirements h true device info
              (create_image h true device info allocation grows d).state)
  unfolding create_image
  create_image-requirements live e =
      let (e1, e2, e3) =
        reached (has_zero info.extent || (info.array_layers == 0 || info.mip_levels == 0))
          (size_for h info == max64) (not (valid_device device d)) (reject d initialization_failed)
          (reject d out_of_device_memory) (reject d initialization_failed)
          (add_image h device info allocation grows d (tiles_for h info)) p refl refl refl e in
      let made = add_image h device info allocation grows d (tiles_for h info) in
      let whole : create_image h true device info allocation grows d ≡ made =
        rw (e1, e2, e3) refl in
      let there : made.out ≡ some p = ap (λ a. a.out) (sym whole) ∙ e in
      elim (add_image-Added h device info allocation grows d (tiles_for h info) p there) [
        | added t state ↦
            stored t live e2 (ground arith)
              (create_image h true device info allocation grows d).state
              (ap (λ a. a.state) whole ∙ state)
      ]
