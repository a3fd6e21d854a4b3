-- ===== src/Icd/Binds/Quiet.antt =====
-- Binding images in vkQueueBindSparse of guest/vulkan_icd/imb_vulkan_icd.cpp, and its semaphores,
-- touch no buffer.
use isaac_metal_bridge.Base.{
  subst, sym, ℕ, ◌≡◌, refl, ◌∙◌, inl, inr, Bool-cases, Option-cases, Bool, true, false, not, ◌||◌,
  Option, some, List, [], ◌∷◌, ◌==◌, arith, length,
}
use isaac_metal_bridge.Cuda.Registry.{Registry, is_member, object, IsSound}
use isaac_metal_bridge.Icd.Result.{
  VkResult, initialization_failed, success, out_of_host_memory, out_of_device_memory, device_lost,
  format_not_supported,
}
use isaac_metal_bridge.Icd.Driver.{Driver, ImageState, TileMapping, Step, and_then}
use isaac_metal_bridge.Icd.Memory.Good.{Live, held}
use isaac_metal_bridge.Icd.Binds.{check_all}
use isaac_metal_bridge.Icd.Binds.Images.{
  SparseHost, Exchange, accepted, out_of_memory, refused, store_image, each_step, unsupported,
  back_image, bridge_image_format, ensure_sparse_image_backing, update_sparse_image_mapping,
}
use isaac_metal_bridge.Icd.Binds.Outcome.{
  IsReady, Stays-refl, Keeps, Keeps-refl, folded, Does, Does-quiet, and_then-Does, each_step-Does,
}
use isaac_metal_bridge.Icd.Binds.Stored.{images-Keeps, store_image-Keeps}

pub member-Live :
    {A : Type 0} (p : ℕ) (r : Registry A) → IsSound r → is_member p r ≡ true → Live (object p r)
member-Live p r sound h = elim (Option-cases (object p r)) [
  | inl dead ↦ absurd (ground (arith, sound p))
  | inr (a, live) ↦ held a live
]

module _ (q o : ℕ) where
  abbrev pub Quiet : Driver → Step → Type 0
  Quiet d s = Does q o (λ v. v) d s

  pub step-Quiet :
      (r : VkResult) (d d' : Driver) (s : Step)
      → s ≡ some (r, d')
      → (r ≡ initialization_failed → ⊥)
      → Keeps d d'
      → d'.buffers ≡ d.buffers
      → Quiet d s
  step-Quiet r d d' s e h k b = subst (λ t. Quiet d t) (sym e) (Does-quiet q o r d d' h k b)

  folded-none : {A : Type 0} (xs : List A) (v : Option (ℕ × ℕ)) → folded (λ x v. v) xs v ≡ v
  unfolding folded
  folded-none [] v = refl
  folded-none (x ∷ xs) v = folded-none xs v

  pub each_step-Quiet :
      {A : Type 0} (check : A → Option Bool) (step : A → Driver → Step) (start : Driver)
      → ((x : A) → check x ≡ some true → (d : Driver) → Keeps start d → Quiet d (step x d))
      → (xs : List A) → check_all check xs ≡ some true
      → (d : Driver) → Keeps start d
      → Quiet d (each_step step xs d)
  each_step-Quiet check step start each xs h d k =
      let a = each_step-Does q o check step (λ x v. v) start each xs h d k in
      record {
        result = a.result;
        state = a.state;
        returns = a.returns;
        keeps = a.keeps;
        view = λ e. a.view e ∙ folded-none xs _;
        checked = a.checked;
      }

  pub and_then-Quiet :
      (d : Driver) (s : Step) (k : Driver → Step)
      → Quiet d s
      → ((d' : Driver) → Keeps d d' → Quiet d' (k d'))
      → Quiet d (and_then s k)
  and_then-Quiet d s k a b = and_then-Does q o (λ v. v) (λ v. v) d s k a b

  back_image-Quiet :
      (h : SparseHost) (p : ℕ) (i : ImageState) (d : Driver)
      → IsReady d
      → object p d.images ≡ some i
      → Quiet d (back_image h p i d)
  unfolding back_image
  back_image-Quiet h p i d r live =
      elim (Bool-cases (unsupported h i || bridge_image_format h.formats i.format == 0)) [
        | inl out ↦
            step-Quiet format_not_supported d d _ (rw out refl) (λ e. ground arith) (Keeps-refl d r)
              refl
        | inr fine ↦ elim (Bool-cases (i.resource_id == 0)) [
          | inr made ↦
              step-Quiet success d d _ (rw (fine, made) refl) (λ e. ground arith) (Keeps-refl d r)
                refl
          | inl fresh ↦ elim (Option-cases (h.creates p)) [
            | inl thrown ↦
                step-Quiet out_of_device_memory d d _ (rw (fine, fresh, thrown) refl)
                  (λ e. ground arith) (Keeps-refl d r) refl
            | inr (id, e) ↦
                step-Quiet success d (store_image p (record i { resource_id = id }) d) _
                  (rw (fine, fresh, e) refl) (λ e. ground arith)
                  (store_image-Keeps p i (record i { resource_id = id }) d r live refl) refl
          ]
        ]
      ]

  pub ensure_sparse_image_backing-Quiet :
      (h : SparseHost) (p : ℕ) (d : Driver)
      → IsReady d
      → Quiet d (ensure_sparse_image_backing h p d)
  unfolding ensure_sparse_image_backing
  ensure_sparse_image_backing-Quiet h p d r =
      elim (Bool-cases (p == 0 || not (is_member p d.images))) [
        | inl out ↦
            step-Quiet format_not_supported d d _ (rw out refl) (λ e. ground arith) (Keeps-refl d r)
              refl
        | inr valid ↦ elim (member-Live p d.images r.images (ground arith)) [
          | held i live ↦
              subst (λ s. Quiet d s) (sym (backs i valid live)) (back_image-Quiet h p i d r live)
        ]
      ]
    where
      backs :
          (i : ImageState)
          → (p == 0 || not (is_member p d.images)) ≡ false
          → object p d.images ≡ some i
          → ensure_sparse_image_backing h p d ≡ back_image h p i d
      backs i valid live = rw (valid, live, ensure_sparse_image_backing) refl

  pub update_sparse_image_mapping-Quiet :
      (h : SparseHost) (m : TileMapping) (d : Driver)
      → IsReady d
      → Quiet d (update_sparse_image_mapping h m d)
  unfolding update_sparse_image_mapping
  update_sparse_image_mapping-Quiet h m d r = by_exchange (h.exchange (length d.mappings))
    where
      by_exchange :
          (x : Exchange)
          → Quiet d (elim x [
            | accepted ↦ some (success, record d { mappings = m ∷ d.mappings })
            | out_of_memory ↦ some (out_of_host_memory, d)
            | refused ↦ some (device_lost, d)
          ])
      by_exchange accepted =
          Does-quiet q o success d _ (λ e. ground arith)
            (images-Keeps d d.images (m ∷ d.mappings) r
              (Stays-refl (λ i. i.sparse_tile_bytes) d.images) r.images r.solid)
            refl
      by_exchange out_of_memory =
          Does-quiet q o out_of_host_memory d d (λ e. ground arith) (Keeps-refl d r) refl
      by_exchange refused = Does-quiet q o device_lost d d (λ e. ground arith) (Keeps-refl d r) refl
