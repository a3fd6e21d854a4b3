-- ===== src/Icd/Binds/Mapped.antt =====
-- The binds of images in vkQueueBindSparse of guest/vulkan_icd/imb_vulkan_icd.cpp touch no buffer.
use isaac_metal_bridge.Base.{
  ℕ, zero, suc, ◌+◌, ◌-◌, ◌≡◌, refl, inl, inr, Bool-cases, Bool, true, false, not, ◌&&◌, ◌||◌, some,
  [], ◌∷◌, ◌++◌, ltb, ◌==◌, arith, bit_and, if◌then◌else◌,
}
use isaac_metal_bridge.Cuda.Registry.{object}
use isaac_metal_bridge.Icd.Result.{success, out_of_host_memory}
use isaac_metal_bridge.Icd.Sizes.{SparseRequirements, sparse_image_requirements}
use isaac_metal_bridge.Icd.Bindings.{SparseMemoryBind, binding_of}
use isaac_metal_bridge.Icd.Driver.{Driver, ImageState}
use isaac_metal_bridge.Icd.Binds.{
  BufferBinds, TileBind, TileBinds, has_zero, check_opaque_bind, check_opaque, check_tile_bind,
  check_tiles, check_all, is_empty, is_sparse_image,
}
use isaac_metal_bridge.Icd.Binds.Images.{SparseHost, store_image, each_step}
use isaac_metal_bridge.Icd.Binds.Images.Tails.{
  without_range, replace_sparse_image_opaque_binding, map_tail_levels, meets_tail, map_tail_layers,
  map_tail, bind_opaque, bind_opaques,
}
use isaac_metal_bridge.Icd.Binds.Images.Tiles.{
  without_tiles, replace_sparse_image_binding, tile_binding, tile_mapping, bind_tile, bind_tiles,
}
use isaac_metal_bridge.Icd.Binds.Outcome.{IsReady, Keeps, Keeps-trans, Does-done, and_check-both}
use isaac_metal_bridge.Icd.Binds.Stored.{tiling_of, store_image-Keeps}
use isaac_metal_bridge.Icd.Binds.Checked.{check_object-passed}
use isaac_metal_bridge.Icd.Binds.Quiet.{
  Quiet, step-Quiet, each_step-Quiet, and_then-Quiet, ensure_sparse_image_backing-Quiet,
  update_sparse_image_mapping-Quiet,
}

module _ (q o : ℕ) (h : SparseHost) (p : ℕ) where
  -- The binding is erased, then the new one is added.
  replaced-Quiet :
      (memory : ℕ) (i cleared bound : ImageState) (d : Driver)
      → IsReady d
      → object p d.images ≡ some i
      → tiling_of cleared ≡ tiling_of i
      → tiling_of bound ≡ tiling_of i
      → Quiet q o d (
          if memory == 0
          then some (success, store_image p cleared d)
          else if not (h.grows p (store_image p cleared d))
          then some (out_of_host_memory, store_image p cleared d)
          else some (success, store_image p bound d))
  replaced-Quiet memory i cleared bound d r live e f = elim (Bool-cases (memory == 0)) [
    | inl none_left ↦
        step-Quiet q o success d (store_image p cleared d) _ (rw none_left refl) (λ e. ground arith)
          (store_image-Keeps p i cleared d r live e) refl
    | inr some_left ↦ elim (Bool-cases (h.grows p (store_image p cleared d))) [
      | inl grows ↦
          step-Quiet q o success d (store_image p bound d) _ (rw (some_left, grows) refl)
            (λ e. ground arith) (store_image-Keeps p i bound d r live f) refl
      | inr full ↦
          step-Quiet q o out_of_host_memory d (store_image p cleared d) _
            (rw (some_left, full) refl) (λ e. ground arith)
            (store_image-Keeps p i cleared d r live e) refl
    ]
  ]

  replace_sparse_image_opaque_binding-Quiet :
      (bind : SparseMemoryBind) (i : ImageState) (d : Driver)
      → IsReady d
      → object p d.images ≡ some i
      → Quiet q o d (replace_sparse_image_opaque_binding h p bind d)
  unfolding replace_sparse_image_opaque_binding
  replace_sparse_image_opaque_binding-Quiet bind i d r live =
      let erased = without_range bind i.sparse_opaque_bindings in
      rw (live, replace_sparse_image_opaque_binding)
        (replaced-Quiet bind.memory i (record i { sparse_opaque_bindings = erased })
          (record i { sparse_opaque_bindings = erased ++ binding_of bind ∷ [] }) d r live refl refl)

  replace_sparse_image_binding-Quiet :
      (bind : TileBind) (i : ImageState) (d : Driver)
      → IsReady d
      → object p d.images ≡ some i
      → Quiet q o d (replace_sparse_image_binding h p bind d)
  unfolding replace_sparse_image_binding
  replace_sparse_image_binding-Quiet bind i d r live =
      let erased = without_tiles bind i.sparse_bindings in
      rw (live, replace_sparse_image_binding)
        (replaced-Quiet bind.memory i (record i { sparse_bindings = erased })
          (record i { sparse_bindings = erased ++ tile_binding bind ∷ [] }) d r live refl refl)

  map_tail_levels-Quiet :
      (i : ImageState) (maps : Bool) (layer n level : ℕ) (d : Driver)
      → has_zero i.metal_sparse_granularity ≡ false
      → IsReady d
      → Quiet q o d (map_tail_levels h i maps layer n level d)
  unfolding map_tail_levels
  map_tail_levels-Quiet i maps layer zero level d solid r = Does-done q o d r
  map_tail_levels-Quiet i maps layer (suc n) level d solid r = rw solid (
      and_then-Quiet q o d _ (map_tail_levels h i maps layer n (level + 1))
        (update_sparse_image_mapping-Quiet q o h _ d r)
        (λ d' k. map_tail_levels-Quiet i maps layer n (level + 1) d' solid k.ready))

  map_tail_layers-Quiet :
      (i : ImageState) (s : SparseRequirements) (bind : SparseMemoryBind) (n layer : ℕ) (d : Driver)
      → has_zero i.metal_sparse_granularity ≡ false
      → IsReady d
      → Quiet q o d (map_tail_layers h i s bind n layer d)
  unfolding map_tail_layers
  map_tail_layers-Quiet i s bind zero layer d solid r = Does-done q o d r
  map_tail_layers-Quiet i s bind (suc n) layer d solid r =
      and_then-Quiet q o d _ (map_tail_layers h i s bind n (layer + 1))
        (elim (Bool-cases (meets_tail s bind layer)) [
          | inl e ↦ rw e (
              map_tail_levels-Quiet i (not (bind.memory == 0)) layer
                (i.mip_levels - s.image_mip_tail_first_lod) s.image_mip_tail_first_lod d solid r)
          | inr e ↦ rw e (Does-done q o d r)
        ])
        (λ d' k. map_tail_layers-Quiet i s bind n (layer + 1) d' solid k.ready)

  -- A sparse image at the start is one after every step, with tiles that are not empty.
  module _ (start : Driver) (i0 : ImageState) (there : object p start.images ≡ some i0)
      (sparse : (i0.sparse_tile_bytes == 0) ≡ false) where
    now :
        (d : Driver)
        → Keeps start d
        → (i : ImageState) × (object p d.images ≡ some i)
          × (has_zero i.metal_sparse_granularity ≡ false)
    now d k =
        let (i, live, e) = k.tiles p i0 there in (i, live, (k.ready.solid p i live (rw e sparse)).1)

    map_tail-Quiet :
        (s : SparseRequirements) (bind : SparseMemoryBind) (d : Driver)
        → Keeps start d
        → Quiet q o d (map_tail h p s bind d)
    unfolding map_tail
    map_tail-Quiet s bind d k =
        let (i, live, solid) = now d k in
        rw (live, map_tail) (map_tail_layers-Quiet i s bind i.array_layers 0 d solid k.ready)

    bind_opaque-Quiet :
        (i : ImageState) (s : SparseRequirements) (bind : SparseMemoryBind) (d : Driver)
        → Keeps start d
        → Quiet q o d (bind_opaque h p i s bind d)
    unfolding bind_opaque
    bind_opaque-Quiet i s bind d k =
        and_then-Quiet q o d _ (replace_sparse_image_opaque_binding h p bind)
          (elim (Bool-cases (
            bit_and bind.flags h.vk.sparse_memory_bind_metadata == 0
            && ltb s.image_mip_tail_first_lod i.mip_levels)) [
              | inl e ↦ rw e (
                  and_then-Quiet q o d _ (map_tail h p s bind)
                    (ensure_sparse_image_backing-Quiet q o h p d k.ready)
                    (λ d' l. map_tail-Quiet s bind d' (Keeps-trans start d d' k l)))
              | inr e ↦ rw e (Does-done q o d k.ready)
            ])
          (λ d' l.
            let (j, live, solid) = now d' (Keeps-trans start d d' k l) in
            replace_sparse_image_opaque_binding-Quiet bind j d' l.ready live)

    bind_tile-Quiet :
        (bind : TileBind) (d : Driver) → Keeps start d → Quiet q o d (bind_tile h p bind d)
    unfolding bind_tile
    bind_tile-Quiet bind d k =
        let (i, live, solid) = now d k in
        rw (live, bind_tile, solid)
          (and_then-Quiet q o d _ (replace_sparse_image_binding h p bind)
            (update_sparse_image_mapping-Quiet q o h (tile_mapping i bind) d k.ready)
            (λ d' l.
              let (j, again, _) = now d' (Keeps-trans start d d' k l) in
              replace_sparse_image_binding-Quiet bind j d' l.ready again))

module _ (q o : ℕ) (h : SparseHost) (device : ℕ) (start : Driver) where
  pub bind_opaques-Quiet :
      (x : BufferBinds)
      → check_opaque h.layout h.vk device start x ≡ some true
      → (d : Driver) → Keeps start d
      → Quiet q o d (bind_opaques h x d)
  unfolding bind_opaques check_opaque
  bind_opaques-Quiet x c d k =
      let (member, i0, there, passed) = check_object-passed start.images x.target _ c in
      let both =
        and_check-both
          (some (is_sparse_image h.layout h.vk device i0 && (is_empty x.binds || x.given)))
          (check_all (check_opaque_bind device start i0) x.binds) passed in
      let (i, live, e) = k.tiles x.target i0 there in
      let s =
        sparse_image_requirements h.layout i.format i.type i.extent i.mip_levels i.array_layers in
      rw (live, bind_opaques)
        (each_step-Quiet q o (check_opaque_bind device start i0) (bind_opaque h x.target i s) start
          (λ bind _ d' l.
            bind_opaque-Quiet q o h x.target start i0 there (ground (arith, both.0)) i s bind d' l)
          x.binds both.1 d k)

  pub bind_tiles-Quiet :
      (x : TileBinds)
      → check_tiles h.layout h.vk device start x ≡ some true
      → (d : Driver) → Keeps start d
      → Quiet q o d (bind_tiles h x d)
  unfolding bind_tiles check_tiles
  bind_tiles-Quiet x c d k =
      let (member, i0, there, passed) = check_object-passed start.images x.target _ c in
      let both =
        and_check-both
          (some (is_sparse_image h.layout h.vk device i0 && (is_empty x.binds || x.given)))
          (check_all (check_tile_bind h.layout device start i0) x.binds) passed in
      and_then-Quiet q o d _ (each_step (bind_tile h x.target) x.binds)
        (ensure_sparse_image_backing-Quiet q o h x.target d k.ready)
        (λ d' l.
          each_step-Quiet q o (check_tile_bind h.layout device start i0) (bind_tile h x.target)
            start
            (λ bind _ d' l.
              bind_tile-Quiet q o h x.target start i0 there (ground (arith, both.0)) bind d' l)
            x.binds both.1 d' (Keeps-trans start d d' k l))
