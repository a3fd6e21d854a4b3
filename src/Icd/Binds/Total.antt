-- ===== src/Icd/Binds/Total.antt =====
-- The checks of vkQueueBindSparse of guest/vulkan_icd/imb_vulkan_icd.cpp follow no dead handle and
-- divide by no zero.
use isaac_metal_bridge.Base.{
  ℕ, ◌≡◌, refl, inl, inr, Bool-cases, Bool, true, false, ◌&&◌, ◌||◌, Option, some, List, [], ◌∷◌,
  ◌==◌, leb, arith,
}
use isaac_metal_bridge.Cuda.Registry.{Registry, is_member, object, IsSound}
use isaac_metal_bridge.Icd.Formats.{Vulkan}
use isaac_metal_bridge.Icd.Driver.{Driver, Enums, ImageState}
use isaac_metal_bridge.Icd.Memory.Good.{held}
use isaac_metal_bridge.Icd.Binds.{
  BufferBinds, TileBind, TileBinds, BindInfo, and_check, check_all, check_object, check_fence,
  check_wait, check_signal, check_memory, check_buffer_bind, check_buffer, is_sparse_image,
  check_opaque_bind, check_opaque, fits_tiles, required_bytes, has_zero, check_tile_bind,
  check_tiles, check_info, is_empty,
}
use isaac_metal_bridge.Icd.Binds.Perform.{check_binds}
use isaac_metal_bridge.Icd.Binds.Images.{SparseHost}
use isaac_metal_bridge.Icd.Binds.Outcome.{IsReady}
use isaac_metal_bridge.Icd.Binds.Quiet.{member-Live}

-- A check that comes to an answer.
abbrev pub Answers : Option Bool → Type 0
Answers o = (b : Bool) × (o ≡ some b)

and_check-Answers :
    (a b : Option Bool) → Answers a → (a ≡ some true → Answers b) → Answers (and_check a b)
and_check-Answers a b (false, e) k = (false, rw (e, and_check) refl)
and_check-Answers a b (true, e) k = let (c, f) = k e in (c, rw (e, and_check) f)

check_all-Answers :
    {A : Type 0} (check : A → Option Bool)
    → ((x : A) → Answers (check x))
    → (xs : List A) → Answers (check_all check xs)
unfolding check_all
check_all-Answers check each [] = (true, refl)
check_all-Answers check each (x ∷ xs) =
    and_check-Answers (check x) (check_all check xs) (each x) (λ _. check_all-Answers check each xs)

check_object-Answers :
    {A : Type 0} (r : Registry A) (p : ℕ) (check : A → Option Bool)
    → IsSound r
    → ((a : A) → object p r ≡ some a → Answers (check a))
    → Answers (check_object r p check)
unfolding check_object
check_object-Answers r p check sound each = elim (Bool-cases (is_member p r)) [
  | inl member ↦ elim (member-Live p r sound member) [
    | held a live ↦ let (b, e) = each a live in (b, rw (member, live, check_object) e)
  ]
  | inr out ↦ (false, rw out refl)
]

module _ (device : ℕ) (d : Driver) (r : IsReady d) where
  check_memory-Answers :
      (memory offset size : ℕ) → Answers (check_memory device d memory offset size)
  unfolding check_memory
  check_memory-Answers memory offset size = elim (Bool-cases (memory == 0)) [
    | inl e ↦ (true, rw e refl)
    | inr e ↦ rw e (check_object-Answers d.memories memory _ r.good.memories (λ m live. (_, refl)))
  ]

  check_wait-Answers : (p : ℕ) → Answers (check_wait device d p)
  unfolding check_wait
  check_wait-Answers p = check_object-Answers d.semaphores p _ r.semaphores (λ s live. (_, refl))

  check_signal-Answers : (p : ℕ) → Answers (check_signal device d p)
  unfolding check_signal
  check_signal-Answers p = check_object-Answers d.semaphores p _ r.semaphores (λ s live. (_, refl))

  pub check_fence-Answers : (p : ℕ) → Answers (check_fence device p d)
  unfolding check_fence
  check_fence-Answers p = elim (Bool-cases (p == 0)) [
    | inl e ↦ (true, rw e refl)
    | inr e ↦ rw e (check_object-Answers d.fences p _ r.fences (λ s live. (_, refl)))
  ]

  check_buffer-Answers : (vk : Enums) (x : BufferBinds) → Answers (check_buffer vk device d x)
  unfolding check_buffer check_buffer_bind
  check_buffer-Answers vk x = check_object-Answers d.buffers x.target _ r.good.buffers (λ b live.
      and_check-Answers _ _ (_, refl)
        (λ _.
          check_all-Answers (check_buffer_bind vk device d b)
            (λ bind.
              and_check-Answers _ _ (_, refl)
                (λ _. check_memory-Answers bind.memory bind.memory_offset bind.size))
            x.binds))

  check_opaque-Answers :
      (formats : Vulkan) (vk : Enums) (x : BufferBinds)
      → Answers (check_opaque formats vk device d x)
  unfolding check_opaque check_opaque_bind
  check_opaque-Answers formats vk x = check_object-Answers d.images x.target _ r.images (λ i live.
      and_check-Answers _ _ (_, refl)
        (λ _.
          check_all-Answers (check_opaque_bind device d i)
            (λ bind.
              and_check-Answers _ _ (_, refl)
                (λ _. check_memory-Answers bind.memory bind.memory_offset bind.size))
            x.binds))

  check_tile_bind-Answers :
      (formats : Vulkan) (i : ImageState) (bind : TileBind)
      → has_zero i.sparse_granularity ≡ false
      → Answers (check_tile_bind formats device d i bind)
  unfolding check_tile_bind
  check_tile_bind-Answers formats i bind tiled =
      elim (Bool-cases (leb i.mip_levels bind.mip_level || leb i.array_layers bind.array_layer)) [
        | inl out ↦ (false, rw out refl)
        | inr inside ↦
            let size = required_bytes i.sparse_granularity i.sparse_tile_bytes bind.extent in
            rw (inside, tiled)
              (and_check-Answers (some (fits_tiles formats i bind))
                (check_memory device d bind.memory bind.memory_offset size)
                (fits_tiles formats i bind, refl)
                (λ _. check_memory-Answers bind.memory bind.memory_offset size))
      ]

  check_tiles-Answers :
      (formats : Vulkan) (vk : Enums) (x : TileBinds) → Answers (check_tiles formats vk device d x)
  unfolding check_tiles
  check_tiles-Answers formats vk x = check_object-Answers d.images x.target _ r.images (λ i live.
      and_check-Answers
        (some (is_sparse_image formats vk device i && (is_empty x.binds || x.given))) _ (_, refl)
        (λ sparse.
          check_all-Answers (check_tile_bind formats device d i)
            (λ bind.
              check_tile_bind-Answers formats i bind (r.solid x.target i live (ground arith)).0)
            x.binds))

  check_info-Answers :
      (formats : Vulkan) (vk : Enums) (info : BindInfo)
      → Answers (check_info formats vk device d info)
  unfolding check_info
  check_info-Answers formats vk info =
      and_check-Answers _ _ (_, refl)
        (λ _. and_check-Answers _ _ (check_all-Answers _ check_wait-Answers info.waits) (λ _.
          and_check-Answers _ _ (check_all-Answers _ check_signal-Answers info.signals) (λ _.
            and_check-Answers _ _ (check_all-Answers _ (check_buffer-Answers vk) info.buffer_binds)
              (λ _.
                and_check-Answers _ _
                  (check_all-Answers _ (check_opaque-Answers formats vk) info.image_opaque_binds)
                  (λ _. check_all-Answers _ (check_tiles-Answers formats vk) info.image_binds)))))

  pub check_binds-Answers :
      (h : SparseHost) (infos : List BindInfo) (fence : ℕ)
      → Answers (check_binds h device infos fence d)
  unfolding check_binds
  check_binds-Answers h infos fence =
      and_check-Answers _ _ (check_fence-Answers fence)
        (λ _. check_all-Answers _ (check_info-Answers h.layout h.vk) infos)
