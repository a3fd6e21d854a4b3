-- ===== src/Icd/Binds/Performed.antt =====
-- vkQueueBindSparse of guest/vulkan_icd/imb_vulkan_icd.cpp as a whole: what it keeps, and where the
-- bytes of buffers go.
use isaac_metal_bridge.Base.{
  ap, ℕ, ◌≤◌, ◌≡◌, ◌∙◌, refl, inl, inr, Bool-cases, true, false, not, ◌&&◌, some, List, ◌==◌, arith,
  max64, contains,
}
use isaac_metal_bridge.Cuda.Registry.{is_member, object, store_object-IsSound}
use isaac_metal_bridge.Icd.Result.{success}
use isaac_metal_bridge.Icd.Driver.{Driver, FenceState, SemaphoreState, Step, and_then}
use isaac_metal_bridge.Icd.Memory.Good.{held}
use isaac_metal_bridge.Icd.Semaphores.{change, taken_back, store_semaphore}
use isaac_metal_bridge.Icd.Fences.{mark_signaled, store_fence, signaled_fence}
use isaac_metal_bridge.Icd.Binds.{
  BufferBinds, BindInfo, check_all, check_wait, check_signal, check_buffer, check_opaque,
  check_tiles, check_info, check_fence,
}
use isaac_metal_bridge.Icd.Binds.Images.{SparseHost, each_step}
use isaac_metal_bridge.Icd.Binds.Images.Tails.{bind_opaques}
use isaac_metal_bridge.Icd.Binds.Images.Tiles.{bind_tiles}
use isaac_metal_bridge.Icd.Binds.Perform.{
  bind_buffers, signaled_binary, change_step, perform_info, signal_fence, check_binds,
}
use isaac_metal_bridge.Icd.Binds.Outcome.{
  IsReady, Stays-refl, Keeps, Keeps-refl, Keeps-trans, Change, folded, Does, Does-done,
  and_then-Does, each_step-Does, and_check-both,
}
use isaac_metal_bridge.Icd.Binds.Checked.{check_object-passed}
use isaac_metal_bridge.Icd.Binds.Buffers.{bound_at, bind_buffers-Does}
use isaac_metal_bridge.Icd.Binds.Quiet.{
  member-Live, Quiet, step-Quiet, each_step-Quiet, and_then-Quiet,
}
use isaac_metal_bridge.Icd.Binds.Mapped.{bind_opaques-Quiet, bind_tiles-Quiet}

-- The specification: what the binds of buffers make of a byte, one after the other.
abbrev pub buffer_at : ℕ → ℕ → BufferBinds → Change
buffer_at q o x = folded (bound_at q o x.target) x.binds

abbrev pub info_at : ℕ → ℕ → BindInfo → Change
info_at q o info = folded (buffer_at q o) info.buffer_binds

abbrev pub all_at : ℕ → ℕ → List BindInfo → Change
all_at q o infos = folded (info_at q o) infos

store_semaphore-Keeps :
    (p : ℕ) (s s' : SemaphoreState) (d : Driver)
    → IsReady d
    → object p d.semaphores ≡ some s
    → Keeps d (store_semaphore p s' d)
store_semaphore-Keeps p s s' d r h = record {
  ready = record {
    good = record {
      memories = r.good.memories;
      buffers = r.good.buffers;
      fit = r.good.fit;
      bound = r.good.bound;
    };
    images = r.images;
    semaphores = store_object-IsSound d.semaphores p s' (ground arith) r.semaphores;
    fences = r.fences;
    solid = r.solid;
  };
  memories = refl;
  semaphores = refl;
  fences = refl;
  sizes = Stays-refl (λ b. b.size) d.buffers;
  tiles = Stays-refl (λ i. i.sparse_tile_bytes) d.images;
}

store_fence-Keeps :
    (p : ℕ) (s s' : FenceState) (d : Driver)
    → IsReady d
    → object p d.fences ≡ some s
    → Keeps d (store_fence p s' d)
store_fence-Keeps p s s' d r h = record {
  ready = record {
    good = record {
      memories = r.good.memories;
      buffers = r.good.buffers;
      fit = r.good.fit;
      bound = r.good.bound;
    };
    images = r.images;
    semaphores = r.semaphores;
    fences = store_object-IsSound d.fences p s' (ground arith) r.fences;
    solid = r.solid;
  };
  memories = refl;
  semaphores = refl;
  fences = refl;
  sizes = Stays-refl (λ b. b.size) d.buffers;
  tiles = Stays-refl (λ i. i.sparse_tile_bytes) d.images;
}

module _ (q o : ℕ) where
  change_step-Quiet :
      (f : SemaphoreState → SemaphoreState) (p : ℕ) (start d : Driver)
      → is_member p start.semaphores ≡ true
      → Keeps start d
      → Quiet q o d (change_step f p d)
  unfolding change_step change
  change_step-Quiet f p start d member k =
      elim (member-Live p d.semaphores k.ready.semaphores (ap (contains p) k.semaphores ∙ member)) [
        | held s live ↦
            step-Quiet q o success d (store_semaphore p (f s) d) _
              (rw (live, change_step, change) refl) (λ e. ground arith)
              (store_semaphore-Keeps p s (f s) d k.ready live) refl
      ]

  mark_signaled-Quiet :
      (p : ℕ) (start d : Driver)
      → is_member p start.fences ≡ true
      → Keeps start d
      → Quiet q o d (mark_signaled p d)
  unfolding mark_signaled
  mark_signaled-Quiet p start d member k =
      elim (member-Live p d.fences k.ready.fences (ap (contains p) k.fences ∙ member)) [
        | held s live ↦
            step-Quiet q o success d (store_fence p (signaled_fence s) d) _
              (rw (live, mark_signaled) refl) (λ e. ground arith)
              (store_fence-Keeps p s (signaled_fence s) d k.ready live) refl
      ]

module _ (q o : ℕ) (low : o ≤ max64) (h : SparseHost) (device : ℕ) (start : Driver)
    (ready : IsReady start) where
  waited : (p : ℕ) → check_wait device start p ≡ some true → is_member p start.semaphores ≡ true
  unfolding check_wait
  waited p c = (check_object-passed start.semaphores p _ c).0

  signaled : (p : ℕ) → check_signal device start p ≡ some true → is_member p start.semaphores ≡ true
  unfolding check_signal
  signaled p c = (check_object-passed start.semaphores p _ c).0

  fenced :
      (p : ℕ)
      → (p == 0) ≡ false
      → check_fence device p start ≡ some true
      → is_member p start.fences ≡ true
  unfolding check_fence
  fenced p e c =
      (check_object-passed start.fences p
        (λ (s : FenceState). some (s.device == device && (not s.submitted && not s.signaled)))
        (ground arith)).0

  abbrev signals_step : BindInfo → Driver → Step
  signals_step info = each_step (change_step signaled_binary) info.signals

  abbrev tiles_step : BindInfo → Driver → Step
  tiles_step info d = and_then (each_step (bind_tiles h) info.image_binds d) (signals_step info)

  -- All that follows the buffers.
  images_step-Quiet :
      (info : BindInfo)
      → check_all (check_signal device start) info.signals ≡ some true
      → check_all (check_opaque h.layout h.vk device start) info.image_opaque_binds ≡ some true
      → check_all (check_tiles h.layout h.vk device start) info.image_binds ≡ some true
      → (d : Driver) → Keeps start d
      → Quiet q o d
          (and_then (each_step (bind_opaques h) info.image_opaque_binds d) (tiles_step info))
  images_step-Quiet info signals opaques tiles d k =
      and_then-Quiet q o d (each_step (bind_opaques h) info.image_opaque_binds d) (tiles_step info)
        (each_step-Quiet q o (check_opaque h.layout h.vk device start) (bind_opaques h) start
          (bind_opaques-Quiet q o h device start) info.image_opaque_binds opaques d k)
        (λ d' l.
          let k' = Keeps-trans start d d' k l in
          and_then-Quiet q o d' (each_step (bind_tiles h) info.image_binds d') (signals_step info)
            (each_step-Quiet q o (check_tiles h.layout h.vk device start) (bind_tiles h) start
              (bind_tiles-Quiet q o h device start) info.image_binds tiles d' k')
            (λ d'' l'.
              each_step-Quiet q o (check_signal device start) (change_step signaled_binary) start
                (λ p c e m. change_step-Quiet q o signaled_binary p start e (signaled p c) m)
                info.signals signals d'' (Keeps-trans start d' d'' k' l')))

  perform_info-Does :
      (info : BindInfo)
      → check_info h.layout h.vk device start info ≡ some true
      → (d : Driver) → Keeps start d
      → Does q o (info_at q o info) d (perform_info h info d)
  unfolding perform_info check_info
  perform_info-Does info c d k =
      let c1 = and_check-both (some info.given) _ c in
      let c2 = and_check-both (check_all (check_wait device start) info.waits) _ c1.1 in
      let c3 = and_check-both (check_all (check_signal device start) info.signals) _ c2.1 in
      let c4 =
        and_check-both (check_all (check_buffer h.vk device start) info.buffer_binds) _ c3.1 in
      let c5 =
        and_check-both (check_all (check_opaque h.layout h.vk device start) info.image_opaque_binds)
          _ c4.1 in
      let images = λ (d' : Driver).
        and_then (each_step (bind_opaques h) info.image_opaque_binds d') (tiles_step info) in
      let buffers =
        λ (d' : Driver). and_then (each_step (bind_buffers h) info.buffer_binds d') images in
      let change_of = info_at q o info in
      and_then-Does q o (λ v. v) change_of d (each_step (change_step taken_back) info.waits d)
        buffers
        (each_step-Quiet q o (check_wait device start) (change_step taken_back) start
          (λ p h d' l. change_step-Quiet q o taken_back p start d' (waited p h) l) info.waits c2.0 d
          k)
        (λ d' l.
          let k' = Keeps-trans start d d' k l in
          and_then-Does q o change_of (λ v. v) d' (each_step (bind_buffers h) info.buffer_binds d')
            images
            (each_step-Does q o (check_buffer h.vk device start) (bind_buffers h) (buffer_at q o)
              start (λ x c e m. bind_buffers-Does q o low h device start x ready.good c e m)
              info.buffer_binds c4.0 d' k')
            (λ d'' l'. images_step-Quiet info c3.0 c5.0 c5.1 d'' (Keeps-trans start d' d'' k' l')))

  pub performs-Does :
      (infos : List BindInfo) (fence : ℕ)
      → check_binds h device infos fence start ≡ some true
      → Does q o
          (all_at q o infos)
          start
          (and_then (each_step (perform_info h) infos start) (signal_fence fence))
  unfolding check_binds signal_fence check_fence
  performs-Does infos fence c =
      let both =
        and_check-both (check_fence device fence start)
          (check_all (check_info h.layout h.vk device start) infos) c in
      and_then-Does q o (all_at q o infos) (λ v. v) start (each_step (perform_info h) infos start)
        (signal_fence fence)
        (each_step-Does q o (check_info h.layout h.vk device start) (perform_info h) (info_at q o)
          start perform_info-Does infos both.1 start (Keeps-refl start ready))
        (λ d k. elim (Bool-cases (fence == 0)) [
          | inl e ↦ rw e (Does-done q o d k.ready)
          | inr e ↦ rw e (mark_signaled-Quiet q o fence start d (fenced fence e both.0) k)
        ])
