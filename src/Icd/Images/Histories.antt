-- ===== src/Icd/Images/Histories.antt =====
-- Histories of creating, destroying and binding images and buffers that are sparse, of
-- guest/vulkan_icd/imb_vulkan_icd.cpp.
use isaac_metal_bridge.Base.{ℕ, ◌≡◌, refl, Bool, Option, none, some, List, [], ◌∷◌, arith}
use isaac_metal_bridge.Icd.Driver.{Driver, Step}
use isaac_metal_bridge.Icd.Binds.{BindInfo}
use isaac_metal_bridge.Icd.Binds.Images.{SparseHost}
use isaac_metal_bridge.Icd.Binds.Perform.{queue_bind_sparse}
use isaac_metal_bridge.Icd.Binds.Outcome.{IsReady}
use isaac_metal_bridge.Icd.Binds.Bound.{queue_bind_sparse_lem}
use isaac_metal_bridge.Icd.Images.{ImageHost, ImageInfo, create_image, destroy_image}
use isaac_metal_bridge.Icd.Images.Tiled.{create_image-IsReady, destroy_image-IsReady}

-- A call with what the system and the host answer to it.
pub data ImageCall : Type 0 where
  create_call : ImageHost → Bool → ℕ → ImageInfo → Option ℕ → Bool → ImageCall
  destroy_call : Bool → ℕ → ImageCall
  bind_call : SparseHost → Bool → ℕ → List BindInfo → ℕ → ImageCall

abbrev pub state_after : Step → Option Driver
state_after none = none
state_after (some (r, d)) = some d

unfoldable pub perform : ImageCall → Driver → Option Driver
unfolding create_image destroy_image queue_bind_sparse
perform (create_call h given device info allocation grows) d =
    some (create_image h given device info allocation grows d).state
perform (destroy_call bridge p) d = destroy_image bridge p d
perform (bind_call h given queue infos fence) d =
    state_after (queue_bind_sparse h given queue infos fence d)

unfoldable pub run : List ImageCall → Driver → Option Driver
unfolding perform
run [] d = some d
run (c ∷ cs) d = elim (perform c d) [ none ↦ none | some d' ↦ run cs d' ]

perform-IsReady :
    (c : ImageCall) (d : Driver) → IsReady d → (d' : Driver) × (perform c d ≡ some d') × IsReady d'
unfolding perform
perform-IsReady (create_call h given device info allocation grows) d r = (
  (create_image h given device info allocation grows d).state,
  refl,
  create_image-IsReady h given device info allocation grows d r,
)
perform-IsReady (destroy_call bridge p) d r = destroy_image-IsReady bridge p d r
perform-IsReady (bind_call h given queue infos fence) d r =
    let (code, d', returns, after, _, _, _) =
      queue_bind_sparse_lem h given queue infos fence d r 0 0 (omega arith) in
    (d', rw returns refl, after)

-- Where memories, buffers, images, semaphores and fences are well-formed - as vkQueueBindSparse
-- requires them - every history of vkCreateImage, vkDestroyImage and vkQueueBindSparse returns,
-- whatever is passed and whatever the host and the system answer, without an access to a dead
-- object and without a division by the size of an empty tile, and they are well-formed again after
-- it.
pub run-IsReady :
    (cs : List ImageCall) (d : Driver)
    → IsReady d
    → (d' : Driver) × (run cs d ≡ some d') × IsReady d'
unfolding run
run-IsReady [] d r = (d, refl, r)
run-IsReady (c ∷ cs) d r =
    let step = perform-IsReady c d r in
    let rest = run-IsReady cs step.0 step.2 in (rest.0, rw (step.1, run) rest.1, rest.2)
