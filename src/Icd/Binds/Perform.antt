-- ===== src/Icd/Binds/Perform.antt =====
-- vkQueueBindSparse of guest/vulkan_icd/imb_vulkan_icd.cpp: the checks, then semaphores, buffers
-- and images, then the fence.
use isaac_metal_bridge.Base.{
  ℕ, Bool, true, false, not, Option, none, some, List, ◌==◌, if◌then◌else◌,
}
use isaac_metal_bridge.Cuda.Registry.{object, store_object}
use isaac_metal_bridge.Icd.Bindings.{SparseMemoryBind, replace_sparse_buffer_binding}
use isaac_metal_bridge.Icd.Result.{success, initialization_failed, device_lost, out_of_host_memory}
use isaac_metal_bridge.Icd.Driver.{Driver, BufferState, SemaphoreState, Step, and_then}
use isaac_metal_bridge.Icd.Semaphores.{change, taken_back}
use isaac_metal_bridge.Icd.Fences.{mark_signaled}
use isaac_metal_bridge.Icd.Binds.{
  BufferBinds, BindInfo, device_for_queue, check_fence, check_info, check_all, and_check,
}
use isaac_metal_bridge.Icd.Binds.Images.{SparseHost, each_step}
use isaac_metal_bridge.Icd.Binds.Images.Tails.{bind_opaques}
use isaac_metal_bridge.Icd.Binds.Images.Tiles.{bind_tiles}

abbrev pub store_buffer : ℕ → BufferState → Driver → Driver
store_buffer p b d = record d { buffers = store_object p b d.buffers }

-- One bind of a buffer.
unfoldable pub bind_buffer : SparseHost → ℕ → SparseMemoryBind → Driver → Step
bind_buffer h p bind d = elim (object p d.buffers) [
  | none ↦ none
  | some b ↦
      if not (h.grows p d)
      then some (out_of_host_memory, d)
      else some (
        success,
        store_buffer p
            (record b { sparse_bindings = replace_sparse_buffer_binding b.sparse_bindings bind }) d,
      )
]

unfoldable pub bind_buffers : SparseHost → BufferBinds → Driver → Step
unfolding each_step bind_buffer
bind_buffers h x d = each_step (bind_buffer h x.target) x.binds d

abbrev pub signaled_binary : SemaphoreState → SemaphoreState
signaled_binary s = if s.timeline then s else record s { signaled = true }

unfoldable pub change_step : (SemaphoreState → SemaphoreState) → ℕ → Driver → Step
unfolding change
change_step f p d = elim (change f p d) [ none ↦ none | some d' ↦ some (success, d') ]

unfoldable pub perform_info : SparseHost → BindInfo → Driver → Step
unfolding each_step change_step bind_buffers bind_opaques bind_tiles
perform_info h info d = and_then (each_step (change_step taken_back) info.waits d) (λ (d' : Driver).
    and_then (each_step (bind_buffers h) info.buffer_binds d') (λ (d' : Driver).
      and_then (each_step (bind_opaques h) info.image_opaque_binds d') (λ (d' : Driver).
        and_then (each_step (bind_tiles h) info.image_binds d')
          (each_step (change_step signaled_binary) info.signals))))

unfoldable pub signal_fence : ℕ → Driver → Step
unfolding mark_signaled
signal_fence fence d = if fence == 0 then some (success, d) else mark_signaled fence d

-- The tests of the fence and of each info.
unfoldable pub check_binds : SparseHost → ℕ → List BindInfo → ℕ → Driver → Option Bool
unfolding check_fence check_all check_info
check_binds h device infos fence d =
    and_check (check_fence device fence d) (check_all (check_info h.layout h.vk device d) infos)

-- What follows the checks.
unfoldable pub perform_binds : SparseHost → List BindInfo → ℕ → Driver → Option Bool → Step
unfolding each_step perform_info signal_fence
perform_binds h infos fence d none = none
perform_binds h infos fence d (some false) = some (initialization_failed, d)
perform_binds h infos fence d (some true) =
    and_then (each_step (perform_info h) infos d) (signal_fence fence)

-- `given` is false if infos are counted and the array is null.
unfoldable pub queue_bind_sparse : SparseHost → Bool → ℕ → List BindInfo → ℕ → Driver → Step
unfolding device_for_queue check_binds perform_binds
queue_bind_sparse h given queue infos fence d =
    let device = device_for_queue queue d.devices in
    if not given
    then some (initialization_failed, d)
    else if device == 0
    then some (device_lost, d)
    else perform_binds h infos fence d (check_binds h device infos fence d)
