-- ===== src/Icd/Binds/Bound.antt =====
-- What vkQueueBindSparse of guest/vulkan_icd/imb_vulkan_icd.cpp promises.
use isaac_metal_bridge.Base.{
  ℕ, ◌≤◌, ◌≡◌, refl, sym, subst, ap, inl, inr, Bool-cases, Bool, true, false, some, List, ◌==◌,
  max64, arith,
}
use isaac_metal_bridge.Icd.Result.{VkResult, success, initialization_failed, device_lost}
use isaac_metal_bridge.Icd.Driver.{Driver, Step}
use isaac_metal_bridge.Icd.Binds.{BindInfo, device_for_queue}
use isaac_metal_bridge.Icd.Binds.Images.{SparseHost}
use isaac_metal_bridge.Icd.Binds.Perform.{check_binds, perform_binds, queue_bind_sparse}
use isaac_metal_bridge.Icd.Binds.Outcome.{IsReady, resolved, Does}
use isaac_metal_bridge.Icd.Binds.Total.{Answers, check_binds-Answers}
use isaac_metal_bridge.Icd.Binds.Performed.{all_at, performs-Does}

-- The call is refused with nothing done, or it does the binds.
pub data Binds (q o : ℕ) (infos : List BindInfo) (d : Driver) (s : Step) : Type 0 where
  rejected : (r : VkResult) → (r ≡ success → ⊥) → s ≡ some (r, d) → Binds q o infos d s
  performed : Does q o (all_at q o infos) d s → Binds q o infos d s

module _ (h : SparseHost) (given : Bool) (queue : ℕ) (infos : List BindInfo) (fence : ℕ)
    (d : Driver) (ready : IsReady d) where
  by_answer :
      (device q o : ℕ)
      → o ≤ max64
      → Answers (check_binds h device infos fence d)
      → Binds q o infos d (perform_binds h infos fence d (check_binds h device infos fence d))
  unfolding perform_binds
  by_answer device q o low (false, e) =
      rejected initialization_failed (λ x. ground arith) (ap (perform_binds h infos fence d) e)
  by_answer device q o low (true, e) = performed (
      subst (λ x. Does q o (all_at q o infos) d (perform_binds h infos fence d x)) (sym e)
        (performs-Does q o low h device d ready infos fence e))

  queue_bind_sparse-Binds :
      (q o : ℕ) → o ≤ max64 → Binds q o infos d (queue_bind_sparse h given queue infos fence d)
  unfolding queue_bind_sparse
  queue_bind_sparse-Binds q o low = elim (Bool-cases given) [
    | inr e ↦ rejected initialization_failed (λ x. ground arith) (rw e refl)
    | inl e ↦ elim (Bool-cases (device_for_queue queue d.devices == 0)) [
      | inl f ↦ rejected device_lost (λ x. ground arith) (rw (e, f) refl)
      | inr f ↦
          rw (e, f)
            (by_answer (device_for_queue queue d.devices) q o low
              (check_binds-Answers (device_for_queue queue d.devices) d ready h infos fence))
    ]
  ]

  -- Where memories, buffers, images, semaphores and fences are well-formed - the handles are the
  -- live objects, the sparse bindings of every buffer are in order, apart, inside it and of live
  -- memories, and the tiles of sparse images are not empty - vkQueueBindSparse returns, whatever
  -- is passed and whatever the host answers, and keeps them so, and touches no memory. If it
  -- succeeds, it moved every byte of every buffer, one bind after the other, as the binds of the
  -- buffer's ranges say: to its byte of the bind's memory, to none for a bind without memory, and
  -- nowhere else. If it answers VK_ERROR_INITIALIZATION_FAILED, it changed nothing.
  pub queue_bind_sparse_lem :
      (q o : ℕ)
      → o ≤ max64
      → (r : VkResult) × (d' : Driver) × (queue_bind_sparse h given queue infos fence d
          ≡ some (r, d'))
        × IsReady d'
        × (d'.memories ≡ d.memories)
        × (r ≡ success → resolved q o d' ≡ all_at q o infos (resolved q o d))
        × (r ≡ initialization_failed → d' ≡ d)
  queue_bind_sparse_lem q o low = elim (queue_bind_sparse-Binds q o low) [
    | rejected r bad e ↦ (r, d, e, ready, refl, λ h. absurd (bad h), λ h. refl)
    | performed p ↦ (
      p.result,
      p.state,
      p.returns,
      p.keeps.ready,
      p.keeps.memories,
      p.view,
      λ h. absurd (p.checked h),
    )
  ]
