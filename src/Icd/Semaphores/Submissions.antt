-- ===== src/Icd/Semaphores/Submissions.antt =====
-- The waits and signals of submissions of guest/vulkan_icd/imb_vulkan_icd.cpp return, and no timeline
-- goes back.
use isaac_metal_bridge.Base.{ℕ, ◌+◌, refl, inl, inr, Bool-cases, Option, List, [], ◌∷◌, arith}
use isaac_metal_bridge.Cuda.Registry.{object, IsSound}
use isaac_metal_bridge.Icd.Result.{success, initialization_failed}
use isaac_metal_bridge.Icd.Driver.{Driver, SemaphoreState, Step, and_then}
use isaac_metal_bridge.Icd.Memory.Good.{Live, held}
use isaac_metal_bridge.Icd.Semaphores.{
  Files, store_semaphore, sync_semaphore_to_external_fd, refresh_semaphore_from_external_fd, change,
  and_change, taken_back, wait_one, wait_each, completed, signal_one, value_at, signal_each, Submit,
  values_of, complete_queue_submit_synchronization,
}
use isaac_metal_bridge.Icd.Semaphores.Grows.{
  IsLater, Grows, Runs, Grows-trans, Grows-refl, and_then-Runs, store_semaphore-Grows,
  belongs-cases, IsAble, sync-Runs, refresh-Runs,
}

module _ (m : ℕ) (e : Files) (able : IsAble m e) where
  -- A change to a later state, and what follows it.
  and_change-Runs :
      (f : SemaphoreState → SemaphoreState) (p : ℕ) (d : Driver) (k : Driver → Step)
      → Live (object p d.semaphores)
      → IsSound d.semaphores
      → ((s : SemaphoreState) → IsLater s (f s))
      → ((d' : Driver) → Grows d d' → Runs d' (k d'))
      → Runs d (and_change f p d k)
  unfolding change
  and_change-Runs f p d k (held s live) v l next =
      let d' = store_semaphore p (f s) d in
      let a = store_semaphore-Grows p s (f s) d live (l s) v in
      let (r, d'', e', a') = next d' a in
      (r, d'', rw (and_change, change, live) e', Grows-trans a a')

  Grows-Live :
      (p : ℕ) (d d' : Driver)
      → Grows d d'
      → Live (object p d.semaphores)
      → Live (object p d'.semaphores)
  Grows-Live p d d' a (held s live) = let (s', e', l) = a.later p s live in held s' e'

  taken_back-IsLater : (s : SemaphoreState) → IsLater s (taken_back s)
  taken_back-IsLater s = elim (Bool-cases s.timeline) [
    | inl t ↦ record {
      same_kind = ground arith;
      same_device = ground arith;
      not_below = λ h. ground arith;
    }
    | inr t ↦ record {
      same_kind = ground arith;
      same_device = ground arith;
      not_below = λ h. ground arith;
    }
  ]

  completed-IsLater : (given : Option ℕ) (s : SemaphoreState) → IsLater s (completed given s)
  completed-IsLater given s = elim (Bool-cases s.timeline) [
    | inl t ↦ record {
      same_kind = ground arith;
      same_device = ground arith;
      not_below = λ h. ground arith;
    }
    | inr t ↦ record {
      same_kind = ground arith;
      same_device = ground arith;
      not_below = λ h. ground arith;
    }
  ]

  wait_one-Runs :
      (device p : ℕ) (d : Driver) → IsSound d.semaphores → Runs d (wait_one e device p d)
  unfolding wait_one
  wait_one-Runs device p d v =
      let b = belongs-cases device p d v in
      elim (Bool-cases b.0) [
        | inr dangling ↦
            (initialization_failed, d, rw (wait_one, b.1, dangling) refl, Grows-refl d v)
        | inl member ↦
            let live = b.2 member in
            let r =
              and_then-Runs d (refresh_semaphore_from_external_fd e p d)
                (λ (d' : Driver). and_change taken_back p d' (sync_semaphore_to_external_fd e p))
                (refresh-Runs m e able p d live v)
                (λ d' a.
                  and_change-Runs taken_back p d' (sync_semaphore_to_external_fd e p)
                    (Grows-Live p d d' a live) a.sound taken_back-IsLater
                    (λ d'' a'.
                      sync-Runs m e able p d'' (Grows-Live p d' d'' a' (Grows-Live p d d' a live))
                        a'.sound)) in
            (r.0, r.1, rw (wait_one, b.1, member) r.2, r.3)
      ]

  signal_one-Runs :
      (device p : ℕ) (given : Option ℕ) (d : Driver)
      → IsSound d.semaphores
      → Runs d (signal_one e device p given d)
  unfolding signal_one
  signal_one-Runs device p given d v =
      let b = belongs-cases device p d v in
      elim (Bool-cases b.0) [
        | inr dangling ↦
            (initialization_failed, d, rw (signal_one, b.1, dangling) refl, Grows-refl d v)
        | inl member ↦
            let live = b.2 member in
            let r =
              and_change-Runs (completed given) p d (sync_semaphore_to_external_fd e p) live v
                (completed-IsLater given)
                (λ d' a. sync-Runs m e able p d' (Grows-Live p d d' a live) a.sound) in
            (r.0, r.1, rw (signal_one, b.1, member) r.2, r.3)
      ]

  wait_each-Runs :
      (device : ℕ) (ps : List ℕ) (d : Driver)
      → IsSound d.semaphores
      → Runs d (wait_each e device ps d)
  unfolding wait_each
  wait_each-Runs device [] d v = (success, d, refl, Grows-refl d v)
  wait_each-Runs device (p ∷ ps) d v =
      and_then-Runs d (wait_one e device p d) (wait_each e device ps) (wait_one-Runs device p d v)
        (λ d' a. wait_each-Runs device ps d' a.sound)

  signal_each-Runs :
      (device : ℕ) (values : Option (List ℕ)) (index : ℕ) (ps : List ℕ) (d : Driver)
      → IsSound d.semaphores
      → Runs d (signal_each e device values index ps d)
  unfolding signal_each
  signal_each-Runs device values index [] d v = (success, d, refl, Grows-refl d v)
  signal_each-Runs device values index (p ∷ ps) d v =
      and_then-Runs d (signal_one e device p (value_at values index) d)
        (signal_each e device values (index + 1) ps)
        (signal_one-Runs device p (value_at values index) d v)
        (λ d' a. signal_each-Runs device values (index + 1) ps d' a.sound)

  -- Where the handles are the live semaphores, no transfer moves more than it was asked for and
  -- none from the m-th on is interrupted, the waits and signals of any submissions return, with
  -- more than m + 8 turns of fuel for each payload and without an access to a dead object, whether
  -- they succeed or not; the handles are the same and again the live semaphores, each of the same
  -- kind and device, and no timeline has a lower value than before.
  pub complete_queue_submit_synchronization-Runs :
      (device : ℕ) (ss : List Submit) (d : Driver)
      → IsSound d.semaphores
      → Runs d (complete_queue_submit_synchronization e device ss d)
  unfolding complete_queue_submit_synchronization
  complete_queue_submit_synchronization-Runs device [] d v = (success, d, refl, Grows-refl d v)
  complete_queue_submit_synchronization-Runs device (s ∷ ss) d v =
      let signal = signal_each e device (values_of s.extensions) 0 s.signals in
      and_then-Runs d (and_then (wait_each e device s.waits d) signal)
        (complete_queue_submit_synchronization e device ss)
        (and_then-Runs d (wait_each e device s.waits d) signal (wait_each-Runs device s.waits d v)
          (λ d' a. signal_each-Runs device (values_of s.extensions) 0 s.signals d' a.sound))
        (λ d' a. complete_queue_submit_synchronization-Runs device ss d' a.sound)
