-- ===== src/Examples/Sharing.antt =====
-- Semaphores of guest/vulkan_icd/imb_vulkan_icd.cpp at concrete inputs, one of them shared with
-- guest/cuda_shim/imb_cuda_shim.cpp.
use isaac_metal_bridge.Base.{
  ℕ, zero, suc, ◌≤◌, ◌<◌, ◌≡◌, ◌≢◌, refl, true, some, List, [], ◌∷◌, lookup, contains, min, arith,
}
use isaac_metal_bridge.Cuda.Result.{Reply, done, quiet}
use isaac_metal_bridge.Cuda.Registry.{IsSound}
use isaac_metal_bridge.Cuda.Semaphores.{
  Device, moved, interrupted, failed, Semaphores, cu_signal_external_semaphores_async,
}
use isaac_metal_bridge.Cuda.Semaphores.Signals.{IsDevice}
use isaac_metal_bridge.Icd.Result.{VkResult, success}
use isaac_metal_bridge.Icd.Driver.{Driver, SemaphoreState}
use isaac_metal_bridge.Icd.Semaphores.{
  Files, Submit, timeline_values, complete_queue_submit_synchronization,
}
use isaac_metal_bridge.Icd.Semaphores.Counters.{wait_semaphores}
use isaac_metal_bridge.Icd.Semaphores.Loops.{IsWorking}
use isaac_metal_bridge.Icd.Semaphores.Grows.{IsAble, Grows}
use isaac_metal_bridge.Icd.Semaphores.Submissions.{complete_queue_submit_synchronization-Runs}
use isaac_metal_bridge.Icd.Semaphores.Signalled.{wait_semaphores-cu_signal}
use isaac_metal_bridge.Examples.Driver.{vulkan, start}

-- The first transfer is interrupted, every other moves at most three bytes.
abbrev halting : Device
halting zero n = interrupted
halting (suc i) n = moved (min n 3)

halting-IsDevice : IsDevice 1 halting
halting-IsDevice = record { bounded = bounded; quiet_from = quiet_from }
  where
    bounded : (i n k : ℕ) → halting i n ≡ moved k → k ≤ n
    bounded zero n k e = absurd (cc e)
    bounded (suc i) n k e = ground arith

    quiet_from : (i n : ℕ) → 1 ≤ i → halting i n ≡ interrupted → ⊥
    quiet_from zero n h e = absurd (omega arith)
    quiet_from (suc i) n h e = cc e

halting-IsWorking : IsWorking halting
halting-IsWorking = record { ne_failed = ne_failed; ne_zero = ne_zero }
  where
    ne_failed : (i n : ℕ) → 0 < n → halting i n ≢ failed
    ne_failed zero n h e = cc e
    ne_failed (suc i) n h e = cc e

    ne_zero : (i n : ℕ) → 0 < n → halting i n ≢ moved 0
    ne_zero zero n h e = cc e
    ne_zero (suc i) n h e = ground arith

abbrev transfers : Files
transfers = record { fuel = 10; pwrite = halting; pread = halting }

transfers-IsAble : IsAble 1 transfers
transfers-IsAble = record {
  writes = halting-IsDevice;
  reads = halting-IsDevice;
  fuel = omega arith;
}

abbrev timeline : SemaphoreState
timeline = record {
  device = 3;
  signaled = true;
  timeline = true;
  value = 2;
  export_handle_types = 1;
  external_fd = some 7;
}

-- The file holds 5 at first.
abbrev waiting : (ℕ → ℕ → ℕ) → Driver
waiting files = record start {
  semaphores = record { live = (24, timeline) ∷ []; members = 24 ∷ [] };
  files = files;
}

waiting-IsSound : (files : ℕ → ℕ → ℕ) → IsSound (waiting files).semaphores
unfolding lookup contains
waiting-IsSound files p = ground arith

abbrev submits : List Submit
submits =
    record { extensions = timeline_values (some (9 ∷ [])) ∷ []; waits = 24 ∷ []; signals = 24 ∷ [] }
    ∷ []

complete_queue_submit_synchronization-Runs_example :
    (r : VkResult) × (d : Driver) × (complete_queue_submit_synchronization transfers 3 submits
        (waiting (λ f a. 0))
      ≡ some (r, d))
    × Grows (waiting (λ f a. 0)) d
complete_queue_submit_synchronization-Runs_example =
    complete_queue_submit_synchronization-Runs 1 transfers transfers-IsAble 3 submits
      (waiting (λ f a. 0)) (waiting-IsSound (λ f a. 0))

abbrev shim : Semaphores
shim = record {
  semaphores = record { live = (40, record { fd = 11 }) ∷ []; members = 40 ∷ [] };
  files = λ f a. 0;
  transfers = 0;
  closed = [];
}

shim-IsSound : IsSound shim.semaphores
unfolding lookup contains
shim-IsSound p = ground arith

-- The reply of signalling 6.
abbrev signalling : Reply Semaphores (Unit {0})
unfolding cu_signal_external_semaphores_async
signalling =
    elim (cu_signal_external_semaphores_async 10 halting true
      (record { semaphore = 40; flags = 0; value = 6 } ∷ []) shim) [
        | some (done r) ↦ r
        | _ ↦ quiet shim
      ]

signalling_lem :
    cu_signal_external_semaphores_async 10 halting true
      (record { semaphore = 40; flags = 0; value = 6 } ∷ [])
      shim
    ≡ some (done signalling)
unfolding cu_signal_external_semaphores_async contains lookup
signalling_lem = refl

-- The driver's descriptor 7 is the shim's 11.
abbrev both : ℕ → ℕ → ℕ
both f a = signalling.state.files 11 a

wait_semaphores-cu_signal_example :
    (d : Driver) × (wait_semaphores transfers vulkan true 3 0 ((24, 6) ∷ []) (waiting both)
      ≡ some (success, d))
wait_semaphores-cu_signal_example =
    wait_semaphores-cu_signal 1 transfers transfers-IsAble halting-IsWorking vulkan 3 0 24 7 6 6
      timeline (waiting both) 10 1 40 halting (record { fd = 11 }) shim signalling halting-IsDevice
      (omega arith) shim-IsSound (unfold lookup in refl) signalling_lem
      (unfold cu_signal_external_semaphores_async contains lookup in refl) (omega arith)
      (λ a h. refl) (unfold lookup in refl) (waiting-IsSound both) refl (unfold lookup in refl) refl
      refl refl
