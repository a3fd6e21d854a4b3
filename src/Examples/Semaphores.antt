-- ===== src/Examples/Semaphores.antt =====
-- External semaphores of guest/cuda_shim/imb_cuda_shim.cpp at concrete inputs.
use isaac_metal_bridge.Base.{
  ℕ, zero, suc, ◌≤◌, ◌≡◌, true, some, List, [], ◌∷◌, lookup, contains, min, arith,
}
use isaac_metal_bridge.Cuda.Result.{Reply, done, success}
use isaac_metal_bridge.Cuda.Registry.{IsSound}
use isaac_metal_bridge.Cuda.Semaphores.{
  Semaphores, Device, moved, interrupted, FenceParams, cu_signal_external_semaphores_async,
  cu_wait_external_semaphores_async,
}
use isaac_metal_bridge.Cuda.Semaphores.Signals.{
  IsDevice, files_after, cu_signal_external_semaphores_async_lem,
}
use isaac_metal_bridge.Cuda.Semaphores.Handles.{IsRead, cu_wait_external_semaphores_async_lem}

-- The first transfer is interrupted, every other moves at most three bytes.
abbrev slow : Device
slow zero n = interrupted
slow (suc i) n = moved (min n 3)

slow-IsDevice : IsDevice 1 slow
slow-IsDevice = record { bounded = bounded; quiet_from = quiet_from }
  where
    bounded : (i n k : ℕ) → slow i n ≡ moved k → k ≤ n
    bounded zero n k e = absurd (cc e)
    bounded (suc i) n k e = ground arith

    quiet_from : (i n : ℕ) → 1 ≤ i → slow i n ≡ interrupted → ⊥
    quiet_from zero n h e = absurd (omega arith)
    quiet_from (suc i) n h e = cc e

abbrev one_semaphore : Semaphores
one_semaphore = record {
  semaphores = record { live = (16, record { fd = 7 }) ∷ []; members = 16 ∷ [] };
  files = λ f a. 0;
  transfers = 0;
  closed = [];
}

one_semaphore-IsSound : IsSound one_semaphore.semaphores
unfolding lookup contains
one_semaphore-IsSound p = ground arith

abbrev fences : List FenceParams
fences =
    record { semaphore = 16; flags = 0; value = 0 }
    ∷ record { semaphore = 16; flags = 0; value = 258 }
    ∷ []

cu_signal_external_semaphores_async_lem_example :
    (r : Reply Semaphores (Unit {0})) × (cu_signal_external_semaphores_async 10 slow true fences
        one_semaphore
      ≡ some (done r))
    × (r.state.semaphores ≡ one_semaphore.semaphores)
    × (r.result ≡ success
        → (f a : ℕ)
        → r.state.files f a ≡ files_after one_semaphore.semaphores fences one_semaphore.files f a)
cu_signal_external_semaphores_async_lem_example =
    cu_signal_external_semaphores_async_lem 1 10 slow fences one_semaphore slow-IsDevice
      (omega arith) one_semaphore-IsSound

cu_wait_external_semaphores_async_lem_example :
    (r : Reply Semaphores (Unit {0})) × (cu_wait_external_semaphores_async 10 slow true fences
        one_semaphore
      ≡ some (done r))
    × IsRead one_semaphore r.state
cu_wait_external_semaphores_async_lem_example =
    cu_wait_external_semaphores_async_lem 1 10 slow fences one_semaphore slow-IsDevice (omega arith)
      one_semaphore-IsSound
