-- ===== src/Icd/Semaphores/Counters.antt =====
-- Reading, signalling and waiting for semaphores of guest/vulkan_icd/imb_vulkan_icd.cpp.
use isaac_metal_bridge.Base.{
  ℕ, Bool, true, false, ◌&&◌, ◌||◌, not, Option, none, some, List, [], ◌∷◌, leb, ◌==◌,
  if◌then◌else◌, max, bit_and,
}
use isaac_metal_bridge.Cuda.Registry.{object}
use isaac_metal_bridge.Icd.Result.{
  VkResult, success, timeout, initialization_failed, device_lost, Answer, reject, answer,
}
use isaac_metal_bridge.Icd.Driver.{Driver, Enums, SemaphoreState, Step, valid_device}
use isaac_metal_bridge.Icd.Semaphores.{
  Files, counter, sync_semaphore_to_external_fd, refresh_semaphore_from_external_fd, and_change,
  belongs,
}

unfoldable pub get_semaphore_counter_value :
    Files → Bool → ℕ → ℕ → Driver → Option (Answer Driver ℕ)
get_semaphore_counter_value e given device p d =
    if not given || p == 0
    then some (reject d initialization_failed)
    else if not (valid_device device d)
    then some (reject d device_lost)
    else elim (belongs device p d) [
      | none ↦ none
      | some false ↦ some (reject d device_lost)
      | some true ↦ elim (refresh_semaphore_from_external_fd e p d) [
        | none ↦ none
        | some (success, d') ↦ elim (object p d'.semaphores) [
          | none ↦ none
          | some s ↦ some (answer d' (counter s))
        ]
        | some (error, d') ↦ some (reject d' error)
      ]
    ]

abbrev pub raised : ℕ → SemaphoreState → SemaphoreState
raised value s =
    if s.timeline
    then record s { value = max s.value value; signaled = true }
    else record s { signaled = true }

unfoldable pub signal_semaphore : Files → Bool → ℕ → ℕ → ℕ → Driver → Step
signal_semaphore e given device p value d =
    if not given || p == 0
    then some (initialization_failed, d)
    else if not (valid_device device d)
    then some (device_lost, d)
    else elim (belongs device p d) [
      | none ↦ none
      | some false ↦ some (device_lost, d)
      | some true ↦ and_change (raised value) p d (sync_semaphore_to_external_fd e p)
    ]

abbrev pub satisfies : ℕ → SemaphoreState → Bool
satisfies value s = if s.timeline then leb value s.value else s.signaled

-- One semaphore of a wait: whether it is satisfied.
unfoldable pub check_one : Files → ℕ → ℕ → ℕ → Driver → Option (VkResult × Bool × Driver)
check_one e device p value d = elim (belongs device p d) [
  | none ↦ none
  | some false ↦ some (device_lost, false, d)
  | some true ↦ elim (refresh_semaphore_from_external_fd e p d) [
    | none ↦ none
    | some (success, d') ↦ elim (object p d'.semaphores) [
      | none ↦ none
      | some s ↦ some (success, satisfies value s, d')
    ]
    | some (error, d') ↦ some (error, false, d')
  ]
]

-- The loop over the semaphores and their values, with what was found so far.
unfoldable pub check_each : Files → ℕ → List (ℕ × ℕ) → Bool → Bool → Bool → Driver → Step
unfolding check_one
check_each e device [] wait_any any all d =
    some (if (if wait_any then any else all) then success else timeout, d)
check_each e device ((p, value) ∷ ps) wait_any any all d = elim (check_one e device p value d) [
  | none ↦ none
  | some (success, satisfied, d') ↦
      check_each e device ps wait_any (any || satisfied) (all && satisfied) d'
  | some (error, satisfied, d') ↦ some (error, d')
]

-- `given` is false if the structure, or an array that is needed, is null.
unfoldable pub wait_semaphores : Files → Enums → Bool → ℕ → ℕ → List (ℕ × ℕ) → Driver → Step
unfolding check_each
wait_semaphores e vk given device flags semaphores d =
    if not given
    then some (initialization_failed, d)
    else if not (valid_device device d)
    then some (device_lost, d)
    else check_each e device semaphores (not (bit_and flags vk.semaphore_wait_any == 0)) false true
        d
