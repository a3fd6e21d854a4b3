-- ===== src/Icd/Semaphores.antt =====
-- Semaphores of guest/vulkan_icd/imb_vulkan_icd.cpp, binary ones and timelines, and the files of
-- eight bytes that share them.
pub mod Calls
pub mod Counters
pub mod Loops
pub mod Grows
pub mod Submissions
pub mod Signalled
use isaac_metal_bridge.Base.{
  ℕ, zero, suc, ◌+◌, ◌-◌, ◌*◌, ◌^◌, Bool, true, false, ◌&&◌, ◌||◌, not, Option, none, some, List,
  [], ◌∷◌, leb, ltb, ◌==◌, if◌then◌else◌, max, add64, get_elem?,
}
use isaac_metal_bridge.Cuda.Registry.{Registry, is_member, object, store_object}
use isaac_metal_bridge.Cuda.Memory.Bytes.{byte_of}
use isaac_metal_bridge.Cuda.Semaphores.{Device, moved, interrupted, failed}
use isaac_metal_bridge.Icd.Result.{
  VkResult, success, initialization_failed, invalid_external_handle,
}
use isaac_metal_bridge.Icd.Driver.{Driver, SemaphoreState, Step, and_then}
use isaac_metal_bridge.Icd.Driver.Transfers.{within, counted}

-- The transfers, and the fuel of each loop around them.
pub record Files : Type 0 where
  pub fuel : ℕ
  pub pwrite : Device
  pub pread : Device

abbrev pub store_semaphore : ℕ → SemaphoreState → Driver → Driver
store_semaphore p s d = record d { semaphores = store_object p s d.semaphores }

-- `count` bytes of the value from byte `written` on are stored.
abbrev pub stored_value : Driver → ℕ → ℕ → ℕ → ℕ → Driver
stored_value d fd value written count = record d {
  transfers = d.transfers + 1;
  files = λ f a. if f == fd && within written count a then byte_of a value else d.files f a;
}

unfoldable pub write_payload : ℕ → Device → ℕ → ℕ → ℕ → Driver → Option (Bool × Driver)
write_payload zero pwrite fd value written d = none
write_payload (suc n) pwrite fd value written d =
    if leb 8 written then some (true, d) else elim (pwrite d.transfers (8 - written)) [
      | interrupted ↦ write_payload n pwrite fd value written (counted d)
      | failed ↦ some (false, counted d)
      | moved count ↦ elim (count == 0) [
        | true ↦ some (false, counted d)
        | false ↦
            write_payload n pwrite fd value (written + count)
              (stored_value d fd value written count)
      ]
    ]

-- The bytes of the payload, zero at first.
unfoldable pub read_payload :
    ℕ → Device → ℕ → (ℕ → ℕ) → ℕ → Driver → Option (Bool × (ℕ → ℕ) × Driver)
read_payload zero pread fd bytes read d = none
read_payload (suc n) pread fd bytes read d =
    if leb 8 read then some (true, bytes, d) else elim (pread d.transfers (8 - read)) [
      | interrupted ↦ read_payload n pread fd bytes read (counted d)
      | failed ↦ some (false, bytes, counted d)
      | moved count ↦ elim (count == 0) [
        | true ↦ some (false, bytes, counted d)
        | false ↦
            read_payload n pread fd (λ a. if within read count a then d.files fd a else bytes a)
              (read + count) (counted d)
      ]
    ]

-- The number that eight bytes stand for, low byte first.
abbrev pub payload_of : (ℕ → ℕ) → ℕ
payload_of b =
    b 0
    + 2 ^ 8 * b 1
    + 2 ^ 16 * b 2
    + 2 ^ 24 * b 3
    + 2 ^ 32 * b 4
    + 2 ^ 40 * b 5
    + 2 ^ 48 * b 6
    + 2 ^ 56 * b 7

-- The value of a timeline, 0 or 1 for a binary semaphore.
abbrev pub counter : SemaphoreState → ℕ
counter s = if s.timeline then s.value else (if s.signaled then 1 else 0)

unfoldable pub sync_semaphore_to_external_fd : Files → ℕ → Driver → Step
unfolding write_payload
sync_semaphore_to_external_fd e p d =
    if p == 0 then some (success, d) else elim (object p d.semaphores) [
      | none ↦ none
      | some s ↦ elim s.external_fd [
        | none ↦ some (success, d)
        | some fd ↦ elim (write_payload e.fuel e.pwrite fd (counter s) 0 d) [
          | none ↦ none
          | some (true, d') ↦ some (success, d')
          | some (false, d') ↦ some (invalid_external_handle, d')
        ]
      ]
    ]

-- What a payload that is read makes of the semaphore.
abbrev pub received : ℕ → SemaphoreState → SemaphoreState
received payload s =
    if s.timeline
    then record s { value = max s.value payload; signaled = not (max s.value payload == 0) }
    else record s { signaled = not (payload == 0) }

-- The payload that the file holds, if the semaphore has one.
unfoldable pub receive : Files → ℕ → SemaphoreState → Option ℕ → Driver → Step
unfolding read_payload
receive e p s none d = some (success, d)
receive e p s (some fd) d = elim (read_payload e.fuel e.pread fd (λ a. 0) 0 d) [
  | none ↦ none
  | some (false, bytes, d') ↦ some (invalid_external_handle, d')
  | some (true, bytes, d') ↦ some (success, store_semaphore p (received (payload_of bytes) s) d')
]

unfoldable pub refresh_semaphore_from_external_fd : Files → ℕ → Driver → Step
unfolding receive
refresh_semaphore_from_external_fd e p d =
    if p == 0
    then some (success, d)
    else elim (object p d.semaphores) [ none ↦ none | some s ↦ receive e p s s.external_fd d ]

-- A change of a semaphore that is in the set.
unfoldable pub change : (SemaphoreState → SemaphoreState) → ℕ → Driver → Option Driver
change f p d = elim (object p d.semaphores) [
  | none ↦ none
  | some s ↦ some (store_semaphore p (f s) d)
]

abbrev pub and_change : (SemaphoreState → SemaphoreState) → ℕ → Driver → (Driver → Step) → Step
and_change f p d k = elim (change f p d) [ none ↦ none | some d' ↦ k d' ]

-- The test that a handle is a semaphore of the device: `none` if it is dead.
unfoldable pub belongs : ℕ → ℕ → Driver → Option Bool
belongs device p d =
    if not (is_member p d.semaphores)
    then some false
    else elim (object p d.semaphores) [ none ↦ none | some s ↦ some (s.device == device) ]

-- One wait of a submission: a binary semaphore is taken back.
abbrev pub taken_back : SemaphoreState → SemaphoreState
taken_back s = if s.timeline then s else record s { signaled = false }

unfoldable pub wait_one : Files → ℕ → ℕ → Driver → Step
unfolding refresh_semaphore_from_external_fd sync_semaphore_to_external_fd change belongs
wait_one e device p d = elim (belongs device p d) [
  | none ↦ none
  | some false ↦ some (initialization_failed, d)
  | some true ↦
      and_then (refresh_semaphore_from_external_fd e p d)
        (λ (d' : Driver). and_change taken_back p d' (sync_semaphore_to_external_fd e p))
]

unfoldable pub wait_each : Files → ℕ → List ℕ → Driver → Step
unfolding wait_one
wait_each e device [] d = some (success, d)
wait_each e device (p ∷ ps) d = and_then (wait_one e device p d) (wait_each e device ps)

-- A timeline goes to the value of the submission if there is one, else one further.
abbrev pub completed : Option ℕ → SemaphoreState → SemaphoreState
completed given s =
    if s.timeline
    then record s {
      value = max s.value (elim given [ none ↦ add64 s.value 1 | some v ↦ v ]);
      signaled = true;
    }
    else record s { signaled = true }

unfoldable pub signal_one : Files → ℕ → ℕ → Option ℕ → Driver → Step
unfolding sync_semaphore_to_external_fd change belongs
signal_one e device p given d = elim (belongs device p d) [
  | none ↦ none
  | some false ↦ some (initialization_failed, d)
  | some true ↦ and_change (completed given) p d (sync_semaphore_to_external_fd e p)
]

-- The values of the submission, `none` if it has none.
abbrev pub value_at : Option (List ℕ) → ℕ → Option ℕ
value_at none index = none
value_at (some values) index = get_elem? values index

unfoldable pub signal_each : Files → ℕ → Option (List ℕ) → ℕ → List ℕ → Driver → Step
unfolding signal_one
signal_each e device values index [] d = some (success, d)
signal_each e device values index (p ∷ ps) d =
    and_then (signal_one e device p (value_at values index) d)
      (signal_each e device values (index + 1) ps)

-- A structure of the chain of a submission.
pub data SubmitExtension : Type 0 where
  timeline_values : Option (List ℕ) → SubmitExtension
  other : SubmitExtension

-- The first timeline structure.
unfoldable pub values_of : List SubmitExtension → Option (List ℕ)
values_of [] = none
values_of (timeline_values v ∷ es) = v
values_of (other ∷ es) = values_of es

pub record Submit : Type 0 where
  pub extensions : List SubmitExtension
  pub waits : List ℕ
  pub signals : List ℕ

unfoldable pub complete_queue_submit_synchronization : Files → ℕ → List Submit → Driver → Step
unfolding wait_each signal_each values_of
complete_queue_submit_synchronization e device [] d = some (success, d)
complete_queue_submit_synchronization e device (s ∷ ss) d =
    and_then
      (and_then (wait_each e device s.waits d)
        (signal_each e device (values_of s.extensions) 0 s.signals))
      (complete_queue_submit_synchronization e device ss)
