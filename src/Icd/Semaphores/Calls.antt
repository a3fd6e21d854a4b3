-- ===== src/Icd/Semaphores/Calls.antt =====
-- Creating, destroying, exporting and importing semaphores of guest/vulkan_icd/imb_vulkan_icd.cpp.
use isaac_metal_bridge.Base.{
  ℕ, ℤ, pos, Bool, false, ◌&&◌, ◌||◌, not, Option, none, some, List, [], ◌∷◌, leb, ◌==◌,
  if◌then◌else◌, bit_and, bit_or, put,
}
use isaac_metal_bridge.Cuda.Registry.{is_member, object, new_object, enrol, withdraw, delete_object}
use isaac_metal_bridge.Icd.Result.{
  VkResult, success, initialization_failed, invalid_external_handle, out_of_host_memory,
  too_many_objects, Answer, reject, answer,
}
use isaac_metal_bridge.Icd.Driver.{
  Driver, Enums, SemaphoreState, Step, and_then, valid_device, without_bit,
}
use isaac_metal_bridge.Icd.Semaphores.{
  Files, store_semaphore, sync_semaphore_to_external_fd, refresh_semaphore_from_external_fd,
  and_change,
}

pub data SemaphoreExtension : Type 0 where
  -- the type, the initial value
  type_info : ℕ → ℕ → SemaphoreExtension
  export_semaphore : ℕ → SemaphoreExtension
  other : SemaphoreExtension

-- The loop over the chain: `none` for a type that is neither.
unfoldable pub configure : Enums → List SemaphoreExtension → SemaphoreState → Option SemaphoreState
configure vk [] s = some s
configure vk (type_info t initial ∷ es) s =
    if not (t == vk.semaphore_type_binary) && not (t == vk.semaphore_type_timeline)
    then none
    else (let timeline = t == vk.semaphore_type_timeline in
        configure vk es (record s {
          timeline = timeline;
          value = if timeline then initial else 0;
          signaled = timeline && not (initial == 0);
        }))
configure vk (export_semaphore types ∷ es) s =
    configure vk es (record s { export_handle_types = types })
configure vk (other ∷ es) s = configure vk es s

abbrev pub fresh_semaphore : ℕ → SemaphoreState
fresh_semaphore device = record {
  device = device;
  signaled = false;
  timeline = false;
  value = 0;
  export_handle_types = 0;
  external_fd = none;
}

-- The new object is deleted again where the call fails.
unfoldable pub create_semaphore :
    Enums → Bool → ℕ → ℕ → List SemaphoreExtension → Option ℕ → Driver → Answer Driver ℕ
unfolding configure
create_semaphore vk given device flags extensions allocation d =
    if not given || not (flags == 0)
    then reject d initialization_failed
    else if not (valid_device device d)
    then reject d initialization_failed
    else elim allocation [
      | none ↦ reject d out_of_host_memory
      | some p ↦ elim (configure vk extensions (fresh_semaphore device)) [
        | none ↦ reject d initialization_failed
        | some s ↦
            if not (without_bit s.export_handle_types vk.semaphore_handle_opaque_fd == 0)
            then reject d invalid_external_handle
            else answer (record d { semaphores = enrol p (new_object p s d.semaphores) }) p
      ]
    ]

unfoldable pub destroy_semaphore : ℕ → Driver → Option Driver
destroy_semaphore p d =
    if p == 0 || not (is_member p d.semaphores) then some d else elim (object p d.semaphores) [
      | none ↦ none
      | some s ↦ elim (delete_object p (withdraw p d.semaphores)) [
        | none ↦ none
        | some semaphores ↦ some (record d {
          semaphores = semaphores;
          closed = elim s.external_fd [ none ↦ d.closed | some fd ↦ fd ∷ d.closed ];
        })
      ]
    ]

-- The file of a semaphore that has none yet.
unfoldable pub make_semaphore_file :
    ℕ → SemaphoreState → Option ℕ → Bool → Driver → VkResult × Driver
make_semaphore_file p s none truncates d = (too_many_objects, d)
make_semaphore_file p s (some fd) truncates d =
    if not truncates then (out_of_host_memory, record d { closed = fd ∷ d.closed }) else (
      success,
      record d {
        files = λ f a. if f == fd then 0 else d.files f a;
        semaphores = (store_semaphore p (record s { external_fd = some fd }) d).semaphores;
      },
    )

-- `dup` of the descriptor that the semaphore keeps.
unfoldable pub hand_out_semaphore : ℕ → Option ℕ → Driver → Option (Answer Driver ℕ)
hand_out_semaphore p none d = some (reject d too_many_objects)
hand_out_semaphore p (some output) d = elim (object p d.semaphores) [
  | none ↦ none
  | some s ↦ elim s.external_fd [
    | none ↦ some (reject d too_many_objects)
    | some fd ↦ some (answer (record d { duplicates = put output fd d.duplicates }) output)
  ]
]

unfoldable pub share_semaphore :
    Files → ℕ → SemaphoreState → Option ℕ → Bool → Option ℕ → Driver → Option (Answer Driver ℕ)
unfolding make_semaphore_file hand_out_semaphore
share_semaphore e p s file truncates output d =
    let made : VkResult × Driver = elim s.external_fd [
      | none ↦ make_semaphore_file p s file truncates d
      | some fd ↦ (success, d)
    ] in
    elim (and_then (some made) (sync_semaphore_to_external_fd e p)) [
      | none ↦ none
      | some (success, d') ↦ hand_out_semaphore p output d'
      | some (error, d') ↦ some (reject d' error)
    ]

unfoldable pub get_semaphore_fd :
    Files
    → Enums
    → Bool
    → ℕ
    → ℕ
    → ℕ
    → Option ℕ
    → Bool
    → Option ℕ
    → Driver
    → Option (Answer Driver ℕ)
unfolding share_semaphore
get_semaphore_fd e vk given device p handle_type file truncates output d =
    if not given || not (handle_type == vk.semaphore_handle_opaque_fd)
    then some (reject d invalid_external_handle)
    else if not (valid_device device d) || not (is_member p d.semaphores)
    then some (reject d invalid_external_handle)
    else elim (object p d.semaphores) [
      | none ↦ none
      | some s ↦
          if not (s.device == device)
            || bit_and s.export_handle_types vk.semaphore_handle_opaque_fd == 0
          then some (reject d invalid_external_handle)
          else share_semaphore e p s file truncates output d
    ]

-- `externalFD = -1`.
abbrev pub without_fd : SemaphoreState → SemaphoreState
without_fd s = record s { external_fd = none }

-- The semaphore takes the descriptor, and closes the one it had.
abbrev pub with_fd : Enums → ℕ → SemaphoreState → ℕ → Driver → Driver
with_fd vk p s fd d = record d {
  closed = elim s.external_fd [ none ↦ d.closed | some old ↦ old ∷ d.closed ];
  semaphores =
      (store_semaphore p
        (record s {
          external_fd = some fd;
          export_handle_types = bit_or s.export_handle_types vk.semaphore_handle_opaque_fd;
        })
        d).semaphores;
}

unfoldable pub take_file : Files → Enums → ℕ → SemaphoreState → ℕ → Driver → Step
take_file e vk p s fd d = elim (refresh_semaphore_from_external_fd e p (with_fd vk p s fd d)) [
  | none ↦ none
  | some (success, d') ↦ some (success, d')
  | some (error, d') ↦ and_change without_fd p d' (λ (d'' : Driver). some (error, d''))
]

pub record ImportInfo : Type 0 where
  pub semaphore : ℕ
  pub handle_type : ℕ
  pub fd : ℤ
  pub flags : ℕ

abbrev pub holds_value : Option ℤ → Bool
holds_value (some (pos n)) = leb 8 n
holds_value _ = false

-- `status` is the size that `fstat` shows, `none` if it fails.
unfoldable pub import_semaphore_fd :
    Files → Enums → Bool → ℕ → ImportInfo → Option ℤ → Driver → Step
unfolding take_file
import_semaphore_fd e vk given device info status d = elim info.fd [
  | pos fd ↦
      if not given
        || (not (info.handle_type == vk.semaphore_handle_opaque_fd)
            || not (without_bit info.flags vk.semaphore_import_temporary == 0))
      then some (invalid_external_handle, d)
      else if not (valid_device device d) || not (is_member info.semaphore d.semaphores)
      then some (invalid_external_handle, d)
      else elim (object info.semaphore d.semaphores) [
        | none ↦ none
        | some s ↦
            if not (s.device == device) || not (holds_value status)
            then some (invalid_external_handle, d)
            else take_file e vk info.semaphore s fd d
      ]
  | _ ↦ some (invalid_external_handle, d)
]
