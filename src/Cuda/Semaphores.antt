-- ===== src/Cuda/Semaphores.antt =====
-- External semaphores of guest/cuda_shim/imb_cuda_shim.cpp: files of eight bytes, written and read
-- with calls that may be interrupted or move fewer bytes than asked for.
pub mod Signals
pub mod Handles
use isaac_metal_bridge.Base.{
  ℕ, zero, suc, ◌+◌, ◌-◌, ℤ, pos, Bool, true, false, not, ◌&&◌, ◌||◌, Option, none, some, List, [],
  ◌∷◌, leb, ltb, ◌==◌, if◌then◌else◌,
}
use isaac_metal_bridge.Cuda.Result.{
  Reply, Outcome, done, fault, fail, succeed, quiet, invalid_value, out_of_memory, invalid_handle,
}
use isaac_metal_bridge.Cuda.Registry.{
  Registry, is_member, object, new_object, enrol, withdraw, delete_object,
}
use isaac_metal_bridge.Cuda.External.{HandleDescriptor, opaque_fd, is_large_enough}
use isaac_metal_bridge.Cuda.Memory.Bytes.{byte_of}

pub record ExternalSemaphoreState : Type 0 where
  pub fd : ℕ

-- gExternalSemaphores, the bytes of the files by descriptor and offset, the number of transfers
-- made, and the descriptors closed, newest first.
pub record Semaphores : Type 0 where
  pub semaphores : Registry ExternalSemaphoreState
  pub files : ℕ → ℕ → ℕ
  pub transfers : ℕ
  pub closed : List ℕ

-- What `pwrite` or `pread` returns: a count, EINTR, or another error.
pub data Transfer : Type 0 where
  moved : ℕ → Transfer
  interrupted : Transfer
  failed : Transfer

-- What the k-th transfer returns when it is asked for so many bytes.
abbrev pub Device : Type 0
Device = ℕ → ℕ → Transfer

unfoldable pub cu_import_external_semaphore :
    Semaphores → Bool → Option HandleDescriptor → Option ℤ → Option ℕ → Reply Semaphores ℕ
cu_import_external_semaphore s given none status allocation = fail s invalid_value
cu_import_external_semaphore s given (some d) status allocation = elim (opaque_fd d.type d.fd) [
  | none ↦ fail s invalid_value
  | some fd ↦
      if not given || not (d.flags == 0)
      then fail s invalid_value
      else if not (is_large_enough status 8)
      then fail s invalid_value
      else elim allocation [
        | none ↦ fail s out_of_memory
        | some p ↦
            let state : ExternalSemaphoreState = record { fd = fd } in
            succeed (record s { semaphores = enrol p (new_object p state s.semaphores) }) p
      ]
]

abbrev pub counted : Semaphores → Semaphores
counted s = record s { transfers = s.transfers + 1 }

-- The transfer stored `count` bytes of the value from byte `written` on.
abbrev pub stored : Semaphores → ℕ → ℕ → ℕ → ℕ → Semaphores
stored s fd value written count = record s {
  transfers = s.transfers + 1;
  files = λ f a.
      if f == fd && (leb written a && ltb a (written + count))
      then byte_of a value
      else s.files f a;
}

-- The loop that writes a value, on fuel: whether it succeeds, and the state after.
unfoldable pub write_value : ℕ → Device → ℕ → ℕ → ℕ → Semaphores → Option (Bool × Semaphores)
write_value zero pwrite fd value written s = none
write_value (suc n) pwrite fd value written s =
    if leb 8 written then some (true, s) else elim (pwrite s.transfers (8 - written)) [
      | interrupted ↦ write_value n pwrite fd value written (counted s)
      | failed ↦ some (false, counted s)
      | moved count ↦
          if count == 0
          then some (false, counted s)
          else write_value n pwrite fd value (written + count) (stored s fd value written count)
    ]

-- The loop that reads a value; nothing comes of the bytes.
unfoldable pub read_value : ℕ → Device → ℕ → Semaphores → Option (Bool × Semaphores)
read_value zero pread read s = none
read_value (suc n) pread read s =
    if leb 8 read then some (true, s) else elim (pread s.transfers (8 - read)) [
      | interrupted ↦ read_value n pread read (counted s)
      | failed ↦ some (false, counted s)
      | moved count ↦
          if count == 0
          then some (false, counted s)
          else read_value n pread (read + count) (counted s)
    ]

pub record FenceParams : Type 0 where
  pub semaphore : ℕ
  pub flags : ℕ
  pub value : ℕ

-- The value written for a fence: 1 in place of 0.
abbrev pub signalled_value : ℕ → ℕ
signalled_value value = if value == 0 then 1 else value

-- The loop over the semaphores; the Option is the fuel of the transfers.
unfoldable pub signal_all :
    ℕ → Device → List FenceParams → Semaphores → Option (Outcome Semaphores (Unit {0}))
unfolding write_value
signal_all n pwrite [] s = some (done (quiet s))
signal_all n pwrite (p ∷ ps) s =
    if not (is_member p.semaphore s.semaphores) || not (p.flags == 0)
    then some (done (fail s invalid_handle))
    else elim (object p.semaphore s.semaphores) [
      | none ↦ some fault
      | some state ↦ elim (write_value n pwrite state.fd (signalled_value p.value) 0 s) [
        | none ↦ none
        | some (true, s') ↦ signal_all n pwrite ps s'
        | some (false, s') ↦ some (done (fail s' invalid_handle))
      ]
    ]

unfoldable pub wait_all :
    ℕ → Device → List FenceParams → Semaphores → Option (Outcome Semaphores (Unit {0}))
unfolding read_value
wait_all n pread [] s = some (done (quiet s))
wait_all n pread (p ∷ ps) s =
    if not (is_member p.semaphore s.semaphores) || not (p.flags == 0)
    then some (done (fail s invalid_handle))
    else elim (object p.semaphore s.semaphores) [
      | none ↦ some fault
      | some state ↦ elim (read_value n pread 0 s) [
        | none ↦ none
        | some (true, s') ↦ wait_all n pread ps s'
        | some (false, s') ↦ some (done (fail s' invalid_handle))
      ]
    ]

-- `given` is false if one of the arrays is null.
unfoldable pub cu_signal_external_semaphores_async :
    ℕ → Device → Bool → List FenceParams → Semaphores → Option (Outcome Semaphores (Unit {0}))
unfolding signal_all
cu_signal_external_semaphores_async n pwrite given [] s = signal_all n pwrite [] s
cu_signal_external_semaphores_async n pwrite given (p ∷ ps) s =
    if not given then some (done (fail s invalid_value)) else signal_all n pwrite (p ∷ ps) s

unfoldable pub cu_wait_external_semaphores_async :
    ℕ → Device → Bool → List FenceParams → Semaphores → Option (Outcome Semaphores (Unit {0}))
unfolding wait_all
cu_wait_external_semaphores_async n pread given [] s = wait_all n pread [] s
cu_wait_external_semaphores_async n pread given (p ∷ ps) s =
    if not given then some (done (fail s invalid_value)) else wait_all n pread (p ∷ ps) s

unfoldable pub cu_destroy_external_semaphore : Semaphores → ℕ → Outcome Semaphores (Unit {0})
cu_destroy_external_semaphore s semaphore =
    if semaphore == 0
    then done (quiet s)
    else if not (is_member semaphore s.semaphores)
    then done (fail s invalid_handle)
    else elim (object semaphore s.semaphores) [
      | none ↦ fault
      | some state ↦ elim (delete_object semaphore (withdraw semaphore s.semaphores)) [
        | none ↦ fault
        | some semaphores ↦
            done (quiet (record s { semaphores = semaphores; closed = state.fd ∷ s.closed }))
      ]
    ]
