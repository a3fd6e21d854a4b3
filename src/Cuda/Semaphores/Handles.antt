-- ===== src/Cuda/Semaphores/Handles.antt =====
-- Waiting on and destroying the external semaphores of guest/cuda_shim/imb_cuda_shim.cpp.
use isaac_metal_bridge.Base.{
  ℕ, zero, suc, ◌+◌, ◌-◌, ◌≤◌, ◌<◌, ◌≡◌, ◌≢◌, refl, ap, sym, ◌∙◌, inl, inr, Option-cases,
  Bool-cases, Bool, true, false, not, ◌||◌, some, List, [], ◌∷◌, leb, ◌==◌, lookup-erase,
  contains-remove, erase, remove, arith,
}
use isaac_metal_bridge.Cuda.Result.{Reply, done, quiet, fail, invalid_handle}
use isaac_metal_bridge.Cuda.Registry.{Registry, is_member, is_live, object, IsSound, delete_object}
use isaac_metal_bridge.Cuda.Semaphores.{
  Semaphores, ExternalSemaphoreState, Device, FenceParams, counted, read_value, wait_all,
  cu_wait_external_semaphores_async, cu_destroy_external_semaphore,
}
use isaac_metal_bridge.Cuda.Semaphores.Signals.{IsDevice, Transfer-cases, interrupted-before}

-- Only the number of transfers grew.
pub record IsRead (s s' : Semaphores) : Type 0 where
  pub kept : s'.semaphores ≡ s.semaphores
  pub files : s'.files ≡ s.files
  pub closed : s'.closed ≡ s.closed
  pub later : s.transfers ≤ s'.transfers

IsRead-refl : (s : Semaphores) → IsRead s s
IsRead-refl s = record { kept = refl; files = refl; closed = refl; later = omega arith }

IsRead-counted : (s : Semaphores) → IsRead s (counted s)
IsRead-counted s = record { kept = refl; files = refl; closed = refl; later = omega arith }

IsRead-trans : (r s t : Semaphores) → IsRead r s → IsRead s t → IsRead r t
IsRead-trans r s t x y = record {
  kept = y.kept ∙ x.kept;
  files = y.files ∙ x.files;
  closed = y.closed ∙ x.closed;
  later = omega (arith, x.later, y.later);
}

module _ (m : ℕ) (pread : Device) (device : IsDevice m pread) where
  read_value_lem :
      (n read : ℕ) (s : Semaphores)
      → read ≤ 8
      → (m - s.transfers) + (8 - read) < n
      → (b : Bool) × (s' : Semaphores) × (read_value n pread read s ≡ some (b, s')) × IsRead s s'
  unfolding read_value
  read_value_lem zero read s h fuel = absurd (omega arith)
  read_value_lem (suc n) read s h fuel = elim (Bool-cases (leb 8 read)) [
    | inl all ↦ (true, s, rw all refl, IsRead-refl s)
    | inr part ↦ elim (Transfer-cases (pread s.transfers (8 - read))) [
      | inr (inr e) ↦ (false, counted s, rw (part, e, read_value) refl, IsRead-counted s)
      | inr (inl e) ↦
          let early = interrupted-before m pread device s.transfers (8 - read) e in
          let r = read_value_lem n read (counted s) h (omega (arith, early)) in
          (
            r.0,
            r.1,
            rw (part, e, read_value) r.2,
            IsRead-trans s (counted s) r.1 (IsRead-counted s) r.3,
          )
      | inl (k, e) ↦ elim (Bool-cases (k == 0)) [
        | inl stuck ↦ (false, counted s, rw (part, e, read_value, stuck) refl, IsRead-counted s)
        | inr moves ↦
            let bound = device.bounded s.transfers (8 - read) k e in
            let r = read_value_lem n (read + k) (counted s) (ground arith) (ground arith) in
            (
              r.0,
              r.1,
              rw (part, e, read_value, moves) r.2,
              IsRead-trans s (counted s) r.1 (IsRead-counted s) r.3,
            )
      ]
    ]
  ]

  wait_all_lem :
      (ps : List FenceParams) (n : ℕ) (s : Semaphores)
      → m + 8 < n
      → IsSound s.semaphores
      → (r : Reply Semaphores (Unit {0})) × (wait_all n pread ps s ≡ some (done r))
        × IsRead s r.state
  unfolding wait_all
  wait_all_lem [] n s fuel v = (quiet s, refl, IsRead-refl s)
  wait_all_lem (p ∷ ps) n s fuel v =
      elim (Bool-cases (not (is_member p.semaphore s.semaphores) || not (p.flags == 0))) [
        | inl bad ↦ (fail s invalid_handle, rw bad refl, IsRead-refl s)
        | inr good ↦ elim (Option-cases (object p.semaphore s.semaphores)) [
          | inl dead ↦ absurd (ground (arith, v p.semaphore))
          | inr (state, e) ↦
              let w = read_value_lem n 0 s (omega arith) (omega arith) in
              elim (Bool-cases w.0) [
                | inr broke ↦
                    (fail w.1 invalid_handle, rw (good, e, wait_all, w.2, broke) refl, w.3)
                | inl through ↦
                    let r = wait_all_lem ps n w.1 fuel (λ q.
                      ap (λ (x : Registry ExternalSemaphoreState). is_member q x) w.3.kept
                      ∙ v q
                      ∙ sym (ap (λ (x : Registry ExternalSemaphoreState). is_live q x) w.3.kept)) in
                    (
                      r.0,
                      rw (good, e, wait_all, w.2, through) r.1,
                      IsRead-trans s w.1 r.0.state w.3 r.2,
                    )
              ]
        ]
      ]

-- Where the handles are the live semaphores, no transfer moves more than it was asked for and none
-- from the m-th on is interrupted, waiting for any list of fences returns, with more than m + 8
-- turns of fuel for each value and without an access to a dead object, and changes neither the
-- semaphores nor the files nor the descriptors that are closed.
pub cu_wait_external_semaphores_async_lem :
    (m n : ℕ) (pread : Device) (ps : List FenceParams) (s : Semaphores)
    → IsDevice m pread
    → m + 8 < n
    → IsSound s.semaphores
    → (r : Reply Semaphores (Unit {0})) × (cu_wait_external_semaphores_async n pread true ps s
        ≡ some (done r))
      × IsRead s r.state
unfolding cu_wait_external_semaphores_async
cu_wait_external_semaphores_async_lem m n pread [] s device fuel v =
    wait_all_lem m pread device [] n s fuel v
cu_wait_external_semaphores_async_lem m n pread (p ∷ ps) s device fuel v =
    wait_all_lem m pread device (p ∷ ps) n s fuel v

-- Where the handles are the live semaphores, destroying a live one that is not null succeeds,
-- closes its descriptor and leaves a state whose handles are the live semaphores; destroying it
-- again is refused and closes nothing.
pub cu_destroy_external_semaphore_once :
    (s : Semaphores) (semaphore : ℕ) (state : ExternalSemaphoreState)
    → IsSound s.semaphores
    → semaphore ≢ 0
    → object semaphore s.semaphores ≡ some state
    → (s' : Semaphores) × (cu_destroy_external_semaphore s semaphore ≡ done (quiet s'))
      × (s'.closed ≡ state.fd ∷ s.closed)
      × IsSound s'.semaphores
      × (cu_destroy_external_semaphore s' semaphore ≡ done (fail s' invalid_handle))
unfolding cu_destroy_external_semaphore delete_object
cu_destroy_external_semaphore_once s semaphore state v nonnull found =
    let left : Registry ExternalSemaphoreState = record {
      live = erase semaphore s.semaphores.live;
      members = remove semaphore s.semaphores.members;
    } in
    (
      record s { semaphores = left; closed = state.fd ∷ s.closed },
      ground (arith, v semaphore),
      refl,
      λ q. ground (
        arith,
        contains-remove semaphore q s.semaphores.members,
        lookup-erase semaphore q s.semaphores.live,
        v q,
      ),
      ground (arith, contains-remove semaphore semaphore s.semaphores.members),
    )
