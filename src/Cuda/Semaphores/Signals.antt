-- ===== src/Cuda/Semaphores/Signals.antt =====
-- What signalling the external semaphores of guest/cuda_shim/imb_cuda_shim.cpp writes, and that the
-- loops around `pwrite` and `pread` end.
use isaac_metal_bridge.Base.{
  ℕ, zero, suc, ◌+◌, ◌-◌, ◌≤◌, ◌<◌, ◌≡◌, ◌≢◌, refl, ap, sym, ◌∙◌, ◌⊎◌, inl, inr, Option-cases,
  Bool-cases, Bool, true, false, ◌&&◌, not, ◌||◌, none, some, List, [], ◌∷◌, leb, ltb, ◌==◌,
  if◌then◌else◌, arith,
}
use isaac_metal_bridge.Cuda.Result.{Reply, done, quiet, fail, success, invalid_handle}
use isaac_metal_bridge.Cuda.Registry.{Registry, is_member, is_live, object, IsSound}
use isaac_metal_bridge.Cuda.Memory.Bytes.{byte_of}
use isaac_metal_bridge.Cuda.Semaphores.{
  Semaphores, ExternalSemaphoreState, Device, Transfer, moved, interrupted, failed, FenceParams,
  counted, stored, write_value, signalled_value, signal_all, cu_signal_external_semaphores_async,
}

-- What is relied on of the transfers: none moves more than it was asked for, and from the m-th on
-- none is interrupted.
pub record IsDevice (m : ℕ) (device : Device) : Type 0 where
  pub bounded : (i n k : ℕ) → device i n ≡ moved k → k ≤ n
  pub quiet_from : (i n : ℕ) → m ≤ i → device i n ≢ interrupted

pub Transfer-cases : (t : Transfer) → ((k : ℕ) × (t ≡ moved k)) ⊎ ((t ≡ interrupted) ⊎ (t ≡ failed))
Transfer-cases (moved k) = inl (k, refl)
Transfer-cases interrupted = inr (inl refl)
Transfer-cases failed = inr (inr refl)

-- The files with a value in bytes `written` to 7 of one of them.
abbrev pub with_value : (ℕ → ℕ → ℕ) → ℕ → ℕ → ℕ → ℕ → ℕ → ℕ
with_value files fd value written f a =
    if f == fd && (leb written a && ltb a 8) then byte_of a value else files f a

-- What the loop leaves: the semaphores, and after a success the value in the file.
pub record IsWritten (s : Semaphores) (fd value written : ℕ) (b : Bool) (s' : Semaphores)
    : Type 0 where
  pub kept : s'.semaphores ≡ s.semaphores
  pub later : s.transfers ≤ s'.transfers
  pub holds : b ≡ true → (f a : ℕ) → s'.files f a ≡ with_value s.files fd value written f a

module _ (m : ℕ) (pwrite : Device) (device : IsDevice m pwrite) where
  pub interrupted-before : (i n : ℕ) → pwrite i n ≡ interrupted → i < m
  interrupted-before i n e = elim (Bool-cases (ltb i m)) [
    | inl below ↦ ground arith
    | inr above ↦ absurd (device.quiet_from i n (ground arith) e)
  ]

  joined :
      (s : Semaphores) (fd value written k : ℕ)
      → written + k ≤ 8
      → (f a : ℕ)
      → with_value (stored s fd value written k).files fd value (written + k) f a
        ≡ with_value s.files fd value written f a
  joined s fd value written k h f a = ground arith

  write_value_lem :
      (n fd value written : ℕ) (s : Semaphores)
      → written ≤ 8
      → (m - s.transfers) + (8 - written) < n
      → (b : Bool) × (s' : Semaphores) × (write_value n pwrite fd value written s ≡ some (b, s'))
        × IsWritten s fd value written b s'
  unfolding write_value
  write_value_lem zero fd value written s h fuel = absurd (omega arith)
  write_value_lem (suc n) fd value written s h fuel = elim (Bool-cases (leb 8 written)) [
    | inl all ↦ (
      true,
      s,
      rw all refl,
      record { kept = refl; later = omega arith; holds = λ e f a. ground arith },
    )
    | inr part ↦ elim (Transfer-cases (pwrite s.transfers (8 - written))) [
      | inr (inr e) ↦ (
        false,
        counted s,
        rw (part, e, write_value) refl,
        record { kept = refl; later = omega arith; holds = λ z f a. absurd (cc z) },
      )
      | inr (inl e) ↦
          let early : s.transfers < m = interrupted-before s.transfers (8 - written) e in
          let r = write_value_lem n fd value written (counted s) h (omega arith) in
          (
            r.0,
            r.1,
            rw (part, e, write_value) r.2,
            record {
              kept = r.3.kept;
              later = omega (arith, r.3.later);
              holds = λ z f a. r.3.holds z f a;
            },
          )
      | inl (k, e) ↦ elim (Bool-cases (k == 0)) [
        | inl stuck ↦ (
          false,
          counted s,
          rw (part, e, write_value, stuck) refl,
          record { kept = refl; later = omega arith; holds = λ z f a. absurd (cc z) },
        )
        | inr moves ↦
            let bound = device.bounded s.transfers (8 - written) k e in
            let positive : 1 ≤ k = ground arith in
            let r =
              write_value_lem n fd value (written + k) (stored s fd value written k) (ground arith)
                (ground arith) in
            (
              r.0,
              r.1,
              rw (part, e, write_value, moves) r.2,
              record {
                kept = r.3.kept;
                later = omega (arith, r.3.later);
                holds = λ z f a.
                    r.3.holds z f a ∙ joined s fd value written k (omega (arith, bound, h)) f a;
              },
            )
      ]
    ]
  ]

-- The files after the fences are signalled one after the other; `fds` gives the descriptor of a
-- semaphore.
unfoldable pub files_after :
    Registry ExternalSemaphoreState → List FenceParams → (ℕ → ℕ → ℕ) → ℕ → ℕ → ℕ
files_after semaphores [] files = files
files_after semaphores (p ∷ ps) files = elim (object p.semaphore semaphores) [
  | none ↦ files_after semaphores ps files
  | some state ↦ files_after semaphores ps (with_value files state.fd (signalled_value p.value) 0)
]

signal_all_lem :
    (m : ℕ) (pwrite : Device)
    → IsDevice m pwrite
    → (ps : List FenceParams) (n : ℕ) (s : Semaphores) (files : ℕ → ℕ → ℕ) → m + 8 < n
    → IsSound s.semaphores
    → ((f a : ℕ) → s.files f a ≡ files f a)
    → (r : Reply Semaphores (Unit {0})) × (signal_all n pwrite ps s ≡ some (done r))
      × (r.state.semaphores ≡ s.semaphores)
      × (r.result ≡ success → (f a : ℕ) → r.state.files f a ≡ files_after s.semaphores ps files f a)
unfolding signal_all files_after
signal_all_lem m pwrite device [] n s files fuel v same = (quiet s, refl, refl, λ e f a. same f a)
signal_all_lem m pwrite device (p ∷ ps) n s files fuel v same =
    elim (Bool-cases (not (is_member p.semaphore s.semaphores) || not (p.flags == 0))) [
      | inl bad ↦ (fail s invalid_handle, rw bad refl, refl, λ z f a. absurd (cc z))
      | inr good ↦ elim (Option-cases (object p.semaphore s.semaphores)) [
        | inl dead ↦ absurd (ground (arith, v p.semaphore))
        | inr (state, e) ↦
            let value = signalled_value p.value in
            let w =
              write_value_lem m pwrite device n state.fd value 0 s (omega arith) (omega arith) in
            let kept = w.3.kept in
            elim (Bool-cases w.0) [
              | inr broke ↦ (
                fail w.1 invalid_handle,
                rw (good, e, signal_all, w.2, broke) refl,
                kept,
                λ z f a. absurd (cc z),
              )
              | inl wrote ↦
                  let next = with_value files state.fd value 0 in
                  let r =
                    signal_all_lem m pwrite device ps n w.1 next fuel
                      (λ q.
                        ap (λ (x : Registry ExternalSemaphoreState). is_member q x) kept
                        ∙ v q
                        ∙ sym (ap (λ (x : Registry ExternalSemaphoreState). is_live q x) kept))
                      (λ f a. w.3.holds wrote f a ∙ over s files state.fd value same f a) in
                  (
                    r.0,
                    rw (good, e, signal_all, w.2, wrote) r.1,
                    r.2 ∙ kept,
                    λ z f a.
                        rw (e, files_after)
                          (r.3 z f a
                            ∙ ap
                                (λ (x : Registry ExternalSemaphoreState). files_after x ps next f a)
                                kept),
                  )
            ]
      ]
    ]
  where
    over :
        (s : Semaphores) (files : ℕ → ℕ → ℕ) (fd value : ℕ)
        → ((f a : ℕ) → s.files f a ≡ files f a)
        → (f a : ℕ) → with_value s.files fd value 0 f a ≡ with_value files fd value 0 f a
    over s files fd value same f a = ground (arith, same f a)

-- Where the handles are the live semaphores, no transfer moves more than it was asked for and none
-- from the m-th on is interrupted, signalling any list of fences returns, with more than m + 8
-- turns of fuel for each value and without an access to a dead object; it keeps the semaphores,
-- and if it succeeds every file holds the value of the last fence for it, 1 in place of 0, in its
-- first eight bytes and is as before elsewhere.
pub cu_signal_external_semaphores_async_lem :
    (m n : ℕ) (pwrite : Device) (ps : List FenceParams) (s : Semaphores)
    → IsDevice m pwrite
    → m + 8 < n
    → IsSound s.semaphores
    → (r : Reply Semaphores (Unit {0})) × (cu_signal_external_semaphores_async n pwrite true ps s
        ≡ some (done r))
      × (r.state.semaphores ≡ s.semaphores)
      × (r.result ≡ success
          → (f a : ℕ) → r.state.files f a ≡ files_after s.semaphores ps s.files f a)
unfolding cu_signal_external_semaphores_async
cu_signal_external_semaphores_async_lem m n pwrite [] s device fuel v =
    signal_all_lem m pwrite device [] n s s.files fuel v (λ f a. refl)
cu_signal_external_semaphores_async_lem m n pwrite (p ∷ ps) s device fuel v =
    signal_all_lem m pwrite device (p ∷ ps) n s s.files fuel v (λ f a. refl)
