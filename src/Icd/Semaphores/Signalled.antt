-- ===== src/Icd/Semaphores/Signalled.antt =====
-- What a wait of guest/vulkan_icd/imb_vulkan_icd.cpp makes of a value that
-- guest/cuda_shim/imb_cuda_shim.cpp signalled through the shared file.
use isaac_metal_bridge.Base.{
  ℕ, ◌+◌, ◌/◌, ◌%◌, ◌^◌, ◌<◌, ◌≡◌, ap, sym, ◌∙◌, Bool, true, false, Option, some, [], ◌∷◌, leb,
  ◌==◌, if◌then◌else◌, max, arith,
}
use isaac_metal_bridge.Cuda.Result.{Reply, Outcome, done}
use isaac_metal_bridge.Cuda.Registry.{is_member, object, IsSound}
use isaac_metal_bridge.Cuda.Memory.Bytes.{byte_of}
use isaac_metal_bridge.Cuda.Semaphores.{
  Device, Semaphores, ExternalSemaphoreState, FenceParams, signalled_value,
  cu_signal_external_semaphores_async,
}
use isaac_metal_bridge.Cuda.Semaphores.Signals.{
  IsDevice, files_after, with_value, cu_signal_external_semaphores_async_lem,
}
use isaac_metal_bridge.Icd.Result.{success, timeout}
use isaac_metal_bridge.Icd.Driver.{Driver, Enums, SemaphoreState, valid_device}
use isaac_metal_bridge.Icd.Memory.Good.{object-store_self}
use isaac_metal_bridge.Icd.Semaphores.{
  Files, store_semaphore, payload_of, received, receive, refresh_semaphore_from_external_fd,
  belongs,
}
use isaac_metal_bridge.Icd.Semaphores.Counters.{satisfies, check_one, check_each, wait_semaphores}
use isaac_metal_bridge.Icd.Semaphores.Loops.{IsWorking, transferred, read_payload-reads}
use isaac_metal_bridge.Icd.Semaphores.Grows.{IsAble}

-- Eight bytes of a value are the value again.
pub payload_of-byte_of :
    (v : ℕ) (b : ℕ → ℕ) → v < 2 ^ 64 → ((a : ℕ) → a < 8 → b a ≡ byte_of a v) → payload_of b ≡ v
unfolding byte_of
payload_of-byte_of v b h e =
    let q1 = v / 256 in
    let q2 = q1 / 256 in
    let q3 = q2 / 256 in
    let q4 = q3 / 256 in
    let q5 = q4 / 256 in
    let q6 = q5 / 256 in
    let q7 = q6 / 256 in
    let e0 : b 0 ≡ v % 256 = e 0 (omega arith) in
    let e1 : b 1 ≡ q1 % 256 = e 1 (omega arith) in
    let e2 : b 2 ≡ q2 % 256 = e 2 (omega arith) in
    let e3 : b 3 ≡ q3 % 256 = e 3 (omega arith) in
    let e4 : b 4 ≡ q4 % 256 = e 4 (omega arith) in
    let e5 : b 5 ≡ q5 % 256 = e 5 (omega arith) in
    let e6 : b 6 ≡ q6 % 256 = e 6 (omega arith) in
    let e7 : b 7 ≡ q7 % 256 = e 7 (omega arith) in omega arith

-- What the shim writes for one fence.
signalled :
    (n k : ℕ) (pwrite : Device) (q value : ℕ) (x : ExternalSemaphoreState) (c : Semaphores)
    (r : Reply Semaphores (Unit {0}))
    → IsDevice k pwrite
    → k + 8 < n
    → IsSound c.semaphores
    → object q c.semaphores ≡ some x
    → cu_signal_external_semaphores_async n pwrite true
        (record { semaphore = q; flags = 0; value = value } ∷ [])
        c
      ≡ some (done r)
    → r.result ≡ isaac_metal_bridge.Cuda.Result.success
    → (a : ℕ) → a < 8
    → r.state.files x.fd a ≡ byte_of a (signalled_value value)
unfolding files_after
signalled n k pwrite q value x c r device fuel sound live e ok a h =
    let fence : FenceParams = record { semaphore = q; flags = 0; value = value } in
    let l = cu_signal_external_semaphores_async_lem k n pwrite (fence ∷ []) c device fuel sound in
    let same : l.0 ≡ r = cc (l.1, e) in
    let good : l.0.result ≡ isaac_metal_bridge.Cuda.Result.success =
      ap (λ (y : Reply Semaphores (Unit {0})). y.result) same ∙ ok in
    ap (λ (y : Reply Semaphores (Unit {0})). y.state.files x.fd a) (sym same)
    ∙ l.3 good x.fd a
    ∙ written
  where
    written :
        files_after c.semaphores
          (record { semaphore = q; flags = 0; value = value } ∷ [])
          c.files
          x.fd
          a
        ≡ byte_of a (signalled_value value)
    written = rw (live, files_after) here
      where
        here :
            with_value c.files x.fd (signalled_value value) 0 x.fd a
            ≡ byte_of a (signalled_value value)
        here = ground arith

-- A semaphore takes the payload from its file.
receive_lem :
    (m : ℕ) (e : Files) (p fd v : ℕ) (s : SemaphoreState) (d : Driver)
    → IsAble m e
    → IsWorking e.pread
    → v < 2 ^ 64
    → ((a : ℕ) → a < 8 → d.files fd a ≡ byte_of a v)
    → (t : ℕ) × (receive e p s (some fd) d
        ≡ some (success, store_semaphore p (received v s) (transferred d d.files t)))
unfolding receive
receive_lem m e p fd v s d able working h holds =
    let r =
      read_payload-reads m e.pread able.reads working e.fuel fd (λ a. 0) 0 d
        (omega (arith, able.fuel)) in
    let value : payload_of r.0 ≡ v =
      payload_of-byte_of v r.0 h (λ a l. r.4 a (omega arith) l ∙ holds a l) in
    (
      r.1,
      rw (receive, r.2)
          (ap
            (λ (y : ℕ).
              some (success, store_semaphore p (received y s) (transferred d d.files r.1)))
            value),
    )

module _ (m : ℕ) (e : Files) (able : IsAble m e) (working : IsWorking e.pread) where
  -- What a wait for one timeline finds.
  pub wait_semaphores_lem :
      (vk : Enums) (device flags p fd v wanted : ℕ) (s : SemaphoreState) (d : Driver)
      → valid_device device d ≡ true
      → IsSound d.semaphores
      → (p == 0) ≡ false
      → object p d.semaphores ≡ some s
      → s.device ≡ device
      → s.timeline ≡ true
      → s.external_fd ≡ some fd
      → v < 2 ^ 64
      → ((a : ℕ) → a < 8 → d.files fd a ≡ byte_of a v)
      → (d' : Driver) × (wait_semaphores e vk true device flags ((p, wanted) ∷ []) d
          ≡ some (if leb wanted (max s.value v) then success else timeout, d'))
  unfolding wait_semaphores check_each check_one refresh_semaphore_from_external_fd belongs
  wait_semaphores_lem vk device flags p fd v wanted s d valid sound given live own kind shared h
        holds =
      let r = receive_lem m e p fd v s d able working h holds in
      let d' = store_semaphore p (received v s) (transferred d d.files r.0) in
      let member : is_member p d.semaphores ≡ true = ground (arith, sound p) in
      let mine : belongs device p d ≡ some true =
        rw (member, live) (ap (λ (y : Bool). some y) (ground arith)) in
      let refreshed : refresh_semaphore_from_external_fd e p d ≡ some (success, d') =
        rw (given, live) (ap (λ (o : Option ℕ). receive e p s o d) shared ∙ r.1) in
      let there = object-store_self p (received v s) d.semaphores in
      let found : satisfies wanted (received v s) ≡ leb wanted (max s.value v) = ground arith in
      let checked : check_one e device p wanted d ≡ some (success, leb wanted (max s.value v), d') =
        rw (check_one, mine, refreshed, there) (ap (λ (y : Bool). some (success, y, d')) found) in
      (d', rw (wait_semaphores, valid, check_each, checked) ground arith)

  -- Where cuSignalExternalSemaphoresAsync of one fence succeeded, and the file of a timeline
  -- semaphore of the Vulkan driver holds the eight bytes that the file of the signalled semaphore
  -- then holds, vkWaitSemaphores for that timeline returns success if the value that is waited for
  -- is at most the timeline's own or the one signalled, 1 in place of 0, and a timeout if not. The
  -- conditions are that the value is a 64-bit number, the handles of both sides are the live
  -- semaphores, no transfer moves more than it was asked for and none from a known one on is
  -- interrupted, with fuel to match, and that no `pread` that is asked for a byte fails or moves
  -- none.
  pub wait_semaphores-cu_signal :
      (vk : Enums) (device flags p fd value wanted : ℕ) (s : SemaphoreState) (d : Driver)
      (n k q : ℕ) (pwrite : Device) (x : ExternalSemaphoreState) (c : Semaphores)
      (r : Reply Semaphores (Unit {0}))
      → IsDevice k pwrite
      → k + 8 < n
      → IsSound c.semaphores
      → object q c.semaphores ≡ some x
      → cu_signal_external_semaphores_async n pwrite true
          (record { semaphore = q; flags = 0; value = value } ∷ [])
          c
        ≡ some (done r)
      → r.result ≡ isaac_metal_bridge.Cuda.Result.success
      → value < 2 ^ 64
      → ((a : ℕ) → a < 8 → d.files fd a ≡ r.state.files x.fd a)
      → valid_device device d ≡ true
      → IsSound d.semaphores
      → (p == 0) ≡ false
      → object p d.semaphores ≡ some s
      → s.device ≡ device
      → s.timeline ≡ true
      → s.external_fd ≡ some fd
      → (d' : Driver) × (wait_semaphores e vk true device flags ((p, wanted) ∷ []) d
          ≡ some
              (if leb wanted (max s.value (signalled_value value)) then success else timeout, d'))
  wait_semaphores-cu_signal vk device flags p fd value wanted s d n k q pwrite x c r transfers fuel
        handles fence ok done' small shared valid sound given live own kind file =
      wait_semaphores_lem vk device flags p fd (signalled_value value) wanted s d valid sound given
        live own kind file (ground arith)
        (λ a h.
          shared a h ∙ signalled n k pwrite q value x c r transfers fuel handles fence ok done' a h)
