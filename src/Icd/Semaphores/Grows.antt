-- ===== src/Icd/Semaphores/Grows.antt =====
-- The transfers of payloads of guest/vulkan_icd/imb_vulkan_icd.cpp return, and no timeline goes back.
use isaac_metal_bridge.Base.{
  subst, ℕ, ◌+◌, ◌≤◌, ◌<◌, ◌≡◌, refl, ◌∙◌, inl, inr, Bool-cases, Option-cases, Bool, true, false,
  Option, none, some, ◌==◌, lookup-put, arith,
}
use isaac_metal_bridge.Cuda.Registry.{is_member, object, IsSound, store_object-IsSound}
use isaac_metal_bridge.Cuda.Semaphores.Signals.{IsDevice}
use isaac_metal_bridge.Icd.Result.{VkResult, success, invalid_external_handle}
use isaac_metal_bridge.Icd.Driver.{Driver, SemaphoreState, Step, and_then}
use isaac_metal_bridge.Icd.Memory.Good.{Live, held}
use isaac_metal_bridge.Icd.Semaphores.{
  Files, store_semaphore, counter, payload_of, received, receive, sync_semaphore_to_external_fd,
  refresh_semaphore_from_external_fd, belongs,
}
use isaac_metal_bridge.Icd.Semaphores.Loops.{transferred, write_payload-ends, read_payload-ends}

-- A later state of a semaphore: of the same kind and device, and no timeline lower.
pub record IsLater (s s' : SemaphoreState) : Type 0 where
  pub same_kind : s'.timeline ≡ s.timeline
  pub same_device : s'.device ≡ s.device
  pub not_below : s.timeline ≡ true → s.value ≤ s'.value

pub IsLater-refl : (s : SemaphoreState) → IsLater s s
IsLater-refl s = record { same_kind = refl; same_device = refl; not_below = λ h. omega arith }

-- What is kept by the calls: the handles are the live semaphores, the same ones as before, and
-- each is later.
pub record Grows (d d' : Driver) : Type 0 where
  pub sound : IsSound d'.semaphores
  pub members : d'.semaphores.members ≡ d.semaphores.members
  pub later :
      (p : ℕ) (s : SemaphoreState)
      → object p d.semaphores ≡ some s
      → (s' : SemaphoreState) × (object p d'.semaphores ≡ some s') × IsLater s s'

abbrev pub Runs : Driver → Step → Type 0
Runs d x = (r : VkResult) × (d' : Driver) × (x ≡ some (r, d')) × Grows d d'

IsLater-trans : {s s' s'' : SemaphoreState} → IsLater s s' → IsLater s' s'' → IsLater s s''
IsLater-trans a b = record {
  same_kind = b.same_kind ∙ a.same_kind;
  same_device = b.same_device ∙ a.same_device;
  not_below = λ h. omega (arith, a.not_below h, b.not_below (a.same_kind ∙ h));
}

pub Grows-trans : {d d' d'' : Driver} → Grows d d' → Grows d' d'' → Grows d d''
Grows-trans a b = record {
  sound = b.sound;
  members = b.members ∙ a.members;
  later = λ p s h.
      let (s', e, l) = a.later p s h in
      let (s'', e', l') = b.later p s' e in (s'', e', IsLater-trans l l');
}

-- Files and transfers do not matter.
transferred-Grows :
    (d : Driver) (files : ℕ → ℕ → ℕ) (t : ℕ)
    → IsSound d.semaphores
    → Grows d (transferred d files t)
transferred-Grows d files t v = record {
  sound = v;
  members = refl;
  later = λ p s h. (s, h, IsLater-refl s);
}

pub Grows-refl : (d : Driver) → IsSound d.semaphores → Grows d d
Grows-refl d v = transferred-Grows d d.files d.transfers v

pub and_then-Runs :
    (d : Driver) (x : Step) (f : Driver → Step)
    → Runs d x
    → ((d' : Driver) → Grows d d' → Runs d' (f d'))
    → Runs d (and_then x f)
and_then-Runs d x f (success, d', e, a) k =
    let (r, d'', e', a') = k d' a in (r, d'', rw (e, and_then) e', Grows-trans a a')
and_then-Runs d x f (r, d', e, a) k = (r, d', rw e refl, a)

pub store_semaphore-Grows :
    (p : ℕ) (s s' : SemaphoreState) (d : Driver)
    → object p d.semaphores ≡ some s
    → IsLater s s'
    → IsSound d.semaphores
    → Grows d (store_semaphore p s' d)
store_semaphore-Grows p s s' d e l v = record {
  sound = store_object-IsSound d.semaphores p s' (ground arith) v;
  members = refl;
  later = λ q t h. elim (Bool-cases (p == q)) [
    | inl same ↦ (
      s',
      ground (arith, lookup-put p q s' d.semaphores.live),
      subst (λ (x : SemaphoreState). IsLater x s') (ground arith) l,
    )
    | inr other ↦ (t, ground (arith, lookup-put p q s' d.semaphores.live), IsLater-refl t)
  ];
}

-- Whether the handle is a semaphore of the device is known.
pub belongs-cases :
    (device p : ℕ) (d : Driver)
    → IsSound d.semaphores
    → (b : Bool) × (belongs device p d ≡ some b) × (b ≡ true → Live (object p d.semaphores))
unfolding belongs
belongs-cases device p d v = elim (Bool-cases (is_member p d.semaphores)) [
  | inr dangling ↦ (false, rw dangling refl, λ z. absurd (cc z))
  | inl member ↦ elim (Option-cases (object p d.semaphores)) [
    | inl dead ↦ absurd (ground (arith, v p))
    | inr (s, e) ↦ (s.device == device, rw (member, e) refl, λ z. held s e)
  ]
]

-- The transfers of `e`: neither moves too much, from the m-th on none is interrupted, and the fuel
-- is enough.
pub record IsAble (m : ℕ) (e : Files) : Type 0 where
  pub writes : IsDevice m e.pwrite
  pub reads : IsDevice m e.pread
  pub fuel : m + 8 < e.fuel

module _ (m : ℕ) (e : Files) (able : IsAble m e) where
  pub sync-Runs :
      (p : ℕ) (d : Driver)
      → Live (object p d.semaphores)
      → IsSound d.semaphores
      → Runs d (sync_semaphore_to_external_fd e p d)
  unfolding sync_semaphore_to_external_fd
  sync-Runs p d (held s live) v = elim (Bool-cases (p == 0)) [
    | inl null ↦ (success, d, rw null refl, Grows-refl d v)
    | inr given ↦ elim (Option-cases s.external_fd) [
      | inl alone ↦ (success, d, rw (given, live, alone) refl, Grows-refl d v)
      | inr (fd, shared) ↦
          let w =
            write_payload-ends m e.pwrite able.writes e.fuel fd (counter s) 0 d
              (omega (arith, able.fuel)) in
          elim (Bool-cases w.0) [
            | inl ok ↦ (
              success,
              transferred d w.1 w.2,
              rw (given, live, shared, w.3, ok) refl,
              transferred-Grows d w.1 w.2 v,
            )
            | inr broke ↦ (
              invalid_external_handle,
              transferred d w.1 w.2,
              rw (given, live, shared, w.3, broke) refl,
              transferred-Grows d w.1 w.2 v,
            )
          ]
    ]
  ]

  received-IsLater : (payload : ℕ) (s : SemaphoreState) → IsLater s (received payload s)
  received-IsLater payload s = elim (Bool-cases s.timeline) [
    | inl t ↦ record {
      same_kind = ground arith;
      same_device = ground arith;
      not_below = λ h. ground arith;
    }
    | inr t ↦ record {
      same_kind = ground arith;
      same_device = ground arith;
      not_below = λ h. ground arith;
    }
  ]

  receive-Runs :
      (p : ℕ) (s : SemaphoreState) (o : Option ℕ) (d : Driver)
      → object p d.semaphores ≡ some s
      → IsSound d.semaphores
      → Runs d (receive e p s o d)
  unfolding receive
  receive-Runs p s none d live v = (success, d, refl, Grows-refl d v)
  receive-Runs p s (some fd) d live v =
      let w =
        read_payload-ends m e.pread able.reads e.fuel fd (λ a. 0) 0 d (omega (arith, able.fuel)) in
      elim (Bool-cases w.0) [
        | inl ok ↦ (
          success,
          store_semaphore p (received (payload_of w.1) s) (transferred d d.files w.2),
          rw (receive, w.3, ok) refl,
          Grows-trans (transferred-Grows d d.files w.2 v) (
              store_semaphore-Grows p s (received (payload_of w.1) s) (transferred d d.files w.2)
                live (received-IsLater (payload_of w.1) s) v),
        )
        | inr broke ↦ (
          invalid_external_handle,
          transferred d d.files w.2,
          rw (receive, w.3, broke) refl,
          transferred-Grows d d.files w.2 v,
        )
      ]

  pub refresh-Runs :
      (p : ℕ) (d : Driver)
      → Live (object p d.semaphores)
      → IsSound d.semaphores
      → Runs d (refresh_semaphore_from_external_fd e p d)
  unfolding refresh_semaphore_from_external_fd
  refresh-Runs p d (held s live) v = elim (Bool-cases (p == 0)) [
    | inl null ↦ (success, d, rw null refl, Grows-refl d v)
    | inr given ↦
        let r = receive-Runs p s s.external_fd d live v in (r.0, r.1, rw (given, live) r.2, r.3)
  ]
