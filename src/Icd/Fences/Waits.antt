-- ===== src/Icd/Fences/Waits.antt =====
-- Waiting for and resetting fences of guest/vulkan_icd/imb_vulkan_icd.cpp.
use isaac_metal_bridge.Base.{
  subst, ℕ, ◌≡◌, ◌⊎◌, refl, ap, ◌∙◌, inl, inr, Bool-cases, Option-cases, Bool, true, false, ◌&&◌,
  not, some, List, [], ◌∷◌, length, ◌==◌, lookup-put, contains, arith,
}
use isaac_metal_bridge.Cuda.Registry.{is_member, object, IsSound, store_object-IsSound}
use isaac_metal_bridge.Icd.Result.{success, initialization_failed}
use isaac_metal_bridge.Icd.Driver.{Driver, FenceState}
use isaac_metal_bridge.Icd.Memory.Good.{object-store_self}
use isaac_metal_bridge.Icd.Fences.{
  Host, complete_fence, complete_each, poll_fences, wait_for_fences, store_fence, reset_fence,
  all_resettable, reset_all, reset_fences,
}
use isaac_metal_bridge.Icd.Fences.Signals.{
  Signals, Kept, Kept-trans, Kept-refl, complete_fence_lem, and_then-success,
}

-- All of the fences are signaled.
abbrev pub AllSignal : List ℕ → Driver → Type 0
AllSignal [] d = Unit {0}
AllSignal (p ∷ ps) d = Signals p d × AllSignal ps d

complete_each_lem :
    (h : Host) (ps : List ℕ) (d d' : Driver)
    → complete_each h true ps d ≡ some (success, d')
    → Kept d d' × AllSignal ps d'
unfolding complete_each
complete_each_lem h [] d d' e =
    let same : d ≡ d' = ground arith in
    subst (λ (x : Driver). Kept d x × Unit {0}) same (Kept-refl d, tt)
complete_each_lem h (p ∷ ps) d d' e =
    let r = and_then-success h (complete_fence h p d) (complete_each h true ps) d' e in
    let first = complete_fence_lem h p d r.0 r.1 in
    let rest = complete_each_lem h ps r.0 d' r.2 in
    (Kept-trans first.0 rest.0, (rest.0.signals p first.1, rest.1))

-- A poll for all fences.
poll_fences_lem : (ps : List ℕ) (d : Driver) → poll_fences true ps d ≡ some success → AllSignal ps d
unfolding poll_fences
poll_fences_lem [] d e = tt
poll_fences_lem (p ∷ ps) d e = elim (Bool-cases (is_member p d.fences)) [
  | inr dangling ↦ absurd (ground arith)
  | inl valid ↦ elim (Option-cases (object p d.fences)) [
    | inl dead ↦ absurd (ground arith)
    | inr (s, live) ↦ elim (Bool-cases s.signaled) [
      | inr waits ↦ absurd (ground arith)
      | inl ready ↦ ((s, live, ready), poll_fences_lem ps d (ground arith))
    ]
  ]
]

-- If vkWaitForFences of some fences, for all of them and with any timeout, returns success, every
-- one of them is signaled after it, the handles are the same, and every other fence that was
-- signaled still is.
pub wait_for_fences-all :
    (h : Host) (ps : List ℕ) (limit : ℕ) (d d' : Driver)
    → wait_for_fences h true ps true limit d ≡ some (success, d')
    → Kept d d' × AllSignal ps d'
unfolding wait_for_fences
wait_for_fences-all h ps limit d d' e = elim (Bool-cases (limit == 0)) [
  | inr waits ↦ complete_each_lem h ps d d' (ground arith)
  | inl polls ↦ elim (Option-cases (poll_fences true ps d)) [
    | inl dead ↦ absurd (ground arith)
    | inr (r, polled) ↦
        let same : d ≡ d' = ground arith in
        let ok : poll_fences true ps d ≡ some success = ground arith in
        subst (λ (x : Driver). Kept d x × AllSignal ps x) same
          (Kept-refl d, poll_fences_lem ps d ok)
  ]
]

abbrev pub Unsignaled : ℕ → Driver → Type 0
Unsignaled p d = (s : FenceState) × (object p d.fences ≡ some s) × (s.signaled ≡ false)

abbrev pub AllUnsignaled : List ℕ → Driver → Type 0
AllUnsignaled [] d = Unit {0}
AllUnsignaled (p ∷ ps) d = Unsignaled p d × AllUnsignaled ps d

abbrev AllMembers : List ℕ → Driver → Type 0
AllMembers [] d = Unit {0}
AllMembers (p ∷ ps) d = (is_member p d.fences ≡ true) × AllMembers ps d

-- The first loop finds out whether all are there and may be reset.
all_resettable_lem :
    (ps : List ℕ) (d : Driver)
    → IsSound d.fences
    → (b : Bool) × (all_resettable ps d ≡ some b) × (b ≡ true → AllMembers ps d)
unfolding all_resettable
all_resettable_lem [] d v = (true, refl, λ z. tt)
all_resettable_lem (p ∷ ps) d v = elim (Bool-cases (is_member p d.fences)) [
  | inr dangling ↦ (false, rw dangling refl, λ z. absurd (cc z))
  | inl valid ↦ elim (Option-cases (object p d.fences)) [
    | inl dead ↦ absurd (ground (arith, v p))
    | inr (s, live) ↦ elim (Bool-cases (s.submitted && not s.signaled)) [
      | inl pending ↦ (false, rw (valid, live, pending) refl, λ z. absurd (cc z))
      | inr idle ↦
          let r = all_resettable_lem ps d v in
          (r.0, rw (valid, live, idle) r.1, λ z. (valid, r.2 z))
    ]
  ]
]

-- What resetting leaves: the same handles, sound, and no fence newly signaled.
record Reset (d d' : Driver) : Type 0 where
  sound : IsSound d'.fences
  members : d'.fences.members ≡ d.fences.members
  unsignaled : (p : ℕ) → Unsignaled p d → Unsignaled p d'

AllMembers-same :
    (ps : List ℕ) (d d' : Driver)
    → d'.fences.members ≡ d.fences.members
    → AllMembers ps d
    → AllMembers ps d'
AllMembers-same [] d d' e h = tt
AllMembers-same (p ∷ ps) d d' e h = (ap (contains p) e ∙ h.0, AllMembers-same ps d d' e h.1)

stored-Reset :
    (p : ℕ) (s : FenceState) (d : Driver)
    → object p d.fences ≡ some s
    → IsSound d.fences
    → Reset d (store_fence p (reset_fence s) d) × Unsignaled p (store_fence p (reset_fence s) d)
stored-Reset p s d live v =
    let stored = reset_fence s in
    (
      record {
        sound = store_object-IsSound d.fences p stored (ground arith) v;
        members = refl;
        unsignaled = λ q t. elim (Bool-cases (p == q)) [
          | inl here ↦ (stored, ground (arith, lookup-put p q stored d.fences.live), refl)
          | inr other ↦ (t.0, ground (arith, t.1, lookup-put p q stored d.fences.live), t.2)
        ];
      },
      (stored, object-store_self p stored d.fences, refl),
    )

reset_all_lem :
    (ps : List ℕ) (d : Driver)
    → IsSound d.fences
    → AllMembers ps d
    → (d' : Driver) × (reset_all ps d ≡ some d') × Reset d d' × AllUnsignaled ps d'
unfolding reset_all
reset_all_lem [] d v h = (d, refl, record { sound = v; members = refl; unsignaled = λ p t. t }, tt)
reset_all_lem (p ∷ ps) d v h = elim (Option-cases (object p d.fences)) [
  | inl dead ↦ absurd (ground (arith, v p, h.0))
  | inr (s, live) ↦
      let d1 = store_fence p (reset_fence s) d in
      let one = stored-Reset p s d live v in
      let r = reset_all_lem ps d1 one.0.sound (AllMembers-same ps d d1 refl h.1) in
      (
        r.0,
        rw (live, reset_all) r.1,
        record {
          sound = r.2.sound;
          members = r.2.members ∙ one.0.members;
          unsignaled = λ q t. r.2.unsignaled q (one.0.unsignaled q t);
        },
        (r.2.unsignaled p one.1, r.3),
      )
]

-- Where the handles are the live fences, vkResetFences of any list of handles either succeeds,
-- keeps the handles, which are again the live fences, and leaves every fence of the list
-- unsignaled, or answers that the initialization failed and changes nothing.
pub reset_fences_lem :
    (ps : List ℕ) (d : Driver)
    → IsSound d.fences
    → ((d' : Driver) × (reset_fences true ps d ≡ some (success, d'))
        × IsSound d'.fences
        × (d'.fences.members ≡ d.fences.members)
        × AllUnsignaled ps d')
      ⊎ (reset_fences true ps d ≡ some (initialization_failed, d))
unfolding reset_fences
reset_fences_lem ps d v =
    let a = all_resettable_lem ps d v in
    elim (Bool-cases a.0) [
      | inr refused ↦ inr (rw (a.1, refused) refl)
      | inl all ↦
          let r = reset_all_lem ps d v (a.2 all) in
          inl (r.0, rw (a.1, all, r.1) refl, r.2.sound, r.2.members, r.3)
    ]

poll_fences-any :
    (ps : List ℕ) (d : Driver)
    → IsSound d.fences
    → AllUnsignaled ps d
    → poll_fences false ps d ≡ some success
unfolding poll_fences
poll_fences-any [] d v h = refl
poll_fences-any (p ∷ ps) d v h =
    let valid : is_member p d.fences ≡ true = ground (arith, v p, h.0.1) in
    rw (valid, h.0.1, h.0.2) (poll_fences-any ps d v h.1)

-- Where the handles are the live fences and none of those waited for, one or more, is signaled,
-- vkWaitForFences for any of them with timeout 0 answers success and changes nothing.
pub wait_for_fences-any :
    (h : Host) (p : ℕ) (ps : List ℕ) (d : Driver)
    → IsSound d.fences
    → AllUnsignaled (p ∷ ps) d
    → wait_for_fences h true (p ∷ ps) false 0 d ≡ some (success, d)
unfolding wait_for_fences
wait_for_fences-any h p ps d v u =
    let counted : (length (p ∷ ps) == 0) ≡ false = ground arith in
    rw (counted, poll_fences-any (p ∷ ps) d v u) refl
