-- ===== src/Icd/Fences/Signals.antt =====
-- Completing a fence of guest/vulkan_icd/imb_vulkan_icd.cpp signals it and unsignals no other.
use isaac_metal_bridge.Base.{
  subst, ℕ, ◌-◌, ◌≡◌, refl, ap, sym, ◌∙◌, inl, inr, Bool-cases, Option-cases, Bool, true, false,
  ◌||◌, not, none, some, ltb, ◌==◌, lookup-put, arith,
}
use isaac_metal_bridge.Cuda.Registry.{Registry, is_member, object}
use isaac_metal_bridge.Icd.Result.{VkResult, success}
use isaac_metal_bridge.Icd.Driver.{Driver, FenceState, Step, and_then}
use isaac_metal_bridge.Icd.Memory.{Surroundings, ensure_memory_backing, ensure_resource}
use isaac_metal_bridge.Icd.Memory.Good.{object-store_self}
use isaac_metal_bridge.Icd.Fences.{
  Host, ResultImage, read_resource, byte_count, fill_image, read_image, read_result, not_waitable,
  mark_signaled, complete_fence, signaled_fence, store_fence,
}

ensure_memory_backing-fences :
    (e : Surroundings) (p : ℕ) (needs : Bool) (d : Driver) (r : VkResult) (d' : Driver)
    → ensure_memory_backing e p needs d ≡ some (r, d')
    → d'.fences ≡ d.fences
unfolding ensure_memory_backing ensure_resource
ensure_memory_backing-fences e p needs d r d' h = ground arith

module _ (h : Host) where
  read_resource-fences :
      (id memory start size : ℕ) (d : Driver) (r : VkResult) (d' : Driver)
      → read_resource h id memory start size d ≡ some (r, d')
      → d'.fences ≡ d.fences
  unfolding read_resource
  read_resource-fences id memory start size d r d' e = ground arith

  -- What a step in two parts came from.
  pub and_then-success :
      (x : Step) (f : Driver → Step) (d' : Driver)
      → and_then x f ≡ some (success, d')
      → (d1 : Driver) × (x ≡ some (success, d1)) × (f d1 ≡ some (success, d'))
  and_then-success none f d' e = absurd (cc e)
  and_then-success (some (success, d1)) f d' e = (d1, refl, e)
  and_then-success (some (r, d1)) f d' e = absurd (cc e)

  fill_image-fences :
      (i : ResultImage) (d d' : Driver)
      → fill_image h i d ≡ some (success, d')
      → d'.fences ≡ d.fences
  unfolding fill_image
  fill_image-fences i d d' e = elim (Option-cases (object i.memory d.memories)) [
    | inl dead ↦ absurd (ground arith)
    | inr (m, live) ↦
        elim (Bool-cases
          (ltb m.size i.memory_offset || ltb (m.size - i.memory_offset) (byte_count i))) [
            | inl outside ↦ absurd (ground arith)
            | inr inside ↦
                read_resource-fences i.resource_id i.memory i.memory_offset (byte_count i) d success
                  d' (ground arith)
          ]
  ]

  read_image-fences :
      (i : ResultImage) (d d' : Driver)
      → read_image h i d ≡ some (success, d')
      → d'.fences ≡ d.fences
  unfolding read_image
  read_image-fences i d d' e = elim (Bool-cases (i.memory == 0)) [
    | inl null ↦ absurd (ground arith)
    | inr there ↦
        let r =
          and_then-success (ensure_memory_backing h.around i.memory false d) (fill_image h i) d'
            (ground arith) in
        fill_image-fences i r.0 d' r.2
        ∙ ensure_memory_backing-fences h.around i.memory false d success r.0 r.1
  ]

  read_result-fences :
      (s : FenceState) (d d' : Driver)
      → read_result h s d ≡ some (success, d')
      → d'.fences ≡ d.fences
  unfolding read_result
  read_result-fences s d d' e = elim (Bool-cases (s.result_image == 0)) [
    | inr image ↦ elim (Option-cases (h.image s.result_image)) [
      | inl dead ↦ absurd (ground arith)
      | inr (i, live) ↦ read_image-fences i d d' (ground arith)
    ]
    | inl none_given ↦ elim (Option-cases (object s.result_memory d.memories)) [
      | inl dead ↦ absurd (ground arith)
      | inr (m, live) ↦
          read_resource-fences m.resource_id s.result_memory 0 m.size d success d' (ground arith)
    ]
  ]

-- Whether a fence is signaled.
abbrev pub Signals : ℕ → Driver → Type 0
Signals p d = (s : FenceState) × (object p d.fences ≡ some s) × (s.signaled ≡ true)

-- The same handles, and what was signaled still is.
pub record Kept (d d' : Driver) : Type 0 where
  pub members : d'.fences.members ≡ d.fences.members
  pub signals : (p : ℕ) → Signals p d → Signals p d'

pub Kept-trans : {d d' d'' : Driver} → Kept d d' → Kept d' d'' → Kept d d''
Kept-trans a b = record {
  members = b.members ∙ a.members;
  signals = λ p h. b.signals p (a.signals p h);
}

pub Kept-refl : (d : Driver) → Kept d d
Kept-refl d = record { members = refl; signals = λ p h. h }

mark_signaled_lem :
    (p : ℕ) (d d' : Driver) → mark_signaled p d ≡ some (success, d') → Kept d d' × Signals p d'
unfolding mark_signaled
mark_signaled_lem p d d' e = elim (Option-cases (object p d.fences)) [
  | inl dead ↦ absurd (ground arith)
  | inr (s, live) ↦
      let same : store_fence p (signaled_fence s) d ≡ d' = ground arith in
      subst (λ (x : Driver). Kept d x × Signals p x) same
        (
          record {
            members = refl;
            signals = λ q t. elim (Bool-cases (p == q)) [
              | inl here ↦ (
                signaled_fence s,
                ground (arith, lookup-put p q (signaled_fence s) d.fences.live),
                refl,
              )
              | inr other ↦
                  (t.0, ground (arith, t.1, lookup-put p q (signaled_fence s) d.fences.live), t.2)
            ];
          },
          (signaled_fence s, object-store_self p (signaled_fence s) d.fences, refl),
        )
]

pub complete_fence_lem :
    (h : Host) (p : ℕ) (d d' : Driver)
    → complete_fence h p d ≡ some (success, d')
    → Kept d d' × Signals p d'
unfolding complete_fence
complete_fence_lem h p d d' e = elim (Bool-cases (p == 0 || not (is_member p d.fences))) [
  | inl invalid ↦ absurd (ground arith)
  | inr valid ↦ elim (Option-cases (object p d.fences)) [
    | inl dead ↦ absurd (ground arith)
    | inr (s, live) ↦ elim (Bool-cases s.signaled) [
      | inl ready ↦
          let same : d ≡ d' = ground arith in
          subst (λ (x : Driver). Kept d x × Signals p x) same (Kept-refl d, (s, live, ready))
      | inr waits ↦ elim (Bool-cases (not_waitable h s)) [
        | inl stuck ↦ absurd (ground arith)
        | inr able ↦ elim (Bool-cases (h.waits s.bridge_fence_id)) [
          | inr throws ↦ absurd (ground arith)
          | inl done ↦
              let start : complete_fence h p d ≡ and_then (read_result h s d) (mark_signaled p) =
                rw (complete_fence, valid, live, waits, able, done) refl in
              let r = and_then-success h (read_result h s d) (mark_signaled p) d' (sym start ∙ e) in
              let m = mark_signaled_lem p r.0 d' r.2 in
              let same = read_result-fences h s d r.0 r.1 in
              (Kept-trans (fences-Kept d r.0 same) m.0, m.1)
        ]
      ]
    ]
  ]
]
  where
    fences-Kept : (d d1 : Driver) → d1.fences ≡ d.fences → Kept d d1
    fences-Kept d d1 same = record {
      members = ap (λ (x : Registry FenceState). x.members) same;
      signals = λ q t. (t.0, ap (λ (x : Registry FenceState). object q x) same ∙ t.1, t.2);
    }
