-- ===== src/Icd/Buffers/Objects.antt =====
-- Creating, destroying and binding buffers of guest/vulkan_icd/imb_vulkan_icd.cpp keeps the
-- invariant.
use isaac_metal_bridge.Base.{
  subst, ℕ, ◌≤◌, ◌≡◌, refl, inl, inr, Bool-cases, Option-cases, Bool, true, false, not, ◌&&◌, ◌||◌,
  Option, none, some, List, [], ◌∷◌, ltb, ◌-◌, ◌==◌, max, max64, arith, lookup-put, lookup-erase,
}
use isaac_metal_bridge.Cuda.Registry.{
  Registry, is_member, object, new_object, enrol, withdraw, delete_object, store_object, IsSound,
  enrol-IsSound, delete_object-IsSound, delete_object-ne_none, store_object-IsSound,
}
use isaac_metal_bridge.Icd.Result.{VkResult, success, initialization_failed}
use isaac_metal_bridge.Icd.Bindings.View.{IsBound}
use isaac_metal_bridge.Icd.Driver.{Driver, BufferState, Enums, Step, and_then, valid_device}
use isaac_metal_bridge.Icd.Memory.Good.{IsGood, AllBacked, member-object, Live, held}
use isaac_metal_bridge.Icd.Buffers.{
  BufferInfo, create_buffer, destroy_buffer, bind_buffer_memory, BindBufferInfo, bind_all,
  bind_buffer_memory2, bind_buffer_memory2, next_address, fresh_buffer,
}

-- A step that keeps the invariant, and may change a buffer.
abbrev pub Keeps : Step → Type 0
Keeps s = (r : VkResult) × (d' : Driver) × (s ≡ some (r, d')) × IsGood d'

pub and_then-Keeps :
    (s : Step) (f : Driver → Step)
    → Keeps s
    → ((d' : Driver) → IsGood d' → Keeps (f d'))
    → Keeps (and_then s f)
and_then-Keeps s f (success, d', e, g) k =
    let (r, d'', e', g') = k d' g in (r, d'', rw (e, and_then) e', g')
and_then-Keeps s f (r, d', e, g) k = (r, d', rw e refl, g)

abbrev pub GoodBuffer : List ℕ → BufferState → Type 0
GoodBuffer members b =
    (b.size ≤ max64) × IsBound b.size b.sparse_bindings × AllBacked members b.sparse_bindings

pub buffers-IsGood :
    (d : Driver) (buffers : Registry BufferState) (next : ℕ)
    → IsGood d
    → IsSound buffers
    → ((q : ℕ) (b : BufferState) → object q buffers ≡ some b → GoodBuffer d.memories.members b)
    → IsGood (record d { buffers = buffers; next_buffer_device_address = next })
buffers-IsGood d buffers next g sound bound = record {
  memories = g.memories;
  buffers = sound;
  fit = g.fit;
  bound = bound;
}

pub stored_buffer :
    (p : ℕ) (b : BufferState) (r : Registry BufferState) (members : List ℕ)
    → GoodBuffer members b
    → ((q : ℕ) (c : BufferState) → object q r ≡ some c → GoodBuffer members c)
    → (q : ℕ) (c : BufferState) → object q (store_object p b r) ≡ some c
    → GoodBuffer members c
stored_buffer p b r members good bound q c h = elim (Bool-cases (p == q)) [
  | inl same ↦
      let e : b ≡ c = ground (arith, lookup-put p q b r.live) in
      subst (λ (x : BufferState). GoodBuffer members x) e good
  | inr other ↦ bound q c (ground (arith, lookup-put p q b r.live))
]

abbrev pub lacks : Enums → ℕ → BufferInfo → Driver → Bool
lacks vk device info d =
    not (valid_device device d)
    || (not (info.sharing_mode == vk.sharing_mode_exclusive)
        && not (info.sharing_mode == vk.sharing_mode_concurrent))

pub create_buffer-IsGood :
    (vk : Enums) (given : Bool) (device : ℕ) (info : BufferInfo) (allocation : Option ℕ)
    (d : Driver)
    → info.size ≤ max64
    → IsGood d
    → IsGood (create_buffer vk given device info allocation d).state
unfolding create_buffer
create_buffer-IsGood vk false device info allocation d small g = g
create_buffer-IsGood vk true device info none d small g =
    elim (Bool-cases (lacks vk device info d)) [ inl e ↦ rw e g | inr e ↦ rw e g ]
create_buffer-IsGood vk true device info (some p) d small g =
    let b = fresh_buffer device info d.next_buffer_device_address in
    let fresh =
      stored_buffer p b d.buffers d.memories.members (ground arith, omega arith, tt) g.bound in
    let made =
      buffers-IsGood d (enrol p (new_object p b d.buffers))
        (next_address d.next_buffer_device_address (max 1 info.size)) g
        (enrol-IsSound d.buffers p b g.buffers) fresh in
    elim (Bool-cases (lacks vk device info d)) [ inl e ↦ rw e g | inr e ↦ rw e made ]

pub destroy_buffer-IsGood :
    (p : ℕ) (d : Driver) → IsGood d → (d' : Driver) × (destroy_buffer p d ≡ some d') × IsGood d'
unfolding destroy_buffer
destroy_buffer-IsGood p d g = elim (Bool-cases (p == 0 || not (is_member p d.buffers))) [
  | inl out ↦ (d, rw out refl, g)
  | inr valid ↦ elim (Option-cases (delete_object p (withdraw p d.buffers))) [
    | inl stuck ↦ absurd (delete_object-ne_none d.buffers p (ground arith) g.buffers stuck)
    | inr (buffers, e) ↦ (
      record d { buffers = buffers },
      rw (valid, e, destroy_buffer) refl,
      buffers-IsGood d buffers d.next_buffer_device_address g
          (delete_object-IsSound d.buffers p buffers e g.buffers)
          (λ q b h. g.bound q b (left buffers e q b h)),
    )
  ]
]
  where
    left :
        (buffers : Registry BufferState)
        → delete_object p (withdraw p d.buffers) ≡ some buffers
        → (q : ℕ) (b : BufferState) → object q buffers ≡ some b
        → object q d.buffers ≡ some b
    left buffers e q b h = unfold delete_object in ground (arith, lookup-erase p q d.buffers.live)

buffer-object :
    (p : ℕ) (d : Driver) → IsGood d → is_member p d.buffers ≡ true → Live (object p d.buffers)
buffer-object p d g h = elim (Option-cases (object p d.buffers)) [
  | inl dead ↦ absurd (ground (arith, g.buffers p))
  | inr (m, live) ↦ held m live
]

pub bind_buffer_memory-Keeps :
    (device p memory offset : ℕ) (d : Driver)
    → IsGood d
    → Keeps (bind_buffer_memory device p memory offset d)
unfolding bind_buffer_memory
bind_buffer_memory-Keeps device p memory offset d g =
    elim (Bool-cases (
      (p == 0 || memory == 0)
      || (not (is_member p d.buffers) || not (is_member memory d.memories)))) [
        | inl out ↦ (initialization_failed, d, rw out refl, g)
        | inr valid ↦ elim (buffer-object p d g (ground arith)) [
          | held b h ↦ elim (member-object memory d g (ground arith)) [
            | held m k ↦
                elim (Bool-cases (
                  not (b.device == device)
                  || (not (m.device == device)
                      || (ltb m.size offset || ltb (m.size - offset) b.size)))) [
                        | inl bad ↦ (
                          initialization_failed,
                          d,
                          rw (valid, h, bind_buffer_memory, k, bad) refl,
                          g,
                        )
                        | inr good ↦ (
                          success,
                          record d {
                            buffers =
                                store_object p
                                  (record b { memory = memory; memory_offset = offset }) d.buffers;
                          },
                          rw (valid, h, bind_buffer_memory, k, good) refl,
                          buffers-IsGood d
                              (store_object p (record b { memory = memory; memory_offset = offset })
                                d.buffers)
                              d.next_buffer_device_address g
                              (store_object-IsSound d.buffers p
                                (record b { memory = memory; memory_offset = offset })
                                (ground arith) g.buffers)
                              (stored_buffer p
                                (record b { memory = memory; memory_offset = offset }) d.buffers
                                d.memories.members (g.bound p b h) g.bound),
                        )
                      ]
          ]
        ]
      ]

pub bind_all-Keeps :
    (device : ℕ) (is : List BindBufferInfo) (d : Driver) → IsGood d → Keeps (bind_all device is d)
unfolding bind_all
bind_all-Keeps device [] d g = (success, d, refl, g)
bind_all-Keeps device (i ∷ is) d g =
    and_then-Keeps (bind_buffer_memory device i.buffer i.memory i.memory_offset d)
      (bind_all device is) (bind_buffer_memory-Keeps device i.buffer i.memory i.memory_offset d g)
      (λ d' g'. bind_all-Keeps device is d' g')

pub bind_buffer_memory2-Keeps :
    (given : Bool) (device : ℕ) (is : List BindBufferInfo) (d : Driver)
    → IsGood d
    → Keeps (bind_buffer_memory2 given device is d)
unfolding bind_buffer_memory2
bind_buffer_memory2-Keeps given device [] d g = bind_all-Keeps device [] d g
bind_buffer_memory2-Keeps true device (i ∷ is) d g = bind_all-Keeps device (i ∷ is) d g
bind_buffer_memory2-Keeps false device (i ∷ is) d g = (initialization_failed, d, refl, g)
