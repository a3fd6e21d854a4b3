-- ===== src/Icd/Buffers/Addresses.antt =====
-- The device addresses of the buffers of guest/vulkan_icd/imb_vulkan_icd.cpp: no two buffers share
-- one, so an address leads to its buffer.
use isaac_metal_bridge.Base.{
  ℕ, ◌+◌, ◌*◌, ◌/◌, ◌≤◌, ◌<◌, ◌≡◌, ◌≢◌, refl, ap, sym, subst, ◌∙◌, contains, inl, inr, ◌⊎◌,
  Bool-cases, Option-cases, Bool, true, false, Option, none, some, List, [], ◌∷◌, ◌==◌, ==_iff, max,
  max64, round_down, lookup-put, lookup-erase, arith, bit_and, not64,
}
use isaac_metal_bridge.Cuda.Registry.{is_member, object, new_object, enrol, delete_object, IsSound}
use isaac_metal_bridge.Icd.Driver.{Driver, BufferState, Enums}
use isaac_metal_bridge.Icd.Buffers.{
  BufferInfo, fresh_buffer, create_buffer, destroy_buffer, address_span, next_address, covers,
  find_buffer, buffer_for_device_address,
}
use isaac_metal_bridge.Icd.Buffers.Objects.{lacks}

-- Each buffer lies below the next address, and apart from every other.
pub record IsPlaced (d : Driver) : Type 0 where
  pub below :
      (p : ℕ) (b : BufferState)
      → object p d.buffers ≡ some b
      → b.device_address + b.size ≤ d.next_buffer_device_address
  pub positive :
      (p : ℕ) (b : BufferState)
      → object p d.buffers ≡ some b
      → (0 < b.device_address) × (0 < b.size)
  pub apart :
      (p q : ℕ) (b c : BufferState)
      → object p d.buffers ≡ some b
      → object q d.buffers ≡ some c
      → p ≢ q
      → (b.device_address + b.size ≤ c.device_address)
        ⊎ (c.device_address + c.size ≤ b.device_address)
  pub small : d.next_buffer_device_address ≤ max64
  pub started : 0 < d.next_buffer_device_address

address_span_lem :
    (size : ℕ) → size + 4095 ≤ max64 → address_span size ≡ (size + 4095) / 4096 * 4096
address_span_lem size h =
    ap (λ (t : ℕ). bit_and t (not64 4095)) (omega arith)
    ∙ round_down 12 (size + 4095) (omega arith) (omega arith)

next_address_lem :
    (address size : ℕ)
    → address + size + 4096 ≤ max64
    → (address + size ≤ next_address address size) × (next_address address size ≤ max64)
unfolding next_address
next_address_lem address size h = ground (arith, address_span_lem size)

placed :
    (d : Driver) (p : ℕ) (b : BufferState) (next : ℕ)
    → IsPlaced d
    → b.device_address ≡ d.next_buffer_device_address
    → 0 < b.size
    → b.device_address + b.size ≤ next
    → next ≤ max64
    → IsPlaced (record d {
      buffers = enrol p (new_object p b d.buffers);
      next_buffer_device_address = next;
    })
placed d p b next h at full end small = record {
  below = λ q c e. elim (cases q c e) [
    | inl new ↦ rw (← new.1) end
    | inr old ↦ omega (arith, h.below q c old.1)
  ];
  positive = λ q c e. elim (cases q c e) [
    | inl new ↦ rw (← new.1) (omega (arith, h.started), full)
    | inr old ↦ h.positive q c old.1
  ];
  apart = λ q r c f e k ne. elim (cases q c e) [
    | inl new ↦ elim (cases r f k) [
      | inl also ↦ absurd (ne (sym new.0 ∙ also.0))
      | inr old ↦ rw (← new.1) (inr (omega (arith, h.below r f old.1)))
    ]
    | inr old ↦ elim (cases r f k) [
      | inl new ↦ rw (← new.1) (inl (omega (arith, h.below q c old.1)))
      | inr also ↦ h.apart q r c f old.1 also.1 ne
    ]
  ];
  small = small;
  started = omega (arith, h.started);
}
  where
    cases :
        (q : ℕ) (c : BufferState)
        → object q (enrol p (new_object p b d.buffers)) ≡ some c
        → ((p ≡ q) × (b ≡ c)) ⊎ ((p ≢ q) × (object q d.buffers ≡ some c))
    cases q c e = elim (Bool-cases (p == q)) [
      | inl same ↦ inl ((==_iff p q).0 same, ground (arith, lookup-put p q b d.buffers.live))
      | inr other ↦
          inr (λ k. absurd (cc ((==_iff p q).1 k)), ground (arith, lookup-put p q b d.buffers.live))
    ]

-- Where the next device address leaves room for the buffer and one more page, vkCreateBuffer,
-- whether it succeeds or not, keeps the buffers placed: the addresses of each are positive, not
-- empty and below the next address, and apart from those of every other.
pub create_buffer-IsPlaced :
    (vk : Enums) (given : Bool) (device : ℕ) (info : BufferInfo) (allocation : Option ℕ)
    (d : Driver)
    → d.next_buffer_device_address + max 1 info.size + 4096 ≤ max64
    → IsPlaced d
    → IsPlaced (create_buffer vk given device info allocation d).state
unfolding create_buffer
create_buffer-IsPlaced vk false device info allocation d room h = h
create_buffer-IsPlaced vk true device info none d room h =
    elim (Bool-cases (lacks vk device info d)) [ inl e ↦ rw e h | inr e ↦ rw e h ]
create_buffer-IsPlaced vk true device info (some p) d room h =
    let n = next_address_lem d.next_buffer_device_address (max 1 info.size) room in
    let b = fresh_buffer device info d.next_buffer_device_address in
    let made =
      placed d p b (next_address d.next_buffer_device_address (max 1 info.size)) h refl
        (omega arith) n.0 n.1 in
    elim (Bool-cases (lacks vk device info d)) [ inl e ↦ rw e h | inr e ↦ rw e made ]

pub destroy_buffer-IsPlaced :
    (p : ℕ) (d d' : Driver) → destroy_buffer p d ≡ some d' → IsPlaced d → IsPlaced d'
unfolding destroy_buffer
destroy_buffer-IsPlaced p d d' e h = record {
  below = λ q b k. omega (arith, h.below q b (kept q b k), same);
  positive = λ q b k. h.positive q b (kept q b k);
  apart = λ q r b c k l ne. h.apart q r b c (kept q b k) (kept r c l) ne;
  small = omega (arith, h.small, same);
  started = omega (arith, h.started, same);
}
  where
    same : d'.next_buffer_device_address ≡ d.next_buffer_device_address
    same = unfold delete_object in ground arith

    kept : (q : ℕ) (b : BufferState) → object q d'.buffers ≡ some b → object q d.buffers ≡ some b
    kept q b k = unfold delete_object in ground (arith, lookup-erase p q d.buffers.live)

-- Only one buffer covers an address.
covers_once :
    (d : Driver) (p q : ℕ) (b c : BufferState) (k : ℕ)
    → IsPlaced d
    → object p d.buffers ≡ some b
    → object q d.buffers ≡ some c
    → k < b.size
    → covers c b.device (b.device_address + k) ≡ true
    → p ≡ q
covers_once d p q b c k h e f below covered = elim (Bool-cases (p == q)) [
  | inl same ↦ (==_iff p q).0 same
  | inr other ↦ absurd (elim (h.apart p q b c e f (λ z. absurd (cc ((==_iff p q).1 z)))) [
    | inl first ↦ ground (arith, h.below p b e, h.below q c f, h.small)
    | inr last ↦ ground (arith, h.below p b e, h.below q c f, h.small)
  ])
]

some_inj : {x y : BufferState} → some x ≡ some y → x ≡ y
some_inj z = cc z

find_buffer_lem :
    (d : Driver) (p : ℕ) (b : BufferState) (k : ℕ) (ps : List ℕ)
    → IsPlaced d
    → IsSound d.buffers
    → object p d.buffers ≡ some b
    → k < b.size
    → ((q : ℕ) → contains q ps ≡ true → is_member q d.buffers ≡ true)
    → contains p ps ≡ true
    → find_buffer b.device (b.device_address + k) ps d ≡ some p
unfolding find_buffer contains
find_buffer_lem d p b k [] h sound e below known here = absurd (cc here)
find_buffer_lem d p b k (q ∷ qs) h sound e below known here =
    elim (Option-cases (object q d.buffers)) [
      | inl dead ↦ absurd (ground (arith, sound q, known q))
      | inr (c, f) ↦ elim (Bool-cases (covers c b.device (b.device_address + k))) [
        | inl covered ↦
            rw (f, find_buffer, covered)
              (ap some (sym (covers_once d p q b c k h e f below covered)))
        | inr free ↦
            rw (f, find_buffer, free)
              (find_buffer_lem d p b k qs h sound e below (λ r z. ground (arith, known r))
                (elsewhere c f free))
      ]
    ]
  where
    own : covers b b.device (b.device_address + k) ≡ true
    own = ground (arith, h.below p b e, h.small)

    elsewhere :
        (c : BufferState)
        → object q d.buffers ≡ some c
        → covers c b.device (b.device_address + k) ≡ false
        → contains p qs ≡ true
    elsewhere c f free = elim (Bool-cases (q == p)) [
      | inl same ↦
          let one : q ≡ p = (==_iff q p).0 same in
          let twin : b ≡ c = some_inj (sym e ∙ ap (λ (x : ℕ). object x d.buffers) (sym one) ∙ f) in
          absurd (
            cc (
              own,
              subst (λ (x : BufferState). covers x b.device (b.device_address + k) ≡ false)
                  (sym twin) free,
            ))
      | inr other ↦ ground arith
    ]

-- Among buffers that are placed and whose handles are the live ones, the address of any byte of a
-- buffer, with its device, leads to that buffer.
pub buffer_for_device_address_lem :
    (d : Driver) (p : ℕ) (b : BufferState) (k : ℕ)
    → IsPlaced d
    → IsSound d.buffers
    → object p d.buffers ≡ some b
    → k < b.size
    → buffer_for_device_address b.device (b.device_address + k) d ≡ some p
unfolding buffer_for_device_address
buffer_for_device_address_lem d p b k h sound e below =
    rw (null, buffer_for_device_address)
      (find_buffer_lem d p b k d.buffers.members h sound e below (λ q z. z)
        (ground (arith, sound p)))
  where
    null : (b.device_address + k == 0) ≡ false
    null = ground (arith, h.positive p b e)
