-- ===== src/Icd/Memory/Free.antt =====
-- Freeing device memory of guest/vulkan_icd/imb_vulkan_icd.cpp returns and keeps the invariant: no
-- sparse binding of any buffer is left that names the freed memory.
use mathlib.Core.Bool.{or-false}
use isaac_metal_bridge.Base.{
  subst, ℕ, ◌+◌, ◌≤◌, ◌≡◌, refl, ap, sym, ◌∙◌, contains, inl, inr, ◌⊎◌, Bool-cases, Option-cases,
  Bool, true, false, not, ◌&&◌, ◌||◌, none, some, List, [], ◌∷◌, ◌==◌, if◌then◌else◌, max64, arith,
  remove, contains-remove, lookup-put, lookup-erase,
}
use isaac_metal_bridge.Cuda.Registry.{
  Registry, is_member, is_live, object, withdraw, delete_object, store_object, IsSound,
  delete_object-IsSound, delete_object-ne_none, store_object-IsSound,
}
use isaac_metal_bridge.Icd.Bindings.{SparseBufferBinding}
use isaac_metal_bridge.Icd.Bindings.View.{IsBound}
use isaac_metal_bridge.Icd.Bindings.Pieces.{IsFrom, IsFrom-weaken}
use isaac_metal_bridge.Icd.Driver.{Driver, DeviceMemoryState, BufferState}
use isaac_metal_bridge.Icd.Memory.Allocate.{
  erase_bindings, erase_from_buffers, release_memory, free_memory,
}
use isaac_metal_bridge.Icd.Memory.Good.{IsGood, AllBacked, member-object, held}

regroup : (a b c : Bool) → ((a || b) || c) ≡ (b || (a || c))
regroup true true c = refl
regroup true false c = refl
regroup false b c = refl

module _ (p : ℕ) (members : List ℕ) where
  erase_bindings-IsFrom :
      (bs : List SparseBufferBinding) (limit lo : ℕ)
      → IsFrom limit lo bs
      → IsFrom limit lo (erase_bindings p bs)
  unfolding erase_bindings
  erase_bindings-IsFrom [] limit lo h = h
  erase_bindings-IsFrom (b ∷ bs) limit lo h = ground (
    arith,
    erase_bindings-IsFrom bs limit (b.resource_offset + b.size),
    IsFrom-weaken limit (b.resource_offset + b.size) lo (erase_bindings p bs),
  )

  erase_bindings-AllBacked :
      (bs : List SparseBufferBinding)
      → AllBacked members bs
      → AllBacked (remove p members) (erase_bindings p bs)
  unfolding erase_bindings
  erase_bindings-AllBacked [] h = tt
  erase_bindings-AllBacked (b ∷ bs) h =
      ground (arith, erase_bindings-AllBacked bs, contains-remove p b.memory members)

  erase_bindings-kept :
      (kept : List ℕ) (bs : List SparseBufferBinding)
      → AllBacked kept bs
      → AllBacked kept (erase_bindings p bs)
  unfolding erase_bindings
  erase_bindings-kept kept [] h = tt
  erase_bindings-kept kept (b ∷ bs) h = ground (arith, erase_bindings-kept kept bs)

  erased : BufferState → BufferState
  erased b = record b { sparse_bindings = erase_bindings p b.sparse_bindings }

  -- The bindings of a buffer while the loop runs: those of a buffer seen do not name `p`.
  pub record IsFine (seen : Bool) (b : BufferState) : Type 0 where
    pub small : b.size ≤ max64
    pub apart : IsBound b.size b.sparse_bindings
    pub backed :
        AllBacked (remove p members) b.sparse_bindings
        ⊎ ((seen ≡ false) × AllBacked members b.sparse_bindings)

  erased-IsFine : (seen : Bool) (b : BufferState) → IsFine seen b → IsFine true (erased b)
  unfolding erased
  erased-IsFine seen b f = record {
    small = f.small;
    apart = erase_bindings-IsFrom b.sparse_bindings b.size 0 f.apart;
    backed = inl (elim f.backed [
      | inl new ↦ erase_bindings-kept (remove p members) b.sparse_bindings new
      | inr old ↦ erase_bindings-AllBacked b.sparse_bindings old.1
    ]);
  }

  abbrev AllFine : List ℕ → Registry BufferState → Type 0
  AllFine seen buffers =
      (q : ℕ) (b : BufferState) → object q buffers ≡ some b → IsFine (contains q seen) b

  AllFine-store :
      (seen : List ℕ) (buffers : Registry BufferState) (q : ℕ) (b : BufferState)
      → object q buffers ≡ some b
      → AllFine seen buffers
      → AllFine (q ∷ seen) (store_object q (erased b) buffers)
  unfolding contains
  AllFine-store seen buffers q b h fine r c e = elim (Bool-cases (q == r)) [
    | inl same ↦
        let found : erased b ≡ c = ground (arith, lookup-put q r (erased b) buffers.live) in
        rw (same, ◌||◌)
          (subst (λ (x : BufferState). IsFine true x) found
            (erased-IsFine (contains q seen) b (fine q b h)))
    | inr other ↦
        rw (other, ◌||◌) (fine r c (ground (arith, lookup-put q r (erased b) buffers.live)))
  ]

  erase_from_buffers_lem :
      (qs seen : List ℕ) (buffers : Registry BufferState)
      → IsSound buffers
      → ((q : ℕ) → contains q qs ≡ true → is_live q buffers ≡ true)
      → AllFine seen buffers
      → (buffers' : Registry BufferState) × (erase_from_buffers p qs buffers ≡ some buffers')
        × IsSound buffers'
        × (buffers'.members ≡ buffers.members)
        × ((q : ℕ) (b : BufferState)
            → object q buffers' ≡ some b
            → IsFine (contains q seen || contains q qs) b)
  unfolding erase_from_buffers contains erased
  erase_from_buffers_lem [] seen buffers sound live fine =
      (buffers, refl, sound, refl, λ q b h. rw or-false (fine q b h))
  erase_from_buffers_lem (q ∷ qs) seen buffers sound live fine =
      elim (Option-cases (object q buffers)) [
        | inl dead ↦ absurd (ground (arith, live q))
        | inr (b, h) ↦
            let next = store_object q (erased b) buffers in
            let r =
              erase_from_buffers_lem qs (q ∷ seen) next
                (store_object-IsSound buffers q (erased b) (ground arith) sound)
                (λ x hx. ground (arith, lookup-put q x (erased b) buffers.live, live x))
                (AllFine-store seen buffers q b h fine) in
            (
              r.0,
              rw (h, erase_from_buffers) r.1,
              r.2,
              r.3,
              λ x c hc.
                  subst (λ (s : Bool). IsFine s c)
                    (regroup (q == x) (contains x seen) (contains x qs)) (r.4 x c hc),
            )
      ]

  erased_fine :
      (buffers : Registry BufferState) (q : ℕ) (b : BufferState)
      → IsSound buffers
      → object q buffers ≡ some b
      → contains q buffers.members ≡ true
  erased_fine buffers q b sound h = ground (arith, sound q)

-- A memory that is removed from the set and deleted.
release_memory-IsGood :
    (bridge : Bool) (p : ℕ) (buffers : Registry BufferState) (m : DeviceMemoryState) (d : Driver)
    → IsGood d
    → is_member p d.memories ≡ true
    → IsSound buffers
    → ((q : ℕ) (b : BufferState) → object q buffers ≡ some b → IsFine p d.memories.members true b)
    → (d' : Driver) × (release_memory bridge p buffers m d ≡ some d') × IsGood d'
unfolding release_memory
release_memory-IsGood bridge p buffers m d g member sound fine =
    elim (Option-cases (delete_object p (withdraw p d.memories))) [
      | inl stuck ↦ absurd (delete_object-ne_none d.memories p member g.memories stuck)
      | inr (memories, e) ↦ (
        record d {
          memories = memories;
          buffers = buffers;
          destroyed =
              if bridge && not (m.resource_id == 0)
              then m.resource_id ∷ d.destroyed
              else d.destroyed;
          closed = elim m.external_fd [ none ↦ d.closed | some fd ↦ fd ∷ d.closed ];
        },
        rw (e, release_memory) refl,
        record {
          memories = delete_object-IsSound d.memories p memories e g.memories;
          buffers = sound;
          fit = λ q n h. g.fit q n (left memories e q n h);
          bound = λ q b h.
              let f = fine q b h in
              (
                f.small,
                f.apart,
                subst (λ (x : List ℕ). AllBacked x b.sparse_bindings) (members memories e)
                    (elim f.backed [ inl new ↦ new | inr old ↦ absurd (cc (old.0)) ]),
              );
        },
      )
    ]
  where
    left :
        (memories : Registry DeviceMemoryState)
        → delete_object p (withdraw p d.memories) ≡ some memories
        → (q : ℕ) (n : DeviceMemoryState) → object q memories ≡ some n
        → object q d.memories ≡ some n
    left memories e q n h = unfold delete_object in ground (arith, lookup-erase p q d.memories.live)

    members :
        (memories : Registry DeviceMemoryState)
        → delete_object p (withdraw p d.memories) ≡ some memories
        → remove p d.memories.members ≡ memories.members
    members memories e = unfold delete_object in ground arith

pub free_memory-IsGood :
    (bridge : Bool) (p : ℕ) (d : Driver)
    → IsGood d
    → (d' : Driver) × (free_memory bridge p d ≡ some d') × IsGood d'
unfolding free_memory contains
free_memory-IsGood bridge p d g = elim (Bool-cases (p == 0 || not (is_member p d.memories))) [
  | inl out ↦ (d, rw out refl, g)
  | inr valid ↦
      let member : is_member p d.memories ≡ true = ground arith in
      let s = d.memories.members in
      let r =
        erase_from_buffers_lem p s d.buffers.members [] d.buffers g.buffers
          (λ q h. sym (g.buffers q) ∙ h)
          (λ q b h.
            let k = g.bound q b h in
            record { small = k.0; apart = k.1; backed = inr (refl, k.2) }) in
      elim (member-object p d g member) [
        | held m h ↦
            let z = release_memory-IsGood bridge p r.0 m d g member r.2 (λ q b e.
              subst (λ (x : Bool). IsFine p s x b)
                (ap (contains q) (sym r.3) ∙ erased_fine p s r.0 q b r.2 e) (r.4 q b e)) in
            (z.0, rw (valid, r.1, free_memory, h) z.1, z.2)
      ]
]
