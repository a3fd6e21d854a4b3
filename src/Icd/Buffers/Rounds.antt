-- ===== src/Icd/Buffers/Rounds.antt =====
-- The rounds of the loop that reads a buffer through its sparse bindings, in
-- guest/vulkan_icd/imb_vulkan_icd.cpp.
use isaac_metal_bridge.Base.{
  subst, ℕ, zero, suc, ◌+◌, ◌-◌, ◌≤◌, ◌<◌, ◌≡◌, refl, ap, sym, ◌∙◌, inl, inr, Bool-cases,
  Option-cases, true, false, Option, none, some, List, leb, ◌==◌, add64, max64, lookup-put, arith,
}
use isaac_metal_bridge.Cuda.Registry.{object, store_object, IsSound, store_object-IsSound}
use isaac_metal_bridge.Icd.Result.{success}
use isaac_metal_bridge.Icd.Bindings.{SparseBufferBinding, binding_at}
use isaac_metal_bridge.Icd.Bindings.Pieces.{IsFrom, located, resolve}
use isaac_metal_bridge.Icd.Driver.{Driver, DeviceMemoryState}
use isaac_metal_bridge.Icd.Driver.Transfers.{within}
use isaac_metal_bridge.Icd.Memory.{Surroundings, store_memory}
use isaac_metal_bridge.Icd.Buffers.Transfer.{
  chunk_of, memory_place, gathered, read_chunk, read_sparse,
}
use isaac_metal_bridge.Icd.Buffers.Gather.{
  IsAt, Holds, binding_at-Holds, binding_at-later, read_chunk-gathered,
}

-- A byte that is there, seen through the binding that holds it.
record Through (d : Driver) (b : SparseBufferBinding) (o v : ℕ) : Type 0 where
  state : DeviceMemoryState
  bound : (b.memory == 0) ≡ false
  there : object b.memory d.memories ≡ some state
  backed : state.backed ≡ true
  alone : state.external_fd ≡ none
  inside : memory_place b o < state.size
  value : state.bytes (memory_place b o) ≡ v

through :
    (d : Driver) (bs : List SparseBufferBinding) (o v : ℕ) (b : SparseBufferBinding)
    → IsAt d (resolve bs o) v
    → binding_at bs o ≡ some b
    → Through d b o v
through d bs o v b at h =
    let same : located (some b) o ≡ some (at.memory, at.place) =
      ap (λ x. located x o) (sym h) ∙ at.resolved in
    let memory : at.memory ≡ b.memory = ground arith in
    let place : at.place ≡ memory_place b o = ground arith in
    record {
      state = at.state;
      bound = rw (sym memory) at.bound;
      there = rw (sym memory) at.there;
      backed = at.backed;
      alone = at.alone;
      inside = rw (sym place) at.inside;
      value = rw (sym place) at.value;
    }

-- Storing a memory as it is leaves every byte where it is.
kept :
    (d : Driver) (found : Option (ℕ × ℕ)) (v p : ℕ) (m : DeviceMemoryState)
    → object p d.memories ≡ some m
    → IsAt d found v
    → IsAt (store_memory p m d) found v
kept d found v p m h at = record {
  memory = at.memory;
  place = at.place;
  state = at.state;
  resolved = at.resolved;
  bound = at.bound;
  there = object_kept;
  backed = at.backed;
  alone = at.alone;
  inside = at.inside;
  value = at.value;
}
  where
    object_kept : object at.memory (store_object p m d.memories) ≡ some at.state
    object_kept = elim (Bool-cases (p == at.memory)) [
      | inl same ↦
          let path : p ≡ at.memory = ground arith in
          let here : object at.memory d.memories ≡ some m = rw (sym path) h in
          let one : some m ≡ some at.state = sym here ∙ at.there in
          ground (arith, lookup-put p at.memory m d.memories.live)
      | inr other ↦ ground (arith, lookup-put p at.memory m d.memories.live, at.there)
    ]

module _ (e : Surroundings) (limit : ℕ) (bs : List SparseBufferBinding) (small : limit ≤ max64)
    (bound : IsFrom limit 0 bs) (offset size : ℕ) (room : offset + size ≤ limit)
    (content : ℕ → ℕ) where
  -- What a loop has to do from `copied` on.
  pub record Rest (copied : ℕ) (output : ℕ → ℕ) (d : Driver) : Type 0 where
    pub sound : IsSound d.memories
    pub ahead : (i : ℕ) → copied ≤ i → i < size → IsAt d (resolve bs (offset + i)) (content i)
    pub behind : (i : ℕ) → i < copied → output i ≡ content i

  abbrev chunk_at : SparseBufferBinding → ℕ → ℕ
  chunk_at b copied = chunk_of b (add64 offset copied) (size - copied)

  record Round (copied : ℕ) (output : ℕ → ℕ) (d : Driver) (b : SparseBufferBinding) : Type 0 where
    result : ℕ → ℕ
    state : Driver
    reads :
        read_chunk e b.memory
          (memory_place b (add64 offset copied))
          copied
          (chunk_at b copied)
          output
          d
        ≡ some (success, result, state)
    further : copied < copied + chunk_at b copied
    within_size : copied + chunk_at b copied ≤ size
    rest : Rest (copied + chunk_at b copied) result state

  -- One round, through the binding of its first byte.
  module _ (copied : ℕ) (output : ℕ → ℕ) (d : Driver) (b : SparseBufferBinding)
      (part : copied < size) (r : Rest copied output d)
      (h : binding_at bs (offset + copied) ≡ some b) where
    holds : Holds limit 0 (offset + copied) b
    holds = binding_at-Holds limit 0 bs (offset + copied) b small (omega arith) bound h

    plain : add64 offset copied ≡ offset + copied
    plain = omega arith

    source :
        memory_place b (add64 offset copied)
        ≡ b.memory_offset + (offset + copied - b.resource_offset)
    source = rw plain (ground (arith, holds.from, holds.below, holds.fits))

    chunk_facts :
        (0 < chunk_at b copied)
        × (copied + chunk_at b copied ≤ size)
        × (offset + copied + chunk_at b copied ≤ b.resource_offset + b.size)
    chunk_facts = rw plain (
      ground (arith, holds.from, holds.below),
      ground arith,
      ground (arith, holds.from, holds.below),
    )

    first : Through d b (offset + copied) (content copied)
    first = through d bs (offset + copied) (content copied) b (r.ahead copied (omega arith) part) h

    seen :
        (i : ℕ)
        → copied ≤ i
        → i < copied + chunk_at b copied
        → (memory_place b (offset + i) < first.state.size)
          × (first.state.bytes (memory_place b (offset + i)) ≡ content i)
    seen i le below =
        let t =
          through d bs (offset + i) (content i) b (r.ahead i le (omega (arith, chunk_facts.1))) (
            binding_at-later limit 0 bs (offset + copied) (offset + i) b small bound h (omega arith)
              (omega (arith, chunk_facts.1)) (omega (arith, chunk_facts.2))) in
        let same : some t.state ≡ some first.state = sym t.there ∙ first.there in
        let one : t.state ≡ first.state = ground arith in
        subst
          (λ (m : DeviceMemoryState).
            (memory_place b (offset + i) < m.size)
            × (m.bytes (memory_place b (offset + i)) ≡ content i))
          one (t.inside, t.value)

    place :
        (i : ℕ)
        → copied ≤ i
        → i < copied + chunk_at b copied
        → memory_place b (offset + i) ≡ memory_place b (add64 offset copied) + (i - copied)
    place i le below = rw source (ground (arith, chunk_facts.2, holds.from, holds.fits))

    fits : memory_place b (add64 offset copied) + chunk_at b copied ≤ first.state.size
    fits =
        let last = copied + chunk_at b copied - 1 in
        let le : copied ≤ last = omega (arith, chunk_facts.0) in
        let below : last < copied + chunk_at b copied = omega (arith, chunk_facts.0) in
        omega (arith, (seen last le below).0, place last le below, chunk_facts.0)

    round : Round copied output d b
    round =
        let s = memory_place b (add64 offset copied) in
        record {
          result = gathered output copied (chunk_at b copied) first.state.bytes s;
          state = store_memory b.memory first.state d;
          reads =
              read_chunk-gathered e b.memory s copied (chunk_at b copied) output first.state d
                first.bound r.sound first.there first.backed first.alone fits;
          further = omega (arith, chunk_facts.0);
          within_size = chunk_facts.1;
          rest = record {
            sound =
                store_object-IsSound d.memories b.memory first.state (ground (arith, first.there))
                  r.sound;
            ahead = λ i le lt.
                kept d (resolve bs (offset + i)) (content i) b.memory first.state first.there
                  (r.ahead i (omega arith) lt);
            behind = behind;
          };
        }
      where
        behind :
            (i : ℕ)
            → i < copied + chunk_at b copied
            → gathered output copied
                (chunk_at b copied)
                first.state.bytes
                (memory_place b (add64 offset copied))
                i
              ≡ content i
        behind i below = elim (Bool-cases (within copied (chunk_at b copied) i)) [
          | inl here ↦
              let le : copied ≤ i = ground arith in
              rw (here, sym (place i le below)) (seen i le below).1
          | inr before ↦ rw before (r.behind i (ground arith))
        ]

  -- If every byte of the range is bound to a memory that has its bytes and no file, the loop over
  -- the chunks succeeds and gives these bytes.
  pub read_sparse-gathers :
      (n copied : ℕ) (output : ℕ → ℕ) (d : Driver)
      → size - copied < n
      → copied ≤ size
      → Rest copied output d
      → (bytes : ℕ → ℕ) × (d' : Driver) × (read_sparse n e bs offset size copied output d
          ≡ some (success, bytes, d'))
        × ((i : ℕ) → i < size → bytes i ≡ content i)
  unfolding read_sparse
  read_sparse-gathers zero copied output d fuel le r = absurd (omega arith)
  read_sparse-gathers (suc n) copied output d fuel le r = elim (Bool-cases (leb size copied)) [
    | inl all ↦ (output, d, rw all refl, λ i lt. r.behind i (ground arith))
    | inr part ↦
        let more : copied < size = ground arith in
        elim (Option-cases (binding_at bs (offset + copied))) [
          | inl hole ↦ absurd (ground (arith, (r.ahead copied (omega arith) more).resolved))
          | inr (b, h) ↦
              let t = round copied output d b more r h in
              let null = (first copied output d b more r h).bound in
              let h' : binding_at bs (add64 offset copied) ≡ some b =
                rw (plain copied output d b more r h) h in
              let rest =
                read_sparse-gathers n (copied + chunk_at b copied) t.result t.state
                  (omega (arith, t.further)) t.within_size t.rest in
              (rest.0, rest.1, rw (part, h', read_sparse, null, t.reads) rest.2, rest.3)
        ]
  ]
