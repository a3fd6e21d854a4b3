-- ===== src/Icd/Buffers/Gather.antt =====
-- Reading a buffer through its sparse bindings, in guest/vulkan_icd/imb_vulkan_icd.cpp, gathers the
-- bytes that the bindings lead to.
use isaac_metal_bridge.Base.{
  subst, ℕ, ◌+◌, ◌-◌, ◌≤◌, ◌<◌, ◌≡◌, refl, ap, sym, ◌∙◌, inl, inr, Bool-cases, true, false, not,
  ◌&&◌, ◌||◌, Option, none, some, List, [], ◌∷◌, leb, ltb, ◌==◌, if◌then◌else◌, sub64, max64,
  lookup-put, arith,
}
use isaac_metal_bridge.Cuda.Registry.{is_member, object, store_object, IsSound}
use isaac_metal_bridge.Icd.Result.{success, memory_map_failed}
use isaac_metal_bridge.Icd.Bindings.{SparseBufferBinding, binding_at}
use isaac_metal_bridge.Icd.Bindings.Pieces.{IsFrom, IsFrom-le}
use isaac_metal_bridge.Icd.Driver.{Driver, DeviceMemoryState}
use isaac_metal_bridge.Icd.Memory.{Surroundings, store_memory, refresh_memory_from_external_fd}
use isaac_metal_bridge.Icd.Memory.Sync.{ensure_backed}
use isaac_metal_bridge.Icd.Buffers.Transfer.{Read, and_read, gathered, read_chunk}

-- The byte at `found` is in a memory that has its bytes and no file, and is `v`.
pub record IsAt (d : Driver) (found : Option (ℕ × ℕ)) (v : ℕ) : Type 0 where
  pub memory : ℕ
  pub place : ℕ
  pub state : DeviceMemoryState
  pub resolved : found ≡ some (memory, place)
  pub bound : (memory == 0) ≡ false
  pub there : object memory d.memories ≡ some state
  pub backed : state.backed ≡ true
  pub alone : state.external_fd ≡ none
  pub inside : place < state.size
  pub value : state.bytes place ≡ v

module _ (e : Surroundings) where
  refresh_memory_from_external_fd-alone :
      (p offset size : ℕ) (m : DeviceMemoryState) (d : Driver)
      → (p == 0) ≡ false
      → object p d.memories ≡ some m
      → m.external_fd ≡ none
      → refresh_memory_from_external_fd e p offset size d ≡ some (success, d)
  unfolding refresh_memory_from_external_fd
  refresh_memory_from_external_fd-alone p offset size m d nonzero there alone =
      rw (nonzero, there, refresh_memory_from_external_fd, alone) refl

  -- What is done once the memory has its bytes.
  abbrev take : ℕ → ℕ → ℕ → ℕ → (ℕ → ℕ) → Driver → Read
  take p source copied chunk output d = elim (object p d.memories) [
    | none ↦ none
    | some m ↦ some (success, gathered output copied chunk m.bytes source, d)
  ]

  abbrev check : ℕ → ℕ → ℕ → ℕ → (ℕ → ℕ) → Driver → Read
  check p source copied chunk output d = elim (object p d.memories) [
    | none ↦ none
    | some m ↦
        if ltb m.size source || ltb (m.size - source) chunk
        then some (memory_map_failed, λ i. 0, d)
        else and_read (refresh_memory_from_external_fd e p source chunk d)
            (take p source copied chunk output)
  ]

  check_lem :
      (p source copied chunk : ℕ) (output : ℕ → ℕ) (m : DeviceMemoryState) (d : Driver)
      → (p == 0) ≡ false
      → object p d.memories ≡ some m
      → m.external_fd ≡ none
      → source + chunk ≤ m.size
      → check p source copied chunk output d
        ≡ some (success, gathered output copied chunk m.bytes source, d)
  check_lem p source copied chunk output m d nonzero there alone fits =
      let room : (ltb m.size source || ltb (m.size - source) chunk) ≡ false = ground arith in
      let same = refresh_memory_from_external_fd-alone p source chunk m d nonzero there alone in
      let taken : take p source copied chunk output d
          ≡ some (success, gathered output copied chunk m.bytes source, d) =
        rw (there, take) refl in
      rw (there, check, room, same) taken

  pub read_chunk-gathered :
      (p source copied chunk : ℕ) (output : ℕ → ℕ) (m : DeviceMemoryState) (d : Driver)
      → (p == 0) ≡ false
      → IsSound d.memories
      → object p d.memories ≡ some m
      → m.backed ≡ true
      → m.external_fd ≡ none
      → source + chunk ≤ m.size
      → read_chunk e p source copied chunk output d
        ≡ some (success, gathered output copied chunk m.bytes source, store_memory p m d)
  unfolding read_chunk
  read_chunk-gathered p source copied chunk output m d nonzero sound there backed alone fits =
      let valid : (p == 0 || not (is_member p d.memories)) ≡ false = ground (arith, sound p) in
      let again : object p (store_object p m d.memories) ≡ some m =
        ground (arith, lookup-put p p m d.memories.live) in
      ap (λ s. and_read s (check p source copied chunk output))
        (ensure_backed e p m d valid there backed)
      ∙ check_lem p source copied chunk output m (store_memory p m d) nonzero again alone fits

-- A binding that is found among others that are in order.
pub record Holds (limit lo o : ℕ) (b : SparseBufferBinding) : Type 0 where
  pub above : lo ≤ b.resource_offset
  pub from : b.resource_offset ≤ o
  pub below : o < b.resource_offset + b.size
  pub ends : b.resource_offset + b.size ≤ limit
  pub fits : b.memory_offset + b.size ≤ max64

pub binding_at-Holds :
    (limit lo : ℕ) (bs : List SparseBufferBinding) (o : ℕ) (b : SparseBufferBinding)
    → limit ≤ max64
    → o ≤ max64
    → IsFrom limit lo bs
    → binding_at bs o ≡ some b
    → Holds limit lo o b
unfolding binding_at
binding_at-Holds limit lo [] o b small low h e = absurd (ground arith)
binding_at-Holds limit lo (c ∷ bs) o b small low h e =
    elim (Bool-cases (leb c.resource_offset o && ltb (sub64 o c.resource_offset) c.size)) [
      | inl here ↦
          let same : c ≡ b = ground arith in
          let end = IsFrom-le limit (c.resource_offset + c.size) bs h.3 in
          subst (Holds limit lo o) same (record {
            above = h.0;
            from = ground arith;
            below = ground arith;
            ends = end;
            fits = h.2;
          })
      | inr further ↦
          let rest =
            binding_at-Holds limit (c.resource_offset + c.size) bs o b small low h.3
              (ground arith) in
          record {
            above = omega (arith, h.0, rest.above);
            from = rest.from;
            below = rest.below;
            ends = rest.ends;
            fits = rest.fits;
          }
    ]

-- A later byte of the binding that holds a byte is held by it too.
pub binding_at-later :
    (limit lo : ℕ) (bs : List SparseBufferBinding) (o o' : ℕ) (b : SparseBufferBinding)
    → limit ≤ max64
    → IsFrom limit lo bs
    → binding_at bs o ≡ some b
    → o ≤ o'
    → o' ≤ max64
    → o' < b.resource_offset + b.size
    → binding_at bs o' ≡ some b
unfolding binding_at
binding_at-later limit lo [] o o' b small h e le low below = absurd (ground arith)
binding_at-later limit lo (c ∷ bs) o o' b small h e le low below =
    elim (Bool-cases (leb c.resource_offset o && ltb (sub64 o c.resource_offset) c.size)) [
      | inl here ↦
          let same : c ≡ b = ground arith in
          let below_c : o' < c.resource_offset + c.size =
            subst (λ (x : SparseBufferBinding). o' < x.resource_offset + x.size) (sym same) below in
          ground arith
      | inr further ↦
          let rest : binding_at bs o ≡ some b = ground arith in
          let holds =
            binding_at-Holds limit (c.resource_offset + c.size) bs o b small (omega arith) h.3
              rest in
          let later =
            binding_at-later limit (c.resource_offset + c.size) bs o o' b small h.3 rest le low
              below in
          let passed : (leb c.resource_offset o' && ltb (sub64 o' c.resource_offset) c.size)
              ≡ false =
            ground (arith, holds.above, holds.from) in
          rw passed later
    ]
