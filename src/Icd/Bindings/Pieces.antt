-- ===== src/Icd/Bindings/Pieces.antt =====
-- Cutting a range out of the sparse bindings of a buffer, of guest/vulkan_icd/imb_vulkan_icd.cpp.
use isaac_metal_bridge.Base.{
  ℕ, ◌+◌, ◌≤◌, ◌<◌, ◌≡◌, inl, inr, ◌⊎◌, Bool, ◌&&◌, ◌||◌, Option, none, some, List, [], ◌∷◌, ◌++◌,
  leb, ltb, if◌then◌else◌, Bool-cases, max64, add64, sub64, arith,
}
use isaac_metal_bridge.Icd.Bindings.{SparseBufferBinding, SparseMemoryBind, pieces, cut, binding_at}

-- The bindings are not empty, in order and apart from each other, between `lo` and `limit`, and
-- their memory addresses do not wrap.
abbrev pub IsFrom : ℕ → ℕ → List SparseBufferBinding → Type 0
IsFrom limit lo [] = lo ≤ limit
IsFrom limit lo (b ∷ bs) =
    (lo ≤ b.resource_offset)
    × (0 < b.size)
    × (b.memory_offset + b.size ≤ max64)
    × IsFrom limit (b.resource_offset + b.size) bs

pub IsFrom-le : (limit lo : ℕ) (bs : List SparseBufferBinding) → IsFrom limit lo bs → lo ≤ limit
IsFrom-le limit lo [] h = h
IsFrom-le limit lo (b ∷ bs) h =
    omega (arith, h.0, IsFrom-le limit (b.resource_offset + b.size) bs h.3)

pub IsFrom-weaken :
    (limit lo k : ℕ) (bs : List SparseBufferBinding)
    → k ≤ lo
    → IsFrom limit lo bs
    → IsFrom limit k bs
IsFrom-weaken limit lo k [] le h = omega arith
IsFrom-weaken limit lo k (b ∷ bs) le h = (omega (arith, h.0), h.1, h.2, h.3)

-- Where a byte is: the memory and the offset in it.
abbrev pub located : Option SparseBufferBinding → ℕ → Option (ℕ × ℕ)
located none offset = none
located (some b) offset = some (b.memory, add64 b.memory_offset (sub64 offset b.resource_offset))

abbrev pub resolve : List SparseBufferBinding → ℕ → Option (ℕ × ℕ)
resolve bs offset = located (binding_at bs offset) offset

abbrev pub is_in : SparseMemoryBind → ℕ → Bool
is_in bind offset = leb bind.resource_offset offset && ltb offset (bind.resource_offset + bind.size)

-- No binding meets the range of the new one.
abbrev pub Avoids : SparseMemoryBind → List SparseBufferBinding → Type 0
Avoids bind [] = Unit {0}
Avoids bind (b ∷ bs) =
    ((b.resource_offset + b.size ≤ bind.resource_offset)
      ⊎ (bind.resource_offset + bind.size ≤ b.resource_offset))
    × Avoids bind bs

module _ (limit : ℕ) (bind : SparseMemoryBind) (small : limit ≤ max64)
    (inside : bind.resource_offset + bind.size ≤ limit) (filled : 0 < bind.size) where
  pieces-IsFrom :
      (b : SparseBufferBinding) (lo : ℕ) (rest : List SparseBufferBinding)
      → lo ≤ b.resource_offset
      → 0 < b.size
      → b.memory_offset + b.size ≤ max64
      → b.resource_offset + b.size ≤ limit
      → IsFrom limit (b.resource_offset + b.size) rest
      → IsFrom limit lo (pieces bind b ++ rest)
  unfolding pieces
  pieces-IsFrom b lo rest above full fits below h = ground (
    arith,
    IsFrom-weaken limit (b.resource_offset + b.size) lo rest,
    IsFrom-weaken limit (b.resource_offset + b.size) bind.resource_offset rest,
  )

  pieces-Avoids :
      (b : SparseBufferBinding) (rest : List SparseBufferBinding)
      → 0 < b.size
      → b.resource_offset + b.size ≤ limit
      → Avoids bind rest
      → Avoids bind (pieces bind b ++ rest)
  unfolding pieces
  pieces-Avoids b rest full below h = ground arith

  pieces-resolve :
      (b : SparseBufferBinding) (rest bs : List SparseBufferBinding) (o : ℕ)
      → 0 < b.size
      → b.memory_offset + b.size ≤ max64
      → b.resource_offset + b.size ≤ limit
      → o ≤ max64
      → resolve rest o ≡ (if is_in bind o then none else resolve bs o)
      → resolve (pieces bind b ++ rest) o ≡ (if is_in bind o then none else resolve (b ∷ bs) o)
  unfolding pieces binding_at
  pieces-resolve b rest bs o full fits below low h =
      elim (Bool-cases (
        leb (add64 b.resource_offset b.size) bind.resource_offset
        || leb (add64 bind.resource_offset bind.size) b.resource_offset)) [
          | inl apart ↦ rw apart (ground arith)
          | inr meets ↦ rw meets (elim (Bool-cases (ltb b.resource_offset bind.resource_offset)) [
            | inl l ↦
                elim (Bool-cases
                  (ltb (add64 bind.resource_offset bind.size) (add64 b.resource_offset b.size))) [
                    | inl r ↦ rw (l, r) (ground arith)
                    | inr r ↦ rw (l, r) (ground arith)
                  ]
            | inr l ↦
                elim (Bool-cases
                  (ltb (add64 bind.resource_offset bind.size) (add64 b.resource_offset b.size))) [
                    | inl r ↦ rw (l, r) (ground arith)
                    | inr r ↦ rw (l, r) (ground arith)
                  ]
          ])
        ]

  pub cut-IsFrom :
      (bs : List SparseBufferBinding) (lo : ℕ) → IsFrom limit lo bs → IsFrom limit lo (cut bind bs)
  unfolding cut
  cut-IsFrom [] lo h = h
  cut-IsFrom (b ∷ bs) lo h =
      pieces-IsFrom b lo (cut bind bs) h.0 h.1 h.2 (IsFrom-le limit _ bs h.3)
        (cut-IsFrom bs (b.resource_offset + b.size) h.3)

  pub cut-Avoids :
      (bs : List SparseBufferBinding) (lo : ℕ) → IsFrom limit lo bs → Avoids bind (cut bind bs)
  unfolding cut
  cut-Avoids [] lo h = tt
  cut-Avoids (b ∷ bs) lo h =
      pieces-Avoids b (cut bind bs) h.1 (IsFrom-le limit _ bs h.3)
        (cut-Avoids bs (b.resource_offset + b.size) h.3)

  pub cut-resolve :
      (bs : List SparseBufferBinding) (lo o : ℕ)
      → o ≤ max64
      → IsFrom limit lo bs
      → resolve (cut bind bs) o ≡ (if is_in bind o then none else resolve bs o)
  unfolding cut binding_at
  cut-resolve [] lo o low h = ground arith
  cut-resolve (b ∷ bs) lo o low h =
      pieces-resolve b (cut bind bs) bs o h.1 h.2 (IsFrom-le limit _ bs h.3) low
        (cut-resolve bs (b.resource_offset + b.size) o low h.3)
