-- ===== src/Icd/Bindings/Order.antt =====
-- Putting a new binding among those of guest/vulkan_icd/imb_vulkan_icd.cpp that it does not meet.
use isaac_metal_bridge.Base.{
  ℕ, ◌+◌, ◌≤◌, ◌<◌, ◌≡◌, refl, ap, inl, inr, some, List, [], ◌∷◌, ◌++◌, if◌then◌else◌, max64, add64,
  sub64, arith, ◌∙◌,
}
use isaac_metal_bridge.Icd.Bindings.{
  SparseBufferBinding, SparseMemoryBind, insert_sorted, sort, binding_of, binding_at,
}
use isaac_metal_bridge.Icd.Bindings.Pieces.{
  IsFrom, IsFrom-le, IsFrom-weaken, Avoids, resolve, is_in,
}

insert_sorted-first :
    (limit : ℕ) (b : SparseBufferBinding) (bs : List SparseBufferBinding)
    → IsFrom limit (b.resource_offset + b.size) bs
    → insert_sorted b bs ≡ b ∷ bs
unfolding insert_sorted
insert_sorted-first limit b [] h = refl
insert_sorted-first limit b (c ∷ cs) h = ground arith

module _ (limit : ℕ) (bind : SparseMemoryBind) (small : limit ≤ max64)
    (inside : bind.resource_offset + bind.size ≤ limit) (filled : 0 < bind.size) where
  -- Inserting keeps what begins after `lo` after `lo`.
  pub insert_sorted-IsFrom :
      (bs : List SparseBufferBinding) (lo : ℕ)
      → lo ≤ bind.resource_offset
      → bind.memory_offset + bind.size ≤ max64
      → Avoids bind bs
      → IsFrom limit lo bs
      → IsFrom limit lo (insert_sorted (binding_of bind) bs)
  unfolding insert_sorted
  insert_sorted-IsFrom [] lo above fits v h = (above, filled, fits, inside)
  insert_sorted-IsFrom (c ∷ cs) lo above fits v h =
      ground (arith, insert_sorted-IsFrom cs (c.resource_offset + c.size))

  swapped :
      (c : SparseBufferBinding) (cs : List SparseBufferBinding) (lo : ℕ)
      → bind.memory_offset + bind.size ≤ max64
      → Avoids bind (c ∷ cs)
      → IsFrom limit lo (c ∷ cs)
      → insert_sorted c (insert_sorted (binding_of bind) cs)
        ≡ insert_sorted (binding_of bind) (c ∷ cs)
  swapped c cs lo fits v h = elim v.0 [
    | inl before ↦
        insert_sorted-first limit c (insert_sorted (binding_of bind) cs)
          (insert_sorted-IsFrom cs (c.resource_offset + c.size) before fits v.1 h.3)
        ∙ unfold insert_sorted in ground (arith)
    | inr behind ↦
        ap (insert_sorted c) (
          insert_sorted-first limit (binding_of bind) cs (
            IsFrom-weaken limit (c.resource_offset + c.size) (bind.resource_offset + bind.size) cs
              (omega arith) h.3))
        ∙ unfold insert_sorted in ground (arith, insert_sorted-first limit c cs h.3)
  ]

  -- Sorting the bindings with the new one at the end inserts it.
  pub sort-append :
      (bs : List SparseBufferBinding) (lo : ℕ)
      → bind.memory_offset + bind.size ≤ max64
      → Avoids bind bs
      → IsFrom limit lo bs
      → sort (bs ++ binding_of bind ∷ []) ≡ insert_sorted (binding_of bind) bs
  unfolding sort
  sort-append [] lo fits v h = refl
  sort-append (c ∷ cs) lo fits v h =
      ap (insert_sorted c) (sort-append cs (c.resource_offset + c.size) fits v.1 h.3)
      ∙ swapped c cs lo fits v h

  pub insert_sorted-resolve :
      (bs : List SparseBufferBinding) (lo o : ℕ)
      → o ≤ max64
      → Avoids bind bs
      → IsFrom limit lo bs
      → resolve (insert_sorted (binding_of bind) bs) o ≡ (
          if is_in bind o
          then some (bind.memory, add64 bind.memory_offset (sub64 o bind.resource_offset))
          else resolve bs o)
  unfolding insert_sorted binding_at
  insert_sorted-resolve [] lo o low v h = ground arith
  insert_sorted-resolve (c ∷ cs) lo o low v h = ground (
    arith,
    insert_sorted-resolve cs (c.resource_offset + c.size) o,
    IsFrom-le limit (c.resource_offset + c.size) cs,
  )

pub sort_sorted : (limit lo : ℕ) (bs : List SparseBufferBinding) → IsFrom limit lo bs → sort bs ≡ bs
unfolding sort
sort_sorted limit lo [] h = refl
sort_sorted limit lo (c ∷ cs) h =
    ap (insert_sorted c) (sort_sorted limit (c.resource_offset + c.size) cs h.3)
    ∙ insert_sorted-first limit c cs h.3
