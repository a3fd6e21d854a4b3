-- ===== src/Icd/Bindings/View.antt =====
-- A buffer's sparse bindings as a map from its bytes to bytes of memory, and what binding a range in
-- guest/vulkan_icd/imb_vulkan_icd.cpp does to it.
use mathlib.Core.List.{append-nil}
use isaac_metal_bridge.Base.{
  ap, ℕ, ◌+◌, ◌≤◌, ◌<◌, ◌≡◌, inl, inr, false, Option, none, some, List, ◌==◌, if◌then◌else◌,
  Bool-cases, max64, add64, sub64, arith, ◌∙◌,
}
use isaac_metal_bridge.Icd.Bindings.{
  SparseBufferBinding, SparseMemoryBind, sort, cut, binding_of, insert_sorted,
  replace_sparse_buffer_binding,
}
use isaac_metal_bridge.Icd.Bindings.Pieces.{
  IsFrom, Avoids, resolve, is_in, cut-IsFrom, cut-Avoids, cut-resolve,
}
use isaac_metal_bridge.Icd.Bindings.Order.{
  insert_sorted-IsFrom, sort-append, insert_sorted-resolve, sort_sorted,
}

-- The bindings of a buffer of `size` bytes: not empty, in order, apart, inside the buffer.
abbrev pub IsBound : ℕ → List SparseBufferBinding → Type 0
IsBound size bs = IsFrom size 0 bs

-- What vkQueueBindSparse requires of a bind of a buffer of `size` bytes.
pub record IsBind (size : ℕ) (bind : SparseMemoryBind) : Type 0 where
  pub filled : 0 < bind.size
  pub inside : bind.resource_offset + bind.size ≤ size
  pub fits : (bind.memory == 0) ≡ false → bind.memory_offset + bind.size ≤ max64

-- The specification: the range goes to the memory of the bind, or to none; all else is as before.
abbrev pub rebound : SparseMemoryBind → (ℕ → Option (ℕ × ℕ)) → ℕ → Option (ℕ × ℕ)
rebound bind before offset =
    if is_in bind offset
    then if bind.memory == 0
      then none
      else some (bind.memory, add64 bind.memory_offset (sub64 offset bind.resource_offset))
    else before offset

module _ (size : ℕ) (bind : SparseMemoryBind) (bs : List SparseBufferBinding) (small : size ≤ max64)
    (b : IsBind size bind) (bound : IsBound size bs) where
  pieces : IsFrom size 0 (cut bind bs)
  pieces = cut-IsFrom size bind small b.inside b.filled bs 0 bound

  apart : Avoids bind (cut bind bs)
  apart = cut-Avoids size bind small b.inside b.filled bs 0 bound

  result :
      replace_sparse_buffer_binding bs bind
      ≡ (if bind.memory == 0 then cut bind bs else insert_sorted (binding_of bind) (cut bind bs))
  unfolding replace_sparse_buffer_binding
  result = elim (Bool-cases (bind.memory == 0)) [
    | inl e ↦ rw e (ap sort (append-nil (cut bind bs)) ∙ sort_sorted size 0 (cut bind bs) pieces)
    | inr e ↦
        rw e (sort-append size bind small b.inside b.filled (cut bind bs) 0 (b.fits e) apart pieces)
  ]

  -- For a buffer of at most 2 ^ 64 - 1 bytes whose bindings are not empty, in order, apart and
  -- inside it, and a bind that is not empty, inside it and, if it has a memory, does not wrap in it, the
  -- bindings after the replacement are so again.
  pub replace_sparse_buffer_binding-IsBound : IsBound size (replace_sparse_buffer_binding bs bind)
  replace_sparse_buffer_binding-IsBound = rw result (elim (Bool-cases (bind.memory == 0)) [
    | inl e ↦ rw e pieces
    | inr e ↦ rw e (
        insert_sorted-IsFrom size bind small b.inside b.filled (cut bind bs) 0 (omega arith)
          (b.fits e) apart pieces)
  ])

  again :
      (o : ℕ)
      → o ≤ max64
      → (if is_in bind o
          then some (bind.memory, add64 bind.memory_offset (sub64 o bind.resource_offset))
          else resolve (cut bind bs) o)
        ≡ (if is_in bind o
            then some (bind.memory, add64 bind.memory_offset (sub64 o bind.resource_offset))
            else resolve bs o)
  again o low = ground (arith, cut-resolve size bind small b.inside b.filled bs 0 o low bound)

  -- For a buffer of at most 2 ^ 64 - 1 bytes whose bindings are not empty, in order, apart and
  -- inside it, and a bind that is not empty, inside it and, if it has a memory, does not wrap in it, the
  -- bindings after the replacement map every byte of the bound range to its byte of the bind's
  -- memory, or to none if the bind has no memory, and every other byte to what it was mapped to
  -- before.
  pub replace_sparse_buffer_binding-resolve :
      (o : ℕ)
      → o ≤ max64
      → resolve (replace_sparse_buffer_binding bs bind) o ≡ rebound bind (resolve bs) o
  replace_sparse_buffer_binding-resolve o low = rw result (elim (Bool-cases (bind.memory == 0)) [
    | inl e ↦ rw e (cut-resolve size bind small b.inside b.filled bs 0 o low bound)
    | inr e ↦ rw e (
        insert_sorted-resolve size bind small b.inside b.filled (cut bind bs) 0 o low apart pieces
        ∙ again o low)
  ])
