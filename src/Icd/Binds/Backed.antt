-- ===== src/Icd/Binds/Backed.antt =====
-- Binding a range of a buffer in guest/vulkan_icd/imb_vulkan_icd.cpp leaves it backed by memories
-- that are there.
use isaac_metal_bridge.Base.{
  ℕ, ◌≡◌, inl, inr, Bool-cases, true, false, List, [], ◌∷◌, ◌++◌, ltb, leb, ◌||◌, ◌==◌, add64,
  contains,
}
use isaac_metal_bridge.Icd.Bindings.{
  SparseBufferBinding, SparseMemoryBind, pieces, cut, left_part, right_part, insert_sorted, sort,
  binding_of, replace_sparse_buffer_binding,
}
use isaac_metal_bridge.Icd.Memory.Good.{AllBacked}

module _ (members : List ℕ) where
  append-AllBacked :
      (bs cs : List SparseBufferBinding)
      → AllBacked members bs
      → AllBacked members cs
      → AllBacked members (bs ++ cs)
  append-AllBacked [] cs h k = k
  append-AllBacked (b ∷ bs) cs h k = (h.0, append-AllBacked bs cs h.1 k)

  insert_sorted-AllBacked :
      (b : SparseBufferBinding) (bs : List SparseBufferBinding)
      → contains b.memory members ≡ true
      → AllBacked members bs
      → AllBacked members (insert_sorted b bs)
  unfolding insert_sorted
  insert_sorted-AllBacked b [] h k = (h, tt)
  insert_sorted-AllBacked b (c ∷ cs) h k =
      elim (Bool-cases (ltb c.resource_offset b.resource_offset)) [
        | inl e ↦ rw e (k.0, insert_sorted-AllBacked b cs h k.1)
        | inr e ↦ rw e (h, k)
      ]

  sort-AllBacked :
      (bs : List SparseBufferBinding) → AllBacked members bs → AllBacked members (sort bs)
  unfolding sort
  sort-AllBacked [] h = tt
  sort-AllBacked (b ∷ bs) h = insert_sorted-AllBacked b (sort bs) h.0 (sort-AllBacked bs h.1)

  left_part-AllBacked :
      (bind : SparseMemoryBind) (b : SparseBufferBinding)
      → contains b.memory members ≡ true
      → AllBacked members (left_part bind b)
  left_part-AllBacked bind b h = elim (Bool-cases (ltb b.resource_offset bind.resource_offset)) [
    | inl e ↦ rw e (h, tt)
    | inr e ↦ rw e tt
  ]

  right_part-AllBacked :
      (bind : SparseMemoryBind) (b : SparseBufferBinding)
      → contains b.memory members ≡ true
      → AllBacked members (right_part bind b)
  right_part-AllBacked bind b h =
      elim (Bool-cases
        (ltb (add64 bind.resource_offset bind.size) (add64 b.resource_offset b.size))) [
          | inl e ↦ rw e (h, tt)
          | inr e ↦ rw e tt
        ]

  pieces-AllBacked :
      (bind : SparseMemoryBind) (b : SparseBufferBinding)
      → contains b.memory members ≡ true
      → AllBacked members (pieces bind b)
  unfolding pieces
  pieces-AllBacked bind b h =
      elim (Bool-cases (
        leb (add64 b.resource_offset b.size) bind.resource_offset
        || leb (add64 bind.resource_offset bind.size) b.resource_offset)) [
          | inl e ↦ rw e (h, tt)
          | inr e ↦ rw e (
              append-AllBacked (left_part bind b) (right_part bind b) (left_part-AllBacked bind b h)
                (right_part-AllBacked bind b h))
        ]

  cut-AllBacked :
      (bind : SparseMemoryBind) (bs : List SparseBufferBinding)
      → AllBacked members bs
      → AllBacked members (cut bind bs)
  unfolding cut
  cut-AllBacked bind [] h = tt
  cut-AllBacked bind (b ∷ bs) h =
      append-AllBacked (pieces bind b) (cut bind bs) (pieces-AllBacked bind b h.0)
        (cut-AllBacked bind bs h.1)

  pub replace_sparse_buffer_binding-AllBacked :
      (bs : List SparseBufferBinding) (bind : SparseMemoryBind)
      → ((bind.memory == 0) ≡ false → contains bind.memory members ≡ true)
      → AllBacked members bs
      → AllBacked members (replace_sparse_buffer_binding bs bind)
  unfolding replace_sparse_buffer_binding
  replace_sparse_buffer_binding-AllBacked bs bind h k = elim (Bool-cases (bind.memory == 0)) [
    | inl e ↦ rw e (
        sort-AllBacked (cut bind bs ++ [])
          (append-AllBacked (cut bind bs) [] (cut-AllBacked bind bs k) tt))
    | inr e ↦ rw e (
        sort-AllBacked (cut bind bs ++ binding_of bind ∷ []) (
          append-AllBacked (cut bind bs) (binding_of bind ∷ []) (cut-AllBacked bind bs k)
            (h e, tt)))
  ]
