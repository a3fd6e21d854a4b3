-- ===== src/Icd/Bindings.antt =====
-- The sparse bindings of a buffer of guest/vulkan_icd/imb_vulkan_icd.cpp: which memory backs which
-- of its bytes.
pub mod Pieces
pub mod Order
pub mod View
use isaac_metal_bridge.Base.{
  ℕ, ◌+◌, ◌-◌, Bool, true, ◌&&◌, ◌||◌, Option, none, some, List, [], ◌∷◌, ◌++◌, leb, ltb, ◌==◌,
  if◌then◌else◌, add64, sub64,
}

pub record SparseBufferBinding : Type 0 where
  pub resource_offset : ℕ
  pub size : ℕ
  pub memory : ℕ
  pub memory_offset : ℕ
  pub flags : ℕ

-- `VkSparseMemoryBind`; `memory` is 0 for VK_NULL_HANDLE.
pub record SparseMemoryBind : Type 0 where
  pub resource_offset : ℕ
  pub size : ℕ
  pub memory : ℕ
  pub memory_offset : ℕ
  pub flags : ℕ

-- What is left of a binding that the new one meets: the part before it, the part behind it.
abbrev pub left_part : SparseMemoryBind → SparseBufferBinding → List SparseBufferBinding
left_part bind existing =
    if ltb existing.resource_offset bind.resource_offset
    then record existing { size = sub64 bind.resource_offset existing.resource_offset } ∷ []
    else []

abbrev pub right_part : SparseMemoryBind → SparseBufferBinding → List SparseBufferBinding
right_part bind existing =
    let bind_end = add64 bind.resource_offset bind.size in
    let existing_end = add64 existing.resource_offset existing.size in
    if ltb bind_end existing_end
    then record existing {
      resource_offset = bind_end;
      size = sub64 existing_end bind_end;
      memory_offset = add64 existing.memory_offset (sub64 bind_end existing.resource_offset);
    }
      ∷ []
    else []

unfoldable pub pieces : SparseMemoryBind → SparseBufferBinding → List SparseBufferBinding
pieces bind existing =
    if leb (add64 existing.resource_offset existing.size) bind.resource_offset
      || leb (add64 bind.resource_offset bind.size) existing.resource_offset
    then existing ∷ []
    else left_part bind existing ++ right_part bind existing

-- The loop over the bindings.
unfoldable pub cut : SparseMemoryBind → List SparseBufferBinding → List SparseBufferBinding
unfolding pieces
cut bind [] = []
cut bind (b ∷ bs) = pieces bind b ++ cut bind bs

-- `std::sort` by the resource offset.
unfoldable pub insert_sorted :
    SparseBufferBinding → List SparseBufferBinding → List SparseBufferBinding
insert_sorted b [] = b ∷ []
insert_sorted b (c ∷ cs) =
    if ltb c.resource_offset b.resource_offset then c ∷ insert_sorted b cs else b ∷ c ∷ cs

unfoldable pub sort : List SparseBufferBinding → List SparseBufferBinding
unfolding insert_sorted
sort [] = []
sort (b ∷ bs) = insert_sorted b (sort bs)

abbrev pub binding_of : SparseMemoryBind → SparseBufferBinding
binding_of bind = record {
  resource_offset = bind.resource_offset;
  size = bind.size;
  memory = bind.memory;
  memory_offset = bind.memory_offset;
  flags = bind.flags;
}

unfoldable pub replace_sparse_buffer_binding :
    List SparseBufferBinding → SparseMemoryBind → List SparseBufferBinding
unfolding cut sort
replace_sparse_buffer_binding bindings bind =
    sort (cut bind bindings ++ (if bind.memory == 0 then [] else binding_of bind ∷ []))

-- The test of the `std::find_if` that looks for the binding of a byte.
abbrev pub holds : SparseBufferBinding → ℕ → Bool
holds b offset = leb b.resource_offset offset && ltb (sub64 offset b.resource_offset) b.size

unfoldable pub binding_at : List SparseBufferBinding → ℕ → Option SparseBufferBinding
binding_at [] offset = none
binding_at (b ∷ bs) offset = if holds b offset then some b else binding_at bs offset
