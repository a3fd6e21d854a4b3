-- ===== src/Examples/Bindings.antt =====
-- Sparse bindings of a buffer of guest/vulkan_icd/imb_vulkan_icd.cpp at concrete inputs.
use isaac_metal_bridge.Base.{◌≡◌, List, [], ◌∷◌, arith}
use isaac_metal_bridge.Icd.Bindings.{
  SparseBufferBinding, SparseMemoryBind, replace_sparse_buffer_binding,
}
use isaac_metal_bridge.Icd.Bindings.Pieces.{resolve}
use isaac_metal_bridge.Icd.Bindings.View.{
  IsBound, IsBind, rebound, replace_sparse_buffer_binding-resolve,
}

abbrev bound_before : List SparseBufferBinding
bound_before =
    record { resource_offset = 0; size = 100; memory = 5; memory_offset = 1000; flags = 0 } ∷ []

-- In the middle of what is bound.
abbrev middle : SparseMemoryBind
middle = record { resource_offset = 40; size = 20; memory = 6; memory_offset = 0; flags = 0 }

middle-IsBind : IsBind 100 middle
middle-IsBind = record { filled = omega arith; inside = omega arith; fits = λ _. omega arith }

bound_before-IsBound : IsBound 100 bound_before
bound_before-IsBound = ground arith

replace_sparse_buffer_binding-resolve_example :
    resolve (replace_sparse_buffer_binding bound_before middle) 70
    ≡ rebound middle (resolve bound_before) 70
replace_sparse_buffer_binding-resolve_example =
    replace_sparse_buffer_binding-resolve 100 middle bound_before (omega arith) middle-IsBind
      bound_before-IsBound 70 (omega arith)
