-- ===== src/Examples/Contexts.antt =====
-- Contexts of guest/cuda_shim/imb_cuda_shim.cpp at concrete inputs.
use isaac_metal_bridge.Base.{◌≡◌, refl, true, false, some, [], ◌∷◌, arith}
use isaac_metal_bridge.Cuda.Contexts.{
  Contexts, no_entry, find_entry, resolve_context, replace_entry, add_entry, context_storage_put,
  context_storage_get,
}
use isaac_metal_bridge.Cuda.Contexts.Storage.{IsUnique, same_key, context_storage_get-put}

-- One key in use, one entry free.
abbrev some_contexts : Contexts
some_contexts = record {
  current = 16;
  primary = 8;
  storage =
      record { context = 16; key = 1; value = 100; destructor = 0; used = true } ∷ no_entry ∷ [];
}

some_contexts-IsUnique : IsUnique some_contexts.storage
unfolding IsUnique find_entry
some_contexts-IsUnique = ((λ h. refl), ((λ h. ground arith), tt))

context_storage_get-put_example :
    let after = (context_storage_put some_contexts 0 2 200 0).state in
    ((context_storage_get after true 0 2).out ≡ some 200)
    × (same_key (resolve_context some_contexts 0) 2 (resolve_context some_contexts 16) 1 ≡ false
        → (context_storage_get after true 16 1).out
          ≡ (context_storage_get some_contexts true 16 1).out)
context_storage_get-put_example =
    context_storage_get-put some_contexts 0 2 200 0 16 1 some_contexts-IsUnique
      (unfold context_storage_put replace_entry add_entry resolve_context in refl)
