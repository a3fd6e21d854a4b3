-- ===== src/Examples/Libraries.antt =====
-- Modules and libraries of guest/cuda_shim/imb_cuda_shim.cpp at concrete inputs.
use isaac_metal_bridge.Base.{◌≡◌, refl, true, some, [], ◌∷◌, lookup, contains, arith}
use isaac_metal_bridge.Cuda.Result.{done, fault, quiet}
use isaac_metal_bridge.Cuda.Libraries.{Code, cu_library_unload, cu_module_unload}
use isaac_metal_bridge.Cuda.Libraries.Consistent.{IsConsistent}
use isaac_metal_bridge.Cuda.Libraries.Unload.{IsUnloaded, cu_library_unload_lem}
use isaac_metal_bridge.Cuda.Libraries.Stale.{unload_module-unload_library}
use isaac_metal_bridge.Cuda.Libraries.Histories.{run, run-IsConsistent, load_module, unload_library}

-- A library with its module and a kernel with its function.
abbrev one_library : Code
one_library = record {
  modules = record { live = (16, record { image = 0 }) ∷ []; members = 16 ∷ [] };
  functions = record { live = (48, record { parent = 16 }) ∷ []; members = 48 ∷ [] };
  libraries = record { live = (32, record { parent = 16 }) ∷ []; members = 32 ∷ [] };
  kernels = record {
    live = (64, record { library = 32; function = 48; name = 107 ∷ [] }) ∷ [];
    members = 64 ∷ [];
  };
}

one_library-IsConsistent : IsConsistent one_library
unfolding lookup contains
one_library-IsConsistent = record {
  linked = record {
    functions = λ p. ground arith;
    kernels = λ p. ground arith;
    kernel_function = λ k s h. ground arith;
    kernel_apart = λ k l s t h g ne. ground arith;
  };
  distinct = (refl, tt);
  modules = λ p. ground arith;
  libraries = λ p. ground arith;
  kernel_library = λ k s h. ground arith;
  library_module = λ l s h. ground arith;
  library_apart = λ l n s t h g ne. ground arith;
}

run-IsConsistent_example :
    (c : Code) × (run one_library
        (unload_library 32 ∷ load_module true 100 (some 96) ∷ unload_library 32 ∷ [])
      ≡ some c)
    × IsConsistent c
run-IsConsistent_example =
    run-IsConsistent (unload_library 32 ∷ load_module true 100 (some 96) ∷ unload_library 32 ∷ [])
      one_library one_library-IsConsistent (tt, λ c e. (tt, λ d f. (tt, λ b g. tt)))

cu_library_unload_lem_example :
    (c : Code) × (cu_library_unload one_library 32 ≡ done (quiet c))
    × IsUnloaded one_library 32 (record { parent = 16 }) c
cu_library_unload_lem_example =
    cu_library_unload_lem one_library 32 (record { parent = 16 }) one_library-IsConsistent
      (omega arith) (unfold lookup in refl)

unload_module-unload_library_example :
    (c : Code) × (cu_module_unload one_library 16 ≡ done (quiet c))
    × (cu_library_unload c 32 ≡ fault)
unload_module-unload_library_example =
    unload_module-unload_library one_library 32 (record { parent = 16 }) one_library-IsConsistent
      (omega arith) (unfold lookup in refl) (omega arith)
