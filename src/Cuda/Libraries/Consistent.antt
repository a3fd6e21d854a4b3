-- ===== src/Cuda/Libraries/Consistent.antt =====
-- The links between modules, functions, libraries and kernels that the calls of
-- guest/cuda_shim/imb_cuda_shim.cpp keep.
use isaac_metal_bridge.Base.{
  ℕ, ◌≡◌, ◌≢◌, true, some, List, insert, lookup-put, lookup-erase, contains-insert, contains-remove,
  arith,
}
use isaac_metal_bridge.Cuda.Registry.{is_member, object, IsSound, new_object, enrol}
use isaac_metal_bridge.Cuda.Libraries.{Code, ModuleState, FunctionState, KernelState, LibraryState}
use isaac_metal_bridge.Cuda.Libraries.Kernels.{IsLinked, Distinct, without}

pub record IsConsistent (c : Code) : Type 0 where
  pub linked : IsLinked c
  pub distinct : Distinct c.kernels.members
  pub modules : IsSound c.modules
  pub libraries : IsSound c.libraries
  pub kernel_library :
      (k : ℕ) (s : KernelState)
      → object k c.kernels ≡ some s
      → is_member s.library c.libraries ≡ true
  pub library_module :
      (l : ℕ) (s : LibraryState)
      → object l c.libraries ≡ some s
      → is_member s.parent c.modules ≡ true
  pub library_apart :
      (l n : ℕ) (s t : LibraryState)
      → object l c.libraries ≡ some s
      → object n c.libraries ≡ some t
      → l ≢ n
      → s.parent ≢ t.parent

Distinct-insert : (k : ℕ) (ks : List ℕ) → Distinct ks → Distinct (insert k ks)
unfolding insert
Distinct-insert k ks d = ground arith

module _ (c : Code) (v : IsConsistent c) where
  pub module_added :
      (p : ℕ) (s : ModuleState)
      → IsConsistent (record c { modules = enrol p (new_object p s c.modules) })
  module_added p s = record {
    linked = record {
      functions = v.linked.functions;
      kernels = v.linked.kernels;
      kernel_function = v.linked.kernel_function;
      kernel_apart = v.linked.kernel_apart;
    };
    distinct = v.distinct;
    modules = λ q. ground (
      arith,
      contains-insert p q c.modules.members,
      lookup-put p q s c.modules.live,
      v.modules q,
    );
    libraries = v.libraries;
    kernel_library = v.kernel_library;
    library_module =
        λ l t h. ground (arith, contains-insert p t.parent c.modules.members, v.library_module l t);
    library_apart = v.library_apart;
  }

  -- A module of no library is taken away.
  pub module_dropped :
      (p : ℕ)
      → ((l : ℕ) (s : LibraryState) → object l c.libraries ≡ some s → s.parent ≢ p)
      → IsConsistent (record c { modules = without p c.modules })
  module_dropped p alone = record {
    linked = record {
      functions = v.linked.functions;
      kernels = v.linked.kernels;
      kernel_function = v.linked.kernel_function;
      kernel_apart = v.linked.kernel_apart;
    };
    distinct = v.distinct;
    modules = λ q. ground (
      arith,
      contains-remove p q c.modules.members,
      lookup-erase p q c.modules.live,
      v.modules q,
    );
    libraries = v.libraries;
    kernel_library = v.kernel_library;
    library_module = λ l t h.
        ground
          (arith, contains-remove p t.parent c.modules.members, v.library_module l t, alone l t);
    library_apart = v.library_apart;
  }

  -- A library on a module that no other library has.
  pub library_added :
      (p : ℕ) (s : LibraryState)
      → is_member s.parent c.modules ≡ true
      → ((l : ℕ) (t : LibraryState) → object l c.libraries ≡ some t → t.parent ≢ s.parent)
      → IsConsistent (record c { libraries = enrol p (new_object p s c.libraries) })
  library_added p s valid alone = record {
    linked = record {
      functions = v.linked.functions;
      kernels = v.linked.kernels;
      kernel_function = v.linked.kernel_function;
      kernel_apart = v.linked.kernel_apart;
    };
    distinct = v.distinct;
    modules = v.modules;
    libraries = λ q. ground (
      arith,
      contains-insert p q c.libraries.members,
      lookup-put p q s c.libraries.live,
      v.libraries q,
    );
    kernel_library = λ k t h.
        ground (arith, contains-insert p t.library c.libraries.members, v.kernel_library k t);
    library_module =
        λ l t h. ground (arith, lookup-put p l s c.libraries.live, v.library_module l t);
    library_apart = λ l n t u h g ne. ground (
      arith,
      lookup-put p l s c.libraries.live,
      lookup-put p n s c.libraries.live,
      v.library_apart l n t u,
      alone l t,
      alone n u,
    );
  }

  pub function_added :
      (p : ℕ) (s : FunctionState)
      → IsConsistent (record c { functions = enrol p (new_object p s c.functions) })
  function_added p s = record {
    linked = record {
      functions = λ q. ground (
        arith,
        contains-insert p q c.functions.members,
        lookup-put p q s c.functions.live,
        v.linked.functions q,
      );
      kernels = v.linked.kernels;
      kernel_function = λ k t h.
          ground
            (arith, contains-insert p t.function c.functions.members, v.linked.kernel_function k t);
      kernel_apart = v.linked.kernel_apart;
    };
    distinct = v.distinct;
    modules = v.modules;
    libraries = v.libraries;
    kernel_library = v.kernel_library;
    library_module = v.library_module;
    library_apart = v.library_apart;
  }

  -- A kernel on a function that no other kernel has.
  pub kernel_added :
      (p : ℕ) (s : KernelState)
      → is_member s.library c.libraries ≡ true
      → is_member s.function c.functions ≡ true
      → ((k : ℕ) (t : KernelState) → object k c.kernels ≡ some t → t.function ≢ s.function)
      → IsConsistent (record c { kernels = enrol p (new_object p s c.kernels) })
  kernel_added p s of_library has_function alone = record {
    linked = record {
      functions = v.linked.functions;
      kernels = λ q. ground (
        arith,
        contains-insert p q c.kernels.members,
        lookup-put p q s c.kernels.live,
        v.linked.kernels q,
      );
      kernel_function =
          λ k t h. ground (arith, lookup-put p k s c.kernels.live, v.linked.kernel_function k t);
      kernel_apart = λ k n t u h g ne. ground (
        arith,
        lookup-put p k s c.kernels.live,
        lookup-put p n s c.kernels.live,
        v.linked.kernel_apart k n t u,
        alone k t,
        alone n u,
      );
    };
    distinct = Distinct-insert p c.kernels.members v.distinct;
    modules = v.modules;
    libraries = v.libraries;
    kernel_library = λ k t h. ground (arith, lookup-put p k s c.kernels.live, v.kernel_library k t);
    library_module = v.library_module;
    library_apart = v.library_apart;
  }
