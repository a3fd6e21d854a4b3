-- ===== src/Cuda/Libraries/Stale.antt =====
-- What is left behind when a module of guest/cuda_shim/imb_cuda_shim.cpp is unloaded on its own.
use isaac_metal_bridge.Base.{ℕ, ◌≡◌, ◌≢◌, true, some, lookup-erase, arith}
use isaac_metal_bridge.Cuda.Result.{Reply, done, fault, quiet}
use isaac_metal_bridge.Cuda.Registry.{is_member, object, delete_object}
use isaac_metal_bridge.Cuda.Libraries.{
  Code, LibraryState, cu_library_unload, cu_module_unload, cu_launch_kernel, drop_library,
  drop_kernels,
}
use isaac_metal_bridge.Cuda.Libraries.Kernels.{IsLinked, without, IsDropped, drop_kernels_lem}
use isaac_metal_bridge.Cuda.Libraries.Consistent.{IsConsistent}

module _ (c : Code) (v : IsConsistent c) (library : ℕ) (s : LibraryState) (nonnull : library ≢ 0)
    (found : object library c.libraries ≡ some s) where
  -- The library's module is taken away by cuModuleUnload.
  abbrev orphaned : Code
  orphaned = record c { modules = without s.parent c.modules }

  orphaned-IsLinked : IsLinked orphaned
  orphaned-IsLinked = record {
    functions = v.linked.functions;
    kernels = v.linked.kernels;
    kernel_function = v.linked.kernel_function;
    kernel_apart = v.linked.kernel_apart;
  }

  orphaned_unload :
      (rest : Code)
      → drop_kernels orphaned library c.kernels.members ≡ some rest
      → IsDropped orphaned library c.kernels.members rest
      → cu_library_unload orphaned library ≡ fault
  unfolding cu_library_unload drop_library delete_object
  orphaned_unload rest e r = ground (
    arith,
    r.modules,
    r.libraries,
    v.libraries library,
    lookup-erase s.parent s.parent c.modules.live,
  )

-- In a consistent state with a live library whose handle and module are not null, cuModuleUnload
-- of the library's module succeeds, and cuLibraryUnload of the library then deletes the dead
-- module a second time.
pub unload_module-unload_library :
    (c : Code) (library : ℕ) (s : LibraryState)
    → IsConsistent c
    → library ≢ 0
    → object library c.libraries ≡ some s
    → s.parent ≢ 0
    → (c' : Code) × (cu_module_unload c s.parent ≡ done (quiet c'))
      × (cu_library_unload c' library ≡ fault)
unload_module-unload_library c library s v nonnull found parent_nonnull =
    let loop =
      drop_kernels_lem library c.kernels.members (orphaned c v library s nonnull found) v.distinct
        (orphaned-IsLinked c v library s nonnull found)
        (λ p h. ground (arith, v.linked.kernels p)) in
    (
      orphaned c v library s nonnull found,
      unfold cu_module_unload delete_object in
          ground (arith, v.library_module library s found, v.modules s.parent),
      orphaned_unload c v library s nonnull found loop.0 loop.1 loop.2,
    )

-- After a cuModuleUnload that returns, a function that was valid before it is still launched with
-- success, also where it is a function of that module.
pub unload_module-launch :
    (c : Code) (m f : ℕ) (r : Reply Code (Unit {0}))
    → cu_module_unload c m ≡ done r
    → is_member f c.functions ≡ true
    → cu_launch_kernel r.state f ≡ quiet r.state
unfolding cu_module_unload cu_launch_kernel delete_object
unload_module-launch c m f r e valid = ground arith
