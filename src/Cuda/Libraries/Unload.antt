-- ===== src/Cuda/Libraries/Unload.antt =====
-- cuLibraryUnload of guest/cuda_shim/imb_cuda_shim.cpp.
use isaac_metal_bridge.Base.{
  ℕ, ◌≡◌, ◌≢◌, ap, false, none, some, lookup, lookup-erase, contains-remove, arith, if◌then◌else◌,
}
use isaac_metal_bridge.Cuda.Result.{done, quiet}
use isaac_metal_bridge.Cuda.Registry.{Registry, is_member, object, delete_object}
use isaac_metal_bridge.Cuda.Libraries.{
  Code, KernelState, LibraryState, cu_library_unload, drop_library, drop_kernels,
}
use isaac_metal_bridge.Cuda.Libraries.Kernels.{without, IsDropped, drop_kernels_lem, is_of}
use isaac_metal_bridge.Cuda.Libraries.Consistent.{IsConsistent}

-- The state once the kernels are gone: the module and the library go too.
abbrev pub unloaded : Code → ℕ → LibraryState → Code
unloaded c library s = record c {
  modules = without s.parent c.modules;
  libraries = without library c.libraries;
}

-- What is left after a library is unloaded: its kernels, their functions, its module and itself
-- are invalid, every other kernel is as it was.
pub record IsUnloaded (c : Code) (library : ℕ) (s : LibraryState) (c' : Code) : Type 0 where
  pub library_gone : is_member library c'.libraries ≡ false
  pub module_gone : is_member s.parent c'.modules ≡ false
  pub kernels_left :
      (k : ℕ)
      → object k c'.kernels
        ≡ (if is_of library (object k c.kernels) then none else object k c.kernels)
  pub function_gone :
      (k : ℕ) (t : KernelState)
      → object k c.kernels ≡ some t
      → t.library ≡ library
      → is_member t.function c'.functions ≡ false
  pub consistent : IsConsistent c'

module _ (c c' : Code) (v : IsConsistent c) (library : ℕ) (s : LibraryState)
    (found : object library c.libraries ≡ some s)
    (r : IsDropped c library c.kernels.members c') where
  kept :
      (k : ℕ)
      → object k c'.kernels
        ≡ (if is_of library (object k c.kernels) then none else object k c.kernels)
  kept k = ground (arith, r.objects k, v.linked.kernels k)

  unloaded-IsConsistent : IsConsistent (unloaded c' library s)
  unloaded-IsConsistent = record {
    linked = record {
      functions = r.linked.functions;
      kernels = r.linked.kernels;
      kernel_function = r.linked.kernel_function;
      kernel_apart = r.linked.kernel_apart;
    };
    distinct = r.distinct v.distinct;
    modules = λ q. rw r.modules (
        ground (
          arith,
          contains-remove s.parent q c.modules.members,
          lookup-erase s.parent q c.modules.live,
          v.modules q,
        ));
    libraries = λ q. rw r.libraries (
        ground (
          arith,
          contains-remove library q c.libraries.members,
          lookup-erase library q c.libraries.live,
          v.libraries q,
        ));
    kernel_library = λ k t h. rw r.libraries (
        ground (
          arith,
          kept k,
          contains-remove library t.library c.libraries.members,
          v.kernel_library k t,
        ));
    library_module = λ l t h. rw r.modules (
        ground (
          arith,
          ap (λ (x : Registry LibraryState). lookup l (without library x).live) r.libraries,
          lookup-erase library l c.libraries.live,
          contains-remove s.parent t.parent c.modules.members,
          v.library_module l t,
          v.library_apart l library t s,
        ));
    library_apart = λ l n t u h g ne. ground (
      arith,
      ap (λ (x : Registry LibraryState). lookup l (without library x).live) r.libraries,
      ap (λ (x : Registry LibraryState). lookup n (without library x).live) r.libraries,
      lookup-erase library l c.libraries.live,
      lookup-erase library n c.libraries.live,
      v.library_apart l n t u,
    );
  }

  drop_library_lem : drop_library c' library s ≡ done (quiet (unloaded c' library s))
  unfolding drop_library delete_object
  drop_library_lem =
      ground (arith, r.modules, r.libraries, v.library_module library s found, v.modules s.parent)

  unloaded-IsUnloaded : IsUnloaded c library s (unloaded c' library s)
  unloaded-IsUnloaded = record {
    library_gone = ground (arith, contains-remove library library c'.libraries.members);
    module_gone = ground (arith, contains-remove s.parent s.parent c'.modules.members);
    kernels_left = kept;
    function_gone = λ k t h e. ground (arith, r.function_gone k t, v.linked.kernels k);
    consistent = unloaded-IsConsistent;
  }

-- In a consistent state cuLibraryUnload of a live library that is not null succeeds; after it the
-- library, its module, its kernels and their functions are not valid, every other kernel is as it
-- was, and the state is consistent.
pub cu_library_unload_lem :
    (c : Code) (library : ℕ) (s : LibraryState)
    → IsConsistent c
    → library ≢ 0
    → object library c.libraries ≡ some s
    → (c' : Code) × (cu_library_unload c library ≡ done (quiet c')) × IsUnloaded c library s c'
cu_library_unload_lem c library s v nonnull found =
    let loop =
      drop_kernels_lem library c.kernels.members c v.distinct v.linked
        (λ p h. ground (arith, v.linked.kernels p)) in
    let rest : Code = loop.0 in
    (
      unloaded rest library s,
      enters loop.0 loop.1 loop.2,
      unloaded-IsUnloaded c rest v library s found loop.2,
    )
  where
    enters :
        (rest : Code)
        → drop_kernels c library c.kernels.members ≡ some rest
        → IsDropped c library c.kernels.members rest
        → cu_library_unload c library ≡ done (quiet (unloaded rest library s))
    enters rest e r =
        unfold cu_library_unload in
        ground
          (arith, drop_library_lem c rest v library s found r, r.libraries, v.libraries library)
