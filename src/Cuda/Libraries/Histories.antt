-- ===== src/Cuda/Libraries/Histories.antt =====
-- Histories of the module and library calls of guest/cuda_shim/imb_cuda_shim.cpp.
use isaac_metal_bridge.Base.{
  ℕ, ◌≡◌, refl, ◌≢◌, inl, inr, Option-cases, Bool-cases, Bool, true, false, Option, none, some,
  List, [], ◌∷◌, lookup, contains, lookup-put, contains-insert, arith, ◌==◌,
}
use isaac_metal_bridge.Cuda.Result.{Outcome, done, fault}
use isaac_metal_bridge.Cuda.Registry.{
  empty, is_member, object, is_live, delete_object, enrol, new_object,
}
use isaac_metal_bridge.Cuda.Libraries.{
  Code, LibraryState, OptionList, library_on_module, cu_module_load_data, cu_library_load_data,
  cu_library_get_kernel, new_kernel, cu_module_get_function, cu_library_unload, cu_module_unload,
}
use isaac_metal_bridge.Cuda.Libraries.Kernels.{without}
use isaac_metal_bridge.Cuda.Libraries.Consistent.{
  IsConsistent, module_added, module_dropped, library_added, function_added, kernel_added,
}
use isaac_metal_bridge.Cuda.Libraries.Unload.{cu_library_unload_lem}

-- The calls that change the state.
pub data Call : Type 0 where
  load_module : Bool → ℕ → Option ℕ → Call
  load_library : Bool → ℕ → OptionList → OptionList → Option ℕ → Option ℕ → Call
  get_kernel : Bool → ℕ → Option (List ℕ) → Option ℕ → Option ℕ → Call
  get_function : Bool → ℕ → Bool → Option ℕ → Call
  unload_library : ℕ → Call
  unload_module : ℕ → Call

abbrev pub state_of {ℓ} : {A : Type ℓ} → Outcome Code A → Option Code
state_of (done r) = some r.state
state_of fault = none

unfoldable pub step : Code → Call → Option Code
step c (load_module given image p) = some (cu_module_load_data c given image p).state
step c (load_library given code jit options p q) =
    state_of (cu_library_load_data c given code jit options p q)
step c (get_kernel given library name f k) =
    state_of (cu_library_get_kernel c given library name f k)
step c (get_function given m name f) = some (cu_module_get_function c given m name f).state
step c (unload_library l) = state_of (cu_library_unload c l)
step c (unload_module m) = state_of (cu_module_unload c m)

-- What a history relies on: `new` gives out memory that is not in use, and the module of a library
-- is left to cuLibraryUnload.
abbrev pub Allowed : Code → Call → Type 0
Allowed c (load_library given code jit options (some p) q) = is_live p c.modules ≡ false
Allowed c (get_kernel given library name (some f) k) = is_live f c.functions ≡ false
Allowed c (unload_module m) =
    (l : ℕ) (s : LibraryState) → object l c.libraries ≡ some s → s.parent ≢ m
Allowed c _ = Unit {0}

-- The call returns, and keeps the links.
abbrev pub Keeps : Option Code → Type 0
Keeps none = ⊥
Keeps (some c) = IsConsistent c

module _ (c : Code) (v : IsConsistent c) where
  load_module-Keeps :
      (given : Bool) (image : ℕ) (p : Option ℕ) → Keeps (step c (load_module given image p))
  unfolding step cu_module_load_data
  load_module-Keeps given image none = ground arith
  load_module-Keeps given image (some p) =
      ground (arith, module_added c v p (record { image = image }))

  get_function-Keeps :
      (given : Bool) (m : ℕ) (name : Bool) (f : Option ℕ)
      → Keeps (step c (get_function given m name f))
  unfolding step cu_module_get_function
  get_function-Keeps given m name none = ground arith
  get_function-Keeps given m name (some f) =
      ground (arith, function_added c v f (record { parent = m }))

  unload_module-Keeps : (m : ℕ) → Allowed c (unload_module m) → Keeps (step c (unload_module m))
  unfolding step cu_module_unload delete_object
  unload_module-Keeps m alone = ground (arith, v.modules m, module_dropped c v m alone)

  unload_library-Keeps : (l : ℕ) → Keeps (step c (unload_library l))
  unfolding step
  unload_library-Keeps l = elim (Option-cases (object l c.libraries)) [
    | inl dead ↦ rw (refused dead) v
    | inr (s, found) ↦ elim (Bool-cases (l == 0)) [
      | inl null ↦ rw (nothing null) v
      | inr nonnull ↦
          let r = cu_library_unload_lem c l s v (ground arith) found in rw r.1 r.2.consistent
    ]
  ]
    where
      refused : object l c.libraries ≡ none → state_of (cu_library_unload c l) ≡ some c
      refused dead = unfold cu_library_unload in ground (arith, v.libraries l)

      nothing : (l == 0) ≡ true → state_of (cu_library_unload c l) ≡ some c
      nothing null = unfold cu_library_unload in ground arith

  no_parent :
      (p l : ℕ) (s : LibraryState)
      → is_live p c.modules ≡ false
      → object l c.libraries ≡ some s
      → s.parent ≢ p
  no_parent p l s fresh found e = ground (arith, v.library_module l s found, v.modules p)

  -- A library on a fresh module, and the module taken back where there is no library.
  module _ (p image : ℕ) (fresh : is_live p c.modules ≡ false) where
    abbrev with_module : Code
    with_module = record c { modules = enrol p (new_object p (record { image = image }) c.modules) }

    taken_back : IsConsistent (record with_module { modules = without p with_module.modules })
    taken_back =
        module_dropped with_module (module_added c v p (record { image = image })) p
          (λ l s found. no_parent p l s fresh found)

    with_library :
        (q : ℕ)
        → IsConsistent (record with_module {
          libraries = enrol q (new_object q (record { parent = p }) c.libraries);
        })
    with_library q =
        library_added with_module (module_added c v p (record { image = image })) q
          (record { parent = p }) (ground (arith, contains-insert p p c.modules.members))
          (λ l s found. no_parent p l s fresh found)

    on_module : (q : Option ℕ) → Keeps (state_of (library_on_module with_module p q))
    unfolding library_on_module delete_object
    on_module none =
        ground (arith, taken_back, lookup-put p p (record { image = image }) c.modules.live)
    on_module (some q) = with_library q

  load_library-Keeps :
      (given : Bool) (code : ℕ) (jit options : OptionList) (p q : Option ℕ)
      → Allowed c (load_library given code jit options p q)
      → Keeps (step c (load_library given code jit options p q))
  unfolding step cu_library_load_data
  load_library-Keeps given code jit options none q fresh = ground arith
  load_library-Keeps given code jit options (some p) q fresh =
      ground (arith, on_module p code fresh q)

  module _ (library f k : ℕ) (name : List ℕ) (parent : ℕ) (fresh : is_live f c.functions ≡ false)
      (valid : is_member library c.libraries ≡ true) where
    with_kernel : IsConsistent (new_kernel c library parent name (some f) (some k)).state
    unfolding new_kernel
    with_kernel =
        kernel_added _ (function_added c v f (record { parent = parent })) k
          (record { library = library; function = f; name = name }) valid
          (ground (arith, contains-insert f f c.functions.members))
          (λ l t found e. ground (arith, v.linked.kernel_function l t found, v.linked.functions f))

  get_kernel-Keeps :
      (given : Bool) (library : ℕ) (name : Option (List ℕ)) (f k : Option ℕ)
      → Allowed c (get_kernel given library name f k)
      → Keeps (step c (get_kernel given library name f k))
  unfolding step cu_library_get_kernel
  get_kernel-Keeps given library none f k fresh = v
  get_kernel-Keeps given library (some name) none k fresh = ground (arith, v.libraries library)
  get_kernel-Keeps given library (some name) (some f) none fresh =
      ground (arith, v.libraries library)
  get_kernel-Keeps given library (some name) (some f) (some k) fresh =
      elim (Option-cases (object library c.libraries)) [
        | inl dead ↦ ground (arith, v.libraries library)
        | inr (s, found) ↦
            ground (arith, v.libraries library, with_kernel library f k name s.parent fresh)
      ]

  -- A call that a history allows never touches a dead object and keeps every link.
  pub step-Keeps : (call : Call) → Allowed c call → Keeps (step c call)
  step-Keeps (load_module given image p) a = load_module-Keeps given image p
  step-Keeps (load_library given code jit options p q) a =
      load_library-Keeps given code jit options p q a
  step-Keeps (get_kernel given library name f k) a = get_kernel-Keeps given library name f k a
  step-Keeps (get_function given m name f) a = get_function-Keeps given m name f
  step-Keeps (unload_library l) a = unload_library-Keeps l
  step-Keeps (unload_module m) a = unload_module-Keeps m a

unfoldable pub run : Code → List Call → Option Code
run c [] = some c
run c (call ∷ calls) = elim (step c call) [ none ↦ none | some c' ↦ run c' calls ]

-- Every call of the history is allowed in the state in which it is made.
abbrev pub AllAllowed : Code → List Call → Type 0
AllAllowed c [] = Unit {0}
AllAllowed c (call ∷ calls) =
    Allowed c call × ((c' : Code) → step c call ≡ some c' → AllAllowed c' calls)

-- From a consistent state every history of the module and library calls returns, without an access
-- to or a deletion of a dead object, and ends in a consistent state: the handles are the live
-- objects, every kernel has a function of its own and a valid library, every library a valid
-- module of its own. The condition on each call is that `new` gives out a module for a library, or
-- a function for a kernel, at an address that is not in use, and that cuModuleUnload is not called
-- on the module of a library.
pub run-IsConsistent :
    (calls : List Call) (c : Code)
    → IsConsistent c
    → AllAllowed c calls
    → (c' : Code) × (run c calls ≡ some c') × IsConsistent c'
unfolding run
run-IsConsistent [] c v a = (c, refl, v)
run-IsConsistent (call ∷ calls) c v a = elim (Option-cases (step c call)) [
  | inl dead ↦ absurd (rw dead at (step-Keeps c v call a.0))
  | inr (c', e) ↦
      rw (e, run) (run-IsConsistent calls c' (rw e at (step-Keeps c v call a.0)) (a.1 c' e))
]

abbrev pub start : Code
start = record { modules = empty; functions = empty; libraries = empty; kernels = empty }

pub start-IsConsistent : IsConsistent start
unfolding lookup contains
start-IsConsistent = record {
  linked = record {
    functions = λ p. refl;
    kernels = λ p. refl;
    kernel_function = λ k s h. cc;
    kernel_apart = λ k l s t h. cc;
  };
  distinct = tt;
  modules = λ p. refl;
  libraries = λ p. refl;
  kernel_library = λ k s h. cc;
  library_module = λ l s h. cc;
  library_apart = λ l n s t h. cc;
}
