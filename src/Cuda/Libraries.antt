-- ===== src/Cuda/Libraries.antt =====
-- Modules, functions, libraries and kernels of guest/cuda_shim/imb_cuda_shim.cpp. What
-- `new (std::nothrow)` returns is an argument of the call; names and images are addresses, 0 for
-- null, and a kernel keeps a copy of its name.
pub mod KernelCalls
pub mod Kernels
pub mod Consistent
pub mod Unload
pub mod Stale
pub mod Histories
use isaac_metal_bridge.Base.{
  ℕ, Bool, true, false, not, ◌&&◌, ◌||◌, Option, none, some, List, [], ◌∷◌, ◌==◌, if◌then◌else◌,
}
use isaac_metal_bridge.Cuda.Result.{
  Reply, Outcome, done, fault, fail, succeed, quiet, invalid_value, out_of_memory, invalid_handle,
}
use isaac_metal_bridge.Cuda.Registry.{
  Registry, is_member, object, new_object, enrol, withdraw, delete_object,
}

pub record ModuleState : Type 0 where
  pub image : ℕ

pub record FunctionState : Type 0 where
  pub parent : ℕ

pub record LibraryState : Type 0 where
  pub parent : ℕ

pub record KernelState : Type 0 where
  pub library : ℕ
  pub function : ℕ
  pub name : List ℕ

-- gModules, gFunctions, gLibraries, gKernels.
pub record Code : Type 0 where
  pub modules : Registry ModuleState
  pub functions : Registry FunctionState
  pub libraries : Registry LibraryState
  pub kernels : Registry KernelState

unfoldable pub load_module_token : Code → Bool → ℕ → Option ℕ → Reply Code ℕ
load_module_token c given image allocation =
    if not given || image == 0 then fail c invalid_value else elim allocation [
      | none ↦ fail c out_of_memory
      | some p ↦
          let state : ModuleState = record { image = image } in
          succeed (record c { modules = enrol p (new_object p state c.modules) }) p
    ]

-- After the module is loaded: the library, or the module taken back.
unfoldable pub library_on_module : Code → ℕ → Option ℕ → Outcome Code ℕ
library_on_module c module' none = elim (delete_object module' (withdraw module' c.modules)) [
  | none ↦ fault
  | some modules ↦ done (fail (record c { modules = modules }) out_of_memory)
]
library_on_module c module' (some p) =
    let state : LibraryState = record { parent = module' } in
    done (succeed (record c { libraries = enrol p (new_object p state c.libraries) }) p)

unfoldable pub load_library_token : Code → Bool → ℕ → Option ℕ → Option ℕ → Outcome Code ℕ
unfolding load_module_token library_on_module
load_library_token c given image module_allocation library_allocation =
    if not given || image == 0
    then done (fail c invalid_value)
    else let r = load_module_token c true image module_allocation in
      elim r.out [
        | none ↦ done r
        | some module' ↦ library_on_module r.state module' library_allocation
      ]

unfoldable pub cu_module_load_data_ex : Code → Bool → ℕ → Option ℕ → Reply Code ℕ
unfolding load_module_token
cu_module_load_data_ex c given image allocation = load_module_token c given image allocation

unfoldable pub cu_module_load_data : Code → Bool → ℕ → Option ℕ → Reply Code ℕ
unfolding load_module_token
cu_module_load_data c given image allocation = load_module_token c given image allocation

unfoldable pub cu_module_load_fat_binary : Code → Bool → ℕ → Option ℕ → Reply Code ℕ
unfolding load_module_token
cu_module_load_fat_binary c given fatbin allocation = load_module_token c given fatbin allocation

-- An option list: is there a pointer to the keys, one to the values, and how many are there?
pub record OptionList : Type 0 where
  pub keys : Bool
  pub values : Bool
  pub count : ℕ

abbrev pub is_missing : OptionList → Bool
is_missing o = not (o.count == 0) && (not o.keys || not o.values)

unfoldable pub cu_library_load_data :
    Code → Bool → ℕ → OptionList → OptionList → Option ℕ → Option ℕ → Outcome Code ℕ
unfolding load_library_token
cu_library_load_data c given code jit options module_allocation library_allocation =
    if is_missing jit || is_missing options
    then done (fail c invalid_value)
    else load_library_token c given code module_allocation library_allocation

unfoldable pub cu_library_load_from_file :
    Code → Bool → ℕ → OptionList → OptionList → Option ℕ → Option ℕ → Outcome Code ℕ
unfolding cu_library_load_data
cu_library_load_from_file c given file_name jit options module_allocation library_allocation =
    cu_library_load_data c given file_name jit options module_allocation library_allocation

unfoldable pub cu_library_get_module : Code → Bool → ℕ → Outcome Code ℕ
cu_library_get_module c given library =
    if not given || library == 0
    then done (fail c invalid_value)
    else if not (is_member library c.libraries)
    then done (fail c invalid_handle)
    else elim (object library c.libraries) [
      | none ↦ fault
      | some state ↦ done (
          if is_member state.parent c.modules
          then succeed c state.parent
          else fail c invalid_handle)
    ]

-- The two allocations, under a valid library.
unfoldable pub new_kernel : Code → ℕ → ℕ → List ℕ → Option ℕ → Option ℕ → Reply Code ℕ
new_kernel c library module' name none kernel_allocation = fail c out_of_memory
new_kernel c library module' name (some f) none = fail c out_of_memory
new_kernel c library module' name (some f) (some k) =
    let function : FunctionState = record { parent = module' } in
    let kernel : KernelState = record { library = library; function = f; name = name } in
    succeed
      (record c {
        functions = enrol f (new_object f function c.functions);
        kernels = enrol k (new_object k kernel c.kernels);
      })
      k

-- `name` is `none` for a null pointer.
unfoldable pub cu_library_get_kernel :
    Code → Bool → ℕ → Option (List ℕ) → Option ℕ → Option ℕ → Outcome Code ℕ
unfolding new_kernel
cu_library_get_kernel c given library none function_allocation kernel_allocation =
    done (fail c invalid_value)
cu_library_get_kernel c given library (some name) function_allocation kernel_allocation =
    if not given || library == 0
    then done (fail c invalid_value)
    else if not (is_member library c.libraries)
    then done (fail c invalid_handle)
    else elim (object library c.libraries) [
      | none ↦ fault
      | some state ↦ done (
          if is_member state.parent c.modules
          then new_kernel c library state.parent name function_allocation kernel_allocation
          else fail c invalid_handle)
    ]

-- One kernel of the unloaded library: its function and itself are removed and deleted.
unfoldable pub drop_kernel : Code → ℕ → KernelState → Option Code
drop_kernel c k kernel =
    elim (delete_object kernel.function (withdraw kernel.function c.functions)) [
      | none ↦ none
      | some functions ↦ elim (delete_object k (withdraw k c.kernels)) [
        | none ↦ none
        | some kernels ↦ some (record c { functions = functions; kernels = kernels })
      ]
    ]

-- The loop over gKernels, as the set stood before it; `none` is undefined behaviour.
unfoldable pub drop_kernels : Code → ℕ → List ℕ → Option Code
unfolding drop_kernel
drop_kernels c library [] = some c
drop_kernels c library (k ∷ ks) = elim (object k c.kernels) [
  | none ↦ none
  | some kernel ↦ elim (if kernel.library == library then drop_kernel c k kernel else some c) [
    | none ↦ none
    | some c' ↦ drop_kernels c' library ks
  ]
]

-- The deletes after the loop: the module and the library.
unfoldable pub drop_library : Code → ℕ → LibraryState → Outcome Code (Unit {0})
drop_library c library state = elim (delete_object state.parent (withdraw state.parent c.modules)) [
  | none ↦ fault
  | some modules ↦ elim (delete_object library (withdraw library c.libraries)) [
    | none ↦ fault
    | some libraries ↦ done (quiet (record c { modules = modules; libraries = libraries }))
  ]
]

unfoldable pub cu_library_unload : Code → ℕ → Outcome Code (Unit {0})
unfolding drop_library
cu_library_unload c library =
    if library == 0
    then done (quiet c)
    else if not (is_member library c.libraries)
    then done (fail c invalid_handle)
    else elim (drop_kernels c library c.kernels.members) [
      | none ↦ fault
      | some c' ↦ elim (object library c'.libraries) [
        | none ↦ fault
        | some state ↦ drop_library c' library state
      ]
    ]

unfoldable pub cu_module_get_function : Code → Bool → ℕ → Bool → Option ℕ → Reply Code ℕ
cu_module_get_function c given module' name allocation =
    if not given || (module' == 0 || not name)
    then fail c invalid_value
    else if not (is_member module' c.modules)
    then fail c invalid_handle
    else elim allocation [
      | none ↦ fail c out_of_memory
      | some f ↦
          let state : FunctionState = record { parent = module' } in
          succeed (record c { functions = enrol f (new_object f state c.functions) }) f
    ]

unfoldable pub cu_module_unload : Code → ℕ → Outcome Code (Unit {0})
cu_module_unload c module' =
    if module' == 0
    then done (quiet c)
    else if not (is_member module' c.modules)
    then done (fail c invalid_handle)
    else elim (delete_object module' (withdraw module' c.modules)) [
      | none ↦ fault
      | some modules ↦ done (quiet (record c { modules = modules }))
    ]

unfoldable pub cu_launch_kernel : Code → ℕ → Reply Code (Unit {0})
cu_launch_kernel c function =
    if is_member function c.functions then quiet c else fail c invalid_handle
