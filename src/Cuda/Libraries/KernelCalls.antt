-- ===== src/Cuda/Libraries/KernelCalls.antt =====
-- The calls of guest/cuda_shim/imb_cuda_shim.cpp that take one kernel: its function, its name, its
-- attributes and its cache configuration.
use isaac_metal_bridge.Base.{ℕ, Bool, not, ◌||◌, none, some, List, ◌==◌, if◌then◌else◌}
use isaac_metal_bridge.Cuda.Result.{
  Reply, Outcome, done, fault, fail, succeed, quiet, invalid_value, invalid_handle,
}
use isaac_metal_bridge.Cuda.Registry.{is_member, object}
use isaac_metal_bridge.Cuda.Libraries.{Code}

unfoldable pub cu_kernel_get_function : Code → Bool → ℕ → Outcome Code ℕ
cu_kernel_get_function c given kernel =
    if not given || kernel == 0
    then done (fail c invalid_value)
    else if not (is_member kernel c.kernels)
    then done (fail c invalid_handle)
    else elim (object kernel c.kernels) [
      | none ↦ fault
      | some state ↦ done (
          if is_member state.function c.functions
          then succeed c state.function
          else fail c invalid_handle)
    ]

unfoldable pub cu_kernel_get_name : Code → Bool → ℕ → Outcome Code (List ℕ)
cu_kernel_get_name c given kernel =
    if not given || kernel == 0
    then done (fail c invalid_value)
    else if not (is_member kernel c.kernels)
    then done (fail c invalid_handle)
    else elim (object kernel c.kernels) [ none ↦ fault | some state ↦ done (succeed c state.name) ]

unfoldable pub valid_device : ℕ → Bool
valid_device device = device == 0

unfoldable pub cu_kernel_get_attribute : Code → Bool → ℕ → ℕ → ℕ → Reply Code ℕ
unfolding valid_device
cu_kernel_get_attribute c given attribute kernel device =
    if not given || (kernel == 0 || not (valid_device device))
    then fail c invalid_value
    else if not (is_member kernel c.kernels)
    then fail c invalid_handle
    else succeed c 0

unfoldable pub cu_kernel_set_attribute : Code → ℕ → ℕ → ℕ → ℕ → Reply Code (Unit {0})
unfolding valid_device
cu_kernel_set_attribute c attribute value kernel device =
    if kernel == 0 || not (valid_device device)
    then fail c invalid_value
    else if is_member kernel c.kernels
    then quiet c
    else fail c invalid_handle

unfoldable pub cu_kernel_set_cache_config : Code → ℕ → ℕ → ℕ → Reply Code (Unit {0})
unfolding valid_device
cu_kernel_set_cache_config c kernel config device =
    if kernel == 0 || not (valid_device device)
    then fail c invalid_value
    else if is_member kernel c.kernels
    then quiet c
    else fail c invalid_handle
