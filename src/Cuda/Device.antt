-- ===== src/Cuda/Device.antt =====
-- The driver and device queries and the memory sizes of guest/cuda_shim/imb_cuda_shim.cpp. They
-- change no state: a query gives its result code and what it stores. `given` is false if an output
-- pointer is null; a C `int` is its bit pattern.
pub mod Sizes
use isaac_metal_bridge.Base.{
  ℕ, ◌+◌, ◌*◌, ◌/◌, ◌%◌, ◌^◌, min, Bool, true, false, not, ◌&&◌, ◌||◌, Option, none, some, ltb,
  ◌==◌, if◌then◌else◌, max64, add64, mul64,
}
use isaac_metal_bridge.Cuda.Result.{CuResult, success, invalid_value, invalid_device}
use isaac_metal_bridge.Cuda.Libraries.KernelCalls.{valid_device}

abbrev pub Query {ℓ} : Type ℓ → Type ℓ
Query A = CuResult × Option A

-- Most queries check the pointer and then the device.
abbrev pub device_query {ℓ} : {A : Type ℓ} → Bool → Bool → A → Query A
device_query given valid a =
    if not given
    then (invalid_value, none)
    else if not valid
    then (invalid_device, none)
    else (success, some a)

unfoldable pub cu_init : ℕ → CuResult
cu_init flags = if flags == 0 then success else invalid_value

unfoldable pub cu_driver_get_version : Bool → Query ℕ
cu_driver_get_version given = if not given then (invalid_value, none) else (success, some 12080)

unfoldable pub cu_device_get_count : Bool → Query ℕ
cu_device_get_count given = if not given then (invalid_value, none) else (success, some 1)

unfoldable pub cu_device_get : Bool → ℕ → Query ℕ
unfolding valid_device
cu_device_get given ordinal =
    if not given
    then (invalid_value, none)
    else if not (valid_device ordinal)
    then (invalid_device, none)
    else (success, some 0)

-- What sysinfo(2) stores, `none` if the call fails.
pub record SystemInformation : Type 0 where
  pub total_ram : ℕ
  pub free_ram : ℕ
  pub buffer_ram : ℕ
  pub mem_unit : ℕ

unfoldable pub scaled_system_memory : ℕ → ℕ → ℕ
scaled_system_memory value unit = min (mul64 value unit) max64

unfoldable pub system_total_memory : Option SystemInformation → ℕ
unfolding scaled_system_memory
system_total_memory none = 16 * 1024 * 1024 * 1024
system_total_memory (some i) =
    if ltb 0 i.total_ram
    then scaled_system_memory i.total_ram i.mem_unit
    else 16 * 1024 * 1024 * 1024

-- The second argument is what the call inside of systemTotalMemory gives.
unfoldable pub system_free_memory : Option SystemInformation → Option SystemInformation → ℕ
unfolding scaled_system_memory system_total_memory
system_free_memory none again = mul64 (system_total_memory again) 3 / 4
system_free_memory (some i) again =
    let free = scaled_system_memory i.free_ram i.mem_unit in
    let buffers = scaled_system_memory i.buffer_ram i.mem_unit in
    min (system_total_memory again) (add64 free buffers)

unfoldable pub cu_device_total_mem : Bool → ℕ → Option SystemInformation → Query ℕ
unfolding valid_device system_total_memory
cu_device_total_mem given device system =
    device_query given (valid_device device) (system_total_memory system)

-- The free and the total bytes, from three calls of sysinfo.
unfoldable pub cu_mem_get_info :
    Bool
    → Bool
    → Option SystemInformation
    → Option SystemInformation
    → Option SystemInformation
    → Query (ℕ × ℕ)
unfolding system_total_memory system_free_memory
cu_mem_get_info given_free given_total first second third =
    if not given_free || not given_total
    then (invalid_value, none)
    else (success, some (system_free_memory second third, system_total_memory first))

unfoldable pub attribute_value : ℕ → ℕ
attribute_value attribute =
    if attribute == 1 || (attribute == 2 || attribute == 3)
    then 1024
    else if attribute == 4
    then 64
    else if attribute == 5
    then 2147483647
    else if attribute == 6 || attribute == 7
    then 65535
    else if attribute == 8
    then 49152
    else if attribute == 10
    then 32
    else if attribute == 13 || attribute == 36
    then 1000000
    else if attribute == 16
    then 10
    else if attribute == 17
        || (attribute == 20 || (attribute == 33 || (attribute == 34 || attribute == 50)))
    then 0
    else if attribute == 37
    then 128
    else if attribute == 38
    then 4 * 1024 * 1024
    else if attribute == 75
    then 8
    else if attribute == 76
    then 9
    else 1

unfoldable pub cu_device_get_attribute : Bool → ℕ → ℕ → Query ℕ
unfolding valid_device attribute_value
cu_device_get_attribute given attribute device =
    device_query given (valid_device device) (attribute_value attribute)

unfoldable pub cu_device_get_p2p_attribute : Bool → ℕ → ℕ → Query ℕ
unfolding valid_device
cu_device_get_p2p_attribute given source destination =
    device_query given (valid_device source && valid_device destination) 0

unfoldable pub cu_device_can_access_peer : Bool → ℕ → ℕ → Query ℕ
unfolding valid_device
cu_device_can_access_peer given device peer =
    device_query given (valid_device device && valid_device peer) 0

unfoldable pub cu_device_get_texture_1d_linear_max_width : Bool → ℕ → Query ℕ
unfolding valid_device
cu_device_get_texture_1d_linear_max_width given device =
    device_query given (valid_device device) (2 ^ 27)
