-- ===== src/Icd/Result.antt =====
-- The VkResult codes of guest/vulkan_icd/imb_vulkan_icd.cpp, and what a call of the driver hands
-- back.
use isaac_metal_bridge.Base.{Option, none, some}

pub data VkResult : Type 0 where
  success not_ready timeout : VkResult
  out_of_host_memory out_of_device_memory initialization_failed device_lost : VkResult
  memory_map_failed feature_not_present too_many_objects invalid_external_handle : VkResult
  format_not_supported : VkResult

-- `out` is what the call stores through its output pointer, `none` if it stores nothing.
pub record Answer {ℓ κ} (S : Type ℓ) (A : Type κ) : Type (ℓ ⊔ κ) where
  pub result : VkResult
  pub out : Option A
  pub state : S

module _ {ℓ κ} {S : Type ℓ} {A : Type κ} where
  abbrev pub reject : S → VkResult → Answer S A
  reject s e = record { result = e; out = none; state = s }

  abbrev pub answer : S → A → Answer S A
  answer s a = record { result = success; out = some a; state = s }

  abbrev pub accept : S → Answer S A
  accept s = record { result = success; out = none; state = s }
