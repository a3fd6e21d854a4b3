-- ===== src/Cuda/Result.antt =====
-- The CUresult codes of guest/cuda_shim/imb_cuda_shim.cpp, and what a call of its API hands back.
use isaac_metal_bridge.Base.{ℕ, Option, none, some}

pub data CuResult : Type 0 where
  success invalid_value out_of_memory invalid_device invalid_handle not_found : CuResult
  not_ready not_supported : CuResult

unfoldable pub code : CuResult → ℕ
code success = 0
code invalid_value = 1
code out_of_memory = 2
code invalid_device = 101
code invalid_handle = 400
code not_found = 500
code not_ready = 600
code not_supported = 801

-- `out` is what the call stores through its output pointer, `none` if it stores nothing.
pub record Reply {ℓ κ} (S : Type ℓ) (A : Type κ) : Type (ℓ ⊔ κ) where
  pub result : CuResult
  pub out : Option A
  pub state : S

-- `fault` is undefined behaviour: a `free`, `delete` or access of memory that is not live.
pub data Outcome {ℓ κ} (S : Type ℓ) (A : Type κ) : Type (ℓ ⊔ κ) where
  done : Reply S A → Outcome S A
  fault : Outcome S A

module _ {ℓ κ} {S : Type ℓ} {A : Type κ} where
  abbrev pub fail : S → CuResult → Reply S A
  fail s e = record { result = e; out = none; state = s }

  abbrev pub succeed : S → A → Reply S A
  succeed s a = record { result = success; out = some a; state = s }

  abbrev pub quiet : S → Reply S A
  quiet s = record { result = success; out = none; state = s }
