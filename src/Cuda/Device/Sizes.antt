-- ===== src/Cuda/Device/Sizes.antt =====
-- The memory sizes that guest/cuda_shim/imb_cuda_shim.cpp reports.
use isaac_metal_bridge.Base.{ℕ, ◌≤◌, ◌≡◌, refl, Option, none, some, true, arith}
use isaac_metal_bridge.Cuda.Result.{success}
use isaac_metal_bridge.Cuda.Device.{
  SystemInformation, system_total_memory, system_free_memory, cu_mem_get_info,
}

free-le_total :
    (second third : Option SystemInformation)
    → system_free_memory second third ≤ system_total_memory third
unfolding system_free_memory
free-le_total none third = omega arith
free-le_total (some i) third = omega arith

-- Where the total memory that the third call of sysinfo shows is that of the first, cuMemGetInfo
-- succeeds and reports no more free than total bytes, whichever of the calls fail.
pub cu_mem_get_info-le :
    (first second third : Option SystemInformation)
    → system_total_memory third ≡ system_total_memory first
    → (free total : ℕ) × (cu_mem_get_info true true first second third
        ≡ (success, some (free, total)))
      × (free ≤ total)
unfolding cu_mem_get_info
cu_mem_get_info-le first second third same = (
  system_free_memory second third,
  system_total_memory first,
  refl,
  omega (arith, free-le_total second third, same),
)
