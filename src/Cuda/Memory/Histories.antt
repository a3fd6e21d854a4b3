-- ===== src/Cuda/Memory/Histories.antt =====
-- Histories of the calls of guest/cuda_shim/imb_cuda_shim.cpp that take and give back blocks.
use isaac_metal_bridge.Base.{
  ℕ, ◌≡◌, ◌⊎◌, refl, inl, inr, Option-cases, Bool, Option, none, some, List, [], ◌∷◌, arith,
}
use isaac_metal_bridge.Cuda.Result.{Outcome, done, fault}
use isaac_metal_bridge.Cuda.Memory.State.{Memory, free_block}
use isaac_metal_bridge.Cuda.Memory.Alloc.{
  cu_mem_alloc, cu_mem_free, cu_mem_host_alloc, cu_mem_free_host,
}
use isaac_metal_bridge.Cuda.Memory.Ownership.{
  IsOwned, IsFresh, cu_mem_alloc-IsOwned, cu_mem_host_alloc-IsOwned, cu_mem_free-IsOwned,
  cu_mem_free_host-IsOwned,
}

pub data Call : Type 0 where
  alloc : Bool → ℕ → Option ℕ → Call
  free : ℕ → Call
  host_alloc : Bool → ℕ → Option ℕ → Call
  free_host : ℕ → Call

abbrev pub state_of {ℓ} : {A : Type ℓ} → Outcome Memory A → Option Memory
state_of (done r) = some r.state
state_of fault = none

unfoldable pub step : Memory → Call → Option Memory
step m (alloc given size block) = some (cu_mem_alloc m given size block).state
step m (free p) = state_of (cu_mem_free m p)
step m (host_alloc given size block) = some (cu_mem_host_alloc m given size block).state
step m (free_host p) = state_of (cu_mem_free_host m p)

unfoldable pub run : Memory → List Call → Option Memory
run m [] = some m
run m (call ∷ calls) = elim (step m call) [ none ↦ none | some m' ↦ run m' calls ]

-- What a history relies on: `malloc` gives out blocks that are not null and not in use.
abbrev pub Allowed : Memory → Call → Type 0
Allowed m (alloc given size (some block)) = IsFresh m block
Allowed m (host_alloc given size (some block)) = IsFresh m block
Allowed m _ = Unit {0}

abbrev pub AllAllowed : Memory → List Call → Type 0
AllAllowed m [] = Unit {0}
AllAllowed m (call ∷ calls) =
    Allowed m call × ((m' : Memory) → step m call ≡ some m' → AllAllowed m' calls)

abbrev pub Keeps : Option Memory → Type 0
Keeps none = ⊥
Keeps (some m) = IsOwned m

Outcome-cases : (o : Outcome Memory (Unit {0})) → (o ≡ fault) ⊎ ((r : _) × (o ≡ done r))
Outcome-cases fault = inl refl
Outcome-cases (done r) = inr (r, refl)

step-Keeps : (m : Memory) (v : IsOwned m) (call : Call) → Allowed m call → Keeps (step m call)
unfolding step
step-Keeps m v (alloc given size none) a = unfold cu_mem_alloc in ground arith
step-Keeps m v (alloc given size (some block)) a = cu_mem_alloc-IsOwned m given size block a v
step-Keeps m v (host_alloc given size none) a = unfold cu_mem_host_alloc in ground arith
step-Keeps m v (host_alloc given size (some block)) a =
    cu_mem_host_alloc-IsOwned m given size block a v
step-Keeps m v (free p) a = elim (Outcome-cases (cu_mem_free m p)) [
  | inl e ↦ absurd (unfold cu_mem_free free_block in ground (arith, v.device_live p))
  | inr (r, e) ↦ rw (e, step) (cu_mem_free-IsOwned m p r e v)
]
step-Keeps m v (free_host p) a = elim (Outcome-cases (cu_mem_free_host m p)) [
  | inl e ↦ absurd (unfold cu_mem_free_host free_block in ground (arith, v.host_live p))
  | inr (r, e) ↦ rw (e, step) (cu_mem_free_host-IsOwned m p r e v)
]

-- From a state in which every registered block is live and none is registered both as device and
-- as host memory, every history of cuMemAlloc, cuMemFree, cuMemHostAlloc and cuMemFreeHost
-- returns, whatever pointers are freed and however often, and ends in such a state: no block is
-- given to `free` twice. The condition is that `malloc` gives out blocks that are not null, not in
-- use and not registered as device memory.
pub run-IsOwned :
    (calls : List Call) (m : Memory)
    → IsOwned m
    → AllAllowed m calls
    → (m' : Memory) × (run m calls ≡ some m') × IsOwned m'
unfolding run
run-IsOwned [] m v a = (m, refl, v)
run-IsOwned (call ∷ calls) m v a = elim (Option-cases (step m call)) [
  | inl dead ↦ absurd (rw dead at (step-Keeps m v call a.0))
  | inr (m', e) ↦ rw (e, run) (run-IsOwned calls m' (rw e at (step-Keeps m v call a.0)) (a.1 m' e))
]
