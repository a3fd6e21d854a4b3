-- ===== src/Examples/Fences.antt =====
-- Fences of guest/vulkan_icd/imb_vulkan_icd.cpp at concrete inputs.
use isaac_metal_bridge.Base.{
  ◌≡◌, ◌⊎◌, refl, true, false, none, some, [], ◌∷◌, lookup, contains, put, arith,
}
use isaac_metal_bridge.Cuda.Registry.{IsSound}
use isaac_metal_bridge.Icd.Result.{success, initialization_failed}
use isaac_metal_bridge.Icd.Driver.{Driver, FenceState}
use isaac_metal_bridge.Icd.Fences.{Host, wait_for_fences, reset_fences}
use isaac_metal_bridge.Icd.Fences.Signals.{Kept}
use isaac_metal_bridge.Icd.Fences.Waits.{
  AllSignal, AllUnsignaled, wait_for_fences-all, reset_fences_lem, wait_for_fences-any,
}
use isaac_metal_bridge.Examples.Driver.{start, around, shared_memory}

-- The host signals every fence, and eight bytes of every resource arrive.
abbrev host : Host
host = record {
  around = around;
  connected = true;
  waits = λ id. true;
  image = λ p. none;
  arrived = λ id. 8;
  content = λ id a. a;
}

-- A submission that leaves its result in a memory.
abbrev pending : FenceState
pending = record {
  device = 3;
  bridge_fence_id = 5;
  result_memory = 16;
  result_image = 0;
  submitted = true;
  signaled = false;
}

abbrev ready : FenceState
ready = record {
  device = 3;
  bridge_fence_id = 0;
  result_memory = 0;
  result_image = 0;
  submitted = false;
  signaled = true;
}

abbrev two_fences : Driver
two_fences = record start {
  memories = record { live = (16, shared_memory) ∷ []; members = 16 ∷ [] };
  fences = record { live = (48, pending) ∷ (56, ready) ∷ []; members = 48 ∷ 56 ∷ [] };
}

two_fences-IsSound : IsSound two_fences.fences
unfolding lookup contains
two_fences-IsSound p = ground arith

abbrev after_wait : Driver
unfolding wait_for_fences
after_wait = elim (wait_for_fences host true (48 ∷ 56 ∷ []) true 1000 two_fences) [
  | none ↦ start
  | some (r, d) ↦ d
]

after_wait_lem :
    wait_for_fences host true (48 ∷ 56 ∷ []) true 1000 two_fences ≡ some (success, after_wait)
unfolding wait_for_fences lookup contains put
after_wait_lem = refl

wait_for_fences-all_example : Kept two_fences after_wait × AllSignal (48 ∷ 56 ∷ []) after_wait
wait_for_fences-all_example =
    wait_for_fences-all host (48 ∷ 56 ∷ []) 1000 two_fences after_wait after_wait_lem

reset_fences_lem_example :
    ((d : Driver) × (reset_fences true (56 ∷ []) two_fences ≡ some (success, d))
      × IsSound d.fences
      × (d.fences.members ≡ two_fences.fences.members)
      × AllUnsignaled (56 ∷ []) d)
    ⊎ (reset_fences true (56 ∷ []) two_fences ≡ some (initialization_failed, two_fences))
reset_fences_lem_example = reset_fences_lem (56 ∷ []) two_fences two_fences-IsSound

pending-AllUnsignaled : AllUnsignaled (48 ∷ []) two_fences
unfolding lookup
pending-AllUnsignaled = ((pending, refl, refl), tt)

wait_for_fences-any_example :
    wait_for_fences host true (48 ∷ []) false 0 two_fences ≡ some (success, two_fences)
wait_for_fences-any_example =
    wait_for_fences-any host 48 [] two_fences two_fences-IsSound pending-AllUnsignaled
