-- ===== src/Examples/Clock.antt =====
-- The clock shim, guest/timer_shim/imb_clock_shim.cpp, at concrete inputs.
use isaac_metal_bridge.Base.{ℕ, ◌≡◌, ◌↔◌, min, refl, true, List, [], ◌∷◌, if◌then◌else◌, arith}
use isaac_metal_bridge.Clock.{CallSites, Timespec, try_slot, first_slot}
use isaac_metal_bridge.Clock.Threads.{
  Machine, idle, run_schedule, start-IsRunning, run_schedule-slots, take_turn, advance,
}
use isaac_metal_bridge.Clock.Delays.{calls, at_site, calls_lem}

abbrev no_sites : CallSites
no_sites k = record { address = 0; delayed_calls = 0; is_carbonite_calibration = 0 }

-- Two threads look for one address, in turns.
abbrev schedule : List (ℕ × ℕ)
schedule = (0, 4096) ∷ (1, 4096) ∷ (0, 0) ∷ (1, 0) ∷ []

abbrev machine : Machine
machine = record { sites = no_sites; threads = λ t. idle }

abbrev slot : ℕ
slot = 0

abbrev address : ℕ
address = 4096

run_schedule-slots_example : (address ≡ address) ↔ (slot ≡ slot)
run_schedule-slots_example =
    run_schedule-slots schedule machine (start-IsRunning no_sites (λ k. refl)) 0 1 4096 4096 slot
      slot (unfold run_schedule advance take_turn try_slot first_slot in refl)
      (unfold run_schedule advance take_turn try_slot first_slot in refl)

calls_lem_example : (calls 1000 true (at_site 4096 0 0)).0 ≡ (if true then min 1000 512 else 0)
calls_lem_example = calls_lem 1000 true 4096 (omega arith)

abbrev started : Timespec
started = record { sec = 1; nsec = 0 }
