-- ===== src/Clock.antt =====
-- guest/timer_shim/imb_clock_shim.cpp: the table of call sites, the decision to delay a call and
-- the delay loop of `clock_gettime`. Addresses are numbers, 0 for null.
pub mod Table
pub mod Threads
pub mod Delays
use isaac_metal_bridge.Base.{
  ℕ, zero, suc, ◌+◌, ◌*◌, ◌/◌, ◌%◌, ◌^◌, Bool, true, false, not, ◌&&◌, ◌||◌, Option, none, some,
  List, [], ◌∷◌, ltb, ◌==◌, if◌then◌else◌, sub64, bit_xor,
}

pub record CallSite : Type 0 where
  pub address : ℕ
  pub delayed_calls : ℕ
  pub is_carbonite_calibration : ℕ

-- gCallSites, by slot; only the slots below 256 are used.
abbrev pub CallSites : Type 0
CallSites = ℕ → CallSite

abbrev pub store : CallSites → ℕ → CallSite → CallSites
store sites slot site k = if slot == k then site else sites k

unfoldable pub first_slot : ℕ → ℕ
first_slot address = bit_xor (address / 2 ^ 4) (address / 2 ^ 13) % 256

abbrev pub slot_at : ℕ → ℕ → ℕ
slot_at address probe = (first_slot address + probe) % 256

-- One `compare_exchange_strong` of the loop: is the slot the address's now, and the table after.
unfoldable pub try_slot : CallSites → ℕ → ℕ → Bool × CallSites
try_slot sites address slot =
    let site = sites slot in
    if site.address == 0
    then (true, store sites slot (record site { address = address }))
    else (site.address == address, sites)

-- The loop from turn `probe`, with `n` turns left.
unfoldable pub probe_from : ℕ → ℕ → CallSites → ℕ → Option ℕ × CallSites
unfolding try_slot
probe_from zero probe sites address = (none, sites)
probe_from (suc n) probe sites address =
    let slot = slot_at address probe in
    let turn = try_slot sites address slot in
    let rest = probe_from n (probe + 1) turn.1 address in
    if turn.0 then (some slot, turn.1) else rest

abbrev pub call_site_for : CallSites → ℕ → Option ℕ × CallSites
call_site_for sites address = probe_from 256 0 sites address

unfoldable pub starts_with : List ℕ → List ℕ → Bool
starts_with [] text = true
starts_with (c ∷ prefix) [] = false
starts_with (c ∷ prefix) (d ∷ text) =
    let rest = starts_with prefix text in if c == d then rest else false

-- `strstr(text, part) != nullptr`.
unfoldable pub has_part : List ℕ → List ℕ → Bool
unfolding starts_with
has_part part [] = starts_with part []
has_part part (c ∷ text) = let rest = has_part part text in starts_with part (c ∷ text) || rest

-- "libomni.anim.behavior.core.plugin.so", "libcarb.tasking.plugin.so" and
-- "libcarb.profiler-cpu.plugin.so".
abbrev pub behavior_plugin : List ℕ
behavior_plugin =
    108 ∷ 105 ∷ 98 ∷ 111 ∷ 109 ∷ 110 ∷ 105 ∷ 46 ∷ 97 ∷ 110 ∷ 105 ∷ 109 ∷ 46 ∷ 98 ∷ 101 ∷ 104 ∷ 97
    ∷ 118 ∷ 105 ∷ 111 ∷ 114 ∷ 46 ∷ 99 ∷ 111 ∷ 114 ∷ 101 ∷ 46 ∷ 112 ∷ 108 ∷ 117 ∷ 103 ∷ 105 ∷ 110
    ∷ 46 ∷ 115 ∷ 111 ∷ []

abbrev pub tasking_plugin : List ℕ
tasking_plugin =
    108 ∷ 105 ∷ 98 ∷ 99 ∷ 97 ∷ 114 ∷ 98 ∷ 46 ∷ 116 ∷ 97 ∷ 115 ∷ 107 ∷ 105 ∷ 110 ∷ 103 ∷ 46 ∷ 112
    ∷ 108 ∷ 117 ∷ 103 ∷ 105 ∷ 110 ∷ 46 ∷ 115 ∷ 111 ∷ []

abbrev pub profiler_plugin : List ℕ
profiler_plugin =
    108 ∷ 105 ∷ 98 ∷ 99 ∷ 97 ∷ 114 ∷ 98 ∷ 46 ∷ 112 ∷ 114 ∷ 111 ∷ 102 ∷ 105 ∷ 108 ∷ 101 ∷ 114 ∷ 45
    ∷ 99 ∷ 112 ∷ 117 ∷ 46 ∷ 112 ∷ 108 ∷ 117 ∷ 103 ∷ 105 ∷ 110 ∷ 46 ∷ 115 ∷ 111 ∷ []

-- `none` is a null path.
unfoldable pub path_uses_carbonite_tsc_calibration : Option (List ℕ) → Bool
path_uses_carbonite_tsc_calibration none = false
path_uses_carbonite_tsc_calibration (some path) =
    has_part behavior_plugin path || (has_part tasking_plugin path || has_part profiler_plugin path)

-- The decision at a call site whose path matches or not, and the count of its calls.
unfoldable pub decide : Bool → CallSite → Bool × CallSite
decide matches site =
    let resolved = if matches then 2 else 1 in
    let decision =
      if site.is_carbonite_calibration == 0 then resolved else site.is_carbonite_calibration in
    let decided = record site { is_carbonite_calibration = decision } in
    if not (decision == 2) then (false, decided) else (
      ltb site.delayed_calls 512,
      record decided { delayed_calls = (site.delayed_calls + 1) % 2 ^ 32 },
    )

-- `dladdr address` is the path of the library that the address is in, `none` if the call fails.
abbrev pub matches_path : (ℕ → Option (Option (List ℕ))) → ℕ → Bool
matches_path dladdr address = elim (dladdr address) [
  | none ↦ false
  | some path ↦ path_uses_carbonite_tsc_calibration path
]

unfoldable pub should_delay_call : (ℕ → Option (Option (List ℕ))) → CallSites → ℕ → Bool × CallSites
unfolding decide
should_delay_call dladdr sites address =
    let found = call_site_for sites address in
    if address == 0 then (false, sites) else elim (found.0) [
      | none ↦ (false, found.1)
      | some slot ↦
          let decision = decide (matches_path dladdr address) (found.1 slot) in
          (decision.0, store (found.1) slot (decision.1))
    ]

pub record Timespec : Type 0 where
  pub sec : ℕ
  pub nsec : ℕ

-- The seconds as they are after the cast to 64 bits.
unfoldable pub timespec_nanoseconds : Timespec → ℕ
timespec_nanoseconds t = (t.sec * 1000000000 % 2 ^ 64 + t.nsec) % 2 ^ 64

-- The busy loop: `readings i` is what the i-th call of the real function gives, `none` if it
-- fails. The result is the number of calls made, `none` if the fuel `n` ran out.
unfoldable pub delay_loop : ℕ → (ℕ → Option Timespec) → ℕ → ℕ → Option ℕ
unfolding timespec_nanoseconds
delay_loop zero readings start i = none
delay_loop (suc n) readings start i =
    let rest = delay_loop n readings start (i + 1) in
    elim (readings i) [
      | none ↦ some (i + 1)
      | some now ↦ if ltb (sub64 (timespec_nanoseconds now) start) 2000 then rest else some (i + 1)
    ]

-- What a call returns: the real function's result, `none` for a status other than 0, the table
-- after, and the number of readings that the delay loop made.
pub record ClockResult : Type 0 where
  pub first : Option Timespec
  pub sites : CallSites
  pub extra : ℕ

-- `real` is what the real function gives, `none` if `dlsym` does not find it; `monotonic` is the
-- test of the clock; `none` if the fuel `n` of the delay loop ran out.
unfoldable pub clock_gettime :
    ℕ
    → (ℕ → Option (Option (List ℕ)))
    → CallSites
    → Option (Option Timespec)
    → Bool
    → ℕ
    → (ℕ → Option Timespec)
    → Option ClockResult
unfolding should_delay_call delay_loop
clock_gettime n dladdr sites none monotonic address readings =
    some (record { first = none; sites = sites; extra = 0 })
clock_gettime n dladdr sites (some none) monotonic address readings =
    some (record { first = none; sites = sites; extra = 0 })
clock_gettime n dladdr sites (some (some t)) monotonic address readings =
    let decision = should_delay_call dladdr sites address in
    let delayed = delay_loop n readings (timespec_nanoseconds t) 0 in
    if not monotonic
    then some (record { first = some t; sites = sites; extra = 0 })
    else if not (decision.0)
    then some (record { first = some t; sites = decision.1; extra = 0 })
    else elim delayed [
      | none ↦ none
      | some extra ↦ some (record { first = some t; sites = decision.1; extra = extra })
    ]
