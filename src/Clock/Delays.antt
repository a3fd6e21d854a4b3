-- ===== src/Clock/Delays.antt =====
-- How often and how long guest/timer_shim/imb_clock_shim.cpp delays the calls of a site.
use isaac_metal_bridge.Base.{
  ℕ, zero, suc, ◌+◌, ◌-◌, ◌%◌, ◌^◌, ◌≤◌, ◌<◌, min, ◌≡◌, ◌⊎◌, inl, inr, refl, ap, ◌∙◌, sym, Bool,
  true, false, Option, none, some, Bool-cases, Option-cases, List, ltb, if◌then◌else◌, sub64, arith,
}
use native.Mathlib.Decide.{ℕ_discrete}
use isaac_metal_bridge.Clock.{
  CallSite, CallSites, ClockResult, clock_gettime, should_delay_call, decide, Timespec,
  timespec_nanoseconds, delay_loop,
}

-- The site after `n` calls, and how many of them were delayed.
unfoldable pub calls : ℕ → Bool → CallSite → ℕ × CallSite
calls zero matches site = (0, site)
calls (suc n) matches site =
    let once = decide matches site in
    let rest = calls n matches (once.1) in ((if once.0 then 1 else 0) + rest.0, rest.1)

abbrev pub at_site : ℕ → ℕ → ℕ → CallSite
at_site address c decision = record {
  address = address;
  delayed_calls = c;
  is_carbonite_calibration = decision;
}

calls-matching :
    (n c address : ℕ) (m : Bool)
    → c + n ≤ 2 ^ 32
    → (calls n m (at_site address c 2)).0 ≡ min (c + n) 512 - c
unfolding calls decide
calls-matching zero c address m h = omega arith
calls-matching (suc n) c address m h = ground (arith, calls-matching n ((c + 1) % 2 ^ 32) address m)

calls-other : (n c address : ℕ) (m : Bool) → (calls n m (at_site address c 1)).0 ≡ 0
unfolding calls decide
calls-other zero c address m = refl
calls-other (suc n) c address m = omega (arith, calls-other n c address m)

-- Of n calls in a row from a new call site, n at most 2 ^ 32, exactly min n 512 are delayed if the
-- site's path matches, and none if it does not.
pub calls_lem :
    (n : ℕ) (matches : Bool) (address : ℕ)
    → n ≤ 2 ^ 32
    → (calls n matches (at_site address 0 0)).0 ≡ (if matches then min n 512 else 0)
unfolding calls decide
calls_lem zero true address h = omega arith
calls_lem zero false address h = refl
calls_lem (suc n) true address h = ground (arith, calls-matching n 1 address true)
calls_lem (suc n) false address h = omega (arith, calls-other n 0 address false)

-- The time since `start` that a reading shows, in 64 bits.
abbrev pub since : ℕ → Timespec → ℕ
since start now = sub64 (timespec_nanoseconds now) start

abbrev since_read : ℕ → Option Timespec → ℕ
since_read start none = 0
since_read start (some now) = since start now

-- An early reading comes before a late one.
early-before :
    (i k start : ℕ) (readings : ℕ → Option Timespec) (t now : Timespec)
    → readings i ≡ some t
    → readings k ≡ some now
    → ltb (since start t) 2000 ≡ true
    → 2000 ≤ since start now
    → i ≤ k
    → i + 1 ≤ k
early-before i k start readings t now read e early late lo = elim (ℕ_discrete i k) [
  | yes same ↦
      let equal =
        ap (λ (o : Option Timespec). since_read start o) (sym read ∙ ap readings same ∙ e) in
      absurd (ground (arith, equal))
  | no apart ↦ omega arith
]

delay_loop-from :
    (n i k start : ℕ) (readings : ℕ → Option Timespec) (now : Timespec)
    → readings k ≡ some now
    → 2000 ≤ since start now
    → i ≤ k
    → k < i + n
    → (r : ℕ) × (delay_loop n readings start i ≡ some (suc r))
      × (r ≤ k)
      × ((readings r ≡ none) ⊎ ((t : Timespec) × (readings r ≡ some t) × (2000 ≤ since start t)))
unfolding delay_loop
delay_loop-from zero i k start readings now e late lo hi = absurd (omega arith)
delay_loop-from (suc n) i k start readings now e late lo hi = elim (Option-cases (readings i)) [
  | inl failed ↦ (i, rw (failed, delay_loop) (one_more i), lo, inl failed)
  | inr (t, read) ↦ elim (Bool-cases (ltb (since start t) 2000)) [
    | inr over ↦ (i, rw (read, delay_loop, over) (one_more i), lo, inr (t, read, ground arith))
    | inl early ↦
        let r =
          delay_loop-from n (i + 1) k start readings now e late
            (early-before i k start readings t now read e early late lo) (omega arith) in
        (r.0, rw (read, delay_loop, early) r.1, r.2, r.3)
  ]
]
  where
    one_more : (i : ℕ) → some (i + 1) ≡ some (suc i)
    one_more i = ap (λ (t : ℕ). some t) (plus i)
      where
        plus : (i : ℕ) → i + 1 ≡ suc i
        plus i = omega arith

-- Where some reading is 2000 ns after the start, the loop returns: after the first reading that
-- fails or is that late, and no later than the given one.
pub delay_loop_lem :
    (k start : ℕ) (readings : ℕ → Option Timespec) (now : Timespec)
    → readings k ≡ some now
    → 2000 ≤ since start now
    → (r : ℕ) × (delay_loop (suc k) readings start 0 ≡ some (suc r))
      × (r ≤ k)
      × ((readings r ≡ none) ⊎ ((t : Timespec) × (readings r ≡ some t) × (2000 ≤ since start t)))
delay_loop_lem k start readings now e late =
    delay_loop-from (suc k) 0 k start readings now e late (omega arith) (omega arith)

-- Where reading k of the clock succeeds and shows at least 2000 ns since the first one in 64-bit
-- arithmetic, clock_gettime returns what the real function gave, with fuel k + 1 for the delay
-- loop and after at most k + 1 further readings.
pub clock_gettime_lem :
    (k : ℕ) (dladdr : ℕ → Option (Option (List ℕ))) (sites : CallSites) (t now : Timespec)
    (monotonic : Bool) (address : ℕ) (readings : ℕ → Option Timespec)
    → readings k ≡ some now
    → 2000 ≤ since (timespec_nanoseconds t) now
    → (r : ClockResult) × (clock_gettime
          (suc k)
          dladdr
          sites
          (some (some t))
          monotonic
          address
          readings
        ≡ some r)
      × (r.first ≡ some t)
      × (r.extra ≤ suc k)
unfolding clock_gettime
clock_gettime_lem k dladdr sites t now false address readings e late =
    (record { first = some t; sites = sites; extra = 0 }, refl, refl, omega arith)
clock_gettime_lem k dladdr sites t now true address readings e late =
    let decision = should_delay_call dladdr sites address in
    let loop = delay_loop_lem k (timespec_nanoseconds t) readings now e late in
    elim (Bool-cases decision.0) [
      | inl delays ↦ (
        record { first = some t; sites = decision.1; extra = suc loop.0 },
        rw (delays, loop.1) refl,
        refl,
        omega (arith, loop.2),
      )
      | inr passes ↦ (
        record { first = some t; sites = decision.1; extra = 0 },
        rw passes refl,
        refl,
        omega arith,
      )
    ]
