-- ===== src/Clock/Threads.antt =====
-- Threads that call `clock_gettime` of guest/timer_shim/imb_clock_shim.cpp at once: each step is one
-- `compare_exchange_strong` of one thread, and a schedule is the order of the steps.
use isaac_metal_bridge.Base.{
  ℕ, ◌+◌, ◌<◌, ◌≡◌, ◌≢◌, ◌↔◌, refl, ap, subst, ◌∙◌, sym, inl, inr, List, [], ◌∷◌, Bool-cases, ltb,
  ◌==◌, if◌then◌else◌, arith,
}
use isaac_metal_bridge.Clock.{CallSites, slot_at, try_slot}
use isaac_metal_bridge.Clock.Table.{
  address_at, Passed, IsOpen, IsOpen-slot, IsExtension, Passed-extension, turn-IsExtension,
  turn-found, turn-missed, turn-IsOpen,
}

-- Where a thread is in `callSiteFor`.
pub data Thread : Type 0 where
  idle : Thread
  probing : ℕ → ℕ → Thread
  found : ℕ → ℕ → Thread
  full : ℕ → Thread

pub record Machine : Type 0 where
  pub sites : CallSites
  pub threads : ℕ → Thread

abbrev pub set_thread : (ℕ → Thread) → ℕ → Thread → ℕ → Thread
set_thread threads t thread k = if t == k then thread else threads k

-- A turn of the loop of thread `t`.
unfoldable pub take_turn : Machine → ℕ → ℕ → ℕ → Machine
take_turn m t address probe =
    let turn = try_slot m.sites address (slot_at address probe) in
    let next =
      if turn.0 then found address (slot_at address probe) else probing address (probe + 1) in
    if ltb probe 256
    then record { sites = turn.1; threads = set_thread m.threads t next }
    else record m { threads = set_thread m.threads t (full address) }

-- A step of a thread: an idle one calls with the address, unless it is null; one that has returned
-- is idle again.
unfoldable pub advance : Machine → ℕ × ℕ → Machine
unfolding take_turn
advance m (t, address) = elim (m.threads t) [
  | idle ↦
      if address == 0 then m else record m { threads = set_thread m.threads t (probing address 0) }
  | probing a probe ↦ take_turn m t a probe
  | found a slot ↦ record m { threads = set_thread m.threads t idle }
  | full a ↦ record m { threads = set_thread m.threads t idle }
]

unfoldable pub run_schedule : Machine → List (ℕ × ℕ) → Machine
run_schedule m [] = m
run_schedule m (s ∷ schedule) = run_schedule (advance m s) schedule

abbrev pub IsAt : CallSites → Thread → Type 0
IsAt sites idle = Unit {0}
IsAt sites (probing a probe) = (a ≢ 0) × Passed sites a probe
IsAt sites (found a slot) = (a ≢ 0) × (slot < 256) × (address_at sites slot ≡ a)
IsAt sites (full a) = Passed sites a 256

pub record IsRunning (m : Machine) : Type 0 where
  pub open_table : IsOpen m.sites
  pub at : (t : ℕ) → IsAt m.sites (m.threads t)

-- What one thread does leaves the others where they are.
IsAt-extension :
    (sites sites' : CallSites) (thread : Thread)
    → IsExtension sites sites'
    → IsAt sites thread
    → IsAt sites' thread
IsAt-extension sites sites' idle x a = tt
IsAt-extension sites sites' (probing b probe) x a =
    (a.0, Passed-extension sites sites' b probe x a.1)
IsAt-extension sites sites' (found b slot) x a =
    (a.0, a.1, x.kept slot (λ z. a.0 (sym a.2 ∙ z)) ∙ a.2)
IsAt-extension sites sites' (full b) x a = Passed-extension sites sites' b 256 x a

IsExtension-refl : (sites : CallSites) → IsExtension sites sites
IsExtension-refl sites = record { kept = λ slot h. refl }

moved :
    (m : Machine) (t : ℕ) (sites : CallSites) (thread : Thread)
    → IsRunning m
    → IsOpen sites
    → IsExtension m.sites sites
    → IsAt sites thread
    → IsRunning (record { sites = sites; threads = set_thread m.threads t thread })
moved m t sites thread v o x a = record {
  open_table = o;
  at = λ k. elim (Bool-cases (t == k)) [
    | inl e ↦ rw e a
    | inr e ↦ rw e (IsAt-extension m.sites sites (m.threads k) x (v.at k))
  ];
}

take_turn-IsRunning :
    (m : Machine) (t a probe : ℕ)
    → IsRunning m
    → IsAt m.sites (probing a probe)
    → IsRunning (take_turn m t a probe)
unfolding take_turn
take_turn-IsRunning m t a probe v at = elim (Bool-cases (ltb probe 256)) [
  | inr over ↦ rw over (
      moved m t m.sites (full a) v v.open_table (IsExtension-refl m.sites)
        (λ e h. at.1 e (ground arith)))
  | inl below ↦
      let slot = slot_at a probe in
      let r = try_slot m.sites a slot in
      let grown = turn-IsExtension m.sites a probe at.0 at.1 in
      let o = turn-IsOpen m.sites a probe at.0 at.1 v.open_table in
      elim (Bool-cases r.0) [
        | inl hit ↦
            rw (below, hit)
              (moved m t r.1 (found a slot) v o grown
                (at.0, omega arith, turn-found m.sites a probe at.0 at.1 hit))
        | inr miss ↦
            let passed = (turn-missed m.sites a probe at.0 at.1 miss).1 in
            rw (below, miss)
              (moved m t r.1 (probing a (probe + 1)) v o grown
                (at.0, Passed-extension m.sites r.1 a (probe + 1) grown passed))
      ]
]

advance-IsRunning : (m : Machine) (s : ℕ × ℕ) → IsRunning m → IsRunning (advance m s)
unfolding advance
advance-IsRunning m (t, address) v = go (m.threads t) refl (v.at t)
  where
    go :
        (thread : Thread)
        → m.threads t ≡ thread
        → IsAt m.sites thread
        → IsRunning (advance m (t, address))
    go idle e a = elim (Bool-cases (address == 0)) [
      | inl null ↦ rw (e, advance, null) v
      | inr nonnull ↦
          rw (e, advance, nonnull)
            (moved m t m.sites (probing address 0) v v.open_table (IsExtension-refl m.sites)
              (ground arith, λ k h. absurd (omega arith)))
    ]
    go (probing b probe) e a = rw (e, advance) (take_turn-IsRunning m t b probe v a)
    go (found b slot) e a =
        rw (e, advance) (moved m t m.sites idle v v.open_table (IsExtension-refl m.sites) tt)
    go (full b) e a =
        rw (e, advance) (moved m t m.sites idle v v.open_table (IsExtension-refl m.sites) tt)

pub run_schedule-IsRunning :
    (schedule : List (ℕ × ℕ)) (m : Machine) → IsRunning m → IsRunning (run_schedule m schedule)
unfolding run_schedule
run_schedule-IsRunning [] m v = v
run_schedule-IsRunning (s ∷ schedule) m v =
    run_schedule-IsRunning schedule (advance m s) (advance-IsRunning m s v)

-- In every interleaving of the atomic steps of any threads, from a machine in which addresses
-- stand where they are looked for, two threads that have found slots have found the same slot
-- exactly if they looked for the same address.
pub run_schedule-slots :
    (schedule : List (ℕ × ℕ)) (m : Machine)
    → IsRunning m
    → (s t a b j k : ℕ) → (run_schedule m schedule).threads s ≡ found a j
    → (run_schedule m schedule).threads t ≡ found b k
    → (a ≡ b) ↔ (j ≡ k)
run_schedule-slots schedule m v s t a b j k hs ht =
    let r = run_schedule-IsRunning schedule m v in
    let sites = (run_schedule m schedule).sites in
    let x = subst (λ (th : Thread). IsAt sites th) hs (r.at s) in
    let y = subst (λ (th : Thread). IsAt sites th) ht (r.at t) in
    (
      λ e. IsOpen-slot sites j k r.open_table x.1 y.1 (λ z. x.0 (sym x.2 ∙ z)) (x.2 ∙ e ∙ sym y.2),
      λ e. sym x.2 ∙ ap (λ (i : ℕ). address_at sites i) e ∙ y.2,
    )

-- No thread has called yet.
pub start-IsRunning :
    (sites : CallSites)
    → ((k : ℕ) → address_at sites k ≡ 0)
    → IsRunning (record { sites = sites; threads = λ t. idle })
start-IsRunning sites h = record {
  open_table = λ slot range taken. absurd (taken (h slot));
  at = λ t. tt;
}
