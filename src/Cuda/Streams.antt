-- ===== src/Cuda/Streams.antt =====
-- Streams and events of guest/cuda_shim/imb_cuda_shim.cpp. What `new (std::nothrow)` returns is an
-- argument of the call; a null handle is 0. Each call is one critical section.
pub mod Calls
pub mod Laws
pub mod Events
use isaac_metal_bridge.Base.{
  ℕ, ℤ, pos, Bool, true, false, not, ◌&&◌, Option, none, some, ◌==◌, if◌then◌else◌,
}
use isaac_metal_bridge.Cuda.Result.{
  Reply, Outcome, done, fault, fail, succeed, quiet, success, invalid_value, out_of_memory,
  invalid_handle, not_ready,
}
use isaac_metal_bridge.Cuda.Registry.{
  Registry, is_member, object, new_object, enrol, withdraw, delete_object, store_object,
}

pub record StreamState : Type 0 where
  pub flags : ℕ
  pub priority : ℤ

pub record EventState : Type 0 where
  pub flags : ℕ
  pub recorded : Bool

-- gStreams and gEvents.
pub record Queues : Type 0 where
  pub streams : Registry StreamState
  pub events : Registry EventState

abbrev pub with_streams : Queues → Registry StreamState → Queues
with_streams q r = record q { streams = r }

abbrev pub with_events : Queues → Registry EventState → Queues
with_events q r = record q { events = r }

unfoldable pub cu_stream_create : Queues → Bool → ℕ → Option ℕ → Reply Queues ℕ
cu_stream_create q given flags allocation =
    if not given then fail q invalid_value else elim allocation [
      | none ↦ fail q out_of_memory
      | some p ↦
          let state : StreamState = record { flags = flags; priority = pos 0 } in
          succeed (with_streams q (enrol p (new_object p state q.streams))) p
    ]

-- The write of the priority after the lock is released.
unfoldable pub set_priority : Queues → ℕ → ℤ → Outcome Queues ℕ
set_priority q p priority = elim (object p q.streams) [
  | none ↦ fault
  | some state ↦
      done (
        succeed (with_streams q (store_object p (record state { priority = priority }) q.streams))
          p)
]

unfoldable pub cu_stream_create_with_priority : Queues → Bool → ℕ → ℤ → Option ℕ → Outcome Queues ℕ
unfolding cu_stream_create set_priority
cu_stream_create_with_priority q given flags priority allocation =
    let r = cu_stream_create q given flags allocation in
    elim r.out [ none ↦ done r | some p ↦ set_priority r.state p priority ]

unfoldable pub cu_stream_destroy : Queues → ℕ → Outcome Queues (Unit {0})
cu_stream_destroy q stream =
    if stream == 0
    then done (quiet q)
    else if not (is_member stream q.streams)
    then done (fail q invalid_handle)
    else elim (delete_object stream (withdraw stream q.streams)) [
      | none ↦ fault
      | some r ↦ done (quiet (with_streams q r))
    ]

unfoldable pub cu_stream_query : Queues → ℕ → Reply Queues (Unit {0})
cu_stream_query q stream =
    if stream == 0
    then quiet q
    else if is_member stream q.streams
    then quiet q
    else fail q invalid_handle

unfoldable pub cu_stream_synchronize : Queues → ℕ → Reply Queues (Unit {0})
unfolding cu_stream_query
cu_stream_synchronize q stream = cu_stream_query q stream

unfoldable pub cu_event_create : Queues → Bool → ℕ → Option ℕ → Reply Queues ℕ
cu_event_create q given flags allocation =
    if not given then fail q invalid_value else elim allocation [
      | none ↦ fail q out_of_memory
      | some p ↦
          let state : EventState = record { flags = flags; recorded = false } in
          succeed (with_events q (enrol p (new_object p state q.events))) p
    ]

-- `state->recorded = true`.
unfoldable pub mark_recorded : Queues → ℕ → Outcome Queues (Unit {0})
mark_recorded q event = elim (object event q.events) [
  | none ↦ fault
  | some state ↦
      done (quiet (with_events q (store_object event (record state { recorded = true }) q.events)))
]

unfoldable pub cu_event_record : Queues → ℕ → ℕ → Outcome Queues (Unit {0})
unfolding mark_recorded
cu_event_record q event stream =
    if not (is_member event q.events) then done (fail q invalid_handle) else mark_recorded q event

unfoldable pub cu_event_query : Queues → ℕ → Outcome Queues (Unit {0})
cu_event_query q event =
    if not (is_member event q.events)
    then done (fail q invalid_handle)
    else elim (object event q.events) [
      | none ↦ fault
      | some state ↦ done (if state.recorded then quiet q else fail q not_ready)
    ]

unfoldable pub cu_event_synchronize : Queues → ℕ → Outcome Queues (Unit {0})
unfolding mark_recorded
cu_event_synchronize q event =
    if not (is_member event q.events) then done (fail q invalid_handle) else mark_recorded q event

unfoldable pub cu_event_destroy : Queues → ℕ → Outcome Queues (Unit {0})
cu_event_destroy q event =
    if event == 0
    then done (quiet q)
    else if not (is_member event q.events)
    then done (fail q invalid_handle)
    else elim (delete_object event (withdraw event q.events)) [
      | none ↦ fault
      | some r ↦ done (quiet (with_events q r))
    ]

unfoldable pub cu_stream_wait_event : Queues → ℕ → ℕ → ℕ → Outcome Queues (Unit {0})
unfolding cu_event_synchronize
cu_stream_wait_event q stream event flags =
    if not (stream == 0) && not (is_member stream q.streams)
    then done (fail q invalid_handle)
    else cu_event_synchronize q event
