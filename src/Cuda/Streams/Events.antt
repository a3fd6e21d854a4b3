-- ===== src/Cuda/Streams/Events.antt =====
-- What the event calls of guest/cuda_shim/imb_cuda_shim.cpp promise: a map from valid events to
-- "has been recorded".
use isaac_metal_bridge.Base.{
  ℕ, ◌≡◌, inl, inr, Option-cases, Bool, true, false, ◌||◌, Option, none, some, lookup-put,
  lookup-erase, arith, ◌==◌, if◌then◌else◌,
}
use isaac_metal_bridge.Cuda.Result.{Outcome, done, fail, quiet, invalid_handle, not_ready}
use isaac_metal_bridge.Cuda.Registry.{is_member, object, delete_object}
use isaac_metal_bridge.Cuda.Streams.{
  Queues, EventState, mark_recorded, cu_stream_create, cu_stream_create_with_priority,
  cu_stream_destroy, cu_stream_query, cu_event_create, cu_event_record, cu_event_query,
  cu_event_synchronize, cu_event_destroy, cu_stream_wait_event,
}
use isaac_metal_bridge.Cuda.Streams.Calls.{
  Call, stream_create, stream_create_with_priority, stream_destroy, stream_query, event_create,
  event_record, event_query, event_synchronize, event_destroy, stream_wait_event, state_of, step,
}
use isaac_metal_bridge.Cuda.Streams.Laws.{IsValid}

abbrev pub EventMap : Type 0
EventMap = ℕ → Option Bool

abbrev recorded_of : Option EventState → Option Bool
recorded_of none = none
recorded_of (some state) = some state.recorded

-- The map that a state of the shim stands for.
abbrev pub view : Queues → EventMap
view q e = recorded_of (object e q.events)

abbrev marked : Option Bool → Option Bool
marked none = none
marked (some _) = some true

abbrev pub mark : ℕ → EventMap → EventMap
mark event w e = if event == e then marked (w e) else w e

-- The specification of a call; `accepted` tells whether a stream is null or valid.
abbrev pub specified : (ℕ → Bool) → Call → EventMap → EventMap
specified accepted (event_create true flags (some p)) w e = if p == e then some false else w e
specified accepted (event_record event s) w e = mark event w e
specified accepted (event_synchronize event) w e = mark event w e
specified accepted (event_destroy event) w e =
    if event == 0 then w e else if event == e then none else w e
specified accepted (stream_wait_event s event flags) w e =
    if accepted s then mark event w e else w e
specified accepted _ w e = w e

abbrev pub accepts : Queues → ℕ → Bool
accepts q s = s == 0 || is_member s q.streams

-- What a query should say of an event that the map shows so.
abbrev pub answer : Queues → Option Bool → Outcome Queues (Unit {0})
answer q none = done (fail q invalid_handle)
answer q (some false) = done (fail q not_ready)
answer q (some true) = done (quiet q)

module _ (q : Queues) (v : IsValid q) where
  mark_recorded-view :
      (event e : ℕ) (q' : Queues)
      → state_of (mark_recorded q event) ≡ some q'
      → view q' e ≡ mark event (view q) e
  unfolding mark_recorded
  mark_recorded-view event e q' h = elim (Option-cases (object event q.events)) [
    | inl dead ↦ ground arith
    | inr (state, alive) ↦
        ground (arith, lookup-put event e (record state { recorded = true }) q.events.live)
  ]

  -- From a state whose handles are the live streams and events, every stream or event call that
  -- returns changes the map from valid events to whether they are recorded as the specification
  -- says, at every event.
  pub step-view :
      (c : Call) (q' : Queues) (e : ℕ)
      → step q c ≡ some q'
      → view q' e ≡ specified (accepts q) c (view q) e
  unfolding step cu_stream_create cu_stream_create_with_priority cu_stream_destroy cu_stream_query
      cu_event_create cu_event_record cu_event_query cu_event_synchronize cu_event_destroy
      cu_stream_wait_event delete_object
  step-view (stream_create given flags p) q' e h = ground arith
  step-view (stream_create_with_priority given flags priority p) q' e h = ground arith
  step-view (stream_destroy s) q' e h = ground arith
  step-view (stream_query s) q' e h = ground arith
  step-view (event_create true flags none) q' e h = ground arith
  step-view (event_create true flags (some p)) q' e h =
      ground (arith, lookup-put p e (record { flags = flags; recorded = false }) q.events.live)
  step-view (event_create false flags p) q' e h = ground arith
  step-view (event_record event s) q' e h =
      ground (arith, mark_recorded-view event e q', v.events event)
  step-view (event_query event) q' e h = ground arith
  step-view (event_synchronize event) q' e h =
      ground (arith, mark_recorded-view event e q', v.events event)
  step-view (event_destroy event) q' e h =
      ground (arith, lookup-erase event e q.events.live, v.events event)
  step-view (stream_wait_event s event flags) q' e h =
      ground (arith, mark_recorded-view event e q', v.events event)

  -- In a state whose handles are the live streams and events, cuEventQuery changes nothing and
  -- answers invalid handle for an event that is not in the map, not ready for one that is not
  -- recorded, and success for one that is.
  pub cu_event_query-view : (e : ℕ) → cu_event_query q e ≡ answer q (view q e)
  unfolding cu_event_query
  cu_event_query-view e = ground (arith, v.events e)
