-- ===== src/Cuda/Streams/Laws.antt =====
-- Handles of streams and events, in guest/cuda_shim/imb_cuda_shim.cpp: which are valid, and what
-- an event reports.
use isaac_metal_bridge.Base.{
  ℕ, pos, ◌≡◌, refl, inl, inr, Option-cases, true, false, none, some, List, [], ◌∷◌, put, lookup,
  contains, lookup-put, lookup-erase, contains-insert, contains-remove, arith,
}
use isaac_metal_bridge.Cuda.Registry.{empty, object, is_member, is_live, IsSound, delete_object}
use isaac_metal_bridge.Cuda.Streams.{
  Queues, StreamState, mark_recorded, cu_stream_create, cu_stream_create_with_priority,
  cu_stream_destroy, cu_stream_query, cu_event_create, cu_event_record, cu_event_query,
  cu_event_synchronize, cu_event_destroy, cu_stream_wait_event,
}
use isaac_metal_bridge.Cuda.Streams.Calls.{
  Call, stream_create, stream_create_with_priority, stream_destroy, stream_query, event_create,
  event_record, event_query, event_synchronize, event_destroy, stream_wait_event, state_of, step,
  run,
}

pub record IsValid (q : Queues) : Type 0 where
  pub streams : IsSound q.streams
  pub events : IsSound q.events

module _ (q : Queues) (v : IsValid q) where
  -- No call on streams or events touches memory that is not live.
  step-ne_none : (c : Call) → step q c ≡ none → ⊥
  unfolding step cu_stream_create cu_stream_create_with_priority cu_stream_destroy cu_event_record
      cu_event_query cu_event_synchronize cu_event_destroy cu_stream_wait_event delete_object
  step-ne_none (stream_create given flags p) h = cc
  step-ne_none (stream_create_with_priority given flags priority none) h = ground arith
  step-ne_none (stream_create_with_priority given flags priority (some p)) h =
      ground (arith, lookup-put p p (record { flags = flags; priority = pos 0 }) q.streams.live)
  step-ne_none (stream_destroy s) h = ground (arith, v.streams s)
  step-ne_none (stream_query s) h = cc
  step-ne_none (event_create given flags p) h = cc
  step-ne_none (event_record e s) h = ground (arith, v.events e)
  step-ne_none (event_query e) h = ground (arith, v.events e)
  step-ne_none (event_synchronize e) h = ground (arith, v.events e)
  step-ne_none (event_destroy e) h = ground (arith, v.events e)
  step-ne_none (stream_wait_event s e flags) h = ground (arith, v.events e)

  step-streams : (c : Call) (q' : Queues) → step q c ≡ some q' → IsSound q'.streams
  unfolding step cu_stream_create cu_stream_create_with_priority cu_stream_destroy cu_stream_query
      cu_event_create cu_event_record cu_event_query cu_event_synchronize cu_event_destroy
      cu_stream_wait_event delete_object
  step-streams (stream_create given flags none) q' e p = ground (arith, v.streams p)
  step-streams (stream_create given flags (some a)) q' e p = ground (
    arith,
    lookup-put a p (record { flags = flags; priority = pos 0 }) q.streams.live,
    contains-insert a p q.streams.members,
    v.streams p,
  )
  step-streams (stream_create_with_priority given flags priority none) q' e p =
      ground (arith, v.streams p)
  step-streams (stream_create_with_priority given flags priority (some a)) q' e p =
      let made : StreamState = record { flags = flags; priority = pos 0 } in
      let changed : StreamState = record { flags = flags; priority = priority } in
      ground (
        arith,
        lookup-put a p made q.streams.live,
        lookup-put a a made q.streams.live,
        lookup-put a p changed (put a made q.streams.live),
        contains-insert a p q.streams.members,
        v.streams p,
      )
  step-streams (stream_destroy s) q' e p =
      ground
        (arith, lookup-erase s p q.streams.live, contains-remove s p q.streams.members, v.streams p)
  step-streams (stream_query s) q' e p = ground (arith, v.streams p)
  step-streams (event_create given flags a) q' e p = ground (arith, v.streams p)
  step-streams (event_record ev s) q' e p = ground (arith, v.streams p)
  step-streams (event_query ev) q' e p = ground (arith, v.streams p)
  step-streams (event_synchronize ev) q' e p = ground (arith, v.streams p)
  step-streams (event_destroy ev) q' e p = ground (arith, v.streams p)
  step-streams (stream_wait_event s ev flags) q' e p = ground (arith, v.streams p)

  mark_recorded-events :
      (event p : ℕ) (q' : Queues)
      → state_of (mark_recorded q event) ≡ some q'
      → is_member p q'.events ≡ is_live p q'.events
  unfolding mark_recorded
  mark_recorded-events event p q' e = elim (Option-cases (object event q.events)) [
    | inl dead ↦ ground arith
    | inr (state, alive) ↦ ground (
      arith,
      lookup-put event p (record state { recorded = true }) q.events.live,
      v.events p,
      v.events event,
    )
  ]

  step-events : (c : Call) (q' : Queues) → step q c ≡ some q' → IsSound q'.events
  unfolding step cu_stream_create cu_stream_create_with_priority cu_stream_destroy cu_stream_query
      cu_event_create cu_event_record cu_event_query cu_event_synchronize cu_event_destroy
      cu_stream_wait_event delete_object
  step-events (stream_create given flags a) q' e p = ground (arith, v.events p)
  step-events (stream_create_with_priority given flags priority a) q' e p =
      ground (arith, v.events p)
  step-events (stream_destroy s) q' e p = ground (arith, v.events p)
  step-events (stream_query s) q' e p = ground (arith, v.events p)
  step-events (event_create given flags none) q' e p = ground (arith, v.events p)
  step-events (event_create given flags (some a)) q' e p = ground (
    arith,
    lookup-put a p (record { flags = flags; recorded = false }) q.events.live,
    contains-insert a p q.events.members,
    v.events p,
  )
  step-events (event_record ev s) q' e p = ground (arith, mark_recorded-events ev p q', v.events p)
  step-events (event_query ev) q' e p = ground (arith, v.events p)
  step-events (event_synchronize ev) q' e p =
      ground (arith, mark_recorded-events ev p q', v.events p)
  step-events (event_destroy ev) q' e p =
      ground
        (arith, lookup-erase ev p q.events.live, contains-remove ev p q.events.members, v.events p)
  step-events (stream_wait_event s ev flags) q' e p =
      ground (arith, mark_recorded-events ev p q', v.events p)

-- From a state whose handles are the live streams and events, every history of stream and event
-- calls returns, without an access to or a deletion of a dead object, and ends in such a state,
-- whatever the allocator answers and whatever handles are passed.
pub run-total :
    (cs : List Call) (q : Queues) → IsValid q → (q' : Queues) × (run q cs ≡ some q') × IsValid q'
unfolding run
run-total [] q v = (q, refl, v)
run-total (c ∷ cs) q v = elim (Option-cases (step q c)) [
  | inl e ↦ absurd (step-ne_none q v c e)
  | inr (q', e) ↦
      rw (e, run)
        (run-total cs q'
          (record { streams = step-streams q v c q' e; events = step-events q v c q' e }))
]

abbrev pub start : Queues
start = record { streams = empty; events = empty }

pub start-IsValid : IsValid start
unfolding lookup contains
start-IsValid = record { streams = λ p. refl; events = λ p. refl }
