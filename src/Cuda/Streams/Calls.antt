-- ===== src/Cuda/Streams/Calls.antt =====
-- The stream and event calls of guest/cuda_shim/imb_cuda_shim.cpp as one step function, for
-- histories of calls.
use isaac_metal_bridge.Base.{ℕ, ℤ, Bool, Option, none, some, List, [], ◌∷◌}
use isaac_metal_bridge.Cuda.Result.{Outcome, done, fault}
use isaac_metal_bridge.Cuda.Streams.{
  Queues, cu_stream_create, cu_stream_create_with_priority, cu_stream_destroy, cu_stream_query,
  cu_event_create, cu_event_record, cu_event_query, cu_event_synchronize, cu_event_destroy,
  cu_stream_wait_event,
}

pub data Call : Type 0 where
  stream_create : Bool → ℕ → Option ℕ → Call
  stream_create_with_priority : Bool → ℕ → ℤ → Option ℕ → Call
  stream_destroy : ℕ → Call
  stream_query : ℕ → Call
  event_create : Bool → ℕ → Option ℕ → Call
  event_record : ℕ → ℕ → Call
  event_query : ℕ → Call
  event_synchronize : ℕ → Call
  event_destroy : ℕ → Call
  stream_wait_event : ℕ → ℕ → ℕ → Call

-- The state after a call, `none` after undefined behaviour.
abbrev pub state_of {ℓ} : {A : Type ℓ} → Outcome Queues A → Option Queues
state_of (done r) = some r.state
state_of fault = none

unfoldable pub step : Queues → Call → Option Queues
step q (stream_create given flags p) = some (cu_stream_create q given flags p).state
step q (stream_create_with_priority given flags priority p) =
    state_of (cu_stream_create_with_priority q given flags priority p)
step q (stream_destroy s) = state_of (cu_stream_destroy q s)
step q (stream_query s) = some (cu_stream_query q s).state
step q (event_create given flags p) = some (cu_event_create q given flags p).state
step q (event_record e s) = state_of (cu_event_record q e s)
step q (event_query e) = state_of (cu_event_query q e)
step q (event_synchronize e) = state_of (cu_event_synchronize q e)
step q (event_destroy e) = state_of (cu_event_destroy q e)
step q (stream_wait_event s e flags) = state_of (cu_stream_wait_event q s e flags)

unfoldable pub run : Queues → List Call → Option Queues
run q [] = some q
run q (c ∷ cs) = elim (step q c) [ none ↦ none | some q' ↦ run q' cs ]
