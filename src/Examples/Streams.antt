-- ===== src/Examples/Streams.antt =====
-- Streams and events of guest/cuda_shim/imb_cuda_shim.cpp at concrete inputs.
use isaac_metal_bridge.Base.{◌≡◌, refl, true, some, [], ◌∷◌}
use isaac_metal_bridge.Cuda.Streams.{Queues, cu_event_create}
use isaac_metal_bridge.Cuda.Streams.Calls.{
  step, run, event_create, event_record, event_query, event_destroy, stream_create, stream_destroy,
}
use isaac_metal_bridge.Cuda.Streams.Laws.{IsValid, run-total, start, start-IsValid}
use isaac_metal_bridge.Cuda.Streams.Events.{view, specified, accepts, step-view}

run-total_example :
    (q : Queues) × (run start (
        stream_create true 0 (some 16)
        ∷ event_create true 0 (some 32)
        ∷ event_record 32 16
        ∷ event_destroy 32
        ∷ event_query 32
        ∷ stream_destroy 16
        ∷ [])
      ≡ some q)
    × IsValid q
run-total_example =
    run-total
      (stream_create true 0 (some 16)
        ∷ event_create true 0 (some 32)
        ∷ event_record 32 16
        ∷ event_destroy 32
        ∷ event_query 32
        ∷ stream_destroy 16
        ∷ [])
      start start-IsValid

step-view_example :
    view (cu_event_create start true 0 (some 32)).state 32
    ≡ specified (accepts start) (event_create true 0 (some 32)) (view start) 32
step-view_example =
    step-view start start-IsValid (event_create true 0 (some 32))
      (cu_event_create start true 0 (some 32)).state 32 (unfold step in refl)
