-- ===== src/Cuda/Contexts/Current.antt =====
-- Histories of the calls on the current context of guest/cuda_shim/imb_cuda_shim.cpp.
use isaac_metal_bridge.Base.{
  ℕ, ◌≡◌, refl, subst, ◌||◌, Bool, true, false, List, [], ◌∷◌, some, ◌==◌, if◌then◌else◌, arith,
}
use isaac_metal_bridge.Cuda.Contexts.{
  Contexts, cu_ctx_set_current, cu_ctx_create, cu_ctx_detach, cu_ctx_push_current,
  cu_ctx_pop_current, cu_ctx_destroy, cu_device_primary_ctx_reset,
}

-- The calls that change the current context.
pub data Call : Type 0 where
  set_current : ℕ → Call
  create : Bool → Bool → Call
  detach : ℕ → Call
  push_current : ℕ → Call
  pop_current : Bool → Call
  destroy : ℕ → Call
  reset : Bool → Call

unfoldable pub step : Contexts → Call → Contexts
step s (set_current c) = (cu_ctx_set_current s c).state
step s (create given valid) = (cu_ctx_create s given valid).state
step s (detach c) = (cu_ctx_detach s c).state
step s (push_current c) = (cu_ctx_push_current s c).state
step s (pop_current given) = (cu_ctx_pop_current s given).state
step s (destroy c) = (cu_ctx_destroy s c).state
step s (reset valid) = (cu_device_primary_ctx_reset s valid).state

unfoldable pub run : Contexts → List Call → Contexts
run s [] = s
run s (call ∷ calls) = run (step s call) calls

-- The specification: what a call leaves of the set of contexts that may be current, which are null,
-- the primary one and those made current and not destroyed or detached since.
unfoldable pub may_be_current : ℕ → (ℕ → Bool) → Call → ℕ → Bool
may_be_current primary before (set_current c) q = c == q
may_be_current primary before (create given valid) q = primary == q || before q
may_be_current primary before (detach c) q =
    if q == 0 then true else if c == q then false else before q
may_be_current primary before (push_current c) q = c == q
may_be_current primary before (pop_current given) q = q == 0 || before q
may_be_current primary before (destroy c) q =
    if q == 0 then true else if c == q then false else before q
may_be_current primary before (reset valid) q = q == 0 || before q

unfoldable pub may_be_current_after : ℕ → (ℕ → Bool) → List Call → ℕ → Bool
may_be_current_after primary before [] = before
may_be_current_after primary before (call ∷ calls) =
    may_be_current_after primary (may_be_current primary before call) calls

step-current :
    (s : Contexts) (before : ℕ → Bool) (call : Call)
    → before s.current ≡ true
    → may_be_current s.primary before call (step s call).current ≡ true
unfolding step may_be_current cu_ctx_set_current cu_ctx_create cu_ctx_detach cu_ctx_push_current
    cu_ctx_pop_current cu_ctx_destroy cu_device_primary_ctx_reset
step-current s before (set_current c) h = ground arith
step-current s before (create given valid) h = ground arith
step-current s before (detach c) h = ground arith
step-current s before (push_current c) h = ground arith
step-current s before (pop_current given) h = ground arith
step-current s before (destroy c) h = ground arith
step-current s before (reset valid) h = ground arith

step-primary : (s : Contexts) (call : Call) → (step s call).primary ≡ s.primary
unfolding step cu_ctx_set_current cu_ctx_create cu_ctx_detach cu_ctx_push_current cu_ctx_pop_current
    cu_ctx_destroy cu_device_primary_ctx_reset
step-primary s (set_current c) = ground arith
step-primary s (create given valid) = ground arith
step-primary s (detach c) = ground arith
step-primary s (push_current c) = ground arith
step-primary s (pop_current given) = ground arith
step-primary s (destroy c) = ground arith
step-primary s (reset valid) = ground arith

-- After any history of the calls on the current context, starting from a set that has the current
-- context, the current context is in the set that the specification computes: setting and pushing
-- leave one context, creating adds the primary one, popping and resetting add null, and destroying
-- and detaching take the context away and add null.
pub run-current :
    (calls : List Call) (s : Contexts) (before : ℕ → Bool)
    → before s.current ≡ true
    → may_be_current_after s.primary before calls (run s calls).current ≡ true
unfolding run may_be_current_after
run-current [] s before h = h
run-current (call ∷ calls) s before h =
    subst
      (λ (p : ℕ).
        may_be_current_after p (may_be_current s.primary before call) calls
          (run (step s call) calls).current
        ≡ true)
      (step-primary s call)
      (run-current calls (step s call) (may_be_current s.primary before call)
        (step-current s before call h))

-- After two contexts are pushed, the first pop hands out the second one and the next pop hands out
-- null: the current context is not a stack.
pub cu_ctx_push_current-pop_current :
    (s : Contexts) (p q : ℕ)
    → (let pushed = (cu_ctx_push_current (cu_ctx_push_current s p).state q).state in
        let first = cu_ctx_pop_current pushed true in
        (first.out ≡ some q) × ((cu_ctx_pop_current first.state true).out ≡ some 0))
unfolding cu_ctx_push_current cu_ctx_pop_current
cu_ctx_push_current-pop_current s p q = (refl, refl)
