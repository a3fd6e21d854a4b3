-- ===== src/Icd/Binds/Read.antt =====
-- Reading a buffer of guest/vulkan_icd/imb_vulkan_icd.cpp after vkQueueBindSparse bound it.
use mathlib.Core.Option.{some-injective}
use isaac_metal_bridge.Base.{
  subst, ℕ, suc, ◌+◌, ◌-◌, ◌≤◌, ◌<◌, ◌≡◌, ◌≢◌, refl, ap, sym, ◌∙◌, Bool, true, false, ◌||◌, Option,
  some, List, ltb, ◌==◌, sub64, max64, arith,
}
use isaac_metal_bridge.Cuda.Registry.{Registry, object}
use isaac_metal_bridge.Icd.Result.{VkResult, success}
use isaac_metal_bridge.Icd.Driver.{Driver, BufferState, DeviceMemoryState}
use isaac_metal_bridge.Icd.Bindings.Pieces.{resolve}
use isaac_metal_bridge.Icd.Memory.{Surroundings}
use isaac_metal_bridge.Icd.Memory.Good.{IsGood}
use isaac_metal_bridge.Icd.Buffers.Transfer.{read_buffer, read_sparse}
use isaac_metal_bridge.Icd.Buffers.Gather.{IsAt}
use isaac_metal_bridge.Icd.Buffers.Rounds.{Rest, read_sparse-gathers}
use isaac_metal_bridge.Icd.Binds.{BindInfo}
use isaac_metal_bridge.Icd.Binds.Images.{SparseHost}
use isaac_metal_bridge.Icd.Binds.Perform.{queue_bind_sparse}
use isaac_metal_bridge.Icd.Binds.Outcome.{IsReady, resolved, resolved_in}
use isaac_metal_bridge.Icd.Binds.Performed.{all_at}
use isaac_metal_bridge.Icd.Binds.Bound.{queue_bind_sparse_lem}

module _ (e : Surroundings) (p : ℕ) (b : BufferState) (offset size : ℕ) (content : ℕ → ℕ)
    (d : Driver) (good : IsGood d) (live : object p d.buffers ≡ some b)
    (sparse : (b.memory == 0) ≡ true) (nonzero : p ≢ 0) (some_bytes : size ≢ 0)
    (inside : offset + size ≤ b.size) (placed : b.device_address + b.size ≤ max64) where
  as_sparse :
      (address : ℕ)
      → (ltb b.size (sub64 address b.device_address)
          || ltb (b.size - sub64 address b.device_address) size)
        ≡ false
      → read_buffer e true p address size d
        ≡ read_sparse
            (suc size)
            e
            b.sparse_bindings
            (sub64 address b.device_address)
            size
            0
            (λ i. 0)
            d
  unfolding read_buffer
  as_sparse address room =
      let given : (p == 0 || size == 0) ≡ false = ground arith in
      rw (given, live, read_buffer, room, sparse) refl

  start :
      ((i : ℕ) → i < size → IsAt d (resolve b.sparse_bindings (offset + i)) (content i))
      → Rest e b.size b.sparse_bindings
          (good.bound p b live).0
          (good.bound p b live).1
          offset
          size
          inside
          content
          0
          (λ i. 0)
          d
  start at = record {
    sound = good.memories;
    ahead = λ i le lt. at i lt;
    behind = λ i lt. absurd (ground arith);
  }

  pub read_buffer-gathers :
      ((i : ℕ) → i < size → IsAt d (resolve b.sparse_bindings (offset + i)) (content i))
      → (bytes : ℕ → ℕ) × (d' : Driver) × (read_buffer e true p (b.device_address + offset) size d
          ≡ some (success, bytes, d'))
        × ((i : ℕ) → i < size → bytes i ≡ content i)
  read_buffer-gathers at =
      let g = good.bound p b live in
      let t =
        read_sparse-gathers e b.size b.sparse_bindings g.0 g.1 offset size inside content (suc size)
          0 (λ i. 0) d (omega arith) (omega arith) (start at) in
      let address = b.device_address + offset in
      let back : sub64 address b.device_address ≡ offset = omega arith in
      let sparse_read = λ (o : ℕ). read_sparse (suc size) e b.sparse_bindings o size 0 (λ i. 0) d in
      (t.0, t.1, as_sparse address (ground arith) ∙ (ap sparse_read back ∙ t.2), t.3)

-- A call that succeeded, at one byte of one buffer.
record Result (h : SparseHost) (given : Bool) (queue : ℕ) (infos : List BindInfo) (fence : ℕ)
    (d d' : Driver) (p o : ℕ) : Type 0 where
  ready : IsReady d'
  memories : d'.memories ≡ d.memories
  view : resolved p o d' ≡ all_at p o infos (resolved p o d)

same_outcome : (s t : VkResult × Driver) → some s ≡ some t → (s.0 ≡ t.0) × (s.1 ≡ t.1)
same_outcome s t e = (ap (λ x. x.0) (some-injective s t e), ap (λ x. x.1) (some-injective s t e))

done :
    (h : SparseHost) (given : Bool) (queue : ℕ) (infos : List BindInfo) (fence : ℕ) (d : Driver)
    → IsReady d
    → (d' : Driver) → queue_bind_sparse h given queue infos fence d ≡ some (success, d')
    → (p o : ℕ) → o ≤ max64
    → Result h given queue infos fence d d' p o
done h given queue infos fence d ready d' returns p o low =
    let (r, s, e, after, memories, view, _) =
      queue_bind_sparse_lem h given queue infos fence d ready p o low in
    let both = same_outcome (r, s) (success, d') (sym e ∙ returns) in
    subst (λ (x : Driver). Result h given queue infos fence d x p o) both.1
      (record { ready = after; memories = memories; view = view both.0 })

-- Where a byte is does not depend on anything but the memories.
moved_at :
    (d d' : Driver) (found found' : Option (ℕ × ℕ)) (v : ℕ)
    → d.memories ≡ d'.memories
    → found ≡ found'
    → IsAt d found v
    → IsAt d' found' v
moved_at d d' found found' v e f at = record {
  memory = at.memory;
  place = at.place;
  state = at.state;
  resolved = sym f ∙ at.resolved;
  bound = at.bound;
  there = subst (λ (r : Registry DeviceMemoryState). object at.memory r ≡ some at.state) e at.there;
  backed = at.backed;
  alone = at.alone;
  inside = at.inside;
  value = at.value;
}

-- If in a well-formed state - as vkQueueBindSparse requires it - vkQueueBindSparse succeeds, then
-- a read of a range inside a buffer that is not null and not bound as a whole, at addresses that
-- do not wrap, succeeds and gives at each byte the byte of the memory that the binds lead it to,
-- provided that they lead every byte of the range to a memory that has its bytes and is not shared
-- through a file.
pub queue_bind_sparse-read :
    (h : SparseHost) (given : Bool) (queue : ℕ) (infos : List BindInfo) (fence : ℕ) (d : Driver)
    (d' : Driver) (e : Surroundings) (p : ℕ) (b : BufferState) (offset size : ℕ) (content : ℕ → ℕ)
    → IsReady d
    → queue_bind_sparse h given queue infos fence d ≡ some (success, d')
    → object p d'.buffers ≡ some b
    → b.memory ≡ 0
    → p ≢ 0
    → size ≢ 0
    → offset + size ≤ b.size
    → b.device_address + b.size ≤ max64
    → ((i : ℕ)
        → i < size
        → IsAt d (all_at p (offset + i) infos (resolved p (offset + i) d)) (content i))
    → (bytes : ℕ → ℕ) × (d'' : Driver) × (read_buffer e true p (b.device_address + offset) size d'
        ≡ some (success, bytes, d''))
      × ((i : ℕ) → i < size → bytes i ≡ content i)
queue_bind_sparse-read h given queue infos fence d d' e p b offset size content ready returns live
      sparse nonzero some_bytes inside placed at =
    read_buffer-gathers e p b offset size content d' after.good live (ground arith) nonzero
      some_bytes inside placed at'
  where
    result : (o : ℕ) → o ≤ max64 → Result h given queue infos fence d d' p o
    result o low = done h given queue infos fence d ready d' returns p o low

    after : IsReady d'
    after = (result 0 (omega arith)).ready

    at' : (i : ℕ) → i < size → IsAt d' (resolve b.sparse_bindings (offset + i)) (content i)
    at' i lt =
        let r = result (offset + i) (omega arith) in
        let found = sym r.view ∙ ap (resolved_in (offset + i)) live in
        moved_at d d' _ _ (content i) (sym r.memories) found (at i lt)
