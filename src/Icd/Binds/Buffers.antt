-- ===== src/Icd/Binds/Buffers.antt =====
-- Binding buffers in vkQueueBindSparse of guest/vulkan_icd/imb_vulkan_icd.cpp.
use isaac_metal_bridge.Base.{
  sym, ap, ℕ, ◌≤◌, ◌≡◌, refl, ◌∙◌, inl, inr, Bool-cases, Bool, true, not, ◌&&◌, ◌||◌, some, ◌==◌,
  max64, lookup-put, arith, bit_and, if◌then◌else◌,
}
use isaac_metal_bridge.Cuda.Registry.{object, store_object, store_object-IsSound}
use isaac_metal_bridge.Icd.Result.{success, out_of_host_memory}
use isaac_metal_bridge.Icd.Bindings.{SparseMemoryBind, replace_sparse_buffer_binding}
use isaac_metal_bridge.Icd.Bindings.Pieces.{resolve}
use isaac_metal_bridge.Icd.Bindings.View.{
  IsBind, rebound, replace_sparse_buffer_binding-IsBound, replace_sparse_buffer_binding-resolve,
}
use isaac_metal_bridge.Icd.Driver.{Driver, BufferState, Enums}
use isaac_metal_bridge.Icd.Memory.Good.{IsGood}
use isaac_metal_bridge.Icd.Buffers.Objects.{GoodBuffer, buffers-IsGood, stored_buffer}
use isaac_metal_bridge.Icd.Binds.{BufferBinds, check_buffer_bind, check_buffer, check_all, is_empty}
use isaac_metal_bridge.Icd.Binds.Images.{SparseHost}
use isaac_metal_bridge.Icd.Binds.Perform.{store_buffer, bind_buffer, bind_buffers}
use isaac_metal_bridge.Icd.Binds.Outcome.{
  IsReady, Stays-refl, stored-Stays, Keeps, Keeps-refl, resolved, resolved_in, Change, folded, Does,
  each_step-Does, and_check-both,
}
use isaac_metal_bridge.Icd.Binds.Backed.{replace_sparse_buffer_binding-AllBacked}
use isaac_metal_bridge.Icd.Binds.Checked.{
  check_object-passed, check_buffer_bind-IsBind, check_buffer_bind-member,
}

abbrev rebind : BufferState → SparseMemoryBind → BufferState
rebind b bind = record b { sparse_bindings = replace_sparse_buffer_binding b.sparse_bindings bind }

abbrev allows : Enums → ℕ → BufferBinds → BufferState → Bool
allows vk device x b =
    b.device == device
    && (not (bit_and b.flags vk.buffer_create_sparse_binding == 0) && (is_empty x.binds || x.given))

-- The specification of a bind of a buffer: what becomes of a byte of another one.
abbrev pub bound_at : ℕ → ℕ → ℕ → SparseMemoryBind → Change
bound_at q o p bind v = if p == q then rebound bind (λ _. v) o else v

store_buffer-Keeps :
    (p : ℕ) (b b' : BufferState) (d : Driver)
    → IsReady d
    → object p d.buffers ≡ some b
    → b'.size ≡ b.size
    → GoodBuffer d.memories.members b'
    → Keeps d (store_buffer p b' d)
store_buffer-Keeps p b b' d r h e good = record {
  ready = record {
    good =
        buffers-IsGood d (store_object p b' d.buffers) d.next_buffer_device_address r.good
          (store_object-IsSound d.buffers p b' (ground arith) r.good.buffers)
          (stored_buffer p b' d.buffers d.memories.members good r.good.bound);
    images = r.images;
    semaphores = r.semaphores;
    fences = r.fences;
    solid = r.solid;
  };
  memories = refl;
  semaphores = refl;
  fences = refl;
  sizes = stored-Stays (λ b. b.size) p b b' d.buffers h e;
  tiles = Stays-refl (λ i. i.sparse_tile_bytes) d.images;
}

module _ (q o : ℕ) (low : o ≤ max64) where
  rebound-view :
      (p : ℕ) (b : BufferState) (bind : SparseMemoryBind) (d : Driver)
      → object p d.buffers ≡ some b
      → resolve (rebind b bind).sparse_bindings o ≡ rebound bind (resolve b.sparse_bindings) o
      → resolved q o (store_buffer p (rebind b bind) d) ≡ bound_at q o p bind (resolved q o d)
  rebound-view p b bind d h e =
      let stored = lookup-put p q (rebind b bind) d.buffers.live in
      elim (Bool-cases (p == q)) [
        | inl same ↦
            let path : p ≡ q = ground arith in
            let here : object q d.buffers ≡ some b = rw (sym path) h in
            let there : object q (store_object p (rebind b bind) d.buffers) ≡ some (rebind b bind) =
              ground (arith, stored) in
            let bound : rebound bind (λ _. resolved q o d) o
                ≡ bound_at q o p bind (resolved q o d) =
              rw same refl in
            ap (resolved_in o) there
            ∙ (e ∙ (ap (λ v. rebound bind (λ _. v) o) (sym (ap (resolved_in o) here)) ∙ bound))
        | inr other ↦
            let there : object q (store_object p (rebind b bind) d.buffers) ≡ object q d.buffers =
              ground (arith, stored) in
            let bound : resolved q o d ≡ bound_at q o p bind (resolved q o d) = rw other refl in
            ap (resolved_in o) there ∙ bound
      ]

  pub bind_buffer-Does :
      (h : SparseHost) (device p : ℕ) (start : Driver) (b0 : BufferState) (bind : SparseMemoryBind)
      → IsGood start
      → object p start.buffers ≡ some b0
      → check_buffer_bind h.vk device start b0 bind ≡ some true
      → (d : Driver) → Keeps start d
      → Does q o (bound_at q o p bind) d (bind_buffer h p bind d)
  unfolding bind_buffer
  bind_buffer-Does h device p start b0 bind g live check d k =
      let (b, here, size) = k.sizes p b0 live in
      let (small, bound, backed) = k.ready.good.bound p b here in
      let fits : IsBind b.size bind =
        rw size (check_buffer_bind-IsBind h.vk device start g b0 bind check) in
      let good : GoodBuffer d.memories.members (rebind b bind) = (
        small,
        replace_sparse_buffer_binding-IsBound b.size bind b.sparse_bindings small fits bound,
        replace_sparse_buffer_binding-AllBacked d.memories.members b.sparse_bindings bind
            (λ e. rw k.memories (check_buffer_bind-member h.vk device start g b0 bind check e))
            backed,
      ) in
      elim (Bool-cases (h.grows p d)) [
        | inl grows ↦ record {
          result = success;
          state = store_buffer p (rebind b bind) d;
          returns = rw (here, grows, bind_buffer) refl;
          keeps = store_buffer-Keeps p b (rebind b bind) d k.ready here refl good;
          view = λ _. rebound-view p b bind d here (
              replace_sparse_buffer_binding-resolve b.size bind b.sparse_bindings small fits bound o
                low);
          checked = λ e. ground arith;
        }
        | inr full ↦ record {
          result = out_of_host_memory;
          state = d;
          returns = rw (here, full, bind_buffer) refl;
          keeps = Keeps-refl d k.ready;
          view = λ e. absurd (ground arith);
          checked = λ e. ground arith;
        }
      ]

  pub bind_buffers-Does :
      (h : SparseHost) (device : ℕ) (start : Driver) (x : BufferBinds)
      → IsGood start
      → check_buffer h.vk device start x ≡ some true
      → (d : Driver) → Keeps start d
      → Does q o (folded (bound_at q o x.target) x.binds) d (bind_buffers h x d)
  unfolding bind_buffers check_buffer
  bind_buffers-Does h device start x g check d k =
      let (member, b, live, passed) = check_object-passed start.buffers x.target _ check in
      let binds =
        and_check-both (some (allows h.vk device x b))
          (check_all (check_buffer_bind h.vk device start b) x.binds) passed in
      each_step-Does q o (check_buffer_bind h.vk device start b) (bind_buffer h x.target)
        (bound_at q o x.target) start
        (λ bind c d' l. bind_buffer-Does h device x.target start b bind g live c d' l) x.binds
        binds.1 d k
