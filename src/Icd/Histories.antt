-- ===== src/Icd/Histories.antt =====
-- Histories of the memory and buffer calls of guest/vulkan_icd/imb_vulkan_icd.cpp.
use isaac_metal_bridge.Base.{
  ℕ, ◌≤◌, ◌≡◌, refl, ◌⊎◌, ℤ, Bool, true, Option, none, some, List, [], ◌∷◌, max64, arith,
}
use isaac_metal_bridge.Cuda.Registry.{is_member, IsSound}
use isaac_metal_bridge.Icd.Result.{Answer}
use isaac_metal_bridge.Icd.Driver.{Driver, Enums, Step}
use isaac_metal_bridge.Icd.Memory.{Surroundings}
use isaac_metal_bridge.Icd.Memory.Maps.{
  MappedMemoryRange, map_memory, unmap_memory, flush_mapped_memory_ranges,
  invalidate_mapped_memory_ranges,
}
use isaac_metal_bridge.Icd.Memory.Allocate.{AllocateInfo, allocate_memory, free_memory}
use isaac_metal_bridge.Icd.Memory.Export.{GetFdInfo, get_memory_fd}
use isaac_metal_bridge.Icd.Memory.Good.{IsGood, Runs}
use isaac_metal_bridge.Icd.Memory.Calls.{unmap_memory-Ends}
use isaac_metal_bridge.Icd.Memory.Mapped.{
  Gives, map_memory-Gives, flush_mapped_memory_ranges-Runs, invalidate_mapped_memory_ranges-Runs,
}
use isaac_metal_bridge.Icd.Memory.Objects.{allocate_memory-Gives}
use isaac_metal_bridge.Icd.Memory.Free.{free_memory-IsGood}
use isaac_metal_bridge.Icd.Memory.Share.{get_memory_fd-Gives}
use isaac_metal_bridge.Icd.Buffers.{
  BufferInfo, BindBufferInfo, create_buffer, destroy_buffer, bind_buffer_memory2,
}
use isaac_metal_bridge.Icd.Buffers.Transfer.{BufferCopy, copy_buffer_bytes, execute_buffer_fill}
use isaac_metal_bridge.Icd.Buffers.Objects.{
  Keeps, create_buffer-IsGood, destroy_buffer-IsGood, bind_buffer_memory2-Keeps,
}
use isaac_metal_bridge.Icd.Buffers.Writes.{execute_buffer_fill-Runs}
use isaac_metal_bridge.Icd.Buffers.Copies.{copy_buffer_bytes-Runs}
use isaac_metal_bridge.Icd.Binds.{BindInfo}
use isaac_metal_bridge.Icd.Binds.Images.{SparseHost}
use isaac_metal_bridge.Icd.Binds.Perform.{queue_bind_sparse}
use isaac_metal_bridge.Icd.Binds.Outcome.{IsReady, IsSolid}
use isaac_metal_bridge.Icd.Binds.Bound.{queue_bind_sparse_lem}

-- A call with what the system and the host answer to it.
pub data Call : Type 0 where
  allocate : Bool → ℕ → AllocateInfo → Option ℕ → Option ℕ → Option ℤ → Call
  export_fd : Bool → ℕ → GetFdInfo → Option ℕ → Bool → Option ℕ → Call
  free : Bool → ℕ → Call
  map : Bool → ℕ → ℕ → ℕ → Call
  unmap : ℕ → Call
  flush : Bool → List MappedMemoryRange → Call
  invalidate : Bool → List MappedMemoryRange → Call
  create : Bool → ℕ → BufferInfo → Option ℕ → Call
  destroy : ℕ → Call
  bind : Bool → ℕ → List BindBufferInfo → Call
  copy : Bool → ℕ → ℕ → BufferCopy → Call
  fill : ℕ → ℕ → ℕ → ℕ → Call
  bind_sparse : SparseHost → Bool → ℕ → List BindInfo → ℕ → Call

abbrev state_of : Option (Answer Driver ℕ) → Option Driver
state_of none = none
state_of (some a) = some a.state

abbrev state_after : Step → Option Driver
state_after none = none
state_after (some (r, d)) = some d

unfoldable pub perform : Enums → Surroundings → Call → Driver → Option Driver
perform vk e (allocate given device info limit allocation status) d =
    state_of (allocate_memory e vk given device info limit allocation status d)
perform vk e (export_fd given device info file truncates output) d =
    state_of (get_memory_fd e vk given device info file truncates output d)
perform vk e (free bridge p) d = free_memory bridge p d
perform vk e (map given p offset size) d = state_of (map_memory e given p offset size d)
perform vk e (unmap p) d = unmap_memory e p d
perform vk e (flush given ranges) d = state_after (flush_mapped_memory_ranges e given ranges d)
perform vk e (invalidate given ranges) d =
    state_after (invalidate_mapped_memory_ranges e given ranges d)
perform vk e (create given device info allocation) d =
    some (create_buffer vk given device info allocation d).state
perform vk e (destroy p) d = destroy_buffer p d
perform vk e (bind given device infos) d = state_after (bind_buffer_memory2 given device infos d)
perform vk e (copy resizes source destination region) d =
    state_after (copy_buffer_bytes e resizes source destination region d)
perform vk e (fill p offset size value) d =
    state_after (execute_buffer_fill e p offset size value d)
perform vk e (bind_sparse h given queue infos fence) d =
    state_after (queue_bind_sparse h given queue infos fence d)

-- What is relied on: sizes are 64-bit numbers, and a recorded copy or fill is carried out while its
-- buffers are there.
abbrev pub IsCall : Call → Driver → Type 0
IsCall (allocate given device info limit allocation status) d = info.allocation_size ≤ max64
IsCall (create given device info allocation) d = info.size ≤ max64
IsCall (copy resizes source destination region) d =
    ((source ≡ 0) ⊎ (is_member source d.buffers ≡ true))
    × ((destination ≡ 0) ⊎ (is_member destination d.buffers ≡ true))
IsCall (fill p offset size value) d = (p ≡ 0) ⊎ (is_member p d.buffers ≡ true)
IsCall (bind_sparse h given queue infos fence) d =
    IsSound d.images × IsSound d.semaphores × IsSound d.fences × IsSolid d.images
IsCall _ d = Unit {0}

abbrev pub Lives : Option Driver → Type 0
Lives o = (d' : Driver) × (o ≡ some d') × IsGood d'

gives : (o : Option (Answer Driver ℕ)) → Gives o → Lives (state_of o)
gives o (a, e, g) = (a.state, rw e refl, g)

runs : (s : Step) → Keeps s → Lives (state_after s)
runs s (r, d', e, g) = (d', rw e refl, g)

keeps : {d : Driver} (s : Step) → Runs d s → Keeps s
keeps s (r, d', e, a) = (r, d', e, a.good)

pub perform-IsGood :
    (vk : Enums) (e : Surroundings) (c : Call) (d : Driver)
    → IsCall c d
    → IsGood d
    → Lives (perform vk e c d)
unfolding perform
perform-IsGood vk e (allocate given device info limit allocation status) d h g =
    gives _ (allocate_memory-Gives e vk given device info limit allocation status d h g)
perform-IsGood vk e (export_fd given device info file truncates output) d h g =
    gives _ (get_memory_fd-Gives e vk given device info file truncates output d g)
perform-IsGood vk e (free bridge p) d h g = free_memory-IsGood bridge p d g
perform-IsGood vk e (map given p offset size) d h g =
    gives _ (map_memory-Gives e given p offset size d g)
perform-IsGood vk e (unmap p) d h g = let r = unmap_memory-Ends e p d g in (r.0, r.1, r.2.good)
perform-IsGood vk e (flush given ranges) d h g =
    runs _ (keeps _ (flush_mapped_memory_ranges-Runs e given ranges d g))
perform-IsGood vk e (invalidate given ranges) d h g =
    runs _ (keeps _ (invalidate_mapped_memory_ranges-Runs e given ranges d g))
perform-IsGood vk e (create given device info allocation) d h g =
    let a = create_buffer vk given device info allocation d in
    (a.state, refl, create_buffer-IsGood vk given device info allocation d h g)
perform-IsGood vk e (destroy p) d h g = destroy_buffer-IsGood p d g
perform-IsGood vk e (bind given device infos) d h g =
    runs _ (bind_buffer_memory2-Keeps given device infos d g)
perform-IsGood vk e (copy resizes source destination region) d h g =
    runs _ (keeps _ (copy_buffer_bytes-Runs e resizes source destination region d g h.0 h.1))
perform-IsGood vk e (fill p offset size value) d h g =
    runs _ (keeps _ (execute_buffer_fill-Runs e p offset size value d g h))
perform-IsGood vk e (bind_sparse s given queue infos fence) d h g =
    let ready : IsReady d = record {
      good = g;
      images = h.0;
      semaphores = h.1;
      fences = h.2;
      solid = h.3;
    } in
    let (r, d', returns, after, _, _, _) =
      queue_bind_sparse_lem s given queue infos fence d ready 0 0 (omega arith) in
    (d', rw returns refl, after.good)

-- A history: each call with its surroundings.
unfoldable pub run : Enums → List (Surroundings × Call) → Driver → Option Driver
unfolding perform
run vk [] d = some d
run vk ((e, c) ∷ cs) d = elim (perform vk e c d) [ none ↦ none | some d' ↦ run vk cs d' ]

pub data IsHistory (vk : Enums) : List (Surroundings × Call) → Driver → Type 0 where
  done : {d : Driver} → IsHistory vk [] d
  next :
      {e : Surroundings} {c : Call} {cs : List (Surroundings × Call)} {d : Driver}
      → IsCall c d
      → ((d' : Driver) → perform vk e c d ≡ some d' → IsHistory vk cs d')
      → IsHistory vk ((e, c) ∷ cs) d

-- From a good state every history of vkAllocateMemory, vkGetMemoryFdKHR, vkFreeMemory,
-- vkMapMemory, vkUnmapMemory, vkFlushMappedMemoryRanges, vkInvalidateMappedMemoryRanges,
-- vkCreateBuffer, vkDestroyBuffer, vkBindBufferMemory2, vkQueueBindSparse and of the copies and
-- fills of buffers returns, whatever handles are passed and whatever the host and the transfers
-- answer, without an access to a dead memory or buffer, and ends in a good state: the handles are
-- the live objects, the mapped range and the end of the dirty bytes of every memory lie inside it,
-- it is counted as mapped exactly while it is, no sparse binding of a buffer names a memory that
-- was freed, and the bindings are in order, apart and inside the buffer. The condition on a call
-- is that sizes are 64-bit numbers that a copy or a fill names null or buffers that are there, and
-- that at a vkQueueBindSparse the handles of images, semaphores and fences are the live objects
-- and the tiles of sparse images are not empty.
pub run-IsGood :
    (vk : Enums) (cs : List (Surroundings × Call)) (d : Driver)
    → IsHistory vk cs d
    → IsGood d
    → (d' : Driver) × (run vk cs d ≡ some d') × IsGood d'
unfolding run
run-IsGood vk [] d h g = (d, refl, g)
run-IsGood vk ((e, c) ∷ cs) d (next h k) g =
    let r = perform-IsGood vk e c d h g in
    let s = run-IsGood vk cs r.0 (k r.0 r.1) r.2 in (s.0, rw (r.1, run) s.1, s.2)
