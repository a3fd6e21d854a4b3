-- ===== src/Icd/Fences.antt =====
-- Fences of guest/vulkan_icd/imb_vulkan_icd.cpp: waiting for the host, and reading back what a
-- submission left there.
pub mod Signals
pub mod Waits
use isaac_metal_bridge.Base.{
  ℕ, ◌+◌, ◌-◌, Bool, true, false, ◌&&◌, ◌||◌, not, Option, none, some, List, [], ◌∷◌, length, leb,
  ltb, ◌==◌, if◌then◌else◌, min, mul64, bit_and,
}
use isaac_metal_bridge.Cuda.Registry.{
  is_member, object, new_object, enrol, withdraw, delete_object, store_object,
}
use isaac_metal_bridge.Icd.Result.{
  VkResult, success, not_ready, timeout, initialization_failed, device_lost, memory_map_failed,
  out_of_host_memory, Answer, reject, answer,
}
use isaac_metal_bridge.Icd.Driver.{
  Driver, Enums, DeviceMemoryState, FenceState, Step, and_then, valid_device, without_bit,
}
use isaac_metal_bridge.Icd.Driver.Transfers.{within}
use isaac_metal_bridge.Icd.Memory.{Surroundings, store_memory, ensure_memory_backing}

-- What of an image the read-back uses.
pub record ResultImage : Type 0 where
  pub memory : ℕ
  pub memory_offset : ℕ
  pub width : ℕ
  pub height : ℕ
  pub depth : ℕ
  pub resource_id : ℕ

-- What the host answers: whether there is a connection, whether a fence of the host signals or the
-- wait throws, and how many of the bytes of a resource arrive before the read ends or throws.
pub record Host : Type 0 where
  pub around : Surroundings
  pub connected : Bool
  pub waits : ℕ → Bool
  pub image : ℕ → Option ResultImage
  pub arrived : ℕ → ℕ
  pub content : ℕ → ℕ → ℕ

abbrev pub store_fence : ℕ → FenceState → Driver → Driver
store_fence p s d = record d { fences = store_object p s d.fences }

-- The bytes that arrive, and whether all did.
unfoldable pub read_resource : Host → ℕ → ℕ → ℕ → ℕ → Driver → Step
read_resource h id memory start size d = elim (object memory d.memories) [
  | none ↦ none
  | some m ↦
      if not m.backed
      then none
      else some (
        if leb size (h.arrived id) then success else device_lost,
        store_memory memory
            (record m {
              bytes = λ a.
                  if within start (min size (h.arrived id)) a
                  then h.content id (a - start)
                  else m.bytes a;
            })
            d,
      )
]

-- The bytes of an image, four for each texel, once its memory has its bytes.
abbrev pub byte_count : ResultImage → ℕ
byte_count i = mul64 (mul64 (mul64 i.width i.height) i.depth) 4

unfoldable pub fill_image : Host → ResultImage → Driver → Step
unfolding read_resource
fill_image h i d = elim (object i.memory d.memories) [
  | none ↦ none
  | some m ↦
      if ltb m.size i.memory_offset || ltb (m.size - i.memory_offset) (byte_count i)
      then some (memory_map_failed, d)
      else read_resource h i.resource_id i.memory i.memory_offset (byte_count i) d
]

unfoldable pub read_image : Host → ResultImage → Driver → Step
unfolding fill_image
read_image h i d =
    if i.memory == 0
    then some (memory_map_failed, d)
    else and_then (ensure_memory_backing h.around i.memory false d) (fill_image h i)

unfoldable pub read_result : Host → FenceState → Driver → Step
unfolding read_image read_resource
read_result h s d =
    if not (s.result_image == 0)
    then elim (h.image s.result_image) [ none ↦ none | some i ↦ read_image h i d ]
    else elim (object s.result_memory d.memories) [
      | none ↦ none
      | some m ↦ read_resource h m.resource_id s.result_memory 0 m.size d
    ]

-- What keeps a fence that is not signaled from being waited for.
abbrev pub not_waitable : Host → FenceState → Bool
not_waitable h s =
    not s.submitted
    || (s.bridge_fence_id == 0 || (s.result_memory == 0 && s.result_image == 0 || not h.connected))

abbrev pub signaled_fence : FenceState → FenceState
signaled_fence s = record s { signaled = true }

-- `fence->signaled = true`
unfoldable pub mark_signaled : ℕ → Driver → Step
mark_signaled p d = elim (object p d.fences) [
  | none ↦ none
  | some s ↦ some (success, store_fence p (signaled_fence s) d)
]

unfoldable pub complete_fence : Host → ℕ → Driver → Step
unfolding read_result mark_signaled
complete_fence h p d =
    if p == 0 || not (is_member p d.fences)
    then some (device_lost, d)
    else elim (object p d.fences) [
      | none ↦ none
      | some s ↦
          if s.signaled
          then some (success, d)
          else if not_waitable h s
          then some (not_ready, d)
          else if not (h.waits s.bridge_fence_id)
          then some (device_lost, d)
          else and_then (read_result h s d) (mark_signaled p)
    ]

abbrev pub fresh_fence : ℕ → Bool → FenceState
fresh_fence device signaled = record {
  device = device;
  bridge_fence_id = 0;
  result_memory = 0;
  result_image = 0;
  submitted = false;
  signaled = signaled;
}

unfoldable pub create_fence : Enums → Bool → ℕ → ℕ → Option ℕ → Driver → Answer Driver ℕ
create_fence vk given device flags allocation d =
    if not given || not (without_bit flags vk.fence_create_signaled == 0)
    then reject d initialization_failed
    else if not (valid_device device d)
    then reject d initialization_failed
    else elim allocation [
      | none ↦ reject d out_of_host_memory
      | some p ↦
          let signaled = not (bit_and flags vk.fence_create_signaled == 0) in
          answer
            (record d { fences = enrol p (new_object p (fresh_fence device signaled) d.fences) }) p
    ]

unfoldable pub destroy_fence : ℕ → Driver → Option Driver
destroy_fence p d =
    if p == 0 || not (is_member p d.fences)
    then some d
    else elim (delete_object p (withdraw p d.fences)) [
      | none ↦ none
      | some fences ↦ some (record d { fences = fences })
    ]

-- The first loop: whether every fence may be reset, `none` for a dead one.
unfoldable pub all_resettable : List ℕ → Driver → Option Bool
all_resettable [] d = some true
all_resettable (p ∷ ps) d =
    if not (is_member p d.fences) then some false else elim (object p d.fences) [
      | none ↦ none
      | some s ↦ if s.submitted && not s.signaled then some false else all_resettable ps d
    ]

abbrev pub reset_fence : FenceState → FenceState
reset_fence s = fresh_fence s.device false

unfoldable pub reset_all : List ℕ → Driver → Option Driver
reset_all [] d = some d
reset_all (p ∷ ps) d = elim (object p d.fences) [
  | none ↦ none
  | some s ↦ reset_all ps (store_fence p (reset_fence s) d)
]

-- `given` is false if fences are counted and the array is null.
unfoldable pub reset_fences : Bool → List ℕ → Driver → Step
unfolding all_resettable reset_all
reset_fences given ps d =
    if not given then some (initialization_failed, d) else elim (all_resettable ps d) [
      | none ↦ none
      | some false ↦ some (initialization_failed, d)
      | some true ↦ elim (reset_all ps d) [ none ↦ none | some d' ↦ some (success, d') ]
    ]

unfoldable pub get_fence_status : ℕ → Driver → Option VkResult
get_fence_status p d =
    if not (is_member p d.fences) then some device_lost else elim (object p d.fences) [
      | none ↦ none
      | some s ↦ some (if s.signaled then success else not_ready)
    ]

-- The loop of a wait with timeout 0.
unfoldable pub poll_fences : Bool → List ℕ → Driver → Option VkResult
poll_fences wait_all [] d = some success
poll_fences wait_all (p ∷ ps) d =
    if not (is_member p d.fences) then some device_lost else elim (object p d.fences) [
      | none ↦ none
      | some s ↦
          if wait_all && not s.signaled || not wait_all && s.signaled
          then some (if not wait_all && s.signaled then success else timeout)
          else poll_fences wait_all ps d
    ]

unfoldable pub complete_each : Host → Bool → List ℕ → Driver → Step
unfolding complete_fence
complete_each h wait_all [] d = some (success, d)
complete_each h wait_all (p ∷ ps) d = and_then (complete_fence h p d) (λ (d' : Driver).
    elim wait_all [ false ↦ some (success, d') | true ↦ complete_each h wait_all ps d' ])

-- `given` is false if the array is null.
unfoldable pub wait_for_fences : Host → Bool → List ℕ → Bool → ℕ → Driver → Step
unfolding poll_fences complete_each
wait_for_fences h given ps wait_all limit d =
    if length ps == 0 || not given
    then some (initialization_failed, d)
    else if limit == 0
    then elim (poll_fences wait_all ps d) [ none ↦ none | some r ↦ some (r, d) ]
    else complete_each h wait_all ps d
