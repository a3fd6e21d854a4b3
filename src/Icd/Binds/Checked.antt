-- ===== src/Icd/Binds/Checked.antt =====
-- What the checks of vkQueueBindSparse of guest/vulkan_icd/imb_vulkan_icd.cpp that are passed
-- establish.
use isaac_metal_bridge.Base.{
  ℕ, ◌+◌, ◌-◌, ◌≤◌, ◌≡◌, inl, inr, Bool-cases, Option-cases, Bool, true, false, ◌&&◌, Option, some,
  leb, ◌==◌, max64, arith,
}
use isaac_metal_bridge.Cuda.Registry.{Registry, is_member, object}
use isaac_metal_bridge.Icd.Bindings.{SparseMemoryBind}
use isaac_metal_bridge.Icd.Bindings.View.{IsBind}
use isaac_metal_bridge.Icd.Driver.{Driver, DeviceMemoryState, BufferState, Enums}
use isaac_metal_bridge.Icd.Memory.Good.{IsGood, object-member}
use isaac_metal_bridge.Icd.Binds.{check_object, check_memory, check_buffer_bind, fits_buffer}
use isaac_metal_bridge.Icd.Binds.Outcome.{and_check-both}

-- A handle whose check is passed is there.
pub check_object-passed :
    {A : Type 0} (r : Registry A) (p : ℕ) (check : A → Option Bool)
    → check_object r p check ≡ some true
    → (is_member p r ≡ true) × (a : A) × (object p r ≡ some a) × (check a ≡ some true)
unfolding check_object
check_object-passed r p check h = elim (Bool-cases (is_member p r)) [
  | inl e ↦ elim (Option-cases (object p r)) [
    | inl dead ↦ absurd (ground arith)
    | inr (a, live) ↦ (e, a, live, ground arith)
  ]
  | inr e ↦ absurd (ground arith)
]

abbrev holds_range : ℕ → ℕ → ℕ → DeviceMemoryState → Option Bool
holds_range device offset size m =
    some (m.device == device && (leb offset m.size && leb size (m.size - offset)))

pub check_memory-passed :
    (device : ℕ) (d : Driver) (memory offset size : ℕ)
    → check_memory device d memory offset size ≡ some true
    → (memory == 0) ≡ false
    → (m : DeviceMemoryState) × (object memory d.memories ≡ some m) × (offset + size ≤ m.size)
unfolding check_memory
check_memory-passed device d memory offset size h e =
    let (member, m, live, k) =
      check_object-passed d.memories memory (holds_range device offset size) (ground arith) in
    (m, live, ground arith)

module _ (vk : Enums) (device : ℕ) (d : Driver) (g : IsGood d) (b : BufferState)
    (bind : SparseMemoryBind) (h : check_buffer_bind vk device d b bind ≡ some true) where
  both :
      (fits_buffer vk b bind ≡ true)
      × (check_memory device d bind.memory bind.memory_offset bind.size ≡ some true)
  unfolding check_buffer_bind
  both =
      let c =
        and_check-both (some (fits_buffer vk b bind))
          (check_memory device d bind.memory bind.memory_offset bind.size) h in
      (ground arith, c.1)

  fits : (bind.memory == 0) ≡ false → bind.memory_offset + bind.size ≤ max64
  fits e =
      let (m, live, inside) =
        check_memory-passed device d bind.memory bind.memory_offset bind.size both.1 e in
      omega (arith, (g.fit bind.memory m live).small)

  pub check_buffer_bind-IsBind : IsBind b.size bind
  check_buffer_bind-IsBind = record {
    filled = ground (arith, both.0);
    inside = ground (arith, both.0);
    fits = fits;
  }

  pub check_buffer_bind-member :
      (bind.memory == 0) ≡ false → is_member bind.memory d.memories ≡ true
  check_buffer_bind-member e =
      let (m, live, inside) =
        check_memory-passed device d bind.memory bind.memory_offset bind.size both.1 e in
      object-member bind.memory m d g live
