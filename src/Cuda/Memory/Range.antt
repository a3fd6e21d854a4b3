-- ===== src/Cuda/Memory/Range.antt =====
-- `resolveDeviceRange`: is [pointer, pointer + size) inside one allocation?
use isaac_metal_bridge.Base.{
  ℕ, ◌+◌, ◌-◌, ◌≤◌, ◌≡◌, ◌∙◌, ap, inl, inr, Option-cases, ◌⊎◌, ◌↔◌, Bool, true, false, ◌&&◌, ◌||◌,
  Option, none, some, [], ◌∷◌, Table, leb, if◌then◌else◌, arith,
}
use isaac_metal_bridge.Cuda.Memory.State.{Memory}

-- The condition in both loops and in cuMemMap.
abbrev pub fits : ℕ → ℕ → ℕ → ℕ → Bool
fits pointer size base allocation_size =
    leb base pointer
    && (leb (pointer - base) allocation_size && leb size (allocation_size - (pointer - base)))

-- A loop over one table, in whatever order the table is walked.
unfoldable pub any_fits : Table ℕ → ℕ → ℕ → Bool
any_fits [] pointer size = false
any_fits ((base, allocation_size) ∷ t) pointer size =
    fits pointer size base allocation_size || any_fits t pointer size

-- `given` says that `hostPointer` is not null; the result is what is stored through it.
unfoldable pub resolve_device_range : Memory → ℕ → ℕ → Bool → Option ℕ
unfolding any_fits
resolve_device_range m pointer size given =
    if given
    then if any_fits m.device_allocations pointer size
      then some pointer
      else if any_fits m.host_allocations pointer size
      then some pointer
      else none
    else none

-- Some entry of the table holds the whole range.
abbrev pub Covered : Table ℕ → ℕ → ℕ → Type 0
Covered [] pointer size = ⊥
Covered ((base, n) ∷ t) pointer size =
    ((base ≤ pointer) × (pointer + size ≤ base + n)) ⊎ Covered t pointer size

pub any_fits→Covered :
    (t : Table ℕ) (pointer size : ℕ) → any_fits t pointer size ≡ true → Covered t pointer size
unfolding any_fits
any_fits→Covered [] pointer size h = ground arith
any_fits→Covered ((base, n) ∷ t) pointer size h = ground (arith, any_fits→Covered t pointer size)

pub Covered→any_fits :
    (t : Table ℕ) (pointer size : ℕ) → Covered t pointer size → any_fits t pointer size ≡ true
unfolding any_fits
Covered→any_fits [] pointer size h = absurd h
Covered→any_fits ((base, n) ∷ t) pointer size h = ground (arith, Covered→any_fits t pointer size)

module _ (m : Memory) (pointer size : ℕ) where
  abbrev pub IsAllocated : Type 0
  IsAllocated = Covered m.device_allocations pointer size ⊎ Covered m.host_allocations pointer size

-- A range resolves to its own address exactly when one device allocation or one host allocation
-- holds all of it.
pub resolve_device_range_iff :
    (m : Memory) (pointer size : ℕ)
    → (resolve_device_range m pointer size true ≡ some pointer) ↔ IsAllocated m pointer size
unfolding resolve_device_range
resolve_device_range_iff m pointer size = (
  λ e. ground (
    arith,
    any_fits→Covered m.device_allocations pointer size,
    any_fits→Covered m.host_allocations pointer size,
  ),
  λ h. ground (
    arith,
    Covered→any_fits m.device_allocations pointer size,
    Covered→any_fits m.host_allocations pointer size,
  ),
)

pub resolve_device_range_cases :
    (m : Memory) (pointer size : ℕ)
    → ((resolve_device_range m pointer size true ≡ some pointer) × IsAllocated m pointer size)
      ⊎ ((resolve_device_range m pointer size true ≡ none) × ¬ IsAllocated m pointer size)
resolve_device_range_cases m pointer size =
    elim (Option-cases (resolve_device_range m pointer size true)) [
      | inl e ↦ inr (e, λ h. cc ((resolve_device_range_iff m pointer size).1 h))
      | inr (p, e) ↦
          let own : p ≡ pointer = unfold resolve_device_range in ground arith in
          let e' : resolve_device_range m pointer size true ≡ some pointer = e ∙ ap some own in
          inl (e', (resolve_device_range_iff m pointer size).0 e')
    ]
