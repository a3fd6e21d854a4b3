-- ===== src/Cuda/Memory/Reservation.antt =====
-- cuMemAddressReserve of guest/cuda_shim/imb_cuda_shim.cpp with no requested address: the mask
-- arithmetic on 64-bit addresses, and the two ends that are cut off.
use native.Mathlib.Nat.{div-add-mod, mul-mod_left, le_refl, pow-le-pow_right}
use native.Mathlib.Decide.{dec_lt}
use isaac_metal_bridge.Base.{
  ℕ, ◌+◌, ◌-◌, ◌*◌, ◌/◌, ◌%◌, ◌^◌, ◌≤◌, ◌<◌, ◌≡◌, inl, inr, Bool-cases, ◌∙◌, sym, subst, ap, ap₂,
  one-le-two_pow, Bool, false, some, ltb, ◌==◌, if◌then◌else◌, put, two64, max64, add64, sub64,
  not64, bit_and, round_down, power_of_two, arith,
}
use isaac_metal_bridge.Cuda.Result.{Reply, success, succeed}
use isaac_metal_bridge.Cuda.Memory.State.{Memory, munmap, after_call}
use isaac_metal_bridge.Cuda.Memory.Virtual.{
  aligned_address, reserve_aligned, cu_mem_address_reserve,
}

-- The address is the least multiple of the alignment that is not below `raw`.
pub aligned_address_lem :
    (raw k : ℕ)
    → k < 64
    → raw + 2 ^ k ≤ two64
    → aligned_address raw (2 ^ k) ≡ (raw + 2 ^ k - 1) / 2 ^ k * 2 ^ k
aligned_address_lem raw k small fits =
    ap₂ bit_and (before raw (2 ^ k) fits (one-le-two_pow k))
      (ap not64 (mask (2 ^ k) (one-le-two_pow k) (omega arith)))
    ∙ round_down k (raw + 2 ^ k - 1) small (omega (arith, one-le-two_pow k))
  where
    before : (raw p : ℕ) → raw + p ≤ two64 → 1 ≤ p → sub64 (add64 raw p) 1 ≡ raw + p - 1
    before raw p h one = omega arith

    mask : (p : ℕ) → 1 ≤ p → p ≤ two64 → sub64 p 1 ≡ p - 1
    mask p one h = omega arith

-- Where the mapping is cut: what lies before the aligned address and what lies after the size.
abbrev pub cut : Memory → ℕ → ℕ → ℕ → ℕ → Memory
cut m raw alignment size aligned =
    after_call (if aligned == raw then m else after_call m (munmap raw (aligned - raw)))
      (munmap (aligned + size) (raw + alignment - aligned))

-- The reservation lies in the mapping at a multiple of the alignment, and exactly the rest of the
-- mapping, [raw, aligned) and [aligned + size, raw + size + alignment), is given back.
pub record IsTrimmed (m : Memory) (raw size alignment : ℕ) (r : Reply Memory ℕ) : Type 0 where
  pub aligned : ℕ
  pub is_multiple : aligned % alignment ≡ 0
  pub from : raw ≤ aligned
  pub to : aligned < raw + alignment
  pub replies :
      r
      ≡ succeed
          (record (cut m raw alignment size aligned) {
            virtual_reservations = put aligned size m.virtual_reservations;
          })
          aligned

-- The two `munmap` calls, at the aligned address.
reserve_cut :
    (m : Memory) (raw size alignment aligned : ℕ)
    → 0 < size
    → 0 < raw
    → raw + size + alignment ≤ two64
    → raw ≤ aligned
    → aligned < raw + alignment
    → aligned_address raw alignment ≡ aligned
    → reserve_aligned m size alignment (some raw)
      ≡ succeed
          (record (cut m raw alignment size aligned) {
            virtual_reservations = put aligned size m.virtual_reservations;
          })
          aligned
unfolding reserve_aligned
reserve_cut m raw size alignment aligned pos mapped fits from to e =
    elim (Bool-cases (aligned == raw)) [
      | inl h ↦ rw (e, room, prefix, suffix, ends, same, rest, h)
      | inr h ↦ rw (e, room, prefix, suffix, ends, same, rest, h)
    ]
  where
    prefix : sub64 aligned raw ≡ aligned - raw
    prefix = omega arith

    suffix : sub64 alignment (aligned - raw) ≡ raw + alignment - aligned
    suffix = omega arith

    ends : add64 aligned size ≡ aligned + size
    ends = omega arith

    room : ltb (max64 - alignment) size ≡ false
    room = ground arith

    same : (aligned - raw == 0) ≡ (aligned == raw)
    same = ground arith

    rest : (raw + alignment - aligned == 0) ≡ false
    rest = ground arith

rounded_bounds :
    (raw p : ℕ)
    → 1 ≤ p
    → let rounded = (raw + p - 1) / p * p in
      (raw ≤ rounded) × (rounded < raw + p) × (rounded % p ≡ 0)
rounded_bounds raw p one = (
  omega (arith, div-add-mod (raw + p - 1) p),
  omega (arith, div-add-mod (raw + p - 1) p),
  mul-mod_left ((raw + p - 1) / p) p,
)

reserve_aligned_lem :
    (m : Memory) (raw size k : ℕ)
    → 0 < size
    → 0 < raw
    → k < 64
    → raw + size + 2 ^ k ≤ two64
    → IsTrimmed m raw size (2 ^ k) (reserve_aligned m size (2 ^ k) (some raw))
reserve_aligned_lem m raw size k pos mapped small fits =
    let bounds = rounded_bounds raw (2 ^ k) (one-le-two_pow k) in
    record {
      aligned = (raw + 2 ^ k - 1) / 2 ^ k * 2 ^ k;
      is_multiple = bounds.2;
      from = bounds.0;
      to = bounds.1;
      replies =
          reserve_cut m raw size (2 ^ k) _ pos mapped fits bounds.0 bounds.1
            (aligned_address_lem raw k small (omega arith));
    }

abbrev pub effective : ℕ → ℕ
effective alignment = if alignment == 0 then 64 * 1024 else alignment

-- Where the mapping is not at null and fits the address space together with the alignment, a
-- successful reservation without a requested address lies in the mapping at a multiple of the
-- effective alignment, and exactly the rest of the mapping before and after it is unmapped.
pub cu_mem_address_reserve-IsTrimmed :
    (m : Memory) (given : Bool) (size alignment flags raw : ℕ)
    → 0 < raw
    → raw + size + effective alignment ≤ two64
    → (cu_mem_address_reserve m given size alignment 0 flags (some raw)).result ≡ success
    → IsTrimmed m raw size
        (effective alignment)
        (cu_mem_address_reserve m given size alignment 0 flags (some raw))
cu_mem_address_reserve-IsTrimmed m given size alignment flags raw mapped fits e =
    let k = power_of_two p p (le_refl p) positive power in
    rw enters (
      subst (λ q. IsTrimmed m raw size q (reserve_aligned m size q (some raw))) (sym k.1)
        (reserve_aligned_lem m raw size k.0 sized mapped (exponent k.0 k.1) (rw (← k.1) fits)))
  where
    p : ℕ
    p = effective alignment

    accepted : (bit_and p (sub64 p 1) ≡ 0) × (4096 ≤ p) × (0 < size)
    accepted = unfold cu_mem_address_reserve in ground arith

    enters :
        cu_mem_address_reserve m given size alignment 0 flags (some raw)
        ≡ reserve_aligned m size p (some raw)
    enters = unfold cu_mem_address_reserve in ground arith

    sized : 0 < size
    sized = accepted.2

    mask : (q : ℕ) → 4096 ≤ q → q ≤ two64 → sub64 q 1 ≡ q - 1
    mask q low high = omega arith

    power : bit_and p (p - 1) ≡ 0
    power = omega (arith, accepted.0, accepted.1, ap (bit_and p) (mask p accepted.1 (omega arith)))

    exponent : (k : ℕ) → p ≡ 2 ^ k → k < 64
    exponent k e = elim (dec_lt k 64) [
      | yes h ↦ h
      | no h ↦
          absurd
            (omega (arith, pow-le-pow_right {n = 2} (omega arith) {i = 64} {j = k} (omega arith)))
    ]

    positive : 0 < p
    positive = omega (arith, accepted.1)
