-- ===== src/Icd/Queries/Results.antt =====
-- What vkGetQueryPoolResults of guest/vulkan_icd/imb_vulkan_icd.cpp stores, as the numbers that an
-- application reads back.
use isaac_metal_bridge.Base.{
  subst, ℕ, suc, ◌+◌, ◌*◌, ◌^◌, ◌≤◌, ◌<◌, ◌≡◌, ap, sym, ◌∙◌, ◌⊎◌, inl, inr, Bool, true, some,
  length, get_elem?, arith,
}
use isaac_metal_bridge.Cuda.Registry.{is_member, object}
use isaac_metal_bridge.Icd.Result.{success, initialization_failed}
use isaac_metal_bridge.Icd.Driver.{Driver, Enums, QueryPoolState, valid_device}
use isaac_metal_bridge.Icd.Queries.{Row, row_of, row_size, row_byte, get_query_pool_results}
use isaac_metal_bridge.Icd.Queries.Rows.{
  get_query_pool_results-Stored, get_query_pool_results_refused,
}
use isaac_metal_bridge.Icd.Queries.Layout.{IsLayout, row_of_lem, IsLayout-small}
use isaac_metal_bridge.Icd.Queries.Numbers.{HoldsRow, words, row_size_lem, stored-HoldsRow}

Fits-cases :
    (row_bytes stride count size : ℕ)
    → ((row_bytes ≤ stride) × (count * stride + row_bytes ≤ size))
      ⊎ ((stride < row_bytes) ⊎ (size < count * stride + row_bytes))
Fits-cases row_bytes stride count size = ground arith

-- For a pool of the device with fewer than 2 ^ 32 queries, and a value and an availability for
-- each, a row of as many values, as wide, as the pool and the flags ask for, and one query or more
-- that are all in the pool, vkGetQueryPoolResults whose rows at their strides end below 2 ^ 64, as
-- the size does, does one of two things. If a row is at most the stride and the last row ends
-- within the size, it succeeds: at its multiple of the stride each row reads as its query's value,
-- in 32 or 64 bits, zeros for the other values, and 1 or 0 for whether it is available if that is
-- asked for, and no byte outside the rows is changed. If not, it fails and stores nothing.
pub get_query_pool_results_lem :
    (vk : Enums) (device p first count size stride flags width values : ℕ) (asked : Bool)
    (bytes : ℕ → ℕ) (s : QueryPoolState) (d : Driver)
    → valid_device device d ≡ true
    → is_member p d.query_pools ≡ true
    → object p d.query_pools ≡ some s
    → s.device ≡ device
    → s.count < 2 ^ 32
    → length s.values ≡ s.count
    → length s.available ≡ s.count
    → first + suc count ≤ s.count
    → IsLayout vk flags s width values asked
    → count * stride + words values asked * width < 2 ^ 64
    → size < 2 ^ 64
    → let call =
        get_query_pool_results vk true device p first (suc count) size stride flags bytes d in
      let row_bytes = words values asked * width in
      ((row_bytes ≤ stride)
        × (count * stride + row_bytes ≤ size)
        × ((bytes' : ℕ → ℕ) × (call ≡ some (success, bytes'))
            × ((i value : ℕ) (ready : Bool)
                → i < suc count
                → get_elem? s.values (first + i) ≡ some value
                → get_elem? s.available (first + i) ≡ some ready
                → HoldsRow width values asked value ready (i * stride) bytes')
            × ((a : ℕ)
                → ((i : ℕ) → i < suc count → (a < i * stride) ⊎ (i * stride + row_bytes ≤ a))
                → bytes' a ≡ bytes a)))
      ⊎ (((stride < row_bytes) ⊎ (size < count * stride + row_bytes))
          × (call ≡ some (initialization_failed, bytes)))
get_query_pool_results_lem vk device p first count size stride flags width values asked bytes s d
      valid member live own many lengths available inside layout small below =
    let bound = IsLayout-small vk flags s width values asked layout in
    let size_of : row_size (row_of vk flags s) ≡ words values asked * width =
      ap row_size (row_of_lem vk flags s width values asked layout)
      ∙ row_size_lem width values asked bound.0 bound.1 bound.2 in
    let no_wrap : count * stride + row_size (row_of vk flags s) < 2 ^ 64 =
      omega (arith, size_of, small) in
    elim (Fits-cases (words values asked * width) stride count size) [
      | inr lacks ↦ inr (
        lacks,
        get_query_pool_results_refused vk device p first count size stride flags bytes s d valid
            member live own inside no_wrap
            (subst (λ (x : ℕ). (stride < x) ⊎ (size < count * stride + x)) (sym size_of) lacks),
      )
      | inl (narrow, fits) ↦
          let run =
            get_query_pool_results-Stored vk device p first count size stride flags bytes s d valid
              member live own inside no_wrap many lengths available (omega (arith, size_of, narrow))
              (omega (arith, size_of, fits)) below in
          inl (
            narrow,
            fits,
            (
              run.0,
              run.1,
              λ i value ready h e f.
                  stored-HoldsRow width values asked bound.0 bound.1 bound.2 value ready
                    (i * stride) run.0
                    (λ k b. byte_of_row i k value ready run.0 (
                      run.2.rows i k value ready h (omega (arith, size_of, b))
                        (ap (λ (x : ℕ). get_elem? s.values (first + x)) (zero_more i) ∙ e)
                        (ap (λ (x : ℕ). get_elem? s.available (first + x)) (zero_more i) ∙ f))),
              λ a h. run.2.gaps a (λ i l.
                  subst
                    (λ (x : ℕ). (a < x * stride) ⊎ (x * stride + row_size (row_of vk flags s) ≤ a))
                    (sym (zero_more i))
                    (subst (λ (x : ℕ). (a < i * stride) ⊎ (i * stride + x ≤ a)) (sym size_of)
                      (h i l))),
            ),
          )
    ]
  where
    zero_more : (i : ℕ) → 0 + i ≡ i
    zero_more i = omega arith

    byte_of_row :
        (i k value : ℕ) (ready : Bool) (bytes' : ℕ → ℕ)
        → bytes' ((0 + i) * stride + k) ≡ row_byte (row_of vk flags s) value ready k
        → bytes' (i * stride + k)
          ≡ row_byte (record { width = width; values = values; availability = asked }) value ready k
    byte_of_row i k value ready bytes' e =
        ap (λ (x : ℕ). bytes' (x * stride + k)) (sym (zero_more i))
        ∙ e
        ∙ ap (λ (r : Row). row_byte r value ready k)
            (row_of_lem vk flags s width values asked layout)
