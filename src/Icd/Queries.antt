-- ===== src/Icd/Queries.antt =====
-- Query pools of guest/vulkan_icd/imb_vulkan_icd.cpp: the rows of results that are stored.
pub mod Rows
pub mod Layout
pub mod Numbers
pub mod Results
use isaac_metal_bridge.Base.{
  ℕ, zero, suc, ◌+◌, ◌-◌, ◌*◌, ◌/◌, ◌%◌, ◌^◌, Bool, true, false, ◌&&◌, ◌||◌, not, Option, none,
  some, List, [], ◌∷◌, leb, ltb, ◌==◌, if◌then◌else◌, max, mul64, add64, bit_and, get_elem?,
  replicate,
}
use isaac_metal_bridge.Cuda.Registry.{
  is_member, object, new_object, enrol, withdraw, delete_object, store_object,
}
use isaac_metal_bridge.Cuda.Memory.Bytes.{byte_of}
use isaac_metal_bridge.Icd.Result.{
  VkResult, success, initialization_failed, device_lost, out_of_host_memory, Answer, reject, answer,
}
use isaac_metal_bridge.Icd.Driver.{Driver, Enums, QueryPoolState, valid_device}
use isaac_metal_bridge.Icd.Driver.Transfers.{within}

pub record QueryPoolInfo : Type 0 where
  pub query_type : ℕ
  pub query_count : ℕ
  pub pipeline_statistics : ℕ
  pub flags : ℕ

-- `assigned` is false if one of the vectors finds no memory.
unfoldable pub create_query_pool :
    Bool → ℕ → QueryPoolInfo → Option ℕ → Bool → Driver → Answer Driver ℕ
create_query_pool given device info allocation assigned d =
    if not given || info.query_count == 0 || not (info.flags == 0)
    then reject d initialization_failed
    else if not (valid_device device d)
    then reject d device_lost
    else elim allocation [
      | none ↦ reject d out_of_host_memory
      | some p ↦
          if not assigned
          then reject d out_of_host_memory
          else (let state : QueryPoolState = record {
            device = device;
            type = info.query_type;
            count = info.query_count;
            pipeline_statistics = info.pipeline_statistics;
            values = replicate info.query_count 0;
            available = replicate info.query_count false;
          } in
              answer (record d { query_pools = enrol p (new_object p state d.query_pools) }) p)
    ]

unfoldable pub destroy_query_pool : ℕ → Driver → Option Driver
destroy_query_pool p d =
    if p == 0 || not (is_member p d.query_pools)
    then some d
    else elim (delete_object p (withdraw p d.query_pools)) [
      | none ↦ none
      | some pools ↦ some (record d { query_pools = pools })
    ]

-- The loop over the bits of a number of so many bits.
unfoldable pub count_bits : ℕ → ℕ → ℕ
count_bits zero bits = 0
count_bits (suc n) bits =
    let rest = count_bits n (bits / 2) in if bits == 0 then 0 else bits % 2 + rest

-- The values of a query.
unfoldable pub value_count : Enums → QueryPoolState → ℕ
unfolding count_bits
value_count vk s =
    if s.type == vk.query_type_pipeline_statistics
    then max (count_bits 32 s.pipeline_statistics) 1
    else 1

-- What is stored of each query: `width` bytes for each value, and for the availability if asked for.
pub record Row : Type 0 where
  pub width : ℕ
  pub values : ℕ
  pub availability : Bool

abbrev pub row_of : Enums → ℕ → QueryPoolState → Row
row_of vk flags s = record {
  width = if bit_and flags vk.query_result_64 == 0 then 4 else 8;
  values = value_count vk s;
  availability = not (bit_and flags vk.query_result_with_availability == 0);
}

abbrev pub row_size : Row → ℕ
row_size r = mul64 ((r.values + (if r.availability then 1 else 0)) % 2 ^ 32) r.width

-- A byte of a row: the value, zeros, and whether it is available.
unfoldable pub row_byte : Row → ℕ → Bool → ℕ → ℕ
row_byte r value ready k =
    if ltb k r.width
    then byte_of k (if r.width == 8 then value else value % 2 ^ 32)
    else if r.availability && within (r.values * r.width) r.width k
    then byte_of (k - r.values * r.width) (if ready then 1 else 0)
    else 0

abbrev pub store_row : Row → ℕ → ℕ → Bool → (ℕ → ℕ) → ℕ → ℕ
store_row r start value ready bytes a =
    if within start (row_size r) a then row_byte r value ready (a - start) else bytes a

-- The loop over the queries: `none` for one that the pool does not have.
unfoldable pub store_rows : Row → QueryPoolState → ℕ → ℕ → ℕ → ℕ → (ℕ → ℕ) → Option (ℕ → ℕ)
unfolding row_byte
store_rows r s first stride zero query bytes = some bytes
store_rows r s first stride (suc n) query bytes =
    elim (get_elem? s.values ((first + query) % 2 ^ 32)) [
      | none ↦ none
      | some value ↦ elim (get_elem? s.available ((first + query) % 2 ^ 32)) [
        | none ↦ none
        | some ready ↦
            store_rows r s first stride n (query + 1)
              (store_row r (mul64 query stride) value ready bytes)
      ]
    ]

abbrev pub required_size : Row → ℕ → ℕ → ℕ
required_size r count stride = add64 (mul64 (count - 1) stride) (row_size r)

unfoldable pub store_results :
    Row → QueryPoolState → ℕ → ℕ → ℕ → ℕ → (ℕ → ℕ) → Option (VkResult × (ℕ → ℕ))
unfolding store_rows
store_results r s first count size stride bytes =
    if not (count == 0) && (ltb size (required_size r count stride) || ltb stride (row_size r))
    then some (initialization_failed, bytes)
    else elim (store_rows r s first stride count 0 bytes) [
      | none ↦ none
      | some bytes' ↦ some (success, bytes')
    ]

abbrev pub lacks_range : QueryPoolState → ℕ → ℕ → Bool
lacks_range s first count = ltb s.count first || ltb (s.count - first) count

-- `bytes` is by offset from the pointer; `given` is false if it is null.
unfoldable pub get_query_pool_results :
    Enums → Bool → ℕ → ℕ → ℕ → ℕ → ℕ → ℕ → ℕ → (ℕ → ℕ) → Driver → Option (VkResult × (ℕ → ℕ))
unfolding store_results value_count
get_query_pool_results vk given device p first count size stride flags bytes d =
    if not (count == 0) && not given
    then some (initialization_failed, bytes)
    else if not (valid_device device d) || not (is_member p d.query_pools)
    then some (device_lost, bytes)
    else elim (object p d.query_pools) [
      | none ↦ none
      | some s ↦
          if not (s.device == device) || lacks_range s first count
          then some (device_lost, bytes)
          else store_results (row_of vk flags s) s first count size stride bytes
    ]

-- `std::fill_n` of a part of a vector.
unfoldable pub fill_part : {A : Type 0} → ℕ → ℕ → A → List A → List A
fill_part first count a [] = []
fill_part zero zero a (x ∷ xs) = x ∷ xs
fill_part zero (suc count) a (x ∷ xs) = a ∷ fill_part zero count a xs
fill_part (suc first) count a (x ∷ xs) = x ∷ fill_part first count a xs

unfoldable pub reset_query_pool : ℕ → ℕ → ℕ → ℕ → Driver → Option Driver
unfolding fill_part
reset_query_pool device p first count d =
    if not (valid_device device d) || not (is_member p d.query_pools)
    then some d
    else elim (object p d.query_pools) [
      | none ↦ none
      | some s ↦
          if lacks_range s first count
          then some d
          else some (record d {
            query_pools =
                store_object p
                  (record s {
                    values = fill_part first count 0 s.values;
                    available = fill_part first count false s.available;
                  })
                  d.query_pools;
          })
    ]
