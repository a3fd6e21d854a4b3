-- ===== src/Icd/Queries/Rows.antt =====
-- Reading the results of a query pool of guest/vulkan_icd/imb_vulkan_icd.cpp.
use isaac_metal_bridge.Base.{
  subst, ℕ, zero, suc, ◌+◌, ◌-◌, ◌*◌, ◌%◌, ◌^◌, ◌≤◌, ◌<◌, ◌≡◌, refl, ap, sym, ◌∙◌, ◌⊎◌, inl, inr,
  Bool, true, false, ◌&&◌, ◌||◌, not, some, List, [], ◌∷◌, ltb, ◌==◌, mul64, length, get_elem?,
  arith,
}
use isaac_metal_bridge.Cuda.Registry.{is_member, object}
use isaac_metal_bridge.Icd.Result.{success, initialization_failed}
use isaac_metal_bridge.Icd.Driver.{Driver, Enums, QueryPoolState, valid_device}
use isaac_metal_bridge.Icd.Driver.Transfers.{within}
use isaac_metal_bridge.Icd.Queries.{
  Row, row_of, row_size, row_byte, store_row, store_rows, store_results, required_size, lacks_range,
  get_query_pool_results,
}

-- A query of a vector.
found : {A : Type 0} (xs : List A) (i : ℕ) → i < length xs → (a : A) × (get_elem? xs i ≡ some a)
found [] i h = absurd (omega arith)
found (x ∷ xs) zero h = (x, refl)
found (x ∷ xs) (suc i) h = found xs i (omega arith)

next_row : (q n stride : ℕ) → (q + suc n) * stride ≡ (q + 1 + n) * stride
next_row q n stride = ap (λ (x : ℕ). x * stride) (omega arith)

row_after : (q stride : ℕ) → (q + 1) * stride ≡ q * stride + stride
row_after q stride = grind arith

row_before : (q n stride : ℕ) → q * stride ≤ (q + n) * stride
row_before q n stride = grind arith

-- The bytes after the rows of `n` queries from `query` on are stored.
pub record Stored (r : Row) (s : QueryPoolState) (first stride n query : ℕ) (bytes bytes' : ℕ → ℕ)
    : Type 0 where
  pub rows :
      (i k value : ℕ) (ready : Bool)
      → i < n
      → k < row_size r
      → get_elem? s.values (first + (query + i)) ≡ some value
      → get_elem? s.available (first + (query + i)) ≡ some ready
      → bytes' ((query + i) * stride + k) ≡ row_byte r value ready k
  pub before : (a : ℕ) → a < query * stride → bytes' a ≡ bytes a
  pub gaps :
      (a : ℕ)
      → ((i : ℕ) → i < n → (a < (query + i) * stride) ⊎ ((query + i) * stride + row_size r ≤ a))
      → bytes' a ≡ bytes a

-- The rest of the loop keeps the first row.
module _ (r : Row) (s : QueryPoolState) (first stride n query value : ℕ) (ready : Bool)
    (bytes bytes' : ℕ → ℕ) (wide : row_size r ≤ stride)
    (is_value : get_elem? s.values (first + query) ≡ some value)
    (is_ready : get_elem? s.available (first + query) ≡ some ready)
    (rest : Stored r s first stride n
      (query + 1)
      (store_row r (query * stride) value ready bytes)
      bytes') where
  row :
      (i k value' : ℕ) (ready' : Bool)
      → i < suc n
      → k < row_size r
      → get_elem? s.values (first + (query + i)) ≡ some value'
      → get_elem? s.available (first + (query + i)) ≡ some ready'
      → bytes' ((query + i) * stride + k) ≡ row_byte r value' ready' k
  row zero k value' ready' h l e f =
      let start : (query + 0) * stride ≡ query * stride =
        ap (λ (x : ℕ). x * stride) (omega arith) in
      let index : first + (query + 0) ≡ first + query = omega arith in
      let v : value ≡ value' = cc (is_value, e, ap (λ (x : ℕ). get_elem? s.values x) index) in
      let b : ready ≡ ready' = cc (is_ready, f, ap (λ (x : ℕ). get_elem? s.available x) index) in
      ap (λ (x : ℕ). bytes' (x + k)) start
      ∙ rest.before (query * stride + k) (omega (arith, row_after query stride, l, wide))
      ∙ stored_byte k l
      ∙ ap (λ (x : ℕ). row_byte r x ready k) v
      ∙ ap (λ (x : Bool). row_byte r value' x k) b
    where
      stored_byte :
          (k : ℕ)
          → k < row_size r
          → store_row r (query * stride) value ready bytes (query * stride + k)
            ≡ row_byte r value ready k
      stored_byte k l = rw (inside k l) (ap (λ (x : ℕ). row_byte r value ready x) (omega arith))
        where
          inside :
              (k : ℕ)
              → k < row_size r
              → within (query * stride) (row_size r) (query * stride + k) ≡ true
          inside k l = ground (arith, l)
  row (suc i) k value' ready' h l e f =
      let index : first + (query + suc i) ≡ first + (query + 1 + i) = omega arith in
      ap (λ (x : ℕ). bytes' (x + k)) (next_row query i stride)
      ∙ rest.rows i k value' ready' (omega arith) l
          (ap (λ (x : ℕ). get_elem? s.values x) (sym index) ∙ e)
          (ap (λ (x : ℕ). get_elem? s.available x) (sym index) ∙ f)

  joined : Stored r s first stride (suc n) query bytes bytes'
  joined = record {
    rows = row;
    before = λ a h. rest.before a (omega (arith, row_after query stride, h)) ∙ outside a (inl h);
    gaps = λ a h.
        rest.gaps a (λ i l. later a i (h (suc i) (omega arith)))
        ∙ outside a (here a (h 0 (omega arith)));
  }
    where
      later :
          (a i : ℕ)
          → (a < (query + suc i) * stride) ⊎ ((query + suc i) * stride + row_size r ≤ a)
          → (a < (query + 1 + i) * stride) ⊎ ((query + 1 + i) * stride + row_size r ≤ a)
      later a i = subst (λ (x : ℕ). (a < x) ⊎ (x + row_size r ≤ a)) (next_row query i stride)

      here :
          (a : ℕ)
          → (a < (query + 0) * stride) ⊎ ((query + 0) * stride + row_size r ≤ a)
          → (a < query * stride) ⊎ (query * stride + row_size r ≤ a)
      here a = subst (λ (x : ℕ). (a < x * stride) ⊎ (x * stride + row_size r ≤ a)) (omega arith)

      outside :
          (a : ℕ)
          → (a < query * stride) ⊎ (query * stride + row_size r ≤ a)
          → store_row r (query * stride) value ready bytes a ≡ bytes a
      outside a (inl h) = ground (arith, h)
      outside a (inr h) = ground (arith, h)

-- One turn of the loop.
turn :
    (r : Row) (s : QueryPoolState) (first stride n query value : ℕ) (ready : Bool) (bytes : ℕ → ℕ)
    → (first + query) % 2 ^ 32 ≡ first + query
    → mul64 query stride ≡ query * stride
    → get_elem? s.values (first + query) ≡ some value
    → get_elem? s.available (first + query) ≡ some ready
    → store_rows r s first stride (suc n) query bytes
      ≡ store_rows r s first stride n (query + 1) (store_row r (query * stride) value ready bytes)
unfolding store_rows
turn r s first stride n query value ready bytes index start is_value is_ready =
    rw (store_rows, index, is_value, index, is_ready, start) refl

module _ (r : Row) (s : QueryPoolState) (first stride size : ℕ) (small : size < 2 ^ 64)
    (wide : row_size r ≤ stride) (count : s.count < 2 ^ 32) (values : length s.values ≡ s.count)
    (available : length s.available ≡ s.count) where
  store_rows_lem :
      (n query : ℕ) (bytes : ℕ → ℕ)
      → first + (query + n) ≤ s.count
      → ((j : ℕ) → suc j ≡ n → (query + j) * stride + row_size r ≤ size)
      → (bytes' : ℕ → ℕ) × (store_rows r s first stride n query bytes ≡ some bytes')
        × Stored r s first stride n query bytes bytes'
  unfolding store_rows
  store_rows_lem zero query bytes inside fits = (
    bytes,
    refl,
    record {
      rows = λ i k value ready h. absurd (omega arith);
      before = λ a h. refl;
      gaps = λ a h. refl;
    },
  )
  store_rows_lem (suc n) query bytes inside fits =
      let index : (first + query) % 2 ^ 32 ≡ first + query = omega (arith, inside, count) in
      let v = found s.values (first + query) (omega (arith, inside, values)) in
      let b = found s.available (first + query) (omega (arith, inside, available)) in
      let last = fits n refl in
      let here = row_before query n stride in
      let start : mul64 query stride ≡ query * stride = omega (arith, here, last, small) in
      let next = store_row r (query * stride) v.0 b.0 bytes in
      let rest =
        store_rows_lem n (query + 1) next (omega (arith, inside))
          (λ j e. omega (arith, fits (suc j) (ap suc e), next_row query j stride)) in
      (
        rest.0,
        turn r s first stride n query v.0 b.0 bytes index start v.1 b.1 ∙ rest.1,
        joined r s first stride n query v.0 b.0 bytes rest.0 wide v.1 b.1 rest.2,
      )

required_size_lem :
    (r : Row) (count stride : ℕ)
    → count * stride + row_size r < 2 ^ 64
    → required_size r (suc count) stride ≡ count * stride + row_size r
required_size_lem r count stride small =
    let less : (suc count - 1) * stride ≡ count * stride =
      ap (λ (x : ℕ). x * stride) (omega arith) in
    omega (arith, less, small)

module _ (vk : Enums) (device p first count size stride flags : ℕ) (bytes : ℕ → ℕ)
    (s : QueryPoolState) (d : Driver) (valid : valid_device device d ≡ true)
    (member : is_member p d.query_pools ≡ true) (live : object p d.query_pools ≡ some s)
    (own : s.device ≡ device) (inside : first + suc count ≤ s.count)
    (small : count * stride + row_size (row_of vk flags s) < 2 ^ 64) where
  reached :
      get_query_pool_results vk true device p first (suc count) size stride flags bytes d
      ≡ store_results (row_of vk flags s) s first (suc count) size stride bytes
  unfolding get_query_pool_results
  reached = rw (given, valid, member, live, mine, in_range) refl
    where
      mine : (s.device == device) ≡ true
      mine = ground arith

      in_range : lacks_range s first (suc count) ≡ false
      in_range = ground arith

      given : (not (suc count == 0) && not true) ≡ false
      given = ground arith

  -- Where the rows fit, they are stored.
  pub get_query_pool_results-Stored :
      s.count < 2 ^ 32
      → length s.values ≡ s.count
      → length s.available ≡ s.count
      → row_size (row_of vk flags s) ≤ stride
      → count * stride + row_size (row_of vk flags s) ≤ size
      → size < 2 ^ 64
      → (bytes' : ℕ → ℕ) × (get_query_pool_results vk true device p first
            (suc count)
            size
            stride
            flags
            bytes
            d
          ≡ some (success, bytes'))
        × Stored (row_of vk flags s) s first stride (suc count) 0 bytes bytes'
  unfolding store_results
  get_query_pool_results-Stored many values available wide fits below =
      let r = row_of vk flags s in
      let run =
        store_rows_lem r s first stride size below wide many values available (suc count) 0 bytes
          (omega (arith, inside))
          (λ j e.
            let same : (0 + j) * stride ≡ count * stride =
              ap (λ (x : ℕ). x * stride) (omega arith) in
            omega (arith, same, fits)) in
      (run.0, reached ∙ stored r run.0 run.1 wide fits small, run.2)
    where
      stored :
          (r : Row) (bytes' : ℕ → ℕ)
          → store_rows r s first stride (suc count) 0 bytes ≡ some bytes'
          → row_size r ≤ stride
          → count * stride + row_size r ≤ size
          → count * stride + row_size r < 2 ^ 64
          → store_results r s first (suc count) size stride bytes ≡ some (success, bytes')
      stored r bytes' e wide fits small = rw (enough, e) refl
        where
          enough :
              (not (suc count == 0)
                && (ltb size (required_size r (suc count) stride) || ltb stride (row_size r)))
              ≡ false
          enough = ground (arith, required_size_lem r count stride small, wide, fits)

  -- Where they do not, nothing is.
  pub get_query_pool_results_refused :
      (stride < row_size (row_of vk flags s))
        ⊎ (size < count * stride + row_size (row_of vk flags s))
      → get_query_pool_results vk true device p first (suc count) size stride flags bytes d
        ≡ some (initialization_failed, bytes)
  unfolding store_results
  get_query_pool_results_refused h = reached ∙ refused (row_of vk flags s) small h
    where
      refused :
          (r : Row)
          → count * stride + row_size r < 2 ^ 64
          → (stride < row_size r) ⊎ (size < count * stride + row_size r)
          → store_results r s first (suc count) size stride bytes
            ≡ some (initialization_failed, bytes)
      refused r small h = rw (lacks) refl
        where
          lacks :
              (not (suc count == 0)
                && (ltb size (required_size r (suc count) stride) || ltb stride (row_size r)))
              ≡ true
          lacks = ground (arith, required_size_lem r count stride small, h)
