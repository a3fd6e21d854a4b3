-- ===== src/Examples/Queries.antt =====
-- Query pools of guest/vulkan_icd/imb_vulkan_icd.cpp at a concrete input.
use isaac_metal_bridge.Base.{
  ℕ, ◌+◌, ◌*◌, ◌≤◌, ◌<◌, ◌≡◌, ◌⊎◌, refl, Bool, true, false, some, [], ◌∷◌, lookup, contains,
  get_elem?, arith,
}
use isaac_metal_bridge.Icd.Result.{success, initialization_failed}
use isaac_metal_bridge.Icd.Driver.{Driver, QueryPoolState}
use isaac_metal_bridge.Icd.Queries.{get_query_pool_results}
use isaac_metal_bridge.Icd.Queries.Layout.{IsLayout}
use isaac_metal_bridge.Icd.Queries.Numbers.{HoldsRow, words}
use isaac_metal_bridge.Icd.Queries.Results.{get_query_pool_results_lem}
use isaac_metal_bridge.Examples.Driver.{start, vulkan}

abbrev pool : QueryPoolState
pool = record {
  device = 3;
  type = 0;
  count = 3;
  pipeline_statistics = 0;
  values = 7 ∷ 8 ∷ 9 ∷ [];
  available = true ∷ false ∷ true ∷ [];
}

abbrev one_pool : Driver
one_pool = record start { query_pools = record { live = (72, pool) ∷ []; members = 72 ∷ [] } }

pool-IsLayout : IsLayout vulkan 5 pool 8 1 true
pool-IsLayout = record {
  narrow = λ h. ground (arith, h);
  wide = λ h. refl;
  one = λ h. refl;
  statistics = λ h. ground (arith, h);
  unasked = λ h. ground (arith, h);
  available = λ h. refl;
}

-- Two queries of values of 64 bits with their availability, in 32 bytes.
get_query_pool_results_lem_example :
    let call = get_query_pool_results vulkan true 3 72 1 2 32 16 5 (λ a. 255) one_pool in
    let row_bytes = words 1 true * 8 in
    ((row_bytes ≤ 16)
      × (1 * 16 + row_bytes ≤ 32)
      × ((bytes : ℕ → ℕ) × (call ≡ some (success, bytes))
          × ((i value : ℕ) (ready : Bool)
              → i < 2
              → get_elem? pool.values (1 + i) ≡ some value
              → get_elem? pool.available (1 + i) ≡ some ready
              → HoldsRow 8 1 true value ready (i * 16) bytes)
          × ((a : ℕ)
              → ((i : ℕ) → i < 2 → (a < i * 16) ⊎ (i * 16 + row_bytes ≤ a))
              → bytes a ≡ 255)))
    ⊎ (((16 < row_bytes) ⊎ (32 < 1 * 16 + row_bytes))
        × (call ≡ some (initialization_failed, λ a. 255)))
get_query_pool_results_lem_example =
    get_query_pool_results_lem vulkan 3 72 1 1 32 16 5 8 1 true (λ a. 255) pool one_pool
      (unfold lookup in refl) (unfold contains in refl) (unfold lookup in refl) refl (omega arith)
      refl refl (omega arith) pool-IsLayout (omega arith) (omega arith)
