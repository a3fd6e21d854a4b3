-- ===== src/Examples/External.antt =====
-- External memory of guest/cuda_shim/imb_cuda_shim.cpp at concrete inputs.
use isaac_metal_bridge.Base.{
  ℕ, zero, suc, pos, ◌≡◌, refl, true, Option, none, some, [], ◌∷◌, lookup, contains, put, insert,
  remove, erase, arith,
}
use isaac_metal_bridge.Cuda.Result.{Reply, quiet, succeed}
use isaac_metal_bridge.Cuda.Registry.{empty, delete_object}
use isaac_metal_bridge.Cuda.Memory.State.{Memory, munmap, close, after_call}
use isaac_metal_bridge.Cuda.External.{
  External, MipmapDescriptor, BufferDescriptor, cu_external_memory_get_mapped_buffer,
  cu_destroy_external_memory, map_buffer, release_external, is_used,
}
use isaac_metal_bridge.Cuda.External.Mipmaps.{make_mipmap}
use isaac_metal_bridge.Cuda.External.LevelArrays.{IsFresh}
use isaac_metal_bridge.Cuda.External.Intact.{IsIntact}
use isaac_metal_bridge.Cuda.External.Rollback.{
  IsRestored, make_mipmap-IsRestored, cu_destroy_external_memory_stale,
}
use isaac_metal_bridge.Cuda.External.Histories.{
  run, run-IsIntact, get_mipmap, destroy_array, destroy_mipmap, destroy_memory,
}
use isaac_metal_bridge.Examples.Memory.{two_blocks}

-- An imported memory of a page.
abbrev imported : External
imported = record {
  memory = two_blocks;
  memories = record {
    live = (16, record { fd = 7; size = 4096; mapping = 65536 }) ∷ [];
    members = 16 ∷ [];
  };
  mipmaps = empty;
  arrays = empty;
  next_texture_object = 1;
}

imported-IsIntact : IsIntact imported
unfolding lookup contains
imported-IsIntact = record {
  memories = λ p. ground arith;
  mipmaps = λ p. refl;
  arrays = λ p. refl;
  nonnull = λ p h. ground arith;
  mipmap_memory = λ p m h. ground arith;
  levels_owned = λ p m h l a e. ground arith;
}

-- The first array can be made, the second cannot.
abbrev one_array : ℕ → Option ℕ
one_array zero = some 48
one_array (suc l) = none

one_array-IsFresh : IsFresh imported.arrays one_array
unfolding lookup
one_array-IsFresh = record { unused = λ l a h. refl; apart = λ l k a h g. only l k a h g }
  where
    only : (l k a : ℕ) → one_array l ≡ some a → one_array k ≡ some a → l ≡ k
    only zero zero a h g = refl
    only zero (suc k) a h g = cc
    only (suc l) k a h g = cc

abbrev two_levels : MipmapDescriptor
two_levels = record {
  offset = 0;
  width = 2;
  height = 2;
  depth = 1;
  format = pos 1;
  num_channels = 4;
  flags = 0;
  num_levels = 2;
}

make_mipmap-IsRestored_example :
    IsRestored imported (make_mipmap imported 16 two_levels (some 32) true one_array)
make_mipmap-IsRestored_example =
    make_mipmap-IsRestored imported 16 two_levels 32 true one_array
      (λ p. imported-IsIntact.arrays p) one_array-IsFresh

run-IsIntact_example :
    (x : External) × (run imported (
        get_mipmap true 16 (some two_levels) (some 32) true one_array
        ∷ destroy_array 48
        ∷ destroy_mipmap 32
        ∷ destroy_memory 16
        ∷ [])
      ≡ some x)
    × IsIntact x
run-IsIntact_example =
    run-IsIntact
      (get_mipmap true 16 (some two_levels) (some 32) true one_array
        ∷ destroy_array 48
        ∷ destroy_mipmap 32
        ∷ destroy_memory 16
        ∷ [])
      imported imported-IsIntact
      ((omega arith, one_array-IsFresh), λ x e. (tt, λ y f. (tt, λ z g. (tt, λ w h. tt))))

abbrev buffer : BufferDescriptor
buffer = record { offset = 0; size = 64; flags = 0 }

abbrev mapped_memory : Memory
mapped_memory = record two_blocks {
  device_allocations = (4096, 64) ∷ (65536, 64) ∷ [];
  external_device_pointers = 65536 ∷ [];
}

abbrev with_buffer : Reply External ℕ
with_buffer = succeed (record imported { memory = mapped_memory }) 65536

abbrev destroyed : External
destroyed = record imported {
  memory = after_call (after_call mapped_memory (munmap 65536 4096)) (close 7);
  memories = empty;
}

cu_destroy_external_memory_stale_example :
    lookup 65536 destroyed.memory.device_allocations ≡ some 64
cu_destroy_external_memory_stale_example =
    cu_destroy_external_memory_stale imported 16 65536 buffer with_buffer (quiet destroyed)
      (unfold cu_external_memory_get_mapped_buffer map_buffer lookup contains put insert in refl)
      refl
      (unfold cu_destroy_external_memory release_external is_used delete_object lookup contains
          remove erase in
        refl)
