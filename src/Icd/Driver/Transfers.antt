-- ===== src/Icd/Driver/Transfers.antt =====
-- The loops around `pwrite` and `pread` of guest/vulkan_icd/imb_vulkan_icd.cpp on the files that
-- back device memory, which stop at any transfer of no bytes or with an error.
use isaac_metal_bridge.Base.{
  ℕ, zero, suc, ◌+◌, ◌-◌, Bool, true, false, ◌&&◌, Option, none, some, leb, ltb, ◌==◌,
  if◌then◌else◌,
}
use isaac_metal_bridge.Cuda.Semaphores.{Device, moved, interrupted, failed}
use isaac_metal_bridge.Icd.Driver.{Driver}

abbrev pub within : ℕ → ℕ → ℕ → Bool
within start count a = leb start a && ltb a (start + count)

-- `count` bytes of the memory from `start` on, into the file at the same offset.
abbrev pub stored : Driver → ℕ → (ℕ → ℕ) → ℕ → ℕ → Driver
stored d fd bytes start count = record d {
  transfers = d.transfers + 1;
  files = λ f a. if f == fd && within start count a then bytes a else d.files f a;
}

abbrev pub counted : Driver → Driver
counted d = record d { transfers = d.transfers + 1 }

-- Whether all bytes of the range were written, on fuel.
unfoldable pub write_range : ℕ → Device → ℕ → (ℕ → ℕ) → ℕ → ℕ → ℕ → Driver → Option (Bool × Driver)
write_range zero pwrite fd bytes offset size written d = none
write_range (suc n) pwrite fd bytes offset size written d =
    if leb size written then some (true, d) else elim (pwrite d.transfers (size - written)) [
      | interrupted ↦ some (false, counted d)
      | failed ↦ some (false, counted d)
      | moved count ↦ elim (count == 0) [
        | true ↦ some (false, counted d)
        | false ↦
            write_range n pwrite fd bytes offset size (written + count)
              (stored d fd bytes (offset + written) count)
      ]
    ]

-- The bytes of the memory after the transfer of `count` bytes to `start`.
abbrev pub loaded : Driver → ℕ → (ℕ → ℕ) → ℕ → ℕ → ℕ → ℕ
loaded d fd bytes start count a = if within start count a then d.files fd a else bytes a

unfoldable pub read_range :
    ℕ → Device → ℕ → (ℕ → ℕ) → ℕ → ℕ → ℕ → Driver → Option (Bool × (ℕ → ℕ) × Driver)
read_range zero pread fd bytes offset size read d = none
read_range (suc n) pread fd bytes offset size read d =
    if leb size read then some (true, bytes, d) else elim (pread d.transfers (size - read)) [
      | interrupted ↦ some (false, bytes, counted d)
      | failed ↦ some (false, bytes, counted d)
      | moved count ↦ elim (count == 0) [
        | true ↦ some (false, bytes, counted d)
        | false ↦
            read_range n pread fd (loaded d fd bytes (offset + read) count) offset size
              (read + count) (counted d)
      ]
    ]
