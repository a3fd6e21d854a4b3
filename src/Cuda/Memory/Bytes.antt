-- ===== src/Cuda/Memory/Bytes.antt =====
-- The bytes behind the copies of guest/cuda_shim/imb_cuda_shim.cpp: `memcpy`, `memmove`,
-- `std::fill_n`. Addresses are native numbers, which the page tables of the process lead to the
-- bytes of the storage: two mappings of one file lead to the same ones. A multi-byte value is
-- stored low byte first, as on the ARM64 guest.
use isaac_metal_bridge.Base.{
  ℕ, zero, suc, ◌+◌, ◌/◌, ◌%◌, Bool, true, false, not, ◌&&◌, ◌||◌, Option, none, some, List, [],
  ◌∷◌, ◌==◌, if◌then◌else◌,
}

-- What is stored, by byte of the storage.
abbrev pub Bytes : Type 0
Bytes = ℕ → ℕ

-- Where an address leads, `none` if an access faults.
abbrev pub Pages : Type 0
Pages = ℕ → Option ℕ

abbrev pub store_byte : ℕ → ℕ → Bytes → Bytes
store_byte c v bytes = λ b. if c == b then v else bytes b

-- Byte `i` of a value.
unfoldable pub byte_of : ℕ → ℕ → ℕ
byte_of zero v = v % 256
byte_of (suc i) v = byte_of i (v / 256)

-- Reading so many bytes from an address on.
unfoldable pub load : Pages → Bytes → ℕ → ℕ → Option (List ℕ)
load pages bytes a zero = some []
load pages bytes a (suc n) = elim (pages a) [
  | none ↦ none
  | some c ↦ elim (load pages bytes (a + 1) n) [ none ↦ none | some vs ↦ some (bytes c ∷ vs) ]
]

-- Writing bytes from an address on.
unfoldable pub store : Pages → ℕ → List ℕ → Bytes → Option Bytes
store pages a [] bytes = some bytes
store pages a (v ∷ vs) bytes = elim (pages a) [
  | none ↦ none
  | some c ↦ store pages (a + 1) vs (store_byte c v bytes)
]

abbrev pub same_place : Option ℕ → Option ℕ → Bool
same_place (some c) (some d) = c == d
same_place _ _ = false

-- Does an address share its byte with one of a range? `moved` passes over the address itself.
unfoldable pub meets : Pages → Bool → ℕ → ℕ → ℕ → Bool
meets pages moved a from zero = false
meets pages moved a from (suc n) =
    same_place (pages a) (pages from) && not (moved && a == from)
    || meets pages moved a (from + 1) n

unfoldable pub clashes : Pages → Bool → ℕ → ℕ → ℕ → ℕ → Bool
unfolding meets
clashes pages moved to zero from size = false
clashes pages moved to (suc n) from size =
    meets pages moved to from size || clashes pages moved (to + 1) n from size

-- Reading all bytes, then writing them: `none` for an access that faults, and where the outcome
-- hangs on the order of the bytes because a byte that is written has another address in the ranges.
abbrev pub transfer : Pages → Bool → ℕ → ℕ → ℕ → Bytes → Option Bytes
transfer pages moved to from size bytes =
    if clashes pages true to size to size || clashes pages moved to size from size
    then none
    else elim (load pages bytes from size) [ none ↦ none | some vs ↦ store pages to vs bytes ]

-- `std::memmove`: the old bytes of the source, also where the ranges overlap.
unfoldable pub memmove : Pages → ℕ → ℕ → ℕ → Bytes → Option Bytes
unfolding load store clashes
memmove pages = transfer pages true

-- `std::memcpy`, which ranges that overlap leave undefined.
unfoldable pub memcpy : Pages → ℕ → ℕ → ℕ → Bytes → Option Bytes
unfolding load store clashes
memcpy pages = transfer pages false

-- The bytes of a value of `width` bytes.
abbrev pub value_bytes : ℕ → ℕ → List ℕ
value_bytes zero v = []
value_bytes (suc width) v = v % 256 ∷ value_bytes width (v / 256)

-- `std::fill_n` over `count` values.
unfoldable pub fill_n : Pages → ℕ → ℕ → ℕ → ℕ → Bytes → Option Bytes
unfolding store
fill_n pages width zero a v bytes = some bytes
fill_n pages width (suc count) a v bytes = elim (store pages a (value_bytes width v) bytes) [
  | none ↦ none
  | some bytes' ↦ fill_n pages width count (a + width) v bytes'
]
