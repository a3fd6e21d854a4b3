-- ===== src/Wire.antt =====
-- guest/src/imb_wire.hpp: little-endian integers, the 32-byte message header and the version test.
-- A byte is a number below 256; an integer of `width` bytes is a number below 2 ^ (width * 8).
pub mod Digits
pub mod Reading
pub mod Header
pub mod Versions
use isaac_metal_bridge.Base.{
  ℕ, zero, suc, ◌+◌, ◌-◌, ◌*◌, ◌/◌, ◌%◌, ◌^◌, Bool, true, false, not, ◌&&◌, ◌||◌, Option, none,
  some, List, [], ◌∷◌, ◌++◌, length, get_or, leb, ltb, ◌==◌, ◌>>=◌, if◌then◌else◌, bit_or,
}

abbrev pub Bytes : Type 0
Bytes = List ℕ

-- The loop from byte `i`, with `n` of them left.
unfoldable pub append_bytes : ℕ → ℕ → Bytes → ℕ → Bytes
append_bytes zero i output value = output
append_bytes (suc n) i output value =
    append_bytes n (i + 1) (output ++ value / 2 ^ (i * 8) % 256 ∷ []) value

abbrev pub append_little_endian : ℕ → Bytes → ℕ → Bytes
append_little_endian width output value = append_bytes width 0 output value

-- The loop from byte `i`, with `n` of them left; the shift is cut to the width.
unfoldable pub read_bytes : ℕ → ℕ → ℕ → Bytes → ℕ → ℕ → ℕ
read_bytes zero width i input offset result = result
read_bytes (suc n) width i input offset result =
    read_bytes n width (i + 1) input offset
      (bit_or result (get_or input (offset + i) 0 * 2 ^ (i * 8) % 2 ^ (width * 8)))

-- `none` is the exception "integer exceeds payload boundary".
unfoldable pub read_little_endian : ℕ → Bytes → ℕ → Option ℕ
read_little_endian width input offset =
    if ltb (length input) offset || ltb (length input - offset) width
    then none
    else some (read_bytes width width 0 input offset 0)

pub record MessageHeader : Type 0 where
  pub magic : ℕ
  pub version_major : ℕ
  pub version_minor : ℕ
  pub message_type : ℕ
  pub flags : ℕ
  pub payload_length : ℕ
  pub request_id : ℕ
  pub resource_id : ℕ

unfoldable pub encode_header : MessageHeader → Bytes
encode_header h =
    let output = append_little_endian 4 [] h.magic in
    let output = append_little_endian 2 output h.version_major in
    let output = append_little_endian 2 output h.version_minor in
    let output = append_little_endian 2 output h.message_type in
    let output = append_little_endian 2 output h.flags in
    let output = append_little_endian 4 output h.payload_length in
    let output = append_little_endian 8 output h.request_id in
    append_little_endian 8 output h.resource_id

-- `none` is the exception "IMB header must be 32 bytes", or one of `read_little_endian`.
unfoldable pub decode_header : Bytes → Option MessageHeader
decode_header input = if not (length input == 32) then none else do
  magic ← read_little_endian 4 input 0
  version_major ← read_little_endian 2 input 4
  version_minor ← read_little_endian 2 input 6
  message_type ← read_little_endian 2 input 8
  flags ← read_little_endian 2 input 10
  payload_length ← read_little_endian 4 input 12
  request_id ← read_little_endian 8 input 16
  resource_id ← read_little_endian 8 input 24
  some (record {
    magic = magic;
    version_major = version_major;
    version_minor = version_minor;
    message_type = message_type;
    flags = flags;
    payload_length = payload_length;
    request_id = request_id;
    resource_id = resource_id;
  })

unfoldable pub version_range_includes : ℕ → ℕ → ℕ → ℕ → ℕ → ℕ → Bool
version_range_includes min_major min_minor max_major max_minor major minor =
    let above_minimum = ltb min_major major || (min_major == major && leb min_minor minor) in
    let below_maximum = ltb major max_major || (max_major == major && leb minor max_minor) in
    above_minimum && below_maximum
