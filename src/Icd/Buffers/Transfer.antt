-- ===== src/Icd/Buffers/Transfer.antt =====
-- Reading and writing the bytes of a buffer of guest/vulkan_icd/imb_vulkan_icd.cpp, through the
-- memory it is bound to or, chunk by chunk, through its sparse bindings.
use isaac_metal_bridge.Base.{
  ℕ, zero, suc, ◌+◌, ◌-◌, ◌%◌, ◌/◌, ◌^◌, ◌*◌, Bool, true, false, not, ◌||◌, Option, none, some,
  List, leb, ltb, ◌==◌, if◌then◌else◌, min, add64, sub64,
}
use isaac_metal_bridge.Cuda.Registry.{object}
use isaac_metal_bridge.Icd.Result.{VkResult, success, memory_map_failed, out_of_host_memory}
use isaac_metal_bridge.Icd.Bindings.{SparseBufferBinding, binding_at}
use isaac_metal_bridge.Icd.Driver.{Driver, BufferState, Step, and_then}
use isaac_metal_bridge.Icd.Driver.Transfers.{within}
use isaac_metal_bridge.Icd.Memory.{
  Surroundings, store_memory, ensure_memory_backing, sync_memory_to_external_fd,
  refresh_memory_from_external_fd, dirtied, clean_shared,
}
use isaac_metal_bridge.Icd.Buffers.{buffer_for_device_address}

-- A read: the code, the bytes by index, and the state.
abbrev pub Read : Type 0
Read = Option (VkResult × (ℕ → ℕ) × Driver)

abbrev pub and_read : Step → (Driver → Read) → Read
and_read none f = none
and_read (some (success, d)) f = f d
and_read (some (e, d)) f = some (e, λ i. 0, d)

-- `memcpy` of `chunk` bytes of the memory, to index `copied` on.
abbrev pub gathered : (ℕ → ℕ) → ℕ → ℕ → (ℕ → ℕ) → ℕ → ℕ → ℕ
gathered output copied chunk bytes source i =
    if within copied chunk i then bytes (source + (i - copied)) else output i

-- One chunk is taken from the memory of a binding.
unfoldable pub read_chunk : Surroundings → ℕ → ℕ → ℕ → ℕ → (ℕ → ℕ) → Driver → Read
read_chunk e p source copied chunk output d =
    and_read (ensure_memory_backing e p false d) (λ (d : Driver). elim (object p d.memories) [
      | none ↦ none
      | some m ↦
          if ltb m.size source || ltb (m.size - source) chunk
          then some (memory_map_failed, λ i. 0, d)
          else and_read (refresh_memory_from_external_fd e p source chunk d) (λ (d : Driver).
            elim (object p d.memories) [
              | none ↦ none
              | some m ↦ some (success, gathered output copied chunk m.bytes source, d)
            ])
    ])

abbrev pub chunk_of : SparseBufferBinding → ℕ → ℕ → ℕ
chunk_of b offset left = min left (b.size - (offset - b.resource_offset))

abbrev pub memory_place : SparseBufferBinding → ℕ → ℕ
memory_place b offset = add64 b.memory_offset (sub64 offset b.resource_offset)

-- The loop over the chunks, on fuel.
unfoldable pub read_sparse :
    ℕ → Surroundings → List SparseBufferBinding → ℕ → ℕ → ℕ → (ℕ → ℕ) → Driver → Read
unfolding read_chunk
read_sparse zero e bindings offset size copied output d = none
read_sparse (suc n) e bindings offset size copied output d =
    if leb size copied
    then some (success, output, d)
    else elim (binding_at bindings (add64 offset copied)) [
      | none ↦ some (memory_map_failed, λ i. 0, d)
      | some b ↦ elim (b.memory == 0) [
        | true ↦ some (memory_map_failed, λ i. 0, d)
        | false ↦
            let chunk = chunk_of b (add64 offset copied) (size - copied) in
            elim (read_chunk e b.memory (memory_place b (add64 offset copied)) copied chunk output
              d) [
                | none ↦ none
                | some (success, output', d') ↦
                    read_sparse n e bindings offset size (copied + chunk) output' d'
                | some (error, output', d') ↦ some (error, output', d')
              ]
      ]
    ]

-- The memory that the whole buffer is bound to.
unfoldable pub read_bound : Surroundings → BufferState → ℕ → ℕ → Driver → Read
read_bound e b offset size d = and_read (ensure_memory_backing e b.memory false d) (λ (d : Driver).
    elim (object b.memory d.memories) [
      | none ↦ none
      | some m ↦
          let source = add64 b.memory_offset offset in
          if (ltb m.size b.memory_offset || ltb (m.size - b.memory_offset) offset)
            || (ltb m.size source || ltb (m.size - source) size)
          then some (memory_map_failed, λ i. 0, d)
          else and_read (refresh_memory_from_external_fd e b.memory source size d) (λ (d : Driver).
            elim (object b.memory d.memories) [
              | none ↦ none
              | some m ↦ some (success, gathered (λ i. 0) 0 size m.bytes source, d)
            ])
    ])

-- Once the buffer is found; `resizes` is whether the output can be made.
unfoldable pub bound_result : Bool → Read → Read
bound_result resizes none = none
bound_result resizes (some (success, bytes, d)) =
    if resizes then some (success, bytes, d) else some (out_of_host_memory, λ i. 0, d)
bound_result resizes (some (error, bytes, d)) = some (error, bytes, d)

unfoldable pub read_buffer : Surroundings → Bool → ℕ → ℕ → ℕ → Driver → Read
unfolding read_bound read_sparse bound_result
read_buffer e resizes p address size d =
    if p == 0 || size == 0 then some (memory_map_failed, λ i. 0, d) else elim (object p d.buffers) [
      | none ↦ none
      | some b ↦
          let offset = sub64 address b.device_address in
          if ltb b.size offset || ltb (b.size - offset) size
          then some (memory_map_failed, λ i. 0, d)
          else if not (b.memory == 0)
          then bound_result resizes (read_bound e b offset size d)
          else if not resizes
          then some (out_of_host_memory, λ i. 0, d)
          else read_sparse (suc size) e b.sparse_bindings offset size 0 (λ i. 0) d
    ]

unfoldable pub copy_device_address_bytes : Surroundings → Bool → ℕ → ℕ → ℕ → Driver → Read
unfolding read_buffer
copy_device_address_bytes e resizes device address size d =
    elim (buffer_for_device_address device address d) [
      | none ↦ none
      | some p ↦ read_buffer e resizes p address size d
    ]

-- `memcpy` of `count` bytes of the source, from index `from` on, to the memory.
abbrev pub scattered : (ℕ → ℕ) → ℕ → ℕ → (ℕ → ℕ) → ℕ → ℕ → ℕ
scattered bytes place count source from a =
    if within place count a then source (from + (a - place)) else bytes a

-- The bytes are stored, marked as dirty, and written to the file if there is one.
unfoldable pub write_chunk : Surroundings → ℕ → ℕ → ℕ → (ℕ → ℕ) → ℕ → Driver → Step
write_chunk e p place count source from d = elim (object p d.memories) [
  | none ↦ none
  | some m ↦
      and_then
        (sync_memory_to_external_fd e p place count (
          store_memory p
            (dirtied place (add64 place count)
              (record m { bytes = scattered m.bytes place count source from }))
            d))
        (λ (d : Driver). elim (clean_shared p d) [ none ↦ none | some d' ↦ some (success, d') ])
]

-- One chunk is put into the memory of a binding.
unfoldable pub write_to_binding : Surroundings → ℕ → ℕ → ℕ → (ℕ → ℕ) → ℕ → Driver → Step
unfolding write_chunk
write_to_binding e p place count source from d =
    and_then (ensure_memory_backing e p false d) (λ (d : Driver). elim (object p d.memories) [
      | none ↦ none
      | some m ↦
          if ltb m.size place || ltb (m.size - place) count
          then some (memory_map_failed, d)
          else write_chunk e p place count source from d
    ])

unfoldable pub write_sparse :
    ℕ → Surroundings → List SparseBufferBinding → ℕ → (ℕ → ℕ) → ℕ → ℕ → Driver → Step
unfolding write_to_binding
write_sparse zero e bindings offset source size written d = none
write_sparse (suc n) e bindings offset source size written d =
    if leb size written
    then some (success, d)
    else elim (binding_at bindings (add64 offset written)) [
      | none ↦ some (memory_map_failed, d)
      | some b ↦ elim (b.memory == 0) [
        | true ↦ some (memory_map_failed, d)
        | false ↦
            let chunk = chunk_of b (add64 offset written) (size - written) in
            elim (write_to_binding e b.memory (memory_place b (add64 offset written)) chunk source
              written d) [
                | none ↦ none
                | some (success, d') ↦
                    write_sparse n e bindings offset source size (written + chunk) d'
                | some (error, d') ↦ some (error, d')
              ]
      ]
    ]

unfoldable pub write_bound : Surroundings → BufferState → ℕ → (ℕ → ℕ) → ℕ → Driver → Step
unfolding write_chunk
write_bound e b offset source size d =
    and_then (ensure_memory_backing e b.memory false d) (λ (d : Driver).
      elim (object b.memory d.memories) [
        | none ↦ none
        | some m ↦
            let place = add64 b.memory_offset offset in
            if (ltb m.size b.memory_offset || ltb (m.size - b.memory_offset) offset)
              || ltb (sub64 m.size place) size
            then some (memory_map_failed, d)
            else write_chunk e b.memory place size source 0 d
      ])

-- `p` is 0 for a null buffer; `given` is false for a null source.
unfoldable pub write_buffer_bytes : Surroundings → Bool → ℕ → ℕ → (ℕ → ℕ) → ℕ → Driver → Step
unfolding write_bound write_sparse
write_buffer_bytes e given p offset source size d =
    if p == 0 || (not given || size == 0)
    then some (memory_map_failed, d)
    else elim (object p d.buffers) [
      | none ↦ none
      | some b ↦
          if ltb b.size offset || ltb (b.size - offset) size
          then some (memory_map_failed, d)
          else if b.memory == 0
          then write_sparse (suc size) e b.sparse_bindings offset source size 0 d
          else write_bound e b offset source size d
    ]

pub record BufferCopy : Type 0 where
  pub src_offset : ℕ
  pub dst_offset : ℕ
  pub size : ℕ

unfoldable pub copy_buffer_bytes : Surroundings → Bool → ℕ → ℕ → BufferCopy → Driver → Step
unfolding copy_device_address_bytes write_buffer_bytes
copy_buffer_bytes e resizes source destination region d =
    if source == 0 || (destination == 0 || region.size == 0)
    then some (memory_map_failed, d)
    else elim (object source d.buffers) [
      | none ↦ none
      | some s ↦ elim (object destination d.buffers) [
        | none ↦ none
        | some t ↦
            if (ltb s.size region.src_offset || ltb (s.size - region.src_offset) region.size)
              || (ltb t.size region.dst_offset || ltb (t.size - region.dst_offset) region.size)
            then some (memory_map_failed, d)
            else elim (copy_device_address_bytes e resizes s.device
                (add64 s.device_address region.src_offset) region.size d) [
                  | none ↦ none
                  | some (success, bytes, d') ↦
                      write_buffer_bytes e true destination region.dst_offset bytes region.size d'
                  | some (error, bytes, d') ↦ some (error, d')
                ]
      ]
    ]

-- `pattern`: 4096 bytes, the four of the value over and over.
abbrev pub pattern : ℕ → ℕ → ℕ
pattern value i = value / 2 ^ (8 * (i % 4)) % 256

-- The loop of executeBufferFillLocked, on fuel.
unfoldable pub fill_chunks : ℕ → Surroundings → ℕ → ℕ → ℕ → ℕ → ℕ → Driver → Step
unfolding write_buffer_bytes
fill_chunks zero e p offset size value written d = none
fill_chunks (suc n) e p offset size value written d =
    if leb size written
    then some (success, d)
    else (let chunk = min 4096 (size - written) in
        elim (write_buffer_bytes e true p (add64 offset written) (pattern value) chunk d) [
          | none ↦ none
          | some (success, d') ↦ fill_chunks n e p offset size value (written + chunk) d'
          | some (error, d') ↦ some (error, d')
        ])

unfoldable pub execute_buffer_fill : Surroundings → ℕ → ℕ → ℕ → ℕ → Driver → Step
unfolding fill_chunks
execute_buffer_fill e p offset size value d =
    if p == 0 || size == 0
    then some (memory_map_failed, d)
    else fill_chunks (suc size) e p offset size value 0 d
