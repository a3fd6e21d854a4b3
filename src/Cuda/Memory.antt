-- ===== src/Cuda/Memory.antt =====
-- Memory of guest/cuda_shim/imb_cuda_shim.cpp: allocations, reservations, mappings and copies.
pub mod State
pub mod Range
pub mod Alloc
pub mod Bytes
pub mod Storage
pub mod Copied
pub mod Filled
pub mod Copy
pub mod Virtual
pub mod Ownership
pub mod Histories
pub mod Transfer
pub mod Reservation
pub mod Mapping
