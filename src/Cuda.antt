-- ===== src/Cuda.antt =====
-- The CUDA driver shim, guest/cuda_shim/imb_cuda_shim.cpp, one module for each group of calls.
pub mod Result
pub mod Contexts
pub mod Device
pub mod Registry
pub mod Memory
pub mod Streams
pub mod Libraries
pub mod External
pub mod Semaphores
