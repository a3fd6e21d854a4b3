-- ===== src/Icd.antt =====
-- The Vulkan driver, guest/vulkan_icd/imb_vulkan_icd.cpp: the layout of images, and device memory,
-- buffers, fences, semaphores and queries.
pub mod Formats
pub mod Sizes
pub mod Saturation
pub mod Subresources
pub mod Sparse
pub mod Result
pub mod Bindings
pub mod Driver
pub mod Memory
pub mod Buffers
pub mod Binds
pub mod Images
pub mod Histories
pub mod Semaphores
pub mod Fences
pub mod Queries
pub mod Shaders
pub mod Views
