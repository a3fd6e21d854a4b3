-- ===== src/Examples.antt =====
-- The theorems at concrete inputs.
mod Memory
mod Mappings
mod Streams
mod Libraries
mod External
mod Contexts
mod Semaphores
mod Wire
mod Clock
mod Icd
mod Bindings
mod Binds
mod Driver
mod Sharing
mod Fences
mod Queries
mod Shaders
mod Views
