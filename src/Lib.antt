-- ===== src/Lib.antt =====
-- IsaacMetalBridge: the guest side of a bridge that runs Vulkan and CUDA programs of a Linux guest on
-- the Metal device of the host. The development models the C++ of the guest's libraries.
--
-- The parts and the files that model them:
--   * The CUDA driver shim, guest/cuda_shim/imb_cuda_shim.cpp, in Cuda. Each exported function is a
--     function of the same name in this spelling (cuMemAlloc is cu_mem_alloc) on the record of the
--     globals that it reads and writes. Cuda.Result has the result codes; a Reply is the code, what
--     is stored through the output pointer and the state; an Outcome is a Reply or a fault, which
--     stands for undefined behaviour: a `free`, `delete` or access of memory that is not live.
--     Cuda.Registry is the pattern of all handles: objects made by `new` and a set of valid pointers.
--       Cuda.Memory: gDeviceAllocations, gHostAllocations, gVirtualReservations and the handles of
--         cuMemCreate, with the blocks of `malloc`, the bytes of the storage and the system
--         calls made (State); range checks (Range), allocation (Alloc), copies and fills (Bytes,
--         Copy), reservations and mappings (Virtual); the rest are theorems.
--       Cuda.Streams: streams and events. Cuda.Libraries: modules, functions, libraries, kernels (KernelCalls).
--       Cuda.External: imported memories; Mipmaps, Arrays: mipmapped arrays, arrays, texture objects.
--       Cuda.Semaphores: external semaphores, files of eight bytes.
--       Cuda.Contexts: the current context of a thread and the context-local storage.
--       Cuda.Device: the queries of the device and of the memory sizes.
--   * The wire format, guest/src/imb_wire.hpp, in Wire: integers and headers as lists of bytes.
--   * The clock shim, guest/timer_shim/imb_clock_shim.cpp, in Clock: the table of call sites (Table),
--     threads that use it at once (Threads), the delays (Delays).
--   * The Vulkan driver, guest/vulkan_icd/imb_vulkan_icd.cpp, in Icd. Each function vkFoo, or
--     fooLocked, is a function foo in this spelling. Formats, Sizes: the layout of images, with
--     Saturation, Subresources, Sparse as its theorems. Driver: the sets of gState with their
--     objects as registries of the same pattern, and the bytes of the shared files; a call is a Step
--     or an Answer of Result, `none` for an access of a dead object.
--       Memory: backing and the shared file; Maps: mapping, flushing; Allocate: allocation, import,
--         freeing; Export: export; the rest of it are theorems around the invariant in Good.
--       Bindings: the sparse bindings of a buffer; View: the map from bytes to bytes that they are.
--       Buffers: buffers, binding, device addresses; Transfer: reads, writes, copies and fills,
--         through a binding, sparse bindings or neither.
--       Binds: the checks of vkQueueBindSparse; Perform: the call; Images, with Tails and Tiles: what
--         it does to images; Bound: what it promises; Read: what is read
--         after it; the rest are theorems on the way there.
--       Images: creating and destroying images, and what they require; Blocks, Tiled, Required:
--         theorems; Histories: sequences of these calls and of vkQueueBindSparse.
--       Histories: sequences of the calls on memory and buffers.
--       Fences: creating, resetting and waiting, with what is read back of the host; Waits: theorems.
--       Queries: query pools; Rows: the bytes stored; Layout, Numbers, Results: the
--         numbers they are.
--       Shaders: shader modules; Types, Instructions: the search in their code.
--       Views: buffer views; Ranges: theorems.
--       Semaphores: payloads and submissions; Calls: creation, import and export; Counters: reading,
--         signalling and waits; Loops, Grows, Submissions: theorems; Signalled: a wait for what the
--         CUDA shim signalled.
--   * Base has the Boolean tests, lists, tables, words and bit operations that all share.
--   * Examples applies the theorems to concrete inputs.
--
-- The parts interact through the wire format, which the driver and the host speak, and through file
-- descriptors: memory and semaphores that the Vulkan driver exports are what cuImportExternalMemory and
-- cuImportExternalSemaphore take. A file is a function from offsets to bytes on either side.
--
-- Conventions. Numbers are natural numbers; 64- and 32-bit arithmetic has its wrap-around written
-- out. Pointers are numbers, 0 for null. What `malloc`, `new`, `mmap`, `memfd_create`, `fstat`,
-- `dladdr` and the clock return is an argument of the call, and what is relied on of it, for
-- example that `new` gives out memory that is not in use, is a hypothesis. A null output pointer
-- is a Boolean argument. The page tables of the process, which `mmap` and `munmap` change, are an
-- argument of the CUDA shim's copies and fills: they may lead several addresses to one byte of the
-- storage, as mappings of one file do, and where they lead nowhere an access is a fault. Calls hold one mutex and so are modelled one after the other; the clock
-- shim has no lock, and its threads interleave between atomic steps. Loops run over the list or
-- the count that the source runs over. Some have fuel: the delay loop of the clock, for which
-- one unit more than the number of a late enough reading is shown to be enough; the transfers
-- of a semaphore's value, for which nine turns more than there are transfers before the last
-- interruption are, in the shim and in the driver alike; and the transfers and copies of memory in the
-- driver, which stop at an interruption and start with one turn more than there are bytes, as the
-- search in the code of a shader does with the words. A level of a mipmapped image is below 32,
-- where the shifts of the source are defined. The numbers of VkFormat and of the flags are a parameter, since the Vulkan headers are
-- not part of the repository.
--
-- Not modelled: trace output and environment variables; the forms of a call that only forward to
-- another (_v2, Async); most device queries that store a constant or copy a name; export tables,
-- the integrity hash and the fallback symbols of the CUDA shim; of the Vulkan driver the connection
-- to the host (what it answers is a parameter), the scene state, images apart from their layout,
-- creation and sparse binding, descriptor sets, pipelines, acceleration structures and command buffers; the probes, the guest agent, the host's Swift, the
-- Python extensions and the scripts.
pub mod Base
pub mod Clock
pub mod Cuda
pub mod Examples
pub mod Icd
pub mod Wire
