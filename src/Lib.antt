-- ===== src/Lib.antt =====
-- The allocator of numa-pmr: NUMA-bound memory from the OS, a span cache for large objects, and
-- slabs with size classes for small ones; the arena of a node, which joins the two and collects
-- the blocks that other nodes' threads free; the caches of the threads, which lie over the arenas;
-- and the `std::pmr` resources.
--
-- Which file models what. Paths are those of the repository.
--   Machine          the 64-bit machine: words, system calls, exceptions, the allocator's memory
--   VirtualMemory    src/virtual_memory: `align_up`, `reserve`, `alloc_on_node`, `release`,
--                    `bind_to_node`, the `advise_*` hints
--   Config, Block    src/size_divide/block.hpp: `SizeClassConfig` (Config/Small),
--                    `LargeObjectConfig` (Config/Large), `BlockHeader`
--   LargeObject      src/size_divide/large_object: `LargeObjectAllocator`
--   SizeClassTable   `SizeClassTable`, `count_distinct_size_classes` and `kClassSizes` of
--                    src/size_divide/small_object/small_object_allocator.hpp
--   Slab             `Slab` of src/size_divide/small_object
--   NodeLocal        `NodeLocalAllocator` and the `std::vector` of slabs over it, same files
--   SizeClass        `SizeClass`, same files
--   SmallObject      `SmallObjectAllocator`, same files
--   BlockList        the bins of blocks that `NumaArena` and `ThreadLocalCache` keep
--   Arena            src/numa_arena: `NumaArena`, one call at a time; Arena/Client has the clients of
--                    its small blocks, over any sequence of calls; Arena/Interleaving has the steps
--                    of many threads on its bins and its counter of foreign bytes
--   ArenaManager     src/arena_manager: `ArenaManager`; and `NumaArena::deallocate`, which asks the
--                    manager for the arena of the block's node, and `NumaArenaDeleter`
--   ThreadCache      src/thread_local: `ThreadLocalCache` and `ThreadNumaContextOwner`
--   Topology         src/numa_topology/numa_topology.cpp: the constructor of `NumaTopologyManager`
--                    and its queries of nodes
--   Affinity         src/numa_topology: pinning, and numa_thread_pin_guard.hpp and .cpp
--   SimpleResource   src/numa_simple_memory_resource.hpp
--   Resources        src/numa_memory_resource.hpp and src/numa_arena_memory_resource.hpp
--   Tests            runs at concrete inputs
-- Base holds the shared names and lemmas on numbers, lists and sums.
--
-- State. Memory is a record of maps from addresses to the objects that the allocator keeps inside
-- its spans: block headers, slab headers, and the link words of free blocks. That objects of
-- different kinds do not overlap is what the layout theorems are for. A `World` is a memory with
-- the list of system calls made, newest first; what the kernel answers is a function of that list
-- (`Platform`), and what POSIX says of the answers (`MmapLaws`) is a hypothesis where it is used.
-- Methods are functions in a state monad with C++ exceptions (`M`), over the object and the world;
-- the state survives an exception. Numbers are ℕ; an operation on `size_t` or `uint32_t` that can
-- wrap is written with its modulus. The machine is LP64: 8-byte pointers, `ALIGNMENT` 16.
--
-- Loops recur on the rounds left, which each caller computes from the loop's bounds, so none runs
-- out. The loops that empty a bin take the bin's count as their rounds, which is the length of its
-- list where the bin is well formed (`IsBin`). `deallocate_batch` runs over a linked list: its
-- rounds are an argument, one more than the blocks of the list are enough, and an arena passes its
-- batch's count and one. `kClassSizes` is evaluated by its own loop over all 4096 sizes. The
-- capacity that a `std::vector` grows to is the C++ library's choice and a field of `Platform`, as
-- are the sizes of the two classes that are placed in memory of their own, `NumaArena` and
-- `ThreadLocalCache`. What `sched_getcpu` returns is an argument; what the kernel makes of an
-- affinity is a `Scheduler`.
--
-- Pointers between objects. An arena is named by its `Place`: the manager's arena of a node, or the
-- own arena of a resource. A method that the code calls through a pointer runs on the object at
-- that place and puts it back. A block of a bin is its header's address.
--
-- Clients. `Run` of Arena/Client relates an arena to the blocks that its clients hold, after any
-- sequence of calls that return: `allocate` of small sizes, both kinds of `deallocate`, drains of the
-- bins, and steps of other code that leaves alone the arena's node, small allocator and bins, the
-- slabs' headers, the block headers and the links of the blocks that no client holds. What a client
-- writes to its payloads is such a step. ArenaManager/Home puts the routing of the real `deallocate`
-- in front: the clients' blocks name their arena's node, so they find home from any arena. That the
-- kernel maps a new slab apart from those that the arena has is a hypothesis of each `allocate`. A
-- call that throws is not a step: after one whose vector of slabs could not grow, the current slab
-- is not in the vector.
--
-- Not modelled. Mutexes: a locked region is one step; Arena/Interleaving splits those of the foreign
-- bins at their atomic accesses, and takes from the mutex that two threads never hold the lock of
-- one bin. The storage of the vector of arenas. The content of fresh pages: the code writes each
-- header before it reads it. `madvise` has no effect on what
-- is modelled. `do_is_equal` of the resources compares identities or dynamic types.
pub mod Base
pub mod Machine
pub mod VirtualMemory
pub mod Config
pub mod SizeClassTable
pub mod Block
pub mod LargeObject
pub mod Slab
pub mod NodeLocal
pub mod SizeClass
pub mod SmallObject
pub mod BlockList
pub mod Arena
pub mod ArenaManager
pub mod ThreadCache
pub mod Topology
pub mod Affinity
pub mod SimpleResource
pub mod Resources
pub mod Tests
