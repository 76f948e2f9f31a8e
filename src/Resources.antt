-- ===== src/Resources.antt =====
-- numa_memory_resource.hpp and numa_arena_memory_resource.hpp: the `std::pmr` resources over the
-- thread's cache, and over an arena of their own.
use numa_pmr.Base.{ℕ, Bool, true, false, ℤ, ◌==◌, if◌then◌else◌}
use numa_pmr.Machine.Word.{null}
use numa_pmr.Machine.Platform.{Platform}
use numa_pmr.Machine.Memory.{World}
use numa_pmr.Machine.Monad.{M, pure, ◌>>=◌, ◌>>◌}
use numa_pmr.VirtualMemory.{alloc_on_node}
use numa_pmr.Topology.{Topology, normalize_node_id, current_node_from_cpu}
use numa_pmr.Arena.{new_arena}
use numa_pmr.Arena
use numa_pmr.ArenaManager.{ArenaPtr, Place, own, ProcessM, in_arena}
use numa_pmr.ArenaManager
use numa_pmr.ThreadCache.{ContextM, in_cache, configure, get_cache}
use numa_pmr.ThreadCache

-- `numa_memory_resource`. On CPU `cpu`, where the thread has no cache yet.
module _ (os : Platform) (topology : Topology) where
  unfoldable pub construct : (cpu cpu' cpu'' : ℤ) → (use_thread_cache : Bool) → ContextM (Unit {0})
  construct cpu cpu' cpu'' use_thread_cache = configure os topology cpu cpu' cpu'' use_thread_cache

  unfoldable pub cache_do_allocate : (cpu : ℤ) → (bytes align : ℕ) → ContextM ℕ
  cache_do_allocate cpu bytes align = do
    p ← get_cache os topology cpu
    in_cache p (ThreadCache.allocate os bytes align)

  unfoldable pub cache_do_deallocate : (cpu : ℤ) → (p : ℕ) → ContextM (Unit {0})
  cache_do_deallocate cpu ptr =
      if ptr == null
      then pure tt
      else (do p ← get_cache os topology cpu; in_cache p (ThreadCache.deallocate os ptr))

  unfoldable pub current_node_id : (cpu : ℤ) → ContextM ℤ
  current_node_id cpu = do p ← get_cache os topology cpu; pure p.cache.node_id

  -- `get_numa_memory_resource`: the first call constructs both resources. The answer is whether it
  -- is the one with the cache; each `configure` asks for the CPU three times.
  unfoldable pub get_resource :
      (first_call : Bool)
      → (cpus cpus' cpus'' : ℤ × ℤ × ℤ) → (use_thread_cache : Bool) → ContextM Bool
  get_resource first_call (a, b, c) (a', b', c') (a'', b'', c'') use_thread_cache = do
    if first_call then (do construct a b c true; construct a' b' c' false) else pure tt
    configure os topology a'' b'' c'' use_thread_cache
    pure use_thread_cache

-- `numa_arena_memory_resource`: its node, and the arena that it makes for itself.
pub record ArenaResource : Type 0 where
  pub node_id : ℤ
  pub sync : Bool
  pub arena : ArenaPtr

module _ (os : Platform) where
  unfoldable pub create_own_arena : (node : ℤ) → (sync : Bool) → M World ArenaPtr
  create_own_arena node sync = do
    mem ← alloc_on_node os os.sizeof_arena node
    pure (record { address = mem; arena = new_arena node false sync false })

  unfoldable pub new_resource :
      (cpu : ℤ) → Topology → (node : ℤ) → (sync : Bool) → M World ArenaResource
  new_resource cpu t node sync = do
    arena ← create_own_arena (normalize_node_id cpu node t) sync
    pure (record { node_id = normalize_node_id cpu node t; sync = sync; arena = arena })

  -- The constructor without a node.
  unfoldable pub new_current_resource :
      (cpu cpu' : ℤ) → Topology → (sync : Bool) → M World ArenaResource
  new_current_resource cpu cpu' t sync = new_resource cpu' t (current_node_from_cpu cpu t) sync

  unfoldable pub arena_do_allocate : (bytes align : ℕ) → ProcessM ℕ
  arena_do_allocate bytes align = in_arena own (Arena.allocate os bytes align)

  unfoldable pub arena_do_deallocate : (p : ℕ) → ProcessM (Unit {0})
  arena_do_deallocate ptr = if ptr == null then pure tt else ArenaManager.deallocate os own ptr
