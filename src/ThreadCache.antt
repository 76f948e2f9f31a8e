-- ===== src/ThreadCache.antt =====
-- thread_local/thread_local_cache.hpp and .cpp: `ThreadLocalCache`, a thread's own bins of small
-- blocks of its node, and `ThreadNumaContextOwner`, which makes and replaces it.
pub mod Bins
pub mod Reuse
pub mod RoundTrip
use numa_pmr.Base.{
  ℕ, zero, suc, ◌+◌, Bool, true, false, ◌&&◌, ◌||◌, not, Option, none, some, ℤ, to_u32, from_u32,
  int_eq, leb, ltb, ◌==◌, if◌then◌else◌,
}
use numa_pmr.Machine.Word.{wrap, wrap32, null, alignment}
use numa_pmr.Machine.Platform.{Platform}
use numa_pmr.Machine.Memory.{World, Memory, BlockHeader, update, write_block}
use numa_pmr.Machine.Monad.{
  M, Outcome, ok, pure, raise, get, lift, zoom, swallow, handle, ◌>>=◌, ◌>>◌,
}
use numa_pmr.Machine.Object.{Object, object, outside, assign, write}
use numa_pmr.Config.Small.{small_large_threshold, max_cached_bytes_for_class}
use numa_pmr.Block.{from_user_ptr, to_user_ptr}
use numa_pmr.VirtualMemory.{alloc_on_node, release}
use numa_pmr.SizeClassTable.{class_index_for_size, class_size_at, num_size_classes}
use numa_pmr.Topology.{Topology, current_node_from_cpu}
use numa_pmr.BlockList.{BlockBin, empty_bin, push_header, link_header, pop_header}
use numa_pmr.Arena
use numa_pmr.ArenaManager.{Arenas, Place, ProcessM, in_arena, arena_for_node}
use numa_pmr.ArenaManager

-- `arena_` is a place; the array `bins_` by its index.
pub record ThreadLocalCache : Type 0 where
  pub node_id : ℤ
  pub use_thread_cache : Bool
  pub arena : Place
  pub bins : ℕ → BlockBin

unfoldable pub new_cache : Place → ℤ → Bool → ThreadLocalCache
new_cache arena node use_cache = record {
  node_id = node;
  use_thread_cache = use_cache;
  arena = arena;
  bins = λ _. empty_bin;
}

-- What a method of the cache works on.
pub record Thread : Type 0 where
  pub cache : ThreadLocalCache
  pub arenas : Arenas

abbrev pub ThreadM : Type 0 → Type 0
ThreadM = M (Object Thread)

abbrev pub in_process : {A : Type 0} → ProcessM A → ThreadM A
in_process =
    zoom (λ o. object o.self.arenas o.world)
      (λ p o. object (record (o.self) { arenas = p.self }) p.world)

abbrev pub put_bin : (class_index : ℕ) → BlockBin → Thread → Thread
put_bin i b t = record t { cache = record (t.cache) { bins = update t.cache.bins i b } }

-- The header taken, or null from an empty bin.
unfoldable pub take_cached : (class_index : ℕ) → ThreadM ℕ
take_cached i o =
    let bin = o.self.cache.bins i in
    let m = o.world.memory in
    if bin.head == null
    then pure null o
    else (do assign (put_bin i (pop_header (m.block bin.head).size_class bin m)); pure bin.head) o

unfoldable pub cache_block : (header class_index : ℕ) → ThreadM Bool
cache_block header i o =
    let bin = o.self.cache.bins i in
    let class_size = (o.world.memory.block header).size_class in
    if ltb (max_cached_bytes_for_class class_size) (wrap (bin.bytes + class_size))
    then pure false o
    else (do
      write (link_header header bin)
      assign (put_bin i (push_header class_size header bin))
      pure true)
        o

module _ (os : Platform) where
  abbrev pub arena_allocate : (size align : ℕ) → ThreadM ℕ
  arena_allocate size align o =
      in_process (in_arena o.self.cache.arena (Arena.allocate os size align)) o

  abbrev pub arena_deallocate : (ptr : ℕ) → ThreadM (Unit {0})
  arena_deallocate ptr o = in_process (ArenaManager.deallocate os o.self.cache.arena ptr) o

  -- The header that `allocate` completes.
  abbrev pub cache_header : (class_size : ℕ) → ThreadLocalCache → BlockHeader → BlockHeader
  cache_header class_size c h = record h {
    node_id = to_u32 c.node_id;
    size_class = wrap32 class_size;
    size = 0;
  }

  -- `allocate` of a small block of class `i`.
  unfoldable pub allocate_class : (class_index size align : ℕ) → ThreadM ℕ
  allocate_class i size align = do
    header ← take_cached i
    if header == null
        then (do
          ptr ← arena_allocate size align
          c ← get (λ o. o.self.cache)
          write (λ m.
              write_block (from_user_ptr ptr)
                (cache_header (class_size_at i) c (m.block (from_user_ptr ptr))) m)
          pure ptr)
        else pure (to_user_ptr header)

  -- With the cache in use, a size that is not 0.
  unfoldable pub allocate_cached : (size align : ℕ) → ThreadM ℕ
  allocate_cached size align =
      if leb size small_large_threshold && leb align alignment
      then (do i ← lift (class_index_for_size size); allocate_class i size align)
      else arena_allocate size align

  unfoldable pub allocate : (size align : ℕ) → ThreadM ℕ
  allocate size align o =
      if not o.self.cache.use_thread_cache
      then arena_allocate size align o
      else allocate_cached (if size == 0 then 1 else size) align o

  -- Whether `deallocate` hands the block to the arena without a look at the bins.
  unfoldable pub bypasses : ThreadLocalCache → BlockHeader → Bool
  bypasses c h =
      not c.use_thread_cache || h.size_class == 0 || not (int_eq (from_u32 h.node_id) c.node_id)

  unfoldable pub deallocate : (ptr : ℕ) → ThreadM (Unit {0})
  deallocate ptr o =
      let header = o.world.memory.block (from_user_ptr ptr) in
      if ptr == null
      then pure tt o
      else if bypasses o.self.cache header
      then arena_deallocate ptr o
      else (do
        i ← lift (class_index_for_size header.size_class)
        cached ← cache_block (from_user_ptr ptr) i
        if cached then pure tt else arena_deallocate ptr)
          o

  -- The inner loop of `flush`, on bin `i`: a round takes one block.
  unfoldable pub flush_bin : (rounds i : ℕ) → ThreadM (Unit {0})
  flush_bin zero i = pure tt
  flush_bin (suc n) i = do
    header ← take_cached i
    if header == null
        then pure tt
        else (do swallow (arena_deallocate (to_user_ptr header)); flush_bin n i)

  -- The outer loop, from bin `i` on. The bin's count bounds the rounds.
  unfoldable pub flush_loop : (rounds i : ℕ) → ThreadM (Unit {0})
  flush_loop zero i = pure tt
  flush_loop (suc n) i = do
    blocks ← get (λ o. (o.self.cache.bins i).count)
    flush_bin blocks i
    flush_loop n (i + 1)

  unfoldable pub flush : ThreadM (Unit {0})
  flush = flush_loop num_size_classes 0

-- A `ThreadLocalCache*` that is not null.
pub record CachePtr : Type 0 where
  pub address : ℕ
  pub cache : ThreadLocalCache

-- `ThreadNumaContextOwner`, with the arenas that the process has.
pub record Context : Type 0 where
  pub cache : Option CachePtr
  pub arenas : Arenas

abbrev pub ContextM : Type 0 → Type 0
ContextM = M (Object Context)

-- A method of the cache that `cache_` points to.
abbrev pub in_cache : {A : Type 0} → CachePtr → ThreadM A → ContextM A
in_cache p =
    zoom (λ o. object (record { cache = p.cache; arenas = o.self.arenas }) o.world)
      (λ t o.
        object (record { cache = some (record p { cache = t.self.cache }); arenas = t.self.arenas })
          t.world)

abbrev pub set_cache : Option CachePtr → ContextM (Unit {0})
set_cache p = assign (λ c. record c { cache = p })

-- Where a method asks for the CPU more than once, it is given each answer.
module _ (os : Platform) (topology : Topology) where
  -- `create_on_current_node`; `arena_for_node` may throw, and then the memory goes back.
  unfoldable pub create_on_current_node : (cpu : ℤ) → Bool → ContextM CachePtr
  create_on_current_node cpu use_cache = do
    let node = current_node_from_cpu cpu topology
    mem ← outside (alloc_on_node os os.sizeof_cache node)
    place ← λ o.
        handle
          (zoom (λ c. object c.self.arenas c.world)
            (λ p c. object (record (c.self) { arenas = p.self }) p.world) (arena_for_node node) o)
          (λ e. outside (release os mem os.sizeof_cache) >> raise e)
    pure (record { address = mem; cache = new_cache place node use_cache })

  -- `destroy` of a pointer that is not null: the destructor flushes, then the memory goes back.
  unfoldable pub destroy : CachePtr → ContextM (Unit {0})
  destroy p = in_cache p (flush os) >> outside (release os p.address os.sizeof_cache)

  unfoldable pub ensure_cache : (cpu : ℤ) → Bool → ContextM CachePtr
  ensure_cache cpu use_cache o = elim (o.self.cache) [
    | none ↦ (do p ← create_on_current_node cpu use_cache; set_cache (some p); pure p) o
    | some p ↦ pure p o
  ]

  unfoldable pub get_cache : (cpu : ℤ) → ContextM CachePtr
  get_cache cpu = ensure_cache cpu true

  unfoldable pub configure : (cpu cpu' cpu'' : ℤ) → Bool → ContextM (Unit {0})
  configure cpu cpu' cpu'' use_cache = do
    p ← ensure_cache cpu use_cache
    if int_eq p.cache.node_id (current_node_from_cpu cpu' topology)
        then set_cache
            (some (record p { cache = record (p.cache) { use_thread_cache = use_cache } }))
        else (do
          replacement ← create_on_current_node cpu'' use_cache
          destroy p
          set_cache (some replacement))

  -- `~ThreadNumaContextOwner`.
  unfoldable pub destroy_owner : ContextM (Unit {0})
  destroy_owner o = elim (o.self.cache) [ none ↦ pure tt o | some p ↦ destroy p o ]
