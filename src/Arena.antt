-- ===== src/Arena.antt =====
-- numa_arena/numa_arena.hpp and .cpp: `NumaArena`, the allocators of one node and the bins of blocks
-- that other nodes' threads gave back. A locked region is one step; what runs between the locks is
-- in Arena/Interleaving.
pub mod Foreign
pub mod Payload
pub mod Pool
pub mod Drain
pub mod Took
pub mod Enqueue
pub mod Retry
pub mod Allocate
pub mod Deallocate
pub mod Untouched
pub mod Client
pub mod Steps
pub mod Sound
pub mod Promises
pub mod Interleaving
use numa_pmr.Base.{
  ℕ, zero, suc, ◌+◌, ◌/◌, Bool, true, false, ◌&&◌, ◌||◌, not, ℤ, to_u32, leb, ltb, ◌==◌,
  if◌then◌else◌,
}
use numa_pmr.Machine.Word.{wrap, wrap32, sub_word, null, alignment}
use numa_pmr.Machine.Platform.{Platform}
use numa_pmr.Machine.Memory.{World, Memory, BlockHeader, update, write_block}
use numa_pmr.Machine.Monad.{
  M, out_of_range, Outcome, ok, pure, raise, get, lift, zoom, swallow, ◌>>=◌, ◌>>◌,
}
use numa_pmr.Machine.Object.{Object, object, outside, assign, write}
use numa_pmr.Config.Small.{small_large_threshold, max_cached_bytes_for_class}
use numa_pmr.Config.Large.{max_large_cached_spans, max_large_cache_bytes}
use numa_pmr.Block.{from_user_ptr, to_user_ptr}
use numa_pmr.SizeClassTable.{class_index_for_size, class_size_at, num_size_classes}
use numa_pmr.LargeObject.{LargeObjectAllocator, LargeM, new_large, destroy_large}
use numa_pmr.LargeObject
use numa_pmr.SmallObject.{SmallObjectAllocator, SmallM, new_small, destroy_small}
use numa_pmr.SmallObject
use numa_pmr.BlockList.{BlockBin, empty_bin, push_header, link_header, Detaching, detach_loop}

-- The arrays by their index.
pub record NumaArena : Type 0 where
  pub node_id : ℤ
  pub foreign_freelist_enabled : Bool
  pub route_foreign_deallocations : Bool
  pub small : SmallObjectAllocator
  pub large : LargeObjectAllocator
  pub foreign_bins : ℕ → BlockBin
  pub foreign_bytes : ℕ

unfoldable pub new_arena : (node : ℤ) (foreign sync route : Bool) → NumaArena
new_arena node foreign sync route = record {
  node_id = node;
  foreign_freelist_enabled = foreign;
  route_foreign_deallocations = route;
  small = new_small node sync;
  large = new_large node max_large_cached_spans max_large_cache_bytes sync;
  foreign_bins = λ _. empty_bin;
  foreign_bytes = 0;
}

abbrev pub ArenaM : Type 0 → Type 0
ArenaM = M (Object NumaArena)

-- A method of `small_`, and of `large_`.
abbrev pub in_small : {A : Type 0} → SmallM A → ArenaM A
in_small =
    zoom (λ o. object o.self.small o.world)
      (λ s o. object (record (o.self) { small = s.self }) s.world)

abbrev pub in_large : {A : Type 0} → LargeM A → ArenaM A
in_large =
    zoom (λ o. object o.self.large o.world)
      (λ l o. object (record (o.self) { large = l.self }) l.world)

unfoldable pub foreign_high_watermark : ℕ → ℕ
foreign_high_watermark class_size = max_cached_bytes_for_class class_size

unfoldable pub foreign_low_watermark : ℕ → ℕ
foreign_low_watermark class_size = foreign_high_watermark class_size / 2

-- `detach_all_foreign_locked` on bin `i`, and what it returns.
unfoldable pub detach_all_foreign : ℕ → NumaArena → NumaArena
detach_all_foreign i a = record a { foreign_bins = update a.foreign_bins i empty_bin }

-- `detach_foreign_until_low_locked`: a round takes one block, so the bin's count bounds the rounds.
unfoldable pub detach_until_low : (class_size low : ℕ) → BlockBin → Memory → Detaching
detach_until_low class_size low bin m =
    detach_loop bin.count class_size low (record { bin = bin; batch = empty_bin; memory = m })

-- The locked region of `enqueue_foreign_small`: the state after it, and the overflow.
unfoldable pub enqueue_locked : (header class_index class_size : ℕ) → Object NumaArena → Detaching
enqueue_locked header i class_size o =
    let bin = push_header class_size header (o.self.foreign_bins i) in
    let m = link_header header (o.self.foreign_bins i) o.world.memory in
    if ltb (foreign_high_watermark class_size) bin.bytes
    then detach_until_low class_size (foreign_low_watermark class_size) bin m
    else record { bin = bin; batch = empty_bin; memory = m }

-- `if (batch.bytes != 0) foreign_bytes_.fetch_sub(batch.bytes)`.
unfoldable pub subtract_foreign : ℕ → NumaArena → NumaArena
subtract_foreign bytes a =
    if bytes == 0 then a else record a { foreign_bytes = sub_word a.foreign_bytes bytes }

module _ (os : Platform) where
  -- The batch has `count` blocks, so that many rounds and the one that sees its end are enough.
  unfoldable pub drain_foreign_batch : (class_index : ℕ) → BlockBin → ArenaM (Unit {0})
  drain_foreign_batch i batch =
      if batch.head == null
      then pure tt
      else in_small (SmallObject.deallocate_batch os (batch.count + 1) i batch.head)

  unfoldable pub enqueue_foreign_small : (header : ℕ) → ArenaM (Unit {0})
  enqueue_foreign_small header o =
      (do
        let class_size = (o.world.memory.block header).size_class
        i ← lift (class_index_for_size class_size)
        d ← get (enqueue_locked header i class_size)
        assign (λ a. record a {
          foreign_bins = update a.foreign_bins i d.bin;
          foreign_bytes = wrap (a.foreign_bytes + class_size);
        })
        write (λ _. d.memory)
        assign (subtract_foreign d.batch.bytes)
        drain_foreign_batch i d.batch)
        o

  -- The body that `drain_foreign_bin` and the loop of `drain_all_foreign` share.
  unfoldable pub take_foreign_bin : (class_index : ℕ) → ArenaM BlockBin
  take_foreign_bin i = do
    batch ← get (λ o. o.self.foreign_bins i)
    assign (detach_all_foreign i)
    assign (subtract_foreign batch.bytes)
    pure batch

  unfoldable pub drain_foreign_bin : (class_index : ℕ) → ArenaM (Unit {0})
  drain_foreign_bin i =
      if leb num_size_classes i
      then raise out_of_range
      else (do batch ← take_foreign_bin i; drain_foreign_batch i batch)

  -- The loop of `drain_all_foreign`, from class `i` on.
  unfoldable pub drain_all_loop : (rounds i : ℕ) → ArenaM (Unit {0})
  drain_all_loop zero i = pure tt
  drain_all_loop (suc n) i = do
    batch ← take_foreign_bin i
    swallow (drain_foreign_batch i batch)
    drain_all_loop n (i + 1)

  unfoldable pub drain_all_foreign : ArenaM (Unit {0})
  drain_all_foreign = drain_all_loop num_size_classes 0

  -- The header that `allocate` completes.
  abbrev pub small_header : (class_size : ℕ) → NumaArena → BlockHeader → BlockHeader
  small_header class_size a h = record h {
    node_id = to_u32 a.node_id;
    size_class = wrap32 class_size;
    size = 0;
  }

  -- The choice of the overload of `allocate_by_class_index`.
  unfoldable pub allocate_small : (class_index : ℕ) → ArenaM ℕ
  allocate_small i o =
      if not o.self.foreign_freelist_enabled || o.self.foreign_bytes == 0
      then in_small (SmallObject.allocate_by_class_index os i) o
      else SmallObject.allocate_draining os i in_small (drain_foreign_bin i) o

  unfoldable pub allocate_class : (class_index : ℕ) → ArenaM ℕ
  allocate_class i = do
    block ← allocate_small i
    a ← get (λ o. o.self)
    write (λ m. write_block block (small_header (class_size_at i) a (m.block block)) m)
    pure (to_user_ptr block)

  -- `allocate` of a size that is not 0.
  unfoldable pub allocate_sized : (size align : ℕ) → ArenaM ℕ
  allocate_sized size align =
      if leb size small_large_threshold && leb align alignment
      then (do i ← lift (class_index_for_size size); allocate_class i)
      else in_large (LargeObject.allocate os size align)

  unfoldable pub allocate : (size align : ℕ) → ArenaM ℕ
  allocate size align = allocate_sized (if size == 0 then 1 else size) align

  -- The part of `deallocate` and of `deallocate_foreign` that frees in this arena.
  unfoldable pub deallocate_here : (ptr : ℕ) → ArenaM (Unit {0})
  deallocate_here ptr o =
      if (o.world.memory.block (from_user_ptr ptr)).size_class == 0
      then in_large (LargeObject.deallocate os ptr) o
      else in_small (SmallObject.deallocate os (from_user_ptr ptr)) o

  unfoldable pub deallocate_foreign : (ptr : ℕ) → ArenaM (Unit {0})
  deallocate_foreign ptr o =
      if o.self.foreign_freelist_enabled
        && not ((o.world.memory.block (from_user_ptr ptr)).size_class == 0)
      then enqueue_foreign_small (from_user_ptr ptr) o
      else deallocate_here ptr o

  -- `~NumaArena`, and the destruction of its members.
  unfoldable pub destroy_arena : ArenaM (Unit {0})
  destroy_arena o =
      (do
        drain_all_foreign
        a ← get (λ o'. o'.self)
        outside (destroy_large os a.large)
        outside (destroy_small os a.small))
        o
