-- ===== src/Tests/Bins.antt =====
-- The bins of an arena and of a thread's cache, with one block of class size 64.
use mathlib.Core.List.{not-mem-nil}
use numa_pmr.Base.{ℕ, ◌+◌, ◌^◌, ◌≤◌, ◌≡◌, refl, arith, true, pos, [], ◌∷◌, from_u32}
use numa_pmr.Machine.Memory.{World, write_block}
use numa_pmr.Machine.Monad.{Returns, ◌>>◌, ok}
use numa_pmr.Machine.Object.{Object, object}
use numa_pmr.Config.Small.{max_cached_bytes_for_class}
use numa_pmr.BlockList.{empty_bin, push_header, link_header, Detaching, detach_loop}
use numa_pmr.BlockList.Chained.{total, IsBin, push_header-IsBin}
use numa_pmr.BlockList.Detach.{Detached, detach_loop-Detached}
use numa_pmr.Arena.{NumaArena, new_arena, enqueue_locked}
use numa_pmr.Arena.Foreign.{empty_bin-IsBin, Enqueued, enqueue_locked-Enqueued}
use numa_pmr.ArenaManager.{ArenaPtr, own}
use numa_pmr.ThreadCache.{Thread, new_cache, take_cached, cache_block, allocate, deallocate}
use numa_pmr.ThreadCache.Bins.{IsCacheBin, Offered, cache_block-Offered}
use numa_pmr.ThreadCache.Reuse.{Taken, take_cached-Taken}
use numa_pmr.ThreadCache.RoundTrip.{allocate-deallocate}
use numa_pmr.SizeClassTable.{class_index_for_size}
use numa_pmr.Tests.World.{machine, blank, start}

abbrev header : ℕ
header = 2 ^ 20 + 32

abbrev arena : NumaArena
arena = new_arena (pos 0) true true true

abbrev one_header : Detaching
one_header = record {
  bin = push_header 64 header empty_bin;
  batch = empty_bin;
  memory = link_header header empty_bin blank;
}

one_header-IsBin : IsBin 64 (header ∷ []) one_header.bin one_header.memory
unfolding total
one_header-IsBin =
    push_header-IsBin header (omega arith) not-mem-nil (omega arith, omega arith)
      (empty_bin-IsBin 64 blank)

detach_loop-Detached_example :
    Detached 64 0 (header ∷ []) [] one_header (detach_loop 1 64 0 one_header)
unfolding total
detach_loop-Detached_example =
    detach_loop-Detached 64 0 1 (header ∷ []) [] one_header (omega arith) (omega arith, omega arith)
      (λ x i. not-mem-nil) one_header-IsBin (empty_bin-IsBin 64 one_header.memory)

arena-IsBin : IsBin 64 [] (arena.foreign_bins 3) blank
unfolding new_arena
arena-IsBin = empty_bin-IsBin 64 blank

arena_bound : (arena.foreign_bins 3).bytes ≤ numa_pmr.Arena.foreign_high_watermark 64
unfolding new_arena
arena_bound = omega arith

enqueue_locked-Enqueued_example :
    Enqueued 64
      (header ∷ [])
      (arena.foreign_bins 3)
      blank
      (enqueue_locked header 3 64 (object arena start))
enqueue_locked-Enqueued_example =
    enqueue_locked-Enqueued 64 3 header [] (object arena start) arena-IsBin (omega arith)
      (omega arith) arena_bound (omega arith) not-mem-nil

abbrev one_block : World
one_block = record start {
  memory =
      write_block header
        (record { node_id = 0; size_class = 64; size = 0; raw_ptr = 2 ^ 20; total_size = 2 ^ 16 })
        blank;
}

abbrev arena_ptr : ArenaPtr
arena_ptr = record { address = 2 ^ 24; arena = arena }

abbrev thread : Object Thread
thread =
    object
      (record {
        cache = new_cache own (pos 0) true;
        arenas = record { count = 1; managed = λ _. arena_ptr; own = arena_ptr };
      })
      one_block

empty-IsCacheBin : IsCacheBin 64 3 [] thread
unfolding new_cache
empty-IsCacheBin = record {
  bin = empty_bin-IsBin 64 one_block.memory;
  sized = λ x i. absurd (not-mem-nil i);
  bounded = omega arith;
}

cache_block-Offered_example : Returns (Offered 64 3 [] header thread) (cache_block header 3 thread)
cache_block-Offered_example =
    cache_block-Offered 64 3 header [] thread empty-IsCacheBin refl (omega arith) (omega arith)
      (omega arith) not-mem-nil

room : (thread.self.cache.bins 3).bytes + 64 ≤ max_cached_bytes_for_class 64
unfolding new_cache max_cached_bytes_for_class
room = omega arith

take_cached-Taken_example : Returns (Taken 64 3 [] thread) (take_cached 3 thread)
take_cached-Taken_example = take_cached-Taken 64 3 [] thread empty-IsCacheBin

abbrev ptr : ℕ
ptr = 2 ^ 20 + 64

uses_cache : thread.self.cache.use_thread_cache ≡ true
unfolding new_cache
uses_cache = refl

on_node : from_u32 0 ≡ thread.self.cache.node_id
unfolding new_cache
on_node = refl

class_of_64 : class_index_for_size 64 ≡ ok 3
unfolding class_index_for_size numa_pmr.SizeClassTable.class_index_of
    numa_pmr.VirtualMemory.align_up
class_of_64 = refl

class_of_60 : class_index_for_size 60 ≡ ok 3
unfolding class_index_for_size numa_pmr.SizeClassTable.class_index_of
    numa_pmr.VirtualMemory.align_up
class_of_60 = refl

allocate-deallocate_example :
    Returns
      (λ p o'.
        (p ≡ ptr)
        × (o'.self.arenas ≡ thread.self.arenas)
        × (o'.world ≡ record one_block {
          memory = link_header header (thread.self.cache.bins 3) one_block.memory;
        }))
      ((do deallocate machine ptr; allocate machine 60 8) thread)
allocate-deallocate_example =
    allocate-deallocate machine 60 8 ptr 3 64 thread (omega arith) (omega arith) uses_cache refl
      (omega arith) on_node class_of_64 room class_of_60 (omega arith) (omega arith)
