-- ===== src/Tests/Spans.antt =====
-- Large blocks on the test machine.
use numa_pmr.Base.{◌+◌, ◌^◌, ◌<◌, ◌≡◌, refl, arith, true, false, some, none, pos, ◌-◌}
use numa_pmr.Machine.Memory.{Memory, write_block}
use numa_pmr.Machine.Monad.{Returns, Ensures}
use numa_pmr.Machine.Object.{object}
use numa_pmr.Config.Large.{max_large_cached_spans, max_large_cache_bytes, bin_index_for, npos}
use numa_pmr.VirtualMemory.{align_up, alloc_on_node}
use numa_pmr.VirtualMemory.Mapping.{Fresh, Unchanged, alloc_on_node-Maps}
use numa_pmr.LargeObject.{
  CachedSpan, LargeObjectAllocator, new_large, put_span, allocate, deallocate, acquire_span,
  release_to_cache, effective_alignment, large_header, usable_bin, too_big, class_size_for,
  allocate_from_span,
}
use numa_pmr.LargeObject.Acquire.{
  IsLarge, Acquired, Refused, Cached, acquire_span-Acquired, release_to_cache-Cached,
}
use numa_pmr.LargeObject.Placement.{IsPlaced, allocate-IsPlaced}
use numa_pmr.LargeObject.Free.{Freed, deallocate-Freed}
use numa_pmr.LargeObject.Create.{new_large-IsLarge}
use numa_pmr.LargeObject.Overflow.{allocate_overflow}
use numa_pmr.Tests.World.{machine, machine-MmapLaws, no_mbind, no_mbind-MmapLaws, start, blank}

abbrev cold : LargeObjectAllocator
cold = new_large (pos 1) max_large_cached_spans max_large_cache_bytes true

cold-IsLarge : IsLarge cold
cold-IsLarge =
    new_large-IsLarge (pos 1) max_large_cached_spans max_large_cache_bytes true (omega arith)
      (omega arith)

abbrev span : CachedSpan
span = record { raw_ptr = 2 ^ 20; size = 8192 }

-- A span of 8 KiB is freed, and a block of 12 KiB finds no span, a block of 8 KiB finds that one.
warm_bins :
    let a = put_span 0 span cold in (usable_bin 8192 a ≡ some 0) × (usable_bin 12288 a ≡ none)
unfolding put_span usable_bin new_large bin_index_for numa_pmr.LargeObject.find_bin
    numa_pmr.LargeObject.push_span
warm_bins = (refl, refl)

-- The header of a block of 5000 bytes at the start of the span.
abbrev placed_memory : Memory
placed_memory = write_block (2 ^ 20) (large_header (pos 1) 5000 (2 ^ 20) 8192) blank

placed_block : IsPlaced (pos 1) 5000 16 (2 ^ 20 + 32) placed_memory
placed_block = record {
  span = span;
  in_space = (omega arith, omega arith);
  header = refl;
  aligned = omega arith;
  above_header = omega arith;
  inside = omega arith;
}

allocate-IsPlaced_example :
    Ensures
      (λ p o'. IsPlaced (pos 1) 5000 (effective_alignment 16) p o'.world.memory × IsLarge o'.self)
      (Refused (object cold start))
      (allocate machine 5000 16 (object cold start))
unfolding new_large effective_alignment
allocate-IsPlaced_example =
    allocate-IsPlaced machine machine-MmapLaws 5000 16 (object cold start) cold-IsLarge
      (omega arith)

deallocate-Freed_example :
    Returns
      (λ _ o'.
        Freed machine span (object cold (record start { memory = placed_memory })) o'
        × IsLarge o'.self)
      (deallocate machine (2 ^ 20 + 32) (object cold (record start { memory = placed_memory })))
unfolding placed_block
deallocate-Freed_example =
    deallocate-Freed machine (pos 1) 5000 16 (2 ^ 20 + 32)
      (object cold (record start { memory = placed_memory })) placed_block cold-IsLarge

acquire_span-Acquired_example :
    Ensures
      (Acquired no_mbind 8192 (object cold start))
      (Refused (object cold start))
      (acquire_span no_mbind 8192 (object cold start))
acquire_span-Acquired_example =
    acquire_span-Acquired no_mbind no_mbind-MmapLaws 8192 (object cold start) cold-IsLarge
      (omega arith) (omega arith)

release_to_cache-Cached_example :
    Returns
      (Cached (2 ^ 20) 8192 (object cold start))
      (release_to_cache (2 ^ 20) 8192 (object cold start))
release_to_cache-Cached_example =
    release_to_cache-Cached (2 ^ 20) 8192 (object cold start) cold-IsLarge
      (omega arith, omega arith)

alloc_on_node-Maps_example :
    Ensures
      (Fresh no_mbind 5000 start)
      (Unchanged start)
      (alloc_on_node no_mbind 5000 (pos 1) start)
alloc_on_node-Maps_example =
    alloc_on_node-Maps no_mbind no_mbind-MmapLaws 5000 (omega arith) start (pos 1)

allocate_overflow_example :
    (too_big (2 ^ 64 - 100) 16 ≡ false)
    × (span.size ≡ 8192)
    × Returns
        (λ p o'. span.raw_ptr + span.size < p + (2 ^ 64 - 100))
        (allocate_from_span (2 ^ 64 - 100) 16 span.size span.raw_ptr (object cold start))
unfolding class_size_for numa_pmr.LargeObject.page_size_for align_up
    numa_pmr.Config.Large.class_size_for
allocate_overflow_example =
    allocate_overflow machine (2 ^ 64 - 100) 16 span (object cold start) refl (omega arith)
      (omega arith) (omega arith) (omega arith) refl (omega arith) (omega arith)
