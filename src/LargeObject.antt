-- ===== src/LargeObject.antt =====
-- size_divide/large_object: `LargeObjectAllocator`, spans from the OS with a bounded cache of freed
-- spans.
-- A method runs its locked part in one step, which is what the mutex provides; `sync_` only
-- chooses whether the mutex is taken.
pub mod Bin
pub mod Cache
pub mod Spans
pub mod Acquire
pub mod Placement
pub mod Free
pub mod Overflow
pub mod Create
use numa_pmr.Base.{
  ℕ, zero, suc, ◌+◌, ◌-◌, ◌≤◌, ◌<◌, ◌≡◌, Bool, true, false, ◌||◌, Option, none, some, ℤ, to_u32,
  ltb, leb, ◌==◌, if◌then◌else◌, min,
}
use numa_pmr.Machine.Word.{size_max, wrap, sub_word, null, sizeof_pointer, sizeof_block_header}
use numa_pmr.Machine.Platform.{Platform}
use numa_pmr.Machine.Memory.{World, BlockHeader, Memory, update, write_block}
use numa_pmr.Machine.Monad.{
  M, Outcome, Exception, bad_alloc, ok, throw, pure, raise, get, ◌>>=◌, ◌>>◌,
}
use numa_pmr.Machine.Object.{Object, object, outside, write}
use numa_pmr.Config.Large.{
  num_large_bins, max_spans_per_large_bin, large_bin_search_limit, npos, bin_index_for,
}
use numa_pmr.Config.Large
use numa_pmr.VirtualMemory.{align_up, alloc_on_node, release}
use numa_pmr.Block.{from_user_ptr}

pub record CachedSpan : Type 0 where
  pub raw_ptr : ℕ
  pub size : ℕ

-- The array `spans` of 8 entries by its index; `count` of them are in use.
pub record SpanBin : Type 0 where
  pub spans : ℕ → CachedSpan
  pub count : ℕ
  pub bytes : ℕ

-- The array `bins` of 16 entries by its index.
pub record LargeObjectAllocator : Type 0 where
  pub node_id : ℤ
  pub sync : Bool
  pub max_cached_spans : ℕ
  pub max_cached_bytes : ℕ
  pub bins : ℕ → SpanBin
  pub cached_spans : ℕ
  pub cached_bytes : ℕ

abbrev pub no_span : CachedSpan
no_span = record { raw_ptr = null; size = 0 }

abbrev pub empty_bin : SpanBin
empty_bin = record { spans = λ _. no_span; count = 0; bytes = 0 }

-- The constructor.
unfoldable pub new_large : ℤ → (spans bytes : ℕ) → Bool → LargeObjectAllocator
new_large node spans bytes sync = record {
  node_id = node;
  sync = sync;
  max_cached_spans = spans;
  max_cached_bytes = bytes;
  bins = λ _. empty_bin;
  cached_spans = 0;
  cached_bytes = 0;
}

abbrev pub LargeM : Type 0 → Type 0
LargeM = M (Object LargeObjectAllocator)

-- `bin.spans[--bin.count]` of bin `i`, and the allocator without it.
unfoldable pub top_span : SpanBin → CachedSpan
top_span b = b.spans (b.count - 1)

unfoldable pub pop_span : SpanBin → SpanBin
unfolding top_span
pop_span b = record b { count = b.count - 1; bytes = sub_word b.bytes (top_span b).size }

unfoldable pub push_span : CachedSpan → SpanBin → SpanBin
push_span s b = record {
  spans = update b.spans b.count s;
  count = b.count + 1;
  bytes = wrap (b.bytes + s.size);
}

unfoldable pub take_span : ℕ → LargeObjectAllocator → LargeObjectAllocator
take_span i a = record a {
  bins = update a.bins i (pop_span (a.bins i));
  cached_spans = sub_word a.cached_spans 1;
  cached_bytes = sub_word a.cached_bytes (top_span (a.bins i)).size;
}

unfoldable pub put_span : ℕ → CachedSpan → LargeObjectAllocator → LargeObjectAllocator
put_span i s a = record a {
  bins = update a.bins i (push_span s (a.bins i));
  cached_spans = a.cached_spans + 1;
  cached_bytes = wrap (a.cached_bytes + s.size);
}

-- The loop of `acquire_span` from bin `i` over `rounds` bins: the first that is not empty.
unfoldable pub find_bin : (rounds i : ℕ) → LargeObjectAllocator → Option ℕ
find_bin zero i a = none
find_bin (suc n) i a =
    let rest = find_bin n (i + 1) a in if (a.bins i).count == 0 then rest else some i

-- The bin that `acquire_span` takes a span of this size from.
unfoldable pub usable_bin : ℕ → LargeObjectAllocator → Option ℕ
usable_bin size a =
    let b = bin_index_for size in
    if b == npos
    then none
    else find_bin (min (num_large_bins - 1) (b + large_bin_search_limit) + 1 - b) b a

-- Whether `release_to_cache` refuses a span.
unfoldable pub refuses : ℕ → ℕ → LargeObjectAllocator → Bool
refuses i total a =
    leb max_spans_per_large_bin (a.bins i).count
    || leb a.max_cached_spans a.cached_spans
    || ltb a.max_cached_bytes (wrap (a.cached_bytes + total))

unfoldable pub release_to_cache : (raw total : ℕ) → LargeM Bool
release_to_cache raw total o =
    let i = bin_index_for total in
    if i == npos
    then (ok false, o)
    else if refuses i total o.self
    then (ok false, o)
    else (ok true, record o { self = put_span i (record { raw_ptr = raw; size = total }) o.self })

-- The header that `allocate_from_span` writes.
abbrev pub large_header : ℤ → (size raw span_size : ℕ) → BlockHeader
large_header node size raw span_size = record {
  node_id = to_u32 node;
  size_class = 0;
  size = size;
  raw_ptr = raw;
  total_size = span_size;
}

-- `allocate_from_span` from the address where the payload starts.
unfoldable pub place : (size span_size raw start : ℕ) → LargeM ℕ
place size span_size raw start o =
    if ltb (wrap (raw + span_size)) (wrap (start + size))
    then (throw bad_alloc, o)
    else (do
      write (
          write_block (sub_word start sizeof_block_header)
            (large_header o.self.node_id size raw span_size))
      pure start)
        o

unfoldable pub allocate_from_span : (size alignment span_size raw : ℕ) → LargeM ℕ
allocate_from_span size alignment span_size raw =
    place size span_size raw (align_up (wrap (raw + sizeof_block_header)) alignment)

unfoldable pub effective_alignment : ℕ → ℕ
effective_alignment alignment = if ltb alignment sizeof_pointer then sizeof_pointer else alignment

-- The test that throws before anything is allocated.
unfoldable pub too_big : (size alignment : ℕ) → Bool
too_big size alignment =
    ltb (size_max - sizeof_block_header) alignment
    || ltb (size_max - alignment - sizeof_block_header) size

module _ (os : Platform) where
  unfoldable pub page_size_for : ℕ → ℕ
  page_size_for required_size = align_up required_size os.page_size

  unfoldable pub class_size_for : ℕ → ℕ
  class_size_for required_size = page_size_for (Large.class_size_for (page_size_for required_size))

  -- The end of `acquire_span`, by the bin found.
  unfoldable pub acquire_from : ℕ → Option ℕ → LargeM CachedSpan
  acquire_from size (some i) o =
      (ok (top_span (o.self.bins i)), record o { self = take_span i o.self })
  acquire_from size none o =
      (do
        raw ← outside (alloc_on_node os size o.self.node_id)
        pure (record { raw_ptr = raw; size = size }))
        o

  unfoldable pub acquire_span : ℕ → LargeM CachedSpan
  acquire_span size o = acquire_from size (usable_bin size o.self) o

  -- `allocate` past the adjustment of the alignment.
  unfoldable pub allocate_aligned : (size alignment : ℕ) → LargeM ℕ
  allocate_aligned size alignment = if too_big size alignment then raise bad_alloc else (do
    span ← acquire_span (class_size_for (size + alignment + sizeof_block_header))
    allocate_from_span size alignment span.size span.raw_ptr)

  unfoldable pub allocate : (size alignment : ℕ) → LargeM ℕ
  allocate size alignment = allocate_aligned size (effective_alignment alignment)

  unfoldable pub deallocate : ℕ → LargeM (Unit {0})
  deallocate ptr = if ptr == null then pure tt else (do
    header ← get (λ o. o.world.memory.block (from_user_ptr ptr))
    cached ← release_to_cache header.raw_ptr header.total_size
    if cached then pure tt else outside (release os header.raw_ptr header.total_size))

  -- The inner loop of the destructor, from entry `j` on.
  destroy_bin : (rounds j : ℕ) → SpanBin → M World (Unit {0})
  destroy_bin zero j b = pure tt
  destroy_bin (suc n) j b =
      release os (b.spans j).raw_ptr (b.spans j).size >> destroy_bin n (j + 1) b

  -- The outer loop of the destructor, from bin `i` on.
  destroy_bins : (rounds i : ℕ) → LargeObjectAllocator → M World (Unit {0})
  destroy_bins zero i a = pure tt
  destroy_bins (suc n) i a = destroy_bin (a.bins i).count 0 (a.bins i) >> destroy_bins n (i + 1) a

  -- `~LargeObjectAllocator`.
  pub destroy_large : LargeObjectAllocator → M World (Unit {0})
  unfolding destroy_bin destroy_bins
  destroy_large a = destroy_bins num_large_bins 0 a
