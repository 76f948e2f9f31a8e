-- ===== src/LargeObject/Placement.antt =====
-- `allocate` of large blocks: where the header and the payload come to lie.
use numa_pmr.Config.Large.{bin_index_for}
use numa_pmr.Base.{ℕ, ◌+◌, ◌-◌, ◌*◌, ◌%◌, ◌^◌, ◌≤◌, ◌<◌, ◌≡◌, refl, arith, false, ltb, ℤ}
use numa_pmr.Machine.Word.{wrap, sub_word, sizeof_block_header}
use numa_pmr.Machine.Platform.{Platform, MmapLaws}
use numa_pmr.Machine.Memory.{update_self, Memory}
use numa_pmr.Machine.Monad.{Ensures-of_Returns, Ensures, Ensures-bind, Returns}
use numa_pmr.Machine.Object.{Object}
use numa_pmr.Config.Large
use numa_pmr.Config.Bins.{le-class_size_for}
use numa_pmr.VirtualMemory.{align_up}
use numa_pmr.VirtualMemory.Align.{le-align_up, align_up-lt, align_up-mod}
use numa_pmr.Block.{from_user_ptr}
use numa_pmr.LargeObject.{
  place, CachedSpan, LargeObjectAllocator, acquire_span, allocate_from_span, allocate,
  allocate_aligned, too_big, effective_alignment, page_size_for, class_size_for, large_header,
}
use numa_pmr.LargeObject.Acquire.{InSpace, IsLarge, Acquired, Refused, acquire_span-Acquired}

-- The class of a request is large enough, and not by more than the largest class and two pages.
module _ (os : Platform) (n : ℕ) (pos : 0 < os.page_size)
    (fits : n + 2 * 1024 * 1024 + 3 * os.page_size ≤ 2 ^ 64) where
  paged : ℕ
  paged = page_size_for os n

  paged_bounds : (n ≤ paged) × (paged < n + os.page_size)
  unfolding paged page_size_for
  paged_bounds =
      (le-align_up n os.page_size pos (omega arith), align_up-lt n os.page_size pos (omega arith))

  class_upper : Large.class_size_for paged ≤ paged + 2 * 1024 * 1024
  unfolding Large.class_size_for
  class_upper = ground arith

  pub class_size_for_bounds :
      (n ≤ class_size_for os n)
      × (class_size_for os n < n + 2 * 1024 * 1024 + 2 * os.page_size)
      × (class_size_for os n % os.page_size ≡ 0)
  unfolding class_size_for paged page_size_for
  class_size_for_bounds =
      let (low, high) = paged_bounds in
      let above = le-class_size_for paged in
      (
        omega (
          arith,
          low,
          above,
          class_upper,
          high,
          le-align_up (Large.class_size_for paged) os.page_size pos,
        ),
        omega (arith, class_upper, high, align_up-lt (Large.class_size_for paged) os.page_size pos),
        align_up-mod (Large.class_size_for paged) os.page_size pos,
      )

-- A block as `allocate` leaves it: the payload starts at a multiple of the alignment, its header
-- stands right below it and names the span, and both lie inside the span.
pub record IsPlaced (node : ℤ) (size alignment p : ℕ) (m : Memory) : Type 0 where
  pub span : CachedSpan
  pub in_space : InSpace span
  pub header : m.block (from_user_ptr p) ≡ large_header node size span.raw_ptr span.size
  pub aligned : p % alignment ≡ 0
  pub above_header : span.raw_ptr + sizeof_block_header ≤ p
  pub inside : p + size ≤ span.raw_ptr + span.size

abbrev Placed :
    (size alignment : ℕ) → Object LargeObjectAllocator → ℕ → Object LargeObjectAllocator → Type 0
Placed size alignment o p o' =
    IsPlaced o.self.node_id size alignment p o'.world.memory
    × (o'.self ≡ o.self)
    × (o'.world.trace ≡ o.world.trace)

-- The test and the write, at a start that the rounding gave.
placed :
    (size alignment : ℕ) (s : CachedSpan) (o : Object LargeObjectAllocator) (start : ℕ)
    → InSpace s
    → size + alignment + sizeof_block_header ≤ s.size
    → s.raw_ptr + sizeof_block_header ≤ start
    → start < s.raw_ptr + sizeof_block_header + alignment
    → start % alignment ≡ 0
    → Returns (Placed size alignment o) (place size s.size s.raw_ptr start o)
unfolding place
placed size alignment s o start good covers low high aligned =
    let passes : ltb (wrap (s.raw_ptr + s.size)) (wrap (start + size)) ≡ false = ground arith in
    let below : sub_word start sizeof_block_header ≡ from_user_ptr start = omega arith in
    rw (passes, below)
      (
        record {
          span = s;
          in_space = good;
          header = update_self o.world.memory.block (from_user_ptr start) _;
          aligned = aligned;
          above_header = low;
          inside = omega arith;
        },
        refl,
        refl,
      )

-- With a span in the address space that covers payload, padding and header, the bounds test of
-- `allocate_from_span` passes, and the block is placed.
allocate_from_span-IsPlaced :
    (size alignment : ℕ) (s : CachedSpan) (o : Object LargeObjectAllocator)
    → 0 < alignment
    → InSpace s
    → size + alignment + sizeof_block_header ≤ s.size
    → Returns (Placed size alignment o) (allocate_from_span size alignment s.size s.raw_ptr o)
unfolding allocate_from_span
allocate_from_span-IsPlaced size alignment s o pos good covers =
    let e : wrap (s.raw_ptr + sizeof_block_header) ≡ s.raw_ptr + sizeof_block_header =
      omega arith in
    let low = le-align_up (s.raw_ptr + sizeof_block_header) alignment pos (omega arith) in
    let high = align_up-lt (s.raw_ptr + sizeof_block_header) alignment pos (omega arith) in
    let aligned = align_up-mod (s.raw_ptr + sizeof_block_header) alignment pos in
    rw e (
      placed size alignment s o (align_up (s.raw_ptr + sizeof_block_header) alignment) good covers
        low high aligned)

module _ (os : Platform) (laws : MmapLaws os) (size alignment : ℕ)
    (o : Object LargeObjectAllocator) where
  abbrev total : ℕ
  total = size + alignment + sizeof_block_header

  not_too_big : total ≤ 2 ^ 64 - 1 → too_big size alignment ≡ false
  unfolding too_big
  not_too_big h = ground arith

  allocate_aligned-IsPlaced :
      IsLarge o.self
      → 0 < alignment
      → total + 2 * 1024 * 1024 + 3 * os.page_size ≤ 2 ^ 64
      → Ensures
          (λ p o'. IsPlaced o.self.node_id size alignment p o'.world.memory × IsLarge o'.self)
          (Refused o)
          (allocate_aligned os size alignment o)
  unfolding allocate_aligned
  allocate_aligned-IsPlaced v pos fits =
      let (low, high, _) = class_size_for_bounds os total laws.page_pos fits in
      rw (not_too_big (omega (arith, laws.page_pos))) (
        Ensures-bind (Acquired os (class_size_for os total) o) _ (Refused o)
          (acquire_span os (class_size_for os total) o) _
          (acquire_span-Acquired os laws (class_size_for os total) o v (λ e. absurd (omega arith))
            (omega arith))
          λ s o' got.
            Ensures-of_Returns (Placed size alignment o') _ (Refused o) _
              (allocate_from_span-IsPlaced size alignment s o' pos got.usable (omega arith))
              λ p o'' (placed_block, same, _).
                (rw got.same_node at placed_block, rw same got.large))

effective_alignment_pos : (alignment : ℕ) → 8 ≤ effective_alignment alignment
unfolding effective_alignment
effective_alignment_pos alignment = ground arith

-- A request that leaves room for the rounding below `2 ^ 64` is placed in a span, or refused with
-- `bad_alloc` and nothing changed; either way the cache keeps its invariant.
pub allocate-IsPlaced :
    (os : Platform) (laws : MmapLaws os) (size alignment : ℕ) (o : Object LargeObjectAllocator)
    → IsLarge o.self
    → size
        + effective_alignment alignment
        + sizeof_block_header
        + 2 * 1024 * 1024
        + 3 * os.page_size
      ≤ 2 ^ 64
    → Ensures
        (λ p o'.
          IsPlaced o.self.node_id size (effective_alignment alignment) p o'.world.memory
          × IsLarge o'.self)
        (Refused o)
        (allocate os size alignment o)
unfolding allocate
allocate-IsPlaced os laws size alignment o v fits =
    allocate_aligned-IsPlaced os laws size (effective_alignment alignment) o v
      (omega (arith, effective_alignment_pos alignment)) fits
