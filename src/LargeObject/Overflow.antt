-- ===== src/LargeObject/Overflow.antt =====
-- Requests in the last page below `2 ^ 64`: they pass the guard of `allocate`, and the rounding to
-- pages, which the guard does not count, wraps.
use numa_pmr.Base.{◌∙◌, ◌*◌, ℕ, ◌+◌, ◌^◌, ◌≤◌, ◌<◌, ◌≡◌, arith, false, ltb}
use numa_pmr.Machine.Word.{wrap, sizeof_block_header}
use numa_pmr.Machine.Platform.{Platform}
use numa_pmr.Machine.Monad.{Returns}
use numa_pmr.Machine.Object.{Object}
use numa_pmr.Config.Large
use numa_pmr.VirtualMemory.{align_up}
use numa_pmr.VirtualMemory.Align.{le-align_up, align_up-lt, align_up_wraps}
use numa_pmr.LargeObject.{
  CachedSpan, LargeObjectAllocator, allocate_from_span, place, too_big, page_size_for,
  class_size_for,
}

-- The rounding gives a number below one page, and its class is the smallest.
wrapped_class : (n : ℕ) → n < 4096 → align_up (Large.class_size_for n) 4096 ≡ 8192
unfolding Large.class_size_for align_up
wrapped_class n h = ground arith

place_past_end :
    (size : ℕ) (s : CachedSpan) (o : Object LargeObjectAllocator) (start : ℕ)
    → s.raw_ptr + 8192 < 2 ^ 64
    → s.size ≡ 8192
    → size < 2 ^ 64
    → 8192 ≤ s.raw_ptr
    → s.raw_ptr + 32 ≤ start
    → start ≤ s.raw_ptr + 4096 + 32
    → 2 ^ 64 ≤ size + 2 * 4096 + 32
    → Returns (λ p o'. s.raw_ptr + s.size < p + size) (place size s.size s.raw_ptr start o)
unfolding place
place_past_end size s o start space e word far low high huge =
    let passes : ltb (wrap (s.raw_ptr + s.size)) (wrap (start + size)) ≡ false = ground arith in
    rw passes (omega arith)

-- A request whose size the guard accepts, in the last page below the end of the address space, is
-- given the smallest class, 8192 bytes, and `allocate_from_span` returns a block in every span of
-- that size above the first two pages, although the payload runs past the span's end. (Pages of 4096
-- bytes, alignments up to a page.)
pub allocate_overflow :
    (os : Platform) (size alignment : ℕ) (s : CachedSpan) (o : Object LargeObjectAllocator)
    → os.page_size ≡ 4096
    → 0 < alignment
    → alignment ≤ 4096
    → size + alignment + sizeof_block_header < 2 ^ 64
    → 2 ^ 64 < size + alignment + sizeof_block_header + 4096
    → s.size ≡ class_size_for os (size + alignment + sizeof_block_header)
    → 8192 ≤ s.raw_ptr
    → s.raw_ptr + s.size < 2 ^ 64
    → (too_big size alignment ≡ false)
      × (s.size ≡ 8192)
      × Returns
          (λ p o'. s.raw_ptr + s.size < p + size)
          (allocate_from_span size alignment s.size s.raw_ptr o)
unfolding class_size_for page_size_for allocate_from_span too_big
allocate_overflow os size alignment s o page pos small guard over class far space =
    let total = size + alignment + sizeof_block_header in
    let tiny : align_up total 4096 < 4096 = align_up_wraps total 4096 guard (omega arith) over in
    let e : s.size ≡ 8192 = class ∙ rw page (wrapped_class (align_up total 4096) tiny) in
    let base : wrap (s.raw_ptr + sizeof_block_header) ≡ s.raw_ptr + sizeof_block_header =
      omega arith in
    let low = le-align_up (s.raw_ptr + sizeof_block_header) alignment pos (omega arith) in
    let high = align_up-lt (s.raw_ptr + sizeof_block_header) alignment pos (omega arith) in
    (
      ground arith,
      e,
      rw base (
          place_past_end size s o (align_up (s.raw_ptr + sizeof_block_header) alignment)
            (omega arith) e (omega arith) far low (omega arith) (omega arith)),
    )
