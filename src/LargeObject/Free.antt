-- ===== src/LargeObject/Free.antt =====
-- `deallocate` of large blocks: what it reads back from the header, and where the span goes.
use numa_pmr.Base.{ℕ, ◌+◌, ◌≡◌, ◌≢◌, ◌∙◌, ap, arith, ◌==◌, Bool, true, false, ℤ, if◌then◌else◌}
use numa_pmr.Machine.Platform.{Platform, mapped, unmap}
use numa_pmr.VirtualMemory.Mapping.{Maps, release-Maps}
use numa_pmr.Machine.Monad.{Returns, Returns-seq, pure}
use numa_pmr.Machine.Object.{Returns-outside}
use numa_pmr.LargeObject.{
  release, align_up, null, outside, bin_index_for, Memory, Object, CachedSpan, LargeObjectAllocator,
  release_to_cache, deallocate, top_span,
}
use numa_pmr.LargeObject.Acquire.{IsLarge, Cached, release_to_cache-Cached}
use numa_pmr.LargeObject.Placement.{IsPlaced}

span_nonzero :
    {node : ℤ} {size alignment p : ℕ} {m : Memory} (b : IsPlaced node size alignment p m)
    → b.span.size ≢ 0
span_nonzero b e = absurd (omega (arith, b.above_header, b.inside))

-- What `deallocate` does with the span of a block: it goes on top of its bin, or back to the OS.
pub data Freed (os : Platform) (s : CachedSpan) (o o' : Object LargeObjectAllocator) : Type 0 where
  to_cache :
      top_span (o'.self.bins (bin_index_for s.size)) ≡ s
      → o'.self.cached_bytes ≡ o.self.cached_bytes + s.size
      → o'.world ≡ o.world
      → Freed os s o o'
  to_os :
      o'.self ≡ o.self
      → o'.world.memory ≡ o.world.memory
      → mapped o'.world.trace
        ≡ unmap s.raw_ptr (align_up s.size os.page_size) (mapped o.world.trace)
      → Freed os s o o'

-- The end of `deallocate`, by what `release_to_cache` returned.
give_up :
    (os : Platform) (s : CachedSpan) (o o' : Object LargeObjectAllocator) (cached : Bool)
    → IsLarge o.self
    → s.raw_ptr ≢ 0
    → s.size ≢ 0
    → Cached s.raw_ptr s.size o cached o'
    → Returns
        (λ _ o''. Freed os s o o'' × IsLarge o''.self)
        ((if cached then pure tt else outside (release os s.raw_ptr s.size)) o')
give_up os s o o' true v _ _ (large, spans, bytes, top, same) = (to_cache top bytes same, large)
give_up os s o o' false v ne nonzero same =
    Returns-outside (λ _ w'. Maps o'.world w' (unmap s.raw_ptr (align_up s.size os.page_size))) _ o'
      (release os s.raw_ptr s.size o'.world) (release-Maps os s.size nonzero s.raw_ptr o'.world ne)
      λ _ w' m. (
        to_os (ap (λ x. x.self) same) (m.same_memory ∙ ap (λ x. x.world.memory) same) (
            m.maps
            ∙ ap (λ x. unmap s.raw_ptr (align_up s.size os.page_size) (mapped x.world.trace)) same),
        rw same v,
      )

-- `deallocate` of a placed block finds its span in the header, and gives back exactly that span.
pub deallocate-Freed :
    (os : Platform) (node : ℤ) (size alignment p : ℕ) (o : Object LargeObjectAllocator)
    (b : IsPlaced node size alignment p o.world.memory)
    → IsLarge o.self
    → Returns (λ _ o'. Freed os b.span o o' × IsLarge o'.self) (deallocate os p o)
unfolding deallocate
deallocate-Freed os node size alignment p o b v =
    let not_null : (p == null) ≡ false = ground (arith, b.above_header) in
    rw (not_null, b.header)
      (Returns-seq (Cached b.span.raw_ptr b.span.size o) _
        (release_to_cache b.span.raw_ptr b.span.size o) _
        (release_to_cache-Cached b.span.raw_ptr b.span.size o v b.in_space)
        λ cached o' c. give_up os b.span o o' cached v b.in_space.0 (span_nonzero b) c)
