-- ===== src/SimpleResource/RoundTrip.antt =====
-- A `do_allocate`, and a `do_deallocate` of what it returned.
use numa_pmr.Base.{
  ℕ, ◌+◌, ◌-◌, ◌*◌, ◌^◌, ◌≤◌, ◌<◌, ◌≡◌, refl, ap, ◌∙◌, arith, false, ℤ, ◌==◌, if◌then◌else◌,
}
use numa_pmr.Machine.Word.{sub_word, sizeof_allocation_header}
use numa_pmr.Machine.Platform.{Platform, MmapLaws, mapped, unmap}
use numa_pmr.Machine.Memory.{World}
use numa_pmr.Machine.Monad.{
  bad_alloc, Returns, Ensures, Ensures-bind, Ensures-of_Returns, Ensures-mono, ◌>>=◌,
}
use numa_pmr.VirtualMemory.{align_up}
use numa_pmr.VirtualMemory.Mapping.{Maps, Unchanged, release-Maps, unmap_head}
use numa_pmr.Topology.{Topology, current_node_from_cpu}
use numa_pmr.SimpleResource.{
  SimpleResource, at_least_one_byte, at_least_pointer, do_allocate, do_deallocate,
}
use numa_pmr.SimpleResource.Placement.{IsAllocation, allocate_adjusted-IsAllocation}

at_least_pointer_pos : (alignment : ℕ) → 0 < at_least_pointer alignment
unfolding at_least_pointer
at_least_pointer_pos alignment = ground arith

-- On any node, a request whose size leaves room for the rounding below `2 ^ 64` gets a span of its
-- own: the payload is aligned, header and payload lie inside the span, and the header names it; or
-- it is refused with `bad_alloc`, and what is mapped and what is in memory are as before.
pub do_allocate-IsAllocation :
    (os : Platform) (laws : MmapLaws os) (cpu : ℤ) (t : Topology) (bytes alignment : ℕ)
    (r : SimpleResource) (w : World)
    → at_least_one_byte bytes
        + at_least_pointer alignment
        + sizeof_allocation_header
        + 2 * os.page_size
      ≤ 2 ^ 64
    → Ensures
        (IsAllocation os (at_least_one_byte bytes) (at_least_pointer alignment) w)
        (Unchanged w)
        (do_allocate os cpu t bytes alignment r w)
unfolding do_allocate
do_allocate-IsAllocation os laws cpu t bytes alignment r w fits =
    allocate_adjusted-IsAllocation os laws (at_least_one_byte bytes) (at_least_pointer alignment)
      (at_least_pointer_pos alignment) fits w
      (if r.exact_calculate then current_node_from_cpu cpu t else r.node_id)

-- The span of an allocation whose header is still in place is unmapped, and nothing else is.
pub do_deallocate-Maps :
    (os : Platform) (bytes alignment p : ℕ) (w w1 w2 : World)
    (h : IsAllocation os bytes alignment w p w1)
    → w2.memory.allocation (p - sizeof_allocation_header)
      ≡ w1.memory.allocation (p - sizeof_allocation_header)
    → Returns
        (λ _ w3. Maps w2 w3 (unmap h.raw (align_up h.total os.page_size)))
        (do_deallocate os p w2)
unfolding do_deallocate
do_deallocate-Maps os bytes alignment p w w1 w2 h same =
    let not_null : (p == 0) ≡ false = ground (arith, h.above_header) in
    let below : sub_word p sizeof_allocation_header ≡ p - sizeof_allocation_header =
      omega (arith, h.above_header, h.inside, h.in_space) in
    rw (not_null, below, same, h.header)
      (release-Maps os h.total (λ e. absurd (omega (arith, h.above_header, h.inside))) h.raw w2
        h.raw_ne)

-- On any node, for a request that, with its alignment and its header, leaves room for two pages below
-- `2 ^ 64`: allocating and deallocating again leaves mapped what was mapped, and where the allocation
-- is refused with `bad_alloc` nothing stays mapped either.
pub do_deallocate-do_allocate :
    (os : Platform) (laws : MmapLaws os) (cpu : ℤ) (t : Topology) (bytes alignment : ℕ)
    (r : SimpleResource) (w : World)
    → at_least_one_byte bytes
        + at_least_pointer alignment
        + sizeof_allocation_header
        + 2 * os.page_size
      ≤ 2 ^ 64
    → Ensures
        (λ _ w'. mapped w'.trace ≡ mapped w.trace)
        (λ e w'. (mapped w'.trace ≡ mapped w.trace) × (e ≡ bad_alloc))
        ((do p ← do_allocate os cpu t bytes alignment r; do_deallocate os p) w)
do_deallocate-do_allocate os laws cpu t bytes alignment r w fits =
    Ensures-bind (IsAllocation os (at_least_one_byte bytes) (at_least_pointer alignment) w) _ _
      (do_allocate os cpu t bytes alignment r w) _
      (Ensures-mono (IsAllocation os (at_least_one_byte bytes) (at_least_pointer alignment) w)
        (IsAllocation os (at_least_one_byte bytes) (at_least_pointer alignment) w) (Unchanged w)
        (λ e w'. (mapped w'.trace ≡ mapped w.trace) × (e ≡ bad_alloc)) _
        (do_allocate-IsAllocation os laws cpu t bytes alignment r w fits) (λ _ _ h. h)
        (λ _ w' u. (u.0.maps, u.1)))
      λ p w1 h.
        Ensures-of_Returns (λ _ w3. Maps w1 w3 (unmap h.raw (align_up h.total os.page_size))) _ _ _
          (do_deallocate-Maps os (at_least_one_byte bytes) (at_least_pointer alignment) p w w1 w1 h
            refl)
          λ _ w3 m.
            m.maps
            ∙ ap (unmap h.raw (align_up h.total os.page_size)) h.maps
            ∙ unmap_head h.raw (align_up h.total os.page_size) (mapped w.trace)
