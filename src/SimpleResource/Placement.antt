-- ===== src/SimpleResource/Placement.antt =====
-- `do_allocate` and `do_deallocate`: where header and payload lie, and what is mapped.
use numa_pmr.Base.{◌*◌, ℕ, ◌+◌, ◌-◌, ◌%◌, ◌^◌, ◌≤◌, ◌<◌, ◌≡◌, ◌≢◌, arith, false, ◌∷◌, ℤ, ltb}
use numa_pmr.Machine.Word.{wrap, sub_word, sizeof_allocation_header, null}
use numa_pmr.Machine.Platform.{Platform, MmapLaws, mapped}
use numa_pmr.Machine.Memory.{World, update_self}
use numa_pmr.Machine.Monad.{Returns, Ensures, Ensures-bind, Ensures-of_Returns}
use numa_pmr.VirtualMemory.{align_up, alloc_on_node}
use numa_pmr.VirtualMemory.Align.{le-align_up, align_up-lt, align_up-mod}
use numa_pmr.VirtualMemory.Mapping.{Fresh, Unchanged, alloc_on_node-Maps}
use numa_pmr.SimpleResource.{
  place_in_span, allocate_from_span, total_size_for, exceeds, allocate_adjusted,
}

-- An allocation at `p`: one more span is mapped; header and payload lie in it, the header right
-- below the payload, and the header names the span.
pub record IsAllocation (os : Platform) (bytes alignment : ℕ) (w : World) (p : ℕ) (w' : World)
    : Type 0 where
  pub raw : ℕ
  pub total : ℕ
  pub header :
      w'.memory.allocation (p - sizeof_allocation_header)
      ≡ record { raw_ptr = raw; total_size = total }
  pub aligned : p % alignment ≡ 0
  pub above_header : raw + sizeof_allocation_header ≤ p
  pub inside : p + bytes ≤ raw + total
  pub raw_ne : raw ≢ null
  pub in_space : raw + total < 2 ^ 64
  pub maps : mapped w'.trace ≡ (raw, align_up total os.page_size) ∷ mapped w.trace

-- The test and the write, at a start that the rounding gave.
place_in_span-IsAllocation :
    (os : Platform) (bytes alignment raw total start : ℕ) (w w1 : World)
    → raw ≢ null
    → raw + total < 2 ^ 64
    → bytes + alignment + sizeof_allocation_header ≤ total
    → raw + sizeof_allocation_header ≤ start
    → start < raw + sizeof_allocation_header + alignment
    → start % alignment ≡ 0
    → mapped w1.trace ≡ (raw, align_up total os.page_size) ∷ mapped w.trace
    → Returns (IsAllocation os bytes alignment w) (place_in_span os raw total bytes start w1)
unfolding place_in_span
place_in_span-IsAllocation os bytes alignment raw total start w w1 ne space covers low high al
      maps =
    let passes : ltb (wrap (raw + total)) (wrap (start + bytes)) ≡ false = ground arith in
    let below : sub_word start sizeof_allocation_header ≡ start - sizeof_allocation_header =
      omega arith in
    rw (passes, below)
      (record {
        raw = raw;
        total = total;
        header = update_self w1.memory.allocation (start - sizeof_allocation_header) _;
        aligned = al;
        above_header = low;
        inside = omega arith;
        raw_ne = ne;
        in_space = space;
        maps = maps;
      })

module _ (os : Platform) (laws : MmapLaws os) (bytes alignment : ℕ) (pos : 0 < alignment)
    (fits : bytes + alignment + sizeof_allocation_header + 2 * os.page_size ≤ 2 ^ 64)
    (w : World) where
  abbrev needed : ℕ
  needed = bytes + alignment + sizeof_allocation_header

  total_bounds :
      (needed ≤ total_size_for os bytes alignment)
      × (total_size_for os bytes alignment < needed + os.page_size)
  unfolding total_size_for
  total_bounds = (
    le-align_up needed os.page_size laws.page_pos (omega (arith, laws.page_pos)),
    align_up-lt needed os.page_size laws.page_pos (omega (arith, laws.page_pos)),
  )

  not_exceeds : exceeds bytes alignment ≡ false
  unfolding exceeds
  not_exceeds = ground (arith, laws.page_pos, fits)

  allocate_from_span-Fresh :
      (raw : ℕ) (w1 : World)
      → Fresh os (total_size_for os bytes alignment) w raw w1
      → Returns
          (IsAllocation os bytes alignment w)
          (allocate_from_span os raw (total_size_for os bytes alignment) bytes alignment w1)
  unfolding allocate_from_span
  allocate_from_span-Fresh raw w1 (m, e) =
      let total : ℕ = total_size_for os bytes alignment in
      let space = laws.in_space w.trace (align_up total os.page_size) raw e in
      let whole =
        le-align_up total os.page_size laws.page_pos (omega (arith, total_bounds, fits)) in
      let unwrapped : wrap (raw + sizeof_allocation_header) ≡ raw + sizeof_allocation_header =
        omega (arith, space, whole, total_bounds) in
      let room : raw + sizeof_allocation_header + alignment ≤ 2 ^ 64 =
        omega (arith, space, whole, total_bounds) in
      rw unwrapped (
        place_in_span-IsAllocation os bytes alignment raw total _ w w1
          (laws.ne_null w.trace _ raw e) (omega (arith, space, whole)) total_bounds.0
          (le-align_up (raw + sizeof_allocation_header) alignment pos room)
          (align_up-lt (raw + sizeof_allocation_header) alignment pos room)
          (align_up-mod (raw + sizeof_allocation_header) alignment pos) m.maps)

  pub allocate_adjusted-IsAllocation :
      (node : ℤ)
      → Ensures
          (IsAllocation os bytes alignment w)
          (Unchanged w)
          (allocate_adjusted os node bytes alignment w)
  unfolding allocate_adjusted
  allocate_adjusted-IsAllocation node = rw not_exceeds (
      Ensures-bind (Fresh os (total_size_for os bytes alignment) w) _ (Unchanged w)
        (alloc_on_node os (total_size_for os bytes alignment) node w) _
        (alloc_on_node-Maps os laws (total_size_for os bytes alignment)
          (λ e. absurd (omega (arith, total_bounds))) w node)
        λ raw w1 fresh.
          Ensures-of_Returns (IsAllocation os bytes alignment w) _ (Unchanged w) _
            (allocate_from_span-Fresh raw w1 fresh) (λ _ _ h. h))
