-- ===== src/SizeClassTable.antt =====
-- small_object_allocator.hpp: `SizeClassTable`, `count_distinct_size_classes` and `kClassSizes`,
-- the mapping between requested sizes and the size classes of the small-object allocator.
pub mod Index
pub mod Rounding
use numa_pmr.Base.{
  ℕ, zero, suc, ◌+◌, ◌-◌, ◌*◌, ◌/◌, Bool, true, false, List, [], ◌∷◌, leb, ◌==◌, if◌then◌else◌,
  get_or,
}
use numa_pmr.Machine.Monad.{Outcome, ok, throw, out_of_range}
use numa_pmr.Config.Small.{small_large_threshold, thresholds, alignments}
use numa_pmr.VirtualMemory.{align_up}

-- The loop over the bounds, then the last alignment.
abbrev class_size_loop : ℕ → List ℕ → List ℕ → ℕ → ℕ
class_size_loop size [] gs last = align_up size last
class_size_loop size (t ∷ ts) [] last = align_up size last
class_size_loop size (t ∷ ts) (a ∷ gs) last =
    if leb size t then align_up size a else class_size_loop size ts gs last

unfoldable pub class_size : ℕ → ℕ
class_size size = class_size_loop size thresholds alignments (get_or alignments 2 0)

abbrev first_threshold : ℕ
first_threshold = get_or thresholds 0 0

abbrev second_threshold : ℕ
second_threshold = get_or thresholds 1 0

abbrev first_alignment : ℕ
first_alignment = get_or alignments 0 0

abbrev second_alignment : ℕ
second_alignment = get_or alignments 1 0

abbrev third_alignment : ℕ
third_alignment = get_or alignments 2 0

abbrev first_count : ℕ
first_count = first_threshold / first_alignment

abbrev second_count : ℕ
second_count = (second_threshold - first_threshold) / second_alignment

-- `class_index_for_size` behind its replacement of 0 by 1.
unfoldable pub class_index_of : ℕ → Outcome ℕ
class_index_of size =
    if leb size first_threshold
    then ok (align_up size first_alignment / first_alignment - 1)
    else if leb size second_threshold
    then ok
        (first_count + (align_up size second_alignment - first_threshold) / second_alignment - 1)
    else if leb size small_large_threshold
    then ok (
        first_count
        + second_count
        + (align_up size third_alignment - second_threshold) / third_alignment
        - 1)
    else throw out_of_range

unfoldable pub class_index_for_size : ℕ → Outcome ℕ
unfolding class_index_of
class_index_for_size size = class_index_of (if size == 0 then 1 else size)

-- The loop of `count_distinct_size_classes`, by the rounds left.
count_loop : ℕ → (s last count : ℕ) → ℕ
count_loop zero s last count = count
count_loop (suc n) s last count = elim (class_size s == last) [
  | true ↦ count_loop n (s + 1) last count
  | false ↦ count_loop n (s + 1) (class_size s) (count + 1)
]

unfoldable pub num_size_classes : ℕ
unfolding count_loop class_size align_up
num_size_classes = count_loop small_large_threshold 1 0 0

-- The loop that fills `kClassSizes`.
class_sizes_loop : ℕ → (s last : ℕ) → List ℕ
class_sizes_loop zero s last = []
class_sizes_loop (suc n) s last = elim (class_size s == last) [
  | true ↦ class_sizes_loop n (s + 1) last
  | false ↦ class_size s ∷ class_sizes_loop n (s + 1) (class_size s)
]

unfoldable pub class_sizes : List ℕ
unfolding class_sizes_loop class_size align_up
class_sizes = class_sizes_loop small_large_threshold 1 0

-- `kClassSizes[i]`.
unfoldable pub class_size_at : ℕ → ℕ
class_size_at i = get_or class_sizes i 0
