-- ===== src/SizeClassTable/Index.antt =====
-- The table of size classes against the two functions that compute a class from a size.
use numa_pmr.Base.{
  true, ℕ, ◌+◌, ◌-◌, ◌*◌, ◌/◌, ◌≤◌, ◌<◌, ◌≡◌, refl, arith, length, ltb, leb, ◌==◌, if◌then◌else◌,
  holds_below, holds_below-at, ==_iff,
}
use numa_pmr.Machine.Monad.{ok}
use numa_pmr.VirtualMemory.{align_up}
use numa_pmr.SizeClassTable.{
  class_size, class_index_of, num_size_classes, class_sizes, class_size_at,
}

pub num_size_classes_lem : num_size_classes ≡ 40
unfolding num_size_classes
num_size_classes_lem = refl

pub length-class_sizes : length class_sizes ≡ 40
unfolding class_sizes
length-class_sizes = refl

-- The classes in closed form.
abbrev pub class_formula : ℕ → ℕ
class_formula i =
    if ltb i 16
    then 16 * (i + 1)
    else if ltb i 28
    then 256 + 64 * (i - 15)
    else 1024 + 256 * (i - 27)

formula_table : holds_below 40 (λ i. class_size_at i == class_formula i) ≡ true
unfolding holds_below class_size_at class_sizes
formula_table = refl

pub class_size_at_lem : (i : ℕ) → i < 40 → class_size_at i ≡ class_formula i
class_size_at_lem i h =
    (==_iff _ _).0 (holds_below-at 40 (λ j. class_size_at j == class_formula j) i formula_table h)

-- `align_up` at the three granularities, in a form that arithmetic reads.
align_up_16 : (n : ℕ) → n ≤ 4096 → align_up n 16 ≡ (n + 15) / 16 * 16
unfolding align_up
align_up_16 n h = omega arith

align_up_64 : (n : ℕ) → n ≤ 4096 → align_up n 64 ≡ (n + 63) / 64 * 64
unfolding align_up
align_up_64 n h = omega arith

align_up_256 : (n : ℕ) → n ≤ 4096 → align_up n 256 ≡ (n + 255) / 256 * 256
unfolding align_up
align_up_256 n h = omega arith

-- The index that the code computes, as a number.
abbrev pub index_formula : ℕ → ℕ
index_formula n =
    if leb n 256
    then (n + 15) / 16 - 1
    else if leb n 1024
    then 15 + ((n + 63) / 64 - 4)
    else 27 + ((n + 255) / 256 - 4)

pub class_size_lem :
    (n : ℕ)
    → 0 < n
    → n ≤ 4096
    → (class_size n ≡ class_formula (index_formula n)) × (index_formula n < 40) × (n ≤ class_size n)
unfolding class_size
class_size_lem n pos h = ground (arith, align_up_16 n, align_up_64 n, align_up_256 n)

pub class_index_of_lem : (n : ℕ) → 0 < n → n ≤ 4096 → class_index_of n ≡ ok (index_formula n)
unfolding class_index_of
class_index_of_lem n pos h = ground (arith, align_up_16 n, align_up_64 n, align_up_256 n)
