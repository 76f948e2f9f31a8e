-- ===== src/SizeClassTable/Rounding.antt =====
-- What the size-class table promises: a request gets the least class that covers it.
use numa_pmr.Base.{◌∙◌, ℕ, ◌+◌, ◌*◌, ◌≤◌, ◌<◌, ◌≡◌, refl, arith, ◌==◌, if◌then◌else◌, zero, suc}
use numa_pmr.Machine.Monad.{ok}
use numa_pmr.SizeClassTable.{class_size, class_index_for_size, num_size_classes, class_size_at}
use numa_pmr.SizeClassTable.Index.{
  num_size_classes_lem, class_size_at_lem, index_formula, class_size_lem, class_index_of_lem,
}

-- The size that the code allocates for a request: 0 counts as 1.
abbrev pub at_least_one : ℕ → ℕ
at_least_one n = if n == 0 then 1 else n

index_for_nonzero :
    (n : ℕ)
    → 0 < n
    → n ≤ 4096
    → (class_index_for_size n ≡ ok (index_formula n))
      × (index_formula n < num_size_classes)
      × (class_size_at (index_formula n) ≡ class_size n)
      × (n ≤ class_size n)
unfolding class_index_for_size
index_for_nonzero n pos h = ground (
  arith,
  num_size_classes_lem,
  class_index_of_lem n pos h,
  class_size_lem n pos h,
  class_size_at_lem (index_formula n),
)

zero_as_one : class_index_for_size 0 ≡ class_index_for_size 1
unfolding class_index_for_size
zero_as_one = refl

at_least_one-suc : (n : ℕ) → at_least_one (suc n) ≡ suc n
at_least_one-suc n = ground arith

-- A request of at most 4096 bytes has a class index within the table, the entry there is the
-- request's class size, and it covers the request.
pub class_index_for_size-covers :
    (n : ℕ)
    → n ≤ 4096
    → (i : ℕ) × (class_index_for_size n ≡ ok i)
      × (i < num_size_classes)
      × (class_size_at i ≡ class_size (at_least_one n))
      × (n ≤ class_size_at i)
class_index_for_size-covers zero h =
    let (found, inside, entry, covers) = index_for_nonzero 1 (omega arith) (omega arith) in
    (index_formula 1, zero_as_one ∙ found, inside, entry, omega arith)
class_index_for_size-covers (suc n) h =
    let (found, inside, entry, covers) = index_for_nonzero (suc n) (omega arith) h in
    (index_formula (suc n), found, inside, rw (at_least_one-suc n) entry, rw entry covers)

-- No class below a request's own covers the request.
pub class_size_least :
    (n i : ℕ) → 0 < n → i < num_size_classes → n ≤ class_size_at i → class_size n ≤ class_size_at i
class_size_least n i pos lt h =
    ground (arith, num_size_classes_lem, class_size_at_lem i, class_size_lem n pos)

-- The index of a class's own size is its place in the table, and the class of it is itself.
pub class_index_for_size-class_size_at :
    (i : ℕ)
    → i < num_size_classes
    → (class_index_for_size (class_size_at i) ≡ ok i)
      × (class_size (class_size_at i) ≡ class_size_at i)
class_index_for_size-class_size_at i lt = ground (
  arith,
  num_size_classes_lem,
  class_size_at_lem i,
  index_for_nonzero (class_size_at i),
  class_size_at_lem (index_formula (class_size_at i)),
)

-- Rounding up to a class wastes less than a quarter of the request and 16 bytes.
pub class_size_waste : (n : ℕ) → 0 < n → n ≤ 4096 → 4 * class_size n < 5 * n + 64
class_size_waste n pos h = ground (arith, class_size_lem n pos h)
