-- ===== src/SmallObject/Route.antt =====
-- Which sizes have a class.
use numa_pmr.Base.{subst, ℕ, ◌<◌, ◌≡◌, ◌↔◌, refl, arith, true, false, leb, ◌==◌}
use numa_pmr.Machine.Monad.{Outcome, ok, throw}
use numa_pmr.SizeClassTable.{class_index_for_size, class_size_at, num_size_classes}
use numa_pmr.SizeClassTable.Rounding.{class_index_for_size-class_size_at}
use numa_pmr.SmallObject.{check_class, get_size_class}

check_class_lem :
    (n i : ℕ) (o : Outcome ℕ)
    → check_class n o ≡ ok i
    → (i < num_size_classes) × (class_size_at i ≡ n)
unfolding check_class
check_class_lem n i (throw e) h = absurd (ground arith)
check_class_lem n i (ok j) h = ground arith

-- `get_size_class` finds class `i` for exactly the size that the table has at `i`, and throws for
-- a size that is in no class.
pub get_size_class_iff :
    (n i : ℕ) → (get_size_class n ≡ ok i) ↔ ((i < num_size_classes) × (class_size_at i ≡ n))
unfolding get_size_class check_class
get_size_class_iff n i = (
  λ h. check_class_lem n i (class_index_for_size n) h,
  λ (lt, e).
      let found = (class_index_for_size-class_size_at i lt).0 in
      let small : leb num_size_classes i ≡ false = ground (arith, lt) in
      let same : (class_size_at i == class_size_at i) ≡ true = ground arith in
      subst (λ k. check_class k (class_index_for_size k) ≡ ok i) e (rw (found, small, same) refl),
)
