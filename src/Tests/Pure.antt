-- ===== src/Tests/Pure.antt =====
-- The tables and the rounding at concrete sizes.
use numa_pmr.Base.{ℕ, ◌≤◌, ◌<◌, ◌≡◌, refl, arith}
use numa_pmr.Machine.Monad.{ok, throw, out_of_range}
use numa_pmr.VirtualMemory.{align_up}
use numa_pmr.Config.Large.{class_size_for, bin_index_for, num_large_bins}
use numa_pmr.Config.Bins.{bin_size, class_size_for-bins}
use numa_pmr.SizeClassTable.{class_size, class_index_for_size, class_size_at, num_size_classes}
use numa_pmr.SizeClassTable.Rounding.{at_least_one, class_index_for_size-covers}

align_up_5000 : align_up 5000 4096 ≡ 8192
unfolding align_up
align_up_5000 = refl

class_of_300 : class_size 300 ≡ 320
unfolding class_size align_up
class_of_300 = refl

index_of_300 : class_index_for_size 300 ≡ ok 16
unfolding class_index_for_size align_up
index_of_300 = refl

index_above : class_index_for_size 4097 ≡ throw out_of_range
unfolding class_index_for_size
index_above = refl

class_size_for-bins_example :
    (9000 ≤ class_size_for 9000)
    × (bin_index_for (class_size_for 9000) < num_large_bins)
    × (bin_size (bin_index_for (class_size_for 9000)) ≡ class_size_for 9000)
    × ((i : ℕ) → i < num_large_bins → 9000 ≤ bin_size i → class_size_for 9000 ≤ bin_size i)
class_size_for-bins_example = class_size_for-bins 9000 (omega arith)

class_index_for_size-covers_example :
    (i : ℕ) × (class_index_for_size 300 ≡ ok i)
    × (i < num_size_classes)
    × (class_size_at i ≡ class_size (at_least_one 300))
    × (300 ≤ class_size_at i)
class_index_for_size-covers_example = class_index_for_size-covers 300 (omega arith)
