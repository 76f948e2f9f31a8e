-- ===== src/Config/Small.antt =====
-- size_divide/block.hpp: `SizeClassConfig` and the constants of the small-object allocator.
use numa_pmr.Base.{ℕ, ◌*◌, ◌/◌, List, [], ◌∷◌, leb, if◌then◌else◌}

abbrev pub small_large_threshold : ℕ
small_large_threshold = 4096

abbrev pub slab_size : ℕ
slab_size = 64 * 1024

abbrev pub thresholds : List ℕ
thresholds = 256 ∷ 1024 ∷ small_large_threshold ∷ []

abbrev pub alignments : List ℕ
alignments = 16 ∷ 64 ∷ 256 ∷ []

-- The loop of `max_cached_bytes_for_class` over the thresholds that are left.
abbrev cached_bytes_loop : ℕ → List ℕ → ℕ
cached_bytes_loop class_size [] = small_large_threshold / 2 * 1024
cached_bytes_loop class_size (t ∷ rest) =
    if leb class_size t then t / 2 * 1024 else cached_bytes_loop class_size rest

unfoldable pub max_cached_bytes_for_class : ℕ → ℕ
max_cached_bytes_for_class class_size = cached_bytes_loop class_size thresholds
