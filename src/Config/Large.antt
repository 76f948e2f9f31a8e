-- ===== src/Config/Large.antt =====
-- size_divide/block.hpp: `LargeObjectConfig`.
use numa_pmr.Base.{ℕ, ◌-◌, ◌*◌, ◌^◌, List, [], ◌∷◌, leb, ◌==◌, if◌then◌else◌}

abbrev pub large_bin_sizes : List ℕ
large_bin_sizes =
    8 * 1024
    ∷ 12 * 1024
    ∷ 16 * 1024
    ∷ 24 * 1024
    ∷ 32 * 1024
    ∷ 48 * 1024
    ∷ 64 * 1024
    ∷ 96 * 1024
    ∷ 128 * 1024
    ∷ 192 * 1024
    ∷ 256 * 1024
    ∷ 384 * 1024
    ∷ 512 * 1024
    ∷ 768 * 1024
    ∷ 1024 * 1024
    ∷ 2 * 1024 * 1024
    ∷ []

abbrev pub num_large_bins : ℕ
num_large_bins = 16

abbrev pub max_spans_per_large_bin : ℕ
max_spans_per_large_bin = 8

abbrev pub max_large_cached_spans : ℕ
max_large_cached_spans = num_large_bins * max_spans_per_large_bin

abbrev pub max_large_cache_bytes : ℕ
max_large_cache_bytes = 64 * 1024 * 1024

abbrev pub large_bin_search_limit : ℕ
large_bin_search_limit = 3

abbrev pub npos : ℕ
npos = 2 ^ 64 - 1

unfoldable pub class_size_for : ℕ → ℕ
class_size_for required_size =
    if leb required_size (8 * 1024)
    then 8 * 1024
    else if leb required_size (12 * 1024)
    then 12 * 1024
    else if leb required_size (16 * 1024)
    then 16 * 1024
    else if leb required_size (24 * 1024)
    then 24 * 1024
    else if leb required_size (32 * 1024)
    then 32 * 1024
    else if leb required_size (48 * 1024)
    then 48 * 1024
    else if leb required_size (64 * 1024)
    then 64 * 1024
    else if leb required_size (96 * 1024)
    then 96 * 1024
    else if leb required_size (128 * 1024)
    then 128 * 1024
    else if leb required_size (192 * 1024)
    then 192 * 1024
    else if leb required_size (256 * 1024)
    then 256 * 1024
    else if leb required_size (384 * 1024)
    then 384 * 1024
    else if leb required_size (512 * 1024)
    then 512 * 1024
    else if leb required_size (768 * 1024)
    then 768 * 1024
    else if leb required_size (1024 * 1024)
    then 1024 * 1024
    else if leb required_size (2 * 1024 * 1024)
    then 2 * 1024 * 1024
    else required_size

unfoldable pub bin_index_for : ℕ → ℕ
bin_index_for span_size =
    if span_size == 8 * 1024
    then 0
    else if span_size == 12 * 1024
    then 1
    else if span_size == 16 * 1024
    then 2
    else if span_size == 24 * 1024
    then 3
    else if span_size == 32 * 1024
    then 4
    else if span_size == 48 * 1024
    then 5
    else if span_size == 64 * 1024
    then 6
    else if span_size == 96 * 1024
    then 7
    else if span_size == 128 * 1024
    then 8
    else if span_size == 192 * 1024
    then 9
    else if span_size == 256 * 1024
    then 10
    else if span_size == 384 * 1024
    then 11
    else if span_size == 512 * 1024
    then 12
    else if span_size == 768 * 1024
    then 13
    else if span_size == 1024 * 1024
    then 14
    else if span_size == 2 * 1024 * 1024
    then 15
    else npos
