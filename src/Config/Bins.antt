-- ===== src/Config/Bins.antt =====
-- The large span classes: `class_size_for` picks the least class that fits, and `bin_index_for`
-- inverts the table of classes.
use numa_pmr.Base.{
  ◌&&◌, leb, if◌then◌else◌, true, holds_below-at, ◌==◌, ==_iff, holds_below, ℕ, ◌+◌, ◌*◌, ◌≤◌, ◌<◌,
  ◌≡◌, ◌≢◌, ◌⊎◌, arith, get_or, refl,
}
use numa_pmr.Config.Large.{class_size_for, bin_index_for, large_bin_sizes, num_large_bins, npos}

-- The class of a bin.
unfoldable pub bin_size : ℕ → ℕ
bin_size i = get_or large_bin_sizes i 0

pub le-class_size_for : (n : ℕ) → n ≤ class_size_for n
unfolding class_size_for
le-class_size_for n = ground arith

pub class_size_for_small :
    (n : ℕ) → n ≤ 2 * 1024 * 1024 → bin_index_for (class_size_for n) < num_large_bins
unfolding class_size_for bin_index_for
class_size_for_small n h = ground arith

pub class_size_for_large : (n : ℕ) → 2 * 1024 * 1024 < n → class_size_for n ≡ n
unfolding class_size_for
class_size_for_large n h = ground arith

pub bin_size-bin_index_for : (n : ℕ) → bin_index_for n ≢ npos → bin_size (bin_index_for n) ≡ n
unfolding bin_index_for bin_size
bin_size-bin_index_for n h = ground arith

pub bin_index_for_cases : (n : ℕ) → (bin_index_for n ≡ npos) ⊎ (bin_index_for n < num_large_bins)
unfolding bin_index_for
bin_index_for_cases n = ground arith

pub class_size_for_mono : (m n : ℕ) → m ≤ n → class_size_for m ≤ class_size_for n
unfolding class_size_for
class_size_for_mono m n h = ground arith

fixed_table : holds_below num_large_bins (λ i. class_size_for (bin_size i) == bin_size i) ≡ true
unfolding class_size_for holds_below bin_size
fixed_table = refl

pub class_size_for_least :
    (n i : ℕ) → i < num_large_bins → n ≤ bin_size i → class_size_for n ≤ bin_size i
class_size_for_least n i lt h =
    rw
      ((==_iff _ _).0 (
        holds_below-at num_large_bins (λ j. class_size_for (bin_size j) == bin_size j) i fixed_table
          lt))
      at (class_size_for_mono n (bin_size i) h)

close_table :
    holds_below num_large_bins (λ b. holds_below num_large_bins (λ k.
      if leb b k && leb k (b + 3)
      then leb (bin_size b) (bin_size k) && leb (bin_size k) (4 * bin_size b)
      else true))
    ≡ true
unfolding holds_below bin_size
close_table = refl

-- A bin at most three above another has spans at most four times as large.
pub bin_size_close :
    (b k : ℕ)
    → b < num_large_bins
    → k < num_large_bins
    → b ≤ k
    → k ≤ b + 3
    → (bin_size b ≤ bin_size k) × (bin_size k ≤ 4 * bin_size b)
bin_size_close b k b_lt k_lt low high = ground (
  arith,
  holds_below-at num_large_bins
      (λ j.
        if leb b j && leb j (b + 3)
        then leb (bin_size b) (bin_size j) && leb (bin_size j) (4 * bin_size b)
        else true)
      k
      (holds_below-at num_large_bins
        (λ i. holds_below num_large_bins (λ j.
          if leb i j && leb j (i + 3)
          then leb (bin_size i) (bin_size j) && leb (bin_size j) (4 * bin_size i)
          else true))
        b close_table b_lt)
      k_lt,
)

-- A size up to 2 MiB is rounded up to the smallest class that holds it, and `bin_index_for` gives
-- that class's place in the table of bins.
pub class_size_for-bins :
    (n : ℕ)
    → n ≤ 2 * 1024 * 1024
    → (n ≤ class_size_for n)
      × (bin_index_for (class_size_for n) < num_large_bins)
      × (bin_size (bin_index_for (class_size_for n)) ≡ class_size_for n)
      × ((i : ℕ) → i < num_large_bins → n ≤ bin_size i → class_size_for n ≤ bin_size i)
class_size_for-bins n h =
    let lt = class_size_for_small n h in
    (
      le-class_size_for n,
      lt,
      bin_size-bin_index_for (class_size_for n) (λ e. absurd (omega (arith, e))),
      λ i. class_size_for_least n i,
    )
