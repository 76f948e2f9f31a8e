-- ===== src/LargeObject/Cache.antt =====
-- The span cache as a whole: its counters are the sums over its bins, and it stays within its
-- limits.
use numa_pmr.Base.{
  sym, ap, ℕ, ◌+◌, ◌*◌, ◌^◌, ◌≤◌, ◌<◌, ◌≡◌, refl, arith, sum_below, sum_below_at, leb, true, false,
  holds_below, holds_below-at, leb→le,
}
use numa_pmr.Machine.Word.{wrap}
use numa_pmr.Machine.Memory.{update_all, update, update_self, update_ne}
use numa_pmr.Config.Bins.{bin_size}
use numa_pmr.LargeObject.{
  CachedSpan, SpanBin, LargeObjectAllocator, pop_span, push_span, take_span, put_span, refuses,
}
use numa_pmr.LargeObject.Bin.{
  IsBin, pop_span-bytes, pop_span-IsBin, push_span-bytes, push_span-IsBin, top_span-size,
}

abbrev counts : LargeObjectAllocator → ℕ
counts a = sum_below 16 (λ i. (a.bins i).count)

abbrev total_bytes : LargeObjectAllocator → ℕ
total_bytes a = sum_below 16 (λ i. (a.bins i).bytes)

-- The constructor's limits are far below this one.
pub record IsCache (a : LargeObjectAllocator) : Type 0 where
  pub bin : (i : ℕ) → i < 16 → IsBin (bin_size i) (a.bins i)
  pub spans_sum : a.cached_spans ≡ counts a
  pub bytes_sum : a.cached_bytes ≡ total_bytes a
  pub spans_le : a.cached_spans ≤ a.max_cached_spans
  pub bytes_le : a.cached_bytes ≤ a.max_cached_bytes
  pub words : a.max_cached_spans < 2 ^ 64
  pub limit : a.max_cached_bytes ≤ 2 ^ 63

size_table : holds_below 16 (λ i. leb (bin_size i) (2 * 1024 * 1024)) ≡ true
unfolding holds_below bin_size
size_table = refl

pub bin_size_le : (i : ℕ) → i < 16 → bin_size i ≤ 2 * 1024 * 1024
bin_size_le i lt =
    leb→le _ _ (holds_below-at 16 (λ j. leb (bin_size j) (2 * 1024 * 1024)) i size_table lt)

-- A sum over the bins when bin `i` alone changes.
sum_update :
    (f : SpanBin → ℕ) (bins : ℕ → SpanBin) (i : ℕ) (b : SpanBin)
    → i < 16
    → sum_below 16 (λ j. f (bins j)) + f b ≡ sum_below 16 (λ j. f (update bins i b j)) + f (bins i)
sum_update f bins i b lt = rw (update_self bins i b) at (
    sum_below_at 16 i (λ j. f (bins j)) (λ j. f (update bins i b j)) lt
      (λ j below other. ap f (sym (update_ne bins i j b other))))

member_le :
    (f : SpanBin → ℕ) (bins : ℕ → SpanBin) (i : ℕ)
    → i < 16
    → f (bins i) ≤ sum_below 16 (λ j. f (bins j))
member_le f bins i lt = omega (
  arith,
  update_self (λ j. f (bins j)) i 0,
  sum_below_at 16 i (λ j. f (bins j)) (update (λ j. f (bins j)) i 0) lt
      (λ j below other. sym (update_ne (λ k. f (bins k)) i j 0 other)),
)

module _ (a : LargeObjectAllocator) (v : IsCache a) (i : ℕ) (lt : i < 16) where
  each_le : bin_size i ≤ 2 * 1024 * 1024
  each_le = bin_size_le i lt

  pub taken_spans : 0 < (a.bins i).count → (take_span i a).cached_spans + 1 ≡ a.cached_spans
  unfolding take_span
  taken_spans pos =
      omega (arith, v.spans_sum, v.spans_le, v.words, member_le (λ b. b.count) a.bins i lt)

  pub taken_bytes :
      0 < (a.bins i).count → (take_span i a).cached_bytes + bin_size i ≡ a.cached_bytes
  unfolding take_span
  taken_bytes pos = rw (top_span-size (bin_size i) (a.bins i) each_le (v.bin i lt) pos) (
      omega (
        arith,
        v.bytes_sum,
        v.bytes_le,
        v.limit,
        member_le (λ b. b.bytes) a.bins i lt,
        pop_span-bytes (bin_size i) (a.bins i) each_le (v.bin i lt) pos,
      ))

  spans_after : 0 < (a.bins i).count → counts (take_span i a) + 1 ≡ counts a
  unfolding take_span pop_span
  spans_after pos = omega (arith, sum_update (λ b. b.count) a.bins i (pop_span (a.bins i)) lt)

  bytes_after : 0 < (a.bins i).count → total_bytes (take_span i a) + bin_size i ≡ total_bytes a
  unfolding take_span
  bytes_after pos = omega (
    arith,
    sum_update (λ b. b.bytes) a.bins i (pop_span (a.bins i)) lt,
    pop_span-bytes (bin_size i) (a.bins i) each_le (v.bin i lt) pos,
  )

  pub take_span-IsCache : 0 < (a.bins i).count → IsCache (take_span i a)
  unfolding take_span
  take_span-IsCache pos = record {
    bin =
        update_all (λ j b. IsBin (bin_size j) b) 16 a.bins i _
          (pop_span-IsBin (bin_size i) (a.bins i) (bin_size_le i lt) (v.bin i lt) pos) v.bin;
    spans_sum = omega (arith, taken_spans pos, spans_after pos);
    bytes_sum = omega (arith, taken_bytes pos, bytes_after pos);
    spans_le = omega (arith, taken_spans pos, v.spans_le);
    bytes_le = omega (arith, taken_bytes pos, v.bytes_le);
    words = v.words;
    limit = v.limit;
  }

  -- What the tests of `release_to_cache` leave room for.
  room_facts :
      (s : CachedSpan)
      → refuses i s.size a ≡ false
      → ((a.bins i).count < 8)
        × (a.cached_spans < a.max_cached_spans)
        × (wrap (a.cached_bytes + s.size) ≤ a.max_cached_bytes)
  unfolding refuses
  room_facts s room = ground arith

  put_counts : (s : CachedSpan) → counts (put_span i s a) ≡ counts a + 1
  unfolding put_span push_span
  put_counts s = omega (arith, sum_update (λ b. b.count) a.bins i (push_span s (a.bins i)) lt)

  pub put_span-IsCache :
      (s : CachedSpan) → s.size ≡ bin_size i → refuses i s.size a ≡ false → IsCache (put_span i s a)
  unfolding put_span
  put_span-IsCache s e room =
      let (few, below, fits) = room_facts s room in
      let each = bin_size_le i lt in
      record {
        bin =
            update_all (λ j b. IsBin (bin_size j) b) 16 a.bins i _
              (push_span-IsBin (bin_size i) (a.bins i) each (v.bin i lt) s e few) v.bin;
        spans_sum = omega (arith, v.spans_sum, put_counts s);
        bytes_sum = omega (
          arith,
          v.bytes_sum,
          v.bytes_le,
          v.limit,
          sum_update (λ b. b.bytes) a.bins i (push_span s (a.bins i)) lt,
          push_span-bytes (bin_size i) (a.bins i) each (v.bin i lt) s e few,
        );
        spans_le = omega (arith, below);
        bytes_le = fits;
        words = v.words;
        limit = v.limit;
      }
