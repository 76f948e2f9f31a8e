-- ===== src/LargeObject/Create.antt =====
-- The constructor of `LargeObjectAllocator`.
use numa_pmr.Base.{sym, ℕ, ◌^◌, ◌≤◌, ◌<◌, refl, arith, Bool, ℤ, sum_below_zero}
use numa_pmr.LargeObject.{new_large}
use numa_pmr.LargeObject.Acquire.{IsLarge}

-- A new allocator has an empty cache within any limits that leave room for one span.
pub new_large-IsLarge :
    (node : ℤ) (spans bytes : ℕ) (sync : Bool)
    → spans < 2 ^ 64
    → bytes ≤ 2 ^ 63
    → IsLarge (new_large node spans bytes sync)
unfolding new_large
new_large-IsLarge node spans bytes sync words limit = record {
  cache = record {
    bin = λ i lt. record {
      few = omega arith;
      bytes = omega arith;
      sized = λ j below. absurd (omega arith);
    };
    spans_sum = sym (sum_below_zero 16 _ (λ i lt. refl));
    bytes_sum = sym (sum_below_zero 16 _ (λ i lt. refl));
    spans_le = omega arith;
    bytes_le = omega arith;
    words = words;
    limit = limit;
  };
  spans = λ i lt j below. absurd (omega arith);
}
