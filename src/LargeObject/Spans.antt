-- ===== src/LargeObject/Spans.antt =====
-- What the span cache hands out is what was put into it.
use numa_pmr.Base.{
  inr, inl, ℕ, zero, suc, ◌+◌, ◌-◌, ◌≤◌, ◌<◌, ◌≡◌, ◌≢◌, arith, none, some, min, ℕ_discrete,
}
use numa_pmr.Machine.Memory.{update_self, update_ne, update_all}
use numa_pmr.Config.Large.{npos, bin_index_for}
use numa_pmr.Config.Bins.{bin_index_for_cases}
use numa_pmr.LargeObject.{
  CachedSpan, SpanBin, LargeObjectAllocator, top_span, pop_span, push_span, take_span, put_span,
  find_bin, usable_bin,
}

abbrev pub AllInBin : (CachedSpan → Type 0) → SpanBin → Type 0
AllInBin P b = (j : ℕ) → j < b.count → P (b.spans j)

-- Every cached span satisfies `P`.
abbrev pub AllCached : (CachedSpan → Type 0) → LargeObjectAllocator → Type 0
AllCached P a = (i : ℕ) → i < 16 → AllInBin P (a.bins i)

module _ (P : CachedSpan → Type 0) where
  pop_span-All : (b : SpanBin) → AllInBin P b → AllInBin P (pop_span b)
  unfolding pop_span
  pop_span-All b all j lt = all j (omega arith)

  push_span-All : (s : CachedSpan) (b : SpanBin) → P s → AllInBin P b → AllInBin P (push_span s b)
  unfolding push_span
  push_span-All s b p all j lt = elim (ℕ_discrete j b.count) [
    | yes e ↦ rw e (rw (update_self b.spans b.count s) p)
    | no other ↦ rw (update_ne b.spans b.count j s other) (all j (omega arith))
  ]

  pub top_span-All : (b : SpanBin) → 0 < b.count → AllInBin P b → P (top_span b)
  unfolding top_span
  top_span-All b pos all = all (b.count - 1) (omega arith)

  pub take_span-All :
      (a : LargeObjectAllocator) (i : ℕ) → i < 16 → AllCached P a → AllCached P (take_span i a)
  unfolding take_span
  take_span-All a i lt all =
      update_all (λ _ b. AllInBin P b) 16 a.bins i (pop_span (a.bins i))
        (pop_span-All (a.bins i) (all i lt)) all

  pub put_span-All :
      (a : LargeObjectAllocator) (i : ℕ) (s : CachedSpan)
      → i < 16
      → P s
      → AllCached P a
      → AllCached P (put_span i s a)
  unfolding put_span
  put_span-All a i s lt p all =
      update_all (λ _ b. AllInBin P b) 16 a.bins i (push_span s (a.bins i))
        (push_span-All s (a.bins i) p (all i lt)) all

-- The bin that a search finds: within its range, not empty, and behind empty bins only.
pub record Found (n i k : ℕ) (a : LargeObjectAllocator) : Type 0 where
  pub first : i ≤ k
  pub last : k < i + n
  pub stocked : 0 < (a.bins k).count
  pub skipped : (j : ℕ) → i ≤ j → j < k → (a.bins j).count ≡ 0

find_bin-Found : (n i k : ℕ) (a : LargeObjectAllocator) → find_bin n i a ≡ some k → Found n i k a
unfolding find_bin
find_bin-Found zero i k a e = cc
find_bin-Found (suc n) i k a e = elim (ℕ_discrete (a.bins i).count 0) [
  | yes empty ↦
      let f = find_bin-Found n (i + 1) k a (ground arith) in
      record {
        first = omega (arith, f.first);
        last = omega (arith, f.last);
        stocked = f.stocked;
        skipped = λ j low high. elim (ℕ_discrete j i) [
          | yes e ↦ rw e empty
          | no other ↦ f.skipped j (omega arith) high
        ];
      }
  | no stocked ↦
      let here : i ≡ k = ground arith in
      record {
        first = omega arith;
        last = omega arith;
        stocked = rw (← here) (omega arith);
        skipped = λ j low high. absurd (omega arith);
      }
]

-- The bin that `acquire_span` uses for a size is the request's own or one of the three above it,
-- the smallest of them that holds a span.
pub usable_bin-Found :
    (size k : ℕ) (a : LargeObjectAllocator)
    → usable_bin size a ≡ some k
    → (bin_index_for size ≢ npos)
      × (k < 16)
      × (k ≤ bin_index_for size + 3)
      × Found (min 15 (bin_index_for size + 3) + 1 - bin_index_for size) (bin_index_for size) k a
unfolding usable_bin
usable_bin-Found size k a e = elim (bin_index_for_cases size) [
  | inl none_such ↦ let nothing : usable_bin size a ≡ none = rw (none_such, usable_bin) in cc
  | inr inside ↦
      let b = bin_index_for size in
      let f = find_bin-Found (min 15 (b + 3) + 1 - b) b k a (ground arith) in
      (
        λ same. absurd (omega arith),
        omega (arith, f.first, f.last),
        omega (arith, f.first, f.last),
        f,
      )
]
