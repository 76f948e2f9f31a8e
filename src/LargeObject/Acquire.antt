-- ===== src/LargeObject/Acquire.antt =====
-- `acquire_span` and `release_to_cache`: the cache invariant on every path, and the span returned.
use numa_pmr.Base.{
  subst, ap, sym, ℕ, ◌+◌, ◌-◌, ◌*◌, ◌^◌, ◌≤◌, ◌<◌, ◌≡◌, ◌≢◌, inl, inr, refl, arith, ◌==◌, none,
  some, Bool, true, false, Bool-cases, Option-cases,
}
use numa_pmr.Machine.Platform.{Platform, MmapLaws, mapped}
use numa_pmr.Machine.Memory.{update_ne, update_self}
use numa_pmr.Machine.Monad.{Exception, bad_alloc, Ensures, Returns}
use numa_pmr.Machine.Object.{outside-bind, Object}
use numa_pmr.Config.Large.{npos, bin_index_for}
use numa_pmr.Config.Bins.{bin_index_for_cases, bin_size, bin_size-bin_index_for, bin_size_close}
use numa_pmr.VirtualMemory.{alloc_on_node}
use numa_pmr.VirtualMemory.Align.{le-align_up}
use numa_pmr.VirtualMemory.Mapping.{Fresh, Unchanged, alloc_on_node-Maps}
use numa_pmr.LargeObject.{
  push_span, CachedSpan, LargeObjectAllocator, pop_span, top_span, take_span, put_span, usable_bin,
  refuses, release_to_cache, acquire_from, acquire_span,
}
use numa_pmr.LargeObject.Bin.{top_span-push_span, top_span-size}
use numa_pmr.LargeObject.Cache.{
  taken_spans, taken_bytes, IsCache, take_span-IsCache, put_span-IsCache, bin_size_le,
}
use numa_pmr.LargeObject.Spans.{
  AllCached, top_span-All, take_span-All, put_span-All, usable_bin-Found,
}

-- A span that lies in the address space, away from null.
abbrev pub InSpace : CachedSpan → Type 0
InSpace s = (s.raw_ptr ≢ 0) × (s.raw_ptr + s.size < 2 ^ 64)

-- The invariant of the allocator.
pub record IsLarge (a : LargeObjectAllocator) : Type 0 where
  pub cache : IsCache a
  pub spans : AllCached InSpace a

-- From `a` to `a'`, the last span of a bin is taken out, and no other; the counters follow.
pub record FromCache (a a' : LargeObjectAllocator) (s : CachedSpan) : Type 0 where
  pub at : ℕ
  pub stocked : (a'.bins at).count + 1 ≡ (a.bins at).count
  pub last : (a.bins at).spans (a'.bins at).count ≡ s
  pub same_spans : (a'.bins at).spans ≡ (a.bins at).spans
  pub others : (j : ℕ) → j ≢ at → a'.bins j ≡ a.bins j
  pub fewer : a'.cached_spans + 1 ≡ a.cached_spans
  pub bytes : a'.cached_bytes + s.size ≡ a.cached_bytes

-- Where a span comes from: the cache, with nothing mapped, or a fresh mapping, with the cache as it
-- was.
pub data Source (os : Platform) (size : ℕ) (o : Object LargeObjectAllocator) (s : CachedSpan)
    (o' : Object LargeObjectAllocator) : Type 0 where
  from_cache : FromCache o.self o'.self s → o'.world ≡ o.world → Source os size o s o'
  from_system :
      Fresh os size o.world s.raw_ptr o'.world
      → s.size ≡ size
      → o'.self ≡ o.self
      → Source os size o s o'

-- What `acquire_span` returns for a size, and how it leaves the allocator.
pub record Acquired (os : Platform) (size : ℕ) (o : Object LargeObjectAllocator) (s : CachedSpan)
    (o' : Object LargeObjectAllocator) : Type 0 where
  pub source : Source os size o s o'
  pub large : IsLarge o'.self
  pub usable : InSpace s
  pub covers : size ≤ s.size
  pub close : s.size ≤ 4 * size
  pub same_node : o'.self.node_id ≡ o.self.node_id
  pub same_memory : o'.world.memory ≡ o.world.memory

-- An exception leaves the allocator, the memory and the mappings as they were.
pub record Refused (o : Object LargeObjectAllocator) (e : Exception)
    (o' : Object LargeObjectAllocator) : Type 0 where
  pub is : e ≡ bad_alloc
  pub same_self : o'.self ≡ o.self
  pub same_memory : o'.world.memory ≡ o.world.memory
  pub same_maps : mapped o'.world.trace ≡ mapped o.world.trace

take_span-node : (a : LargeObjectAllocator) (k : ℕ) → (take_span k a).node_id ≡ a.node_id
unfolding take_span
take_span-node a k = refl

take_span-FromCache :
    (a : LargeObjectAllocator)
    → IsCache a
    → (k : ℕ) → k < 16
    → 0 < (a.bins k).count
    → FromCache a (take_span k a) (top_span (a.bins k))
unfolding take_span pop_span top_span
take_span-FromCache a v k lt stocked =
    let after = update_self a.bins k (pop_span (a.bins k)) in
    let one_less : ((take_span k a).bins k).count ≡ (a.bins k).count - 1 =
      ap (λ b. b.count) after in
    record {
      at = k;
      stocked = omega (arith, one_less, stocked);
      last = ap (a.bins k).spans one_less;
      same_spans = ap (λ b. b.spans) after;
      others = λ j ne. update_ne a.bins k j (pop_span (a.bins k)) ne;
      fewer = taken_spans a v k lt stocked;
      bytes =
          subst (λ n. (take_span k a).cached_bytes + n ≡ a.cached_bytes)
            (sym (top_span-size (bin_size k) (a.bins k) (bin_size_le k lt) (v.bin k lt) stocked))
            (taken_bytes a v k lt stocked);
    }

acquire_cached :
    (os : Platform) (size k : ℕ) (o : Object LargeObjectAllocator)
    → IsLarge o.self
    → usable_bin size o.self ≡ some k
    → Ensures (Acquired os size o) (Refused o) (acquire_from os size (some k) o)
unfolding acquire_from
acquire_cached os size k o v e =
    let (known, lt, high, found) = usable_bin-Found size k o.self e in
    let entry = bin_size-bin_index_for size known in
    let (low_size, high_size) =
      bin_size_close (bin_index_for size) k (omega (arith, found.first)) lt found.first high in
    let each =
      top_span-size (bin_size k) (o.self.bins k) (bin_size_le k lt) (v.cache.bin k lt)
        found.stocked in
    record {
      source = from_cache (take_span-FromCache o.self v.cache k lt found.stocked) refl;
      large = record {
        cache = take_span-IsCache o.self v.cache k lt found.stocked;
        spans = take_span-All InSpace o.self k lt v.spans;
      };
      usable = top_span-All InSpace (o.self.bins k) found.stocked (v.spans k lt);
      covers = omega (arith, each, entry, low_size);
      close = omega (arith, each, entry, high_size);
      same_node = take_span-node o.self k;
      same_memory = refl;
    }

acquire_mapped :
    (os : Platform) (laws : MmapLaws os) (size : ℕ) (o : Object LargeObjectAllocator)
    → IsLarge o.self
    → size ≢ 0
    → size + os.page_size ≤ 2 ^ 64
    → Ensures (Acquired os size o) (Refused o) (acquire_from os size none o)
unfolding acquire_from
acquire_mapped os laws size o v nonzero fits =
    outside-bind (Fresh os size o.world) (Unchanged o.world) (Acquired os size o) (Refused o) o
      (alloc_on_node os size o.self.node_id o.world) _
      (alloc_on_node-Maps os laws size nonzero o.world o.self.node_id)
      (λ p w fresh. record {
        source = from_system fresh refl refl;
        large = v;
        usable = (
          laws.ne_null o.world.trace _ p fresh.1,
          omega (
            arith,
            laws.in_space o.world.trace _ p fresh.1,
            le-align_up size os.page_size laws.page_pos fits,
          ),
        );
        covers = omega arith;
        close = omega arith;
        same_node = refl;
        same_memory = fresh.0.same_memory;
      })
      λ e w same. record {
        is = same.1;
        same_self = refl;
        same_memory = same.0.same_memory;
        same_maps = same.0.maps;
      }

-- Where `mmap` keeps to POSIX, for a size that is not 0 and leaves room for a page below 2^64:
-- `acquire_span` keeps the cache invariant and returns a span that covers the size and is at most four
-- times as large. The span is the last of a bin, which has it no more, while the other bins and the
-- mappings stay and both counters drop by it; or it is a fresh mapping of that size rounded up to
-- pages, and the cache stays. It throws only `bad_alloc`, with cache, memory and mappings unchanged.
pub acquire_span-Acquired :
    (os : Platform) (laws : MmapLaws os) (size : ℕ) (o : Object LargeObjectAllocator)
    → IsLarge o.self
    → size ≢ 0
    → size + os.page_size ≤ 2 ^ 64
    → Ensures (Acquired os size o) (Refused o) (acquire_span os size o)
unfolding acquire_span
acquire_span-Acquired os laws size o v nonzero fits = elim (Option-cases (usable_bin size o.self)) [
  | inl e ↦ rw e (acquire_mapped os laws size o v nonzero fits)
  | inr (k, e) ↦ rw e (acquire_cached os size k o v e)
]

bin_index_for_lt : (n : ℕ) → bin_index_for n ≢ npos → bin_index_for n < 16
bin_index_for_lt n known = elim (bin_index_for_cases n) [ inl e ↦ absurd (known e) | inr lt ↦ lt ]

-- What `release_to_cache` does with a span: it is cached under the invariant, or nothing changes.
abbrev pub Cached :
    (raw total : ℕ) → Object LargeObjectAllocator → Bool → Object LargeObjectAllocator → Type 0
Cached raw total o true o' =
    IsLarge o'.self
    × (o'.self.cached_spans ≡ o.self.cached_spans + 1)
    × (o'.self.cached_bytes ≡ o.self.cached_bytes + total)
    × (top_span (o'.self.bins (bin_index_for total)) ≡ record { raw_ptr = raw; size = total })
    × (o'.world ≡ o.world)
Cached raw total o false o' = o' ≡ o

put_span-Cached :
    (raw total : ℕ) (o : Object LargeObjectAllocator)
    → IsLarge o.self
    → InSpace (record { raw_ptr = raw; size = total })
    → bin_index_for total ≢ npos
    → refuses (bin_index_for total) total o.self ≡ false
    → Cached raw total o true (record o {
      self = put_span (bin_index_for total) (record { raw_ptr = raw; size = total }) o.self;
    })
unfolding put_span
put_span-Cached raw total o v good known room =
    let i = bin_index_for total in
    let lt : i < 16 = bin_index_for_lt total known in
    let s : CachedSpan = record { raw_ptr = raw; size = total } in
    let e : total ≡ bin_size i = sym (bin_size-bin_index_for total known) in
    (
      record {
        cache = put_span-IsCache o.self v.cache i lt s e room;
        spans = put_span-All InSpace o.self i s lt good v.spans;
      },
      refl,
      omega (arith, v.cache.bytes_le, v.cache.limit, e, bin_size_le i lt),
      rw (update_self o.self.bins i (push_span s (o.self.bins i)))
          (top_span-push_span s (o.self.bins i)),
      refl,
    )

-- `release_to_cache` either puts the span on top of its bin, with the counters raised by it and the
-- invariant kept, or returns false and changes nothing.
pub release_to_cache-Cached :
    (raw total : ℕ) (o : Object LargeObjectAllocator)
    → IsLarge o.self
    → InSpace (record { raw_ptr = raw; size = total })
    → Returns (Cached raw total o) (release_to_cache raw total o)
unfolding release_to_cache
release_to_cache-Cached raw total o v good = elim (Bool-cases (bin_index_for total == npos)) [
  | inl none_such ↦ rw none_such refl
  | inr known ↦ rw known (elim (Bool-cases (refuses (bin_index_for total) total o.self)) [
    | inl full ↦ rw full refl
    | inr room ↦ rw room (put_span-Cached raw total o v good (ground arith) room)
  ])
]
