-- ===== src/ThreadCache/RoundTrip.antt =====
-- A block given back to a thread's cache is the next that the cache hands out for its class.
use numa_pmr.Base.{
  ℕ, ◌+◌, ◌^◌, ◌≤◌, ◌<◌, ◌≡◌, refl, ap, arith, true, false, not, ℤ, pos, negsuc, from_u32, int_eq,
  ltb, leb, ◌==◌, if◌then◌else◌,
}
use numa_pmr.Machine.Word.{wrap, null, alignment, sizeof_block_header}
use numa_pmr.Machine.Platform.{Platform}
use numa_pmr.Machine.Memory.{update_self, with_memory}
use numa_pmr.Machine.Monad.{Returns, ok, ◌>>◌}
use numa_pmr.Machine.Object.{Object, object}
use numa_pmr.Config.Small.{small_large_threshold, max_cached_bytes_for_class}
use numa_pmr.Block.{from_user_ptr, to_user_ptr}
use numa_pmr.SizeClassTable.{class_index_for_size}
use numa_pmr.BlockList.{push_header, link_header}
use numa_pmr.ThreadCache.{
  Thread, put_bin, take_cached, cache_block, deallocate, bypasses, allocate, allocate_cached,
  allocate_class, arena_allocate,
}

int_eq_refl : (n : ℤ) → int_eq n n ≡ true
int_eq_refl (pos n) = ground arith
int_eq_refl (negsuc n) = ground arith

max_cached_bound : (size : ℕ) → max_cached_bytes_for_class size ≤ 2 ^ 21
unfolding max_cached_bytes_for_class
max_cached_bound size = ground arith

back :
    (ptr : ℕ)
    → sizeof_block_header < ptr
    → ptr < 2 ^ 64
    → (to_user_ptr (from_user_ptr ptr) ≡ ptr) × ((from_user_ptr ptr == null) ≡ false)
back ptr low high = (omega arith, ground arith)

with_cache :
    (os : Platform) (size align : ℕ) (t : Object Thread)
    → t.self.cache.use_thread_cache ≡ true
    → allocate os size align t ≡ allocate_cached os (if size == 0 then 1 else size) align t
unfolding allocate
with_cache os size align t e =
    ap
      (λ b.
        if not b
        then arena_allocate os size align t
        else allocate_cached os (if size == 0 then 1 else size) align t)
      e

module _ (os : Platform) (size align ptr i n : ℕ) (o : Object Thread)
    (low : sizeof_block_header < ptr) (high : ptr < 2 ^ 64)
    (in_use : o.self.cache.use_thread_cache ≡ true)
    (class : (o.world.memory.block (from_user_ptr ptr)).size_class ≡ n) (pos_n : 0 < n)
    (node : from_u32 (o.world.memory.block (from_user_ptr ptr)).node_id ≡ o.self.cache.node_id)
    (index : class_index_for_size n ≡ ok i)
    (room : (o.self.cache.bins i).bytes + n ≤ max_cached_bytes_for_class n) where
  -- The state with the block in its bin.
  abbrev cached : Object Thread
  cached =
      object (put_bin i (push_header n (from_user_ptr ptr) (o.self.cache.bins i)) o.self)
        (with_memory (link_header (from_user_ptr ptr) (o.self.cache.bins i)) o.world)

  no_bypass : bypasses os o.self.cache (o.world.memory.block (from_user_ptr ptr)) ≡ false
  unfolding bypasses
  no_bypass =
      let some_class : (n == 0) ≡ false = ground arith in
      rw (in_use, class, some_class, node, int_eq_refl o.self.cache.node_id) refl

  kept : cache_block (from_user_ptr ptr) i o ≡ (ok true, cached)
  unfolding cache_block
  kept =
      let exact : wrap ((o.self.cache.bins i).bytes + n) ≡ (o.self.cache.bins i).bytes + n =
        omega (arith, room, max_cached_bound n) in
      let fits : ltb (max_cached_bytes_for_class n) ((o.self.cache.bins i).bytes + n) ≡ false =
        ground (arith, room) in
      rw (class, exact, fits) refl

  given_back : deallocate os ptr o ≡ (ok tt, cached)
  unfolding deallocate
  given_back =
      let some_ptr : (ptr == null) ≡ false = ground (arith, low) in
      rw (some_ptr, no_bypass, class, index, kept) refl

  first_block : (cached.self.cache.bins i).head ≡ from_user_ptr ptr
  unfolding push_header
  first_block = ap (λ b. b.head) (update_self o.self.cache.bins i _)

  -- What the next allocation of the class returns, and what it leaves alone.
  abbrev Reused : ℕ → Object Thread → Type 0
  Reused p o' = (p ≡ ptr) × (o'.self.arenas ≡ o.self.arenas) × (o'.world ≡ cached.world)

  taken_again : Returns Reused (allocate_class os i (if size == 0 then 1 else size) align cached)
  unfolding allocate_class take_cached
  taken_again =
      let (same, some_header) = back ptr low high in
      rw (first_block, some_header) (rw some_header (same, refl, refl))

  -- Where the thread's cache is in use (`use_thread_cache`): a small block of the thread's node and of
  -- class `i`, for which the bin has room, is put back with `deallocate`; the next `allocate` of a size of that class with a fundamental alignment returns
  -- it. No arena changes and no system call is made.
  pub allocate-deallocate :
      (class_index_for_size (if size == 0 then 1 else size) ≡ ok i)
      → ((if size == 0 then 1 else size) ≤ small_large_threshold)
      → align ≤ alignment
      → Returns Reused ((do deallocate os ptr; allocate os size align) o)
  unfolding allocate_cached
  allocate-deallocate same_class small fundamental =
      let is_small : leb (if size == 0 then 1 else size) small_large_threshold ≡ true =
        ground (arith, small) in
      let is_aligned : leb align alignment ≡ true = ground (arith, fundamental) in
      rw (given_back, with_cache os size align cached in_use, is_small, is_aligned, same_class)
        taken_again
