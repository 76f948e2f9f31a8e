-- ===== src/Arena/Allocate.antt =====
-- `NumaArena::allocate` of a small size, on an arena whose small allocator is well formed.
use numa_pmr.Base.{
  ℕ, Bool, ◌≡◌, ◌<◌, ◌≤◌, ◌+◌, ◌%◌, ◌^◌, ◌==◌, if◌then◌else◌, leb, not, ◌||◌, ◌&&◌, true, false,
  arith,
}
use numa_pmr.Machine.Platform.{Platform, MmapLaws}
use numa_pmr.Machine.Word.{alignment, null}
use numa_pmr.Machine.Monad.{
  Ensures, Ensures-bind, Returns-bind, Returns-self, ok, pure, ◌>>=◌, ◌>>◌,
}
use numa_pmr.Machine.Object.{Object}
use numa_pmr.Config.Small.{slab_size, small_large_threshold}
use numa_pmr.SizeClassTable.{class_size_at, num_size_classes}
use numa_pmr.SizeClassTable.Rounding.{class_index_for_size-covers, at_least_one}
use numa_pmr.SizeClass.{allocate_existing, allocate_new_slab}
use numa_pmr.SmallObject.{SmallObjectAllocator, in_class, allocate_draining}
use numa_pmr.SmallObject
use numa_pmr.Arena.{
  NumaArena, in_small, drain_foreign_bin, allocate, allocate_sized, allocate_class, allocate_small,
}
use numa_pmr.Arena.Pool.{Stock, IsArena}
use numa_pmr.Arena.Drain.{drain_foreign_bin-Drained}
use numa_pmr.Arena.Took.{Took, Served, SlabsKept, Took-Served}
use numa_pmr.Arena.Retry.{or_else, direct-Took, retry, NextApart, Took-later, existing-Took}

module _ (os : Platform) (laws : MmapLaws os) (pages : os.page_size % 16 ≡ 0)
    (page_fits : slab_size + os.page_size ≤ 2 ^ 64) (k : Stock) (o : Object NumaArena)
    (v : IsArena k o.self o.world.memory) (next : NextApart os o)
    (next_drained : (i : ℕ) (o' : Object NumaArena)
      → drain_foreign_bin os i o ≡ (ok tt, o')
      → NextApart os o') where
  module _ (i : ℕ) (below : i < num_size_classes) where
    draining-Took :
        Ensures
          (λ x o'. Took k i o.world.memory x o'.self o'.world.memory)
          (λ e o'. SlabsKept o'.self o'.world.memory)
          (allocate_draining os i in_small (drain_foreign_bin os i) o)
    unfolding allocate_draining
    draining-Took =
        let test : leb num_size_classes i ≡ false = ground (arith, below) in
        rw test (
          Returns-bind _ _ _ (in_small (in_class i (allocate_existing os)) o) _
            (existing-Took os i below k o v)
            λ x o1 h.
              or_else os i below laws pages page_fits k o v next o.world.memory k x o1
                (do
                  drain_foreign_bin os i
                  block ← in_small (in_class i (allocate_existing os))
                  if block == null
                      then in_small (in_class i (allocate_new_slab os))
                      else pure block)
                h
                (Returns-bind _ _ _ (drain_foreign_bin os i o) _
                  (Returns-self _ (drain_foreign_bin os i o)
                    (drain_foreign_bin-Drained os k i o below v))
                  λ _ o2 d.
                    retry os i below laws pages page_fits d.0.now o2 d.0.valid
                      (next_drained i o2 d.1) k o.world.memory
                      (λ y a m t. Took-later k o.world.memory o2 d.0 i y a m t)))

    allocate_small-Took :
        Ensures
          (λ x o'. Took k i o.world.memory x o'.self o'.world.memory)
          (λ e o'. SlabsKept o'.self o'.world.memory)
          (allocate_small os i o)
    unfolding allocate_small
    allocate_small-Took = choose (not o.self.foreign_freelist_enabled || o.self.foreign_bytes == 0)
      where
        choose :
            (b : Bool)
            → Ensures
                (λ x o'. Took k i o.world.memory x o'.self o'.world.memory)
                (λ e o'. SlabsKept o'.self o'.world.memory)
                (if b
                  then in_small (SmallObject.allocate_by_class_index os i) o
                  else allocate_draining os i in_small (drain_foreign_bin os i) o)
        choose true = direct-Took os i below laws pages page_fits k o v next
        choose false = draining-Took

    allocate_class-Served :
        (size : ℕ)
        → size ≤ class_size_at i
        → Ensures
            (λ p o'. Served k o.world.memory size p o'.self o'.world.memory)
            (λ e o'. SlabsKept o'.self o'.world.memory)
            (allocate_class os i o)
    unfolding allocate_class
    allocate_class-Served size covers =
        Ensures-bind _ _ _ (allocate_small os i o) _ allocate_small-Took
          λ x o1 t. Took-Served os k i below o.world.memory x o1.self o1.world.memory t size covers

  -- Where `mmap` keeps to POSIX and a page is a multiple of 16 bytes: on an arena whose classes
  -- and bins are well formed, where the next mapping overlaps none of its slabs, and none that it
  -- has after a drain, `allocate` of at most 4096 bytes with an alignment of at most 16 hands out
  -- the payload of a block that was not out, of a class that covers the request, from a slab at
  -- hand, from the foreign bin or from a new slab: this block and no other is out more, the arena
  -- stays well formed, and no other block's header changes. When it throws, every slab of its
  -- vectors is well formed.
  pub allocate-Served :
      (size align : ℕ)
      → size ≤ small_large_threshold
      → align ≤ alignment
      → Ensures
          (λ p o'. Served k o.world.memory size p o'.self o'.world.memory)
          (λ e o'. SlabsKept o'.self o'.world.memory)
          (allocate os size align o)
  unfolding allocate allocate_sized
  allocate-Served size align small narrow =
      let n = at_least_one size in
      let fits : (n ≤ small_large_threshold) × (size ≤ n) = ground arith in
      let (i, found, below, _, covers) = class_index_for_size-covers n fits.0 in
      let test : (leb n small_large_threshold && leb align alignment) ≡ true =
        ground (arith, fits.0, narrow) in
      rw (test, found) (allocate_class-Served i below size (omega (arith, covers, fits.1)))
