-- ===== src/SmallObject/PoolAllocate.antt =====
-- `SmallObjectAllocator::allocate_by_class_index` on an allocator whose classes are well formed.
use mathlib.Core.List.{Mem}
use numa_pmr.Base.{
  ap, false, some, leb, ℕ, ◌≡◌, ◌≢◌, ◌<◌, ◌≤◌, ◌+◌, ◌%◌, ◌^◌, sym, subst, arith, List, [], ◌∷◌, All,
  inl, inr, ◌⊎◌, ◌∙◌,
}
use numa_pmr.Machine.Platform.{Platform, MmapLaws}
use numa_pmr.Machine.Memory.{Memory, update, update_same}
use numa_pmr.Machine.Monad.{
  Ensures, Ensures-mono, Ensures-zoom, Returns, Returns-mono, Returns-zoom, Returns-and,
  Ensures-and,
}
use numa_pmr.Machine.Object.{Object, object}
use numa_pmr.Config.Small.{slab_size}
use numa_pmr.VirtualMemory.{align_up}
use numa_pmr.Slab.Frame.{Apart, Inside}
use numa_pmr.SizeClassTable.{class_size_at, num_size_classes}
use numa_pmr.SizeClass.{SizeClass, allocate_existing, allocate_new_slab}
use numa_pmr.SizeClass
use numa_pmr.SizeClass.Contents.{All-zip, Piece, IsPiece, IsClass, in_use}
use numa_pmr.SizeClass.Beside.{Frame}
use numa_pmr.SizeClass.Existing.{Away, allocate_existing-Handed}
use numa_pmr.SizeClass.Links.{SameLinks, allocate-SameLinks, allocate_existing-links}
use numa_pmr.SmallObject.Pool.{used_Inside, Pool, IsPool, class_size-small}
use numa_pmr.Machine.Word.{null}
use numa_pmr.Block.{to_user_ptr}
use numa_pmr.SizeClass.Take.{Handed}
use numa_pmr.SizeClass.Allocate.{Clear, allocate-Handed}
use numa_pmr.SmallObject.{in_class, SmallObjectAllocator, allocate_by_class_index}
use numa_pmr.SmallObject.PoolHanded.{MapsClear, PoolHanded, PoolKept, handed, kept}

-- The call on one class, as the call on the allocator leaves it.
abbrev with_class : ℕ → Object SizeClass → Object SmallObjectAllocator → Object SmallObjectAllocator
with_class i t o = object (record (o.self) { classes = update o.self.classes i t.self }) t.world

module _ (os : Platform) (pool : Pool) (i : ℕ) (o : Object SmallObjectAllocator)
    (below : i < num_size_classes) (v : IsPool pool o.self o.world.memory) where
  links_kept :
      (m' : Memory)
      → ((s y : ℕ) → Inside s y → m'.link (to_user_ptr y) ≡ o.world.memory.link (to_user_ptr y))
      → (j y : ℕ) → j < num_size_classes
      → Mem y (in_use (pool j))
      → m'.link (to_user_ptr y) ≡ o.world.memory.link (to_user_ptr y)
  links_kept m' same j y lt used =
      let (s, inside, _) =
        used_Inside (class_size-small j lt) o.world.memory y (pool j)
          (IsPiece (class_size_at j) o.world.memory) (v.each j lt).each used (v.each j lt).each in
      same s.slab y inside

  -- `allocate_existing` of a class hands out a block of the class that was not in use in any class,
  -- or it returns null and changes nothing.
  pub existing-PoolHanded :
      Returns
        (λ x o'.
          PoolHanded pool i o.world.memory x o'.self o'.world.memory ⊎ ((x ≡ null) × (o' ≡ o)))
        (in_class i (allocate_existing os) o)
  existing-PoolHanded =
      let c = o.self.classes i in
      Returns-zoom (with_class i) o _ (allocate_existing os (object c o.world)) (
        Returns-mono _ _ (allocate_existing os (object c o.world))
          (Returns-and _ _ _ (allocate_existing os (object c o.world))
            (allocate_existing-Handed (class_size-small i below) os (pool i) (object c o.world)
              (v.each i below))
            (allocate_existing-links os (object c o.world)))
          λ x t h. elim h.0 [
            | inl got ↦ inl (
                handed pool i o below v (Away (pool i)) (λ j lt ne. v.apart i j below lt ne) x
                  t.self t.world.memory got
                  (links_kept t.world.memory (λ s y inside. ap (λ l. l (to_user_ptr y)) h.1)))
            | inr none ↦ inr (
              none.0,
              ap (λ t'. with_class i t' o) none.2
                  ∙ ap (λ f. object (record (o.self) { classes = f }) o.world)
                      (update_same o.self.classes i),
            )
          ])

module _ (os : Platform) (laws : MmapLaws os) (pages : os.page_size % 16 ≡ 0)
    (page_fits : slab_size + os.page_size ≤ 2 ^ 64) (pool : Pool) (i : ℕ)
    (o : Object SmallObjectAllocator) (below : i < num_size_classes)
    (v : IsPool pool o.self o.world.memory) (clear : MapsClear os o.world pool) where
  abbrev c : SizeClass
  c = o.self.classes i

  abbrev Cleared : ℕ → Type 0
  Cleared = Clear os o.world (pool i)

  -- No slab of the pool is where the next mapping is.
  spared :
      (l : List Piece)
      → ((p : ℕ)
          → os.mmap_result o.world.trace (align_up slab_size os.page_size) ≡ some p
          → All (λ s. Apart p s.slab) l)
      → All
          (λ s.
            (p : ℕ)
            → os.mmap_result o.world.trace (align_up slab_size os.page_size) ≡ some p
            → Apart p s.slab)
          l
  spared [] k = tt
  spared (s ∷ l) k = ((λ p mapped. (k p mapped).0), spared l (λ p mapped. (k p mapped).1))

  cleared : (j : ℕ) → j < num_size_classes → j ≢ i → All (λ s. Cleared s.slab) (pool j)
  cleared j lt ne =
      All-zip (λ s. Away (pool i) s.slab)
        (λ s.
          (p : ℕ)
          → os.mmap_result o.world.trace (align_up slab_size os.page_size) ≡ some p
          → Apart p s.slab)
        (λ s. Cleared s.slab) (pool j) (λ s h k. (h, k)) (v.apart i j below lt ne)
        (spared (pool j) (λ p mapped. clear p mapped j lt))

  same_links :
      (m' : Memory)
      → SameLinks os o.world m'
      → (j y : ℕ) → j < num_size_classes
      → Mem y (in_use (pool j))
      → m'.link (to_user_ptr y) ≡ o.world.memory.link (to_user_ptr y)
  same_links m' same j y lt used =
      let (s, inside, far) =
        used_Inside (class_size-small j lt) o.world.memory y (pool j)
          (λ s.
            (p : ℕ)
            → os.mmap_result o.world.trace (align_up slab_size os.page_size) ≡ some p
            → Apart p s.slab)
          (v.each j lt).each used (spared (pool j) (λ p mapped. clear p mapped j lt)) in
      same s.slab y far inside

  class_allocate :
      Ensures
        (λ x t. Handed (class_size_at i) (pool i) Cleared o.world.memory x t.self t.world.memory)
        (λ e t.
          (t.self.slabs ≡ c.slabs)
          × All (IsPiece (class_size_at i) t.world.memory) (pool i)
          × Frame Cleared o.world.memory t.world.memory)
        (SizeClass.allocate os (object c o.world))
  class_allocate =
      subst
        (λ n.
          Ensures (λ x t. Handed n (pool i) Cleared o.world.memory x t.self t.world.memory)
            (λ e t.
              (t.self.slabs ≡ c.slabs)
              × All (IsPiece n t.world.memory) (pool i)
              × Frame Cleared o.world.memory t.world.memory)
            (SizeClass.allocate os (object c o.world)))
        (v.each i below).size
        (allocate-Handed os laws pages page_fits (pool i) (object c o.world)
          (rw (v.each i below).size (class_size-small i below))
          (subst (λ n. IsClass n (pool i) c o.world.memory) (sym (v.each i below).size)
            (v.each i below))
          (λ p mapped. clear p mapped i below))

  class_allocate-PoolHanded :
      Ensures
        (λ x o'. PoolHanded pool i o.world.memory x o'.self o'.world.memory)
        (λ e o'. PoolKept pool o.self o'.self o'.world.memory)
        (in_class i (SizeClass.allocate os) o)
  class_allocate-PoolHanded =
      Ensures-zoom (with_class i) o _ _ (SizeClass.allocate os (object c o.world)) (
        Ensures-mono _ _ _ _ (SizeClass.allocate os (object c o.world))
          (Ensures-and _ _ _ _ (SizeClass.allocate os (object c o.world)) class_allocate (
            allocate-SameLinks os (object c o.world) laws pages page_fits
              (rw (v.each i below).size (class_size-small i below))))
          (λ x t h.
            handed pool i o below v Cleared cleared x t.self t.world.memory h.0
              (same_links t.world.memory h.1))
          (λ e t h. kept pool i o below v Cleared cleared t.self t.world.memory h.0.0 h.0.1 h.0.2))

  -- `allocate_new_slab` has the body of `allocate`.
  pub new_slab-PoolHanded :
      Ensures
        (λ x o'. PoolHanded pool i o.world.memory x o'.self o'.world.memory)
        (λ e o'. PoolKept pool o.self o'.self o'.world.memory)
        (in_class i (allocate_new_slab os) o)
  unfolding allocate_new_slab
  new_slab-PoolHanded = unfold SizeClass.allocate in class_allocate-PoolHanded

  -- Where every class is well formed, no two slabs overlap, and the next mapping overlaps none of
  -- them, `allocate_by_class_index` hands out a block of the class that was not in use in any class:
  -- one block more is in use in its class, nothing changes in use in the others, every class stays
  -- well formed, and no other block's header changes, nor a link of a block in use. When it throws,
  -- every slab stays well formed and each class has the slabs that it had.
  pub allocate_by_class_index-PoolHanded :
      Ensures
        (λ x o'. PoolHanded pool i o.world.memory x o'.self o'.world.memory)
        (λ e o'. PoolKept pool o.self o'.self o'.world.memory)
        (allocate_by_class_index os i o)
  unfolding allocate_by_class_index
  allocate_by_class_index-PoolHanded =
      let test : leb num_size_classes i ≡ false = ground (arith, below) in
      rw test class_allocate-PoolHanded
