-- ===== src/Arena/Deallocate.antt =====
-- `NumaArena::deallocate` of a small block, on an arena whose small allocator is well formed: by a
-- thread of the node, and by one of another node.
use mathlib.Core.List.{Mem, Perm, mem-cons_self, perm_middle}
use mathlib.Core.List.Perm
use numa_pmr.Base.{
  ℕ, ◌≡◌, ◌≢◌, ◌<◌, ◌==◌, ◌&&◌, not, true, false, subst, arith, List, [], ◌∷◌, ◌++◌, Bool,
  if◌then◌else◌,
}
use numa_pmr.Machine.Platform.{Platform}
use numa_pmr.Machine.Memory.{Memory}
use numa_pmr.Machine.Monad.{Returns, Returns-mono, Returns-zoom}
use numa_pmr.Machine.Object.{Object, object}
use numa_pmr.Block.{to_user_ptr, from_user_ptr}
use numa_pmr.SizeClassTable.{class_size_at, num_size_classes}
use numa_pmr.SizeClassTable.Index.{class_size_at_lem, num_size_classes_lem}
use numa_pmr.SizeClass.Contents.{in_use}
use numa_pmr.SmallObject.{SmallObjectAllocator}
use numa_pmr.SmallObject
use numa_pmr.SmallObject.PoolDeallocate.{PoolGiven, PoolDrained, deallocate-PoolGiven}
use numa_pmr.Arena.{enqueue_foreign_small, NumaArena, deallocate_here, deallocate_foreign}
use numa_pmr.Arena.Pool.{Stock, IsArena, out-used}
use numa_pmr.Arena.Drain.{Emptied, emptied}
use numa_pmr.Arena.Enqueue.{enqueue_foreign_small-Emptied}

module _ (os : Platform) (k : Stock) (i x : ℕ) (rest : List ℕ) (o : Object NumaArena)
    (below : i < num_size_classes) (v : IsArena k o.self o.world.memory)
    (parts : Perm (x ∷ rest) (k.out i)) where
  in_class : Mem x (in_use (k.pool i))
  in_class = out-used k o.self o.world.memory v i x below ((Perm.mem_iff parts).0 mem-cons_self)

  one_drained :
      (a : SmallObjectAllocator) (m : Memory)
      → PoolGiven k.pool i o.world.memory x a m
      → PoolDrained k.pool i (x ∷ []) (k.binned i ++ rest) o.world.memory a m
  one_drained a m g = record {
    now = g.now;
    valid = g.valid;
    left = Perm.cons_inv (
        Perm.trans g.one_less (
          Perm.trans (Perm.symm (v.split i below)) (
            Perm.trans (Perm.append_left (k.binned i) (Perm.symm parts))
              (perm_middle (k.binned i) rest))));
    others = g.others;
    headers = g.headers;
    links = λ y out. g.links y (λ e. out (subst (λ z. Mem y (z ∷ [])) e mem-cons_self));
  }

  -- The header of the block has a size that is not 0, the mark of a large block.
  small_label : ((o.world.memory.block (from_user_ptr (to_user_ptr x))).size_class == 0) ≡ false
  small_label =
      let label = (v.labelled i x below in_class).0 in
      let pos : class_size_at i ≢ 0 = ground (arith, num_size_classes_lem, class_size_at_lem i) in
      let back : from_user_ptr (to_user_ptr x) ≡ x = omega arith in
      rw back (ground (arith, label, pos))

  -- On an arena whose classes and bins are well formed, `deallocate_here`, the part of `deallocate`
  -- behind its null test and its routing, of the payload of a block that is out returns, and this block and no other is no longer out; the arena stays well formed, and no
  -- block's header changes.
  pub deallocate_here-Emptied :
      Returns
        (λ _ o'. Emptied k i rest o.world.memory o'.self o'.world.memory)
        (deallocate_here os (to_user_ptr x) o)
  unfolding deallocate_here
  deallocate_here-Emptied =
      let back : from_user_ptr (to_user_ptr x) ≡ x = omega arith in
      rw (small_label, back)
        (Returns-zoom
          (λ (t : Object SmallObjectAllocator) (o1 : Object NumaArena).
            object (record (o1.self) { small = t.self }) t.world)
          o _ (SmallObject.deallocate os x (object o.self.small o.world))
          (Returns-mono _ _ (SmallObject.deallocate os x (object o.self.small o.world))
            (deallocate-PoolGiven os k.pool i x (object o.self.small o.world) below v.small in_class
              (v.labelled i x below in_class).0)
            (λ _ t g.
              emptied os k i o below v (x ∷ []) rest parts t.self t.world.memory
                (one_drained t.self t.world.memory g))))

  enqueued_or_here :
      (enabled : Bool)
      → Returns
          (λ _ o'. Emptied k i rest o.world.memory o'.self o'.world.memory)
          (if enabled
              && not ((o.world.memory.block (from_user_ptr (to_user_ptr x))).size_class == 0)
            then enqueue_foreign_small os (from_user_ptr (to_user_ptr x)) o
            else deallocate_here os (to_user_ptr x) o)
  enqueued_or_here true =
      let back : from_user_ptr (to_user_ptr x) ≡ x = omega arith in
      rw (small_label, back) (enqueue_foreign_small-Emptied os k i x rest o below v parts)
  enqueued_or_here false = deallocate_here-Emptied

  -- On an arena whose classes and bins are well formed, `deallocate_foreign` of the payload of a block
  -- that is out returns, with foreign free lists and without; this block and no other is no longer
  -- out, whether it waits in its bin, the bin's overflow was drained, or it was freed at once; the
  -- arena stays well formed, and no block's header changes.
  pub deallocate_foreign-Emptied :
      Returns
        (λ _ o'. Emptied k i rest o.world.memory o'.self o'.world.memory)
        (deallocate_foreign os (to_user_ptr x) o)
  unfolding deallocate_foreign
  deallocate_foreign-Emptied = enqueued_or_here o.self.foreign_freelist_enabled
