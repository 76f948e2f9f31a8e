-- ===== src/SmallObject/PoolHanded.antt =====
-- A block handed out in one class, seen from all classes.
use mathlib.Core.List.{Mem, Perm, mem-cons_self}
use mathlib.Core.List.Perm
use numa_pmr.Base.{some, ℕ, ◌≡◌, ◌≢◌, ◌<◌, refl, sym, subst, ◌∷◌, All, ℕ_discrete}
use numa_pmr.Machine.Platform.{Platform}
use numa_pmr.Machine.Memory.{Memory, World, update, update_self, update_ne}
use numa_pmr.Machine.Object.{Object}
use numa_pmr.Config.Small.{slab_size}
use numa_pmr.VirtualMemory.{align_up}
use numa_pmr.Slab.Frame.{Apart}
use numa_pmr.SizeClassTable.{class_size_at, num_size_classes}
use numa_pmr.SizeClass.{SizeClass}
use numa_pmr.SizeClass.Contents.{All-zip, IsPiece, in_use}
use numa_pmr.SizeClass.Beside.{Frame}
use numa_pmr.SmallObject.Joined.{joined-none}
use numa_pmr.SmallObject.Pool.{
  Pool, IsPool, used_blocks, class_size-small, replaced-IsPool, not_in_both, others-Away,
}
use numa_pmr.Block.{to_user_ptr}
use numa_pmr.SizeClass.Take.{Handed}
use numa_pmr.SmallObject.{SmallObjectAllocator}

-- The next mapping overlaps none of the slabs that the classes hold.
abbrev pub MapsClear : Platform → World → Pool → Type 0
MapsClear os w pool =
    (p : ℕ)
    → os.mmap_result w.trace (align_up slab_size os.page_size) ≡ some p
    → (j : ℕ) → j < num_size_classes
    → All (λ s. Apart p s.slab) (pool j)

-- Block `x` of class `i` was not in use in any class and is now; nothing else changed in use, and no
-- other block's header was written, nor a link of a block in use.
pub record PoolHanded (pool : Pool) (i : ℕ) (m0 : Memory) (x : ℕ) (a : SmallObjectAllocator)
    (m : Memory) : Type 0 where
  pub now : Pool
  pub valid : IsPool now a m
  pub fresh : ¬ Mem x (used_blocks pool)
  pub one_more : Perm (in_use (now i)) (x ∷ in_use (pool i))
  pub others : (j : ℕ) → j ≢ i → now j ≡ pool j
  pub headers : (y : ℕ) → y ≢ x → m.block y ≡ m0.block y
  pub links :
      (j y : ℕ)
      → j < num_size_classes
      → Mem y (in_use (pool j))
      → m.link (to_user_ptr y) ≡ m0.link (to_user_ptr y)

-- Every slab is well formed, and each class has the slabs that it had.
abbrev pub PoolKept : Pool → SmallObjectAllocator → SmallObjectAllocator → Memory → Type 0
PoolKept pool a a' m =
    (j : ℕ)
    → j < num_size_classes
    → ((a'.classes j).slabs ≡ (a.classes j).slabs) × All (IsPiece (class_size_at j) m) (pool j)

module _ (pool : Pool) (i : ℕ) (o : Object SmallObjectAllocator) (below : i < num_size_classes)
    (v : IsPool pool o.self o.world.memory) (Beside : ℕ → Type 0)
    (beside : (j : ℕ) → j < num_size_classes → j ≢ i → All (λ s. Beside s.slab) (pool j)) where
  abbrev m : Memory
  m = o.world.memory

  abbrev pub a : SmallObjectAllocator
  a = o.self

  -- A block handed out in class `i`, in the pool.
  pub handed :
      (x : ℕ) (c' : SizeClass) (m' : Memory)
      → Handed (class_size_at i) (pool i) Beside m x c' m'
      → ((j y : ℕ)
          → j < num_size_classes
          → Mem y (in_use (pool j))
          → m'.link (to_user_ptr y) ≡ m.link (to_user_ptr y))
      → PoolHanded pool i m x (record a { classes = update a.classes i c' }) m'
  handed x c' m' h links =
      let more : Mem x (in_use h.pieces) = (Perm.mem_iff (Perm.symm h.one_more)).0 mem-cons_self in
      record {
        now = update pool i h.pieces;
        valid =
            replaced-IsPool pool a m m' v i below h.pieces c' Beside h.class h.frame beside h.away;
        fresh =
            joined-none num_size_classes x (λ j. in_use (pool j))
              (λ j lt. elim (ℕ_discrete j i) [
                | yes e ↦ subst (λ k. ¬ Mem x (in_use (pool k))) (sym e) h.fresh
                | no ne ↦
                    not_in_both (class_size-small i below) (class_size-small j lt) m' m x h.pieces
                      (pool j) h.class.each (v.each j lt).each
                      (others-Away pool a m m' v i below h.pieces c' Beside h.class h.frame beside
                        h.away j lt ne)
                      more
              ]);
        one_more = rw (update_self pool i h.pieces) h.one_more;
        others = λ j ne. update_ne pool i j h.pieces ne;
        headers = h.headers;
        links = links;
      }

  pub kept :
      (c' : SizeClass) (m' : Memory)
      → c'.slabs ≡ (o.self.classes i).slabs
      → All (IsPiece (class_size_at i) m') (pool i)
      → Frame Beside m m'
      → PoolKept pool a (record a { classes = update a.classes i c' }) m'
  kept c' m' same each frame j lt = elim (ℕ_discrete j i) [
    | yes e ↦ rw e (rw (update_self a.classes i c') (same, each))
    | no ne ↦ rw (update_ne a.classes i j c' ne) (
      refl,
      All-zip (IsPiece (class_size_at j) m) (λ s. Beside s.slab) (IsPiece (class_size_at j) m')
          (pool j) (λ s p b. frame (class_size_at j) s (class_size-small j lt) b p)
          (v.each j lt).each (beside j lt ne),
    )
  ]
