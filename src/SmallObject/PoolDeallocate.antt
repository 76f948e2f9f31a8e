-- ===== src/SmallObject/PoolDeallocate.antt =====
-- `SmallObjectAllocator::deallocate` on an allocator whose classes are well formed.
use mathlib.Core.List.{List, Mem, Perm, Nodup}
use numa_pmr.Base.{ℕ, ◌≡◌, ◌≢◌, ◌<◌, sym, ◌∷◌, ◌++◌, length, leb, false, arith}
use numa_pmr.Machine.Platform.{Platform}
use numa_pmr.Machine.Memory.{Memory, update, update_self, update_ne}
use numa_pmr.Machine.Monad.{Returns, Returns-mono, Returns-zoom, ok}
use numa_pmr.Machine.Object.{Object, object}
use numa_pmr.Block.{to_user_ptr}
use numa_pmr.SizeClassTable.{class_size_at, num_size_classes}
use numa_pmr.SizeClass.{SizeClass}
use numa_pmr.SizeClass
use numa_pmr.SizeClass.Contents.{in_use}
use numa_pmr.SizeClass.Existing.{Away}
use numa_pmr.SizeClass.Given.{deallocate-Given}
use numa_pmr.SizeClass.Back.{Given}
use numa_pmr.Slab.Chain.{IsChain}
use numa_pmr.SizeClass.GivenAll.{deallocate_batch-GivenAll}
use numa_pmr.SmallObject.{deallocate_batch, SmallObjectAllocator, deallocate, get_size_class}
use numa_pmr.SmallObject.Route.{get_size_class_iff}
use numa_pmr.SmallObject.Pool.{Pool, IsPool, class_size-small, replaced-IsPool}

-- Block `x` of class `i` is out of use; nothing else changed in use, and no header was
-- written, nor a link but the block's.
pub record PoolGiven (pool : Pool) (i : ℕ) (m0 : Memory) (x : ℕ) (a : SmallObjectAllocator)
    (m : Memory) : Type 0 where
  pub now : Pool
  pub valid : IsPool now a m
  pub one_less : Perm (x ∷ in_use (now i)) (in_use (pool i))
  pub others : (j : ℕ) → j ≢ i → now j ≡ pool j
  pub headers : m.block ≡ m0.block
  pub links : (y : ℕ) → y ≢ x → m.link (to_user_ptr y) ≡ m0.link (to_user_ptr y)

module _ (os : Platform) (pool : Pool) (i x : ℕ) (o : Object SmallObjectAllocator)
    (below : i < num_size_classes) (v : IsPool pool o.self o.world.memory)
    (used : Mem x (in_use (pool i))) where
  abbrev m : Memory
  m = o.world.memory

  given :
      (t : Object SizeClass)
      → Given (class_size_at i) x (pool i) m t
      → PoolGiven pool i m x
          (record (o.self) { classes = update o.self.classes i t.self })
          t.world.memory
  given t g = record {
    now = update pool i g.pieces;
    valid =
        replaced-IsPool pool o.self m t.world.memory v i below g.pieces t.self (Away (pool i))
          g.class g.frame (λ j lt ne. v.apart i j below lt ne) g.away;
    one_less = rw (update_self pool i g.pieces) g.one_less;
    others = λ j ne. update_ne pool i j g.pieces ne;
    headers = g.headers;
    links = g.links;
  }

  -- Where every class is well formed and no two slabs overlap, `deallocate` of a block in use, whose
  -- header has its class's size, returns; one block fewer is in use in that class, nothing changes in
  -- use in the others, every class stays well formed, and no block's header
  -- changes, nor a link but the block's.
  pub deallocate-PoolGiven :
      (m.block x).size_class ≡ class_size_at i
      → Returns (λ _ o'. PoolGiven pool i m x o'.self o'.world.memory) (deallocate os x o)
  unfolding deallocate
  deallocate-PoolGiven label =
      let found : get_size_class (m.block x).size_class ≡ ok i =
        (get_size_class_iff (m.block x).size_class i).1 (below, sym label) in
      rw found (
        Returns-zoom
          (λ (t : Object SizeClass) (o1 : Object SmallObjectAllocator).
            object (record (o1.self) { classes = update o1.self.classes i t.self }) t.world)
          o _ (SizeClass.deallocate os x (object (o.self.classes i) o.world))
          (Returns-mono _ _ (SizeClass.deallocate os x (object (o.self.classes i) o.world))
            (deallocate-Given (class_size-small i below) os (pool i) x
              (object (o.self.classes i) o.world) (v.each i below) used)
            (λ _ t g. given t g)))

-- The blocks `xs` of class `i` are out of use, and `rest` are still in use; nothing changed in use in
-- the other classes, and no header was written, nor a link but those of these blocks.
pub record PoolDrained (pool : Pool) (i : ℕ) (xs rest : List ℕ) (m0 : Memory)
    (a : SmallObjectAllocator) (m : Memory) : Type 0 where
  pub now : Pool
  pub valid : IsPool now a m
  pub left : Perm (in_use (now i)) rest
  pub others : (j : ℕ) → j ≢ i → now j ≡ pool j
  pub headers : m.block ≡ m0.block
  pub links : (y : ℕ) → ¬ Mem y xs → m.link (to_user_ptr y) ≡ m0.link (to_user_ptr y)

-- Where every class is well formed and no two slabs overlap, `deallocate_batch` of a list of blocks
-- in use in a class, each once, with more fuel than blocks, returns; these blocks and no others are
-- out of use in that class, nothing changes in use in the others, every class stays well formed, and
-- no block's header changes, nor a link but those of these blocks.
pub deallocate_batch-PoolDrained :
    (os : Platform) (fuel i head : ℕ) (xs rest : List ℕ) (pool : Pool)
    (o : Object SmallObjectAllocator)
    → i < num_size_classes
    → IsPool pool o.self o.world.memory
    → Perm (xs ++ rest) (in_use (pool i))
    → IsChain o.world.memory.link head xs
    → Nodup xs
    → length xs < fuel
    → Returns
        (λ _ o'. PoolDrained pool i xs rest o.world.memory o'.self o'.world.memory)
        (deallocate_batch os fuel i head o)
unfolding deallocate_batch
deallocate_batch-PoolDrained os fuel i head xs rest pool o below v p chain once enough =
    let test : leb num_size_classes i ≡ false = ground (arith, below) in
    let c = object (o.self.classes i) o.world in
    rw test (
      Returns-zoom
        (λ (t : Object SizeClass) (o1 : Object SmallObjectAllocator).
          object (record (o1.self) { classes = update o1.self.classes i t.self }) t.world)
        o _ (SizeClass.deallocate_batch os fuel head c)
        (Returns-mono _ _ (SizeClass.deallocate_batch os fuel head c)
          (deallocate_batch-GivenAll (class_size-small i below) os fuel head xs rest (pool i) c
            (v.each i below) p chain once enough)
          λ _ t g. record {
            now = update pool i g.pieces;
            valid =
                replaced-IsPool pool o.self o.world.memory t.world.memory v i below g.pieces t.self
                  (Away (pool i)) g.class g.frame (λ j lt ne. v.apart i j below lt ne) g.away;
            left = rw (update_self pool i g.pieces) g.left;
            others = λ j ne. update_ne pool i j g.pieces ne;
            headers = g.headers;
            links = g.links;
          }))
