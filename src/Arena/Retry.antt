-- ===== src/Arena/Retry.antt =====
-- The ways in which an arena gets a small block: a slab at hand, or a new one.
use mathlib.Core.List.{mem-cons_self}
use mathlib.Core.List.Perm
use numa_pmr.Base.{
  ℕ, ◌⊎◌, inl, inr, ◌≡◌, ◌≢◌, ◌<◌, ◌≤◌, ◌+◌, ◌%◌, ◌^◌, ◌==◌, if◌then◌else◌, true, false, some, refl,
  ap, ◌∙◌, arith, All,
}
use numa_pmr.Machine.Platform.{Platform, MmapLaws}
use numa_pmr.Machine.Word.{null}
use numa_pmr.Machine.Memory.{Memory}
use numa_pmr.Machine.Monad.{
  Ensures, Ensures-mono, Ensures-zoom, Returns, Returns-bind, Returns-mono, Returns-zoom, pure,
  ◌>>=◌,
}
use numa_pmr.Machine.Object.{Object, object}
use numa_pmr.Config.Small.{slab_size}
use numa_pmr.VirtualMemory.{align_up}
use numa_pmr.Slab.Frame.{Apart}
use numa_pmr.SizeClassTable.{num_size_classes}
use numa_pmr.SizeClass.{allocate_existing, allocate_new_slab}
use numa_pmr.SmallObject.{SmallObjectAllocator, in_class, allocate_draining}
use numa_pmr.SmallObject
use numa_pmr.SmallObject.Pool.{Pool, IsPool, used_ne_null}
use numa_pmr.SmallObject.PoolAllocate.{
  allocate_by_class_index-PoolHanded, existing-PoolHanded, new_slab-PoolHanded,
}
use numa_pmr.SmallObject.PoolHanded.{MapsClear, PoolHanded}
use numa_pmr.Arena.{Outcome, NumaArena, in_small}
use numa_pmr.Arena.Pool.{Stock, IsArena}
use numa_pmr.Arena.Drain.{Drained}
use numa_pmr.Arena.Took.{Took, SlabsKept, kept-SlabsKept}
use numa_pmr.Arena.Untouched.{slabs_of, slabs-All}

-- The next mapping overlaps no slab of the arena.
abbrev pub NextApart : Platform → Object NumaArena → Type 0
NextApart os o =
    (p : ℕ)
    → os.mmap_result o.world.trace (align_up slab_size os.page_size) ≡ some p
    → (i : ℕ) → i < num_size_classes
    → All (Apart p) (slabs_of o.self.small i)

next-MapsClear :
    (os : Platform) (o : Object NumaArena) (pool : Pool)
    → IsPool pool o.self.small o.world.memory
    → NextApart os o
    → MapsClear os o.world pool
next-MapsClear os o pool v next p mapped i lt =
    slabs-All (Apart p) pool o.self.small o.world.memory v i lt (next p mapped i lt)

-- A block of the arena as it is.
Took-here :
    (k : Stock) (i : ℕ) (o : Object NumaArena) (x : ℕ) (a : SmallObjectAllocator) (m : Memory)
    → IsArena k o.self o.world.memory
    → PoolHanded k.pool i o.world.memory x a m
    → Took k i o.world.memory x (record (o.self) { small = a }) m
Took-here k i o x a m v h = record {
  before = k;
  before_arena = o.self;
  before_memory = o.world.memory;
  valid = v;
  same_bins = refl;
  same_node = refl;
  same_out = λ j. refl;
  same_headers = refl;
  handed = h;
}

-- A block of the arena after a drain.
pub Took-later :
    (k : Stock) (m0 : Memory) (o : Object NumaArena) (d : Drained k m0 o.self o.world.memory)
    (i x : ℕ) (a : NumaArena) (m : Memory)
    → Took d.now i o.world.memory x a m
    → Took k i m0 x a m
Took-later k m0 o d i x a m t = record {
  before = t.before;
  before_arena = t.before_arena;
  before_memory = t.before_memory;
  valid = t.valid;
  same_bins = t.same_bins;
  same_node = t.same_node;
  same_out = λ j. t.same_out j ∙ d.same_out j;
  same_headers = t.same_headers ∙ d.headers;
  handed = t.handed;
}

put_small : Object SmallObjectAllocator → Object NumaArena → Object NumaArena
put_small t o = object (record (o.self) { small = t.self }) t.world

module _ (os : Platform) (i : ℕ) (below : i < num_size_classes) where
  -- A slab of the class that has a free block, or nothing.
  pub existing-Took :
      (k : Stock) (o : Object NumaArena)
      → IsArena k o.self o.world.memory
      → Returns
          (λ x o'. Took k i o.world.memory x o'.self o'.world.memory ⊎ ((x ≡ null) × (o' ≡ o)))
          (in_small (in_class i (allocate_existing os)) o)
  unfolding put_small
  existing-Took k o v =
      Returns-zoom put_small o _ (in_class i (allocate_existing os) (object o.self.small o.world)) (
        Returns-mono _ _ (in_class i (allocate_existing os) (object o.self.small o.world))
          (existing-PoolHanded os k.pool i (object o.self.small o.world) below v.small)
          λ x t h. elim h [
            | inl got ↦ inl (Took-here k i o x t.self t.world.memory v got)
            | inr none ↦ inr (none.0, ap (λ t'. put_small t' o) none.1)
          ])

  Took-ne_null :
      (k : Stock) (m0 : Memory) (x : ℕ) (a : NumaArena) (m : Memory) → Took k i m0 x a m → x ≢ null
  Took-ne_null k m0 x a m t =
      used_ne_null t.handed.now a.small m i x t.handed.valid below
        ((Perm.mem_iff (Perm.symm t.handed.one_more)).0 mem-cons_self)

  module _ (laws : MmapLaws os) (pages : os.page_size % 16 ≡ 0)
      (page_fits : slab_size + os.page_size ≤ 2 ^ 64) (k : Stock) (o : Object NumaArena)
      (v : IsArena k o.self o.world.memory) (next : NextApart os o) where
    pub direct-Took :
        Ensures
          (λ x o'. Took k i o.world.memory x o'.self o'.world.memory)
          (λ e o'. SlabsKept o'.self o'.world.memory)
          (in_small (SmallObject.allocate_by_class_index os i) o)
    unfolding put_small
    direct-Took =
        Ensures-zoom put_small o _ _
          (SmallObject.allocate_by_class_index os i (object o.self.small o.world))
          (Ensures-mono _ _ _ _
            (SmallObject.allocate_by_class_index os i (object o.self.small o.world))
            (allocate_by_class_index-PoolHanded os laws pages page_fits k.pool i
              (object o.self.small o.world) below v.small (next-MapsClear os o k.pool v.small next))
            (λ x t h. Took-here k i o x t.self t.world.memory v h)
            (λ e t h.
              kept-SlabsKept k.pool o.self (record (o.self) { small = t.self }) o.world.memory
                t.world.memory v.small h))

    new_slab-Took :
        Ensures
          (λ x o'. Took k i o.world.memory x o'.self o'.world.memory)
          (λ e o'. SlabsKept o'.self o'.world.memory)
          (in_small (in_class i (allocate_new_slab os)) o)
    unfolding put_small
    new_slab-Took =
        Ensures-zoom put_small o _ _
          (in_class i (allocate_new_slab os) (object o.self.small o.world))
          (Ensures-mono _ _ _ _ (in_class i (allocate_new_slab os) (object o.self.small o.world))
            (new_slab-PoolHanded os laws pages page_fits k.pool i (object o.self.small o.world)
              below v.small (next-MapsClear os o k.pool v.small next))
            (λ x t h. Took-here k i o x t.self t.world.memory v h)
            (λ e t h.
              kept-SlabsKept k.pool o.self (record (o.self) { small = t.self }) o.world.memory
                t.world.memory v.small h))

    -- A block in hand is returned; null leads on.
    pub or_else :
        (m0 : Memory) (k0 : Stock) (x : ℕ) (o1 : Object NumaArena)
        (f : Object NumaArena → Outcome ℕ × Object NumaArena)
        → (Took k0 i m0 x o1.self o1.world.memory) ⊎ ((x ≡ null) × (o1 ≡ o))
        → Ensures
            (λ y o'. Took k0 i m0 y o'.self o'.world.memory)
            (λ e o'. SlabsKept o'.self o'.world.memory)
            (f o)
        → Ensures
            (λ y o'. Took k0 i m0 y o'.self o'.world.memory)
            (λ e o'. SlabsKept o'.self o'.world.memory)
            ((if x == null then f else pure x) o1)
    or_else m0 k0 x o1 f (inl t) h =
        let ne : (x == null) ≡ false =
          ground (arith, Took-ne_null k0 m0 x o1.self o1.world.memory t) in
        rw ne t
    or_else m0 k0 x o1 f (inr (e, same)) h =
        let none : (x == null) ≡ true = ground (arith, e) in rw (none, same) h

    -- Behind the drain: existing slabs again, then a new one.
    pub retry :
        (k0 : Stock) (m0 : Memory)
        → ((x : ℕ) (a : NumaArena) (m : Memory)
            → Took k i o.world.memory x a m
            → Took k0 i m0 x a m)
        → Ensures
            (λ x o'. Took k0 i m0 x o'.self o'.world.memory)
            (λ e o'. SlabsKept o'.self o'.world.memory)
            ((do
              block ← in_small (in_class i (allocate_existing os))
              if block == null then in_small (in_class i (allocate_new_slab os)) else pure block)
              o)
    retry k0 m0 lift =
        Returns-bind _ _ _ (in_small (in_class i (allocate_existing os)) o) _ (existing-Took k o v)
          λ x o1 h.
            or_else m0 k0 x o1 (in_small (in_class i (allocate_new_slab os)))
              (elim h [ inl t ↦ inl (lift x o1.self o1.world.memory t) | inr n ↦ inr n ])
              (Ensures-mono _ _ _ _ (in_small (in_class i (allocate_new_slab os)) o) new_slab-Took
                (λ y o' t. lift y o'.self o'.world.memory t) (λ e o' s. s))
