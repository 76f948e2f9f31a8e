-- ===== src/SmallObject.antt =====
-- size_divide/small_object: `SmallObjectAllocator`, one `SizeClass` per entry of `kClassSizes`.
pub mod Route
pub mod Joined
pub mod Pool
pub mod PoolHanded
pub mod PoolAllocate
pub mod PoolDeallocate
pub mod Disjoint
use numa_pmr.Base.{ℕ, zero, suc, Bool, true, false, not, ◌||◌, ℤ, leb, ◌==◌, if◌then◌else◌}
use numa_pmr.Machine.Word.{null}
use numa_pmr.Machine.Platform.{Platform}
use numa_pmr.Machine.Memory.{World, update}
use numa_pmr.Machine.Monad.{
  M, Outcome, ok, throw, out_of_range, pure, raise, get, lift, zoom, ◌>>=◌, ◌>>◌,
}
use numa_pmr.Machine.Object.{Object, object}
use numa_pmr.SizeClassTable.{class_index_for_size, class_size_at, num_size_classes}
use numa_pmr.SizeClass.{SizeClass, ClassM, new_class, allocate_existing, allocate_new_slab}
use numa_pmr.SizeClass

-- The array `classes_` by its index.
pub record SmallObjectAllocator : Type 0 where
  pub node_id : ℤ
  pub sync : Bool
  pub classes : ℕ → SizeClass

abbrev pub SmallM : Type 0 → Type 0
SmallM = M (Object SmallObjectAllocator)

unfoldable pub new_small : ℤ → Bool → SmallObjectAllocator
new_small node sync = record {
  node_id = node;
  sync = sync;
  classes = λ i. new_class (class_size_at i) node sync;
}

-- A method of `classes_[i]`.
abbrev pub in_class : {A : Type 0} → ℕ → ClassM A → SmallM A
in_class i =
    zoom (λ o. object (o.self.classes i) o.world)
      (λ c o. object (record (o.self) { classes = update o.self.classes i c.self }) c.world)

-- `get_size_class`, as the index of the class.
unfoldable pub check_class : ℕ → Outcome ℕ → Outcome ℕ
check_class size (throw e) = throw e
check_class size (ok i) =
    if leb num_size_classes i || not (class_size_at i == size) then throw out_of_range else ok i

unfoldable pub get_size_class : ℕ → Outcome ℕ
get_size_class size = check_class size (class_index_for_size size)

module _ (os : Platform) where
  unfoldable pub allocate_by_class_index : ℕ → SmallM ℕ
  allocate_by_class_index i =
      if leb num_size_classes i then raise out_of_range else in_class i (SizeClass.allocate os)

  unfoldable pub allocate : ℕ → SmallM ℕ
  allocate size = do i ← lift (class_index_for_size size); allocate_by_class_index i

  -- The overload with a drain, in the state `S` of the caller, which the callback shares: `run`
  -- runs a method of this allocator there, and `drain` is the callback at its context and class.
  unfoldable pub allocate_draining :
      {S : Type 0} → ℕ → (run : SmallM ℕ → M S ℕ) → (drain : M S (Unit {0})) → M S ℕ
  allocate_draining i run drain = if leb num_size_classes i then raise out_of_range else (do
    block ← run (in_class i (allocate_existing os))
    if block == null
        then (do
          drain
          block ← run (in_class i (allocate_existing os))
          if block == null then run (in_class i (allocate_new_slab os)) else pure block)
        else pure block)

  unfoldable pub deallocate : ℕ → SmallM (Unit {0})
  deallocate block = do
    header ← get (λ o. o.world.memory.block block)
    i ← lift (get_size_class header.size_class)
    in_class i (SizeClass.deallocate os block)

  unfoldable pub deallocate_batch : (fuel class_index head : ℕ) → SmallM (Unit {0})
  deallocate_batch fuel i head =
      if leb num_size_classes i
      then raise out_of_range
      else in_class i (SizeClass.deallocate_batch os fuel head)

  -- The destruction of `classes_`, the last entry first, from `rounds` entries on.
  destroy_classes : (rounds : ℕ) → SmallObjectAllocator → M World (Unit {0})
  destroy_classes zero a = pure tt
  destroy_classes (suc i) a = SizeClass.destroy_class os (a.classes i) >> destroy_classes i a

  pub destroy_small : SmallObjectAllocator → M World (Unit {0})
  unfolding destroy_classes
  destroy_small a = destroy_classes num_size_classes a
