-- ===== src/NodeLocal.antt =====
-- size_divide/small_object: `NodeLocalAllocator`, and the `std::vector<Slab*>` that it backs.
pub mod Keeps
use numa_pmr.Base.{
  ℕ, ◌*◌, ◌/◌, Bool, List, [], ◌∷◌, ◌++◌, ℤ, int_eq, not, ltb, if◌then◌else◌, length,
}
use numa_pmr.Machine.Word.{size_max, sizeof_pointer, null}
use numa_pmr.Machine.Platform.{Platform}
use numa_pmr.Machine.Memory.{World}
use numa_pmr.Machine.Monad.{M, bad_array_new_length, raise, pure, ◌>>=◌, ◌>>◌}
use numa_pmr.VirtualMemory.{alloc_on_node, release}

-- The vector: its items, its storage (null for none) and the storage's capacity in items.
pub record SlabVector : Type 0 where
  pub items : List ℕ
  pub storage : ℕ
  pub capacity : ℕ

abbrev pub no_slabs : SlabVector
no_slabs = record { items = []; storage = null; capacity = 0 }

-- `NodeLocalAllocator<Slab*>::operator==` and `operator!=`, of the node ids.
pub same_allocator : ℤ → ℤ → Bool
same_allocator = int_eq

pub other_allocator : ℤ → ℤ → Bool
unfolding same_allocator
other_allocator lhs rhs = not (same_allocator lhs rhs)

module _ (os : Platform) (node : ℤ) where
  -- `NodeLocalAllocator<Slab*>::allocate`.
  unfoldable pub allocate_items : ℕ → M World ℕ
  allocate_items n =
      if ltb (size_max / sizeof_pointer) n
      then raise bad_array_new_length
      else alloc_on_node os (n * sizeof_pointer) node

  -- `NodeLocalAllocator<Slab*>::deallocate`.
  unfoldable pub deallocate_items : (p n : ℕ) → M World (Unit {0})
  deallocate_items p n = release os p (n * sizeof_pointer)

  -- `std::vector::push_back`: with no room, new storage first, which may throw and then changes
  -- nothing.
  unfoldable pub push_back : ℕ → SlabVector → M World SlabVector
  push_back x v =
      if ltb (length v.items) v.capacity then pure (record v { items = v.items ++ x ∷ [] }) else (do
        storage ← allocate_items (os.vector_growth (length v.items))
        deallocate_items v.storage v.capacity
        pure (record {
          items = v.items ++ x ∷ [];
          storage = storage;
          capacity = os.vector_growth (length v.items);
        }))

  -- The vector's destructor.
  unfoldable pub destroy_vector : SlabVector → M World (Unit {0})
  destroy_vector v = deallocate_items v.storage v.capacity
