-- ===== src/Tests/Client.antt =====
-- A client of a new arena that allocates two blocks of 4096 bytes.
use mathlib.Core.List.Perm
use mathlib.Core.List.{Mem, mem-cons_self, mem-cons_of_mem}
use numa_pmr.Base.{
  zero, suc, ◌⊎◌, ℕ, ◌≡◌, ◌<◌, ◌≤◌, ◌+◌, ◌*◌, ◌^◌, ◌%◌, ◌==◌, not, ◌||◌, true, false, leb, refl,
  sym, ap, subst, arith, inr, pos, some, List, [], ◌∷◌, ℕ_discrete, All, Bool, Bool-cases, inl,
}
use numa_pmr.Machine.Memory.{World, with_memory, write_block, update, update_ne}
use numa_pmr.Machine.Monad.{Returns, Ensures, Outcome, ok, throw, out_of_range}
use numa_pmr.Machine.Object.{Object, object}
use numa_pmr.Block.{to_user_ptr}
use numa_pmr.SizeClassTable.{class_size_at, num_size_classes, class_index_for_size}
use numa_pmr.SizeClassTable.Index.{class_size_at_lem, num_size_classes_lem}
use numa_pmr.SizeClass.{SizeClass, new_class}
use numa_pmr.SizeClass
use numa_pmr.Slab.Frame.{Apart}
use numa_pmr.BlockList.{empty_bin}
use numa_pmr.Arena.{
  NumaArena, new_arena, allocate, deallocate_here, deallocate_foreign, drain_foreign_bin,
  small_header,
}
use numa_pmr.Arena.Took.{Served, SlabsKept}
use numa_pmr.Arena.Allocate.{allocate-Served}
use numa_pmr.Arena.Retry.{NextApart}
use numa_pmr.Arena.Drain.{Emptied, Drained, drain_foreign_bin-Drained}
use numa_pmr.Arena.Deallocate.{deallocate_here-Emptied, deallocate_foreign-Emptied}
use numa_pmr.Arena.Client.{Grant, Run, starts, allocates, Sound, Owned, owned}
use numa_pmr.Arena.Sound.{Run-Sound}
use numa_pmr.Arena.Steps.{no_stock, new_arena-IsArena}
use numa_pmr.Arena.Promises.{Run-Disjoint, Run-Inside, give_back, Run-give_back}
use numa_pmr.Machine.Word.{sizeof_block_header, sizeof_slab_header}
use numa_pmr.Config.Small.{slab_size}
use numa_pmr.Arena.Untouched.{slabs_of}
use numa_pmr.ArenaManager.{Arenas, ArenaPtr, managed, deallocate}
use numa_pmr.ArenaManager.Home.{Home, deallocate-Home}
use numa_pmr.Tests.World.{blank, machine, machine-MmapLaws, start}

-- The state after a call that took block `x` of the class of 4096 bytes.
abbrev after : Object NumaArena → ℕ → SizeClass → World → Object NumaArena
after o x c w =
    let a = record (o.self) {
      small = record (o.self.small) { classes = update o.self.small.classes 39 c };
    } in
    object a
      (with_memory (λ m. write_block x (small_header machine (class_size_at 39) a (m.block x)) m) w)

found : class_index_for_size 4096 ≡ ok 39
unfolding class_index_for_size numa_pmr.SizeClassTable.class_index_of
    numa_pmr.VirtualMemory.align_up
found = refl

call_lem :
    (o : Object NumaArena) (x : ℕ) (c : SizeClass) (w : World)
    → o.self.foreign_bytes ≡ 0
    → SizeClass.allocate machine (object (o.self.small.classes 39) o.world) ≡ (ok x, object c w)
    → allocate machine 4096 8 o ≡ (ok (to_user_ptr x), after o x c w)
unfolding allocate numa_pmr.Arena.allocate_sized numa_pmr.Arena.allocate_class
    numa_pmr.Arena.allocate_small numa_pmr.SmallObject.allocate_by_class_index
call_lem o x c w none e =
    let test : (not o.self.foreign_freelist_enabled || o.self.foreign_bytes == 0) ≡ true =
      ground (arith, none) in
    let inside : leb num_size_classes 39 ≡ false = rw num_size_classes_lem refl in
    rw (found, test, inside, e) refl

abbrev class_0 : Object SizeClass
class_0 = object (new_class 4096 (pos 0) true) start

abbrev class_1 : Object SizeClass
class_1 = (SizeClass.allocate machine class_0).1

abbrev first_block : ℕ
first_block = 2 ^ 20 + 32 + 14 * 4128

first_run : (SizeClass.allocate machine class_0).0 ≡ ok first_block
unfolding SizeClass.allocate SizeClass.allocate_or SizeClass.current_usable new_class
    SizeClass.from_slabs SizeClass.first_free SizeClass.add_slab numa_pmr.Slab.create
    numa_pmr.VirtualMemory.alloc_on_node numa_pmr.VirtualMemory.reserve
    numa_pmr.VirtualMemory.map_span numa_pmr.VirtualMemory.align_up
    numa_pmr.VirtualMemory.bind_to_node numa_pmr.NodeLocal.push_back
    numa_pmr.NodeLocal.allocate_items numa_pmr.NodeLocal.deallocate_items
    numa_pmr.VirtualMemory.release numa_pmr.Slab.allocate_block numa_pmr.Slab.capacity_for
    numa_pmr.Slab.first_block numa_pmr.Slab.has_free numa_pmr.Slab.init numa_pmr.Slab.init_header
    numa_pmr.Slab.init_loop numa_pmr.Slab.pop_block numa_pmr.Slab.push_block
    numa_pmr.Slab.total_block_size numa_pmr.VirtualMemory.bind_policy
    numa_pmr.VirtualMemory.bind_range
first_run = refl

first_items : class_1.self.slabs.items ≡ 2 ^ 20 ∷ []
unfolding SizeClass.allocate SizeClass.allocate_or SizeClass.current_usable new_class
    SizeClass.from_slabs SizeClass.first_free SizeClass.add_slab numa_pmr.Slab.create
    numa_pmr.VirtualMemory.alloc_on_node numa_pmr.VirtualMemory.reserve
    numa_pmr.VirtualMemory.map_span numa_pmr.VirtualMemory.align_up
    numa_pmr.VirtualMemory.bind_to_node numa_pmr.NodeLocal.push_back
    numa_pmr.NodeLocal.allocate_items numa_pmr.NodeLocal.deallocate_items
    numa_pmr.VirtualMemory.release numa_pmr.Slab.allocate_block numa_pmr.Slab.capacity_for
    numa_pmr.Slab.first_block numa_pmr.Slab.has_free numa_pmr.Slab.init numa_pmr.Slab.init_header
    numa_pmr.Slab.init_loop numa_pmr.Slab.pop_block numa_pmr.Slab.push_block
    numa_pmr.Slab.total_block_size numa_pmr.VirtualMemory.bind_policy
    numa_pmr.VirtualMemory.bind_range
first_items = refl

first_trace :
    (p : ℕ)
    → machine.mmap_result class_1.world.trace
        (numa_pmr.VirtualMemory.align_up numa_pmr.Config.Small.slab_size machine.page_size)
      ≡ some p
    → 2 ^ 21 ≤ p
unfolding SizeClass.allocate SizeClass.allocate_or SizeClass.current_usable new_class
    SizeClass.from_slabs SizeClass.first_free SizeClass.add_slab numa_pmr.Slab.create
    numa_pmr.VirtualMemory.alloc_on_node numa_pmr.VirtualMemory.reserve
    numa_pmr.VirtualMemory.map_span numa_pmr.VirtualMemory.align_up
    numa_pmr.VirtualMemory.bind_to_node numa_pmr.NodeLocal.push_back
    numa_pmr.NodeLocal.allocate_items numa_pmr.NodeLocal.deallocate_items
    numa_pmr.VirtualMemory.release numa_pmr.Slab.allocate_block numa_pmr.Slab.capacity_for
    numa_pmr.Slab.first_block numa_pmr.Slab.has_free numa_pmr.Slab.init numa_pmr.Slab.init_header
    numa_pmr.Slab.init_loop numa_pmr.Slab.pop_block numa_pmr.Slab.push_block
    numa_pmr.Slab.total_block_size numa_pmr.VirtualMemory.bind_policy
    numa_pmr.VirtualMemory.bind_range
first_trace p e = ground (arith, e)

size_39 : class_size_at 39 ≡ 4096
size_39 = ground (arith, class_size_at_lem 39)

abbrev fresh_arena : Object NumaArena
fresh_arena = object (new_arena (pos 0) true true true) start

abbrev arena_1 : Object NumaArena
arena_1 = after fresh_arena first_block class_1.self class_1.world

no_foreign : fresh_arena.self.foreign_bytes ≡ 0
unfolding new_arena
no_foreign = refl

first_class :
    SizeClass.allocate machine (object (fresh_arena.self.small.classes 39) start)
    ≡ (ok first_block, class_1)
unfolding new_arena numa_pmr.SmallObject.new_small
first_class = rw size_39 (ap (λ (r : Outcome ℕ). (r, class_1)) first_run)

abbrev class_2 : Object SizeClass
class_2 = (SizeClass.allocate machine (object class_1.self arena_1.world)).1

abbrev second_block : ℕ
second_block = 2 ^ 20 + 32 + 13 * 4128

second_run : (SizeClass.allocate machine (object class_1.self arena_1.world)).0 ≡ ok second_block
unfolding SizeClass.allocate SizeClass.allocate_or SizeClass.current_usable new_class
    SizeClass.from_slabs SizeClass.first_free SizeClass.add_slab numa_pmr.Slab.create
    numa_pmr.VirtualMemory.alloc_on_node numa_pmr.VirtualMemory.reserve
    numa_pmr.VirtualMemory.map_span numa_pmr.VirtualMemory.align_up
    numa_pmr.VirtualMemory.bind_to_node numa_pmr.NodeLocal.push_back
    numa_pmr.NodeLocal.allocate_items numa_pmr.NodeLocal.deallocate_items
    numa_pmr.VirtualMemory.release numa_pmr.Slab.allocate_block numa_pmr.Slab.capacity_for
    numa_pmr.Slab.first_block numa_pmr.Slab.has_free numa_pmr.Slab.init numa_pmr.Slab.init_header
    numa_pmr.Slab.init_loop numa_pmr.Slab.pop_block numa_pmr.Slab.push_block
    numa_pmr.Slab.total_block_size numa_pmr.VirtualMemory.bind_policy
    numa_pmr.VirtualMemory.bind_range
second_run = refl

abbrev arena_2 : Object NumaArena
arena_2 = after arena_1 second_block class_2.self class_2.world

abbrev grants : List Grant
grants =
    record { ptr = to_user_ptr second_block; size = 4096 }
    ∷ record { ptr = to_user_ptr first_block; size = 4096 }
    ∷ []

next-Apart_0 : NextApart machine fresh_arena
unfolding new_arena numa_pmr.SmallObject.new_small new_class
next-Apart_0 p mapped i lt = tt

next-Apart_1 : NextApart machine arena_1
unfolding new_arena numa_pmr.SmallObject.new_small
next-Apart_1 p mapped i lt =
    let far = first_trace p mapped in
    elim (ℕ_discrete i 39) [
      | yes e ↦ rw e (subst (λ l. All (Apart p) l) (sym first_items) (inr (omega (arith, far)), tt))
      | no ne ↦
          subst (λ (c : SizeClass). All (Apart p) c.slabs.items)
            (sym (update_ne fresh_arena.self.small.classes 39 i class_1.self ne)) (no_slabs_of i)
    ]
  where
    no_slabs_of : (j : ℕ) → All (Apart p) (new_class (class_size_at j) (pos 0) true).slabs.items
    no_slabs_of j = unfold new_class in tt

-- Empty bins: a drain changes neither the classes nor the world.
empty_drain :
    (i : ℕ) (o o1 : Object NumaArena)
    → o.self.foreign_bins i ≡ empty_bin
    → drain_foreign_bin machine i o ≡ (ok tt, o1)
    → (o1.self.small ≡ o.self.small) × (o1.world ≡ o.world)
unfolding drain_foreign_bin numa_pmr.Arena.take_foreign_bin numa_pmr.Arena.detach_all_foreign
    numa_pmr.Arena.drain_foreign_batch numa_pmr.Arena.subtract_foreign
empty_drain i o o1 none e = elim (Bool-cases (leb num_size_classes i)) [
  | inl over ↦
      let bad : ◌≡◌ {A = Outcome (Unit {0}) × Object NumaArena} (throw out_of_range, o)
          (ok tt, o1) =
        rw over at e in
      let differ : ◌≡◌ {A = Outcome (Unit {0})} (throw out_of_range) (ok tt) = ap (λ r. r.0) bad in
      absurd (cc)
  | inr inside ↦
      let good = rw (inside, none) at e in
      (ap (λ r. r.1.self.small) (sym good), ap (λ r. r.1.world) (sym good))
]

still-Apart :
    (o o1 : Object NumaArena)
    → (o1.self.small ≡ o.self.small) × (o1.world ≡ o.world)
    → NextApart machine o
    → NextApart machine o1
still-Apart o o1 same next = rw (same.0, same.1) next

no_bins : (i : ℕ) → fresh_arena.self.foreign_bins i ≡ empty_bin
unfolding new_arena
no_bins i = refl

later-Apart_0 :
    (i : ℕ) (o1 : Object NumaArena)
    → drain_foreign_bin machine i fresh_arena ≡ (ok tt, o1)
    → NextApart machine o1
later-Apart_0 i o1 e =
    still-Apart fresh_arena o1 (empty_drain i fresh_arena o1 (no_bins i) e) next-Apart_0

later-Apart_1 :
    (i : ℕ) (o1 : Object NumaArena)
    → drain_foreign_bin machine i arena_1 ≡ (ok tt, o1)
    → NextApart machine o1
later-Apart_1 i o1 e = still-Apart arena_1 o1 (empty_drain i arena_1 o1 (no_bins i) e) next-Apart_1

two_held : Run machine arena_2 grants
two_held =
    allocates arena_1 (record { ptr = to_user_ptr first_block; size = 4096 } ∷ []) 4096 8
      (to_user_ptr second_block) arena_2
      (allocates fresh_arena [] 4096 8 (to_user_ptr first_block) arena_1
        (starts (pos 0) true true true start) (omega arith) (omega arith) next-Apart_0 later-Apart_0
        (call_lem fresh_arena first_block class_1.self class_1.world no_foreign first_class))
      (omega arith) (omega arith) next-Apart_1 later-Apart_1
      (call_lem arena_1 second_block class_2.self class_2.world no_foreign
        (ap (λ (r : Outcome ℕ). (r, class_2)) second_run))

Run-Sound_example : Sound arena_2 grants
Run-Sound_example = Run-Sound machine machine-MmapLaws refl (omega arith) arena_2 grants two_held

Run-Disjoint_example :
    (second_block + 32 + 4096 + sizeof_block_header ≤ first_block + 32)
    ⊎ (first_block + 32 + 4096 + sizeof_block_header ≤ second_block + 32)
Run-Disjoint_example =
    Run-Disjoint machine machine-MmapLaws refl (omega arith) arena_2 grants two_held
      (record { ptr = to_user_ptr second_block; size = 4096 })
      (record { ptr = to_user_ptr first_block; size = 4096 }) mem-cons_self
      (mem-cons_of_mem _ mem-cons_self) (λ e. absurd (omega (arith, e)))

Run-Inside_example :
    ((first_block + 32) % 16 ≡ 0)
    × (i : ℕ) × (i < num_size_classes)
    × (slab : ℕ) × Mem slab (slabs_of arena_2.self.small i)
    × (slab + sizeof_slab_header + sizeof_block_header ≤ first_block + 32)
    × (first_block + 32 + 4096 ≤ slab + slab_size)
Run-Inside_example =
    Run-Inside machine machine-MmapLaws refl (omega arith) arena_2 grants two_held
      (record { ptr = to_user_ptr first_block; size = 4096 }) (mem-cons_of_mem _ mem-cons_self)

-- The manager's arenas: that of node 0, whose client holds the two blocks, and new ones.
abbrev arena_of : ℕ → ArenaPtr
arena_of zero = record { address = 2 ^ 24; arena = arena_2.self }
arena_of (suc j) = record {
  address = 2 ^ 24 + 4096 * suc j;
  arena = new_arena (pos (suc j)) true true true;
}

abbrev process : Object Arenas
process = object (record { count = 2; managed = arena_of; own = arena_of 1 }) arena_2.world

node_1 : (process.self.managed 1).arena.node_id ≡ pos 1
unfolding new_arena
node_1 = refl

routes_1 : (process.self.managed 1).arena.route_foreign_deallocations ≡ true
unfolding new_arena
routes_1 = refl

node_0 : (process.self.managed 0).arena.node_id ≡ pos 0
unfolding new_arena
node_0 = refl

deallocate-Home_example :
    Returns
      (λ _ o'.
        Home machine 0 process (record { ptr = to_user_ptr first_block; size = 4096 } ∷ []) o')
      (deallocate machine (managed 1) (to_user_ptr second_block) process)
deallocate-Home_example =
    deallocate-Home machine machine-MmapLaws refl (omega arith) 1 0 process grants
      (record { ptr = to_user_ptr second_block; size = 4096 })
      (record { ptr = to_user_ptr first_block; size = 4096 } ∷ []) two_held (Perm.refl grants)
      node_1 routes_1 node_0 (omega arith) (omega arith)

-- The second block is given back by a thread of another node.
abbrev by_node : Grant → Bool
by_node g = g.ptr == to_user_ptr first_block

Run-give_back_example :
    Returns (λ _ o'. Run machine o' []) (give_back machine by_node grants arena_2)
Run-give_back_example =
    Run-give_back machine machine-MmapLaws refl (omega arith) by_node arena_2 grants two_held

two_sound : Sound arena_2 grants
two_sound = Run-Sound machine machine-MmapLaws refl (omega arith) arena_2 grants two_held

first_owned : Owned two_sound.stock (to_user_ptr first_block)
first_owned =
    owned arena_2 grants two_sound (to_user_ptr first_block) (mem-cons_of_mem _ mem-cons_self)

deallocate_here-Emptied_example :
    Returns
      (λ _ o'.
        Emptied two_sound.stock first_owned.class first_owned.rest arena_2.world.memory o'.self
          o'.world.memory)
      (deallocate_here machine (to_user_ptr first_owned.block) arena_2)
deallocate_here-Emptied_example =
    deallocate_here-Emptied machine two_sound.stock first_owned.class first_owned.block
      first_owned.rest arena_2 first_owned.class_in two_sound.valid first_owned.parts

deallocate_foreign-Emptied_example :
    Returns
      (λ _ o'.
        Emptied two_sound.stock first_owned.class first_owned.rest arena_2.world.memory o'.self
          o'.world.memory)
      (deallocate_foreign machine (to_user_ptr first_owned.block) arena_2)
deallocate_foreign-Emptied_example =
    deallocate_foreign-Emptied machine two_sound.stock first_owned.class first_owned.block
      first_owned.rest arena_2 first_owned.class_in two_sound.valid first_owned.parts

drain_foreign_bin-Drained_example :
    Returns
      (λ _ o'. Drained two_sound.stock arena_2.world.memory o'.self o'.world.memory)
      (drain_foreign_bin machine 39 arena_2)
drain_foreign_bin-Drained_example =
    drain_foreign_bin-Drained machine two_sound.stock 39 arena_2
      (rw num_size_classes_lem (omega arith)) two_sound.valid

allocate-Served_example :
    Ensures
      (λ p o'. Served no_stock blank 4096 p o'.self o'.world.memory)
      (λ e o'. SlabsKept o'.self o'.world.memory)
      (allocate machine 4096 8 fresh_arena)
allocate-Served_example =
    allocate-Served machine machine-MmapLaws refl (omega arith) no_stock fresh_arena
      (new_arena-IsArena (pos 0) true true true blank) next-Apart_0 later-Apart_0 4096 8
      (omega arith) (omega arith)
