-- ===== src/ArenaManager.antt =====
-- arena_manager/arena_manager.hpp and .cpp: the arenas of the process, one for each node, and the
-- part of `NumaArena::deallocate` that routes a block to the arena of its node.
pub mod Routing
pub mod Home
use numa_pmr.Base.{
  ℕ, zero, suc, ◌+◌, Bool, true, ◌&&◌, ◌||◌, not, List, [], ◌∷◌, ◌++◌, ℤ, pos, from_u32, to_ℕ,
  is_negative, int_eq, leb, ltb, ◌==◌, if◌then◌else◌,
}
use numa_pmr.Machine.Word.{null}
use numa_pmr.Machine.Platform.{Platform}
use numa_pmr.Machine.Memory.{World, update}
use numa_pmr.Machine.Monad.{M, out_of_range, handle, pure, raise, zoom, ◌>>=◌, ◌>>◌}
use numa_pmr.Machine.Object.{Object, object, outside}
use numa_pmr.Block.{from_user_ptr}
use numa_pmr.VirtualMemory.{alloc_on_node, release}
use numa_pmr.Arena.{
  NumaArena, ArenaM, new_arena, deallocate_here, deallocate_foreign, destroy_arena,
}

-- What a `NumaArenaPtr` that is not null points to.
pub record ArenaPtr : Type 0 where
  pub address : ℕ
  pub arena : NumaArena

-- The arenas of a process: the manager's by node, and `own`, that of a resource with an arena of
-- its own.
pub record Arenas : Type 0 where
  pub count : ℕ
  pub managed : ℕ → ArenaPtr
  pub own : ArenaPtr

pub data Place : Type 0 where
  managed : ℕ → Place
  own : Place

abbrev pub arena_at : Place → Arenas → ArenaPtr
arena_at (managed i) p = p.managed i
arena_at own p = p.own

abbrev pub put_arena : Place → NumaArena → Arenas → Arenas
put_arena (managed i) a p = record p {
  managed = update p.managed i (record (p.managed i) { arena = a });
}
put_arena own a p = record p { own = record (p.own) { arena = a } }

abbrev pub ProcessM : Type 0 → Type 0
ProcessM = M (Object Arenas)

-- A method of the arena at a place.
abbrev pub in_arena : {A : Type 0} → Place → ArenaM A → ProcessM A
in_arena place =
    zoom (λ o. object (arena_at place o.self).arena o.world)
      (λ a o. object (put_arena place a.self o.self) a.world)

-- `arena_for_node`: the place of the arena, or the exception.
unfoldable pub arena_for_node : ℤ → ProcessM Place
arena_for_node node o =
    if is_negative node || leb o.self.count (to_ℕ node)
    then raise out_of_range o
    else pure (managed (to_ℕ node)) o

module _ (os : Platform) where
  -- `NumaArena::deallocate` of the arena at `place`.
  unfoldable pub deallocate : Place → (ptr : ℕ) → ProcessM (Unit {0})
  deallocate place ptr o =
      let node = from_u32 (o.world.memory.block (from_user_ptr ptr)).node_id in
      let a = (arena_at place o.self).arena in
      if ptr == null
      then pure tt o
      else if not (int_eq node a.node_id) && a.route_foreign_deallocations
      then (do home ← arena_for_node node; in_arena home (deallocate_foreign os ptr)) o
      else in_arena place (deallocate_here os ptr) o

  -- `create_arena_on_node`. The constructor in its `try` throws nothing.
  unfoldable pub create_arena_on_node : (node : ℤ) → (foreign : Bool) → M World ArenaPtr
  create_arena_on_node node foreign = do
    mem ← alloc_on_node os os.sizeof_arena node
    pure (record { address = mem; arena = new_arena node foreign true true })

  -- `NumaArenaDeleter::operator()` on a pointer that is not null.
  unfoldable pub delete_arena : ArenaPtr → M World (Unit {0})
  delete_arena p =
      zoom (object p.arena) (λ o w. o.world)
        (destroy_arena os >> outside (release os p.address os.sizeof_arena))

  delete_all : List ArenaPtr → M World (Unit {0})
  delete_all [] = pure tt
  delete_all (p ∷ rest) = delete_arena p >> delete_all rest

  -- The loop of `init_arenas`, from node `i` on. When it throws, the constructor's frame destroys
  -- the arenas built so far.
  unfoldable pub init_loop :
      (rounds i : ℕ) → (foreign : Bool) → List ArenaPtr → M World (List ArenaPtr)
  unfolding delete_all
  init_loop zero i foreign built = pure built
  init_loop (suc n) i foreign built = do
    p ← λ w. handle (create_arena_on_node (pos i) foreign w) (λ e. delete_all built >> raise e)
    init_loop n (i + 1) foreign (built ++ p ∷ [])

  unfoldable pub init_arenas : (node_count : ℕ) → M World (List ArenaPtr)
  init_arenas node_count = init_loop node_count 0 (ltb 1 node_count) []
