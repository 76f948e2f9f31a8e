-- ===== src/ArenaManager/Home.antt =====
-- A block of a client, given back through the arena of any node.
use mathlib.Core.List.{Mem, Perm, mem-cons_self, mem-map_of_mem}
use mathlib.Core.List.Perm
use numa_pmr.Base.{
  ℕ, ◌≡◌, ◌≢◌, ◌<◌, ◌≤◌, ◌+◌, ◌%◌, ◌^◌, ◌∙◌, refl, sym, ap, subst, arith, true, List, ◌∷◌, pos,
  from_u32, to_u32,
}
use numa_pmr.Base.Int.{from_u32-to_u32}
use numa_pmr.Machine.Platform.{Platform, MmapLaws}
use numa_pmr.Machine.Word.{null}
use numa_pmr.Machine.Memory.{update_self, update_ne}
use numa_pmr.Machine.Monad.{Outcome, ok, Returns}
use numa_pmr.Machine.Object.{Object, object}
use numa_pmr.Config.Small.{slab_size}
use numa_pmr.Block.{from_user_ptr}
use numa_pmr.SizeClassTable.{class_size_at}
use numa_pmr.Arena.{NumaArena, ArenaM, deallocate_here, deallocate_foreign}
use numa_pmr.Arena.Payload.{from_to}
use numa_pmr.Arena.Pool.{Label}
use numa_pmr.Arena.Client.{
  Grant, Run, Sound, owned, owned-used, ptrs, deallocates, deallocates_foreign,
}
use numa_pmr.Arena.Sound.{Run-Sound}
use numa_pmr.Arena.Promises.{Run-deallocate_here, Run-deallocate_foreign}
use numa_pmr.ArenaManager.{Arenas, managed, in_arena, deallocate}
use numa_pmr.ArenaManager.Routing.{
  OnlyNode, Routed, nothing, here, away, no_such_node, deallocate-Routed,
}

-- The manager's arena of node `h`, in the process's world.
abbrev pub home_arena : (h : ℕ) → Object Arenas → Object NumaArena
home_arena h p = object (p.self.managed h).arena p.world

module _ (os : Platform) (h : ℕ) (o : Object Arenas) where
  -- The clients of node `h` hold `rest`, and no other arena has changed.
  abbrev pub Home : List Grant → Object Arenas → Type 0
  Home rest o' = Run os (home_arena h o') rest × OnlyNode h o.self o'.self

  in_arena-Home :
      (rest : List Grant) (action : ArenaM (Unit {0})) (o1 : Object NumaArena)
      → action (home_arena h o) ≡ (ok tt, o1)
      → Run os o1 rest
      → Returns (λ _ o'. Home rest o') (in_arena (managed h) action o)
  in_arena-Home rest action o1 e run =
      let changed = record (o.self.managed h) { arena = o1.self } in
      rw e (
        subst (λ a. Run os (object a.arena o1.world) rest)
            (sym (update_self o.self.managed h changed)) run,
        record {
          others = λ j ne. update_ne o.self.managed h j changed ne;
          own = refl;
          count = refl;
        },
      )

  Routed-Home :
      {i ptr : ℕ} {r : Outcome (Unit {0}) × Object Arenas} (rest : List Grant)
      → Routed os i h ptr o r
      → ptr ≢ null
      → h < o.self.count
      → Returns (λ _ o'. Home rest o') (in_arena (managed h) (deallocate_here os ptr) o)
      → Returns (λ _ o'. Home rest o') (in_arena (managed h) (deallocate_foreign os ptr) o)
      → Returns (λ _ o'. Home rest o') r
  Routed-Home rest (nothing e) some inside local remote = absurd (some e)
  Routed-Home rest (here _ e) some inside local remote = local
  Routed-Home rest (away _ ne lt) some inside local remote = remote
  Routed-Home rest (no_such_node _ ne le) some inside local remote = absurd (omega arith)

module _ (o : Object NumaArena) (held : List Grant) (s : Sound o held) (p : ℕ)
    (i : Mem p (ptrs held)) where
  held-block :
      Label o.self.node_id
        (class_size_at (owned o held s p i).class)
        (o.world.memory.block (from_user_ptr p))
  held-block =
      let w = owned o held s p i in
      let at : w.block ≡ from_user_ptr p = sym (from_to w.block) ∙ ap from_user_ptr w.payload in
      subst (λ x. Label o.self.node_id (class_size_at w.class) (o.world.memory.block x)) at
        (s.valid.labelled w.class w.block w.class_in (owned-used o held s p w))

  held-ne_null : p ≢ null
  held-ne_null e = let w = owned o held s p i in omega (arith, w.payload, e)

-- Where `mmap` keeps to POSIX, a page is a multiple of 16 bytes and a slab and a page fit the address
-- space; where the manager's arena of node `i` routes; where the ids of the arenas of the nodes `i` and
-- `h` are these indices, and `h` is one of the manager's nodes and fits an `int`: when clients of the
-- arena of node `h` hold a block, `deallocate` of it on the arena of node `i`, which may be `h`, returns.
-- It has freed the block in the arena of node `h`, whose clients are then in a state that they reach,
-- with this block no longer held, and no other arena has changed.
pub deallocate-Home :
    (os : Platform) (laws : MmapLaws os) (pages : os.page_size % 16 ≡ 0)
    (page_fits : slab_size + os.page_size ≤ 2 ^ 64) (i h : ℕ) (o : Object Arenas)
    (held : List Grant) (g : Grant) (rest : List Grant)
    → Run os (home_arena h o) held
    → Perm (g ∷ rest) held
    → (o.self.managed i).arena.node_id ≡ pos i
    → (o.self.managed i).arena.route_foreign_deallocations ≡ true
    → (o.self.managed h).arena.node_id ≡ pos h
    → h < o.self.count
    → h < 2 ^ 31
    → Returns (λ _ o'. Home os h o rest o') (deallocate os (managed i) g.ptr o)
deallocate-Home os laws pages page_fits i h o held g rest run p node routes node_h inside int =
    let a = home_arena h o in
    let s = Run-Sound os laws pages page_fits a held run in
    let mem = (Perm.mem_iff p).0 mem-cons_self in
    let ptr_held = mem-map_of_mem (λ (d : Grant). d.ptr) mem in
    let label = held-block a held s g.ptr ptr_held in
    let home : from_u32 (o.world.memory.block (from_user_ptr g.ptr)).node_id ≡ pos h =
      ap from_u32 (label.1 ∙ ap to_u32 node_h) ∙ from_u32-to_u32 (pos h) int in
    let (o1, e1) = Run-deallocate_here os laws pages page_fits a held run g mem in
    let (o2, e2) = Run-deallocate_foreign os laws pages page_fits a held run g mem in
    Routed-Home os h o rest (deallocate-Routed os i h g.ptr o node routes home).0
      (held-ne_null a held s g.ptr ptr_held) inside
      (in_arena-Home os h o rest (deallocate_here os g.ptr) o1 e1
        (deallocates a held g rest o1 run p e1))
      (in_arena-Home os h o rest (deallocate_foreign os g.ptr) o2 e2
        (deallocates_foreign a held g rest o2 run p e2))
