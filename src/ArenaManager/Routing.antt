-- ===== src/ArenaManager/Routing.antt =====
-- Which arena takes a block back.
use numa_pmr.Base.{
  ℕ, ◌≤◌, ◌<◌, ◌≡◌, ◌≢◌, refl, subst, arith, Bool, Bool-cases, true, false, inl, inr, pos, from_u32,
  leb, ◌==◌,
}
use numa_pmr.Machine.Word.{null}
use numa_pmr.Machine.Platform.{Platform}
use numa_pmr.Machine.Memory.{update_ne}
use numa_pmr.Machine.Monad.{out_of_range, Outcome, ok, throw, ◌>>=◌}
use numa_pmr.Machine.Object.{Object}
use numa_pmr.Block.{from_user_ptr}
use numa_pmr.Arena.{ArenaM, deallocate_here, deallocate_foreign}
use numa_pmr.ArenaManager.{Arenas, managed, in_arena, arena_for_node, deallocate}

-- Of all arenas at most the manager's arena of node `h` has changed.
pub record OnlyNode (h : ℕ) (p p' : Arenas) : Type 0 where
  pub others : (j : ℕ) → j ≢ h → p'.managed j ≡ p.managed j
  pub own : p'.own ≡ p.own
  pub count : p'.count ≡ p.count

unchanged : (h : ℕ) (p : Arenas) → OnlyNode h p p
unchanged h p = record { others = λ j ne. refl; own = refl; count = refl }

in_arena-OnlyNode :
    {A : Type 0} (h : ℕ) (action : ArenaM A) (o : Object Arenas)
    → OnlyNode h o.self (in_arena (managed h) action o).1.self
in_arena-OnlyNode h action o = record {
  others = λ j ne. update_ne o.self.managed h j _ ne;
  own = refl;
  count = refl;
}

-- Where a block of node `h` goes that the arena of node `i` is asked to free.
pub data Routed (os : Platform) (i h ptr : ℕ) (o : Object Arenas)
    : Outcome (Unit {0}) × Object Arenas → Type 0 where
  nothing : ptr ≡ null → Routed os i h ptr o (ok tt, o)
  here : ptr ≢ null → h ≡ i → Routed os i h ptr o (in_arena (managed h) (deallocate_here os ptr) o)
  away :
      ptr ≢ null
      → h ≢ i
      → h < o.self.count
      → Routed os i h ptr o (in_arena (managed h) (deallocate_foreign os ptr) o)
  no_such_node : ptr ≢ null → h ≢ i → o.self.count ≤ h → Routed os i h ptr o (throw out_of_range, o)

Routed-OnlyNode :
    {os : Platform} {i h ptr : ℕ} {o : Object Arenas} {r : Outcome (Unit {0}) × Object Arenas}
    → Routed os i h ptr o r
    → OnlyNode h o.self r.1.self
Routed-OnlyNode {h = h} {o = o} (nothing e) = unchanged h o.self
Routed-OnlyNode {os} {h = h} {ptr = ptr} {o = o} (here some e) =
    in_arena-OnlyNode h (deallocate_here os ptr) o
Routed-OnlyNode {os} {h = h} {ptr = ptr} {o = o} (away some ne lt) =
    in_arena-OnlyNode h (deallocate_foreign os ptr) o
Routed-OnlyNode {h = h} {o = o} (no_such_node some ne le) = unchanged h o.self

-- The call of the home arena, or the exception of `arena_for_node`.
home-Routed :
    (os : Platform) (i h ptr : ℕ) (o : Object Arenas)
    → ptr ≢ null
    → h ≢ i
    → Routed os i h ptr o
        ((do home ← arena_for_node (pos h); in_arena home (deallocate_foreign os ptr)) o)
unfolding arena_for_node
home-Routed os i h ptr o some ne = elim (Bool-cases (leb o.self.count h)) [
  | inl beyond ↦ rw beyond (no_such_node some ne (ground (arith, beyond)))
  | inr inside ↦ rw inside (away some ne (ground (arith, inside)))
]

module _ (os : Platform) (i h ptr : ℕ) (o : Object Arenas)
    (node : (o.self.managed i).arena.node_id ≡ pos i)
    (routes : (o.self.managed i).arena.route_foreign_deallocations ≡ true)
    (home : from_u32 (o.world.memory.block (from_user_ptr ptr)).node_id ≡ pos h) where
  routed :
      (none same : Bool)
      → (ptr == null) ≡ none
      → (h == i) ≡ same
      → Routed os i h ptr o (deallocate os (managed i) ptr o)
  unfolding deallocate
  routed true same e k = rw e (nothing (ground (arith, e)))
  routed false true e k =
      let same : h ≡ i = ground (arith, k) in
      rw (e, home, node, k)
        (subst (λ j. Routed os i h ptr o (in_arena (managed j) (deallocate_here os ptr) o)) same
          (here (ground (arith, e)) same))
  routed false false e k =
      rw (e, home, node, k, routes)
        (home-Routed os i h ptr o (ground (arith, e)) (ground (arith, k)))

  pub deallocate-Routed :
      Routed os i h ptr o (deallocate os (managed i) ptr o)
      × OnlyNode h o.self (deallocate os (managed i) ptr o).1.self
  deallocate-Routed = let r = routed (ptr == null) (h == i) refl refl in (r, Routed-OnlyNode r)
