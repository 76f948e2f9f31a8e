-- ===== src/Arena/Client.antt =====
-- Clients of an arena: any sequence of their calls for small blocks, with other code in between.
use mathlib.Core.List.{Mem, Nodup, mem-cons_self, Perm}
use mathlib.Core.List.Perm
use numa_pmr.Base.{ℕ, ℤ, Bool, ◌≡◌, ◌<◌, ◌≤◌, List, [], ◌∷◌, map}
use numa_pmr.Machine.Platform.{Platform}
use numa_pmr.Machine.Word.{alignment}
use numa_pmr.Machine.Memory.{World}
use numa_pmr.Machine.Monad.{ok}
use numa_pmr.Machine.Object.{Object, object}
use numa_pmr.Block.{to_user_ptr, from_user_ptr}
use numa_pmr.Config.Small.{small_large_threshold}
use numa_pmr.SizeClassTable.{num_size_classes}
use numa_pmr.SizeClass.Contents.{in_use}
use numa_pmr.SizeClass.Used.{rest_of}
use numa_pmr.SmallObject.Joined.{class_of}
use numa_pmr.Arena.{
  NumaArena, new_arena, allocate, deallocate_here, deallocate_foreign, drain_foreign_bin,
}
use numa_pmr.Arena.Payload.{to_from, from_Mem}
use numa_pmr.Arena.Pool.{Stock, IsArena, out_blocks, out-used}
use numa_pmr.Arena.Retry.{NextApart}
use numa_pmr.Arena.Untouched.{Untouched}

-- A block that the client holds: the pointer it got, and the size it asked for.
pub record Grant : Type 0 where
  pub ptr : ℕ
  pub size : ℕ

abbrev pub ptrs : List Grant → List ℕ
ptrs held = map (λ g. g.ptr) held

module _ (os : Platform) where
  -- A new arena, then calls that return: `allocate` of small sizes; `deallocate` of blocks held, by
  -- a thread of the node or by one of another node, whose blocks may wait in the foreign bins; drains
  -- of these bins; and in between whatever leaves the arena and its slabs alone but for the payloads held. The
  -- states reached, with the blocks that the clients hold in each.
  pub data Run : Object NumaArena → List Grant → Type 0 where
    starts :
        (node : ℤ) (foreign sync route : Bool) (w : World)
        → Run (object (new_arena node foreign sync route) w) []
    allocates :
        (o : Object NumaArena) (held : List Grant) (size align p : ℕ) (o' : Object NumaArena)
        → Run o held
        → size ≤ small_large_threshold
        → align ≤ alignment
        → NextApart os o
        → ((i : ℕ) (o1 : Object NumaArena)
            → drain_foreign_bin os i o ≡ (ok tt, o1)
            → NextApart os o1)
        → allocate os size align o ≡ (ok p, o')
        → Run o' (record { ptr = p; size = size } ∷ held)
    deallocates :
        (o : Object NumaArena) (held : List Grant) (g : Grant) (rest : List Grant)
        (o' : Object NumaArena)
        → Run o held
        → Perm (g ∷ rest) held
        → deallocate_here os g.ptr o ≡ (ok tt, o')
        → Run o' rest
    deallocates_foreign :
        (o : Object NumaArena) (held : List Grant) (g : Grant) (rest : List Grant)
        (o' : Object NumaArena)
        → Run o held
        → Perm (g ∷ rest) held
        → deallocate_foreign os g.ptr o ≡ (ok tt, o')
        → Run o' rest
    drains :
        (o : Object NumaArena) (held : List Grant) (i : ℕ) (o' : Object NumaArena)
        → Run o held
        → i < num_size_classes
        → drain_foreign_bin os i o ≡ (ok tt, o')
        → Run o' held
    others :
        (o : Object NumaArena) (held : List Grant) (o' : Object NumaArena)
        → Run o held
        → Untouched (ptrs held) o o'
        → Run o' held

-- The arena is well formed, the blocks that are out are those held, each once, and the class of each
-- covers the size that was asked for.
pub record Sound (o : Object NumaArena) (held : List Grant) : Type 0 where
  pub stock : Stock
  pub valid : IsArena stock o.self o.world.memory
  pub same : Perm (ptrs held) (map to_user_ptr (out_blocks stock))
  pub once : Nodup (ptrs held)
  pub sizes :
      (g : Grant) → Mem g held → g.size ≤ (o.world.memory.block (from_user_ptr g.ptr)).size_class

-- The block of a pointer that a client holds, its class, and the other blocks of that class.
pub record Owned (k : Stock) (p : ℕ) : Type 0 where
  pub block : ℕ
  pub payload : to_user_ptr block ≡ p
  pub class : ℕ
  pub class_in : class < num_size_classes
  pub rest : List ℕ
  pub parts : Perm (block ∷ rest) (k.out class)

pub owned :
    (o : Object NumaArena) (held : List Grant) (s : Sound o held) (p : ℕ)
    → Mem p (ptrs held)
    → Owned s.stock p
owned o held s p i =
    let here = (Perm.mem_iff s.same).0 i in
    let (class, lt, out) =
      class_of num_size_classes (from_user_ptr p) s.stock.out
        (from_Mem p (out_blocks s.stock) here) in
    let (rest, parts) = rest_of (from_user_ptr p) (s.stock.out class) out in
    record {
      block = from_user_ptr p;
      payload = to_from p (out_blocks s.stock) here;
      class = class;
      class_in = lt;
      rest = rest;
      parts = parts;
    }

-- The block of a grant is in use.
pub owned-used :
    (o : Object NumaArena) (held : List Grant) (s : Sound o held) (p : ℕ) (w : Owned s.stock p)
    → Mem w.block (in_use (s.stock.pool w.class))
owned-used o held s p w =
    out-used s.stock o.self o.world.memory s.valid w.class w.block w.class_in
      ((Perm.mem_iff w.parts).0 mem-cons_self)
