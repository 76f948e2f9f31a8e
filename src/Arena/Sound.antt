-- ===== src/Arena/Sound.antt =====
-- Every state that the clients of an arena reach is sound.
use mathlib.Core.List.{mem-cons_self, mem-map_of_mem, Perm}
use mathlib.Core.List.Perm
use numa_pmr.Base.{ℕ, ◌≡◌, ◌≤◌, ◌+◌, ◌%◌, ◌^◌, subst, List, ◌∷◌}
use numa_pmr.Machine.Platform.{Platform, MmapLaws}
use numa_pmr.Machine.Monad.{Returns}
use numa_pmr.Machine.Object.{Object}
use numa_pmr.Config.Small.{slab_size}
use numa_pmr.Arena.{NumaArena, allocate, deallocate_here, deallocate_foreign, drain_foreign_bin}
use numa_pmr.Arena.Allocate.{allocate-Served}
use numa_pmr.Arena.Drain.{Emptied, drain_foreign_bin-Drained}
use numa_pmr.Arena.Deallocate.{deallocate_here-Emptied, deallocate_foreign-Emptied}
use numa_pmr.Arena.Client.{
  Grant, Run, starts, allocates, deallocates, deallocates_foreign, drains, others, Sound, Owned,
  owned,
}
use numa_pmr.Arena.Steps.{
  Ensures-ok, Returns-ok, allocates-Sound, drains-Sound, emptied-Sound, others-Sound, starts-Sound,
}

holder :
    (o : Object NumaArena) (held : List Grant) (g : Grant) (rest : List Grant) (s : Sound o held)
    → Perm (g ∷ rest) held
    → Owned s.stock g.ptr
holder o held g rest s p =
    owned o held s g.ptr (mem-map_of_mem (λ (d : Grant). d.ptr) ((Perm.mem_iff p).0 mem-cons_self))

module _ (os : Platform) (o : Object NumaArena) (held : List Grant) (s : Sound o held) (p : ℕ)
    (w : Owned s.stock p) where
  -- A block held is given back.
  pub given_here :
      Returns
        (λ _ o'. Emptied s.stock w.class w.rest o.world.memory o'.self o'.world.memory)
        (deallocate_here os p o)
  given_here =
      subst
        (λ q.
          Returns (λ _ o'. Emptied s.stock w.class w.rest o.world.memory o'.self o'.world.memory)
            (deallocate_here os q o))
        w.payload
        (deallocate_here-Emptied os s.stock w.class w.block w.rest o w.class_in s.valid w.parts)

  pub given_foreign :
      Returns
        (λ _ o'. Emptied s.stock w.class w.rest o.world.memory o'.self o'.world.memory)
        (deallocate_foreign os p o)
  given_foreign =
      subst
        (λ q.
          Returns (λ _ o'. Emptied s.stock w.class w.rest o.world.memory o'.self o'.world.memory)
            (deallocate_foreign os q o))
        w.payload
        (deallocate_foreign-Emptied os s.stock w.class w.block w.rest o w.class_in s.valid w.parts)

module _ (os : Platform) (laws : MmapLaws os) (pages : os.page_size % 16 ≡ 0)
    (page_fits : slab_size + os.page_size ≤ 2 ^ 64) where
  -- Where `mmap` keeps to POSIX and a page is a multiple of 16 bytes: in every state that clients
  -- reach the arena is well formed, the blocks that are out are exactly those that the clients
  -- hold, each once, and each is of a class that covers the size asked for.
  pub Run-Sound : (o : Object NumaArena) (held : List Grant) → Run os o held → Sound o held
  Run-Sound o held (starts node foreign sync route w) = starts-Sound node foreign sync route w
  Run-Sound o held (allocates o0 held0 size align p o' run small narrow next later e) =
      let s = Run-Sound o0 held0 run in
      allocates-Sound o0 held0 size p o' s (
        Ensures-ok _ _ (allocate os size align o0) p o' e (
          allocate-Served os laws pages page_fits s.stock o0 s.valid next later size align small
            narrow))
  Run-Sound o held (deallocates o0 held0 g rest o' run p e) =
      let s = Run-Sound o0 held0 run in
      let w = holder o0 held0 g rest s p in
      emptied-Sound o0 held0 g rest o' s w p
        (Returns-ok _ (deallocate_here os g.ptr o0) tt o' e (given_here os o0 held0 s g.ptr w))
  Run-Sound o held (deallocates_foreign o0 held0 g rest o' run p e) =
      let s = Run-Sound o0 held0 run in
      let w = holder o0 held0 g rest s p in
      emptied-Sound o0 held0 g rest o' s w p (
        Returns-ok _ (deallocate_foreign os g.ptr o0) tt o' e (given_foreign os o0 held0 s g.ptr w))
  Run-Sound o held (drains o0 held0 i o' run lt e) =
      let s = Run-Sound o0 held0 run in
      drains-Sound o0 held0 o' s (
        Returns-ok _ (drain_foreign_bin os i o0) tt o' e
          (drain_foreign_bin-Drained os s.stock i o0 lt s.valid))
  Run-Sound o held (others o0 held0 o' run u) = others-Sound o0 held0 o' (Run-Sound o0 held0 run) u
