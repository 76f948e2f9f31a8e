-- ===== src/Arena/Promises.antt =====
-- What an arena promises its client, over any sequence of calls.
use mathlib.Core.List.{Mem, mem-map_of_mem, mem-cons_self}
use mathlib.Core.List.Perm
use numa_pmr.Base.{
  ℕ, ◌≡◌, ◌≢◌, ◌<◌, ◌≤◌, ◌+◌, ◌%◌, ◌^◌, ◌⊎◌, inl, inr, refl, sym, ap, subst, ◌∙◌, arith, List, [],
  ◌∷◌, Bool, Bool-cases, if◌then◌else◌,
}
use numa_pmr.Machine.Word.{sizeof_block_header, sizeof_slab_header}
use numa_pmr.Machine.Platform.{Platform, MmapLaws}
use numa_pmr.Machine.Monad.{Returns, Outcome, ok, throw, pure, ◌>>◌}
use numa_pmr.Machine.Object.{Object}
use numa_pmr.Config.Small.{slab_size}
use numa_pmr.Block.{from_user_ptr, to_user_ptr}
use numa_pmr.Slab.Disjoint.{block_span}
use numa_pmr.SizeClassTable.{class_size_at, num_size_classes}
use numa_pmr.SmallObject.Pool.{class_size-small}
use numa_pmr.SmallObject.Disjoint.{used-Disjoint, place}
use numa_pmr.Arena.{NumaArena, ArenaM, deallocate_here, deallocate_foreign}
use numa_pmr.Arena.Untouched.{slabs_of}
use numa_pmr.Arena.Client.{
  Grant, Run, deallocates, deallocates_foreign, Sound, Owned, owned, owned-used,
}
use numa_pmr.Arena.Payload.{from_to}
use numa_pmr.Arena.Sound.{Run-Sound, given_here, given_foreign}

-- The block of a grant, with its class, which covers the grant.
record Backed (o : Object NumaArena) (held : List Grant) (s : Sound o held) (g : Grant)
    : Type 0 where
  by : Owned s.stock g.ptr
  covers : g.size ≤ class_size_at by.class

backed :
    (o : Object NumaArena) (held : List Grant) (s : Sound o held) (g : Grant)
    → Mem g held
    → Backed o held s g
backed o held s g i =
    let w = owned o held s g.ptr (mem-map_of_mem (λ (d : Grant). d.ptr) i) in
    let at : from_user_ptr g.ptr ≡ w.block = ap from_user_ptr (sym w.payload) ∙ from_to w.block in
    record {
      by = w;
      covers =
          subst (λ n. g.size ≤ n)
            (ap (λ x. (o.world.memory.block x).size_class) at
              ∙ (s.valid.labelled w.class w.block w.class_in (owned-used o held s g.ptr w)).0)
            (s.sizes g i);
    }

module _ (os : Platform) (laws : MmapLaws os) (pages : os.page_size % 16 ≡ 0)
    (page_fits : slab_size + os.page_size ≤ 2 ^ 64) (o : Object NumaArena) (held : List Grant)
    (run : Run os o held) where
  sound : Sound o held
  sound = Run-Sound os laws pages page_fits o held run

  -- Where `mmap` keeps to POSIX and a page is a multiple of 16 bytes: in every state that clients
  -- reach, two blocks that they hold do not overlap: one ends, with the size asked for, where the
  -- other's header begins or before.
  pub Run-Disjoint :
      (g h : Grant)
      → Mem g held
      → Mem h held
      → g.ptr ≢ h.ptr
      → (g.ptr + g.size + sizeof_block_header ≤ h.ptr)
        ⊎ (h.ptr + h.size + sizeof_block_header ≤ g.ptr)
  Run-Disjoint g h i j ne =
      let a = backed o held sound g i in
      let b = backed o held sound h j in
      let other : a.by.block ≢ b.by.block =
        λ e. ne (sym a.by.payload ∙ ap to_user_ptr e ∙ b.by.payload) in
      elim (used-Disjoint sound.stock.pool o.self.small o.world.memory a.by.class b.by.class
        a.by.block b.by.block sound.valid.small a.by.class_in b.by.class_in
        (owned-used o held sound g.ptr a.by) (owned-used o held sound h.ptr b.by) other) [
          | inl le ↦ inl (omega (arith, le, a.covers, a.by.payload, b.by.payload))
          | inr le ↦ inr (omega (arith, le, b.covers, a.by.payload, b.by.payload))
        ]

  -- Where `mmap` keeps to POSIX and a page is a multiple of 16 bytes: in every state that clients
  -- reach, a block that they hold is at a multiple of 16, and lies, with the size asked for,
  -- behind the headers and inside one of the arena's slabs.
  pub Run-Inside :
      (g : Grant)
      → Mem g held
      → (g.ptr % 16 ≡ 0)
        × (i : ℕ) × (i < num_size_classes)
        × (slab : ℕ) × Mem slab (slabs_of o.self.small i)
        × (slab + sizeof_slab_header + sizeof_block_header ≤ g.ptr)
        × (g.ptr + g.size ≤ slab + slab_size)
  Run-Inside g i =
      let a = backed o held sound g i in
      let n = class_size_at a.by.class in
      let class = sound.valid.small.each a.by.class a.by.class_in in
      let p =
        place n o.world.memory a.by.block (sound.stock.pool a.by.class) class.each
          (owned-used o held sound g.ptr a.by) in
      let (low, high, sixteen) =
        block_span p.slab n p.base (class_size-small a.by.class a.by.class_in) a.by.block p.block in
      (
        omega (arith, sixteen, a.by.payload),
        a.by.class,
        a.by.class_in,
        p.slab,
        subst (λ l. Mem p.slab l) (sym class.items) p.owned,
        omega (arith, low, a.by.payload),
        omega (arith, high, a.covers, a.by.payload),
      )

  returned :
      (r : Outcome (Unit {0}) × Object NumaArena) (P : Object NumaArena → Type 0)
      → Returns (λ _ o'. P o') r
      → (o' : Object NumaArena) × (r ≡ (ok tt, o'))
  returned (ok tt, o') P h = (o', refl)
  returned (throw e, o') P h = absurd h

  -- In every state that clients reach, `deallocate` of a block that they hold returns, by a thread of
  -- the node and by one of another node.
  pub Run-deallocate_here :
      (g : Grant)
      → Mem g held
      → (o' : Object NumaArena) × (deallocate_here os g.ptr o ≡ (ok tt, o'))
  Run-deallocate_here g i =
      returned (deallocate_here os g.ptr o) _
        (given_here os o held sound g.ptr (backed o held sound g i).by)

  pub Run-deallocate_foreign :
      (g : Grant)
      → Mem g held
      → (o' : Object NumaArena) × (deallocate_foreign os g.ptr o ≡ (ok tt, o'))
  Run-deallocate_foreign g i =
      returned (deallocate_foreign os g.ptr o) _
        (given_foreign os o held sound g.ptr (backed o held sound g i).by)

-- Each block of a list given back, by a thread of the node where `local` says so, and otherwise by
-- one of another node.
unfoldable pub give_back : Platform → (local : Grant → Bool) → List Grant → ArenaM (Unit {0})
give_back os local [] = pure tt
give_back os local (g ∷ held) =
    (if local g then deallocate_here os g.ptr else deallocate_foreign os g.ptr)
    >> give_back os local held

-- Where `mmap` keeps to POSIX and a page is a multiple of 16 bytes: from every state that clients
-- reach all that they hold can be given back, in the order of the list, each block by either kind
-- of thread: no call throws, and the state that this ends in is reached with nothing held.
pub Run-give_back :
    (os : Platform) (laws : MmapLaws os) (pages : os.page_size % 16 ≡ 0)
    (page_fits : slab_size + os.page_size ≤ 2 ^ 64) (local : Grant → Bool) (o : Object NumaArena)
    (held : List Grant)
    → Run os o held
    → Returns (λ _ o'. Run os o' []) (give_back os local held o)
unfolding give_back
Run-give_back os laws pages page_fits local o [] run = run
Run-give_back os laws pages page_fits local o (g ∷ held) run = elim (Bool-cases (local g)) [
  | inl e ↦
      let (o', returns) =
        Run-deallocate_here os laws pages page_fits o (g ∷ held) run g mem-cons_self in
      rw (e, returns)
        (Run-give_back os laws pages page_fits local o' held
          (deallocates o (g ∷ held) g held o' run (Perm.refl (g ∷ held)) returns))
  | inr e ↦
      let (o', returns) =
        Run-deallocate_foreign os laws pages page_fits o (g ∷ held) run g mem-cons_self in
      rw (e, returns)
        (Run-give_back os laws pages page_fits local o' held
          (deallocates_foreign o (g ∷ held) g held o' run (Perm.refl (g ∷ held)) returns))
]
