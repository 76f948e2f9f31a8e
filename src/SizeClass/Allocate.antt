-- ===== src/SizeClass/Allocate.antt =====
-- `allocate`: where no slab has a free block, a new slab joins the class.
use mathlib.Core.List.{Mem, mem-append_right, mem-cons_self}
use numa_pmr.Base.{
  ℕ, ◌+◌, ◌%◌, ◌^◌, ◌≤◌, ◌≡◌, refl, sym, ap, subst, arith, List, [], ◌∷◌, ◌++◌, length, All, true,
  some,
}
use numa_pmr.Machine.Platform.{Platform, MmapLaws}
use numa_pmr.Machine.Memory.{World}
use numa_pmr.Machine.Monad.{Ensures, Exception}
use numa_pmr.Machine.Object.{Object, object, outside, outside-bind}
use numa_pmr.Config.Small.{small_large_threshold, slab_size}
use numa_pmr.VirtualMemory.{align_up}
use numa_pmr.Slab.{create, has_free, allocate_block}
use numa_pmr.Slab.Layout.{capacity_bounds}
use numa_pmr.Slab.Blocks.{has_free_iff}
use numa_pmr.Slab.Frame.{Apart}
use numa_pmr.NodeLocal.{SlabVector, push_back}
use numa_pmr.NodeLocal.Keeps.{Appended, push_back-Appended}
use numa_pmr.SizeClass.{SizeClass, add_slab, allocate}
use numa_pmr.SizeClass.Contents.{append-All, Piece, IsPiece, IsClass}
use numa_pmr.SizeClass.Beside.{Frame}
use numa_pmr.SizeClass.Take.{Handed}
use numa_pmr.SizeClass.Existing.{Away, slab-Ready, allocate_or-Ensures}
use numa_pmr.SizeClass.Grown.{Made, create-Made, Handed-snoc, new_piece, grown-IsClass}

-- What is apart from the slabs of a class, and from the mapping that the class would get.
abbrev pub Clear : Platform → World → List Piece → ℕ → Type 0
Clear os w pieces t =
    Away pieces t
    × ((p : ℕ) → os.mmap_result w.trace (align_up slab_size os.page_size) ≡ some p → Apart p t)

module _ (os : Platform) (laws : MmapLaws os) (pages : os.page_size % 16 ≡ 0)
    (page_fits : slab_size + os.page_size ≤ 2 ^ 64) (pieces : List Piece) (o : Object SizeClass)
    (small : o.self.block_size ≤ small_large_threshold)
    (v : IsClass o.self.block_size pieces o.self o.world.memory)
    (apart : (p : ℕ)
      → os.mmap_result o.world.trace (align_up slab_size os.page_size) ≡ some p
      → All (λ s. Apart p s.slab) pieces) where
  -- A block handed out, and what stays when `allocate` throws.
  abbrev Allocated : ℕ → Object SizeClass → Type 0
  Allocated p o' =
      Handed o.self.block_size pieces (Clear os o.world pieces) o.world.memory p o'.self
        o'.world.memory

  abbrev Failed : Exception → Object SizeClass → Type 0
  Failed e o' =
      (o'.self.slabs ≡ o.self.slabs)
      × All (IsPiece o.self.block_size o'.world.memory) pieces
      × Frame (Clear os o.world pieces) o.world.memory o'.world.memory

  some_block :
      (p : ℕ) (w : World)
      → IsPiece o.self.block_size w.memory (new_piece o.self.block_size p)
      → has_free p w.memory ≡ true
  some_block p w h = (has_free_iff h.0 small _ [] h.1).1 (λ e.
      absurd
        (omega (arith, h.1.total, ap length e, (capacity_bounds p o.self.block_size h.0 small).1)))

  -- The first block of the new slab.
  last_step :
      (p : ℕ) (w : World) (slabs : SlabVector)
      → Made os laws pages page_fits small o.self.node_id o.world pieces v.each apart p w.memory
      → slabs.items ≡ o.self.slabs.items ++ p ∷ []
      → Ensures Allocated Failed
          (outside (allocate_block p) (object (record (o.self) { current = p; slabs = slabs }) w))
  last_step p w slabs made app =
      let n = o.self.block_size in
      let new = new_piece n p in
      let c = record (o.self) { current = p; slabs = slabs } in
      let class =
        grown-IsClass n p pieces o.self o.self.slabs.items slabs w.memory refl
          (made.base, made.slab, tt) made.kept v.apart made.away v.items app in
      let i =
        subst (λ l. Mem p l) (class.items)
          (subst (λ l. Mem p l) (sym app) (mem-append_right o.self.slabs.items mem-cons_self)) in
      let r =
        slab-Ready small p (pieces ++ new ∷ []) c w (Clear os o.world pieces)
          (λ t b. append-All (λ s. Apart s.slab t) pieces (new ∷ []) b.0 (b.1 p made.mapped, tt))
          class i (some_block p w (made.base, made.slab, tt)) in
      rw r.run (
        Handed-snoc (Clear os o.world pieces) new pieces refl (λ a b. b.1 p made.mapped) made.frame
          made.headers r.handed)

  pub add_slab-Allocated : Ensures Allocated Failed (add_slab os o)
  unfolding add_slab
  add_slab-Allocated =
      let n = o.self.block_size in
      outside-bind
        (λ p w.
          Made os laws pages page_fits small o.self.node_id o.world pieces v.each apart p w.memory)
        (λ e w'. w'.memory ≡ o.world.memory) Allocated Failed o (create os n o.self.node_id o.world)
        _ (create-Made os laws pages page_fits small o.self.node_id o.world pieces v.each apart)
        (λ p w made.
          outside-bind (Appended os o.self.node_id p o.self.slabs w.memory)
            (λ e w'. w'.memory ≡ w.memory) Allocated Failed
            (object (record (o.self) { current = p }) w)
            (push_back os o.self.node_id p o.self.slabs w) _
            (push_back-Appended os o.self.node_id p o.self.slabs w)
            (λ slabs w' a. last_step p w' slabs (rw a.1 made) a.0)
            (λ e w' same. (
              refl,
              rw same made.kept,
              rw same (λ k t fits b v'. made.frame k t fits (b.1 p made.mapped) v'),
            )))
        (λ e w same. (refl, rw same v.each, rw same (λ k t fits b v'. v')))

  -- On a class whose slabs are well formed, where a fresh mapping overlaps none of them, `allocate`
  -- hands out a block that was free, of a slab of the class or of a new one, and the class stays
  -- well formed; no other block's header changes. When it throws, the vector of slabs is as before,
  -- and the slabs stay well formed. In both cases so does every slab that is apart from those of the
  -- class and from the mapping.
  pub allocate-Handed : Ensures Allocated Failed (allocate os o)
  unfolding allocate
  allocate-Handed =
      allocate_or-Ensures small os Allocated Failed pieces o v (Clear os o.world pieces)
        (λ t b. b.0) (λ p o' h. h) (add_slab os) (λ full. add_slab-Allocated)
