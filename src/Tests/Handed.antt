-- ===== src/Tests/Handed.antt =====
-- A size class with one slab of 4096-byte blocks, all free.
use mathlib.Core.List.{Mem, append-nil, mem-cons_self}
use numa_pmr.Base.{
  sym, subst, ℕ, ◌^◌, ◌≡◌, ◌⊎◌, inl, inr, refl, arith, true, pos, some, List, [], ◌∷◌, All,
}
use numa_pmr.Machine.Word.{null}
use numa_pmr.Machine.Platform.{mmap}
use numa_pmr.Machine.Monad.{Returns, Ensures}
use numa_pmr.Machine.Object.{Object, object}
use numa_pmr.Config.Small.{slab_size}
use numa_pmr.VirtualMemory.{align_up}
use numa_pmr.Machine.Memory.{Memory}
use numa_pmr.Slab.{init, pop_block}
use numa_pmr.Slab.Blocks.{pop_block-IsSlab, pop_block_header}
use numa_pmr.Slab.Layout.{IsBase, block_at}
use numa_pmr.Slab.FreeList.{IsSlab, blocks, init-IsSlab}
use numa_pmr.Slab.Frame.{Apart}
use numa_pmr.SizeClass.{SizeClass, allocate, deallocate, allocate_existing}
use numa_pmr.SizeClass.Contents.{Piece, IsPiece, IsClass, in_use}
use numa_pmr.SizeClass.Beside.{Frame}
use numa_pmr.SizeClass.Take.{Handed}
use numa_pmr.SizeClass.Existing.{Away, AllFull, allocate_existing-Handed}
use numa_pmr.SizeClass.Grown.{new_piece}
use numa_pmr.SizeClass.Allocate.{Clear, allocate-Handed}
use numa_pmr.SizeClass.Given.{deallocate-Given}
use numa_pmr.SizeClass.Back.{Given}
use numa_pmr.Tests.Blocks.{capacity_of_4096}
use numa_pmr.Tests.World.{machine, machine-MmapLaws, blank}

abbrev slab : ℕ
slab = 2 ^ 20

slab-IsBase : IsBase slab
slab-IsBase = record { ne_null = omega arith; aligned = omega arith; in_space = omega arith }

abbrev one_slab_class : Object SizeClass
one_slab_class =
    object
      (record {
        block_size = 4096;
        node_id = pos 0;
        sync = true;
        current = null;
        slabs = record { items = slab ∷ []; storage = 2 ^ 22; capacity = 1 };
      })
      (record { memory = init slab 4096 (pos 0) blank; trace = mmap slab_size slab ∷ [] })

abbrev pieces : List Piece
pieces = new_piece 4096 slab ∷ []

one_slab-IsClass : IsClass 4096 pieces one_slab_class.self one_slab_class.world.memory
one_slab-IsClass = record {
  size = refl;
  items = refl;
  each = ((slab-IsBase, init-IsSlab slab 4096 slab-IsBase (omega arith) (pos 0) blank, tt), tt);
  apart = (tt, tt);
  current = inl refl;
}

allocate_existing-Handed_example :
    Returns
      (λ p o'.
        Handed 4096 pieces (Away pieces) one_slab_class.world.memory p o'.self o'.world.memory
        ⊎ ((p ≡ null) × AllFull pieces × (o' ≡ one_slab_class)))
      (allocate_existing machine one_slab_class)
allocate_existing-Handed_example =
    allocate_existing-Handed (omega arith) machine pieces one_slab_class one_slab-IsClass

-- The next mapping is the next megabyte.
next-Apart :
    (p : ℕ)
    → machine.mmap_result one_slab_class.world.trace (align_up slab_size machine.page_size) ≡ some p
    → All (λ s. Apart p s.slab) pieces
unfolding align_up
next-Apart p e = (let at : 2 ^ 21 ≡ p = ground (arith, e) in inr (omega (arith, at)), tt)

allocate-Handed_example :
    Ensures
      (λ p o'.
        Handed 4096 pieces
          (Clear machine one_slab_class.world pieces)
          one_slab_class.world.memory
          p
          o'.self
          o'.world.memory)
      (λ e o'.
        (o'.self.slabs ≡ one_slab_class.self.slabs)
        × All (IsPiece 4096 o'.world.memory) pieces
        × Frame
            (Clear machine one_slab_class.world pieces)
            one_slab_class.world.memory
            o'.world.memory)
      (allocate machine one_slab_class)
allocate-Handed_example =
    allocate-Handed machine machine-MmapLaws refl (omega arith) pieces one_slab_class (omega arith)
      one_slab-IsClass next-Apart

-- The same class with its highest block in use.
abbrev top : ℕ
top = block_at slab 4096 14

abbrev in_slab : Memory
in_slab = init slab 4096 (pos 0) blank

fresh_slab : IsSlab slab 4096 (top ∷ blocks slab 4096 14) [] in_slab
unfolding blocks
fresh_slab = rw capacity_of_4096 at (init-IsSlab slab 4096 slab-IsBase (omega arith) (pos 0) blank)

abbrev one_used : Object SizeClass
one_used =
    object one_slab_class.self
      (record (one_slab_class.world) { memory = pop_block slab top in_slab })

abbrev used_piece : Piece
used_piece = record { slab = slab; free = blocks slab 4096 14; used = top ∷ [] }

one_used-IsClass : IsClass 4096 (used_piece ∷ []) one_used.self one_used.world.memory
one_used-IsClass = record {
  size = refl;
  items = refl;
  each = (
    (
      slab-IsBase,
      pop_block-IsSlab slab-IsBase (omega arith) fresh_slab,
      ((pop_block_header slab top in_slab).0, tt),
    ),
    tt,
  );
  apart = (tt, tt);
  current = inl refl;
}

deallocate-Given_example :
    Returns
      (λ _ o'. Given 4096 top (used_piece ∷ []) one_used.world.memory o')
      (deallocate machine top one_used)
unfolding in_use
deallocate-Given_example =
    deallocate-Given (omega arith) machine (used_piece ∷ []) top one_used one_used-IsClass
      (subst (λ l. Mem top l) (sym (append-nil (top ∷ []))) mem-cons_self)
