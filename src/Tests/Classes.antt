-- ===== src/Tests/Classes.antt =====
-- Two empty slabs of one size class on the test machine.
use mathlib.Core.List.{Mem, eq-or-mem_of_mem-cons, not-mem-nil, Nodup, Nodup-cons, Nodup-nil}
use mathlib.Core.HLevel.{⊥_prop}
use mathlib.Core.Logic.Or
use numa_pmr.SizeClass.Batch.{free_each, deallocate_batch-free_each}
use numa_pmr.Base.{
  false, if◌then◌else◌, ◌∙◌, sym, ℕ, ◌+◌, ◌^◌, ◌≡◌, ◌≢◌, refl, arith, true, pos, List, [], ◌∷◌, All,
}
use numa_pmr.Machine.Memory.{World, write_block}
use numa_pmr.Machine.Word.{null}
use numa_pmr.Machine.Monad.{pure, Returns, ◌>>=◌}
use numa_pmr.Machine.Object.{object}
use numa_pmr.SizeClass.{SizeClass, release_extra_empty_slabs, deallocate, deallocate_batch}
use numa_pmr.SizeClass.Keep.{Released, release_extra_empty_slabs-Released}
use numa_pmr.Tests.World.{machine, blank, start}

abbrev two_slabs : SizeClass
two_slabs = record {
  block_size = 64;
  node_id = pos 0;
  sync = true;
  current = 2 ^ 20;
  slabs = record { items = 2 ^ 20 ∷ 2 ^ 21 ∷ []; storage = 2 ^ 22; capacity = 2 };
}

Mem-All : (l : List ℕ) → All (λ s. s ≢ null) l → (s : ℕ) → Mem s l → s ≢ null
Mem-All [] h s m e = absurd (not-mem-nil m)
Mem-All (x ∷ l) h s m e =
    Or.elim ⊥_prop (eq-or-mem_of_mem-cons m) (λ same. h.0 (sym same ∙ e)) (λ n. Mem-All l h.1 s n e)

two_slabs-mapped : (s : ℕ) → Mem s two_slabs.slabs.items → s ≢ null
two_slabs-mapped = Mem-All two_slabs.slabs.items (omega arith, (omega arith, tt))

-- The second of the two is given back.
keeps_first :
    (release_extra_empty_slabs machine (object two_slabs start)).1.self.slabs.items ≡ 2 ^ 20 ∷ []
unfolding release_extra_empty_slabs numa_pmr.SizeClass.release_loop numa_pmr.SizeClass.drop_slab
    numa_pmr.SizeClass.choose_current numa_pmr.SizeClass.swap_remove numa_pmr.SizeClass.set_item
    numa_pmr.SizeClass.drop_last numa_pmr.SizeClass.last_or numa_pmr.SizeClass.member
    numa_pmr.Slab.is_empty numa_pmr.VirtualMemory.release
keeps_first = refl

release_extra_empty_slabs-Released_example :
    Returns
      (λ _ o'. Released machine (object two_slabs start) o')
      (release_extra_empty_slabs machine (object two_slabs start))
release_extra_empty_slabs-Released_example =
    release_extra_empty_slabs-Released machine (object two_slabs start) two_slabs-mapped

-- A world where the block at 2^20 + 32 belongs to the first slab.
abbrev one_block : World
one_block = record start {
  memory =
      write_block (2 ^ 20 + 32)
        (record { node_id = 0; size_class = 64; size = 64; raw_ptr = 2 ^ 20; total_size = 2 ^ 16 })
        blank;
}

once : Nodup ((2 ^ 20 + 32) ∷ [])
once = Nodup-cons.1 (not-mem-nil, Nodup-nil)

deallocate_batch-free_each_example :
    deallocate_batch machine 2 (2 ^ 20 + 32) (object two_slabs one_block)
    ≡ (do
      saw ← free_each ((2 ^ 20 + 32) ∷ []) false
      if saw then release_extra_empty_slabs machine else pure tt)
        (object two_slabs one_block)
deallocate_batch-free_each_example =
    deallocate_batch-free_each machine 2 (2 ^ 20 + 32) ((2 ^ 20 + 32) ∷ [])
      (object two_slabs one_block) (omega arith) (refl, omega arith, refl) once (omega arith, tt)
