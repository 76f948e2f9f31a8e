-- ===== src/SizeClass/Given.antt =====
-- `deallocate` on a class whose slabs are well formed: one block fewer is in use.
use mathlib.Core.List.{Mem, mem-cons_self}
use mathlib.Core.List.Perm
use numa_pmr.Base.{ℕ, ◌≤◌, ◌≡◌, ◌≢◌, sym, subst, arith, List, ◌∷◌, ◌++◌, All}
use numa_pmr.Machine.Word.{null}
use numa_pmr.Machine.Platform.{Platform}
use numa_pmr.Machine.Memory.{with_memory}
use numa_pmr.Machine.Monad.{Returns}
use numa_pmr.Machine.Object.{Object, object}
use numa_pmr.Config.Small.{small_large_threshold}
use numa_pmr.Slab.{return_block}
use numa_pmr.Slab.Layout.{IsBase}
use numa_pmr.SizeClass.{SizeClass, deallocate}
use numa_pmr.SizeClass.Contents.{Piece, IsPiece, IsClass, in_use, All-append}
use numa_pmr.SizeClass.Used.{All-Mem, used_at}
use numa_pmr.SizeClass.Pieces.{find, find-slab, find-All}
use numa_pmr.SizeClass.Back.{Given, split-Given, split_back, split_owner}

-- No slab of the class is null.
pub mapped_slabs :
    {n : ℕ} (pieces : List Piece) (o : Object SizeClass)
    → IsClass n pieces o.self o.world.memory
    → (a : ℕ) → Mem a o.self.slabs.items
    → a ≢ null
mapped_slabs {n} pieces o v a i e =
    let base : IsBase (find pieces a).slab =
      (find-All (IsPiece n o.world.memory) pieces a v.each (subst (λ l. Mem a l) v.items i)).0 in
    absurd (omega (arith, base.ne_null, find-slab pieces a, e))

-- The header of a block in use names a slab.
pub owner_of :
    {n : ℕ} (pieces : List Piece) (x : ℕ) (o : Object SizeClass)
    → IsClass n pieces o.self o.world.memory
    → Mem x (in_use pieces)
    → (o.world.memory.block x).raw_ptr ≢ null
owner_of {n} pieces x o v i e =
    let at = used_at x pieces i in
    let piece =
      (All-append (IsPiece n o.world.memory) at.pre (at.here ∷ at.post)
        (subst (λ l. All (IsPiece n o.world.memory) l) at.whole v.each)).1.0 in
    let owner =
      All-Mem (λ y. (o.world.memory.block y).raw_ptr ≡ at.here.slab) at.here.used x piece.2
        ((Perm.mem_iff at.in_slab).0 mem-cons_self) in
    absurd (omega (arith, piece.0.ne_null, owner, e))

-- A block in use put back on its slab, without the release of empty slabs.
pub return_block-Given :
    {n : ℕ} (small : n ≤ small_large_threshold) (pieces : List Piece) (x : ℕ) (o : Object SizeClass)
    → IsClass n pieces o.self o.world.memory
    → Mem x (in_use pieces)
    → Given n x pieces o.world.memory
        (object o.self (with_memory (return_block (o.world.memory.block x).raw_ptr x) o.world))
return_block-Given {n} small pieces x o v i =
    let at = used_at x pieces i in
    let v' = subst (λ l. IsClass n l o.self o.world.memory) at.whole v in
    subst
      (λ l.
        Given n x l o.world.memory
          (object o.self (with_memory (return_block (o.world.memory.block x).raw_ptr x) o.world)))
      (sym at.whole)
      (subst
        (λ a.
          Given n x (at.pre ++ at.here ∷ at.post) o.world.memory
            (object o.self (with_memory (return_block a x) o.world)))
        (sym (split_owner small at.pre at.post at.here x at.rest o v' at.in_slab))
        (split_back small at.pre at.post at.here x at.rest o v' at.in_slab))

-- On a class whose slabs are well formed, `deallocate` of a block in use returns and takes this block
-- and no other out of use; the class stays well formed, also when empty slabs are given back. No
-- block header changes, nor does any slab apart from those of the class, nor a link but the block's.
pub deallocate-Given :
    {n : ℕ} (small : n ≤ small_large_threshold) (os : Platform) (pieces : List Piece) (x : ℕ)
    (o : Object SizeClass)
    → IsClass n pieces o.self o.world.memory
    → Mem x (in_use pieces)
    → Returns (λ _ o'. Given n x pieces o.world.memory o') (deallocate os x o)
deallocate-Given {n} small os pieces x o v i =
    let at = used_at x pieces i in
    subst (λ l. Returns (λ _ o'. Given n x l o.world.memory o') (deallocate os x o)) (sym at.whole)
      (split-Given small at.pre at.post at.here x at.rest o
        (subst (λ l. IsClass n l o.self o.world.memory) at.whole v) at.in_slab os
        (mapped_slabs pieces o v))
