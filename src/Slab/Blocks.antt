-- ===== src/Slab/Blocks.antt =====
-- `allocate_block` and `free_block` move one block between the free list and the blocks in use.
use mathlib.Core.List.{
  mem-cons_self, Nodup, mem-append_right, Mem, Perm, perm_middle, Nodup-cons, mem-append_left,
}
use mathlib.Core.List.Perm
use numa_pmr.Base.{
  sym, subst, ◌∙◌, ap, lt→ltb, tests, ==_iff, ℕ, ◌+◌, ◌^◌, ◌≤◌, ◌<◌, ◌≡◌, ◌≢◌, ◌↔◌, refl, arith,
  ◌==◌, List, [], ◌∷◌, ◌++◌, length, true, false,
}
use numa_pmr.Machine.Word.{null}
use numa_pmr.Machine.Memory.{SlabHeader, write_block, Memory, World, update_self}
use numa_pmr.Machine.Monad.{ok, Returns-seq, ◌>>=◌, Returns}
use numa_pmr.Config.Small.{slab_size, small_large_threshold}
use numa_pmr.Slab.{
  capacity_for, pop_block, allocate_block, return_block, free_block, has_free, is_empty,
}
use numa_pmr.Slab.Layout.{IsBase, capacity_bounds}
use numa_pmr.Slab.Chain.{IsChain, IsChain-cast, IsChain-push}
use numa_pmr.Slab.FreeList.{blocks_pos, IsSlab, blocks, blocks-Nodup}

-- The parts of the invariant, over the header written.
from_header :
    {slab n : ℕ} {free used : List ℕ} {m : Memory} (h : SlabHeader)
    → m.slab slab ≡ h
    → IsChain m.link h.free_list free
    → h.free_count ≡ length free
    → h.capacity ≡ capacity_for slab n
    → length free + length used ≡ capacity_for slab n
    → Perm (free ++ used) (blocks slab n (capacity_for slab n))
    → IsSlab slab n free used m
from_header {free} {m} h e chain count capacity total all = record {
  chain = IsChain-cast {f = m.link} free refl (ap (λ x. x.free_list) e) chain;
  free_count = ap (λ x. x.free_count) e ∙ count;
  capacity = ap (λ x. x.capacity) e ∙ capacity;
  total = total;
  all_blocks = all;
}

capacity_small :
    {slab n : ℕ} → IsBase slab → n ≤ small_large_threshold → capacity_for slab n < 2 ^ 32
capacity_small {slab} {n} b small = (capacity_bounds slab n b small).2

module _ {slab n : ℕ} (b : IsBase slab) (small : n ≤ small_large_threshold) {m : Memory} where
  -- A slab has a free block, by its counter, exactly when its free list is not empty.
  pub has_free_iff :
      (free used : List ℕ) → IsSlab slab n free used m → (has_free slab m ≡ true) ↔ (free ≢ [])
  unfolding has_free
  has_free_iff [] used v = ((λ h e. absurd (omega (tests, v.free_count))), λ ne. absurd (ne refl))
  has_free_iff (x ∷ free) used v = ((λ _ e. cc), λ _. lt→ltb _ _ (omega (arith, v.free_count)))

  -- A slab counts as empty exactly when none of its blocks is in use.
  pub is_empty_iff :
      (free used : List ℕ) → IsSlab slab n free used m → (is_empty slab m ≡ true) ↔ (used ≡ [])
  unfolding is_empty
  is_empty_iff free [] v =
      ((λ _. refl), λ _. (==_iff _ _).1 (omega (arith, v.free_count, v.capacity, v.total)))
  is_empty_iff free (x ∷ used) v =
      ((λ h. absurd (omega (arith, (==_iff _ _).0 h, v.free_count, v.capacity, v.total))), λ e. cc)

  module _ {x : ℕ} {free used : List ℕ} where
    pub pop_block-IsSlab :
        IsSlab slab n (x ∷ free) used m → IsSlab slab n free (x ∷ used) (pop_block slab x m)
    unfolding pop_block
    pop_block-IsSlab v =
        let marked =
          write_block x (record (m.block x) { raw_ptr = slab; total_size = slab_size }) m in
        from_header _ (update_self marked.slab slab _) v.chain.2
          (omega (arith, v.free_count, v.total, capacity_small b small)) v.capacity
          (omega (arith, v.total)) (Perm.trans (perm_middle free used) v.all_blocks)

    fresh : IsSlab slab n free (x ∷ used) m → ¬ Mem x free
    fresh v i = (Nodup-cons.0 distinct).0 (mem-append_left used i)
      where
        distinct : Nodup (x ∷ (free ++ used))
        distinct =
            Perm.nodup (Perm.trans (Perm.symm v.all_blocks) (perm_middle free used))
              (blocks-Nodup slab n b small (capacity_for slab n))

    ne_null : IsSlab slab n free (x ∷ used) m → x ≢ null
    ne_null v e = absurd (omega (arith, blocks_pos slab n b small (capacity_for slab n) x member))
      where
        member : Mem x (blocks slab n (capacity_for slab n))
        member = (Perm.mem_iff v.all_blocks).0 (mem-append_right free mem-cons_self)

    -- `free_block` of a block in use puts it at the front of the free list and keeps the invariant.
    pub return_block-IsSlab :
        IsSlab slab n free (x ∷ used) m → IsSlab slab n (x ∷ free) used (return_block slab x m)
    unfolding return_block
    return_block-IsSlab v =
        from_header _ (update_self m.slab slab _)
          (IsChain-push m.link (m.slab slab).free_list free x (ne_null v) (fresh v) v.chain)
          (omega (arith, v.free_count, v.total, capacity_small b small)) v.capacity
          (omega (arith, v.total)) (Perm.trans (Perm.symm (perm_middle free used)) v.all_blocks)

-- What `allocate_block` returns of a slab with free blocks: the first of the list, marked with its
-- slab, and now in use. With no free block it returns null and changes nothing.
abbrev pub Popped : (slab n : ℕ) → (free used : List ℕ) → World → ℕ → World → Type 0
Popped slab n [] used w p w' = (p ≡ null) × (w' ≡ w)
Popped slab n (x ∷ free) used w p w' =
    (p ≡ x)
    × IsSlab slab n free (x ∷ used) w'.memory
    × ((w'.memory.block x).raw_ptr ≡ slab)
    × ((w'.memory.block x).total_size ≡ slab_size)
    × (w'.memory.link ≡ w.memory.link)
    × (w'.trace ≡ w.trace)

pub pop_block_header :
    (slab x : ℕ) (m : Memory)
    → (((pop_block slab x m).block x).raw_ptr ≡ slab)
      × (((pop_block slab x m).block x).total_size ≡ slab_size)
unfolding pop_block
pop_block_header slab x m =
    let e = update_self m.block x (record (m.block x) { raw_ptr = slab; total_size = slab_size }) in
    (ap (λ h. h.raw_ptr) e, ap (λ h. h.total_size) e)

pop_block-link : (slab x : ℕ) (m : Memory) → (pop_block slab x m).link ≡ m.link
unfolding pop_block
pop_block-link slab x m = refl

-- `allocate_block` on a slab with a free block, as an equation.
pub allocate_block_lem :
    {slab n x : ℕ} {free used : List ℕ} (w : World)
    → IsSlab slab n (x ∷ free) used w.memory
    → allocate_block slab w ≡ (ok x, record w { memory = pop_block slab x w.memory })
unfolding allocate_block
allocate_block_lem {slab} {x = x} w v =
    let test : ((w.memory.slab slab).free_list == null) ≡ false =
      ground (arith, v.chain.0, v.chain.1) in
    rw (test, v.chain.0) refl

-- `allocate_block` on every slab: a free block if there is one, null otherwise.
pub allocate_block-Popped :
    (slab n : ℕ) (free used : List ℕ) (w : World)
    → IsBase slab
    → n ≤ small_large_threshold
    → IsSlab slab n free used w.memory
    → Returns (Popped slab n free used w) (allocate_block slab w)
unfolding allocate_block
allocate_block-Popped slab n [] used w b small v = rw v.chain (refl, refl)
allocate_block-Popped slab n (x ∷ free) used w b small v =
    let test : ((w.memory.slab slab).free_list == null) ≡ false =
      ground (arith, v.chain.0, v.chain.1) in
    let (mark, size) = pop_block_header slab x w.memory in
    rw test (
      subst
        (λ p. Popped slab n (x ∷ free) used w p (record w { memory = pop_block slab p w.memory }))
        (sym v.chain.0)
        (refl, pop_block-IsSlab b small v, mark, size, pop_block-link slab x w.memory, refl))

-- A block that `allocate_block` took and `free_block` returns is again the first of the free list:
-- the slab is as before.
pub free_block-allocate_block :
    (slab n x : ℕ) (free used : List ℕ) (w : World)
    → IsBase slab
    → n ≤ small_large_threshold
    → IsSlab slab n (x ∷ free) used w.memory
    → Returns
        (λ _ w'. IsSlab slab n (x ∷ free) used w'.memory)
        ((do p ← allocate_block slab; free_block slab p) w)
unfolding free_block
free_block-allocate_block slab n x free used w b small v =
    Returns-seq (Popped slab n (x ∷ free) used w) _ (allocate_block slab w) _
      (allocate_block-Popped slab n (x ∷ free) used w b small v)
      λ p w' got. rw got.0 (return_block-IsSlab b small got.1)
