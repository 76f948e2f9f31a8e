-- ===== src/Slab/Frame.antt =====
-- What the operations on one slab leave alone: every other slab.
use mathlib.Core.List.{Mem, mem-append_left, mem-cons, not-mem-nil}
use mathlib.Core.List.Perm
use mathlib.Core.Logic.Or
use mathlib.Core.HLevel.{×_prop}
use native.Mathlib.Bridge.{le_prop}
use numa_pmr.Base.{
  ℕ, zero, suc, ◌+◌, ◌≤◌, ◌≡◌, ◌≢◌, ◌⊎◌, inl, inr, refl, ap, ◌∙◌, arith, ℤ, List, ◌++◌,
}
use numa_pmr.Machine.Word.{sizeof_block_header}
use numa_pmr.Machine.Memory.{Memory, update_ne}
use numa_pmr.Config.Small.{slab_size, small_large_threshold}
use numa_pmr.Block.{to_user_ptr}
use numa_pmr.Slab.{
  capacity_for, push_block, init_loop, init_header, init, pop_block, return_block, first_block,
  total_block_size,
}
use numa_pmr.Slab.Layout.{IsBase, block_at, block_at-inside}
use numa_pmr.Slab.Chain.{IsChain-frame}
use numa_pmr.Slab.FreeList.{IsSlab, blocks}

-- Two slabs whose spans do not overlap.
abbrev pub Apart : ℕ → ℕ → Type 0
Apart s t = (s + slab_size ≤ t) ⊎ (t + slab_size ≤ s)

-- An address inside a slab's span, with room for a header behind it.
abbrev pub Inside : ℕ → ℕ → Type 0
Inside s x = (s ≤ x) × (x + sizeof_block_header ≤ s + slab_size)

-- The fields that the free list of slab `t` stands in are the same.
pub IsSlab-frame :
    {t n : ℕ} {free used : List ℕ} {m m' : Memory}
    → m'.slab t ≡ m.slab t
    → ((x : ℕ) → Mem x free → m'.link (to_user_ptr x) ≡ m.link (to_user_ptr x))
    → IsSlab t n free used m
    → IsSlab t n free used m'
IsSlab-frame {t} {free = free} {m = m} {m' = m'} header links v = record {
  chain = rw header (IsChain-frame m.link m'.link (m.slab t).free_list free links v.chain);
  free_count = ap (λ h. h.free_count) header ∙ v.free_count;
  capacity = ap (λ h. h.capacity) header ∙ v.capacity;
  total = v.total;
  all_blocks = v.all_blocks;
}

module _ {t n : ℕ} (b : IsBase t) (small : n ≤ small_large_threshold) where
  blocks-Inside : (k x : ℕ) → k ≤ capacity_for t n → Mem x (blocks t n k) → Inside t x
  unfolding blocks
  blocks-Inside zero x le m = absurd (not-mem-nil m)
  blocks-Inside (suc k) x le m =
      let (low, high, _, _) = block_at-inside t n b small k le in
      Or.elim (×_prop le_prop le_prop) (mem-cons.0 m) (λ e. rw e (omega arith, omega arith))
        (blocks-Inside k x (omega arith))

  -- The blocks of a slab lie inside it.
  pub IsSlab-Inside :
      {free used : List ℕ} {m : Memory} (x : ℕ)
      → IsSlab t n free used m
      → Mem x (free ++ used)
      → Inside t x
  IsSlab-Inside x v i =
      blocks-Inside (capacity_for t n) x (omega arith) ((Perm.mem_iff v.all_blocks).0 i)

-- Blocks of slabs apart are different.
Apart-ne : (s t x y : ℕ) → Apart s t → Inside s x → Inside t y → to_user_ptr y ≢ to_user_ptr x
Apart-ne s t x y (inl le) a b e = absurd (omega arith)
Apart-ne s t x y (inr le) a b e = absurd (omega arith)

slab_ne : (s t : ℕ) → Apart s t → t ≢ s
slab_ne s t (inl le) e = absurd (omega arith)
slab_ne s t (inr le) e = absurd (omega arith)

module _ {t n : ℕ} {free used : List ℕ} (b : IsBase t) (small : n ≤ small_large_threshold) (s : ℕ)
    (apart : Apart s t) where
  -- Taking a block of another slab.
  pub pop_block-frame :
      {m : Memory} (x : ℕ) → IsSlab t n free used m → IsSlab t n free used (pop_block s x m)
  unfolding pop_block
  pop_block-frame {m} x v =
      IsSlab-frame (update_ne m.slab s t _ (slab_ne s t apart)) (λ y i. refl) v

  -- Giving a block back to another slab.
  pub return_block-frame :
      {m : Memory} (x : ℕ)
      → Inside s x
      → IsSlab t n free used m
      → IsSlab t n free used (return_block s x m)
  unfolding return_block
  return_block-frame {m} x inside v =
      IsSlab-frame (update_ne m.slab s t _ (slab_ne s t apart))
        (λ y i.
          update_ne m.link (to_user_ptr x) (to_user_ptr y) (m.slab s).free_list
            (Apart-ne s t x y apart inside (IsSlab-Inside b small y v (mem-append_left used i))))
        v

  module _ (k : ℕ) (base : IsBase s) (fits : k ≤ small_large_threshold) where
    push_block-frame :
        {m : Memory} (x : ℕ)
        → Inside s x
        → IsSlab t n free used m
        → IsSlab t n free used (push_block s x m)
    unfolding push_block
    push_block-frame {m} x inside v =
        IsSlab-frame (update_ne m.slab s t _ (slab_ne s t apart))
          (λ y i.
            update_ne m.link (to_user_ptr x) (to_user_ptr y) (m.slab s).free_list
              (Apart-ne s t x y apart inside (IsSlab-Inside b small y v (mem-append_left used i))))
          v

    init_loop-frame :
        (rounds i : ℕ) {m : Memory}
        → i + rounds ≤ capacity_for s k
        → IsSlab t n free used m
        → IsSlab t n free used (init_loop rounds i s (first_block s) (total_block_size k) m)
    unfolding init_loop
    init_loop-frame zero i le v = v
    init_loop-frame (suc r) i le v =
        let (low, high, _, _) = block_at-inside s k base fits i (omega arith) in
        init_loop-frame r (i + 1) (omega arith)
          (push_block-frame (block_at s k i) (omega arith, omega arith) v)

    -- Making another slab.
    pub init-frame :
        (node : ℤ) {m : Memory} → IsSlab t n free used m → IsSlab t n free used (init s k node m)
    unfolding init
    init-frame node {m} v = init_loop-frame (capacity_for s k) 0 (omega arith) (
        IsSlab-frame (update_ne m.slab s t (init_header s k node) (slab_ne s t apart)) (λ y i. refl)
          v)
