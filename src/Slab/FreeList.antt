-- ===== src/Slab/FreeList.antt =====
-- The free list of a slab: `init` builds it of all blocks, `allocate_block` and `free_block` move
-- one block between it and the blocks in use.
use native.Mathlib.Nat.{mul-lt-mul_of_pos_right}
use native.Mathlib.Bridge.{le_prop}
use mathlib.Core.Logic.Or
use mathlib.Core.List.{append-nil, not-mem-nil, mem-cons, Mem, Nodup, Perm, Nodup-cons, Nodup-nil}
use mathlib.Core.List.Perm
use numa_pmr.Base.{
  sym, ap, ◌∙◌, ℕ, zero, suc, ◌+◌, ◌≤◌, ◌<◌, ◌≡◌, ◌≢◌, refl, arith, List, [], ◌∷◌, ◌++◌, length, ℤ,
}
use numa_pmr.Machine.Word.{null}
use numa_pmr.Machine.Memory.{write_slab, Memory, update, update_self}
use numa_pmr.Block.{to_user_ptr}
use numa_pmr.Config.Small.{small_large_threshold}
use numa_pmr.Slab.{
  first_block, total_block_size, capacity_for, push_block, init_loop, init_header, init,
}
use numa_pmr.Slab.Layout.{IsBase, block_at, first_block_lem, total_bounds}
use numa_pmr.Slab.Chain.{IsChain-cast, IsChain, IsChain-push}

-- The blocks below index `k`, the highest first.
unfoldable pub blocks : (slab n : ℕ) → ℕ → List ℕ
blocks slab n zero = []
blocks slab n (suc k) = block_at slab n k ∷ blocks slab n k

-- A slab of block size `n` whose free blocks are `free`, in list order, and whose other blocks are
-- `used`: together they are all its blocks, each once, and the counters agree.
pub record IsSlab (slab n : ℕ) (free used : List ℕ) (m : Memory) : Type 0 where
  pub chain : IsChain m.link (m.slab slab).free_list free
  pub free_count : (m.slab slab).free_count ≡ length free
  pub capacity : (m.slab slab).capacity ≡ capacity_for slab n
  pub total : length free + length used ≡ capacity_for slab n
  pub all_blocks : Perm (free ++ used) (blocks slab n (capacity_for slab n))

push_block_lem :
    (slab block : ℕ) (m : Memory)
    → ((push_block slab block m).slab slab ≡ record (m.slab slab) { free_list = block })
      × ((push_block slab block m).link ≡ update m.link (to_user_ptr block) (m.slab slab).free_list)
unfolding push_block
push_block_lem slab block m = (update_self m.slab slab _, refl)

module _ (slab n : ℕ) (b : IsBase slab) (small : n ≤ small_large_threshold) where
  block_at_step : (k j : ℕ) → k < j → block_at slab n k < block_at slab n j
  block_at_step k j h =
      let (_, low, _, _) = total_bounds n small in
      omega
        (arith, mul-lt-mul_of_pos_right {m = k} {n = j} {k = total_block_size n} h (omega arith))

  below : (k x : ℕ) → Mem x (blocks slab n k) → x < block_at slab n k
  unfolding blocks
  below zero x m = absurd (not-mem-nil m)
  below (suc k) x m =
      Or.elim le_prop (mem-cons.0 m) (λ e. rw e (block_at_step k (suc k) (omega arith)))
        (λ rest. omega (arith, below k x rest, block_at_step k (suc k)))

  -- No block is listed twice.
  pub blocks-Nodup : (k : ℕ) → Nodup (blocks slab n k)
  unfolding blocks
  blocks-Nodup zero = Nodup-nil
  blocks-Nodup (suc k) =
      Nodup-cons.1 ((λ m. absurd (omega (arith, below k (block_at slab n k) m))), blocks-Nodup k)

  block_ne_null : (k : ℕ) → block_at slab n k ≢ null
  block_ne_null k = λ e. absurd (omega (arith, first_block_lem slab b, b.ne_null))

  pub blocks_pos : (k x : ℕ) → Mem x (blocks slab n k) → 0 < x
  unfolding blocks
  blocks_pos zero x m = absurd (not-mem-nil m)
  blocks_pos (suc k) x m =
      Or.elim le_prop (mem-cons.0 m) (λ e. rw e (omega (arith, first_block_lem slab b)))
        (blocks_pos k x)

  -- The loop of `init` builds the chain of the blocks that it has passed, and touches only the
  -- slab's list head.
  init_loop-IsChain :
      (rounds i j : ℕ) (m : Memory)
      → i + rounds ≡ j
      → IsChain m.link (m.slab slab).free_list (blocks slab n i)
      → let m' = init_loop rounds i slab (first_block slab) (total_block_size n) m in
        IsChain m'.link (m'.slab slab).free_list (blocks slab n j)
        × ((m'.slab slab).free_count ≡ (m.slab slab).free_count)
        × ((m'.slab slab).capacity ≡ (m.slab slab).capacity)
  unfolding init_loop blocks
  init_loop-IsChain zero i j m e c = let e' : i ≡ j = omega arith in rw (← e') (c, refl, refl)
  init_loop-IsChain (suc rounds) i j m e c =
      let block = block_at slab n i in
      let m1 = push_block slab block m in
      let (header, links) = push_block_lem slab block m in
      let step : i + 1 ≡ suc i = omega arith in
      let pushed : IsChain m1.link (m1.slab slab).free_list (blocks slab n (suc i)) =
        IsChain-cast (blocks slab n (suc i)) links (ap (λ h. h.free_list) header) (
          IsChain-push m.link (m.slab slab).free_list (blocks slab n i) block (block_ne_null i)
            (λ x. absurd (omega (arith, below i block x))) c) in
      let (chain, count, capacity) = init_loop-IsChain rounds (suc i) j m1 (omega arith) pushed in
      rw (step, init_loop)
        (chain, count ∙ ap (λ h. h.free_count) header, capacity ∙ ap (λ h. h.capacity) header)

  length-blocks : (k : ℕ) → length (blocks slab n k) ≡ k
  unfolding blocks
  length-blocks zero = refl
  length-blocks (suc k) = ap suc (length-blocks k)

  -- `init` makes a slab with every block free, the highest address first in the list.
  pub init-IsSlab :
      (node : ℤ) (m : Memory)
      → IsSlab slab n (blocks slab n (capacity_for slab n)) [] (init slab n node m)
  unfolding init init_header blocks
  init-IsSlab node m =
      let n0 = capacity_for slab n in
      let m0 = write_slab slab (init_header slab n node) m in
      let header : m0.slab slab ≡ init_header slab n node = update_self m.slab slab _ in
      let (chain, count, capacity) =
        init_loop-IsChain n0 0 n0 m0 (omega arith) (ap (λ h. h.free_list) header) in
      record {
        chain = chain;
        free_count = count ∙ ap (λ h. h.free_count) header ∙ sym (length-blocks n0);
        capacity = capacity ∙ ap (λ h. h.capacity) header;
        total = omega (arith, length-blocks n0);
        all_blocks = rw append-nil (Perm.refl _);
      }
