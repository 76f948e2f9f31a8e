-- ===== src/Slab/Disjoint.antt =====
-- The blocks of a slab do not overlap, payloads included.
use mathlib.Core.List.{Mem, not-mem-nil, Mem-prop, eq-or-mem_of_mem-cons}
use mathlib.Core.Logic.Or
use numa_pmr.Base.{
  ℕ, zero, suc, ◌+◌, ◌%◌, ◌≡◌, ◌≢◌, ◌<◌, ◌≤◌, ◌⊎◌, inl, inr, sym, ap, ◌∙◌, arith, ℕ_discrete,
}
use numa_pmr.Machine.Word.{sizeof_block_header, sizeof_slab_header}
use numa_pmr.Config.Small.{slab_size, small_large_threshold}
use numa_pmr.Slab.{capacity_for}
use numa_pmr.Slab.Layout.{IsBase, block_at, block_at-inside}
use numa_pmr.Slab.FreeList.{blocks}

-- The index of a block.
block_index :
    (slab n k x : ℕ) → Mem x (blocks slab n k) → (j : ℕ) × (j < k) × (x ≡ block_at slab n j)
unfolding blocks
block_index slab n zero x i = absurd (not-mem-nil i)
block_index slab n (suc k) x i = elim (ℕ_discrete x (block_at slab n k)) [
  | yes e ↦ (k, omega arith, e)
  | no ne ↦
      let (j, lt, e) =
        block_index slab n k x
          (Or.elim Mem-prop (eq-or-mem_of_mem-cons i) (λ e. absurd (ne e)) (λ h. h)) in
      (j, omega (arith, lt), e)
]

-- Two ranges that do not overlap, each a header and its payload.
abbrev pub Disjoint : (x n y k : ℕ) → Type 0
Disjoint x n y k = (x + sizeof_block_header + n ≤ y) ⊎ (y + sizeof_block_header + k ≤ x)

module _ (slab n : ℕ) (b : IsBase slab) (small : n ≤ small_large_threshold) where
  -- A block, with its payload, lies inside the slab.
  pub block_span :
      (x : ℕ)
      → Mem x (blocks slab n (capacity_for slab n))
      → (slab + sizeof_slab_header ≤ x)
        × (x + sizeof_block_header + n ≤ slab + slab_size)
        × (x % 16 ≡ 0)
  block_span x i =
      let (j, lt, e) = block_index slab n (capacity_for slab n) x i in
      let (low, high, sixteen, _) = block_at-inside slab n b small j lt in rw e (low, high, sixteen)

  pub blocks-Disjoint :
      (x y : ℕ)
      → x ≢ y
      → Mem x (blocks slab n (capacity_for slab n))
      → Mem y (blocks slab n (capacity_for slab n))
      → Disjoint x n y n
  blocks-Disjoint x y ne i i' =
      let (j, lt, e) = block_index slab n (capacity_for slab n) x i in
      let (k, lt', e') = block_index slab n (capacity_for slab n) y i' in
      elim (compare_index j k) [
        | inl below ↦ inl (
            let next = (block_at-inside slab n b small j lt).3 k below in
            omega (arith, e, e', next))
        | inr (inl same) ↦ absurd (ne (e ∙ ap (block_at slab n) same ∙ sym e'))
        | inr (inr above) ↦ inr (
            let next = (block_at-inside slab n b small k lt').3 j above in
            omega (arith, e, e', next))
      ]
    where
      compare_index : (j k : ℕ) → (j < k) ⊎ (j ≡ k) ⊎ (k < j)
      compare_index j k = ground arith
