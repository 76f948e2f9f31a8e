-- ===== src/Slab/Layout.antt =====
-- The geometry of a slab: where its blocks lie.
use native.Mathlib.Nat.{
  le-mul_of_pos_right, le_trans, le-div_iff_mul-le, div-mul-le_self, mul-le-mul_right, mod-eq_of_lt,
}
use numa_pmr.Base.{◌∙◌, ℕ, zero, suc, ◌+◌, ◌-◌, ◌*◌, ◌/◌, ◌%◌, ◌^◌, ◌≤◌, ◌<◌, ◌≡◌, arith, max}
use numa_pmr.Machine.Word.{sizeof_block_header, sizeof_slab_header, wrap32, sizeof_pointer}
use numa_pmr.Config.Small.{slab_size, small_large_threshold}
use numa_pmr.VirtualMemory.{align_up}
use numa_pmr.Slab.{first_block, total_block_size, capacity_for}

-- A slab's address: a multiple of 16, as pages are, with the whole span below `2 ^ 64`.
pub record IsBase (slab : ℕ) : Type 0 where
  pub ne_null : 0 < slab
  pub aligned : slab % 16 ≡ 0
  pub in_space : slab + slab_size < 2 ^ 64

pub first_block_lem : (slab : ℕ) → IsBase slab → first_block slab ≡ slab + 32
unfolding first_block align_up
first_block_lem slab b = omega arith

pub total_bounds :
    (n : ℕ)
    → n ≤ small_large_threshold
    → (n + sizeof_block_header ≤ total_block_size n)
      × (sizeof_pointer + sizeof_block_header ≤ total_block_size n)
      × (total_block_size n ≤ small_large_threshold + sizeof_block_header)
      × (total_block_size n % 16 ≡ 0)
unfolding total_block_size align_up
total_bounds n h = omega arith

-- What is left behind the header, in blocks of size `t`.
quotient_bounds :
    (t : ℕ) → 0 < t → t ≤ 65504 → (65504 / t * t ≤ 65504) × (0 < 65504 / t) × (65504 / t ≤ 65504)
quotient_bounds t pos small =
    let q = 65504 / t in
    (
      div-mul-le_self 65504 t,
      (le-div_iff_mul-le {k = t} {x = 1} {y = 65504} pos).1 (omega arith),
      le_trans (le-mul_of_pos_right q pos) (div-mul-le_self 65504 t),
    )

capacity_for_lem :
    (slab n : ℕ) → IsBase slab → capacity_for slab n ≡ wrap32 (65504 / total_block_size n)
unfolding capacity_for
capacity_for_lem slab n b =
    let e : slab_size - (first_block slab - slab) ≡ 65504 = omega (arith, first_block_lem slab b) in
    rw e

-- Multiples of a multiple of 16.
mul_mod_16 : (k t : ℕ) → t % 16 ≡ 0 → (k * t) % 16 ≡ 0
mul_mod_16 zero t h = omega arith
mul_mod_16 (suc k) t h = omega (arith, mul_mod_16 k t h)

-- Block `k` of a slab of block size `n`.
abbrev pub block_at : (slab n k : ℕ) → ℕ
block_at slab n k = first_block slab + k * total_block_size n

module _ (slab n : ℕ) (b : IsBase slab) (small : n ≤ small_large_threshold) where
  -- The `uint32_t` fields hold the capacity, and the blocks end where the slab does or before.
  pub capacity_bounds :
      (capacity_for slab n * total_block_size n + 32 ≤ slab_size)
      × (0 < capacity_for slab n)
      × (capacity_for slab n < 2 ^ 32)
  capacity_bounds =
      let (_, low, high, _) = total_bounds n small in
      let t = total_block_size n in
      let (fits, pos, few) = quotient_bounds t (omega arith) (omega arith) in
      let e : capacity_for slab n ≡ 65504 / t =
        capacity_for_lem slab n b ∙ mod-eq_of_lt {n = 65504 / t} {m = 2 ^ 32} (omega arith) in
      rw e (omega arith, pos, omega arith)

  -- Every block lies behind the slab's header and inside the slab, at a multiple of 16, and ends
  -- where the next begins or before.
  pub block_at-inside :
      (k : ℕ)
      → k < capacity_for slab n
      → (slab + sizeof_slab_header ≤ block_at slab n k)
        × (block_at slab n k + sizeof_block_header + n ≤ slab + slab_size)
        × (block_at slab n k % 16 ≡ 0)
        × ((j : ℕ)
            → k < j
            → block_at slab n k + sizeof_block_header + max n sizeof_pointer ≤ block_at slab n j)
  block_at-inside k lt =
      let (payload, link, _, sixteen) = total_bounds n small in
      let t = total_block_size n in
      let start = first_block_lem slab b in
      let next : (j : ℕ) → k < j → k * t + t ≤ j * t = λ j h. omega (arith, mul-le-mul_right t h) in
      (
        omega arith,
        omega (arith, next (capacity_for slab n) lt, capacity_bounds.0),
        omega (arith, mul_mod_16 k t sixteen, b.aligned),
        λ j h. omega (arith, next j h),
      )
