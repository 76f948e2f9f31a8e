-- ===== src/VirtualMemory/Align.antt =====
-- Rounding up to an alignment, `VirtualMemory::align_up`.
use native.Mathlib.Nat.{
  mod-eq_of_lt, div-mul-le_self, lt-div-mul-add, mul-mod_left, mul-le-mul_right,
  lt_of_mul-lt-mul_right,
}
use numa_pmr.Base.{ℕ, suc, ◌+◌, ◌-◌, ◌*◌, ◌/◌, ◌%◌, ◌^◌, ◌≤◌, ◌<◌, ◌≡◌, refl, arith, ◌==◌, false}
use numa_pmr.Machine.Word.{wrap}
use numa_pmr.VirtualMemory.{align_up}

not_zero : (n : ℕ) → 0 < n → (n == 0) ≡ false
not_zero n h = ground arith

pub align_up-mod : (x align : ℕ) → 0 < align → align_up x align % align ≡ 0
unfolding align_up
align_up-mod x align pos = rw (not_zero align pos) (mul-mod_left _ align)

module _ (x align : ℕ) (pos : 0 < align) (fits : x + align ≤ 2 ^ 64) where
  -- The code's formula without the wrap.
  pub align_up_exact : align_up x align ≡ (x + align - 1) / align * align
  unfolding align_up
  align_up_exact =
      rw (not_zero align pos, mod-eq_of_lt {n = x + align - 1} {m = 2 ^ 64} (omega arith)) refl

  pub le-align_up : x ≤ align_up x align
  le-align_up =
      rw align_up_exact (omega (arith, lt-div-mul-add {a = x + align - 1} {b = align} pos))

  pub align_up-lt : align_up x align < x + align
  align_up-lt = rw align_up_exact (omega (arith, div-mul-le_self (x + align - 1) align))

suc_mul : (b align : ℕ) → suc b * align ≡ b * align + align
suc_mul b align = omega arith

le_of_lt_suc : (a b : ℕ) → a < suc b → a ≤ b
le_of_lt_suc a b h = omega arith

-- A multiple of `align` that is less than `align` away from another multiple is not above it.
multiple_le : (a b align : ℕ) → a * align < b * align + align → a * align ≤ b * align
multiple_le a b align h =
    mul-le-mul_right align
      (le_of_lt_suc a b (lt_of_mul-lt-mul_right align (omega (arith, suc_mul b align))))

pub align_up_least :
    (x align k : ℕ) → 0 < align → x + align ≤ 2 ^ 64 → x ≤ k * align → align_up x align ≤ k * align
align_up_least x align k pos fits h = rw (align_up_exact x align pos fits) (
    multiple_le ((x + align - 1) / align) k align
      (omega (arith, div-mul-le_self (x + align - 1) align)))

-- Where the sum does not wrap, `align_up` gives the least multiple of the alignment that is not
-- below the number.
pub align_up-least_multiple :
    (x align : ℕ)
    → 0 < align
    → x + align ≤ 2 ^ 64
    → (align_up x align % align ≡ 0)
      × (x ≤ align_up x align)
      × ((k : ℕ) → x ≤ k * align → align_up x align ≤ k * align)
align_up-least_multiple x align pos fits =
    (align_up-mod x align pos, le-align_up x align pos fits, λ k. align_up_least x align k pos fits)

-- Past the end of the address space the sum wraps, and the result is below what was asked for.
pub align_up_wraps :
    (x align : ℕ) → x < 2 ^ 64 → align ≤ 2 ^ 63 → 2 ^ 64 < x + align → align_up x align < align
unfolding align_up
align_up_wraps x align word small over =
    rw (not_zero align (omega arith)) (omega (arith, div-mul-le_self (wrap (x + align - 1)) align))
