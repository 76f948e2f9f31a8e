-- ===== src/Base/Table.antt =====
-- Facts about every number below a bound, by evaluation, and sums over a range.
use numa_pmr.Base.Tests.{if◌then◌else◌}
use Prim.Native.Nat.{ℕ, zero, suc, ◌+◌, ◌<◌}
use mathlib.Core.Path.{◌≡◌, refl}
use mathlib.Core.Bool.{false, Bool, true}
use mathlib.Core.Logic.{◌≢◌}
use native.Mathlib.Omega.{arith}
use native.Mathlib.Decide.{ℕ_discrete}

-- A test of every number below `n`, the highest first, up to the first that fails.
unfoldable pub holds_below : ℕ → (ℕ → Bool) → Bool
holds_below zero test = true
holds_below (suc k) test = if test k then holds_below k test else false

pub holds_below-at :
    (n : ℕ) (test : ℕ → Bool) (k : ℕ) → holds_below n test ≡ true → k < n → test k ≡ true
unfolding holds_below
holds_below-at zero test k passed inside = absurd (omega arith)
holds_below-at (suc n) test k passed inside = ground (arith, holds_below-at n test k)

-- `f 0 + … + f (n - 1)`.
unfoldable pub sum_below : ℕ → (ℕ → ℕ) → ℕ
sum_below zero f = 0
sum_below (suc n) f = f n + sum_below n f

pub sum_below_ext :
    (n : ℕ) (f g : ℕ → ℕ) → ((i : ℕ) → i < n → f i ≡ g i) → sum_below n f ≡ sum_below n g
unfolding sum_below
sum_below_ext zero f g h = refl
sum_below_ext (suc n) f g h =
    omega (arith, h n (omega arith), sum_below_ext n f g (λ i lt. h i (omega arith)))

-- Two functions that agree on a range but at `k`: the sums differ as the functions do there.
pub sum_below_at :
    (n k : ℕ) (f g : ℕ → ℕ)
    → k < n
    → ((i : ℕ) → i < n → i ≢ k → f i ≡ g i)
    → sum_below n f + g k ≡ sum_below n g + f k
unfolding sum_below
sum_below_at zero k f g lt h = absurd (omega arith)
sum_below_at (suc n) k f g lt h = elim (ℕ_discrete k n) [
  | yes e ↦ rw e (
      omega
        (arith, sum_below_ext n f g (λ i small. h i (omega arith) (λ e'. absurd (omega arith)))))
  | no other ↦ omega (
    arith,
    h n (omega arith) (λ e. other (omega arith)),
    sum_below_at n k f g (omega arith) (λ i small. h i (omega arith)),
  )
]

pub sum_below_zero : (n : ℕ) (f : ℕ → ℕ) → ((i : ℕ) → i < n → f i ≡ 0) → sum_below n f ≡ 0
unfolding sum_below
sum_below_zero zero f h = refl
sum_below_zero (suc n) f h =
    omega (arith, h n (omega arith), sum_below_zero n f (λ i lt. h i (omega arith)))
