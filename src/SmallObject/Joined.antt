-- ===== src/SmallObject/Joined.antt =====
-- The blocks of all classes below one, class by class.
use mathlib.Core.List.{
  Mem, Perm, perm_middle, not-mem-nil, mem-append, mem-append_left, mem-append_right, mem-cons_self,
  Mem-prop,
}
use mathlib.Core.List.Perm
use mathlib.Core.Logic.Or
use mathlib.Core.HLevel.{⊥_prop}
use numa_pmr.Base.{
  ℕ, zero, suc, ◌≡◌, ◌≢◌, ◌<◌, inl, inr, refl, sym, subst, arith, List, [], ◌∷◌, ◌++◌, ℕ_discrete,
}
use numa_pmr.SizeClass.Used.{take_out}

unfoldable pub joined : ℕ → (ℕ → List ℕ) → List ℕ
joined zero f = []
joined (suc n) f = f n ++ joined n f

pub joined-same :
    (n : ℕ) (f g : ℕ → List ℕ) → ((j : ℕ) → j < n → g j ≡ f j) → joined n g ≡ joined n f
unfolding joined
joined-same zero f g h = refl
joined-same (suc n) f g h =
    rw (h n (omega arith), joined-same n f g (λ j lt. h j (omega arith))) refl

-- One block more in one class is one block more.
pub joined-perm :
    (n i x : ℕ) (f g : ℕ → List ℕ)
    → i < n
    → ((j : ℕ) → j ≢ i → g j ≡ f j)
    → Perm (g i) (x ∷ f i)
    → Perm (joined n g) (x ∷ joined n f)
unfolding joined
joined-perm zero i x f g lt others more = absurd (omega (arith, lt))
joined-perm (suc n) i x f g lt others more = elim (ℕ_discrete i n) [
  | yes e ↦
      let more' : Perm (g n) (x ∷ f n) = subst (λ k. Perm (g k) (x ∷ f k)) e more in
      rw (joined-same n f g (λ j below. others j (λ same. absurd (omega (arith, same, e)))))
        (Perm.append_right (joined n f) more')
  | no ne ↦ rw (others n (λ e. ne (sym e))) (
      Perm.trans
        (Perm.append_left (f n) (joined-perm n i x f g (omega (arith, lt, ne)) others more))
        (perm_middle (f n) (joined n f)))
]

pub joined-none :
    (n x : ℕ) (f : ℕ → List ℕ) → ((i : ℕ) → i < n → ¬ Mem x (f i)) → ¬ Mem x (joined n f)
unfolding joined
joined-none zero x f none i = not-mem-nil i
joined-none (suc n) x f none i =
    Or.elim ⊥_prop (mem-append.0 i) (none n (omega arith))
      (joined-none n x f (λ j lt. none j (omega arith)))

pub joined_Mem : (n i x : ℕ) (f : ℕ → List ℕ) → i < n → Mem x (f i) → Mem x (joined n f)
unfolding joined
joined_Mem zero i x f lt h = absurd (omega (arith, lt))
joined_Mem (suc n) i x f lt h = elim (ℕ_discrete i n) [
  | yes e ↦ mem-append_left (joined n f) (subst (λ k. Mem x (f k)) e h)
  | no ne ↦ mem-append_right (f n) (joined_Mem n i x f (omega (arith, lt, ne)) h)
]

-- The class of a block.
pub class_of : (n x : ℕ) (f : ℕ → List ℕ) → Mem x (joined n f) → (i : ℕ) × (i < n) × Mem x (f i)
unfolding joined
class_of zero x f h = absurd (not-mem-nil h)
class_of (suc n) x f h = elim (take_out x (f n)) [
  | inl found ↦ (n, omega arith, (Perm.mem_iff found.1).0 mem-cons_self)
  | inr out ↦
      let (i, lt, here) =
        class_of n x f (Or.elim Mem-prop (mem-append.0 h) (λ k. absurd (out k)) (λ k. k)) in
      (i, omega (arith, lt), here)
]

pub joined_nil : (n : ℕ) → joined n (λ _. []) ≡ []
unfolding joined
joined_nil zero = refl
joined_nil (suc n) = joined_nil n
