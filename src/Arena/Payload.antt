-- ===== src/Arena/Payload.antt =====
-- Between a block's header and its payload.
use mathlib.Core.List.{
  Mem, not-mem-nil, mem-cons_self, mem-cons_of_mem, eq-or-mem_of_mem-cons, Mem-prop,
}
use mathlib.Core.Logic.Or
use numa_pmr.Base.{ℕ, ◌≡◌, sym, ap, subst, ◌∙◌, arith, List, [], ◌∷◌, map, ℕ_discrete}
use numa_pmr.Block.{to_user_ptr, from_user_ptr}

-- From a payload back to its block.
pub from_to : (x : ℕ) → from_user_ptr (to_user_ptr x) ≡ x
from_to x = omega arith

pub to_from : (p : ℕ) (l : List ℕ) → Mem p (map to_user_ptr l) → to_user_ptr (from_user_ptr p) ≡ p
to_from p [] i = absurd (not-mem-nil i)
to_from p (x ∷ l) i = elim (ℕ_discrete p (to_user_ptr x)) [
  | yes e ↦ omega (arith, e)
  | no ne ↦ to_from p l (Or.elim Mem-prop (eq-or-mem_of_mem-cons i) (λ e. absurd (ne e)) (λ h. h))
]

pub from_Mem : (p : ℕ) (l : List ℕ) → Mem p (map to_user_ptr l) → Mem (from_user_ptr p) l
from_Mem p [] i = absurd (not-mem-nil i)
from_Mem p (x ∷ l) i = elim (ℕ_discrete p (to_user_ptr x)) [
  | yes e ↦ subst (λ z. Mem z (x ∷ l)) (sym (ap from_user_ptr e ∙ from_to x)) mem-cons_self
  | no ne ↦
      mem-cons_of_mem x
        (from_Mem p l (Or.elim Mem-prop (eq-or-mem_of_mem-cons i) (λ e. absurd (ne e)) (λ h. h)))
]
