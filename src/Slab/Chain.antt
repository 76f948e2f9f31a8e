-- ===== src/Slab/Chain.antt =====
-- Intrusive lists of blocks: from a head, the links stored in the payloads lead through blocks.
use mathlib.Core.List.{Mem, mem-cons_self, mem-cons_of_mem}
use numa_pmr.Base.{subst, ℕ, ◌≡◌, ◌≢◌, refl, List, [], ◌∷◌, arith}
use numa_pmr.Machine.Word.{null}
use numa_pmr.Machine.Memory.{update_self, update, update_ne}
use numa_pmr.Block.{to_user_ptr}

-- The blocks `xs` hang from `p`, in order, and the last links to null.
abbrev pub IsChain : (link : ℕ → ℕ) → ℕ → List ℕ → Type 0
IsChain link p [] = p ≡ null
IsChain link p (x ∷ xs) = (p ≡ x) × (x ≢ null) × IsChain link (link (to_user_ptr x)) xs

pub IsChain-cast :
    {f g : ℕ → ℕ} {p q : ℕ} (xs : List ℕ) → g ≡ f → q ≡ p → IsChain f p xs → IsChain g q xs
IsChain-cast xs links head c = rw (links, head) c

-- A chain survives changes of other words.
pub IsChain-frame :
    (f g : ℕ → ℕ) (p : ℕ) (xs : List ℕ)
    → ((x : ℕ) → Mem x xs → g (to_user_ptr x) ≡ f (to_user_ptr x))
    → IsChain f p xs
    → IsChain g p xs
IsChain-frame f g p [] same c = c
IsChain-frame f g p (x ∷ xs) same (head, ne, rest) = (
  head,
  ne,
  rw (same x mem-cons_self)
      (IsChain-frame f g (f (to_user_ptr x)) xs (λ y m. same y (mem-cons_of_mem x m)) rest),
)

-- A write to the payload of a block that is not in the chain.
pub IsChain-update :
    (link : ℕ → ℕ) (p : ℕ) (xs : List ℕ) (block q : ℕ)
    → ¬ Mem block xs
    → IsChain link p xs
    → IsChain (update link (to_user_ptr block) q) p xs
IsChain-update link p xs block q out c =
    IsChain-frame link (update link (to_user_ptr block) q) p xs
      (λ x m.
        update_ne link (to_user_ptr block) (to_user_ptr x) q
          (λ e. out (subst (λ y. Mem y xs) (same_block x block e) m)))
      c
  where
    same_block : (x y : ℕ) → to_user_ptr x ≡ to_user_ptr y → x ≡ y
    same_block x y e = omega arith

-- A block pushed in front of a chain.
pub IsChain-push :
    (link : ℕ → ℕ) (p : ℕ) (xs : List ℕ) (block : ℕ)
    → block ≢ null
    → ¬ Mem block xs
    → IsChain link p xs
    → IsChain (update link (to_user_ptr block) p) block (block ∷ xs)
IsChain-push link p xs block ne out c =
    (refl, ne, rw (update_self link (to_user_ptr block) p) (IsChain-update link p xs block p out c))
