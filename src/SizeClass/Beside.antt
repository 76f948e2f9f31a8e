-- ===== src/SizeClass/Beside.antt =====
-- What the operations on one slab leave alone: the well-formed slabs beside it, of any class.
use mathlib.Core.List.{Mem, mem-append_right, mem-cons_self, mem-cons_of_mem}
use numa_pmr.Base.{ℕ, zero, suc, ◌+◌, ◌≤◌, ◌≡◌, ◌≢◌, inl, inr, refl, arith, List, [], ◌∷◌, All, ℤ}
use numa_pmr.Block.{to_user_ptr}
use numa_pmr.Machine.Memory.{Memory, update_ne}
use numa_pmr.Config.Small.{small_large_threshold}
use numa_pmr.Slab.{pop_block, return_block, push_block, init_loop, init}
use numa_pmr.Slab.Layout.{IsBase}
use numa_pmr.Slab.Frame.{
  Apart, Inside, IsSlab-Inside, pop_block-frame, return_block-frame, init-frame,
}
use numa_pmr.SizeClass.Contents.{Piece, IsPiece}

-- Every well-formed slab, of any class, with `Beside` of its address is well formed afterwards.
abbrev pub Frame : (Beside : ℕ → Type 0) → Memory → Memory → Type 0
Frame Beside m m' =
    (k : ℕ) (t : Piece) → k ≤ small_large_threshold → Beside t.slab → IsPiece k m t → IsPiece k m' t

pub pop_block-block : (s x y : ℕ) (m : Memory) → y ≢ x → (pop_block s x m).block y ≡ m.block y
unfolding pop_block
pop_block-block s x y m ne = update_ne m.block x y _ ne

pub return_block-block : (s x : ℕ) (m : Memory) → (return_block s x m).block ≡ m.block
unfolding return_block
return_block-block s x m = refl

pub return_block-link :
    (s x y : ℕ) (m : Memory)
    → y ≢ x
    → (return_block s x m).link (to_user_ptr y) ≡ m.link (to_user_ptr y)
unfolding return_block
return_block-link s x y m ne =
    update_ne m.link (to_user_ptr x) (to_user_ptr y) (m.slab s).free_list
      (λ e. ne (payload-inj y x e))
  where
    payload-inj : (a b : ℕ) → to_user_ptr a ≡ to_user_ptr b → a ≡ b
    payload-inj a b e = omega arith

init_loop-block :
    (rounds i s ptr total : ℕ) (m : Memory) → (init_loop rounds i s ptr total m).block ≡ m.block
unfolding init_loop push_block
init_loop-block zero i s ptr total m = refl
init_loop-block (suc n) i s ptr total m = init_loop-block n (i + 1) s ptr total _

pub init-block : (s n : ℕ) (node : ℤ) (m : Memory) → (init s n node m).block ≡ m.block
unfolding init
init-block s n node m = init_loop-block _ 0 s _ _ _

-- Blocks of slabs apart differ.
pub Inside-ne : (s t x y : ℕ) → Apart s t → Inside s x → Inside t y → y ≢ x
Inside-ne s t x y (inl le) a b e = absurd (omega arith)
Inside-ne s t x y (inr le) a b e = absurd (omega arith)

-- The owners of blocks other than the one taken.
pub pop_block-owners :
    (s x a : ℕ) (m : Memory) (l : List ℕ)
    → ((y : ℕ) → Mem y l → y ≢ x)
    → All (λ y. (m.block y).raw_ptr ≡ a) l
    → All (λ y. ((pop_block s x m).block y).raw_ptr ≡ a) l
pop_block-owners s x a m [] ne h = tt
pop_block-owners s x a m (y ∷ l) ne h = (
  rw (pop_block-block s x y m (ne y mem-cons_self)) h.0,
  pop_block-owners s x a m l (λ z i. ne z (mem-cons_of_mem y i)) h.1,
)

module _ (s : ℕ) (k : ℕ) (small : k ≤ small_large_threshold) (t : Piece) (apart : Apart s t.slab)
    (m : Memory) (v : IsPiece k m t) where
  other_block : (x : ℕ) → Inside s x → (y : ℕ) → Mem y t.used → y ≢ x
  other_block x inside y i =
      Inside-ne s t.slab x y apart inside
        (IsSlab-Inside v.0 small y v.1 (mem-append_right t.free i))

  -- A block taken from another slab.
  pub pop_block-IsPiece : (x : ℕ) → Inside s x → IsPiece k (pop_block s x m) t
  pop_block-IsPiece x inside = (
    v.0,
    pop_block-frame v.0 small s apart x v.1,
    pop_block-owners s x t.slab m t.used (other_block x inside) v.2,
  )

  -- A block given back to another slab.
  pub return_block-IsPiece : (x : ℕ) → Inside s x → IsPiece k (return_block s x m) t
  return_block-IsPiece x inside =
      (v.0, return_block-frame v.0 small s apart x inside v.1, rw (return_block-block s x m) v.2)

  -- Another slab made.
  pub init-IsPiece :
      (n : ℕ) (node : ℤ) → IsBase s → n ≤ small_large_threshold → IsPiece k (init s n node m) t
  init-IsPiece n node base fits =
      (v.0, init-frame v.0 small s apart n base fits node v.1, rw (init-block s n node m) v.2)
