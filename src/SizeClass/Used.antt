-- ===== src/SizeClass/Used.antt =====
-- A block in use in a size class, and the slab that it stands in.
use mathlib.Core.List.{
  Mem, mem-append, not-mem-nil, eq-or-mem_of_mem-cons, Mem-prop, mem-cons_self, Perm,
  mem-cons_of_mem,
}
use mathlib.Core.List.Perm
use mathlib.Core.Logic.Or
use numa_pmr.Base.{
  ℕ, ◌≡◌, ◌⊎◌, inl, inr, refl, sym, ap, subst, List, [], ◌∷◌, ◌++◌, All, ℕ_discrete,
}
use numa_pmr.SizeClass.Contents.{Piece, in_use}

-- A list with one of its entries taken out, or the proof that it is none.
pub take_out : (x : ℕ) (l : List ℕ) → ((rest : List ℕ) × Perm (x ∷ rest) l) ⊎ (¬ Mem x l)
take_out x [] = inr not-mem-nil
take_out x (y ∷ l) = elim (ℕ_discrete x y) [
  | yes e ↦ inl (l, subst (λ z. Perm (x ∷ l) (z ∷ l)) e (Perm.refl _))
  | no ne ↦ elim (take_out x l) [
    | inl found ↦ inl (y ∷ found.0, Perm.trans (Perm.swap y x found.0) (Perm.cons y found.1))
    | inr out ↦
        inr (λ m. out (Or.elim Mem-prop (eq-or-mem_of_mem-cons m) (λ e. absurd (ne e)) (λ i. i)))
  ]
]

pub rest_of : (x : ℕ) (l : List ℕ) → Mem x l → (rest : List ℕ) × Perm (x ∷ rest) l
rest_of x l i = elim (take_out x l) [ inl found ↦ found | inr out ↦ absurd (out i) ]

-- The piece with block `x` in use, and its other blocks in use.
pub record UsedAt (x : ℕ) (pieces : List Piece) : Type 0 where
  pub pre : List Piece
  pub here : Piece
  pub post : List Piece
  pub whole : pieces ≡ pre ++ here ∷ post
  pub rest : List ℕ
  pub in_slab : Perm (x ∷ rest) here.used

pub used_at : (x : ℕ) (pieces : List Piece) → Mem x (in_use pieces) → UsedAt x pieces
unfolding in_use
used_at x [] i = absurd (not-mem-nil i)
used_at x (s ∷ l) i = elim (take_out x s.used) [
  | inl found ↦ record {
    pre = [];
    here = s;
    post = l;
    whole = refl;
    rest = found.0;
    in_slab = found.1;
  }
  | inr out ↦
      let tail : UsedAt x l =
        used_at x l (Or.elim Mem-prop (mem-append.0 i) (λ j. absurd (out j)) (λ j. j)) in
      record {
        pre = s ∷ tail.pre;
        here = tail.here;
        post = tail.post;
        whole = ap (λ p. s ∷ p) tail.whole;
        rest = tail.rest;
        in_slab = tail.in_slab;
      }
]

pub All-Mem : (P : ℕ → Type 0) (l : List ℕ) (x : ℕ) → All P l → Mem x l → P x
All-Mem P [] x h i = absurd (not-mem-nil i)
All-Mem P (y ∷ l) x h i = elim (ℕ_discrete x y) [
  | yes e ↦ subst P (sym e) h.0
  | no ne ↦
      All-Mem P l x h.1 (Or.elim Mem-prop (eq-or-mem_of_mem-cons i) (λ e. absurd (ne e)) (λ j. j))
]

pub All-Perm :
    (P : ℕ → Type 0) (xs ys : List ℕ) → ((x : ℕ) → Mem x ys → Mem x xs) → All P xs → All P ys
All-Perm P xs [] sub h = tt
All-Perm P xs (y ∷ ys) sub h = (
  All-Mem P xs y h (sub y mem-cons_self),
  All-Perm P xs ys (λ x i. sub x (mem-cons_of_mem y i)) h,
)
