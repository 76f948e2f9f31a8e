-- ===== src/SizeClass/Pieces.antt =====
-- The pieces of a class by their slabs, and lists of pieces in another order.
use mathlib.Core.List.{
  Mem, eq-or-mem_of_mem-cons, mem-cons_self, mem-cons_of_mem, not-mem-nil, Nodup, Nodup-cons,
  Nodup-nil, Perm, Permᴰ, perm_middle, Perm-prop, Mem-prop,
}
use mathlib.Core.List.Perm
use mathlib.Core.Logic.Or
use mathlib.Core.Logic.{∥∥₁_elim}
use numa_pmr.Base.{
  ℕ, ◌≡◌, ◌≢◌, inl, inr, refl, sym, ap, subst, ◌∙◌, arith, List, [], ◌∷◌, ◌++◌, map, All,
  ℕ_discrete,
}
use numa_pmr.Slab.Frame.{Apart}
use numa_pmr.SizeClass.Contents.{Piece, AllApart, in_use}

-- The piece of a slab, by its address.
pub find : List Piece → ℕ → Piece
find [] a = record { slab = a; free = []; used = [] }
find (s ∷ rest) a = elim (ℕ_discrete a s.slab) [ yes e ↦ s | no ne ↦ find rest a ]

find-here : (s : Piece) (rest : List Piece) → find (s ∷ rest) s.slab ≡ s
unfolding find
find-here s rest =
    elim (ℕ_discrete s.slab s.slab) as (λ d. elim d [ yes e ↦ s | no ne ↦ find rest s.slab ] ≡ s) [
      | yes e ↦ refl
      | no ne ↦ absurd (ne refl)
    ]

find-there : (s : Piece) (rest : List Piece) (a : ℕ) → a ≢ s.slab → find (s ∷ rest) a ≡ find rest a
unfolding find
find-there s rest a other =
    elim (ℕ_discrete a s.slab) as (λ d. elim d [ yes e ↦ s | no ne ↦ find rest a ] ≡ find rest a) [
      | yes e ↦ absurd (other e)
      | no ne ↦ refl
    ]

pub find-slab : (pieces : List Piece) (a : ℕ) → (find pieces a).slab ≡ a
unfolding find
find-slab [] a = refl
find-slab (s ∷ rest) a = elim (ℕ_discrete a s.slab) [
  | yes e ↦ subst (λ b. (find (s ∷ rest) b).slab ≡ b) (sym e) (ap (λ t. t.slab) (find-here s rest))
  | no ne ↦ ap (λ t. t.slab) (find-there s rest a ne) ∙ find-slab rest a
]

pub slabs-find : (pieces : List Piece) (l : List ℕ) → map (λ s. s.slab) (map (find pieces) l) ≡ l
slabs-find pieces [] = refl
slabs-find pieces (a ∷ l) = rw (find-slab pieces a, slabs-find pieces l) refl

-- What holds of every piece holds of the one found.
pub find-All :
    (P : Piece → Type 0) (pieces : List Piece) (a : ℕ)
    → All P pieces
    → Mem a (map (λ s. s.slab) pieces)
    → P (find pieces a)
unfolding find
find-All P [] a h m = absurd (not-mem-nil m)
find-All P (s ∷ rest) a h m =
    elim (ℕ_discrete a s.slab) as (λ d. P (elim d [ yes e ↦ s | no ne ↦ find rest a ])) [
      | yes e ↦ h.0
      | no ne ↦
          find-All P rest a h.1
            (Or.elim Mem-prop (eq-or-mem_of_mem-cons m) (λ e. absurd (ne e)) (λ i. i))
    ]

pub All-find :
    (P : Piece → Type 0) (pieces : List Piece) (l : List ℕ)
    → All P pieces
    → ((a : ℕ) → Mem a l → Mem a (map (λ s. s.slab) pieces))
    → All P (map (find pieces) l)
All-find P pieces [] h sub = tt
All-find P pieces (a ∷ l) h sub = (
  find-All P pieces a h (sub a mem-cons_self),
  All-find P pieces l h (λ b m. sub b (mem-cons_of_mem a m)),
)

Apart-other : (s t : ℕ) → Apart s t → t ≢ s
Apart-other s t (inl le) e = absurd (omega arith)
Apart-other s t (inr le) e = absurd (omega arith)

skip :
    (s : Piece) (rest l : List Piece)
    → All (λ t. Apart s.slab t.slab) l
    → map (find (s ∷ rest)) (map (λ t. t.slab) l) ≡ map (find rest) (map (λ t. t.slab) l)
skip s rest [] h = refl
skip s rest (t ∷ l) h =
    rw (find-there s rest t.slab (Apart-other s.slab t.slab h.0), skip s rest l h.1) refl

-- Slabs apart are found again.
pub find-slabs :
    (pieces : List Piece) → AllApart pieces → map (find pieces) (map (λ s. s.slab) pieces) ≡ pieces
find-slabs [] h = refl
find-slabs (s ∷ rest) h = rw (find-here s rest, skip s rest rest h.0, find-slabs rest h.1) refl

pub All-at :
    (Q : ℕ → Type 0) (l : List Piece) (a : ℕ)
    → All (λ t. Q t.slab) l
    → Mem a (map (λ t. t.slab) l)
    → Q a
All-at Q l a h m = subst Q (find-slab l a) (find-All (λ t. Q t.slab) l a h m)

tail_mem :
    (s : Piece) (rest : List Piece) (a : ℕ)
    → a ≢ s.slab
    → Mem a (map (λ t. t.slab) (s ∷ rest))
    → Mem a (map (λ t. t.slab) rest)
tail_mem s rest a ne m = Or.elim Mem-prop (eq-or-mem_of_mem-cons m) (λ e. absurd (ne e)) (λ i. i)

swap_sides : (s t : ℕ) → Apart s t → Apart t s
swap_sides s t (inl le) = inr le
swap_sides s t (inr le) = inl le

-- Two slabs of the class do not overlap.
pub any_two :
    (pieces : List Piece) (a b : ℕ)
    → AllApart pieces
    → Mem a (map (λ s. s.slab) pieces)
    → Mem b (map (λ s. s.slab) pieces)
    → a ≢ b
    → Apart a b
any_two [] a b h i j ne = absurd (not-mem-nil i)
any_two (s ∷ rest) a b h i j ne = elim (ℕ_discrete a s.slab) [
  | yes ea ↦
      rw ea (All-at (λ c. Apart s.slab c) rest b h.0 (tail_mem s rest b (λ eb. ne (ea ∙ sym eb)) j))
  | no na ↦ elim (ℕ_discrete b s.slab) [
    | yes eb ↦
        rw eb
          (swap_sides s.slab a (All-at (λ c. Apart s.slab c) rest a h.0 (tail_mem s rest a na i)))
    | no nb ↦ any_two rest a b h.1 (tail_mem s rest a na i) (tail_mem s rest b nb j) ne
  ]
]

-- No slab stands twice.
pub AllApart-Nodup : (pieces : List Piece) → AllApart pieces → Nodup (map (λ s. s.slab) pieces)
AllApart-Nodup [] h = Nodup-nil
AllApart-Nodup (s ∷ rest) h = Nodup-cons.1 (
  λ m. Apart-other s.slab s.slab (All-at (λ c. Apart s.slab c) rest s.slab h.0 m) refl,
  AllApart-Nodup rest h.1,
)

-- Some of the slabs, in any order.
pub find-AllApart :
    (pieces : List Piece) (l : List ℕ)
    → AllApart pieces
    → Nodup l
    → ((a : ℕ) → Mem a l → Mem a (map (λ s. s.slab) pieces))
    → AllApart (map (find pieces) l)
find-AllApart pieces [] h d sub = tt
find-AllApart pieces (a ∷ l) h d sub = (
  around_first l (λ b m. sub b (mem-cons_of_mem a m)) (Nodup-cons.0 d).0,
  find-AllApart pieces l h (Nodup-cons.0 d).1 (λ b m. sub b (mem-cons_of_mem a m)),
)
  where
    around_first :
        (l' : List ℕ)
        → ((b : ℕ) → Mem b l' → Mem b (map (λ s. s.slab) pieces))
        → ¬ Mem a l'
        → All (λ t. Apart (find pieces a).slab t.slab) (map (find pieces) l')
    around_first [] sub' out = tt
    around_first (b ∷ l') sub' out = (
      rw (find-slab pieces a, find-slab pieces b)
          (any_two pieces a b h (sub a mem-cons_self) (sub' b mem-cons_self)
            (λ e. out (subst (λ c. Mem a (c ∷ l')) e mem-cons_self))),
      around_first l' (λ c m. sub' c (mem-cons_of_mem b m)) (λ m. out (mem-cons_of_mem b m)),
    )

-- Two parts swapped.
pub swap_front : (u v w : List ℕ) → Perm (u ++ (v ++ w)) (v ++ (u ++ w))
swap_front [] v w = Perm.refl _
swap_front (x ∷ u) v w =
    Perm.trans (Perm.cons x (swap_front u v w)) (Perm.symm (perm_middle v (u ++ w)))

-- The blocks in use do not depend on the order of the slabs.
in_use-Permᴰ : {xs ys : List Piece} → Permᴰ xs ys → Perm (in_use xs) (in_use ys)
unfolding in_use
in_use-Permᴰ Permᴰ.nil = Perm.refl _
in_use-Permᴰ (Permᴰ.cons {a} e d) = rw (← e) (Perm.append_left a.used (in_use-Permᴰ d))
in_use-Permᴰ (Permᴰ.swap {a} {b} {l = l} e1 e2) =
    rw (← e1, ← e2) (swap_front a.used b.used (in_use l))
in_use-Permᴰ (Permᴰ.trans d1 d2) = Perm.trans (in_use-Permᴰ d1) (in_use-Permᴰ d2)

pub in_use-Perm : {xs ys : List Piece} → Perm xs ys → Perm (in_use xs) (in_use ys)
in_use-Perm p = ∥∥₁_elim p Perm-prop in_use-Permᴰ
