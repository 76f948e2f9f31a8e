-- ===== src/SizeClass/Contents.antt =====
-- What a size class holds: its slabs, each with its free blocks and its blocks in use, apart from
-- one another.
use mathlib.Core.List.{
  Mem-prop, mem-cons_of_mem, Mem, mem-cons_self, eq-or-mem_of_mem-cons, not-mem-nil, Perm,
  perm_middle, append_assoc,
}
use mathlib.Core.List.Perm
use mathlib.Core.Logic.Or
use numa_pmr.Base.{
  ℕ, ◌≡◌, ◌⊎◌, inl, inr, refl, sym, ap, subst, ◌∙◌, List, [], ◌∷◌, ◌++◌, map, All, Option, some,
  true, Bool-cases, ℕ_discrete,
}
use numa_pmr.Machine.Word.{null}
use numa_pmr.Machine.Memory.{Memory}
use numa_pmr.Slab.{has_free}
use numa_pmr.Slab.Layout.{IsBase}
use numa_pmr.Slab.FreeList.{IsSlab}
use numa_pmr.Slab.Frame.{Apart}
use numa_pmr.SizeClass.{SizeClass, first_free}

-- A slab of the class, with its blocks.
pub record Piece : Type 0 where
  pub slab : ℕ
  pub free : List ℕ
  pub used : List ℕ

-- A well-formed slab, which the headers of its blocks in use name.
abbrev pub IsPiece : (n : ℕ) → Memory → Piece → Type 0
IsPiece n m s =
    IsBase s.slab × IsSlab s.slab n s.free s.used m × All (λ x. (m.block x).raw_ptr ≡ s.slab) s.used

-- No two slabs overlap.
abbrev pub AllApart : List Piece → Type 0
AllApart [] = Unit
AllApart (s ∷ rest) = All (λ t. Apart s.slab t.slab) rest × AllApart rest

-- A class of block size `n` with the slabs `pieces`, in the vector's order, and a current slab that is null or one of them.
pub record IsClass (n : ℕ) (pieces : List Piece) (c : SizeClass) (m : Memory) : Type 0 where
  pub size : c.block_size ≡ n
  pub items : c.slabs.items ≡ map (λ s. s.slab) pieces
  pub each : All (IsPiece n m) pieces
  pub apart : AllApart pieces
  pub current : (c.current ≡ null) ⊎ Mem c.current (map (λ s. s.slab) pieces)

-- The blocks in use.
unfoldable pub in_use : List Piece → List ℕ
in_use [] = []
in_use (s ∷ rest) = s.used ++ in_use rest

-- A list of pieces, split at one of them.
pub record SplitAt (slab : ℕ) (pieces : List Piece) : Type 0 where
  pub pre : List Piece
  pub here : Piece
  pub post : List Piece
  pub whole : pieces ≡ pre ++ here ∷ post
  pub slab_eq : here.slab ≡ slab

pub split_at :
    (slab : ℕ) (pieces : List Piece) → Mem slab (map (λ s. s.slab) pieces) → SplitAt slab pieces
split_at slab [] m = absurd (not-mem-nil m)
split_at slab (s ∷ rest) m = elim (ℕ_discrete slab s.slab) [
  | yes e ↦ record { pre = []; here = s; post = rest; whole = refl; slab_eq = sym e }
  | no ne ↦
      let tail : SplitAt slab rest =
        split_at slab rest
          (Or.elim Mem-prop (eq-or-mem_of_mem-cons m) (λ e. absurd (ne e)) (λ i. i)) in
      record {
        pre = s ∷ tail.pre;
        here = tail.here;
        post = tail.post;
        whole = ap (λ l. s ∷ l) tail.whole;
        slab_eq = tail.slab_eq;
      }
]

pub All-append :
    {A : Type 0} (P : A → Type 0) (xs ys : List A) → All P (xs ++ ys) → All P xs × All P ys
All-append P [] ys h = (tt, h)
All-append P (x ∷ xs) ys h = let (l, r) = All-append P xs ys h.1 in ((h.0, l), r)

pub append-All :
    {A : Type 0} (P : A → Type 0) (xs ys : List A) → All P xs → All P ys → All P (xs ++ ys)
append-All P [] ys h k = k
append-All P (x ∷ xs) ys h k = (h.0, append-All P xs ys h.1 k)

pub All-zip :
    {A : Type 0} (P Q R : A → Type 0) (xs : List A)
    → ((x : A) → P x → Q x → R x)
    → All P xs
    → All Q xs
    → All R xs
All-zip P Q R [] f h k = tt
All-zip P Q R (x ∷ xs) f h k = (f x h.0 k.0, All-zip P Q R xs f h.1 k.1)

-- The slabs around one are apart from it.
pub around :
    (pre : List Piece) (s : Piece) (post : List Piece)
    → AllApart (pre ++ s ∷ post)
    → All (λ t. Apart s.slab t.slab) (pre ++ post)
around [] s post h = h.0
around (t ∷ pre) s post h =
    let (in_pre, rest) = All-append (λ u. Apart t.slab u.slab) pre (s ∷ post) h.0 in
    (elim rest.0 [ inl a ↦ inr a | inr a ↦ inl a ], around pre s post h.1)

-- A piece replaced by another of the same slab.
pub AllApart-replace :
    (pre : List Piece) (s s' : Piece) (post : List Piece)
    → s'.slab ≡ s.slab
    → AllApart (pre ++ s ∷ post)
    → AllApart (pre ++ s' ∷ post)
AllApart-replace [] s s' post e h = (subst (λ a. All (λ t. Apart a t.slab) post) (sym e) h.0, h.1)
AllApart-replace (t ∷ pre) s s' post e h =
    let (in_pre, rest) = All-append (λ u. Apart t.slab u.slab) pre (s ∷ post) h.0 in
    (
      append-All (λ u. Apart t.slab u.slab) pre (s' ∷ post) in_pre
          (subst (λ a. Apart t.slab a) (sym e) rest.0, rest.1),
      AllApart-replace pre s s' post e h.1,
    )

pub in_use-append : (xs ys : List Piece) → in_use (xs ++ ys) ≡ in_use xs ++ in_use ys
unfolding in_use
in_use-append [] ys = refl
in_use-append (s ∷ xs) ys =
    ap (λ l. s.used ++ l) (in_use-append xs ys) ∙ sym (append_assoc s.used (in_use xs) (in_use ys))

-- One block more in one piece is one block more in use.
pub in_use-perm :
    (pre post : List Piece) (s s' : Piece) (x : ℕ)
    → s'.used ≡ x ∷ s.used
    → Perm (in_use (pre ++ s' ∷ post)) (x ∷ in_use (pre ++ s ∷ post))
unfolding in_use
in_use-perm [] post s s' x e = rw e (Perm.refl _)
in_use-perm (t ∷ pre) post s s' x e =
    Perm.trans (Perm.append_left t.used (in_use-perm pre post s s' x e))
      (perm_middle t.used (in_use (pre ++ s ∷ post)))

-- The first slab with a free block is a slab that has one; without one no slab has.
pub first_free_lem :
    (items : List ℕ) (m : Memory) (slab : ℕ)
    → first_free items m ≡ some slab
    → Mem slab items × (has_free slab m ≡ true)
unfolding first_free
first_free_lem [] m slab e = cc
first_free_lem (s ∷ rest) m slab e = elim (Bool-cases (has_free s m)) [
  | inl free ↦
      let found : ◌≡◌ {A = Option ℕ} (some s) (some slab) = rw free at e in
      let same : s ≡ slab = cc in
      (subst (λ x. Mem x (s ∷ rest)) same mem-cons_self, subst (λ x. has_free x m ≡ true) same free)
  | inr full ↦ let (i, h) = first_free_lem rest m slab (rw full at e) in (mem-cons_of_mem s i, h)
]
