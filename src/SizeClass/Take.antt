-- ===== src/SizeClass/Take.antt =====
-- A block taken from a slab of a size class.
use mathlib.Core.List.{
  mem-append_left, not-mem-nil, Mem, Perm, Nodup-append, mem-append, mem-cons_self,
  mem-append_right, map-append,
}
use mathlib.Core.List.Perm
use mathlib.Core.Logic.Or
use mathlib.Core.HLevel.{⊥_prop}
use numa_pmr.Base.{
  ◌≢◌, ℕ, ◌≤◌, ◌≡◌, inl, inr, refl, sym, ap, subst, ◌∙◌, arith, List, [], ◌∷◌, ◌++◌, map, All,
}
use numa_pmr.Machine.Memory.{Memory}
use numa_pmr.Config.Small.{small_large_threshold}
use numa_pmr.Slab.{pop_block, capacity_for}
use numa_pmr.Slab.Layout.{IsBase}
use numa_pmr.Slab.FreeList.{IsSlab, blocks-Nodup}
use numa_pmr.Slab.Blocks.{pop_block_header, pop_block-IsSlab}
use numa_pmr.Slab.Frame.{Apart, Inside, IsSlab-Inside}
use numa_pmr.SizeClass.{SizeClass}
use numa_pmr.SizeClass.Beside.{Frame, pop_block-block, pop_block-owners, pop_block-IsPiece}
use numa_pmr.SizeClass.Contents.{
  All-zip, Piece, IsPiece, IsClass, in_use, All-append, append-All, around, AllApart-replace,
  in_use-append, in_use-perm,
}

-- Block `p` was free before, with `before` the class's slabs and memory `m0`, and is in use now; of
-- all other slabs those that are `Beside` are as before, and beside the slabs that the class has now.
pub record Handed (n : ℕ) (before : List Piece) (Beside : ℕ → Type 0) (m0 : Memory) (p : ℕ)
    (c : SizeClass) (m : Memory) : Type 0 where
  pub pieces : List Piece
  pub class : IsClass n pieces c m
  pub fresh : ¬ Mem p (in_use before)
  pub one_more : Perm (in_use pieces) (p ∷ in_use before)
  pub frame : Frame Beside m0 m
  pub away : (t : ℕ) → Beside t → All (λ s. Apart s.slab t) pieces
  pub headers : (y : ℕ) → y ≢ p → m.block y ≡ m0.block y

module _ {n : ℕ} (small : n ≤ small_large_threshold) (m : Memory) where
  -- A block of one slab is not in use in slabs apart from it.
  pub elsewhere :
      (s x : ℕ) (l : List Piece)
      → All (IsPiece n m) l
      → All (λ t. Apart s t.slab) l
      → Inside s x
      → ¬ Mem x (in_use l)
  unfolding in_use
  elsewhere s x [] each apart inside i = absurd (not-mem-nil i)
  elsewhere s x (t ∷ l) each apart inside i =
      Or.elim ⊥_prop (mem-append.0 i)
        (λ j. overlap (IsSlab-Inside each.0.0 small x each.0.1 (mem-append_right t.free j)) apart.0)
        (elsewhere s x l each.1 apart.1 inside)
    where
      overlap : Inside t.slab x → Apart s t.slab → ⊥
      overlap h (inl le) = absurd (omega (arith, h, inside))
      overlap h (inr le) = absurd (omega (arith, h, inside))

  -- A free block of a slab is not among its blocks in use.
  free_not_used :
      (s x : ℕ) (free used : List ℕ) → IsBase s → IsSlab s n free used m → Mem x free → ¬ Mem x used
  free_not_used s x free used b v in_free i =
      (Nodup-append.0
          (Perm.nodup (Perm.symm v.all_blocks) (blocks-Nodup s n b small (capacity_for s n)))).2
        x in_free i

  module _ (pre post : List Piece) (s : Piece) (c : SizeClass) (v : IsClass n (pre ++ s ∷ post) c m)
      (Beside : ℕ → Type 0)
      (beside : (t : ℕ) → Beside t → All (λ u. Apart u.slab t) (pre ++ s ∷ post)) where
    piece : IsPiece n m s
    piece = (All-append (IsPiece n m) pre (s ∷ post) v.each).1.0

    others : All (IsPiece n m) pre × All (IsPiece n m) post
    others = let (l, r) = All-append (IsPiece n m) pre (s ∷ post) v.each in (l, r.1)

    others-Apart : All (λ t. Apart s.slab t.slab) pre × All (λ t. Apart s.slab t.slab) post
    others-Apart = All-append (λ t. Apart s.slab t.slab) pre post (around pre s post v.apart)

    -- A free block of one slab is not in use in any.
    pub fresh_block : (x : ℕ) → Mem x s.free → ¬ Mem x (in_use (pre ++ s ∷ post))
    unfolding in_use
    fresh_block x free i =
        let inside = IsSlab-Inside piece.0 small x piece.1 (mem-append_left s.used free) in
        Or.elim ⊥_prop (mem-append.0 (subst (λ l. Mem x l) (in_use-append pre (s ∷ post)) i))
          (elsewhere s.slab x pre others.0 others-Apart.0 inside)
          (λ j.
            Or.elim ⊥_prop (mem-append.0 j)
              (free_not_used s.slab x s.free s.used piece.0 piece.1 free)
              (elsewhere s.slab x post others.1 others-Apart.1 inside))

    after : (x : ℕ) → List ℕ → Piece
    after x free = record { slab = s.slab; free = free; used = x ∷ s.used }

    same_slabs :
        (s' : Piece)
        → s'.slab ≡ s.slab
        → map (λ t. t.slab) (pre ++ s' ∷ post) ≡ map (λ t. t.slab) (pre ++ s ∷ post)
    same_slabs s' e =
        map-append (λ (t : Piece). t.slab) pre (s' ∷ post)
        ∙ ap (λ a. map (λ (t : Piece). t.slab) pre ++ a ∷ map (λ (t : Piece). t.slab) post) e
        ∙ sym (map-append (λ (t : Piece). t.slab) pre (s ∷ post))

    here_owned : Mem s.slab c.slabs.items
    here_owned =
        subst (λ l. Mem s.slab l)
          (sym (v.items ∙ map-append (λ (t : Piece). t.slab) pre (s ∷ post)))
          (mem-append_right (map (λ (t : Piece). t.slab) pre) mem-cons_self)

    kept :
        (x : ℕ) (l : List Piece)
        → Inside s.slab x
        → All (IsPiece n m) l
        → All (λ t. Apart s.slab t.slab) l
        → All (IsPiece n (pop_block s.slab x m)) l
    kept x l inside =
        All-zip (IsPiece n m) (λ t. Apart s.slab t.slab) (IsPiece n (pop_block s.slab x m)) l
          (λ t v' apart. pop_block-IsPiece s.slab n small t apart m v' x inside)

    after-IsPiece :
        (x : ℕ) (free : List ℕ)
        → IsSlab s.slab n (x ∷ free) s.used m
        → IsPiece n (pop_block s.slab x m) (after x free)
    unfolding after
    after-IsPiece x free v' = (
      piece.0,
      pop_block-IsSlab piece.0 small v',
      (
        (pop_block_header s.slab x m).0,
        pop_block-owners s.slab x s.slab m s.used
            (λ y i e.
              free_not_used s.slab x (x ∷ free) s.used piece.0 v' mem-cons_self
                (subst (λ z. Mem z s.used) e i))
            piece.2,
      ),
    )

    away_still :
        (t : ℕ) (s' : Piece)
        → s'.slab ≡ s.slab
        → All (λ u. Apart u.slab t) (pre ++ s ∷ post)
        → All (λ u. Apart u.slab t) (pre ++ s' ∷ post)
    away_still t s' e h =
        let (l, r) = All-append (λ u. Apart u.slab t) pre (s ∷ post) h in
        append-All (λ u. Apart u.slab t) pre (s' ∷ post) l (subst (λ a. Apart a t) (sym e) r.0, r.1)

    -- Taking the first free block of `s`, which becomes the current slab.
    pub pop-Handed :
        (x : ℕ) (free : List ℕ)
        → s.free ≡ x ∷ free
        → Handed n
            (pre ++ s ∷ post)
            Beside
            m
            x
            (record c { current = s.slab })
            (pop_block s.slab x m)
    unfolding after
    pop-Handed x free e =
        let slab = subst (λ l. IsSlab s.slab n l s.used m) e piece.1 in
        let inside = IsSlab-Inside piece.0 small x slab mem-cons_self in
        let s' = after x free in
        let slabs = same_slabs s' refl in
        record {
          pieces = pre ++ s' ∷ post;
          class = record {
            size = v.size;
            items = v.items ∙ sym slabs;
            each =
                append-All (IsPiece n (pop_block s.slab x m)) pre (s' ∷ post)
                  (kept x pre inside others.0 others-Apart.0)
                  (after-IsPiece x free slab, kept x post inside others.1 others-Apart.1);
            apart = AllApart-replace pre s s' post refl v.apart;
            current = inr (subst (λ l. Mem s.slab l) (v.items ∙ sym slabs) here_owned);
          };
          fresh = fresh_block x (subst (λ l. Mem x l) (sym e) mem-cons_self);
          one_more = in_use-perm pre post s s' x refl;
          frame = λ k t fits b v'.
              let apart =
                (All-append (λ u. Apart u.slab t.slab) pre (s ∷ post) (beside t.slab b)).1.0 in
              pop_block-IsPiece s.slab k fits t apart m v' x inside;
          away = λ t b. away_still t s' refl (beside t b);
          headers = λ y ne. pop_block-block s.slab x y m ne;
        }
