-- ===== src/SmallObject/Pool.antt =====
-- What a `SmallObjectAllocator` holds: the slabs of each class, apart from one another and from
-- those of the other classes, and the blocks in use of all of them.
use mathlib.Core.List.{mem-cons_self, Mem, mem-append_right}
use mathlib.Core.List.Perm
use numa_pmr.Base.{
  ◌∙◌, ℕ, ◌≢◌, ◌<◌, ◌≤◌, inl, inr, sym, subst, arith, List, [], ◌∷◌, All, ℕ_discrete,
}
use numa_pmr.Machine.Memory.{Memory, update, update_self, update_ne}
use numa_pmr.Config.Small.{small_large_threshold}
use numa_pmr.Slab.Frame.{Apart, Inside, IsSlab-Inside}
use numa_pmr.Machine.Word.{null}
use numa_pmr.SizeClassTable.{class_size_at, num_size_classes}
use numa_pmr.SizeClassTable.Index.{class_size_at_lem, num_size_classes_lem}
use numa_pmr.SizeClass.{SizeClass}
use numa_pmr.SizeClass.Contents.{All-zip, Piece, IsPiece, IsClass, in_use, All-append}
use numa_pmr.SizeClass.Beside.{Frame}
use numa_pmr.SizeClass.Existing.{Away}
use numa_pmr.SizeClass.Take.{elsewhere}
use numa_pmr.SizeClass.Used.{used_at}
use numa_pmr.SmallObject.{SmallObjectAllocator}
use numa_pmr.SmallObject.Joined.{joined}

pub class_size-small : (i : ℕ) → i < num_size_classes → class_size_at i ≤ small_large_threshold
class_size-small i lt = ground (arith, num_size_classes_lem, class_size_at_lem i)

-- The slabs of each class.
abbrev pub Pool : Type 0
Pool = ℕ → List Piece

-- Every class is well formed, and the slabs of two classes do not overlap.
pub record IsPool (pool : Pool) (a : SmallObjectAllocator) (m : Memory) : Type 0 where
  pub each : (i : ℕ) → i < num_size_classes → IsClass (class_size_at i) (pool i) (a.classes i) m
  pub apart :
      (i j : ℕ)
      → i < num_size_classes
      → j < num_size_classes
      → j ≢ i
      → All (λ s. Away (pool i) s.slab) (pool j)

-- The blocks in use of all classes.
abbrev pub used_blocks : Pool → List ℕ
used_blocks pool = joined num_size_classes (λ i. in_use (pool i))

pub All-mono :
    (P Q : Piece → Type 0) (l : List Piece) → ((s : Piece) → P s → Q s) → All P l → All Q l
All-mono P Q [] f h = tt
All-mono P Q (s ∷ l) f h = (f s h.0, All-mono P Q l f h.1)

flip : (s t : ℕ) → Apart s t → Apart t s
flip s t (inl le) = inr le
flip s t (inr le) = inl le

-- Slabs apart from others have these apart from them.
pub Away-flip : (xs ys : List Piece) → All (λ s. Away xs s.slab) ys → All (λ s. Away ys s.slab) xs
Away-flip [] ys h = tt
Away-flip (x ∷ xs) ys h = (
  All-mono (λ s. Away (x ∷ xs) s.slab) (λ t. Apart t.slab x.slab) ys (λ t a. flip x.slab t.slab a.0)
      h,
  Away-flip xs ys (All-mono (λ s. Away (x ∷ xs) s.slab) (λ s. Away xs s.slab) ys (λ t a. a.1) h),
)

-- A block in use stands in one of the slabs.
pub used_Inside :
    {n : ℕ} (small : n ≤ small_large_threshold) (m : Memory) (x : ℕ) (pieces : List Piece)
    (Q : Piece → Type 0)
    → All (IsPiece n m) pieces
    → Mem x (in_use pieces)
    → All Q pieces
    → (s : Piece) × Inside s.slab x × Q s
used_Inside {n} small m x pieces Q each i h =
    let at = used_at x pieces i in
    let split =
      All-append (IsPiece n m) at.pre (at.here ∷ at.post)
        (subst (λ l. All (IsPiece n m) l) at.whole each) in
    let q = All-append Q at.pre (at.here ∷ at.post) (subst (λ l. All Q l) at.whole h) in
    (
      at.here,
      IsSlab-Inside split.1.0.0 small x split.1.0.1
          (mem-append_right at.here.free ((Perm.mem_iff at.in_slab).0 mem-cons_self)),
      q.1.0,
    )

-- A block in use in one list of slabs is not in use in another apart from it.
pub not_in_both :
    {n k : ℕ} (small : n ≤ small_large_threshold) (fits : k ≤ small_large_threshold) (m m' : Memory)
    (x : ℕ) (xs ys : List Piece)
    → All (IsPiece n m) xs
    → All (IsPiece k m') ys
    → All (λ s. Away xs s.slab) ys
    → Mem x (in_use xs)
    → ¬ Mem x (in_use ys)
not_in_both small fits m m' x xs ys each each' apart i =
    let (s, inside, away) =
      used_Inside small m x xs (λ s. Away ys s.slab) each i (Away-flip xs ys apart) in
    elsewhere fits m' s.slab x ys each'
      (All-mono (λ t. Apart t.slab s.slab) (λ t. Apart s.slab t.slab) ys
        (λ t a. flip t.slab s.slab a) away)
      inside

-- A class with the slabs `pieces` in place of those of class `i`, and what is beside them as it was.
module _ (pool : Pool) (a : SmallObjectAllocator) (m m' : Memory) (v : IsPool pool a m) (i : ℕ)
    (below : i < num_size_classes) (pieces : List Piece) (c : SizeClass) (Beside : ℕ → Type 0)
    (class : IsClass (class_size_at i) pieces c m') (frame : Frame Beside m m')
    (beside : (j : ℕ) → j < num_size_classes → j ≢ i → All (λ s. Beside s.slab) (pool j))
    (away : (t : ℕ) → Beside t → Away pieces t) where
  others_each :
      (j : ℕ) → j < num_size_classes → j ≢ i → IsClass (class_size_at j) (pool j) (a.classes j) m'
  others_each j lt ne =
      let old = v.each j lt in
      record {
        size = old.size;
        items = old.items;
        each =
            All-zip (IsPiece (class_size_at j) m) (λ s. Beside s.slab)
              (IsPiece (class_size_at j) m') (pool j)
              (λ s p b. frame (class_size_at j) s (class_size-small j lt) b p) old.each
              (beside j lt ne);
        apart = old.apart;
        current = old.current;
      }

  pub others-Away : (j : ℕ) → j < num_size_classes → j ≢ i → All (λ s. Away pieces s.slab) (pool j)
  others-Away j lt ne =
      All-mono (λ s. Beside s.slab) (λ s. Away pieces s.slab) (pool j) (λ s b. away s.slab b)
        (beside j lt ne)

  pub replaced-IsPool :
      IsPool (update pool i pieces) (record a { classes = update a.classes i c }) m'
  replaced-IsPool = record {
    each = λ j lt. elim (ℕ_discrete j i) [
      | yes e ↦ rw e (rw (update_self pool i pieces, update_self a.classes i c) class)
      | no ne ↦
          rw (update_ne pool i j pieces ne, update_ne a.classes i j c ne) (others_each j lt ne)
    ];
    apart = λ j k lt lt' ne. elim (ℕ_discrete j i) [
      | yes e ↦
          let other : k ≢ i = λ same. ne (same ∙ sym e) in
          rw e (
            rw (update_self pool i pieces, update_ne pool i k pieces other)
              (others-Away k lt' other))
      | no nj ↦ elim (ℕ_discrete k i) [
        | yes e ↦ rw e (
            rw (update_self pool i pieces, update_ne pool i j pieces nj)
              (Away-flip pieces (pool j) (others-Away j lt nj)))
        | no nk ↦
            rw (update_ne pool i k pieces nk, update_ne pool i j pieces nj) (v.apart j k lt lt' ne)
      ]
    ];
  }

-- A block in use in one class is not in use in another.
pub one_class :
    (pool : Pool) (a : SmallObjectAllocator) (m : Memory) (i j x : ℕ)
    → IsPool pool a m
    → i < num_size_classes
    → j < num_size_classes
    → j ≢ i
    → Mem x (in_use (pool i))
    → ¬ Mem x (in_use (pool j))
one_class pool a m i j x v lt lt' ne =
    not_in_both (class_size-small i lt) (class_size-small j lt') m m x (pool i) (pool j)
      (v.each i lt).each (v.each j lt').each (v.apart i j lt lt' ne)

-- No block in use is null.
pub used_ne_null :
    (pool : Pool) (a : SmallObjectAllocator) (m : Memory) (i x : ℕ)
    → IsPool pool a m
    → i < num_size_classes
    → Mem x (in_use (pool i))
    → x ≢ null
used_ne_null pool a m i x v lt used e =
    let (s, inside, piece) =
      used_Inside (class_size-small i lt) m x (pool i) (IsPiece (class_size_at i) m)
        (v.each i lt).each used (v.each i lt).each in
    absurd (omega (arith, inside, piece.0.ne_null, e))
