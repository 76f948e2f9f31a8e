-- ===== src/SmallObject/Disjoint.antt =====
-- The blocks in use of all classes do not overlap, payloads included.
use mathlib.Core.List.{Mem, mem-append_right, mem-cons_self, map-append}
use mathlib.Core.List.Perm
use numa_pmr.Base.{
  ℕ, ◌≢◌, ◌<◌, ◌≤◌, inl, inr, sym, ap, subst, ◌∙◌, arith, List, ◌∷◌, map, All, ℕ_discrete,
}
use numa_pmr.Machine.Memory.{Memory}
use numa_pmr.Config.Small.{small_large_threshold}
use numa_pmr.Slab.{capacity_for}
use numa_pmr.Slab.Layout.{IsBase}
use numa_pmr.Slab.FreeList.{blocks}
use numa_pmr.Slab.Frame.{Apart}
use numa_pmr.Slab.Disjoint.{Disjoint, block_span, blocks-Disjoint}
use numa_pmr.SizeClassTable.{class_size_at, num_size_classes}
use numa_pmr.SizeClass.Contents.{Piece, IsPiece, in_use, All-append}
use numa_pmr.SizeClass.Existing.{Away}
use numa_pmr.SizeClass.Used.{used_at}
use numa_pmr.SizeClass.Pieces.{All-at, any_two}
use numa_pmr.SmallObject.{SmallObjectAllocator}
use numa_pmr.SmallObject.Pool.{Pool, IsPool, class_size-small}

-- The slab that a block in use stands in.
pub record Place (n : ℕ) (pieces : List Piece) (x : ℕ) : Type 0 where
  pub slab : ℕ
  pub owned : Mem slab (map (λ s. s.slab) pieces)
  pub base : IsBase slab
  pub block : Mem x (blocks slab n (capacity_for slab n))

pub place :
    (n : ℕ) (m : Memory) (x : ℕ) (pieces : List Piece)
    → All (IsPiece n m) pieces
    → Mem x (in_use pieces)
    → Place n pieces x
place n m x pieces each i =
    let at = used_at x pieces i in
    let piece : IsPiece n m at.here =
      (All-append (IsPiece n m) at.pre (at.here ∷ at.post)
        (subst (λ l. All (IsPiece n m) l) at.whole each)).1.0 in
    record {
      slab = at.here.slab;
      owned =
          subst (λ l. Mem at.here.slab l)
            (sym (
              ap (map (λ (s : Piece). s.slab)) at.whole
              ∙ map-append (λ (s : Piece). s.slab) at.pre (at.here ∷ at.post)))
            (mem-append_right (map (λ (s : Piece). s.slab) at.pre) mem-cons_self);
      base = piece.0;
      block =
          (Perm.mem_iff piece.1.all_blocks).0
            (mem-append_right at.here.free ((Perm.mem_iff at.in_slab).0 mem-cons_self));
    }

-- Blocks of slabs apart.
across :
    (n k x y : ℕ) (xs ys : List Piece) (p : Place n xs x) (q : Place k ys y)
    → n ≤ small_large_threshold
    → k ≤ small_large_threshold
    → Apart p.slab q.slab
    → Disjoint x n y k
across n k x y xs ys p q small fits apart =
    let (low, high, _) = block_span p.slab n p.base small x p.block in
    let (low', high', _) = block_span q.slab k q.base fits y q.block in
    elim apart [
      | inl le ↦ inl (omega (arith, high, low', le))
      | inr le ↦ inr (omega (arith, high', low, le))
    ]

-- The blocks `x` of class `i` and `y` of class `j`, when both are in use, do not overlap, each with
-- its header and the payload that its class's size says.
pub used-Disjoint :
    (pool : Pool) (a : SmallObjectAllocator) (m : Memory) (i j x y : ℕ)
    → IsPool pool a m
    → i < num_size_classes
    → j < num_size_classes
    → Mem x (in_use (pool i))
    → Mem y (in_use (pool j))
    → x ≢ y
    → Disjoint x (class_size_at i) y (class_size_at j)
used-Disjoint pool a m i j x y v lt lt' used used' ne =
    let small = class_size-small i lt in
    let fits = class_size-small j lt' in
    let p = place (class_size_at i) m x (pool i) (v.each i lt).each used in
    let q = place (class_size_at j) m y (pool j) (v.each j lt').each used' in
    elim (ℕ_discrete j i) [
      | no other ↦ across (class_size_at i) (class_size_at j) x y (pool i) (pool j) p q small fits (
          All-at (λ c. Apart c q.slab) (pool i) p.slab
            (All-at (λ c. Away (pool i) c) (pool j) q.slab (v.apart i j lt lt' other) q.owned)
            p.owned)
      | yes same ↦ elim (ℕ_discrete p.slab q.slab) [
        | no apart ↦
            across (class_size_at i) (class_size_at j) x y (pool i) (pool j) p q small fits (
              any_two (pool i) p.slab q.slab (v.each i lt).apart p.owned
                (subst (λ c. Mem q.slab (map (λ s. s.slab) (pool c))) same q.owned) apart)
        | yes one ↦
            subst (λ c. Disjoint x (class_size_at i) y (class_size_at c)) (sym same)
              (blocks-Disjoint p.slab (class_size_at i) p.base small x y ne p.block (
                subst (λ s. Mem y (blocks s (class_size_at i) (capacity_for s (class_size_at i))))
                  (sym one)
                  (subst
                    (λ c.
                      Mem y
                        (blocks q.slab (class_size_at c) (capacity_for q.slab (class_size_at c))))
                    same q.block)))
      ]
    ]
