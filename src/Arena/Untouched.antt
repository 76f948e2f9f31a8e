-- ===== src/Arena/Untouched.antt =====
-- What an arena's small allocator relies on while other code runs: its own calls apart, nobody
-- writes the slabs' headers, the block headers or the links of free blocks.
use mathlib.Core.List.{mem-append_right, mem-append_left, Mem}
use numa_pmr.Base.{
  ℕ, ◌≡◌, ◌<◌, ◌≤◌, refl, sym, ap, subst, List, [], ◌∷◌, ◌++◌, map, All, ℕ_discrete,
}
use numa_pmr.Machine.Memory.{Memory}
use numa_pmr.Machine.Object.{Object}
use numa_pmr.Block.{to_user_ptr}
use numa_pmr.Config.Small.{small_large_threshold}
use numa_pmr.Slab.Frame.{Apart, Inside, IsSlab-Inside}
use numa_pmr.SizeClassTable.{class_size_at, num_size_classes}
use numa_pmr.SizeClass.Contents.{Piece, IsPiece, IsClass, in_use, All-append}
use numa_pmr.SizeClass.Existing.{Away}
use numa_pmr.SizeClass.Take.{elsewhere, fresh_block}
use numa_pmr.SmallObject.{SmallObjectAllocator}
use numa_pmr.SmallObject.Joined.{joined-none}
use numa_pmr.SmallObject.Pool.{used_Inside, Pool, IsPool, used_blocks, class_size-small, All-mono}
use numa_pmr.Arena.{NumaArena}
use numa_pmr.Arena.Pool.{Agrees, IsPool-Agrees}

-- The slabs of class `i` of the arena.
abbrev pub slabs_of : SmallObjectAllocator → ℕ → List ℕ
slabs_of a i = (a.classes i).slabs.items

-- From `m` to `m'`, the slab's header and its blocks' headers are the same, and so are all links but
-- those in the payloads `held`, which belong to the client.
abbrev pub SameSlab : List ℕ → Memory → Memory → ℕ → Type 0
SameSlab held m m' s =
    (m'.slab s ≡ m.slab s)
    × ((x : ℕ)
        → Inside s x
        → (m'.block x ≡ m.block x)
          × (¬ Mem (to_user_ptr x) held → m'.link (to_user_ptr x) ≡ m.link (to_user_ptr x)))

-- Code outside the arena's small allocator ran: it left the arena's node, which is never assigned,
-- its small allocator and its bins, and kept to the payloads `held` within the slabs.
pub record Untouched (held : List ℕ) (o o' : Object NumaArena) : Type 0 where
  pub same_node : o'.self.node_id ≡ o.self.node_id
  pub same_small : o'.self.small ≡ o.self.small
  pub same_bins : o'.self.foreign_bins ≡ o.self.foreign_bins
  pub same_slabs :
      (i : ℕ)
      → i < num_size_classes
      → All (SameSlab held o.world.memory o'.world.memory) (slabs_of o.self.small i)

-- What holds at each entry of a list, split there.
All-splits :
    (Q : Piece → Type 0) (l : List Piece)
    → ((pre : List Piece) (t : Piece) (post : List Piece) → l ≡ pre ++ t ∷ post → Q t)
    → All Q l
All-splits Q [] f = tt
All-splits Q (t ∷ l) f =
    (f [] t l refl, All-splits Q l (λ pre s post e. f (t ∷ pre) s post (ap (λ k. t ∷ k) e)))

map-All : (P : ℕ → Type 0) (l : List Piece) → All P (map (λ s. s.slab) l) → All (λ s. P s.slab) l
map-All P [] h = tt
map-All P (s ∷ l) h = (h.0, map-All P l h.1)

pub slabs-All :
    (P : ℕ → Type 0) (pool : Pool) (a : SmallObjectAllocator) (m : Memory)
    → IsPool pool a m
    → (i : ℕ) → i < num_size_classes
    → All P (slabs_of a i)
    → All (λ s. P s.slab) (pool i)
slabs-All P pool a m v i lt h = map-All P (pool i) (subst (λ l. All P l) (v.each i lt).items h)

module _ (pool : Pool) (a : SmallObjectAllocator) (m : Memory) (v : IsPool pool a m) (i : ℕ)
    (lt : i < num_size_classes) (pre post : List Piece) (t : Piece)
    (split : pool i ≡ pre ++ t ∷ post) where
  small : class_size_at i ≤ small_large_threshold
  small = class_size-small i lt

  class : IsClass (class_size_at i) (pre ++ t ∷ post) (a.classes i) m
  class = subst (λ l. IsClass (class_size_at i) l (a.classes i) m) split (v.each i lt)

  this : IsPiece (class_size_at i) m t
  this = (All-append (IsPiece (class_size_at i) m) pre (t ∷ post) class.each).1.0

  -- A free block is not in use in any class.
  free_not_in_use : (x : ℕ) → Mem x t.free → ¬ Mem x (used_blocks pool)
  free_not_in_use x free =
      joined-none num_size_classes x (λ j. in_use (pool j))
        λ j lt'. elim (ℕ_discrete j i) [
          | yes e ↦
              subst (λ k. ¬ Mem x (in_use (pool k))) (sym e)
                (subst (λ l. ¬ Mem x (in_use l)) (sym split)
                  (fresh_block small m pre post t (a.classes i) class (Away (pre ++ t ∷ post))
                    (λ u h. h) x free))
          | no ne ↦
              elsewhere (class_size-small j lt') m t.slab x (pool j) (v.each j lt').each
                (All-mono (λ u. Away (pool i) u.slab) (λ u. Apart t.slab u.slab) (pool j)
                  (λ u h.
                    (All-append (λ w. Apart w.slab u.slab) pre (t ∷ post)
                      (subst (λ l. Away l u.slab) split h)).1.0)
                  (v.apart i j lt lt' ne))
                (IsSlab-Inside this.0 small x this.1 (mem-append_left t.used free))
        ]

  same_piece :
      (held : List ℕ) (m' : Memory)
      → ((x : ℕ) → Mem (to_user_ptr x) held → Mem x (used_blocks pool))
      → SameSlab held m m' t.slab
      → Agrees m m' t
  same_piece held m' owned same = (
    same.0,
    (λ x free.
        (same.1 x (IsSlab-Inside this.0 small x this.1 (mem-append_left t.used free))).1
          (λ k. free_not_in_use x free (owned x k))),
    λ x used.
        ap (λ b. b.raw_ptr)
          ((same.1 x (IsSlab-Inside this.0 small x this.1 (mem-append_right t.free used))).0),
  )

-- The classes stay well formed while other code runs.
pub untouched-IsPool :
    (pool : Pool) (a : SmallObjectAllocator) (m m' : Memory) (held : List ℕ)
    → IsPool pool a m
    → ((x : ℕ) → Mem (to_user_ptr x) held → Mem x (used_blocks pool))
    → ((i : ℕ) → i < num_size_classes → All (SameSlab held m m') (slabs_of a i))
    → IsPool pool a m'
untouched-IsPool pool a m m' held v owned same =
    IsPool-Agrees pool a m m'
      (λ i lt. All-splits (Agrees m m') (pool i) λ pre t post split.
        same_piece pool a m v i lt pre post t split held m' owned (
          (All-append (λ s. SameSlab held m m' s.slab) pre (t ∷ post)
            (subst (λ l. All (λ s. SameSlab held m m' s.slab) l) split
              (slabs-All (SameSlab held m m') pool a m v i lt (same i lt)))).1.0))
      v

-- The header of a block in use.
pub untouched-block :
    (pool : Pool) (a : SmallObjectAllocator) (m m' : Memory) (held : List ℕ) (i x : ℕ)
    → IsPool pool a m
    → ((j : ℕ) → j < num_size_classes → All (SameSlab held m m') (slabs_of a j))
    → i < num_size_classes
    → Mem x (in_use (pool i))
    → m'.block x ≡ m.block x
untouched-block pool a m m' held i x v same lt used =
    let (s, inside, here) =
      used_Inside (class_size-small i lt) m x (pool i) (λ s. SameSlab held m m' s.slab)
        (v.each i lt).each used (slabs-All (SameSlab held m m') pool a m v i lt (same i lt)) in
    (here.1 x inside).0

-- The link of a block in use that the client does not hold.
pub untouched-link :
    (pool : Pool) (a : SmallObjectAllocator) (m m' : Memory) (held : List ℕ) (i x : ℕ)
    → IsPool pool a m
    → ((j : ℕ) → j < num_size_classes → All (SameSlab held m m') (slabs_of a j))
    → i < num_size_classes
    → Mem x (in_use (pool i))
    → ¬ Mem (to_user_ptr x) held
    → m'.link (to_user_ptr x) ≡ m.link (to_user_ptr x)
untouched-link pool a m m' held i x v same lt used out =
    let (s, inside, here) =
      used_Inside (class_size-small i lt) m x (pool i) (λ s. SameSlab held m m' s.slab)
        (v.each i lt).each used (slabs-All (SameSlab held m m') pool a m v i lt (same i lt)) in
    (here.1 x inside).1 out
