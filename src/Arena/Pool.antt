-- ===== src/Arena/Pool.antt =====
-- What an arena's small allocator holds, with the size and the node that the header of each block in
-- use names.
use mathlib.Core.List.{
  mem-append_right, mem-append_left, Perm, mem-cons_of_mem, mem-cons_self, Mem, Nodup, Nodup-append,
}
use numa_pmr.Base.{
  ℤ, to_u32, sym, subst, ℕ, ◌≡◌, ◌<◌, refl, ◌∙◌, List, [], ◌∷◌, All, ℕ_discrete, ◌≤◌, ◌++◌,
}
use numa_pmr.Machine.Memory.{Memory, BlockHeader, update_self, update_ne, write_block}
use numa_pmr.Block.{to_user_ptr}
use numa_pmr.Slab.Frame.{IsSlab-frame}
use numa_pmr.SizeClassTable.{class_size_at, num_size_classes}
use numa_pmr.SizeClass.Contents.{All-zip, Piece, IsPiece, in_use}
use numa_pmr.SmallObject.{SmallObjectAllocator}
use numa_pmr.SmallObject.Pool.{Pool, IsPool, All-mono, one_class}
use numa_pmr.Arena.{NumaArena, foreign_high_watermark}
use numa_pmr.BlockList.{BlockBin}
use numa_pmr.BlockList.Chained.{IsBin}
use numa_pmr.Slab.Chain.{IsChain-frame}
use numa_pmr.SmallObject.Joined.{joined, joined-none}
use mathlib.Core.List.Perm

-- A header with this node, as the word that the code keeps, and this size.
abbrev pub Label : ℤ → ℕ → BlockHeader → Type 0
Label node size h = (h.size_class ≡ size) × (h.node_id ≡ to_u32 node)

-- The header of each block in use has the size of its class, and the arena's node.
abbrev pub Labelled : Pool → ℤ → Memory → Type 0
Labelled pool node m =
    (i x : ℕ)
    → i < num_size_classes
    → Mem x (in_use (pool i))
    → Label node (class_size_at i) (m.block x)

-- The slabs of each class, and the blocks in use of each class: those in its foreign bin, and those
-- that are out with the clients.
pub record Stock : Type 0 where
  pub pool : Pool
  pub binned : ℕ → List ℕ
  pub out : ℕ → List ℕ

abbrev pub out_blocks : Stock → List ℕ
out_blocks k = joined num_size_classes k.out

-- Every class is well formed and no two slabs overlap; the blocks in use are labelled, and each is
-- either in the foreign bin of its class or out, once; no bin is over its high watermark.
pub record IsArena (k : Stock) (a : NumaArena) (m : Memory) : Type 0 where
  pub small : IsPool k.pool a.small m
  pub labelled : Labelled k.pool a.node_id m
  pub split : (i : ℕ) → i < num_size_classes → Perm (k.binned i ++ k.out i) (in_use (k.pool i))
  pub distinct : (i : ℕ) → i < num_size_classes → Nodup (k.binned i ++ k.out i)
  pub bins :
      (i : ℕ) → i < num_size_classes → IsBin (class_size_at i) (k.binned i) (a.foreign_bins i) m
  pub bounded :
      (i : ℕ)
      → i < num_size_classes
      → (a.foreign_bins i).bytes ≤ foreign_high_watermark (class_size_at i)

-- A bin whose blocks' links are the same.
pub IsBin-frame :
    {size : ℕ} {xs : List ℕ} {b : BlockBin} {m m' : Memory}
    → ((x : ℕ) → Mem x xs → m'.link (to_user_ptr x) ≡ m.link (to_user_ptr x))
    → IsBin size xs b m
    → IsBin size xs b m'
IsBin-frame {xs = xs} {b} {m} {m'} same v = record {
  chain = IsChain-frame m.link m'.link b.head xs same v.chain;
  distinct = v.distinct;
  count = v.count;
  bytes = v.bytes;
  in_words = v.in_words;
}

module _ (k : Stock) (a : NumaArena) (m : Memory) (v : IsArena k a m) (i x : ℕ)
    (lt : i < num_size_classes) where
  pub binned-used : Mem x (k.binned i) → Mem x (in_use (k.pool i))
  binned-used h = (Perm.mem_iff (v.split i lt)).0 (mem-append_left (k.out i) h)

  pub out-used : Mem x (k.out i) → Mem x (in_use (k.pool i))
  out-used h = (Perm.mem_iff (v.split i lt)).0 (mem-append_right (k.binned i) h)

  -- A block in a bin is not out.
  pub binned-out : Mem x (k.binned i) → ¬ Mem x (out_blocks k)
  binned-out h = joined-none num_size_classes x k.out λ j lt'. elim (ℕ_discrete j i) [
    | yes e ↦ subst (λ c. ¬ Mem x (k.out c)) (sym e) ((Nodup-append.0 (v.distinct i lt)).2 x h)
    | no ne ↦ λ there.
        one_class k.pool a.small m i j x v.small lt lt' ne (binned-used h)
          ((Perm.mem_iff (v.split j lt')).0 (mem-append_right (k.binned j) there))
  ]

-- The slab's header, the links of its free blocks and the owners of its blocks in use are the same.
abbrev pub Agrees : Memory → Memory → Piece → Type 0
Agrees m m' t =
    (m'.slab t.slab ≡ m.slab t.slab)
    × ((x : ℕ) → Mem x t.free → m'.link (to_user_ptr x) ≡ m.link (to_user_ptr x))
    × ((x : ℕ) → Mem x t.used → (m'.block x).raw_ptr ≡ (m.block x).raw_ptr)

owners :
    (m m' : Memory) (s : ℕ) (l : List ℕ)
    → ((x : ℕ) → Mem x l → (m'.block x).raw_ptr ≡ (m.block x).raw_ptr)
    → All (λ x. (m.block x).raw_ptr ≡ s) l
    → All (λ x. (m'.block x).raw_ptr ≡ s) l
owners m m' s [] same h = tt
owners m m' s (x ∷ l) same h =
    (same x mem-cons_self ∙ h.0, owners m m' s l (λ y i. same y (mem-cons_of_mem x i)) h.1)

IsPiece-Agrees :
    {n : ℕ} (m m' : Memory) (t : Piece) → IsPiece n m t → Agrees m m' t → IsPiece n m' t
IsPiece-Agrees m m' t v same =
    (v.0, IsSlab-frame same.0 same.1 v.1, owners m m' t.slab t.used same.2 v.2)

-- An allocator whose slabs the memory agrees in.
pub IsPool-Agrees :
    (pool : Pool) (a : SmallObjectAllocator) (m m' : Memory)
    → ((i : ℕ) → i < num_size_classes → All (Agrees m m') (pool i))
    → IsPool pool a m
    → IsPool pool a m'
IsPool-Agrees pool a m m' same v = record {
  each = λ i lt.
      let old = v.each i lt in
      record {
        size = old.size;
        items = old.items;
        each =
            All-zip (IsPiece (class_size_at i) m) (Agrees m m') (IsPiece (class_size_at i) m')
              (pool i) (IsPiece-Agrees m m') old.each (same i lt);
        apart = old.apart;
        current = old.current;
      };
  apart = v.apart;
}

write_block-Agrees :
    (p : ℕ) (s : Piece) (h : BlockHeader) (m : Memory)
    → h.raw_ptr ≡ (m.block p).raw_ptr
    → Agrees m (write_block p h m) s
write_block-Agrees p s h m same = (
  refl,
  (λ x _. refl),
  λ x _. elim (ℕ_discrete x p) [
    | yes e ↦ rw e (rw (update_self m.block p h) same)
    | no ne ↦ rw (update_ne m.block p x h ne) refl
  ],
)

-- A header written that keeps the block's owner.
pub write_block-IsPool :
    (pool : Pool) (a : SmallObjectAllocator) (p : ℕ) (h : BlockHeader) (m : Memory)
    → h.raw_ptr ≡ (m.block p).raw_ptr
    → IsPool pool a m
    → IsPool pool a (write_block p h m)
write_block-IsPool pool a p h m same v =
    IsPool-Agrees pool a m (write_block p h m)
      (λ i lt.
        All-mono (IsPiece (class_size_at i) m) (Agrees m (write_block p h m)) (pool i)
          (λ s _. write_block-Agrees p s h m same) (v.each i lt).each)
      v
