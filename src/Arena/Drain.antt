-- ===== src/Arena/Drain.antt =====
-- The draining of the foreign bins of an arena, on an arena whose small allocator is well formed.
use mathlib.Core.List.{Mem, Perm, Nodup-append, mem-append_left, mem-append_right}
use mathlib.Core.List.Perm
use numa_pmr.Base.{
  ℕ, ◌≡◌, ◌≢◌, ◌<◌, ◌+◌, ◌==◌, refl, sym, subst, ◌∙◌, arith, Bool-cases, inl, inr, false, leb, List,
  [], ◌++◌, ℕ_discrete, ==_iff,
}
use numa_pmr.Machine.Word.{null}
use numa_pmr.Machine.Platform.{Platform}
use numa_pmr.Machine.Memory.{Memory, update, update_self, update_ne}
use numa_pmr.Machine.Monad.{Returns, Returns-mono, Returns-zoom}
use numa_pmr.Machine.Object.{Object, object}
use numa_pmr.SizeClassTable.{class_size_at, num_size_classes}
use numa_pmr.SizeClass.Contents.{in_use}
use numa_pmr.SizeClass.Pieces.{swap_front}
use numa_pmr.SmallObject.{SmallObjectAllocator}
use numa_pmr.SmallObject
use numa_pmr.SmallObject.Joined.{joined_Mem}
use numa_pmr.SmallObject.PoolDeallocate.{PoolDrained, deallocate_batch-PoolDrained}
use numa_pmr.BlockList.{BlockBin, empty_bin}
use numa_pmr.BlockList.Chained.{IsBin, head-IsBin}
use numa_pmr.Arena.{NumaArena, drain_foreign_batch, drain_foreign_bin, subtract_foreign}
use numa_pmr.Arena.Foreign.{empty_bin-IsBin}
use numa_pmr.Arena.Pool.{Label, Stock, IsArena, IsBin-frame, binned-out}

-- An arena with the same small allocator, the same bins and the same node.
pub IsArena-same :
    {k : Stock} {a a' : NumaArena} {m : Memory}
    → a'.small ≡ a.small
    → a'.foreign_bins ≡ a.foreign_bins
    → a'.node_id ≡ a.node_id
    → IsArena k a m
    → IsArena k a' m
IsArena-same {k} {a} {a'} {m} small bins node v = record {
  small = rw small v.small;
  labelled = λ i x lt used. rw node (v.labelled i x lt used);
  split = v.split;
  distinct = v.distinct;
  bins = λ i lt. rw bins (v.bins i lt);
  bounded = λ i lt. rw bins (v.bounded i lt);
}

pub subtract_foreign_lem :
    (n : ℕ) (a : NumaArena)
    → ((subtract_foreign n a).small ≡ a.small)
      × ((subtract_foreign n a).foreign_bins ≡ a.foreign_bins)
      × ((subtract_foreign n a).node_id ≡ a.node_id)
unfolding subtract_foreign
subtract_foreign_lem n a = elim (Bool-cases (n == 0)) [
  | inl e ↦ rw e (refl, refl, refl)
  | inr e ↦ rw e (refl, refl, refl)
]

-- Of the blocks of class `i` that were out, `rest` still are; nothing else changed for the clients,
-- and no header was written.
pub record Emptied (k : Stock) (i : ℕ) (rest : List ℕ) (m0 : Memory) (a : NumaArena) (m : Memory)
    : Type 0 where
  pub now : Stock
  pub valid : IsArena now a m
  pub out_here : now.out i ≡ rest
  pub out_others : (j : ℕ) → j ≢ i → now.out j ≡ k.out j
  pub headers : m.block ≡ m0.block

module _ (os : Platform) (k : Stock) (i : ℕ) (o : Object NumaArena) (below : i < num_size_classes)
    (v : IsArena k o.self o.world.memory) (moved rest : List ℕ)
    (parts : Perm (moved ++ rest) (k.out i)) where
  left : List ℕ
  left = k.binned i ++ rest

  -- The blocks moved, those in the bin and those still out are the blocks in use.
  all_parts : Perm (moved ++ (k.binned i ++ rest)) (k.binned i ++ k.out i)
  all_parts = Perm.trans (swap_front moved (k.binned i) rest) (Perm.append_left (k.binned i) parts)

  not_moved : (j y : ℕ) → j < num_size_classes → Mem y (k.binned j) → ¬ Mem y moved
  not_moved j y lt h there = binned-out k o.self o.world.memory v j y lt h (
      joined_Mem num_size_classes i y k.out below
        ((Perm.mem_iff parts).0 (mem-append_left rest there)))

  pub emptied :
      (a : SmallObjectAllocator) (m : Memory)
      → PoolDrained k.pool i moved (k.binned i ++ rest) o.world.memory a m
      → Emptied k i rest o.world.memory (record (o.self) { small = a }) m
  emptied a m d = record {
    now = record { pool = d.now; binned = k.binned; out = update k.out i rest };
    valid = record {
      small = d.valid;
      labelled = λ j y lt used.
          subst (λ b. Label o.self.node_id (class_size_at j) (b y)) (sym d.headers)
            (v.labelled j y lt (before j y used));
      split = λ j lt. elim (ℕ_discrete j i) [
        | yes e ↦ rw e (rw (update_self k.out i rest) (Perm.symm d.left))
        | no ne ↦ rw (update_ne k.out i j rest ne) (
            subst (λ l. Perm (k.binned j ++ k.out j) (in_use l)) (sym (d.others j ne))
              (v.split j lt))
      ];
      distinct = λ j lt. elim (ℕ_discrete j i) [
        | yes e ↦ rw e (
            rw (update_self k.out i rest)
              ((Nodup-append.0 (Perm.nodup (Perm.symm all_parts) (v.distinct i below))).1))
        | no ne ↦ rw (update_ne k.out i j rest ne) (v.distinct j lt)
      ];
      bins = λ j lt. IsBin-frame (λ y h. d.links y (not_moved j y lt h)) (v.bins j lt);
      bounded = v.bounded;
    };
    out_here = update_self k.out i rest;
    out_others = λ j ne. update_ne k.out i j rest ne;
    headers = d.headers;
  }
    where
      before : (j y : ℕ) → Mem y (in_use (d.now j)) → Mem y (in_use (k.pool j))
      before j y used = elim (ℕ_discrete j i) [
        | yes e ↦
            subst (λ c. Mem y (in_use (k.pool c))) (sym e)
              ((Perm.mem_iff (Perm.trans all_parts (v.split i below))).0 (
                mem-append_right moved
                  ((Perm.mem_iff d.left).0 (subst (λ c. Mem y (in_use (d.now c))) e used))))
        | no ne ↦ subst (λ l. Mem y (in_use l)) (d.others j ne) used
      ]

  -- A batch whose blocks count as out is given back to the small allocator.
  pub drain_foreign_batch-Emptied :
      (batch : BlockBin)
      → IsBin (class_size_at i) moved batch o.world.memory
      → Returns
          (λ _ o'. Emptied k i rest o.world.memory o'.self o'.world.memory)
          (drain_foreign_batch os i batch o)
  unfolding drain_foreign_batch
  drain_foreign_batch-Emptied batch b = elim (Bool-cases (batch.head == null)) [
    | inl e ↦
        let none : moved ≡ [] = head-IsBin moved b ((==_iff batch.head null).0 e) in
        rw e (
          emptied o.self.small o.world.memory (record {
            now = k.pool;
            valid = v.small;
            left = Perm.symm (
                subst (λ l. Perm (l ++ (k.binned i ++ rest)) (in_use (k.pool i))) none
                  (Perm.trans all_parts (v.split i below)));
            others = λ j ne. refl;
            headers = refl;
            links = λ y out. refl;
          }))
    | inr e ↦ rw e (
        Returns-zoom
          (λ (t : Object SmallObjectAllocator) (o1 : Object NumaArena).
            object (record (o1.self) { small = t.self }) t.world)
          o _
          (SmallObject.deallocate_batch os (batch.count + 1) i batch.head
            (object o.self.small o.world))
          (Returns-mono _ _
            (SmallObject.deallocate_batch os (batch.count + 1) i batch.head
              (object o.self.small o.world))
            (deallocate_batch-PoolDrained os (batch.count + 1) i batch.head moved
              (k.binned i ++ rest) k.pool (object o.self.small o.world) below v.small
              (Perm.trans all_parts (v.split i below)) b.chain b.distinct (omega (arith, b.count)))
            (λ _ t d. emptied t.self t.world.memory d)))
  ]

-- Nothing changed for the clients, and no header was written.
pub record Drained (k : Stock) (m0 : Memory) (a : NumaArena) (m : Memory) : Type 0 where
  pub now : Stock
  pub valid : IsArena now a m
  pub same_out : (j : ℕ) → now.out j ≡ k.out j
  pub headers : m.block ≡ m0.block

-- On an arena whose classes and bins are well formed, `drain_foreign_bin` of a class that exists
-- returns; the blocks that are
-- out with the clients stay out, and the arena stays well formed.
pub drain_foreign_bin-Drained :
    (os : Platform) (k : Stock) (i : ℕ) (o : Object NumaArena)
    → i < num_size_classes
    → IsArena k o.self o.world.memory
    → Returns (λ _ o'. Drained k o.world.memory o'.self o'.world.memory) (drain_foreign_bin os i o)
unfolding drain_foreign_bin numa_pmr.Arena.take_foreign_bin numa_pmr.Arena.detach_all_foreign
drain_foreign_bin-Drained os k i o below v =
    let test : leb num_size_classes i ≡ false = ground (arith, below) in
    rw test (
      Returns-mono _ _ (drain_foreign_batch os i (o.self.foreign_bins i) taken)
        (drain_foreign_batch-Emptied os loose i taken below loose_valid (k.binned i) (k.out i)
          (subst (λ l. Perm (k.binned i ++ k.out i) l)
            (sym (update_self k.out i (k.binned i ++ k.out i))) (Perm.refl _))
          (o.self.foreign_bins i) (v.bins i below))
        λ _ o' e. record {
          now = e.now;
          valid = e.valid;
          same_out = λ j. elim (ℕ_discrete j i) [
            | yes same ↦ rw same e.out_here
            | no ne ↦ e.out_others j ne ∙ update_ne k.out i j (k.binned i ++ k.out i) ne
          ];
          headers = e.headers;
        })
  where
    detached : NumaArena
    detached = record (o.self) { foreign_bins = update o.self.foreign_bins i empty_bin }

    taken : Object NumaArena
    taken = object (subtract_foreign (o.self.foreign_bins i).bytes detached) o.world

    -- The blocks of the bin count as out.
    loose : Stock
    loose = record {
      pool = k.pool;
      binned = update k.binned i [];
      out = update k.out i (k.binned i ++ k.out i);
    }

    loose_valid : IsArena loose taken.self o.world.memory
    loose_valid =
        let same = subtract_foreign_lem (o.self.foreign_bins i).bytes detached in
        IsArena-same {a = detached} same.0 same.1 same.2 (record {
          small = v.small;
          labelled = v.labelled;
          split = λ j lt. elim (ℕ_discrete j i) [
            | yes e ↦ rw e (
                rw (update_self k.binned i [], update_self k.out i (k.binned i ++ k.out i))
                  (v.split i below))
            | no ne ↦
                rw (update_ne k.binned i j [] ne, update_ne k.out i j (k.binned i ++ k.out i) ne)
                  (v.split j lt)
          ];
          distinct = λ j lt. elim (ℕ_discrete j i) [
            | yes e ↦ rw e (
                rw (update_self k.binned i [], update_self k.out i (k.binned i ++ k.out i))
                  (v.distinct i below))
            | no ne ↦
                rw (update_ne k.binned i j [] ne, update_ne k.out i j (k.binned i ++ k.out i) ne)
                  (v.distinct j lt)
          ];
          bins = λ j lt. elim (ℕ_discrete j i) [
            | yes e ↦ rw e (
                rw (update_self k.binned i [], update_self o.self.foreign_bins i empty_bin)
                  (empty_bin-IsBin (class_size_at i) o.world.memory))
            | no ne ↦
                rw (update_ne k.binned i j [] ne, update_ne o.self.foreign_bins i j empty_bin ne)
                  (v.bins j lt)
          ];
          bounded = λ j lt. elim (ℕ_discrete j i) [
            | yes e ↦ rw e (rw (update_self o.self.foreign_bins i empty_bin) (omega arith))
            | no ne ↦ rw (update_ne o.self.foreign_bins i j empty_bin ne) (v.bounded j lt)
          ];
        })
