-- ===== src/Arena/Enqueue.antt =====
-- `enqueue_foreign_small`, a block that another node's thread gives back, on an arena whose small
-- allocator is well formed.
use mathlib.Core.List.{
  Mem, Perm, mem-cons_self, mem-map_of_mem, perm_middle, append_assoc, eq-or-mem_of_mem-cons,
  Mem-prop,
}
use mathlib.Core.List.Perm
use mathlib.Core.Logic.Or
use numa_pmr.Base.{
  ◌+◌, ℕ, ◌≡◌, ◌<◌, ◌≤◌, sym, ap, subst, ◌∙◌, arith, List, [], ◌∷◌, ◌++◌, map, All, ℕ_discrete,
}
use numa_pmr.Machine.Platform.{Platform}
use numa_pmr.Machine.Word.{wrap}
use numa_pmr.Machine.Memory.{Memory, update, update_self, update_ne}
use numa_pmr.Machine.Monad.{Returns, Returns-mono, ok}
use numa_pmr.Machine.Object.{Object, object}
use numa_pmr.Block.{to_user_ptr}
use numa_pmr.SizeClassTable.{class_size_at, num_size_classes, class_index_for_size}
use numa_pmr.SizeClassTable.Index.{class_size_at_lem, num_size_classes_lem}
use numa_pmr.SizeClassTable.Rounding.{class_index_for_size-class_size_at}
use numa_pmr.SizeClass.Contents.{in_use}
use numa_pmr.SmallObject.Pool.{one_class, used_ne_null}
use numa_pmr.SmallObject.Joined.{joined_Mem}
use numa_pmr.BlockList.{Detaching}
use numa_pmr.Arena.{
  NumaArena, enqueue_locked, enqueue_foreign_small, subtract_foreign, drain_foreign_batch,
}
use numa_pmr.Arena.Foreign.{Enqueued, enqueue_locked-Enqueued}
use numa_pmr.Arena.Payload.{from_to, from_Mem}
use numa_pmr.Arena.Pool.{Label, Stock, IsArena, IsBin-frame, binned-out, binned-used, out-used}
use numa_pmr.Arena.Untouched.{SameSlab, slabs_of, untouched-IsPool}
use numa_pmr.Arena.Drain.{Emptied, IsArena-same, subtract_foreign_lem, drain_foreign_batch-Emptied}

every : (P : ℕ → Type 0) (l : List ℕ) → ((x : ℕ) → P x) → All P l
every P [] f = tt
every P (x ∷ l) f = (f x, every P l f)

module _ (os : Platform) (k : Stock) (i x : ℕ) (rest : List ℕ) (o : Object NumaArena)
    (below : i < num_size_classes) (v : IsArena k o.self o.world.memory)
    (parts : Perm (x ∷ rest) (k.out i)) where
  abbrev m : Memory
  m = o.world.memory

  abbrev size : ℕ
  size = class_size_at i

  here : Mem x (k.out i)
  here = (Perm.mem_iff parts).0 mem-cons_self

  in_class : Mem x (in_use (k.pool i))
  in_class = out-used k o.self m v i x below here

  not_binned : ¬ Mem x (k.binned i)
  not_binned h =
      binned-out k o.self m v i x below h (joined_Mem num_size_classes i x k.out below here)

  size_bounds : (0 < size) × (size ≤ 4096)
  size_bounds = ground (arith, num_size_classes_lem, class_size_at_lem i)

  locked : Enqueued size (x ∷ k.binned i) (o.self.foreign_bins i) m (enqueue_locked x i size o)
  locked =
      enqueue_locked-Enqueued size i x (k.binned i) o (v.bins i below) size_bounds.0 size_bounds.1
        (v.bounded i below) (used_ne_null k.pool o.self.small m i x v.small below in_class)
        not_binned

  module _ (d : Detaching) (e : Enqueued size (x ∷ k.binned i) (o.self.foreign_bins i) m d) where
    -- The block and those of the bin are in use.
    listed : (y : ℕ) → Mem y (x ∷ k.binned i) → Mem y (in_use (k.pool i))
    listed y h =
        Or.elim Mem-prop (eq-or-mem_of_mem-cons h)
          (λ same. subst (λ z. Mem z (in_use (k.pool i))) (sym same) in_class)
          (λ there. binned-used k o.self m v i y below there)

    -- The blocks of the batch count as out.
    abbrev loose : Stock
    loose = record {
      pool = k.pool;
      binned = update k.binned i e.rest;
      out = update k.out i (e.moved ++ rest);
    }

    all_parts : Perm (e.rest ++ (e.moved ++ rest)) (k.binned i ++ k.out i)
    all_parts =
        subst (λ l. Perm l (k.binned i ++ k.out i)) (append_assoc e.rest e.moved rest)
          (Perm.trans (Perm.append_right rest e.split) (
            Perm.trans (Perm.symm (perm_middle (k.binned i) rest))
              (Perm.append_left (k.binned i) parts)))

    abbrev after_enqueue : NumaArena
    after_enqueue = record (o.self) {
      foreign_bins = update o.self.foreign_bins i d.bin;
      foreign_bytes = wrap (o.self.foreign_bytes + size);
    }

    loose-IsArena : IsArena loose after_enqueue d.memory
    loose-IsArena = record {
      small =
          untouched-IsPool k.pool o.self.small m d.memory (map to_user_ptr (x ∷ k.binned i)) v.small
            (λ y h.
              joined_Mem num_size_classes i y (λ c. in_use (k.pool c)) below
                (listed y (
                  subst (λ z. Mem z (x ∷ k.binned i)) (from_to y)
                    (from_Mem (to_user_ptr y) (x ∷ k.binned i) h))))
            (λ j lt.
              every (SameSlab (map to_user_ptr (x ∷ k.binned i)) m d.memory)
                (slabs_of o.self.small j)
                λ s. (
                  ap (λ f. f s) e.same_blocks.1,
                  λ y inside. (
                    ap (λ f. f y) e.same_blocks.0,
                    λ out. e.same_links y (λ h. out (mem-map_of_mem to_user_ptr h)),
                  ),
                ));
      labelled = λ j y lt used.
          subst (λ f. Label o.self.node_id (class_size_at j) (f y)) (sym e.same_blocks.0)
            (v.labelled j y lt used);
      split = λ j lt. elim (ℕ_discrete j i) [
        | yes same ↦ rw same (
            rw (update_self k.binned i e.rest, update_self k.out i (e.moved ++ rest))
              (Perm.trans all_parts (v.split i below)))
        | no ne ↦
            rw (update_ne k.binned i j e.rest ne, update_ne k.out i j (e.moved ++ rest) ne)
              (v.split j lt)
      ];
      distinct = λ j lt. elim (ℕ_discrete j i) [
        | yes same ↦ rw same (
            rw (update_self k.binned i e.rest, update_self k.out i (e.moved ++ rest))
              (Perm.nodup (Perm.symm all_parts) (v.distinct i below)))
        | no ne ↦
            rw (update_ne k.binned i j e.rest ne, update_ne k.out i j (e.moved ++ rest) ne)
              (v.distinct j lt)
      ];
      bins = λ j lt. elim (ℕ_discrete j i) [
        | yes same ↦
            rw same
              (rw (update_self k.binned i e.rest, update_self o.self.foreign_bins i d.bin) e.bin)
        | no ne ↦
            rw (update_ne k.binned i j e.rest ne, update_ne o.self.foreign_bins i j d.bin ne)
              (IsBin-frame
                (λ y h. e.same_links y λ there.
                  one_class k.pool o.self.small m i j y v.small below lt ne (listed y there)
                    (binned-used k o.self m v j y lt h))
                (v.bins j lt))
      ];
      bounded = λ j lt. elim (ℕ_discrete j i) [
        | yes same ↦ rw same (rw (update_self o.self.foreign_bins i d.bin) e.bounded)
        | no ne ↦ rw (update_ne o.self.foreign_bins i j d.bin ne) (v.bounded j lt)
      ];
    }

    drained :
        Returns
          (λ _ o'. Emptied k i rest m o'.self o'.world.memory)
          (drain_foreign_batch os i d.batch (
            object
              (subtract_foreign d.batch.bytes after_enqueue)
              (record (o.world) { memory = d.memory })))
    drained =
        let same = subtract_foreign_lem d.batch.bytes after_enqueue in
        let o1 =
          object (subtract_foreign d.batch.bytes after_enqueue)
            (record (o.world) { memory = d.memory }) in
        Returns-mono _ _ (drain_foreign_batch os i d.batch o1)
          (drain_foreign_batch-Emptied os loose i o1 below
            (IsArena-same {a = after_enqueue} same.0 same.1 same.2 loose-IsArena) e.moved rest
            (subst (λ l. Perm (e.moved ++ rest) l) (sym (update_self k.out i (e.moved ++ rest)))
              (Perm.refl _))
            d.batch e.batch)
          λ _ o' h. record {
            now = h.now;
            valid = h.valid;
            out_here = h.out_here;
            out_others = λ j ne. h.out_others j ne ∙ update_ne k.out i j (e.moved ++ rest) ne;
            headers = h.headers ∙ e.same_blocks.0;
          }

  -- On an arena whose classes and bins are well formed, `enqueue_foreign_small` of a block that is
  -- out returns; this block and no other is no longer out, whether it waits in its bin or the bin's
  -- overflow was drained; the arena stays well formed, and no header changes.
  pub enqueue_foreign_small-Emptied :
      Returns (λ _ o'. Emptied k i rest m o'.self o'.world.memory) (enqueue_foreign_small os x o)
  unfolding enqueue_foreign_small
  enqueue_foreign_small-Emptied =
      let label = (v.labelled i x below in_class).0 in
      let found : class_index_for_size (class_size_at i) ≡ ok i =
        (class_index_for_size-class_size_at i below).0 in
      rw label (rw found (drained (enqueue_locked x i size o) locked))
