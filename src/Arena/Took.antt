-- ===== src/Arena/Took.antt =====
-- A block taken from the small allocator of an arena, before its header is completed.
use mathlib.Core.List.{Mem, Perm, Nodup-cons, eq-or-mem_of_mem-cons, Mem-prop, perm_middle}
use mathlib.Core.List.Perm
use mathlib.Core.Logic.Or
use numa_pmr.Base.{
  ℕ, ◌≡◌, ◌≢◌, ◌<◌, ◌≤◌, refl, sym, ap, subst, ◌∙◌, arith, ◌∷◌, ◌++◌, map, All, ℕ_discrete,
}
use numa_pmr.Machine.Platform.{Platform}
use numa_pmr.Machine.Word.{wrap32}
use numa_pmr.Machine.Memory.{Memory, write_block, update, update_self, update_ne}
use numa_pmr.Block.{to_user_ptr}
use numa_pmr.SizeClassTable.{class_size_at, num_size_classes}
use numa_pmr.SizeClass.Contents.{IsPiece, in_use}
use numa_pmr.SmallObject.Joined.{joined, joined-none, joined_Mem, joined-same}
use numa_pmr.SmallObject.Pool.{Pool, IsPool, class_size-small}
use numa_pmr.SmallObject.PoolHanded.{PoolHanded, PoolKept}
use numa_pmr.Arena.{NumaArena, small_header}
use numa_pmr.Arena.Pool.{
  Stock, IsArena, Label, Labelled, IsBin-frame, out_blocks, binned-used, out-used,
  write_block-IsPool,
}
use numa_pmr.Arena.Untouched.{slabs_of}

-- Block `x` of class `i` was not out and now is; all is well formed but its label.
pub record Took (k : Stock) (i : ℕ) (m0 : Memory) (x : ℕ) (a : NumaArena) (m : Memory)
    : Type 0 where
  pub before : Stock
  pub before_arena : NumaArena
  pub before_memory : Memory
  pub valid : IsArena before before_arena before_memory
  pub same_bins : a.foreign_bins ≡ before_arena.foreign_bins
  pub same_node : a.node_id ≡ before_arena.node_id
  pub same_out : (j : ℕ) → before.out j ≡ k.out j
  pub same_headers : before_memory.block ≡ m0.block
  pub handed : PoolHanded before.pool i before_memory x a.small m

-- Every slab of the arena is well formed.
pub record SlabsKept (a : NumaArena) (m : Memory) : Type 0 where
  pub pool : Pool
  pub same : (j : ℕ) → j < num_size_classes → slabs_of a.small j ≡ map (λ s. s.slab) (pool j)
  pub each : (j : ℕ) → j < num_size_classes → All (IsPiece (class_size_at j) m) (pool j)

pub kept-SlabsKept :
    (pool : Pool) (a a' : NumaArena) (m m' : Memory)
    → IsPool pool a.small m
    → PoolKept pool a.small a'.small m'
    → SlabsKept a' m'
kept-SlabsKept pool a a' m m' v h = record {
  pool = pool;
  same = λ j lt. ap (λ s. s.items) (h j lt).0 ∙ (v.each j lt).items;
  each = λ j lt. (h j lt).1;
}

-- `p` is the payload of a block that was not out, and now is, in a class whose size is at least
-- `size`; nothing else changed for the clients, and no other block's header was written.
pub record Served (k : Stock) (m0 : Memory) (size p : ℕ) (a : NumaArena) (m : Memory) : Type 0 where
  pub block : ℕ
  pub payload : p ≡ to_user_ptr block
  pub now : Stock
  pub valid : IsArena now a m
  pub fresh : ¬ Mem block (out_blocks k)
  pub class : ℕ
  pub class_in : class < num_size_classes
  pub covers : size ≤ class_size_at class
  pub out_here : now.out class ≡ block ∷ k.out class
  pub out_others : (j : ℕ) → j ≢ class → now.out j ≡ k.out j
  pub headers : (y : ℕ) → y ≢ block → m.block y ≡ m0.block y

module _ (os : Platform) (k : Stock) (i : ℕ) (below : i < num_size_classes) (m0 : Memory) (x : ℕ)
    (a : NumaArena) (m : Memory) (t : Took k i m0 x a m) where
  abbrev header : Memory → Memory
  header n = write_block x (small_header os (class_size_at i) a (n.block x)) n

  -- The labels, when the block gets its own.
  labels : Labelled t.handed.now a.node_id (header m)
  labels j y lt used = elim (ℕ_discrete y x) [
    | yes e ↦
        let same_class : j ≡ i = elim (ℕ_discrete j i) [
          | yes same ↦ same
          | no ne ↦ absurd (
              t.handed.fresh (
                subst (λ z. Mem z (joined num_size_classes (λ c. in_use (t.before.pool c)))) e
                  (joined_Mem num_size_classes j y (λ c. in_use (t.before.pool c)) lt
                    (subst (λ l. Mem y (in_use l)) (t.handed.others j ne) used))))
        ] in
        rw e (
          rw (update_self m.block x (small_header os (class_size_at i) a (m.block x)))
            (wraps ∙ ap class_size_at (sym same_class), refl))
    | no ne ↦ rw (update_ne m.block x y (small_header os (class_size_at i) a (m.block x)) ne) (
        subst (λ d. Label a.node_id (class_size_at j) d) (sym (t.handed.headers y ne))
          (rw t.same_node (t.valid.labelled j y lt (earlier ne))))
  ]
    where
      wraps : wrap32 (class_size_at i) ≡ class_size_at i
      wraps = omega (arith, class_size-small i below)

      earlier : y ≢ x → Mem y (in_use (t.before.pool j))
      earlier ne = elim (ℕ_discrete j i) [
        | no other ↦ subst (λ l. Mem y (in_use l)) (t.handed.others j other) used
        | yes same ↦
            subst (λ c. Mem y (in_use (t.before.pool c))) (sym same)
              (Or.elim Mem-prop
                (eq-or-mem_of_mem-cons (
                  (Perm.mem_iff t.handed.one_more).0
                    (subst (λ c. Mem y (in_use (t.handed.now c))) same used)))
                (λ e. absurd (ne e)) (λ z. z))
      ]

  -- The block was neither in a bin nor out.
  not_listed : ¬ Mem x (t.before.binned i ++ t.before.out i)
  not_listed h = t.handed.fresh (
      joined_Mem num_size_classes i x (λ c. in_use (t.before.pool c)) below
        ((Perm.mem_iff (t.valid.split i below)).0 h))

  fresh_before : ¬ Mem x (out_blocks t.before)
  fresh_before = joined-none num_size_classes x t.before.out λ j lt h. t.handed.fresh (
      joined_Mem num_size_classes j x (λ c. in_use (t.before.pool c)) lt
        (out-used t.before t.before_arena t.before_memory t.valid j x lt h))

  abbrev stock : Stock
  stock = record {
    pool = t.handed.now;
    binned = t.before.binned;
    out = update t.before.out i (x ∷ t.before.out i);
  }

  one_more :
      Perm (t.before.binned i ++ x ∷ t.before.out i) (x ∷ (t.before.binned i ++ t.before.out i))
  one_more = perm_middle (t.before.binned i) (t.before.out i)

  labelled-IsArena : IsArena stock a (header m)
  labelled-IsArena = record {
    small =
        write_block-IsPool t.handed.now a.small x (small_header os (class_size_at i) a (m.block x))
          m refl t.handed.valid;
    labelled = labels;
    split = λ j lt. elim (ℕ_discrete j i) [
      | yes e ↦ rw e (
          rw (update_self t.before.out i (x ∷ t.before.out i)) (
            Perm.trans one_more
              (Perm.trans (Perm.cons x (t.valid.split i below)) (Perm.symm t.handed.one_more))))
      | no ne ↦ rw (update_ne t.before.out i j (x ∷ t.before.out i) ne) (
          subst (λ l. Perm (t.before.binned j ++ t.before.out j) (in_use l))
            (sym (t.handed.others j ne)) (t.valid.split j lt))
    ];
    distinct = λ j lt. elim (ℕ_discrete j i) [
      | yes e ↦ rw e (
          rw (update_self t.before.out i (x ∷ t.before.out i))
            (Perm.nodup (Perm.symm one_more) (Nodup-cons.1 (not_listed, t.valid.distinct i below))))
      | no ne ↦ rw (update_ne t.before.out i j (x ∷ t.before.out i) ne) (t.valid.distinct j lt)
    ];
    bins = λ j lt. rw t.same_bins (
        IsBin-frame
          (λ y h.
            t.handed.links j y lt
              (binned-used t.before t.before_arena t.before_memory t.valid j y lt h))
          (t.valid.bins j lt));
    bounded = λ j lt. rw t.same_bins (t.valid.bounded j lt);
  }

  pub Took-Served :
      (size : ℕ) → size ≤ class_size_at i → Served k m0 size (to_user_ptr x) a (header m)
  Took-Served size covers = record {
    block = x;
    payload = refl;
    now = stock;
    valid = labelled-IsArena;
    fresh =
        subst (λ l. ¬ Mem x l)
          (joined-same num_size_classes k.out t.before.out (λ j lt. t.same_out j)) fresh_before;
    class = i;
    class_in = below;
    covers = covers;
    out_here = update_self t.before.out i (x ∷ t.before.out i) ∙ ap (λ l. x ∷ l) (t.same_out i);
    out_others = λ j ne. update_ne t.before.out i j (x ∷ t.before.out i) ne ∙ t.same_out j;
    headers = λ y ne.
        update_ne m.block x y (small_header os (class_size_at i) a (m.block x)) ne
        ∙ t.handed.headers y ne
        ∙ ap (λ f. f y) t.same_headers;
  }
