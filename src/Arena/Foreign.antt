-- ===== src/Arena/Foreign.antt =====
-- The bins of foreign blocks: what `enqueue_foreign_small` leaves in a bin, and what it drains.
use mathlib.Core.List.{mem-cons_self, Mem, Perm, append-nil, Nodup-nil, not-mem-nil}
use mathlib.Core.List.Perm
use numa_pmr.Base.{
  ◌∙◌, ℕ, ◌+◌, ◌^◌, ◌≤◌, ◌<◌, ◌≡◌, ◌≢◌, ◌⊎◌, inl, inr, refl, subst, arith, Bool-cases, ltb, ltb→lt,
  List, [], ◌∷◌, ◌++◌,
}
use numa_pmr.Machine.Word.{null}
use numa_pmr.Block.{to_user_ptr}
use numa_pmr.Machine.Memory.{Memory, update_ne}
use numa_pmr.Machine.Object.{Object}
use numa_pmr.Config.Small.{max_cached_bytes_for_class}
use numa_pmr.BlockList.{BlockBin, empty_bin, push_header, link_header, Detaching}
use numa_pmr.BlockList.Chained.{total, IsBin, push_header-IsBin, length-le-total, total-nil}
use numa_pmr.BlockList.Detach.{Detached, detach_loop-Detached}
use numa_pmr.Arena.{
  NumaArena, foreign_high_watermark, foreign_low_watermark, detach_until_low, enqueue_locked,
}

-- After the locked region, from `xs` in the bin: `rest` is in the bin and `moved` in the batch.
pub record Enqueued (size : ℕ) (xs : List ℕ) (before : BlockBin) (m : Memory) (d : Detaching)
    : Type 0 where
  pub rest : List ℕ
  pub moved : List ℕ
  pub split : Perm (rest ++ moved) xs
  pub bin : IsBin size rest d.bin d.memory
  pub batch : IsBin size moved d.batch d.memory
  pub bounded : d.bin.bytes ≤ foreign_high_watermark size
  pub drained :
      (moved ≡ [])
      ⊎ ((foreign_high_watermark size < before.bytes + size)
          × (d.bin.bytes ≤ foreign_low_watermark size))
  pub same_blocks : (d.memory.block ≡ m.block) × (d.memory.slab ≡ m.slab)
  pub same_links : (q : ℕ) → ¬ Mem q xs → d.memory.link (to_user_ptr q) ≡ m.link (to_user_ptr q)

high_bound : (size : ℕ) → foreign_high_watermark size ≤ 2 ^ 21
unfolding foreign_high_watermark max_cached_bytes_for_class
high_bound size = ground arith

pub empty_bin-IsBin : (size : ℕ) (m : Memory) → IsBin size [] empty_bin m
unfolding total
empty_bin-IsBin size m = record {
  chain = refl;
  distinct = Nodup-nil;
  count = refl;
  bytes = refl;
  in_words = omega arith;
}

detach_until_low-Detached :
    (size low : ℕ) (xs : List ℕ) (b : BlockBin) (m : Memory)
    → IsBin size xs b m
    → Detached size low xs []
        (record { bin = b; batch = empty_bin; memory = m })
        (detach_until_low size low b m)
unfolding detach_until_low
detach_until_low-Detached size low xs b m v =
    detach_loop-Detached size low b.count xs [] (record { bin = b; batch = empty_bin; memory = m })
      (omega (arith, v.count)) (omega (arith, v.in_words, total-nil size)) (λ x i. not-mem-nil) v
      (empty_bin-IsBin size m)

module _ (size i x : ℕ) (xs : List ℕ) (o : Object NumaArena)
    (v : IsBin size xs (o.self.foreign_bins i) o.world.memory) (pos : 0 < size)
    (small : size ≤ 4096) (bounded : (o.self.foreign_bins i).bytes ≤ foreign_high_watermark size)
    (ne : x ≢ null) (out : ¬ Mem x xs) where
  abbrev pushed_bin : BlockBin
  pushed_bin = push_header size x (o.self.foreign_bins i)

  abbrev pushed_memory : Memory
  pushed_memory = link_header x (o.self.foreign_bins i) o.world.memory

  pushed : IsBin size (x ∷ xs) pushed_bin pushed_memory
  pushed =
      push_header-IsBin x ne out
        (omega (arith, length-le-total size xs pos, v.bytes, bounded, high_bound size)) v

  pushed-bytes : pushed_bin.bytes ≡ (o.self.foreign_bins i).bytes + size
  unfolding push_header
  pushed-bytes = omega (arith, bounded, high_bound size)

  pushed-links :
      (q : ℕ)
      → ¬ Mem q (x ∷ xs)
      → pushed_memory.link (to_user_ptr q) ≡ o.world.memory.link (to_user_ptr q)
  pushed-links q out' =
      update_ne o.world.memory.link (to_user_ptr x) (to_user_ptr q) (o.self.foreign_bins i).head
        (λ e. out' (subst (λ z. Mem z (x ∷ xs)) (same_payload e) mem-cons_self))
    where
      same_payload : to_user_ptr q ≡ to_user_ptr x → x ≡ q
      same_payload e = omega arith

  detached :
      foreign_high_watermark size < pushed_bin.bytes
      → (d : Detaching)
      → Detached size
          (foreign_low_watermark size)
          (x ∷ xs)
          []
          (record { bin = pushed_bin; batch = empty_bin; memory = pushed_memory })
          d
      → Enqueued size (x ∷ xs) (o.self.foreign_bins i) o.world.memory d
  unfolding foreign_low_watermark
  detached over d h = record {
    rest = h.rest;
    moved = h.moved;
    split = subst (λ l. Perm (h.rest ++ h.moved) l) (append-nil (x ∷ xs)) h.split;
    bin = h.bin;
    batch = h.batch;
    bounded = omega (arith, h.is_low);
    drained = inr (omega (arith, over, pushed-bytes), h.is_low);
    same_blocks = h.same_blocks;
    same_links = λ q out'. h.same_links q out' ∙ pushed-links q out';
  }

  -- A foreign block of a class, not in the bin of its class yet, is pushed on the bin. If the bin is
  -- then over the high watermark, its blocks are moved to the batch until its bytes are at the low
  -- one or below, and otherwise none is; each block is in the bin or in the batch, once, and the
  -- bin is at the high watermark or below again. No header changes, nor a link but those of these
  -- blocks.
  pub enqueue_locked-Enqueued :
      Enqueued size (x ∷ xs) (o.self.foreign_bins i) o.world.memory (enqueue_locked x i size o)
  unfolding enqueue_locked
  enqueue_locked-Enqueued = elim (Bool-cases (ltb (foreign_high_watermark size) pushed_bin.bytes)) [
    | inl over ↦ rw over (
        detached (ltb→lt _ _ over) _ (
          detach_until_low-Detached size (foreign_low_watermark size) (x ∷ xs) pushed_bin
            pushed_memory pushed))
    | inr under ↦ rw under (record {
      rest = x ∷ xs;
      moved = [];
      split = rw append-nil (Perm.refl _);
      bin = pushed;
      batch = empty_bin-IsBin size pushed_memory;
      bounded = ground (arith, under);
      drained = inl refl;
      same_blocks = (refl, refl);
      same_links = pushed-links;
    })
  ]
