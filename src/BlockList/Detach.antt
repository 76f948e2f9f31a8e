-- ===== src/BlockList/Detach.antt =====
-- The loop that takes blocks off a bin until its bytes are down to the low watermark.
use mathlib.Core.List.{
  Mem, Perm, perm_middle, Nodup-cons, mem-cons_self, mem-cons_of_mem, eq-or-mem_of_mem-cons,
}
use mathlib.Core.List.Perm
use mathlib.Core.Logic.Or
use mathlib.Core.HLevel.{⊥_prop}
use numa_pmr.Base.{
  ap, ℕ, zero, suc, ◌+◌, ◌^◌, ◌≤◌, ◌<◌, ◌≡◌, ◌⊎◌, inl, inr, refl, sym, subst, ◌∙◌, arith,
  Bool-cases, true, false, ltb, ltb→lt, ◌==◌, List, [], ◌∷◌, ◌++◌, length,
}
use numa_pmr.Machine.Word.{null}
use numa_pmr.Machine.Memory.{write_link, update_ne}
use numa_pmr.Block.{to_user_ptr}
use numa_pmr.BlockList.{
  push_header, link_header, pop_header, Detaching, detach_one, goes_on, detach_loop,
}
use numa_pmr.BlockList.Chained.{
  total, total-cons, total-nil, IsBin, push_header-IsBin, pop_header-IsBin, IsBin-link,
}

-- The loop ended with `rest` in the bin and `moved` in the batch, from `xs` and `ys`.
pub record Detached (size low : ℕ) (xs ys : List ℕ) (d d' : Detaching) : Type 0 where
  pub rest : List ℕ
  pub moved : List ℕ
  pub split : Perm (rest ++ moved) (xs ++ ys)
  pub bin : IsBin size rest d'.bin d'.memory
  pub batch : IsBin size moved d'.batch d'.memory
  pub is_low : d'.bin.bytes ≤ low
  pub no_more : ((moved ≡ ys) × (d'.bin ≡ d.bin)) ⊎ (low < d'.bin.bytes + size)
  pub same_blocks : (d'.memory.block ≡ d.memory.block) × (d'.memory.slab ≡ d.memory.slab)
  pub same_links :
      (q : ℕ) → ¬ Mem q xs → d'.memory.link (to_user_ptr q) ≡ d.memory.link (to_user_ptr q)

module _ (size low : ℕ) where
  stops :
      (xs ys : List ℕ) (d : Detaching)
      → IsBin size xs d.bin d.memory
      → IsBin size ys d.batch d.memory
      → d.bin.bytes ≤ low
      → Detached size low xs ys d d
  stops xs ys d v w done = record {
    rest = xs;
    moved = ys;
    split = Perm.refl _;
    bin = v;
    batch = w;
    is_low = done;
    no_more = inl (refl, refl);
    same_blocks = (refl, refl);
    same_links = λ q out. refl;
  }

  pop_bytes :
      (x : ℕ) (xs : List ℕ) (d : Detaching)
      → IsBin size (x ∷ xs) d.bin d.memory
      → (pop_header size d.bin d.memory).bytes + size ≡ d.bin.bytes
  unfolding pop_header total
  pop_bytes x xs d v = omega (arith, v.bytes, v.in_words)

  same_header :
      (x : ℕ) (xs : List ℕ) (d : Detaching) (q : ℕ)
      → IsBin size (x ∷ xs) d.bin d.memory
      → to_user_ptr q ≡ to_user_ptr d.bin.head
      → x ≡ q
  same_header x xs d q v e = omega (arith, v.chain.0)

  -- One round and what follows it.
  goes :
      (x : ℕ) (xs ys : List ℕ) (d d' : Detaching)
      → low < d.bin.bytes
      → IsBin size (x ∷ xs) d.bin d.memory
      → Detached size low xs (x ∷ ys) (detach_one size d) d'
      → Detached size low (x ∷ xs) ys d d'
  unfolding detach_one
  goes x xs ys d d' more v h = record {
    rest = h.rest;
    moved = h.moved;
    split = Perm.trans h.split (perm_middle xs ys);
    bin = h.bin;
    batch = h.batch;
    is_low = h.is_low;
    no_more = elim h.no_more [
      | inl (_, same) ↦ inr (rw (ap (λ b. b.bytes) same) (omega (arith, pop_bytes x xs d v, more)))
      | inr less ↦ inr less
    ];
    same_blocks = h.same_blocks;
    same_links = λ q out.
        h.same_links q (λ i. out (mem-cons_of_mem x i))
        ∙ update_ne d.memory.link (to_user_ptr d.bin.head) (to_user_ptr q) d.batch.head
            (λ e. out (subst (λ y. Mem y (x ∷ xs)) (same_header x xs d q v e) mem-cons_self));
  }

  module _ (x : ℕ) (xs ys : List ℕ) (d : Detaching) (v : IsBin size (x ∷ xs) d.bin d.memory) where
    outside : ¬ Mem x xs
    outside = (Nodup-cons.0 v.distinct).0

    next_bin : IsBin size xs (detach_one size d).bin (detach_one size d).memory
    unfolding detach_one
    next_bin =
        subst
          (λ p.
            IsBin size xs (pop_header size d.bin d.memory)
              (write_link (to_user_ptr p) d.batch.head d.memory))
          (sym v.chain.0) (IsBin-link x d.batch.head outside (pop_header-IsBin x v))

    next_batch :
        ¬ Mem x ys
        → (length ys + 1 < 2 ^ 64) × (total size ys + size < 2 ^ 64)
        → IsBin size ys d.batch d.memory
        → IsBin size (x ∷ ys) (detach_one size d).batch (detach_one size d).memory
    unfolding detach_one
    next_batch out fits w =
        subst
          (λ p. IsBin size (x ∷ ys) (push_header size p d.batch) (link_header p d.batch d.memory))
          (sym v.chain.0) (push_header-IsBin x v.chain.1 out fits w)

    apart_next : ((y : ℕ) → Mem y (x ∷ xs) → ¬ Mem y ys) → (y : ℕ) → Mem y xs → ¬ Mem y (x ∷ ys)
    apart_next apart y i j =
        Or.elim ⊥_prop (eq-or-mem_of_mem-cons j) (λ e. outside (subst (λ z. Mem z xs) e i))
          (apart y (mem-cons_of_mem x i))

  -- With rounds for every block of the bin the loop ends at the low watermark or below: each block
  -- is in the bin or in the batch, and no more were moved than that takes.
  pub detach_loop-Detached :
      (n : ℕ) (xs ys : List ℕ) (d : Detaching)
      → length xs ≤ n
      → (length xs + length ys < 2 ^ 64) × (total size xs + total size ys < 2 ^ 64)
      → ((x : ℕ) → Mem x xs → ¬ Mem x ys)
      → IsBin size xs d.bin d.memory
      → IsBin size ys d.batch d.memory
      → Detached size low xs ys d (detach_loop n size low d)
  unfolding detach_loop goes_on
  detach_loop-Detached zero [] ys d len fits apart v w =
      stops [] ys d v w (omega (arith, v.bytes, total-nil size))
  detach_loop-Detached zero (x ∷ xs) ys d len fits apart v w = absurd (omega arith)
  detach_loop-Detached (suc n) [] ys d len fits apart v w =
      let absent : (d.bin.head == null) ≡ true = ground (arith, v.chain) in
      rw absent (stops [] ys d v w (omega (arith, v.bytes, total-nil size)))
  detach_loop-Detached (suc n) (x ∷ xs) ys d len fits apart v w =
      let present : (d.bin.head == null) ≡ false = ground (arith, v.chain.0, v.chain.1) in
      elim (Bool-cases (ltb low d.bin.bytes)) [
        | inl more ↦
            rw (present, more)
              (goes x xs ys d _ (ltb→lt _ _ more) v (
                detach_loop-Detached n xs (x ∷ ys) (detach_one size d) (omega arith)
                  (omega (arith, fits, total-cons size x xs, total-cons size x ys))
                  (apart_next x xs ys d v apart) (next_bin x xs ys d v)
                  (next_batch x xs ys d v (apart x mem-cons_self)
                    (omega (arith, fits, total-cons size x xs)) w)))
        | inr less ↦ rw (present, less) (stops (x ∷ xs) ys d v w (ground (arith, less)))
      ]
