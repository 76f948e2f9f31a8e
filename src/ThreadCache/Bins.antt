-- ===== src/ThreadCache/Bins.antt =====
-- The bins of a thread's cache: what they hold, and the bound on what they hold.
use mathlib.Core.List.{Mem, eq-or-mem_of_mem-cons}
use mathlib.Core.Logic.Or
use mathlib.Core.HLevel.{hedberg}
use numa_pmr.Base.{
  ℕ, ◌+◌, ◌^◌, ◌≤◌, ◌<◌, ◌≡◌, ◌≢◌, inl, inr, refl, sym, subst, arith, Bool, Bool-cases, true, false,
  ltb, ltb→lt, List, ◌∷◌, ℕ_discrete,
}
use numa_pmr.Machine.Word.{null, wrap}
use numa_pmr.Machine.Memory.{update_self}
use numa_pmr.Machine.Monad.{Returns}
use numa_pmr.Machine.Object.{Object}
use numa_pmr.Config.Small.{max_cached_bytes_for_class}
use numa_pmr.BlockList.{push_header, link_header}
use numa_pmr.BlockList.Chained.{IsBin, push_header-IsBin, length-le-total}
use numa_pmr.ThreadCache.{Thread, cache_block}

-- Bin `i` of the cache holds the blocks `xs` of class size `size`, within the bound of the class.
pub record IsCacheBin (size i : ℕ) (xs : List ℕ) (o : Object Thread) : Type 0 where
  pub bin : IsBin size xs (o.self.cache.bins i) o.world.memory
  pub sized : (x : ℕ) → Mem x xs → (o.world.memory.block x).size_class ≡ size
  pub bounded : (o.self.cache.bins i).bytes ≤ max_cached_bytes_for_class size

max_cached_bound : (size : ℕ) → max_cached_bytes_for_class size ≤ 2 ^ 21
unfolding max_cached_bytes_for_class
max_cached_bound size = ground arith

-- The block is cached, or there is no room for it and nothing has changed.
pub data Offered (size i : ℕ) (xs : List ℕ) (x : ℕ) (o : Object Thread)
    : Bool → Object Thread → Type 0 where
  taken :
      {o' : Object Thread}
      → IsCacheBin size i (x ∷ xs) o'
      → o'.self.arenas ≡ o.self.arenas
      → o'.world.trace ≡ o.world.trace
      → Offered size i xs x o true o'
  full :
      max_cached_bytes_for_class size < (o.self.cache.bins i).bytes + size
      → Offered size i xs x o false o

module _ (size i x : ℕ) (xs : List ℕ) (o : Object Thread) (v : IsCacheBin size i xs o)
    (class : (o.world.memory.block x).size_class ≡ size) (pos : 0 < size) (small : size ≤ 4096)
    (ne : x ≢ null) (out : ¬ Mem x xs) where
  sized_cons : (y : ℕ) → Mem y (x ∷ xs) → (o.world.memory.block y).size_class ≡ size
  sized_cons y m =
      Or.elim (hedberg ℕ_discrete _ _) (eq-or-mem_of_mem-cons m) (λ e. rw e class) (v.sized y)

  -- The bin with the block in front.
  pushed :
      (o.self.cache.bins i).bytes + size ≤ max_cached_bytes_for_class size
      → IsBin size
          (x ∷ xs)
          (push_header size x (o.self.cache.bins i))
          (link_header x (o.self.cache.bins i) o.world.memory)
  pushed room =
      push_header-IsBin x ne out
        (omega (arith, length-le-total size xs pos, v.bin.bytes, v.bounded, max_cached_bound size))
        v.bin

  pushed-bytes :
      (o.self.cache.bins i).bytes + size ≤ max_cached_bytes_for_class size
      → (push_header size x (o.self.cache.bins i)).bytes ≤ max_cached_bytes_for_class size
  unfolding push_header
  pushed-bytes room = omega (arith, room, max_cached_bound size)

  -- A block of the bin's class that is in no bin yet is cached, or there is no room for it below the
  -- bound of the class and nothing changes; the bound holds either way.
  pub cache_block-Offered : Returns (Offered size i xs x o) (cache_block x i o)
  unfolding cache_block
  cache_block-Offered =
      let exact : wrap ((o.self.cache.bins i).bytes + size) ≡ (o.self.cache.bins i).bytes + size =
        omega (arith, v.bounded, max_cached_bound size) in
      elim (Bool-cases
        (ltb (max_cached_bytes_for_class size) ((o.self.cache.bins i).bytes + size))) [
          | inl over ↦ rw (class, exact, over) (full (ltb→lt _ _ over))
          | inr fits ↦
              let room : (o.self.cache.bins i).bytes + size ≤ max_cached_bytes_for_class size =
                ground (arith, fits) in
              let own =
                update_self o.self.cache.bins i (push_header size x (o.self.cache.bins i)) in
              rw (class, exact, fits)
                (taken
                  (record {
                    bin =
                        subst
                          (λ b.
                            IsBin size (x ∷ xs) b
                              (link_header x (o.self.cache.bins i) o.world.memory))
                          (sym own) (pushed room);
                    sized = sized_cons;
                    bounded = rw own (pushed-bytes room);
                  })
                  refl refl)
        ]
