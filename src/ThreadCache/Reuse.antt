-- ===== src/ThreadCache/Reuse.antt =====
-- Taking blocks from a thread's cache: the last block that was cached comes first.
use mathlib.Core.List.{Mem, mem-cons_self, mem-cons_of_mem}
use numa_pmr.Base.{
  Bool, ℕ, ◌+◌, ◌≤◌, ◌<◌, ◌≡◌, ◌≢◌, refl, sym, subst, arith, true, false, ◌==◌, List, [], ◌∷◌,
}
use numa_pmr.Machine.Word.{null}
use numa_pmr.Machine.Memory.{update_self}
use numa_pmr.Machine.Monad.{Returns-mono, Returns, Returns-seq, ◌>>=◌}
use numa_pmr.Machine.Object.{Object}
use numa_pmr.Config.Small.{max_cached_bytes_for_class}
use numa_pmr.BlockList.{BlockBin, pop_header}
use numa_pmr.BlockList.Chained.{IsBin, pop_header-IsBin}
use numa_pmr.ThreadCache.{Thread, take_cached, cache_block}
use numa_pmr.ThreadCache.Bins.{IsCacheBin, Offered, taken, full, cache_block-Offered}

-- What `take_cached` does on a bin that holds `xs`.
abbrev pub Taken : (size i : ℕ) (xs : List ℕ) (o : Object Thread) → ℕ → Object Thread → Type 0
Taken size i [] o header o' = (header ≡ null) × (o' ≡ o)
Taken size i (x ∷ xs) o header o' =
    (header ≡ x) × IsCacheBin size i xs o' × (o'.world ≡ o.world) × (o'.self.arenas ≡ o.self.arenas)

pop_bytes :
    (size x : ℕ) (xs : List ℕ) (b : BlockBin) (o : Object Thread)
    → IsBin size (x ∷ xs) b o.world.memory
    → (pop_header size b o.world.memory).bytes ≤ b.bytes
unfolding pop_header numa_pmr.BlockList.Chained.total
pop_bytes size x xs b o v = omega (arith, v.bytes, v.in_words)

-- An empty bin gives null and nothing changes; any other gives its first block and keeps the rest.
pub take_cached-Taken :
    (size i : ℕ) (xs : List ℕ) (o : Object Thread)
    → IsCacheBin size i xs o
    → Returns (Taken size i xs o) (take_cached i o)
unfolding take_cached
take_cached-Taken size i [] o v =
    let absent : ((o.self.cache.bins i).head == null) ≡ true = ground (arith, v.bin.chain) in
    rw absent (refl, refl)
take_cached-Taken size i (x ∷ xs) o v =
    let present : ((o.self.cache.bins i).head == null) ≡ false =
      ground (arith, v.bin.chain.0, v.bin.chain.1) in
    let own =
      update_self o.self.cache.bins i (pop_header size (o.self.cache.bins i) o.world.memory) in
    let first : (o.world.memory.block (o.self.cache.bins i).head).size_class ≡ size =
      rw v.bin.chain.0 (v.sized x mem-cons_self) in
    rw (present, first)
      (
        v.bin.chain.0,
        record {
          bin = subst (λ b. IsBin size xs b o.world.memory) (sym own) (pop_header-IsBin x v.bin);
          sized = λ y m. v.sized y (mem-cons_of_mem x m);
          bounded =
              rw own (omega (arith, pop_bytes size x xs (o.self.cache.bins i) o v.bin, v.bounded));
        },
        refl,
        refl,
      )

after_offer :
    (size i x : ℕ) (xs : List ℕ) (o o' : Object Thread) (b : Bool)
    → (o.self.cache.bins i).bytes + size ≤ max_cached_bytes_for_class size
    → Offered size i xs x o b o'
    → Returns (λ header o''. (header ≡ x) × IsCacheBin size i xs o'') (take_cached i o')
after_offer size i x xs o o' true room (taken v _ _) =
    Returns-mono (Taken size i (x ∷ xs) o') _ (take_cached i o')
      (take_cached-Taken size i (x ∷ xs) o' v) (λ header o'' t. (t.0, t.1))
after_offer size i x xs o o' false room (full over) = absurd (omega arith)

-- A block cached where there is room is the next that the bin of its class hands out, and the bin
-- is then as it was.
pub take_cached-cache_block :
    (size i x : ℕ) (xs : List ℕ) (o : Object Thread)
    → IsCacheBin size i xs o
    → (o.world.memory.block x).size_class ≡ size
    → 0 < size
    → size ≤ 4096
    → x ≢ null
    → ¬ Mem x xs
    → (o.self.cache.bins i).bytes + size ≤ max_cached_bytes_for_class size
    → Returns
        (λ header o'. (header ≡ x) × IsCacheBin size i xs o')
        ((do cached ← cache_block x i; take_cached i) o)
take_cached-cache_block size i x xs o v class pos small ne out room =
    Returns-seq (Offered size i xs x o) _ (cache_block x i o) _
      (cache_block-Offered size i x xs o v class pos small ne out)
      λ b o' offered. after_offer size i x xs o o' b room offered
