-- ===== src/SizeClass/Batch.antt =====
-- `deallocate_batch`, which walks a linked list of blocks and frees each, against the blocks freed
-- one by one from a list of their addresses.
use mathlib.Core.List.{Mem, Nodup, Nodup-cons}
use numa_pmr.Base.{
  ℕ, zero, suc, ◌<◌, ◌≡◌, ◌≢◌, refl, sym, subst, arith, Bool, true, false, ◌||◌, List, [], ◌∷◌,
  length, All, ◌==◌, if◌then◌else◌,
}
use numa_pmr.Machine.Word.{null}
use numa_pmr.Machine.Platform.{Platform}
use numa_pmr.Machine.Memory.{Memory, with_memory}
use numa_pmr.Machine.Monad.{pure, get, ◌>>=◌, ◌>>◌}
use numa_pmr.Machine.Object.{Object, outside}
use numa_pmr.Block.{to_user_ptr}
use numa_pmr.Slab.{free_block, return_block, is_empty}
use numa_pmr.Slab.Chain.{IsChain, IsChain-update}
use numa_pmr.SizeClass.{SizeClass, ClassM, batch_loop, deallocate_batch, release_extra_empty_slabs}

-- The blocks freed in order; whether one of their slabs was empty after it.
unfoldable pub free_each : List ℕ → Bool → ClassM Bool
free_each [] saw o = pure saw o
free_each (x ∷ xs) saw o =
    let slab = (o.world.memory.block x).raw_ptr in
    (do
      outside (free_block slab x)
      empty ← get (λ o'. is_empty slab o'.world.memory)
      free_each xs (saw || empty))
      o

module _ (os : Platform) where
  after_one :
      (x : ℕ) (xs : List ℕ) (m : Memory)
      → IsChain m.link x (x ∷ xs)
      → ¬ Mem x xs
      → IsChain (return_block (m.block x).raw_ptr x m).link (m.link (to_user_ptr x)) xs
  unfolding return_block
  after_one x xs m (e, ne, chain) out =
      IsChain-update m.link (m.link (to_user_ptr x)) xs x _ out chain

  same_owners :
      (slab x : ℕ) (m : Memory) (xs : List ℕ)
      → All (λ y. (m.block y).raw_ptr ≢ null) xs
      → All (λ y. ((return_block slab x m).block y).raw_ptr ≢ null) xs
  unfolding return_block
  same_owners slab x m xs h = h

  batch_loop-free_each :
      (fuel head : ℕ) (xs : List ℕ) (saw : Bool) (o : Object SizeClass)
      → length xs < fuel
      → IsChain o.world.memory.link head xs
      → Nodup xs
      → All (λ x. (o.world.memory.block x).raw_ptr ≢ null) xs
      → batch_loop os fuel head saw o ≡ free_each xs saw o
  unfolding batch_loop free_block free_each
  batch_loop-free_each zero head xs saw o enough chain once owned = absurd (omega arith)
  batch_loop-free_each (suc n) head [] saw o enough chain once owned =
      let at_end : (head == null) ≡ true = ground (arith, chain) in rw at_end refl
  batch_loop-free_each (suc n) head (x ∷ xs) saw o enough chain once owned =
      let here : (x == null) ≡ false = ground (arith, chain.1) in
      let slab = (o.world.memory.block x).raw_ptr in
      let there : (slab == null) ≡ false = ground (arith, owned.0) in
      let o' = record o { world = with_memory (return_block slab x) o.world } in
      subst (λ p. batch_loop os (suc n) p saw o ≡ free_each (x ∷ xs) saw o) (sym chain.0)
        (rw (here, there)
          (batch_loop-free_each n (o.world.memory.link (to_user_ptr x)) xs
            (saw || is_empty slab o'.world.memory) o' (omega arith)
            (after_one x xs o.world.memory (refl, chain.1, chain.2) (Nodup-cons.0 once).0)
            (Nodup-cons.0 once).1 (same_owners slab x o.world.memory xs owned.1)))

  -- On a linked list of blocks of slabs, each once, with more fuel than it has blocks,
  -- `deallocate_batch` is each block freed in order, and then the release of the empty slabs if one
  -- of the slabs was empty on the way.
  pub deallocate_batch-free_each :
      (fuel head : ℕ) (xs : List ℕ) (o : Object SizeClass)
      → length xs < fuel
      → IsChain o.world.memory.link head xs
      → Nodup xs
      → All (λ x. (o.world.memory.block x).raw_ptr ≢ null) xs
      → deallocate_batch os fuel head o
        ≡ (do saw ← free_each xs false; if saw then release_extra_empty_slabs os else pure tt) o
  unfolding deallocate_batch free_each
  deallocate_batch-free_each fuel head [] o enough chain once owned =
      let at_end : (head == null) ≡ true = ground (arith, chain) in rw at_end refl
  deallocate_batch-free_each fuel head (x ∷ xs) o enough chain once owned =
      let here : (head == null) ≡ false = ground (arith, chain.0, chain.1) in
      rw (here, batch_loop-free_each fuel head (x ∷ xs) false o enough chain once owned) refl
