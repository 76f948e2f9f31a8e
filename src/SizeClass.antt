-- ===== src/SizeClass.antt =====
-- size_divide/small_object: `SizeClass`, the slabs of one size class. Each method runs under the
-- mutex, so it is one step.
pub mod Vector
pub mod Release
pub mod Keep
pub mod Contents
pub mod Beside
pub mod Used
pub mod Take
pub mod Pieces
pub mod Existing
pub mod Grown
pub mod Holds
pub mod Back
pub mod Given
pub mod Batch
pub mod Allocate
pub mod Links
pub mod GivenAll
use numa_pmr.Base.{
  ℕ, zero, suc, ◌+◌, ◌-◌, Bool, true, false, ◌&&◌, ◌||◌, not, Option, some, none, List, [], ◌∷◌, ℤ,
  ◌==◌, if◌then◌else◌, length, get_or,
}
use numa_pmr.Machine.Word.{null}
use numa_pmr.Machine.Platform.{Platform}
use numa_pmr.Machine.Memory.{World, Memory}
use numa_pmr.Machine.Monad.{M, invalid_argument, raise, pure, get, ◌>>=◌, ◌>>◌}
use numa_pmr.Machine.Object.{Object, outside, assign}
use numa_pmr.Config.Small.{slab_size}
use numa_pmr.Block.{to_user_ptr}
use numa_pmr.VirtualMemory.{release}
use numa_pmr.NodeLocal.{SlabVector, no_slabs, push_back, destroy_vector}
use numa_pmr.Slab.{create, allocate_block, free_block, has_free, is_empty}

-- `current` is null or a slab.
pub record SizeClass : Type 0 where
  pub block_size : ℕ
  pub node_id : ℤ
  pub sync : Bool
  pub current : ℕ
  pub slabs : SlabVector

abbrev pub ClassM : Type 0 → Type 0
ClassM = M (Object SizeClass)

-- The constructor.
unfoldable pub new_class : ℕ → ℤ → Bool → SizeClass
new_class block_size node sync = record {
  block_size = block_size;
  node_id = node;
  sync = sync;
  current = null;
  slabs = no_slabs;
}

abbrev pub set_current : ℕ → ClassM (Unit {0})
set_current slab = assign (λ c. record c { current = slab })

-- The first slab with a free block.
unfoldable pub first_free : List ℕ → Memory → Option ℕ
first_free [] m = none
first_free (s ∷ rest) m = if has_free s m then some s else first_free rest m

unfoldable pub current_usable : SizeClass → Memory → Bool
current_usable c m = not (c.current == null) && has_free c.current m

module _ (os : Platform) where
  -- A new slab, which is current before the vector has it.
  unfoldable pub add_slab : ClassM ℕ
  add_slab o =
      (do
        slab ← outside (create os o.self.block_size o.self.node_id)
        set_current slab
        slabs ← outside (push_back os o.self.node_id slab o.self.slabs)
        assign (λ c. record c { slabs = slabs })
        outside (allocate_block slab))
        o

  -- The scan of the slabs, and what follows when it finds none.
  unfoldable pub from_slabs : Option ℕ → ClassM ℕ → ClassM ℕ
  from_slabs (some slab) otherwise = set_current slab >> outside (allocate_block slab)
  from_slabs none otherwise = otherwise

  -- The body that `allocate`, `allocate_existing` and `allocate_new_slab` share.
  unfoldable pub allocate_or : ClassM ℕ → ClassM ℕ
  allocate_or otherwise o =
      if current_usable o.self o.world.memory
      then outside (allocate_block o.self.current) o
      else from_slabs (first_free o.self.slabs.items o.world.memory) otherwise o

  unfoldable pub allocate : ClassM ℕ
  allocate = allocate_or add_slab

  unfoldable pub allocate_existing : ClassM ℕ
  allocate_existing = allocate_or (pure null)

  unfoldable pub allocate_new_slab : ClassM ℕ
  allocate_new_slab = allocate_or add_slab

-- `std::swap(slabs_[i], slabs_.back()); slabs_.pop_back();`
unfoldable pub last_or : ℕ → List ℕ → ℕ
last_or d [] = d
last_or d (x ∷ xs) = last_or x xs

unfoldable pub drop_last : List ℕ → List ℕ
drop_last [] = []
drop_last (x ∷ []) = []
drop_last (x ∷ y ∷ xs) = x ∷ drop_last (y ∷ xs)

unfoldable pub set_item : List ℕ → ℕ → ℕ → List ℕ
set_item [] i v = []
set_item (x ∷ xs) zero v = v ∷ xs
set_item (x ∷ xs) (suc i) v = x ∷ set_item xs i v

unfoldable pub swap_remove : List ℕ → ℕ → List ℕ
swap_remove xs i = drop_last (set_item xs i (last_or null xs))

-- `std::find(...) == slabs_.end()`, negated.
unfoldable pub member : ℕ → List ℕ → Bool
member x [] = false
member x (y ∷ ys) = (y == x) || member x ys

-- The end of `release_extra_empty_slabs_locked`.
unfoldable pub choose_current : ℕ → SizeClass → Memory → ℕ
choose_current retained c m =
    let current : ℕ = if member c.current c.slabs.items then c.current else null in
    if (current == null || not (has_free current m)) && not (retained == null)
    then retained
    else current

module _ (os : Platform) where
  -- The removal of the empty slab at index `i`.
  unfoldable pub drop_slab : (i slab : ℕ) → ClassM (Unit {0})
  drop_slab i slab = do
    assign (λ c. record c {
      current = if c.current == slab then null else c.current;
      slabs = record (c.slabs) { items = swap_remove c.slabs.items i };
    })
    outside (release os slab slab_size)

  -- The loop of `release_extra_empty_slabs_locked`. Each round passes an item or removes one, so
  -- the rounds left are the items left; the result is the empty slab that is kept, or null.
  unfoldable pub release_loop : (rounds i retained : ℕ) → ClassM ℕ
  release_loop zero i retained o = pure retained o
  release_loop (suc n) i retained o =
      let slab = get_or o.self.slabs.items i null in
      let pass = release_loop n (i + 1) retained in
      let keep = release_loop n (i + 1) slab in
      let drop = release_loop n i retained in
      if not (is_empty slab o.world.memory)
      then pass o
      else if retained == null
      then keep o
      else (drop_slab i slab >> drop) o

  unfoldable pub release_extra_empty_slabs : ClassM (Unit {0})
  release_extra_empty_slabs o =
      (do
        retained ← release_loop (length o.self.slabs.items) 0 null
        m ← get (λ o'. o'.world.memory)
        assign (λ c. record c { current = choose_current retained c m }))
        o

  unfoldable pub deallocate : ℕ → ClassM (Unit {0})
  deallocate ptr o =
      let slab = (o.world.memory.block ptr).raw_ptr in
      if slab == null
      then raise invalid_argument o
      else (do
        outside (free_block slab ptr)
        empty ← get (λ o'. is_empty slab o'.world.memory)
        if empty then release_extra_empty_slabs else pure tt)
          o

  -- The loop of `deallocate_batch`, over the blocks linked from `head`. The batch is finite; fuel
  -- stands for its length.
  unfoldable pub batch_loop : (fuel head : ℕ) → Bool → ClassM Bool
  batch_loop zero head saw o = pure saw o
  batch_loop (suc n) head saw o =
      let next = o.world.memory.link (to_user_ptr head) in
      let slab = (o.world.memory.block head).raw_ptr in
      let rest = (do
        outside (free_block slab head)
        empty ← get (λ o'. is_empty slab o'.world.memory)
        batch_loop n next (saw || empty)) in
      if head == null then pure saw o else if slab == null then raise invalid_argument o else rest o

  unfoldable pub deallocate_batch : (fuel head : ℕ) → ClassM (Unit {0})
  deallocate_batch fuel head =
      if head == null
      then pure tt
      else (do saw ← batch_loop fuel head false; if saw then release_extra_empty_slabs else pure tt)

  release_all : List ℕ → M World (Unit {0})
  release_all [] = pure tt
  release_all (slab ∷ rest) = release os slab slab_size >> release_all rest

  -- `~SizeClass`, and the destruction of its vector.
  pub destroy_class : SizeClass → M World (Unit {0})
  unfolding release_all
  destroy_class c = release_all c.slabs.items >> destroy_vector os c.node_id c.slabs
