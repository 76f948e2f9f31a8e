-- ===== src/Machine/Memory.antt =====
-- The memory that the allocator itself reads and writes: the headers and the intrusive list links
-- that it keeps inside the spans it manages, by the kind of object and its address. A fresh span
-- holds whatever it holds; the code writes each of these objects before it reads it.
use numa_pmr.Base.{fun_ext, ◌<◌, ℕ_discrete, ℕ, ◌≡◌, ◌≢◌, arith, ◌==◌, if◌then◌else◌}
use numa_pmr.Machine.Platform.{Trace}

pub record BlockHeader : Type 0 where
  pub node_id : ℕ
  -- 0 for a large block
  pub size_class : ℕ
  pub size : ℕ
  pub raw_ptr : ℕ
  pub total_size : ℕ

pub record SlabHeader : Type 0 where
  pub node_id : ℕ
  pub block_size : ℕ
  pub capacity : ℕ
  pub free_count : ℕ
  pub free_list : ℕ

-- The header of `numa_simple_memory_resource`.
pub record AllocationHeader : Type 0 where
  pub raw_ptr : ℕ
  pub total_size : ℕ

pub record Memory : Type 0 where
  pub block : ℕ → BlockHeader
  -- the pointer stored at a free block's payload
  pub link : ℕ → ℕ
  pub slab : ℕ → SlabHeader
  pub allocation : ℕ → AllocationHeader

-- The world outside the allocator's own objects: memory, and the system calls made so far.
pub record World : Type 0 where
  pub memory : Memory
  pub trace : Trace

abbrev pub update : {V : Type 0} → (ℕ → V) → ℕ → V → ℕ → V
update f p v q = if q == p then v else f q

abbrev pub write_block : ℕ → BlockHeader → Memory → Memory
write_block p h m = record m { block = update m.block p h }

abbrev pub write_link : ℕ → ℕ → Memory → Memory
write_link p q m = record m { link = update m.link p q }

abbrev pub write_slab : ℕ → SlabHeader → Memory → Memory
write_slab p h m = record m { slab = update m.slab p h }

abbrev pub write_allocation : ℕ → AllocationHeader → Memory → Memory
write_allocation p h m = record m { allocation = update m.allocation p h }

abbrev pub with_memory : (Memory → Memory) → World → World
with_memory f w = record w { memory = f w.memory }

pub update_self : {V : Type 0} (f : ℕ → V) (p : ℕ) (v : V) → update f p v p ≡ v
update_self f p v = ground arith

pub update_ne : {V : Type 0} (f : ℕ → V) (p q : ℕ) (v : V) → q ≢ p → update f p v q ≡ f q
update_ne f p q v h = ground arith

-- An entry overwritten by itself.
pub update_same : {V : Type 0} (f : ℕ → V) (p : ℕ) → update f p (f p) ≡ f
update_same f p = fun_ext λ q. elim (ℕ_discrete q p) [
  | yes e ↦ rw e (update_self f p (f p))
  | no ne ↦ update_ne f p q (f p) ne
]

-- What holds of every entry of an array, and of the value written, holds after the write.
pub update_all :
    {V : Type 0} (P : ℕ → V → Type 0) (n : ℕ) (f : ℕ → V) (p : ℕ) (v : V)
    → P p v
    → ((q : ℕ) → q < n → P q (f q))
    → (q : ℕ) → q < n
    → P q (update f p v q)
update_all P n f p v new old q lt = elim (ℕ_discrete q p) [
  | yes e ↦ rw e (rw (update_self f p v) new)
  | no other ↦ rw (update_ne f p q v other) (old q lt)
]
