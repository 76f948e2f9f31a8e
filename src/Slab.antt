-- ===== src/Slab.antt =====
-- size_divide/small_object: `Slab`, a 64 KiB span cut into blocks of one size, with an intrusive
-- list of the free ones. A slab is its address; its header and the links are in memory.
pub mod Layout
pub mod Chain
pub mod FreeList
pub mod Blocks
pub mod Frame
pub mod Disjoint
use numa_pmr.Base.{
  ℕ, zero, suc, ◌+◌, ◌-◌, ◌*◌, ◌/◌, ◌%◌, ◌^◌, Bool, true, false, ℤ, to_u32, ltb, ◌==◌,
  if◌then◌else◌, max,
}
use numa_pmr.Machine.Word.{
  wrap32, dec32, alignment, sizeof_pointer, sizeof_block_header, sizeof_slab_header, null,
}
use numa_pmr.Machine.Platform.{Platform}
use numa_pmr.Machine.Memory.{
  World, Memory, SlabHeader, BlockHeader, write_block, write_link, write_slab, with_memory,
}
use numa_pmr.Machine.Monad.{M, ok, pure, get, modify, ◌>>=◌, ◌>>◌}
use numa_pmr.Config.Small.{slab_size}
use numa_pmr.VirtualMemory.{align_up, alloc_on_node}
use numa_pmr.Block.{to_user_ptr}

-- `header->free_list`, `header->free_count` and the rest through `header_ptr`.
abbrev pub header_of : ℕ → Memory → SlabHeader
header_of slab m = m.slab slab

-- `Slab::init`: where the blocks start, the size of one with its header, and how many fit.
unfoldable pub first_block : ℕ → ℕ
first_block slab = align_up (slab + sizeof_slab_header) alignment

unfoldable pub total_block_size : ℕ → ℕ
total_block_size block_size =
    align_up (sizeof_block_header + max block_size sizeof_pointer) alignment

unfoldable pub capacity_for : (slab block_size : ℕ) → ℕ
capacity_for slab block_size =
    wrap32 ((slab_size - (first_block slab - slab)) / total_block_size block_size)

-- One round of the loop of `init`.
unfoldable pub push_block : (slab block : ℕ) → Memory → Memory
push_block slab block m =
    write_slab slab (record (header_of slab m) { free_list = block })
      (write_link (to_user_ptr block) (header_of slab m).free_list m)

-- The loop, from block `i` on.
unfoldable pub init_loop : (rounds i slab ptr total : ℕ) → Memory → Memory
init_loop zero i slab ptr total m = m
init_loop (suc n) i slab ptr total m =
    init_loop n (i + 1) slab ptr total (push_block slab (ptr + i * total) m)

unfoldable pub init_header : (slab block_size : ℕ) → ℤ → SlabHeader
init_header slab block_size node = record {
  node_id = to_u32 node;
  block_size = wrap32 block_size;
  capacity = capacity_for slab block_size;
  free_count = capacity_for slab block_size;
  free_list = null;
}

unfoldable pub init : (slab block_size : ℕ) → ℤ → Memory → Memory
init slab block_size node m =
    init_loop (capacity_for slab block_size) 0 slab (first_block slab) (total_block_size block_size)
      (write_slab slab (init_header slab block_size node) m)

unfoldable pub create : Platform → (block_size : ℕ) → ℤ → M World ℕ
create os block_size node = do
  slab ← alloc_on_node os slab_size node
  modify (with_memory (init slab block_size node))
  pure slab

-- The memory after a block is taken off the list.
unfoldable pub pop_block : (slab block : ℕ) → Memory → Memory
pop_block slab block m =
    let marked =
      write_block block (record (m.block block) { raw_ptr = slab; total_size = slab_size }) m in
    write_slab slab
      (record (header_of slab marked) {
        free_list = marked.link (to_user_ptr block);
        free_count = dec32 (header_of slab marked).free_count;
      })
      marked

-- The block's address, or null from a slab with no free block.
unfoldable pub allocate_block : ℕ → M World ℕ
allocate_block slab w =
    let block = (header_of slab w.memory).free_list in
    if block == null
    then (ok null, w)
    else (ok block, record w { memory = pop_block slab block w.memory })

unfoldable pub return_block : (slab block : ℕ) → Memory → Memory
return_block slab block m =
    let linked = write_link (to_user_ptr block) (header_of slab m).free_list m in
    write_slab slab
      (record (header_of slab linked) {
        free_list = block;
        free_count = wrap32 ((header_of slab linked).free_count + 1);
      })
      linked

unfoldable pub free_block : (slab block : ℕ) → M World (Unit {0})
free_block slab block = modify (with_memory (return_block slab block))

unfoldable pub has_free : ℕ → Memory → Bool
has_free slab m = ltb 0 (header_of slab m).free_count

unfoldable pub is_empty : ℕ → Memory → Bool
is_empty slab m = (header_of slab m).free_count == (header_of slab m).capacity
