-- ===== src/Tests/Blocks.antt =====
-- A slab of 4096-byte blocks on the test machine.
use numa_pmr.Base.{ℕ, ◌+◌, ◌*◌, ◌^◌, ◌%◌, ◌≤◌, ◌<◌, ◌≡◌, refl, arith, pos, [], ◌∷◌, max}
use numa_pmr.Machine.Word.{sizeof_block_header, sizeof_slab_header, sizeof_pointer}
use numa_pmr.Machine.Memory.{Memory}
use numa_pmr.Machine.Monad.{Returns, ok}
use numa_pmr.Config.Small.{slab_size}
use numa_pmr.Slab.{
  init, capacity_for, allocate_block, free_block, return_block, pop_block, has_free, is_empty,
}
use numa_pmr.Slab.Layout.{IsBase, block_at, block_at-inside}
use numa_pmr.Slab.FreeList.{IsSlab, blocks, init-IsSlab}
use numa_pmr.Slab.Blocks.{Popped, allocate_block-Popped, return_block-IsSlab, pop_block-IsSlab}
use numa_pmr.Tests.World.{blank, start}

abbrev slab : ℕ
slab = 2 ^ 20

slab-IsBase : IsBase slab
slab-IsBase = record { ne_null = omega arith; aligned = omega arith; in_space = omega arith }

abbrev fresh_memory : Memory
fresh_memory = init slab 4096 (pos 0) blank

pub capacity_of_4096 : capacity_for slab 4096 ≡ 15
unfolding capacity_for numa_pmr.Slab.first_block numa_pmr.Slab.total_block_size
    numa_pmr.VirtualMemory.align_up
capacity_of_4096 = refl

-- The highest block is handed out first.
first_allocation :
    (allocate_block slab (record start { memory = fresh_memory })).0 ≡ ok (slab + 32 + 14 * 4128)
unfolding allocate_block init numa_pmr.Slab.init_loop numa_pmr.Slab.push_block
    numa_pmr.Slab.init_header capacity_for numa_pmr.Slab.first_block numa_pmr.Slab.total_block_size
    numa_pmr.VirtualMemory.align_up
first_allocation = refl

init-IsSlab_example : IsSlab slab 4096 (blocks slab 4096 (capacity_for slab 4096)) [] fresh_memory
init-IsSlab_example = init-IsSlab slab 4096 slab-IsBase (omega arith) (pos 0) blank

fresh_slab : IsSlab slab 4096 (block_at slab 4096 14 ∷ blocks slab 4096 14) [] fresh_memory
unfolding blocks
fresh_slab = rw capacity_of_4096 at (init-IsSlab slab 4096 slab-IsBase (omega arith) (pos 0) blank)

abbrev top : ℕ
top = block_at slab 4096 14

allocate_block-Popped_example :
    Returns
      (Popped slab 4096 (top ∷ blocks slab 4096 14) [] (record start { memory = fresh_memory }))
      (allocate_block slab (record start { memory = fresh_memory }))
allocate_block-Popped_example =
    allocate_block-Popped slab 4096 (top ∷ blocks slab 4096 14) []
      (record start { memory = fresh_memory }) slab-IsBase (omega arith) fresh_slab

return_block-IsSlab_example :
    IsSlab slab 4096
      (top ∷ blocks slab 4096 14)
      []
      (return_block slab top (pop_block slab top fresh_memory))
return_block-IsSlab_example =
    return_block-IsSlab slab-IsBase (omega arith)
      (pop_block-IsSlab slab-IsBase (omega arith) fresh_slab)

block_at-inside_example :
    (slab + sizeof_slab_header ≤ block_at slab 4096 14)
    × (block_at slab 4096 14 + sizeof_block_header + 4096 ≤ slab + slab_size)
    × (block_at slab 4096 14 % 16 ≡ 0)
    × ((j : ℕ)
        → 14 < j
        → block_at slab 4096 14 + sizeof_block_header + max 4096 sizeof_pointer
          ≤ block_at slab 4096 j)
block_at-inside_example =
    block_at-inside slab 4096 slab-IsBase (omega arith) 14 (omega (arith, capacity_of_4096))
