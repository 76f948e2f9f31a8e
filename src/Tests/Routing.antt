-- ===== src/Tests/Routing.antt =====
-- Two arenas, and a block of the second node that the first is asked to free.
use numa_pmr.Base.{ℕ, ◌+◌, ◌^◌, true, false, pos}
use numa_pmr.Machine.Memory.{World, write_block}
use numa_pmr.Machine.Object.{Object, object}
use numa_pmr.Block.{from_user_ptr}
use numa_pmr.Arena.{new_arena}
use numa_pmr.ArenaManager.{Arenas, managed}
use numa_pmr.Tests.World.{blank, start}

abbrev ptr : ℕ
ptr = 2 ^ 20 + 64

abbrev second_node_block : World
second_node_block = record start {
  memory =
      write_block (from_user_ptr ptr)
        (record { node_id = 1; size_class = 64; size = 0; raw_ptr = 2 ^ 20; total_size = 2 ^ 16 })
        blank;
}

abbrev two_arenas : Object Arenas
two_arenas =
    object
      (record {
        count = 2;
        managed = λ i. record { address = 2 ^ 24 + i; arena = new_arena (pos i) true true true };
        own = record { address = 2 ^ 25; arena = new_arena (pos 0) false true false };
      })
      second_node_block
