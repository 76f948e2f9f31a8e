-- ===== src/BlockList.antt =====
-- The lists of free blocks that an arena and a thread cache keep in bins: `NumaArena::ForeignBatch`
-- and `ForeignBin` of numa_arena/numa_arena.hpp, `ThreadLocalCache::CacheBin` of
-- thread_local/thread_local_cache.hpp. A block is linked through its payload.
pub mod Chained
pub mod Detach
use numa_pmr.Base.{ℕ, zero, suc, ◌+◌, Bool, true, false, ◌||◌, not, ltb, ◌==◌, if◌then◌else◌}
use numa_pmr.Machine.Word.{wrap, sub_word, null}
use numa_pmr.Machine.Memory.{Memory, write_link}
use numa_pmr.Block.{to_user_ptr}

-- The three structs have these fields; the mutex of a `ForeignBin` is left out.
pub record BlockBin : Type 0 where
  pub head : ℕ
  pub count : ℕ
  pub bytes : ℕ

abbrev pub empty_bin : BlockBin
empty_bin = record { head = null; count = 0; bytes = 0 }

-- `next_foreign`, as a read.
abbrev pub next_block : ℕ → Memory → ℕ
next_block header m = m.link (to_user_ptr header)

-- The bin and the memory after `header` is linked in front, and counted with `size` bytes.
unfoldable pub push_header : (size header : ℕ) → BlockBin → BlockBin
push_header size header b = record {
  head = header;
  count = wrap (b.count + 1);
  bytes = wrap (b.bytes + size);
}

abbrev pub link_header : (header : ℕ) → BlockBin → Memory → Memory
link_header header b = write_link (to_user_ptr header) b.head

-- The bin without its first block.
unfoldable pub pop_header : (size : ℕ) → BlockBin → Memory → BlockBin
pop_header size b m = record {
  head = next_block b.head m;
  count = sub_word b.count 1;
  bytes = sub_word b.bytes size;
}

-- The state of the loop in `detach_foreign_until_low_locked`.
pub record Detaching : Type 0 where
  pub bin : BlockBin
  pub batch : BlockBin
  pub memory : Memory

-- One round: the first block goes in front of the batch.
unfoldable pub detach_one : (size : ℕ) → Detaching → Detaching
detach_one size d = record {
  bin = pop_header size d.bin d.memory;
  batch = push_header size d.bin.head d.batch;
  memory = link_header d.bin.head d.batch d.memory;
}

unfoldable pub goes_on : (low : ℕ) → BlockBin → Bool
goes_on low b = if b.head == null then false else ltb low b.bytes

-- The loop, by the rounds left.
unfoldable pub detach_loop : (rounds size low : ℕ) → Detaching → Detaching
detach_loop zero size low d = d
detach_loop (suc n) size low d =
    let rest = detach_loop n size low (detach_one size d) in if goes_on low d.bin then rest else d
