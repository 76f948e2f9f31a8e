-- ===== src/Tests/World.antt =====
-- A small machine for the tests: 4 KiB pages, two nodes, and an `mmap` that hands out a fresh
-- megabyte each time.
use numa_pmr.Base.{
  ◌==◌, ℕ, ◌+◌, ◌*◌, ◌^◌, arith, [], length, Option, none, some, true, false, ltb, if◌then◌else◌,
}
use numa_pmr.Machine.Platform.{Platform, Trace, MmapLaws}
use numa_pmr.Machine.Memory.{Memory, World, BlockHeader, SlabHeader}

abbrev next_span : Trace → ℕ
next_span t = 2 ^ 20 * (length t + 1)

abbrev bump : Trace → ℕ → Option ℕ
bump t n = if ltb (next_span t + n) (2 ^ 64) then some (next_span t) else none

abbrev pub machine : Platform
machine = record {
  page_size = 4096;
  numa_available = true;
  mmap_result = bump;
  mbind_result = λ t p n mode mask max. true;
  vector_growth = λ n. if n == 0 then 1 else 2 * n;
  sizeof_arena = 8192;
  sizeof_cache = 4096;
}

-- The same with an `mbind` that always fails.
abbrev pub no_mbind : Platform
no_mbind = record machine { mbind_result = λ t p n mode mask max. false }

pub machine-MmapLaws : MmapLaws machine
machine-MmapLaws = record {
  page_pos = omega arith;
  aligned = λ t n p e. ground arith;
  ne_null = λ t n p e. ground arith;
  in_space = λ t n p e. ground arith;
}

pub no_mbind-MmapLaws : MmapLaws no_mbind
no_mbind-MmapLaws = record {
  page_pos = omega arith;
  aligned = machine-MmapLaws.aligned;
  ne_null = machine-MmapLaws.ne_null;
  in_space = machine-MmapLaws.in_space;
}

abbrev no_block : BlockHeader
no_block = record { node_id = 0; size_class = 0; size = 0; raw_ptr = 0; total_size = 0 }

abbrev no_slab : SlabHeader
no_slab = record { node_id = 0; block_size = 0; capacity = 0; free_count = 0; free_list = 0 }

abbrev pub blank : Memory
blank = record {
  block = λ _. no_block;
  link = λ _. 0;
  slab = λ _. no_slab;
  allocation = λ _. record { raw_ptr = 0; total_size = 0 };
}

abbrev pub start : World
start = record { memory = blank; trace = [] }
