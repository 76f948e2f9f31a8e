-- ===== src/Machine/Word.antt =====
-- The 64-bit machine that the code is compiled for (LP64): widths of its unsigned types, and the
-- sizes that the ABI gives to its structs. Every `size_t` and `uintptr_t` is a number below
-- `2 ^ 64`; an operation that can wrap says so with `wrap`.
use numa_pmr.Base.{ℕ, ◌+◌, ◌-◌, ◌%◌, ◌^◌, ◌<◌}

-- `std::numeric_limits<size_t>::max()`.
abbrev pub size_max : ℕ
size_max = 2 ^ 64 - 1

abbrev pub IsWord : ℕ → Type 0
IsWord n = n < 2 ^ 64

-- A result of unsigned arithmetic on `size_t`.
abbrev pub wrap : ℕ → ℕ
wrap n = n % 2 ^ 64

-- `static_cast<uint32_t>`, and assignment to a `uint32_t` field.
abbrev pub wrap32 : ℕ → ℕ
wrap32 n = n % 2 ^ 32

-- `x - 1` on a `uint32_t`, and `x - y` on a `size_t`.
abbrev pub dec32 : ℕ → ℕ
dec32 n = wrap32 (n + 2 ^ 32 - 1)

abbrev pub sub_word : ℕ → ℕ → ℕ
sub_word a b = wrap (a + 2 ^ 64 - b)

-- `alignof(std::max_align_t)`, `sizeof(void*)` and `alignof(void*)`.
abbrev pub alignment : ℕ
alignment = 16

abbrev pub sizeof_pointer : ℕ
sizeof_pointer = 8

abbrev pub sizeof_block_header : ℕ
sizeof_block_header = 32

abbrev pub sizeof_slab_header : ℕ
sizeof_slab_header = 24

abbrev pub sizeof_allocation_header : ℕ
sizeof_allocation_header = 16

abbrev pub null : ℕ
null = 0
