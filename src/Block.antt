-- ===== src/Block.antt =====
-- size_divide/block.hpp: the address arithmetic between a block's header and its payload.
use numa_pmr.Base.{ℕ, ◌+◌, ◌-◌}
use numa_pmr.Machine.Word.{sizeof_block_header}

-- `BlockHeader::from_user_ptr`.
abbrev pub from_user_ptr : ℕ → ℕ
from_user_ptr p = p - sizeof_block_header

-- `BlockHeader::to_user_ptr`.
abbrev pub to_user_ptr : ℕ → ℕ
to_user_ptr header = header + sizeof_block_header
