-- ===== src/Machine.antt =====
-- The machine under the allocator: words, memory, system calls, exceptions.
pub mod Word
pub mod Platform
pub mod Memory
pub mod Monad
pub mod Object
