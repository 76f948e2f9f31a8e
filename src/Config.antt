-- ===== src/Config.antt =====
-- size_divide/block.hpp: the constants and pure tables of the allocator.
pub mod Small
pub mod Large
pub mod Bins
