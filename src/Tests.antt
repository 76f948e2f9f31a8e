-- ===== src/Tests.antt =====
-- Runs of the model at concrete inputs, and the theorems at them.
pub mod World
pub mod Pure
pub mod Spans
pub mod Blocks
pub mod Classes
pub mod Nodes
pub mod Simple
pub mod Interleaving
pub mod Bins
pub mod Handed
pub mod Affinity
pub mod Routing
pub mod Client
