-- ===== src/Net.antt =====
-- The parts of core/src/octoforge_core/net: the documents that the runs of one process hold in memory
-- (`Responses`). `Removals`, `Rounds`, `Eviction`, `Budget` and `Oldest` are about what is dropped over
-- the budget, `Reads` about what the readers get.
pub mod Responses
pub mod Removals
pub mod Rounds
pub mod Eviction
pub mod Budget
pub mod Oldest
pub mod Reads
mod Samples
