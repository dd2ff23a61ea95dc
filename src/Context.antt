-- ===== src/Context.antt =====
-- The context of a run (core/src/octoforge_core/context): the summaries of a dialog and the archive of
-- its messages (`Store`), and the compactor that turns the oldest messages into a summary (`Segment`,
-- `Compactor`).
pub mod Store
pub mod Segment
pub mod Cuts
pub mod Sizes
pub mod Compactor
pub mod Reading
pub mod Boundary
pub mod Compaction
pub mod Assembly
mod Samples
