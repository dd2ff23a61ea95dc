-- ===== src/Retention.antt =====
-- The retention of old rows (core/src/octoforge_core/retention.py and retention_sweep.py): the policy
-- and its sweep (`Sweep`), what a sweep leaves to the readers of the log (`Kept`), and the seqs of a
-- dialog across appends, compactions and sweeps (`Seqs`).
pub mod Sweep
pub mod Kept
pub mod Seqs
pub mod Visible
mod Samples
