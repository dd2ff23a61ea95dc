-- ===== src/Dialogs.antt =====
-- The dialogs module (core/src/octoforge_core/dialogs): which process runs a dialog (`Claims`, with
-- `Fencing` and `Preemption` about it), the message log of a dialog (`Messages` and `Log`, with
-- `Columns`, `Appending`, `Races` and `Unique` about it), the dialogs themselves (`Registry`, with
-- `Lookup` about it), and the obligations of a dialog to its user (`Exchanges`, with `Ownership`,
-- `Settled` and `Stranded` about it).
pub mod Claims
pub mod Fencing
pub mod Preemption
pub mod Messages
pub mod Log
pub mod Columns
pub mod Appending
pub mod Races
pub mod Unique
pub mod Registry
pub mod Lookup
pub mod Exchanges
pub mod Ownership
pub mod Settled
pub mod Stranded
mod Samples
mod LogSamples
