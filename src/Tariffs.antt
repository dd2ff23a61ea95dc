-- ===== src/Tariffs.antt =====
-- The tariffs module (core/src/octoforge_core/tariffs): the catalog of plans with the users bound to
-- them (`Catalog`), and the limits with the ledger of usage and its cache (`Limits`, `Cached`).
pub mod Catalog
pub mod Plans
pub mod Limits
pub mod Cached
pub mod Budgets
mod Samples
