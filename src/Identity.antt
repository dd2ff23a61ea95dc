-- ===== src/Identity.antt =====
-- The identity module (core/src/octoforge_core/identity): people and the surface accounts that point
-- at them (`Rows`, `Store`, `Manage`), and who of them may talk (`Admission`). `Accounts`, `Moves`,
-- `Belongs`, `Owners` and `Steps` are about whom an account belongs to, `Contacts` and `Revoked` about
-- first messages, `Slots` and `Cap` about the operator's limit on active people.
pub mod Rows
pub mod Store
pub mod Manage
pub mod Admission
pub mod Accounts
pub mod Moves
pub mod Belongs
pub mod Owners
pub mod Steps
pub mod Contacts
pub mod Revoked
pub mod Slots
pub mod Cap
mod Samples
