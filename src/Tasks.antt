-- ===== src/Tasks.antt =====
-- The tasks module (core/src/octoforge_core/tasks): the task and its lifecycle in `Api`, the two
-- implementations of its store in `Memory` and `Sql`, their comparison call by call in `Agreement`,
-- along histories in `Refinement`, and of what a restart reads in `Recovery`.
pub mod Api
pub mod Memory
pub mod Sql
mod Rules
pub mod Agreement
pub mod Refinement
pub mod Recovery
mod Samples
