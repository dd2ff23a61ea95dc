-- ===== src/Datasets.antt =====
-- The datasets of a user (core/src/octoforge_core/datasets), of which the schemas are modelled (`Schema`,
-- with `Typing` and `Validation` about them).
pub mod Schema
pub mod Typing
pub mod Validation
mod Samples
