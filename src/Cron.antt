-- ===== src/Cron.antt =====
-- The cron module (core/src/octoforge_core/cron): a job and the schedule arithmetic, the store with
-- its lease, the scheduler that fires due jobs, and the reporter that folds outcomes back.
pub mod Api
pub mod Schedule
pub mod Missed
pub mod Store
pub mod Lease
pub mod Exclusive
pub mod Due
pub mod Create
pub mod Quota
pub mod Scheduler
pub mod Firing
pub mod Reporter
mod Samples
