-- ===== src/Scheduler.antt =====
-- internal/infra/scheduler: pools of instances, one to a specification key.
pub mod State
pub mod Pool
pub mod Acquire
pub mod Maintenance
pub mod Lifecycle
pub mod Catalog
pub mod Invariant
pub mod Preserve
pub mod Adopt
pub mod Stopping
pub mod Reaping
pub mod Steps
pub mod Sessions
pub mod Races
pub mod Pools
