-- ===== src/Tasks.antt =====
-- internal/infra/tasks: tasks that run in the background, by owner.
pub mod Manager
pub mod Runs
pub mod Steps
pub mod Settled
pub mod Access
pub mod Pages
pub mod Abandoned
