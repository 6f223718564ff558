-- ===== src/Status.antt =====
-- src/lib/task-status-decisions.ts and src/lib/tasks-status-update.ts: how a task's status rises to
-- its story, PBI, sprint and sprint run.
pub mod Decisions
pub mod Store
pub mod Propagate
pub mod Promotion
