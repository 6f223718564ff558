-- ===== src/Dispatch/Ending.antt =====
-- How a managed request ends: src/dispatch/lifecycle.ts, src/dispatch/cancel.ts,
-- src/dispatch/completion.ts, src/dispatch/task-status.ts and src/dispatch/retry-authorization.ts.
pub mod Table
pub mod Tasks
pub mod Retry
pub mod Lifecycle
pub mod Locks
pub mod Cancel
pub mod Judge
pub mod Accept
pub mod Change
pub mod Aside
pub mod Ends
pub mod Finish
pub mod Settled
pub mod Locked
pub mod Cancelled
pub mod Again
pub mod Confirmed
pub mod Finishable
pub mod Earned
pub mod Stands
pub mod Accepted
pub mod Canonical
pub mod Outcome
