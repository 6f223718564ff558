-- ===== src/Jobs.antt =====
-- The life of a job of an ordinary worker: src/tools/wait-for-job.ts, src/tools/job-heartbeat.ts and
-- the writes of src/tools/update-job-status.ts on `claude_jobs`.
pub mod Table
pub mod Claim
pub mod Rollback
pub mod Sweep
pub mod Status
pub mod Step
pub mod Fence
pub mod Late
pub mod Lease
