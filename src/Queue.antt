-- ===== src/Queue.antt =====
-- The message queue between agents: src/queue and the tools queue_next, queue_done, queue_fail
-- and queue_archive of src/tools.
pub mod Message
pub mod Claim
pub mod Ownership
pub mod Finish
pub mod Maintenance
pub mod Step
pub mod WorkItem
pub mod Presence
pub mod Archive
