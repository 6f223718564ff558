-- ===== src/Cancel.antt =====
-- When a task's job fails: src/cancel/pbi-cascade.ts.
pub mod Forge
pub mod Cascade
