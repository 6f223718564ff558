-- ===== src/Flow.antt =====
-- src/flow: the three transition functions (PR, sprint run, worktree lease), the effects that they
-- ask for, and the executor that carries the effects out.
pub mod Effects
pub mod PrFlow
pub mod SprintRun
pub mod WorktreeLease
pub mod Executor
