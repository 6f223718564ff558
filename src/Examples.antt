-- ===== src/Examples.antt =====
-- Tests of the modules on concrete inputs, from src/flow, src/dispatch, src/cancel, src/lib,
-- src/queue, src/verify and src/tools.
mod Lives
mod Pauses
mod Claims
mod Statuses
mod JobLives
mod Messages
mod Reports
mod Archives
mod Attempts
mod Endings
mod Cascades
mod WorkItems
mod Reviews
