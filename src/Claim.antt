-- ===== src/Claim.antt =====
-- src/dispatch/eligibility.ts: which worker may claim which job. The same contract stands there as
-- JavaScript predicates, as SQL conditions and as the text of a WHERE clause.
pub mod Sql
pub mod Job
pub mod Predicates
pub mod Conditions
pub mod Queries
pub mod Agreement
pub mod Isolation
pub mod Tier
