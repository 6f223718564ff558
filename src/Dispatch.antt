-- ===== src/Dispatch.antt =====
-- Managed dispatch: the attempts of src/dispatch/attempts.ts and how a request ends.
pub mod Table
pub mod Checks
pub mod Attempts
pub mod Ending
