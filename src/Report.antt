-- ===== src/Report.antt =====
-- How a job's end is reported: src/verify/gate.ts and the decisions of src/tools/update-job-status.ts.
pub mod Gate
pub mod Timestamps
pub mod OpenPr
