-- ===== src/Jobs/Late.antt =====
-- src/tools/update-job-status.ts, the generic path: its checks are on the row as it was read, its
-- write finds the row by the id alone.
use scrum4me_mcp.Prelude.{
  ℕ, ◌≡◌, refl, sym, ap, ◌∙◌, String, some, find_by, find_by-id, find_by-update_by_self, update_by,
}
use scrum4me_mcp.Report.Timestamps.{ReportedStatus}
use scrum4me_mcp.Jobs.Table.{JobRow, Db, job_of}
use scrum4me_mcp.Jobs.Status.{
  Fields, Reported, Admission, admit_report, reported_row, write_report, report_admitted,
  update_job_status, db_status,
}

reported-id :
    (read : JobRow) (actual : ReportedStatus) (fields : Fields) (now : ℕ) (j : JobRow)
    → (reported_row read actual fields now j).id ≡ j.id
unfolding reported_row
reported-id read actual fields now j = refl

-- A report that was let through is written over whatever claim the job has by the time of the write,
-- also one of another worker: the row keeps the claimant that it has then and gets the status of the
-- report.
pub late_report_overwrites :
    (meanwhile : Db → Db) (token_id id : String) (actual : ReportedStatus) (fields : Fields)
    (now : ℕ) (db : Db) {read later : JobRow}
    → admit_report db token_id (job_of db id) ≡ Admission.admitted read
    → job_of (meanwhile db) id ≡ some later
    → (db' : Db) × (update_job_status meanwhile token_id id actual fields now db
        ≡ Reported.written (some db'))
      × (row : JobRow) × (job_of db' id ≡ some row)
      × (row.status ≡ db_status actual)
      × (row.claimed_by_token_id ≡ later.claimed_by_token_id)
      × (row.worker_instance_id ≡ later.worker_instance_id)
unfolding update_job_status report_admitted write_report reported_row
late_report_overwrites meanwhile token_id id actual fields now db {read} {later} let_in there =
    let change = reported_row read actual fields now in
    let same : later.id ≡ id = find_by-id (λ (j : JobRow). j.id) id (meanwhile db).jobs there in
    let here = ap (job_of (meanwhile db)) same ∙ there in
    let written_at =
      find_by-update_by_self (λ (j : JobRow). j.id) change (reported-id read actual fields now)
        later.id (meanwhile db).jobs here in
    (
      record (meanwhile db) {
        jobs = update_by (λ (j : JobRow). j.id) later.id change (meanwhile db).jobs;
      },
      ap (report_admitted meanwhile id actual fields now db) let_in
          ∙ ap
              (λ found. Reported.written (write_report read actual fields now found (meanwhile db)))
              there,
      change later,
      ap
            (λ i.
              find_by (λ (j : JobRow). j.id) i
                (update_by (λ (j : JobRow). j.id) later.id change (meanwhile db).jobs))
            (sym same)
          ∙ written_at,
      refl,
      refl,
      refl,
    )
