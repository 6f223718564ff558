-- ===== src/Jobs/Step/Reports.antt =====
-- The reports of src/tools/update-job-status.ts as steps: they leave no job held or open that was
-- not.
use scrum4me_mcp.Prelude.{
  double_negation, Bool, not, is_text, absurd_option, some_injective, ℕ, ◌≡◌, refl, sym, ap, ◌∙◌,
  String, true, false, Option, none, some, List, [], ◌∷◌, ◌==◌, Bool-cases, find_by-id, update_by,
  inl, inr, includes, if◌then◌else◌,
}
use scrum4me_mcp.Report.Timestamps.{ReportedStatus}
use scrum4me_mcp.Jobs.Table.{JobRow, Db, job_of, held_statuses, is_managed}
use scrum4me_mcp.Jobs.Status.{
  Fields, Reported, Admission, Refusal, admit_report, reported_row, write_report, report_admitted,
  update_job_status, apply_deploy_terminal_update, settle_deploys, deploy_row, waits_to_deploy,
  blocks_deploy, superseded_row, AuditEnd, apply_docs_audit_terminal_update,
  check_docs_audit_terminal, may_end_audit, audit_row, audit_status, end_audit, AuditError,
}
use scrum4me_mcp.Jobs.Step.{is_held}
use scrum4me_mcp.Jobs.Step.Change.{
  Keeps, Keeps-refl, Change, Change-same, Change-map, Change-update, Change-trans,
}
use scrum4me_mcp.Jobs.Step.Others.{Keeps-status, Keeps-ended, Keeps-open, held→open, Change-guarded}

admitted_injective : {a b : JobRow} → Admission.admitted a ≡ Admission.admitted b → a ≡ b
admitted_injective h = cc

absurd_refused :
    {B : Type 0} {r : Refusal} {j : JobRow} → Admission.refused r ≡ Admission.admitted j → B
absurd_refused h = cc

-- A check that let through did not fire.
let_through :
    (b : Bool) (r : Refusal) {a : Admission} {j : JobRow}
    → (if b then Admission.refused r else a) ≡ Admission.admitted j
    → (b ≡ false) × (a ≡ Admission.admitted j)
let_through true r h = absurd_refused h
let_through false r h = (refl, h)

-- A report that is let through is about the row of the job, which the caller holds.
pub admitted_row :
    (db : Db) (token_id : String) (found : Option JobRow) {j : JobRow}
    → admit_report db token_id found ≡ Admission.admitted j
    → (found ≡ some j) × (is_held j ≡ true)
unfolding admit_report
admitted_row db token_id none h = absurd_refused h
admitted_row db token_id (some r) h =
    let own = (let_through (is_managed db r) _ h).1 in
    let live = (let_through (not (is_text r.claimed_by_token_id token_id)) _ own).1 in
    let open' = (let_through (r.status == "CANCELLED") _ live).1 in
    let (held, e) = let_through (not (includes held_statuses r.status)) _ open' in
    let same = admitted_injective e in
    (ap some same, ap is_held (sym same) ∙ double_negation (includes held_statuses r.status) held)

reported_id :
    (read : JobRow) (actual : ReportedStatus) (fields : Fields) (now : ℕ) (j : JobRow)
    → (reported_row read actual fields now j).id ≡ j.id
unfolding reported_row
reported_id read actual fields now j = refl

reported-Keeps :
    (read : JobRow) (actual : ReportedStatus) (fields : Fields) (now : ℕ) (j : JobRow)
    → is_held j ≡ true
    → Keeps j (reported_row read actual fields now j)
unfolding reported_row
reported-Keeps read actual fields now j h =
    Keeps-open j (reported_row read actual fields now j) (refl, refl, refl, refl) (inr h)
      (held→open j h)

write_case :
    (id : String) (actual : ReportedStatus) (fields : Fields) (now : ℕ) (db : Db) (read : JobRow)
    (found : Option JobRow) {db' : Db}
    → job_of db id ≡ found
    → found ≡ some read
    → is_held read ≡ true
    → write_report read actual fields now found db ≡ some db'
    → Change db db'
unfolding write_report
write_case id actual fields now db read none e same held h = absurd_option h
write_case id actual fields now db read (some j) {db'} e same held h =
    let here = ap (job_of db) (find_by-id (λ (r : JobRow). r.id) id db.jobs e) ∙ e in
    Change-update db db' j.id (reported_row read actual fields now)
      (λ r there.
        reported-Keeps read actual fields now r
          (ap is_held (some_injective (sym there ∙ here ∙ same)) ∙ held))
      (λ r. reported_id read actual fields now r) (sym (ap (λ d. d.jobs) (some_injective h)))

absurd_rejected :
    {B : Type 0} {r : Refusal} {d : Option Db} → Reported.rejected r ≡ Reported.written d → B
absurd_rejected h = cc

written_injective : {c d : Option Db} → Reported.written c ≡ Reported.written d → c ≡ d
written_injective h = cc

-- A report that writes was let through, and wrote over the tables as they were then.
pub written_after :
    (meanwhile : Db → Db) (id : String) (actual : ReportedStatus) (fields : Fields) (now : ℕ)
    (db : Db) (a : Admission) {db' : Db}
    → report_admitted meanwhile id actual fields now db a ≡ Reported.written (some db')
    → (j : JobRow) × (a ≡ Admission.admitted j)
      × (write_report j actual fields now (job_of (meanwhile db) id) (meanwhile db) ≡ some db')
unfolding report_admitted
written_after meanwhile id actual fields now db (Admission.refused r) h = absurd_rejected h
written_after meanwhile id actual fields now db (Admission.admitted j) h =
    (j, refl, written_injective h)

pub Change-report :
    (token_id id : String) (actual : ReportedStatus) (fields : Fields) (now : ℕ) (db : Db)
    {db' : Db}
    → update_job_status (λ d. d) token_id id actual fields now db ≡ Reported.written (some db')
    → Change db db'
unfolding update_job_status
Change-report token_id id actual fields now db {db'} h =
    let (j, e, w) =
      written_after (λ d. d) id actual fields now db (admit_report db token_id (job_of db id)) h in
    let (found, held) = admitted_row db token_id (job_of db id) e in
    write_case id actual fields now db j (job_of db id) refl found held w

superseded-Keeps :
    (product_id id : String) (now : ℕ) (j : JobRow)
    → Keeps j (if waits_to_deploy product_id j then superseded_row id now j else j)
superseded-Keeps product_id id now j = elim (Bool-cases (waits_to_deploy product_id j)) [
  | inl e ↦ rw e (Keeps-ended j (superseded_row id now j) (refl, refl, refl, refl) refl refl)
  | inr e ↦ rw e (Keeps-refl j)
]

lifted-Keeps :
    (product_id id : String) (now : ℕ) (j : JobRow)
    → Keeps j (if blocks_deploy product_id id j then record j { resolved_at = some now } else j)
lifted-Keeps product_id id now j = elim (Bool-cases (blocks_deploy product_id id j)) [
  | inl e ↦
      rw e (Keeps-status j (record j { resolved_at = some now }) (refl, refl, refl, refl) refl)
  | inr e ↦ rw e (Keeps-refl j)
]

abbrev with_jobs : Db → List JobRow → Db
with_jobs db jobs = record db { jobs = jobs }

Change-settle :
    (status : ReportedStatus) (product_id id : String) (now : ℕ) (db : Db)
    → Change db (with_jobs db (settle_deploys status product_id id now db.jobs).0)
unfolding settle_deploys
Change-settle ReportedStatus.failed product_id id now db =
    Change-map db _ (λ j. if waits_to_deploy product_id j then superseded_row id now j else j)
      (λ j here. superseded-Keeps product_id id now j)
      (λ j. (superseded-Keeps product_id id now j).same_id) refl
Change-settle ReportedStatus.done product_id id now db =
    Change-map db _
      (λ j. if blocks_deploy product_id id j then record j { resolved_at = some now } else j)
      (λ j here. lifted-Keeps product_id id now j) (λ j. (lifted-Keeps product_id id now j).same_id)
      refl
Change-settle ReportedStatus.running product_id id now db = Change-same db db refl
Change-settle ReportedStatus.skipped product_id id now db = Change-same db db refl

deploy-Keeps :
    (status : ReportedStatus) (fields : Fields) (now : ℕ) (j : JobRow)
    → Keeps j (deploy_row status fields now j)
deploy-Keeps ReportedStatus.done fields now j = Keeps-ended j _ (refl, refl, refl, refl) refl refl
deploy-Keeps ReportedStatus.failed fields now j = Keeps-ended j _ (refl, refl, refl, refl) refl refl
deploy-Keeps ReportedStatus.running fields now j =
    Keeps-ended j _ (refl, refl, refl, refl) refl refl
deploy-Keeps ReportedStatus.skipped fields now j =
    Keeps-ended j _ (refl, refl, refl, refl) refl refl

pub Change-deploy :
    (status : ReportedStatus) (product_id id : String) (fields : Fields) (now : ℕ) (db : Db)
    → Change db (record db {
      jobs = (apply_deploy_terminal_update status product_id id fields now db.jobs).0;
    })
unfolding apply_deploy_terminal_update
Change-deploy status product_id id fields now db =
    let updated = update_by (λ (j : JobRow). j.id) id (deploy_row status fields now) db.jobs in
    Change-trans
      (Change-update db (with_jobs db updated) id (deploy_row status fields now)
        (λ j here. deploy-Keeps status fields now j)
        (λ j. (deploy-Keeps status fields now j).same_id) refl)
      (Change-settle status product_id id now (with_jobs db updated))

audit_status-ended :
    (s : String)
    → (includes ("QUEUED" ∷ "CLAIMED" ∷ "RUNNING" ∷ []) (audit_status s) ≡ false)
      × (includes held_statuses (audit_status s) ≡ false)
audit_status-ended s = elim (Bool-cases (s == "done")) [
  | inl e ↦ rw e (refl, refl)
  | inr e ↦ elim (Bool-cases (s == "failed")) [
    | inl f ↦ rw (e, f) (refl, refl)
    | inr f ↦ rw (e, f) (refl, refl)
  ]
]

module _ (trim : String → String) (read_date : String → Option ℕ) where
  audit-Keeps :
      (marker : String → String) (i : AuditEnd) (summary : Option String) (now : ℕ) (j : JobRow)
      → Keeps j (audit_row trim read_date marker i summary now j)
  audit-Keeps marker i summary now j =
      Keeps-ended j _ (refl, refl, refl, refl) (audit_status-ended i.status).0
        (audit_status-ended i.status).1

  end-Change :
      (marker : String → String) (token_id : Option String) (id : String) (i : AuditEnd)
      (summary : Option String) (now : ℕ) (error : Option AuditError) (db : Db)
      → Change db (end_audit trim read_date marker token_id id i summary now error db).0
  unfolding end_audit
  end-Change marker token_id id i summary now (some e) db = Change-same db db refl
  end-Change marker token_id id i summary now none db =
      Change-guarded db _ (may_end_audit trim read_date token_id) id
        (audit_row trim read_date marker i summary now) (λ j h. audit-Keeps marker i summary now j)
        (λ j. refl) refl

  pub Change-audit :
      (marker : String → String) (token_id : Option String) (id : String) (i : AuditEnd)
      (summary : Option String) (now : ℕ) (db : Db)
      → Change db
          (apply_docs_audit_terminal_update trim read_date marker token_id id i summary now db).0
  unfolding apply_docs_audit_terminal_update
  Change-audit marker token_id id i summary now db =
      end-Change marker token_id id i summary now (check_docs_audit_terminal trim read_date i) db
