-- ===== src/Jobs/Fence.antt =====
-- src/tools/wait-for-job.ts, src/tools/job-heartbeat.ts and src/tools/update-job-status.ts, called
-- by a worker whose job another worker has claimed since.
use scrum4me_mcp.Prelude.{
  some_injective, ℕ, ◌+◌, ◌≡◌, ◌&&◌, refl, ap, ◌∙◌, subst, String, Bool, false, none, some, List,
  [], ◌∷◌, arith, ◌==◌, map, find_by, some?, HasKeys, eq_iff, is_text, inl, inr, Bool-cases,
  if◌then◌else◌,
}
use scrum4me_mcp.Report.Timestamps.{ReportedStatus}
use scrum4me_mcp.Jobs.Table.{JobRow, Db, job_of, is_managed}
use scrum4me_mcp.Jobs.Rollback.{
  Owner, World, Ended, guarded, is_owned_by, refresh_ownership, rollback_checked, rollback_claim,
  release_mismatched_claim, may_skip, skip_agent_chat_job, leased_until, rollback_lease, ended_row,
}
use scrum4me_mcp.Jobs.Sweep.{job_heartbeat, may_beat, heartbeat_lease}
use scrum4me_mcp.Jobs.Status.{
  Fields, Refusal, Reported, Admission, admit_report, update_job_status, report_admitted,
}
use scrum4me_mcp.Jobs.Step.Change.{IsKeyed}

-- A guard that the stored row fails hits nothing.
module _ (p : JobRow → Bool) (id : String) (f : JobRow → JobRow) where
  pub none_absent :
      (rows : List JobRow)
      → find_by (λ j. j.id) id rows ≡ none
      → (map (guarded p id f) rows ≡ rows) × (some? (λ j. j.id == id && p j) rows ≡ false)
  none_absent [] h = (refl, refl)
  none_absent (r ∷ rows) h = elim (Bool-cases (r.id == id)) [
    | inl e ↦ cc (rw e at h)
    | inr e ↦
        let (same, misses) = none_absent rows (rw e at h) in
        (rw e (ap (λ (rs : List JobRow). r ∷ rs) same), rw e misses)
  ]

  pub none_hit :
      (rows : List JobRow) {j : JobRow}
      → HasKeys (λ r. r.id) rows
      → find_by (λ r. r.id) id rows ≡ some j
      → p j ≡ false
      → (map (guarded p id f) rows ≡ rows) × (some? (λ r. r.id == id && p r) rows ≡ false)
  unfolding HasKeys
  none_hit [] keys h q = cc
  none_hit (r ∷ rows) {j} keys h q = elim (Bool-cases (r.id == id)) [
    | inl e ↦
        let fails : p r ≡ false = ap p (some_injective (rw e at h)) ∙ q in
        let (same, misses) = none_absent rows (
          subst (λ i. find_by (λ (x : JobRow). x.id) i rows ≡ none) ((eq_iff r.id id).0 e)
            keys.0) in
        (rw (e, fails) (ap (λ (rs : List JobRow). r ∷ rs) same), rw (e, fails) misses)
    | inr e ↦
        let (same, misses) = none_hit rows keys.1 (rw e at h) q in
        (rw e (ap (λ (rs : List JobRow). r ∷ rs) same), rw e misses)
  ]

module _ (db : Db) (keys : IsKeyed db) (id : String) {j : JobRow} (here : job_of db id ≡ some j)
    (o : Owner) (taken : is_text j.claimed_by_token_id o.token_id ≡ false) where
  not_owned : is_owned_by (some o) j ≡ false
  unfolding is_owned_by
  not_owned = ground arith

  refresh_shut : (now : ℕ) → refresh_ownership (some o) id now db ≡ (db, false)
  unfolding refresh_ownership
  refresh_shut now =
      let (same, misses) =
        none_hit (is_owned_by (some o)) id (leased_until (now + rollback_lease)) db.jobs keys here
          not_owned in
      ground (arith, same, misses)

  rollback_shut :
      (w : World) (now : ℕ)
      → rollback_claim w (some o) id now db
        ≡ record { db = db; effects = []; ended = Ended.ownership_lost }
  unfolding rollback_claim rollback_checked
  rollback_shut w now = ap (rollback_checked w (some o) id) (refresh_shut now)

  release_shut : release_mismatched_claim id (some o) db ≡ db
  unfolding release_mismatched_claim
  release_shut = rw here (ground arith)

  skip_shut : (reason : String) (now : ℕ) → skip_agent_chat_job id (some o) reason now db ≡ db
  unfolding skip_agent_chat_job may_skip
  skip_shut reason now =
      let (same, misses) =
        none_hit (may_skip (some o)) id (ended_row "SKIPPED" reason now) db.jobs keys here
          (ground arith) in
      ground (arith, same, misses)

  beat_shut : (now : ℕ) → job_heartbeat id o.token_id now db ≡ (db, none)
  unfolding job_heartbeat may_beat
  beat_shut now =
      let (same, misses) =
        none_hit (may_beat o.token_id) id (leased_until (now + heartbeat_lease)) db.jobs keys here
          (ground arith) in
      ground (arith, same, misses)

  admit_shut :
      admit_report db o.token_id (some j)
      ≡ Admission.refused
          (if is_managed db j then Refusal.managed_row else Refusal.permission_denied)
  unfolding admit_report
  admit_shut = ground arith

  report_shut :
      (meanwhile : Db → Db) (actual : ReportedStatus) (fields : Fields) (now : ℕ)
      → (r : Refusal) × (update_job_status meanwhile o.token_id id actual fields now db
          ≡ Reported.rejected r)
  unfolding update_job_status report_admitted
  report_shut meanwhile actual fields now = (
    if is_managed db j then Refusal.managed_row else Refusal.permission_denied,
    ap (report_admitted meanwhile id actual fields now db)
        (ap (admit_report db o.token_id) here ∙ admit_shut),
  )

-- Where a job is stored with a claim that is not of this worker's token, five calls that this worker
-- may still start for its old claim change nothing: its rollback stops at the first check and touches
-- neither the tables nor a worktree, its release and its skip leave the tables as they are, its
-- heartbeat is an error, and every report that starts now is refused before anything is written. Ids
-- are keys. The two writes by id alone, `markJobTerminallyFailed` and the counted retry of
-- `getFullJobContext`, are not among the five.
pub old_claimant_shut_out :
    (db : Db)
    → IsKeyed db
    → (id : String) {j : JobRow} → job_of db id ≡ some j
    → (o : Owner) → is_text j.claimed_by_token_id o.token_id ≡ false
    → (w : World) (reason : String) (now : ℕ) (meanwhile : Db → Db) (actual : ReportedStatus)
      (fields : Fields)
    → (rollback_claim w (some o) id now db
        ≡ record { db = db; effects = []; ended = Ended.ownership_lost })
      × (release_mismatched_claim id (some o) db ≡ db)
      × (skip_agent_chat_job id (some o) reason now db ≡ db)
      × (job_heartbeat id o.token_id now db ≡ (db, none))
      × ((r : Refusal) × (update_job_status meanwhile o.token_id id actual fields now db
            ≡ Reported.rejected r))
old_claimant_shut_out db keys id here o taken w reason now meanwhile actual fields = (
  rollback_shut db keys id here o taken w now,
  release_shut db keys id here o taken,
  skip_shut db keys id here o taken reason now,
  beat_shut db keys id here o taken now,
  report_shut db keys id here o taken meanwhile actual fields now,
)
