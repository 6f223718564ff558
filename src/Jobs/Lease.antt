-- ===== src/Jobs/Lease.antt =====
-- src/tools/job-heartbeat.ts against `resetStaleClaimedJobs` of src/tools/wait-for-job.ts: a sweep
-- leaves a job alone while its lease runs.
use mathlib.Core.Option
use scrum4me_mcp.Prelude.{
  absurd_bool, ℕ, ◌+◌, ◌≤◌, ◌≡◌, refl, ap, ◌∙◌, String, Bool, true, false, Option, none, some, List,
  [], ◌∷◌, arith, eq_iff, Option-cases, Bool-cases, inl, inr, find_by, find_by-map, find_by-id,
  select, HasKeys, if◌then◌else◌,
}
use scrum4me_mcp.Jobs.Table.{JobRow, Db, job_of}
use scrum4me_mcp.Jobs.Rollback.{guarded, hits, leased_until}
use scrum4me_mcp.Jobs.Sweep.{
  fail_row, retry_row, gives_up, tries_again, fail_run_of, fail_runs, fail_stale, retry_stale,
  reset_stale_claimed_jobs, is_stale, lease_ran_out, heartbeat_lease, may_beat, job_heartbeat,
}
use scrum4me_mcp.Jobs.Fence.{none_absent, none_hit}

leased_not_stale :
    (user_id : String) (now t : ℕ) (j : JobRow)
    → j.lease_until ≡ some t
    → now ≤ t
    → is_stale user_id now j ≡ false
unfolding is_stale lease_ran_out
leased_not_stale user_id now t j h l = ground arith

fail_runs-jobs : (rows : List JobRow) (db : Db) → (fail_runs rows db).jobs ≡ db.jobs
unfolding fail_runs fail_run_of
fail_runs-jobs [] db = refl
fail_runs-jobs (j ∷ rows) db = fail_runs-jobs rows (fail_run_of j db) ∙ ground arith

fail_row-kept :
    (user_id : String) (now : ℕ) (j : JobRow)
    → is_stale user_id now j ≡ false
    → fail_row user_id now j ≡ j
unfolding fail_row gives_up
fail_row-kept user_id now j h = ground arith

retry_row-kept :
    (user_id : String) (now : ℕ) (j : JobRow)
    → is_stale user_id now j ≡ false
    → retry_row user_id now j ≡ j
unfolding retry_row tries_again
retry_row-kept user_id now j h = ground arith

fail_row-id : (user_id : String) (now : ℕ) (j : JobRow) → (fail_row user_id now j).id ≡ j.id
unfolding fail_row
fail_row-id user_id now j = ground arith

retry_row-id : (user_id : String) (now : ℕ) (j : JobRow) → (retry_row user_id now j).id ≡ j.id
unfolding retry_row
retry_row-id user_id now j = ground arith

module _ (user_id : String) (now later : ℕ) (db : Db) (id : String) {j : JobRow} {t : ℕ}
    (here : job_of db id ≡ some j) (lease : j.lease_until ≡ some t) (soon : now ≤ t)
    (soon' : later ≤ t) where
  pub leased_job_stays : job_of (reset_stale_claimed_jobs user_id now later db).0 id ≡ some j
  unfolding reset_stale_claimed_jobs fail_stale retry_stale
  leased_job_stays =
      let failed =
        find_by-map (λ (r : JobRow). r.id) (fail_row user_id now) (fail_row-id user_id now) id
          db.jobs
        ∙ ap (Option.map (fail_row user_id now)) here
        ∙ ap some (fail_row-kept user_id now j (leased_not_stale user_id now t j lease soon)) in
      ap (find_by (λ (r : JobRow). r.id) id) (
        fail_runs-jobs (select (gives_up user_id now) db.jobs)
          (retry_stale user_id later (fail_stale user_id now db)))
      ∙ find_by-map (λ (r : JobRow). r.id) (retry_row user_id later) (retry_row-id user_id later) id
          (fail_stale user_id now db).jobs
      ∙ ap (Option.map (retry_row user_id later)) failed
      ∙ ap some (retry_row-kept user_id later j (leased_not_stale user_id later t j lease soon'))

guarded-id :
    (p : JobRow → Bool) (id : String) (t : ℕ) (j : JobRow)
    → (guarded p id (leased_until t) j).id ≡ j.id
guarded-id p id t j = ground arith

-- A guard that hits is passed by the row that the id finds.
hits-found :
    (p : JobRow → Bool) (id : String) (db : Db)
    → HasKeys (λ r. r.id) db.jobs
    → hits p id db ≡ true
    → (j : JobRow) × (job_of db id ≡ some j) × (p j ≡ true)
hits-found p id db keys h = elim (Option-cases (job_of db id)) [
  | inl e ↦ absurd_bool (none_absent p id (λ r. r) db.jobs e).1 h
  | inr (j, e) ↦ elim (Bool-cases (p j)) [
    | inl passes ↦ (j, e, passes)
    | inr fails ↦ absurd_bool (none_hit p id (λ r. r) db.jobs keys e fails).1 h
  ]
]

answered :
    {A : Type 0} (b : Bool) (x : A) {y : A} → (if b then some x else none) ≡ some y → b ≡ true
answered true x h = refl
answered false x h = cc

beat-hits :
    (id token_id : String) (now : ℕ) (db : Db) {answer : Option String}
    → (job_heartbeat id token_id now db).1 ≡ some answer
    → hits (may_beat token_id) id db ≡ true
unfolding job_heartbeat
beat-hits id token_id now db h = answered _ _ h

beaten-row :
    (id token_id : String) (now : ℕ) (db : Db) (j : JobRow)
    → job_of db id ≡ some j
    → may_beat token_id j ≡ true
    → job_of (job_heartbeat id token_id now db).0 id ≡ some (leased_until (now + heartbeat_lease) j)
unfolding job_heartbeat
beaten-row id token_id now db j here passes =
    find_by-map (λ (r : JobRow). r.id)
      (guarded (may_beat token_id) id (leased_until (now + heartbeat_lease)))
      (guarded-id (may_beat token_id) id (now + heartbeat_lease)) id db.jobs
    ∙ ap (Option.map (guarded (may_beat token_id) id (leased_until (now + heartbeat_lease)))) here
    ∙ ap some
        (ground (arith, passes, find_by-id (λ (r : JobRow). r.id) id db.jobs here, eq_iff j.id id))

-- A heartbeat that is answered found the job held under its token. Its row then has the new lease
-- and is else as before; and a sweep for any user, both of whose updates run within five minutes
-- after the heartbeat, leaves it so. Ids are keys.
pub beat_outlives_sweep :
    (id token_id : String) (now : ℕ) (db : Db)
    → HasKeys (λ r. r.id) db.jobs
    → {answer : Option String} → (job_heartbeat id token_id now db).1 ≡ some answer
    → (user_id : String) (first second : ℕ) → first ≤ now + heartbeat_lease
    → second ≤ now + heartbeat_lease
    → (j : JobRow) × (job_of db id ≡ some j)
      × (may_beat token_id j ≡ true)
      × (job_of (job_heartbeat id token_id now db).0 id
          ≡ some (leased_until (now + heartbeat_lease) j))
      × (job_of
            (reset_stale_claimed_jobs user_id first second (job_heartbeat id token_id now db).0).0
            id
          ≡ some (leased_until (now + heartbeat_lease) j))
beat_outlives_sweep id token_id now db keys {answer} h user_id first second soon soon' =
    let (j, here, passes) =
      hits-found (may_beat token_id) id db keys (beat-hits id token_id now db h) in
    let beaten = beaten-row id token_id now db j here passes in
    (
      j,
      here,
      passes,
      beaten,
      leased_job_stays user_id first second (job_heartbeat id token_id now db).0 id beaten refl soon
          soon',
    )
