-- ===== src/Jobs/Step/Others.antt =====
-- Each step but a claim is a change that makes no job held or open that was not
-- (src/tools/wait-for-job.ts, src/tools/job-heartbeat.ts, src/tools/update-job-status.ts).
use scrum4me_mcp.Prelude.{
  absurd_option, else_some, ℕ, ◌≡◌, ◌⊎◌, ◌&&◌, ◌+◌, refl, sym, ap, ◌∙◌, String, Bool, true, false,
  Option, none, some, List, [], ◌∷◌, arith, Bool-cases, inl, inr, ◌==◌, includes, map,
}
use scrum4me_mcp.Jobs.Table.{JobRow, Db, job_of, is_managed}
use scrum4me_mcp.Jobs.Rollback.{
  Owner, Effect, guarded, is_owned_by, refresh_ownership, publish_queued, without_executions,
  release_found, release_mismatched_claim, is_claimed_by, may_skip, skip_agent_chat_job,
  count_retry, mark_job_terminally_failed, fail_found, requeued_row, leased_until, ended_row,
}
use scrum4me_mcp.Jobs.Sweep.{
  retried_row, fail_stale, fail_row, retry_stale, retry_row, is_stale, gives_up, tries_again,
  fail_run_of, job_heartbeat, may_beat,
}
use scrum4me_mcp.Jobs.Step.{is_held, is_open}
use scrum4me_mcp.Jobs.Step.Change.{
  Keeps, Keeps-refl, Change, Change-same, Change-map, Change-update,
}

-- The place of a job in its sprint run stays.
abbrev pub IsPlaced : JobRow → JobRow → Type 0
IsPlaced a b =
    (b.id ≡ a.id)
    × (b.sprint_run_id ≡ a.sprint_run_id)
    × (b.sprint_sequence ≡ a.sprint_sequence)
    × (b.kind ≡ a.kind)

-- The status stays.
pub Keeps-status : (a b : JobRow) → IsPlaced a b → b.status ≡ a.status → Keeps a b
Keeps-status a b h e = record {
  same_id = h.0;
  same_run = h.1;
  same_sequence = h.2;
  same_kind = h.3;
  stays_held = λ k. ap (includes ("CLAIMED" ∷ "RUNNING" ∷ [])) (sym e) ∙ k;
  stays_open = λ k. ap (includes ("QUEUED" ∷ "CLAIMED" ∷ "RUNNING" ∷ [])) (sym e) ∙ k;
}

-- The new status is that of no open job.
pub Keeps-ended : (a b : JobRow) → IsPlaced a b → is_open b ≡ false → is_held b ≡ false → Keeps a b
Keeps-ended a b h closed free = record {
  same_id = h.0;
  same_run = h.1;
  same_sequence = h.2;
  same_kind = h.3;
  stays_held = λ k. cc;
  stays_open = λ k. cc;
}

pub held→open : (j : JobRow) → is_held j ≡ true → is_open j ≡ true
held→open j h = ground arith

-- The job was open before.
pub Keeps-open :
    (a b : JobRow)
    → IsPlaced a b
    → is_held b ≡ false ⊎ (is_held a ≡ true)
    → is_open a ≡ true
    → Keeps a b
Keeps-open a b h held open' = record {
  same_id = h.0;
  same_run = h.1;
  same_sequence = h.2;
  same_kind = h.3;
  stays_held = λ k. elim held [ inl n ↦ cc | inr y ↦ y ];
  stays_open = λ k. open';
}

guarded-Keeps :
    (p : JobRow → Bool) (id : String) (f : JobRow → JobRow)
    → ((j : JobRow) → p j ≡ true → Keeps j (f j))
    → (j : JobRow) → Keeps j (guarded p id f j)
guarded-Keeps p id f keeps j = elim (Bool-cases (j.id == id && p j)) [
  | inl e ↦ rw e (keeps j (ground arith))
  | inr e ↦ rw e (Keeps-refl j)
]

guarded-id :
    (p : JobRow → Bool) (id : String) (f : JobRow → JobRow)
    → ((j : JobRow) → (f j).id ≡ j.id)
    → (j : JobRow) → (guarded p id f j).id ≡ j.id
guarded-id p id f ids j = ground (arith, ids j)

-- A guarded update of the rows of an id.
pub Change-guarded :
    (db db' : Db) (p : JobRow → Bool) (id : String) (f : JobRow → JobRow)
    → ((j : JobRow) → p j ≡ true → Keeps j (f j))
    → ((j : JobRow) → (f j).id ≡ j.id)
    → db'.jobs ≡ map (guarded p id f) db.jobs
    → Change db db'
Change-guarded db db' p id f keeps ids e =
    Change-map db db' (guarded p id f) (λ j here. guarded-Keeps p id f keeps j)
      (guarded-id p id f ids) e

leased-Keeps : (t : ℕ) (j : JobRow) → Keeps j (leased_until t j)
leased-Keeps t j = Keeps-status j (leased_until t j) (refl, refl, refl, refl) refl

requeued-Keeps : (j : JobRow) → is_held j ≡ true → Keeps j (requeued_row j)
requeued-Keeps j h = Keeps-open j (requeued_row j) (refl, refl, refl, refl) (inr h) (held→open j h)

ended-Keeps :
    (status error : String) (now : ℕ) (j : JobRow)
    → is_open (ended_row status error now j) ≡ false
    → is_held (ended_row status error now j) ≡ false
    → Keeps j (ended_row status error now j)
ended-Keeps status error now j =
    Keeps-ended j (ended_row status error now j) (refl, refl, refl, refl)

fail_row-Keeps : (user_id : String) (now : ℕ) (j : JobRow) → Keeps j (fail_row user_id now j)
unfolding fail_row
fail_row-Keeps user_id now j = elim (Bool-cases (gives_up user_id now j)) [
  | inl e ↦ rw e (ended-Keeps "FAILED" _ now j refl refl)
  | inr e ↦ rw e (Keeps-refl j)
]

stale→held :
    (user_id : String) (now : ℕ) (j : JobRow) → is_stale user_id now j ≡ true → is_held j ≡ true
unfolding is_stale
stale→held user_id now j h = ground arith

retried-Keeps :
    (user_id : String) (now : ℕ) (j : JobRow)
    → tries_again user_id now j ≡ true
    → Keeps j (retried_row j)
unfolding tries_again
retried-Keeps user_id now j h =
    let held = stale→held user_id now j (ground arith) in
    record {
      same_id = refl;
      same_run = refl;
      same_sequence = refl;
      same_kind = refl;
      stays_held = λ k. held;
      stays_open = λ k. held→open j held;
    }

retry_row-Keeps : (user_id : String) (now : ℕ) (j : JobRow) → Keeps j (retry_row user_id now j)
unfolding retry_row
retry_row-Keeps user_id now j = elim (Bool-cases (tries_again user_id now j)) [
  | inl e ↦ rw e (retried-Keeps user_id now j e)
  | inr e ↦ rw e (Keeps-refl j)
]

pub Change-fail_stale :
    (user_id : String) (now : ℕ) (db : Db) → Change db (fail_stale user_id now db)
unfolding fail_stale
Change-fail_stale user_id now db =
    Change-map db (fail_stale user_id now db) (fail_row user_id now)
      (λ j here. fail_row-Keeps user_id now j) (λ j. (fail_row-Keeps user_id now j).same_id) refl

pub Change-retry_stale :
    (user_id : String) (now : ℕ) (db : Db) → Change db (retry_stale user_id now db)
unfolding retry_stale
Change-retry_stale user_id now db =
    Change-map db (retry_stale user_id now db) (retry_row user_id now)
      (λ j here. retry_row-Keeps user_id now j) (λ j. (retry_row-Keeps user_id now j).same_id) refl

pub Change-fail_run_of : (j : JobRow) (db : Db) → Change db (fail_run_of j db)
unfolding fail_run_of
Change-fail_run_of j db = Change-same db (fail_run_of j db) (ground arith)

pub Change-job_heartbeat :
    (id token_id : String) (now : ℕ) (db : Db) → Change db (job_heartbeat id token_id now db).0
unfolding job_heartbeat
Change-job_heartbeat id token_id now db =
    Change-guarded db (job_heartbeat id token_id now db).0 (may_beat token_id) id _
      (λ j h. leased-Keeps _ j) (λ j. refl) refl

pub Change-refresh_ownership :
    (o : Option Owner) (id : String) (now : ℕ) (db : Db)
    → Change db (refresh_ownership o id now db).0
unfolding refresh_ownership
Change-refresh_ownership none id now db = Change-same db db refl
Change-refresh_ownership (some o) id now db =
    Change-guarded db (refresh_ownership (some o) id now db).0 (is_owned_by (some o)) id _
      (λ j h. leased-Keeps _ j) (λ j. refl) refl

owned→held : (o : Owner) (j : JobRow) → is_owned_by (some o) j ≡ true → is_held j ≡ true
unfolding is_owned_by
owned→held o j h = ground arith

pub Change-publish_queued :
    (o : Owner) (id : String) (db : Db) → Change db (publish_queued (some o) id db)
unfolding publish_queued
Change-publish_queued o id db =
    Change-guarded db (publish_queued (some o) id db) (is_owned_by (some o)) id requeued_row
      (λ j h. requeued-Keeps j (owned→held o j h)) (λ j. refl) refl

claimed→held : (o : Owner) (j : JobRow) → is_claimed_by o j ≡ true → is_held j ≡ true
unfolding is_claimed_by
claimed→held o j h = ground arith

release_case :
    (id : String) (o : Owner) (found : Option JobRow) (db : Db)
    → job_of db id ≡ found
    → Change db (release_found id o found db)
unfolding release_found
release_case id o none db e = Change-same db db refl
release_case id o (some j) db e = elim (Bool-cases (is_claimed_by o j)) [
  | inl mine ↦ rw mine (
      Change-update db _ id requeued_row
        (λ r here. requeued-Keeps r (claimed→held o r (ground arith))) (λ r. refl) refl)
  | inr other ↦ rw other (Change-same db db refl)
]

pub Change-release :
    (id : String) (o : Option Owner) (db : Db) → Change db (release_mismatched_claim id o db)
unfolding release_mismatched_claim
Change-release id none db = Change-same db db refl
Change-release id (some o) db = release_case id o (job_of db id) db refl

pub Change-skip :
    (id : String) (o : Option Owner) (reason : String) (now : ℕ) (db : Db)
    → Change db (skip_agent_chat_job id o reason now db)
unfolding skip_agent_chat_job
Change-skip id o reason now db =
    Change-guarded db (skip_agent_chat_job id o reason now db) (may_skip o) id _
      (λ j h. ended-Keeps "SKIPPED" reason now j refl refl) (λ j. refl) refl

fail_case :
    (id reason : String) (now : ℕ) (found : Option JobRow) (db : Db) {db' : Db}
    {effects : List Effect}
    → fail_found id reason now found db ≡ some (db', effects)
    → Change db db'
unfolding fail_found
fail_case id reason now none db h = absurd_option h
fail_case id reason now (some j) db {db'} h =
    Change-update db db' id (ended_row "FAILED" reason now)
      (λ r here. ended-Keeps "FAILED" reason now r refl refl) (λ r. refl)
      (sym (ap (λ r. r.0.jobs) (else_some (is_managed db j) h)))

pub Change-fail :
    (id reason : String) (now : ℕ) (db : Db) {db' : Db} {effects : List Effect}
    → mark_job_terminally_failed id reason now db ≡ some (db', effects)
    → Change db db'
unfolding mark_job_terminally_failed
Change-fail id reason now db h = fail_case id reason now (job_of db id) db h

pub Change-cleaned : (id : String) (db : Db) → Change db (without_executions id db)
Change-cleaned id db = Change-same db (without_executions id db) refl

pub Change-count_retry : (id : String) (db : Db) → Change db (count_retry id db)
unfolding count_retry
Change-count_retry id db =
    Change-update db (count_retry id db) id (λ j. record j { retry_count = j.retry_count + 1 })
      (λ j here. Keeps-status j _ (refl, refl, refl, refl) refl) (λ j. refl) refl
