-- ===== src/Jobs/Claim/Release.antt =====
-- src/tools/wait-for-job.ts: a claim (`tryClaimJob`) that is released (`releaseMismatchedClaim`).
use mathlib.Core.Option
use scrum4me_mcp.Prelude.{
  some_injective, ◌≡◌, refl, sym, ap, ◌∙◌, subst, String, true, Option, none, some, arith, ◌==◌,
  eq_iff, eq_refl, Bool-cases, inl, inr, HasKeys, first_by-found, find_by, find_by-update_by,
  update_by, if◌then◌else◌,
}
use scrum4me_mcp.Jobs.Table.{JobRow, ChatMessage, Db, job_of}
use scrum4me_mcp.Jobs.Claim.{
  Surroundings, Claimer, is_claimable, comes_before, claim_change, claim_found, try_claim_job,
  with_cutoff, cutoff_of, snapshot_of, claimed_row,
}
use scrum4me_mcp.Jobs.Rollback.{
  Owner, requeued_row, release_mismatched_claim, release_found, is_claimed_by,
}
use scrum4me_mcp.Jobs.Claim.Outcome.{claim-inv, claimed-read}

abbrev pub owner_of : Claimer → Owner
owner_of c = record { token_id = c.token_id; instance_id = c.instance_id }

-- The claim columns are empty, as in a job that was never claimed or was queued again.
abbrev pub IsUnclaimed : JobRow → Type 0
IsUnclaimed j = requeued_row j ≡ j

requeued-cutoff :
    (m : Option ChatMessage) (s : Surroundings) (c : Claimer) (snapshot : String) (j : JobRow)
    → IsUnclaimed j
    → requeued_row (with_cutoff m (claimed_row s c snapshot j)) ≡ with_cutoff m j
requeued-cutoff none s c snapshot j u = u
requeued-cutoff (some m) s c snapshot j u = ap (with_cutoff (some m)) u

cutoff-owned :
    (m : Option ChatMessage) (s : Surroundings) (c : Claimer) (snapshot : String) (j : JobRow)
    → is_claimed_by (owner_of c) (with_cutoff m (claimed_row s c snapshot j)) ≡ true
unfolding is_claimed_by
cutoff-owned none s c snapshot j = ground (arith, eq_refl c.token_id, eq_refl c.instance_id)
cutoff-owned (some m) s c snapshot j = ground (arith, eq_refl c.token_id, eq_refl c.instance_id)

-- A row read back after a release by its claimant.
release-read :
    (o : Owner) (db : Db) (id : String) {r : JobRow}
    → job_of db id ≡ some r
    → is_claimed_by o r ≡ true
    → (i : String)
    → job_of (release_mismatched_claim id (some o) db) i
      ≡ (if id == i then some (requeued_row r) else job_of db i)
unfolding release_mismatched_claim
release-read o db id {r} here mine i =
    ap (λ found. job_of (release_found id o found db) i) here
    ∙ opened
    ∙ find_by-update_by (λ (j : JobRow). j.id) requeued_row (λ j. refl) id i db.jobs
    ∙ at_id
  where
    opened :
        job_of (release_found id o (some r) db) i
        ≡ find_by (λ j. j.id) i (update_by (λ j. j.id) id requeued_row db.jobs)
    opened = rw mine refl

    at_id :
        (if id == i then Option.map requeued_row (job_of db i) else job_of db i)
        ≡ (if id == i then some (requeued_row r) else job_of db i)
    at_id = elim (Bool-cases (id == i)) [
      | inl same ↦
          let at : job_of db i ≡ some r = ap (job_of db) (sym ((eq_iff id i).0 same)) ∙ here in
          rw (same, at) refl
      | inr other ↦ rw other refl
    ]

-- The row of an id after the claim and the release of `j`.
released :
    (s : Surroundings) (c : Claimer) (db : Db) (j : JobRow)
    → try_claim_job s c db ≡ claim_found s c (some j) db
    → job_of db j.id ≡ some j
    → IsUnclaimed j
    → (i : String)
    → job_of (release_mismatched_claim j.id (some (owner_of c)) (try_claim_job s c db).0) i
      ≡ (if j.id == i then some (with_cutoff (cutoff_of s db j) j) else job_of db i)
unfolding claim_change
released s c db j at here unclaimed i =
    let read = claimed-read s c db j at here in
    let m = cutoff_of s db j in
    let snapshot = snapshot_of db j in
    release-read (owner_of c) (try_claim_job s c db).0 j.id (read j.id ∙ rw (eq_refl j.id) refl)
      (cutoff-owned m s c snapshot j) i
    ∙ elim (Bool-cases (j.id == i)) [
      | inl same ↦ rw same (ap some (requeued-cutoff m s c snapshot j unclaimed))
      | inr other ↦ rw other (read i ∙ rw other refl)
    ]

-- A claim by `tryClaimJob` that is released at once by its claimant leaves the jobs as they were before,
-- under every id, with one exception: the chat cutoff that the claim of an idea chat writes stays
-- written. This is where the claimed job's claim columns, those that a release clears, were empty
-- before the claim, and ids are keys.
pub claim_then_release :
    (s : Surroundings) (c : Claimer) (db : Db)
    → HasKeys (λ j. j.id) db.jobs
    → {id : String} → (try_claim_job s c db).1 ≡ some id
    → {j : JobRow} → job_of db id ≡ some j
    → IsUnclaimed j
    → (i : String)
    → job_of (release_mismatched_claim id (some (owner_of c)) (try_claim_job s c db).0) i
      ≡ (if id == i then some (with_cutoff (cutoff_of s db j) j) else job_of db i)
claim_then_release s c db keys {id} h {j} stored unclaimed i =
    let (k, e, at, same) = claim-inv s c db h in
    let here =
      first_by-found (comes_before s) (is_claimable s c db) (λ (r : JobRow). r.id) db.jobs keys e in
    let is_j : k ≡ j = some_injective (sym here ∙ ap (job_of db) same ∙ stored) in
    subst
      (λ (x : JobRow).
        job_of (release_mismatched_claim id (some (owner_of c)) (try_claim_job s c db).0) i
        ≡ (if id == i then some (with_cutoff (cutoff_of s db x) x) else job_of db i))
      is_j
      (subst
        (λ x.
          job_of (release_mismatched_claim x (some (owner_of c)) (try_claim_job s c db).0) i
          ≡ (if x == i then some (with_cutoff (cutoff_of s db k) k) else job_of db i))
        same (released s c db k at here (subst IsUnclaimed (sym is_j) unclaimed) i))
