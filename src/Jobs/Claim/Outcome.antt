-- ===== src/Jobs/Claim/Outcome.antt =====
-- src/tools/wait-for-job.ts, `tryClaimJob`: which job a claim takes, what it writes, and that a
-- release (`releaseMismatchedClaim`) takes it back.
use mathlib.Core.Option
use text.Mathlib.Text.{starts_with}
use scrum4me_mcp.Prelude.{
  absurd_option, some_injective, ◌≡◌, refl, sym, ap, ◌∙◌, String, true, false, Option, none, some,
  arith, ◌==◌, eq_iff, All, Option-cases, Bool-cases, inl, inr, HasKeys, IsOrder, first_by,
  first_by-passes, first_by-found, first_by-first, find_by-update_by, if◌then◌else◌,
}
use scrum4me_mcp.Jobs.Table.{JobRow, ChatMessage, Db, job_of}
use scrum4me_mcp.Jobs.Claim.{
  Surroundings, Claimer, is_claimable, comes_before, claim_change, claim_found, try_claim_job,
  with_cutoff, cutoff_of, snapshot_of, claimed_row,
}

comes_before-IsOrder : (s : Surroundings) → IsOrder s.id_before → IsOrder (comes_before s)
unfolding comes_before
comes_before-IsOrder s order = record {
  asym = λ a b h. ground (arith, order.asym a.id b.id);
  trans = λ a b c h k. ground (arith, order.trans a.id b.id c.id);
}

cutoff-id : (m : Option ChatMessage) (j : JobRow) → (with_cutoff m j).id ≡ j.id
cutoff-id none j = refl
cutoff-id (some m) j = refl

change-id :
    (s : Surroundings) (c : Claimer) (db : Db) (found j : JobRow)
    → (claim_change s c db found j).id ≡ j.id
unfolding claim_change
change-id s c db found j =
    cutoff-id (cutoff_of s db found) (claimed_row s c (snapshot_of db found) j)

module _ (s : Surroundings) (c : Claimer) (db : Db) where
  claim-found :
      (found : Option JobRow)
      → first_by (comes_before s) (is_claimable s c db) db.jobs ≡ found
      → starts_with c.instance_id "managed:" ≡ false
      → try_claim_job s c db ≡ claim_found s c found db
  unfolding try_claim_job
  claim-found found e m = rw m (ap (λ f. claim_found s c f db) e)

  -- A claim that returns an id found a job.
  pub claim-inv :
      {id : String}
      → (try_claim_job s c db).1 ≡ some id
      → (j : JobRow) × (first_by (comes_before s) (is_claimable s c db) db.jobs ≡ some j)
        × (try_claim_job s c db ≡ claim_found s c (some j) db)
        × (j.id ≡ id)
  unfolding try_claim_job
  claim-inv {id} h = elim (Bool-cases (starts_with c.instance_id "managed:")) [
    | inl m ↦ absurd_option (rw (try_claim_job, m) at h)
    | inr m ↦ elim (Option-cases (first_by (comes_before s) (is_claimable s c db) db.jobs)) [
      | inl e ↦ absurd_option (ap (λ r. r.1) (sym (claim-found none e m)) ∙ h)
      | inr (j, e) ↦
          let at = claim-found (some j) e m in
          (j, e, at, some_injective (sym (ap (λ r. r.1) at) ∙ h))
    ]
  ]

-- A row read back after a claim of `j`.
pub claimed-read :
    (s : Surroundings) (c : Claimer) (db : Db) (j : JobRow)
    → try_claim_job s c db ≡ claim_found s c (some j) db
    → job_of db j.id ≡ some j
    → (i : String)
    → job_of (try_claim_job s c db).0 i
      ≡ (if j.id == i then some (claim_change s c db j j) else job_of db i)
unfolding claim_found
claimed-read s c db j e here i =
    ap (λ r. job_of r.0 i) e
    ∙ find_by-update_by (λ (r : JobRow). r.id) (claim_change s c db j) (change-id s c db j) j.id i
        db.jobs
    ∙ if_here
  where
    if_here :
        (if j.id == i then Option.map (claim_change s c db j) (job_of db i) else job_of db i)
        ≡ (if j.id == i then some (claim_change s c db j j) else job_of db i)
    if_here = elim (Bool-cases (j.id == i)) [
      | inl same ↦
          let at : job_of db i ≡ some j = ap (job_of db) (sym ((eq_iff j.id i).0 same)) ∙ here in
          rw (same, at) refl
      | inr other ↦ rw other refl
    ]

-- A claim that returns an id took the stored job of that id, which was claimable: it passes the whole
-- query and is not locked. No claimable job comes before it in the order of the query, its row has
-- the claim written in, and every other job is as it was. Ids are keys and are ordered.
pub claim_takes_first :
    (s : Surroundings) (c : Claimer) (db : Db)
    → IsOrder s.id_before
    → HasKeys (λ j. j.id) db.jobs
    → {id : String} → (try_claim_job s c db).1 ≡ some id
    → (j : JobRow) × (job_of db id ≡ some j)
      × (is_claimable s c db j ≡ true)
      × All (λ r. is_claimable s c db r ≡ true → comes_before s r j ≡ false) db.jobs
      × ((i : String)
          → job_of (try_claim_job s c db).0 i
            ≡ (if id == i then some (claim_change s c db j j) else job_of db i))
claim_takes_first s c db order keys {id} h =
    let (j, e, at, same) = claim-inv s c db h in
    let here =
      first_by-found (comes_before s) (is_claimable s c db) (λ (r : JobRow). r.id) db.jobs keys e in
    (
      j,
      ap (job_of db) (sym same) ∙ here,
      first_by-passes (comes_before s) (is_claimable s c db) db.jobs e,
      first_by-first (comes_before s) (is_claimable s c db) (comes_before-IsOrder s order) db.jobs
          e,
      λ i. rw (sym same) (claimed-read s c db j at here i),
    )
