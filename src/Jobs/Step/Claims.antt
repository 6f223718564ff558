-- ===== src/Jobs/Step/Claims.antt =====
-- src/tools/wait-for-job.ts, `tryClaimJob` as a step: which job it takes, and what it does to it.
use text.Mathlib.Text.{starts_with}
use scrum4me_mcp.Prelude.{
  ◌≡◌, ◌⊎◌, ◌||◌, refl, String, is_null, Bool, true, false, some, List, [], ◌∷◌, ◌==◌, arith,
  Option-cases, Bool-cases, inl, inr, map, find_by, some?, first_by, first_by-passes,
  first_by-found, update_by, if◌then◌else◌,
}
use scrum4me_mcp.Claim.Sql.{Tri, ◌and◌, passes, passes-and}
use scrum4me_mcp.Claim.Job.{ClaimJob}
use scrum4me_mcp.Claim.Conditions
use scrum4me_mcp.Claim.Conditions.{Tables, exists_earlier, earlier}
use scrum4me_mcp.Claim.Queries.{
  ClaimFilterInput, where_fragment, executor_of, product_scope, is_dedicated,
}
use scrum4me_mcp.Jobs.Table.{JobRow, Db, job_of, tables_of, row_of, claim_job, sprint_job}
use scrum4me_mcp.Jobs.Claim.{
  Surroundings, Claimer, is_claimable, comes_before, claim_change, try_claim_job, filter_of,
}
use scrum4me_mcp.Jobs.Step.{is_open, precedes}
use scrum4me_mcp.Jobs.Step.Change.{IsKeyed}

passes_left : (p q : Tri) → passes (p and q) ≡ true → passes p ≡ true
passes_left p q h = ground (arith, passes-and p q)

passes_right : (p q : Tri) → passes (p and q) ≡ true → passes q ≡ true
passes_right p q h = ground (arith, passes-and p q)

fourth :
    (a b c d e f g : Tri) → passes (a and b and c and d and e and f and g) ≡ true → passes d ≡ true
fourth a b c d e f g h = passes_right (a and b and c) d (
    passes_left (a and b and c and d) e (
      passes_left (a and b and c and d and e) f
        (passes_left (a and b and c and d and e and f) g h)))

-- A row that the query keeps is queued.
fragment-queued :
    (db : Tables) (i : ClaimFilterInput) (cj : ClaimJob)
    → passes (where_fragment db i cj) ≡ true
    → (cj.status == "QUEUED") ≡ true
unfolding where_fragment
fragment-queued db i cj h =
    let e = executor_of i in
    fourth (Conditions.user cj e) (product_scope i.product_id cj) (Conditions.runtime cj e)
      (Conditions.queued cj e) (Conditions.binding db cj e) (Conditions.capability cj e)
      (if e.runtime == "HARNESS" || is_dedicated e.capabilities
        then some true
        else Conditions.kind cj e)
      h

some?-map-false :
    {A B : Type 0} (p : B → Bool) (g : A → B) (id_of : A → String) (rows : List A) (id : String)
    {a : A}
    → some? p (map g rows) ≡ false
    → find_by id_of id rows ≡ some a
    → p (g a) ≡ false
some?-map-false p g id_of [] id h e = cc
some?-map-false p g id_of (r ∷ rows) id {a} h e =
    ground (arith, some?-map-false p g id_of rows id {a = a})

sprint-clear :
    (db : Db) (j : JobRow)
    → passes (Conditions.sprint (tables_of db) (row_of db j)) ≡ true
    → (j.kind == "TASK_IMPLEMENTATION") ≡ true
    → is_null j.sprint_run_id ≡ false
    → exists_earlier (tables_of db) (row_of db j) ≡ false
unfolding Conditions.sprint
sprint-clear db j h k r = ground arith

precedes-task : (a j : JobRow) → precedes a j ≡ true → (j.kind == "TASK_IMPLEMENTATION") ≡ true
unfolding precedes
precedes-task a j h = ground arith

precedes-run : (a j : JobRow) → precedes a j ≡ true → is_null j.sprint_run_id ≡ false
unfolding precedes
precedes-run a j h = ground arith

-- No earlier task of the sprint run is open when a task is claimable.
pub claimable-first :
    (s : Surroundings) (c : Claimer) (db : Db) (j : JobRow) (i : String) {a : JobRow}
    → is_claimable s c db j ≡ true
    → job_of db i ≡ some a
    → precedes a j ≡ true
    → is_open a ≡ false
unfolding is_claimable precedes exists_earlier
claimable-first s c db j i {a} h found before =
    let clear =
      sprint-clear db j (ground arith) (precedes-task a j before) (precedes-run a j before) in
    let here : earlier (row_of db j) (sprint_job a) ≡ false =
      some?-map-false (earlier (row_of db j)) sprint_job (λ (r : JobRow). r.id) db.jobs i clear
        found in
    ground arith

pub claimable-queued :
    (s : Surroundings) (c : Claimer) (db : Db) (j : JobRow)
    → is_claimable s c db j ≡ true
    → (j.status == "QUEUED") ≡ true
unfolding is_claimable
claimable-queued s c db j h =
    fragment-queued (tables_of db) (filter_of c) (claim_job db j) (ground arith)

-- What a claim does to the tables: nothing, or it writes one row.
pub claim-cases :
    (s : Surroundings) (c : Claimer) (db : Db)
    → IsKeyed db
    → ((try_claim_job s c db).0.jobs ≡ db.jobs)
      ⊎ ((j : JobRow) × (job_of db j.id ≡ some j)
          × (is_claimable s c db j ≡ true)
          × ((try_claim_job s c db).0.jobs
              ≡ update_by (λ r. r.id) j.id (claim_change s c db j) db.jobs))
unfolding try_claim_job
claim-cases s c db keys = elim (Bool-cases (starts_with c.instance_id "managed:")) [
  | inl m ↦ inl (rw m refl)
  | inr m ↦ elim (Option-cases (first_by (comes_before s) (is_claimable s c db) db.jobs)) [
    | inl e ↦ inl (rw (m, e) refl)
    | inr (j, e) ↦ inr (
      j,
      first_by-found (comes_before s) (is_claimable s c db) (λ (r : JobRow). r.id) db.jobs keys e,
      first_by-passes (comes_before s) (is_claimable s c db) db.jobs e,
      rw (m, e) refl,
    )
  ]
]
