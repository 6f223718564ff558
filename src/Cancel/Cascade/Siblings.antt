-- ===== src/Cancel/Cascade/Siblings.antt =====
-- The jobs that the cascade cancels (src/cancel/pbi-cascade.ts).
use mathlib.Core.List.{Memᴰ}
use mathlib.Core.List.Memᴰ
use scrum4me_mcp.Prelude.{
  absurd_bool, Bool-cases, ◌≡◌, refl, ap, ◌∙◌, inl, inr, arith, ℕ, String, Bool, true, false, not,
  ◌&&◌, some, List, [], ◌∷◌, ◌==◌, includes, is_text, find_by, find_by-id, map, map-agree, some?,
  select, eq_refl, if◌then◌else◌,
}
use scrum4me_mcp.Cancel.Forge.{Forge, no_outcome}
use scrum4me_mcp.Cancel.Cascade.{
  PbiJob, is_sibling, eligible, cancelled_row, cancel_row, cancel_siblings, cascade_from,
  cascade_at, cascade_of, run_cascade,
}

abbrev pub job_id : PbiJob → String
job_id j = j.id

-- A job of the PBI that is queued, claimed or running and is not the failed one.
abbrev pub is_open_sibling : String → String → PbiJob → Bool
is_open_sibling failed_id pbi_id j =
    not (j.id == failed_id)
    && includes ("QUEUED" ∷ "CLAIMED" ∷ "RUNNING" ∷ []) j.status
    && is_text j.pbi_id pbi_id

-- The id was that of such a job.
abbrev pub was_open : String → String → List PbiJob → String → Bool
was_open failed_id pbi_id jobs id =
    some? (λ r. id == r.id && is_open_sibling failed_id pbi_id r) jobs

module _ (p : PbiJob → Bool) where
  includes-select :
      (jobs : List PbiJob) (id : String)
      → includes (map job_id (select p jobs)) id ≡ some? (λ r. id == r.id && p r) jobs
  includes-select [] id = refl
  includes-select (j ∷ jobs) id = ground (arith, includes-select jobs id)

  some?-member :
      (jobs : List PbiJob) (j : PbiJob)
      → Memᴰ j jobs
      → p j ≡ true
      → some? (λ r. j.id == r.id && p r) jobs ≡ true
  some?-member [] j k h = absurd (Memᴰ.not-nil k)
  some?-member (x ∷ jobs) j (Memᴰ.head e) h = ground (arith, ap p e, ap job_id e, eq_refl j.id)
  some?-member (x ∷ jobs) j (Memᴰ.tail k) h = ground (arith, some?-member jobs j k h)

  some?-map-none :
      (g : PbiJob → PbiJob) (jobs : List PbiJob)
      → ((j : PbiJob) → Memᴰ j jobs → p (g j) ≡ false)
      → some? p (map g jobs) ≡ false
  some?-map-none g [] h = refl
  some?-map-none g (j ∷ jobs) h =
      rw (h j (Memᴰ.head refl)) (some?-map-none g jobs (λ x k. h x (Memᴰ.tail k)))

module _ (now : ℕ) (failed_id pbi_id : String) where
  -- A job with an id of these is cancelled.
  abbrev pub cancel_if : (String → Bool) → PbiJob → PbiJob
  cancel_if chosen j =
      if chosen j.id
      then record j {
        status = "CANCELLED";
        finished_at = some now;
        error = some "cancelled_by_pbi_failure";
      }
      else j

  cancel-map :
      (jobs later : List PbiJob)
      → cancel_siblings now (eligible failed_id pbi_id jobs) later
        ≡ map (cancel_if (was_open failed_id pbi_id jobs)) later
  unfolding cancel_siblings cancel_row eligible is_sibling
  cancel-map jobs later =
      map-agree (cancel_row now (map job_id (eligible failed_id pbi_id jobs)))
        (cancel_if (was_open failed_id pbi_id jobs)) later
        (λ j k.
          ap (λ b. if b then cancelled_row now j else j)
            (includes-select (is_open_sibling failed_id pbi_id) jobs j.id))

  closed :
      (jobs : List PbiJob) (j : PbiJob)
      → Memᴰ j jobs
      → is_open_sibling failed_id pbi_id (cancel_if (was_open failed_id pbi_id jobs) j) ≡ false
  closed jobs j k = elim (Bool-cases (was_open failed_id pbi_id jobs j.id)) [
    | inl chosen ↦ rw chosen (ground arith)
    | inr other ↦ rw other (elim (Bool-cases (is_open_sibling failed_id pbi_id j)) [
      | inl sibling ↦
          absurd_bool other (some?-member (is_open_sibling failed_id pbi_id) jobs j k sibling)
      | inr none' ↦ none'
    ])
  ]

module _ (f : Forge) (now : ℕ) (meanwhile : List PbiJob → List PbiJob) (jobs : List PbiJob) where
  at_pbi :
      (failed : PbiJob) (pbi_id : String)
      → failed.kind ≡ "TASK_IMPLEMENTATION"
      → failed.status == "SKIPPED" ≡ false
      → (cascade_at f now meanwhile failed (some pbi_id) jobs).0
        ≡ cancel_siblings now (eligible failed.id pbi_id jobs) (meanwhile jobs)
  unfolding cascade_at cascade_from
  at_pbi failed pbi_id kind status =
      ap
        (λ b. (if b then cascade_from f now meanwhile failed pbi_id jobs else (jobs, no_outcome)).0)
        (ap (λ k. k == "TASK_IMPLEMENTATION" && not (failed.status == "SKIPPED")) kind
          ∙ ap not status)

  cascaded :
      (failed : PbiJob) (failed_id pbi_id : String)
      → find_by job_id failed_id jobs ≡ some failed
      → failed.kind ≡ "TASK_IMPLEMENTATION"
      → failed.status == "SKIPPED" ≡ false
      → failed.pbi_id ≡ some pbi_id
      → (run_cascade f now meanwhile failed_id jobs).0
        ≡ map (cancel_if now failed_id pbi_id (was_open failed_id pbi_id jobs)) (meanwhile jobs)
  unfolding run_cascade cascade_of
  cascaded failed failed_id pbi_id here kind status pbi =
      ap (λ o. (cascade_of f now meanwhile o jobs).0) here
      ∙ ap (λ o. (cascade_at f now meanwhile failed o jobs).0) pbi
      ∙ at_pbi failed pbi_id kind status
      ∙ ap (λ i. cancel_siblings now (eligible i pbi_id jobs) (meanwhile jobs))
          (find_by-id job_id failed_id jobs here)
      ∙ cancel-map now failed_id pbi_id jobs (meanwhile jobs)

-- The job of a task has failed, is not skipped and belongs to a PBI. Then, whatever others write on
-- the jobs between the read and the update of the cascade, a row ends as CANCELLED with the time and
-- the error "cancelled_by_pbi_failure" exactly if its id was, at the read, that of another job of the
-- PBI that was queued, claimed or running; this is so too for a job that has ended in between. All
-- other rows are as they were then. Where nobody writes in between, no other job of the PBI is queued,
-- claimed or running afterwards.
pub cascade_cancels_siblings :
    (f : Forge) (now : ℕ) (meanwhile : List PbiJob → List PbiJob) (jobs : List PbiJob)
    (failed : PbiJob) (failed_id pbi_id : String)
    → find_by job_id failed_id jobs ≡ some failed
    → failed.kind ≡ "TASK_IMPLEMENTATION"
    → failed.status == "SKIPPED" ≡ false
    → failed.pbi_id ≡ some pbi_id
    → ((run_cascade f now meanwhile failed_id jobs).0
        ≡ map
            (λ j.
              if was_open failed_id pbi_id jobs j.id
              then record j {
                status = "CANCELLED";
                finished_at = some now;
                error = some "cancelled_by_pbi_failure";
              }
              else j)
            (meanwhile jobs))
      × (some? (is_open_sibling failed_id pbi_id) (run_cascade f now (λ js. js) failed_id jobs).0
          ≡ false)
cascade_cancels_siblings f now meanwhile jobs failed failed_id pbi_id here kind status pbi = (
  cascaded f now meanwhile jobs failed failed_id pbi_id here kind status pbi,
  ap (some? (is_open_sibling failed_id pbi_id))
        (cascaded f now (λ js. js) jobs failed failed_id pbi_id here kind status pbi)
      ∙ some?-map-none (is_open_sibling failed_id pbi_id)
          (cancel_if now failed_id pbi_id (was_open failed_id pbi_id jobs)) jobs
          (λ j k. closed now failed_id pbi_id jobs j k),
)
