-- ===== src/Examples/Cascades.antt =====
-- A failed job with two open siblings on one branch, and a job of another PBI
-- (src/cancel/pbi-cascade.ts).
use scrum4me_mcp.Prelude.{
  ◌≡◌, refl, true, false, none, some, List, [], ◌∷◌, map, some?, if◌then◌else◌,
}
use scrum4me_mcp.Cancel.Forge.{Forge, open_state, deleted, close_pr, delete_branch}
use scrum4me_mcp.Cancel.Cascade.{PbiJob, is_sibling, merge_pr, run_cascade}
use scrum4me_mcp.Cancel.Cascade.Siblings.{was_open, is_open_sibling, cascade_cancels_siblings}
use scrum4me_mcp.Cancel.Cascade.Actions.{Justified, forge_is_respected}

abbrev failed_job : PbiJob
failed_job = record {
  id = "j1";
  kind = "TASK_IMPLEMENTATION";
  status = "FAILED";
  pbi_id = some "p1";
  repo_url = none;
  branch = some "story-1";
  pr_url = none;
  finished_at = some 5;
  error = some "boom";
}

abbrev open_sibling : PbiJob
open_sibling = record failed_job { id = "j2"; status = "RUNNING"; pr_url = some "pr/1" }

abbrev other_job : PbiJob
other_job = record failed_job { id = "j3"; status = "QUEUED"; pbi_id = some "p2" }

abbrev table : List PbiJob
table = failed_job ∷ open_sibling ∷ other_job ∷ []

abbrev forge : Forge
forge = record {
  root = λ repo. some "/repo";
  pr_state =
      λ done url. some (record { state = open_state; head_sha = some "sha"; merge_commit = none });
  closes = λ done url. true;
  reverts = λ done url. none;
  is_merged = λ done root branch. true;
  deletes = λ done root branch. deleted;
}

-- Every job is done before the update of the cascade.
abbrev ended_meanwhile : List PbiJob → List PbiJob
ended_meanwhile jobs = map (λ (j : PbiJob). record j { status = "DONE" }) jobs

done_at_forge :
    (run_cascade forge 9 ended_meanwhile "j1" table).1.done
    ≡ delete_branch "/repo" "story-1" (some "sha") ∷ close_pr "pr/1" ∷ []
unfolding run_cascade is_sibling merge_pr
done_at_forge = refl

cascade_cancels_siblings_example :
    ((run_cascade forge 9 ended_meanwhile "j1" table).0
      ≡ map
          (λ j.
            if was_open "j1" "p1" table j.id
            then record j {
              status = "CANCELLED";
              finished_at = some 9;
              error = some "cancelled_by_pbi_failure";
            }
            else j)
          (ended_meanwhile table))
    × (some? (is_open_sibling "j1" "p1") (run_cascade forge 9 (λ js. js) "j1" table).0 ≡ false)
cascade_cancels_siblings_example =
    cascade_cancels_siblings forge 9 ended_meanwhile table failed_job "j1" "p1" refl refl refl refl

forge_is_respected_example : Justified forge (run_cascade forge 9 ended_meanwhile "j1" table).1.done
forge_is_respected_example = forge_is_respected forge 9 ended_meanwhile "j1" table
