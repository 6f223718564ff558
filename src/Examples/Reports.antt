-- ===== src/Examples/Reports.antt =====
-- Reports at the end of a job (src/verify/gate.ts, src/tools/update-job-status.ts,
-- src/lib/tasks-status-update.ts).
use scrum4me_mcp.Prelude.{
  ℕ, ◌≡◌, refl, String, true, false, Option, none, some, List, [], ◌∷◌, if◌then◌else◌, ◌==◌,
}
use scrum4me_mcp.Report.Gate.{VerifyRequired, check_verify_gate, is_allowed, explains, is_space}
use scrum4me_mcp.Report.Timestamps.{Times}

abbrev long_summary : List ℕ
long_summary =
    32 ∷ 97 ∷ 97 ∷ 97 ∷ 97 ∷ 97 ∷ 97 ∷ 97 ∷ 97 ∷ 97 ∷ 97 ∷ 97 ∷ 97 ∷ 97 ∷ 97 ∷ 97 ∷ 97 ∷ 97 ∷ 97
    ∷ 97 ∷ 97 ∷ []

passes_with_summary :
    is_allowed (
      check_verify_gate
        (some "DIVERGENT")
        false
        VerifyRequired.aligned_or_partial
        (some long_summary))
    ≡ true
unfolding check_verify_gate explains is_space
passes_with_summary = refl

abbrev claimed : Times
claimed = record { claimed_at = some 3; started_at = none; finished_at = none }

abbrev state_of : String → Option String
state_of u = if u == "pr/1" then some "MERGED" else some "OPEN"
