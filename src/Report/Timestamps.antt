-- ===== src/Report/Timestamps.antt =====
-- src/tools/update-job-status.ts: `resolveNextAction`, `resolveJobTimestamps` and
-- `isStoryAutoMergeCandidate`. A time is a number of milliseconds.
use scrum4me_mcp.Prelude.{
  ℕ, ◌≤◌, ◌≡◌, refl, arith, String, Bool, true, false, not, ◌&&◌, ◌||◌, Option, none, some, ◌==◌,
  ltb, leb, is_null, truthy, or_else, if◌then◌else◌,
}

pub data ReportedStatus : Type 0 where
  running done failed skipped : ReportedStatus

pub data NextAction : Type 0 where
  wait_for_job_again queue_empty idle : NextAction

pub resolve_next_action : ℕ → ReportedStatus → NextAction
resolve_next_action count ReportedStatus.running = NextAction.idle
resolve_next_action count _ =
    if ltb 0 count then NextAction.wait_for_job_again else NextAction.queue_empty

-- The times that are stored; `finished_at` is not read.
pub record Times : Type 0 where
  pub claimed_at : Option ℕ
  pub started_at : Option ℕ
  pub finished_at : Option ℕ

abbrev pub is_terminal : ReportedStatus → Bool
is_terminal ReportedStatus.running = false
is_terminal _ = true

abbrev pub is_running : ReportedStatus → Bool
is_running ReportedStatus.running = true
is_running _ = false

-- `JobTimestampUpdate`: the fields to write, a missing one is left out.
unfoldable pub resolve_job_timestamps : ReportedStatus → Times → ℕ → Times
resolve_job_timestamps status current now = record {
  claimed_at = if is_null current.claimed_at then some now else none;
  started_at =
      if is_null current.started_at && (is_running status || is_terminal status)
      then some now
      else none;
  finished_at = if is_terminal status then some now else none;
}

abbrev written : Option ℕ → Option ℕ → Option ℕ
written none old = old
written (some t) old = some t

-- The row after the update.
abbrev pub apply_times : Times → Times → Times
apply_times update current = record {
  claimed_at = written update.claimed_at current.claimed_at;
  started_at = written update.started_at current.started_at;
  finished_at = written update.finished_at current.finished_at;
}

pub record MergeInput : Type 0 where
  pub actual_status : String
  pub pr_url : Option String
  pub head_sha : Option String
  pub kind : String
  pub source : String
  pub task_id : Option String

pub is_story_auto_merge_candidate : MergeInput → Bool
is_story_auto_merge_candidate i =
    i.actual_status == "done"
    && truthy i.pr_url
    && truthy i.head_sha
    && i.kind == "TASK_IMPLEMENTATION"
    && not (i.source == "MANUAL")
    && truthy i.task_id

-- What started was claimed, not later, and neither is in the future.
abbrev pub are_ordered : ℕ → Option ℕ → Option ℕ → Bool
are_ordered now none none = true
are_ordered now (some c) none = leb c now
are_ordered now (some c) (some s) = leb c s && leb s now
are_ordered now none (some s) = false

times_in_order :
    (status : ReportedStatus) (claimed started : Option ℕ) (now : ℕ)
    → are_ordered now claimed started ≡ true
    → (c : ℕ) × (s : ℕ) × (written (if is_null claimed then some now else none) claimed ≡ some c)
      × (written
            (if is_null started && (is_running status || is_terminal status)
              then some now
              else none)
            started
          ≡ some s)
      × (c ≤ s)
      × (s ≤ now)
      × (or_else claimed c ≡ c)
      × (or_else started s ≡ s)
times_in_order status none none now h =
    (now, now, refl, ground arith, ground arith, ground arith, refl, refl)
times_in_order status (some c) none now h =
    (c, now, refl, ground arith, ground arith, ground arith, refl, refl)
times_in_order status (some c) (some s) now h =
    (c, s, refl, ground arith, ground arith, ground arith, refl, refl)
times_in_order status none (some s) now h = cc

-- Where what started was claimed, not later, and neither is in the future, the row after a report is
-- claimed and started in that order and not in the future; times that were there are kept; and the
-- report of an end writes its own time as the end, which is then the last of the three.
report_keeps_order :
    (status : ReportedStatus) (t : Times) (now : ℕ)
    → are_ordered now t.claimed_at t.started_at ≡ true
    → let after = apply_times (resolve_job_timestamps status t now) t in
      (c : ℕ) × (s : ℕ) × (after.claimed_at ≡ some c)
      × (after.started_at ≡ some s)
      × (c ≤ s)
      × (s ≤ now)
      × (or_else t.claimed_at c ≡ c)
      × (or_else t.started_at s ≡ s)
      × (after.finished_at ≡ (if is_terminal status then some now else t.finished_at))
unfolding resolve_job_timestamps
report_keeps_order status t now h =
    let (c, s, e₁, e₂, l₁, l₂, k₁, k₂) = times_in_order status t.claimed_at t.started_at now h in
    (c, s, e₁, e₂, l₁, l₂, k₁, k₂, ground arith)
