-- ===== src/Flow/WorktreeLease/Release.antt =====
-- When the locks of a worktree lease (src/flow/worktree-lease.ts) are released, and whose.
use mathlib.Core.List.{append-nil, append_assoc}
use scrum4me_mcp.Prelude.{
  ◌≡◌, refl, sym, ap, ◌∙◌, ◌⊎◌, inl, inr, String, Option, none, some, List, [], ◌∷◌, ◌++◌, arith,
}
use scrum4me_mcp.Flow.Effects.{FlowEffect, release_worktree_locks}
use scrum4me_mcp.Flow.WorktreeLease.{
  LeaseState, idle, acquiring_lock, creating_or_reusing, syncing, ready, releasing, released,
  lock_timeout, sync_failed, stale_released, LeaseEvent, transition, run,
}

-- What has been asked for on behalf of a lease in this state: the release of its job's locks, once
-- the worktrees failed to sync, the job ended or the lease went stale.
abbrev pub releases : LeaseState → List FlowEffect
releases (releasing job) = release_worktree_locks job ∷ []
releases (released job) = release_worktree_locks job ∷ []
releases (sync_failed job _ _) = release_worktree_locks job ∷ []
releases (stale_released job) = release_worktree_locks job ∷ []
releases _ = []

abbrev pub job_of : LeaseState → Option String
job_of idle = none
job_of (acquiring_lock job _) = some job
job_of (creating_or_reusing job _) = some job
job_of (syncing job _) = some job
job_of (ready job _) = some job
job_of (releasing job) = some job
job_of (released job) = some job
job_of (lock_timeout job _) = some job
job_of (sync_failed job _ _) = some job
job_of (stale_released job) = some job

releases-transition :
    (s : LeaseState) (e : LeaseEvent)
    → releases s ++ (transition s e).1 ≡ releases (transition s e).0
unfolding transition
releases-transition s e = ground arith

job-transition :
    (s : LeaseState) (e : LeaseEvent) {job : String}
    → job_of s ≡ some job
    → job_of (transition s e).0 ≡ some job
unfolding transition
job-transition s e h = ground arith

-- Over any events, what was asked for before and what the events add is what the state reached
-- says: the locks are released exactly once on each way out of a lease that had them, never while
-- the lease is held, and never twice.
pub releases-run :
    (s : LeaseState) (es : List LeaseEvent) → releases s ++ (run s es).1 ≡ releases (run s es).0
unfolding run
releases-run s [] = append-nil (releases s)
releases-run s (e ∷ es) =
    sym (append_assoc (releases s) (transition s e).1 (run (transition s e).0 es).1)
    ∙ ap (λ fs. fs ++ (run (transition s e).0 es).1) (releases-transition s e)
    ∙ releases-run (transition s e).0 es

-- A claimed lease belongs to its job over any events.
pub job-run :
    (s : LeaseState) (es : List LeaseEvent) {job : String}
    → job_of s ≡ some job
    → job_of (run s es).0 ≡ some job
unfolding run
job-run s [] h = h
job-run s (e ∷ es) h = job-run (transition s e).0 es (job-transition s e h)

one_release :
    (s : LeaseState)
    → (releases s ≡ [])
      ⊎ ((job : String) × (job_of s ≡ some job) × (releases s ≡ release_worktree_locks job ∷ []))
one_release (releasing job) = inr (job, refl, refl)
one_release (released job) = inr (job, refl, refl)
one_release (sync_failed job _ _) = inr (job, refl, refl)
one_release (stale_released job) = inr (job, refl, refl)
one_release _ = inl refl

-- A lease that starts idle asks, over any events, for nothing or for one release of the locks of
-- the job that holds it; for the release exactly when the state reached is after a sync failure,
-- the job's end or a stale reset.
idle_run-releases :
    (es : List LeaseEvent)
    → ((run idle es).1 ≡ releases (run idle es).0)
      × (((run idle es).1 ≡ [])
          ⊎ ((job : String) × (job_of (run idle es).0 ≡ some job)
              × ((run idle es).1 ≡ release_worktree_locks job ∷ [])))
idle_run-releases es =
    (releases-run idle es, rw (releases-run idle es) (one_release (run idle es).0))
