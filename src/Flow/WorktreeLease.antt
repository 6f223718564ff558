-- ===== src/Flow/WorktreeLease.antt =====
-- src/flow/worktree-lease.ts: the lease of the product worktrees that a job works in.
pub mod Release
use scrum4me_mcp.Prelude.{String, List, [], ◌∷◌, ◌++◌}
use scrum4me_mcp.Flow.Effects.{FlowEffect, release_worktree_locks}

pub data LeaseState : Type 0 where
  idle : LeaseState
  acquiring_lock creating_or_reusing syncing ready :
      (job_id : String) (product_ids : List String) → LeaseState
  releasing released : (job_id : String) → LeaseState
  lock_timeout : (job_id : String) (product_ids : List String) → LeaseState
  sync_failed : (job_id : String) (product_ids : List String) (error : String) → LeaseState
  stale_released : (job_id : String) → LeaseState

pub data LeaseEvent : Type 0 where
  job_claimed : (job_id : String) (product_ids : List String) → LeaseEvent
  lock_acquired lock_timed_out worktree_ready sync_done : LeaseEvent
  sync_error : (error : String) → LeaseEvent
  job_terminal stale_reset : (job_id : String) → LeaseEvent

pub transition : LeaseState → LeaseEvent → LeaseState × List FlowEffect
transition idle (job_claimed job products) = (acquiring_lock job products, [])
transition (acquiring_lock job products) lock_acquired = (creating_or_reusing job products, [])
transition (acquiring_lock job products) lock_timed_out = (lock_timeout job products, [])
transition (creating_or_reusing job products) worktree_ready = (syncing job products, [])
transition (syncing job products) sync_done = (ready job products, [])
transition (syncing job products) (sync_error error) =
    (sync_failed job products error, release_worktree_locks job ∷ [])
transition (ready job products) (job_terminal _) = (releasing job, release_worktree_locks job ∷ [])
transition (ready job products) (stale_reset _) =
    (stale_released job, release_worktree_locks job ∷ [])
transition (releasing job) _ = (released job, [])
transition state _ = (state, [])

-- A life of a lease: the events in order, and every effect asked for.
pub run : LeaseState → List LeaseEvent → LeaseState × List FlowEffect
run state [] = (state, [])
run state (e ∷ es) =
    let (next, effects) = transition state e in
    let (last, later) = run next es in (last, effects ++ later)
