-- ===== src/Lib.antt =====
-- scrum4me-mcp: the server through which agents claim and finish the work of Scrum4Me.
--
-- A worker claims a job (src/dispatch/eligibility.ts decides which), works in a leased worktree and
-- reports statuses, which travel from the task up to the sprint and its run
-- (src/lib/tasks-status-update.ts). The lives of a pull request, a sprint run and a worktree lease
-- are machines whose transitions return effects, which one executor carries out (src/flow). Agents
-- write to one another through a queue in the same database (src/queue and the tools queue_next,
-- queue_done, queue_fail and queue_archive). A managed request is executed by attempts, which a
-- supervisor starts and keeps alive (src/dispatch/attempts.ts), until a result is accepted or the
-- request is cancelled (src/dispatch/completion.ts, src/dispatch/cancel.ts). When the job of a task fails, a
-- cascade cancels the other open jobs of its PBI (src/cancel/pbi-cascade.ts).
--
-- The modules, with the code that each is about:
--   Prelude          shared names; JavaScript's tests on numbers, texts and lists (Prelude/Tests,
--                    Prelude/Lists); tables read and written by id (Prelude/Tables, Prelude/Keys,
--                    Prelude/Members); the first row of an order (Prelude/First)
--   Flow/Effects     src/flow/effects.ts, the types of effects and outcomes
--   Flow/PrFlow      src/flow/pr-flow.ts, `transition`
--   Flow/SprintRun   src/flow/sprint-run.ts, `transition`
--   Flow/WorktreeLease  src/flow/worktree-lease.ts, `transition`
--   Flow/Executor    src/flow/effects.ts, `executeEffects` and what it calls
--   Claim/Sql        the three-valued logic of PostgreSQL's WHERE clauses
--   Claim/Job, Claim/Predicates, Claim/Conditions
--                    src/dispatch/eligibility.ts, `ClaimJob`, `claimPredicates`, `claimConditionSql`
--                    and `buildClaimPredicateFragment`; Claim/Agreement compares the two
--   Claim/Queries    `buildClaimableJobWhereClause` and `buildClaimableJobWhereFragment`
--   Claim/Tier       `buildHigherTierIdleFragment`
--   Claim/Isolation  consequences of `claimPredicates`
--   Status/Decisions src/lib/task-status-decisions.ts
--   Status/Store, Status/Propagate
--                    src/lib/tasks-status-update.ts, `propagateStatusUpwards`, and in Status/Promotion
--                    `updateTaskStatusWithStoryPromotion`
--   Queue/Message    the rows of agent_message, src/queue/marked.ts, src/queue/notify.ts
--   Queue/Claim      src/queue/claim.ts
--   Queue/Ownership  src/queue/lease-register.ts and src/queue/ownership.ts
--   Queue/Finish     src/tools/queue-done.ts and src/tools/queue-fail.ts
--   Queue/Maintenance  src/queue/sweep.ts, src/queue/lease-refresh.ts, `tryClaim` of
--                    src/tools/queue-next.ts
--   Queue/WorkItem, Queue/Presence
--                    src/queue/work-item.ts, `mergeWorkItemInputs` and (in Queue/WorkItem/Resolve)
--                    `resolveWorkItem`, and src/queue/presence.ts, `derivePresenceStatus`
--   Queue/Step       the steps of all processes on the shared table, and their sequences
--   Queue/Archive    src/tools/queue-archive.ts; Queue/Archive/Thread is about its recursive query
--   Report           src/verify/gate.ts and the decisions of src/tools/update-job-status.ts: the next
--                    action, the timestamps, the auto-merge candidate, the open pull request
--   Jobs/Table       the tables that the life of a job touches; src/dispatch/managed-job.ts
--   Jobs/Claim       src/tools/wait-for-job.ts, `tryClaimJob`
--   Jobs/Rollback    the same file, `rollbackClaim`, `releaseMismatchedClaim`, `skipAgentChatJob`,
--                    `markJobTerminallyFailed` and the counted retry of `getFullJobContext`
--   Jobs/Sweep       the same file, `resetStaleClaimedJobs`, and src/tools/job-heartbeat.ts
--   Jobs/Status      src/tools/update-job-status.ts, the checks and the generic write of the handler,
--                    `applyDeployTerminalUpdate`, `applyDocsAuditTerminalUpdate`
--   Jobs/Step        the commits of all of these on the shared tables, and their sequences; a report
--                    is a step where its write directly follows its check, and Jobs/Late is about a
--                    report that writes later
--   Dispatch/Table, Dispatch/Checks, Dispatch/Attempts
--                    src/dispatch/attempts.ts: `startDispatchAttempt`, `renewDispatchAttempt`,
--                    `reconcileDispatchAttempt` and the transaction of `markExpiredAttempts`, each on
--                    the rows that `lock` reads; what `authorize` answers is an argument of the call.
--                    Dispatch/Attempts/Run has the sequences of these four calls; the calls of other
--                    files that write the same rows are not in them
--   Dispatch/Ending  how a managed request ends: Table has the rows and transactions that may throw,
--                    Tasks is src/dispatch/task-status.ts, Lifecycle src/dispatch/lifecycle.ts,
--                    Retry src/dispatch/retry-authorization.ts, Locks `lockArtifactAttempt` and
--                    `verifyArtifactProof` of src/dispatch/artifacts.ts, Cancel `cancelDispatch` of
--                    src/dispatch/cancel.ts, Judge and Accept `acceptDispatchResult` of
--                    src/dispatch/completion.ts, Canonical the sequences of these calls
--   Cancel/Forge, Cancel/Cascade
--                    src/cancel/pbi-cascade.ts, `runCascade` up to the removal of the worktrees, and
--                    `tryDeleteBranch`; what others write on the jobs between its `findMany` and its
--                    `updateMany` is an argument
--   Ideas            src/lib/idea-plan-loop.ts, the searches for a blocking job and
--                    `appendPlanReviewRound`; a stored round is an opaque text
--   Examples         tests on concrete inputs
-- The other files below these hold the proofs about them.
--
-- How the code is rendered. A table of the database is a list of rows; a transaction is a function
-- from the tables to the tables, `none` (in Dispatch/Ending the code of the error) where it throws;
-- `update` by id writes every row with the
-- id, and ids are keys where a theorem says so. A text stays a text where the code compares texts,
-- an enum of the database is a data type. A time is a natural number of milliseconds and the current
-- time is an argument. `FOR UPDATE SKIP LOCKED` is a list of ids that another transaction holds.
-- A WHERE clause is three-valued in Claim; in Queue it is Boolean, since its conditions negate no
-- comparison with a NULL. The fuel of `decimal` is one more than the number itself; that of the
-- recursive query is the number of the rows, of which every round but the last finds a new one.
--
-- Parameters: the shared vocabulary of the queue and `decideDispatchTransition`
-- (vendor/scrum4me-shared, a git submodule), the check of a credential (on node:crypto), the results
-- of git and Forgejo, the tests of regular expressions, the ids that the database or `randomUUID`
-- makes, the hashes of node:crypto, the order of ids, what other processes do
-- while a rollback, a report, a cascade or an acceptance waits. In Dispatch/Ending the answers of the
-- authorization, the source receipts, the checks of sources and code, the verify gate and the
-- publisher are arguments of the call.
--
-- Not modelled: the transport and the registration of the tools, the Prisma client and the
-- triggers and constraints of the database, git itself, the prompts, the contexts that a claimed
-- job is given, worktrees and branches, the columns `updated_at` but the one of a task, the
-- managed dispatch subsystem apart from eligibility, attempts and endings above, the marked (PPE)
-- routes of the queue, timers and LISTEN/NOTIFY delivery.
pub mod Prelude
pub mod Flow
pub mod Claim
pub mod Status
pub mod Queue
pub mod Report
pub mod Jobs
pub mod Dispatch
pub mod Cancel
pub mod Ideas
mod Examples
