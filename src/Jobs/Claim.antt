-- ===== src/Jobs/Claim.antt =====
-- src/tools/wait-for-job.ts, `tryClaimJob`: one transaction that picks a job, writes the claim, pins
-- the cutoff of an idea chat and starts the sprint run.
pub mod Outcome
pub mod Release
use text.Mathlib.Text.{starts_with}
use scrum4me_mcp.Prelude.{
  ℕ, ◌+◌, String, Bool, true, false, not, ◌&&◌, ◌||◌, Option, none, some, List, [], ◌∷◌, ◌++◌, ◌==◌,
  ltb, nat_eq, includes, truthy, or_else, update_by, if◌then◌else◌, first_by,
}
use scrum4me_mcp.Claim.Sql.{passes}
use scrum4me_mcp.Claim.Conditions
use scrum4me_mcp.Claim.Queries.{ClaimFilterInput, where_fragment}
use scrum4me_mcp.Claim.Tier.{Tier, Worker, TierInput, defers}
use scrum4me_mcp.Jobs.Table.{
  JobRow, SprintRunRow, ChatMessage, Db, task_of, claim_job, tables_of, row_of,
}

-- The arguments of `tryClaimJob`.
pub record Claimer : Type 0 where
  pub user_id : String
  pub token_id : String
  pub instance_id : String
  pub product_id : Option String
  pub runtime : String
  pub capabilities : List String
  pub capability : Option Tier

-- What the database gives: the time, the jobs that another transaction holds locked, the other
-- workers, and the order of ids.
pub record Surroundings : Type 0 where
  pub now : ℕ
  pub locked : List String
  pub workers : List Worker
  pub id_before : String → String → Bool

-- `productId ? … : …`: an empty product is no scope.
abbrev pub filter_of : Claimer → ClaimFilterInput
filter_of c = record {
  user_id = c.user_id;
  product_id = if truthy c.product_id then c.product_id else none;
  runtime = c.runtime;
  capabilities = c.capabilities;
}

abbrev pub tier_of : Claimer → TierInput
tier_of c = record {
  self_user_id = c.user_id;
  self_instance_id = c.instance_id;
  self_runtime = c.runtime;
  self_capability = c.capability;
}

-- `tierClause`, left out for a worker without a tier.
abbrev pub leaves_to_other : Surroundings → Claimer → Db → JobRow → Bool
leaves_to_other s c db j = elim c.capability [
  | none ↦ false
  | some t ↦ defers (tier_of c) s.now (claim_job db j) s.workers
]

-- The row passes the whole WHERE clause and is not locked.
unfoldable pub is_claimable : Surroundings → Claimer → Db → JobRow → Bool
is_claimable s c db j =
    passes (where_fragment (tables_of db) (filter_of c) (claim_job db j))
    && not (leaves_to_other s c db j)
    && passes (Conditions.sprint (tables_of db) (row_of db j))
    && not (includes s.locked j.id)

abbrev pub max_sequence : ℕ
max_sequence = 2147483647

-- `ORDER BY cj.created_at, COALESCE(cj.sprint_sequence, 2147483647), cj.id`.
unfoldable pub comes_before : Surroundings → JobRow → JobRow → Bool
comes_before s a b =
    let m = or_else a.sprint_sequence max_sequence in
    let n = or_else b.sprint_sequence max_sequence in
    ltb a.created_at b.created_at
    || (nat_eq a.created_at b.created_at && (ltb m n || (nat_eq m n && s.id_before a.id b.id)))

-- `ORDER BY created_at DESC, id DESC LIMIT 1` of the idea's messages.
abbrev later : Surroundings → ChatMessage → ChatMessage → Bool
later s a b =
    ltb b.created_at a.created_at || (nat_eq a.created_at b.created_at && s.id_before b.id a.id)

unfoldable pub last_message : Surroundings → Db → String → Option ChatMessage
last_message s db idea_id = first_by (later s) (λ m. m.idea_id == idea_id) db.chat_messages

-- The lease of a new claim.
abbrev pub claim_lease : ℕ
claim_lease = 300000

abbrev pub claimed_row : Surroundings → Claimer → String → JobRow → JobRow
claimed_row s c snapshot j = record j {
  status = "CLAIMED";
  claimed_by_token_id = some c.token_id;
  claimed_at = some s.now;
  started_at = some s.now;
  plan_snapshot = some snapshot;
  worker_instance_id = some c.instance_id;
  lease_until = some (s.now + claim_lease);
}

-- An update from a query without rows writes nothing.
abbrev pub with_cutoff : Option ChatMessage → JobRow → JobRow
with_cutoff none j = j
with_cutoff (some m) j = record j {
  chat_cutoff_message_id = some m.id;
  chat_cutoff_at = some m.created_at;
}

abbrev pub cutoff_of : Surroundings → Db → JobRow → Option ChatMessage
cutoff_of s db found = elim found.idea_id [
  | none ↦ none
  | some idea ↦
      if found.kind == "IDEA_CHAT" && truthy (some idea) then last_message s db idea else none
]

-- `found[0].implementation_plan ?? ''`.
abbrev pub snapshot_of : Db → JobRow → String
snapshot_of db found = elim (task_of db found.task_id) [
  | none ↦ ""
  | some t ↦ or_else t.implementation_plan ""
]

unfoldable pub claim_change : Surroundings → Claimer → Db → JobRow → JobRow → JobRow
unfolding last_message
claim_change s c db found j =
    with_cutoff (cutoff_of s db found) (claimed_row s c (snapshot_of db found) j)

abbrev start_run : ℕ → SprintRunRow → SprintRunRow
start_run now r =
    if r.status == "QUEUED"
    then record r { status = "RUNNING"; started_at = some (or_else r.started_at now) }
    else r

abbrev pub start_runs : ℕ → Option String → List SprintRunRow → List SprintRunRow
start_runs now none runs = runs
start_runs now (some id) runs =
    if truthy (some id) then update_by (λ r. r.id) id (start_run now) runs else runs

unfoldable pub claim_found : Surroundings → Claimer → Option JobRow → Db → Db × Option String
unfolding claim_change
claim_found s c none db = (db, none)
claim_found s c (some found) db = (
  record db {
    jobs = update_by (λ j. j.id) found.id (claim_change s c db found) db.jobs;
    sprint_runs = start_runs s.now found.sprint_run_id db.sprint_runs;
    notified = db.notified ++ found.id ∷ [];
  },
  some found.id,
)

-- The database after the transaction, and the id that is claimed.
unfoldable pub try_claim_job : Surroundings → Claimer → Db → Db × Option String
unfolding claim_found is_claimable comes_before
try_claim_job s c db =
    if starts_with c.instance_id "managed:"
    then (db, none)
    else claim_found s c (first_by (comes_before s) (is_claimable s c db) db.jobs) db
