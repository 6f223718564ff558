-- ===== src/Queue/Maintenance.antt =====
-- src/queue/sweep.ts and src/queue/lease-refresh.ts: stale claims go back to the queue, the claims
-- of a living process are kept fresh, and a lease whose claim is gone is dropped. Also `tryClaim`
-- and the cancelled call of src/tools/queue-next.ts, which use the register.
pub mod Survival
use mathlib.Core.Option
use scrum4me_mcp.Prelude.{
  ℕ, String, Bool, true, false, not, ◌&&◌, ◌||◌, Option, none, some, List, [], ◌∷◌, ◌++◌, ◌==◌,
  includes, is_text, map, select, some?, if◌then◌else◌,
}
use text.Mathlib.Text.{starts_with}
use Prim.Native.String.{◌++◌ as join}
use scrum4me_mcp.Queue.Message.{
  Address, Message, Queue, Vocabulary, is_legacy, is_ordinary, envelope_of,
}
use scrum4me_mcp.Queue.Claim.{
  older_than, requeue_row, is_held_by, claim_next_request, rollback_queue_claim,
}
use scrum4me_mcp.Queue.Ownership.{Lease, register_lease, release_lease}
use scrum4me_mcp.Queue.Finish.{Process}

-- `MCP_LEASE_STALE_INTERVAL`.
abbrev pub mcp_lease_stale_interval : ℕ
mcp_lease_stale_interval = 300000

-- `claimed_by LIKE 'mcp:%'`.
unfoldable pub is_mcp_claim : Option String → Bool
is_mcp_claim none = false
is_mcp_claim (some by) = starts_with by "mcp:"

-- The WHERE clause of `sweepStaleQueueClaims`.
unfoldable pub is_stale : Vocabulary → ℕ → Message → Bool
is_stale v now m =
    m.status == "claimed"
    && is_legacy m
    && is_ordinary m
    && ((is_mcp_claim m.claimed_by && older_than mcp_lease_stale_interval now m.claimed_at)
        || (not (is_mcp_claim m.claimed_by) && older_than v.cli_reclaim now m.claimed_at))

unfoldable pub sweep_row : Vocabulary → List String → ℕ → Message → Message
sweep_row v locked now m =
    if is_stale v now m && not (includes locked m.id) then requeue_row m else m

-- The order of the envelopes is that of the table here; RETURNING does not promise one.
unfoldable pub sweep_stale_queue_claims : Vocabulary → List String → ℕ → Queue → Queue
sweep_stale_queue_claims v locked now q = record {
  messages = map (sweep_row v locked now) q.messages;
  sent =
      q.sent
      ++ map (λ m. envelope_of (requeue_row m) (some "claimed"))
          (select (λ m. is_stale v now m && not (includes locked m.id)) q.messages);
}

abbrev pub matches_lease : Lease → Message → Bool
matches_lease lease m = m.id == lease.message_id && is_held_by lease.claimed_by m

unfoldable pub refresh_row : ℕ → Lease → Message → Message
refresh_row now lease m = if matches_lease lease m then record m { claimed_at = some now } else m

-- One round of the loop of `refreshQueueLeases`; `reached` tells whether the database answered.
unfoldable pub refresh_lease : ℕ → (String → Bool) → Lease → Process → Process
refresh_lease now reached lease p =
    if reached lease.message_id
    then record {
      queue = record {
        messages = map (refresh_row now lease) p.queue.messages;
        sent = p.queue.sent;
      };
      leases =
          if some? (matches_lease lease) p.queue.messages
          then p.leases
          else release_lease lease.message_id p.leases;
    }
    else p

pub refresh_leases : ℕ → (String → Bool) → List Lease → Process → Process
refresh_leases now reached [] p = p
refresh_leases now reached (l ∷ ls) p =
    refresh_leases now reached ls (refresh_lease now reached l p)

-- `refreshQueueLeases`: over the entries that `leaseEntries` copied at the start.
unfoldable pub refresh_queue_leases : ℕ → (String → Bool) → Process → Process
refresh_queue_leases now reached p = refresh_leases now reached p.leases p

-- `mcp:<instance>:<token>`.
pub claimer : String → String → String
claimer instance_id token = join "mcp:" (join instance_id (join ":" token))

-- `tryClaim`; `token` is the `randomUUID()`.
pub try_claim :
    Vocabulary → List String → Address → String → String → ℕ → Process → Process × Option Message
try_claim v locked self instance_id token now p =
    let (q, m) = claim_next_request v locked self (claimer instance_id token) now p.queue in
    elim m [
      | none ↦ (record p { queue = q }, none)
      | some row ↦ (
        record {
          queue = q;
          leases =
              register_lease
                (record {
                  message_id = row.id;
                  claim_token = token;
                  claimed_by = claimer instance_id token;
                })
                p.leases;
        },
        some row,
      )
    ]

-- A call that was cancelled after its claim.
pub cancel_claim : String → String → Process → Process
cancel_claim id claimed_by p = record {
  queue = rollback_queue_claim id claimed_by p.queue;
  leases = release_lease id p.leases;
}
