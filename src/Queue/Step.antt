-- ===== src/Queue/Step.antt =====
-- The steps that the agents' processes take on the shared table (src/queue and the tools queue_next,
-- queue_wait_reply, queue_done and queue_fail), and their sequences. Each process has a register of
-- its own, so a step says what the register of its process was.
pub mod Change
pub mod Guards
pub mod Frozen
use scrum4me_mcp.Prelude.{
  ℕ, ◌≡◌, String, Bool, true, false, not, ◌||◌, Option, none, List, find_by, includes,
}
use scrum4me_mcp.Queue.Message.{Address, Message, Queue, Vocabulary, is_legacy}
use scrum4me_mcp.Queue.Ownership.{Lease}
use scrum4me_mcp.Queue.Claim.{claim_next_request, claim_next_reply, rollback_queue_claim}
use scrum4me_mcp.Queue.Finish.{Process, queue_done, queue_fail}
use scrum4me_mcp.Queue.Maintenance.{refresh_lease, sweep_stale_queue_claims}

-- The id that the database makes for a reply is not in the table.
pub data Step (v : Vocabulary) : Queue → Queue → Type 0 where
  claimed :
      (locked : List String) (self : Address) (claimed_by : String) (now : ℕ) (q : Queue)
      → Step v q (claim_next_request v locked self claimed_by now q).0
  read :
      (locked : List String) (self : Address) (ids : List String) (claimed_by : String) (now : ℕ)
      (q : Queue)
      → Step v q (claim_next_reply v locked self ids claimed_by now q).0
  rolled_back :
      (id claimed_by : String) (q : Queue) → Step v q (rollback_queue_claim id claimed_by q)
  swept :
      (locked : List String) (now : ℕ) (q : Queue)
      → Step v q (sweep_stale_queue_claims v locked now q)
  refreshed :
      (now : ℕ) (reached : String → Bool) (lease : Lease) (p : Process)
      → Step v p.queue (refresh_lease now reached lease p).queue
  done :
      (new_id : String) (now : ℕ) (id : String) (reply token : Option String) (p : Process)
      → find_by (λ m. m.id) new_id p.queue.messages ≡ none
      → Step v p.queue (queue_done v new_id now id reply token p).0.queue
  failed :
      (now : ℕ) (id error : String) (token : Option String) (p : Process)
      → Step v p.queue (queue_fail v now id error token p).0.queue

pub data Steps (v : Vocabulary) : Queue → Queue → Type 0 where
  nil : (q : Queue) → Steps v q q
  cons : {q r s : Queue} → Step v q r → Steps v r s → Steps v q s

-- A row that is in a terminal status, or that carries a marker.
unfoldable pub is_frozen : Vocabulary → Message → Bool
is_frozen v m = includes v.terminal_statuses m.status || not (is_legacy m)
