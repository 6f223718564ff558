-- ===== src/Queue/Claim.antt =====
-- src/queue/claim.ts: the claim of the next request and of the next reply, and the way back. Each
-- is one transaction; `locked` are the rows that another transaction holds (SKIP LOCKED).
pub mod Oldest
pub mod Rollback
use mathlib.Core.Option
use scrum4me_mcp.Prelude.{
  ℕ, ◌+◌, String, Bool, true, false, not, ◌&&◌, ◌||◌, Option, none, some, List, [], ◌∷◌, ◌++◌, ◌==◌,
  includes, is_text, ltb, nat_eq, update_by, find_by, if◌then◌else◌,
}
use scrum4me_mcp.Queue.Message.{
  Address, Message, Queue, Vocabulary, is_legacy, is_ordinary, envelope_of,
}

-- `claimed_at < now() - interval`; NULL does not pass.
abbrev pub older_than : ℕ → ℕ → Option ℕ → Bool
older_than interval now none = false
older_than interval now (some t) = ltb (t + interval) now

abbrev pub is_claimable : Vocabulary → ℕ → Message → Bool
is_claimable v now m =
    m.status == "pending" || (m.status == "claimed" && older_than v.reclaim now m.claimed_at)

abbrev pub is_addressed : Address → Message → Bool
is_addressed self m = m.receiver.server == self.server && m.receiver.model == self.model

-- The WHERE clause of `claimNextRequest`.
unfoldable pub is_next_request : Vocabulary → Address → ℕ → Message → Bool
is_next_request v self now m =
    is_addressed self m
    && includes v.request_types m.type
    && is_legacy m
    && is_ordinary m
    && not (is_text m.action "rules-sync")
    && is_claimable v now m

-- `in_reply_to = ANY(ids)`; NULL does not pass.
abbrev pub replies_to : List String → Option String → Bool
replies_to ids none = false
replies_to ids (some id) = includes ids id

-- The WHERE clause of `claimNextReply`.
unfoldable pub is_next_reply : Vocabulary → Address → List String → ℕ → Message → Bool
is_next_reply v self ids now m =
    is_addressed self m
    && includes v.response_types m.type
    && replies_to ids m.in_reply_to
    && is_legacy m
    && is_claimable v now m

-- `ORDER BY created_at, id`.
unfoldable pub comes_before : Vocabulary → Message → Message → Bool
comes_before v a b =
    ltb a.created_at b.created_at || (nat_eq a.created_at b.created_at && v.id_before a.id b.id)

-- `ORDER BY … LIMIT 1` of the rows that pass.
unfoldable pub first_row : Vocabulary → (Message → Bool) → List Message → Option Message
first_row v passes [] = none
first_row v passes (m ∷ ms) =
    let rest = first_row v passes ms in
    if passes m
    then elim rest [ none ↦ some m | some best ↦ some (if comes_before v best m then best else m) ]
    else rest

abbrev pub claim_row : String → ℕ → Message → Message
claim_row claimed_by now m = record m {
  status = "claimed";
  claimed_by = some claimed_by;
  claimed_at = some now;
  started_at = some now;
}

abbrev pub read_row : String → ℕ → Message → Message
read_row claimed_by now m = record m {
  status = "done";
  claimed_by = some claimed_by;
  claimed_at = some now;
  started_at = some now;
  finished_at = some now;
}

-- The update of the chosen row, which the transaction returns, and its envelope.
unfoldable pub take_row : (Message → Message) → Option Message → Queue → Queue × Option Message
take_row change none q = (q, none)
take_row change (some m) q = (
  record {
    messages = update_by (λ r. r.id) m.id change q.messages;
    sent = q.sent ++ envelope_of (change m) (some m.status) ∷ [];
  },
  some (change m),
)

unfoldable pub claim_next_request :
    Vocabulary → List String → Address → String → ℕ → Queue → Queue × Option Message
claim_next_request v locked self claimed_by now q =
    take_row (claim_row claimed_by now)
      (first_row v (λ m. is_next_request v self now m && not (includes locked m.id)) q.messages) q

unfoldable pub claim_next_reply :
    Vocabulary → List String → Address → List String → String → ℕ → Queue → Queue × Option Message
claim_next_reply v locked self ids claimed_by now q =
    take_row (read_row claimed_by now)
      (first_row v (λ m. is_next_reply v self ids now m && not (includes locked m.id)) q.messages) q

abbrev pub requeue_row : Message → Message
requeue_row m = record m {
  status = "pending";
  claimed_by = none;
  claimed_at = none;
  started_at = none;
}

-- The WHERE clause of `rollbackQueueClaim`, its id apart.
unfoldable pub is_held_by : String → Message → Bool
is_held_by claimed_by m =
    m.status == "claimed" && is_text m.claimed_by claimed_by && is_legacy m && is_ordinary m

unfoldable pub rollback_queue_claim : String → String → Queue → Queue
rollback_queue_claim id claimed_by q = elim (find_by (λ m. m.id) id q.messages) [
  | none ↦ q
  | some m ↦
      if is_held_by claimed_by m
      then record {
        messages = update_by (λ r. r.id) id requeue_row q.messages;
        sent = q.sent ++ envelope_of (requeue_row m) (some "claimed") ∷ [];
      }
      else q
]
