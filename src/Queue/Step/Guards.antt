-- ===== src/Queue/Step/Guards.antt =====
-- src/queue and the tools queue_done and queue_fail: what the tests of each operation let through is
-- not frozen.
use scrum4me_mcp.Prelude.{
  ℕ, ◌≡◌, String, Bool, true, false, ◌&&◌, ◌||◌, Option, none, some, List, ◌==◌, arith, find_by,
  find_by-update_by, update_by, includes, eq_iff, Option-cases, inl, inr,
}
use scrum4me_mcp.Queue.Message.{Address, Message, Vocabulary, is_legacy}
use scrum4me_mcp.Queue.Ownership.{Lease}
use scrum4me_mcp.Queue.Claim.{is_next_request, is_next_reply, is_held_by}
use scrum4me_mcp.Queue.Finish.{Admission, admit}
use scrum4me_mcp.Queue.Maintenance.{is_stale}
use scrum4me_mcp.Queue.Step.{is_frozen}

-- "pending" and "claimed" are not terminal.
pub record IsOpen (v : Vocabulary) : Type 0 where
  pub pending : includes v.terminal_statuses "pending" ≡ false
  pub claimed : includes v.terminal_statuses "claimed" ≡ false

module _ (v : Vocabulary) (open_statuses : IsOpen v) where
  -- A row that a claim, a sweep or a refresh may take is not frozen.
  open_not_frozen :
      (m : Message)
      → (m.status == "pending" || m.status == "claimed") ≡ true
      → is_legacy m ≡ true
      → is_frozen v m ≡ false
  unfolding is_frozen
  open_not_frozen m h legacy = ground (
    arith,
    open_statuses.pending,
    open_statuses.claimed,
    eq_iff m.status "pending",
    eq_iff m.status "claimed",
  )

  pub request_not_frozen :
      (self : Address) (now : ℕ) (m : Message)
      → is_next_request v self now m ≡ true
      → is_frozen v m ≡ false
  unfolding is_next_request
  request_not_frozen self now m h = open_not_frozen m (ground arith) (ground arith)

  pub reply_not_frozen :
      (self : Address) (ids : List String) (now : ℕ) (m : Message)
      → is_next_reply v self ids now m ≡ true
      → is_frozen v m ≡ false
  unfolding is_next_reply
  reply_not_frozen self ids now m h = open_not_frozen m (ground arith) (ground arith)

  pub held_not_frozen : (by : String) (m : Message) → is_held_by by m ≡ true → is_frozen v m ≡ false
  unfolding is_held_by
  held_not_frozen by m h = open_not_frozen m (ground arith) (ground arith)

  pub stale_not_frozen : (now : ℕ) (m : Message) → is_stale v now m ≡ true → is_frozen v m ≡ false
  unfolding is_stale
  stale_not_frozen now m h = open_not_frozen m (ground arith) (ground arith)

-- A message that may be finished is the stored one, has no marker and is not terminal.
pub admitted_not_frozen :
    (v : Vocabulary) (leases : List Lease) (id : String) (token : Option String)
    (rows : List Message) (m : Message)
    → admit v leases id token rows ≡ Admission.admitted m
    → (find_by (λ r. r.id) id rows ≡ some m) × (is_frozen v m ≡ false)
unfolding admit is_frozen
admitted_not_frozen v leases id token rows m h =
    elim (Option-cases (find_by (λ (r : Message). r.id) id rows)) [
      | inl e ↦ ground arith
      | inr (r, e) ↦ ground arith
    ]

-- The reply's id is not in the table after the update either.
pub still_fresh :
    (id new_id : String) (change : Message → Message) (rows : List Message)
    → ((m : Message) → (change m).id ≡ m.id)
    → find_by (λ m. m.id) new_id rows ≡ none
    → find_by (λ m. m.id) new_id (update_by (λ m. m.id) id change rows) ≡ none
still_fresh id new_id change rows ids fresh =
    ground (arith, find_by-update_by (λ (m : Message). m.id) change ids id new_id rows)

pub and_left : (a b : Bool) → (a && b) ≡ true → a ≡ true
and_left a b h = ground arith
