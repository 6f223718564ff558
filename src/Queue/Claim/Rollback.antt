-- ===== src/Queue/Claim/Rollback.antt =====
-- src/queue/claim.ts, `rollbackQueueClaim`: a claim that is taken back.
use mathlib.Core.Option
use scrum4me_mcp.Prelude.{
  ℕ, ◌≡◌, refl, sym, ap, ◌∙◌, String, Bool, true, false, ◌&&◌, Option, none, some, List, [], ◌∷◌,
  ◌++◌, ◌==◌, arith, find_by, HasKeys, eq_iff, eq_refl, update_by, find_by-update_by, if◌then◌else◌,
}
use scrum4me_mcp.Queue.Message.{
  Address, Message, Queue, Vocabulary, envelope_of, is_legacy, is_ordinary,
}
use scrum4me_mcp.Queue.Claim.{
  is_next_request, claim_row, requeue_row, is_held_by, claim_next_request, rollback_queue_claim,
}
use scrum4me_mcp.Queue.Claim.Oldest.{IsIdOrder, claim_takes_oldest}

module _ (id claimed_by : String) (q : Queue) where
  pub rollback-held :
      {m : Message}
      → find_by (λ r. r.id) id q.messages ≡ some m
      → is_held_by claimed_by m ≡ true
      → rollback_queue_claim id claimed_by q ≡ record {
        messages = update_by (λ r. r.id) id requeue_row q.messages;
        sent = q.sent ++ envelope_of (requeue_row m) (some "claimed") ∷ [];
      }
  unfolding rollback_queue_claim
  rollback-held found held = ground arith

  pub rollback-missing :
      find_by (λ r. r.id) id q.messages ≡ none → rollback_queue_claim id claimed_by q ≡ q
  unfolding rollback_queue_claim
  rollback-missing missing = ground arith

  pub rollback-free :
      {m : Message}
      → find_by (λ r. r.id) id q.messages ≡ some m
      → is_held_by claimed_by m ≡ false
      → rollback_queue_claim id claimed_by q ≡ q
  unfolding rollback_queue_claim
  rollback-free found free = ground arith

-- The state of a row that is waiting: a pending row carries no claim.
pub record IsWaiting (m : Message) : Type 0 where
  pub pending : m.status ≡ "pending"
  pub no_claimer : m.claimed_by ≡ none
  pub no_claim_time : m.claimed_at ≡ none
  pub no_start_time : m.started_at ≡ none

requeue_claimed :
    (by : String) (now : ℕ) (m : Message) → IsWaiting m → requeue_row (claim_row by now m) ≡ m
requeue_claimed by now m w = ground arith

claimed_held :
    (v : Vocabulary) (self : Address) (by : String) (now : ℕ) (m : Message)
    → is_next_request v self now m ≡ true
    → is_held_by by (claim_row by now m) ≡ true
unfolding is_next_request is_held_by is_legacy is_ordinary
claimed_held v self by now m h = ground (arith, eq_refl by)

and_left : (a b : Bool) → (a && b) ≡ true → a ≡ true
and_left a b h = ground arith

restored :
    (change : Message → Message) (b : Bool) (now before : Option Message) (taken m : Message)
    → now ≡ (if b then some taken else before)
    → (b ≡ true → before ≡ some m)
    → change taken ≡ m
    → (if b then Option.map change now else now) ≡ before
restored change true now before taken m e found back =
    ap (Option.map change) e ∙ ap some back ∙ sym (found refl)
restored change false now before taken m e found back = e

module _ (v : Vocabulary) (order : IsIdOrder v) (locked : List String) (self : Address)
    (claimed_by : String) (now : ℕ) (q : Queue) (keys : HasKeys (λ m. m.id) q.messages) where
  -- The claim of a row that was waiting, which is pending and carries no claim, followed by its
  -- rollback under the same `claimed_by`, leaves under every id the row that was there before the
  -- claim. A claim of a row whose older claim ran out is not meant: a rollback leaves that one
  -- pending.
  pub claim_then_rollback :
      (taken : Message)
      → (claim_next_request v locked self claimed_by now q).1 ≡ some taken
      → ((m : Message) → find_by (λ r. r.id) taken.id q.messages ≡ some m → IsWaiting m)
      → (id : String)
      → find_by
          (λ r. r.id)
          id
          (rollback_queue_claim taken.id claimed_by
            (claim_next_request v locked self claimed_by now q).0).messages
        ≡ find_by (λ r. r.id) id q.messages
  claim_then_rollback taken h waiting id =
      let (m, found, may, _, t, rows) =
        claim_takes_oldest v order locked self claimed_by now q keys taken h in
      let after = (claim_next_request v locked self claimed_by now q).0 in
      let same : m.id ≡ taken.id = ap (λ (r : Message). r.id) (sym t) in
      let there : find_by (λ (r : Message). r.id) m.id after.messages ≡ some taken =
        rows m.id ∙ (rw (eq_refl m.id) refl) in
      let at : find_by (λ (r : Message). r.id) taken.id after.messages ≡ some taken =
        ap (λ i. find_by (λ (r : Message). r.id) i after.messages) (sym same) ∙ there in
      let held : is_held_by claimed_by taken ≡ true =
        ap (is_held_by claimed_by) t ∙ claimed_held v self claimed_by now m (and_left _ _ may) in
      let w : IsWaiting m =
        waiting m (ap (λ i. find_by (λ (r : Message). r.id) i q.messages) (sym same) ∙ found) in
      let back : requeue_row taken ≡ m = ap requeue_row t ∙ requeue_claimed claimed_by now m w in
      ap (λ c. find_by (λ (r : Message). r.id) id c.messages)
        (rollback-held taken.id claimed_by after at held)
      ∙ find_by-update_by (λ (r : Message). r.id) requeue_row (λ r. refl) taken.id id after.messages
      ∙ ap
          (λ i.
            if i == id
            then Option.map requeue_row (find_by (λ (r : Message). r.id) id after.messages)
            else find_by (λ (r : Message). r.id) id after.messages)
          (sym same)
      ∙ restored requeue_row (m.id == id) _ _ taken m (rows id)
          (λ e.
            ap (λ i. find_by (λ (r : Message). r.id) i q.messages) (sym ((eq_iff m.id id).0 e))
            ∙ found)
          back
