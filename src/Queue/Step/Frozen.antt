-- ===== src/Queue/Step/Frozen.antt =====
-- src/queue and the tools queue_done and queue_fail: rows that no step on the table changes.
use scrum4me_mcp.Prelude.{
  ℕ, ◌≡◌, refl, sym, ap, ◌∙◌, String, Bool, true, false, Option, none, some, List, arith,
  find_by-id, subst, update_by, includes, Option-cases, Bool-cases, inl, inr,
}
use scrum4me_mcp.Queue.Message.{Message, Queue, Vocabulary}
use scrum4me_mcp.Queue.Ownership.{Lease}
use scrum4me_mcp.Queue.Claim.{
  first_row, claim_row, read_row, requeue_row, is_held_by, take_row, claim_next_request,
  claim_next_reply, rollback_queue_claim,
}
use scrum4me_mcp.Queue.Claim.Oldest.{first_row-passes, first_row-found}
use scrum4me_mcp.Queue.Claim.Rollback.{rollback-held, rollback-missing, rollback-free}
use scrum4me_mcp.Queue.Finish.{
  Process, Admission, admit, done_row, failed_row, reply_row, write_reply, write_done, on_done,
  on_fail, queue_done, queue_fail,
}
use scrum4me_mcp.Queue.Finish.Owner.{Admission-cases, write-accepted, write-refused}
use scrum4me_mcp.Queue.Maintenance.{sweep_row, refresh_row, refresh_lease, sweep_stale_queue_claims}
use scrum4me_mcp.Queue.Step.{Step, Steps, is_frozen}
use scrum4me_mcp.Queue.Step.Change.{
  IsKeyed, IsHarmless, message_of, keeps_same, keeps_map, keeps_update, keeps_insert,
}
use scrum4me_mcp.Queue.Step.Guards.{
  IsOpen, request_not_frozen, reply_not_frozen, held_not_frozen, stale_not_frozen,
  admitted_not_frozen, still_fresh, and_left,
}

module _ (v : Vocabulary) (q : Queue) (keys : IsKeyed q) where
  -- A row that the query of a claim picks is updated.
  keeps_take :
      (change : Message → Message)
      → ((m : Message) → (change m).id ≡ m.id)
      → (p : Message → Bool) → ((m : Message) → p m ≡ true → is_frozen v m ≡ false)
      → IsHarmless v q (take_row change (first_row v p q.messages) q).0
  unfolding take_row
  keeps_take change ids p free = elim (Option-cases (first_row v p q.messages)) [
    | inl e ↦
        subst (λ found. IsHarmless v q (take_row change found q).0) (sym e) (keeps_same v q keys)
    | inr (r, e) ↦
        subst (λ found. IsHarmless v q (take_row change found q).0) (sym e)
          (keeps_update v q keys change ids (first_row-found v p q.messages r keys e)
            (free r (first_row-passes v p q.messages r e)) _ refl)
  ]

  keeps_finish :
      (id : String) (change : Message → Message)
      → ((m : Message) → (change m).id ≡ m.id)
      → (leases : List Lease) (token : Option String) (m : Message)
      → admit v leases id token q.messages ≡ Admission.admitted m
      → (q' : Queue) → q'.messages ≡ update_by (λ r. r.id) m.id change q.messages
      → IsHarmless v q q'
  keeps_finish id change ids leases token m e q' k =
      let (found, free) = admitted_not_frozen v leases id token q.messages m e in
      let same = find_by-id (λ (r : Message). r.id) id q.messages found in
      keeps_update v q keys change ids (ap (message_of q) same ∙ found) free q' k

module _ (v : Vocabulary) (open_statuses : IsOpen v) where
  keeps_rollback :
      (id by : String) (q : Queue) → IsKeyed q → IsHarmless v q (rollback_queue_claim id by q)
  keeps_rollback id by q keys = elim (Option-cases (message_of q id)) [
    | inl e ↦ subst (IsHarmless v q) (sym (rollback-missing id by q e)) (keeps_same v q keys)
    | inr (m, e) ↦ elim (Bool-cases (is_held_by by m)) [
      | inl held ↦
          let same = find_by-id (λ (r : Message). r.id) id q.messages e in
          keeps_update v q keys requeue_row (λ r. refl) (ap (message_of q) same ∙ e)
            (held_not_frozen v open_statuses by m held) _
            (ap (λ c. c.messages) (rollback-held id by q e held)
              ∙ ap (λ i. update_by (λ (r : Message). r.id) i requeue_row q.messages) (sym same))
      | inr free ↦ subst (IsHarmless v q) (sym (rollback-free id by q e free)) (keeps_same v q keys)
    ]
  ]

  keeps_sweep :
      (locked : List String) (now : ℕ) (q : Queue)
      → IsKeyed q
      → IsHarmless v q (sweep_stale_queue_claims v locked now q)
  unfolding sweep_stale_queue_claims sweep_row
  keeps_sweep locked now q keys =
      keeps_map v q keys (sweep_row v locked now) (λ m. ground arith)
        (λ m here h. ground (arith, stale_not_frozen v open_statuses now m)) _ refl

  keeps_refresh :
      (now : ℕ) (reached : String → Bool) (lease : Lease) (p : Process)
      → IsKeyed p.queue
      → IsHarmless v p.queue (refresh_lease now reached lease p).queue
  unfolding refresh_lease refresh_row
  keeps_refresh now reached lease p keys = elim (Bool-cases (reached lease.message_id)) [
    | inl e ↦
        keeps_map v p.queue keys (refresh_row now lease) (λ m. ground arith)
          (λ m here h. ground (arith, held_not_frozen v open_statuses lease.claimed_by m)) _
          (ground arith)
    | inr e ↦ subst (IsHarmless v p.queue) (ground arith) (keeps_same v p.queue keys)
  ]

  keeps_fail :
      (now : ℕ) (id error : String) (token : Option String) (p : Process)
      → IsKeyed p.queue
      → IsHarmless v p.queue (queue_fail v now id error token p).0.queue
  unfolding queue_fail
  keeps_fail now id error token p keys =
      elim (Admission-cases (admit v p.leases id token p.queue.messages)) [
        | inl (m, e) ↦
            keeps_finish v p.queue keys id (failed_row error now) (λ r. refl) p.leases token m e _
              (ap (λ a. (on_fail now error p a).0.queue.messages) e)
        | inr (error', e) ↦
            subst (λ a. IsHarmless v p.queue (on_fail now error p a).0.queue) (sym e)
              (keeps_same v p.queue keys)
      ]

  keeps_reply :
      (new_id : String) (now : ℕ) (id reply : String) (token : Option String) (p : Process)
      → IsKeyed p.queue
      → message_of p.queue new_id ≡ none
      → (m : Message) → admit v p.leases id token p.queue.messages ≡ Admission.admitted m
      → IsHarmless v p.queue (write_reply v new_id now m reply p).queue
  unfolding write_reply
  keeps_reply new_id now id reply token p keys fresh m e =
      let updated : Queue = record {
        messages = update_by (λ r. r.id) m.id (done_row now) p.queue.messages;
        sent = p.queue.sent;
      } in
      keeps_insert v p.queue updated (write_reply v new_id now m reply p).queue
        (reply_row v new_id now m reply)
        (keeps_finish v p.queue keys id (done_row now) (λ r. refl) p.leases token m e updated refl)
        (still_fresh m.id new_id (done_row now) p.queue.messages (λ r. refl) fresh) refl

  keeps_write :
      (new_id : String) (now : ℕ) (id : String) (reply token : Option String) (p : Process)
      → IsKeyed p.queue
      → message_of p.queue new_id ≡ none
      → (m : Message) → admit v p.leases id token p.queue.messages ≡ Admission.admitted m
      → IsHarmless v p.queue (write_done v new_id now m reply p).0.queue
  unfolding write_done
  keeps_write new_id now id none token p keys fresh m e =
      keeps_finish v p.queue keys id (done_row now) (λ r. refl) p.leases token m e _ refl
  keeps_write new_id now id (some reply) token p keys fresh m e =
      elim (Bool-cases (includes v.request_types m.type)) [
        | inl accepted ↦
            subst (λ (c : Process). IsHarmless v p.queue c.queue)
              (sym (write-accepted v now id token p new_id m reply accepted))
              (keeps_reply new_id now id reply token p keys fresh m e)
        | inr refused ↦
            subst (λ (c : Process). IsHarmless v p.queue c.queue)
              (sym (write-refused v now id token p new_id m reply refused))
              (keeps_same v p.queue keys)
      ]

  keeps_done :
      (new_id : String) (now : ℕ) (id : String) (reply token : Option String) (p : Process)
      → IsKeyed p.queue
      → message_of p.queue new_id ≡ none
      → IsHarmless v p.queue (queue_done v new_id now id reply token p).0.queue
  unfolding queue_done
  keeps_done new_id now id reply token p keys fresh =
      elim (Admission-cases (admit v p.leases id token p.queue.messages)) [
        | inl (m, e) ↦
            subst (λ a. IsHarmless v p.queue (on_done v new_id now reply p a).0.queue) (sym e)
              (keeps_write new_id now id reply token p keys fresh m e)
        | inr (error, e) ↦
            subst (λ a. IsHarmless v p.queue (on_done v new_id now reply p a).0.queue) (sym e)
              (keeps_same v p.queue keys)
      ]

  keeps_step : {q r : Queue} → Step v q r → IsKeyed q → IsHarmless v q r
  unfolding claim_next_request claim_next_reply
  keeps_step (Step.claimed locked self by now q) keys =
      keeps_take v q keys (claim_row by now) (λ m. refl) _
        (λ m h. request_not_frozen v open_statuses self now m (and_left _ _ h))
  keeps_step (Step.read locked self ids by now q) keys =
      keeps_take v q keys (read_row by now) (λ m. refl) _
        (λ m h. reply_not_frozen v open_statuses self ids now m (and_left _ _ h))
  keeps_step (Step.rolled_back id by q) keys = keeps_rollback id by q keys
  keeps_step (Step.swept locked now q) keys = keeps_sweep locked now q keys
  keeps_step (Step.refreshed now reached lease p) keys = keeps_refresh now reached lease p keys
  keeps_step (Step.done new_id now id reply token p fresh) keys =
      keeps_done new_id now id reply token p keys fresh
  keeps_step (Step.failed now id error token p) keys = keeps_fail now id error token p keys

  -- However the agents' processes interleave their claims, reads, rollbacks, sweeps, refreshes and
  -- finishes, a message in a terminal status and a message with any marker is stored unchanged.
  -- The ids are keys at the start, the id of each reply is new, and "pending" and "claimed" are not
  -- terminal.
  pub frozen_rows_stay :
      {q r : Queue}
      → IsKeyed q
      → Steps v q r
      → (id : String) {m : Message} → message_of q id ≡ some m
      → is_frozen v m ≡ true
      → message_of r id ≡ some m
  frozen_rows_stay keys (Steps.nil q) id found h = found
  frozen_rows_stay keys (Steps.cons s rest) id found h =
      let k = keeps_step s keys in frozen_rows_stay k.keyed rest id (k.frozen id found h) h
