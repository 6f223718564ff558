-- ===== src/Queue/Finish/Reply.antt =====
-- src/tools/queue-done.ts and src/tools/queue-fail.ts: what an error and a reply leave behind.
use scrum4me_mcp.Prelude.{
  ℕ, ◌≡◌, refl, sym, ap, ◌∙◌, inl, inr, String, true, Option, none, some, List, [], ◌∷◌, ◌++◌,
  update_by, find_by-update_by_self, find_by-update_by, find_by-append, find_by-append_none,
  eq_refl, arith, find_by, find_by-id, includes,
}
use scrum4me_mcp.Queue.Message.{Message, Vocabulary, envelope_of, is_legacy}
use scrum4me_mcp.Queue.Ownership.{Lease, QueueError, get_lease, release_lease}
use scrum4me_mcp.Queue.Finish.{
  Process, Outcome, admit, done_row, reply_row, write_reply, write_done, on_done, queue_done,
  on_fail, queue_fail,
}
use scrum4me_mcp.Queue.Finish.Owner.{Admission-cases, admit-found}

absurd_outcome :
    {A : Type 0} {e : QueueError} {o : Option String} → Outcome.failed e ≡ Outcome.done o → A
absurd_outcome h = cc

get_lease-released :
    (id : String) (leases : List Lease) → get_lease (release_lease id leases) id ≡ none
unfolding get_lease release_lease
get_lease-released id [] = refl
get_lease-released id (l ∷ ls) = ground (arith, get_lease-released id ls)

module _ (v : Vocabulary) (now : ℕ) (id : String) (token : Option String) (p : Process) where
  write-error :
      (new_id : String) (m : Message) (reply : Option String) {e : QueueError}
      → (write_done v new_id now m reply p).1 ≡ Outcome.failed e
      → (write_done v new_id now m reply p).0 ≡ p
  unfolding write_done
  write-error new_id m none h = cc
  write-error new_id m (some reply) h = ground arith

  write-done :
      (new_id : String) (m : Message) (reply : String) {answer : Option String}
      → (write_done v new_id now m (some reply) p).1 ≡ Outcome.done answer
      → (includes v.request_types m.type ≡ true)
        × (answer ≡ some new_id)
        × (write_done v new_id now m (some reply) p
            ≡ (write_reply v new_id now m reply p, Outcome.done (some new_id)))
  unfolding write_done
  write-done new_id m reply h = ground arith

  module _ (new_id reply : String) (m : Message)
      (found : find_by (λ r. r.id) id p.queue.messages ≡ some m)
      (fresh : find_by (λ r. r.id) new_id p.queue.messages ≡ none) where
    reply_stored_request :
        find_by (λ r. r.id) id (write_reply v new_id now m reply p).queue.messages
        ≡ some (done_row now m)
    unfolding write_reply
    reply_stored_request =
        let same = find_by-id (λ (r : Message). r.id) id p.queue.messages found in
        find_by-append (λ (r : Message). r.id) id
          (update_by (λ r. r.id) m.id (done_row now) p.queue.messages) _
          (ap
              (λ i.
                find_by (λ (r : Message). r.id) id
                  (update_by (λ r. r.id) i (done_row now) p.queue.messages))
              same
            ∙ find_by-update_by_self (λ (r : Message). r.id) (done_row now) (λ r. refl) id
                p.queue.messages found)

    reply_stored :
        find_by (λ r. r.id) new_id (write_reply v new_id now m reply p).queue.messages
        ≡ some (reply_row v new_id now m reply)
    unfolding write_reply
    reply_stored =
        find_by-append_none (λ (r : Message). r.id) new_id
          (update_by (λ r. r.id) m.id (done_row now) p.queue.messages) _
          (ground (
            arith,
            find_by-update_by (λ (r : Message). r.id) (done_row now) (λ r. refl) m.id new_id
                p.queue.messages,
          ))
        ∙ rw (eq_refl new_id) refl

    reply_released : get_lease (write_reply v new_id now m reply p).leases id ≡ none
    unfolding write_reply
    reply_released =
        let same = find_by-id (λ (r : Message). r.id) id p.queue.messages found in
        ap (λ i. get_lease (release_lease i p.leases) id) same ∙ get_lease-released id p.leases

  -- Where `queue_done` reports an error, whether before or after the tests on the row, the table,
  -- the envelopes and the register are as they were.
  pub done_error_keeps :
      (new_id : String) (reply : Option String) {e : QueueError}
      → (queue_done v new_id now id reply token p).1 ≡ Outcome.failed e
      → (queue_done v new_id now id reply token p).0 ≡ p
  unfolding queue_done
  done_error_keeps new_id reply h =
      elim (Admission-cases (admit v p.leases id token p.queue.messages)) [
        | inl (m, k) ↦
            ap (λ a. (on_done v new_id now reply p a).0) k
            ∙ write-error new_id m reply (ap (λ a. (on_done v new_id now reply p a).1) (sym k) ∙ h)
        | inr (refusal, k) ↦ ap (λ a. (on_done v new_id now reply p a).0) k
      ]

  -- Where `queue_fail` reports an error, the table, the envelopes and the register are as they were.
  pub fail_error_keeps :
      (error : String) {e : QueueError}
      → (queue_fail v now id error token p).1 ≡ Outcome.failed e
      → (queue_fail v now id error token p).0 ≡ p
  unfolding queue_fail
  fail_error_keeps error h = elim (Admission-cases (admit v p.leases id token p.queue.messages)) [
    | inl (m, k) ↦ ground (arith, ap (λ a. (on_fail now error p a).1) (sym k) ∙ h)
    | inr (refusal, k) ↦ ap (λ a. (on_fail now error p a).0) k
  ]

  -- A message that `queue_done` finished with a reply was a request. Its row is stored with status
  -- "done" and the time of the call and is otherwise unchanged. Under the new id a row is stored that
  -- goes from the request's receiver to its sender, names the request in `in_reply_to`, has status
  -- "pending", the reply as its body and the reply type of the request's type, and carries no claim
  -- and no marker. Both rows were announced, the reply first and without a former status, and this
  -- process has no lease for the request any more. The new id is one that the table does not hold.
  pub reply_reaches_sender :
      (new_id reply : String) {answer : Option String}
      → find_by (λ r. r.id) new_id p.queue.messages ≡ none
      → (queue_done v new_id now id (some reply) token p).1 ≡ Outcome.done answer
      → (m : Message) × (find_by (λ r. r.id) id p.queue.messages ≡ some m)
        × (includes v.request_types m.type ≡ true)
        × (answer ≡ some new_id)
        × (let after = (queue_done v new_id now id (some reply) token p).0 in
            let closed : Message = record m { status = "done"; finished_at = some now } in
            (find_by (λ r. r.id) id after.queue.messages ≡ some closed)
            × ((r : Message) × (find_by (λ r. r.id) new_id after.queue.messages ≡ some r)
                × (r.id ≡ new_id)
                × (r.sender ≡ m.receiver)
                × (r.receiver ≡ m.sender)
                × (r.in_reply_to ≡ some m.id)
                × (r.status ≡ "pending")
                × (r.body ≡ reply)
                × (r.type ≡ v.reply_type m.type)
                × (r.claimed_by ≡ none)
                × (is_legacy r ≡ true)
                × (after.queue.sent
                    ≡ p.queue.sent ++ envelope_of r none ∷ envelope_of closed (some m.status) ∷ []))
            × (get_lease after.leases id ≡ none))
  unfolding queue_done write_reply is_legacy
  reply_reaches_sender new_id reply fresh h =
      elim (Admission-cases (admit v p.leases id token p.queue.messages)) [
        | inl (m, e) ↦
            let found = admit-found v p.leases id token p.queue.messages m e in
            let (accepted, told, run) =
              write-done new_id m reply
                (ap (λ a. (on_done v new_id now (some reply) p a).1) (sym e) ∙ h) in
            let ran = ap (λ a. (on_done v new_id now (some reply) p a)) e ∙ run in
            (
              m,
              found,
              accepted,
              told,
              (
                ap (λ c. find_by (λ (r : Message). r.id) id c.0.queue.messages) ran
                    ∙ reply_stored_request new_id reply m found fresh,
                (
                  reply_row v new_id now m reply,
                  ap (λ c. find_by (λ (r : Message). r.id) new_id c.0.queue.messages) ran
                      ∙ reply_stored new_id reply m found fresh,
                  refl,
                  refl,
                  refl,
                  refl,
                  refl,
                  refl,
                  refl,
                  refl,
                  refl,
                  ap (λ c. c.0.queue.sent) ran,
                ),
                ap (λ c. get_lease c.0.leases id) ran ∙ reply_released new_id reply m found fresh,
              ),
            )
        | inr (refusal, e) ↦
            absurd_outcome (ap (λ a. (on_done v new_id now (some reply) p a).1) (sym e) ∙ h)
      ]
