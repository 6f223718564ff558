-- ===== src/Queue/Finish/Owner.antt =====
-- src/tools/queue-done.ts, src/tools/queue-fail.ts and src/queue/ownership.ts: who may finish a
-- message.
use scrum4me_mcp.Prelude.{
  ℕ, ◌≡◌, refl, ap, ◌∙◌, ◌⊎◌, inl, inr, String, true, false, Option, none, some, List, ◌==◌, arith,
  find_by, includes, is_text, eq_iff, Option-cases, Bool-cases,
}
use scrum4me_mcp.Queue.Message.{Message, Vocabulary, is_legacy}
use scrum4me_mcp.Queue.Ownership.{
  Lease, QueueError, OwnershipVerdict, get_lease, verify_local_ownership,
}
use scrum4me_mcp.Queue.Finish.{
  Process, Outcome, Admission, admit, admit_owner, write_reply, write_done, queue_done, queue_fail,
}

pub Admission-cases :
    (a : Admission)
    → ((m : Message) × (a ≡ Admission.admitted m)) ⊎ ((e : QueueError) × (a ≡ Admission.rejected e))
Admission-cases (Admission.admitted m) = inl (m, refl)
Admission-cases (Admission.rejected e) = inr (e, refl)

-- The caller may finish the row: it is waiting and the caller claims nothing, or the register of
-- this process holds a lease for it, the caller shows the lease's token, and the row is still
-- claimed under the lease's `claimed_by`.
pub IsOwned : List Lease → String → Option String → Message → Type 0
IsOwned leases id token m =
    ((m.status ≡ "pending") × (token ≡ none))
    ⊎ ((l : Lease) × (get_lease leases id ≡ some l)
        × (token ≡ some l.claim_token)
        × (m.claimed_by ≡ some l.claimed_by))

is_text_eq : (o : Option String) (s : String) → is_text o s ≡ true → o ≡ some s
is_text_eq none s h = cc
is_text_eq (some t) s h = ap some ((eq_iff t s).0 h)

module _ (leases : List Lease) (id : String) (token : Option String) (m : Message) where
  pending_owned :
      (t : Option String)
      → (m.status == "pending") ≡ true
      → verify_local_ownership leases id m.status t ≡ OwnershipVerdict.ok none
      → t ≡ none
  unfolding verify_local_ownership
  pending_owned none e h = refl
  pending_owned (some t) e h = ground arith

  verdict_owned :
      (o : Option String)
      → verify_local_ownership leases id m.status token ≡ OwnershipVerdict.ok o
      → ((m.status ≡ "pending") × (token ≡ none) × (o ≡ none))
        ⊎ ((l : Lease) × (get_lease leases id ≡ some l)
            × (token ≡ some l.claim_token)
            × (o ≡ some l.claimed_by))
  unfolding verify_local_ownership
  verdict_owned o h = elim (Bool-cases (m.status == "pending")) [
    | inl e ↦ inl ((eq_iff m.status "pending").0 e, ground arith, ground arith)
    | inr e ↦ elim (Option-cases (get_lease leases id)) [
      | inl k ↦ ground arith
      | inr (l, k) ↦ inr (l, k, is_text_eq token l.claim_token (ground arith), ground arith)
    ]
  ]

  verdict_admits :
      (d : OwnershipVerdict)
      → verify_local_ownership leases id m.status token ≡ d
      → admit_owner id m d ≡ Admission.admitted m
      → IsOwned leases id token m
  unfolding IsOwned
  verdict_admits (OwnershipVerdict.refused e) k h = cc
  verdict_admits (OwnershipVerdict.ok none) k h = elim (verdict_owned none k) [
    | inl (a, b, c) ↦ inl (a, b)
    | inr (l, a, b, c) ↦ cc
  ]
  verdict_admits (OwnershipVerdict.ok (some x)) k h = elim (verdict_owned (some x) k) [
    | inl (a, b, c) ↦ cc
    | inr (l, a, b, c) ↦ inr (l, a, b, is_text_eq m.claimed_by x (ground arith) ∙ c)
  ]

module _ (v : Vocabulary) (leases : List Lease) (id : String) (token : Option String)
    (rows : List Message) (m : Message)
    (h : admit v leases id token rows ≡ Admission.admitted m) where
  pub admit-found : find_by (λ r. r.id) id rows ≡ some m
  unfolding admit
  admit-found = elim (Option-cases (find_by (λ (r : Message). r.id) id rows)) [
    | inl e ↦ ground arith
    | inr (r, e) ↦ ground arith
  ]

  pub admit-facts :
      (is_legacy m ≡ true)
      × (includes v.terminal_statuses m.status ≡ false)
      × (admit_owner id m (verify_local_ownership leases id m.status token) ≡ Admission.admitted m)
  unfolding admit
  admit-facts = elim (Option-cases (find_by (λ (r : Message). r.id) id rows)) [
    | inl e ↦ ground arith
    | inr (r, e) ↦ ground arith
  ]

  pub admit-IsOwned : IsOwned leases id token m
  admit-IsOwned =
      verdict_admits leases id token m (verify_local_ownership leases id m.status token) refl
        admit-facts.2

module _ (v : Vocabulary) (now : ℕ) (id : String) (token : Option String) (p : Process) where
  pub write-accepted :
      (new_id : String) (m : Message) (reply : String)
      → includes v.request_types m.type ≡ true
      → (write_done v new_id now m (some reply) p).0 ≡ write_reply v new_id now m reply p
  unfolding write_done
  write-accepted new_id m reply accepted = ground arith

  pub write-refused :
      (new_id : String) (m : Message) (reply : String)
      → includes v.request_types m.type ≡ false
      → (write_done v new_id now m (some reply) p).0 ≡ p
  unfolding write_done
  write-refused new_id m reply refused = ground arith

module _ (v : Vocabulary) (now : ℕ) (id : String) (token : Option String) (p : Process) where
  -- A message that `queue_done` or `queue_fail` finished was stored, without a marker and not
  -- terminal, and the caller owned it: it was pending and the caller showed no token, or this
  -- process holds a lease for it whose token the caller showed and whose `claimed_by` is stored.
  pub finish_needs_owner :
      (new_id error : String) (reply : Option String) {answer : Option String}
      → ((queue_done v new_id now id reply token p).1 ≡ Outcome.done answer)
        ⊎ ((queue_fail v now id error token p).1 ≡ Outcome.done answer)
      → (m : Message) × (find_by (λ r. r.id) id p.queue.messages ≡ some m)
        × (is_legacy m ≡ true)
        × (includes v.terminal_statuses m.status ≡ false)
        × IsOwned p.leases id token m
  unfolding queue_done queue_fail
  finish_needs_owner new_id error reply h =
      elim (Admission-cases (admit v p.leases id token p.queue.messages)) [
        | inl (m, e) ↦
            let facts = admit-facts v p.leases id token p.queue.messages m e in
            (
              m,
              admit-found v p.leases id token p.queue.messages m e,
              facts.0,
              facts.1,
              admit-IsOwned v p.leases id token p.queue.messages m e,
            )
        | inr (refusal, e) ↦ ground arith
      ]
