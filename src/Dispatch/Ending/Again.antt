-- ===== src/Dispatch/Ending/Again.antt =====
-- A repeated `cancelDispatch` of src/dispatch/cancel.ts, and what the call leaves as it was.
use scrum4me_mcp.Prelude.{
  ℕ, ◌≡◌, refl, ap, ◌∙◌, subst, inl, inr, arith, String, Bool, true, false, not, ◌&&◌, Option, none,
  some, List, [], ◌∷◌, ◌++◌, ◌==◌, eq_refl, find?, find_by-id, Bool-cases, Option-cases, if_cases,
  if◌then◌else◌,
}
use scrum4me_mcp.Dispatch.Ending.Table.{
  Request, Candidate, Attempt, Payload, cancel_action, Event, Db, request_of, is_ended, Tx, thrown,
  done, ◌then◌, allowed, Ensures, Ensures-then, Ensures-any,
}
use scrum4me_mcp.Dispatch.Ending.Tasks.{lock_managed_task_hierarchy}
use scrum4me_mcp.Dispatch.Ending.Retry.{assert_retry_authorization}
use scrum4me_mcp.Dispatch.Ending.Lifecycle.{
  transition, unresolved_publication, insert_result, finish_result,
}
use scrum4me_mcp.Dispatch.Ending.Locks.{lock_artifact_attempt, lock_task}
use scrum4me_mcp.Dispatch.Ending.Cancel.{
  Cancellation, is_action_of, has_hash, is_current, current_attempt, cancel_by_attempt, event_of,
  cancel_current, cancel_fresh, cancel_previous, cancel_authorized, cancel_found, cancel_dispatch,
}
use scrum4me_mcp.Dispatch.Ending.Change.{
  Final, Final-same, Final-trans, Change, Change-refl, IsKeyed, IsLive, action_of,
}
use scrum4me_mcp.Dispatch.Ending.Cancelled.{cancel_attempt-Change, cancel_unstarted-Change}

-- What a cancel leaves: ended requests and results, unique ids, and the action with its hash.
pub record CancelDone (k : Cancellation) (id : String) (db db' : Db) : Type 0 where
  pub final : Final db db'
  pub keyed : IsKeyed db'
  pub noted : (e : Event) × (action_of db' id k.key ≡ some e) × (has_hash k.hash e.type ≡ true)

find?-append_last :
    (p : Event → Bool) (es : List Event) (e : Event)
    → find? p es ≡ none
    → p e ≡ true
    → find? p (es ++ e ∷ []) ≡ some e
find?-append_last p [] e h q = ground arith
find?-append_last p (x ∷ es) e h q = ground (arith, find?-append_last p es e)

absurd_thrown : {A B : Type 0} {e : String} {a : A} → thrown e ≡ done a → B
absurd_thrown h = cc

done_injective : {A : Type 0} {a b : A} → done a ≡ done b → a ≡ b
done_injective h = cc

pub of_done : {A : Type 0} (P : A → Type 0) (t : Tx A) {a : A} → Ensures P t → t ≡ done a → P a
of_done P (thrown e) p h = absurd_thrown h
of_done P (done b) p h = subst P (done_injective h) p

-- The authorization as a guard: a call that is let through is let through again.
abbrev guarded : Cancellation → String → Tx Db → Tx Db
guarded k user_id t = allowed k.cancel_authorization (
    if k.actor.user_id == user_id
    then t
    else if k.actor.source == "web"
    then thrown "DISPATCH_FORBIDDEN"
    else allowed k.recover_authorization t)

opened :
    (k : Cancellation) (user_id : String) (t : Tx Db) {db : Db}
    → guarded k user_id t ≡ done db
    → (t ≡ done db) × ((s : Tx Db) → guarded k user_id s ≡ s)
opened k user_id t h = elim (Option-cases k.cancel_authorization) [
  | inr (e, refused) ↦ absurd_thrown (rw refused at h)
  | inl granted ↦ elim (Bool-cases (k.actor.user_id == user_id)) [
    | inl own ↦ (rw (granted, own) at h, λ s. rw (granted, own) refl)
    | inr other ↦ elim (Bool-cases (k.actor.source == "web")) [
      | inl web ↦ absurd_thrown (rw (granted, other, web) at h)
      | inr bearer ↦ elim (Option-cases k.recover_authorization) [
        | inr (e, refused) ↦ absurd_thrown (rw (granted, other, bearer, refused) at h)
        | inl also ↦
            (rw (granted, other, bearer, also) at h, λ s. rw (granted, other, bearer, also) refl)
      ]
    ]
  ]
]

module _ (sha256 : Payload → String) (fresh : String → String) (shows : ℕ → String)
    (is_action_id : String → Bool) where
  cancel_current-Change :
      (r : Request) (now : ℕ) (db : Db)
      → IsKeyed db
      → request_of db r.id ≡ some r
      → is_ended r.state ≡ false
      → Ensures (Change db) (
          cancel_current sha256 fresh shows is_action_id r
            (find? (is_current r) db.candidates)
            now
            db)
  unfolding lock_artifact_attempt insert_result finish_result transition assert_retry_authorization
      IsLive
  cancel_current-Change r now db keys at open' = on (find? (is_current r) db.candidates) refl
    where
      by_attempt :
          (c : Candidate)
          → find? (is_current r) db.candidates ≡ some c
          → (o : Option Attempt) → current_attempt db c ≡ o
          → Ensures (Change db) (cancel_by_attempt sha256 fresh shows is_action_id r c o now db)
      by_attempt c of none has =
          cancel_unstarted-Change sha256 fresh shows is_action_id r (some c) now db (r, at, open')
      by_attempt c of (some a) has =
          cancel_attempt-Change sha256 fresh shows is_action_id r c a now db keys (r, at, open') at
            of has

      on :
          (o : Option Candidate)
          → find? (is_current r) db.candidates ≡ o
          → Ensures (Change db) (cancel_current sha256 fresh shows is_action_id r o now db)
      on none of =
          cancel_unstarted-Change sha256 fresh shows is_action_id r none now db (r, at, open')
      on (some c) of = by_attempt c of (current_attempt db c) refl

  fresh-CancelDone :
      (k : Cancellation) (r : Request) (db : Db)
      → IsKeyed db
      → request_of db r.id ≡ some r
      → action_of db r.id k.key ≡ none
      → Ensures (CancelDone k r.id db) (cancel_fresh sha256 fresh shows is_action_id k r db)
  unfolding cancel_fresh lock_managed_task_hierarchy lock_artifact_attempt insert_result
      finish_result transition unresolved_publication assert_retry_authorization IsKeyed
  fresh-CancelDone k r db keys at first =
      if_cases (Ensures (CancelDone k r.id db)) (not (shows r.version == k.expected_version))
        (λ e. tt)
        (λ e.
          Ensures-then (λ _. Unit) (CancelDone k r.id db) (lock_task r db) _
            (Ensures-any (lock_task r db))
            (λ _ _.
              Ensures-then (Change db) (CancelDone k r.id db)
                (if is_ended r.state
                  then done db
                  else cancel_current sha256 fresh shows is_action_id r
                      (find? (is_current r) db.candidates) k.now db)
                _
                (if_cases (Ensures (Change db)) (is_ended r.state) (λ e. Change-refl db)
                  (λ open'. cancel_current-Change r k.now db keys at open'))
                (λ db' change. record {
                  final = Final-trans db db' _ change.final (Final-same db' _ refl refl);
                  keyed = change.keyed keys;
                  noted = (
                    _,
                    find?-append_last (λ e. e.request_id == r.id && is_action_of k.key e.type)
                        db'.events
                        (event_of sha256 fresh shows is_action_id "cancel_action" r.id none
                          (cancel_action k.key k.hash))
                        (change.quiet r.id k.key first) (rw (eq_refl r.id) (eq_refl k.key)),
                    eq_refl k.hash,
                  );
                })))

  authorized-CancelDone :
      (k : Cancellation) (r : Request) (db : Db)
      → IsKeyed db
      → request_of db r.id ≡ some r
      → Ensures (CancelDone k r.id db) (cancel_authorized sha256 fresh shows is_action_id k r db)
  unfolding cancel_fresh
  authorized-CancelDone k r db keys at = on (action_of db r.id k.key) refl
    where
      on :
          (o : Option Event)
          → action_of db r.id k.key ≡ o
          → Ensures
              (CancelDone k r.id db)
              (cancel_previous sha256 fresh shows is_action_id k r o db)
      on none first = fresh-CancelDone k r db keys at first
      on (some e) noted =
          if_cases (Ensures (CancelDone k r.id db)) (has_hash k.hash e.type)
            (λ same. record {
              final = Final-same db db refl refl;
              keyed = keys;
              noted = (e, noted, same);
            })
            (λ other. tt)

  -- A call that was let through: what it did, and that it is let through again.
  record Opened (k : Cancellation) (id : String) (db db' : Db) : Type 0 where
    valid : is_action_id k.action_id ≡ true
    request : Request
    read : request_of db id ≡ some request
    did : cancel_authorized sha256 fresh shows is_action_id k request db ≡ done db'
    again : (s : Tx Db) → guarded k request.user_id s ≡ s

  dispatch-Opened :
      (k : Cancellation) (id : String) (db : Db) {db' : Db}
      → cancel_dispatch sha256 fresh shows is_action_id k id db ≡ done db'
      → Opened k id db db'
  unfolding cancel_dispatch
  dispatch-Opened k id db {db'} h = elim (Bool-cases (is_action_id k.action_id)) [
    | inr bad ↦ absurd_thrown (rw bad at h)
    | inl valid ↦ on valid (request_of db id) refl (rw valid at h)
  ]
    where
      on :
          is_action_id k.action_id ≡ true
          → (o : Option Request) → request_of db id ≡ o
          → cancel_found sha256 fresh shows is_action_id k o db ≡ done db'
          → Opened k id db db'
      on valid none e g = absurd_thrown g
      on valid (some r) e g =
          let (did, again) =
            opened k r.user_id (cancel_authorized sha256 fresh shows is_action_id k r db) g in
          record { valid = valid; request = r; read = e; did = did; again = again }

  Opened-CancelDone :
      (k : Cancellation) (id : String) (db db' : Db)
      → IsKeyed db
      → Opened k id db db'
      → CancelDone k id db db'
  Opened-CancelDone k id db db' keys o =
      let same : o.request.id ≡ id = find_by-id (λ (r : Request). r.id) id db.requests o.read in
      subst (λ i. CancelDone k i db db') same
        (of_done (CancelDone k o.request.id db)
          (cancel_authorized sha256 fresh shows is_action_id k o.request db)
          (authorized-CancelDone k o.request db keys (ap (request_of db) same ∙ o.read)) o.did)

  pub cancel-CancelDone :
      (k : Cancellation) (id : String) (db : Db) {db' : Db}
      → IsKeyed db
      → cancel_dispatch sha256 fresh shows is_action_id k id db ≡ done db'
      → CancelDone k id db db'
  cancel-CancelDone k id db {db'} keys h =
      Opened-CancelDone k id db db' keys (dispatch-Opened k id db h)

  -- A cancel that is called again with the same action and the same expected version succeeds
  -- again and changes nothing, whatever it did the first time.
  pub cancel_again :
      (k : Cancellation) (id : String) (db : Db) {db' : Db}
      → IsKeyed db
      → cancel_dispatch sha256 fresh shows is_action_id k id db ≡ done db'
      → cancel_dispatch sha256 fresh shows is_action_id k id db' ≡ done db'
  unfolding cancel_dispatch
  cancel_again k id db {db'} keys h =
      let o = dispatch-Opened k id db h in
      let d = Opened-CancelDone k id db db' keys o in
      let (s, at, same_user) = d.final.owner id o.read in
      let (e, noted, same_hash) = d.noted in
      let same_id : s.id ≡ id = find_by-id (λ (r : Request). r.id) id db'.requests at in
      let found' : action_of db' s.id k.key ≡ some e =
        ap (λ i. action_of db' i k.key) same_id ∙ noted in
      rw (o.valid, at, same_user)
        (o.again (cancel_authorized sha256 fresh shows is_action_id k s db')
          ∙ ap (λ q. cancel_previous sha256 fresh shows is_action_id k s q db') found'
          ∙ rw same_hash refl)
