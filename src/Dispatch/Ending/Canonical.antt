-- ===== src/Dispatch/Ending/Canonical.antt =====
-- Sequences of calls that end requests: `cancelDispatch`, `acceptDispatchResult` and the end of a
-- stopped cancellation (src/dispatch/cancel.ts, src/dispatch/completion.ts, src/dispatch/lifecycle.ts).
use scrum4me_mcp.Prelude.{
  ℕ, ◌≡◌, ◌⊎◌, refl, ap, arith, String, Bool, true, false, not, ◌||◌, ◌==◌, eq_iff, is_null,
  if_cases, inl, inr, if◌then◌else◌,
}
use scrum4me_mcp.Dispatch.Ending.Table.{
  Payload, Db, result_of, is_ended, Tx, thrown, done, ◌then◌, Ensures, Ensures-then,
}
use scrum4me_mcp.Dispatch.Ending.Lifecycle.{
  finish_result, finish_stopped_cancellation, stopped_payload, unresolved_publication,
}
use scrum4me_mcp.Dispatch.Ending.Locks.{lock_artifact_attempt}
use scrum4me_mcp.Dispatch.Ending.Locked.{IsLocked, lock-IsLocked}
use scrum4me_mcp.Dispatch.Ending.Cancel.{Cancellation, cancel_dispatch}
use scrum4me_mcp.Dispatch.Ending.Judge.{
  replayed, terminal_result, publication_unknown, accepted, Submission, Receipt,
}
use scrum4me_mcp.Dispatch.Ending.Accept.{accept_dispatch_result}
use scrum4me_mcp.Dispatch.Ending.Change.{
  Final, Final-trans, Final-same, Change, Change-refl, IsKeyed,
}
use scrum4me_mcp.Dispatch.Ending.Settled.{Finished, finish-Finished}
use scrum4me_mcp.Dispatch.Ending.Again.{cancel-CancelDone}
use scrum4me_mcp.Dispatch.Ending.Accepted.{IsAnswered, accept-IsAnswered, locked-IsLive}

-- Calls one after the other. During an acceptance other calls may run, after its first transaction.
pub data Calls : Type 0 where
  finished : Calls
  cancel : Cancellation → String → Calls → Calls
  accept : Calls → Submission → Calls → Calls
  stopped : String → ℕ → Calls → Calls

abbrev pub commit : Db → Tx Db → Db
commit db (thrown e) = db
commit db (done db') = db'

abbrev pub commit_answer : Db → Tx (Db × Receipt) → Db
commit_answer db (thrown e) = db
commit_answer db (done (db', r)) = db'

-- What `sha256`, `fresh`, `shows`, `is_action_id` and `matches` are is said where they are used.
module _ (sha256 : Payload → String) (fresh : String → String) (shows : ℕ → String)
    (is_action_id : String → Bool) (matches : String → String → Bool) where
  -- The end of `submitStop`: a cancelled request whose attempt has stopped is finished.
  unfoldable pub finish_stopped : String → ℕ → Db → Tx Db
  unfolding lock_artifact_attempt finish_stopped_cancellation
  finish_stopped attempt_id now db = lock_artifact_attempt db attempt_id then λ x.
      finish_stopped_cancellation sha256 fresh x now db

  unfoldable pub run : Calls → Db → Db
  unfolding cancel_dispatch accept_dispatch_result finish_stopped
  run finished db = db
  run (cancel k id calls) db =
      run calls (commit db (cancel_dispatch sha256 fresh shows is_action_id k id db))
  run (accept during k calls) db = run calls (
      commit_answer (run during db)
        (accept_dispatch_result sha256 fresh matches (λ d. run during d) k db))
  run (stopped attempt_id now calls) db = run calls (commit db (finish_stopped attempt_id now db))

  stopped-Change :
      (attempt_id : String) (now : ℕ) (db : Db)
      → Ensures (Change db) (finish_stopped attempt_id now db)
  unfolding finish_stopped finish_stopped_cancellation finish_result unresolved_publication
  stopped-Change attempt_id now db =
      Ensures-then (IsLocked db attempt_id) (Change db) (lock_artifact_attempt db attempt_id) _
        (lock-IsLocked db attempt_id)
        (λ x locked.
          if_cases (Ensures (Change db))
            (not (x.r.state == "CANCEL_REQUESTED") || unresolved_publication db x.r.id)
            (λ e. Change-refl db)
            (λ e.
              if_cases (Ensures (Change db)) (not (is_null (result_of db x.r.id)))
                (λ r. Change-refl db)
                (λ r.
                  Ensures-then (λ (db', id). Finished x stopped_payload now db db' id sha256)
                    (Change db)
                    (finish_result sha256 fresh x stopped_payload (sha256 stopped_payload) now db)
                    (λ (db', id). done db')
                    (finish-Finished sha256 fresh x stopped_payload (sha256 stopped_payload) now db
                      (locked-IsLive db attempt_id x locked (cancelling x.r.state _ e)))
                    (λ (db', id) f. f.change))))
    where
      cancelling :
          (s : String) (b : Bool) → not (s == "CANCEL_REQUESTED") || b ≡ false → is_ended s ≡ false
      cancelling s b h =
          ap is_ended ((eq_iff s "CANCEL_REQUESTED").0 (first (s == "CANCEL_REQUESTED") b h))
        where
          first : (a b : Bool) → not a || b ≡ false → a ≡ true
          first a b h = ground arith

  -- The tables are as final as before and have unique ids.
  abbrev IsOnwards : Db → Db → Type 0
  IsOnwards db db' = Final db db' × IsKeyed db'

  committed :
      (db : Db) (t : Tx Db) → IsKeyed db → Ensures (Change db) t → IsOnwards db (commit db t)
  committed db (thrown e) keys c = (Final-same db db refl refl, keys)
  committed db (done db') keys c = (c.final, c.keyed keys)

  by_side :
      (db later db' : Db)
      → IsKeyed db
      → IsOnwards db later
      → Change db db' ⊎ Change later db'
      → IsOnwards db db'
  by_side db later db' keys (f, l) (inl c) = (c.final, c.keyed keys)
  by_side db later db' keys (f, l) (inr c) = (Final-trans db later db' f c.final, c.keyed l)

  answer-IsOnwards :
      (k : Submission) (db later : Db) (t : Tx (Db × Receipt))
      → IsKeyed db
      → IsOnwards db later
      → Ensures (IsAnswered sha256 fresh matches k db later) t
      → IsOnwards db (commit_answer later t)
  answer-IsOnwards k db later (thrown e) keys m a = m
  answer-IsOnwards k db later (done (db', replayed id)) keys m a = by_side db later db' keys m a
  answer-IsOnwards k db later (done (db', terminal_result id)) keys m a =
      by_side db later db' keys m a
  answer-IsOnwards k db later (done (db', publication_unknown)) keys m a =
      by_side db later db' keys m a
  answer-IsOnwards k db later (done (db', accepted id q)) keys (f, l) a = (
    Final-trans db later db' f (Final-trans later _ db' a.noted.final a.finished.change.final),
    a.finished.change.keyed (a.noted.keyed l),
  )

  cancelled-IsOnwards :
      (k : Cancellation) (id : String) (db : Db) (t : Tx Db)
      → cancel_dispatch sha256 fresh shows is_action_id k id db ≡ t
      → IsKeyed db
      → IsOnwards db (commit db t)
  cancelled-IsOnwards k id db (thrown e) h keys = (Final-same db db refl refl, keys)
  cancelled-IsOnwards k id db (done db') h keys =
      let c = cancel-CancelDone sha256 fresh shows is_action_id k id db keys h in (c.final, c.keyed)

  then_run :
      (calls : Calls) (db db' : Db)
      → IsOnwards db db'
      → IsOnwards db' (run calls db')
      → IsOnwards db (run calls db')
  then_run calls db db' (f, l) (g, m) = (Final-trans db db' (run calls db') f g, m)

  run-IsOnwards : (calls : Calls) (db : Db) → IsKeyed db → IsOnwards db (run calls db)
  unfolding run
  run-IsOnwards finished db keys = (Final-same db db refl refl, keys)
  run-IsOnwards (cancel k id calls) db keys =
      let t = cancel_dispatch sha256 fresh shows is_action_id k id db in
      let c = cancelled-IsOnwards k id db t refl keys in
      then_run calls db (commit db t) c (run-IsOnwards calls (commit db t) c.1)
  run-IsOnwards (accept during k calls) db keys =
      let t = accept_dispatch_result sha256 fresh matches (λ d. run during d) k db in
      let c =
        answer-IsOnwards k db (run during db) t keys (run-IsOnwards during db keys)
          (accept-IsAnswered sha256 fresh matches (λ d. run during d) k db) in
      then_run calls db (commit_answer (run during db) t) c
        (run-IsOnwards calls (commit_answer (run during db) t) c.1)
  run-IsOnwards (stopped attempt_id now calls) db keys =
      let t = finish_stopped attempt_id now db in
      let c = committed db t keys (stopped-Change attempt_id now db) in
      then_run calls db (commit db t) c (run-IsOnwards calls (commit db t) c.1)

  -- Whatever calls to cancel, to accept results and to finish stopped attempts follow one another,
  -- also during an acceptance, a request that has ended keeps its row, the canonical result of a
  -- request is never replaced and every request stays its user's, where attempts and candidates have
  -- unique ids.
  pub ended_requests_stay : (calls : Calls) (db : Db) → IsKeyed db → Final db (run calls db)
  ended_requests_stay calls db keys = (run-IsOnwards calls db keys).0
