-- ===== src/Dispatch/Ending/Accepted.antt =====
-- What `acceptDispatchResult` of src/dispatch/completion.ts does to the tables when it accepts a
-- result, and what a success rests on.
use scrum4me_mcp.Dispatch.Ending.Stands.{StandsAgain, IsJudgedAgain, judge_again-Stands}
use scrum4me_mcp.Prelude.{
  arith, double_negation, ◌≡◌, ◌⊎◌, refl, sym, ap, ◌∙◌, subst, String, Bool, true, false, not, ◌||◌,
  Option, none, some, ◌==◌, find_by-id, nat_eq, is_text, ◌&&◌, truthy, if_cases, inl, inr,
}
use scrum4me_mcp.Dispatch.Ending.Table.{
  Request, Payload, Result, Db, request_of, result_of, is_ended, Tx, done, allowed, Ensures,
  Ensures-then,
}
use scrum4me_mcp.Dispatch.Ending.Lifecycle.{
  Locked, is_succeeded, finish_result, add_event, unresolved_publication,
}
use scrum4me_mcp.Dispatch.Ending.Locks.{lock_artifact_attempt, is_proven, is_supervisor}
use scrum4me_mcp.Dispatch.Ending.Locked.{IsLocked, lock-IsLocked}
use scrum4me_mcp.Dispatch.Ending.Judge.{
  replayed, terminal_result, accepted, Submission, Receipt, judge_again, judge, verify_code,
  publish_result,
}
use scrum4me_mcp.Dispatch.Ending.Accept.{
  replays, lock_proven, terminal, note_late, late_event, finish_last, finish_accepted,
  after_publication, after_first, accept_dispatch_result,
}
use scrum4me_mcp.Dispatch.Ending.Change.{Change, Change-refl, Change-event, IsLive}
use scrum4me_mcp.Dispatch.Ending.Settled.{Finished, finish-Finished}
use scrum4me_mcp.Dispatch.Ending.Confirmed.{
  CodeVerified, verify-CodeVerified, Published, IsPublishedIf, publish-Published,
}
use scrum4me_mcp.Dispatch.Ending.Earned.{Succeeds, Judged, judge-Judged}

pub locked-IsLive :
    (db : Db) (attempt_id : String) (x : Locked)
    → IsLocked db attempt_id x
    → is_ended x.r.state ≡ false
    → IsLive db x.r.id
unfolding IsLive
locked-IsLive db attempt_id x locked open' = (
  x.r,
  ap (request_of db) (find_by-id (λ (r : Request). r.id) x.c.request_id db.requests locked.request)
      ∙ locked.request,
  open',
)

-- What the first part of a call has checked of a result that it lets succeed.
pub record Earlier (k : Submission) (x : Locked) (db : Db) (q : Payload) : Type 0 where
  pub judged : Judged k x db q
  pub code : CodeVerified k x q q
  pub published : Published k x q q

-- The rows of an attempt, which the caller has proved to hold as its supervisor.
abbrev pub IsHeld : (String → String → Bool) → Submission → Locked → Type 0
IsHeld matches k x =
    ((k.proof.request_id == x.r.id
        && k.proof.candidate_id == x.c.id
        && nat_eq k.proof.generation x.c.generation
        && k.proof.attempt_id == x.a.id
        && k.proof.incarnation_id == x.i.id
        && k.actor.source == "bearer"
        && k.actor.user_id == x.s.owner_user_id
        && is_text k.actor.token_id x.i.supervisor_token_id
        && is_text k.actor.token_id x.s.token_id
        && matches k.proof.credential x.a.credential_hash)
      ≡ true)
    × ((k.actor.source == "bearer"
          && k.actor.user_id == x.s.owner_user_id
          && is_text k.actor.token_id x.i.supervisor_token_id
          && is_text k.actor.token_id x.s.token_id)
        ≡ true)
    × (k.refreshed ≡ none)

-- What the last transaction has checked before it judges again.
pub record IsUndecided (later : Db) (x : Locked) : Type 0 where
  pub unanswered : result_of later x.r.id ≡ none
  pub same_generation : nat_eq x.r.generation x.c.generation ≡ true
  pub resolved : unresolved_publication later x.r.id ≡ false

module _ (sha256 : Payload → String) (fresh : String → String)
    (matches : String → String → Bool) where
  -- An accepted result: the rows that were locked first and last, what was written over the tables
  -- as they were then, and what a success rests on.
  pub record Accepted (k : Submission) (db later db' : Db) (id : String) (q : Payload)
      : Type 0 where
    pub first : Locked
    pub last : Locked
    pub first_locked : IsLocked db k.proof.attempt_id first
    pub last_locked : IsLocked later k.proof.attempt_id last
    pub first_held : IsHeld matches k first
    pub last_held : IsHeld matches k last
    pub first_unanswered : result_of db first.r.id ≡ none
    pub last_open : IsUndecided later last
    pub noted : Change later (note_late sha256 fresh matches k last later)
    pub finished : Finished last q k.now (note_late sha256 fresh matches k last later) db' id sha256
    pub earned : Succeeds q → Earlier k first db q × StandsAgain k last q q

  abbrev pub IsAnswered : Submission → Db → Db → Db × Receipt → Type 0
  IsAnswered k db later (db', accepted id q) = Accepted k db later db' id q
  IsAnswered k db later (db', r) = Change db db' ⊎ Change later db'

  abbrev IsProvenLock : Submission → Db → Locked → Type 0
  IsProvenLock k db x = IsLocked db k.proof.attempt_id x × IsHeld matches k x

  lock-IsProvenLock :
      (k : Submission) (db : Db)
      → Ensures (IsProvenLock k db) (lock_proven sha256 fresh matches k db)
  unfolding lock_proven is_proven is_supervisor
  lock-IsProvenLock k db =
      Ensures-then (IsLocked db k.proof.attempt_id) (IsProvenLock k db)
        (lock_artifact_attempt db k.proof.attempt_id) _ (lock-IsLocked db k.proof.attempt_id)
        (λ x locked.
          if_cases (Ensures (IsProvenLock k db)) (not (is_proven matches k.actor k.proof x))
            (λ e. tt)
            (λ e. refreshed k.refreshed _ (λ fresh.
              if_cases (Ensures (IsProvenLock k db)) (is_supervisor k.actor x)
                (λ s. (locked, (double_negation (is_proven matches k.actor k.proof x) e, s, fresh)))
                (λ _. tt))))
    where
      refreshed :
          (o : Option String) (t : Tx Locked)
          → (o ≡ none → Ensures (IsProvenLock k db) t)
          → Ensures (IsProvenLock k db) (allowed o t)
      refreshed none t h = h refl
      refreshed (some e) t h = tt

  terminal-first :
      (k : Submission) (x : Locked) (old : Result) (db later : Db)
      → IsAnswered k db later (terminal sha256 fresh matches k x old db)
  terminal-first k x old db later =
      if_cases (IsAnswered k db later) (replays k x db) {x = (db, replayed old.id)}
        {y = (add_event (late_event sha256 fresh matches k x) db, terminal_result old.id)}
        (λ e. inl (Change-refl db))
        (λ e. inl (Change-event (late_event sha256 fresh matches k x) db (λ key. refl)))

  terminal-last :
      (k : Submission) (x : Locked) (old : Result) (db later : Db)
      → IsAnswered k db later (terminal sha256 fresh matches k x old later)
  terminal-last k x old db later =
      if_cases (IsAnswered k db later) (replays k x later) {x = (later, replayed old.id)}
        {y = (add_event (late_event sha256 fresh matches k x) later, terminal_result old.id)}
        (λ e. inr (Change-refl later))
        (λ e. inr (Change-event (late_event sha256 fresh matches k x) later (λ key. refl)))

  note_late-Change :
      (k : Submission) (x : Locked) (db : Db) → Change db (note_late sha256 fresh matches k x db)
  note_late-Change k x db =
      if_cases (Change db) (x.r.state == "CANCEL_REQUESTED")
        (λ e. Change-event (late_event sha256 fresh matches k x) db (λ key. refl))
        (λ e. Change-refl db)

  note_late-IsLive :
      (k : Submission) (x : Locked) (db : Db)
      → IsLive db x.r.id
      → IsLive (note_late sha256 fresh matches k x db) x.r.id
  unfolding IsLive
  note_late-IsLive k x db live =
      if_cases (λ d. IsLive d x.r.id) (x.r.state == "CANCEL_REQUESTED") (λ e. live) (λ e. live)

  finish_last-IsAnswered :
      (k : Submission) (first x : Locked) (p : Payload) (db later : Db)
      → IsProvenLock k db first
      → result_of db first.r.id ≡ none
      → IsProvenLock k later x
      → (Succeeds p → Earlier k first db p)
      → (o : Option Result) → result_of later x.r.id ≡ o
      → Ensures (IsAnswered k db later) (finish_last sha256 fresh matches k x p o later)
  unfolding judge_again finish_result unresolved_publication
  finish_last-IsAnswered k first x p db later (locked, held) new (last, proven) earlier (some old)
        at =
      terminal-last k x old db later
  finish_last-IsAnswered k first x p db later (locked, held) new (last, proven) earlier none at =
      if_cases (Ensures (IsAnswered k db later))
        (not (nat_eq x.r.generation x.c.generation) || unresolved_publication later x.r.id)
        (λ e. tt)
        (λ e.
          Ensures-then (IsJudgedAgain k x p) (IsAnswered k db later) (judge_again k x p) _
            (judge_again-Stands k x p)
            (λ q (open', stands).
              let noted = note_late sha256 fresh matches k x later in
              Ensures-then (λ (db', id). Finished x q k.now noted db' id sha256)
                (IsAnswered k db later)
                (finish_result sha256 fresh x q k.submitted_hash k.now noted)
                (λ (db', id). done (db', accepted id q))
                (finish-Finished sha256 fresh x q k.submitted_hash k.now noted (
                  note_late-IsLive k x later (locked-IsLive later k.proof.attempt_id x last open')))
                (λ (db', id) finished. record {
                  first = first;
                  last = x;
                  first_locked = locked;
                  last_locked = last;
                  first_held = held;
                  last_held = proven;
                  first_unanswered = new;
                  last_open = open_of x later at e;
                  noted = note_late-Change k x later;
                  finished = finished;
                  earned = λ ok. earned q ok (stands ok);
                })))
    where
      passed : (a b : Bool) → not a || b ≡ false → (a ≡ true) × (b ≡ false)
      passed a b h = ground arith

      open_of :
          (x : Locked) (later : Db)
          → result_of later x.r.id ≡ none
          → not (nat_eq x.r.generation x.c.generation) || unresolved_publication later x.r.id
            ≡ false
          → IsUndecided later x
      open_of x later at e =
          let (same, none') =
            passed (nat_eq x.r.generation x.c.generation) (unresolved_publication later x.r.id) e in
          record { unanswered = at; same_generation = same; resolved = none' }

      earned :
          (q : Payload)
          → Succeeds q
          → StandsAgain k x p q
          → Earlier k first db q × StandsAgain k x q q
      earned q ok s = (
        subst (Earlier k first db) (sym s.same)
            (earlier (ap (λ y. is_succeeded y.outcome) (sym s.same) ∙ ok)),
        record { same = refl; live = s.live; authorized = s.authorized; unrevoked = s.unrevoked },
      )

  finish_accepted-IsAnswered :
      (k : Submission) (first : Locked) (p : Payload) (db later : Db)
      → IsProvenLock k db first
      → result_of db first.r.id ≡ none
      → (Succeeds p → Earlier k first db p)
      → Ensures (IsAnswered k db later) (finish_accepted sha256 fresh matches k p later)
  unfolding finish_accepted lock_proven judge_again finish_result unresolved_publication
  finish_accepted-IsAnswered k first p db later locked new earlier =
      Ensures-then (IsProvenLock k later) (IsAnswered k db later)
        (lock_proven sha256 fresh matches k later) _ (lock-IsProvenLock k later)
        (λ x last.
          finish_last-IsAnswered k first x p db later locked new last earlier
            (result_of later x.r.id) refl)

  after_first-IsAnswered :
      (meanwhile : Db → Db) (k : Submission) (x : Locked) (db : Db)
      → IsProvenLock k db x
      → (o : Option Result) → result_of db x.r.id ≡ o
      → Ensures
          (IsAnswered k db (meanwhile db))
          (after_first sha256 fresh matches meanwhile k x o db)
  unfolding judge verify_code publish_result finish_accepted
  after_first-IsAnswered meanwhile k x db locked (some old) at =
      terminal-first k x old db (meanwhile db)
  after_first-IsAnswered meanwhile k x db locked none new =
      let P = IsAnswered k db (meanwhile db) in
      Ensures-then (λ p. Succeeds p → Judged k x db p) P (judge k x db) _ (judge-Judged k x db)
        (λ p judged.
          Ensures-then (λ q. Succeeds q → CodeVerified k x p q) P (verify_code k x p) _
            (verify-CodeVerified k x p)
            (λ q code.
              Ensures-then (IsPublishedIf k x q) P (publish_result k x q) _
                (publish-Published k x q) (λ o published. publication o p q judged code published)))
    where
      publication :
          (o : Option Payload) (p q : Payload)
          → (Succeeds p → Judged k x db p)
          → (Succeeds q → CodeVerified k x p q)
          → IsPublishedIf k x q o
          → Ensures
              (IsAnswered k db (meanwhile db))
              (after_publication sha256 fresh matches meanwhile k o db)
      publication none p q judged code published = inl (Change-refl db)
      publication (some s) p q judged code published =
          finish_accepted-IsAnswered k x s db (meanwhile db) locked new (λ ok.
            let pub' = published ok in
            let ok_q : Succeeds q = ap (λ y. is_succeeded y.outcome) (sym pub'.same) ∙ ok in
            let c = code ok_q in
            let ok_p : Succeeds p = ap (λ y. is_succeeded y.outcome) (sym c.same) ∙ ok_q in
            let whole : s ≡ p = pub'.same ∙ c.same in
            subst (Earlier k x db) (sym whole) (record {
              judged = judged ok_p;
              code = record {
                same = refl;
                verified_code = c.verified_code;
                gate_passed = c.gate_passed;
              };
              published = record {
                same = refl;
                was_confirmed =
                    λ a b. pub'.was_confirmed (ap (λ y. truthy y.artifact_id) c.same ∙ a) b;
              };
            }))

  pub accept-IsAnswered :
      (meanwhile : Db → Db) (k : Submission) (db : Db)
      → Ensures
          (IsAnswered k db (meanwhile db))
          (accept_dispatch_result sha256 fresh matches meanwhile k db)
  unfolding accept_dispatch_result lock_proven judge verify_code publish_result finish_accepted
  accept-IsAnswered meanwhile k db =
      Ensures-then (IsProvenLock k db) (IsAnswered k db (meanwhile db))
        (lock_proven sha256 fresh matches k db) _ (lock-IsProvenLock k db)
        (λ x locked. after_first-IsAnswered meanwhile k x db locked (result_of db x.r.id) refl)
