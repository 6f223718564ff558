-- ===== src/Dispatch/Ending/Finish.antt =====
-- The stages of `finishResult` of src/dispatch/lifecycle.ts as changes of the tables.
use mathlib.Core.Option
use scrum4me_mcp.Prelude.{
  List, if_cases, ◌≡◌, refl, sym, ap, ◌∙◌, inl, inr, String, Option, none, some, [], ◌∷◌, ◌==◌,
  eq_iff, eq_refl, find_by, find_by-append, find_by-append_none, find_by-update_by,
  find_by-update_by_self, update_by, Bool-cases, absurd_bool, absurd_option, some_injective,
  if◌then◌else◌,
}
use scrum4me_mcp.Dispatch.Ending.Table.{
  Request, Attempt, Candidate, Reservation, Publication, Binding, Payload, Result, Db, request_of,
  result_of, is_ended, ◌then◌, Ensures,
}
use scrum4me_mcp.Dispatch.Ending.Lifecycle.{
  moved, move_found, transition, insert_found, result_row, insert_result,
}
use scrum4me_mcp.Dispatch.Ending.Change.{Final, Change, Change-refl, IsKeyed, IsLive}

-- The tables that an end writes, but requests, results, jobs, events and bindings.
abbrev pub rows : Db → List Attempt × List Candidate × List Reservation × List Publication
rows db = (db.attempts, db.candidates, db.reservations, db.publications)

abbrev pub rest :
    Db → (List Attempt × List Candidate × List Reservation × List Publication) × List Binding
rest db = (rows db, db.bindings)

-- Another request's row stays, and the row itself keeps its user.
moved-Final :
    (id state : String) (result_id : Option String) (db db' : Db)
    → IsLive db id
    → db'.requests ≡ update_by (λ r. r.id) id (moved state result_id) db.requests
    → db'.results ≡ db.results
    → Final db db'
unfolding IsLive
moved-Final id state result_id db db' (q, at, live) requests results =
    let read : (j : String)
        → request_of db' j ≡ (
            if id == j
            then Option.map (moved state result_id) (request_of db j)
            else request_of db j) =
      λ j.
        ap (find_by (λ r. r.id) j) requests
        ∙ find_by-update_by (λ r. r.id) (moved state result_id) (λ r. refl) id j db.requests in
    record {
      ended = λ j {r} h e. elim (Bool-cases (id == j)) [
        | inl same ↦ absurd_bool live (
            ap (λ x. is_ended x.state)
              (some_injective (sym at ∙ ap (request_of db) ((eq_iff id j).0 same) ∙ h))
            ∙ e)
        | inr other ↦ read j ∙ rw (other, h) refl
      ];
      results = λ j h. ap (find_by (λ x. x.request_id) j) results ∙ h;
      owner = λ j {r} h. elim (Bool-cases (id == j)) [
        | inl same ↦ (moved state result_id r, read j ∙ rw (same, h) refl, refl)
        | inr other ↦ (r, read j ∙ rw (other, h) refl, refl)
      ];
    }

-- A transition leaves what a change leaves, and the row in the new state.
pub record Moved (id state : String) (result_id : Option String) (db db' : Db) : Type 0 where
  pub change : Change db db'
  pub row :
      (r : Request) × (request_of db id ≡ some r)
      × (request_of db' id ≡ some (moved state result_id r))
  pub same_results : db'.results ≡ db.results
  pub same_rest : rest db' ≡ rest db

pub transition-Moved :
    (id state : String) (result_id : Option String) (db : Db)
    → IsLive db id
    → Ensures (Moved id state result_id db) (transition id state result_id db)
unfolding transition IsLive IsKeyed
transition-Moved id state result_id db live = on (request_of db id) refl
  where
    on :
        (o : Option Request)
        → request_of db id ≡ o
        → Ensures (Moved id state result_id db) (move_found id state result_id o db)
    on none h = tt
    on (some r) h = record {
      change = record {
        final = moved-Final id state result_id db _ live refl refl;
        keyed = λ k. k;
        quiet = λ j key q. q;
      };
      row = (
        r,
        h,
        find_by-update_by_self (λ r. r.id) (moved state result_id) (λ r. refl) id db.requests h,
      );
      same_results = refl;
      same_rest = refl;
    }

-- The result of a request is written once.
pub record Inserted (id : String) (payload : Payload) (sha256 : Payload → String) (db db' : Db)
    (result_id : String) : Type 0 where
  pub change : Change db db'
  pub same_requests : db'.requests ≡ db.requests
  pub same_rest : rest db' ≡ rest db
  pub stored :
      (x : Result) × (result_of db' id ≡ some x)
      × (x.id ≡ result_id)
      × (x.sha256 ≡ sha256 payload)
      × (result_of db id ≡ none → x.payload ≡ payload)

module _ (sha256 : Payload → String) (fresh : String → String) where
  pub insert-Inserted :
      (id : String) (attempt_id : Option String) (payload : Payload) (db : Db)
      → Ensures
          (λ (db', result_id). Inserted id payload sha256 db db' result_id)
          (insert_result sha256 fresh id attempt_id payload db)
  unfolding insert_result IsKeyed
  insert-Inserted id attempt_id payload db = on (result_of db id) refl
    where
      on :
          (o : Option Result)
          → result_of db id ≡ o
          → Ensures
              (λ (db', result_id). Inserted id payload sha256 db db' result_id)
              (insert_found sha256 fresh id attempt_id payload o db)
      on none h = record {
        change = record {
          final = record {
            ended = λ j q e. q;
            results = λ j q. find_by-append (λ x. x.request_id) j db.results _ q;
            owner = λ j {r} q. (r, q, refl);
          };
          keyed = λ k. k;
          quiet = λ j key q. q;
        };
        same_requests = refl;
        same_rest = refl;
        stored = (
          result_row sha256 fresh id attempt_id payload,
          find_by-append_none (λ x. x.request_id) id db.results
                (result_row sha256 fresh id attempt_id payload ∷ []) h
              ∙ rw (eq_refl id) refl,
          refl,
          refl,
          λ new. refl,
        );
      }
      on (some old) h =
          if_cases (Ensures (λ (db', result_id). Inserted id payload sha256 db db' result_id))
            (old.sha256 == sha256 payload)
            (λ same. record {
              change = Change-refl db;
              same_requests = refl;
              same_rest = refl;
              stored = (
                old,
                h,
                refl,
                (eq_iff old.sha256 (sha256 payload)).0 same,
                λ new. absurd_option (sym new ∙ h),
              );
            })
            (λ other. tt)
