-- ===== src/Dispatch/Ending/Aside.antt =====
-- The writes that leave requests, results and events alone (src/dispatch/lifecycle.ts).
use scrum4me_mcp.Prelude.{
  if_cases, ℕ, ◌≡◌, refl, sym, ◌∙◌, subst, arith, String, Option, none, some, ◌==◌, update_by-map,
  updated, HasKeys, map-HasKeys,
}
use scrum4me_mcp.Dispatch.Ending.Table.{Candidate, Db}
use scrum4me_mcp.Dispatch.Ending.Lifecycle.{
  end_job, revoked_as, set_candidate, end_attempt, release_reservations,
}
use scrum4me_mcp.Dispatch.Ending.Change.{Change, Change-same, IsKeyed}

-- What leaves requests, results, events and keys alone.
pub record Aside (db db' : Db) : Type 0 where
  pub same_requests : db'.requests ≡ db.requests
  pub same_results : db'.results ≡ db.results
  pub same_events : db'.events ≡ db.events
  pub keyed : IsKeyed db → IsKeyed db'

pub Aside-Change : (db db' : Db) → Aside db db' → Change db db'
Aside-Change db db' a = Change-same db db' a.same_requests a.same_results a.same_events a.keyed

pub Aside-refl : (db : Db) → Aside db db
Aside-refl db = record {
  same_requests = refl;
  same_results = refl;
  same_events = refl;
  keyed = λ k. k;
}

pub Aside-trans : (a b c : Db) → Aside a b → Aside b c → Aside a c
Aside-trans a b c f g = record {
  same_requests = g.same_requests ∙ f.same_requests;
  same_results = g.same_results ∙ f.same_results;
  same_events = g.same_events ∙ f.same_events;
  keyed = λ k. g.keyed (f.keyed k);
}

pub end_job-Aside :
    (id : Option String) (status : String) (now : ℕ) (db : Db) → Aside db (end_job id status now db)
unfolding IsKeyed
end_job-Aside none status now db = Aside-refl db
end_job-Aside (some id) status now db =
    if_cases (Aside db) (id == "") (λ e. Aside-refl db)
      (λ e. record {
        same_requests = refl;
        same_results = refl;
        same_events = refl;
        keyed = λ k. k;
      })

pub end_attempt-Aside :
    (id state : String) (now : ℕ) (db : Db) → Aside db (end_attempt id state now db)
unfolding IsKeyed
end_attempt-Aside id state now db = record {
  same_requests = refl;
  same_results = refl;
  same_events = refl;
  keyed = λ (a, c). (
    subst (HasKeys (λ a. a.id))
        (sym (update_by-map (λ a. a.id) id (revoked_as state now) db.attempts))
        (map-HasKeys (λ a. a.id) (updated (λ a. a.id) id (revoked_as state now)) (λ a. ground arith)
          db.attempts a),
    c,
  );
}

pub set_candidate-Aside : (id state : String) (db : Db) → Aside db (set_candidate id state db)
unfolding IsKeyed
set_candidate-Aside id state db =
    let set : Candidate → Candidate = λ c. record c { state = state } in
    record {
      same_requests = refl;
      same_results = refl;
      same_events = refl;
      keyed = λ (a, c). (
        a,
        subst (HasKeys (λ c. c.id)) (sym (update_by-map (λ c. c.id) id set db.candidates)) (
            map-HasKeys (λ c. c.id) (updated (λ c. c.id) id set) (λ c. ground arith) db.candidates
              c),
      );
    }

pub release_reservations-Aside :
    (id : String) (now : ℕ) (db : Db) → Aside db (release_reservations id now db)
unfolding IsKeyed
release_reservations-Aside id now db = record {
  same_requests = refl;
  same_results = refl;
  same_events = refl;
  keyed = λ k. k;
}
