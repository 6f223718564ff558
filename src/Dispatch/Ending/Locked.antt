-- ===== src/Dispatch/Ending/Locked.antt =====
-- What `lockArtifactAttempt` of src/dispatch/artifacts.ts finds.
use scrum4me_mcp.Prelude.{◌≡◌, refl, sym, ap, ◌∙◌, String, not, ◌||◌, some, ◌==◌, find_by, if_cases}
use scrum4me_mcp.Dispatch.Ending.Table.{
  found, found-Ensures, Ensures-any, Ensures-imp, Request, Candidate, Attempt, Db, request_of,
  Ensures, Ensures-then,
}
use scrum4me_mcp.Dispatch.Ending.Tasks.{lock_managed_task_hierarchy}
use scrum4me_mcp.Dispatch.Ending.Lifecycle.{Locked}
use scrum4me_mcp.Dispatch.Ending.Locks.{lock_artifact_attempt, lock_task, lock_rows, belongs}

-- The rows of a locked attempt are those of the tables.
pub record IsLocked (db : Db) (attempt_id : String) (x : Locked) : Type 0 where
  pub attempt : find_by (λ a. a.id) attempt_id db.attempts ≡ some x.a
  pub candidate : find_by (λ c. c.id) x.a.candidate_id db.candidates ≡ some x.c
  pub request : request_of db x.c.request_id ≡ some x.r

abbrev HasRows : Attempt → Candidate → Request → Locked → Type 0
HasRows a c r x = (x.a ≡ a) × (x.c ≡ c) × (x.r ≡ r)

rows-HasRows :
    (a : Attempt) (c : Candidate) (r : Request) (db : Db)
    → Ensures (HasRows a c r) (lock_rows a c r db)
rows-HasRows a c r db =
    let s = find_by (λ s. s.id) c.reserved_slot_id db.slots in
    let i = find_by (λ i. i.id) a.incarnation_id db.incarnations in
    let p = find_by (λ p. p.id) c.profile_revision_id db.profiles in
    Ensures-then (λ _. Unit) (HasRows a c r) (found "DISPATCH_FORBIDDEN" s) _ (Ensures-any _)
      (λ s _.
        Ensures-then (λ _. Unit) (HasRows a c r) (found "DISPATCH_FORBIDDEN" i) _ (Ensures-any _)
          (λ i _.
            Ensures-then (λ _. Unit) (HasRows a c r) (found "DISPATCH_FORBIDDEN" p) _
              (Ensures-any _)
              (λ p _. belongs-has_rows (record { r = r; c = c; s = s; a = a; i = i; p = p }))))
  where
    belongs-has_rows : (x : Locked) → Ensures (HasRows x.a x.c x.r) (belongs x)
    belongs-has_rows x =
        if_cases (Ensures (HasRows x.a x.c x.r))
          (not (x.i.slot_id == x.s.id) || not (x.c.incarnation_id == x.a.incarnation_id)) (λ e. tt)
          (λ e. (refl, refl, refl))

pub lock-IsLocked :
    (db : Db) (attempt_id : String)
    → Ensures (IsLocked db attempt_id) (lock_artifact_attempt db attempt_id)
unfolding lock_artifact_attempt lock_managed_task_hierarchy
lock-IsLocked db attempt_id =
    Ensures-then (λ a. find_by (λ a. a.id) attempt_id db.attempts ≡ some a) P
      (found "DISPATCH_FORBIDDEN" _) _
      (found-Ensures "DISPATCH_FORBIDDEN" (find_by (λ a. a.id) attempt_id db.attempts))
      (λ a at.
        Ensures-then (λ c. find_by (λ c. c.id) a.candidate_id db.candidates ≡ some c) P
          (found "DISPATCH_FORBIDDEN" _) _
          (found-Ensures "DISPATCH_FORBIDDEN" (find_by (λ c. c.id) a.candidate_id db.candidates))
          (λ c of.
            Ensures-then (λ r. request_of db c.request_id ≡ some r) P (found "TypeError" _) _
              (found-Ensures "TypeError" (request_of db c.request_id))
              (λ r for.
                Ensures-then (λ _. Unit) P (lock_task r db) _ (Ensures-any (lock_task r db))
                  (λ _ _.
                    Ensures-imp (HasRows a c r) P (lock_rows a c r db) (rows-HasRows a c r db)
                      (λ x (xa, xc, xr). record {
                        attempt = at ∙ ap some (sym xa);
                        candidate =
                            ap (λ q. find_by (λ c. c.id) q.candidate_id db.candidates) xa
                            ∙ of
                            ∙ ap some (sym xc);
                        request = ap (λ q. request_of db q.request_id) xc ∙ for ∙ ap some (sym xr);
                      })))))
  where
    P : Locked → Type 0
    P = IsLocked db attempt_id
