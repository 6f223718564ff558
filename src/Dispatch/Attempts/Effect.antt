-- ===== src/Dispatch/Attempts/Effect.antt =====
-- What one call on an attempt can do to the rows (src/dispatch/attempts.ts).
use scrum4me_mcp.Prelude.{
  if_cases, ◌≡◌, refl, ap, ◌⊎◌, inl, inr, arith, ℕ, String, Bool, true, false, not, ◌&&◌, ◌||◌, [],
  ◌∷◌, ◌==◌, eq_iff, includes, is_null, is_text, nat_eq, some?, truthy,
}
use scrum4me_mcp.Dispatch.Table.{
  Scope, Locked, Actor, Proof, Service, Authorization, granted, refused, crashed, Call, Answer,
  permit,
}
use scrum4me_mcp.Dispatch.Checks.{
  live_states, is_active, is_allowed, is_found, is_proven, fits_incarnation, has_other_scope,
  is_recorded, is_silent, is_overdue, accepts_stop,
}
use scrum4me_mcp.Dispatch.Attempts.{
  start_rows, start_granted, start_authorized, start_dispatch_attempt, uncertain, cancel_for_stop,
  beat, renew_authorized, settle_silence, or_undo, renew_dispatch_attempt, resume_rows,
  reconcile_authorized, reconcile_dispatch_attempt, mark_expired,
}
use scrum4me_mcp.Dispatch.Attempts.Run.{Operation, start, reconcile, renew, expire, perform}

abbrev pub is_permit : Answer → Bool
is_permit (permit s) = true
is_permit _ = false

abbrev pub Settled : Locked → Locked → Type 0
Settled x z = (z ≡ x) ⊎ (z ≡ uncertain x)

pub data Change (x y : Locked) : Type 0 where
  expired : y ≡ uncertain x → Change x y
  stopped :
      (now : ℕ) (reason : String) (z : Locked)
      → Settled x z
      → y ≡ cancel_for_stop now reason z
      → Change x y
  beaten : (now : ℕ) (z : Locked) → Settled x z → y ≡ beat now z → Change x y
  resumed_same : (now : ℕ) → x.attempt.state ≡ "UNCERTAIN" → y ≡ resume_rows now x → Change x y

-- A call writes nothing; or it repeats the permit of the recorded scope; or it starts a claimed
-- attempt; or it changes an attempt that is live, and gives no permit.
pub data Effect (x y : Locked) (a : Answer) : Type 0 where
  kept : y ≡ x → is_permit a ≡ false → Effect x y a
  repeated :
      (scope : Scope)
      → y ≡ x
      → a ≡ permit scope
      → includes live_states x.attempt.state ≡ true
      → is_recorded scope x ≡ true
      → Effect x y a
  started :
      (now : ℕ) (scope : Scope)
      → x.attempt.state ≡ "CLAIMED"
      → y ≡ start_rows now scope x
      → a ≡ permit scope
      → Effect x y a
  changed :
      includes live_states x.attempt.state ≡ true → is_permit a ≡ false → Change x y → Effect x y a

abbrev Does : Locked → Locked × Answer → Type 0
Does x r = Effect x r.0 r.1

start_granted-Does :
    (call : Call) (scope : Scope) (max : ℕ) (x : Locked)
    → includes ("CLAIMED" ∷ "RUNNING" ∷ []) x.attempt.state ≡ true
    → Does x (start_granted call scope max x)
unfolding start_granted
start_granted-Does call scope max x live =
    if_cases (Does x) (is_overdue call.clock max x) (λ _. kept refl refl)
      (λ _.
        if_cases (Does x) (x.attempt.state == "RUNNING" && not (is_recorded scope x))
          (λ _. kept refl refl)
          (λ known.
            if_cases (Does x) (x.attempt.state == "CLAIMED")
              (λ is_claimed.
                started call.started scope ((eq_iff x.attempt.state "CLAIMED").0 is_claimed) refl
                  refl)
              (λ other. repeated scope refl refl (ground arith) (ground arith))))

start_authorized-Does :
    (call : Call) (scope : Scope) (a : Authorization) (x : Locked)
    → includes ("CLAIMED" ∷ "RUNNING" ∷ []) x.attempt.state ≡ true
    → Does x (start_authorized call scope a x)
unfolding start_authorized
start_authorized-Does call scope (granted max) x live = start_granted-Does call scope max x live
start_authorized-Does call scope refused x live = kept refl refl
start_authorized-Does call scope crashed x live = kept refl refl

start-Does :
    (s : Service) (actor : Actor) (proof : Proof) (scope : Scope) (call : Call) (x : Locked)
    → Does x (start_dispatch_attempt s actor proof scope call x)
unfolding start_dispatch_attempt
start-Does s actor proof scope call x =
    if_cases (Does x)
      (not (is_found proof x && is_proven s actor proof x && fits_incarnation s scope x))
      (λ _. kept refl refl)
      (λ _.
        if_cases (Does x)
          (has_other_scope scope x
            || not (
                is_allowed s x
                && includes ("CLAIMED" ∷ "RUNNING" ∷ []) x.request.state
                && includes ("CLAIMED" ∷ "RUNNING" ∷ []) x.attempt.state)
            || is_silent call.clock x)
          (λ _. kept refl refl)
          (λ h. start_authorized-Does call scope call.authorization x (ground arith)))

settle-Settled : (time : ℕ) (x : Locked) → Settled x (settle_silence time x)
unfolding settle_silence
settle-Settled time x =
    if_cases (Settled x) (not (x.attempt.state == "UNCERTAIN") && is_silent time x) (λ _. inr refl)
      (λ _. inl refl)

renew_authorized-Does :
    (call : Call) (a : Authorization) (x z : Locked)
    → includes live_states x.attempt.state ≡ true
    → Settled x z
    → Does x (or_undo x (renew_authorized call a z))
unfolding renew_authorized
renew_authorized-Does call (granted max) x z live settled =
    if_cases (λ r. Does x (or_undo x r)) (is_overdue call.clock max z)
      (λ _. changed live refl (stopped call.started "maximum_duration" z settled refl))
      (λ _. changed live refl (beaten call.started z settled refl))
renew_authorized-Does call refused x z live settled =
    changed live refl (stopped call.started "authorization_unavailable" z settled refl)
renew_authorized-Does call crashed x z live settled = kept refl refl

renew-Does :
    (s : Service) (actor : Actor) (proof : Proof) (id : String) (call : Call) (x : Locked)
    → Does x (renew_dispatch_attempt s actor proof id call x)
unfolding renew_dispatch_attempt
renew-Does s actor proof id call x =
    if_cases (Does x) (not (is_found proof x && is_proven s actor proof x)) (λ _. kept refl refl)
      (λ _.
        if_cases (Does x)
          (not (
            is_active x
            && includes live_states x.request.state
            && includes live_states x.attempt.state))
          (λ _. kept refl refl)
          (λ h.
            if_cases (Does x) (not (is_text x.attempt.scope_id id)) (λ _. kept refl refl)
              (λ _.
                renew_authorized-Does call call.authorization x (settle_silence call.clock x)
                  (ground arith) (settle-Settled call.clock x))))

reconcile_authorized-Does :
    (s : Service) (call : Call) (scope : Scope) (a : Authorization) (x : Locked)
    → x.attempt.state ≡ "UNCERTAIN"
    → Does x (reconcile_authorized s call scope a x)
unfolding reconcile_authorized
reconcile_authorized-Does s call scope (granted max) x at =
    if_cases (Does x) (is_overdue call.clock max x || not (is_recorded scope x))
      (λ _. kept refl refl)
      (λ _.
        if_cases (Does x) (s.allows_transition x.request.state "resume_same_attempt")
          (λ _. changed (ap (includes live_states) at) refl (resumed_same call.started at refl))
          (λ _. kept refl refl))
reconcile_authorized-Does s call scope refused x at = kept refl refl
reconcile_authorized-Does s call scope crashed x at = kept refl refl

reconcile-Does :
    (s : Service) (actor : Actor) (proof : Proof) (scope : Scope) (call : Call) (x : Locked)
    → Does x (reconcile_dispatch_attempt s actor proof scope call x)
unfolding reconcile_dispatch_attempt
reconcile-Does s actor proof scope call x =
    if_cases (Does x)
      (not (is_found proof x && is_proven s actor proof x && fits_incarnation s scope x))
      (λ _. kept refl refl)
      (λ _.
        if_cases (Does x)
          (has_other_scope scope x
            || not (
                is_allowed s x
                && x.request.state == "UNCERTAIN"
                && x.attempt.state == "UNCERTAIN"
                && not (is_null x.attempt.started_at)
                && truthy x.attempt.scope_id))
          (λ _. kept refl refl)
          (λ h.
            reconcile_authorized-Does s call scope call.authorization x
              ((eq_iff x.attempt.state "UNCERTAIN").0 (ground arith))))

expire-Does : (call : Call) (max : ℕ) (x : Locked) → Does x (mark_expired call max x)
unfolding mark_expired
expire-Does call max x =
    if_cases (Does x)
      (not (
        nat_eq x.request.generation x.candidate.generation
        && includes live_states x.request.state
        && includes live_states x.attempt.state))
      (λ _. kept refl refl)
      (λ h.
        if_cases (Does x)
          (not (is_null x.attempt.stopped_at) && some? (accepts_stop x.attempt.id) x.events)
          (λ _. kept refl refl)
          (λ _.
            if_cases (Does x) (is_overdue call.clock max x)
              (λ _.
                changed (ground arith) refl
                  (stopped call.started "maximum_duration" x (inl refl) refl))
              (λ _.
                if_cases (Does x)
                  (x.attempt.state == "UNCERTAIN"
                    || is_null x.attempt.heartbeat_at
                    || not (is_silent call.clock x))
                  (λ _. kept refl refl) (λ _. changed (ground arith) refl (expired refl)))))

pub perform-Effect :
    (s : Service) (o : Operation) (x : Locked) → Effect x (perform s o x).0 (perform s o x).1
unfolding perform
perform-Effect s (start actor proof scope call) x = start-Does s actor proof scope call x
perform-Effect s (reconcile actor proof scope call) x = reconcile-Does s actor proof scope call x
perform-Effect s (renew actor proof id call) x = renew-Does s actor proof id call x
perform-Effect s (expire call max) x = expire-Does call max x
