-- ===== src/Examples/Attempts.antt =====
-- A claimed attempt that is started, goes silent, is reconciled and then stopped
-- (src/dispatch/attempts.ts).
use mathlib.Core.List.{Memᴰ}
use scrum4me_mcp.Prelude.{◌≡◌, refl, ℕ, true, not, none, some, List, [], ◌∷◌, ◌==◌, every?}
use scrum4me_mcp.Dispatch.Table.{
  Scope, Locked, Actor, Proof, Service, granted, Call, resumed, permit, stop_needed, marked,
  conflict,
}
use scrum4me_mcp.Dispatch.Attempts.{cancel_for_stop}
use scrum4me_mcp.Dispatch.Attempts.Run.{Operation, start, renew, reconcile, expire, run}
use scrum4me_mcp.Dispatch.Attempts.Effect.{is_permit}
use scrum4me_mcp.Dispatch.Attempts.Coherence.{
  IsCoherent, other_state, run-IsCoherent, stop_is_final,
}
use scrum4me_mcp.Dispatch.Attempts.OneScope.{one_scope}

abbrev service : Service
service = record {
  enabled = true;
  product_allowlist = "product" ∷ [];
  credential_matches = λ credential hash. credential == hash;
  allows_transition = λ state event. state == "UNCERTAIN";
  text_length = λ t. 5;
}

abbrev worker : Actor
worker = record { source = "bearer"; user_id = "user"; token_id = some "token" }

abbrev proof : Proof
proof = record {
  request_id = "request";
  candidate_id = "candidate";
  attempt_id = "attempt";
  generation = 1;
  incarnation_id = "incarnation";
  credential = "secret";
}

abbrev scope : Scope
scope = record {
  scope_id = "scope";
  boot_id = "boot";
  image_digest = "image";
  profile_sha256 = "profile";
}

abbrev claimed_attempt : Locked
claimed_attempt = record {
  request = record {
    id = "request";
    state = "CLAIMED";
    version = 3;
    generation = 1;
    product_id = "product";
  };
  candidate = record {
    id = "candidate";
    request_id = "request";
    generation = 1;
    state = "CLAIMED";
    incarnation_id = some "incarnation";
    reserved_slot_id = "slot";
    job_id = some "job";
  };
  attempt = record {
    id = "attempt";
    candidate_id = "candidate";
    incarnation_id = "incarnation";
    state = "CLAIMED";
    scope_id = none;
    started_at = none;
    heartbeat_at = some 1000;
    stopped_at = none;
    revoked_at = none;
    credential_hash = "secret";
  };
  incarnation = record {
    slot_id = "slot";
    boot_id = "boot";
    signed_off_at = none;
    image_digest = "image";
    profile_sha256 = "profile";
    supervisor_token_id = "token";
    owner_user_id = "user";
    enabled = true;
  };
  job_status = "CLAIMED";
  events = [];
}

abbrev at_time : ℕ → Call
at_time t = record { started = t; clock = t; authorization = granted 3600 }

-- Started, started again, silent, reconciled, started a third time, and then overdue.
abbrev day : List Operation
day =
    start worker proof scope (at_time 2000)
    ∷ start worker proof scope (at_time 3000)
    ∷ expire (at_time 130000) 3600
    ∷ reconcile worker proof scope (at_time 140000)
    ∷ start worker proof scope (at_time 141000)
    ∷ renew worker proof "scope" (at_time 9000000)
    ∷ start worker proof scope (at_time 9000001)
    ∷ []

answers_of_day :
    (run service day claimed_attempt).1
    ≡ permit scope
      ∷ permit scope
      ∷ marked true
      ∷ resumed
      ∷ permit scope
      ∷ stop_needed true
      ∷ conflict
      ∷ []
unfolding run
answers_of_day = refl

claimed_attempt-IsCoherent : IsCoherent claimed_attempt
claimed_attempt-IsCoherent = record {
  request_state = refl;
  candidate_state = refl;
  revoked = λ e. other_state refl e;
  unstarted = λ e. refl;
}

run-IsCoherent_example : IsCoherent (run service day claimed_attempt).0
run-IsCoherent_example = run-IsCoherent service day claimed_attempt claimed_attempt-IsCoherent

one_scope_example : scope ≡ scope
unfolding run
one_scope_example =
    one_scope service day claimed_attempt claimed_attempt-IsCoherent scope scope (Memᴰ.head refl)
      (Memᴰ.tail (Memᴰ.head refl))

abbrev stopped_attempt : Locked
unfolding cancel_for_stop
stopped_attempt = cancel_for_stop 500 "maximum_duration" claimed_attempt

stop_is_final_example :
    ((run service day stopped_attempt).0 ≡ stopped_attempt)
    × (every? (λ a. not (is_permit a)) (run service day stopped_attempt).1 ≡ true)
unfolding stopped_attempt
stop_is_final_example = stop_is_final service day stopped_attempt refl
