-- ===== src/Dispatch/Attempts/Coherence.antt =====
-- The rows of an attempt after sequences of calls, and after a stop (src/dispatch/attempts.ts).
use scrum4me_mcp.Prelude.{
  absurd_bool, ◌≡◌, refl, sym, ap, ◌∙◌, subst, inl, inr, arith, ℕ, String, true, false, none, List,
  [], ◌∷◌, ◌++◌, ◌==◌, eq_iff, is_null, includes, every?, not,
}
use scrum4me_mcp.Dispatch.Table.{
  Scope, Event, lease_expired, stop_required, resume_same_attempt, Locked, Service, Answer,
}
use scrum4me_mcp.Dispatch.Checks.{live_states, scope_of, add_scope, scopes_of}
use scrum4me_mcp.Dispatch.Attempts.{
  set_state, start_rows, uncertain, cancel_for_stop, resume_rows, beat,
}
use scrum4me_mcp.Dispatch.Attempts.Run.{Operation, perform, run}
use scrum4me_mcp.Dispatch.Attempts.Effect.{
  is_permit, Settled, Change, expired, stopped, beaten, resumed_same, Effect, kept, repeated,
  started, changed, perform-Effect,
}

abbrev pub recorded : Locked → List Scope
recorded x = scopes_of x.attempt.id x.events

-- The request, the candidate and the attempt are in one state; a stop has revoked the attempt; a
-- claimed attempt has not been given a scope.
pub record IsCoherent (x : Locked) : Type 0 where
  pub request_state : x.request.state ≡ x.attempt.state
  pub candidate_state : x.candidate.state ≡ x.attempt.state
  pub revoked : x.attempt.state ≡ "CANCEL_REQUESTED" → is_null x.attempt.revoked_at ≡ false
  pub unstarted : x.attempt.state ≡ "CLAIMED" → recorded x ≡ []

pub scopes_of-other :
    (id : String) (es : List Event) (e : Event)
    → scope_of id e ≡ none
    → scopes_of id (es ++ e ∷ []) ≡ scopes_of id es
scopes_of-other id [] e h = ap (λ o. add_scope o []) h
scopes_of-other id (x ∷ es) e h = ap (add_scope (scope_of id x)) (scopes_of-other id es e h)

pub other_state : {A : Type 0} {a b : String} → a == b ≡ false → a ≡ b → A
other_state {A} {a} {b} differs e = absurd_bool differs ((eq_iff a b).1 e)

-- What a change leaves: the id of the attempt and its scopes, and an attempt that was claimed before
-- if it is claimed now.
pub record Leaves (x y : Locked) : Type 0 where
  pub coherent : IsCoherent x → IsCoherent y
  pub scopes : recorded y ≡ recorded x

uncertain-Leaves : (x : Locked) → Leaves x (uncertain x)
unfolding uncertain set_state
uncertain-Leaves x = record {
  coherent = λ h. record {
    request_state = refl;
    candidate_state = refl;
    revoked = λ e. other_state refl e;
    unstarted = λ e. other_state refl e;
  };
  scopes = scopes_of-other x.attempt.id x.events (lease_expired x.attempt.id) refl;
}

stop-Leaves : (now : ℕ) (reason : String) (x : Locked) → Leaves x (cancel_for_stop now reason x)
unfolding cancel_for_stop set_state
stop-Leaves now reason x = record {
  coherent = λ h. record {
    request_state = refl;
    candidate_state = refl;
    revoked = λ e. refl;
    unstarted = λ e. other_state refl e;
  };
  scopes = scopes_of-other x.attempt.id x.events (stop_required x.attempt.id reason) refl;
}

resume-Leaves : (now : ℕ) (x : Locked) → Leaves x (resume_rows now x)
unfolding resume_rows set_state
resume-Leaves now x = record {
  coherent = λ h. record {
    request_state = refl;
    candidate_state = refl;
    revoked = λ e. other_state refl e;
    unstarted = λ e. other_state refl e;
  };
  scopes =
      scopes_of-other x.attempt.id x.events (resume_same_attempt x.attempt.id x.attempt.scope_id)
        refl;
}

beat-Leaves : (now : ℕ) (x : Locked) → Leaves x (beat now x)
beat-Leaves now x = record {
  coherent = λ h. record {
    request_state = h.request_state;
    candidate_state = h.candidate_state;
    revoked = h.revoked;
    unstarted = h.unstarted;
  };
  scopes = refl;
}

trans : (x y z : Locked) → Leaves x y → Leaves y z → Leaves x z
trans x y z f g = record { coherent = λ h. g.coherent (f.coherent h); scopes = g.scopes ∙ f.scopes }

same : (x : Locked) → Leaves x x
same x = record { coherent = λ h. h; scopes = refl }

Settled-Leaves : (x z : Locked) → Settled x z → Leaves x z
Settled-Leaves x z (inl e) = subst (Leaves x) (sym e) (same x)
Settled-Leaves x z (inr e) = subst (Leaves x) (sym e) (uncertain-Leaves x)

pub Change-Leaves : (x y : Locked) → Change x y → Leaves x y
Change-Leaves x y (expired e) = subst (Leaves x) (sym e) (uncertain-Leaves x)
Change-Leaves x y (stopped now reason z from e) =
    subst (Leaves x) (sym e) (
      trans x z (cancel_for_stop now reason z) (Settled-Leaves x z from) (stop-Leaves now reason z))
Change-Leaves x y (beaten now z from e) =
    subst (Leaves x) (sym e) (trans x z (beat now z) (Settled-Leaves x z from) (beat-Leaves now z))
Change-Leaves x y (resumed_same now at e) = subst (Leaves x) (sym e) (resume-Leaves now x)

start-IsCoherent : (now : ℕ) (scope : Scope) (x : Locked) → IsCoherent (start_rows now scope x)
unfolding start_rows set_state
start-IsCoherent now scope x = record {
  request_state = refl;
  candidate_state = refl;
  revoked = λ e. other_state refl e;
  unstarted = λ e. other_state refl e;
}

pub effect-IsCoherent : (x y : Locked) (a : Answer) → Effect x y a → IsCoherent x → IsCoherent y
effect-IsCoherent x y a (kept e p) h = subst IsCoherent (sym e) h
effect-IsCoherent x y a (repeated scope e b live k) h = subst IsCoherent (sym e) h
effect-IsCoherent x y a (started now scope at e b) h =
    subst IsCoherent (sym e) (start-IsCoherent now scope x)
effect-IsCoherent x y a (changed live p c) h = (Change-Leaves x y c).coherent h

-- Any sequence of the four calls of src/dispatch/attempts.ts, starts, renewals, reconciliations and
-- expiries, on one attempt keeps its rows coherent: if the request, the candidate and the attempt are
-- in one state before, an attempt whose stop was asked for is revoked and one that is only claimed has
-- no scope, then so it is afterwards. The calls that end an attempt are not among them.
pub run-IsCoherent :
    (s : Service) (os : List Operation) (x : Locked) → IsCoherent x → IsCoherent (run s os x).0
unfolding run
run-IsCoherent s [] x h = h
run-IsCoherent s (o ∷ os) x h =
    run-IsCoherent s os (perform s o x).0
      (effect-IsCoherent x (perform s o x).0 (perform s o x).1 (perform-Effect s o x) h)

stays :
    (x y : Locked) (a : Answer)
    → x.attempt.state ≡ "CANCEL_REQUESTED"
    → Effect x y a
    → (y ≡ x) × (is_permit a ≡ false)
stays x y a at (kept e p) = (e, p)
stays x y a at (repeated scope e b live k) = absurd_bool (ap (includes live_states) at) live
stays x y a at (started now scope claimed e b) = other_state refl (sym at ∙ claimed)
stays x y a at (changed live p c) = absurd_bool (ap (includes live_states) at) live

-- After a stop was asked for, no sequence of starts, renewals, reconciliations and expiries (the four
-- calls of src/dispatch/attempts.ts) changes the rows of the attempt or is given a permit. Stop
-- evidence, acceptance, cancel and recovery, which do end such an attempt, are not among them.
pub stop_is_final :
    (s : Service) (os : List Operation) (x : Locked)
    → x.attempt.state ≡ "CANCEL_REQUESTED"
    → ((run s os x).0 ≡ x) × (every? (λ a. not (is_permit a)) (run s os x).1 ≡ true)
unfolding run
stop_is_final s [] x at = (refl, refl)
stop_is_final s (o ∷ os) x at =
    let (e, p) = stays x (perform s o x).0 (perform s o x).1 at (perform-Effect s o x) in
    let (rows, answers) = stop_is_final s os (perform s o x).0 (ap (λ y. y.attempt.state) e ∙ at) in
    (rows ∙ e, ground arith)
