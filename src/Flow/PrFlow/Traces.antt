-- ===== src/Flow/PrFlow/Traces.antt =====
-- What holds over every sequence of events of a pull request (src/flow/pr-flow.ts).
use scrum4me_mcp.Prelude.{
  ℕ, ◌+◌, ◌≤◌, ◌≡◌, refl, ◌∙◌, String, Option, none, some, List, [], ◌∷◌, arith, length,
  length-append, All, All-append,
}
use scrum4me_mcp.Flow.Effects.{FlowEffect, enable_auto_merge, mark_pr_ready}
use scrum4me_mcp.Flow.PrFlow.{
  story, sprint, PrFlowState, no_pr, branch_pushed, pr_opened, draft_opened, waiting_for_checks,
  auto_merge_enabled, ready_for_review, merged, checks_failed, merge_conflict_paused, PrFlowEvent,
  strategy, transition, run,
}

-- How many effects a pull request in this state has asked for.
abbrev pub asked : PrFlowState → ℕ
asked (no_pr _) = 0
asked (branch_pushed _ _) = 0
asked (pr_opened _) = 0
asked (draft_opened _) = 0
asked _ = 1

-- The URL of the pull request that was opened.
abbrev pub opened_url : PrFlowState → Option String
opened_url (no_pr _) = none
opened_url (branch_pushed _ _) = none
opened_url (pr_opened u) = some u
opened_url (draft_opened u) = some u
opened_url (waiting_for_checks u _) = some u
opened_url (auto_merge_enabled u _) = some u
opened_url (ready_for_review u) = some u
opened_url (merged _ u) = some u
opened_url (checks_failed _ u) = some u
opened_url (merge_conflict_paused _ u _) = some u

-- Auto-merge is for stories and the ready mark for sprints, each on the pull request at hand.
abbrev pub IsFor : PrFlowState → FlowEffect → Type 0
IsFor s (enable_auto_merge u _) = (strategy s ≡ story) × (opened_url s ≡ some u)
IsFor s (mark_pr_ready u) = (strategy s ≡ sprint) × (opened_url s ≡ some u)
IsFor s _ = ⊥

asked-transition :
    (s : PrFlowState) (e : PrFlowEvent)
    → asked s + length (transition s e).1 ≡ asked (transition s e).0
unfolding transition
asked-transition s e = ground arith

strategy-transition : (s : PrFlowState) (e : PrFlowEvent) → strategy (transition s e).0 ≡ strategy s
unfolding transition
strategy-transition s e = ground arith

url-transition :
    (s : PrFlowState) (e : PrFlowEvent) {u : String}
    → opened_url s ≡ some u
    → opened_url (transition s e).0 ≡ some u
unfolding transition
url-transition s e h = ground arith

-- Over any events, the effects asked for are counted by the state reached.
pub asked-run :
    (s : PrFlowState) (es : List PrFlowEvent) → asked s + length (run s es).1 ≡ asked (run s es).0
unfolding run
asked-run s [] = omega arith
asked-run s (e ∷ es) = omega (
  arith,
  asked-transition s e,
  asked-run (transition s e).0 es,
  length-append (transition s e).1 (run (transition s e).0 es).1,
)

pub strategy-run : (s : PrFlowState) (es : List PrFlowEvent) → strategy (run s es).0 ≡ strategy s
unfolding run
strategy-run s [] = refl
strategy-run s (e ∷ es) = strategy-run (transition s e).0 es ∙ strategy-transition s e

pub url-run :
    (s : PrFlowState) (es : List PrFlowEvent) {u : String}
    → opened_url s ≡ some u
    → opened_url (run s es).0 ≡ some u
unfolding run
url-run s [] h = h
url-run s (e ∷ es) h = url-run (transition s e).0 es (url-transition s e h)

-- An effect for the state stays one for every later state.
IsFor-run :
    (s : PrFlowState) (es : List PrFlowEvent) (f : FlowEffect) → IsFor s f → IsFor (run s es).0 f
IsFor-run s es (enable_auto_merge u _) h = (strategy-run s es ∙ h.0, url-run s es h.1)
IsFor-run s es (mark_pr_ready u) h = (strategy-run s es ∙ h.0, url-run s es h.1)
IsFor-run s es _ h = absurd h

All-IsFor-run :
    (s : PrFlowState) (es : List PrFlowEvent) (fs : List FlowEffect)
    → All (IsFor s) fs
    → All (IsFor (run s es).0) fs
All-IsFor-run s es [] h = tt
All-IsFor-run s es (f ∷ fs) h = (IsFor-run s es f h.0, All-IsFor-run s es fs h.1)

-- What a transition asks for is for the state that it enters.
transition-IsFor :
    (s : PrFlowState) (e : PrFlowEvent) → All (IsFor (transition s e).0) (transition s e).1
unfolding transition
transition-IsFor s e = ground arith

run-IsFor : (s : PrFlowState) (es : List PrFlowEvent) → All (IsFor (run s es).0) (run s es).1
unfolding run
run-IsFor s [] = tt
run-IsFor s (e ∷ es) =
    let (next, effects) = transition s e in
    All-append (IsFor (run next es).0) effects (run next es).1
      (All-IsFor-run next es effects (transition-IsFor s e)) (run-IsFor next es)

asked_le_one : (s : PrFlowState) → asked s ≤ 1
asked_le_one s = ground arith

asked_of_unopened : (s : PrFlowState) → opened_url s ≡ none → asked s ≡ 0
asked_of_unopened s h = ground arith

-- From a state in which no pull request is open, over any sequence of events: at most one effect
-- is asked for, the state reached says whether one was, a story's is auto-merge and a sprint's is
-- the ready mark, and it names the pull request that the state reached has.
run_effects :
    (s : PrFlowState) (es : List PrFlowEvent)
    → opened_url s ≡ none
    → (length (run s es).1 ≤ 1)
      × (length (run s es).1 ≡ asked (run s es).0)
      × All (IsFor (run s es).0) (run s es).1
run_effects s es h =
    let count : length (run s es).1 ≡ asked (run s es).0 =
      omega (arith, asked-run s es, asked_of_unopened s h) in
    (omega (arith, count, asked_le_one (run s es).0), count, run-IsFor s es)

-- Once a pull request is open, no sequence of events changes its strategy or its URL.
run_keeps_pr :
    (s : PrFlowState) (es : List PrFlowEvent) {u : String}
    → opened_url s ≡ some u
    → (strategy (run s es).0 ≡ strategy s) × (opened_url (run s es).0 ≡ some u)
run_keeps_pr s es h = (strategy-run s es, url-run s es h)
