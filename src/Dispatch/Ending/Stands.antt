-- ===== src/Dispatch/Ending/Stands.antt =====
-- What the last transaction of src/dispatch/completion.ts checks of a success.
use scrum4me_mcp.Prelude.{
  double_negation, ◌≡◌, refl, ap, String, true, false, not, [], ◌∷◌, ◌==◌, eq_iff, includes,
  is_null, absurd_bool, if_cases, inl, inr, Bool-cases,
}
use scrum4me_mcp.Dispatch.Ending.Table.{Payload, is_ended, Ensures, Ensures-imp}
use scrum4me_mcp.Dispatch.Ending.Lifecycle.{Locked, is_succeeded}
use scrum4me_mcp.Dispatch.Ending.Judge.{
  granted, refused, crashed, Publish, Submission, publish_again, judge_again,
}
use scrum4me_mcp.Dispatch.Ending.Earned.{Succeeds}

-- The last verdict on a success: the request is not being cancelled, the profile is not revoked and
-- the publication is authorized still.
pub record StandsAgain (k : Submission) (x : Locked) (p q : Payload) : Type 0 where
  pub same : q ≡ p
  pub live : includes ("CLAIMED" ∷ "RUNNING" ∷ []) x.r.state ≡ true
  pub authorized : k.publish_again ≡ granted
  pub unrevoked : is_null x.p.revoked_at ≡ true

abbrev pub IsJudgedAgain : Submission → Locked → Payload → Payload → Type 0
IsJudgedAgain k x p q = (is_ended x.r.state ≡ false) × (Succeeds q → StandsAgain k x p q)

pub live-open :
    (state : String) → includes ("CLAIMED" ∷ "RUNNING" ∷ []) state ≡ true → is_ended state ≡ false
live-open state h = elim (Bool-cases (state == "CLAIMED")) [
  | inl e ↦ ap is_ended ((eq_iff state "CLAIMED").0 e)
  | inr n ↦ elim (Bool-cases (state == "RUNNING")) [
    | inl e ↦ ap is_ended ((eq_iff state "RUNNING").0 e)
    | inr m ↦ absurd_bool {b = includes ("CLAIMED" ∷ "RUNNING" ∷ []) state} (rw (n, m) refl) h
  ]
]

pub again-Stands :
    (a : Publish) (k : Submission) (x : Locked) (p : Payload)
    → k.publish_again ≡ a
    → includes ("CLAIMED" ∷ "RUNNING" ∷ []) x.r.state ≡ true
    → Ensures (λ q. Succeeds q → StandsAgain k x p q) (publish_again a x p)
again-Stands crashed k x p at live =
    if_cases (Ensures (λ q. Succeeds q → StandsAgain k x p q)) (is_null x.p.revoked_at) (λ e. tt)
      (λ e h. absurd_bool refl h)
again-Stands refused k x p at live = λ h. absurd_bool refl h
again-Stands granted k x p at live =
    if_cases (λ q. Succeeds q → StandsAgain k x p q) (is_null x.p.revoked_at)
      (λ e h. record { same = refl; live = live; authorized = at; unrevoked = e })
      (λ e h. absurd_bool refl h)

pub judge_again-Stands :
    (k : Submission) (x : Locked) (p : Payload) → Ensures (IsJudgedAgain k x p) (judge_again k x p)
unfolding judge_again
judge_again-Stands k x p =
    if_cases (Ensures (IsJudgedAgain k x p)) (x.r.state == "CANCEL_REQUESTED")
      (λ e. (ap is_ended ((eq_iff x.r.state "CANCEL_REQUESTED").0 e), λ h. absurd_bool refl h))
      (λ e.
        if_cases (Ensures (IsJudgedAgain k x p))
          (not (includes ("CLAIMED" ∷ "RUNNING" ∷ []) x.r.state)) (λ _. tt)
          (λ l.
            let live = double_negation (includes ("CLAIMED" ∷ "RUNNING" ∷ []) x.r.state) l in
            if_cases (Ensures (IsJudgedAgain k x p)) (is_succeeded p.outcome)
              (λ ok.
                Ensures-imp (λ q. Succeeds q → StandsAgain k x p q) (IsJudgedAgain k x p)
                  (publish_again k.publish_again x p) (again-Stands k.publish_again k x p refl live)
                  (λ q s. (live-open x.r.state live, s)))
              (λ no. (live-open x.r.state live, λ h. absurd_bool no h))))
