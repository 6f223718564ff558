-- ===== src/Dispatch/Ending/Confirmed.antt =====
-- What the check of the code and the publication keep of a success (src/dispatch/completion.ts).
use scrum4me_mcp.Prelude.{
  ◌≡◌, refl, arith, String, Bool, true, false, not, ◌&&◌, Option, none, some, ◌==◌, truthy,
  absurd_bool, if_cases,
}
use scrum4me_mcp.Dispatch.Ending.Earned.{Succeeds}
use scrum4me_mcp.Dispatch.Ending.Table.{Payload, Ensures}
use scrum4me_mcp.Dispatch.Ending.Lifecycle.{Locked, is_succeeded}
use scrum4me_mcp.Dispatch.Ending.Judge.{
  verified, malformed, rejected, confirmed, failed_to, unknown, refused_to, Verified, Publication,
  Submission, fail_gate, check_code, verify_code, publish_code, publish_result,
}

-- The check of the code lets a success stand.
pub record CodeVerified (k : Submission) (x : Locked) (p q : Payload) : Type 0 where
  pub same : q ≡ p
  pub verified_code : truthy p.artifact_id ≡ true → k.code_verified ≡ verified
  pub gate_passed :
      truthy p.artifact_id ≡ true → (x.r.action == "task_implementation") ≡ true → k.gate ≡ none

pub check-CodeVerified :
    (k : Submission) (x : Locked) (p : Payload) (v : Verified)
    → k.code_verified ≡ v
    → Ensures (λ q. Succeeds q → CodeVerified k x p q) (check_code k x p v)
check-CodeVerified k x p (rejected e) at = tt
check-CodeVerified k x p malformed at = λ h. absurd_bool refl h
check-CodeVerified k x p verified at =
    if_cases (λ q. Succeeds q → CodeVerified k x p q) (x.r.action == "task_implementation")
      (λ task. gated k.gate refl)
      (λ other h. record {
        same = refl;
        verified_code = λ _. at;
        gate_passed = λ _ task. absurd_bool other task;
      })
  where
    gated :
        (g : Option String)
        → k.gate ≡ g
        → Succeeds (fail_gate g p)
        → CodeVerified k x p (fail_gate g p)
    gated none e h = record { same = refl; verified_code = λ _. at; gate_passed = λ _ _. e }
    gated (some s) e h = absurd_bool refl h

pub verify-CodeVerified :
    (k : Submission) (x : Locked) (p : Payload)
    → Ensures (λ q. Succeeds q → CodeVerified k x p q) (verify_code k x p)
unfolding verify_code
verify-CodeVerified k x p =
    if_cases (Ensures (λ q. Succeeds q → CodeVerified k x p q)) (truthy p.artifact_id)
      (λ code. check-CodeVerified k x p k.code_verified refl)
      (λ bare h. record {
        same = refl;
        verified_code = λ code. absurd_bool bare code;
        gate_passed = λ code _. absurd_bool bare code;
      })

-- A published success was confirmed.
pub record Published (k : Submission) (x : Locked) (p q : Payload) : Type 0 where
  pub same : q ≡ p
  pub was_confirmed :
      truthy p.artifact_id ≡ true → (x.r.publish == "artifact") ≡ false → k.publication ≡ confirmed

abbrev pub IsPublishedIf : Submission → Locked → Payload → Option Payload → Type 0
IsPublishedIf k x p none = Unit
IsPublishedIf k x p (some q) = Succeeds q → Published k x p q

pub publish-code :
    (k : Submission) (x : Locked) (p : Payload) (a : Publication)
    → k.publication ≡ a
    → Ensures (IsPublishedIf k x p) (publish_code a p)
publish-code k x p confirmed at = λ h. record { same = refl; was_confirmed = λ _ _. at }
publish-code k x p failed_to at = λ h. absurd_bool refl h
publish-code k x p unknown at = tt
publish-code k x p (refused_to e) at = tt

pub publish-Published :
    (k : Submission) (x : Locked) (p : Payload)
    → Ensures (IsPublishedIf k x p) (publish_result k x p)
unfolding publish_result
publish-Published k x p =
    if_cases (Ensures (IsPublishedIf k x p))
      (is_succeeded p.outcome && truthy p.artifact_id && not (x.r.publish == "artifact"))
      (λ e. publish-code k x p k.publication refl)
      (λ e h. record {
        same = refl;
        was_confirmed = λ code public. absurd_bool e (all_three _ _ _ h code public);
      })
  where
    all_three : (a b c : Bool) → a ≡ true → b ≡ true → c ≡ false → (a && b && not c) ≡ true
    all_three a b c h i j = ground arith
