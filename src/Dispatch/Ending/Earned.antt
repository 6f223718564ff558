-- ===== src/Dispatch/Ending/Earned.antt =====
-- What a success of `acceptDispatchResult` (src/dispatch/completion.ts) rests on.
use scrum4me_mcp.Prelude.{
  double_negation, ℕ, ◌≡◌, refl, sym, ap, ◌∙◌, arith, String, Bool, true, false, not, ◌&&◌, ◌||◌,
  Option, none, some, ◌==◌, is_null, truthy, absurd_bool, absurd_option, subst, if_cases,
  if◌then◌else◌,
}
use scrum4me_mcp.Dispatch.Ending.Table.{
  Payload, Db, Tx, thrown, done, ◌then◌, Ensures, Ensures-then, Ensures-any,
}
use scrum4me_mcp.Dispatch.Ending.Lifecycle.{Locked, is_succeeded}
use scrum4me_mcp.Dispatch.Ending.Finishable.{Finishable, may-Finishable}
use scrum4me_mcp.Dispatch.Ending.Judge.{
  granted, refused, crashed, revoked_failure, Publish, Submission, may_finish, respect_cancel,
  publish_failure, documents_failure, review_failure, success_failure, code_failure, fail_if, judge,
}

abbrev pub Succeeds : Payload → Type 0
Succeeds p = is_succeeded p.outcome ≡ true

-- What the first transaction has checked of a result that it lets succeed.
pub record Judged (k : Submission) (x : Locked) (db : Db) (p : Payload) : Type 0 where
  pub unchanged : p ≡ k.payload
  pub finishable : Finishable k x db
  pub not_cancelled : (x.r.state == "CANCEL_REQUESTED") ≡ false
  pub authorized : k.publish ≡ granted
  pub unrevoked : is_null x.p.revoked_at ≡ true
  pub documents :
      x.r.has_review_documents && not (x.r.action == "review") ≡ true → k.documents_delivered ≡ true
  pub reviewed : (x.r.action == "review") ≡ true → p.reviewed && k.review_delivered ≡ true
  pub admissible : truthy p.artifact_id ≡ true → k.code_admissible ≡ true
  pub has_code :
      truthy p.artifact_id ≡ false
      → x.r.action == "task_implementation" || x.r.access == "repo_write" ≡ false

respect-success :
    (x : Locked) (p : Payload)
    → Ensures
        (λ q. Succeeds q → (q ≡ p) × ((x.r.state == "CANCEL_REQUESTED") ≡ false))
        (respect_cancel x p)
unfolding respect_cancel
respect-success x p =
    let P : Payload → Type 0 =
      λ q. Succeeds q → (q ≡ p) × ((x.r.state == "CANCEL_REQUESTED") ≡ false) in
    if_cases (Ensures P) (x.r.state == "CANCEL_REQUESTED") (λ e h. absurd_bool refl h)
      (λ e. if_cases (Ensures P) (x.r.state == "UNCERTAIN") (λ u. tt) (λ u h. (refl, e)))

documents-none :
    (k : Submission) (x : Locked) (f : Option String)
    → documents_failure k x f ≡ none
    → (f ≡ none)
      × (x.r.has_review_documents && not (x.r.action == "review") ≡ true
          → k.documents_delivered ≡ true)
documents-none k x f =
    if_cases
      (λ g.
        g ≡ none
        → (f ≡ none)
          × (x.r.has_review_documents && not (x.r.action == "review") ≡ true
              → k.documents_delivered ≡ true))
      (x.r.has_review_documents && not (x.r.action == "review") && not k.documents_delivered)
      (λ e h. absurd_option (sym h))
      (λ e h. (
        h,
        delivered x.r.has_review_documents (not (x.r.action == "review")) k.documents_delivered e,
      ))
  where
    delivered : (a b c : Bool) → a && b && not c ≡ false → a && b ≡ true → c ≡ true
    delivered a b c h n = ground arith

review-none :
    (k : Submission) (x : Locked) (p : Payload) (f : Option String)
    → Ensures
        (λ g.
          g ≡ none
          → (f ≡ none)
            × ((x.r.action == "review") ≡ true → p.reviewed && k.review_delivered ≡ true))
        (review_failure k x p f)
review-none k x p f =
    let P : Option String → Type 0 = λ g.
      g ≡ none
      → (f ≡ none) × ((x.r.action == "review") ≡ true → p.reviewed && k.review_delivered ≡ true) in
    if_cases (Ensures P) (x.r.action == "review")
      (λ review.
        if_cases P (p.reviewed && k.review_delivered) (λ e h. (h, λ _. e))
          (λ e h. absurd_option (sym h)))
      (λ other. if_cases (Ensures P) p.reviewed (λ e. tt) (λ e h. (h, λ r. absurd_bool other r)))

-- What no reason to fail means.
record Clear (k : Submission) (x : Locked) (p : Payload) : Type 0 where
  authorized : k.publish ≡ granted
  unrevoked : is_null x.p.revoked_at ≡ true
  documents :
      x.r.has_review_documents && not (x.r.action == "review") ≡ true → k.documents_delivered ≡ true
  reviewed : (x.r.action == "review") ≡ true → p.reviewed && k.review_delivered ≡ true

publish-none :
    (a : Publish) (f : Option String)
    → Ensures (λ g. g ≡ none → (a ≡ granted) × (f ≡ none)) (publish_failure a f)
publish-none granted f = λ h. (refl, h)
publish-none refused f = λ h. absurd_option (sym h)
publish-none crashed f = tt

revoked-none : (at : Option ℕ) → revoked_failure at ≡ none → is_null at ≡ true
revoked-none none h = refl
revoked-none (some t) h = absurd_option (sym h)

failure-Clear :
    (k : Submission) (x : Locked) (p : Payload)
    → Succeeds p
    → Ensures (λ f. f ≡ none → Clear k x p) (success_failure k x p)
unfolding success_failure
failure-Clear k x p ok =
    if_cases (Ensures (λ f. f ≡ none → Clear k x p)) (not (is_succeeded p.outcome))
      (λ e. absurd_bool (ap not ok) e)
      (λ e.
        let revoked = revoked_failure x.p.revoked_at in
        Ensures-then (λ g. g ≡ none → (k.publish ≡ granted) × (revoked ≡ none)) _
          (publish_failure k.publish revoked) _ (publish-none k.publish revoked) (λ g h. after g h))
  where
    after :
        (g : Option String)
        → (g ≡ none → (k.publish ≡ granted) × (revoked_failure x.p.revoked_at ≡ none))
        → Ensures (λ f. f ≡ none → Clear k x p) (review_failure k x p (documents_failure k x g))
    after g h =
        imp (review_failure k x p (documents_failure k x g))
          (review-none k x p (documents_failure k x g))
      where
        imp :
            (t : Tx (Option String))
            → Ensures
                (λ f.
                  f ≡ none
                  → (documents_failure k x g ≡ none)
                    × ((x.r.action == "review") ≡ true → p.reviewed && k.review_delivered ≡ true))
                t
            → Ensures (λ f. f ≡ none → Clear k x p) t
        imp (thrown e) q = tt
        imp (done f) q = λ none'.
            let (d, r) = q none' in
            let (clear, delivered) = documents-none k x g d in
            let (a, u) = h clear in
            record {
              authorized = a;
              unrevoked = revoked-none x.p.revoked_at u;
              documents = delivered;
              reviewed = r;
            }

code-none :
    (k : Submission) (x : Locked) (p : Payload) (f : Option String)
    → Succeeds p
    → Ensures
        (λ g.
          g ≡ none
          → (f ≡ none)
            × (truthy p.artifact_id ≡ true → k.code_admissible ≡ true)
            × (truthy p.artifact_id ≡ false
                → x.r.action == "task_implementation" || x.r.access == "repo_write" ≡ false))
        (code_failure k x p f)
unfolding code_failure
code-none k x p f ok =
    let P : Option String → Type 0 = λ g.
      g ≡ none
      → (f ≡ none)
        × (truthy p.artifact_id ≡ true → k.code_admissible ≡ true)
        × (truthy p.artifact_id ≡ false
            → x.r.action == "task_implementation" || x.r.access == "repo_write" ≡ false) in
    if_cases (Ensures P) (truthy p.artifact_id)
      (λ code.
        if_cases (Ensures P) k.code_admissible (λ e h. (h, (λ _. e), λ no. absurd_bool no code))
          (λ e. tt))
      (λ bare.
        if_cases (Ensures P)
          (is_succeeded p.outcome
            && (x.r.action == "task_implementation" || x.r.access == "repo_write"))
          (λ e h. absurd_option (sym h))
          (λ e h.
            (h, (λ code. absurd_bool bare code), λ _. rest_of (is_succeeded p.outcome) _ ok e)))
  where
    rest_of : (a b : Bool) → a ≡ true → a && b ≡ false → b ≡ false
    rest_of a b h e = ground arith

fail_if-success :
    (f : Option String) (p : Payload) → Succeeds (fail_if f p) → (f ≡ none) × (fail_if f p ≡ p)
fail_if-success none p h = (refl, refl)
fail_if-success (some s) p h = absurd_bool refl h

-- A stage whose outcome is known to be a success.
judge_stage :
    (k : Submission) (x : Locked) (db : Db) (p : Payload)
    → may_finish k x db ≡ true
    → (Succeeds p → (p ≡ k.payload) × ((x.r.state == "CANCEL_REQUESTED") ≡ false))
    → (s : Bool) → is_succeeded p.outcome ≡ s
    → Ensures
        (λ q. Succeeds q → Judged k x db q)
        (success_failure k x p then λ f. code_failure k x p f then λ g. done (fail_if g p))
judge_stage k x db p may was false failed' =
    Ensures-then (λ _. Unit) _ (success_failure k x p) _ (Ensures-any (success_failure k x p))
      (λ f _.
        Ensures-then (λ _. Unit) _ (code_failure k x p f) _ (Ensures-any (code_failure k x p f))
          (λ g _ h.
            absurd_bool failed'
              (ap (λ q. is_succeeded q.outcome) (sym (fail_if-success g p h).1) ∙ h)))
judge_stage k x db p may was true ok =
    Ensures-then (λ f. f ≡ none → Clear k x p) _ (success_failure k x p) _ (failure-Clear k x p ok)
      (λ f clear.
        Ensures-then (IsClear f) _ (code_failure k x p f) _ (code-none k x p f ok) (λ g code h.
          let (none', same) = fail_if-success g p h in
          let (f_none, admissible, has_code) = code none' in
          subst (Judged k x db) (sym same) (judged (clear f_none) admissible has_code)))
  where
    IsClear : Option String → Option String → Type 0
    IsClear f g =
        g ≡ none
        → (f ≡ none)
          × (truthy p.artifact_id ≡ true → k.code_admissible ≡ true)
          × (truthy p.artifact_id ≡ false
              → x.r.action == "task_implementation" || x.r.access == "repo_write" ≡ false)

    judged :
        Clear k x p
        → (truthy p.artifact_id ≡ true → k.code_admissible ≡ true)
        → (truthy p.artifact_id ≡ false
            → x.r.action == "task_implementation" || x.r.access == "repo_write" ≡ false)
        → Judged k x db p
    judged c admissible has_code = record {
      unchanged = (was ok).0;
      finishable =
          may-Finishable k x db may (ap (λ q. is_succeeded q.outcome) (sym (was ok).0) ∙ ok);
      not_cancelled = (was ok).1;
      authorized = c.authorized;
      unrevoked = c.unrevoked;
      documents = c.documents;
      reviewed = c.reviewed;
      admissible = admissible;
      has_code = has_code;
    }

pub judge-Judged :
    (k : Submission) (x : Locked) (db : Db)
    → Ensures (λ q. Succeeds q → Judged k x db q) (judge k x db)
unfolding judge
judge-Judged k x db =
    if_cases (Ensures (λ q. Succeeds q → Judged k x db q)) (not (may_finish k x db)) (λ e. tt)
      (λ e.
        Ensures-then
          (λ p. Succeeds p → (p ≡ k.payload) × ((x.r.state == "CANCEL_REQUESTED") ≡ false)) _
          (respect_cancel x k.payload) _ (respect-success x k.payload)
          (λ p was.
            judge_stage k x db p (double_negation (may_finish k x db) e) was
              (is_succeeded p.outcome) refl))
