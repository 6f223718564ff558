-- ===== src/Cancel/Cascade/Buckets.antt =====
-- The buckets of the cascade (src/cancel/pbi-cascade.ts).
use mathlib.Core.List.{Memᴰ}
use mathlib.Core.List.Memᴰ
use scrum4me_mcp.Prelude.{
  if_cases, some_injective, absurd_option, Bool-cases, ◌≡◌, refl, sym, ap, ◌∙◌, subst, inl, inr,
  arith, String, Bool, true, false, not, ◌&&◌, ◌||◌, ◌⊎◌, Option, none, some, List, [], ◌∷◌, ◌==◌,
  eq_iff, eq_refl, truthy, find?, if◌then◌else◌,
}
use scrum4me_mcp.Cancel.Cascade.{
  PbiJob, Bucket, same_repo, has_key, merge_pr, put_bucket, put_branch, put_job, buckets_from,
}

-- No two buckets are of the same branch of the same repository.
abbrev pub AreDistinct : List Bucket → Type 0
AreDistinct [] = Unit
AreDistinct (b ∷ bs) = (find? (has_key b.repo_url b.branch) bs ≡ none) × AreDistinct bs

-- The bucket of a branch, which has a pull request if `with_pr` asks for one.
abbrev pub IsCovered : Option String → String → Bool → List Bucket → Type 0
IsCovered repo branch with_pr bs =
    (b : Bucket) × (find? (has_key repo branch) bs ≡ some b)
    × (with_pr ≡ true → truthy b.pr_url ≡ true)

text-sym : (a b : String) → a == b ≡ b == a
text-sym a b = ground (arith, eq_iff a b, eq_iff b a)

same_repo_sym : (a b : Option String) → same_repo a b ≡ same_repo b a
same_repo_sym none none = refl
same_repo_sym none (some b) = refl
same_repo_sym (some a) none = refl
same_repo_sym (some a) (some b) = text-sym a b

same_repo_refl : (a : Option String) → same_repo a a ≡ true
same_repo_refl none = refl
same_repo_refl (some a) = eq_refl a

module _ (p : Bucket → Bool) where
  none-cons :
      (x : Bucket) (xs : List Bucket) → p x ≡ false → find? p xs ≡ none → find? p (x ∷ xs) ≡ none
  none-cons x xs h k = rw h k

  none-inv :
      (x : Bucket) (xs : List Bucket)
      → find? p (x ∷ xs) ≡ none
      → (p x ≡ false) × (find? p xs ≡ none)
  none-inv x xs h = elim (Bool-cases (p x)) [
    | inl passes ↦ absurd_option (sym (rw passes at h))
    | inr fails ↦ (fails, rw fails at h)
  ]

merge-key :
    (r : Option String) (c : String) (pr : Option String) (b : Bucket)
    → has_key r c (merge_pr pr b) ≡ has_key r c b
unfolding merge_pr
merge-key r c pr b =
    if_cases (λ m. has_key r c m ≡ has_key r c b) (not (truthy b.pr_url) && truthy pr) (λ _. refl)
      (λ _. refl)

merge-truthy :
    (pr : Option String) (b : Bucket)
    → (truthy b.pr_url || truthy pr) ≡ true
    → truthy (merge_pr pr b).pr_url ≡ true
unfolding merge_pr
merge-truthy pr b h =
    if_cases (λ (m : Bucket). truthy m.pr_url ≡ true) (not (truthy b.pr_url) && truthy pr)
      (λ e. ground arith) (λ e. ground arith)

module _ (r : Option String) (c : String) (with_pr : Bool) where
  IsCovered-here :
      (x : Bucket) (bs : List Bucket)
      → has_key r c x ≡ true
      → (with_pr ≡ true → truthy x.pr_url ≡ true)
      → IsCovered r c with_pr (x ∷ bs)
  IsCovered-here x bs h p = (x, rw h refl, p)

  IsCovered-there :
      (x : Bucket) (bs : List Bucket)
      → has_key r c x ≡ false
      → IsCovered r c with_pr bs
      → IsCovered r c with_pr (x ∷ bs)
  IsCovered-there x bs h (b, e, p) = (b, rw h e, p)

  IsCovered-inv :
      (x : Bucket) (bs : List Bucket)
      → IsCovered r c with_pr (x ∷ bs)
      → ((has_key r c x ≡ true) × (with_pr ≡ true → truthy x.pr_url ≡ true))
        ⊎ ((has_key r c x ≡ false) × IsCovered r c with_pr bs)
  IsCovered-inv x bs (b, e, p) = elim (Bool-cases (has_key r c x)) [
    | inl here ↦
        let same : x ≡ b = some_injective (rw here at e) in
        inl (here, λ w. ap (λ y. truthy y.pr_url) same ∙ p w)
    | inr other ↦ inr (other, (b, rw other at e, p))
  ]

module _ (repo : Option String) (branch : String) (pr : Option String) where
  put-none :
      (r : Option String) (c : String) (bs : List Bucket)
      → (same_repo repo r && branch == c) ≡ false
      → find? (has_key r c) bs ≡ none
      → find? (has_key r c) (put_bucket repo branch pr bs) ≡ none
  unfolding put_bucket
  put-none r c [] differs h =
      none-cons (has_key r c) (record { repo_url = repo; branch = branch; pr_url = pr }) [] differs
        refl
  put-none r c (b ∷ bs) differs h =
      let (head, tail) = none-inv (has_key r c) b bs h in
      if_cases (λ l. find? (has_key r c) l ≡ none) (has_key repo branch b)
        (λ _. none-cons (has_key r c) (merge_pr pr b) bs (merge-key r c pr b ∙ head) tail)
        (λ _.
          none-cons (has_key r c) b (put_bucket repo branch pr bs) head
            (put-none r c bs differs tail))

  merge-AreDistinct :
      (b : Bucket) (bs : List Bucket) → AreDistinct (b ∷ bs) → AreDistinct (merge_pr pr b ∷ bs)
  unfolding merge_pr
  merge-AreDistinct b bs h =
      if_cases (λ m. AreDistinct (m ∷ bs)) (not (truthy b.pr_url) && truthy pr) (λ _. h) (λ _. h)

  put-AreDistinct : (bs : List Bucket) → AreDistinct bs → AreDistinct (put_bucket repo branch pr bs)
  unfolding put_bucket
  put-AreDistinct [] h = (refl, tt)
  put-AreDistinct (b ∷ bs) h =
      if_cases AreDistinct (has_key repo branch b) (λ _. merge-AreDistinct b bs h)
        (λ differs. (
          put-none b.repo_url b.branch bs
              (ap (λ e. e && branch == b.branch) (same_repo_sym repo b.repo_url)
                ∙ ap (λ e. same_repo b.repo_url repo && e) (text-sym branch b.branch)
                ∙ differs)
              h.0,
          put-AreDistinct bs h.1,
        ))

  put-IsCovered :
      (r : Option String) (c : String) (with_pr : Bool) (bs : List Bucket)
      → IsCovered r c with_pr bs
      → IsCovered r c with_pr (put_bucket repo branch pr bs)
  unfolding put_bucket
  put-IsCovered r c with_pr [] (b, h, p) = absurd_option h
  put-IsCovered r c with_pr (x ∷ bs) h = elim (IsCovered-inv r c with_pr x bs h) [
    | inl (here, p) ↦
        if_cases (IsCovered r c with_pr) (has_key repo branch x)
          (λ _.
            IsCovered-here r c with_pr (merge_pr pr x) bs (merge-key r c pr x ∙ here)
              (λ w. merge-truthy pr x (ap (λ t. t || truthy pr) (p w))))
          (λ _. IsCovered-here r c with_pr x (put_bucket repo branch pr bs) here p)
    | inr (other, later) ↦
        if_cases (IsCovered r c with_pr) (has_key repo branch x)
          (λ _. IsCovered-there r c with_pr (merge_pr pr x) bs (merge-key r c pr x ∙ other) later)
          (λ _.
            IsCovered-there r c with_pr x (put_bucket repo branch pr bs) other
              (put-IsCovered r c with_pr bs later))
  ]

  put-covers : (bs : List Bucket) → IsCovered repo branch (truthy pr) (put_bucket repo branch pr bs)
  unfolding put_bucket
  put-covers [] =
      IsCovered-here repo branch (truthy pr)
        (record { repo_url = repo; branch = branch; pr_url = pr }) []
        (ap (λ e. e && branch == branch) (same_repo_refl repo) ∙ eq_refl branch) (λ w. w)
  put-covers (x ∷ bs) =
      if_cases (IsCovered repo branch (truthy pr)) (has_key repo branch x)
        (λ here.
          IsCovered-here repo branch (truthy pr) (merge_pr pr x) bs
            (merge-key repo branch pr x ∙ here) (λ w. merge-truthy pr x (ground arith)))
        (λ other.
          IsCovered-there repo branch (truthy pr) x (put_bucket repo branch pr bs) other
            (put-covers bs))

branch-AreDistinct :
    (branch repo pr : Option String) (bs : List Bucket)
    → AreDistinct bs
    → AreDistinct (put_branch branch repo pr bs)
unfolding put_branch
branch-AreDistinct none repo pr bs h = h
branch-AreDistinct (some branch) repo pr bs h =
    if_cases AreDistinct (truthy (some branch)) (λ _. put-AreDistinct repo branch pr bs h) (λ _. h)

branch-IsCovered :
    (branch repo pr : Option String) (r : Option String) (c : String) (with_pr : Bool)
    (bs : List Bucket)
    → IsCovered r c with_pr bs
    → IsCovered r c with_pr (put_branch branch repo pr bs)
unfolding put_branch
branch-IsCovered none repo pr r c with_pr bs h = h
branch-IsCovered (some branch) repo pr r c with_pr bs h =
    if_cases (IsCovered r c with_pr) (truthy (some branch))
      (λ _. put-IsCovered repo branch pr r c with_pr bs h) (λ _. h)

from-AreDistinct :
    (js : List PbiJob) (bs : List Bucket) → AreDistinct bs → AreDistinct (buckets_from js bs)
unfolding buckets_from
from-AreDistinct [] bs h = h
from-AreDistinct (j ∷ js) bs h =
    from-AreDistinct js (put_job j bs) (branch-AreDistinct j.branch j.repo_url j.pr_url bs h)

from-IsCovered :
    (r : Option String) (c : String) (with_pr : Bool) (js : List PbiJob) (bs : List Bucket)
    → IsCovered r c with_pr bs
    → IsCovered r c with_pr (buckets_from js bs)
unfolding buckets_from
from-IsCovered r c with_pr [] bs h = h
from-IsCovered r c with_pr (j ∷ js) bs h =
    from-IsCovered r c with_pr js (put_job j bs)
      (branch-IsCovered j.branch j.repo_url j.pr_url r c with_pr bs h)

branch-covers :
    (branch repo pr : Option String) (c : String) (bs : List Bucket)
    → branch ≡ some c
    → truthy (some c) ≡ true
    → IsCovered repo c (truthy pr) (put_branch branch repo pr bs)
unfolding put_branch
branch-covers branch repo pr c bs e named =
    subst (λ b. IsCovered repo c (truthy pr) (put_branch b repo pr bs)) (sym e)
      (subst (λ t. IsCovered repo c (truthy pr) (if t then put_bucket repo c pr bs else bs))
        (sym named) (put-covers repo c pr bs))

from-covers :
    (js : List PbiJob) (bs : List Bucket) (j : PbiJob) (c : String)
    → Memᴰ j js
    → j.branch ≡ some c
    → truthy (some c) ≡ true
    → IsCovered j.repo_url c (truthy j.pr_url) (buckets_from js bs)
unfolding buckets_from
from-covers [] bs j c m e named = absurd (Memᴰ.not-nil m)
from-covers (x ∷ js) bs j c (Memᴰ.head same) e named =
    from-IsCovered j.repo_url c (truthy j.pr_url) js (put_job x bs) (
      subst (λ y. IsCovered j.repo_url c (truthy j.pr_url) (put_job y bs)) same
        (branch-covers j.branch j.repo_url j.pr_url c bs e named))
from-covers (x ∷ js) bs j c (Memᴰ.tail m) e named = from-covers js (put_job x bs) j c m e named

-- The buckets of a list of jobs are of different branches, and every job with a branch finds its
-- branch of its repository among them, with a pull request if the job has one.
one_bucket_a_branch :
    (js : List PbiJob)
    → AreDistinct (buckets_from js [])
      × ((j : PbiJob) (c : String)
          → Memᴰ j js
          → j.branch ≡ some c
          → truthy (some c) ≡ true
          → IsCovered j.repo_url c (truthy j.pr_url) (buckets_from js []))
one_bucket_a_branch js =
    (from-AreDistinct js [] tt, λ j c m e named. from-covers js [] j c m e named)
