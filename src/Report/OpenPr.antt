-- ===== src/Report/OpenPr.antt =====
-- src/tools/update-job-status.ts, `firstOpenPrUrl`. `state_of` is `getPullRequestState` of
-- src/git/pr.ts, `none` where it reports an error.
use scrum4me_mcp.Prelude.{
  ◌≡◌, refl, ap, ◌∙◌, arith, String, Bool, true, false, not, ◌&&◌, ◌||◌, Option, none, some, List,
  [], ◌∷◌, ◌==◌, eq_iff, includes, All, Bool-cases, inl, inr, if◌then◌else◌,
}

-- A lookup that failed counts as open.
abbrev pub may_be_open : Option String → Bool
may_be_open none = true
may_be_open (some state) = state == "OPEN"

module _ (state_of : String → Option String) where
  pub first_open_from : List String → List (Option String) → Option String
  first_open_from seen [] = none
  first_open_from seen (none ∷ urls) = first_open_from seen urls
  first_open_from seen (some u ∷ urls) =
      let skipped = first_open_from seen urls in
      let passed = first_open_from (u ∷ seen) urls in
      if u == "" || includes seen u
      then skipped
      else if may_be_open (state_of u)
      then some u
      else passed

  pub first_open_pr_url : List (Option String) → Option String
  unfolding first_open_from
  first_open_pr_url urls = first_open_from [] urls

  -- An entry that may be reused.
  abbrev pub reusable : Option String → Bool
  reusable none = false
  reusable (some u) = not (u == "") && may_be_open (state_of u)

  -- What `find` by that test would give.
  abbrev pub first_reusable : List (Option String) → Option String
  first_reusable [] = none
  first_reusable (none ∷ urls) = first_reusable urls
  first_reusable (some u ∷ urls) =
      let rest = first_reusable urls in if reusable (some u) then some u else rest

  seen_closed :
      (seen : List String) (u : String)
      → All (λ s. may_be_open (state_of s) ≡ false) seen
      → includes seen u ≡ true
      → may_be_open (state_of u) ≡ false
  seen_closed [] u h k = cc
  seen_closed (s ∷ seen) u h k = elim (Bool-cases (u == s)) [
    | inl e ↦ ap (λ x. may_be_open (state_of x)) ((eq_iff u s).0 e) ∙ h.0
    | inr e ↦ seen_closed seen u h.1 (ground arith)
  ]

  from_seen :
      (seen : List String) (urls : List (Option String))
      → All (λ s. may_be_open (state_of s) ≡ false) seen
      → first_open_from seen urls ≡ first_reusable urls
  unfolding first_open_from
  from_seen seen [] h = refl
  from_seen seen (none ∷ urls) h = from_seen seen urls h
  from_seen seen (some u ∷ urls) h = elim (Bool-cases (may_be_open (state_of u))) [
    | inl e ↦ ground (arith, from_seen seen urls h, seen_closed seen u h)
    | inr e ↦ ground (arith, from_seen seen urls h, from_seen (u ∷ seen) urls (e, h))
  ]

  -- Skipping URLs that were looked up before changes nothing: the result is the first non-empty URL
  -- of the list whose pull request is open or could not be looked up, and there is none only where
  -- every non-empty URL of the list has a pull request that is not open.
  first_open-first_reusable :
      (urls : List (Option String)) → first_open_pr_url urls ≡ first_reusable urls
  unfolding first_open_pr_url
  first_open-first_reusable urls = from_seen [] urls tt
