-- ===== src/Claim/Isolation.antt =====
-- Who can never claim what (src/dispatch/eligibility.ts).
use scrum4me_mcp.Prelude.{
  ◌≡◌, ◌≢◌, String, true, some, List, [], ◌∷◌, ◌==◌, eq_iff, arith, includes, inl, inr, Bool-cases,
}
use scrum4me_mcp.Claim.Job.{ClaimJob, ClaimExecutor}
use scrum4me_mcp.Claim.Predicates.{binding, capability, by_capabilities}

-- No job is bound to both a managed and an ordinary executor.
binding_separates :
    (j : ClaimJob) (e f : ClaimExecutor)
    → binding j e ≡ true
    → binding j f ≡ true
    → e.managed ≡ f.managed
unfolding binding
binding_separates j e f h k = ground arith

listed :
    (cs : List String) (j : ClaimJob) (c : String)
    → by_capabilities cs j ≡ true
    → j.required_capability ≡ some c
    → includes cs c ≡ true
listed [] j c h r = ground arith
listed (d ∷ []) j c h r = ground (arith, eq_iff c d)
listed (d ∷ b ∷ cs) j c h r = ground arith

-- A job that requires a capability is claimed only by an executor that lists it and whose runtime is
-- not HARNESS, dedicated workers included.
required_is_listed :
    (j : ClaimJob) (e : ClaimExecutor) (c : String)
    → capability j e ≡ true
    → j.required_capability ≡ some c
    → (includes e.capabilities c ≡ true) × (e.runtime ≢ "HARNESS")
unfolding capability
required_is_listed j e c h r = elim (Bool-cases (e.runtime == "HARNESS")) [
  | inl p ↦ ground arith
  | inr p ↦ (listed e.capabilities j c (rw p at h) r, ground (arith, eq_iff e.runtime "HARNESS"))
]
