-- ===== src/Claim/Tier/Progress.antt =====
-- Who claims a job while workers defer to a higher tier (src/dispatch/eligibility.ts).
use mathlib.Core.List.{Memᴰ}
use text.Mathlib.Text.{starts_with}
use scrum4me_mcp.Prelude.{
  absurd_bool, ℕ, zero, suc, ◌+◌, ◌≤◌, ◌<◌, ◌≡◌, ◌⊎◌, refl, Bool, true, false, not, ◌&&◌, Option,
  none, some, List, [], ◌∷◌, arith, inl, inr, Bool-cases, ltb, some?,
}
use scrum4me_mcp.Claim.Sql.{◌eq◌, ◌ne◌, sql_not, passes, passes-and}
use scrum4me_mcp.Claim.Job.{ClaimJob}
use scrum4me_mcp.Claim.Conditions.{Tables}
use scrum4me_mcp.Claim.Agreement.{HasProperIds}
use scrum4me_mcp.Claim.Queries.{where_fragment}
use scrum4me_mcp.Claim.Tier.{
  Tier, priority, outranks, Worker, stands_before, defers, input_of, could_claim, scope_of,
  within_quota,
}
use scrum4me_mcp.Claim.Tier.Guard.{query_of, superior_can_claim}

abbrev rank : Option Tier → ℕ
rank none = 0
rank (some t) = priority t

outranks-rank : (a b : Option Tier) → passes (outranks a b) ≡ true → rank b < rank a
outranks-rank a b h = ground arith

rank_bound : (a : Option Tier) → rank a ≤ 3
rank_bound none = ground arith
rank_bound (some t) = ground arith

-- A worker that was seen in the last 30 seconds, is within its quota and has no live job.
pub record IsReady (now : ℕ) (v : Worker) : Type 0 where
  pub seen : ltb now (v.last_seen_at + 30000) ≡ true
  pub has_quota : passes (within_quota v) ≡ true
  pub idle : v.has_live_job ≡ false

superior-IsReady :
    (v w : Worker) (now : ℕ) (cj : ClaimJob)
    → passes (stands_before (input_of v) now cj w) ≡ true
    → IsReady now w × (rank v.capability < rank w.capability)
unfolding stands_before
superior-IsReady v w now cj h =
    let h' = simp passes-and at h in
    let (above, seen, quota, idle) =
      all_of (passes (w.user_id eq v.user_id)) (passes (scope_of w.product_id cj.product_id))
        (passes (w.runtime eq v.runtime)) (passes (w.instance_id ne v.instance_id))
        (passes (sql_not (some (starts_with w.instance_id "managed:"))))
        (passes (outranks w.capability v.capability)) (passes (could_claim w.capabilities cj))
        (ltb now (w.last_seen_at + 30000)) (passes (within_quota w)) w.has_live_job h' in
    (
      record { seen = seen; has_quota = quota; idle = idle },
      outranks-rank w.capability v.capability above,
    )
  where
    all_of :
        (a b c d e above g seen quota busy : Bool)
        → (a && b && c && d && e && above && g && seen && quota && not busy) ≡ true
        → (above ≡ true) × (seen ≡ true) × (quota ≡ true) × (busy ≡ false)
    all_of a b c d e above g seen quota busy h = ground arith

some?-found :
    (p : Worker → Bool) (ws : List Worker)
    → some? p ws ≡ true
    → (w : Worker) × Memᴰ w ws × (p w ≡ true)
some?-found p [] h = absurd_bool refl h
some?-found p (w ∷ ws) h = elim (Bool-cases (p w)) [
  | inl e ↦ (w, Memᴰ.head refl, e)
  | inr e ↦ let (v, m, k) = some?-found p ws (rw e at h) in (v, Memᴰ.tail m, k)
]

module _ (db : Tables) (now : ℕ) (cj : ClaimJob) (ids : HasProperIds cj) (w : Worker)
    (ws : List Worker) where
  abbrev IsCandidate : Worker → Type 0
  IsCandidate v = (v ≡ w) ⊎ (Memᴰ v ws × IsReady now v)

  IsClaimer : Worker → Type 0
  IsClaimer v = IsCandidate v × (passes (where_fragment db (query_of v) cj) ≡ true)

  -- A worker that may claim defers to nobody, or to one of a higher tier that may claim.
  superior :
      (v : Worker)
      → IsClaimer v
      → (defers (input_of v) now cj ws ≡ false)
        ⊎ ((u : Worker) × IsClaimer u × (rank v.capability < rank u.capability))
  unfolding defers IsClaimer
  superior v (candidate, keeps) = elim (Bool-cases (defers (input_of v) now cj ws)) [
    | inr free ↦ inl free
    | inl yields ↦
        let (u, m, before) =
          some?-found (λ x. passes (stands_before (input_of v) now cj x)) ws yields in
        let (ready, above) = superior-IsReady v u now cj before in
        inr (
          u,
          (
            inr (m, ready),
            superior_can_claim db (query_of v) v.instance_id v.capability now cj u ids keeps before,
          ),
          above,
        )
  ]

  -- A tier is left behind with each step.
  climb :
      (n : ℕ) (v : Worker)
      → 3 ≤ n + rank v.capability
      → IsClaimer v
      → (x : Worker) × IsClaimer x × (defers (input_of x) now cj ws ≡ false)
  climb zero v enough may = elim (superior v may) [
    | inl free ↦ (v, may, free)
    | inr (u, above_may, above) ↦ absurd (omega (arith, rank_bound u.capability))
  ]
  climb (suc n) v enough may = elim (superior v may) [
    | inl free ↦ (v, may, free)
    | inr (u, above_may, above) ↦ climb n u (omega arith) above_may
  ]

  -- Deferring never stalls a job that a worker's query keeps: either this worker, or a worker of the
  -- table that was seen in the last 30 seconds, is within its quota and has no live job, has a query
  -- that keeps the job and defers to nobody of the table. The job's ids are proper.
  pub some_worker_claims :
      passes (where_fragment db (query_of w) cj) ≡ true
      → (v : Worker) × ((v ≡ w) ⊎ (Memᴰ v ws × IsReady now v))
        × (passes (where_fragment db (query_of v) cj) ≡ true)
        × (defers (input_of v) now cj ws ≡ false)
  unfolding IsClaimer
  some_worker_claims keeps =
      let (v, (candidate, kept), free) = climb 3 w (omega arith) (inl refl, keeps) in
      (v, candidate, kept, free)
