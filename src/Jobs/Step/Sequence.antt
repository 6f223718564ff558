-- ===== src/Jobs/Step/Sequence.antt =====
-- src/tools/wait-for-job.ts, the sprint-sequence condition of `tryClaimJob`, as an order of the tasks
-- of a sprint run.
use scrum4me_mcp.Prelude.{
  absurd_bool, ◌≡◌, ◌⊎◌, refl, sym, ap, ◌∙◌, subst, String, Bool, true, false, Option, none, some,
  arith, ◌==◌, Bool-cases, inl, inr, find_by, find_by-update_by, update_by, eq_iff,
}
use scrum4me_mcp.Jobs.Table.{JobRow, ChatMessage, Db, job_of}
use scrum4me_mcp.Jobs.Claim.{
  Surroundings, Claimer, is_claimable, claim_change, with_cutoff, cutoff_of, snapshot_of,
  claimed_row,
}
use scrum4me_mcp.Jobs.Step.{is_held, is_open, precedes}
use scrum4me_mcp.Jobs.Step.Change.{Keeps, Change}
use scrum4me_mcp.Jobs.Step.Claims.{claimable-first, claimable-queued}

-- While a task of a sprint run is held, no earlier task of the run is queued or held.
pub record IsSequential (db : Db) : Type 0 where
  pub in_order :
      (i k : String) {a b : JobRow}
      → job_of db i ≡ some a
      → job_of db k ≡ some b
      → precedes a b ≡ true
      → is_held b ≡ true
      → is_open a ≡ false

abbrev SamePlace : JobRow → JobRow → Type 0
SamePlace a b =
    (b.sprint_run_id ≡ a.sprint_run_id)
    × (b.kind ≡ a.kind)
    × (b.sprint_sequence ≡ a.sprint_sequence)

precedes-place :
    (a a' b b' : JobRow)
    → SamePlace a a'
    → SamePlace b b'
    → precedes a' b' ≡ true
    → precedes a b ≡ true
unfolding precedes
precedes-place a a' b b' p q h = ground arith

place_of : {a b : JobRow} → Keeps a b → SamePlace a b
place_of k = (k.same_run, k.same_kind, k.same_sequence)

-- The contrapositive, for a test that only holds of what it held of before.
not_before : (p q : Bool) → (p ≡ true → q ≡ true) → q ≡ false → p ≡ false
not_before true q f h = absurd_bool h (f refl)
not_before false q f h = refl

pub Change-IsSequential : {db db' : Db} → Change db db' → IsSequential db → IsSequential db'
Change-IsSequential c seq = record {
  in_order = λ i k at_i at_k before held.
      let (a, old_a, p) = c.from i at_i in
      let (b, old_b, q) = c.from k at_k in
      not_before _ _ p.stays_open (
        seq.in_order i k old_a old_b (precedes-place a _ b _ (place_of p) (place_of q) before)
          (q.stays_held held));
}

-- A claim changes no place and no retries.
cutoff-place :
    (m : Option ChatMessage) (j : JobRow)
    → SamePlace j (with_cutoff m j)
      × ((with_cutoff m j).id ≡ j.id)
      × ((with_cutoff m j).retry_count ≡ j.retry_count)
cutoff-place none j = ((refl, refl, refl), refl, refl)
cutoff-place (some m) j = ((refl, refl, refl), refl, refl)

pub claim_change-place :
    (s : Surroundings) (c : Claimer) (db : Db) (found j : JobRow)
    → SamePlace j (claim_change s c db found j)
      × ((claim_change s c db found j).id ≡ j.id)
      × ((claim_change s c db found j).retry_count ≡ j.retry_count)
unfolding claim_change
claim_change-place s c db found j =
    cutoff-place (cutoff_of s db found) (claimed_row s c (snapshot_of db found) j)

-- The row of an id after a claim of `j`: the claimed one, or the one that was there.
pub claimed_from :
    (s : Surroundings) (c : Claimer) (db db' : Db) (j : JobRow) (i : String) {b : JobRow}
    → db'.jobs ≡ update_by (λ r. r.id) j.id (claim_change s c db j) db.jobs
    → job_of db j.id ≡ some j
    → job_of db' i ≡ some b
    → (b ≡ claim_change s c db j j) ⊎ (job_of db i ≡ some b)
claimed_from s c db db' j i {b} e here at_i =
    let read =
      ap (find_by (λ (r : JobRow). r.id) i) e
      ∙ find_by-update_by (λ (r : JobRow). r.id) (claim_change s c db j)
          (λ r. (claim_change-place s c db j r).1) j.id i db.jobs in
    elim (Bool-cases (j.id == i)) [
      | inl same ↦
          let old = ap (job_of db) (sym ((eq_iff j.id i).0 same)) ∙ here in
          inl (ground (arith, read, old, same))
      | inr other ↦ inr (ground (arith, read, other))
    ]

precedes_irrefl : (j : JobRow) → precedes j j ≡ false
unfolding precedes
precedes_irrefl j = ground arith

queued→open : (j : JobRow) → (j.status == "QUEUED") ≡ true → is_open j ≡ true
queued→open j h = ground arith

module _ (s : Surroundings) (c : Claimer) (db db' : Db) (j : JobRow)
    (here : job_of db j.id ≡ some j) (claimable : is_claimable s c db j ≡ true)
    (e : db'.jobs ≡ update_by (λ r. r.id) j.id (claim_change s c db j) db.jobs)
    (seq : IsSequential db) where
  new_place : SamePlace j (claim_change s c db j j)
  new_place = (claim_change-place s c db j j).0

  -- The place of a row that is `j` after the claim.
  place_at : (a : JobRow) → a ≡ claim_change s c db j j → SamePlace j a
  place_at a same = subst (SamePlace j) (sym same) new_place

  pub claim-IsSequential : IsSequential db'
  claim-IsSequential = record {
    in_order = λ i k {a} {b} at_i at_k before held. elim (claimed_from s c db db' j k e here at_k) [
      | inl new_b ↦ elim (claimed_from s c db db' j i e here at_i) [
        | inl new_a ↦
            absurd_bool (precedes_irrefl j)
              (precedes-place j a j b (place_at a new_a) (place_at b new_b) before)
        | inr old_a ↦
            claimable-first s c db j i claimable old_a
              (precedes-place a a j b (refl, refl, refl) (place_at b new_b) before)
      ]
      | inr old_b ↦ elim (claimed_from s c db db' j i e here at_i) [
        | inl new_a ↦
            absurd_bool
              (seq.in_order j.id k here old_b
                (precedes-place j a b b (place_at a new_a) (refl, refl, refl) before) held)
              (queued→open j (claimable-queued s c db j claimable))
        | inr old_a ↦ seq.in_order i k old_a old_b before held
      ]
    ];
  }
