-- ===== src/Queue/Maintenance/Survival.antt =====
-- src/queue/lease-refresh.ts against src/queue/sweep.ts: a process that refreshes its leases keeps
-- its claims.
use mathlib.Core.Option
use scrum4me_mcp.Prelude.{
  ℕ, ◌+◌, ◌≤◌, ◌≡◌, refl, ap, ◌∙◌, String, Bool, true, false, Option, some, List, [], ◌∷◌, ◌==◌,
  arith, find_by, find_by-id, find_by-map, eq_iff, Bool-cases, inl, inr,
}
use scrum4me_mcp.Queue.Message.{Message, Vocabulary}
use scrum4me_mcp.Queue.Ownership.{Lease, get_lease}
use scrum4me_mcp.Queue.Claim.{is_held_by}
use scrum4me_mcp.Queue.Finish.{Process}
use scrum4me_mcp.Queue.Maintenance.{
  mcp_lease_stale_interval, is_mcp_claim, is_stale, sweep_row, sweep_stale_queue_claims,
  matches_lease, refresh_row, refresh_lease, refresh_leases, refresh_queue_leases,
}

abbrev pub fresh_row : ℕ → Message → Message
fresh_row now m = record m { claimed_at = some now }

refresh_row-id : (now : ℕ) (l : Lease) (m : Message) → (refresh_row now l m).id ≡ m.id
unfolding refresh_row
refresh_row-id now l m = ground arith

refresh_row-fresh :
    (now : ℕ) (l : Lease) (m : Message) → refresh_row now l (fresh_row now m) ≡ fresh_row now m
unfolding refresh_row
refresh_row-fresh now l m = ground arith

refresh_row-matched :
    (now : ℕ) (l : Lease) (m : Message)
    → matches_lease l m ≡ true
    → refresh_row now l m ≡ fresh_row now m
unfolding refresh_row
refresh_row-matched now l m h = ground arith

refresh_row-other :
    (now : ℕ) (l : Lease) (m : Message) → (m.id == l.message_id) ≡ false → refresh_row now l m ≡ m
unfolding refresh_row
refresh_row-other now l m h = ground arith

module _ (now : ℕ) (reached : String → Bool) (id : String) where
  abbrev message_in : Process → Option Message
  message_in p = find_by (λ m. m.id) id p.queue.messages

  refresh_lease-reached :
      (l : Lease) (p : Process)
      → reached l.message_id ≡ true
      → message_in (refresh_lease now reached l p) ≡ Option.map (refresh_row now l) (message_in p)
  unfolding refresh_lease
  refresh_lease-reached l p h = ground (
    arith,
    find_by-map (λ (m : Message). m.id) (refresh_row now l) (refresh_row-id now l) id
        p.queue.messages,
  )

  refresh_lease-unreached :
      (l : Lease) (p : Process) → reached l.message_id ≡ false → refresh_lease now reached l p ≡ p
  unfolding refresh_lease
  refresh_lease-unreached l p h = rw h refl

  fresh_stays_once :
      (l : Lease) (p : Process) (m : Message)
      → message_in p ≡ some (fresh_row now m)
      → message_in (refresh_lease now reached l p) ≡ some (fresh_row now m)
  fresh_stays_once l p m here = elim (Bool-cases (reached l.message_id)) [
    | inl e ↦
        refresh_lease-reached l p e
        ∙ ap (Option.map (refresh_row now l)) here
        ∙ ap some (refresh_row-fresh now l m)
    | inr e ↦ ap (λ (b : Process). message_in b) (refresh_lease-unreached l p e) ∙ here
  ]

  fresh_stays :
      (ls : List Lease) (p : Process) (m : Message)
      → message_in p ≡ some (fresh_row now m)
      → message_in (refresh_leases now reached ls p) ≡ some (fresh_row now m)
  unfolding refresh_leases
  fresh_stays [] p m here = here
  fresh_stays (l ∷ ls) p m here =
      fresh_stays ls (refresh_lease now reached l p) m (fresh_stays_once l p m here)

  other_stays :
      (l : Lease) (p : Process) (m : Message)
      → (l.message_id == id) ≡ false
      → message_in p ≡ some m
      → message_in (refresh_lease now reached l p) ≡ some m
  other_stays l p m other here = elim (Bool-cases (reached l.message_id)) [
    | inl e ↦
        refresh_lease-reached l p e
        ∙ ap (Option.map (refresh_row now l)) here
        ∙ ap some (
            refresh_row-other now l m (
              ground (
                arith,
                other,
                find_by-id (λ (m : Message). m.id) id p.queue.messages here,
                eq_iff m.id l.message_id,
                eq_iff l.message_id id,
              )))
    | inr e ↦ ap (λ (b : Process). message_in b) (refresh_lease-unreached l p e) ∙ here
  ]

  held_is_refreshed :
      (ls : List Lease) (l : Lease) (p : Process) (m : Message)
      → get_lease ls id ≡ some l
      → message_in p ≡ some m
      → is_held_by l.claimed_by m ≡ true
      → reached id ≡ true
      → message_in (refresh_leases now reached ls p) ≡ some (fresh_row now m)
  unfolding refresh_leases get_lease
  held_is_refreshed [] l p m leased here held up = cc
  held_is_refreshed (x ∷ ls) l p m leased here held up = elim (Bool-cases (x.message_id == id)) [
    | inl e ↦
        let same : x.message_id ≡ id = (eq_iff x.message_id id).0 e in
        let head : x ≡ l = ground arith in
        fresh_stays ls (refresh_lease now reached x p) m (
          refresh_lease-reached x p (ap reached same ∙ up)
          ∙ ap (Option.map (refresh_row now x)) here
          ∙ ap some (
              refresh_row-matched now x m (
                ground (
                  arith,
                  same,
                  ap (λ (k : Lease). k.claimed_by) head,
                  held,
                  find_by-id (λ (m : Message). m.id) id p.queue.messages here,
                  eq_iff m.id x.message_id,
                ))))
    | inr e ↦
        held_is_refreshed ls l (refresh_lease now reached x p) m (ground arith)
          (other_stays x p m e here) held up
  ]

fresh_not_stale :
    (v : Vocabulary) (now later : ℕ) (m : Message)
    → is_mcp_claim m.claimed_by ≡ true
    → later ≤ now + mcp_lease_stale_interval
    → is_stale v later (fresh_row now m) ≡ false
unfolding is_stale
fresh_not_stale v now later m mcp h = ground arith

sweep_row-id :
    (v : Vocabulary) (locked : List String) (now : ℕ) (m : Message)
    → (sweep_row v locked now m).id ≡ m.id
unfolding sweep_row
sweep_row-id v locked now m = ground arith

sweep_row-kept :
    (v : Vocabulary) (locked : List String) (now : ℕ) (m : Message)
    → is_stale v now m ≡ false
    → sweep_row v locked now m ≡ m
unfolding sweep_row
sweep_row-kept v locked now m h = ground arith

module _ (v : Vocabulary) (now later : ℕ) (reached : String → Bool) (locked : List String)
    (p : Process) where
  -- A message for which this process holds a lease, which is stored as claimed under the lease's
  -- `claimed_by` (an "mcp:" claim) and has no marker and no dispatch, is refreshed if the database
  -- answers for it. A sweep of any process that runs at most five minutes after the refresh leaves
  -- it as it was then: claimed by the same claimer, with the refresh's time.
  pub refreshed_claim_survives :
      (id : String) (l : Lease) (m : Message)
      → get_lease p.leases id ≡ some l
      → find_by (λ r. r.id) id p.queue.messages ≡ some m
      → is_held_by l.claimed_by m ≡ true
      → is_mcp_claim m.claimed_by ≡ true
      → reached id ≡ true
      → later ≤ now + mcp_lease_stale_interval
      → find_by
          (λ r. r.id)
          id
          (sweep_stale_queue_claims v locked later
            (refresh_queue_leases now reached p).queue).messages
        ≡ some (fresh_row now m)
  unfolding sweep_stale_queue_claims refresh_queue_leases
  refreshed_claim_survives id l m leased here held mcp up soon =
      find_by-map (λ (r : Message). r.id) (sweep_row v locked later) (sweep_row-id v locked later)
        id (refresh_leases now reached p.leases p).queue.messages
      ∙ ap (Option.map (sweep_row v locked later))
          (held_is_refreshed now reached id p.leases l p m leased here held up)
      ∙ ap some
          (sweep_row-kept v locked later (fresh_row now m) (fresh_not_stale v now later m mcp soon))
