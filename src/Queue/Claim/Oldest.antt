-- ===== src/Queue/Claim/Oldest.antt =====
-- src/queue/claim.ts: which row `ORDER BY created_at, id LIMIT 1` picks, and what a claim does.
use mathlib.Core.Option
use scrum4me_mcp.Prelude.{
  absurd_bool, absurd_option, some_injective, ℕ, ◌≡◌, refl, sym, ap, ◌∙◌, String, Bool, true, false,
  not, ◌&&◌, Option, none, some, List, [], ◌∷◌, ◌==◌, arith, find_by, All, All-imp, some?, includes,
  HasKeys, eq_iff, eq_refl, find_by-update_by, if◌then◌else◌, Option-cases, Bool-cases, inl, inr,
}
use scrum4me_mcp.Queue.Message.{Address, Message, Queue, Vocabulary}
use scrum4me_mcp.Queue.Claim.{
  is_next_request, comes_before, first_row, claim_row, take_row, claim_next_request,
}

module _ (v : Vocabulary) (p : Message → Bool) where
  pub first_row-passes : (ms : List Message) (r : Message) → first_row v p ms ≡ some r → p r ≡ true
  unfolding first_row
  first_row-passes [] r h = cc
  first_row-passes (m ∷ ms) r h = ground (arith, first_row-passes ms r)

  pub first_row-found :
      (ms : List Message) (r : Message)
      → HasKeys (λ m. m.id) ms
      → first_row v p ms ≡ some r
      → find_by (λ m. m.id) r.id ms ≡ some r
  unfolding first_row HasKeys
  first_row-found [] r keys h = cc
  first_row-found (m ∷ ms) r keys h =
      ground (arith, keys.0, first_row-found ms r keys.1, eq_iff m.id r.id, eq_refl m.id)

  -- No row passes where none is picked.
  pub first_row-none : (ms : List Message) → first_row v p ms ≡ none → some? p ms ≡ false
  unfolding first_row
  first_row-none [] h = refl
  first_row-none (m ∷ ms) h = ground (arith, first_row-none ms)

never_passes :
    (p : Message → Bool) (ms : List Message) → some? p ms ≡ false → All (λ m. p m ≡ false) ms
never_passes p [] h = tt
never_passes p (m ∷ ms) h = (ground arith, never_passes p ms (ground arith))

-- The ids are ordered, as `uuid` is in the database.
pub record IsIdOrder (v : Vocabulary) : Type 0 where
  pub asym : (a b : String) → v.id_before a b ≡ true → v.id_before b a ≡ false
  pub trans :
      (a b c : String) → v.id_before a b ≡ false → v.id_before b c ≡ false → v.id_before a c ≡ false

module _ (v : Vocabulary) (order : IsIdOrder v) where
  comes_before-asym : (a b : Message) → comes_before v a b ≡ true → comes_before v b a ≡ false
  unfolding comes_before
  comes_before-asym a b h = ground (arith, order.asym a.id b.id)

  comes_before_trans :
      (a b c : Message)
      → comes_before v a b ≡ false
      → comes_before v b c ≡ false
      → comes_before v a c ≡ false
  unfolding comes_before
  comes_before_trans a b c h k = ground (arith, order.trans a.id b.id c.id)

  comes_before_self : (a : Message) → comes_before v a a ≡ false
  comes_before_self a = ground (arith, comes_before-asym a a)

  -- Nothing that passes comes before the row that is picked.
  pub first_row-first :
      (p : Message → Bool) (ms : List Message) (r : Message)
      → first_row v p ms ≡ some r
      → All (λ m. p m ≡ true → comes_before v m r ≡ false) ms
  unfolding first_row
  first_row-first p [] r h = tt
  first_row-first p (m ∷ ms) r h = elim (Option-cases (first_row v p ms)) [
    | inl e ↦ (
      ground (arith, comes_before_self m),
      All-imp (λ x. p x ≡ false) (λ x. p x ≡ true → comes_before v x r ≡ false)
          (λ x a b. absurd_bool a b) ms (never_passes p ms (first_row-none v p ms e)),
    )
    | inr (best, e) ↦
        let below : comes_before v best r ≡ false =
          ground (arith, comes_before_self m, comes_before_self best) in
        (
          ground (arith, comes_before_self m, comes_before-asym best m),
          All-imp (λ x. p x ≡ true → comes_before v x best ≡ false)
              (λ x. p x ≡ true → comes_before v x r ≡ false)
              (λ x k yes. comes_before_trans x best r (k yes) below) ms
              (first_row-first p ms best e),
        )
  ]

-- The rows that a claim chooses from.
abbrev pub may_claim : Vocabulary → List String → Address → ℕ → Message → Bool
may_claim v locked self now m = is_next_request v self now m && not (includes locked m.id)

module _ (v : Vocabulary) (locked : List String) (self : Address) (claimed_by : String) (now : ℕ)
    (q : Queue) where
  -- A claim by what the table's query finds.
  pub claim-first_row :
      {found : Option Message}
      → first_row v (may_claim v locked self now) q.messages ≡ found
      → claim_next_request v locked self claimed_by now q
        ≡ take_row (claim_row claimed_by now) found q
  unfolding claim_next_request
  claim-first_row e = ap (λ c. take_row (claim_row claimed_by now) c q) e

  -- A claim that returns a row took the row that the query finds.
  pub claim-taken :
      {taken : Message}
      → (claim_next_request v locked self claimed_by now q).1 ≡ some taken
      → (m : Message) × (first_row v (may_claim v locked self now) q.messages ≡ some m)
        × (taken ≡ claim_row claimed_by now m)
  unfolding take_row
  claim-taken {taken} h =
      elim (Option-cases (first_row v (may_claim v locked self now) q.messages)) [
        | inl e ↦ absurd_option (ap (λ c. c.1) (sym (claim-first_row e)) ∙ h)
        | inr (m, e) ↦ (m, e, some_injective (sym h ∙ ap (λ c. c.1) (claim-first_row e)))
      ]

  -- Where a claim returns nothing, the table holds no request for the address that is not locked,
  -- and the table and the envelopes are as before.
  claim_misses_nothing :
      (claim_next_request v locked self claimed_by now q).1 ≡ none
      → (some? (may_claim v locked self now) q.messages ≡ false)
        × ((claim_next_request v locked self claimed_by now q).0 ≡ q)
  unfolding take_row
  claim_misses_nothing h =
      elim (Option-cases (first_row v (may_claim v locked self now) q.messages)) [
        | inl e ↦ (
          first_row-none v (may_claim v locked self now) q.messages e,
          ap (λ c. c.0) (claim-first_row e),
        )
        | inr (m, e) ↦ absurd_option (sym h ∙ ap (λ c. c.1) (claim-first_row e))
      ]

read_back :
    (change : Message → Message) (m : Message) (rows : List Message) {taken : Message}
    → taken ≡ change m
    → find_by (λ r. r.id) m.id rows ≡ some m
    → (id : String)
    → (if m.id == id
        then Option.map change (find_by (λ r. r.id) id rows)
        else find_by (λ r. r.id) id rows)
      ≡ (if m.id == id then some taken else find_by (λ r. r.id) id rows)
read_back change m rows {taken} t found id = elim (Bool-cases (m.id == id)) [
  | inl e ↦
      let here : find_by (λ (r : Message). r.id) id rows ≡ some m =
        ap (λ i. find_by (λ (r : Message). r.id) i rows) (sym ((eq_iff m.id id).0 e)) ∙ found in
      rw (e, here, t) refl
  | inr e ↦ rw e refl
]

module _ (v : Vocabulary) (order : IsIdOrder v) (locked : List String) (self : Address)
    (claimed_by : String) (now : ℕ) (q : Queue) (keys : HasKeys (λ m. m.id) q.messages) where
  -- A claim that returns a row took a stored row that is a request for the address and is not
  -- locked. No such row comes before it in the order of creation and id, the row that is returned
  -- is the row with the claim written in, and the table is as before but for that row.
  pub claim_takes_oldest :
      (taken : Message)
      → (claim_next_request v locked self claimed_by now q).1 ≡ some taken
      → (m : Message) × (find_by (λ r. r.id) m.id q.messages ≡ some m)
        × (may_claim v locked self now m ≡ true)
        × All (λ r. may_claim v locked self now r ≡ true → comes_before v r m ≡ false) q.messages
        × (taken ≡ claim_row claimed_by now m)
        × ((id : String)
            → find_by (λ r. r.id) id (claim_next_request v locked self claimed_by now q).0.messages
              ≡ (if m.id == id then some taken else find_by (λ r. r.id) id q.messages))
  unfolding take_row
  claim_takes_oldest taken h =
      let (m, e, t) = claim-taken v locked self claimed_by now q h in
      let found = first_row-found v (may_claim v locked self now) q.messages m keys e in
      (
        m,
        found,
        first_row-passes v (may_claim v locked self now) q.messages m e,
        first_row-first v order (may_claim v locked self now) q.messages m e,
        t,
        λ id.
            ap (λ c. find_by (λ (r : Message). r.id) id c.0.messages)
              (claim-first_row v locked self claimed_by now q e)
            ∙ find_by-update_by (λ (r : Message). r.id) (claim_row claimed_by now) (λ r. refl) m.id
                id q.messages
            ∙ read_back (claim_row claimed_by now) m q.messages t found id,
      )
