-- ===== src/Prelude/First.antt =====
-- `ORDER BY … LIMIT 1` of the rows that pass a test.
use Prim.Native.String.{String}
use mathlib.Core.Path.{◌≡◌, refl}
use mathlib.Core.Bool.{Bool, true, false}
use mathlib.Core.List.{List, [], ◌∷◌}
use mathlib.Core.Logic.{inl, inr}
use mathlib.Core.Option.{Option, none, some}
use native.Mathlib.Omega.{arith}
use text.Mathlib.TextEquality.{eq_iff}
use text.Mathlib.TextPositions.{eq_refl}
use scrum4me_mcp.Prelude.Tests.{absurd_bool, if◌then◌else◌, Option-cases}
use scrum4me_mcp.Prelude.Lists.{some?, All, All-imp}
use scrum4me_mcp.Prelude.Tables.{find_by}
use scrum4me_mcp.Prelude.Keys.{HasKeys}

-- The order of the query is total on the table, so it does not matter which of two rows that are
-- the same in it is taken.
unfoldable pub first_by : {A : Type 0} → (A → A → Bool) → (A → Bool) → List A → Option A
first_by before p [] = none
first_by before p (a ∷ rows) =
    let rest = first_by before p rows in
    if p a
    then elim rest [ none ↦ some a | some best ↦ some (if before best a then best else a) ]
    else rest

-- `before` is a strict order whose complement is transitive.
pub record IsOrder {A : Type 0} (before : A → A → Bool) : Type 0 where
  pub asym : (a b : A) → before a b ≡ true → before b a ≡ false
  pub trans : (a b c : A) → before a b ≡ false → before b c ≡ false → before a c ≡ false

module _ {A : Type 0} (before : A → A → Bool) (p : A → Bool) where
  pub first_by-passes : (rows : List A) {r : A} → first_by before p rows ≡ some r → p r ≡ true
  unfolding first_by
  first_by-passes [] h = cc
  first_by-passes (a ∷ rows) {r} h = ground (arith, first_by-passes rows {r = r})

  pub first_by-none : (rows : List A) → first_by before p rows ≡ none → some? p rows ≡ false
  unfolding first_by
  first_by-none [] h = refl
  first_by-none (a ∷ rows) h = ground (arith, first_by-none rows)

  never : (rows : List A) → some? p rows ≡ false → All (λ a. p a ≡ false) rows
  never [] h = tt
  never (a ∷ rows) h = (ground arith, never rows (ground arith))

  module _ (id_of : A → String) where
    pub first_by-found :
        (rows : List A) {r : A}
        → HasKeys id_of rows
        → first_by before p rows ≡ some r
        → find_by id_of (id_of r) rows ≡ some r
    unfolding first_by HasKeys
    first_by-found [] keys h = cc
    first_by-found (a ∷ rows) {r} keys h = ground (
      arith,
      keys.0,
      first_by-found rows {r = r} keys.1,
      eq_iff (id_of a) (id_of r),
      eq_refl (id_of a),
    )

  module _ (order : IsOrder before) where
    not_before_self : (a : A) → before a a ≡ false
    not_before_self a = ground (arith, order.asym a a)

    -- Nothing that passes comes before the one that is picked.
    pub first_by-first :
        (rows : List A) {r : A}
        → first_by before p rows ≡ some r
        → All (λ a. p a ≡ true → before a r ≡ false) rows
    unfolding first_by
    first_by-first [] h = tt
    first_by-first (a ∷ rows) {r} h = elim (Option-cases (first_by before p rows)) [
      | inl e ↦ (
        ground (arith, not_before_self a),
        All-imp (λ x. p x ≡ false) (λ x. p x ≡ true → before x r ≡ false)
            (λ x no yes'. absurd_bool no yes') rows (never rows (first_by-none rows e)),
      )
      | inr (best, e) ↦
          let below : before best r ≡ false =
            ground (arith, not_before_self a, not_before_self best) in
          (
            ground (arith, not_before_self a, order.asym best a),
            All-imp (λ x. p x ≡ true → before x best ≡ false) (λ x. p x ≡ true → before x r ≡ false)
                (λ x k passes. order.trans x best r (k passes) below) rows (first_by-first rows e),
          )
    ]
