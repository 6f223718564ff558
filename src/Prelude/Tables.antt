-- ===== src/Prelude/Tables.antt =====
-- Database tables as lists of rows, read and written by id.
use Prim.Native.String.{String}
use mathlib.Core.Path.{◌≡◌, refl}
use mathlib.Core.List.{List, [], ◌∷◌}
use mathlib.Core.Option
use mathlib.Core.Option.{Option, none, some}
use native.Mathlib.Omega.{arith}
use text.Mathlib.Text.{◌==◌}
use text.Mathlib.TextEquality.{eq_iff}
use text.Mathlib.TextPositions.{eq_refl}
use scrum4me_mcp.Prelude.Tests.{if◌then◌else◌}
use scrum4me_mcp.Prelude.Lists.{find?}

-- A step of a transaction that throws, which undoes the whole transaction, is `none`.
infixl 5 ◌>>=◌
abbrev pub ◌>>=◌ {ℓ κ} : {A : Type ℓ} {B : Type κ} → Option A → (A → Option B) → Option B
none >>= f = none
some a >>= f = f a

pub >>=-eq-some {ℓ κ} :
    {A : Type ℓ} {B : Type κ} (m : Option A) (f : A → Option B) {b : B}
    → (m >>= f) ≡ some b
    → (a : A) × (m ≡ some a) × (f a ≡ some b)
>>=-eq-some none f h = cc
>>=-eq-some (some a) f h = (a, refl, h)

module _ {A : Type 0} (id_of : A → String) where
  -- `findUnique({ where: { id } })`.
  abbrev pub find_by : String → List A → Option A
  find_by id rows = find? (λ r. id_of r == id) rows

  -- `update({ where: { id } })` of a row that is there.
  unfoldable pub update_by : String → (A → A) → List A → List A
  update_by id f [] = []
  update_by id f (r ∷ rows) = (if id_of r == id then f r else r) ∷ update_by id f rows

  -- A row that is found has the id.
  pub find_by-id : (id : String) (rows : List A) {r : A} → find_by id rows ≡ some r → id_of r ≡ id
  find_by-id id [] h = cc
  find_by-id id (x ∷ rows) {r} h = ground (arith, eq_iff (id_of x) id, find_by-id id rows {r = r})

  module _ (f : A → A) (keeps : (r : A) → id_of (f r) ≡ id_of r) where
    -- A row read back after an update is the updated row, or as it was if its id is another.
    pub find_by-update_by :
        (id j : String) (rows : List A)
        → find_by j (update_by id f rows)
          ≡ (if id == j then Option.map f (find_by j rows) else find_by j rows)
    unfolding update_by
    find_by-update_by id j [] = ground arith
    find_by-update_by id j (r ∷ rows) = ground (
      arith,
      find_by-update_by id j rows,
      keeps r,
      eq_iff (id_of r) id,
      eq_iff (id_of r) j,
      eq_iff id j,
    )

    pub find_by-update_by_self :
        (id : String) (rows : List A) {r : A}
        → find_by id rows ≡ some r
        → find_by id (update_by id f rows) ≡ some (f r)
    find_by-update_by_self id rows h = rw (find_by-update_by id id rows, eq_refl, h)
