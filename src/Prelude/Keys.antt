-- ===== src/Prelude/Keys.antt =====
-- Tables with a primary key: what keeps the ids of the rows, and which row an id finds.
use Prim.Native.String.{String}
use mathlib.Core.Path.{◌≡◌, refl}
use mathlib.Core.List.{List, [], ◌∷◌, ◌++◌, map}
use mathlib.Core.Option
use mathlib.Core.Option.{Option, none, some}
use native.Mathlib.Omega.{arith}
use text.Mathlib.Text.{◌==◌}
use text.Mathlib.TextEquality.{eq_iff}
use scrum4me_mcp.Prelude.Tests.{if◌then◌else◌}
use scrum4me_mcp.Prelude.Tables.{find_by, update_by}

module _ {A : Type 0} (id_of : A → String) where
  -- No two rows have the same id.
  unfoldable pub HasKeys : List A → Type 0
  HasKeys [] = Unit
  HasKeys (r ∷ rows) = (find_by id_of (id_of r) rows ≡ none) × HasKeys rows

  -- An update is a map over the table.
  abbrev pub updated : String → (A → A) → A → A
  updated id f r = if id_of r == id then f r else r

  pub update_by-map :
      (id : String) (f : A → A) (rows : List A)
      → update_by id_of id f rows ≡ map (updated id f) rows
  unfolding update_by
  update_by-map id f [] = refl
  update_by-map id f (r ∷ rows) = rw (update_by-map id f rows) refl

  pub find_by-append :
      (id : String) (xs ys : List A) {r : A}
      → find_by id_of id xs ≡ some r
      → find_by id_of id (xs ++ ys) ≡ some r
  find_by-append id [] ys h = cc
  find_by-append id (x ∷ xs) ys {r} h = ground (arith, find_by-append id xs ys {r = r})

  pub find_by-append_none :
      (id : String) (xs ys : List A)
      → find_by id_of id xs ≡ none
      → find_by id_of id (xs ++ ys) ≡ find_by id_of id ys
  find_by-append_none id [] ys h = refl
  find_by-append_none id (x ∷ xs) ys h = ground (arith, find_by-append_none id xs ys)

  module _ (g : A → A) (keeps : (r : A) → id_of (g r) ≡ id_of r) where
    pub find_by-map :
        (id : String) (rows : List A)
        → find_by id_of id (map g rows) ≡ Option.map g (find_by id_of id rows)
    find_by-map id [] = refl
    find_by-map id (r ∷ rows) = ground (arith, find_by-map id rows, keeps r)

    pub map-HasKeys : (rows : List A) → HasKeys rows → HasKeys (map g rows)
    unfolding HasKeys
    map-HasKeys [] h = tt
    map-HasKeys (r ∷ rows) h =
        (ground (arith, h.0, keeps r, find_by-map (id_of r) rows), map-HasKeys rows h.1)

  pub append-HasKeys :
      (rows : List A) (r : A)
      → HasKeys rows
      → find_by id_of (id_of r) rows ≡ none
      → HasKeys (rows ++ r ∷ [])
  unfolding HasKeys
  append-HasKeys [] r h fresh = (refl, tt)
  append-HasKeys (x ∷ rows) r h fresh = (
    ground (
      arith,
      h.0,
      find_by-append_none (id_of x) rows (r ∷ []),
      eq_iff (id_of x) (id_of r),
      eq_iff (id_of r) (id_of x),
    ),
    append-HasKeys rows r h.1 (ground arith),
  )
