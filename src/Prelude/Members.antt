-- ===== src/Prelude/Members.antt =====
-- Members of lists: the ids of selected rows, maps that agree on members, and rows with a key.
use Prim.Native.String.{String}
use mathlib.Core.Path.{◌≡◌, refl, sym, ap, ◌∙◌}
use mathlib.Core.Logic.{inl, inr}
use mathlib.Core.Bool.{Bool, true, ◌&&◌}
use mathlib.Core.Option.{none}
use mathlib.Core.List.{List, [], ◌∷◌, map, Memᴰ}
use mathlib.Core.List.Memᴰ
use native.Mathlib.Omega.{arith}
use text.Mathlib.Text.{◌==◌}
use text.Mathlib.TextEquality.{eq_iff}
use text.Mathlib.TextPositions.{eq_refl}
use scrum4me_mcp.Prelude.Tests.{absurd_option, Bool-cases}
use scrum4me_mcp.Prelude.Lists.{includes, select}
use scrum4me_mcp.Prelude.Tables.{find_by}
use scrum4me_mcp.Prelude.Keys.{HasKeys}

module _ {A : Type 0} (id_of : A → String) (p : A → Bool) where
  pub included-inv :
      (rows : List A) (x : String)
      → includes (map id_of (select p rows)) x ≡ true
      → (r : A) × Memᴰ r rows × (p r ≡ true) × (id_of r ≡ x)
  included-inv [] x h = cc
  included-inv (r ∷ rows) x h = elim (Bool-cases (p r && x == id_of r)) [
    | inl here ↦ (r, Memᴰ.head refl, ground arith, ground (arith, eq_iff x (id_of r)))
    | inr there ↦
        let (s, k, passes, e) = included-inv rows x (ground arith) in (s, Memᴰ.tail k, passes, e)
  ]

  pub included :
      (rows : List A) (r : A)
      → Memᴰ r rows
      → p r ≡ true
      → includes (map id_of (select p rows)) (id_of r) ≡ true
  included [] r k h = absurd (Memᴰ.not-nil k)
  included (x ∷ rows) r (Memᴰ.head e) h = ground (arith, ap p e, ap id_of e, eq_refl (id_of r))
  included (x ∷ rows) r (Memᴰ.tail k) h = ground (arith, included rows r k h)

pub map-agree {ℓ κ} :
    {A : Type ℓ} {B : Type κ} (f g : A → B) (xs : List A)
    → ((x : A) → Memᴰ x xs → f x ≡ g x)
    → map f xs ≡ map g xs
map-agree f g [] h = refl
map-agree f g (x ∷ xs) h =
    λ i. h x (Memᴰ.head refl) i ∷ map-agree f g xs (λ y k. h y (Memᴰ.tail k)) i

module _ {A : Type 0} (id_of : A → String) where
  absent :
      (rows : List A) (r : A) → Memᴰ r rows → {B : Type 0} → find_by id_of (id_of r) rows ≡ none → B
  absent [] r k h = absurd (Memᴰ.not-nil k)
  absent (x ∷ rows) r (Memᴰ.head e) h = absurd_option (sym (rw (ap id_of e, eq_refl) at h))
  absent (x ∷ rows) r (Memᴰ.tail k) h = elim (Bool-cases (id_of x == id_of r)) [
    | inl here ↦ absurd_option (sym (rw here at h))
    | inr other ↦ absent rows r k (rw other at h)
  ]

  -- Two rows of a table that have the same id are the same row.
  pub same_row :
      (rows : List A)
      → HasKeys id_of rows
      → (r s : A) → Memᴰ r rows
      → Memᴰ s rows
      → id_of r ≡ id_of s
      → r ≡ s
  unfolding HasKeys
  same_row [] keys r s k l e = absurd (Memᴰ.not-nil k)
  same_row (x ∷ rows) keys r s (Memᴰ.head a) (Memᴰ.head b) e = a ∙ sym b
  same_row (x ∷ rows) keys r s (Memᴰ.head a) (Memᴰ.tail l) e =
      absent rows s l (ap (λ i. find_by id_of i rows) (sym e ∙ ap id_of a) ∙ keys.0)
  same_row (x ∷ rows) keys r s (Memᴰ.tail k) (Memᴰ.head b) e =
      absent rows r k (ap (λ i. find_by id_of i rows) (e ∙ ap id_of b) ∙ keys.0)
  same_row (x ∷ rows) keys r s (Memᴰ.tail k) (Memᴰ.tail l) e = same_row rows keys.1 r s k l e
