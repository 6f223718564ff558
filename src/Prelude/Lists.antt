-- ===== src/Prelude/Lists.antt =====
-- JavaScript's array methods, over Boolean tests, and lists measured by native numbers.
use Prim.Native.Nat.{ℕ, suc, ◌+◌}
use Prim.Native.String.{String}
use mathlib.Core.Path.{◌≡◌, refl}
use mathlib.Core.Logic.{◌⊎◌, inl, inr}
use mathlib.Core.Bool.{Bool, true, false, not, ◌&&◌, ◌||◌}
use mathlib.Core.List.{List, [], ◌∷◌, ◌++◌}
use mathlib.Core.Option.{Option, none, some}
use native.Mathlib.Omega.{arith}
use text.Mathlib.Text.{◌==◌}
use scrum4me_mcp.Prelude.Tests.{if◌then◌else◌}

module _ {ℓ} {A : Type ℓ} where
  abbrev pub length : List A → ℕ
  length [] = 0
  length (x ∷ xs) = suc (length xs)

  abbrev pub some? : (A → Bool) → List A → Bool
  some? p [] = false
  some? p (x ∷ xs) = p x || some? p xs

  abbrev pub every? : (A → Bool) → List A → Bool
  every? p [] = true
  every? p (x ∷ xs) = p x && every? p xs

  -- The first element that passes the test.
  abbrev pub find? : (A → Bool) → List A → Option A
  find? p [] = none
  find? p (x ∷ xs) = if p x then some x else find? p xs

  abbrev pub select : (A → Bool) → List A → List A
  select p [] = []
  select p (x ∷ xs) = let rest = select p xs in if p x then x ∷ rest else rest

  -- A predicate that holds of every element.
  abbrev pub All {κ} : (A → Type κ) → List A → Type κ
  All P [] = Unit
  All P (x ∷ xs) = P x × All P xs

abbrev pub includes : List String → String → Bool
includes [] a = false
includes (x ∷ xs) a = a == x || includes xs a

module _ {ℓ} {A : Type ℓ} where
  pub List-cases : (xs : List A) → (xs ≡ []) ⊎ ((x : A) × (rest : List A) × (xs ≡ x ∷ rest))
  List-cases [] = inl refl
  List-cases (x ∷ xs) = inr (x, xs, refl)

  pub length-append : (xs ys : List A) → length (xs ++ ys) ≡ length xs + length ys
  length-append [] ys = omega arith
  length-append (x ∷ xs) ys = omega (arith, length-append xs ys)

  pub some?-append :
      (p : A → Bool) (xs ys : List A) → some? p (xs ++ ys) ≡ (some? p xs || some? p ys)
  some?-append p [] ys = refl
  some?-append p (x ∷ xs) ys = ground (arith, some?-append p xs ys)

  -- `!every(p)` is `some(!p)`.
  pub every?-not-some? :
      (p : A → Bool) (xs : List A) → not (every? p xs) ≡ some? (λ x. not (p x)) xs
  every?-not-some? p [] = refl
  every?-not-some? p (x ∷ xs) = ground (arith, every?-not-some? p xs)

module _ {ℓ κ} {A : Type ℓ} (P : A → Type κ) where
  pub All-append : (xs ys : List A) → All P xs → All P ys → All P (xs ++ ys)
  All-append [] ys h k = k
  All-append (x ∷ xs) ys h k = (h.0, All-append xs ys h.1 k)

module _ {ℓ} {A : Type ℓ} (p : A → Bool) where
  -- A test that fails everywhere finds nothing.
  pub some?-never : ((x : A) → p x ≡ false) → (xs : List A) → some? p xs ≡ false
  some?-never h [] = refl
  some?-never h (x ∷ xs) = rw (h x) (some?-never h xs)

module _ {ℓ κ μ} {A : Type ℓ} (P : A → Type κ) (Q : A → Type μ) where
  pub All-imp : ((x : A) → P x → Q x) → (xs : List A) → All P xs → All Q xs
  All-imp f [] h = tt
  All-imp f (x ∷ xs) h = (f x h.0, All-imp f xs h.1)

pub includes-append :
    (xs ys : List String) (a : String) → includes (xs ++ ys) a ≡ (includes xs a || includes ys a)
includes-append [] ys a = refl
includes-append (x ∷ xs) ys a = ground (arith, includes-append xs ys a)
