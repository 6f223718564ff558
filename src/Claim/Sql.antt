-- ===== src/Claim/Sql.antt =====
-- SQL's three-valued logic, as the queries of src/dispatch/eligibility.ts use it: `none` is NULL,
-- and a WHERE clause keeps a row only where its condition is TRUE.
use scrum4me_mcp.Prelude.{
  ◌≡◌, refl, String, Bool, true, false, not, ◌&&◌, ◌||◌, Option, none, some, List, [], ◌∷◌, ◌==◌,
  includes, is_null, is_text,
}

abbrev pub Tri : Type 0
Tri = Option Bool

infixl 35 ◌and◌
infixl 30 ◌or◌
abbrev pub ◌and◌ : Tri → Tri → Tri
some false and q = some false
some true and q = q
none and some false = some false
none and _ = none

abbrev pub ◌or◌ : Tri → Tri → Tri
some true or q = some true
some false or q = q
none or some true = some true
none or _ = none

abbrev pub sql_not : Tri → Tri
sql_not (some b) = some (not b)
sql_not none = none

-- `column = literal`, `column <> literal` and `column IN (…)` for a column that is NOT NULL.
infix 50 ◌eq◌ ◌ne◌ ◌among◌
abbrev pub ◌eq◌ : String → String → Tri
a eq b = some (a == b)

abbrev pub ◌ne◌ : String → String → Tri
a ne b = some (not (a == b))

abbrev pub ◌among◌ : String → List String → Tri
a among bs = some (includes bs a)

-- The same for a nullable column.
infix 50 ◌eq?◌ ◌among?◌
abbrev pub ◌eq?◌ : Option String → String → Tri
none eq? b = none
some a eq? b = some (a == b)

-- `column IN (…)`, or `column = ANY(array)`: NULL only against an element.
abbrev pub ◌among?◌ : Option String → List String → Tri
none among? [] = some false
none among? (b ∷ bs) = none
some a among? bs = some (includes bs a)

abbrev pub sql_is_null : Option String → Tri
sql_is_null o = some (is_null o)

abbrev pub passes : Tri → Bool
passes (some b) = b
passes none = false

abbrev pub includes? : List String → Option String → Bool
includes? bs none = false
includes? bs (some a) = includes bs a

pub passes-and : (p q : Tri) → passes (p and q) ≡ (passes p && passes q)
passes-and (some true) q = refl
passes-and (some false) q = refl
passes-and none (some true) = refl
passes-and none (some false) = refl
passes-and none none = refl

pub passes-or : (p q : Tri) → passes (p or q) ≡ (passes p || passes q)
passes-or (some true) q = refl
passes-or (some false) q = refl
passes-or none (some true) = refl
passes-or none (some false) = refl
passes-or none none = refl

pub passes-eq? : (o : Option String) (b : String) → passes (o eq? b) ≡ is_text o b
passes-eq? none b = refl
passes-eq? (some a) b = refl

pub passes-among? : (o : Option String) (bs : List String) → passes (o among? bs) ≡ includes? bs o
passes-among? none [] = refl
passes-among? none (b ∷ bs) = refl
passes-among? (some a) bs = refl

pub ruleset sql_laws = (passes-and, passes-or, passes-eq?, passes-among?)
