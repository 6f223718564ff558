-- ===== src/Dispatch/Attempts/OneScope.antt =====
-- The scopes of the permits of an attempt (src/dispatch/attempts.ts).
use mathlib.Core.List.{Memᴰ}
use mathlib.Core.List.Memᴰ
use scrum4me_mcp.Prelude.{
  Option, absurd_bool, ◌≡◌, refl, sym, ap, ◌∙◌, subst, inl, inr, arith, String, true, none, some,
  List, [], ◌∷◌, ◌++◌, eq_iff, eq_refl, if◌then◌else◌,
}
use scrum4me_mcp.Dispatch.Table.{Scope, Event, started_scope, Locked, Service, Answer, permit}
use scrum4me_mcp.Dispatch.Checks.{scope_of, add_scope, scopes_of, same_scope, is_only, is_recorded}
use scrum4me_mcp.Dispatch.Attempts.{set_state, start_rows}
use scrum4me_mcp.Dispatch.Attempts.Run.{Operation, perform, run}
use scrum4me_mcp.Dispatch.Attempts.Effect.{Effect, kept, repeated, started, changed, perform-Effect}
use scrum4me_mcp.Dispatch.Attempts.Coherence.{
  IsCoherent, recorded, Change-Leaves, effect-IsCoherent,
}

abbrev scope_by : String → String → String → String → Scope
scope_by a b c d = record { scope_id = a; boot_id = b; image_digest = c; profile_sha256 = d }

same_scope-eq : (a b : Scope) → same_scope a b ≡ true → a ≡ b
same_scope-eq a b h =
    let at : a.scope_id ≡ b.scope_id = (eq_iff a.scope_id b.scope_id).0 (ground arith) in
    let boot : a.boot_id ≡ b.boot_id = (eq_iff a.boot_id b.boot_id).0 (ground arith) in
    let image : a.image_digest ≡ b.image_digest =
      (eq_iff a.image_digest b.image_digest).0 (ground arith) in
    let profile : a.profile_sha256 ≡ b.profile_sha256 =
      (eq_iff a.profile_sha256 b.profile_sha256).0 (ground arith) in
    λ i. scope_by (at i) (boot i) (image i) (profile i)

is_only-eq : (scope : Scope) (ss : List Scope) → is_only scope ss ≡ true → ss ≡ scope ∷ []
is_only-eq scope [] h = absurd_bool refl h
is_only-eq scope (s ∷ []) h = ap (λ t. t ∷ []) (same_scope-eq s scope h)
is_only-eq scope (s ∷ t ∷ rest) h = absurd_bool refl h

not_nil : {A : Type 0} {a : Scope} {rest : List Scope} → a ∷ rest ≡ [] → A
not_nil h = cc

add_scope-only :
    (o : Option Scope) (before after : List Scope) {scope : Scope}
    → (before ≡ [] → after ≡ scope ∷ [])
    → add_scope o before ≡ []
    → add_scope o after ≡ scope ∷ []
add_scope-only none before after f h = f h
add_scope-only (some s) before after f h = not_nil h

scopes_of-started :
    (id : String) (es : List Event) (scope : Scope)
    → scopes_of id es ≡ []
    → scopes_of id (es ++ started_scope id scope ∷ []) ≡ scope ∷ []
scopes_of-started id [] scope h =
    ap (λ b. add_scope (if b then some scope else none) []) (eq_refl id)
scopes_of-started id (e ∷ es) scope h =
    add_scope-only (scope_of id e) (scopes_of id es)
      (scopes_of id (es ++ started_scope id scope ∷ [])) (scopes_of-started id es scope) h

permit-inj : {a b : Scope} → permit a ≡ permit b → a ≡ b
permit-inj h = cc

-- A permit leaves its scope as the only one recorded.
effect-permit :
    (x y : Locked) (scope : Scope)
    → IsCoherent x
    → Effect x y (permit scope)
    → recorded y ≡ scope ∷ []
unfolding is_recorded start_rows set_state
effect-permit x y scope h (kept e p) = absurd_bool p refl
effect-permit x y scope h (repeated t e b live k) =
    ap recorded e ∙ is_only-eq t (recorded x) k ∙ ap (λ u. u ∷ []) (sym (permit-inj b))
effect-permit x y scope h (started now t at e b) =
    ap recorded e
    ∙ scopes_of-started x.attempt.id x.events t (h.unstarted at)
    ∙ ap (λ u. u ∷ []) (sym (permit-inj b))
effect-permit x y scope h (changed live p c) = absurd_bool p refl

-- A recorded scope stays the only one.
effect-keeps :
    (x y : Locked) (a : Answer) (scope : Scope)
    → IsCoherent x
    → recorded x ≡ scope ∷ []
    → Effect x y a
    → recorded y ≡ scope ∷ []
effect-keeps x y a scope h k (kept e p) = ap recorded e ∙ k
effect-keeps x y a scope h k (repeated t e b live r) = ap recorded e ∙ k
effect-keeps x y a scope h k (started now t at e b) = not_nil (sym k ∙ h.unstarted at)
effect-keeps x y a scope h k (changed live p c) = (Change-Leaves x y c).scopes ∙ k

head-inj : {a b : Scope} → Path (List Scope) (a ∷ []) (b ∷ []) → a ≡ b
head-inj h = cc

module _ (s : Service) where
  after : (o : Operation) (x : Locked) → IsCoherent x → IsCoherent (perform s o x).0
  after o x h = effect-IsCoherent x (perform s o x).0 (perform s o x).1 (perform-Effect s o x) h

  permitted :
      (o : Operation) (x : Locked) (scope : Scope)
      → IsCoherent x
      → permit scope ≡ (perform s o x).1
      → recorded (perform s o x).0 ≡ scope ∷ []
  permitted o x scope h e =
      effect-permit x (perform s o x).0 scope h
        (subst (Effect x (perform s o x).0) (sym e) (perform-Effect s o x))

  permits_recorded :
      (os : List Operation) (x : Locked) (scope : Scope)
      → IsCoherent x
      → recorded x ≡ scope ∷ []
      → (t : Scope) → Memᴰ (permit t) (run s os x).1
      → t ≡ scope
  unfolding run
  permits_recorded [] x scope h k t m = absurd (Memᴰ.not-nil m)
  permits_recorded (o ∷ os) x scope h k t m =
      let kept' =
        effect-keeps x (perform s o x).0 (perform s o x).1 scope h k (perform-Effect s o x) in
      elim (Memᴰ.cases_cons m) [
        | inl e ↦ head-inj (sym (permitted o x t h e) ∙ kept')
        | inr later ↦ permits_recorded os (perform s o x).0 scope (after o x h) kept' t later
      ]

  -- From coherent rows, whatever calls follow one another, all permits they give are for the same scope.
  pub one_scope :
      (os : List Operation) (x : Locked)
      → IsCoherent x
      → (a b : Scope) → Memᴰ (permit a) (run s os x).1
      → Memᴰ (permit b) (run s os x).1
      → a ≡ b
  unfolding run
  one_scope [] x h a b m n = absurd (Memᴰ.not-nil m)
  one_scope (o ∷ os) x h a b m n = elim (Memᴰ.cases_cons m) [
    | inl e ↦ elim (Memᴰ.cases_cons n) [
      | inl f ↦ permit-inj (e ∙ sym f)
      | inr later ↦
          sym (permits_recorded os (perform s o x).0 a (after o x h) (permitted o x a h e) b later)
    ]
    | inr earlier ↦ elim (Memᴰ.cases_cons n) [
      | inl f ↦
          permits_recorded os (perform s o x).0 b (after o x h) (permitted o x b h f) a earlier
      | inr later ↦ one_scope os (perform s o x).0 (after o x h) a b earlier later
    ]
  ]
