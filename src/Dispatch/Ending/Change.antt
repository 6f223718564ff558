-- ===== src/Dispatch/Ending/Change.antt =====
-- The relation between the tables before and after a transaction that ends or cancels a request
-- (src/dispatch/lifecycle.ts).
use scrum4me_mcp.Prelude.{
  ◌≡◌, refl, ap, ◌∙◌, arith, String, Bool, true, false, ◌&&◌, Option, none, some, List, [], ◌∷◌,
  ◌++◌, ◌==◌, find?, find_by, HasKeys,
}
use scrum4me_mcp.Dispatch.Ending.Table.{Request, Result, Event, Db, request_of, result_of, is_ended}
use scrum4me_mcp.Dispatch.Ending.Lifecycle.{add_event}
use scrum4me_mcp.Dispatch.Ending.Cancel.{is_action_of}

-- Ended requests and canonical results stay, and a request stays its user's.
pub record Final (db db' : Db) : Type 0 where
  pub ended :
      (id : String) {r : Request}
      → request_of db id ≡ some r
      → is_ended r.state ≡ true
      → request_of db' id ≡ some r
  pub results : (id : String) {x : Result} → result_of db id ≡ some x → result_of db' id ≡ some x
  pub owner :
      (id : String) {r : Request}
      → request_of db id ≡ some r
      → (s : Request) × (request_of db' id ≡ some s) × (s.user_id ≡ r.user_id)

unfoldable pub IsKeyed : Db → Type 0
IsKeyed db = HasKeys (λ a. a.id) db.attempts × HasKeys (λ c. c.id) db.candidates

abbrev pub action_of : Db → String → String → Option Event
action_of db id key = find? (λ e. e.request_id == id && is_action_of key e.type) db.events

-- With its keys and without a cancel action.
pub record Change (db db' : Db) : Type 0 where
  pub final : Final db db'
  pub keyed : IsKeyed db → IsKeyed db'
  pub quiet : (id key : String) → action_of db id key ≡ none → action_of db' id key ≡ none

pub Final-trans : (a b c : Db) → Final a b → Final b c → Final a c
Final-trans a b c f g = record {
  ended = λ id h e. g.ended id (f.ended id h e) e;
  results = λ id h. g.results id (f.results id h);
  owner =
      λ id h. let (r, at, e) = f.owner id h in let (s, at', e') = g.owner id at in (s, at', e' ∙ e);
}

pub Change-trans : (a b c : Db) → Change a b → Change b c → Change a c
Change-trans a b c f g = record {
  final = Final-trans a b c f.final g.final;
  keyed = λ k. g.keyed (f.keyed k);
  quiet = λ id key h. g.quiet id key (f.quiet id key h);
}

pub Final-same :
    (db db' : Db) → db'.requests ≡ db.requests → db'.results ≡ db.results → Final db db'
Final-same db db' r x = record {
  ended = λ id h e. ap (find_by (λ q. q.id) id) r ∙ h;
  results = λ id h. ap (find_by (λ q. q.request_id) id) x ∙ h;
  owner = λ id {r = q} h. (q, ap (find_by (λ q. q.id) id) r ∙ h, refl);
}

quiet_same :
    (db db' : Db)
    → db'.events ≡ db.events
    → (id key : String) → action_of db id key ≡ none
    → action_of db' id key ≡ none
quiet_same db db' e id key h = ap (find? (λ e. e.request_id == id && is_action_of key e.type)) e ∙ h

pub Change-same :
    (db db' : Db)
    → db'.requests ≡ db.requests
    → db'.results ≡ db.results
    → db'.events ≡ db.events
    → (IsKeyed db → IsKeyed db')
    → Change db db'
Change-same db db' r x e k = record {
  final = Final-same db db' r x;
  keyed = k;
  quiet = quiet_same db db' e;
}

pub Change-refl : (db : Db) → Change db db
Change-refl db = Change-same db db refl refl refl (λ k. k)

find?-append_none :
    (p : Event → Bool) (es : List Event) (e : Event)
    → find? p es ≡ none
    → p e ≡ false
    → find? p (es ++ e ∷ []) ≡ none
find?-append_none p [] e h q = ground arith
find?-append_none p (x ∷ es) e h q = ground (arith, find?-append_none p es e)

-- An event that is no cancel action.
pub Change-event :
    (e : Event) (db : Db)
    → ((key : String) → is_action_of key e.type ≡ false)
    → Change db (add_event e db)
unfolding IsKeyed
Change-event e db other = record {
  final = Final-same db (add_event e db) refl refl;
  keyed = λ k. k;
  quiet = λ id key h.
      find?-append_none (λ x. x.request_id == id && is_action_of key x.type) db.events e h
        (ground (arith, other key));
}

-- The request is there and has not ended.
unfoldable pub IsLive : Db → String → Type 0
IsLive db id = (r : Request) × (request_of db id ≡ some r) × (is_ended r.state ≡ false)

pub IsLive-same :
    (db db' : Db) (id : String) → db'.requests ≡ db.requests → IsLive db id → IsLive db' id
unfolding IsLive
IsLive-same db db' id e (r, h, l) = (r, ap (find_by (λ q. q.id) id) e ∙ h, l)
