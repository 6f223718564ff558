-- ===== src/Queue/Step/Change.antt =====
-- What every step on the table (Queue/Step.antt) is: a map over the rows that keeps their ids, with
-- at most one row added.
use mathlib.Core.Option
use scrum4me_mcp.Prelude.{
  ◌≡◌, subst, sym, ap, ◌∙◌, String, true, false, Option, none, some, [], ◌∷◌, ◌++◌, map, arith,
  find_by, update_by, update_by-map, updated, find_by-map, map-HasKeys, find_by-append,
  append-HasKeys, HasKeys, eq_iff, find_by-id,
}
use scrum4me_mcp.Queue.Message.{Message, Queue, Vocabulary}
use scrum4me_mcp.Queue.Step.{is_frozen}

abbrev pub IsKeyed : Queue → Type 0
IsKeyed q = HasKeys (λ m. m.id) q.messages

abbrev pub message_of : Queue → String → Option Message
message_of q id = find_by (λ m. m.id) id q.messages

-- The frozen rows are where they were, and the ids are still keys.
pub record IsHarmless (v : Vocabulary) (q q' : Queue) : Type 0 where
  pub keyed : IsKeyed q'
  pub frozen :
      (id : String) {m : Message}
      → message_of q id ≡ some m
      → is_frozen v m ≡ true
      → message_of q' id ≡ some m

module _ (v : Vocabulary) (q : Queue) (keys : IsKeyed q) where
  pub keeps_same : IsHarmless v q q
  keeps_same = record { keyed = keys; frozen = λ id found h. found }

  -- A map that keeps the ids and the frozen rows.
  pub keeps_map :
      (g : Message → Message)
      → ((m : Message) → (g m).id ≡ m.id)
      → ((m : Message) → message_of q m.id ≡ some m → is_frozen v m ≡ true → g m ≡ m)
      → (q' : Queue) → q'.messages ≡ map g q.messages
      → IsHarmless v q q'
  keeps_map g ids fixes q' e = record {
    keyed =
        subst (HasKeys (λ (m : Message). m.id)) (sym e)
          (map-HasKeys (λ (m : Message). m.id) g ids q.messages keys);
    frozen = λ id {m} found h.
        let same = find_by-id (λ (m : Message). m.id) id q.messages found in
        ap (find_by (λ (m : Message). m.id) id) e
        ∙ find_by-map (λ (m : Message). m.id) g ids id q.messages
        ∙ ap (Option.map g) found
        ∙ ap some (fixes m (ap (message_of q) same ∙ found) h);
  }

  -- An update of a row that is not frozen.
  pub keeps_update :
      (change : Message → Message)
      → ((m : Message) → (change m).id ≡ m.id)
      → {r : Message} → message_of q r.id ≡ some r
      → is_frozen v r ≡ false
      → (q' : Queue) → q'.messages ≡ update_by (λ m. m.id) r.id change q.messages
      → IsHarmless v q q'
  keeps_update change ids {r} found free q' e =
      keeps_map (updated (λ (m : Message). m.id) r.id change) (λ m. ground (arith, ids m))
        (λ m here h. ground (arith, eq_iff m.id r.id)) q'
        (e ∙ update_by-map (λ (m : Message). m.id) r.id change q.messages)

-- A row with a new id is added.
module _ (v : Vocabulary) (q r s : Queue) (row : Message) (before : IsHarmless v q r)
    (fresh : message_of r row.id ≡ none) (e : s.messages ≡ r.messages ++ row ∷ []) where
  pub keeps_insert : IsHarmless v q s
  keeps_insert = record {
    keyed =
        subst (HasKeys (λ (m : Message). m.id)) (sym e)
          (append-HasKeys (λ (m : Message). m.id) r.messages row before.keyed fresh);
    frozen = λ id {m} found h.
        ap (find_by (λ (m : Message). m.id) id) e
        ∙ find_by-append (λ (m : Message). m.id) id r.messages (row ∷ [])
            (before.frozen id found h);
  }
