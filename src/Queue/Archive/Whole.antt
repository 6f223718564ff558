-- ===== src/Queue/Archive/Whole.antt =====
-- `archiveQueueSubtree` (src/tools/queue-archive.ts) on a whole thread.
use mathlib.Core.List.{Memᴰ}
use mathlib.Core.List.Memᴰ
use scrum4me_mcp.Prelude.{
  included, included-inv, absurd_bool, absurd_option, some_injective, ◌≡◌, refl, sym, ap, ◌∙◌,
  subst, ◌⊎◌, inl, inr, arith, ℕ, String, Bool, true, false, not, Option, none, some, List, [], ◌∷◌,
  includes, or_else, find?, map, select, Bool-cases, Option-cases,
}
use scrum4me_mcp.Queue.Message.{Message, Queue, Vocabulary}
use scrum4me_mcp.Queue.Archive.{
  subtree_ids, rows_of, lock_subtree, is_terminal, active_row, managed_block, ArchiveResult,
  changed, archive_checked, archived_row, archive_rows, archive_queue_subtree,
}
use scrum4me_mcp.Queue.Archive.Thread.{IsRow, Thread, first, message_id, subtree_is_exact}

module _ (p : Message → Bool) where
  select-inv : (ms : List Message) (m : Message) → Memᴰ m (select p ms) → Memᴰ m ms × (p m ≡ true)
  select-inv [] m k = absurd (Memᴰ.not-nil k)
  select-inv (x ∷ ms) m k = elim (Bool-cases (p x)) [
    | inl passes ↦ elim (Memᴰ.cases_cons (rw (select, passes) at k)) [
      | inl e ↦ (Memᴰ.head e, ap p e ∙ passes)
      | inr rest ↦ let (l, h) = select-inv ms m rest in (Memᴰ.tail l, h)
    ]
    | inr fails ↦ let (l, h) = select-inv ms m (rw (select, fails) at k) in (Memᴰ.tail l, h)
  ]

  selected : (ms : List Message) (m : Message) → Memᴰ m ms → p m ≡ true → Memᴰ m (select p ms)
  selected [] m k h = absurd (Memᴰ.not-nil k)
  selected (x ∷ ms) m (Memᴰ.head e) h = rw (select, sym (ap p e) ∙ h) (Memᴰ.head e)
  selected (x ∷ ms) m (Memᴰ.tail k) h = elim (Bool-cases (p x)) [
    | inl passes ↦ rw (select, passes) (Memᴰ.tail (selected ms m k h))
    | inr fails ↦ rw (select, fails) (selected ms m k h)
  ]

  find?-none : (ms : List Message) → find? p ms ≡ none → (m : Message) → Memᴰ m ms → p m ≡ false
  find?-none [] h m k = absurd (Memᴰ.not-nil k)
  find?-none (x ∷ ms) h m (Memᴰ.head e) = ground (arith, ap p e)
  find?-none (x ∷ ms) h m (Memᴰ.tail k) = elim (Bool-cases (p x)) [
    | inl passes ↦ absurd_option (sym (rw passes at h))
    | inr fails ↦ find?-none ms (rw fails at h) m k
  ]

  find?-found : (ms : List Message) {m : Message} → find? p ms ≡ some m → Memᴰ m ms × (p m ≡ true)
  find?-found [] h = absurd_option h
  find?-found (x ∷ ms) {m} h = elim (Bool-cases (p x)) [
    | inl passes ↦
        let e : x ≡ m = some_injective (rw passes at h) in
        (Memᴰ.head (sym e), sym (ap p e) ∙ passes)
    | inr fails ↦ let (k, q) = find?-found ms (rw fails at h) in (Memᴰ.tail k, q)
  ]

abbrev pub is_change : ArchiveResult → Bool
is_change (changed total count) = true
is_change _ = false

module _ (v : Vocabulary) (now : ℕ) (q : Queue) where
  abbrev written : List Message → Queue
  written rows = record q {
    messages = map (archived_row (map (λ (m : Message). m.id) rows) now) q.messages;
  }

  managed-active :
      (rows : List Message) {m : Message}
      → managed_block v rows ≡ some m
      → active_row v rows ≡ some m
  unfolding managed_block
  managed-active rows h = ground arith

  -- The transaction writes nothing and a row stands against it, or it writes all its rows.
  abbrev Refused : List Message → Queue × ArchiveResult → Type 0
  Refused rows r =
      (r.0 ≡ q)
      × (is_change r.1 ≡ false)
      × ((rows ≡ []) ⊎ ((m : Message) × (active_row v rows ≡ some m)))

  abbrev Written : List Message → Queue × ArchiveResult → Type 0
  Written rows r =
      (r.0 ≡ written rows)
      × (is_change r.1 ≡ true)
      × (active_row v rows ≡ none)
      × ((m : Message) × (rest : List Message) × (rows ≡ m ∷ rest))

  checked-cases :
      (r : Message) (rs : List Message)
      → (blocks active : Option Message) → managed_block v (r ∷ rs) ≡ blocks
      → active_row v (r ∷ rs) ≡ active
      → Refused (r ∷ rs) (archive_checked now (r ∷ rs) blocks active q)
        ⊎ Written (r ∷ rs) (archive_checked now (r ∷ rs) blocks active q)
  unfolding archive_checked
  checked-cases r rs (some m) active e f = inl (refl, refl, inr (m, managed-active (r ∷ rs) e))
  checked-cases r rs none (some m) e f = inl (refl, refl, inr (m, f))
  checked-cases r rs none none e f = inr (refl, refl, f, (r, rs, refl))

  rows-cases :
      (rows : List Message)
      → Refused rows (archive_rows v now rows q) ⊎ Written rows (archive_rows v now rows q)
  unfolding archive_rows
  rows-cases [] = inl (refl, refl, inl refl)
  rows-cases (r ∷ rs) =
      checked-cases r rs (managed_block v (r ∷ rs)) (active_row v (r ∷ rs)) refl refl

  -- The transaction on the thread of the message.
  archive-locked :
      (id : String) {ids : List String}
      → subtree_ids q.messages id ≡ some ids
      → archive_queue_subtree v now id q ≡ archive_rows v now (rows_of q.messages ids) q
  unfolding archive_queue_subtree lock_subtree
  archive-locked id e = rw (archive_queue_subtree, lock_subtree, e) refl

outside : (ids : List String) (x : String) → ¬ (includes ids x ≡ true) → includes ids x ≡ false
outside ids x h = elim (Bool-cases (includes ids x)) [
  | inl there ↦ absurd (h there)
  | inr away ↦ away
]

-- The ids of the locked rows are those of the thread, at the rows of the table.
rows-includes :
    (ms : List Message) (ids : List String) (m : Message)
    → Memᴰ m ms
    → includes (map (λ r. r.id) (rows_of ms ids)) m.id ≡ includes ids m.id
rows-includes ms ids m k = elim (Bool-cases (includes ids m.id)) [
  | inl there ↦ included message_id (λ r. includes ids r.id) ms m k there ∙ sym there
  | inr away ↦ elim (Bool-cases (includes (map (λ r. r.id) (rows_of ms ids)) m.id)) [
    | inl found ↦
        let (r, _, passes, e) = included-inv message_id (λ r. includes ids r.id) ms m.id found in
        absurd_bool away (sym (ap (includes ids) e) ∙ passes)
    | inr absent ↦ absent ∙ sym away
  ]
]

archived_row-inside :
    (ids : List String) (now : ℕ) (m : Message)
    → includes ids m.id ≡ true
    → archived_row ids now m ≡ record m { archived_at = some (or_else m.archived_at now) }
unfolding archived_row
archived_row-inside ids now m h = elim (Option-cases m.archived_at) [
  | inl e ↦ ground (arith, ap (λ o. record m { archived_at = some (or_else o now) }) e)
  | inr (t, e) ↦ ground (
    arith,
    ap (λ o. record m { archived_at = o }) e,
    ap (λ o. record m { archived_at = some (or_else o now) }) e,
  )
]

archived_row-outside :
    (ids : List String) (now : ℕ) (m : Message)
    → includes ids m.id ≡ false
    → archived_row ids now m ≡ m
unfolding archived_row
archived_row-outside ids now m h = rw (archived_row, h) refl

no_active_row :
    (v : Vocabulary) (rows : List Message)
    → active_row v rows ≡ none
    → (m : Message) → Memᴰ m rows
    → is_terminal v m ≡ true
unfolding active_row
no_active_row v rows h m k = ground (arith, find?-none (λ r. not (is_terminal v r)) rows h m k)

an_active_row :
    (v : Vocabulary) (rows : List Message) {m : Message}
    → active_row v rows ≡ some m
    → Memᴰ m rows × (is_terminal v m ≡ false)
unfolding active_row
an_active_row v rows h =
    let (k, active) = find?-found (λ r. not (is_terminal v r)) rows h in (k, ground arith)

-- If the archiving of a message succeeds, every message of its thread is terminal, and afterwards it
-- is archived, since now unless it was archived before; every other message is as it was.
pub archive_takes_all :
    (v : Vocabulary) (now : ℕ) (q : Queue) (id : String)
    → is_change (archive_queue_subtree v now id q).1 ≡ true
    → (f : Message → Message) × ((archive_queue_subtree v now id q).0.messages ≡ map f q.messages)
      × ((m : Message)
          → Memᴰ m q.messages
          → Thread q.messages id m.id
          → (is_terminal v m ≡ true)
            × (f m ≡ record m { archived_at = some (or_else m.archived_at now) }))
      × ((m : Message) → Memᴰ m q.messages → ¬ Thread q.messages id m.id → f m ≡ m)
archive_takes_all v now q id h =
    let (ids, ends, exact) = subtree_is_exact q.messages id in
    let rows = rows_of q.messages ids in
    let at = archive-locked v now q id ends in
    elim (rows-cases v now q rows) [
      | inl (_, fails, _) ↦ absurd_bool (ap (λ r. is_change r.1) at ∙ fails) h
      | inr (wrote, _, no_active, _) ↦ (
        archived_row (map (λ (m : Message). m.id) rows) now,
        ap (λ r. r.0.messages) at ∙ ap (λ r. r.messages) wrote,
        λ m k t. (
          no_active_row v rows no_active m
              (selected (λ r. includes ids r.id) q.messages m k ((exact m.id).1 t)),
          archived_row-inside (map (λ (r : Message). r.id) rows) now m
              (rows-includes q.messages ids m k ∙ (exact m.id).1 t),
        ),
        λ m k away.
            archived_row-outside (map (λ (r : Message). r.id) rows) now m
              (rows-includes q.messages ids m k ∙ outside ids m.id (λ h. away ((exact m.id).0 h))),
      )
    ]

-- If it fails, nothing is written, and no such message is stored or a message of the thread is not
-- terminal.
pub archive_refuses_whole :
    (v : Vocabulary) (now : ℕ) (q : Queue) (id : String)
    → is_change (archive_queue_subtree v now id q).1 ≡ false
    → ((archive_queue_subtree v now id q).0 ≡ q)
      × (¬ IsRow q.messages id
          ⊎ ((m : Message) × Memᴰ m q.messages
              × Thread q.messages id m.id
              × (is_terminal v m ≡ false)))
archive_refuses_whole v now q id h =
    let (ids, ends, exact) = subtree_is_exact q.messages id in
    let rows = rows_of q.messages ids in
    let at = archive-locked v now q id ends in
    elim (rows-cases v now q rows) [
      | inr (_, changes, _, _) ↦ absurd_bool (sym (ap (λ r. is_change r.1) at) ∙ h) changes
      | inl (same, _, inl empty) ↦ (
        ap (λ r. r.0) at ∙ same,
        inl (λ (m, k, e). Memᴰ.not-nil (
            subst (Memᴰ m) empty (
              selected (λ r. includes ids r.id) q.messages m k
                ((exact m.id).1 (subst (Thread q.messages id) (sym e) (first (m, k, e))))))),
      )
      | inl (same, _, inr (m, e)) ↦
          let (k, active) = an_active_row v rows e in
          let (stored, inside) = select-inv (λ r. includes ids r.id) q.messages m k in
          (ap (λ r. r.0) at ∙ same, inr (m, stored, (exact m.id).0 inside, active))
    ]
