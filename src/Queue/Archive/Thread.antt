-- ===== src/Queue/Archive/Thread.antt =====
-- What the recursive query of `lockSubtree` (src/tools/queue-archive.ts) finds.
use mathlib.Core.List.{Memᴰ}
use mathlib.Core.List.Memᴰ
use scrum4me_mcp.Prelude.{
  absurd_bool, absurd_option, some_injective, ◌≡◌, refl, sym, ap, ◌∙◌, subst, ◌↔◌, ◌⊎◌, inl, inr,
  arith, ℕ, zero, suc, ◌≤◌, ◌<◌, String, Bool, true, false, not, ◌&&◌, Option, some, List, [], ◌∷◌,
  ◌++◌, ◌==◌, includes, length, map, select, eq_iff, eq_refl, Bool-cases, Option-cases, List-cases,
  includes-append, included, included-inv,
}
use scrum4me_mcp.Queue.Message.{Message}
use scrum4me_mcp.Queue.Archive.{replies_to, fresh, subtree, roots, subtree_ids}

abbrev pub IsRow : List Message → String → Type 0
IsRow ms id = (m : Message) × Memᴰ m ms × (m.id ≡ id)

-- A row of the table that answers the message `parent`.
abbrev pub IsReply : List Message → String → String → Type 0
IsReply ms parent id = (m : Message) × Memᴰ m ms × (m.in_reply_to ≡ some parent) × (m.id ≡ id)

-- A stored message, its replies, their replies, and so on.
pub data Thread (ms : List Message) (root : String) : String → Type 0 where
  first : IsRow ms root → Thread ms root root
  reply : {parent id : String} → Thread ms root parent → IsReply ms parent id → Thread ms root id

abbrev pub message_id : Message → String
message_id m = m.id

-- The rows that the query has not reached.
abbrev unseen : List String → List Message → ℕ
unseen seen ms = length (select (λ m. not (includes seen m.id)) ms)

unseen-append :
    (seen xs : List String) (ms : List Message) → unseen (seen ++ xs) ms ≤ unseen seen ms
unseen-append seen xs [] = omega arith
unseen-append seen xs (m ∷ ms) =
    ground (arith, unseen-append seen xs ms, includes-append seen xs m.id)

unseen-less :
    (seen xs : List String) (ms : List Message) (m : Message)
    → Memᴰ m ms
    → includes seen m.id ≡ false
    → includes xs m.id ≡ true
    → unseen (seen ++ xs) ms < unseen seen ms
unseen-less seen xs [] m k h new = absurd (Memᴰ.not-nil k)
unseen-less seen xs (r ∷ ms) m (Memᴰ.head e) h new = ground (
  arith,
  ap (λ x. includes seen x.id) e,
  ap (λ x. includes xs x.id) e,
  includes-append seen xs r.id,
  unseen-append seen xs ms,
)
unseen-less seen xs (r ∷ ms) m (Memᴰ.tail k) h new =
    ground (arith, includes-append seen xs r.id, unseen-less seen xs ms m k h new)

-- A row that a round adds is a reply to the round before, and was not there.
fresh-inv :
    (ms : List Message) (seen front : List String) (x : String)
    → includes (fresh ms seen front) x ≡ true
    → (m : Message) × Memᴰ m ms
      × (replies_to front m ≡ true)
      × (includes seen m.id ≡ false)
      × (m.id ≡ x)
unfolding fresh
fresh-inv ms seen front x h =
    let (m, k, passes, e) =
      included-inv message_id (λ m. replies_to front m && not (includes seen m.id)) ms x h in
    (m, k, ground arith, ground arith, e)

fresh-unseen :
    (ms : List Message) (seen front : List String) {x : String} {xs : List String}
    → fresh ms seen front ≡ x ∷ xs
    → unseen (seen ++ x ∷ xs) ms < unseen seen ms
fresh-unseen ms seen front {x} {xs} h =
    let (m, k, _, new, e) = fresh-inv ms seen front x (rw (h, eq_refl) refl) in
    unseen-less seen (x ∷ xs) ms m k new (ground (arith, e, eq_refl x))

-- Every round but the last reaches a new row, so fuel for the unseen rows is enough.
subtree_ends :
    (ms : List Message) (fuel : ℕ) (seen front : List String)
    → unseen seen ms ≤ fuel
    → (ids : List String) × (subtree ms fuel seen front ≡ some ids)
unfolding subtree
subtree_ends ms zero seen front enough = elim (List-cases (fresh ms seen front)) [
  | inl empty ↦ (seen, rw (subtree, empty) refl)
  | inr (x, xs, e) ↦ absurd (omega (arith, fresh-unseen ms seen front e))
]
subtree_ends ms (suc fuel) seen front enough = elim (List-cases (fresh ms seen front)) [
  | inl empty ↦ (seen, rw (subtree, empty) refl)
  | inr (x, xs, e) ↦
      let (ids, ends) =
        subtree_ends ms fuel (seen ++ x ∷ xs) (x ∷ xs)
          (omega (arith, fresh-unseen ms seen front e)) in
      (ids, rw (subtree, e) ends)
]

unseen-length : (seen : List String) (ms : List Message) → unseen seen ms ≤ length ms
unseen-length seen [] = omega arith
unseen-length seen (m ∷ ms) = ground (arith, unseen-length seen ms)

module _ (ms : List Message) (root : String) where
  -- What holds between two rounds.
  record Inv (seen front : List String) : Type 0 where
    start : IsRow ms root → includes seen root ≡ true
    sound : (x : String) → includes seen x ≡ true → Thread ms root x
    recent : (x : String) → includes front x ≡ true → includes seen x ≡ true
    closed :
        (parent id : String)
        → includes seen parent ≡ true
        → IsReply ms parent id
        → (includes seen id ≡ true) ⊎ (includes front parent ≡ true)

  Inv-start : Inv (roots ms root) (roots ms root)
  unfolding roots
  Inv-start = record {
    start = λ (m, k, e).
        subst (λ x. includes (roots ms root) x ≡ true) e
          (included message_id (λ r. r.id == root) ms m k (ground (arith, eq_iff m.id root)));
    sound = λ x h.
        let (m, k, passes, e) = included-inv message_id (λ r. r.id == root) ms x h in
        subst (Thread ms root) (sym ((eq_iff m.id root).0 passes) ∙ e)
          (first (m, k, (eq_iff m.id root).0 passes));
    recent = λ x h. h;
    closed = λ parent id h r. inr h;
  }

  reply-replies :
      (front : List String) (parent : String) (m : Message)
      → m.in_reply_to ≡ some parent
      → replies_to front m ≡ includes front parent
  reply-replies front parent m e = rw e refl

  -- A reply to the last round is there already, or the next round adds it.
  reply-fresh :
      (seen front : List String) (parent id : String)
      → includes front parent ≡ true
      → IsReply ms parent id
      → (includes seen id ≡ true) ⊎ (includes (fresh ms seen front) id ≡ true)
  unfolding fresh
  reply-fresh seen front parent id h (m, k, e, same) = elim (Bool-cases (includes seen id)) [
    | inl there ↦ inl there
    | inr new ↦
        let p : Message → Bool = λ r. replies_to front r && not (includes seen r.id) in
        inr (
          subst (λ x. includes (map (λ (r : Message). r.id) (select p ms)) x ≡ true) same
            (included message_id p ms m k
              (ground (arith, reply-replies front parent m e, ap (includes seen) same))))
  ]

  replies_to-inv :
      (front : List String) (m : Message)
      → replies_to front m ≡ true
      → (parent : String) × (m.in_reply_to ≡ some parent) × (includes front parent ≡ true)
  replies_to-inv front m h = elim (Option-cases m.in_reply_to) [
    | inl e ↦ absurd_bool refl (rw e at h)
    | inr (parent, e) ↦ (parent, e, sym (reply-replies front parent m e) ∙ h)
  ]

  sound-fresh :
      (seen front : List String)
      → Inv seen front
      → (x : String) → includes (fresh ms seen front) x ≡ true
      → Thread ms root x
  sound-fresh seen front h x new =
      let (m, k, r, _, e) = fresh-inv ms seen front x new in
      let (parent, at, old) = replies_to-inv front m r in
      reply (h.sound parent (h.recent parent old)) (m, k, at, e)

  Inv-round :
      (seen front : List String)
      → Inv seen front
      → Inv (seen ++ fresh ms seen front) (fresh ms seen front)
  Inv-round seen front h =
      let split = λ (y : String). includes-append seen (fresh ms seen front) y in
      record {
        start = λ row. ground (arith, split root, h.start row);
        sound = λ y there. elim (Bool-cases (includes seen y)) [
          | inl old ↦ h.sound y old
          | inr new ↦ sound-fresh seen front h y (ground (arith, split y))
        ];
        recent = λ y new. ground (arith, split y);
        closed = λ parent id there r. elim (Bool-cases (includes seen parent)) [
          | inl old ↦ elim (h.closed parent id old r) [
            | inl done ↦ inl (ground (arith, split id))
            | inr waits ↦ elim (reply-fresh seen front parent id waits r) [
              | inl done ↦ inl (ground (arith, split id))
              | inr new ↦ inl (ground (arith, split id))
            ]
          ]
          | inr new ↦ inr (ground (arith, split parent))
        ];
      }

  Inv-end :
      (seen front : List String)
      → fresh ms seen front ≡ []
      → Inv seen front
      → {x : String} → Thread ms root x
      → includes seen x ≡ true
  Inv-end seen front e h (first row) = h.start row
  Inv-end seen front e h (reply {parent} {id} t r) =
      elim (h.closed parent id (Inv-end seen front e h t) r) [
        | inl done ↦ done
        | inr waits ↦ elim (reply-fresh seen front parent id waits r) [
          | inl done ↦ done
          | inr new ↦ ground (arith, ap (λ l. includes l id) e)
        ]
      ]

  Inv-exact :
      (seen front : List String)
      → fresh ms seen front ≡ []
      → Inv seen front
      → {ids : List String} → Path (Option (List String)) (some seen) (some ids)
      → (x : String) → (includes ids x ≡ true) ↔ Thread ms root x
  Inv-exact seen front e h same x =
      let at = ap (λ l. includes l x) (some_injective same) in
      (λ t. h.sound x (at ∙ t), λ t. sym at ∙ Inv-end seen front e h t)

  subtree-exact :
      (fuel : ℕ) (seen front : List String)
      → Inv seen front
      → {ids : List String} → subtree ms fuel seen front ≡ some ids
      → (x : String) → (includes ids x ≡ true) ↔ Thread ms root x
  unfolding subtree
  subtree-exact zero seen front h e = elim (List-cases (fresh ms seen front)) [
    | inl empty ↦ Inv-exact seen front empty h (rw (subtree, empty) at e)
    | inr (y, ys, more) ↦ absurd_option (rw (subtree, more) at e)
  ]
  subtree-exact (suc fuel) seen front h e = elim (List-cases (fresh ms seen front)) [
    | inl empty ↦ Inv-exact seen front empty h (rw (subtree, empty) at e)
    | inr (y, ys, more) ↦
        subtree-exact fuel (seen ++ y ∷ ys) (y ∷ ys)
          (subst (λ l. Inv (seen ++ l) l) more (Inv-round seen front h)) (rw (subtree, more) at e)
  ]

-- The query ends for any table, and the ids it finds are those of the thread of the message: the
-- message, if it is stored, and whatever answers a message of the thread.
pub subtree_is_exact :
    (ms : List Message) (root : String)
    → (ids : List String) × (subtree_ids ms root ≡ some ids)
      × ((x : String) → (includes ids x ≡ true) ↔ Thread ms root x)
unfolding subtree_ids
subtree_is_exact ms root =
    let (ids, ends) =
      subtree_ends ms (length ms) (roots ms root) (roots ms root)
        (unseen-length (roots ms root) ms) in
    (
      ids,
      ends,
      subtree-exact ms root (length ms) (roots ms root) (roots ms root) (Inv-start ms root) ends,
    )
