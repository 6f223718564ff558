-- ===== src/Queue/Archive.antt =====
-- src/tools/queue-archive.ts: a message and all its replies are archived together, and taken out of
-- the archive together.
pub mod Thread
pub mod Whole
use mathlib.Core.Option
use scrum4me_mcp.Prelude.{
  ℕ, zero, suc, String, Bool, false, not, ◌&&◌, Option, none, some, List, [], ◌∷◌, ◌++◌, ◌==◌,
  is_null, includes, find?, length, map, select, some?, if◌then◌else◌,
}
use scrum4me_mcp.Queue.Message.{Message, Queue, Vocabulary}

abbrev pub replies_to : List String → Message → Bool
replies_to ids m = elim m.in_reply_to [ none ↦ false | some parent ↦ includes ids parent ]

-- The ids that one round of the recursive query adds: UNION drops those that are there.
unfoldable pub fresh : List Message → List String → List String → List String
fresh ms seen front =
    map (λ m. m.id) (select (λ m. replies_to front m && not (includes seen m.id)) ms)

-- The rounds of `WITH RECURSIVE subtree`, on fuel: `front` is what the last round added.
unfoldable pub subtree : List Message → ℕ → List String → List String → Option (List String)
subtree ms zero seen front = elim (fresh ms seen front) [ [] ↦ some seen | _ ∷ _ ↦ none ]
subtree ms (suc fuel) seen front = elim (fresh ms seen front) [
  | [] ↦ some seen
  | x ∷ xs ↦ subtree ms fuel (seen ++ x ∷ xs) (x ∷ xs)
]

unfoldable pub roots : List Message → String → List String
roots ms id = map (λ m. m.id) (select (λ m. m.id == id) ms)

unfoldable pub subtree_ids : List Message → String → Option (List String)
subtree_ids ms id = subtree ms (length ms) (roots ms id) (roots ms id)

abbrev pub rows_of : List Message → List String → List Message
rows_of ms ids = select (λ m. includes ids m.id) ms

-- `lockSubtree`.
unfoldable pub lock_subtree : List Message → String → Option (List Message)
lock_subtree ms id = Option.map (rows_of ms) (subtree_ids ms id)

abbrev pub is_terminal : Vocabulary → Message → Bool
is_terminal v m = includes v.terminal_statuses m.status

-- `rows.find((r) => !terminal(r))`.
unfoldable pub active_row : Vocabulary → List Message → Option Message
active_row v rows = find? (λ m. not (is_terminal v m)) rows

-- `managedBlock`: the first active row of a thread that holds a managed row.
unfoldable pub managed_block : Vocabulary → List Message → Option Message
managed_block v rows =
    if some? (λ m. not (is_null m.projection.dispatch_request_id)) rows
    then active_row v rows
    else none

-- The answers: the id and the status of the row that refuses, or the rows of the thread and how
-- many of them were written.
pub data ArchiveResult : Type 0 where
  not_found out_of_fuel : ArchiveResult
  managed_not_terminal not_terminal : String → String → ArchiveResult
  changed : ℕ → ℕ → ArchiveResult

-- `updateMany({ where: { id: { in: ids }, archived_at: null } })`.
abbrev pub enters_archive : List String → Message → Bool
enters_archive ids m = includes ids m.id && is_null m.archived_at

unfoldable pub archived_row : List String → ℕ → Message → Message
archived_row ids now m = if enters_archive ids m then record m { archived_at = some now } else m

abbrev pub leaves_archive : List String → Message → Bool
leaves_archive ids m = includes ids m.id && not (is_null m.archived_at)

unfoldable pub unarchived_row : List String → Message → Message
unarchived_row ids m = if leaves_archive ids m then record m { archived_at = none } else m

-- The transaction, once the rows are locked: after the row that blocks a managed thread and the row
-- that is active have been looked for.
unfoldable pub archive_checked :
    ℕ → List Message → Option Message → Option Message → Queue → Queue × ArchiveResult
archive_checked now rows (some m) active q = (q, managed_not_terminal m.id m.status)
archive_checked now rows none (some m) q = (q, not_terminal m.id m.status)
archive_checked now rows none none q =
    let ids = map (λ (m : Message). m.id) rows in
    (
      record q { messages = map (archived_row ids now) q.messages },
      changed (length ids) (length (select (enters_archive ids) q.messages)),
    )

unfoldable pub archive_rows : Vocabulary → ℕ → List Message → Queue → Queue × ArchiveResult
archive_rows v now [] q = (q, not_found)
archive_rows v now (r ∷ rs) q =
    archive_checked now (r ∷ rs) (managed_block v (r ∷ rs)) (active_row v (r ∷ rs)) q

unfoldable pub unarchive_checked : List Message → Option Message → Queue → Queue × ArchiveResult
unarchive_checked rows (some m) q = (q, managed_not_terminal m.id m.status)
unarchive_checked rows none q =
    let ids = map (λ (m : Message). m.id) rows in
    (
      record q { messages = map (unarchived_row ids) q.messages },
      changed (length ids) (length (select (leaves_archive ids) q.messages)),
    )

unfoldable pub unarchive_rows : Vocabulary → List Message → Queue → Queue × ArchiveResult
unarchive_rows v [] q = (q, not_found)
unarchive_rows v (r ∷ rs) q = unarchive_checked (r ∷ rs) (managed_block v (r ∷ rs)) q

-- `archiveQueueSubtree`.
unfoldable pub archive_queue_subtree : Vocabulary → ℕ → String → Queue → Queue × ArchiveResult
archive_queue_subtree v now id q = elim (lock_subtree q.messages id) [
  | none ↦ (q, out_of_fuel)
  | some rows ↦ archive_rows v now rows q
]

-- `unarchiveQueueSubtree`.
unfoldable pub unarchive_queue_subtree : Vocabulary → String → Queue → Queue × ArchiveResult
unarchive_queue_subtree v id q = elim (lock_subtree q.messages id) [
  | none ↦ (q, out_of_fuel)
  | some rows ↦ unarchive_rows v rows q
]
