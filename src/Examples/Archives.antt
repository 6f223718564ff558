-- ===== src/Examples/Archives.antt =====
-- A request with its reply, and a message that nobody has answered (src/tools/queue-archive.ts).
use mathlib.Core.List.{Memᴰ}
use scrum4me_mcp.Prelude.{
  ◌≡◌, refl, ◌↔◌, ◌⊎◌, String, true, false, some, List, [], ◌∷◌, includes, map, or_else,
}
use scrum4me_mcp.Queue.Message.{Message, Queue}
use scrum4me_mcp.Queue.Archive.{
  subtree_ids, subtree, fresh, roots, lock_subtree, archive_rows, archive_checked, managed_block,
  active_row, archive_queue_subtree, changed, is_terminal,
}
use scrum4me_mcp.Queue.Archive.Thread.{IsRow, Thread, subtree_is_exact}
use scrum4me_mcp.Queue.Archive.Whole.{archive_takes_all, archive_refuses_whole}
use scrum4me_mcp.Examples.Messages.{vocabulary, first_message}

abbrev request : Message
request = record first_message { id = "q1"; status = "done" }

abbrev answer : Message
answer = record first_message {
  id = "q2";
  status = "done";
  in_reply_to = some "q1";
  archived_at = some 7;
}

abbrev open_message : Message
open_message = record first_message { id = "q3"; status = "pending" }

abbrev mailbox : Queue
mailbox = record { messages = answer ∷ open_message ∷ request ∷ []; sent = [] }

thread_of_request : subtree_ids mailbox.messages "q1" ≡ some ("q1" ∷ "q2" ∷ [])
unfolding subtree_ids subtree fresh roots
thread_of_request = refl

request_archives : (archive_queue_subtree vocabulary 50 "q1" mailbox).1 ≡ changed 2 1
unfolding archive_queue_subtree lock_subtree subtree_ids subtree fresh roots archive_rows
    archive_checked managed_block active_row
request_archives = refl

subtree_is_exact_example :
    (ids : List String) × (subtree_ids mailbox.messages "q1" ≡ some ids)
    × ((x : String) → (includes ids x ≡ true) ↔ Thread mailbox.messages "q1" x)
subtree_is_exact_example = subtree_is_exact mailbox.messages "q1"

archive_takes_all_example :
    (f : Message → Message) × ((archive_queue_subtree vocabulary 50 "q1" mailbox).0.messages
      ≡ map f mailbox.messages)
    × ((m : Message)
        → Memᴰ m mailbox.messages
        → Thread mailbox.messages "q1" m.id
        → (is_terminal vocabulary m ≡ true)
          × (f m ≡ record m { archived_at = some (or_else m.archived_at 50) }))
    × ((m : Message) → Memᴰ m mailbox.messages → ¬ Thread mailbox.messages "q1" m.id → f m ≡ m)
unfolding archive_queue_subtree lock_subtree subtree_ids subtree fresh roots archive_rows
    archive_checked managed_block active_row
archive_takes_all_example = archive_takes_all vocabulary 50 mailbox "q1" refl

archive_refuses_whole_example :
    ((archive_queue_subtree vocabulary 50 "q3" mailbox).0 ≡ mailbox)
    × (¬ IsRow mailbox.messages "q3"
        ⊎ ((m : Message) × Memᴰ m mailbox.messages
            × Thread mailbox.messages "q3" m.id
            × (is_terminal vocabulary m ≡ false)))
unfolding archive_queue_subtree lock_subtree subtree_ids subtree fresh roots archive_rows
    archive_checked managed_block active_row
archive_refuses_whole_example = archive_refuses_whole vocabulary 50 mailbox "q3" refl
