-- ===== src/Tests/Messages.antt =====
-- Messages at work: sending, paging, receipts and deletion.
use onyxchat.Base.{
  true, false, ◌≡◌, refl, some, none, List, [], ◌∷◌, ◌++◌, arith, map, ltb, length, ◌-◌, drop,
}
use onyxchat.Sql.{exists_row}
use onyxchat.Store.Db.{MessageRow}
use onyxchat.Store.Session.{Session, ok, count_call}
use onyxchat.Store.Messages.{
  Message, create_or_get_existing, list_conversation_since, list_conversation_before, display,
  scan_msg, same_key,
}
use onyxchat.Store.Messages.Idempotence.{create-retry}
use onyxchat.Store.Messages.History.{fetch_history, fetch_history_complete}
use onyxchat.Store.Messages.Paging.{above, conversation}
use onyxchat.Store.Messages.Reversal.{older, list_conversation_before-page}
use onyxchat.Store.Messages.Invariant.{Change, creates, reads, deletes, changes}
use onyxchat.Store.Messages.Keeping.{AllKept, changes-AllKept}
use onyxchat.Tests.{small_db, up, small_db-IsValid, msg, up_at}

abbrev sent_row : MessageRow
sent_row = record (msg 5 1 2 "c9") { body = "hello"; created_at = 100 }

abbrev sent_message : Message
sent_message = record {
  id = 5;
  sender_id = 1;
  recipient_id = 2;
  body = "hello";
  iv = "";
  encrypted = false;
  client_message_id = "c9";
  created_at = 100;
  read_at = none;
  deleted_at = none;
}

abbrev after_send : Session
after_send =
    up_at 200 (record small_db { messages = small_db.messages ++ sent_row ∷ []; next_message = 6 })

create-retry_example :
    create_or_get_existing 1 3 "again" "" false "c9" after_send
    ≡ (ok (sent_message, false), record after_send { calls = 2 })
unfolding create_or_get_existing exists_row same_key scan_msg
create-retry_example =
    create-retry 1 2 3 "hello" "" "again" "" false false "c9" up after_send sent_message true refl
      refl refl refl

fetch_history_complete_example :
    fetch_history 4 1 2 2 0 up ≡ some (map display (above 0 (conversation 1 2 small_db)))
unfolding list_conversation_since
fetch_history_complete_example =
    fetch_history_complete 4 1 2 2 0 up small_db-IsValid (λ n. refl) (omega arith) (omega arith)

list_conversation_before-page_example : list_conversation_before 1 2 9 2 up ≡ (
  ok (
    map display (
        drop
          (length (older 9 (conversation 1 2 small_db)) - 2)
          (older 9 (conversation 1 2 small_db))),
    ltb 2 (length (older 9 (conversation 1 2 small_db))),
  ),
  count_call up,
)
list_conversation_before-page_example =
    list_conversation_before-page 1 2 9 2 up small_db-IsValid refl

abbrev busy : List Change
busy =
    creates 1 2 "hello" "" false "c9"
    ∷ creates 1 2 "hello" "" false "c9"
    ∷ reads 2 1
    ∷ deletes 1 1
    ∷ deletes 1 2
    ∷ []

changes-AllKept_example : AllKept busy up.db.messages (changes busy up).db.messages
changes-AllKept_example = changes-AllKept busy up
