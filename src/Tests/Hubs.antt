-- ===== src/Tests/Hubs.antt =====
-- The hub and the message handlers at work.
use onyxchat.Base.{ℕ, String, true, false, ◌≡◌, refl, Option, some, List, [], ◌∷◌, arith}
use onyxchat.Hub.{new_hub}
use onyxchat.Hub.Client.{Event, enqueue_drop_slow, select_send, close_with, IsSound, enqueue_race}
use onyxchat.Hub.Delivery.{Call, history, AllSound, history-IsSound}
use onyxchat.Http.{Server}
use onyxchat.Http.Messages.{SendMessageRequest, send_message_handler, delete_message_handler}
use onyxchat.Http.Sending.{Sends, send_message-Sends}
use onyxchat.Http.Deletion.{Deletes, delete_message-Deletes}
use onyxchat.Http.Arrival.{Arrives, send_message-Arrives}
use onyxchat.Sql.{exists_row}
use onyxchat.Store.Messages.{Message, scan_msg, new_message, same_key}
use onyxchat.Tests.{alice_client, server, alice, small_db, small_db-IsValid}

abbrev calls : List Call
calls =
    Call.adds 11 1 "alice"
    ∷ Call.sends 1 (Event.message_deleted 7)
    ∷ Call.disconnects 1
    ∷ Call.broadcasts (Event.key_changed "bob")
    ∷ Call.takes 11
    ∷ Call.removes alice_client
    ∷ []

history-IsSound_example : AllSound (history calls (new_hub {L = ℕ})).clients
history-IsSound_example = history-IsSound ℕ calls

alice_client-IsSound : IsSound alice_client
alice_client-IsSound = record { bounded = omega arith; agree = refl; running = refl }

-- That many deletions in a row.
abbrev burst : ℕ → List Event
burst ℕ.zero = []
burst (ℕ.suc n) = Event.message_deleted n ∷ burst n

enqueue_race_example :
    ((enqueue_drop_slow (Event.message_deleted 1) alice_client).panicked ≡ false)
    × ((select_send
          (Event.message_deleted 1)
          (close_with 1001 "server shutting down" alice_client)).panicked
        ≡ true)
enqueue_race_example =
    enqueue_race (Event.message_deleted 1) 1001 "server shutting down" alice_client
      alice_client-IsSound refl

abbrev to_bob : SendMessageRequest
to_bob = record {
  recipient_username = "bob";
  body = "ct";
  iv = "AAAA";
  encrypted = true;
  client_message_id = "c9";
}

-- A decoder that finds twelve bytes in each text.
abbrev twelve : String → Option (List ℕ)
twelve s = some (0 ∷ 0 ∷ 0 ∷ 0 ∷ 0 ∷ 0 ∷ 0 ∷ 0 ∷ 0 ∷ 0 ∷ 0 ∷ 0 ∷ [])

send_message-Sends_example :
    Sends true alice to_bob server
      (send_message_handler twelve true "POST" (some alice) (some to_bob) server)
send_message-Sends_example = send_message-Sends twelve true alice to_bob server

delete_message-Deletes_example :
    Deletes alice "1" server (delete_message_handler (some alice) "1" server)
delete_message-Deletes_example = delete_message-Deletes alice "1" server

-- Bob's server, once alice's message to him is in the tables.
abbrev his_server : Server ℕ
unfolding send_message_handler
his_server = record server {
  session = (send_message_handler twelve true "POST" (some alice) (some to_bob) server).1.session;
}

abbrev sent : Message
unfolding scan_msg
sent = scan_msg (new_message 100 small_db 1 2 "ct" "AAAA" true "c9")

send_message-Arrives_example :
    Arrives alice to_bob server
      (send_message_handler twelve true "POST" (some alice) (some to_bob) server).1
      his_server
      sent
unfolding send_message_handler exists_row same_key sent scan_msg
send_message-Arrives_example =
    send_message-Arrives twelve alice to_bob server his_server 201 sent small_db-IsValid refl refl
      refl
