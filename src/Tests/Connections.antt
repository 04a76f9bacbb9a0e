-- ===== src/Tests/Connections.antt =====
-- Connections at work, from their opening to their end.
use onyxchat.Base.{
  take, ◌≤◌, ℕ, zero, suc, String, Bool, true, false, ◌≡◌, refl, some, List, [], ◌∷◌, arith, pos,
  length,
}
use onyxchat.Store.Contacts.{list_contacts}
use onyxchat.Sql.{query_row, exists_row}
use onyxchat.Store.Db.{MessageRow}
use onyxchat.Store.Messages.{Message, get_unread_for_user}
use onyxchat.Store.Session.{Result, ok, err}
use onyxchat.Hub.{add_client, members_of}
use onyxchat.Hub.Client.{Event, WsClient, send_queue_size}
use onyxchat.Hub.Membership.{registered}
use onyxchat.Hub.Delivery.{client, new_client}
use onyxchat.Http.{Server}
use onyxchat.Http.Presence.{PresenceEvent, connect, get_snapshot}
use onyxchat.Http.Presence.Counts.{IsCounted}
use onyxchat.Http.Socket.{Round, typing, read_error, ignored, Live, read_loop, open_connection}
use onyxchat.Http.Socket.Pump.{Leaves, read_loop-Leaves}
use onyxchat.Http.Socket.Opening.{open_connection-fits, open_connection-overflows, queue_given}
use onyxchat.Http.Socket.Visit.{visited, visited-IsCounted}
use onyxchat.Http.Socket.Writer.{Turn, Writer, write_pump}
use onyxchat.Http.Socket.Writer.Order.{Starts, queued, takes_all, write_pump-Starts}
use onyxchat.Tests.{server, alice_client, msg}
use onyxchat.Tests.Memory.{memory, memory-IsLawful, empty, no_failure}
use onyxchat.Tests.Live.{nobody}

-- Alice types to carol, who is not on her list.
abbrev rounds : List Round
rounds =
    record { done = false; allowed = true; incoming = typing "carol" true }
    ∷ record { done = false; allowed = true; incoming = ignored }
    ∷ record { done = false; allowed = true; incoming = read_error }
    ∷ []

abbrev carol_joins : Server ℕ
carol_joins = record server { hub = add_client (new_client 33 3 "carol") server.hub }

read_loop-Leaves_example :
    Leaves alice_client 33 carol_joins (read_loop alice_client rounds carol_joins)
unfolding add_client exists_row members_of query_row
read_loop-Leaves_example =
    read_loop-Leaves alice_client 33 rounds carol_joins (λ e. ground (arith, e))
      (λ uid mine. ground (arith, mine))

-- Bob comes back while alice is online.
abbrev any_order : String → String → Bool
any_order s t = true

abbrev alice_there : Live memory ℕ
alice_there = record {
  server = server;
  presence = record { redis = record empty { names = ("1", "alice") ∷ [] }; events = [] };
}

abbrev missed_by : Result (List Message) → List Message
missed_by (err e) = []
missed_by (ok ms) = ms

abbrev bob_missed : List Message
bob_missed = missed_by (get_unread_for_user 2 0 server.session).0

abbrev alice_online : List PresenceEvent
alice_online = record { user_id = 1; username = "alice"; online = true; is_snapshot = true } ∷ []

open_connection-fits_example :
    client 44 (open_connection any_order (new_client 44 2 "bob") (pos 0) alice_there).server.hub
    ≡ some (record (new_client 44 2 "bob") {
      send = queue_given any_order 44 2 "bob" 0 alice_there alice_online bob_missed;
    })
unfolding query_row list_contacts connect get_snapshot get_unread_for_user exists_row
open_connection-fits_example =
    open_connection-fits any_order 44 2 "bob" 0 alice_there alice_online bob_missed refl refl refl
      (omega arith)

-- Sixty-five messages wait for bob.
abbrev many : ℕ → List MessageRow
many zero = []
many (suc n) = msg (suc n) 1 2 "c" ∷ many n

abbrev crowded : Live memory ℕ
crowded = record alice_there {
  server = record server {
    session = record server.session { db = record server.session.db { messages = many 65 } };
  };
}

abbrev waiting : List Message
waiting = missed_by (get_unread_for_user 2 0 crowded.server.session).0

open_connection-overflows_example :
    (x : WsClient) × (client 44
        (open_connection any_order (new_client 44 2 "bob") (pos 0) crowded).server.hub
      ≡ some x)
    × (x.closed ≡ true)
    × (x.farewell ≡ some (1008, "slow consumer"))
    × (length x.send ≡ send_queue_size)
unfolding query_row list_contacts connect get_snapshot get_unread_for_user exists_row
open_connection-overflows_example =
    open_connection-overflows any_order 44 2 "bob" 0 crowded alice_online waiting refl refl refl
      (omega arith)

-- One event waits.
abbrev writer : Writer memory
writer = record {
  client = record alice_client { send = Event.message_deleted 7 ∷ [] };
  sent = [];
  presence = nobody;
}

write_pump-Starts_example :
    ((ts : List Turn) → Starts (write_pump ts writer).sent (Event.message_deleted 7 ∷ queued ts))
    × ((n : ℕ)
        → n ≤ 1
        → (write_pump (takes_all n) writer).sent ≡ take n (Event.message_deleted 7 ∷ []))
write_pump-Starts_example =
    write_pump-Starts writer (record { bounded = omega arith; agree = refl; running = refl })

abbrev visit : Live memory ℕ
visit =
    visited memory memory-IsLawful any_order 40 (new_client 44 2 "bob") (pos 0) rounds alice_there

visited-IsCounted_example :
    (registered 2 44 visit.server.hub ≡ false)
    × ((w : WsClient) → client 44 visit.server.hub ≡ some w → w.closed ≡ true)
    × IsCounted memory memory-IsLawful (λ j. 0) visit.presence.redis
visited-IsCounted_example =
    visited-IsCounted memory memory-IsLawful any_order 40 (new_client 44 2 "bob") (pos 0) rounds
      alice_there (λ j. 0) (λ j small. refl) (omega arith, no_failure _)
      (omega arith, no_failure _, refl)
