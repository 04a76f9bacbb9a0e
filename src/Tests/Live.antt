-- ===== src/Tests/Live.antt =====
-- Presence and notifications at work.
use onyxchat.Base.{ℕ, ◌+◌, String, Bool, ◌≡◌, refl, Option, none, some, List, [], ◌∷◌, arith, ltb}
use onyxchat.Text.{print_nat}
use onyxchat.Sql.{query_row}
use onyxchat.Http.Auth.{internal_service_auth, internal_get_push_token_handler}
use onyxchat.Http.Presence.{PresenceStore}
use onyxchat.Http.Presence.Counts.{Call, connects, disconnects, refreshes}
use onyxchat.Notifier.{MessageCreatedEvent, HttpResponse, max_attempts, deliver_with_retry, handle}
use onyxchat.Notifier.Retry.{IsRetry, deliver_with_retry-IsRetry}
use onyxchat.Notifier.Handling.{should, respond, handle-should}
use onyxchat.Tests.{server, user}
use onyxchat.Tests.Memory.{memory, memory-IsLawful, empty}

abbrev pub nobody : PresenceStore memory
nobody = record { redis = empty; events = [] }

abbrev visits : List Call
visits =
    connects 1 "alice"
    ∷ connects 1 "alice"
    ∷ refreshes 1
    ∷ disconnects 1 "alice"
    ∷ connects 2 "bob"
    ∷ disconnects 1 "alice"
    ∷ []

-- The backend is down until 2500.
abbrev outage : ℕ → Bool × ℕ
outage t = (ltb t 2500, t + 5)

deliver_with_retry-IsRetry_example :
    IsRetry outage none max_attempts 0 (deliver_with_retry outage none 0)
deliver_with_retry-IsRetry_example = deliver_with_retry-IsRetry outage none 0

abbrev event : MessageCreatedEvent
event = record { message_id = 4; sender_id = 1; recipient_id = 2; client_message_id = "c2" }

-- The server answers at its one URL.
abbrev serve : (url secret : String) → Option HttpResponse
serve url secret = some (
    respond
      (internal_service_auth "secret" secret (internal_get_push_token_handler (print_nat 2))
        server).0)

handle-should_example :
    (handle memory serve "http://server" "secret" 50 event empty).0 ≡ should 0 50 "token"
unfolding query_row
handle-should_example =
    handle-should "secret" "http://server" serve memory memory-IsLawful (λ j. 0) 50 event empty
      server (user 2 "bob" "kb") (omega arith) (omega arith) (λ j small. refl) (λ e. cc) refl refl
      refl
