-- ===== src/Subscription.antt =====
-- The loops that take what Redis publishes: StartMessageSubscriber and StartPresenceSubscriber of the
-- server with startSubscriber of its cmd/server/main.go, and Run of the notification service with the
-- loop of its cmd/notifier/main.go. What waits two seconds in the code is a turn that ends here.
pub mod Restarts
use onyxchat.Base.{
  String, Bool, true, false, ◌||◌, ◌&&◌, Option, none, some, List, [], ◌∷◌, ◌++◌, if◌then◌else◌,
}
use onyxchat.Http.{Published, Server}
use onyxchat.Http.Messages.{message_subscriber}
use onyxchat.Http.Presence.{PresenceEvent, presence_subscriber}
use onyxchat.Notifier.{MessageCreatedEvent}

-- What a select of a loop takes: the end of the context, the closed channel, or a message with its
-- payload decoded, `none` where that fails.
pub data Arrival {ℓ} (E : Type ℓ) : Type ℓ where
  cancelled channel_closed : Arrival E
  arrived : Option E → Arrival E

-- How a loop ended: with nil, with an error, or not yet.
pub data Ended : Type 0 where
  waiting returned_nil : Ended
  returned_error : String → Ended

module _ {ℓ κ} {E : Type ℓ} {S : Type κ} (closed : String) (step : E → S → S) where
  unfoldable pub subscribe : List (Arrival E) → S → Ended × S
  subscribe [] s = (waiting, s)
  subscribe (cancelled ∷ later) s = (returned_nil, s)
  subscribe (channel_closed ∷ later) s = (returned_error closed, s)
  subscribe (arrived none ∷ later) s = subscribe later s
  subscribe (arrived (some e) ∷ later) s = subscribe later (step e s)

module _ {L : Type 0} where
  -- `StartMessageSubscriber`, `StartPresenceSubscriber`; a message of another channel is passed over.
  unfoldable pub start_message_subscriber : List (Arrival Published) → Server L → Ended × Server L
  unfolding subscribe
  start_message_subscriber = subscribe "subscription channel closed" message_subscriber

  unfoldable pub start_presence_subscriber :
      List (Arrival PresenceEvent) → Server L → Ended × Server L
  unfolding subscribe
  start_presence_subscriber =
      subscribe "presence subscription channel closed" λ ev. presence_subscriber (some ev)

-- `Run` of the notification service: the events that a goroutine was started to handle, in order.
unfoldable pub run :
    List (Arrival MessageCreatedEvent) → List MessageCreatedEvent → Ended × List MessageCreatedEvent
unfolding subscribe
run = subscribe "subscription channel closed" λ ev started. started ++ ev ∷ []

abbrev pub is_error : Ended → Bool
is_error (returned_error e) = true
is_error _ = false

abbrev pub is_waiting : Ended → Bool
is_waiting waiting = true
is_waiting _ = false

-- A turn of a loop: whether the context was done before it, what arrived, and whether the context was
-- done before the two seconds were over.
pub record Turn {ℓ} (E : Type ℓ) : Type ℓ where
  pub done_before : Bool
  pub arrivals : List (Arrival E)
  pub done_after : Bool

-- The errors that were logged, and the state.
abbrev pub log_exit : Ended → List String → List String
log_exit (returned_error e) log = log ++ e ∷ []
log_exit _ log = log

module _ {ℓ κ} {E : Type ℓ} {S : Type κ} (fn : List (Arrival E) → S → Ended × S) where
  -- startSubscriber of the server, which waits after every turn.
  unfoldable pub start_subscriber : List (Turn E) → S → List String → S × List String
  start_subscriber [] s log = (s, log)
  start_subscriber (turn ∷ turns) s log =
      let (ended, s') = fn turn.arrivals s in
      let log' = log_exit ended log in
      let rest = start_subscriber turns s' log' in
      if turn.done_before
      then (s, log)
      else if is_waiting ended || turn.done_after
      then (s', log')
      else rest

  -- The loop of the notification service, which waits after an error only.
  unfoldable pub restart_service : List (Turn E) → S → List String → S × List String
  restart_service [] s log = (s, log)
  restart_service (turn ∷ turns) s log =
      let (ended, s') = fn turn.arrivals s in
      let log' = log_exit ended log in
      let rest = restart_service turns s' log' in
      if turn.done_before
      then (s, log)
      else if is_waiting ended || (is_error ended && turn.done_after)
      then (s', log')
      else rest
