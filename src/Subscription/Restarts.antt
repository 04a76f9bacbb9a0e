-- ===== src/Subscription/Restarts.antt =====
-- What the restarted loops make of the messages that arrive.
use onyxchat.Base.{String, false, none, some, List, [], ◌∷◌, ◌++◌, ◌≡◌, refl, sym, ◌∙◌}
use mathlib.Core.List.{append-nil, append_assoc}
use onyxchat.Http.{Published, Server}
use onyxchat.Http.Messages.{message_subscriber}
use onyxchat.Notifier.{MessageCreatedEvent}
use onyxchat.Subscription.{
  Arrival, cancelled, channel_closed, arrived, returned_error, subscribe, start_message_subscriber,
  run, Turn, start_subscriber, restart_service,
}

module _ {ℓ} {E : Type ℓ} where
  -- The messages that arrive and decode, before the context or the channel ends.
  abbrev pub received : List (Arrival E) → List E
  received [] = []
  received (cancelled ∷ later) = []
  received (channel_closed ∷ later) = []
  received (arrived none ∷ later) = received later
  received (arrived (some e) ∷ later) = e ∷ received later

  -- A connection that drops in the end, with no end of the context.
  abbrev pub Drops : List (Arrival E) → Type 0
  Drops [] = ⊥
  Drops (cancelled ∷ later) = ⊥
  Drops (channel_closed ∷ later) = Unit
  Drops (arrived e ∷ later) = Drops later

  abbrev pub AllDrop : List (Turn E) → Type 0
  AllDrop [] = Unit
  AllDrop (turn ∷ turns) =
      (turn.done_before ≡ false) × (turn.done_after ≡ false) × Drops turn.arrivals × AllDrop turns

  abbrev pub all_received : List (Turn E) → List E
  all_received [] = []
  all_received (turn ∷ turns) = received turn.arrivals ++ all_received turns

module _ {ℓ κ} {E : Type ℓ} {S : Type κ} (step : E → S → S) where
  abbrev pub steps : List E → S → S
  steps [] s = s
  steps (e ∷ es) s = steps es (step e s)

  steps-append : (a b : List E) (s : S) → steps (a ++ b) s ≡ steps b (steps a s)
  steps-append [] b s = refl
  steps-append (e ∷ a) b s = steps-append a b (step e s)

module _ {ℓ κ} {E : Type ℓ} {S : Type κ} (closed : String) (step : E → S → S) where
  subscribe-Drops :
      (arrivals : List (Arrival E)) (s : S)
      → Drops arrivals
      → subscribe closed step arrivals s ≡ (returned_error closed, steps step (received arrivals) s)
  unfolding subscribe
  subscribe-Drops [] s h = absurd h
  subscribe-Drops (cancelled ∷ later) s h = absurd h
  subscribe-Drops (channel_closed ∷ later) s h = refl
  subscribe-Drops (arrived none ∷ later) s h = subscribe-Drops later s h
  subscribe-Drops (arrived (some e) ∷ later) s h = subscribe-Drops later (step e s) h

  start_subscriber-AllDrop :
      (turns : List (Turn E)) (s : S) (log : List String)
      → AllDrop turns
      → (start_subscriber (subscribe closed step) turns s log).0 ≡ steps step (all_received turns) s
  unfolding start_subscriber
  start_subscriber-AllDrop [] s log h = refl
  start_subscriber-AllDrop (turn ∷ turns) s log (before, after, drops, later) =
      rw
        (
          subscribe-Drops turn.arrivals s drops,
          before,
          after,
          steps-append step (received turn.arrivals) (all_received turns) s,
        )
        (start_subscriber-AllDrop turns _ _ later)

  restart_service-AllDrop :
      (turns : List (Turn E)) (s : S) (log : List String)
      → AllDrop turns
      → (restart_service (subscribe closed step) turns s log).0 ≡ steps step (all_received turns) s
  unfolding restart_service
  restart_service-AllDrop [] s log h = refl
  restart_service-AllDrop (turn ∷ turns) s log (before, after, drops, later) =
      rw
        (
          subscribe-Drops turn.arrivals s drops,
          before,
          after,
          steps-append step (received turn.arrivals) (all_received turns) s,
        )
        (restart_service-AllDrop turns _ _ later)

steps-add :
    (es started : List MessageCreatedEvent)
    → steps (λ ev started. started ++ ev ∷ []) es started ≡ started ++ es
steps-add [] started = sym (append-nil started)
steps-add (e ∷ es) started = steps-add es (started ++ e ∷ []) ∙ append_assoc started (e ∷ []) es

-- Whatever payloads that do not decode come between, and however often the connection to Redis drops,
-- the subscriber of the server handles every message that arrives and decodes, once and in order, and
-- the notification service starts the handling of every such event, once and in order, as long as the
-- programs run.
pub start_subscriber-all_received :
    {L : Type 0} (turns : List (Turn Published)) (v : Server L) (log : List String)
    (turns' : List (Turn MessageCreatedEvent)) (started : List MessageCreatedEvent)
    → AllDrop turns
    → AllDrop turns'
    → ((start_subscriber start_message_subscriber turns v log).0
        ≡ steps message_subscriber (all_received turns) v)
      × ((restart_service run turns' started log).0 ≡ started ++ all_received turns')
unfolding start_message_subscriber run
start_subscriber-all_received turns v log turns' started h h' = (
  start_subscriber-AllDrop _ _ turns v log h,
  restart_service-AllDrop _ _ turns' started log h' ∙ steps-add (all_received turns') started,
)
