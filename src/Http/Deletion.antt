-- ===== src/Http/Deletion.antt =====
-- What `DeleteMessageHandler` and the subscriber of internal/http/message_handlers.go do.
use mathlib.Core.Option
use onyxchat.Base.{
  ℕ, String, ◌≡◌, refl, ◌∙◌, Option, none, some, [], ◌∷◌, ◌++◌, arith, if◌then◌else◌, is_positive,
  Bool, ◌&&◌, ◌==◌, is_null,
}
use onyxchat.Text.{parse_int, parsed_good}
use onyxchat.Hub.{Hub, send_message_to_user, send_to_user}
use onyxchat.Hub.Client.{WsClient, Event, enqueue_drop_slow}
use onyxchat.Hub.Membership.{registered}
use onyxchat.Hub.Delivery.{client, send_to_user-client}
use onyxchat.Sql.{query_row, update}
use onyxchat.Store.Db.{MessageRow}
use onyxchat.Store.Session.{Session, Result, Error, message_not_found, ok, err}
use onyxchat.Store.Messages.{Message, soft_delete, deletable, get_by_id}
use onyxchat.Store.Messages.Deletion.{soft_delete-marks}
use onyxchat.Http.{
  CurrentUser, Reply, error, json_error, json, status, message_created, message_deleted, Server,
}
use onyxchat.Http.Messages.{
  delete_message_handler, delete_message, after_delete, message_subscriber, when,
}

-- A message with this id and this sender that is not deleted.
abbrev names_live : ℕ → ℕ → MessageRow → Bool
names_live mid sender r = r.id == mid && r.sender_id == sender && is_null r.deleted_at

-- What a request to delete did, by its answer.
abbrev pub Deletes :
    {L : Type 0} → CurrentUser → String → Server L → Reply (Unit {0}) × Server L → Type 0
Deletes cu id_str v (status code, w) =
    (mid : ℕ) × (r : MessageRow) × (when is_positive (parsed_good (parse_int id_str)) ≡ some mid)
    × (query_row (names_live mid cu.id) v.session.db.messages ≡ some r)
    × (w.session.db ≡ record v.session.db {
      messages =
          update (names_live mid cu.id) (λ x. record x { deleted_at = some v.session.now })
            v.session.db.messages;
    })
    × (w.published ≡ v.published ++ message_deleted mid cu.id r.recipient_id ∷ [])
Deletes cu id_str v (error code text, w) =
    (w.published ≡ v.published) × (w.session.db ≡ v.session.db)
Deletes cu id_str v (json_error code text, w) =
    (w.published ≡ v.published) × (w.session.db ≡ v.session.db)
Deletes cu id_str v (json code x, w) = ⊥

soft_delete_failed :
    (mid sender : ℕ) (s : Session) (e : Error)
    → (soft_delete mid sender s).0 ≡ err e
    → (soft_delete mid sender s).1.db ≡ s.db
unfolding soft_delete
soft_delete_failed mid sender s e h = ground arith

module _ {L : Type 0} (cu : CurrentUser) (id_str : String) (v : Server L) where
  deleted-Deletes :
      (mid : ℕ) (x : Result Message)
      → when is_positive (parsed_good (parse_int id_str)) ≡ some mid
      → (soft_delete mid cu.id v.session).0 ≡ x
      → Deletes cu id_str v
          (after_delete x (record v { session = (soft_delete mid cu.id v.session).1 }))
  unfolding deletable
  deleted-Deletes mid (ok m) q h =
      let (r, there, marked, same, own, to) = soft_delete-marks mid cu.id v.session m h in
      (mid, r, q, there, marked, rw (same, own, to) refl)
  deleted-Deletes mid (err e) q h = go e (soft_delete_failed mid cu.id v.session e h)
    where
      go :
          (e : Error)
          → (soft_delete mid cu.id v.session).1.db ≡ v.session.db
          → Deletes cu id_str v
              (after_delete (err e) (record v { session = (soft_delete mid cu.id v.session).1 }))
      go message_not_found same = (refl, same)
      go e same = (refl, same)

  parsed-Deletes :
      (x : Option ℕ)
      → when is_positive (parsed_good (parse_int id_str)) ≡ x
      → Deletes cu id_str v (delete_message cu x v)
  parsed-Deletes none q = (refl, refl)
  parsed-Deletes (some mid) q = deleted-Deletes mid _ q refl

  -- For a request with a user: a deletion that is confirmed names a message that the caller sent and
  -- that was not deleted, sets its time of deletion and changes nothing else in the tables, and exactly
  -- one event that announces it is to be published; whatever else is answered, nothing is published and
  -- the tables stay as they are.
  pub delete_message-Deletes : Deletes cu id_str v (delete_message_handler (some cu) id_str v)
  unfolding delete_message_handler
  delete_message-Deletes = parsed-Deletes _ refl

module _ {L : Type 0} where
  -- What one more event does to a client, if it is registered for the user.
  abbrev pub receives : ℕ → Event → ℕ → Hub L → WsClient → WsClient
  receives uid ev k h c = if registered uid k h then enqueue_drop_slow ev c else c

map-map :
    {A B C : Type 0} (f : B → C) (g : A → B) (x : Option A)
    → Option.map f (Option.map g x) ≡ Option.map (λ a. f (g a)) x
map-map f g none = refl
map-map f g (some a) = refl

two_events :
    {L : Type 0} (uid uid' k : ℕ) (ev : Event) (h : Hub L)
    → client k (send_to_user uid' ev (send_to_user uid ev h))
      ≡ Option.map (λ c. receives uid' ev k h (receives uid ev k h c)) (client k h)
two_events uid uid' k ev h =
    let (first, entries) = send_to_user-client uid ev k h in
    let (second, _) = send_to_user-client uid' ev k (send_to_user uid ev h) in
    second ∙ rw (first, entries) (map-map (receives uid' ev k h) (receives uid ev k h) (client k h))

-- When the store finds the message of a published event, each client that its sender has registered
-- takes the message, then each client of its recipient, and no other client changes.
pub message_subscriber-client :
    {L : Type 0} (mid sender recipient k : ℕ) (client_id : String) (m : Message) (v : Server L)
    → (get_by_id mid v.session).0 ≡ ok m
    → client k (message_subscriber (message_created mid sender recipient client_id) v).hub
      ≡ Option.map
          (λ c.
            receives m.recipient_id
              (Event.message m)
              k
              v.hub
              (receives m.sender_id (Event.message m) k v.hub c))
          (client k v.hub)
unfolding message_subscriber send_message_to_user
message_subscriber-client mid sender recipient k client_id m v h =
    rw h (two_events m.sender_id m.recipient_id k (Event.message m) v.hub)
