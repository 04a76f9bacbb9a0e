-- ===== src/Http/Socket.antt =====
-- The connections of internal/http/ws.go: `NewUpgrader`, `WebSocketHandler` and `readPump`; `writePump`
-- is in Writer. A connection is the number of its client, given when it is accepted. What arrives on it
-- is a list of rounds of `readPump`'s loop: the limiter is shared with the user's other connections, so
-- its answer is the round's, as is whether the context has ended. The deadlines of the connection and
-- its limit on the size of a message belong to the WebSocket library, as does the answer to a request
-- that it does not upgrade.
pub mod Pump
pub mod Opening
pub mod Visit
pub mod Writer
use onyxchat.Base.{
  ℕ, zero, suc, String, str_eq, Bool, true, false, not, Option, none, some, List, [], ◌∷◌, map,
  if◌then◌else◌, ℤ, pos, negsuc, leb, ltb, ◌==◌,
}
use onyxchat.Sql.{exists_row}
use onyxchat.Text.{trim_space, parse_int, parsed_value}
use onyxchat.Redis.{Redis, Answer}
use onyxchat.Store.Session.{Result, ok, err}
use onyxchat.Store.Users.{User, get_user_by_username}
use onyxchat.Store.Contacts.{Contact, is_contact, list_contacts}
use onyxchat.Store.Messages.{Message, get_unread_for_user}
use onyxchat.Hub.{
  Hub, limiter_for, add_client, remove_client, for_each, send_typing_to_user, send_message_to_user,
}
use onyxchat.Hub.Client.{WsClient, Event, close, close_with, enqueue_drop_slow}
use onyxchat.Hub.Delivery.{new_client}
use onyxchat.Http.{CurrentUser, Reply, error, status, Server}
use onyxchat.Http.Presence.{
  PresenceEvent, PresenceStore, presence_event, connect, disconnect, refresh, get_snapshot,
}

-- `CheckOrigin` of `NewUpgrader`, for the request's header Origin.
unfoldable pub check_origin : (allowed_origins : List String) → (env origin : String) → Bool
unfolding exists_row trim_space
check_origin allowed_origins env origin =
    if str_eq origin ""
    then not (str_eq env "prod")
    else exists_row (λ o. str_eq (trim_space o) origin) allowed_origins

-- What `ReadMessage` returns and how it is decoded: an error, a message that is passed over (not a
-- text, not JSON, of an unknown type, or a malformed typing message), or a typing message.
pub data Incoming : Type 0 where
  read_error ignored : Incoming
  typing : (to : String) → (is_typing : Bool) → Incoming

abbrev pub is_read_error : Incoming → Bool
is_read_error read_error = true
is_read_error _ = false

pub record Round : Type 0 where
  pub done : Bool
  pub allowed : Bool
  pub incoming : Incoming

module _ {L : Type 0} (c : WsClient) where
  abbrev pub after_is_contact : User → Bool → Result Bool → Server L → Server L
  after_is_contact to_user is_typing (ok true) v = record v {
    hub = send_typing_to_user c.username to_user.id to_user.username is_typing v.hub;
  }
  after_is_contact to_user is_typing _ v = v

  abbrev pub after_lookup : Bool → Result User → Server L → Server L
  after_lookup is_typing (err e) v = v
  after_lookup is_typing (ok to_user) v =
      let (known, s) = is_contact c.user_id to_user.id v.session in
      after_is_contact to_user is_typing known (record v { session = s })

  -- The case "typing" of `readPump`.
  unfoldable pub forward_typing : (to : String) → (is_typing : Bool) → Server L → Server L
  unfolding get_user_by_username is_contact send_typing_to_user
  forward_typing to is_typing v =
      let (found, s) = get_user_by_username to v.session in
      after_lookup is_typing found (record v { session = s })

  abbrev pub on_client : (WsClient → WsClient) → Server L → Server L
  on_client f v = record v { hub = for_each (c.cid ∷ []) f v.hub }

  abbrev pub receive : Incoming → Server L → Server L
  receive (typing to is_typing) v = forward_typing to is_typing v
  receive _ v = v

  -- The loop of `readPump`; the connection fails after the last round. 1008 is ClosePolicyViolation.
  unfoldable pub read_loop : List Round → Server L → Server L
  unfolding forward_typing for_each close_with
  read_loop [] v = v
  read_loop (r ∷ rs) v =
      let rest = read_loop rs (receive r.incoming v) in
      if r.done
      then v
      else if not r.allowed
      then on_client (close_with 1008 "rate limit") v
      else if is_read_error r.incoming
      then v
      else rest

-- The contacts' ids; none with an error.
abbrev pub contact_ids : Result (List Contact) → List ℕ
contact_ids (err e) = []
contact_ids (ok cs) = map (λ c. c.id) cs

module _ {L : Type 0} where
  -- No snapshot with an error.
  abbrev pub enqueue_snapshot : WsClient → Option (List PresenceEvent) → Hub L → Hub L
  enqueue_snapshot c none h = h
  enqueue_snapshot c (some []) h = h
  enqueue_snapshot c (some (ev ∷ evs)) h =
      enqueue_snapshot c (some evs)
        (for_each (c.cid ∷ []) (enqueue_drop_slow (presence_event ev)) h)

  abbrev pub send_missed : ℕ → Result (List Message) → Hub L → Hub L
  send_missed uid (err e) h = h
  send_missed uid (ok []) h = h
  send_missed uid (ok (m ∷ ms)) h = send_missed uid (ok ms) (send_message_to_user uid m h)

  -- The messages since an id that is not negative.
  abbrev pub catch_up : ℕ → ℤ → Server L → Server L
  catch_up uid (negsuc n) v = v
  catch_up uid (pos since) v =
      let (unread, s) = get_unread_for_user uid since v.session in
      record v { session = s; hub = send_missed uid unread v.hub }

-- The server, and the store of the presence.
pub record Live (R : Redis) (L : Type 0) : Type 0 where
  pub server : Server L
  pub presence : PresenceStore R

module _ {R : Redis} {L : Type 0} where
  -- `readPump`: the loop, then what is deferred. `fresh` makes a limiter. Cancelling the context ends the
  -- other pump.
  unfoldable pub read_pump : L → WsClient → List Round → Live R L → Live R L
  unfolding limiter_for read_loop remove_client disconnect for_each close
  read_pump fresh c rounds s =
      let limited = record s.server { hub = (limiter_for fresh c.user_id s.server.hub).1 } in
      let v = read_loop c rounds limited in
      let removed = record v { hub = remove_client c v.hub } in
      record {
        server = on_client c close removed;
        presence = (disconnect c.user_id c.username s.presence).1;
      }

  -- `WebSocketHandler` from the upgrade to the start of the pumps.
  unfoldable pub open_connection :
      (before : String → String → Bool) → WsClient → (since : ℤ) → Live R L → Live R L
  unfolding add_client connect list_contacts get_snapshot for_each enqueue_drop_slow
      get_unread_for_user send_message_to_user
  open_connection before c since s =
      let joined = (connect c.user_id c.username s.presence).1 in
      let (contacts, session) = list_contacts before c.user_id s.server.session in
      let (snapshot, presence) = get_snapshot (contact_ids contacts) joined in
      let v = record s.server {
        session = session;
        hub = enqueue_snapshot c snapshot (add_client c s.server.hub);
      } in
      record { server = catch_up c.user_id since v; presence = presence }

  -- The query's value of sinceId, and whether the library upgrades the request. An answer of the
  -- handler's own, if any.
  unfoldable pub web_socket_handler :
      (before : String → String → Bool)
      → Option CurrentUser
      → (since_id : String) → (upgraded : Bool) → (cid : ℕ) → Live R L
      → Option (Reply (Unit {0})) × Live R L
  unfolding parse_int open_connection
  web_socket_handler before none since_id upgraded cid s = (some (error 401 "unauthorized"), s)
  web_socket_handler before (some u) since_id upgraded cid s =
      if upgraded
      then (
        none,
        open_connection before (new_client cid u.id u.username) (parsed_value (parse_int since_id))
            s,
      )
      else (none, s)
