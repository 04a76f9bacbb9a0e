-- ===== src/Http/Messages.antt =====
-- internal/http/message_handlers.go: sending, listing, reading and deleting messages, and the
-- subscriber that hands published messages to the hub. `decode_base64` is
-- base64.StdEncoding.DecodeString.
use onyxchat.Base.{
  ℕ, String, len, str_eq, Bool, false, not, ◌&&◌, ◌||◌, Option, none, some, List, [], ◌∷◌, ◌++◌,
  ◌==◌, ltb, length, if◌then◌else◌, coalesce, ℤ, is_positive, is_nonneg, to_nat,
}
use onyxchat.Text.{parse_int, parsed_good}
use onyxchat.Hub.{
  Hub, send_message_to_user, send_message_deleted_to_users, send_read_receipt_to_user,
}
use onyxchat.Store.Session.{Result, ok, err, message_not_found}
use onyxchat.Store.Users.{User, get_by_username}
use onyxchat.Store.Messages.{
  Message, create_or_get_existing, get_by_id, list_conversation_since, list_conversation_before,
  mark_read, soft_delete,
}
use onyxchat.Http.{
  CurrentUser, error, json_error, json, status, Published, message_created, message_deleted, Server,
  Handler, answer, with_user, call,
}

pub record SendMessageRequest : Type 0 where
  pub recipient_username : String
  pub body : String
  pub iv : String
  pub encrypted : Bool
  pub client_message_id : String

abbrev pub publish : {L : Type 0} → Published → Server L → Server L
publish ev v = record v { published = v.published ++ ev ∷ [] }

abbrev pub bytes_12 : {B : Type 0} → Option (List B) → Bool
bytes_12 none = false
bytes_12 (some bs) = length bs == 12

abbrev pub status_of : Bool → ℕ
status_of inserted = if inserted then 201 else 200

-- `written` is whether json.NewEncoder(w).Encode of the answer returns no error.
module _ {L : Type 0} (written : Bool) where
  abbrev pub after_create : SendMessageRequest → Result (Message × Bool) → Handler L Message
  after_create req (err e) v = answer (json_error 500 "failed to save message") v
  after_create req (ok (saved, inserted)) v = (
    json (status_of inserted) saved,
    if written
        then publish
            (message_created saved.id saved.sender_id saved.recipient_id req.client_message_id) v
        else v,
  )

  abbrev pub send_to_recipient : CurrentUser → SendMessageRequest → Result User → Handler L Message
  send_to_recipient cu req (err e) v = answer (error 400 "recipient not found") v
  send_to_recipient cu req (ok recipient) v =
      call
        (create_or_get_existing cu.id recipient.id req.body req.iv req.encrypted
          req.client_message_id)
        (after_create req) v

module _ {B : Type 0} (decode_base64 : String → Option (List B)) where
  -- `Validate`: the empty text means that the request is valid.
  unfoldable pub validate : SendMessageRequest → String
  validate r =
      if str_eq r.recipient_username "" || str_eq r.body "" || str_eq r.client_message_id ""
      then "recipientUsername, body, and clientMessageId required"
      else if ltb 32 (len r.recipient_username)
      then "recipientUsername too long"
      else if ltb 8192 (len r.body)
      then "message body too long"
      else if ltb 128 (len r.client_message_id)
      then "clientMessageId too long"
      else if r.encrypted && str_eq r.iv ""
      then "iv required when encrypted is true"
      else if r.encrypted && not (bytes_12 (decode_base64 r.iv))
      then "iv must be a base64-encoded 96-bit (12-byte) AES-GCM nonce"
      else ""

  module _ {L : Type 0} (written : Bool) where
    abbrev pub send_request : CurrentUser → Option SendMessageRequest → Handler L Message
    send_request cu none v = answer (error 400 "invalid json") v
    send_request cu (some req) v =
        if str_eq (validate req) ""
        then call (get_by_username req.recipient_username) (send_to_recipient written cu req) v
        else answer (error 400 (validate req)) v

    unfoldable pub send_message_handler :
        String → Option CurrentUser → Option SendMessageRequest → Handler L Message
    unfolding validate get_by_username create_or_get_existing
    send_message_handler method user req v =
        if str_eq method "POST"
        then with_user user (λ cu. send_request cu req) v
        else answer (error 405 "method not allowed") v

module _ {L : Type 0} where
  abbrev pub deliver_loaded : Result Message → Hub L → Hub L
  deliver_loaded (err e) h = h
  deliver_loaded (ok m) h =
      send_message_to_user m.recipient_id m (send_message_to_user m.sender_id m h)

  -- One turn of the loop of `StartMessageSubscriber`, for a payload that decodes; one that does not
  -- is skipped.
  unfoldable pub message_subscriber : Published → Server L → Server L
  unfolding get_by_id send_message_to_user send_message_deleted_to_users
  message_subscriber (message_created mid sender recipient client) v =
      let (r, s) = get_by_id mid v.session in record v { session = s; hub = deliver_loaded r v.hub }
  message_subscriber (message_deleted mid sender recipient) v = record v {
    hub = send_message_deleted_to_users sender recipient mid v.hub;
  }

abbrev pub when : (ℤ → Bool) → Option ℤ → Option ℕ
when test none = none
when test (some n) = if test n then some (to_nat n) else none

-- The page size: 50 by default, at most 100; a limit that is no positive number is ignored.
unfoldable pub page_limit : String → ℕ
unfolding parse_int
page_limit limit_str =
    let limit =
      if str_eq limit_str ""
      then 50
      else elim (when is_positive (parsed_good (parse_int limit_str))) [ none ↦ 50 | some n ↦ n ] in
    if ltb 100 limit then 100 else limit

pub record ListMessagesResponse : Type 0 where
  pub messages : List Message
  pub has_more : Bool

module _ {L : Type 0} where
  abbrev page_reply : Result (List Message × Bool) → Handler L ListMessagesResponse
  page_reply (err e) v = answer (json_error 500 "failed to fetch messages") v
  page_reply (ok (msgs, more)) v = answer (json 200 (record { messages = msgs; has_more = more })) v

  abbrev list_before : CurrentUser → User → ℕ → Option ℕ → Handler L ListMessagesResponse
  list_before cu peer limit none v = answer (error 400 "beforeId must be a positive integer") v
  list_before cu peer limit (some before) v =
      call (list_conversation_before cu.id peer.id before limit) page_reply v

  abbrev list_since : CurrentUser → User → ℕ → Option ℕ → Handler L ListMessagesResponse
  list_since cu peer limit none v = answer (error 400 "sinceId must be a non-negative integer") v
  list_since cu peer limit (some since) v =
      call (list_conversation_since cu.id peer.id since limit) page_reply v

  abbrev list_with_peer :
      CurrentUser
      → (limit before_str since_str : String) → Result User
      → Handler L ListMessagesResponse
  list_with_peer cu limit before_str since_str (err e) v = answer (error 404 "peer not found") v
  list_with_peer cu limit before_str since_str (ok peer) v =
      if str_eq before_str ""
      then list_since cu peer (page_limit limit)
          (if str_eq since_str ""
            then some 0
            else when is_nonneg (parsed_good (parse_int since_str)))
          v
      else list_before cu peer (page_limit limit)
          (when is_positive (parsed_good (parse_int before_str))) v

  -- The texts are the query's values of peer, limit, beforeId and sinceId, empty where missing.
  unfoldable pub list_messages_handler :
      Option CurrentUser
      → (peer limit before_str since_str : String) → Handler L ListMessagesResponse
  unfolding page_limit parse_int get_by_username list_conversation_before list_conversation_since
  list_messages_handler user peer limit before_str since_str = with_user user λ cu v.
      if str_eq peer ""
      then answer (error 400 "missing peer") v
      else call (get_by_username peer) (list_with_peer cu limit before_str since_str) v

  abbrev pub after_mark : CurrentUser → User → Result (List ℕ) → Handler L ℕ
  after_mark cu peer (err e) v = answer (json_error 500 "failed to mark read") v
  after_mark cu peer (ok []) v = answer (json 200 0) v
  after_mark cu peer (ok (i ∷ ids)) v = (
    json 200 (length (i ∷ ids)),
    record v { hub = send_read_receipt_to_user peer.id cu.id (i ∷ ids) v.hub },
  )

  abbrev mark_peer : CurrentUser → Result User → Handler L ℕ
  mark_peer cu (err e) v = answer (error 404 "peer not found") v
  mark_peer cu (ok peer) v = call (mark_read cu.id peer.id) (after_mark cu peer) v

  -- The body is `peerUsername`; the answer is `markedCount`.
  unfoldable pub mark_read_handler : Option CurrentUser → Option String → Handler L ℕ
  unfolding get_by_username mark_read send_read_receipt_to_user
  mark_read_handler user peer = with_user user λ cu v.
      let name = coalesce peer "" in
      if str_eq name ""
      then answer (error 400 "peerUsername required") v
      else call (get_by_username name) (mark_peer cu) v

  abbrev pub after_delete : Result Message → Handler L (Unit {0})
  after_delete (err message_not_found) v = answer (error 404 "not found") v
  after_delete (err e) v = answer (json_error 500 "failed to delete message") v
  after_delete (ok m) v = (status 204, publish (message_deleted m.id m.sender_id m.recipient_id) v)

  abbrev pub delete_message : CurrentUser → Option ℕ → Handler L (Unit {0})
  delete_message cu none v = answer (error 400 "invalid message id") v
  delete_message cu (some mid) v = call (soft_delete mid cu.id) after_delete v

  unfoldable pub delete_message_handler :
      Option CurrentUser → (id_str : String) → Handler L (Unit {0})
  unfolding parse_int soft_delete
  delete_message_handler user id_str =
      with_user user λ cu. delete_message cu (when is_positive (parsed_good (parse_int id_str)))
