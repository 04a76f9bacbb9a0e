-- ===== src/Http/Arrival.antt =====
-- A message on its way: `SendMessageHandler` on one server and the subscriber of
-- internal/http/message_handlers.go on any server that takes the event.
use mathlib.Core.Option
use onyxchat.Base.{
  ℕ, String, str_eq, Bool, false, true, ◌≡◌, refl, ap, ◌∙◌, sym, Option, some, List, [], ◌∷◌, ◌++◌,
  arith, inl, inr, Bool-cases,
}
use onyxchat.Sql.{query_row}
use onyxchat.Sql.Order.{query_row_own_key}
use onyxchat.Hub.Client.{Event}
use onyxchat.Hub.Delivery.{client}
use onyxchat.Store.Db.{MessageRow, Db}
use onyxchat.Store.Session.{Session, Result, ok, err}
use onyxchat.Store.Users.{User, get_by_username}
use onyxchat.Store.Messages.{Message, scan_msg, display, get_by_id, same_key}
use onyxchat.Store.Messages.Idempotence.{stored}
use onyxchat.Store.Messages.Validity.{IsValid, message_id, create-IsValid}
use onyxchat.Http.{CurrentUser, Reply, error, json_error, json, status, message_created, Server}
use onyxchat.Http.Messages.{
  SendMessageRequest, validate, send_message_handler, after_create, send_to_recipient,
  message_subscriber,
}
use onyxchat.Http.Sending.{Sends, send_message-Sends, lookup_db}
use onyxchat.Http.Deletion.{receives, message_subscriber-client}

-- The row that is found under a sender and a client id is found under its id.
stored-get_by_id :
    (sender : ℕ) (client_id : String) (s : Session) (r : MessageRow)
    → IsValid s.db
    → s.fails s.calls ≡ false
    → stored sender client_id s ≡ some r
    → (get_by_id r.id s).0 ≡ ok (display r)
unfolding get_by_id
stored-get_by_id sender client_id s r v up q =
    rw
      (up, query_row_own_key message_id (same_key sender client_id) 1 s.db.messages r v.ascending q)
      refl

display-peers :
    (r : MessageRow)
    → ((display r).sender_id ≡ r.sender_id) × ((display r).recipient_id ≡ r.recipient_id)
unfolding display
display-peers r = ground arith

-- What the event of a stored row does to a client.
announced :
    {L : Type 0} (owner sender recipient k : ℕ) (client_id : String) (u : Server L) (r : MessageRow)
    → IsValid u.session.db
    → u.session.fails u.session.calls ≡ false
    → stored owner client_id u.session ≡ some r
    → client k (message_subscriber (message_created r.id sender recipient client_id) u).hub
      ≡ Option.map
          (λ c.
            receives r.recipient_id
              (Event.message (display r))
              k
              u.hub
              (receives r.sender_id (Event.message (display r)) k u.hub c))
          (client k u.hub)
announced owner sender recipient k client_id u r v up here =
    message_subscriber-client r.id sender recipient k client_id (display r) u
      (stored-get_by_id owner client_id u.session r v up here)
    ∙ rw ((display-peers r).0, (display-peers r).1) refl

-- What a message that a handler confirms is, among the tables it leaves.
confirmed :
    {L : Type 0} (cu : CurrentUser) (req : SendMessageRequest) (v : Server L)
    (x : Reply Message × Server L) (code : ℕ) (m : Message)
    → Sends true cu req v x
    → x.0 ≡ json code m
    → (r : MessageRow) × (stored cu.id req.client_message_id x.1.session ≡ some r)
      × (m ≡ scan_msg r)
      × (x.1.published
          ≡ v.published
            ++ message_created m.id m.sender_id m.recipient_id req.client_message_id ∷ [])
confirmed cu req v (json c n, w) code m (r, held, e, p) h =
    let same : n ≡ m = cc in
    (
      r,
      held,
      sym same ∙ e,
      p
          ∙ ap
              (λ z.
                v.published
                ++ message_created z.id z.sender_id z.recipient_id req.client_message_id ∷ [])
              same,
    )
confirmed cu req v (error c t, w) code m s h = cc
confirmed cu req v (json_error c t, w) code m s h = cc
confirmed cu req v (status c, w) code m s h = cc

-- What a server that confirmed a message has stored and announced, and what the event does to the
-- clients of a server that takes it.
abbrev pub Arrives :
    {L : Type 0}
    → CurrentUser
    → SendMessageRequest
    → (before after at : Server L) → Message
    → Type 0
Arrives cu req before after at m =
    let ev = message_created m.id m.sender_id m.recipient_id req.client_message_id in
    (r : MessageRow) × (stored cu.id req.client_message_id at.session ≡ some r)
    × (m ≡ scan_msg r)
    × (after.published ≡ before.published ++ ev ∷ [])
    × ((k : ℕ)
        → client k (message_subscriber ev at).hub
          ≡ Option.map
              (λ c.
                receives m.recipient_id (Event.message (display r)) k at.hub
                  (receives m.sender_id (Event.message (display r)) k at.hub c))
              (client k at.hub))

module _ {B : Type 0} (decode_base64 : String → Option (List B)) {L : Type 0} (cu : CurrentUser)
    (req : SendMessageRequest) (v : Server L) where
  after_create-session :
      (x : Result (Message × Bool)) (w : Server L)
      → (after_create true req x w).1.session ≡ w.session
  after_create-session (err e) w = refl
  after_create-session (ok (m, b)) w = refl

  recipient-IsValid :
      (x : Result User) (s : Session)
      → IsValid s.db
      → IsValid (send_to_recipient true cu req x (record v { session = s })).1.session.db
  recipient-IsValid (err e) s k = k
  recipient-IsValid (ok u) s k =
      rw (after_create-session _ _)
        (create-IsValid cu.id u.id req.body req.iv req.encrypted req.client_message_id s k)

  send_message-IsValid :
      IsValid v.session.db
      → IsValid (send_message_handler decode_base64 true "POST" (some cu) (some req) v).1.session.db
  unfolding send_message_handler
  send_message-IsValid k = elim (Bool-cases (str_eq (validate decode_base64 req) "")) [
    | inl valid ↦ rw valid (
        recipient-IsValid (get_by_username req.recipient_username v.session).0 _
          (rw (lookup_db req.recipient_username v.session) k))
    | inr invalid ↦ rw invalid k
  ]

  -- For a POST with a user and a body that decodes, on tables that keep their constraints: a message
  -- that the handler confirms, its answer written, is the one that the store holds under the sender and the client's id,
  -- one event is to be published for it, and on any server whose subscriber takes that event while it
  -- reads the same tables and its driver does not fail, each client that the message's sender has
  -- registered takes the message as it is displayed, then each client of its recipient, and no other
  -- client changes.
  pub send_message-Arrives :
      (u : Server L) (code : ℕ) (m : Message)
      → IsValid v.session.db
      → (send_message_handler decode_base64 true "POST" (some cu) (some req) v).0 ≡ json code m
      → u.session.db
        ≡ (send_message_handler decode_base64 true "POST" (some cu) (some req) v).1.session.db
      → u.session.fails u.session.calls ≡ false
      → Arrives cu req v
          (send_message_handler decode_base64 true "POST" (some cu) (some req) v).1
          u
          m
  unfolding scan_msg
  send_message-Arrives u code m valid answered same up =
      let (r, held, e, p) =
        confirmed cu req v _ code m (send_message-Sends decode_base64 true cu req v) answered in
      let here : stored cu.id req.client_message_id u.session ≡ some r =
        ap (λ (db : Db). query_row (same_key cu.id req.client_message_id) db.messages) same
        ∙ held in
      let kept : IsValid u.session.db = rw same (send_message-IsValid valid) in
      (
        r,
        here,
        e,
        p,
        λ k.
            rw e
              (announced cu.id r.sender_id r.recipient_id k req.client_message_id u r kept up here),
      )
