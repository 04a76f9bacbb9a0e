-- ===== src/Http.antt =====
-- internal/http: what the handlers answer and what they share. A request reaches a handler with its
-- JSON body decoded, `none` where decoding fails, and with the user that the middleware put into its
-- context. A reply is what a handler writes; how it is written, counted and logged is in Http/Writer and
-- Http/Observability.
pub mod Messages
pub mod Contacts
pub mod Keys
pub mod Auth
pub mod Admin
pub mod Limits
pub mod Gate
pub mod Sessions
pub mod Tickets
pub mod Presence
pub mod Socket
pub mod Cors
pub mod Identity
pub mod Sending
pub mod Password
pub mod Access
pub mod Arrival
pub mod Deletion
pub mod Sentry
pub mod Writer
pub mod Router
pub mod Observability
use onyxchat.Base.{ℕ, String, Option, none, some, List}
use onyxchat.Hub.{Hub}
use onyxchat.Store.Session.{M, Session, Result}

-- `AuthUser` of middleware.go.
pub record CurrentUser : Type 0 where
  pub id : ℕ
  pub username : String

-- `http.Error`, `writeJSONError`, a body with its status, and a status alone.
pub data Reply {ℓ} (A : Type ℓ) : Type ℓ where
  error json_error : ℕ → String → Reply A
  json : ℕ → A → Reply A
  status : ℕ → Reply A

-- `MessageCreatedEvent`, without its trace, and `MessageDeletedEvent`.
pub data Published : Type 0 where
  message_created : (message_id sender_id recipient_id : ℕ) (client_message_id : String) → Published
  message_deleted : (message_id sender_id recipient_id : ℕ) → Published

-- The store, this server's hub, and the events that goroutines were started to publish, in order.
pub record Server (L : Type 0) : Type 0 where
  pub session : Session
  pub hub : Hub L
  pub published : List Published

abbrev pub Handler {ℓ} : Type 0 → Type ℓ → Type ℓ
Handler L A = Server L → Reply A × Server L

module _ {ℓ} {L : Type 0} {A : Type ℓ} where
  abbrev pub answer : Reply A → Handler L A
  answer reply v = (reply, v)

  -- 401 without a user.
  abbrev pub with_user : Option CurrentUser → (CurrentUser → Handler L A) → Handler L A
  with_user none handle v = answer (error 401 "unauthorized") v
  with_user (some u) handle v = handle u v

module _ {ℓ κ} {L : Type 0} {A : Type ℓ} {B : Type κ} where
  -- A call of the store, and what the handler makes of its result.
  abbrev pub call : M A → (Result A → Handler L B) → Handler L B
  call m f v = let (r, s) = m v.session in f r (record v { session = s })
