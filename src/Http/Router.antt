-- ===== src/Http/Router.antt =====
-- internal/http/router.go: the routes with the middlewares around each handler, outermost first. Which
-- route a path takes is left to gorilla/mux; RequestID, the CORS middleware and the access log stand
-- around every route. MaxBodyBytes only bounds the body that a handler decodes.
pub mod Admission
pub mod Guards
use onyxchat.Base.{
  ℕ, ◌*◌, ◌^◌, String, Bool, true, false, Option, none, some, List, [], ◌∷◌, str_eq,
}
use onyxchat.Redis.{Redis}
use onyxchat.Http.{CurrentUser, Reply, error, json_error, json, status, Handler}
use onyxchat.Http.Admin.{admin_only}
use onyxchat.Http.Auth.{Token, auth_middleware, internal_service_auth}
use onyxchat.Http.Gate.{Gate, GateHandler, login_ip_rate_limit, per_user_rate_limit}
use onyxchat.Http.Tickets.{ws_auth_middleware}

pub data Endpoint : Type 0 where
  metrics health live ready register login refresh logout : Endpoint
  list_users change_password send_message list_messages mark_read delete_message : Endpoint
  list_contacts add_contact remove_contact delete_account : Endpoint
  admin_list_invites admin_create_invite admin_reset_invite : Endpoint
  upload_key get_key register_push_token ws_ticket internal_get_push_token web_socket : Endpoint

-- LoginIPRateLimit, AuthMiddleware, PerUserRateLimit, AdminOnly, InternalServiceAuth, WSAuthMiddleware.
pub data Guard : Type 0 where
  login_ip auth per_user admin service ws_auth : Guard

pub record Route : Type 0 where
  pub path : String
  pub method : String
  pub guards : List Guard
  pub max_body : Option ℕ
  pub endpoint : Endpoint

abbrev route : String → String → List Guard → Option ℕ → Endpoint → Route
route path method guards max_body endpoint = record {
  path = path;
  method = method;
  guards = guards;
  max_body = max_body;
  endpoint = endpoint;
}

abbrev protected : List Guard → List Guard
protected guards = auth ∷ per_user ∷ guards

abbrev megabyte : Option ℕ
megabyte = some (2 ^ 20)

-- Routes of /api/v1 also match OPTIONS, which the CORS middleware answers.
unfoldable pub routes : List Route
routes =
    route "/metrics" "GET" [] none metrics
    ∷ route "/health" "GET" [] none health
    ∷ route "/healthz" "GET" [] none health
    ∷ route "/health/live" "GET" [] none live
    ∷ route "/health/ready" "GET" [] none ready
    ∷ route "/api/v1/register" "POST" (login_ip ∷ []) megabyte register
    ∷ route "/api/v1/login" "POST" (login_ip ∷ []) megabyte login
    ∷ route "/api/v1/refresh" "POST" [] megabyte refresh
    ∷ route "/api/v1/logout" "POST" [] megabyte logout
    ∷ route "/api/v1/users" "GET" (protected []) none list_users
    ∷ route "/api/v1/users/me/password" "PATCH" (protected []) megabyte change_password
    ∷ route "/api/v1/messages" "POST" (protected []) megabyte send_message
    ∷ route "/api/v1/messages" "GET" (protected []) none list_messages
    ∷ route "/api/v1/messages/read" "POST" (protected []) megabyte mark_read
    ∷ route "/api/v1/messages/{id}" "DELETE" (protected []) none delete_message
    ∷ route "/api/v1/contacts" "GET" (protected []) none list_contacts
    ∷ route "/api/v1/contacts" "POST" (protected []) megabyte add_contact
    ∷ route "/api/v1/contacts/{username}" "DELETE" (protected []) none remove_contact
    ∷ route "/api/v1/account" "DELETE" (protected []) megabyte delete_account
    ∷ route "/api/v1/admin/invites" "GET" (protected (admin ∷ [])) none admin_list_invites
    ∷ route "/api/v1/admin/invites" "POST" (protected (admin ∷ [])) megabyte admin_create_invite
    ∷ route "/api/v1/admin/invites/{code}/reset" "POST" (protected (admin ∷ [])) none
        admin_reset_invite
    ∷ route "/api/v1/keys" "PUT" (protected []) (some 4096) upload_key
    ∷ route "/api/v1/keys/{username}" "GET" (protected []) none get_key
    ∷ route "/api/v1/users/me/push-token" "PUT" (protected []) (some 512) register_push_token
    ∷ route "/api/v1/ws/ticket" "POST" (protected []) megabyte ws_ticket
    ∷ route "/api/v1/ws" "GET" (ws_auth ∷ []) none web_socket
    ∷ route "/internal/users/{id}/push-token" "GET" (service ∷ []) none internal_get_push_token
    ∷ []

-- What the middlewares read of a request.
pub record Asked : Type 0 where
  pub method : String
  pub ip : String
  pub authorization : String
  pub service_secret : String
  pub ticket : String

-- The configuration that NewRouter is given, and the functions of libraries that the middlewares call.
pub record Setup (L : Type 0) : Type 0 where
  pub permit : ℕ → L → Bool × L
  pub parse_with_claims : (Bool → Option String) → String → Option Token
  pub equal_fold : String → String → Bool
  pub jwt_secret : String
  pub admin_username : String
  pub service_secret : String

abbrev pub hand_back : {L : Type 0} → Option CurrentUser → Handler L (Option CurrentUser)
hand_back user v = (json 200 user, v)

module _ {R : Redis} {L A : Type 0} where
  -- A middleware of the server around a handler that also reaches Redis and the limiters: it is run with
  -- `hand_back`, and what it hands back goes on.
  abbrev pub go_on :
      (Option CurrentUser → GateHandler R L A) → Reply (Option CurrentUser) → GateHandler R L A
  go_on next (error code text) g = (error code text, g)
  go_on next (json_error code text) g = (json_error code text, g)
  go_on next (json code user) g = next user g
  go_on next (status code) g = (status code, g)

  abbrev pub around :
      Handler L (Option CurrentUser) → (Option CurrentUser → GateHandler R L A) → GateHandler R L A
  around middleware next g =
      let (r, v) = middleware g.server in go_on next r (record g { server = v })

module _ {R : Redis} {L A : Type 0} (c : Setup L) (asked : Asked) where
  unfoldable pub guarded :
      List Guard
      → (next : Option CurrentUser → GateHandler R L A) → Option CurrentUser
      → GateHandler R L A
  unfolding login_ip_rate_limit auth_middleware per_user_rate_limit admin_only internal_service_auth
      ws_auth_middleware
  guarded [] next user = next user
  guarded (login_ip ∷ gs) next user = login_ip_rate_limit c.permit asked.ip (guarded gs next user)
  guarded (auth ∷ gs) next user =
      around
        (auth_middleware c.parse_with_claims c.equal_fold c.jwt_secret hand_back asked.method
          asked.authorization)
        (guarded gs next)
  guarded (per_user ∷ gs) next user = per_user_rate_limit c.permit user (guarded gs next user)
  guarded (admin ∷ gs) next user =
      around (admin_only c.admin_username user λ u. hand_back (some u)) (guarded gs next)
  guarded (service ∷ gs) next user =
      around (internal_service_auth c.service_secret asked.service_secret (hand_back user))
        (guarded gs next)
  guarded (ws_auth ∷ gs) next user =
      ws_auth_middleware (λ u. guarded gs next (some u)) c.parse_with_claims c.equal_fold
        c.jwt_secret asked.ticket asked.authorization

  -- A request on a route.
  unfoldable pub serve_route :
      (Endpoint → Option CurrentUser → GateHandler R L A) → Route → GateHandler R L A
  unfolding guarded
  serve_route handlers r = guarded r.guards (handlers r.endpoint) none
