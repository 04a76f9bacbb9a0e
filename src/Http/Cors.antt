-- ===== src/Http/Cors.antt =====
-- internal/http/middleware_cors.go, and health_handlers.go: the origins that may read an answer, and the
-- probes.
use onyxchat.Base.{
  String, str_eq, Bool, false, not, ◌&&◌, ◌≡◌, refl, inl, inr, Option, none, some, List, is_null,
  if◌then◌else◌, Bool-cases,
}
use onyxchat.Sql.{exists_row}
use onyxchat.Text.{trim_space}
use onyxchat.Http.{error, json, status, Handler}
use onyxchat.Http.Socket.{check_origin}

-- Membership in `originSet`, which leaves out the blank origins, for an origin that is not empty.
abbrev pub is_allowed : List String → String → Bool
is_allowed allowed_origins origin = exists_row (λ o. str_eq (trim_space o) origin) allowed_origins

module _ {L A : Type 0} (next : Handler L A) where
  -- The header Access-Control-Allow-Origin of the answer, and the answer; the headers Vary, Allow-Methods
  -- and Allow-Headers are set with it.
  unfoldable pub cors_middleware :
      (allowed_origins : List String) → (origin method : String) → Handler L A
  unfolding exists_row trim_space
  cors_middleware allowed_origins origin method v =
      if not (str_eq origin "")
        && not (is_allowed allowed_origins origin)
        && str_eq method "OPTIONS"
      then (error 403 "CORS origin not allowed", v)
      else if str_eq method "OPTIONS"
      then (status 204, v)
      else next v

-- Access-Control-Allow-Origin.
unfoldable pub allow_origin : (allowed_origins : List String) → (origin : String) → Option String
unfolding exists_row trim_space
allow_origin allowed_origins origin =
    if not (str_eq origin "") && is_allowed allowed_origins origin then some origin else none

-- `HealthHandler` of auth_handlers.go, `LiveHandler`, and `ReadyHandler` for whether the database answers a ping in time. The body is status.
unfoldable pub health_handler : {L : Type 0} → Handler L String
health_handler v = (json 200 "ok", v)

unfoldable pub live_handler : {L : Type 0} → Handler L String
live_handler v = (json 200 "live", v)

unfoldable pub ready_handler : {L : Type 0} → (pinged : Bool) → Handler L String
ready_handler pinged v = if pinged then (json 200 "ready", v) else (json 503 "not_ready", v)

-- For an origin that is not empty, three answers agree: the WebSocket upgrader accepts it, whatever the
-- environment, exactly when the CORS middleware names it in Access-Control-Allow-Origin, and exactly
-- when the middleware does not refuse its preflight request. No preflight request reaches the handler.
pub cors_middleware-check_origin :
    {L A : Type 0} (next : Handler L A) (allowed_origins : List String) (env origin : String)
    → str_eq origin "" ≡ false
    → (check_origin allowed_origins env origin
        ≡ not (is_null (allow_origin allowed_origins origin)))
      × ((v : _)
          → cors_middleware next allowed_origins origin "OPTIONS" v ≡ (
              if check_origin allowed_origins env origin
              then (status 204, v)
              else (error 403 "CORS origin not allowed", v)))
unfolding check_origin allow_origin cors_middleware
cors_middleware-check_origin next allowed_origins env origin given =
    elim (Bool-cases (is_allowed allowed_origins origin)) [
      | inl on_list ↦ rw (given, on_list) (refl, λ v. refl)
      | inr off_list ↦ rw (given, off_list) (refl, λ v. refl)
    ]
