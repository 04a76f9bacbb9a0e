-- ===== src/Http/Observability.antt =====
-- internal/http/observability_middleware.go: the request id, the access log and the metrics around
-- the handlers of all routes. A counter of Prometheus is the list of the label values that it was
-- raised for. The clock gives `elapsed`, in nanoseconds. zap and Prometheus do not fail.
pub mod Accounting
pub mod Peer
pub mod Addresses
use onyxchat.Base.{
  ℕ, ◌/◌, ◌==◌, String, str_eq, Bool, true, false, ◌||◌, Option, none, some, List, [], ◌∷◌, ◌++◌, ℤ,
  pos, leb, coalesce, if◌then◌else◌,
}
use onyxchat.Text.{print_nat, cut, trim_space}
use onyxchat.Http.{CurrentUser}
use onyxchat.Http.Limits.{first_part}
use onyxchat.Http.Sentry.{
  Level, FieldValue, int64, reflect, Field, text, skip_sentry, SentryCall, recover, flush, Logger,
  Sink, log_at,
}
use onyxchat.Http.Writer.{ResponseWriter, StatusWriter, Serve, set_header, serve, write_json_error}

-- mux.CurrentRoute, and what its GetPathTemplate returns.
pub data Route : Type 0 where
  no_route no_template : Route
  template : String → Route

-- An http.Request with its context. `header` is Header.Get, given the canonical name.
pub record Request : Type 0 where
  pub method : String
  pub path : String
  pub query : String
  pub header : String → String
  pub remote_addr : String
  pub host : String
  pub proto : String
  pub tls : Bool
  pub content_length : ℤ
  pub route : Route
  pub request_id : Option String
  pub trace_id : String
  pub span_id : String
  pub user : Option CurrentUser

-- `GetRequestID`.
unfoldable pub get_request_id : Request → String
get_request_id r = coalesce r.request_id ""

-- `RequestID` around a handler; `new_id` is uuid.NewString.
unfoldable pub request_id : (new_id : String) → (Request → Serve) → Request → Serve
request_id new_id next r =
    let given = r.header "X-Request-Id" in
    let rid = if str_eq given "" then new_id else given in
    set_header "X-Request-Id" rid (next (record r { request_id = some rid }))

unfoldable pub route_template : Route → String
route_template no_route = "unknown"
route_template no_template = "unknown"
route_template (template tpl) = if str_eq tpl "" then "unknown" else tpl

-- `split_host` is the host of net.SplitHostPort, where it returns no error.
unfoldable pub client_ip : (split_host : String → Option String) → Request → String
unfolding cut trim_space
client_ip split_host r =
    let xff = r.header "X-Forwarded-For" in
    let xrip = r.header "X-Real-Ip" in
    if str_eq xff ""
    then if str_eq xrip ""
      then coalesce (split_host r.remote_addr) r.remote_addr
      else trim_space xrip
    else trim_space (first_part xff (cut 44 xff))

unfoldable pub is_health_check_route : String → Bool
is_health_check_route route =
    str_eq route "/health"
    || str_eq route "/healthz"
    || str_eq route "/health/live"
    || str_eq route "/health/ready"

unfoldable pub request_scheme : Request → String
request_scheme r =
    let xfp = r.header "X-Forwarded-Proto" in
    if str_eq xfp "" then if r.tls then "https" else "http" else xfp

pub record Telemetry : Type 0 where
  pub http_requests : List (String × String × String)
  pub http_durations : List (String × String × ℕ)
  pub http_rate_limit_rejections : List String
  pub sink : Sink

abbrev number : String → ℕ → Field
number key n = record { key = key; value = int64 (pos n) }

abbrev pub user_fields : Option CurrentUser → List Field
user_fields none = []
user_fields (some u) = number "user_id" u.id ∷ text "username" u.username ∷ []

-- The `switch` on the status.
unfoldable pub log_request : Logger → String → ℕ → List Field → Sink → Sink
unfolding is_health_check_route log_at
log_request log route status fields s =
    if leb 500 status
    then log_at log Level.error "http_request"
        (if is_health_check_route route then fields ++ skip_sentry ∷ [] else fields) s
    else if leb 400 status
    then log_at log Level.warn "http_request" fields s
    else log_at log Level.info "http_request" fields s

abbrev pub status_writer : (R : ResponseWriter) → R.State → StatusWriter R
status_writer R w = record { response_writer = w; status = 200; bytes_written = 0 }

-- A response that is going out, and what was recorded.
pub record Outgoing (R : ResponseWriter) : Type 0 where
  pub writer : StatusWriter R
  pub telemetry : Telemetry

module _ (split_host : String → Option String) where
  unfoldable pub panic_fields : Request → FieldValue → List Field
  unfolding client_ip route_template get_request_id
  panic_fields r rec =
      text "request_id" (get_request_id r)
      ∷ text "method" r.method
      ∷ text "route" (route_template r.route)
      ∷ text "path" r.path
      ∷ text "query" r.query
      ∷ text "client_ip" (client_ip split_host r)
      ∷ record { key = "panic"; value = rec }
      ∷ []

  -- `duration` is a zap.Duration.
  unfoldable pub request_fields : Request → (elapsed status bytes_written : ℕ) → List Field
  unfolding client_ip route_template get_request_id request_scheme print_nat
  request_fields r elapsed status bytes_written =
      (text "request_id" (get_request_id r)
        ∷ text "trace_id" r.trace_id
        ∷ text "span_id" r.span_id
        ∷ text "method" r.method
        ∷ text "route" (route_template r.route)
        ∷ text "path" r.path
        ∷ text "query" r.query
        ∷ number "status" status
        ∷ number "duration_ms" (elapsed / 1000000)
        ∷ record { key = "duration"; value = reflect (print_nat elapsed) }
        ∷ number "bytes_written" bytes_written
        ∷ text "remote_addr" r.remote_addr
        ∷ text "client_ip" (client_ip split_host r)
        ∷ text "host" r.host
        ∷ text "proto" r.proto
        ∷ text "scheme" (request_scheme r)
        ∷ text "user_agent" (r.header "User-Agent")
        ∷ text "referer" (r.header "Referer")
        ∷ text "origin" (r.header "Origin")
        ∷ text "content_type" (r.header "Content-Type")
        ∷ record { key = "content_length"; value = int64 r.content_length }
        ∷ [])
      ++ user_fields r.user

module _ (split_host : String → Option String) (log : Logger) where
  -- The rest of the deferred function, from time.Since on.
  unfoldable pub observe : Request → (elapsed status bytes_written : ℕ) → Telemetry → Telemetry
  unfolding log_request request_fields route_template print_nat
  observe r elapsed status bytes_written t =
      let route = route_template r.route in
      record t {
        http_requests = t.http_requests ++ (r.method, route, print_nat status) ∷ [];
        http_durations = t.http_durations ++ (r.method, route, elapsed) ∷ [];
        http_rate_limit_rejections =
            if status == 429
            then t.http_rate_limit_rejections ++ "http" ∷ []
            else t.http_rate_limit_rejections;
        sink =
            log_request log route status (request_fields split_host r elapsed status bytes_written)
              t.sink;
      }

  module _ (R : ResponseWriter) (encode_error : String → String) where
    -- What is done where recover returns a value.
    unfoldable pub after_recover : Request → Option FieldValue → Outgoing R → Outgoing R
    unfolding panic_fields serve write_json_error log_at
    after_recover r none o = o
    after_recover r (some rec) o = record o {
      writer =
          if o.writer.bytes_written == 0
          then (serve R (write_json_error encode_error 500 "internal server error") o.writer).1
          else o.writer;
      telemetry = record o.telemetry {
        sink =
            log_at log Level.error "panic_recovered" (panic_fields split_host r rec)
              (record o.telemetry.sink {
                sentry = o.telemetry.sink.sentry ++ (recover rec ∷ flush ∷ []);
              });
      };
    }

    abbrev pub observed : Request → (elapsed : ℕ) → Outgoing R → Outgoing R
    observed r elapsed o = record o {
      telemetry = observe r elapsed o.writer.status o.writer.bytes_written o.telemetry;
    }

    -- `AccessLogAndMetrics` around the handler `next`.
    unfoldable pub access_log_and_metrics :
        (next : Request → Serve) → (elapsed : ℕ) → Request → R.State → Telemetry → Outgoing R
    unfolding after_recover observe serve
    access_log_and_metrics next elapsed r w t =
        let (rec, sw) = serve R (next r) (status_writer R w) in
        observed r elapsed (after_recover r rec (record { writer = sw; telemetry = t }))
