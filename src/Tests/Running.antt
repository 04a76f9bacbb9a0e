-- ===== src/Tests/Running.antt =====
-- The server from its start to the access log at work.
use onyxchat.Base.{
  ℕ, ◌+◌, ◌-◌, ◌^◌, ◌≤◌, String, len, str_eq, true, false, ◌||◌, ◌≡◌, refl, Option, none, some,
  List, [], ◌∷◌, ◌++◌, arith, leb, ltb, coalesce, if◌then◌else◌, pos,
}
use onyxchat.Sql.{exists_row}
use onyxchat.Text.{trim_space}
use onyxchat.Http.{CurrentUser, error, json, Published, message_created, Handler, Server}
use onyxchat.Http.Auth.{internal_service_auth}
use onyxchat.Http.Cors.{ready_handler}
use onyxchat.Http.Gate.{Gate, GateHandler, reply}
use onyxchat.Http.Limits.{new_keyed_limiter}
use onyxchat.Http.Messages.{message_subscriber}
use onyxchat.Http.Router.{
  Endpoint, admin_create_invite, auth, per_user, admin, Route, Asked, Setup, serve_route, routes,
}
use onyxchat.Http.Router.Admission.{Admits}
use onyxchat.Http.Router.Guards.{Right, administrator, serve_route-Admits}
use onyxchat.Http.Sentry.{
  Level, LogEntry, Field, text, string, err, SentryCore, Logger, Sink, init_sentry, write, check,
}
use onyxchat.Http.Sentry.Forwarding.{Forwards, write-Forwards, events, taken}
use onyxchat.Http.Socket.{check_origin}
use onyxchat.Http.Writer.{ResponseWriter, IsLawful, Serve, panics, serve, serve_reply}
use onyxchat.Http.Observability.{
  Request, template, Telemetry, Outgoing, status_writer, access_log_and_metrics,
}
use onyxchat.Http.Observability.Accounting.{access_log-events}
use onyxchat.Http.Observability.Peer.{
  Observes, access_log_and_metrics-Observes, serve_reply-Orderly,
}
use onyxchat.Notifier.{MessageCreatedEvent}
use onyxchat.Start.{Platform, fetched, applied, running, ◌>>=◌}
use onyxchat.Start.Config.{IsConfigured, start-IsConfigured}
use onyxchat.Start.Database.{run_migrations, new_pool}
use onyxchat.Start.Origins.{join, check_origin-join}
use onyxchat.Start.Secret.{IsReady, start-default_secret}
use onyxchat.Start.Server.{Config, parse_allowed_origins, dev_service_secret, start}
use onyxchat.Subscription.{
  channel_closed, arrived, Turn, start_subscriber, start_message_subscriber, restart_service, run,
}
use onyxchat.Subscription.Restarts.{steps, start_subscriber-all_received}
use onyxchat.Tests.{server}
use onyxchat.Tests.Memory.{memory, empty}

-- A writer that keeps its status line.
abbrev writer : ResponseWriter
writer = record {
  State = Option ℕ;
  set_header = λ k v w. w;
  write_header = λ code w. if leb 200 code then some (coalesce w code) else w;
  write = λ b w. (len b, some (coalesce w 200));
  hijacker = true;
  hijack = λ w. (true, w);
  flusher = true;
  flush = λ w. some (coalesce w 200);
  pusher = false;
  push = λ target w. (false, w);
}

line_sent :
    (code : ℕ) (w : Option ℕ) → 200 ≤ code → writer.write_header code w ≡ some (coalesce w code)
line_sent code w h = ground arith

abbrev writer-IsLawful : IsLawful writer
writer-IsLawful = record {
  sent = λ w. w;
  set_header-sent = λ k v w. refl;
  write_header-sent = line_sent;
  write-sent = λ b w. refl;
  flush-sent = λ w. refl;
  push-sent = λ target w. refl;
}

abbrev silent : Sink
silent = record { lines = []; sentry = [] }

abbrev plain : Logger
plain = record { hand_on = λ ent fields. [] }

abbrev tee : Logger → SentryCore → Logger
tee log c = record {
  hand_on = λ ent fields. log.hand_on ent fields ++ taken ent fields (check ent c []);
}

abbrev nothing_yet : Telemetry
nothing_yet = record {
  http_requests = [];
  http_durations = [];
  http_rate_limit_rejections = [];
  sink = silent;
}

abbrev split_host : String → Option String
split_host s = some s

abbrev encode_error : String → String
encode_error msg = msg

abbrev probe : Request
probe = record {
  method = "GET";
  path = "/health/ready";
  query = "";
  header = λ name. "";
  remote_addr = "10.0.0.1";
  host = "chat";
  proto = "HTTP/1.1";
  tls = false;
  content_length = pos 0;
  route = template "/health/ready";
  request_id = some "r1";
  trace_id = "";
  span_id = "";
  user = none;
}

-- The readiness probe while the database does not answer.
abbrev not_ready : Request → Serve
not_ready r = serve_reply encode_error (λ body. body) (ready_handler false server).0

access_log_and_metrics-Observes_example :
    Observes writer writer-IsLawful split_host plain encode_error probe 5
      (serve writer (not_ready probe) (status_writer writer none))
      nothing_yet
      (access_log_and_metrics split_host plain writer encode_error not_ready 5 probe none
        nothing_yet)
unfolding ready_handler
access_log_and_metrics-Observes_example =
    access_log_and_metrics-Observes writer writer-IsLawful split_host plain encode_error not_ready 5
      probe none nothing_yet refl
      (serve_reply-Orderly encode_error (λ (body : String). body) (json 503 "not_ready")
        (omega arith))

-- Variables that are all set, but for INTERNAL_SERVICE_SECRET, and services that answer.
abbrev variable : String → String
variable key =
    if str_eq key "SM_ENV"
    then "prod"
    else if str_eq key "SM_ALLOWED_ORIGINS"
    then "https://a.org,https://b.org"
    else if str_eq key "INTERNAL_SERVICE_SECRET" || str_eq key "OTEL_EXPORTER_OTLP_ENDPOINT"
    then ""
    else "value"

abbrev platform : Platform
platform = record {
  getenv = variable;
  aws_config = none;
  get_parameter = λ path. fetched "parameter";
  get_secret_value = λ arn. fetched "secret";
  parse_creds = λ secret. fetched ("user", "password");
  query_escape = λ s. s;
  open_db = λ dsn. none;
  ping_db = λ dsn. none;
  migration_source = none;
  migration_driver = none;
  new_migrator = none;
  migrate_up = applied;
  migration_version = applied;
  instrument_tracing = none;
  ping_redis = λ o. none;
  init_sentry_sdk = λ o. none;
  new_tee = tee;
  new_exporter = λ endpoint. none;
  new_resource = none;
}

-- A handler that panics at once, on the route of messages.
abbrev message_route : Request
message_route = record probe { route = template "/api/v1/messages" }

abbrev with_sentry : Logger
with_sentry = (init_sentry variable (λ o. none) tee "prod" plain silent).0.0

abbrev panicked : Outgoing writer
panicked =
    access_log_and_metrics split_host with_sentry writer encode_error
      (λ r. panics (string "nil map")) 5 message_route none nothing_yet

access_log-events_example : events panicked.telemetry.sink.sentry ≡ 0 + 2 + 1
unfolding access_log_and_metrics
access_log-events_example =
    access_log-events split_host writer encode_error variable (λ o. none) tee "prod" plain silent
      (λ log c ent fields. refl) (λ ent fields. refl) refl refl (λ r. panics (string "nil map")) 5
      message_route none nothing_yet panicked refl

abbrev core : SentryCore
core = record { min_level = Level.error; fields = text "server" "a" ∷ [] }

abbrev failure : LogEntry
failure = record { level = Level.error; message = "send failed" }

abbrev failure_fields : List Field
failure_fields = text "user" "bob" ∷ record { key = "error"; value = err (some "timeout") } ∷ []

write-Forwards_example :
    Forwards failure (core.fields ++ failure_fields) (write failure failure_fields core)
write-Forwards_example = write-Forwards failure failure_fields core

platform-IsReady : IsReady platform
unfolding run_migrations parse_allowed_origins
platform-IsReady = record {
  in_prod = refl;
  jwt_set = refl;
  dsn_set = refl;
  opens = refl;
  pings = refl;
  migrates = refl;
  token_set = refl;
  redis_answers = λ o. refl;
  admin_set = refl;
  origins_set = refl;
}

start-default_secret_example :
    (c : Config) × ((start platform plain silent).0 ≡ running c)
    × (c.env ≡ "prod")
    × (str_eq (variable "INTERNAL_SERVICE_SECRET") "" ≡ true
        → (L A : Type 0) (next : Handler L A) (v : Server L)
        → internal_service_auth c.service_secret dev_service_secret next v ≡ next v)
start-default_secret_example = start-default_secret platform plain silent platform-IsReady

abbrev origins : List String
origins = "https://a.org" ∷ "https://b.org" ∷ []

check_origin-join_example :
    (parse_allowed_origins (join origins) ≡ origins)
    × (check_origin (parse_allowed_origins (join origins)) "prod" "https://b.org" ≡ true)
unfolding exists_row trim_space
check_origin-join_example = check_origin-join origins "prod" "https://b.org" (
  record { given = refl; trimmed = refl; whole = refl },
  (record { given = refl; trimmed = refl; whole = refl }, tt),
)

abbrev config : Config
config = record {
  env = "prod";
  addr = "value";
  logger = with_sentry;
  jwt_secret = "value";
  pool = new_pool "value";
  redis = record {
    addr = "value";
    dial_timeout = 5000;
    read_timeout = 10000;
    write_timeout = 5000;
    tls = true;
    password = "value";
  };
  service_secret = dev_service_secret;
  admin_username = "value";
  allowed_origins = origins;
}

platform_starts : (start platform plain silent).0 ≡ running config
unfolding start ◌>>=◌
platform_starts = refl

start-IsConfigured_example : IsConfigured platform config
start-IsConfigured_example = start-IsConfigured platform plain silent config platform_starts

abbrev created : Published
created = message_created 1 1 2 "c1"

-- A payload that does not decode, a message, and a connection that drops, twice.
abbrev turn : {E : Type 0} → E → Turn E
turn e = record {
  done_before = false;
  arrivals = arrived none ∷ arrived (some e) ∷ channel_closed ∷ [];
  done_after = false;
}

abbrev first_event : MessageCreatedEvent
first_event = record { message_id = 1; sender_id = 1; recipient_id = 2; client_message_id = "c1" }

start_subscriber-all_received_example :
    ((start_subscriber start_message_subscriber (turn created ∷ turn created ∷ []) server []).0
      ≡ steps message_subscriber (created ∷ created ∷ []) server)
    × ((restart_service run (turn first_event ∷ turn first_event ∷ []) [] []).0
        ≡ first_event ∷ first_event ∷ [])
start_subscriber-all_received_example =
    start_subscriber-all_received (turn created ∷ turn created ∷ []) server []
      (turn first_event ∷ turn first_event ∷ []) [] (refl, refl, tt, (refl, refl, tt, tt))
      (refl, refl, tt, (refl, refl, tt, tt))

-- Tokens are names, and alice administers.
abbrev setup : Setup ℕ
setup = record {
  permit = λ now n. (ltb 0 n, n - 1);
  parse_with_claims = λ key token.
      some (record { claims = some (record { id = 1; username = token }); valid = true });
  equal_fold = str_eq;
  jwt_secret = "secret";
  admin_username = "alice";
  service_secret = "service";
}

abbrev asked : Asked
asked = record {
  method = "POST";
  ip = "10.0.0.1";
  authorization = "Bearer alice";
  service_secret = "";
  ticket = "";
}

abbrev gate : Gate memory ℕ
gate = record {
  server = server;
  redis = empty;
  ip_limiter = new_keyed_limiter setup.permit 10 600;
  id_limiter = new_keyed_limiter setup.permit 4 600;
  user_limiter = new_keyed_limiter setup.permit 20 600;
}

abbrev handlers : Endpoint → Option CurrentUser → GateHandler memory ℕ String
handlers endpoint none = reply (error 401 "unauthorized")
handlers endpoint (some u) = reply (json 200 u.username)

abbrev creating : Route
creating = record {
  path = "/api/v1/admin/invites";
  method = "POST";
  guards = auth ∷ per_user ∷ admin ∷ [];
  max_body = some (2 ^ 20);
  endpoint = admin_create_invite;
}

serve_route-Admits_example :
    Admits
      (handlers admin_create_invite)
      gate
      (Right setup administrator)
      (serve_route setup asked handlers creating gate)
unfolding routes
serve_route-Admits_example = serve_route-Admits setup asked handlers 20 creating gate refl tt refl
