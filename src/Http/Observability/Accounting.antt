-- ===== src/Http/Observability/Accounting.antt =====
-- What Sentry is told of a request by AccessLogAndMetrics, with the logger that InitSentry returns.
use onyxchat.Base.{
  ℕ, ◌+◌, String, str_eq, Bool, true, false, not, ◌&&◌, Option, none, some, List, [], ◌∷◌, ◌++◌,
  ◌≡◌, refl, ap, ◌∙◌, inl, inr, Bool-cases, arith, leb, if◌then◌else◌,
}
use mathlib.Core.List.{append-nil}
use onyxchat.Http.{CurrentUser}
use onyxchat.Http.Sentry.{
  Level, FieldValue, Field, LogEntry, SentryCall, event, recover, flush, SentryCore, Logger, Sink,
  ClientOptions, sentry_options, log_at, skip_sentry, init_sentry, write, check, rank,
}
use onyxchat.Http.Sentry.Forwarding.{has_skip, events, events-write, IsTee}
use onyxchat.Http.Writer.{ResponseWriter, Serve, serve}
use onyxchat.Http.Observability.{
  Request, Telemetry, Outgoing, user_fields, panic_fields, request_fields, log_request, observe,
  after_recover, status_writer, access_log_and_metrics, is_health_check_route, route_template,
}

events-append : (a b : List SentryCall) → events (a ++ b) ≡ events a + events b
events-append [] b = omega arith
events-append (event e ∷ a) b = omega (arith, events-append a b)
events-append (recover v ∷ a) b = omega (arith, events-append a b)
events-append (flush ∷ a) b = events-append a b

has_skip-append : (a b : List Field) → has_skip (a ++ b) ≡ (if has_skip a then true else has_skip b)
has_skip-append [] b = refl
has_skip-append (f ∷ a) b = ground (arith, has_skip-append a b)

if_not : (b : Bool) → ◌≡◌ {A = ℕ} (if b then 0 else 1) (if not b then 1 else 0)
if_not true = refl
if_not false = refl

-- A logger whose entries from the level error on, those with the field of SkipSentry left out, are one
-- event each.
IsForwarding : Logger → Type 0
IsForwarding log =
    (ent : LogEntry) (fields : List Field)
    → events (log.hand_on ent fields)
      ≡ (if leb (rank Level.error) (rank ent.level) && not (has_skip fields) then 1 else 0)

-- A logger that tells Sentry nothing.
abbrev pub IsPlain : Logger → Type 0
IsPlain log = (ent : LogEntry) (fields : List Field) → log.hand_on ent fields ≡ []

init_sentry-IsForwarding :
    (getenv : String → String) (init : ClientOptions → Option String)
    (new_tee : Logger → SentryCore → Logger) (env : String) (log : Logger) (s : Sink)
    → IsTee new_tee
    → IsPlain log
    → str_eq (getenv "SENTRY_DSN") "" ≡ false
    → init (sentry_options getenv init new_tee env) ≡ none
    → IsForwarding (init_sentry getenv init new_tee env log s).0.0
unfolding init_sentry IsForwarding check
init_sentry-IsForwarding getenv init new_tee env log s tee silent dsn started ent fields =
    let core : SentryCore = record { min_level = Level.error; fields = [] } in
    rw (dsn, started, tee log core ent fields, silent ent fields)
      (elim (Bool-cases (leb (rank Level.error) (rank ent.level))) [
        | inl high ↦ rw high (
            ap events (append-nil (write ent fields core))
            ∙ events-write ent fields core
            ∙ if_not (has_skip fields))
        | inr low ↦ rw low refl
      ])

events-log_at :
    (log : Logger) (lvl : Level) (msg : String) (fields : List Field) (s : Sink)
    → IsForwarding log
    → events (log_at log lvl msg fields s).sentry
      ≡ events s.sentry
        + (if leb (rank Level.error) (rank lvl) && not (has_skip fields) then 1 else 0)
unfolding log_at IsForwarding
events-log_at log lvl msg fields s h =
    let ent : LogEntry = record { level = lvl; message = msg } in
    events-append s.sentry (log.hand_on ent fields) ∙ ap (λ n. events s.sentry + n) (h ent fields)

user_fields-has_skip : (user : Option CurrentUser) → has_skip (user_fields user) ≡ false
user_fields-has_skip none = refl
user_fields-has_skip (some u) = refl

request_fields-has_skip :
    (split_host : String → Option String) (r : Request) (elapsed status bytes : ℕ)
    → has_skip (request_fields split_host r elapsed status bytes) ≡ false
unfolding request_fields
request_fields-has_skip split_host r elapsed status bytes = user_fields-has_skip r.user

-- The last entry of a request is an event exactly at a status of 500 or more on another route than
-- the probes'.
abbrev pub request_events : String → ℕ → ℕ
request_events route status = if leb 500 status && not (is_health_check_route route) then 1 else 0

events-log_request :
    (log : Logger) (route : String) (status : ℕ) (fields : List Field) (s : Sink)
    → IsForwarding log
    → has_skip fields ≡ false
    → events (log_request log route status fields s).sentry
      ≡ events s.sentry + request_events route status
unfolding log_request rank
events-log_request log route status fields s h clean = elim (Bool-cases (leb 500 status)) [
  | inl failed ↦ elim (Bool-cases (is_health_check_route route)) [
    | inl probe ↦
        rw (failed, probe)
          (events-log_at log Level.error "http_request" (fields ++ skip_sentry ∷ []) s h
            ∙ rw (has_skip-append fields (skip_sentry ∷ []), clean) refl)
    | inr other ↦
        rw (failed, other) (events-log_at log Level.error "http_request" fields s h ∙ rw clean refl)
  ]
  | inr fine ↦ rw fine (elim (Bool-cases (leb 400 status)) [
    | inl refused ↦ rw refused (events-log_at log Level.warn "http_request" fields s h)
    | inr done ↦ rw done (events-log_at log Level.info "http_request" fields s h)
  ])
]

-- Recover of the library, and the entry of the panic.
abbrev pub panic_events : Option FieldValue → ℕ
panic_events none = 0
panic_events (some v) = 2

module _ (split_host : String → Option String) (R : ResponseWriter)
    (encode_error : String → String) where
  events-after_recover :
      (log : Logger) (r : Request) (rec : Option FieldValue) (o : Outgoing R)
      → IsForwarding log
      → events (after_recover split_host log R encode_error r rec o).telemetry.sink.sentry
        ≡ events o.telemetry.sink.sentry + panic_events rec
  unfolding after_recover rank
  events-after_recover log r none o h = omega arith
  events-after_recover log r (some v) o h =
      let calls = recover v ∷ flush ∷ [] in
      let told = record o.telemetry.sink { sentry = o.telemetry.sink.sentry ++ calls } in
      events-log_at log Level.error "panic_recovered" (panic_fields split_host r v) told h
      ∙ rw (events-append o.telemetry.sink.sentry calls) (omega arith)

  access_log-events_forwarding :
      (log : Logger) (next : Request → Serve) (elapsed : ℕ) (r : Request) (w : R.State)
      (t : Telemetry)
      → IsForwarding log
      → (o : Outgoing R)
      → access_log_and_metrics split_host log R encode_error next elapsed r w t ≡ o
      → events o.telemetry.sink.sentry
        ≡ events t.sink.sentry
          + panic_events (serve R (next r) (status_writer R w)).0
          + request_events (route_template r.route) o.writer.status
  unfolding access_log_and_metrics observe
  access_log-events_forwarding log next elapsed r w t h o ran =
      let (rec, sw) = serve R (next r) (status_writer R w) in
      let start : Outgoing R = record { writer = sw; telemetry = t } in
      let o' = after_recover split_host log R encode_error r rec start in
      let fields = request_fields split_host r elapsed o'.writer.status o'.writer.bytes_written in
      rw (← ran) (
        events-log_request log (route_template r.route) o'.writer.status fields o'.telemetry.sink h
          (request_fields-has_skip split_host r elapsed o'.writer.status o'.writer.bytes_written)
        ∙ ap (λ n. n + request_events (route_template r.route) o'.writer.status)
            (events-after_recover log r rec start h))

  -- With the logger that InitSentry makes of a logger that tells Sentry nothing, where SENTRY_DSN is set
  -- and the library starts, a request adds events for Sentry as follows, whatever its handler does: two
  -- where the handler panics, and one more exactly where the status that is counted is 500 or more on
  -- another route than the probes'. So a probe that answers 503 adds none.
  pub access_log-events :
      (getenv : String → String) (init : ClientOptions → Option String)
      (new_tee : Logger → SentryCore → Logger) (env : String) (plain : Logger) (s : Sink)
      → IsTee new_tee
      → IsPlain plain
      → str_eq (getenv "SENTRY_DSN") "" ≡ false
      → init (sentry_options getenv init new_tee env) ≡ none
      → (next : Request → Serve) (elapsed : ℕ) (r : Request) (w : R.State) (t : Telemetry)
      → (o : Outgoing R)
      → access_log_and_metrics split_host
          (init_sentry getenv init new_tee env plain s).0.0
          R
          encode_error
          next
          elapsed
          r
          w
          t
        ≡ o
      → events o.telemetry.sink.sentry
        ≡ events t.sink.sentry
          + panic_events (serve R (next r) (status_writer R w)).0
          + request_events (route_template r.route) o.writer.status
  access_log-events getenv init new_tee env plain s tee silent dsn started next elapsed r w t =
      access_log-events_forwarding _ next elapsed r w t
        (init_sentry-IsForwarding getenv init new_tee env plain s tee silent dsn started)
