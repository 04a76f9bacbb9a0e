-- ===== src/Start/Database.antt =====
-- internal/store/db.go and schema.go: where secrets come from, how the database is opened and migrated,
-- and internal/http/tracing.go. Attributes of traces and connections are left to their libraries.
use Prim.Native.String.{◌++◌}
use onyxchat.Base.{
  ℕ, ◌*◌, String, str_eq, Bool, true, false, Option, none, some, [], ◌∷◌, if◌then◌else◌,
}
use onyxchat.Http.Sentry.{Level, Logger, text}
use onyxchat.Start.{
  Platform, Migrated, applied, unchanged, broken, Boot, ◌>>=◌, ◌>>◌, pure, done, fatalf, unless,
  from_fetched, log_with, error_field,
}

-- A pool of connections by its source name and its settings, the times in seconds.
pub record Pool : Type 0 where
  pub dsn : String
  pub max_open_conns : ℕ
  pub max_idle_conns : ℕ
  pub conn_max_lifetime : ℕ
  pub conn_max_idle_time : ℕ

abbrev pub max_open_conns_per_task : ℕ
max_open_conns_per_task = 8

abbrev pub new_pool : String → Pool
new_pool dsn = record {
  dsn = dsn;
  max_open_conns = max_open_conns_per_task;
  max_idle_conns = max_open_conns_per_task;
  conn_max_lifetime = 5 * 60;
  conn_max_idle_time = 60;
}

-- The error of Up, ErrNoChange left out, and of Version, ErrNilVersion left out.
abbrev pub migration_error : Migrated → Option String
migration_error applied = none
migration_error unchanged = none
migration_error (broken e) = some e

abbrev pub or_error : String → Option String → Option String → Option String
or_error prefix (some e) rest = some (prefix ++ e)
or_error prefix none rest = rest

module _ (p : Platform) where
  -- `ResolveSecret`.
  unfoldable pub resolve_secret : (env_key ssm_path : String) → Boot String
  resolve_secret env_key ssm_path =
      if str_eq (p.getenv env_key) ""
      then unless (λ e. fatalf ("failed to load AWS config: " ++ e)) p.aws_config
          (from_fetched (λ e. fatalf ("failed to fetch SSM param " ++ ssm_path ++ ": " ++ e))
            (p.get_parameter ssm_path) pure)
      else pure (p.getenv env_key)

  -- The text of fmt.Sprintf.
  abbrev pub dsn_of : String × String → String
  dsn_of (username, password) =
      "postgres://"
      ++ username
      ++ ":"
      ++ p.query_escape password
      ++ "@"
      ++ p.getenv "SM_DB_HOST"
      ++ ":"
      ++ p.getenv "SM_DB_PORT"
      ++ "/"
      ++ p.getenv "SM_DB_NAME"

  unfoldable pub resolve_db_dsn : Boot String
  resolve_db_dsn =
      let arn = p.getenv "SM_DB_SECRET_ARN" in
      if str_eq (p.getenv "SM_DB_DSN") ""
      then unless (λ e. fatalf ("failed to load AWS config: " ++ e)) p.aws_config
          (from_fetched (λ e. fatalf ("failed to fetch DB secret " ++ arn ++ ": " ++ e))
            (p.get_secret_value arn)
            λ secret.
              from_fetched (λ e. fatalf ("failed to parse DB secret: " ++ e)) (p.parse_creds secret)
                λ creds. pure (dsn_of creds))
      else pure (p.getenv "SM_DB_DSN")

  unfoldable pub must_open : Boot Pool
  unfolding resolve_db_dsn
  must_open = do
    dsn ← resolve_db_dsn
    unless (λ e. fatalf ("failed to open db: " ++ e)) (p.open_db dsn)
        (unless (λ e. fatalf ("failed to ping db: " ++ e)) (p.ping_db dsn) (pure (new_pool dsn)))

  -- `RunMigrations`: the text of its error. What it prints is left out.
  unfoldable pub run_migrations : Option String
  run_migrations = or_error "create migration source: " p.migration_source (
      or_error "create migration driver: " p.migration_driver (
        or_error "create migrator: " p.new_migrator (
          or_error "run migrations: " (migration_error p.migrate_up)
            (or_error "check migration version: " (migration_error p.migration_version) none))))

  -- `InitTracer`: whether spans are exported, and the function that it returns shuts the exporter down.
  unfoldable pub init_tracer : Logger → Boot Bool
  init_tracer log =
      let endpoint = p.getenv "OTEL_EXPORTER_OTLP_ENDPOINT" in
      if str_eq endpoint ""
      then log_with log Level.info "tracing disabled (OTEL_EXPORTER_OTLP_ENDPOINT not set)" []
        >> pure false
      else unless
          (λ e.
            log_with log Level.error "failed to create OTLP exporter, tracing disabled"
              (error_field e ∷ [])
            >> pure false)
          (p.new_exporter endpoint)
          (unless
              (λ e. log_with log Level.warn "failed to create OTel resource" (error_field e ∷ []))
              p.new_resource done
            >> log_with log Level.info "tracing enabled" (text "endpoint" endpoint ∷ [])
            >> pure true)
