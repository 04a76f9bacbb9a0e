-- ===== src/Start/Server.antt =====
-- cmd/server/main.go up to NewRouter, with the configuration that the router is made from, and the
-- loop that starts a subscriber again.
use onyxchat.Base.{◌*◌, String, str_eq, Bool, true, false, not, List, [], ◌∷◌, if◌then◌else◌}
use onyxchat.Text.{split, trim_space}
use onyxchat.Http.Sentry.{Level, Logger, text, init_sentry, reflect}
use onyxchat.Start.{
  Platform, RedisOptions, running, Boot, ◌>>=◌, ◌>>◌, pure, done, fatal, unless, log_with,
  error_field, env_or,
}
use onyxchat.Start.Database.{Pool, resolve_secret, must_open, run_migrations, init_tracer}

abbrev pub keep_origins : List String → List String
keep_origins [] = []
keep_origins (part ∷ parts) =
    let rest = keep_origins parts in
    if str_eq (trim_space part) "" then rest else trim_space part ∷ rest

unfoldable pub parse_allowed_origins : String → List String
unfolding split trim_space
parse_allowed_origins s = if str_eq s "" then [] else keep_origins (split 44 s)

abbrev pub is_empty {ℓ} : {A : Type ℓ} → List A → Bool
is_empty [] = true
is_empty (x ∷ xs) = false

-- What the server runs with.
pub record Config : Type 0 where
  pub env : String
  pub addr : String
  pub logger : Logger
  pub jwt_secret : String
  pub pool : Pool
  pub redis : RedisOptions
  pub service_secret : String
  pub admin_username : String
  pub allowed_origins : List String

abbrev pub dev_service_secret : String
dev_service_secret = "dev-insecure-service-secret"

module _ (p : Platform) where
  abbrev pub with_sentry : String → Logger → Boot Logger
  with_sentry env log s =
      let ((log', flushes), s') = init_sentry p.getenv p.init_sentry_sdk p.new_tee env log s in
      (running log', s')

  unfoldable pub jwt_secret : Logger → String → Boot String
  unfolding resolve_secret
  jwt_secret log env = do
    secret ← resolve_secret p "JWT_SECRET" "/onyxchat/prod/JWT_SECRET"
    if not (str_eq secret "")
        then pure secret
        else if str_eq env "prod"
        then fatal log "JWT_SECRET is required in prod (set SM_ENV=prod and JWT_SECRET)" []
        else log_with log Level.warn "JWT_SECRET not set; using insecure dev default"
            (text "SM_ENV" env ∷ [])
          >> pure "dev-insecure-jwt-secret-change-me"

  -- The options of the client: TLS from version 1.2 on and a password in prod only.
  unfoldable pub redis_options : String → Boot RedisOptions
  unfolding resolve_secret
  redis_options env =
      let options : RedisOptions = record {
        addr = env_or p "SM_REDIS_ADDR" "redis:6379";
        dial_timeout = 5 * 1000;
        read_timeout = 10 * 1000;
        write_timeout = 5 * 1000;
        tls = str_eq env "prod";
        password = "";
      } in
      if str_eq env "prod"
      then resolve_secret p "SM_REDIS_AUTH_TOKEN" "/onyxchat/prod/SM_REDIS_AUTH_TOKEN"
        >>= (λ password. pure (record options { password = password }))
      else pure options

  unfoldable pub connect_redis : Logger → RedisOptions → Boot (Unit {0})
  connect_redis log options =
      unless
        (λ e. log_with log Level.warn "failed to instrument Redis with OTel" (error_field e ∷ []))
        p.instrument_tracing done
      >> unless
          (λ e.
            fatal log "failed to connect to Redis" (text "addr" options.addr ∷ error_field e ∷ []))
          (p.ping_redis options)
          (log_with log Level.info "connected to Redis" (text "addr" options.addr ∷ []))

  unfoldable pub service_secret : Logger → Boot String
  service_secret log =
      let secret = p.getenv "INTERNAL_SERVICE_SECRET" in
      if str_eq secret ""
      then log_with log Level.warn "INTERNAL_SERVICE_SECRET not set; using insecure dev default" []
        >> pure dev_service_secret
      else pure secret

  unfoldable pub admin_username : Logger → String → Boot String
  admin_username log env =
      let name = p.getenv "SM_ADMIN_USERNAME" in
      if not (str_eq name "")
      then pure name
      else if str_eq env "prod"
      then fatal log "SM_ADMIN_USERNAME is required in prod" []
      else log_with log Level.warn "SM_ADMIN_USERNAME not set; using dev default"
          (text "username" "admin" ∷ [])
        >> pure "admin"

  unfoldable pub allowed_origins : Logger → String → Boot (List String)
  unfolding parse_allowed_origins
  allowed_origins log env =
      let origins = parse_allowed_origins (p.getenv "SM_ALLOWED_ORIGINS") in
      if not (is_empty origins)
      then pure origins
      else if str_eq env "prod"
      then fatal log "SM_ALLOWED_ORIGINS is required in prod" []
      else log_with log Level.warn "SM_ALLOWED_ORIGINS not set; using insecure dev default"
          (record { key = "allowed_origins"; value = reflect "http://localhost:5173" } ∷ [])
        >> pure ("http://localhost:5173" ∷ [])

  -- `main` up to NewRouter, with the logger that initLogger made.
  unfoldable pub start : Logger → Boot Config
  unfolding jwt_secret redis_options connect_redis service_secret admin_username allowed_origins
      must_open run_migrations init_tracer init_sentry
  start plain = do
    init_tracer p plain
    let env = env_or p "SM_ENV" "dev"
    log ← with_sentry env plain
    let addr = env_or p "SM_SERVER_ADDR" ":8080"
    jwt ← jwt_secret log env
    pool ← must_open p
    unless (λ e. fatal log "failed to run migrations" (error_field e ∷ [])) (run_migrations p) done
    redis ← redis_options env
    connect_redis log redis
    service ← service_secret log
    admin ← admin_username log env
    origins ← allowed_origins log env
    pure (record {
      env = env;
      addr = addr;
      logger = log;
      jwt_secret = jwt;
      pool = pool;
      redis = redis;
      service_secret = service;
      admin_username = admin;
      allowed_origins = origins;
    })
